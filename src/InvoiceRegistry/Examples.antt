-- ===== src/InvoiceRegistry/Examples.antt =====
-- Runs of invoiceregistry.go's registry. The hash here reverses the bytes.
use lnd_cc.Prelude.{ℕ, ◌≡◌, refl, List, [], ◌∷◌, ◌++◌, some, bytes_equal}
use lnd_cc.InvoiceRegistry.{new_invoice_registry, lookup_invoice, add_all}
use lnd_cc.InvoiceRegistry.Lookups.{add_all-IsRedeemable}

abbrev toy_sum : List ℕ → List ℕ
toy_sum [] = []
toy_sum (x ∷ xs) = toy_sum xs ++ x ∷ []

abbrev toy_invoices : List (ℕ × List ℕ)
toy_invoices = (30, 4 ∷ 1 ∷ []) ∷ (40, 5 ∷ 2 ∷ []) ∷ []

abbrev toy_hash : List ℕ
toy_hash = 2 ∷ 5 ∷ []

-- An amount that is added again under the same preimage takes the place of the first.
replaced :
    lookup_invoice toy_sum toy_hash
      (add_all toy_sum ((20, 5 ∷ 2 ∷ []) ∷ toy_invoices) new_invoice_registry)
    ≡ some (record { value = 40; payment_hash = toy_hash; payment_preimage = 5 ∷ 2 ∷ [] })
unfolding lookup_invoice add_all new_invoice_registry bytes_equal
replaced = refl

add_all-IsRedeemable_example : (toy_hash ≡ toy_hash) × (toy_sum (5 ∷ 2 ∷ []) ≡ toy_hash)
unfolding lookup_invoice add_all new_invoice_registry bytes_equal
add_all-IsRedeemable_example =
    add_all-IsRedeemable toy_sum toy_invoices toy_hash
      (record { value = 40; payment_hash = toy_hash; payment_preimage = 5 ∷ 2 ∷ [] }) refl
