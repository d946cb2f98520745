-- ===== src/InvoiceRegistry/Lookups.antt =====
-- invoiceregistry.go: whatever was added, an invoice that is looked up can be redeemed by its
-- preimage.
use lnd_cc.Prelude.{
  ℕ, ◌≡◌, inl, inr, List, [], ◌∷◌, some, bytes_equal, Bool-cases, eq_of_bytes_equal,
}
use lnd_cc.InvoiceRegistry.{
  Invoice, InvoiceRegistry, new_invoice_registry, add_invoice, lookup_invoice, add_all,
}

module _ (sum256 : List ℕ → List ℕ) where
  -- Every invoice of the registry stands under the hash of its preimage.
  abbrev pub IsRedeemable : InvoiceRegistry → Type 0
  IsRedeemable registry =
      (hash : List ℕ) (i : Invoice)
      → lookup_invoice sum256 hash registry ≡ some i
      → (i.payment_hash ≡ hash) × (sum256 i.payment_preimage ≡ hash)

  add_invoice-IsRedeemable :
      (amt : ℕ) (preimage : List ℕ) (registry : InvoiceRegistry)
      → IsRedeemable registry
      → IsRedeemable (add_invoice sum256 amt preimage registry)
  unfolding add_invoice lookup_invoice
  add_invoice-IsRedeemable amt preimage registry x hash i e =
      elim (Bool-cases (bytes_equal hash (sum256 preimage))) [
        | inr t ↦ x hash i (rw t at e)
        | inl t ↦
            let own : hash ≡ sum256 preimage = eq_of_bytes_equal hash (sum256 preimage) t in
            let same = rw t at e in (cc (same, own), cc (same, own))
      ]

  add_all-kept :
      (invoices : List (ℕ × List ℕ)) (registry : InvoiceRegistry)
      → IsRedeemable registry
      → IsRedeemable (add_all sum256 invoices registry)
  unfolding add_all
  add_all-kept [] registry x = x
  add_all-kept ((amt, preimage) ∷ invoices) registry x =
      add_all-kept invoices (add_invoice sum256 amt preimage registry)
        (add_invoice-IsRedeemable amt preimage registry x)

  -- Whatever invoices were added to a new registry, an invoice that lookupInvoice returns for a hash
  -- has that hash, and its preimage hashes to it.
  pub add_all-IsRedeemable :
      (invoices : List (ℕ × List ℕ)) (hash : List ℕ) (i : Invoice)
      → lookup_invoice sum256 hash (add_all sum256 invoices new_invoice_registry) ≡ some i
      → (i.payment_hash ≡ hash) × (sum256 i.payment_preimage ≡ hash)
  unfolding new_invoice_registry lookup_invoice
  add_all-IsRedeemable invoices hash i e =
      add_all-kept invoices new_invoice_registry (λ h j none_there. absurd (cc (none_there))) hash i
        e
