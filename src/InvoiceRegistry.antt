-- ===== src/InvoiceRegistry.antt =====
-- invoiceregistry.go: the daemon's registry of outstanding invoices, a map by payment hash. A hash
-- of 32 bytes is the parameter sum256.
pub mod Lookups
pub mod Examples
use lnd_cc.Prelude.{ℕ, zero, suc, List, [], ◌∷◌, Option, none, some, if◌then◌else◌, bytes_equal}

pub record Invoice : Type 0 where
  pub value : ℕ
  pub payment_hash : List ℕ
  pub payment_preimage : List ℕ

abbrev pub InvoiceRegistry : Type 0
InvoiceRegistry = List ℕ → Option Invoice

unfoldable pub new_invoice_registry : InvoiceRegistry
new_invoice_registry hash = none

unfoldable pub repeat : (byte count : ℕ) → List ℕ
repeat byte zero = []
repeat byte (suc count) = byte ∷ repeat byte count

unfoldable pub debug_pre : List ℕ
unfolding repeat
debug_pre = repeat 1 32

module _ (sum256 : List ℕ → List ℕ) where
  unfoldable pub add_invoice : (amt : ℕ) → (preimage : List ℕ) → InvoiceRegistry → InvoiceRegistry
  add_invoice amt preimage registry hash =
      if bytes_equal hash (sum256 preimage)
      then some
          (record { value = amt; payment_hash = sum256 preimage; payment_preimage = preimage })
      else registry hash

  unfoldable pub lookup_invoice : (hash : List ℕ) → InvoiceRegistry → Option Invoice
  lookup_invoice hash registry = registry hash

  -- The value is 100000 * 1e8.
  unfoldable pub debug_invoice : Invoice
  unfolding debug_pre
  debug_invoice = record {
    value = 10000000000000;
    payment_hash = sum256 debug_pre;
    payment_preimage = debug_pre;
  }

  -- addInvoice for each of some amounts and preimages, in order.
  unfoldable pub add_all : List (ℕ × List ℕ) → InvoiceRegistry → InvoiceRegistry
  unfolding add_invoice
  add_all [] registry = registry
  add_all ((amt, preimage) ∷ invoices) registry =
      add_all invoices (add_invoice amt preimage registry)
