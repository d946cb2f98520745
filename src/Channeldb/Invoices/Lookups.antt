-- ===== src/Channeldb/Invoices/Lookups.antt =====
-- channeldb/invoices.go: what is written of an invoice is read back.
use lnd_cc.Prelude.{
  ℕ, ◌^◌, ◌≤◌, ◌<◌, ◌≡◌, refl, sym, ap, ◌∙◌, inl, inr, Bool, true, false, Option, some, List, [],
  ◌∷◌, ◌++◌, if◌then◌else◌, length, arith, ok, bytes_equal, append-nil, Option-cases,
}
use lnd_cc.Bytes.{put_be, from_be, length-put_be, from_be-put_be, read_full-append}
use lnd_cc.Lnwire.{WireLib}
use lnd_cc.Channeldb.{DbLib}
use lnd_cc.Channeldb.Recovery.{bytes_differ}
use lnd_cc.Channeldb.Invoices.{
  InvoiceLib, Invoice, read, serialize_invoice, read_birth, deserialize_invoice, num_invoices_key,
}

pub put_be-injective : (m n : ℕ) → m < 2 ^ 32 → n < 2 ^ 32 → put_be 4 m ≡ put_be 4 n → m ≡ n
put_be-injective m n h k e = sym (from_be-put_be 4 m h) ∙ ap (from_be 0) e ∙ from_be-put_be 4 n k

-- The key of a number is not the counter's.
pub key-counter : (n : ℕ) → bytes_equal (put_be 4 n) num_invoices_key ≡ false
key-counter n = bytes_differ (put_be 4 n) num_invoices_key (λ e.
    let size = length-put_be 4 n in
    let same = ap (λ (bs : List ℕ). length bs) e in absurd (omega (arith, size, same)))

settle_byte : Bool → List ℕ
settle_byte b = if b then 1 ∷ [] else 0 ∷ []

length-settle_byte : (b : Bool) → length (settle_byte b) ≡ 1
unfolding settle_byte
length-settle_byte true = refl
length-settle_byte false = refl

bytes_equal-settle_byte : (b : Bool) → bytes_equal (settle_byte b) (1 ∷ []) ≡ b
unfolding settle_byte bytes_equal
bytes_equal-settle_byte true = refl
bytes_equal-settle_byte false = refl

module _ (L : WireLib) (D : DbLib L) (T : InvoiceLib) where
  read-append :
      (n : ℕ) (bs rest : List ℕ) → length bs ≡ n → read L D T n (bs ++ rest) ≡ ok (bs, rest)
  unfolding read
  read-append n bs rest e = rw (read, read_full-append bs rest n e)

  read-whole : (n : ℕ) (bs : List ℕ) → length bs ≡ n → read L D T n bs ≡ ok (bs, [])
  read-whole n bs e = ap (read L D T n) (sym (append-nil bs)) ∙ read-append n bs [] e

  -- An invoice that can be stored, and its bytes: its parts have their sizes.
  abbrev pub IsInvoice : Invoice T → List ℕ → Type 0
  IsInvoice i bs =
      (length i.memo ≡ 1024)
      × (length i.receipt ≡ 1024)
      × (length i.terms.payment_preimage ≡ 32)
      × (i.terms.value < 2 ^ 64)
      × (serialize_invoice L D T i ≡ some bs)
      × (length bs ≤ 2147483646)

  read_birth-marshal_binary :
      (t : T.Time) (birth rest : List ℕ)
      → T.marshal_binary t ≡ some birth
      → read_birth L D T (L.write_var_bytes birth ++ rest) ≡ ok (t, rest)
  unfolding read_birth
  read_birth-marshal_binary t birth rest e =
      rw
        (
          read_birth,
          L.read-write_var_bytes 300 birth rest (omega (arith, T.length-marshal_binary t birth e)),
        )
        (rw (T.unmarshal-marshal_binary t birth e))

  -- What is serialized of an invoice is read back.
  pub deserialize_invoice-serialize_invoice :
      (i : Invoice T) (bs : List ℕ) → IsInvoice i bs → deserialize_invoice L D T bs ≡ ok i
  unfolding serialize_invoice deserialize_invoice settle_byte
  deserialize_invoice-serialize_invoice i bs (memo, receipt, preimage, value, written, small) =
      elim (Option-cases (T.marshal_binary i.creation_date)) [
        | inl e ↦ absurd (cc (rw (serialize_invoice, e) at written))
        | inr (birth, e) ↦ parts birth e (rw (serialize_invoice, e) at written)
      ]
    where
      parts :
          (birth : List ℕ)
          → T.marshal_binary i.creation_date ≡ some birth
          → ◌≡◌ {A = Option (List ℕ)}
              (some (
                i.memo
                ++ (i.receipt
                    ++ (L.write_var_bytes birth
                        ++ (i.terms.payment_preimage
                            ++ (put_be 8 i.terms.value ++ settle_byte i.terms.settled))))))
              (some bs)
          → deserialize_invoice L D T bs ≡ ok i
      parts birth e same =
          let settle = settle_byte i.terms.settled in
          let value_on = put_be 8 i.terms.value ++ settle in
          let preimage_on = i.terms.payment_preimage ++ value_on in
          let birth_on = L.write_var_bytes birth ++ preimage_on in
          let bytes : bs ≡ i.memo ++ (i.receipt ++ birth_on) = cc (same) in
          rw bytes (
            rw (deserialize_invoice, read-append 1024 i.memo (i.receipt ++ birth_on) memo)
              (rw (read-append 1024 i.receipt birth_on receipt) (
                rw (read_birth-marshal_binary i.creation_date birth preimage_on e) (
                  rw (read-append 32 i.terms.payment_preimage value_on preimage) (
                    rw
                      (read-append 8 (put_be 8 i.terms.value) settle
                        (length-put_be 8 i.terms.value))
                      (rw (read-whole 1 settle (length-settle_byte i.terms.settled)) (
                        rw (
                          bytes_equal-settle_byte i.terms.settled,
                          from_be-put_be 8 i.terms.value value,
                        ))))))))
