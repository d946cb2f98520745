-- ===== src/Channeldb/Invoices/Examples.antt =====
-- Runs of channeldb/invoices.go, and its theorems at concrete inputs.
use lnd_cc.Prelude.{
  ℕ, ◌≤◌, ◌<◌, ◌≡◌, ◌≢◌, refl, ◌⊎◌, inl, inr, Bool, true, false, Option, none, some, List, [], ◌∷◌,
  ◌++◌, if◌then◌else◌, length, arith, ok, leb→le, bytes_equal, Bool-cases,
}
use lnd_cc.Bytes.{put_be}
use lnd_cc.Lnwire.Sample.{toy_lib}
use lnd_cc.Channeldb.Sample.{toy_zeros, toy_db}
use lnd_cc.Channeldb.Invoices.{
  InvoiceLib, Invoice, InvoiceStore, index_of, rows_of, serialize_invoice, deserialize_invoice,
  add_invoice, lookup_invoice, settled_invoice, settle_invoice,
}
use lnd_cc.Channeldb.Invoices.Lookups.{IsInvoice, deserialize_invoice-serialize_invoice}
use lnd_cc.Channeldb.Invoices.Numbered.{
  IsNumbered, lookup_invoice-add_invoice, lookup_invoice-settle_invoice,
}

abbrev toy_unmarshal : List ℕ → Option ℕ
toy_unmarshal [] = none
toy_unmarshal (t ∷ bs) = some t

-- A hash that keeps the first byte.
abbrev toy_sum : List ℕ → List ℕ
toy_sum [] = toy_zeros 32
toy_sum (x ∷ xs) = x ∷ toy_zeros 31

length-toy_sum : (bs : List ℕ) → length (toy_sum bs) ≡ 32
length-toy_sum [] = refl
length-toy_sum (x ∷ xs) = refl

toy_time :
    (t : ℕ) (bs : List ℕ)
    → ◌≡◌ {A = Option (List ℕ)} (some (t ∷ [])) (some bs)
    → toy_unmarshal bs ≡ some t
toy_time t [] e = absurd (cc (e))
toy_time t (x ∷ bs) e = cc (e)

toy_time_size :
    (t : ℕ) (bs : List ℕ) → ◌≡◌ {A = Option (List ℕ)} (some (t ∷ [])) (some bs) → length bs ≤ 16
toy_time_size t bs e = let same : t ∷ [] ≡ bs = cc (e) in rw (← same) (omega arith)

abbrev toy_clock : InvoiceLib
toy_clock = record {
  Time = ℕ;
  marshal_binary = λ t. some (t ∷ []);
  unmarshal_binary = toy_unmarshal;
  sum256 = toy_sum;
  unmarshal-marshal_binary = toy_time;
  length-marshal_binary = toy_time_size;
  length-sum256 = length-toy_sum;
}

abbrev toy_invoice : (settled : Bool) → Invoice toy_clock
toy_invoice settled = record {
  memo = toy_zeros 1024;
  receipt = toy_zeros 1024;
  creation_date = 8;
  terms = record { payment_preimage = 3 ∷ toy_zeros 31; value = 500; settled = settled };
}

abbrev toy_bytes : (settled : Bool) → List ℕ
toy_bytes settled =
    toy_zeros 1024
    ++ (toy_zeros 1024
        ++ (1
            ∷ 8
            ∷ 3
            ∷ (toy_zeros 31
                ++ (0 ∷ 0 ∷ 0 ∷ 0 ∷ 0 ∷ 0 ∷ 1 ∷ 244 ∷ (if settled then 1 ∷ [] else 0 ∷ [])))))

toy_invoice-IsInvoice :
    (settled : Bool) → IsInvoice toy_lib toy_db toy_clock (toy_invoice settled) (toy_bytes settled)
unfolding serialize_invoice
toy_invoice-IsInvoice true =
    (refl, refl, refl, omega arith, refl, leb→le (length (toy_bytes true)) 2147483646 refl)
toy_invoice-IsInvoice false =
    (refl, refl, refl, omega arith, refl, leb→le (length (toy_bytes false)) 2147483646 refl)

no_invoices-IsNumbered : IsNumbered toy_lib toy_db toy_clock 0 none
unfolding index_of rows_of
no_invoices-IsNumbered = record {
  counter = inl (refl, refl);
  numbered = λ hash num e. absurd (cc (e));
}

deserialize_invoice-serialize_invoice_example :
    deserialize_invoice toy_lib toy_db toy_clock (toy_bytes false) ≡ ok (toy_invoice false)
deserialize_invoice-serialize_invoice_example =
    deserialize_invoice-serialize_invoice toy_lib toy_db toy_clock (toy_invoice false)
      (toy_bytes false) (toy_invoice-IsInvoice false)

lookup_invoice-add_invoice_example :
    (s' : InvoiceStore toy_lib toy_db toy_clock) × (add_invoice toy_lib toy_db toy_clock
        (toy_invoice false)
        none
      ≡ ok s')
    × IsNumbered toy_lib toy_db toy_clock 1 s'
    × ((h : List ℕ)
        → lookup_invoice toy_lib toy_db toy_clock h s' ≡ (
            if bytes_equal h (toy_sum (3 ∷ toy_zeros 31))
            then ok (toy_invoice false)
            else lookup_invoice toy_lib toy_db toy_clock h none))
unfolding index_of
lookup_invoice-add_invoice_example =
    lookup_invoice-add_invoice toy_lib toy_db toy_clock (toy_invoice false) (toy_bytes false) 0 none
      (toy_invoice-IsInvoice false) no_invoices-IsNumbered (omega arith) refl

-- The store that holds the invoice.
abbrev one_invoice : InvoiceStore toy_lib toy_db toy_clock
one_invoice = some (record {
  rows = λ key.
      if bytes_equal key (0 ∷ 0 ∷ 0 ∷ 0 ∷ [])
      then some (toy_bytes false)
      else (if bytes_equal key (b'n' ∷ b'i' ∷ b'k' ∷ []) then some (0 ∷ 0 ∷ 0 ∷ 1 ∷ []) else none);
  index =
      some
        (λ hash. if bytes_equal hash (3 ∷ toy_zeros 31) then some (0 ∷ 0 ∷ 0 ∷ 0 ∷ []) else none);
})

one_invoice-IsNumbered : IsNumbered toy_lib toy_db toy_clock 1 one_invoice
unfolding index_of rows_of bytes_equal put_be
one_invoice-IsNumbered = record {
  counter = inr refl;
  numbered = λ hash num e. first hash num (Bool-cases (bytes_equal hash (3 ∷ toy_zeros 31))) e;
}
  where
    first :
        (hash num : List ℕ)
        → ((bytes_equal hash (3 ∷ toy_zeros 31) ≡ true)
            ⊎ (bytes_equal hash (3 ∷ toy_zeros 31) ≡ false))
        → (if bytes_equal hash (3 ∷ toy_zeros 31) then some (0 ∷ 0 ∷ 0 ∷ 0 ∷ []) else none)
          ≡ some num
        → (k : ℕ) × (num ≡ put_be 4 k) × (k < 1)
    first hash num (inl t) e = (0, cc (rw t at e), omega arith)
    first hash num (inr t) e = absurd (cc (rw t at e))

lookup_invoice-settle_invoice_example :
    (s' : InvoiceStore toy_lib toy_db toy_clock) × (settle_invoice toy_lib toy_db toy_clock
        (3 ∷ toy_zeros 31)
        one_invoice
      ≡ ok s')
    × (lookup_invoice toy_lib toy_db toy_clock (3 ∷ toy_zeros 31) s'
        ≡ ok (settled_invoice toy_lib toy_db toy_clock (toy_invoice false)))
    × ((h : List ℕ)
        → toy_db.get h (index_of toy_lib toy_db toy_clock one_invoice) ≢ some (0 ∷ 0 ∷ 0 ∷ 0 ∷ [])
        → lookup_invoice toy_lib toy_db toy_clock h s'
          ≡ lookup_invoice toy_lib toy_db toy_clock h one_invoice)
    × IsNumbered toy_lib toy_db toy_clock 1 s'
unfolding index_of lookup_invoice bytes_equal settled_invoice
lookup_invoice-settle_invoice_example =
    lookup_invoice-settle_invoice toy_lib toy_db toy_clock (3 ∷ toy_zeros 31) (0 ∷ 0 ∷ 0 ∷ 0 ∷ [])
      (toy_bytes true) (toy_invoice false) 1 one_invoice one_invoice-IsNumbered refl refl
      (toy_invoice-IsInvoice true)
