-- ===== src/Channeldb/Invoices.antt =====
-- channeldb/invoices.go: invoices in the database, numbered, with an index by payment hash. Each
-- operation is one bolt transaction; an error leaves the store as it was.
pub mod Lookups
pub mod Numbered
pub mod Examples
use lnd_cc.Prelude.{
  ℕ, zero, suc, ◌+◌, ◌-◌, ◌%◌, ◌/◌, ◌^◌, ◌*◌, ◌≤◌, ◌<◌, ◌≡◌, ◌≢◌, refl, sym, ap, ◌∙◌, ◌⊎◌, inl, inr,
  Bool, true, false, not, ◌&&◌, ◌||◌, Option, none, some, List, [], ◌∷◌, ◌++◌, map, ltb, leb, ◌==◌,
  if◌then◌else◌, length, length-append, length-take, length-drop, take, drop, take-append-drop,
  take-append_left, drop-append_left, arith, Result, ok, err, ◌>>=◌, ◌>>◌, guard, >>=-eq-ok,
  ok-injective, Result-cases, lt→ltb, le→leb, lt→leb, ltb→lt, ltb→le, leb→le, leb→lt, ==_iff,
  ==_refl, bytes_equal, bytes_equal_refl, eq_of_bytes_equal, All, append-nil, append_assoc,
  Bool-cases, Option-cases,
}
use lnd_cc.Bytes.{put_be, from_be, read_full}
use lnd_cc.Lnwire.{WireLib}
use lnd_cc.Channeldb.{DbLib}

-- Go's time.Time and fastsha256. Time is what MarshalBinary keeps of a time; it refuses some, and
-- writes at most 16 bytes.
pub record InvoiceLib : Type 1 where
  pub Time : Type 0
  pub marshal_binary : Time → Option (List ℕ)
  pub unmarshal_binary : List ℕ → Option Time
  pub sum256 : List ℕ → List ℕ
  pub unmarshal-marshal_binary :
      (t : Time) (bs : List ℕ) → marshal_binary t ≡ some bs → unmarshal_binary bs ≡ some t
  pub length-marshal_binary : (t : Time) (bs : List ℕ) → marshal_binary t ≡ some bs → length bs ≤ 16
  pub length-sum256 : (bs : List ℕ) → length (sum256 bs) ≡ 32

pub data InvoiceError : Type 0 where
  duplicate_invoice invoice_not_found : InvoiceError
  short_read bad_var_bytes bad_time put_failed : InvoiceError
  -- a slice out of range, which is a panic
  out_of_range : InvoiceError

abbrev pub max_memo_size : ℕ
max_memo_size = 1024

abbrev pub max_receipt_size : ℕ
max_receipt_size = 1024

abbrev pub num_invoices_key : List ℕ
num_invoices_key = b'n' ∷ b'i' ∷ b'k' ∷ []

pub record ContractTerm : Type 0 where
  pub payment_preimage : List ℕ
  pub value : ℕ
  pub settled : Bool

pub record Invoice (T : InvoiceLib) : Type 0 where
  pub memo : List ℕ
  pub receipt : List ℕ
  pub creation_date : T.Time
  pub terms : ContractTerm

module _ (L : WireLib) (D : DbLib L) (T : InvoiceLib) where
  -- invoiceBucket, with the index nested in it.
  pub record Invoices : Type 0 where
    pub rows : D.Bucket
    pub index : Option D.Bucket

  abbrev pub InvoiceStore : Type 0
  InvoiceStore = Option Invoices

  unfoldable pub rows_of : InvoiceStore → D.Bucket
  rows_of none = D.empty
  rows_of (some s) = s.rows

  unfoldable pub index_of : InvoiceStore → D.Bucket
  index_of none = D.empty
  index_of (some s) = elim s.index [ none ↦ D.empty | some b ↦ b ]

  unfoldable pub read : ℕ → List ℕ → Result InvoiceError (List ℕ × List ℕ)
  unfolding read_full
  read n bs = elim (read_full n bs) [ none ↦ err short_read | some r ↦ ok r ]

  -- serializeInvoice, which fails if its date cannot be marshalled.
  unfoldable pub serialize_invoice : Invoice T → Option (List ℕ)
  unfolding put_be
  serialize_invoice i = elim (T.marshal_binary i.creation_date) [
    | none ↦ none
    | some birth ↦ some (
        i.memo
        ++ (i.receipt
            ++ (L.write_var_bytes birth
                ++ (i.terms.payment_preimage
                    ++ (put_be 8 i.terms.value ++ (if i.terms.settled then 1 ∷ [] else 0 ∷ []))))))
  ]

  unfoldable pub read_birth : List ℕ → Result InvoiceError (T.Time × List ℕ)
  read_birth bs = elim (L.read_var_bytes 300 bs) [
    | none ↦ err bad_var_bytes
    | some (birth, rest) ↦ elim (T.unmarshal_binary birth) [
      | none ↦ err bad_time
      | some t ↦ ok (t, rest)
    ]
  ]

  unfoldable pub deserialize_invoice : List ℕ → Result InvoiceError (Invoice T)
  unfolding read read_birth from_be
  deserialize_invoice bs = do
    (memo, bs₁) ← read max_memo_size bs
    (receipt, bs₂) ← read max_receipt_size bs₁
    (date, bs₃) ← read_birth bs₂
    (preimage, bs₄) ← read 32 bs₃
    (value, bs₅) ← read 8 bs₄
    (settle, bs₆) ← read 1 bs₅
    ok (record {
      memo = memo;
      receipt = receipt;
      creation_date = date;
      terms = record {
        payment_preimage = preimage;
        value = from_be 0 value;
        settled = bytes_equal settle (1 ∷ []);
      };
    })

  unfoldable pub put_row : (key value : List ℕ) → D.Bucket → Result InvoiceError D.Bucket
  put_row key value b = elim (D.put key value b) [ none ↦ err put_failed | some b' ↦ ok b' ]

  -- An invoice that cannot be serialized is no error: its hash and number stay without a row.
  unfoldable pub put_invoice :
      (rows index : D.Bucket)
      → Invoice T
      → (invoice_num : ℕ) → Result InvoiceError (D.Bucket × D.Bucket)
  unfolding put_row serialize_invoice put_be
  put_invoice rows index i invoice_num = do
    rows₁ ← put_row num_invoices_key (put_be 4 ((invoice_num + 1) % 2 ^ 32)) rows
    index₁ ← put_row (T.sum256 i.terms.payment_preimage) (put_be 4 invoice_num) index
    rows₂ ← elim (serialize_invoice i) [
      | none ↦ ok rows₁
      | some bs ↦ put_row (put_be 4 invoice_num) bs rows₁
    ]
    ok (rows₂, index₁)

  -- The counter, or that it was put as 0 first; nothing, if that fails.
  unfoldable pub next_number : D.Bucket → Result InvoiceError (Option (D.Bucket × ℕ))
  unfolding put_be from_be
  next_number rows = elim (D.get num_invoices_key rows) [
    | none ↦ elim (D.put num_invoices_key (put_be 4 0) rows) [
      | none ↦ ok none
      | some rows' ↦ ok (some (rows', 0))
    ]
    | some counter ↦
        if leb 4 (length counter)
        then ok (some (rows, from_be 0 (take 4 counter)))
        else err out_of_range
  ]

  unfoldable pub add_numbered :
      (rows index : D.Bucket) → Invoice T → Option (D.Bucket × ℕ) → Result InvoiceError InvoiceStore
  unfolding put_invoice
  add_numbered rows index i none = ok (some (record { rows = rows; index = some index }))
  add_numbered rows index i (some (rows', invoice_num)) = do
    (rows'', index') ← put_invoice rows' index i invoice_num
    ok (some (record { rows = rows''; index = some index' }))

  unfoldable pub add_invoice : Invoice T → InvoiceStore → Result InvoiceError InvoiceStore
  unfolding rows_of index_of next_number add_numbered
  add_invoice i s = elim (D.get (T.sum256 i.terms.payment_preimage) (index_of s)) [
    | some num ↦ err duplicate_invoice
    | none ↦ do numbered ← next_number (rows_of s); add_numbered (rows_of s) (index_of s) i numbered
  ]

  unfoldable pub fetch_invoice : (invoice_num : List ℕ) → D.Bucket → Result InvoiceError (Invoice T)
  unfolding deserialize_invoice
  fetch_invoice invoice_num rows = elim (D.get invoice_num rows) [
    | none ↦ err invoice_not_found
    | some bs ↦ deserialize_invoice bs
  ]

  -- A bucket that is missing holds no hash.
  unfoldable pub lookup_invoice :
      (payment_hash : List ℕ) → InvoiceStore → Result InvoiceError (Invoice T)
  unfolding fetch_invoice
  lookup_invoice payment_hash none = err invoice_not_found
  lookup_invoice payment_hash (some s) = elim s.index [
    | none ↦ err invoice_not_found
    | some index ↦ elim (D.get payment_hash index) [
      | none ↦ err invoice_not_found
      | some invoice_num ↦ fetch_invoice invoice_num s.rows
    ]
  ]

  unfoldable pub settled_invoice : Invoice T → Invoice T
  settled_invoice i = record {
    memo = i.memo;
    receipt = i.receipt;
    creation_date = i.creation_date;
    terms = record {
      payment_preimage = i.terms.payment_preimage;
      value = i.terms.value;
      settled = true;
    };
  }

  -- An invoice that cannot be serialized is no error either.
  unfoldable pub put_serialized :
      (invoice_num : List ℕ) → D.Bucket → Invoice T → Result InvoiceError D.Bucket
  unfolding serialize_invoice put_row
  put_serialized invoice_num rows i = elim (serialize_invoice i) [
    | none ↦ ok rows
    | some bs ↦ put_row invoice_num bs rows
  ]

  -- The rows after settleInvoice.
  unfoldable pub settle_row : (invoice_num : List ℕ) → D.Bucket → Result InvoiceError D.Bucket
  unfolding fetch_invoice settled_invoice put_serialized
  settle_row invoice_num rows = do
    i ← fetch_invoice invoice_num rows
    put_serialized invoice_num rows (settled_invoice i)

  unfoldable pub settle_invoice :
      (payment_hash : List ℕ) → InvoiceStore → Result InvoiceError InvoiceStore
  unfolding rows_of index_of settle_row
  settle_invoice payment_hash s = elim (D.get payment_hash (index_of s)) [
    | none ↦ err invoice_not_found
    | some invoice_num ↦ do
      rows ← settle_row invoice_num (rows_of s)
      ok (some (record { rows = rows; index = some (index_of s) }))
  ]
