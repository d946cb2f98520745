-- ===== src/Channeldb/Invoices/Numbered.antt =====
-- channeldb/invoices.go: what is looked up after invoices are added and settled.
use lnd_cc.Prelude.{
  ℕ, ◌+◌, ◌%◌, ◌^◌, ◌≤◌, ◌<◌, ◌≡◌, ◌≢◌, refl, sym, ap, ◌∙◌, ◌⊎◌, inl, inr, Bool, true, false,
  Option, none, some, List, if◌then◌else◌, length, arith, Result, ok, err, bytes_equal,
  bytes_equal_refl, Bool-cases,
}
use lnd_cc.Bytes.{put_be, length-put_be, from_be-put_be}
use lnd_cc.Lnwire.{WireLib}
use lnd_cc.Channeldb.{DbLib}
use lnd_cc.Channeldb.Recovery.{bytes_differ}
use lnd_cc.Channeldb.Invoices.{
  InvoiceLib, InvoiceError, duplicate_invoice, invoice_not_found, Invoice, InvoiceStore, rows_of,
  index_of, serialize_invoice, num_invoices_key, put_row, put_invoice, next_number, add_numbered,
  add_invoice, fetch_invoice, lookup_invoice, settled_invoice, put_serialized, settle_row,
  settle_invoice,
}
use lnd_cc.Channeldb.Invoices.Lookups.{
  put_be-injective, key-counter, IsInvoice, deserialize_invoice-serialize_invoice,
}

module _ (L : WireLib) (D : DbLib L) (T : InvoiceLib) where
  -- The first n numbers are in use: the counter is n, and every hash of the index has one of them.
  pub record IsNumbered (n : ℕ) (s : InvoiceStore L D T) : Type 0 where
    pub counter :
        ((D.get num_invoices_key (rows_of L D T s) ≡ none) × (n ≡ 0))
        ⊎ (D.get num_invoices_key (rows_of L D T s) ≡ some (put_be 4 n))
    pub numbered :
        (hash num : List ℕ)
        → D.get hash (index_of L D T s) ≡ some num
        → (k : ℕ) × (num ≡ put_be 4 k) × (k < n)

  put_row-get :
      (key value : List ℕ) (b : D.Bucket)
      → 0 < length key
      → length key ≤ 32768
      → length value ≤ 2147483646
      → (b' : D.Bucket) × (put_row L D T key value b ≡ ok b')
        × ((other : List ℕ)
            → D.get other b' ≡ (if bytes_equal other key then some value else D.get other b))
  unfolding put_row
  put_row-get key value b h k l =
      let (b', done, look) = D.get-put key value b h k l in (b', rw (put_row, done), look)

  -- A lookup in terms of the two buckets.
  found_by : (hash : Option (List ℕ)) → D.Bucket → Result InvoiceError (Invoice T)
  found_by none rows = err invoice_not_found
  found_by (some num) rows = fetch_invoice L D T num rows

  lookup_invoice_lem :
      (hash : List ℕ) (s : InvoiceStore L D T)
      → lookup_invoice L D T hash s ≡ found_by (D.get hash (index_of L D T s)) (rows_of L D T s)
  unfolding lookup_invoice index_of rows_of found_by
  lookup_invoice_lem hash none = rw (D.get-empty hash)
  lookup_invoice_lem hash (some s) = by_index s.index refl
    where
      by_hash :
          (index : D.Bucket) (o : Option (List ℕ))
          → D.get hash index ≡ o
          → (elim (D.get hash index) [
            | none ↦ err invoice_not_found
            | some invoice_num ↦ fetch_invoice L D T invoice_num s.rows
          ])
            ≡ found_by (D.get hash index) s.rows
      by_hash index none e = rw e
      by_hash index (some num) e = rw e

      by_index :
          (o : Option D.Bucket)
          → s.index ≡ o
          → lookup_invoice L D T hash (some s)
            ≡ found_by (D.get hash (index_of L D T (some s))) (rows_of L D T (some s))
      by_index none e = rw (lookup_invoice, index_of, e) (rw (D.get-empty hash))
      by_index (some index) e =
          rw (lookup_invoice, index_of, e) (by_hash index (D.get hash index) refl)

  fetch-get :
      (num : List ℕ) (rows rows' : D.Bucket)
      → D.get num rows' ≡ D.get num rows
      → fetch_invoice L D T num rows' ≡ fetch_invoice L D T num rows
  unfolding fetch_invoice
  fetch-get num rows rows' e = rw (fetch_invoice, e)

  next_number-IsNumbered :
      (n : ℕ) (s : InvoiceStore L D T)
      → n < 2 ^ 32
      → IsNumbered n s
      → (rows : D.Bucket) × (next_number L D T (rows_of L D T s) ≡ ok (some (rows, n)))
        × ((k : ℕ) → D.get (put_be 4 k) rows ≡ D.get (put_be 4 k) (rows_of L D T s))
  unfolding next_number put_be
  next_number-IsNumbered n s h x = elim (x.counter) [
    | inr e ↦ (
      rows_of L D T s,
      rw (next_number, e) (ap (λ m. ok (some (rows_of L D T s, m))) (from_be-put_be 4 n h)),
      λ k. refl,
    )
    | inl (e, z) ↦
        let (rows, put, look) =
          D.get-put num_invoices_key (put_be 4 0) (rows_of L D T s) (omega arith) (omega arith)
            (omega (arith, length-put_be 4 0)) in
        (rows, rw (next_number, e) (rw put (rw z)), λ k. look (put_be 4 k) ∙ rw (key-counter k))
  ]

  put_invoice_lem :
      (rows rows₁ rows' index index' : D.Bucket) (i : Invoice T) (bs : List ℕ) (n : ℕ)
      → put_row L D T num_invoices_key (put_be 4 (n + 1)) rows ≡ ok rows₁
      → put_row L D T (T.sum256 i.terms.payment_preimage) (put_be 4 n) index ≡ ok index'
      → serialize_invoice L D T i ≡ some bs
      → put_row L D T (put_be 4 n) bs rows₁ ≡ ok rows'
      → n + 1 < 2 ^ 32
      → put_invoice L D T rows index i n ≡ ok (rows', index')
  unfolding put_invoice
  put_invoice_lem rows rows₁ rows' index index' i bs n counted hashed written stored room =
      let wraps : (n + 1) % 2 ^ 32 ≡ n + 1 = omega (arith, room) in
      rw (wraps, counted) (rw hashed (rw written (rw stored)))

  -- What putInvoice leaves: the counter, the hash's number, and the number's row.
  put_invoice-found :
      (rows index : D.Bucket) (i : Invoice T) (bs : List ℕ) (n : ℕ)
      → IsInvoice L D T i bs
      → n + 1 < 2 ^ 32
      → let hash = T.sum256 i.terms.payment_preimage in
        (rows' : D.Bucket) × (index' : D.Bucket) × (put_invoice L D T rows index i n
          ≡ ok (rows', index'))
        × (D.get num_invoices_key rows' ≡ some (put_be 4 (n + 1)))
        × ((k : ℕ)
            → D.get (put_be 4 k) rows' ≡ (
                if bytes_equal (put_be 4 k) (put_be 4 n) then some bs else D.get (put_be 4 k) rows))
        × ((h : List ℕ)
            → D.get h index' ≡ (if bytes_equal h hash then some (put_be 4 n) else D.get h index))
  put_invoice-found rows index i bs n (memo, receipt, preimage, value, written, small) room =
      let hash = T.sum256 i.terms.payment_preimage in
      let (rows₁, counted, look₁) =
        put_row-get num_invoices_key (put_be 4 (n + 1)) rows (omega arith) (omega arith)
          (omega (arith, length-put_be 4 (n + 1))) in
      let (index', hashed, look₂) =
        put_row-get hash (put_be 4 n) index
          (omega (arith, T.length-sum256 i.terms.payment_preimage))
          (omega (arith, T.length-sum256 i.terms.payment_preimage))
          (omega (arith, length-put_be 4 n)) in
      let (rows', stored, look₃) =
        put_row-get (put_be 4 n) bs rows₁ (omega (arith, length-put_be 4 n))
          (omega (arith, length-put_be 4 n)) small in
      let apart : bytes_equal num_invoices_key (put_be 4 n) ≡ false =
        bytes_differ num_invoices_key (put_be 4 n) (λ e.
          let size = length-put_be 4 n in
          let same = ap (λ (bs : List ℕ). length bs) e in absurd (omega (arith, size, same))) in
      (
        rows',
        index',
        put_invoice_lem rows rows₁ rows' index index' i bs n counted hashed written stored room,
        look₃ num_invoices_key
            ∙ rw apart (look₁ num_invoices_key ∙ rw (bytes_equal_refl num_invoices_key)),
        (λ k.
            look₃ (put_be 4 k)
            ∙ ap (λ o. if bytes_equal (put_be 4 k) (put_be 4 n) then some bs else o)
                (look₁ (put_be 4 k) ∙ rw (key-counter k))),
        look₂,
      )

  found_by-test :
      (test : Bool) (num : List ℕ) (o : Option (List ℕ)) (rows : D.Bucket)
      → found_by (if test then some num else o) rows
        ≡ (if test then fetch_invoice L D T num rows else found_by o rows)
  unfolding found_by
  found_by-test true num o rows = refl
  found_by-test false num o rows = refl

  fetch_invoice-row :
      (i : Invoice T) (bs num : List ℕ) (rows : D.Bucket)
      → IsInvoice L D T i bs
      → D.get num rows ≡ some bs
      → fetch_invoice L D T num rows ≡ ok i
  unfolding fetch_invoice
  fetch_invoice-row i bs num rows fits e =
      rw (fetch_invoice, e) (deserialize_invoice-serialize_invoice L D T i bs fits)

  -- AddInvoice of an invoice whose hash is not in the index, when the numbers are in order and one
  -- is left: it succeeds, its hash finds it, and every other hash finds what it found before.
  pub lookup_invoice-add_invoice :
      (i : Invoice T) (bs : List ℕ) (n : ℕ) (s : InvoiceStore L D T)
      → IsInvoice L D T i bs
      → IsNumbered n s
      → n + 1 < 2 ^ 32
      → D.get (T.sum256 i.terms.payment_preimage) (index_of L D T s) ≡ none
      → (s' : InvoiceStore L D T) × (add_invoice L D T i s ≡ ok s')
        × IsNumbered (n + 1) s'
        × ((h : List ℕ)
            → lookup_invoice L D T h s' ≡ (
                if bytes_equal h (T.sum256 i.terms.payment_preimage)
                then ok i
                else lookup_invoice L D T h s))
  unfolding add_invoice add_numbered rows_of index_of found_by
  lookup_invoice-add_invoice i bs n s fits x room new =
      let hash = T.sum256 i.terms.payment_preimage in
      let (rows, numbered, same) = next_number-IsNumbered n s (omega (arith, room)) x in
      let (rows', index', put, counted, look_rows, look_index) =
        put_invoice-found rows (index_of L D T s) i bs n fits room in
      let s' : InvoiceStore L D T = some (record { rows = rows'; index = some index' }) in
      (
        s',
        rw (add_invoice, new) (rw numbered (rw put)),
        record {
          counter = inr counted;
          numbered = λ h num e. elim (Bool-cases (bytes_equal h hash)) [
            | inl t ↦
                let own : num ≡ put_be 4 n = cc (rw t at (look_index h), e) in (n, own, omega arith)
            | inr t ↦
                let (k, is, below) = x.numbered h num (sym (rw t at (look_index h)) ∙ e) in
                (k, is, omega (arith, below))
          ];
        },
        λ h. lookup_invoice_lem h s' ∙ elim (Bool-cases (bytes_equal h hash)) [
          | inl t ↦ rw (rw t at (look_index h)) (
              rw t (
                fetch_invoice-row i bs (put_be 4 n) rows' fits
                  (rw (bytes_equal_refl (put_be 4 n)) at (look_rows n))))
          | inr t ↦ rw (rw t at (look_index h)) (
              rw t (
                kept h (D.get h (index_of L D T s)) refl rows rows' look_rows same
                ∙ sym (lookup_invoice_lem h s)))
        ],
      )
    where
      kept :
          (h : List ℕ) (o : Option (List ℕ))
          → D.get h (index_of L D T s) ≡ o
          → (rows rows' : D.Bucket)
          → ((k : ℕ)
              → D.get (put_be 4 k) rows' ≡ (
                  if bytes_equal (put_be 4 k) (put_be 4 n)
                  then some bs
                  else D.get (put_be 4 k) rows))
          → ((k : ℕ) → D.get (put_be 4 k) rows ≡ D.get (put_be 4 k) (rows_of L D T s))
          → found_by (D.get h (index_of L D T s)) rows'
            ≡ found_by (D.get h (index_of L D T s)) (rows_of L D T s)
      kept h none e rows rows' look same = rw e
      kept h (some num) e rows rows' look same =
          let (k, is, below) = x.numbered h num e in
          let differ = bytes_differ (put_be 4 k) (put_be 4 n) (λ f.
            let equal = put_be-injective k n (omega (arith, room, below)) (omega (arith, room)) f in
            absurd (omega (arith, equal, below))) in
          rw e (fetch-get num (rows_of L D T s) rows' (rw is (rw differ at (look k) ∙ same k)))

  -- A hash that the index has is refused, whatever the rest of the invoice.
  pub add_invoice-duplicate :
      (i : Invoice T) (num : List ℕ) (s : InvoiceStore L D T)
      → D.get (T.sum256 i.terms.payment_preimage) (index_of L D T s) ≡ some num
      → add_invoice L D T i s ≡ err duplicate_invoice
  unfolding add_invoice
  add_invoice-duplicate i num s e = rw (add_invoice, e)

  settle_row-get :
      (i : Invoice T) (bs num : List ℕ) (rows : D.Bucket)
      → fetch_invoice L D T num rows ≡ ok i
      → IsInvoice L D T (settled_invoice L D T i) bs
      → length num ≡ 4
      → (rows' : D.Bucket) × (settle_row L D T num rows ≡ ok rows')
        × ((other : List ℕ)
            → D.get other rows' ≡ (if bytes_equal other num then some bs else D.get other rows))
  unfolding settle_row put_serialized
  settle_row-get i bs num rows fetched (memo, receipt, preimage, value, written, small) size =
      let (rows', put, look) =
        put_row-get num bs rows (omega (arith, size)) (omega (arith, size)) small in
      (rows', rw fetched (rw (put_serialized, written) put), look)

  -- SettleInvoice of a hash that is found, when the numbers are in order and the settled invoice can
  -- be stored: it succeeds, the hash then finds the same invoice as settled, every hash with another
  -- number finds what it found before, and the numbers stay in order.
  pub lookup_invoice-settle_invoice :
      (hash num bs : List ℕ) (i : Invoice T) (n : ℕ) (s : InvoiceStore L D T)
      → IsNumbered n s
      → D.get hash (index_of L D T s) ≡ some num
      → lookup_invoice L D T hash s ≡ ok i
      → IsInvoice L D T (settled_invoice L D T i) bs
      → (s' : InvoiceStore L D T) × (settle_invoice L D T hash s ≡ ok s')
        × (lookup_invoice L D T hash s' ≡ ok (settled_invoice L D T i))
        × ((h : List ℕ)
            → D.get h (index_of L D T s) ≢ some num
            → lookup_invoice L D T h s' ≡ lookup_invoice L D T h s)
        × IsNumbered n s'
  unfolding settle_invoice rows_of index_of found_by
  lookup_invoice-settle_invoice hash num bs i n s x indexed found fits =
      let (k, is, below) = x.numbered hash num indexed in
      let size : length num ≡ 4 = rw is (length-put_be 4 k) in
      let fetched : fetch_invoice L D T num (rows_of L D T s) ≡ ok i =
        ap (λ o. found_by o (rows_of L D T s)) (sym indexed)
        ∙ sym (lookup_invoice_lem hash s)
        ∙ found in
      let (rows', settled, look) = settle_row-get i bs num (rows_of L D T s) fetched fits size in
      let s' : InvoiceStore L D T =
        some (record { rows = rows'; index = some (index_of L D T s) }) in
      let apart : bytes_equal num_invoices_key num ≡ false =
        bytes_differ num_invoices_key num (λ e.
          let same = ap (λ (bs : List ℕ). length bs) e in absurd (omega (arith, size, same))) in
      (
        s',
        rw (settle_invoice, indexed) (rw settled),
        lookup_invoice_lem hash s'
            ∙ ap (λ o. found_by o rows') indexed
            ∙ fetch_invoice-row (settled_invoice L D T i) bs num rows' fits
                (rw (bytes_equal_refl num) at (look num)),
        (λ h other.
            lookup_invoice_lem h s'
            ∙ kept h (D.get h (index_of L D T s)) refl other rows' look
            ∙ sym (lookup_invoice_lem h s)),
        record {
          counter = rw (rw apart at (look num_invoices_key)) (x.counter);
          numbered = x.numbered;
        },
      )
    where
      kept :
          (h : List ℕ) (o : Option (List ℕ))
          → D.get h (index_of L D T s) ≡ o
          → D.get h (index_of L D T s) ≢ some num
          → (rows' : D.Bucket)
          → ((other : List ℕ)
              → D.get other rows'
                ≡ (if bytes_equal other num then some bs else D.get other (rows_of L D T s)))
          → found_by (D.get h (index_of L D T s)) rows'
            ≡ found_by (D.get h (index_of L D T s)) (rows_of L D T s)
      kept h none e other rows' look = rw e
      kept h (some num') e other rows' look =
          let differ = bytes_differ num' num (λ f. other (e ∙ ap (λ (u : List ℕ). some u) f)) in
          rw e (fetch-get num' (rows_of L D T s) rows' (rw differ at (look num')))
