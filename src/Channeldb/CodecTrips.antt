-- ===== src/Channeldb/CodecTrips.antt =====
-- What channeldb/channel.go writes of HTLCs, deltas and outpoints it reads back, and its loop over
-- stored HTLCs ends.
use lnd_cc.Prelude.{
  ℕ, zero, suc, ◌^◌, ◌≤◌, ◌<◌, ◌≡◌, refl, ap, inl, inr, Bool, true, false, some, List, [], ◌∷◌,
  ◌++◌, if◌then◌else◌, length, length-append, length-take, length-drop, take, drop,
  take-append_left, drop-append_left, arith, Result, ok, err, ◌>>=◌, ok-injective, Result-cases,
  bytes_equal, All, append-nil, append_assoc,
}
use lnd_cc.Bytes.{put_be, length-put_be, from_be-put_be}
use lnd_cc.Lnwire.{WireLib, OutPoint}
use lnd_cc.Channeldb.{DbLib, DbError, eof, Htlc, ChannelDelta}
use lnd_cc.Channeldb.Codec.{
  zeros, read_into, serialize_htlc, deserialize_htlc, serialize_htlcs, read_htlcs, read_all_htlcs,
  read_var_bytes, write_outpoint, read_outpoint, serialize_channel_delta, read_var_int,
  deserialize_channel_delta,
}

pub drop_all : {A : Type 0} (n : ℕ) (xs : List A) → length xs ≤ n → drop n xs ≡ []
drop_all zero [] h = refl
drop_all zero (x ∷ xs) h = absurd (omega arith)
drop_all (suc n) [] h = refl
drop_all (suc n) (x ∷ xs) h = drop_all n xs (omega arith)

pub length-zeros : (n : ℕ) → length (zeros n) ≡ n
unfolding zeros
length-zeros zero = refl
length-zeros (suc n) = ap suc (length-zeros n)

-- A value that fills the buffer is read whole, whatever the buffer held.
pub read_into-append :
    (buf v rest : List ℕ)
    → length v ≡ length buf
    → 0 < length v
    → read_into buf (v ++ rest) ≡ ok (v, rest)
unfolding read_into
read_into-append buf [] rest e h = absurd (omega arith)
read_into-append buf (x ∷ v) rest e h = rw (← e) (
    rw (
      take-append_left v rest,
      drop-append_left v rest,
      drop_all (suc (length (v ++ rest))) buf (omega (arith, length-append v rest)),
      append-nil,
    ))

flag_byte : Bool → List ℕ
flag_byte b = if b then 1 ∷ [] else 0 ∷ []

length-flag_byte : (b : Bool) → length (flag_byte b) ≡ 1
unfolding flag_byte
length-flag_byte true = refl
length-flag_byte false = refl

bytes_equal-flag_byte : (b : Bool) → bytes_equal (flag_byte b) (1 ∷ []) ≡ b
unfolding flag_byte bytes_equal
bytes_equal-flag_byte true = refl
bytes_equal-flag_byte false = refl

abbrev pub IsHtlc : Htlc → Type 0
IsHtlc h =
    (h.amt < 2 ^ 64)
    × (length h.rhash ≡ 32)
    × (h.refund_timeout < 2 ^ 32)
    × (h.revocation_delay < 2 ^ 32)

serialize_htlc_parts :
    (h : Htlc) (rest : List ℕ)
    → serialize_htlc h ++ rest
      ≡ flag_byte h.incoming
        ++ (put_be 8 h.amt
            ++ (h.rhash ++ (put_be 4 h.refund_timeout ++ (put_be 4 h.revocation_delay ++ rest))))
unfolding serialize_htlc flag_byte
serialize_htlc_parts h rest = simp append_assoc

-- An HTLC whose fields fit their types is read back, whatever follows it.
pub deserialize_htlc-serialize_htlc :
    (h : Htlc) (rest : List ℕ)
    → IsHtlc h
    → deserialize_htlc (serialize_htlc h ++ rest) ≡ ok (h, rest)
unfolding deserialize_htlc
deserialize_htlc-serialize_htlc h rest (amt, hash, timeout, delay) =
    let d = put_be 4 h.revocation_delay in
    let t = put_be 4 h.refund_timeout in
    let a = put_be 8 h.amt in
    let d_size = length-put_be 4 h.revocation_delay in
    let t_size = length-put_be 4 h.refund_timeout in
    let a_size = length-put_be 8 h.amt in
    let f_size = length-flag_byte h.incoming in
    rw (serialize_htlc_parts h rest) (
      rw
        (read_into-append (0 ∷ []) (flag_byte h.incoming) (a ++ (h.rhash ++ (t ++ (d ++ rest))))
          f_size (omega arith))
        (rw
          (read_into-append (flag_byte h.incoming ++ zeros 7) a (h.rhash ++ (t ++ (d ++ rest)))
            (omega (arith, length-append (flag_byte h.incoming) (zeros 7), length-zeros 7))
            (omega arith))
          (rw
            (read_into-append (zeros 32) h.rhash (t ++ (d ++ rest)) (omega (arith, length-zeros 32))
              (omega arith))
            (rw
              (read_into-append (take 4 a) t (d ++ rest) (omega (arith, length-take 4 a))
                (omega arith))
              (rw (read_into-append t d rest (omega arith) (omega arith)) (
                rw (
                  bytes_equal-flag_byte h.incoming,
                  from_be-put_be 8 h.amt amt,
                  from_be-put_be 4 h.refund_timeout timeout,
                  from_be-put_be 4 h.revocation_delay delay,
                )))))))

-- A known number of HTLCs.
pub read_htlcs-serialize_htlcs :
    (hs : List Htlc) (rest : List ℕ)
    → All IsHtlc hs
    → read_htlcs (length hs) (serialize_htlcs hs ++ rest) ≡ ok (hs, rest)
unfolding read_htlcs serialize_htlcs
read_htlcs-serialize_htlcs [] rest h = refl
read_htlcs-serialize_htlcs (x ∷ xs) rest (h, hs) =
    rw (append_assoc, deserialize_htlc-serialize_htlc x (serialize_htlcs xs ++ rest) h)
      (rw (read_htlcs-serialize_htlcs xs rest hs))

abbrev pub IsPoint : OutPoint → Type 0
IsPoint o = (length o.hash ≡ 32) × (o.index < 2 ^ 32)

abbrev pub IsDelta : ChannelDelta → Type 0
IsDelta d =
    (d.local_balance < 2 ^ 64)
    × (d.remote_balance < 2 ^ 64)
    × (d.update_num < 2 ^ 32)
    × (length d.htlcs < 2 ^ 64)
    × All IsHtlc d.htlcs

module _ (L : WireLib) (D : DbLib L) where
  serialize_delta_parts :
      (d : ChannelDelta) (rest : List ℕ)
      → serialize_channel_delta L D d ++ rest
        ≡ put_be 8 d.local_balance
          ++ (put_be 8 d.remote_balance
              ++ (put_be 4 d.update_num
                  ++ (D.write_var_int (length d.htlcs) ++ (serialize_htlcs d.htlcs ++ rest))))
  unfolding serialize_channel_delta
  serialize_delta_parts d rest = simp append_assoc

  -- A delta whose fields fit their types is read back, whatever follows it.
  pub deserialize_channel_delta-serialize_channel_delta :
      (d : ChannelDelta) (rest : List ℕ)
      → IsDelta d
      → deserialize_channel_delta L D (serialize_channel_delta L D d ++ rest) ≡ ok (d, rest)
  unfolding deserialize_channel_delta read_var_int
  deserialize_channel_delta-serialize_channel_delta d rest (local, remote, num, count, hs) =
      let a = put_be 8 d.local_balance in
      let b = put_be 8 d.remote_balance in
      let n = put_be 4 d.update_num in
      let a_size = length-put_be 8 d.local_balance in
      let b_size = length-put_be 8 d.remote_balance in
      let n_size = length-put_be 4 d.update_num in
      let tail = serialize_htlcs d.htlcs ++ rest in
      let counted = D.write_var_int (length d.htlcs) ++ tail in
      rw (serialize_delta_parts d rest) (
        rw
          (read_into-append (zeros 8) a (b ++ (n ++ counted)) (omega (arith, length-zeros 8))
            (omega arith))
          (rw (read_into-append a b (n ++ counted) (omega arith) (omega arith)) (
            rw
              (read_into-append (take 4 b) n counted (omega (arith, length-take 4 b)) (omega arith))
              (rw (D.read-write_var_int (length d.htlcs) tail count, read_var_int)
                (rw (read_htlcs-serialize_htlcs d.htlcs rest hs) (
                  rw (
                    from_be-put_be 8 d.local_balance local,
                    from_be-put_be 8 d.remote_balance remote,
                    from_be-put_be 4 d.update_num num,
                  )))))))

  pub read_var_bytes-write :
      (max : ℕ) (bs rest : List ℕ)
      → length bs ≤ max
      → read_var_bytes L D max (L.write_var_bytes bs ++ rest) ≡ ok (bs, rest)
  unfolding read_var_bytes
  read_var_bytes-write max bs rest h = rw (L.read-write_var_bytes max bs rest h, read_var_bytes)

  write_outpoint_parts :
      (o : OutPoint) (rest : List ℕ)
      → write_outpoint L D o ++ rest ≡ L.write_var_bytes o.hash ++ (put_be 4 o.index ++ rest)
  unfolding write_outpoint
  write_outpoint_parts o rest = simp append_assoc

  pub read_outpoint-write_outpoint :
      (o : OutPoint) (rest : List ℕ)
      → IsPoint o
      → read_outpoint L D (write_outpoint L D o ++ rest) ≡ ok (o, rest)
  unfolding read_outpoint
  read_outpoint-write_outpoint o rest (hash, index) =
      rw
        (
          write_outpoint_parts o rest,
          read_var_bytes-write 32 o.hash (put_be 4 o.index ++ rest) (omega (arith, hash)),
        )
        (rw
          (read_into-append (zeros 4) (put_be 4 o.index) rest
            (omega (arith, length-zeros 4, length-put_be 4 o.index))
            (omega (arith, length-put_be 4 o.index)))
          (rw (
            drop_all (length o.hash) (zeros 32) (omega (arith, length-zeros 32)),
            append-nil,
            from_be-put_be 4 o.index index,
          )))

read_into-rest :
    (buf bs v rest : List ℕ) → read_into buf bs ≡ ok (v, rest) → rest ≡ drop (length buf) bs
unfolding read_into
read_into-rest buf [] v rest e = absurd (cc (e))
read_into-rest buf (b ∷ bs) v rest e = cc (ok-injective e)

read_into-le : (buf bs v rest : List ℕ) → read_into buf bs ≡ ok (v, rest) → length rest ≤ length bs
read_into-le buf bs v rest e =
    rw (read_into-rest buf bs v rest e) (omega (arith, length-drop (length buf) bs))

deserialize_htlc-consumes :
    (bs rest : List ℕ) (h : Htlc)
    → 0 < length bs
    → deserialize_htlc bs ≡ ok (h, rest)
    → length rest < length bs
unfolding deserialize_htlc
deserialize_htlc-consumes bs rest h n e = elim (Result-cases (read_into (0 ∷ []) bs)) [
  | inl (x, p) ↦ absurd (cc (rw p at e))
  | inr (f, p) ↦ elim (Result-cases (read_into (f.0 ++ zeros 7) f.1)) [
    | inl (x, q) ↦ absurd (cc (rw q at (rw p at e)))
    | inr (a, q) ↦ elim (Result-cases (read_into (zeros 32) a.1)) [
      | inl (x, r) ↦ absurd (cc (rw r at (rw q at (rw p at e))))
      | inr (s, r) ↦ elim (Result-cases (read_into (take 4 a.0) s.1)) [
        | inl (x, t) ↦ absurd (cc (rw t at (rw r at (rw q at (rw p at e)))))
        | inr (t, u) ↦ elim (Result-cases (read_into t.0 t.1)) [
          | inl (x, v) ↦ absurd (cc (rw v at (rw u at (rw r at (rw q at (rw p at e))))))
          | inr (d, v) ↦
              let done = ok-injective (rw v at (rw u at (rw r at (rw q at (rw p at e))))) in
              omega (
                arith,
                ap (λ (x : Htlc × List ℕ). length x.1) done,
                ap (λ (x : List ℕ). length x) (read_into-rest (0 ∷ []) bs f.0 f.1 p),
                read_into-le (f.0 ++ zeros 7) f.1 a.0 a.1 q,
                read_into-le (zeros 32) a.1 s.0 s.1 r,
                read_into-le (take 4 a.0) s.1 t.0 t.1 u,
                read_into-le t.0 t.1 d.0 d.1 v,
                length-drop 1 bs,
              )
        ]
      ]
    ]
  ]
]

-- The loop over stored HTLCs ends on any bytes, after at most one round for each byte.
pub read_all_htlcs-terminates :
    (fuel : ℕ) (bs : List ℕ)
    → length bs ≤ fuel
    → (r : Result DbError (List Htlc)) × (read_all_htlcs fuel bs ≡ some r)
unfolding read_all_htlcs
read_all_htlcs-terminates zero [] h = (ok [], refl)
read_all_htlcs-terminates (suc fuel) [] h = (ok [], refl)
read_all_htlcs-terminates zero (b ∷ bs) h = absurd (omega arith)
read_all_htlcs-terminates (suc fuel) (b ∷ bs) h = elim (Result-cases (deserialize_htlc (b ∷ bs))) [
  | inl (e, p) ↦ (err e, rw p)
  | inr (d, p) ↦
      let (r, q) =
        read_all_htlcs-terminates fuel d.1
          (omega (arith, deserialize_htlc-consumes (b ∷ bs) d.1 d.0 (omega arith) p)) in
      ((r >>= λ hs. ok (d.0 ∷ hs)), rw p (rw q))
]

deserialize_htlc_eof : deserialize_htlc [] ≡ err eof
unfolding deserialize_htlc
deserialize_htlc_eof = refl

-- All HTLCs of a value.
pub read_all_htlcs-serialize_htlcs :
    (fuel : ℕ) (hs : List Htlc)
    → length hs ≤ fuel
    → All IsHtlc hs
    → read_all_htlcs fuel (serialize_htlcs hs) ≡ some (ok hs)
unfolding read_all_htlcs serialize_htlcs
read_all_htlcs-serialize_htlcs zero [] n h = refl
read_all_htlcs-serialize_htlcs (suc fuel) [] n h = refl
read_all_htlcs-serialize_htlcs zero (x ∷ xs) n h = absurd (omega arith)
read_all_htlcs-serialize_htlcs (suc fuel) (x ∷ xs) n (h, hs) =
    nonempty (serialize_htlc x ++ serialize_htlcs xs)
      (deserialize_htlc-serialize_htlc x (serialize_htlcs xs) h)
      (read_all_htlcs-serialize_htlcs fuel xs (omega arith) hs)
  where
    nonempty :
        (bs : List ℕ)
        → deserialize_htlc bs ≡ ok (x, serialize_htlcs xs)
        → read_all_htlcs fuel (serialize_htlcs xs) ≡ some (ok xs)
        → read_all_htlcs (suc fuel) bs ≡ some (ok (x ∷ xs))
    nonempty [] e ih = absurd (cc (e, deserialize_htlc_eof))
    nonempty (b ∷ bs) e ih = rw e (rw ih)

length-serialize_htlc : (h : Htlc) → 0 < length (serialize_htlc h)
unfolding serialize_htlc flag_byte
length-serialize_htlc h =
    let tail =
      put_be 8 h.amt ++ (h.rhash ++ (put_be 4 h.refund_timeout ++ put_be 4 h.revocation_delay)) in
    omega (arith, length-append (flag_byte h.incoming) tail, length-flag_byte h.incoming)

pub length-serialize_htlcs : (hs : List Htlc) → length hs ≤ length (serialize_htlcs hs)
unfolding serialize_htlcs
length-serialize_htlcs [] = omega arith
length-serialize_htlcs (h ∷ hs) = omega (
  arith,
  length-serialize_htlcs hs,
  length-append (serialize_htlc h) (serialize_htlcs hs),
  length-serialize_htlc h,
)
