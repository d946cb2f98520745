-- ===== src/Lnwire.antt =====
-- lnwire/lnwire.go: the elements of messages, and how each is written and read. A byte string is a
-- list of numbers; an int64 (CreditsAmount, HTLCKey, btcutil.Amount) is its bit pattern, a number
-- below 2 ^ 64. What a call wrote before it failed is dropped, as WriteMessage drops it.
pub mod Elements
pub mod Scripts
pub mod SingleFundingRequest
pub mod SingleFundingResponse
pub mod SingleFundingComplete
pub mod SingleFundingSignComplete
pub mod SingleFundingOpenProof
pub mod CloseRequest
pub mod CloseComplete
pub mod HtlcAddRequest
pub mod HtlcAddReject
pub mod HtlcSettleRequest
pub mod HtlcTimeoutRequest
pub mod CommitSignature
pub mod CommitRevocation
pub mod ErrorGeneric
pub mod Message
pub mod Sample
mod Examples
use lnd_cc.Prelude.{
  ℕ, zero, suc, ◌+◌, ◌-◌, ◌%◌, ◌/◌, ◌^◌, ◌*◌, ◌≤◌, ◌<◌, ◌≡◌, ◌≢◌, refl, sym, ap, ◌∙◌, ◌⊎◌, inl, inr,
  Bool, true, false, not, ◌&&◌, ◌||◌, Option, none, some, List, [], ◌∷◌, ◌++◌, map, ltb, leb, ◌==◌,
  if◌then◌else◌, length, length-append, length-take, take, drop, take-append-drop, take-append_left,
  drop-append_left, get_elem?, get_elem?-append_left, get_elem?-append_right, get_elem?-take, arith,
  Result, ok, err, ◌>>=◌, ◌>>◌, guard, >>=-eq-ok, ok-injective, lt→ltb, le→leb, lt→leb, ltb→lt,
  ltb→le, leb→le, leb→lt, ==_iff, ==_refl, bytes_equal, bytes_equal_refl, eq_of_bytes_equal, All,
  append-nil, append_assoc, Bool-cases, Option-cases,
}
use lnd_cc.Bytes.{put_be, from_be, read_full}

-- btcec and btcd's wire package, which the source calls, and what it relies on: keys and canonical
-- signatures are parsed back from what serializes them, and ReadVarBytes reads back what
-- WriteVarBytes wrote, if it fits the bound.
pub record WireLib : Type 1 where
  pub PublicKey : Type 0
  pub Signature : Type 0
  pub IsCanonical : Signature → Type 0
  pub serialize_compressed : PublicKey → List ℕ
  pub parse_pub_key : List ℕ → Option PublicKey
  pub serialize_signature : Signature → List ℕ
  pub parse_signature : List ℕ → Option Signature
  pub write_var_bytes : List ℕ → List ℕ
  pub read_var_bytes : ℕ → List ℕ → Option (List ℕ × List ℕ)
  pub write_var_string : List ℕ → List ℕ
  pub read_var_string : List ℕ → Option (List ℕ × List ℕ)
  pub length-serialize_compressed : (k : PublicKey) → length (serialize_compressed k) ≡ 33
  pub parse-serialize_compressed : (k : PublicKey) → parse_pub_key (serialize_compressed k) ≡ some k
  pub parse-serialize_signature :
      (s : Signature) → IsCanonical s → parse_signature (serialize_signature s) ≡ some s
  pub read-write_var_bytes :
      (max : ℕ) (bs rest : List ℕ)
      → length bs ≤ max
      → read_var_bytes max (write_var_bytes bs ++ rest) ≡ some (bs, rest)
  pub read-write_var_string :
      (bs rest : List ℕ)
      → length bs ≤ 65535
      → read_var_string (write_var_string bs ++ rest) ≡ some (bs, rest)

pub data WireError : Type 0 where
  too_many_uint64s too_many_signatures signature_too_long slice_too_long : WireError
  pk_script_too_long string_too_long too_many_txins : WireError
  short_read bad_public_key bad_signature bad_var_bytes : WireError
  invalid : WireError

abbrev pub max_slice_length : ℕ
max_slice_length = 65535

pub record OutPoint : Type 0 where
  pub hash : List ℕ
  pub index : ℕ

-- The element types of the two switches.
pub data Kind : Type 0 where
  uint8 uint16 uint32 uint64 credits_amount htlc_key amount public_key uint64s : Kind
  signatures signature sha_hash hashes hash bitcoin_net bytes pk_script string : Kind
  tx_ins tx_in out_point : Kind

abbrev pub Reader : Type 0 → Type 0
Reader A = List ℕ → Result WireError (A × List ℕ)

unfoldable pub read_bytes : ℕ → Reader (List ℕ)
unfolding read_full
read_bytes n bs = elim (read_full n bs) [ none ↦ err short_read | some p ↦ ok p ]

unfoldable pub read_uint : ℕ → Reader ℕ
unfolding read_bytes from_be
read_uint k bs = do (b, rest) ← read_bytes k bs; ok (from_be 0 b, rest)

-- The loops that write and read the items of a slice.
module _ {A : Type 0} where
  unfoldable pub write_each : (A → Result WireError (List ℕ)) → List A → Result WireError (List ℕ)
  write_each write [] = ok []
  write_each write (x ∷ xs) = do front ← write x; back ← write_each write xs; ok (front ++ back)

  unfoldable pub read_each : Reader A → ℕ → Reader (List A)
  read_each read zero bs = ok ([], bs)
  read_each read (suc n) bs = do
    (x, rest) ← read bs
    (xs, rest') ← read_each read n rest
    ok (x ∷ xs, rest')

abbrev pub write_hash : List ℕ → Result WireError (List ℕ)
write_hash h = ok h

abbrev pub write_out_point : OutPoint → Result WireError (List ℕ)
write_out_point e = ok (e.hash ++ put_be 4 e.index)

unfoldable pub read_out_point : Reader OutPoint
unfolding read_bytes read_uint
read_out_point bs = do
  (h, rest) ← read_bytes 32 bs
  (i, rest') ← read_uint 4 rest
  ok (record { hash = h; index = i }, rest')

module _ (L : WireLib) where
  abbrev pub Value : Kind → Type 0
  Value uint8 = ℕ
  Value uint16 = ℕ
  Value uint32 = ℕ
  Value uint64 = ℕ
  Value credits_amount = ℕ
  Value htlc_key = ℕ
  Value amount = ℕ
  Value public_key = L.PublicKey
  Value uint64s = List ℕ
  Value signatures = List L.Signature
  Value signature = L.Signature
  Value sha_hash = List ℕ
  Value hashes = List (List ℕ)
  Value hash = List ℕ
  Value bitcoin_net = ℕ
  Value bytes = List ℕ
  Value pk_script = List ℕ
  Value string = List ℕ
  Value tx_ins = List OutPoint
  Value tx_in = OutPoint
  Value out_point = OutPoint

  unfoldable pub write_signature : L.Signature → Result WireError (List ℕ)
  write_signature e =
      let sig = L.serialize_signature e in
      guard (leb (length sig) 73) signature_too_long >> ok (L.write_var_bytes sig)

  -- A TxIn is modelled by its previous outpoint, which is all that is written of it.
  unfoldable pub write_element : (k : Kind) → Value k → Result WireError (List ℕ)
  unfolding put_be write_each write_signature
  write_element uint8 e = ok (put_be 1 e)
  write_element uint16 e = ok (put_be 2 e)
  write_element uint32 e = ok (put_be 4 e)
  write_element uint64 e = ok (put_be 8 e)
  write_element credits_amount e = ok (put_be 8 e)
  write_element htlc_key e = ok (put_be 8 e)
  write_element amount e = ok (put_be 8 e)
  write_element public_key e = ok (L.serialize_compressed e)
  write_element uint64s e = do
    guard (leb (length e) 65535) too_many_uint64s
    items ← write_each (λ x. ok (put_be 8 x)) e
    ok (put_be 2 (length e) ++ items)
  write_element signatures e = do
    guard (leb (length e) 127) too_many_signatures
    items ← write_each write_signature e
    ok (put_be 1 (length e) ++ items)
  write_element signature e = write_signature e
  write_element sha_hash e = ok e
  write_element hashes e = do items ← write_each write_hash e; ok (put_be 2 (length e) ++ items)
  write_element hash e = ok e
  write_element bitcoin_net e = ok (put_be 4 e)
  write_element bytes e =
      guard (leb (length e) max_slice_length) slice_too_long >> ok (L.write_var_bytes e)
  write_element pk_script e =
      guard (leb (length e) 25) pk_script_too_long >> ok (L.write_var_bytes e)
  write_element string e =
      guard (leb (length e) max_slice_length) string_too_long >> ok (L.write_var_string e)
  write_element tx_ins e = do
    guard (leb (length e) 127) too_many_txins
    items ← write_each write_out_point e
    ok (put_be 1 (length e) ++ items)
  write_element tx_in e = write_out_point e
  write_element out_point e = write_out_point e

  unfoldable pub read_public_key : Reader L.PublicKey
  unfolding read_bytes
  read_public_key bs = do
    (b, rest) ← read_bytes 33 bs
    elim (L.parse_pub_key b) [ none ↦ err bad_public_key | some k ↦ ok (k, rest) ]

  unfoldable pub read_var : ℕ → Reader (List ℕ)
  read_var max bs = elim (L.read_var_bytes max bs) [ none ↦ err bad_var_bytes | some p ↦ ok p ]

  unfoldable pub read_signature : Reader L.Signature
  unfolding read_var
  read_signature bs = do
    (b, rest) ← read_var 73 bs
    elim (L.parse_signature b) [ none ↦ err bad_signature | some s ↦ ok (s, rest) ]

  unfoldable pub read_string : Reader (List ℕ)
  read_string bs = elim (L.read_var_string bs) [ none ↦ err bad_var_bytes | some p ↦ ok p ]

  unfoldable pub read_element : (k : Kind) → Reader (Value k)
  unfolding read_uint read_each read_public_key read_var read_signature read_string read_out_point
  read_element uint8 bs = read_uint 1 bs
  read_element uint16 bs = read_uint 2 bs
  read_element uint32 bs = read_uint 4 bs
  read_element uint64 bs = read_uint 8 bs
  read_element credits_amount bs = read_uint 8 bs
  read_element htlc_key bs = read_uint 8 bs
  read_element amount bs = read_uint 8 bs
  read_element public_key bs = read_public_key bs
  read_element uint64s bs = do (n, rest) ← read_uint 2 bs; read_each (read_uint 8) n rest
  read_element signatures bs = do
    (n, rest) ← read_uint 1 bs
    guard (leb n 127) too_many_signatures
    read_each read_signature n rest
  read_element signature bs = read_signature bs
  read_element sha_hash bs = read_bytes 32 bs
  read_element hashes bs = do (n, rest) ← read_uint 2 bs; read_each (read_bytes 32) n rest
  read_element hash bs = read_bytes 32 bs
  read_element bitcoin_net bs = read_uint 4 bs
  read_element bytes bs = read_var max_slice_length bs
  read_element pk_script bs = read_var 25 bs
  read_element string bs = read_string bs
  read_element tx_ins bs = do
    (n, rest) ← read_uint 1 bs
    guard (leb n 127) too_many_txins
    read_each read_out_point n rest
  read_element tx_in bs = read_out_point bs
  read_element out_point bs = read_out_point bs

  -- The elements of a message, one for each kind of its list.
  abbrev pub Values : List Kind → Type 0
  Values [] = Unit
  Values (k ∷ ks) = Value k × Values ks

  unfoldable pub write_elements : (ks : List Kind) → Values ks → Result WireError (List ℕ)
  unfolding write_element
  write_elements [] vs = ok []
  write_elements (k ∷ ks) (v, vs) = do
    front ← write_element k v
    back ← write_elements ks vs
    ok (front ++ back)

  unfoldable pub read_elements : (ks : List Kind) → Reader (Values ks)
  unfolding read_element
  read_elements [] bs = ok (tt, bs)
  read_elements (k ∷ ks) bs = do
    (v, rest) ← read_element k bs
    (vs, rest') ← read_elements ks rest
    ok ((v, vs), rest')
