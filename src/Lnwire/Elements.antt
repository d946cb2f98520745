-- ===== src/Lnwire/Elements.antt =====
-- What lnwire/lnwire.go writes of an element it reads back, whatever follows it.
use lnd_cc.Prelude.{
  ℕ, ◌^◌, ◌≤◌, ◌<◌, ◌≡◌, refl, List, [], ◌∷◌, ◌++◌, leb, length, arith, Result, ok, ◌>>◌, guard,
  le→leb, All, append_assoc,
}
use lnd_cc.Bytes.{put_be, length-put_be, read_full-append, from_be-put_be}
use lnd_cc.Lnwire.{
  WireLib, WireError, OutPoint, Kind, uint8, uint16, uint32, uint64, credits_amount, htlc_key,
  amount, public_key, uint64s, signatures, signature, sha_hash, hashes, hash, bitcoin_net, bytes,
  pk_script, string, tx_ins, tx_in, out_point, Reader, read_bytes, read_uint, write_each, read_each,
  write_hash, write_out_point, read_out_point, Value, write_signature, write_element,
  read_public_key, read_var, read_signature, read_string, read_element, Values, write_elements,
  read_elements, max_slice_length,
}

-- The call writes the value without an error, and the reader gives it back with the rest.
pub record RoundTrips {A : Type 0} (written : Result WireError (List ℕ)) (read : Reader A) (x : A)
    : Type 0 where
  pub bs : List ℕ
  pub writes : written ≡ ok bs
  pub reads : (rest : List ℕ) → read (bs ++ rest) ≡ ok (x, rest)

read_bytes-append :
    (n : ℕ) (xs rest : List ℕ) → length xs ≡ n → read_bytes n (xs ++ rest) ≡ ok (xs, rest)
unfolding read_bytes
read_bytes-append n xs rest e = rw (read_full-append xs rest n e, read_bytes)

read_uint-put_be :
    (k v : ℕ) (rest : List ℕ) → v < 256 ^ k → read_uint k (put_be k v ++ rest) ≡ ok (v, rest)
unfolding read_uint
read_uint-put_be k v rest h =
    rw (read_bytes-append k (put_be k v) rest (length-put_be k v)) (rw (from_be-put_be k v h))

uint-RoundTrips : (k v : ℕ) → v < 256 ^ k → RoundTrips (ok (put_be k v)) (read_uint k) v
uint-RoundTrips k v h = record {
  bs = put_be k v;
  writes = refl;
  reads = λ rest. read_uint-put_be k v rest h;
}

bytes-RoundTrips : (n : ℕ) (v : List ℕ) → length v ≡ n → RoundTrips (ok v) (read_bytes n) v
bytes-RoundTrips n v h = record {
  bs = v;
  writes = refl;
  reads = λ rest. read_bytes-append n v rest h;
}

abbrev pub IsOutPoint : OutPoint → Type 0
IsOutPoint o = (length o.hash ≡ 32) × (o.index < 2 ^ 32)

out_point-RoundTrips :
    (o : OutPoint) → IsOutPoint o → RoundTrips (write_out_point o) read_out_point o
unfolding read_out_point
out_point-RoundTrips o (h, i) = record {
  bs = o.hash ++ put_be 4 o.index;
  writes = refl;
  reads = λ rest.
      rw (append_assoc, read_bytes-append 32 o.hash (put_be 4 o.index ++ rest) h)
        (rw (read_uint-put_be 4 o.index rest i));
}

module _ {A : Type 0} (write : A → Result WireError (List ℕ)) (read : Reader A) where
  each-RoundTrips :
      (xs : List A)
      → All (λ x. RoundTrips (write x) read x) xs
      → RoundTrips (write_each write xs) (read_each read (length xs)) xs
  unfolding write_each read_each
  each-RoundTrips [] h = record { bs = []; writes = refl; reads = λ rest. refl }
  each-RoundTrips (x ∷ xs) (h, hs) =
      let t = each-RoundTrips xs hs in
      record {
        bs = h.bs ++ t.bs;
        writes = rw (h.writes, t.writes);
        reads = λ rest. rw (append_assoc, h.reads (t.bs ++ rest)) (rw (t.reads rest));
      }

  All-RoundTrips :
      {P : A → Type 0} (xs : List A)
      → ((x : A) → P x → RoundTrips (write x) read x)
      → All P xs
      → All (λ x. RoundTrips (write x) read x) xs
  All-RoundTrips [] f h = tt
  All-RoundTrips (x ∷ xs) f (h, hs) = (f x h, All-RoundTrips xs f hs)

module _ (L : WireLib) where
  abbrev IsSignature : L.Signature → Type 0
  IsSignature s = (length (L.serialize_signature s) ≤ 73) × L.IsCanonical s

  -- The values that an element type holds, and those that its writer takes.
  abbrev pub Fits : (k : Kind) → Value L k → Type 0
  Fits uint8 v = v < 2 ^ 8
  Fits uint16 v = v < 2 ^ 16
  Fits uint32 v = v < 2 ^ 32
  Fits uint64 v = v < 2 ^ 64
  Fits credits_amount v = v < 2 ^ 64
  Fits htlc_key v = v < 2 ^ 64
  Fits amount v = v < 2 ^ 64
  Fits public_key v = Unit
  Fits uint64s v = (length v ≤ 65535) × All (λ x. x < 2 ^ 64) v
  Fits signatures v = (length v ≤ 127) × All IsSignature v
  Fits signature v = IsSignature v
  Fits sha_hash v = length v ≡ 32
  Fits hashes v = (length v ≤ 65535) × All (λ x. length x ≡ 32) v
  Fits hash v = length v ≡ 32
  Fits bitcoin_net v = v < 2 ^ 32
  Fits bytes v = length v ≤ max_slice_length
  Fits pk_script v = length v ≤ 25
  Fits string v = length v ≤ max_slice_length
  Fits tx_ins v = (length v ≤ 127) × All IsOutPoint v
  Fits tx_in v = IsOutPoint v
  Fits out_point v = IsOutPoint v

  var-RoundTrips :
      (max : ℕ) (v : List ℕ)
      → length v ≤ max
      → RoundTrips (ok (L.write_var_bytes v)) (read_var L max) v
  unfolding read_var
  var-RoundTrips max v h = record {
    bs = L.write_var_bytes v;
    writes = refl;
    reads = λ rest. rw (L.read-write_var_bytes max v rest h, read_var);
  }

  signature-RoundTrips :
      (s : L.Signature) → IsSignature s → RoundTrips (write_signature L s) (read_signature L) s
  unfolding write_signature read_signature
  signature-RoundTrips s (h, c) =
      let t = var-RoundTrips 73 (L.serialize_signature s) h in
      record {
        bs = t.bs;
        writes = rw (le→leb (length (L.serialize_signature s)) 73 h) t.writes;
        reads = λ rest. rw (t.reads rest) (rw (L.parse-serialize_signature s c));
      }

  public_key-RoundTrips :
      (k : L.PublicKey) → RoundTrips (ok (L.serialize_compressed k)) (read_public_key L) k
  unfolding read_public_key
  public_key-RoundTrips k = record {
    bs = L.serialize_compressed k;
    writes = refl;
    reads = λ rest.
        rw (read_bytes-append 33 (L.serialize_compressed k) rest (L.length-serialize_compressed k))
          (rw (L.parse-serialize_compressed k));
  }

  string-RoundTrips :
      (v : List ℕ) → length v ≤ 65535 → RoundTrips (ok (L.write_var_string v)) (read_string L) v
  unfolding read_string
  string-RoundTrips v h = record {
    bs = L.write_var_string v;
    writes = refl;
    reads = λ rest. rw (L.read-write_var_string v rest h, read_string);
  }

  prefix_reads :
      (k n : ℕ) (items rest : List ℕ)
      → n < 256 ^ k
      → read_uint k ((put_be k n ++ items) ++ rest) ≡ ok (n, items ++ rest)
  prefix_reads k n items rest h = rw append_assoc (read_uint-put_be k n (items ++ rest) h)

  uint64s-RoundTrips :
      (v : List ℕ)
      → Fits uint64s v
      → RoundTrips (write_element L uint64s v) (read_element L uint64s) v
  unfolding write_element read_element
  uint64s-RoundTrips v (n, h) =
      let t =
        each-RoundTrips (λ x. ok (put_be 8 x)) (read_uint 8) v
          (All-RoundTrips _ _ v (λ x p. uint-RoundTrips 8 x p) h) in
      record {
        bs = put_be 2 (length v) ++ t.bs;
        writes = rw (le→leb (length v) 65535 n, t.writes);
        reads = λ rest. rw (prefix_reads 2 (length v) t.bs rest (omega arith)) (t.reads rest);
      }

  signatures-RoundTrips :
      (v : List L.Signature)
      → Fits signatures v
      → RoundTrips (write_element L signatures v) (read_element L signatures) v
  unfolding write_element read_element
  signatures-RoundTrips v (n, h) =
      let t =
        each-RoundTrips (write_signature L) (read_signature L) v
          (All-RoundTrips _ _ v signature-RoundTrips h) in
      record {
        bs = put_be 1 (length v) ++ t.bs;
        writes = rw (le→leb (length v) 127 n, t.writes);
        reads = λ rest.
            rw (prefix_reads 1 (length v) t.bs rest (omega arith))
              (rw (le→leb (length v) 127 n) (t.reads rest));
      }

  hashes-RoundTrips :
      (v : List (List ℕ))
      → Fits hashes v
      → RoundTrips (write_element L hashes v) (read_element L hashes) v
  unfolding write_element read_element
  hashes-RoundTrips v (n, h) =
      let t =
        each-RoundTrips write_hash (read_bytes 32) v
          (All-RoundTrips _ _ v (bytes-RoundTrips 32) h) in
      record {
        bs = put_be 2 (length v) ++ t.bs;
        writes = rw t.writes;
        reads = λ rest. rw (prefix_reads 2 (length v) t.bs rest (omega arith)) (t.reads rest);
      }

  tx_ins-RoundTrips :
      (v : List OutPoint)
      → Fits tx_ins v
      → RoundTrips (write_element L tx_ins v) (read_element L tx_ins) v
  unfolding write_element read_element
  tx_ins-RoundTrips v (n, h) =
      let t =
        each-RoundTrips write_out_point read_out_point v
          (All-RoundTrips _ _ v out_point-RoundTrips h) in
      record {
        bs = put_be 1 (length v) ++ t.bs;
        writes = rw (le→leb (length v) 127 n, t.writes);
        reads = λ rest.
            rw (prefix_reads 1 (length v) t.bs rest (omega arith))
              (rw (le→leb (length v) 127 n) (t.reads rest));
      }

  guarded :
      {A : Type 0} (v : List ℕ) (max : ℕ) (stop : WireError) (bs : List ℕ) (read : Reader A) (x : A)
      → length v ≤ max
      → RoundTrips (ok bs) read x
      → RoundTrips (guard (leb (length v) max) stop >> ok bs) read x
  guarded v max stop bs read x h t = record {
    bs = t.bs;
    writes = rw (le→leb (length v) max h) t.writes;
    reads = t.reads;
  }

  -- Every element type: what fits it is written, and read back.
  pub element-RoundTrips :
      (k : Kind) (v : Value L k) → Fits k v → RoundTrips (write_element L k v) (read_element L k) v
  unfolding write_element read_element
  element-RoundTrips uint8 v h = uint-RoundTrips 1 v h
  element-RoundTrips uint16 v h = uint-RoundTrips 2 v h
  element-RoundTrips uint32 v h = uint-RoundTrips 4 v h
  element-RoundTrips uint64 v h = uint-RoundTrips 8 v h
  element-RoundTrips credits_amount v h = uint-RoundTrips 8 v h
  element-RoundTrips htlc_key v h = uint-RoundTrips 8 v h
  element-RoundTrips amount v h = uint-RoundTrips 8 v h
  element-RoundTrips public_key v h = public_key-RoundTrips v
  element-RoundTrips uint64s v h = uint64s-RoundTrips v h
  element-RoundTrips signatures v h = signatures-RoundTrips v h
  element-RoundTrips signature v h = signature-RoundTrips v h
  element-RoundTrips sha_hash v h = bytes-RoundTrips 32 v h
  element-RoundTrips hashes v h = hashes-RoundTrips v h
  element-RoundTrips hash v h = bytes-RoundTrips 32 v h
  element-RoundTrips bitcoin_net v h = uint-RoundTrips 4 v h
  element-RoundTrips bytes v h =
      guarded v max_slice_length _ _ _ v h (var-RoundTrips max_slice_length v h)
  element-RoundTrips pk_script v h = guarded v 25 _ _ _ v h (var-RoundTrips 25 v h)
  element-RoundTrips string v h = guarded v max_slice_length _ _ _ v h (string-RoundTrips v h)
  element-RoundTrips tx_ins v h = tx_ins-RoundTrips v h
  element-RoundTrips tx_in v h = out_point-RoundTrips v h
  element-RoundTrips out_point v h = out_point-RoundTrips v h

  abbrev pub AllFit : (ks : List Kind) → Values L ks → Type 0
  AllFit [] vs = Unit
  AllFit (k ∷ ks) (v, vs) = Fits k v × AllFit ks vs

  -- Every list of elements: what fits is written without an error and read back.
  pub elements-RoundTrips :
      (ks : List Kind) (vs : Values L ks)
      → AllFit ks vs
      → RoundTrips (write_elements L ks vs) (read_elements L ks) vs
  unfolding write_elements read_elements
  elements-RoundTrips [] vs h = record { bs = []; writes = refl; reads = λ rest. refl }
  elements-RoundTrips (k ∷ ks) (v, vs) (h, hs) =
      let t = element-RoundTrips k v h in
      let u = elements-RoundTrips ks vs hs in
      record {
        bs = t.bs ++ u.bs;
        writes = rw (t.writes, u.writes);
        reads = λ rest. rw (append_assoc, t.reads (u.bs ++ rest)) (rw (u.reads rest));
      }
