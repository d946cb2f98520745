-- ===== src/Channeldb/Reads.antt =====
-- The stored values of channeldb/channel.go, one by one: what a fetch function makes of the bytes
-- that its put function wrote.
use lnd_cc.Prelude.{
  ℕ, zero, suc, ◌^◌, ◌≤◌, ◌<◌, ◌≡◌, refl, sym, ap, ◌∙◌, none, some, List, [], ◌∷◌, ◌++◌, length,
  length-append, take, drop, take-append_left, drop-append_left, arith, ok, err, le→leb, All,
  append-nil,
}
use lnd_cc.Bytes.{put_be, length-put_be, from_be-put_be}
use lnd_cc.Elkrem.{ElkremNode}
use lnd_cc.Elkrem.Serdes.{from_bytes}
use lnd_cc.Lnwire.{WireLib, OutPoint}
use lnd_cc.Channeldb.{DbLib, bad_var_bytes, Htlc}
use lnd_cc.Channeldb.Codec.{
  zeros, read_into, make_htlc_key, serialize_htlcs, read_var_bytes, write_outpoint,
}
use lnd_cc.Channeldb.CodecTrips.{
  length-zeros, read_into-append, IsPoint, IsHtlc, read_var_bytes-write,
  read_outpoint-write_outpoint, read_all_htlcs-serialize_htlcs, length-serialize_htlcs,
}
use lnd_cc.Channeldb.Columns.{fetch_uint64, reader_of, parse_pub_key}
use lnd_cc.Channeldb.Fetch.{
  read_commit_keys, read_tx, read_commit_txns, read_funding_info, restore_receiver,
  read_elkrem_state, read_delivery_scripts, fetch_current_htlcs,
}

-- The last value of a reader.
read_into-whole :
    (buf v : List ℕ) → length v ≡ length buf → 0 < length v → read_into buf v ≡ ok (v, [])
read_into-whole buf v e h = ap (read_into buf) (sym (append-nil v)) ∙ read_into-append buf v [] e h

module _ (L : WireLib) (D : DbLib L) where
  pub fetch_uint64-put_be :
      (key : List ℕ) (n : ℕ) (b : D.Bucket)
      → n < 2 ^ 64
      → D.get key b ≡ some (put_be 8 n)
      → fetch_uint64 L D key b ≡ ok n
  unfolding fetch_uint64
  fetch_uint64-put_be key n b h e =
      rw (e, fetch_uint64)
        (rw (
          le→leb 8 (length (put_be 8 n)) (omega (arith, length-put_be 8 n)),
          take_whole 8 (put_be 8 n) (length-put_be 8 n),
          from_be-put_be 8 n h,
        ))
    where
      take_whole : (n : ℕ) (xs : List ℕ) → length xs ≡ n → take n xs ≡ xs
      take_whole zero [] e = refl
      take_whole zero (x ∷ xs) e = absurd (omega arith)
      take_whole (suc n) [] e = absurd (omega arith)
      take_whole (suc n) (x ∷ xs) e = rw (take_whole n xs (omega arith))

  pub reader_of-get :
      {key value : List ℕ} (b : D.Bucket) → D.get key b ≡ some value → reader_of L D key b ≡ value
  unfolding reader_of
  reader_of-get b e = rw (e, reader_of)

  parse_pub_key-serialize_compressed :
      (k : L.PublicKey) → parse_pub_key L D (L.serialize_compressed k) ≡ ok k
  unfolding parse_pub_key
  parse_pub_key-serialize_compressed k = rw (L.parse-serialize_compressed k, parse_pub_key)

  -- The last field of a reader.
  last_field :
      (max : ℕ) (bs : List ℕ)
      → length bs ≤ max
      → read_var_bytes L D max (L.write_var_bytes bs) ≡ ok (bs, [])
  last_field max bs h =
      ap (read_var_bytes L D max) (sym (append-nil (L.write_var_bytes bs)))
      ∙ read_var_bytes-write L D max bs [] h

  pub read_commit_keys_lem :
      (theirs ours : L.PublicKey)
      → read_commit_keys L D (L.serialize_compressed theirs ++ L.serialize_compressed ours)
        ≡ ok (theirs, ours)
  unfolding read_commit_keys
  read_commit_keys_lem theirs ours =
      let a = L.serialize_compressed theirs in
      let b = L.serialize_compressed ours in
      let size = L.length-serialize_compressed theirs in
      let first : take 33 (a ++ b) ≡ a =
        ap (λ n. take n (a ++ b)) (sym size) ∙ take-append_left a b in
      let second : drop 33 (a ++ b) ≡ b =
        ap (λ n. drop n (a ++ b)) (sym size) ∙ drop-append_left a b in
      rw (
        le→leb 33 (length (a ++ b)) (omega (arith, length-append a b)),
        first,
        second,
        parse_pub_key-serialize_compressed theirs,
        parse_pub_key-serialize_compressed ours,
      )

  pub read_commit_txns_lem :
      (tx : D.Tx) (sig : List ℕ) (local remote : ℕ)
      → length sig ≤ 80
      → local < 2 ^ 32
      → remote < 2 ^ 32
      → read_commit_txns L D
          (D.serialize_tx tx ++ (L.write_var_bytes sig ++ (put_be 4 local ++ put_be 4 remote)))
        ≡ ok (record { tx = tx; sig = sig; local_csv = local; remote_csv = remote })
  unfolding read_commit_txns
  read_commit_txns_lem tx sig local remote s l r =
      let a = put_be 4 local in
      let b = put_be 4 remote in
      let a_size = length-put_be 4 local in
      let b_size = length-put_be 4 remote in
      rw (read_tx, D.deserialize-serialize_tx tx (L.write_var_bytes sig ++ (a ++ b)))
        (rw (read_var_bytes-write L D 80 sig (a ++ b) s) (
          rw (read_into-append (zeros 4) a b (omega (arith, length-zeros 4)) (omega arith)) (
            rw (read_into-whole a b (omega arith) (omega arith))
              (rw (from_be-put_be 4 local l, from_be-put_be 4 remote r)))))

  pub read_funding_info_lem :
      (o : OutPoint) (ours theirs : L.PublicKey) (script : List ℕ) (creation : ℕ)
      → IsPoint o
      → length script ≤ 520
      → creation < 2 ^ 64
      → read_funding_info L D (
          write_outpoint L D o
          ++ (L.write_var_bytes (L.serialize_compressed ours)
              ++ (L.write_var_bytes (L.serialize_compressed theirs)
                  ++ (L.write_var_bytes script ++ put_be 8 creation))))
        ≡ ok (record {
          outpoint = o;
          ours = ours;
          theirs = theirs;
          script = script;
          creation = creation;
        })
  unfolding read_funding_info
  read_funding_info_lem o ours theirs script creation p s t =
      let secs = put_be 8 creation in
      let script_on = L.write_var_bytes script ++ secs in
      let theirs_on = L.write_var_bytes (L.serialize_compressed theirs) ++ script_on in
      let ours_on = L.write_var_bytes (L.serialize_compressed ours) ++ theirs_on in
      rw (read_outpoint-write_outpoint L D o ours_on p) (
        rw
          (
            read_var_bytes-write L D 34 (L.serialize_compressed ours) theirs_on
                (omega (arith, L.length-serialize_compressed ours)),
            parse_pub_key-serialize_compressed ours,
          )
          (rw
            (
              read_var_bytes-write L D 34 (L.serialize_compressed theirs) script_on
                  (omega (arith, L.length-serialize_compressed theirs)),
              parse_pub_key-serialize_compressed theirs,
            )
            (rw (read_var_bytes-write L D 520 script secs s) (
              rw
                (read_into-whole (zeros 8) secs
                  (omega (arith, length-zeros 8, length-put_be 8 creation))
                  (omega (arith, length-put_be 8 creation)))
                (rw (from_be-put_be 8 creation t))))))

  pub read_elkrem_state_lem :
      (key : L.PublicKey) (hash sender receiver : List ℕ) (remote : List ElkremNode)
      → length hash ≡ 32
      → length sender ≡ 32
      → length receiver ≤ 1000
      → from_bytes receiver ≡ ok remote
      → read_elkrem_state L D (
          L.write_var_bytes (L.serialize_compressed key)
          ++ (hash ++ (L.write_var_bytes sender ++ L.write_var_bytes receiver)))
        ≡ ok (record { revocation = key; hash = hash; local = sender; remote = remote })
  unfolding read_elkrem_state
  read_elkrem_state_lem key hash sender receiver remote h s r e =
      let receiver_on = L.write_var_bytes receiver in
      let sender_on = L.write_var_bytes sender ++ receiver_on in
      rw
        (
          read_var_bytes-write L D 1000 (L.serialize_compressed key) (hash ++ sender_on)
              (omega (arith, L.length-serialize_compressed key)),
          parse_pub_key-serialize_compressed key,
        )
        (rw
          (read_into-append (zeros 32) hash sender_on (omega (arith, length-zeros 32))
            (omega arith))
          (rw (read_var_bytes-write L D 1000 sender receiver_on (omega arith), s)
            (rw (last_field 1000 receiver r) (rw (restore_receiver, e)))))

  -- A receiver of more than 1000 bytes is refused.
  pub read_elkrem_state_long :
      (key : L.PublicKey) (hash sender receiver : List ℕ)
      → length hash ≡ 32
      → length sender ≡ 32
      → 1000 < length receiver
      → read_elkrem_state L D (
          L.write_var_bytes (L.serialize_compressed key)
          ++ (hash ++ (L.write_var_bytes sender ++ L.write_var_bytes receiver)))
        ≡ err bad_var_bytes
  unfolding read_elkrem_state read_var_bytes
  read_elkrem_state_long key hash sender receiver h s r =
      let receiver_on = L.write_var_bytes receiver in
      let sender_on = L.write_var_bytes sender ++ receiver_on in
      let refused : L.read_var_bytes 1000 receiver_on ≡ none =
        ap (L.read_var_bytes 1000) (sym (append-nil receiver_on))
        ∙ D.read_var_bytes_long 1000 receiver [] r in
      rw
        (
          read_var_bytes-write L D 1000 (L.serialize_compressed key) (hash ++ sender_on)
              (omega (arith, L.length-serialize_compressed key)),
          parse_pub_key-serialize_compressed key,
        )
        (rw
          (read_into-append (zeros 32) hash sender_on (omega (arith, length-zeros 32))
            (omega arith))
          (rw (read_var_bytes-write L D 1000 sender receiver_on (omega arith), s)
            (rw (read_var_bytes, refused))))

  pub read_delivery_scripts_lem :
      (ours theirs : List ℕ)
      → length ours ≤ 520
      → length theirs ≤ 520
      → read_delivery_scripts L D (L.write_var_bytes ours ++ L.write_var_bytes theirs)
        ≡ ok (ours, theirs)
  unfolding read_delivery_scripts
  read_delivery_scripts_lem ours theirs o t =
      rw (read_var_bytes-write L D 520 ours (L.write_var_bytes theirs) o)
        (rw (last_field 520 theirs t))

  pub fetch_current_htlcs_lem :
      (o : OutPoint) (hs : List Htlc) (b : D.Bucket)
      → All IsHtlc hs
      → D.get (make_htlc_key o) b ≡ some (serialize_htlcs hs)
      → fetch_current_htlcs L D o b ≡ ok hs
  unfolding fetch_current_htlcs
  fetch_current_htlcs_lem o hs b h e =
      rw (e, fetch_current_htlcs)
        (rw (
          read_all_htlcs-serialize_htlcs (length (serialize_htlcs hs)) hs
            (length-serialize_htlcs hs) h))
