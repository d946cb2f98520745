-- ===== src/Channeldb/Codec.antt =====
-- channeldb/channel.go: outpoints, HTLCs and deltas as bytes, and the keys. A buffer that a Read
-- fills only in part keeps what it held, and the buffers are shared as in the source.
use lnd_cc.Prelude.{
  ℕ, zero, suc, Option, none, some, List, [], ◌∷◌, ◌++◌, if◌then◌else◌, length, take, drop, Result,
  ok, err, ◌>>=◌, bytes_equal,
}
use lnd_cc.Bytes.{put_be, from_be}
use lnd_cc.Lnwire.{WireLib, OutPoint}
use lnd_cc.Channeldb.{DbLib, DbError, eof, bad_var_bytes, bad_var_int, Htlc, ChannelDelta}

abbrev pub DbReader : Type 0 → Type 0
DbReader A = List ℕ → Result DbError (A × List ℕ)

unfoldable pub zeros : ℕ → List ℕ
zeros zero = []
zeros (suc n) = 0 ∷ zeros n

-- bytes.Reader.Read into a buffer: the buffer after it, and what is left to read.
unfoldable pub read_into : List ℕ → DbReader (List ℕ)
read_into buf [] = err eof
read_into buf (b ∷ bs) =
    ok (take (length buf) (b ∷ bs) ++ drop (length (b ∷ bs)) buf, drop (length buf) (b ∷ bs))

unfoldable pub serialize_htlc : Htlc → List ℕ
unfolding put_be
serialize_htlc h =
    (if h.incoming then 1 ∷ [] else 0 ∷ [])
    ++ (put_be 8 h.amt ++ (h.rhash ++ (put_be 4 h.refund_timeout ++ put_be 4 h.revocation_delay)))

-- The one buffer of 8 bytes serves four of the reads.
unfoldable pub deserialize_htlc : DbReader Htlc
unfolding read_into zeros from_be
deserialize_htlc bs = do
  (flag, bs₁) ← read_into (0 ∷ []) bs
  (amt, bs₂) ← read_into (flag ++ zeros 7) bs₁
  (rhash, bs₃) ← read_into (zeros 32) bs₂
  (timeout, bs₄) ← read_into (take 4 amt) bs₃
  (delay, bs₅) ← read_into timeout bs₄
  ok (
    record {
      incoming = bytes_equal flag (1 ∷ []);
      amt = from_be 0 amt;
      rhash = rhash;
      refund_timeout = from_be 0 timeout;
      revocation_delay = from_be 0 delay;
    },
    bs₅,
  )

-- chk || txid || index
unfoldable pub make_htlc_key : OutPoint → List ℕ
unfolding put_be
make_htlc_key o = b'c' ∷ b'h' ∷ b'k' ∷ (o.hash ++ put_be 4 o.index)

unfoldable pub make_log_key : OutPoint → ℕ → List ℕ
unfolding put_be
make_log_key o update_num = o.hash ++ (put_be 4 o.index ++ put_be 4 update_num)

unfoldable pub serialize_htlcs : List Htlc → List ℕ
unfolding serialize_htlc
serialize_htlcs [] = []
serialize_htlcs (h ∷ hs) = serialize_htlc h ++ serialize_htlcs hs

-- The loop of deserializeChannelDelta over a known number of HTLCs.
unfoldable pub read_htlcs : ℕ → DbReader (List Htlc)
unfolding deserialize_htlc
read_htlcs zero bs = ok ([], bs)
read_htlcs (suc n) bs = do
  (h, rest) ← deserialize_htlc bs
  (hs, rest') ← read_htlcs n rest
  ok (h ∷ hs, rest')

-- The loop of fetchCurrentHtlcs, `for htlcReader.Len() != 0`, or nothing if the fuel runs out.
unfoldable pub read_all_htlcs : (fuel : ℕ) → List ℕ → Option (Result DbError (List Htlc))
unfolding deserialize_htlc
read_all_htlcs fuel [] = some (ok [])
read_all_htlcs zero (b ∷ bs) = none
read_all_htlcs (suc fuel) (b ∷ bs) = elim (deserialize_htlc (b ∷ bs)) [
  | err e ↦ some (err e)
  | ok (h, rest) ↦ elim (read_all_htlcs fuel rest) [
    | none ↦ none
    | some r ↦ some (r >>= λ hs. ok (h ∷ hs))
  ]
]

module _ (L : WireLib) (D : DbLib L) where
  unfoldable pub read_var_bytes : ℕ → DbReader (List ℕ)
  read_var_bytes max bs = elim (L.read_var_bytes max bs) [
    | none ↦ err bad_var_bytes
    | some r ↦ ok r
  ]

  unfoldable pub write_outpoint : OutPoint → List ℕ
  unfolding put_be
  write_outpoint o = L.write_var_bytes o.hash ++ put_be 4 o.index

  -- The hash is copied into 32 bytes of zeros.
  unfoldable pub read_outpoint : DbReader OutPoint
  unfolding read_var_bytes read_into zeros from_be
  read_outpoint bs = do
    (txid, rest) ← read_var_bytes 32 bs
    (index, rest') ← read_into (zeros 4) rest
    ok (record { hash = txid ++ drop (length txid) (zeros 32); index = from_be 0 index }, rest')

  unfoldable pub serialize_channel_delta : ChannelDelta → List ℕ
  unfolding put_be serialize_htlcs
  serialize_channel_delta d =
      put_be 8 d.local_balance
      ++ (put_be 8 d.remote_balance
          ++ (put_be 4 d.update_num
              ++ (D.write_var_int (length d.htlcs) ++ serialize_htlcs d.htlcs)))

  unfoldable pub read_var_int : DbReader ℕ
  read_var_int bs = elim (D.read_var_int bs) [ none ↦ err bad_var_int | some r ↦ ok r ]

  unfoldable pub deserialize_channel_delta : DbReader ChannelDelta
  unfolding read_into zeros from_be read_var_int read_htlcs
  deserialize_channel_delta bs = do
    (local, bs₁) ← read_into (zeros 8) bs
    (remote, bs₂) ← read_into local bs₁
    (num, bs₃) ← read_into (take 4 remote) bs₂
    (n, bs₄) ← read_var_int bs₃
    (htlcs, bs₅) ← read_htlcs n bs₄
    ok (
      record {
        local_balance = from_be 0 local;
        remote_balance = from_be 0 remote;
        update_num = from_be 0 num;
        htlcs = htlcs;
      },
      bs₅,
    )
