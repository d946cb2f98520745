-- ===== src/Channeldb/Log.antt =====
-- channeldb/channel.go: AppendToRevocationLog and FindPreviousState, the log of past states.
use lnd_cc.Prelude.{
  ℕ, ◌%◌, ◌^◌, ◌≤◌, ◌<◌, ◌≡◌, sym, ap, ◌∙◌, ◌⊎◌, inl, inr, true, false, Option, none, some, List,
  [], ◌∷◌, ◌++◌, ◌==◌, if◌then◌else◌, length, length-append, drop, drop-append_left, arith, Result,
  ok, err, ◌>>=◌, ==_refl, bytes_equal, bytes_equal_refl, All, append-nil, Bool-cases, Option-cases,
}
use lnd_cc.Bytes.{put_be, from_be, length-put_be, from_be-put_be}
use lnd_cc.Elkrem.Serdes.{to_bytes}
use lnd_cc.Lnwire.{WireLib, OutPoint}
use lnd_cc.Channeldb.{DbLib, DbError, no_log_entry, ChannelDelta, OpenChannel}
use lnd_cc.Channeldb.Codec.{make_log_key, serialize_channel_delta, deserialize_channel_delta}
use lnd_cc.Channeldb.CodecTrips.{IsDelta, deserialize_channel_delta-serialize_channel_delta}
use lnd_cc.Channeldb.Columns.{elkrem_columns}
use lnd_cc.Channeldb.Puts.{found, Fits, put_all-found, put_chan_elkrem_state_lem}
use lnd_cc.Channeldb.Recovery.{bytes_differ}
use lnd_cc.Channeldb.Store.{
  Store, open_bucket, open_chans_bucket, node_bucket, set_node, append_channel_log_entry,
  fetch_channel_log_entry, append_to_revocation_log, find_previous_state,
}

make_log_key-injective :
    (o : OutPoint) (m n : ℕ) → m < 2 ^ 32 → n < 2 ^ 32 → make_log_key o m ≡ make_log_key o n → m ≡ n
unfolding make_log_key
make_log_key-injective o m n h k e =
    let index = put_be 4 o.index in
    let indexed : index ++ put_be 4 m ≡ index ++ put_be 4 n =
      sym (drop-append_left o.hash (index ++ put_be 4 m))
      ∙ ap (drop (length o.hash)) e
      ∙ drop-append_left o.hash (index ++ put_be 4 n) in
    let nums : put_be 4 m ≡ put_be 4 n =
      sym (drop-append_left index (put_be 4 m))
      ∙ ap (drop (length index)) indexed
      ∙ drop-append_left index (put_be 4 n) in
    sym (from_be-put_be 4 m h) ∙ ap (from_be 0) nums ∙ from_be-put_be 4 n k

-- The keys of two states of a channel are equal exactly if the update numbers are.
bytes_equal-make_log_key :
    (o : OutPoint) (m n : ℕ)
    → m < 2 ^ 32
    → n < 2 ^ 32
    → bytes_equal (make_log_key o m) (make_log_key o n) ≡ (m == n)
bytes_equal-make_log_key o m n h k = elim (Bool-cases (m == n)) [
  | inl e ↦
      let same : m ≡ n = ground arith in
      rw same (bytes_equal_refl (make_log_key o n) ∙ sym (==_refl n))
  | inr e ↦
      bytes_differ (make_log_key o m) (make_log_key o n)
        (λ keys. absurd (let same = make_log_key-injective o m n h k keys in ground arith))
      ∙ sym e
]

length-make_log_key : (o : OutPoint) (n : ℕ) → length o.hash ≡ 32 → length (make_log_key o n) ≡ 40
unfolding make_log_key
length-make_log_key o n h = omega (
  arith,
  h,
  length-append o.hash (put_be 4 o.index ++ put_be 4 n),
  length-append (put_be 4 o.index) (put_be 4 n),
  length-put_be 4 o.index,
  length-put_be 4 n,
)

module _ (L : WireLib) (D : DbLib L) where
  unfoldable decoded_entry : Option (List ℕ) → Result DbError ChannelDelta
  decoded_entry none = err no_log_entry
  decoded_entry (some bs) = do (delta, rest) ← deserialize_channel_delta L D bs; ok delta

  fetch-decoded_entry :
      (o : OutPoint) (n : ℕ) (log : D.Bucket)
      → fetch_channel_log_entry L D o n log ≡ decoded_entry (D.get (make_log_key o n) log)
  unfolding fetch_channel_log_entry decoded_entry
  fetch-decoded_entry o n log = elim (Option-cases (D.get (make_log_key o n) log)) [
    | inl e ↦ rw (fetch_channel_log_entry, e)
    | inr (bs, e) ↦ rw (fetch_channel_log_entry, e)
  ]

  decoded_entry-serialize :
      (delta : ChannelDelta)
      → IsDelta delta
      → decoded_entry (some (serialize_channel_delta L D delta)) ≡ ok delta
  unfolding decoded_entry
  decoded_entry-serialize delta fits =
      rw (sym (append-nil (serialize_channel_delta L D delta)))
        (rw (deserialize_channel_delta-serialize_channel_delta L D delta [] fits))

  -- One entry is added to a log: it is found under its number, and the others stay.
  fetch-append_channel_log_entry :
      (delta : ChannelDelta) (o : OutPoint) (log : D.Bucket)
      → length o.hash ≡ 32
      → IsDelta delta
      → length (serialize_channel_delta L D delta) ≤ 2147483646
      → (log' : D.Bucket) × (append_channel_log_entry L D delta o log ≡ ok log')
        × ((n : ℕ)
            → n < 2 ^ 32
            → fetch_channel_log_entry L D o n log'
              ≡ (if n == delta.update_num then ok delta else fetch_channel_log_entry L D o n log))
  unfolding append_channel_log_entry found
  fetch-append_channel_log_entry delta o log point fits small =
      let size = length-make_log_key o delta.update_num point in
      let bs = serialize_channel_delta L D delta in
      let (log', done, look) =
        put_all-found L D ((make_log_key o delta.update_num, bs) ∷ []) log
          ((omega (arith, size), omega (arith, size), small), tt) in
      (log', done, λ n h. at n h log' (look (make_log_key o n)))
    where
      at :
          (n : ℕ) (h : n < 2 ^ 32) (log' : D.Bucket)
          → D.get (make_log_key o n) log' ≡ (
              if bytes_equal (make_log_key o n) (make_log_key o delta.update_num)
              then some (serialize_channel_delta L D delta)
              else D.get (make_log_key o n) log)
          → fetch_channel_log_entry L D o n log'
            ≡ (if n == delta.update_num then ok delta else fetch_channel_log_entry L D o n log)
      at n h log' e =
          fetch-decoded_entry o n log'
          ∙ ap decoded_entry e
          ∙ by_test (Bool-cases (n == delta.update_num))
        where
          by_test :
              (((n == delta.update_num) ≡ true) ⊎ ((n == delta.update_num) ≡ false))
              → decoded_entry (
                  if bytes_equal (make_log_key o n) (make_log_key o delta.update_num)
                  then some (serialize_channel_delta L D delta)
                  else D.get (make_log_key o n) log)
                ≡ (if n == delta.update_num then ok delta else fetch_channel_log_entry L D o n log)
          by_test (inl t) =
              rw (bytes_equal-make_log_key o n delta.update_num h fits.2 ∙ t, t)
                (decoded_entry-serialize delta fits)
          by_test (inr t) =
              rw (bytes_equal-make_log_key o n delta.update_num h fits.2 ∙ t, t)
                (sym (fetch-decoded_entry o n log))

  -- AppendToRevocationLog succeeds, and FindPreviousState then returns the new delta for its update
  -- number, and for any other number what the log held.
  pub find_previous_state-append_to_revocation_log :
      (delta : ChannelDelta) (c : OpenChannel L D) (s : Store L D) (receiver : List ℕ)
      → length c.chan_id.hash ≡ 32
      → IsDelta delta
      → length (serialize_channel_delta L D delta) ≤ 2147483646
      → to_bytes c.remote_elkrem ≡ ok receiver
      → All Fits (elkrem_columns L D c receiver)
      → (s' : Store L D) × (append_to_revocation_log L D delta c s ≡ ok s')
        × ((n : ℕ)
            → find_previous_state L D n c s' ≡ (
                if n % 2 ^ 32 == delta.update_num
                then ok delta
                else fetch_channel_log_entry L D c.chan_id
                    (n % 2 ^ 32)
                    (open_bucket L D (node_bucket L D c.their_lnid (open_chans_bucket L D s)).log)))
  unfolding find_previous_state append_to_revocation_log set_node
  find_previous_state-append_to_revocation_log delta c s receiver point fits small saves elkrem =
      let chans = open_chans_bucket L D s in
      let node = node_bucket L D c.their_lnid chans in
      let (columns, put, same) =
        put_all-found L D (elkrem_columns L D c receiver) node.columns elkrem in
      let (log, added, look) =
        fetch-append_channel_log_entry delta c.chan_id (open_bucket L D node.log) point fits
          small in
      (
        set_node L D c.their_lnid chans.top
            (record { columns = columns; index = node.index; log = some log }) s,
        rw
            (
              append_to_revocation_log,
              put_chan_elkrem_state_lem L D c receiver node.columns saves ∙ put,
            )
            (rw added),
        λ n. found_in columns log n ∙ look (n % 2 ^ 32) (omega arith),
      )
    where
      found_in :
          (columns log : D.Bucket) (n : ℕ)
          → find_previous_state L D n c (
              set_node L D c.their_lnid
                (open_chans_bucket L D s).top
                (record {
                  columns = columns;
                  index = (node_bucket L D c.their_lnid (open_chans_bucket L D s)).index;
                  log = some log;
                })
                s)
            ≡ fetch_channel_log_entry L D c.chan_id (n % 2 ^ 32) log
      found_in columns log n = rw (find_previous_state, bytes_equal_refl c.their_lnid)
