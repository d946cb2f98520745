-- ===== src/Channeldb/Store.antt =====
-- channeldb/channel.go: the operations on the whole database, each one bolt transaction: an error
-- leaves the store as it was. channeldb/db.go: FetchOpenChannels.
use lnd_cc.Prelude.{
  ℕ, ◌%◌, ◌^◌, Option, none, some, List, [], ◌∷◌, if◌then◌else◌, Result, ok, err, ◌>>=◌,
  bytes_equal,
}
use lnd_cc.Lnwire.{WireLib, OutPoint}
use lnd_cc.Channeldb.{
  Htlc, DbLib, DbError, nil_bucket, put_failed, no_chan_db, no_active_channels, no_log_entry,
  ChannelDelta, OpenChannel,
}
use lnd_cc.Channeldb.Codec.{
  make_log_key, write_outpoint, read_outpoint, serialize_channel_delta, deserialize_channel_delta,
}
use lnd_cc.Channeldb.Columns.{
  column_key, put_all, delete_all, put_chan_capacity, put_chan_num_updates, put_chan_commit_txns,
  put_chan_elkrem_state, put_current_htlcs,
}
use lnd_cc.Channeldb.Fetch.{put_open_channel, fetch_open_channel}

module _ (L : WireLib) (D : DbLib L) where
  -- A node's bucket, with its nested index of channels and its log.
  pub record NodeStore : Type 0 where
    pub columns : D.Bucket
    pub index : Option D.Bucket
    pub log : Option D.Bucket

  -- openChannelBucket: its own values, and a bucket for each peer.
  pub record OpenChans : Type 0 where
    pub top : D.Bucket
    pub nodes : List ℕ → Option NodeStore

  pub record Store : Type 0 where
    pub open_chans : Option OpenChans
    pub closed : Option D.Bucket

  unfoldable pub open_bucket : Option D.Bucket → D.Bucket
  open_bucket none = D.empty
  open_bucket (some b) = b

  unfoldable pub open_chans_bucket : Store → OpenChans
  open_chans_bucket s = elim s.open_chans [
    | none ↦ record { top = D.empty; nodes = λ id. none }
    | some chans ↦ chans
  ]

  unfoldable pub node_bucket : List ℕ → OpenChans → NodeStore
  node_bucket id chans = elim (chans.nodes id) [
    | none ↦ record { columns = D.empty; index = none; log = none }
    | some node ↦ node
  ]

  -- The store after a transaction on a peer's bucket.
  unfoldable pub set_node : List ℕ → (top : D.Bucket) → NodeStore → Store → Store
  unfolding open_chans_bucket
  set_node id top node s = record {
    open_chans = some (record {
      top = top;
      nodes =
          λ other. if bytes_equal other id then some node else (open_chans_bucket s).nodes other;
    });
    closed = s.closed;
  }

  -- A channel id that is not in the index is put, with no value.
  unfoldable pub index_channel : List ℕ → D.Bucket → Result DbError D.Bucket
  index_channel id index = elim (D.get id index) [
    | some v ↦ ok index
    | none ↦ elim (D.put id [] index) [ none ↦ err put_failed | some index' ↦ ok index' ]
  ]

  unfoldable pub full_sync : OpenChannel L D → Store → Result DbError Store
  unfolding open_bucket open_chans_bucket node_bucket set_node index_channel write_outpoint
      put_open_channel
  full_sync c s = do
    let chans = open_chans_bucket s
    let node = node_bucket c.their_lnid chans
    index ← index_channel (write_outpoint L D c.chan_id) (open_bucket node.index)
    stored ← put_open_channel L D c chans.top node.columns
    ok (
        set_node c.their_lnid stored.0
          (record { columns = stored.1; index = some index; log = node.log }) s)

  -- The channel in memory after UpdateCommitment, which changes it before it writes.
  unfoldable pub with_commitment :
      D.Tx → (sig : List ℕ) → ChannelDelta → OpenChannel L D → OpenChannel L D
  with_commitment tx sig delta c = record {
    their_lnid = c.their_lnid;
    chan_id = c.chan_id;
    min_fee_per_kb = c.min_fee_per_kb;
    our_commit_key = c.our_commit_key;
    their_commit_key = c.their_commit_key;
    capacity = c.capacity;
    our_balance = delta.local_balance;
    their_balance = delta.remote_balance;
    our_commit_tx = tx;
    our_commit_sig = sig;
    funding_outpoint = c.funding_outpoint;
    our_multi_sig_key = c.our_multi_sig_key;
    their_multi_sig_key = c.their_multi_sig_key;
    funding_redeem_script = c.funding_redeem_script;
    local_csv_delay = c.local_csv_delay;
    remote_csv_delay = c.remote_csv_delay;
    their_current_revocation = c.their_current_revocation;
    their_current_revocation_hash = c.their_current_revocation_hash;
    local_elkrem = c.local_elkrem;
    remote_elkrem = c.remote_elkrem;
    our_delivery_script = c.our_delivery_script;
    their_delivery_script = c.their_delivery_script;
    num_updates = delta.update_num;
    total_satoshis_sent = c.total_satoshis_sent;
    total_satoshis_received = c.total_satoshis_received;
    total_net_fees = c.total_net_fees;
    creation_time = c.creation_time;
    htlcs = delta.htlcs;
  }

  -- What UpdateCommitment writes, for the changed channel and the HTLCs of the delta.
  unfoldable pub put_commitment :
      (htlcs : List Htlc) → OpenChannel L D → Store → Result DbError Store
  unfolding open_chans_bucket node_bucket set_node put_chan_capacity put_chan_num_updates
      put_chan_commit_txns put_current_htlcs
  put_commitment htlcs c s = do
    let chans = open_chans_bucket s
    let node = node_bucket c.their_lnid chans
    top₁ ← put_chan_capacity L D c chans.top
    top₂ ← put_chan_num_updates L D c top₁
    columns₁ ← put_chan_commit_txns L D c node.columns
    columns₂ ← put_current_htlcs L D htlcs c.chan_id columns₁
    ok (
        set_node c.their_lnid top₂
          (record { columns = columns₂; index = node.index; log = node.log }) s)

  -- The channel in memory, and the store.
  unfoldable pub update_commitment :
      D.Tx
      → (sig : List ℕ) → ChannelDelta
      → OpenChannel L D
      → Store
      → OpenChannel L D × Result DbError Store
  unfolding with_commitment put_commitment
  update_commitment tx sig delta c s = (
    with_commitment tx sig delta c,
    put_commitment delta.htlcs (with_commitment tx sig delta c) s,
  )

  unfoldable pub append_channel_log_entry :
      ChannelDelta → OutPoint → D.Bucket → Result DbError D.Bucket
  unfolding put_all make_log_key serialize_channel_delta
  append_channel_log_entry delta o log =
      put_all L D ((make_log_key o delta.update_num, serialize_channel_delta L D delta) ∷ []) log

  unfoldable pub fetch_channel_log_entry :
      OutPoint → (update_num : ℕ) → D.Bucket → Result DbError ChannelDelta
  unfolding make_log_key deserialize_channel_delta
  fetch_channel_log_entry o update_num log = elim (D.get (make_log_key o update_num) log) [
    | none ↦ err no_log_entry
    | some bs ↦ do (delta, rest) ← deserialize_channel_delta L D bs; ok delta
  ]

  unfoldable pub append_to_revocation_log :
      ChannelDelta → OpenChannel L D → Store → Result DbError Store
  unfolding open_bucket open_chans_bucket node_bucket set_node put_chan_elkrem_state
      append_channel_log_entry
  append_to_revocation_log delta c s = do
    let chans = open_chans_bucket s
    let node = node_bucket c.their_lnid chans
    columns ← put_chan_elkrem_state L D c node.columns
    log ← append_channel_log_entry delta c.chan_id (open_bucket node.log)
    ok (
        set_node c.their_lnid chans.top
          (record { columns = columns; index = node.index; log = some log }) s)

  -- A missing log is not noticed: the source tests the node's bucket a second time.
  unfoldable pub find_previous_state :
      (update_num : ℕ) → OpenChannel L D → Store → Result DbError ChannelDelta
  unfolding fetch_channel_log_entry
  find_previous_state update_num c s = elim s.open_chans [
    | none ↦ err nil_bucket
    | some chans ↦ elim (chans.nodes c.their_lnid) [
      | none ↦ err no_active_channels
      | some node ↦ elim node.log [
        | none ↦ err nil_bucket
        | some log ↦ fetch_channel_log_entry c.chan_id (update_num % 2 ^ 32) log
      ]
    ]
  ]

  -- The keys that deleteOpenChannel deletes, given a channel's id as bytes.
  unfoldable pub delete_chan_capacity : List ℕ → D.Bucket → D.Bucket
  unfolding delete_all
  delete_chan_capacity id b =
      delete_all L D
        (column_key L D b'c' b'c' b'p' id
          ∷ column_key L D b's' b'b' b'p' id
          ∷ column_key L D b't' b'b' b'p' id
          ∷ [])
        b

  unfoldable pub delete_chan_min_fee_per_kb : List ℕ → D.Bucket → D.Bucket
  delete_chan_min_fee_per_kb id b = D.delete (column_key L D b'm' b'f' b'p' id) b

  unfoldable pub delete_chan_num_updates : List ℕ → D.Bucket → D.Bucket
  delete_chan_num_updates id b = D.delete (column_key L D b'u' b'u' b'p' id) b

  unfoldable pub delete_chan_total_flow : List ℕ → D.Bucket → D.Bucket
  unfolding delete_all
  delete_chan_total_flow id b =
      delete_all L D (column_key L D b's' b's' b'p' id ∷ column_key L D b's' b'r' b'p' id ∷ []) b

  unfoldable pub delete_chan_net_fee : List ℕ → D.Bucket → D.Bucket
  delete_chan_net_fee id b = D.delete (column_key L D b'n' b't' b'p' id) b

  unfoldable pub delete_channel_ids : List ℕ → D.Bucket → D.Bucket
  delete_channel_ids id b = D.delete (column_key L D b'c' b'i' b'k' id) b

  unfoldable pub delete_chan_commit_keys : List ℕ → D.Bucket → D.Bucket
  delete_chan_commit_keys id b = D.delete (column_key L D b'c' b'k' b'k' id) b

  unfoldable pub delete_chan_commit_txns : List ℕ → D.Bucket → D.Bucket
  delete_chan_commit_txns id b = D.delete (column_key L D b'c' b't' b'k' id) b

  unfoldable pub delete_chan_funding_info : List ℕ → D.Bucket → D.Bucket
  delete_chan_funding_info id b = D.delete (column_key L D b'f' b's' b'k' id) b

  unfoldable pub delete_chan_elkrem_state : List ℕ → D.Bucket → D.Bucket
  delete_chan_elkrem_state id b = D.delete (column_key L D b'e' b's' b'k' id) b

  -- The key that it builds with the channel's id is not the one that it deletes.
  unfoldable pub delete_chan_delivery_scripts : List ℕ → D.Bucket → D.Bucket
  delete_chan_delivery_scripts id b = D.delete (b'd' ∷ b's' ∷ b'k' ∷ []) b

  unfoldable pub delete_open_channel : List ℕ → (top node : D.Bucket) → D.Bucket × D.Bucket
  unfolding delete_chan_capacity delete_chan_min_fee_per_kb delete_chan_num_updates
      delete_chan_total_flow delete_chan_net_fee delete_channel_ids delete_chan_commit_keys
      delete_chan_commit_txns delete_chan_funding_info delete_chan_elkrem_state
      delete_chan_delivery_scripts
  delete_open_channel id top node = (
    delete_chan_net_fee id (
        delete_chan_total_flow id (
          delete_chan_num_updates id
            (delete_chan_min_fee_per_kb id (delete_chan_capacity id top)))),
    delete_chan_delivery_scripts id (
        delete_chan_elkrem_state id (
          delete_chan_funding_info id (
            delete_chan_commit_txns id (delete_chan_commit_keys id (delete_channel_ids id node))))),
  )

  unfoldable pub put_closed_channel_summary : List ℕ → Option D.Bucket → Result DbError D.Bucket
  unfolding open_bucket put_all
  put_closed_channel_summary id closed = put_all L D ((id, []) ∷ []) (open_bucket closed)

  unfoldable pub close_channel : OpenChannel L D → Store → Result DbError Store
  unfolding write_outpoint delete_open_channel put_closed_channel_summary set_node
  close_channel c s = elim s.open_chans [
    | none ↦ err no_chan_db
    | some chans ↦ elim (chans.nodes c.their_lnid) [
      | none ↦ err no_active_channels
      | some node ↦ elim node.index [
        | none ↦ err no_active_channels
        | some index ↦ do
          let id = write_outpoint L D c.chan_id
          let kept = delete_open_channel id chans.top node.columns
          closed ← put_closed_channel_summary id s.closed
          ok (
              set_node c.their_lnid kept.0
                (record { columns = kept.1; index = some (D.delete id index); log = node.log })
                (record { open_chans = s.open_chans; closed = some closed }))
      ]
    ]
  ]

  -- The loop of FetchOpenChannels over the keys of the index.
  unfoldable pub fetch_indexed :
      (top node : D.Bucket) → List (List ℕ) → Result DbError (List (OpenChannel L D))
  unfolding read_outpoint fetch_open_channel
  fetch_indexed top node [] = ok []
  fetch_indexed top node (key ∷ keys) = do
    (o, rest) ← read_outpoint L D key
    c ← fetch_open_channel L D top node o
    cs ← fetch_indexed top node keys
    ok (c ∷ cs)

  unfoldable pub fetch_open_channels :
      (id : List ℕ) → Store → Result DbError (List (OpenChannel L D))
  unfolding fetch_indexed
  fetch_open_channels id s = elim s.open_chans [
    | none ↦ ok []
    | some chans ↦ elim (chans.nodes id) [
      | none ↦ ok []
      | some node ↦ elim node.index [
        | none ↦ ok []
        | some index ↦ fetch_indexed chans.top node.columns (D.keys index)
      ]
    ]
  ]

  -- What FetchOpenChannels reads for one channel of the index.
  unfoldable pub load : (id : List ℕ) → OutPoint → Store → Result DbError (OpenChannel L D)
  unfolding open_chans_bucket node_bucket fetch_open_channel
  load id o s =
      fetch_open_channel L D (open_chans_bucket s).top
        (node_bucket id (open_chans_bucket s)).columns o
