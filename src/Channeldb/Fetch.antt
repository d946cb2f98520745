-- ===== src/Channeldb/Fetch.antt =====
-- channeldb/channel.go: the fetch functions, and putOpenChannel and fetchOpenChannel, which put
-- and fetch all columns of a channel.
use lnd_cc.Prelude.{
  ℕ, none, some, List, [], ◌∷◌, ◌++◌, leb, ◌==◌, length, take, drop, Result, ok, err, ◌>>=◌, ◌>>◌,
  guard,
}
use lnd_cc.Bytes.{from_be}
use lnd_cc.Elkrem.{ElkremNode}
use lnd_cc.Elkrem.Serdes.{from_bytes}
use lnd_cc.Lnwire.{WireLib, OutPoint}
use lnd_cc.Channeldb.{
  DbLib, DbError, out_of_range, bad_tx, bad_hash, bad_elkrem, out_of_fuel, Htlc, OpenChannel,
}
use lnd_cc.Channeldb.Codec.{
  DbReader, zeros, read_into, make_htlc_key, read_all_htlcs, read_var_bytes, write_outpoint,
  read_outpoint,
}
use lnd_cc.Channeldb.Columns.{
  column_key, fetch_uint64, reader_of, parse_pub_key, put_chan_capacity, put_chan_min_fee_per_kb,
  put_chan_num_updates, put_chan_total_flow, put_chan_net_fee, put_channel_ids,
  put_chan_commit_keys, put_chan_commit_txns, put_chan_funding_info, put_chan_elkrem_state,
  put_chan_delivery_scripts, put_current_htlcs,
}

-- What the fetch functions set, one record for each value with several fields.
pub record CommitTxns (Tx : Type 0) : Type 0 where
  pub tx : Tx
  pub sig : List ℕ
  pub local_csv : ℕ
  pub remote_csv : ℕ

pub record FundingInfo (Key : Type 0) : Type 0 where
  pub outpoint : OutPoint
  pub ours : Key
  pub theirs : Key
  pub script : List ℕ
  pub creation : ℕ

pub record ElkremState (Key : Type 0) : Type 0 where
  pub revocation : Key
  pub hash : List ℕ
  pub local : List ℕ
  pub remote : List ElkremNode

module _ (L : WireLib) (D : DbLib L) where
  unfoldable pub fetch_chan_capacity : OutPoint → D.Bucket → Result DbError (ℕ × ℕ × ℕ)
  unfolding write_outpoint fetch_uint64
  fetch_chan_capacity o b = do
    capacity ← fetch_uint64 L D (column_key L D b'c' b'c' b'p' (write_outpoint L D o)) b
    ours ← fetch_uint64 L D (column_key L D b's' b'b' b'p' (write_outpoint L D o)) b
    theirs ← fetch_uint64 L D (column_key L D b't' b'b' b'p' (write_outpoint L D o)) b
    ok (capacity, ours, theirs)

  unfoldable pub fetch_chan_min_fee_per_kb : OutPoint → D.Bucket → Result DbError ℕ
  unfolding write_outpoint fetch_uint64
  fetch_chan_min_fee_per_kb o b =
      fetch_uint64 L D (column_key L D b'm' b'f' b'p' (write_outpoint L D o)) b

  unfoldable pub fetch_chan_num_updates : OutPoint → D.Bucket → Result DbError ℕ
  unfolding write_outpoint fetch_uint64
  fetch_chan_num_updates o b =
      fetch_uint64 L D (column_key L D b'u' b'u' b'p' (write_outpoint L D o)) b

  unfoldable pub fetch_chan_total_flow : OutPoint → D.Bucket → Result DbError (ℕ × ℕ)
  unfolding write_outpoint fetch_uint64
  fetch_chan_total_flow o b = do
    sent ← fetch_uint64 L D (column_key L D b's' b's' b'p' (write_outpoint L D o)) b
    received ← fetch_uint64 L D (column_key L D b's' b'r' b'p' (write_outpoint L D o)) b
    ok (sent, received)

  unfoldable pub fetch_chan_net_fee : OutPoint → D.Bucket → Result DbError ℕ
  unfolding write_outpoint fetch_uint64
  fetch_chan_net_fee o b = fetch_uint64 L D (column_key L D b'n' b't' b'p' (write_outpoint L D o)) b

  -- What is stored is copied into 32 bytes of zeros.
  unfoldable pub fetch_channel_ids : OutPoint → D.Bucket → List ℕ
  unfolding write_outpoint reader_of zeros
  fetch_channel_ids o b =
      let id = reader_of L D (column_key L D b'c' b'i' b'k' (write_outpoint L D o)) b in
      take 32 id ++ drop (length id) (zeros 32)

  -- The keys that a value of at least 33 bytes holds; slicing a shorter one is a panic.
  unfoldable pub read_commit_keys : List ℕ → Result DbError (L.PublicKey × L.PublicKey)
  unfolding parse_pub_key
  read_commit_keys bs = do
    guard (leb 33 (length bs)) out_of_range
    theirs ← parse_pub_key L D (take 33 bs)
    ours ← parse_pub_key L D (drop 33 bs)
    ok (theirs, ours)

  unfoldable pub fetch_chan_commit_keys :
      OutPoint → D.Bucket → Result DbError (L.PublicKey × L.PublicKey)
  unfolding write_outpoint reader_of read_commit_keys
  fetch_chan_commit_keys o b =
      read_commit_keys (reader_of L D (column_key L D b'c' b'k' b'k' (write_outpoint L D o)) b)

  unfoldable pub read_tx : DbReader D.Tx
  read_tx bs = elim (D.deserialize_tx bs) [ none ↦ err bad_tx | some r ↦ ok r ]

  unfoldable pub read_commit_txns : List ℕ → Result DbError (CommitTxns D.Tx)
  unfolding read_tx read_var_bytes read_into zeros from_be
  read_commit_txns bs = do
    (tx, bs₁) ← read_tx bs
    (sig, bs₂) ← read_var_bytes L D 80 bs₁
    (local, bs₃) ← read_into (zeros 4) bs₂
    (remote, bs₄) ← read_into local bs₃
    ok (record { tx = tx; sig = sig; local_csv = from_be 0 local; remote_csv = from_be 0 remote })

  unfoldable pub fetch_chan_commit_txns : OutPoint → D.Bucket → Result DbError (CommitTxns D.Tx)
  unfolding write_outpoint reader_of read_commit_txns
  fetch_chan_commit_txns o b =
      read_commit_txns (reader_of L D (column_key L D b'c' b't' b'k' (write_outpoint L D o)) b)

  unfoldable pub read_funding_info : List ℕ → Result DbError (FundingInfo L.PublicKey)
  unfolding read_outpoint read_var_bytes parse_pub_key read_into zeros from_be
  read_funding_info bs = do
    (point, bs₁) ← read_outpoint L D bs
    (our_bytes, bs₂) ← read_var_bytes L D 34 bs₁
    ours ← parse_pub_key L D our_bytes
    (their_bytes, bs₃) ← read_var_bytes L D 34 bs₂
    theirs ← parse_pub_key L D their_bytes
    (script, bs₄) ← read_var_bytes L D 520 bs₃
    (secs, bs₅) ← read_into (zeros 8) bs₄
    ok (record {
      outpoint = point;
      ours = ours;
      theirs = theirs;
      script = script;
      creation = from_be 0 secs;
    })

  unfoldable pub fetch_chan_funding_info :
      OutPoint → D.Bucket → Result DbError (FundingInfo L.PublicKey)
  unfolding write_outpoint reader_of read_funding_info
  fetch_chan_funding_info o b =
      read_funding_info (reader_of L D (column_key L D b'f' b's' b'k' (write_outpoint L D o)) b)

  unfoldable pub restore_receiver : List ℕ → Result DbError (List ElkremNode)
  unfolding from_bytes
  restore_receiver bs = elim (from_bytes bs) [ err e ↦ err bad_elkrem | ok s ↦ ok s ]

  -- No variable-length field is longer than 1000 bytes; wire.NewShaHash wants 32.
  unfoldable pub read_elkrem_state : List ℕ → Result DbError (ElkremState L.PublicKey)
  unfolding read_var_bytes parse_pub_key read_into zeros restore_receiver
  read_elkrem_state bs = do
    (key_bytes, bs₁) ← read_var_bytes L D 1000 bs
    revocation ← parse_pub_key L D key_bytes
    (hash, bs₂) ← read_into (zeros 32) bs₁
    (sender, bs₃) ← read_var_bytes L D 1000 bs₂
    guard (length sender == 32) bad_hash
    (receiver, bs₄) ← read_var_bytes L D 1000 bs₃
    remote ← restore_receiver receiver
    ok (record { revocation = revocation; hash = hash; local = sender; remote = remote })

  unfoldable pub fetch_chan_elkrem_state :
      OutPoint → D.Bucket → Result DbError (ElkremState L.PublicKey)
  unfolding write_outpoint reader_of read_elkrem_state
  fetch_chan_elkrem_state o b =
      read_elkrem_state (reader_of L D (column_key L D b'e' b's' b'k' (write_outpoint L D o)) b)

  unfoldable pub read_delivery_scripts : List ℕ → Result DbError (List ℕ × List ℕ)
  unfolding read_var_bytes
  read_delivery_scripts bs = do
    (ours, bs₁) ← read_var_bytes L D 520 bs
    (theirs, bs₂) ← read_var_bytes L D 520 bs₁
    ok (ours, theirs)

  -- The key has no channel, as in putChanDeliveryScripts.
  unfoldable pub fetch_chan_delivery_scripts : D.Bucket → Result DbError (List ℕ × List ℕ)
  unfolding reader_of read_delivery_scripts
  fetch_chan_delivery_scripts b = read_delivery_scripts (reader_of L D (b'd' ∷ b's' ∷ b'k' ∷ []) b)

  unfoldable pub fetch_current_htlcs : OutPoint → D.Bucket → Result DbError (List Htlc)
  unfolding make_htlc_key read_all_htlcs
  fetch_current_htlcs o b = elim (D.get (make_htlc_key o) b) [
    | none ↦ ok []
    | some bs ↦ elim (read_all_htlcs (length bs) bs) [ none ↦ err out_of_fuel | some r ↦ r ]
  ]

  -- putOpenChannel, on the top-level bucket and on the node's.
  unfoldable pub put_common : OpenChannel L D → D.Bucket → Result DbError D.Bucket
  unfolding put_chan_capacity put_chan_min_fee_per_kb put_chan_num_updates put_chan_total_flow
      put_chan_net_fee
  put_common c b = do
    b₁ ← put_chan_capacity L D c b
    b₂ ← put_chan_min_fee_per_kb L D c b₁
    b₃ ← put_chan_num_updates L D c b₂
    b₄ ← put_chan_total_flow L D c b₃
    put_chan_net_fee L D c b₄

  unfoldable pub put_node : OpenChannel L D → D.Bucket → Result DbError D.Bucket
  unfolding put_channel_ids put_chan_commit_keys put_chan_commit_txns put_chan_funding_info
      put_chan_elkrem_state put_chan_delivery_scripts put_current_htlcs
  put_node c b = do
    b₁ ← put_channel_ids L D c b
    b₂ ← put_chan_commit_keys L D c b₁
    b₃ ← put_chan_commit_txns L D c b₂
    b₄ ← put_chan_funding_info L D c b₃
    b₅ ← put_chan_elkrem_state L D c b₄
    b₆ ← put_chan_delivery_scripts L D c b₅
    put_current_htlcs L D c.htlcs c.chan_id b₆

  unfoldable pub put_open_channel :
      OpenChannel L D → (top node : D.Bucket) → Result DbError (D.Bucket × D.Bucket)
  unfolding put_common put_node
  put_open_channel c top node = do
    top' ← put_common c top
    node' ← put_node c node
    ok (top', node')

  unfoldable pub fetch_open_channel :
      (top node : D.Bucket) → OutPoint → Result DbError (OpenChannel L D)
  unfolding fetch_channel_ids fetch_chan_commit_keys fetch_chan_commit_txns fetch_chan_funding_info
      fetch_chan_elkrem_state fetch_chan_delivery_scripts fetch_current_htlcs fetch_chan_capacity
      fetch_chan_min_fee_per_kb fetch_chan_num_updates fetch_chan_total_flow fetch_chan_net_fee
  fetch_open_channel top node o = do
    let id = fetch_channel_ids o node
    keys ← fetch_chan_commit_keys o node
    txns ← fetch_chan_commit_txns o node
    funding ← fetch_chan_funding_info o node
    elkrem ← fetch_chan_elkrem_state o node
    scripts ← fetch_chan_delivery_scripts node
    htlcs ← fetch_current_htlcs o node
    balances ← fetch_chan_capacity o top
    fee ← fetch_chan_min_fee_per_kb o top
    num ← fetch_chan_num_updates o top
    flow ← fetch_chan_total_flow o top
    net ← fetch_chan_net_fee o top
    ok (record {
      their_lnid = id;
      chan_id = o;
      min_fee_per_kb = fee;
      our_commit_key = keys.1;
      their_commit_key = keys.0;
      capacity = balances.0;
      our_balance = balances.1;
      their_balance = balances.2;
      our_commit_tx = txns.tx;
      our_commit_sig = txns.sig;
      funding_outpoint = funding.outpoint;
      our_multi_sig_key = funding.ours;
      their_multi_sig_key = funding.theirs;
      funding_redeem_script = funding.script;
      local_csv_delay = txns.local_csv;
      remote_csv_delay = txns.remote_csv;
      their_current_revocation = elkrem.revocation;
      their_current_revocation_hash = elkrem.hash;
      local_elkrem = elkrem.local;
      remote_elkrem = elkrem.remote;
      our_delivery_script = scripts.0;
      their_delivery_script = scripts.1;
      num_updates = num;
      total_satoshis_sent = flow.0;
      total_satoshis_received = flow.1;
      total_net_fees = net;
      creation_time = funding.creation;
      htlcs = htlcs;
    })
