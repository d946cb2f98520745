-- ===== src/Channeldb/Synced.antt =====
-- channeldb/channel.go: FullSync leaves the whole channel in the store, and it is loaded from there.
use lnd_cc.Prelude.{
  ℕ, ◌≤◌, ◌<◌, ◌≡◌, refl, ◌∙◌, inl, inr, some, List, [], length, length-append, arith, ok,
  bytes_equal_refl, All, Option-cases,
}
use lnd_cc.Bytes.{put_be, length-put_be}
use lnd_cc.Lnwire.{WireLib}
use lnd_cc.Channeldb.{DbLib, OpenChannel}
use lnd_cc.Channeldb.Codec.{write_outpoint}
use lnd_cc.Channeldb.Columns.{capacity_columns, delivery_columns}
use lnd_cc.Channeldb.Puts.{common_columns}
use lnd_cc.Channeldb.Holding.{
  Holds, IsStorable, own_columns, found-common, found-own, fetch_open_channel-Holds,
}
use lnd_cc.Channeldb.Recovery.{put_open_channel-found}
use lnd_cc.Channeldb.Store.{
  Store, NodeStore, open_bucket, open_chans_bucket, node_bucket, set_node, index_channel, full_sync,
  load,
}

module _ (L : WireLib) (D : DbLib L) where
  -- The store holds every column of the channel, and its id in the index of its peer.
  pub record IsSynced (c : OpenChannel L D) (receiver : List ℕ) (s : Store L D) : Type 0 where
    pub index : D.Bucket
    pub value : List ℕ
    pub has_index : (node_bucket L D c.their_lnid (open_chans_bucket L D s)).index ≡ some index
    pub is_indexed : D.get (write_outpoint L D c.chan_id) index ≡ some value
    pub common : All (Holds L D (open_chans_bucket L D s).top) (common_columns L D c)
    pub own :
        All
          (Holds L D (node_bucket L D c.their_lnid (open_chans_bucket L D s)).columns)
          (own_columns L D c receiver)
    pub scripts :
        All
          (Holds L D (node_bucket L D c.their_lnid (open_chans_bucket L D s)).columns)
          (delivery_columns L D c)

  -- What a transaction on a peer's bucket leaves there.
  pub node_bucket-set_node :
      (id : List ℕ) (top : D.Bucket) (node : NodeStore L D) (s : Store L D)
      → node_bucket L D id (open_chans_bucket L D (set_node L D id top node s)) ≡ node
  unfolding set_node open_chans_bucket node_bucket
  node_bucket-set_node id top node s = rw (node_bucket, bytes_equal_refl id)

  pub top-set_node :
      (id : List ℕ) (top : D.Bucket) (node : NodeStore L D) (s : Store L D)
      → (open_chans_bucket L D (set_node L D id top node s)).top ≡ top
  unfolding set_node open_chans_bucket
  top-set_node id top node s = refl

  -- A channel that the store holds is loaded as it is.
  pub load_synced :
      (c : OpenChannel L D) (s : Store L D) (fits : IsStorable L D c)
      → IsSynced c fits.receiver s
      → load L D c.their_lnid c.chan_id s ≡ ok c
  unfolding load delivery_columns
  load_synced c s fits synced =
      let (sig, redeem, ours, theirs) = fits.script_sizes in
      fetch_open_channel-Holds L D c (open_chans_bucket L D s).top
        (node_bucket L D c.their_lnid (open_chans_bucket L D s)).columns c.our_delivery_script
        c.their_delivery_script fits synced.common synced.own synced.scripts.0 ours theirs

  index_channel-get :
      (id : List ℕ) (index : D.Bucket)
      → 0 < length id
      → length id ≤ 32768
      → (index' : D.Bucket) × (index_channel L D id index ≡ ok index')
        × ((v : List ℕ) × (D.get id index' ≡ some v))
  unfolding index_channel
  index_channel-get id index n m = elim (Option-cases (D.get id index)) [
    | inr (v, e) ↦ (index, rw (index_channel, e), (v, e))
    | inl e ↦
        let (index', put, look) = D.get-put id [] index n m (omega arith) in
        (index', rw (index_channel, e) (rw put), ([], look id ∙ rw (bytes_equal_refl id)))
  ]

  pub id_sizes :
      (c : OpenChannel L D)
      → IsStorable L D c
      → (0 < length (write_outpoint L D c.chan_id))
        × (length (write_outpoint L D c.chan_id) ≤ 32768)
  unfolding common_columns capacity_columns write_outpoint
  id_sizes c fits = (
    omega (
      arith,
      length-append (L.write_var_bytes c.chan_id.hash) (put_be 4 c.chan_id.index),
      length-put_be 4 c.chan_id.index,
    ),
    omega (arith, fits.common_fits.0.1),
  )

  -- FullSync succeeds on any store, and leaves the whole channel there, under its peer;
  -- the channel is then loaded as it is.
  pub full_sync-IsSynced :
      (c : OpenChannel L D) (s : Store L D) (fits : IsStorable L D c)
      → (s' : Store L D) × (full_sync L D c s ≡ ok s')
        × IsSynced c fits.receiver s'
        × (load L D c.their_lnid c.chan_id s' ≡ ok c)
  unfolding full_sync
  full_sync-IsSynced c s fits =
      let chans = open_chans_bucket L D s in
      let node = node_bucket L D c.their_lnid chans in
      let (some_id, short_id) = id_sizes c fits in
      let (index, indexed, (value, has)) =
        index_channel-get (write_outpoint L D c.chan_id) (open_bucket L D node.index) some_id
          short_id in
      let (top', columns', done, top_found, node_found) =
        put_open_channel-found L D c chans.top node.columns fits in
      let node' : NodeStore L D = record {
        columns = columns';
        index = some index;
        log = node.log;
      } in
      let s' = set_node L D c.their_lnid top' node' s in
      let at = node_bucket-set_node c.their_lnid top' node' s in
      let (own, scripts) = found-own L D c fits.receiver node.columns columns' node_found in
      let synced : IsSynced c fits.receiver s' = record {
        index = index;
        value = value;
        has_index = rw at;
        is_indexed = has;
        common =
            rw (top-set_node c.their_lnid top' node' s)
              (found-common L D c chans.top top' top_found);
        own = rw at own;
        scripts = rw at scripts;
      } in
      (s', rw indexed (rw done), synced, load_synced c s' fits synced)
