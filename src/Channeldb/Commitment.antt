-- ===== src/Channeldb/Commitment.antt =====
-- channeldb/channel.go: UpdateCommitment keeps the stored channel equal to the one in memory.
use lnd_cc.Prelude.{
  ℕ, ◌≡◌, sym, ◌∙◌, List, [], ◌∷◌, ◌++◌, ok, >>=-eq-ok, bytes_equal, bytes_equal_refl, All,
}
use lnd_cc.Bytes.{put_be}
use lnd_cc.Lnwire.{WireLib}
use lnd_cc.Channeldb.{DbLib, ChannelDelta, OpenChannel}
use lnd_cc.Channeldb.Codec.{make_htlc_key, write_outpoint}
use lnd_cc.Channeldb.Columns.{
  put_all, capacity_columns, min_fee_columns, num_updates_columns, total_flow_columns,
  net_fee_columns, channel_ids_columns, commit_keys_columns, commit_txns_columns, funding_columns,
  elkrem_columns, delivery_columns, htlc_columns, put_chan_capacity, put_chan_num_updates,
  put_chan_commit_txns, put_current_htlcs,
}
use lnd_cc.Channeldb.Puts.{found, put_all-found, put_all-append, common_columns, node_columns}
use lnd_cc.Channeldb.Holding.{Holds, IsStorable, own_columns}
use lnd_cc.Channeldb.Store.{
  Store, NodeStore, open_chans_bucket, node_bucket, set_node, with_commitment, put_commitment,
  update_commitment, load,
}
use lnd_cc.Channeldb.Synced.{IsSynced, node_bucket-set_node, top-set_node, load_synced}

module _ (L : WireLib) (D : DbLib L) where
  put_commitment_lem :
      (c : OpenChannel L D) (s : Store L D) (top' columns' : D.Bucket)
      → put_all L D
          (capacity_columns L D c ++ num_updates_columns L D c)
          (open_chans_bucket L D s).top
        ≡ ok top'
      → put_all L D
          (commit_txns_columns L D c ++ htlc_columns L D c.htlcs c.chan_id)
          (node_bucket L D c.their_lnid (open_chans_bucket L D s)).columns
        ≡ ok columns'
      → put_commitment L D c.htlcs c s
        ≡ ok (
            set_node L D c.their_lnid top'
              (record {
                columns = columns';
                index = (node_bucket L D c.their_lnid (open_chans_bucket L D s)).index;
                log = (node_bucket L D c.their_lnid (open_chans_bucket L D s)).log;
              })
              s)
  unfolding put_commitment put_chan_capacity put_chan_num_updates put_chan_commit_txns
      put_current_htlcs
  put_commitment_lem c s top' columns' e k =
      let top = (open_chans_bucket L D s).top in
      let columns = (node_bucket L D c.their_lnid (open_chans_bucket L D s)).columns in
      let (top₁, top_first, top_rest) =
        >>=-eq-ok (put_all L D (capacity_columns L D c) top)
          (λ b. put_all L D (num_updates_columns L D c) b)
          (sym (put_all-append L D (capacity_columns L D c) (num_updates_columns L D c) top) ∙ e) in
      let (columns₁, columns_first, columns_rest) =
        >>=-eq-ok (put_all L D (commit_txns_columns L D c) columns)
          (λ b. put_all L D (htlc_columns L D c.htlcs c.chan_id) b)
          (sym (
              put_all-append L D (commit_txns_columns L D c) (htlc_columns L D c.htlcs c.chan_id)
                columns)
            ∙ k) in
      rw top_first (rw top_rest (rw columns_first (rw columns_rest)))

  -- What UpdateCommitment writes succeeds, and every other column stays.
  put_commitment-found :
      (c : OpenChannel L D) (s : Store L D) (fits : IsStorable L D c)
      → (top' : D.Bucket) × (columns' : D.Bucket) × (put_commitment L D c.htlcs c s
          ≡ ok (
              set_node L D c.their_lnid top'
                (record {
                  columns = columns';
                  index = (node_bucket L D c.their_lnid (open_chans_bucket L D s)).index;
                  log = (node_bucket L D c.their_lnid (open_chans_bucket L D s)).log;
                })
                s))
        × ((j : List ℕ)
            → D.get j top'
              ≡ found
                  (capacity_columns L D c ++ num_updates_columns L D c)
                  j
                  (D.get j (open_chans_bucket L D s).top))
        × ((j : List ℕ)
            → D.get j columns'
              ≡ found
                  (commit_txns_columns L D c ++ htlc_columns L D c.htlcs c.chan_id)
                  j
                  (D.get j (node_bucket L D c.their_lnid (open_chans_bucket L D s)).columns))
  unfolding common_columns node_columns capacity_columns min_fee_columns num_updates_columns
      channel_ids_columns commit_keys_columns commit_txns_columns funding_columns elkrem_columns
      delivery_columns htlc_columns
  put_commitment-found c s fits =
      let chans = open_chans_bucket L D s in
      let node = node_bucket L D c.their_lnid chans in
      let (cap, (our, (their, (fee, (num, more))))) = fits.common_fits in
      let (ids, (keys, (txns, (funding, (elkrem, (scripts, (htlcs, done))))))) = fits.node_fits in
      let (top', top_put, top_found) =
        put_all-found L D (capacity_columns L D c ++ num_updates_columns L D c) chans.top
          (cap, (our, (their, (num, tt)))) in
      let (columns', columns_put, columns_found) =
        put_all-found L D (commit_txns_columns L D c ++ htlc_columns L D c.htlcs c.chan_id)
          node.columns (txns, (htlcs, tt)) in
      (
        top',
        columns',
        put_commitment_lem c s top' columns' top_put columns_put,
        top_found,
        columns_found,
      )

  common_updated :
      (tx : D.Tx) (sig : List ℕ) (delta : ChannelDelta) (c : OpenChannel L D) (b b' : D.Bucket)
      → ((j : List ℕ)
          → D.get j b'
            ≡ found
                (capacity_columns L D (with_commitment L D tx sig delta c)
                  ++ num_updates_columns L D (with_commitment L D tx sig delta c))
                j
                (D.get j b))
      → All (Holds L D b) (common_columns L D c)
      → All (Holds L D b') (common_columns L D (with_commitment L D tx sig delta c))
  unfolding with_commitment found bytes_equal common_columns capacity_columns min_fee_columns
      num_updates_columns total_flow_columns net_fee_columns
  common_updated tx sig delta c b b' g
        (cap, (our, (their, (fee, (num, (sent, (received, (net, done)))))))) =
      let id = write_outpoint L D c.chan_id in
      let same = bytes_equal_refl id in
      (
        g (b'c' ∷ b'c' ∷ b'p' ∷ id) ∙ rw same,
        (
          g (b's' ∷ b'b' ∷ b'p' ∷ id) ∙ rw same,
          (
            g (b't' ∷ b'b' ∷ b'p' ∷ id) ∙ rw same,
            (
              g (b'm' ∷ b'f' ∷ b'p' ∷ id) ∙ fee,
              (
                g (b'u' ∷ b'u' ∷ b'p' ∷ id) ∙ rw same,
                (
                  g (b's' ∷ b's' ∷ b'p' ∷ id) ∙ sent,
                  (g (b's' ∷ b'r' ∷ b'p' ∷ id) ∙ received, (g (b'n' ∷ b't' ∷ b'p' ∷ id) ∙ net, tt)),
                ),
              ),
            ),
          ),
        ),
      )

  own_updated :
      (tx : D.Tx) (sig : List ℕ) (delta : ChannelDelta) (c : OpenChannel L D) (receiver : List ℕ)
      (b b' : D.Bucket)
      → ((j : List ℕ)
          → D.get j b'
            ≡ found
                (commit_txns_columns L D (with_commitment L D tx sig delta c)
                  ++ htlc_columns L D delta.htlcs c.chan_id)
                j
                (D.get j b))
      → All (Holds L D b) (own_columns L D c receiver)
      → All (Holds L D b) (delivery_columns L D c)
      → All (Holds L D b') (own_columns L D (with_commitment L D tx sig delta c) receiver)
        × All (Holds L D b') (delivery_columns L D (with_commitment L D tx sig delta c))
  unfolding with_commitment found bytes_equal make_htlc_key own_columns channel_ids_columns
      commit_keys_columns commit_txns_columns funding_columns elkrem_columns delivery_columns
      htlc_columns
  own_updated tx sig delta c receiver b b' g
        (ids, (keys, (txns, (funding, (elkrem, (htlcs, done)))))) (scripts, over) =
      let id = write_outpoint L D c.chan_id in
      (
        (
          g (b'c' ∷ b'i' ∷ b'k' ∷ id) ∙ ids,
          (
            g (b'c' ∷ b'k' ∷ b'k' ∷ id) ∙ keys,
            (
              g (b'c' ∷ b't' ∷ b'k' ∷ id) ∙ rw (bytes_equal_refl id),
              (
                g (b'f' ∷ b's' ∷ b'k' ∷ id) ∙ funding,
                (
                  g (b'e' ∷ b's' ∷ b'k' ∷ id) ∙ elkrem,
                  (
                    g (make_htlc_key c.chan_id)
                        ∙ rw (bytes_equal_refl (c.chan_id.hash ++ put_be 4 c.chan_id.index)),
                    tt,
                  ),
                ),
              ),
            ),
          ),
        ),
        (g (b'd' ∷ b's' ∷ b'k' ∷ []) ∙ scripts, tt),
      )

  -- UpdateCommitment of a channel that the store holds: the store then holds the channel with the
  -- new commitment, as memory does, and it is loaded.
  pub update_commitment-IsSynced :
      (tx : D.Tx) (sig : List ℕ) (delta : ChannelDelta) (c : OpenChannel L D) (s : Store L D)
      (fits : IsStorable L D (with_commitment L D tx sig delta c))
      → IsSynced L D c fits.receiver s
      → (s' : Store L D) × (update_commitment L D tx sig delta c s
          ≡ (with_commitment L D tx sig delta c, ok s'))
        × IsSynced L D (with_commitment L D tx sig delta c) fits.receiver s'
        × (load L D c.their_lnid c.chan_id s' ≡ ok (with_commitment L D tx sig delta c))
  unfolding update_commitment with_commitment
  update_commitment-IsSynced tx sig delta c s fits synced =
      let c' = with_commitment L D tx sig delta c in
      let (top', columns', done, top_found, columns_found) = put_commitment-found c' s fits in
      let node = node_bucket L D c.their_lnid (open_chans_bucket L D s) in
      let node' : NodeStore L D = record {
        columns = columns';
        index = node.index;
        log = node.log;
      } in
      let s' = set_node L D c.their_lnid top' node' s in
      let at = node_bucket-set_node L D c.their_lnid top' node' s in
      let (own, scripts) =
        own_updated tx sig delta c fits.receiver node.columns columns' columns_found synced.own
          synced.scripts in
      let synced' : IsSynced L D c' fits.receiver s' = record {
        index = synced.index;
        value = synced.value;
        has_index = rw at synced.has_index;
        is_indexed = synced.is_indexed;
        common = rw (top-set_node L D c.their_lnid top' node' s) (
            common_updated tx sig delta c (open_chans_bucket L D s).top top' top_found
              synced.common);
        own = rw at own;
        scripts = rw at scripts;
      } in
      (s', rw done, synced', load_synced L D c' s' fits synced')
