-- ===== src/Channeldb/Closing.antt =====
-- channeldb/channel.go: CloseChannel, and what FetchOpenChannels then makes of the peer's channels.
use lnd_cc.Prelude.{
  ℕ, ◌≡◌, ◌≢◌, refl, sym, ◌∙◌, Option, none, some, List, [], ◌∷◌, arith, Result, ok, ◌>>=◌,
  >>=-eq-ok, ok-injective, bytes_equal, bytes_equal_refl,
}
use lnd_cc.Lnwire.{WireLib, OutPoint}
use lnd_cc.Channeldb.{DbLib, DbError, OpenChannel}
use lnd_cc.Channeldb.Codec.{read_var_bytes, write_outpoint, read_outpoint}
use lnd_cc.Channeldb.Columns.{reader_of}
use lnd_cc.Channeldb.Fetch.{
  fetch_open_channel, fetch_chan_commit_keys, fetch_chan_commit_txns, fetch_chan_funding_info,
  fetch_chan_elkrem_state, fetch_chan_delivery_scripts, read_delivery_scripts,
}
use lnd_cc.Channeldb.Puts.{found, put_all-found}
use lnd_cc.Channeldb.Holding.{IsStorable}
use lnd_cc.Channeldb.Store.{
  Store, NodeStore, OpenChans, open_bucket, open_chans_bucket, node_bucket, set_node,
  delete_chan_delivery_scripts, delete_chan_elkrem_state, delete_chan_funding_info,
  delete_chan_commit_txns, delete_chan_commit_keys, delete_channel_ids, delete_open_channel,
  put_closed_channel_summary, close_channel, fetch_indexed, fetch_open_channels, load,
}
use lnd_cc.Channeldb.Synced.{IsSynced, node_bucket-set_node, id_sizes}

module _ (L : WireLib) (D : DbLib L) where
  binds_fail :
      {A B : Type 0} (r : Result DbError A) (f : A → Result DbError B) (out : B)
      → ((a : A) → f a ≢ ok out)
      → (r >>= f) ≢ ok out
  binds_fail r f out h e = let (a, p, q) = >>=-eq-ok r f e in h a q

  fetch_chan_delivery_scripts_gone :
      (node : D.Bucket) (out : List ℕ × List ℕ)
      → D.get (b'd' ∷ b's' ∷ b'k' ∷ []) node ≡ none
      → fetch_chan_delivery_scripts L D node ≢ ok out
  unfolding fetch_chan_delivery_scripts read_delivery_scripts reader_of read_var_bytes
  fetch_chan_delivery_scripts_gone node out gone e =
      let e' = rw (reader_of, gone) at e in
      cc (rw (read_var_bytes, D.read_var_bytes_empty 520) at e')

  -- No delivery scripts, no channel.
  no_scripts :
      (top node : D.Bucket) (o : OutPoint) (c : OpenChannel L D)
      → D.get (b'd' ∷ b's' ∷ b'k' ∷ []) node ≡ none
      → fetch_open_channel L D top node o ≢ ok c
  unfolding fetch_open_channel
  no_scripts top node o c gone = binds_fail (fetch_chan_commit_keys L D o node) _ c (λ keys.
      binds_fail (fetch_chan_commit_txns L D o node) _ c (λ txns.
        binds_fail (fetch_chan_funding_info L D o node) _ c (λ funding.
          binds_fail (fetch_chan_elkrem_state L D o node) _ c (λ elkrem e.
            let (scripts, p, q) = >>=-eq-ok (fetch_chan_delivery_scripts L D node) _ e in
            fetch_chan_delivery_scripts_gone node scripts gone p))))

  delete_open_channel-scripts :
      (id : List ℕ) (top node : D.Bucket)
      → D.get (b'd' ∷ b's' ∷ b'k' ∷ []) ((delete_open_channel L D id top node).1) ≡ none
  unfolding delete_open_channel delete_chan_delivery_scripts bytes_equal
  delete_open_channel-scripts id top node =
      D.get-delete (b'd' ∷ b's' ∷ b'k' ∷ []) (b'd' ∷ b's' ∷ b'k' ∷ []) (
        delete_chan_elkrem_state L D id (
          delete_chan_funding_info L D id (
            delete_chan_commit_txns L D id
              (delete_chan_commit_keys L D id (delete_channel_ids L D id node)))))

  -- A peer with an index has its buckets.
  buckets :
      (id : List ℕ) (s : Store L D) (index : D.Bucket)
      → (node_bucket L D id (open_chans_bucket L D s)).index ≡ some index
      → (s.open_chans ≡ some (open_chans_bucket L D s))
        × ((open_chans_bucket L D s).nodes id ≡ some (node_bucket L D id (open_chans_bucket L D s)))
  unfolding open_chans_bucket node_bucket
  buckets id s index e = by_chans s.open_chans refl
    where
      by_node :
          (chans : OpenChans L D) (o : Option (NodeStore L D))
          → chans.nodes id ≡ o
          → (node_bucket L D id chans).index ≡ some index
          → chans.nodes id ≡ some (node_bucket L D id chans)
      by_node chans none q k = absurd (cc (rw (node_bucket, q) at k))
      by_node chans (some node) q k = rw (node_bucket, q)

      by_chans :
          (o : Option (OpenChans L D))
          → s.open_chans ≡ o
          → (s.open_chans ≡ some (open_chans_bucket L D s))
            × ((open_chans_bucket L D s).nodes id
                ≡ some (node_bucket L D id (open_chans_bucket L D s)))
      by_chans none p = absurd (cc (rw (open_chans_bucket, p) at e))
      by_chans (some chans) p = (
        rw (open_chans_bucket, p),
        by_node (open_chans_bucket L D s) ((open_chans_bucket L D s).nodes id) refl e,
      )

  fetch_indexed-gone :
      (top node : D.Bucket) (keys : List (List ℕ)) (ds : List (OpenChannel L D))
      → D.get (b'd' ∷ b's' ∷ b'k' ∷ []) node ≡ none
      → fetch_indexed L D top node keys ≡ ok ds
      → ds ≡ []
  unfolding fetch_indexed
  fetch_indexed-gone top node [] ds gone e = sym (ok-injective e)
  fetch_indexed-gone top node (key ∷ keys) ds gone e =
      let (o, p, more) = >>=-eq-ok (read_outpoint L D key) _ e in
      let (c, q, rest) = >>=-eq-ok (fetch_open_channel L D top node o.0) _ more in
      absurd (no_scripts top node o.0 c gone q)

  close_channel_lem :
      (c : OpenChannel L D) (s : Store L D) (index closed : D.Bucket)
      → (node_bucket L D c.their_lnid (open_chans_bucket L D s)).index ≡ some index
      → put_closed_channel_summary L D (write_outpoint L D c.chan_id) s.closed ≡ ok closed
      → let id = write_outpoint L D c.chan_id in
        let chans = open_chans_bucket L D s in
        let node = node_bucket L D c.their_lnid chans in
        let kept = delete_open_channel L D id chans.top node.columns in
        close_channel L D c s
        ≡ ok (
            set_node L D c.their_lnid kept.0
              (record { columns = kept.1; index = some (D.delete id index); log = node.log })
              (record { open_chans = s.open_chans; closed = some closed }))
  unfolding close_channel
  close_channel_lem c s index closed has put =
      let (chans_in, node_in) = buckets c.their_lnid s index has in
      rw (close_channel, chans_in) (rw node_in (rw has (rw put)))

  -- CloseChannel of a channel that the store holds succeeds: its id leaves the index of its peer and
  -- enters the closed channels. But from then on no channel of that peer is loaded, whatever its
  -- id, and FetchOpenChannels returns at most an empty list for the peer.
  pub close_channel-unloads :
      (c : OpenChannel L D) (s : Store L D) (fits : IsStorable L D c)
      → IsSynced L D c fits.receiver s
      → (s' : Store L D) × (closed : D.Bucket) × (index : D.Bucket) × (close_channel L D c s
          ≡ ok s')
        × (s'.closed ≡ some closed)
        × (D.get (write_outpoint L D c.chan_id) closed ≡ some [])
        × ((node_bucket L D c.their_lnid (open_chans_bucket L D s')).index ≡ some index)
        × (D.get (write_outpoint L D c.chan_id) index ≡ none)
        × ((o : OutPoint) (d : OpenChannel L D) → load L D c.their_lnid o s' ≢ ok d)
        × ((ds : List (OpenChannel L D))
            → fetch_open_channels L D c.their_lnid s' ≡ ok ds
            → ds ≡ [])
  unfolding put_closed_channel_summary found load fetch_open_channels set_node open_chans_bucket
      node_bucket
  close_channel-unloads c s fits synced =
      let id = write_outpoint L D c.chan_id in
      let (some_id, short_id) = id_sizes L D c fits in
      let (closed, put, look) =
        put_all-found L D ((id, []) ∷ []) (open_bucket L D s.closed)
          ((some_id, short_id, omega arith), tt) in
      let chans = open_chans_bucket L D s in
      let node = node_bucket L D c.their_lnid chans in
      let kept = delete_open_channel L D id chans.top node.columns in
      let node' : NodeStore L D = record {
        columns = kept.1;
        index = some (D.delete id synced.index);
        log = node.log;
      } in
      let s₁ : Store L D = record { open_chans = s.open_chans; closed = some closed } in
      let s' = set_node L D c.their_lnid kept.0 node' s₁ in
      let at = node_bucket-set_node L D c.their_lnid kept.0 node' s₁ in
      let gone = delete_open_channel-scripts id chans.top node.columns in
      let gone' : D.get (b'd' ∷ b's' ∷ b'k' ∷ [])
            (node_bucket L D c.their_lnid (open_chans_bucket L D s')).columns
          ≡ none =
        rw at gone in
      (
        s',
        closed,
        D.delete id synced.index,
        close_channel_lem c s synced.index closed synced.has_index put,
        refl,
        look id ∙ rw (bytes_equal_refl id),
        rw at,
        D.get-delete id id synced.index ∙ rw (bytes_equal_refl id),
        (λ o d.
            no_scripts (open_chans_bucket L D s').top
              (node_bucket L D c.their_lnid (open_chans_bucket L D s')).columns o d gone'),
        (λ ds e.
            fetch_indexed-gone kept.0 kept.1 (D.keys (D.delete id synced.index)) ds gone
              (rw (fetch_open_channels, bytes_equal_refl c.their_lnid) at e)),
      )
