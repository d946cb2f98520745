-- ===== src/Channeldb/Recovery.antt =====
-- putOpenChannel and fetchOpenChannel of channeldb/channel.go: what is put is fetched, also after
-- another channel is put.
use lnd_cc.Prelude.{
  ℕ, ◌<◌, ◌≡◌, ◌≢◌, sym, ap, ◌∙◌, inl, inr, false, List, [], ◌∷◌, ◌++◌, length, take, drop,
  take-append_left, drop-append_left, ok, err, ◌>>=◌, ok-injective, bytes_equal, bytes_equal_refl,
  eq_of_bytes_equal, All, Bool-cases,
}
use lnd_cc.Bytes.{put_be, from_be, from_be-put_be}
use lnd_cc.Elkrem.Serdes.{to_bytes, sender_to_bytes}
use lnd_cc.Lnwire.{WireLib, OutPoint}
use lnd_cc.Channeldb.{DbLib, bad_var_bytes, OpenChannel}
use lnd_cc.Channeldb.Codec.{make_htlc_key, write_outpoint, read_outpoint}
use lnd_cc.Channeldb.CodecTrips.{IsPoint, read_outpoint-write_outpoint}
use lnd_cc.Channeldb.Columns.{
  put_chan_elkrem_state, capacity_columns, min_fee_columns, num_updates_columns, total_flow_columns,
  net_fee_columns, channel_ids_columns, commit_keys_columns, commit_txns_columns, funding_columns,
  elkrem_columns, delivery_columns, htlc_columns,
}
use lnd_cc.Channeldb.Fetch.{
  read_elkrem_state, fetch_chan_elkrem_state, put_open_channel, fetch_open_channel,
}
use lnd_cc.Channeldb.Puts.{
  put_chan_elkrem_state_lem, found, Fits, put_all-found, common_columns, node_columns,
  put_common_lem, put_node_lem,
}
use lnd_cc.Channeldb.Reads.{reader_of-get, read_elkrem_state_long}
use lnd_cc.Channeldb.Holding.{
  Holds, IsStorable, own_columns, with_scripts, found-common, found-own, fetch_open_channel-Holds,
}

pub bytes_differ : (xs ys : List ℕ) → xs ≢ ys → bytes_equal xs ys ≡ false
bytes_differ xs ys h = elim (Bool-cases (bytes_equal xs ys)) [
  | inl e ↦ absurd (h (eq_of_bytes_equal xs ys e))
  | inr e ↦ e
]

module _ (L : WireLib) (D : DbLib L) where
  write_outpoint-injective :
      (o p : OutPoint) → IsPoint o → IsPoint p → write_outpoint L D o ≡ write_outpoint L D p → o ≡ p
  write_outpoint-injective o p h k e =
      ap (λ x. x.0)
        (ok-injective (
          sym (read_outpoint-write_outpoint L D o [] h)
          ∙ ap (λ bs. read_outpoint L D (bs ++ [])) e
          ∙ read_outpoint-write_outpoint L D p [] k))

  point_of :
      (h k : List ℕ) (i j : ℕ)
      → h ≡ k
      → i ≡ j
      → ◌≡◌ {A = OutPoint} (record { hash = h; index = i }) (record { hash = k; index = j })
  point_of h k i j e f = cc

  point_bytes-injective :
      (o p : OutPoint)
      → IsPoint o
      → IsPoint p
      → o.hash ++ put_be 4 o.index ≡ p.hash ++ put_be 4 p.index
      → o ≡ p
  point_bytes-injective o p (o_size, o_index) (p_size, p_index) e =
      let hashes : o.hash ≡ p.hash =
        sym (take-append_left o.hash (put_be 4 o.index))
        ∙ ap (λ n. take n (o.hash ++ put_be 4 o.index)) (o_size ∙ sym p_size)
        ∙ ap (take (length p.hash)) e
        ∙ take-append_left p.hash (put_be 4 p.index) in
      let tails : put_be 4 o.index ≡ put_be 4 p.index =
        sym (drop-append_left o.hash (put_be 4 o.index))
        ∙ ap (λ n. drop n (o.hash ++ put_be 4 o.index)) (o_size ∙ sym p_size)
        ∙ ap (drop (length p.hash)) e
        ∙ drop-append_left p.hash (put_be 4 p.index) in
      let indices : o.index ≡ p.index =
        sym (from_be-put_be 4 o.index o_index)
        ∙ ap (from_be 0) tails
        ∙ from_be-put_be 4 p.index p_index in
      point_of o.hash p.hash o.index p.index hashes indices

  pub put_open_channel-found :
      (c : OpenChannel L D) (top node : D.Bucket) (fits : IsStorable L D c)
      → (top' : D.Bucket) × (node' : D.Bucket) × (put_open_channel L D c top node
          ≡ ok (top', node'))
        × ((j : List ℕ) → D.get j top' ≡ found (common_columns L D c) j (D.get j top))
        × ((j : List ℕ) → D.get j node' ≡ found (node_columns L D c fits.receiver) j (D.get j node))
  unfolding put_open_channel
  put_open_channel-found c top node fits =
      let (top', top_put, top_found) =
        put_all-found L D (common_columns L D c) top fits.common_fits in
      let (node', node_put, node_found) =
        put_all-found L D (node_columns L D c fits.receiver) node fits.node_fits in
      (
        top',
        node',
        rw (put_common_lem L D c top ∙ top_put)
            (rw (put_node_lem L D c fits.receiver node fits.saves ∙ node_put)),
        top_found,
        node_found,
      )

  -- For a channel whose fields fit their types (hashes of 32 bytes, numbers of their widths), whose
  -- commitment signature has at most 80 bytes and whose redeem and delivery scripts have at most 520,
  -- whose elkrem receiver is saved in at most 1000 bytes and given back by reading them, and whose
  -- columns are within bolt's limits: putOpenChannel succeeds, whatever the buckets hold, and
  -- fetchOpenChannel of the channel's id then loads the same channel.
  pub fetch_open_channel-put_open_channel :
      (c : OpenChannel L D) (top node : D.Bucket)
      → IsStorable L D c
      → (top' : D.Bucket) × (node' : D.Bucket) × (put_open_channel L D c top node
          ≡ ok (top', node'))
        × (fetch_open_channel L D top' node' c.chan_id ≡ ok c)
  unfolding delivery_columns
  fetch_open_channel-put_open_channel c top node fits =
      let (top', node', done, top_found, node_found) = put_open_channel-found c top node fits in
      let common = found-common L D c top top' top_found in
      let (own, scripts) = found-own L D c fits.receiver node node' node_found in
      let (sig, redeem, ours, theirs) = fits.script_sizes in
      (
        top',
        node',
        done,
        fetch_open_channel-Holds L D c top' node' c.our_delivery_script c.their_delivery_script fits
            common own scripts.0 ours theirs,
      )

  keeps-common :
      (c d : OpenChannel L D) (b b' : D.Bucket)
      → bytes_equal (write_outpoint L D c.chan_id) (write_outpoint L D d.chan_id) ≡ false
      → ((j : List ℕ) → D.get j b' ≡ found (common_columns L D d) j (D.get j b))
      → All (Holds L D b) (common_columns L D c)
      → All (Holds L D b') (common_columns L D c)
  unfolding found bytes_equal common_columns capacity_columns min_fee_columns num_updates_columns
      total_flow_columns net_fee_columns
  keeps-common c d b b' differ g
        (cap, (our, (their, (fee, (num, (sent, (received, (net, done)))))))) =
      let id = write_outpoint L D c.chan_id in
      (
        g (b'c' ∷ b'c' ∷ b'p' ∷ id) ∙ rw differ cap,
        (
          g (b's' ∷ b'b' ∷ b'p' ∷ id) ∙ rw differ our,
          (
            g (b't' ∷ b'b' ∷ b'p' ∷ id) ∙ rw differ their,
            (
              g (b'm' ∷ b'f' ∷ b'p' ∷ id) ∙ rw differ fee,
              (
                g (b'u' ∷ b'u' ∷ b'p' ∷ id) ∙ rw differ num,
                (
                  g (b's' ∷ b's' ∷ b'p' ∷ id) ∙ rw differ sent,
                  (
                    g (b's' ∷ b'r' ∷ b'p' ∷ id) ∙ rw differ received,
                    (g (b'n' ∷ b't' ∷ b'p' ∷ id) ∙ rw differ net, tt),
                  ),
                ),
              ),
            ),
          ),
        ),
      )

  keeps-own :
      (c d : OpenChannel L D) (c_receiver d_receiver : List ℕ) (b b' : D.Bucket)
      → bytes_equal (write_outpoint L D c.chan_id) (write_outpoint L D d.chan_id) ≡ false
      → bytes_equal
          (c.chan_id.hash ++ put_be 4 c.chan_id.index)
          (d.chan_id.hash ++ put_be 4 d.chan_id.index)
        ≡ false
      → ((j : List ℕ) → D.get j b' ≡ found (node_columns L D d d_receiver) j (D.get j b))
      → All (Holds L D b) (own_columns L D c c_receiver)
      → All (Holds L D b') (own_columns L D c c_receiver)
  unfolding found bytes_equal make_htlc_key own_columns node_columns channel_ids_columns
      commit_keys_columns commit_txns_columns funding_columns elkrem_columns delivery_columns
      htlc_columns
  keeps-own c d c_receiver d_receiver b b' differ points g
        (ids, (keys, (txns, (funding, (elkrem, (htlcs, done)))))) =
      let id = write_outpoint L D c.chan_id in
      (
        g (b'c' ∷ b'i' ∷ b'k' ∷ id) ∙ rw differ ids,
        (
          g (b'c' ∷ b'k' ∷ b'k' ∷ id) ∙ rw differ keys,
          (
            g (b'c' ∷ b't' ∷ b'k' ∷ id) ∙ rw differ txns,
            (
              g (b'f' ∷ b's' ∷ b'k' ∷ id) ∙ rw differ funding,
              (
                g (b'e' ∷ b's' ∷ b'k' ∷ id) ∙ rw differ elkrem,
                (g (make_htlc_key c.chan_id) ∙ rw points htlcs, tt),
              ),
            ),
          ),
        ),
      )

  -- Two channels with different ids and the same peer, stored one after the other: the first is
  -- then loaded with its own values, but with the delivery scripts of the second.
  pub put_open_channel-keeps_other :
      (c d : OpenChannel L D) (top node : D.Bucket)
      → IsStorable L D c
      → IsStorable L D d
      → c.chan_id ≢ d.chan_id
      → (top' : D.Bucket) × (node' : D.Bucket) × ((put_open_channel L D c top node >>= λ stored.
            put_open_channel L D d stored.0 stored.1)
          ≡ ok (top', node'))
        × (fetch_open_channel L D top' node' c.chan_id
            ≡ ok (with_scripts L D d.our_delivery_script d.their_delivery_script c))
        × (fetch_open_channel L D top' node' d.chan_id ≡ ok d)
  unfolding delivery_columns
  put_open_channel-keeps_other c d top node c_fits d_fits other =
      let (top', node', done, top_found, node_found) = put_open_channel-found c top node c_fits in
      let (top'', node'', more, top_found', node_found') =
        put_open_channel-found d top' node' d_fits in
      let ids = bytes_differ (write_outpoint L D c.chan_id) (write_outpoint L D d.chan_id) (λ e.
        other (write_outpoint-injective c.chan_id d.chan_id c_fits.points.0 d_fits.points.0 e)) in
      let points =
        bytes_differ (c.chan_id.hash ++ put_be 4 c.chan_id.index)
          (d.chan_id.hash ++ put_be 4 d.chan_id.index)
          (λ e.
            other (point_bytes-injective c.chan_id d.chan_id c_fits.points.0 d_fits.points.0 e)) in
      let common =
        keeps-common c d top' top'' ids top_found' (found-common L D c top top' top_found) in
      let own =
        keeps-own c d c_fits.receiver d_fits.receiver node' node'' ids points node_found'
          (found-own L D c c_fits.receiver node node' node_found).0 in
      let (d_own, scripts) = found-own L D d d_fits.receiver node' node'' node_found' in
      let (sig, redeem, ours, theirs) = d_fits.script_sizes in
      (
        top'',
        node'',
        rw done more,
        fetch_open_channel-Holds L D c top'' node'' d.our_delivery_script d.their_delivery_script
            c_fits common own scripts.0 ours theirs,
        fetch_open_channel-Holds L D d top'' node'' d.our_delivery_script d.their_delivery_script
            d_fits (found-common L D d top' top'' top_found') d_own scripts.0 ours theirs,
      )

  -- An elkrem receiver of more than 1000 bytes is stored, but what is stored is not fetched.
  pub fetch_chan_elkrem_state-long :
      (c : OpenChannel L D) (b : D.Bucket) (receiver : List ℕ)
      → to_bytes c.remote_elkrem ≡ ok receiver
      → 1000 < length receiver
      → length c.their_current_revocation_hash ≡ 32
      → length c.local_elkrem ≡ 32
      → All Fits (elkrem_columns L D c receiver)
      → (b' : D.Bucket) × (put_chan_elkrem_state L D c b ≡ ok b')
        × (fetch_chan_elkrem_state L D c.chan_id b' ≡ err bad_var_bytes)
  unfolding elkrem_columns found fetch_chan_elkrem_state bytes_equal sender_to_bytes
  fetch_chan_elkrem_state-long c b receiver saves long hash root fits =
      let (b', put, look) = put_all-found L D (elkrem_columns L D c receiver) b fits in
      let key = b'e' ∷ b's' ∷ b'k' ∷ write_outpoint L D c.chan_id in
      (
        b',
        put_chan_elkrem_state_lem L D c receiver b saves ∙ put,
        ap (read_elkrem_state L D) (
              reader_of-get L D b'
                (look key ∙ rw (bytes_equal_refl (write_outpoint L D c.chan_id))))
            ∙ read_elkrem_state_long L D c.their_current_revocation c.their_current_revocation_hash
                c.local_elkrem receiver hash root long,
      )
