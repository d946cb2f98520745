-- ===== src/Channeldb/Holding.antt =====
-- Buckets that hold the columns of a channel, and what fetchOpenChannel of channeldb/channel.go
-- makes of them.
use lnd_cc.Prelude.{
  ℕ, ◌^◌, ◌≤◌, ◌<◌, ◌≡◌, refl, sym, ap, ◌∙◌, some, List, [], ◌∷◌, ◌++◌, length, take, arith, ok,
  bytes_equal, bytes_equal_refl, All, append-nil,
}
use lnd_cc.Bytes.{put_be}
use lnd_cc.Elkrem.Serdes.{to_bytes, from_bytes, sender_to_bytes}
use lnd_cc.Lnwire.{WireLib}
use lnd_cc.Channeldb.{DbLib, OpenChannel}
use lnd_cc.Channeldb.Codec.{zeros, make_htlc_key, write_outpoint}
use lnd_cc.Channeldb.CodecTrips.{drop_all, length-zeros, IsPoint, IsHtlc}
use lnd_cc.Channeldb.Columns.{
  Column, capacity_columns, min_fee_columns, num_updates_columns, total_flow_columns,
  net_fee_columns, channel_ids_columns, commit_keys_columns, commit_txns_columns, funding_columns,
  elkrem_columns, delivery_columns, htlc_columns,
}
use lnd_cc.Channeldb.Fetch.{
  read_commit_keys, read_commit_txns, read_funding_info, read_elkrem_state, read_delivery_scripts,
  fetch_open_channel, fetch_chan_capacity, fetch_chan_min_fee_per_kb, fetch_chan_num_updates,
  fetch_chan_total_flow, fetch_chan_net_fee, fetch_channel_ids, fetch_chan_commit_keys,
  fetch_chan_commit_txns, fetch_chan_funding_info, fetch_chan_elkrem_state,
  fetch_chan_delivery_scripts,
}
use lnd_cc.Channeldb.Puts.{found, Fits, common_columns, node_columns}
use lnd_cc.Channeldb.Reads.{
  fetch_uint64-put_be, reader_of-get, read_commit_keys_lem, read_commit_txns_lem,
  read_funding_info_lem, read_elkrem_state_lem, read_delivery_scripts_lem, fetch_current_htlcs_lem,
}

module _ (L : WireLib) (D : DbLib L) where
  abbrev pub Holds : D.Bucket → Column → Type 0
  Holds b column = D.get column.0 b ≡ some column.1

  -- A channel that can be stored and loaded: its numbers fit their types, its byte strings have
  -- the lengths the fetch functions want, and bolt accepts its columns.
  pub record IsStorable (c : OpenChannel L D) : Type 0 where
    pub receiver : List ℕ
    pub saves : to_bytes c.remote_elkrem ≡ ok receiver
    pub restores : from_bytes receiver ≡ ok c.remote_elkrem
    pub receiver_size : length receiver ≤ 1000
    pub points : IsPoint c.chan_id × IsPoint c.funding_outpoint
    pub hash_sizes :
        (length c.their_lnid ≡ 32)
        × (length c.their_current_revocation_hash ≡ 32)
        × (length c.local_elkrem ≡ 32)
    pub amounts : (c.capacity < 2 ^ 64) × (c.our_balance < 2 ^ 64) × (c.their_balance < 2 ^ 64)
    pub counters :
        (c.min_fee_per_kb < 2 ^ 64)
        × (c.num_updates < 2 ^ 64)
        × (c.total_satoshis_sent < 2 ^ 64)
        × (c.total_satoshis_received < 2 ^ 64)
        × (c.total_net_fees < 2 ^ 64)
        × (c.creation_time < 2 ^ 64)
    pub delays : (c.local_csv_delay < 2 ^ 32) × (c.remote_csv_delay < 2 ^ 32)
    pub script_sizes :
        (length c.our_commit_sig ≤ 80)
        × (length c.funding_redeem_script ≤ 520)
        × (length c.our_delivery_script ≤ 520)
        × (length c.their_delivery_script ≤ 520)
    pub htlcs_fit : All IsHtlc c.htlcs
    pub common_fits : All Fits (common_columns L D c)
    pub node_fits : All Fits (node_columns L D c receiver)

  -- The columns of a node's bucket whose keys hold the channel's id.
  unfoldable pub own_columns : OpenChannel L D → (receiver : List ℕ) → List Column
  own_columns c receiver =
      channel_ids_columns L D c
      ++ (commit_keys_columns L D c
          ++ (commit_txns_columns L D c
              ++ (funding_columns L D c
                  ++ (elkrem_columns L D c receiver ++ htlc_columns L D c.htlcs c.chan_id))))

  pub found-common :
      (c : OpenChannel L D) (b b' : D.Bucket)
      → ((j : List ℕ) → D.get j b' ≡ found (common_columns L D c) j (D.get j b))
      → All (Holds b') (common_columns L D c)
  unfolding found bytes_equal common_columns capacity_columns min_fee_columns num_updates_columns
      total_flow_columns net_fee_columns
  found-common c b b' g =
      let same = bytes_equal_refl (write_outpoint L D c.chan_id) in
      (
        g (b'c' ∷ b'c' ∷ b'p' ∷ write_outpoint L D c.chan_id) ∙ rw same,
        (
          g (b's' ∷ b'b' ∷ b'p' ∷ write_outpoint L D c.chan_id) ∙ rw same,
          (
            g (b't' ∷ b'b' ∷ b'p' ∷ write_outpoint L D c.chan_id) ∙ rw same,
            (
              g (b'm' ∷ b'f' ∷ b'p' ∷ write_outpoint L D c.chan_id) ∙ rw same,
              (
                g (b'u' ∷ b'u' ∷ b'p' ∷ write_outpoint L D c.chan_id) ∙ rw same,
                (
                  g (b's' ∷ b's' ∷ b'p' ∷ write_outpoint L D c.chan_id) ∙ rw same,
                  (
                    g (b's' ∷ b'r' ∷ b'p' ∷ write_outpoint L D c.chan_id) ∙ rw same,
                    (g (b'n' ∷ b't' ∷ b'p' ∷ write_outpoint L D c.chan_id) ∙ rw same, tt),
                  ),
                ),
              ),
            ),
          ),
        ),
      )

  pub found-own :
      (c : OpenChannel L D) (receiver : List ℕ) (b b' : D.Bucket)
      → ((j : List ℕ) → D.get j b' ≡ found (node_columns L D c receiver) j (D.get j b))
      → All (Holds b') (own_columns c receiver) × All (Holds b') (delivery_columns L D c)
  unfolding found bytes_equal make_htlc_key own_columns node_columns channel_ids_columns
      commit_keys_columns commit_txns_columns funding_columns elkrem_columns delivery_columns
      htlc_columns
  found-own c receiver b b' g =
      let id = bytes_equal_refl (write_outpoint L D c.chan_id) in
      let point = bytes_equal_refl (c.chan_id.hash ++ put_be 4 c.chan_id.index) in
      (
        (
          (g (b'c' ∷ b'i' ∷ b'k' ∷ write_outpoint L D c.chan_id) ∙ rw id),
          (
            (g (b'c' ∷ b'k' ∷ b'k' ∷ write_outpoint L D c.chan_id) ∙ rw id),
            (
              (g (b'c' ∷ b't' ∷ b'k' ∷ write_outpoint L D c.chan_id) ∙ rw id),
              (
                (g (b'f' ∷ b's' ∷ b'k' ∷ write_outpoint L D c.chan_id) ∙ rw id),
                (
                  (g (b'e' ∷ b's' ∷ b'k' ∷ write_outpoint L D c.chan_id) ∙ rw id),
                  ((g (make_htlc_key c.chan_id) ∙ rw point), tt),
                ),
              ),
            ),
          ),
        ),
        (g (b'd' ∷ b's' ∷ b'k' ∷ []), tt),
      )

  -- c with other delivery scripts.
  abbrev pub with_scripts : (ours theirs : List ℕ) → OpenChannel L D → OpenChannel L D
  with_scripts ours theirs c = record {
    their_lnid = c.their_lnid;
    chan_id = c.chan_id;
    min_fee_per_kb = c.min_fee_per_kb;
    our_commit_key = c.our_commit_key;
    their_commit_key = c.their_commit_key;
    capacity = c.capacity;
    our_balance = c.our_balance;
    their_balance = c.their_balance;
    our_commit_tx = c.our_commit_tx;
    our_commit_sig = c.our_commit_sig;
    funding_outpoint = c.funding_outpoint;
    our_multi_sig_key = c.our_multi_sig_key;
    their_multi_sig_key = c.their_multi_sig_key;
    funding_redeem_script = c.funding_redeem_script;
    local_csv_delay = c.local_csv_delay;
    remote_csv_delay = c.remote_csv_delay;
    their_current_revocation = c.their_current_revocation;
    their_current_revocation_hash = c.their_current_revocation_hash;
    local_elkrem = c.local_elkrem;
    remote_elkrem = c.remote_elkrem;
    our_delivery_script = ours;
    their_delivery_script = theirs;
    num_updates = c.num_updates;
    total_satoshis_sent = c.total_satoshis_sent;
    total_satoshis_received = c.total_satoshis_received;
    total_net_fees = c.total_net_fees;
    creation_time = c.creation_time;
    htlcs = c.htlcs;
  }

  fetch_common :
      (c : OpenChannel L D) (top : D.Bucket)
      → IsStorable c
      → All (Holds top) (common_columns L D c)
      → (fetch_chan_capacity L D c.chan_id top ≡ ok (c.capacity, c.our_balance, c.their_balance))
        × (fetch_chan_min_fee_per_kb L D c.chan_id top ≡ ok c.min_fee_per_kb)
        × (fetch_chan_num_updates L D c.chan_id top ≡ ok c.num_updates)
        × (fetch_chan_total_flow L D c.chan_id top
            ≡ ok (c.total_satoshis_sent, c.total_satoshis_received))
        × (fetch_chan_net_fee L D c.chan_id top ≡ ok c.total_net_fees)
  unfolding common_columns capacity_columns min_fee_columns num_updates_columns total_flow_columns
      net_fee_columns fetch_chan_capacity fetch_chan_min_fee_per_kb fetch_chan_num_updates
      fetch_chan_total_flow fetch_chan_net_fee
  fetch_common c top fits (cap, (our, (their, (fee, (num, (sent, (received, (net, done)))))))) =
      let id = write_outpoint L D c.chan_id in
      let (capacity, ours, theirs) = fits.amounts in
      let (min_fee, updates, total_sent, total_received, net_fees, created) = fits.counters in
      (
        rw (
          fetch_uint64-put_be L D (b'c' ∷ b'c' ∷ b'p' ∷ id) c.capacity top capacity cap,
          fetch_uint64-put_be L D (b's' ∷ b'b' ∷ b'p' ∷ id) c.our_balance top ours our,
          fetch_uint64-put_be L D (b't' ∷ b'b' ∷ b'p' ∷ id) c.their_balance top theirs their,
        ),
        fetch_uint64-put_be L D (b'm' ∷ b'f' ∷ b'p' ∷ id) c.min_fee_per_kb top min_fee fee,
        fetch_uint64-put_be L D (b'u' ∷ b'u' ∷ b'p' ∷ id) c.num_updates top updates num,
        rw (
          fetch_uint64-put_be L D (b's' ∷ b's' ∷ b'p' ∷ id) c.total_satoshis_sent top total_sent
              sent,
          fetch_uint64-put_be L D (b's' ∷ b'r' ∷ b'p' ∷ id) c.total_satoshis_received top
              total_received received,
        ),
        fetch_uint64-put_be L D (b'n' ∷ b't' ∷ b'p' ∷ id) c.total_net_fees top net_fees net,
      )

  fetch_ids :
      (c : OpenChannel L D) (node : D.Bucket)
      → length c.their_lnid ≡ 32
      → D.get (b'c' ∷ b'i' ∷ b'k' ∷ write_outpoint L D c.chan_id) node ≡ some c.their_lnid
      → fetch_channel_ids L D c.chan_id node ≡ c.their_lnid
  unfolding fetch_channel_ids
  fetch_ids c node size e =
      rw
        (
          reader_of-get L D node e,
          drop_all (length c.their_lnid) (zeros 32) (omega (arith, length-zeros 32)),
          append-nil,
        )
        (ap (λ n. take n c.their_lnid) (sym size) ∙ take_self c.their_lnid)
    where
      take_self : (xs : List ℕ) → take (length xs) xs ≡ xs
      take_self [] = refl
      take_self (x ∷ xs) = rw (take_self xs)

  -- A channel all of whose columns are in the buckets is fetched, with the delivery scripts that
  -- the node's bucket holds.
  pub fetch_open_channel-Holds :
      (c : OpenChannel L D) (top node : D.Bucket) (ours theirs : List ℕ) (fits : IsStorable c)
      → All (Holds top) (common_columns L D c)
      → All (Holds node) (own_columns c fits.receiver)
      → D.get (b'd' ∷ b's' ∷ b'k' ∷ []) node
        ≡ some (L.write_var_bytes ours ++ L.write_var_bytes theirs)
      → length ours ≤ 520
      → length theirs ≤ 520
      → fetch_open_channel L D top node c.chan_id ≡ ok (with_scripts ours theirs c)
  unfolding sender_to_bytes own_columns channel_ids_columns commit_keys_columns commit_txns_columns
      funding_columns elkrem_columns delivery_columns htlc_columns fetch_open_channel
      fetch_chan_commit_keys fetch_chan_commit_txns fetch_chan_funding_info fetch_chan_elkrem_state
      fetch_chan_delivery_scripts
  fetch_open_channel-Holds c top node ours theirs fits common
        (ids, (keys, (txns, (funding, (elkrem, (htlcs, done)))))) scripts o t =
      let (lnid, hash, root) = fits.hash_sizes in
      let (sig, redeem, our_script, their_script) = fits.script_sizes in
      let (capacity, fee, num, flow, net) = fetch_common c top fits common in
      simp (
        fetch_open_channel,
        fetch_ids c node lnid ids,
        ap (read_commit_keys L D) (reader_of-get L D node keys)
            ∙ read_commit_keys_lem L D c.their_commit_key c.our_commit_key,
        ap (read_commit_txns L D) (reader_of-get L D node txns)
            ∙ read_commit_txns_lem L D c.our_commit_tx c.our_commit_sig c.local_csv_delay
                c.remote_csv_delay sig fits.delays.0 fits.delays.1,
        ap (read_funding_info L D) (reader_of-get L D node funding)
            ∙ read_funding_info_lem L D c.funding_outpoint c.our_multi_sig_key c.their_multi_sig_key
                c.funding_redeem_script c.creation_time fits.points.1 redeem fits.counters.5,
        ap (read_elkrem_state L D) (reader_of-get L D node elkrem)
            ∙ read_elkrem_state_lem L D c.their_current_revocation c.their_current_revocation_hash
                c.local_elkrem fits.receiver c.remote_elkrem hash root fits.receiver_size
                fits.restores,
        ap (read_delivery_scripts L D) (reader_of-get L D node scripts)
            ∙ read_delivery_scripts_lem L D ours theirs o t,
        fetch_current_htlcs_lem L D c.chan_id c.htlcs node fits.htlcs_fit htlcs,
        capacity,
        fee,
        num,
        flow,
        net,
      )
