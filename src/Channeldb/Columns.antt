-- ===== src/Channeldb/Columns.antt =====
-- channeldb/channel.go: the columns of a channel in its two buckets: what the put functions write,
-- and what the fetch and delete functions do. A bucket that the source changes is returned.
use lnd_cc.Prelude.{
  ℕ, none, some, List, [], ◌∷◌, ◌++◌, leb, if◌then◌else◌, length, take, Result, ok, err,
}
use lnd_cc.Bytes.{put_be, from_be}
use lnd_cc.Elkrem.Serdes.{to_bytes, sender_to_bytes}
use lnd_cc.Lnwire.{WireLib, OutPoint}
use lnd_cc.Channeldb.{
  DbLib, DbError, out_of_range, bad_public_key, bad_elkrem, put_failed, Htlc, OpenChannel,
}
use lnd_cc.Channeldb.Codec.{make_htlc_key, serialize_htlcs, write_outpoint}

abbrev pub Column : Type 0
Column = List ℕ × List ℕ

module _ (L : WireLib) (D : DbLib L) where
  -- The Puts of a function, in order, up to the first that fails.
  unfoldable pub put_all : List Column → D.Bucket → Result DbError D.Bucket
  put_all [] b = ok b
  put_all ((key, value) ∷ columns) b = elim (D.put key value b) [
    | none ↦ err put_failed
    | some b' ↦ put_all columns b'
  ]

  unfoldable pub delete_all : List (List ℕ) → D.Bucket → D.Bucket
  delete_all [] b = b
  delete_all (key ∷ keys) b = delete_all keys (D.delete key b)

  -- byteOrder.Uint64 of a stored value.
  unfoldable pub fetch_uint64 : List ℕ → D.Bucket → Result DbError ℕ
  unfolding from_be
  fetch_uint64 key b = elim (D.get key b) [
    | none ↦ err out_of_range
    | some v ↦ if leb 8 (length v) then ok (from_be 0 (take 8 v)) else err out_of_range
  ]

  -- A reader over a stored value, which is empty if there is none.
  unfoldable pub reader_of : List ℕ → D.Bucket → List ℕ
  reader_of key b = elim (D.get key b) [ none ↦ [] | some v ↦ v ]

  unfoldable pub parse_pub_key : List ℕ → Result DbError L.PublicKey
  parse_pub_key bs = elim (L.parse_pub_key bs) [ none ↦ err bad_public_key | some k ↦ ok k ]

  abbrev pub column_key : ℕ → ℕ → ℕ → List ℕ → List ℕ
  column_key a b c id = a ∷ b ∷ c ∷ id

  module _ (c : OpenChannel L D) where
    unfoldable pub capacity_columns : List Column
    unfolding write_outpoint put_be
    capacity_columns =
        let id = write_outpoint L D c.chan_id in
        (column_key b'c' b'c' b'p' id, put_be 8 c.capacity)
        ∷ (column_key b's' b'b' b'p' id, put_be 8 c.our_balance)
        ∷ (column_key b't' b'b' b'p' id, put_be 8 c.their_balance)
        ∷ []

    unfoldable pub put_chan_capacity : D.Bucket → Result DbError D.Bucket
    unfolding put_all capacity_columns
    put_chan_capacity b = put_all capacity_columns b

    unfoldable pub min_fee_columns : List Column
    unfolding write_outpoint put_be
    min_fee_columns =
        (column_key b'm' b'f' b'p' (write_outpoint L D c.chan_id), put_be 8 c.min_fee_per_kb) ∷ []

    unfoldable pub put_chan_min_fee_per_kb : D.Bucket → Result DbError D.Bucket
    unfolding put_all min_fee_columns
    put_chan_min_fee_per_kb b = put_all min_fee_columns b

    unfoldable pub num_updates_columns : List Column
    unfolding write_outpoint put_be
    num_updates_columns =
        (column_key b'u' b'u' b'p' (write_outpoint L D c.chan_id), put_be 8 c.num_updates) ∷ []

    unfoldable pub put_chan_num_updates : D.Bucket → Result DbError D.Bucket
    unfolding put_all num_updates_columns
    put_chan_num_updates b = put_all num_updates_columns b

    unfoldable pub total_flow_columns : List Column
    unfolding write_outpoint put_be
    total_flow_columns =
        let id = write_outpoint L D c.chan_id in
        (column_key b's' b's' b'p' id, put_be 8 c.total_satoshis_sent)
        ∷ (column_key b's' b'r' b'p' id, put_be 8 c.total_satoshis_received)
        ∷ []

    unfoldable pub put_chan_total_flow : D.Bucket → Result DbError D.Bucket
    unfolding put_all total_flow_columns
    put_chan_total_flow b = put_all total_flow_columns b

    unfoldable pub net_fee_columns : List Column
    unfolding write_outpoint put_be
    net_fee_columns =
        (column_key b'n' b't' b'p' (write_outpoint L D c.chan_id), put_be 8 c.total_net_fees) ∷ []

    unfoldable pub put_chan_net_fee : D.Bucket → Result DbError D.Bucket
    unfolding put_all net_fee_columns
    put_chan_net_fee b = put_all net_fee_columns b

    unfoldable pub channel_ids_columns : List Column
    unfolding write_outpoint
    channel_ids_columns =
        (column_key b'c' b'i' b'k' (write_outpoint L D c.chan_id), c.their_lnid) ∷ []

    unfoldable pub put_channel_ids : D.Bucket → Result DbError D.Bucket
    unfolding put_all channel_ids_columns
    put_channel_ids b = put_all channel_ids_columns b

    unfoldable pub commit_keys_columns : List Column
    unfolding write_outpoint
    commit_keys_columns =
        (
          column_key b'c' b'k' b'k' (write_outpoint L D c.chan_id),
          L.serialize_compressed c.their_commit_key ++ L.serialize_compressed c.our_commit_key,
        )
        ∷ []

    unfoldable pub put_chan_commit_keys : D.Bucket → Result DbError D.Bucket
    unfolding put_all commit_keys_columns
    put_chan_commit_keys b = put_all commit_keys_columns b

    unfoldable pub commit_txns_columns : List Column
    unfolding write_outpoint put_be
    commit_txns_columns =
        (
          column_key b'c' b't' b'k' (write_outpoint L D c.chan_id),
          D.serialize_tx c.our_commit_tx
              ++ (L.write_var_bytes c.our_commit_sig
                  ++ (put_be 4 c.local_csv_delay ++ put_be 4 c.remote_csv_delay)),
        )
        ∷ []

    unfoldable pub put_chan_commit_txns : D.Bucket → Result DbError D.Bucket
    unfolding put_all commit_txns_columns
    put_chan_commit_txns b = put_all commit_txns_columns b

    unfoldable pub funding_columns : List Column
    unfolding write_outpoint put_be
    funding_columns =
        (
          column_key b'f' b's' b'k' (write_outpoint L D c.chan_id),
          write_outpoint L D c.funding_outpoint
              ++ (L.write_var_bytes (L.serialize_compressed c.our_multi_sig_key)
                  ++ (L.write_var_bytes (L.serialize_compressed c.their_multi_sig_key)
                      ++ (L.write_var_bytes c.funding_redeem_script ++ put_be 8 c.creation_time))),
        )
        ∷ []

    unfoldable pub put_chan_funding_info : D.Bucket → Result DbError D.Bucket
    unfolding put_all funding_columns
    put_chan_funding_info b = put_all funding_columns b

    unfoldable pub elkrem_columns : (receiver : List ℕ) → List Column
    unfolding write_outpoint sender_to_bytes
    elkrem_columns receiver =
        (
          column_key b'e' b's' b'k' (write_outpoint L D c.chan_id),
          L.write_var_bytes (L.serialize_compressed c.their_current_revocation)
              ++ (c.their_current_revocation_hash
                  ++ (L.write_var_bytes (sender_to_bytes c.local_elkrem)
                      ++ L.write_var_bytes receiver)),
        )
        ∷ []

    unfoldable pub put_chan_elkrem_state : D.Bucket → Result DbError D.Bucket
    unfolding put_all elkrem_columns to_bytes
    put_chan_elkrem_state b = elim (to_bytes c.remote_elkrem) [
      | err e ↦ err bad_elkrem
      | ok receiver ↦ put_all (elkrem_columns receiver) b
    ]

    -- The key has no channel: putChanDeliveryScripts builds one with it, and does not use it.
    unfoldable pub delivery_columns : List Column
    delivery_columns =
        (
          b'd' ∷ b's' ∷ b'k' ∷ [],
          L.write_var_bytes c.our_delivery_script ++ L.write_var_bytes c.their_delivery_script,
        )
        ∷ []

    unfoldable pub put_chan_delivery_scripts : D.Bucket → Result DbError D.Bucket
    unfolding put_all delivery_columns
    put_chan_delivery_scripts b = put_all delivery_columns b

  unfoldable pub htlc_columns : List Htlc → OutPoint → List Column
  unfolding make_htlc_key serialize_htlcs
  htlc_columns htlcs o = (make_htlc_key o, serialize_htlcs htlcs) ∷ []

  unfoldable pub put_current_htlcs : List Htlc → OutPoint → D.Bucket → Result DbError D.Bucket
  unfolding put_all htlc_columns
  put_current_htlcs htlcs o b = put_all (htlc_columns htlcs o) b
