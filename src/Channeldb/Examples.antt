-- ===== src/Channeldb/Examples.antt =====
-- Runs of channeldb/channel.go's store, and its theorems at concrete inputs.
use lnd_cc.Prelude.{
  ℕ, zero, suc, ◌%◌, ◌^◌, ◌≤◌, ◌<◌, ◌≡◌, ◌≢◌, refl, ap, Bool, true, false, ◌&&◌, none, some, List,
  [], ◌∷◌, ◌++◌, leb, ◌==◌, if◌then◌else◌, length, arith, Result, ok, err, ◌>>=◌, leb→le, All,
}
use lnd_cc.Elkrem.{ElkremNode}
use lnd_cc.Elkrem.Serdes.{to_bytes, from_bytes}
use lnd_cc.Lnwire.{OutPoint}
use lnd_cc.Lnwire.Sample.{toy_lib}
use lnd_cc.Channel.Updates.{Commitment}
use lnd_cc.Channel.{add, PaymentDescriptor}
use lnd_cc.Channel.Delta.{to_channel_delta, Tells, find_previous_state-to_channel_delta}
use lnd_cc.Channeldb.Sample.{toy_zeros, toy_db}
use lnd_cc.Channeldb.{DbError, bad_var_bytes, Htlc, ChannelDelta, OpenChannel}
use lnd_cc.Channeldb.CodecTrips.{
  IsDelta, read_all_htlcs-terminates, deserialize_channel_delta-serialize_channel_delta,
}
use lnd_cc.Channeldb.Columns.{
  Column, capacity_columns, min_fee_columns, num_updates_columns, total_flow_columns,
  net_fee_columns, channel_ids_columns, commit_keys_columns, commit_txns_columns, funding_columns,
  elkrem_columns, delivery_columns, htlc_columns,
}
use lnd_cc.Channeldb.Puts.{Fits, common_columns, node_columns}
use lnd_cc.Channeldb.Holding.{IsStorable}
use lnd_cc.Channeldb.Codec.{
  write_outpoint, serialize_channel_delta, deserialize_channel_delta, read_all_htlcs,
}
use lnd_cc.Channeldb.Fetch.{put_open_channel, fetch_open_channel, fetch_chan_elkrem_state}
use lnd_cc.Channeldb.Columns.{put_chan_elkrem_state}
use lnd_cc.Channeldb.Recovery.{
  fetch_open_channel-put_open_channel, put_open_channel-keeps_other, fetch_chan_elkrem_state-long,
}
use lnd_cc.Channeldb.Holding.{with_scripts}
use lnd_cc.Channeldb.Store.{
  Store, full_sync, with_commitment, update_commitment, append_to_revocation_log,
  find_previous_state, fetch_channel_log_entry, open_bucket, node_bucket, open_chans_bucket,
  close_channel, fetch_open_channels, load,
}
use lnd_cc.Channeldb.Synced.{IsSynced, full_sync-IsSynced}
use lnd_cc.Channeldb.Commitment.{update_commitment-IsSynced}
use lnd_cc.Channeldb.Log.{find_previous_state-append_to_revocation_log}
use lnd_cc.Channeldb.Closing.{close_channel-unloads}

abbrev toy_peer : List ℕ
toy_peer = 9 ∷ toy_zeros 31

abbrev toy_point : ℕ → OutPoint
toy_point n = record { hash = 5 ∷ toy_zeros 31; index = n }

abbrev toy_htlc : Htlc
toy_htlc = record {
  incoming = true;
  amt = 600;
  rhash = toy_zeros 32;
  refund_timeout = 7;
  revocation_delay = 4;
}

abbrev toy_delta : ChannelDelta
toy_delta = record {
  local_balance = 300;
  remote_balance = 200;
  update_num = 3;
  htlcs = toy_htlc ∷ [];
}

abbrev toy_remote : List ElkremNode
toy_remote = record { h = 0; i = 0; sha = toy_zeros 32 } ∷ []

abbrev toy_receiver : List ℕ
toy_receiver = 1 ∷ 0 ∷ toy_zeros 40

abbrev toy_channel_of :
    List ElkremNode → (index script tx ours theirs num : ℕ) → OpenChannel toy_lib toy_db
toy_channel_of remote index script tx ours theirs num = record {
  their_lnid = toy_peer;
  chan_id = toy_point index;
  min_fee_per_kb = 30;
  our_commit_key = tt;
  their_commit_key = tt;
  capacity = 1000;
  our_balance = ours;
  their_balance = theirs;
  our_commit_tx = tx;
  our_commit_sig = 4 ∷ [];
  funding_outpoint = toy_point index;
  our_multi_sig_key = tt;
  their_multi_sig_key = tt;
  funding_redeem_script = 6 ∷ 7 ∷ [];
  local_csv_delay = 5;
  remote_csv_delay = 6;
  their_current_revocation = tt;
  their_current_revocation_hash = toy_zeros 32;
  local_elkrem = toy_zeros 32;
  remote_elkrem = remote;
  our_delivery_script = script ∷ [];
  their_delivery_script = 3 ∷ [];
  num_updates = num;
  total_satoshis_sent = 11;
  total_satoshis_received = 12;
  total_net_fees = 13;
  creation_time = 14;
  htlcs = toy_htlc ∷ [];
}

abbrev toy_channel : (index script tx ours theirs num : ℕ) → OpenChannel toy_lib toy_db
toy_channel = toy_channel_of toy_remote

abbrev fits_test : Column → Bool
fits_test c = leb 1 (length c.0) && (leb (length c.0) 32768 && leb (length c.1) 2147483646)

abbrev all_fit_test : List Column → Bool
all_fit_test [] = true
all_fit_test (c ∷ cs) = fits_test c && all_fit_test cs

and_true : (a b : Bool) → (a && b) ≡ true → (a ≡ true) × (b ≡ true)
and_true true b e = (refl, e)
and_true false b e = cc

All-Fits : (cs : List Column) → all_fit_test cs ≡ true → All Fits cs
All-Fits [] e = tt
All-Fits (c ∷ cs) e =
    let (first, others) = and_true (fits_test c) (all_fit_test cs) e in
    let (a, bc) = and_true (leb 1 (length c.0)) _ first in
    let (b, d) = and_true (leb (length c.0) 32768) _ bc in
    (
      (leb→le 1 (length c.0) a, leb→le (length c.0) 32768 b, leb→le (length c.1) 2147483646 d),
      All-Fits cs others,
    )

toy_channel-IsStorable :
    (index script tx ours theirs num : ℕ)
    → index < 2
    → ours ≤ 1000
    → theirs ≤ 1000
    → num ≤ 1000
    → IsStorable toy_lib toy_db (toy_channel index script tx ours theirs num)
unfolding to_bytes from_bytes common_columns node_columns capacity_columns min_fee_columns
    num_updates_columns total_flow_columns net_fee_columns channel_ids_columns commit_keys_columns
    commit_txns_columns funding_columns elkrem_columns delivery_columns htlc_columns
toy_channel-IsStorable index script tx ours theirs num h k l m = record {
  receiver = toy_receiver;
  saves = refl;
  restores = refl;
  receiver_size = omega arith;
  points = ((refl, omega arith), (refl, omega arith));
  hash_sizes = (refl, refl, refl);
  amounts = (omega arith, omega arith, omega arith);
  counters = (omega arith, omega arith, omega arith, omega arith, omega arith, omega arith);
  delays = (omega arith, omega arith);
  script_sizes = (omega arith, omega arith, omega arith, omega arith);
  htlcs_fit = ((omega arith, refl, omega arith, omega arith), tt);
  common_fits =
      All-Fits (common_columns toy_lib toy_db (toy_channel index script tx ours theirs num)) refl;
  node_fits =
      All-Fits
        (node_columns toy_lib toy_db (toy_channel index script tx ours theirs num) toy_receiver)
        refl;
}

abbrev first_channel : OpenChannel toy_lib toy_db
first_channel = toy_channel 0 1 77 400 600 2

abbrev second_channel : OpenChannel toy_lib toy_db
second_channel = toy_channel 1 2 78 500 500 2

first_fits : IsStorable toy_lib toy_db first_channel
first_fits =
    toy_channel-IsStorable 0 1 77 400 600 2 (omega arith) (omega arith) (omega arith) (omega arith)

second_fits : IsStorable toy_lib toy_db second_channel
second_fits =
    toy_channel-IsStorable 1 2 78 500 500 2 (omega arith) (omega arith) (omega arith) (omega arith)

updated_fits :
    IsStorable toy_lib toy_db (with_commitment toy_lib toy_db 79 (4 ∷ []) toy_delta first_channel)
unfolding with_commitment
updated_fits =
    toy_channel-IsStorable 0 1 79 300 200 3 (omega arith) (omega arith) (omega arith) (omega arith)

abbrev empty_store : Store toy_lib toy_db
empty_store = record { open_chans = none; closed = none }

fetch_open_channel-put_open_channel_example :
    (top' : toy_db.Bucket) × (node' : toy_db.Bucket) × (put_open_channel toy_lib toy_db
        first_channel toy_db.empty toy_db.empty
      ≡ ok (top', node'))
    × (fetch_open_channel toy_lib toy_db top' node' (toy_point 0) ≡ ok first_channel)
fetch_open_channel-put_open_channel_example =
    fetch_open_channel-put_open_channel toy_lib toy_db first_channel toy_db.empty toy_db.empty
      first_fits

points_differ : toy_point 0 ≢ toy_point 1
points_differ e = absurd (let f : 0 ≡ 1 = ap (λ (o : OutPoint). o.index) e in omega arith)

put_open_channel-keeps_other_example :
    (top' : toy_db.Bucket) × (node' : toy_db.Bucket) × ((put_open_channel toy_lib toy_db
          first_channel toy_db.empty toy_db.empty
        >>= λ stored. put_open_channel toy_lib toy_db second_channel stored.0 stored.1)
      ≡ ok (top', node'))
    × (fetch_open_channel toy_lib toy_db top' node' (toy_point 0)
        ≡ ok (with_scripts toy_lib toy_db (2 ∷ []) (3 ∷ []) first_channel))
    × (fetch_open_channel toy_lib toy_db top' node' (toy_point 1) ≡ ok second_channel)
put_open_channel-keeps_other_example =
    put_open_channel-keeps_other toy_lib toy_db first_channel second_channel toy_db.empty
      toy_db.empty first_fits second_fits points_differ

full_sync-IsSynced_example :
    (s' : Store toy_lib toy_db) × (full_sync toy_lib toy_db first_channel empty_store ≡ ok s')
    × IsSynced toy_lib toy_db first_channel first_fits.receiver s'
    × (load toy_lib toy_db toy_peer (toy_point 0) s' ≡ ok first_channel)
full_sync-IsSynced_example = full_sync-IsSynced toy_lib toy_db first_channel empty_store first_fits

abbrev synced_store : Store toy_lib toy_db
synced_store = (full_sync-IsSynced toy_lib toy_db first_channel empty_store first_fits).0

update_commitment-IsSynced_example :
    (s' : Store toy_lib toy_db) × (update_commitment toy_lib toy_db 79
        (4 ∷ [])
        toy_delta
        first_channel
        synced_store
      ≡ (with_commitment toy_lib toy_db 79 (4 ∷ []) toy_delta first_channel, ok s'))
    × IsSynced toy_lib toy_db
        (with_commitment toy_lib toy_db 79 (4 ∷ []) toy_delta first_channel)
        toy_receiver
        s'
    × (load toy_lib toy_db toy_peer (toy_point 0) s'
        ≡ ok (with_commitment toy_lib toy_db 79 (4 ∷ []) toy_delta first_channel))
unfolding first_fits updated_fits toy_channel-IsStorable
update_commitment-IsSynced_example =
    update_commitment-IsSynced toy_lib toy_db 79 (4 ∷ []) toy_delta first_channel synced_store
      updated_fits (full_sync-IsSynced toy_lib toy_db first_channel empty_store first_fits).2

close_channel-unloads_example :
    (s' : Store toy_lib toy_db) × (closed : toy_db.Bucket) × (index : toy_db.Bucket)
    × (close_channel toy_lib toy_db first_channel synced_store ≡ ok s')
    × (s'.closed ≡ some closed)
    × (toy_db.get (write_outpoint toy_lib toy_db (toy_point 0)) closed ≡ some [])
    × ((node_bucket toy_lib toy_db toy_peer (open_chans_bucket toy_lib toy_db s')).index
        ≡ some index)
    × (toy_db.get (write_outpoint toy_lib toy_db (toy_point 0)) index ≡ none)
    × ((o : OutPoint) (d : OpenChannel toy_lib toy_db) → load toy_lib toy_db toy_peer o s' ≢ ok d)
    × ((ds : List (OpenChannel toy_lib toy_db))
        → fetch_open_channels toy_lib toy_db toy_peer s' ≡ ok ds
        → ds ≡ [])
close_channel-unloads_example =
    close_channel-unloads toy_lib toy_db first_channel synced_store first_fits
      (full_sync-IsSynced toy_lib toy_db first_channel empty_store first_fits).2

toy_delta-IsDelta : IsDelta toy_delta
toy_delta-IsDelta = (
  omega arith,
  omega arith,
  omega arith,
  omega arith,
  ((omega arith, refl, omega arith, omega arith), tt),
)

find_previous_state-append_to_revocation_log_example :
    (s' : Store toy_lib toy_db) × (append_to_revocation_log toy_lib toy_db toy_delta first_channel
        empty_store
      ≡ ok s')
    × ((n : ℕ)
        → find_previous_state toy_lib toy_db n first_channel s' ≡ (
            if n % 2 ^ 32 == 3
            then ok toy_delta
            else fetch_channel_log_entry toy_lib toy_db (toy_point 0) (n % 2 ^ 32) (
                open_bucket toy_lib toy_db
                  (node_bucket toy_lib toy_db toy_peer
                    (open_chans_bucket toy_lib toy_db empty_store)).log)))
unfolding node_columns channel_ids_columns commit_keys_columns commit_txns_columns funding_columns
    elkrem_columns serialize_channel_delta first_fits toy_channel-IsStorable
find_previous_state-append_to_revocation_log_example =
    find_previous_state-append_to_revocation_log toy_lib toy_db toy_delta first_channel empty_store
      toy_receiver refl toy_delta-IsDelta (omega arith) first_fits.saves
      (All-Fits (elkrem_columns toy_lib toy_db first_channel toy_receiver) refl)

deserialize_channel_delta-serialize_channel_delta_example :
    deserialize_channel_delta toy_lib toy_db
      (serialize_channel_delta toy_lib toy_db toy_delta ++ 5 ∷ [])
    ≡ ok (toy_delta, 5 ∷ [])
deserialize_channel_delta-serialize_channel_delta_example =
    deserialize_channel_delta-serialize_channel_delta toy_lib toy_db toy_delta (5 ∷ [])
      toy_delta-IsDelta

read_all_htlcs-terminates_example :
    (r : Result DbError (List Htlc)) × (read_all_htlcs 3 (1 ∷ 2 ∷ 3 ∷ []) ≡ some r)
read_all_htlcs-terminates_example = read_all_htlcs-terminates 3 (1 ∷ 2 ∷ 3 ∷ []) (omega arith)

-- A receiver of 25 nodes.
abbrev many_nodes : ℕ → List ElkremNode
many_nodes zero = []
many_nodes (suc n) = record { h = 0; i = 0; sha = toy_zeros 32 } ∷ many_nodes n

abbrev long_channel : OpenChannel toy_lib toy_db
long_channel = toy_channel_of (many_nodes 25) 0 1 77 400 600 2

abbrev long_receiver : List ℕ
long_receiver = 25 ∷ toy_zeros 1025

fetch_chan_elkrem_state-long_example :
    (b' : toy_db.Bucket) × (put_chan_elkrem_state toy_lib toy_db long_channel toy_db.empty ≡ ok b')
    × (fetch_chan_elkrem_state toy_lib toy_db (toy_point 0) b' ≡ err bad_var_bytes)
unfolding to_bytes elkrem_columns
fetch_chan_elkrem_state-long_example =
    fetch_chan_elkrem_state-long toy_lib toy_db long_channel toy_db.empty long_receiver refl
      (omega arith) refl refl
      (All-Fits (elkrem_columns toy_lib toy_db long_channel long_receiver) refl)

abbrev toy_pending : (index amount expiry : ℕ) → PaymentDescriptor
toy_pending index amount expiry = record {
  rhash = toy_zeros 32;
  expiry = expiry;
  amount = amount;
  index = index;
  parent_index = 0;
  entry_type = add;
  add_commit_height_remote = 3;
  add_commit_height_local = 3;
  remove_commit_height_remote = 0;
  remove_commit_height_local = 0;
  is_forwarded = false;
  settled = false;
}

-- A commitment with an HTLC in each direction.
abbrev toy_commitment : Commitment ℕ
toy_commitment = record {
  height = 3;
  our_message_index = 1;
  their_message_index = 1;
  txn = none;
  sig = [];
  our_balance = 300;
  their_balance = 200;
  outgoing_htlcs = toy_pending 0 400 7 ∷ [];
  incoming_htlcs = toy_pending 0 100 9 ∷ [];
}

find_previous_state-to_channel_delta_example :
    (s' : Store toy_lib toy_db) × (delta : ChannelDelta) × (append_to_revocation_log toy_lib toy_db
        (to_channel_delta toy_commitment)
        first_channel
        empty_store
      ≡ ok s')
    × (find_previous_state toy_lib toy_db 3 first_channel s' ≡ ok delta)
    × Tells delta toy_commitment
unfolding to_channel_delta channel_ids_columns commit_keys_columns commit_txns_columns
    funding_columns elkrem_columns serialize_channel_delta first_fits toy_channel-IsStorable
find_previous_state-to_channel_delta_example =
    find_previous_state-to_channel_delta toy_lib toy_db toy_commitment first_channel empty_store
      toy_receiver
      (
        omega arith,
        omega arith,
        omega arith,
        ((omega arith, refl, omega arith), tt),
        ((omega arith, refl, omega arith), tt),
      )
      refl (omega arith) first_fits.saves
      (All-Fits (elkrem_columns toy_lib toy_db first_channel toy_receiver) refl)
