-- ===== src/Channel/Examples.antt =====
-- Runs of a channel, and its theorems at concrete inputs: the evaluation of an HTLC of theirs that
-- we settle, and a new channel that gets a revocation, adds an HTLC and signs a commitment.
use lnd_cc.Prelude.{
  suc, ◌+◌, ◌⊎◌, length, none, some, ℕ, ◌≡◌, refl, true, false, List, [], ◌∷◌, arith, Result, ok,
  err, bytes_equal,
}
use lnd_cc.Channel.{invalid_payment_hash, Fault, nil_pointer, add, settle, PaymentDescriptor}
use lnd_cc.Channel.View.{find_add, Evaluation, evaluate_htlc_view}
use lnd_cc.Channel.Ledger.{IsBalanced, evaluate_htlc_view-IsBalanced}
use lnd_cc.Lnwire.{OutPoint}
use lnd_cc.Lnwire.Scripts.{zero_hash}
use lnd_cc.Lnwire.Sample.{zeros, toy_lib}
use lnd_cc.Lnwire.CommitRevocation.{CommitRevocation}
use lnd_cc.Lnwire.HtlcAddRequest.{HtlcAddRequest}
use lnd_cc.Channel.Updates.{
  Commitment, add_htlc, receive_htlc, settle_htlc, receive_htlc_settle, restore_state_logs,
}
use lnd_cc.Channel.Settles.{waiting, with_settle, settle_htlc-waiting, receive_htlc_settle_twice}
use lnd_cc.Channel.Chains.{
  ChannelLib, tip, chain_of, Channel, new_lightning_channel, fetch_commitment_view,
  sign_next_commitment,
}
use lnd_cc.Channel.Revocations.{receive_revocation}
use lnd_cc.Channel.Soundness.{IsSound}
use lnd_cc.Channel.RevokedSoundness.{IsHandled}
use lnd_cc.Channel.Steps.{Step, Reach, IsNew, Reach-IsSound}
use lnd_cc.Channel.Commitments.{ledger, fetch_commitment_view-ledger}

abbrev toy_add : ℕ → ℕ → PaymentDescriptor
toy_add index amount = record {
  rhash = [];
  expiry = 5;
  amount = amount;
  index = index;
  parent_index = 0;
  entry_type = add;
  add_commit_height_remote = 0;
  add_commit_height_local = 0;
  remove_commit_height_remote = 0;
  remove_commit_height_local = 0;
  is_forwarded = false;
  settled = false;
}

abbrev toy_settle : PaymentDescriptor
toy_settle = record (toy_add 1 300) { entry_type = settle; parent_index = 4 }

abbrev toy_ours : List PaymentDescriptor
toy_ours = toy_add 0 200 ∷ toy_settle ∷ []

abbrev toy_theirs : List PaymentDescriptor
toy_theirs = record (toy_add 4 300) { add_commit_height_remote = 2 } ∷ []

abbrev toy_after : Evaluation
toy_after = record {
  our_log =
      record (toy_add 0 200) { add_commit_height_remote = 3 }
      ∷ record toy_settle { remove_commit_height_remote = 3 }
      ∷ [];
  their_log = toy_theirs;
  balances = record { ours = 1100; theirs = 500 };
  outgoing = record (toy_add 0 200) { add_commit_height_remote = 3 } ∷ [];
  incoming = [];
}

evaluate_toy :
    evaluate_htlc_view 3 true 2 5 toy_ours toy_theirs (record { ours = 1000; theirs = 500 })
    ≡ ok toy_after
unfolding evaluate_htlc_view
evaluate_toy = refl

evaluate_htlc_view-IsBalanced_example :
    IsBalanced true toy_ours toy_theirs (record { ours = 1000; theirs = 500 }) toy_after
evaluate_htlc_view-IsBalanced_example =
    evaluate_htlc_view-IsBalanced 3 true 2 5 toy_ours toy_theirs
      (record { ours = 1000; theirs = 500 }) toy_after (omega arith) evaluate_toy

abbrev toy_channels : ChannelLib toy_lib
toy_channels = record {
  Tx = Unit;
  sha256 = λ bs. bs;
  double_sha256 = λ bs. bs;
  derive_revocation_pubkey = λ k bs. k;
  is_equal = λ k k'. true;
  create_commit_tx = λ chain b key hash out inc. some tt;
  sign_output_raw = λ tx. some (zeros 70);
  verify = λ tx sig. true;
  update_commitment = λ c. true;
  append_to_revocation_log = λ c. true;
}

abbrev toy_point : OutPoint
toy_point = record { hash = zeros 32; index = 1 }

abbrev toy_new : Channel toy_lib toy_channels
toy_new =
    new_lightning_channel toy_lib toy_channels 0 1000 500 [] (zeros 32) [] tt tt tt zero_hash
      toy_point

abbrev toy_revocation : CommitRevocation toy_lib
toy_revocation = record {
  channel_point = toy_point;
  revocation = zero_hash;
  next_revocation_key = tt;
  next_revocation_hash = zeros 32;
}

abbrev toy_request : HtlcAddRequest toy_lib
toy_request = record {
  channel_point = toy_point;
  expiry = 9;
  amount = 200;
  contract_type = 0;
  redemption_hashes = zeros 32 ∷ [];
  onion_blob = [];
  refund_context = 0;
}

abbrev toy_window : Channel toy_lib toy_channels
toy_window = (receive_revocation toy_lib toy_channels toy_revocation toy_new).1

abbrev toy_added : Channel toy_lib toy_channels
toy_added = (add_htlc toy_lib Unit toy_request toy_window).1

abbrev toy_signed : Channel toy_lib toy_channels
toy_signed = (sign_next_commitment toy_lib toy_channels toy_added).1

ok_not_err : {A : Type 0} (a : A) (e : Fault) → ◌≡◌ {A = Result Fault A} (ok a) (err e) → ⊥
ok_not_err a e p = cc

toy_revocation-IsHandled :
    IsHandled toy_lib toy_channels (receive_revocation toy_lib toy_channels toy_revocation toy_new)
unfolding receive_revocation bytes_equal
toy_revocation-IsHandled e = ok_not_err [] nil_pointer e

toy_Reach : Reach toy_lib toy_channels toy_new toy_signed
toy_Reach =
    Reach.after
      (Reach.after
        (Reach.after Reach.here
          (Step.receives_revocation toy_revocation toy_new toy_revocation-IsHandled))
        (Step.adds toy_request toy_window))
      (Step.signs toy_added)

Reach-IsSound_example : IsSound toy_lib toy_channels toy_signed
Reach-IsSound_example =
    Reach-IsSound toy_lib toy_channels
      (IsNew.made 0 1000 500 [] (zeros 32) [] tt tt tt zero_hash toy_point) toy_Reach

abbrev toy_first : Commitment Unit
toy_first = record {
  height = 0;
  our_message_index = 0;
  their_message_index = 0;
  txn = none;
  sig = [];
  our_balance = 1000;
  their_balance = 500;
  outgoing_htlcs = [];
  incoming_htlcs = [];
}

abbrev toy_pending : PaymentDescriptor
toy_pending = record (toy_add 0 200) { rhash = zeros 32; expiry = 9; add_commit_height_remote = 1 }

abbrev toy_second : Commitment Unit
toy_second = record {
  height = 1;
  our_message_index = 1;
  their_message_index = 0;
  txn = some tt;
  sig = [];
  our_balance = 800;
  their_balance = 500;
  outgoing_htlcs = toy_pending ∷ [];
  incoming_htlcs = [];
}

toy_tip : tip (chain_of toy_lib toy_channels true toy_added) ≡ some toy_first
unfolding tip chain_of add_htlc receive_revocation new_lightning_channel bytes_equal
    restore_state_logs
toy_tip = refl

toy_fetched :
    (fetch_commitment_view toy_lib toy_channels true 1 0 tt (zeros 32) toy_added).0 ≡ ok toy_second
unfolding fetch_commitment_view add_htlc receive_revocation new_lightning_channel bytes_equal
    restore_state_logs evaluate_htlc_view
toy_fetched = refl

fetch_commitment_view-ledger_example :
    ledger toy_lib toy_channels true toy_second
      (toy_added.our_update_log, toy_added.their_update_log)
      (fetch_commitment_view toy_lib toy_channels true 1 0 tt (zeros 32) toy_added).1
    ≡ ledger toy_lib toy_channels true toy_first
        (fetch_commitment_view toy_lib toy_channels true 1 0 tt (zeros 32) toy_added).1
        (toy_added.our_update_log, toy_added.their_update_log)
fetch_commitment_view-ledger_example =
    fetch_commitment_view-ledger toy_lib toy_channels true 1 0 tt (zeros 32) toy_added toy_first
      toy_second toy_tip (omega arith) toy_fetched

abbrev toy_sha : List ℕ → List ℕ
toy_sha bs = bs

toy_settles : (receive_htlc_settle toy_lib Unit toy_sha (zeros 32) 0 toy_added).0 ≡ ok tt
unfolding receive_htlc_settle add_htlc receive_revocation new_lightning_channel bytes_equal
    restore_state_logs find_add
toy_settles = refl

receive_htlc_settle_twice_example :
    (htlc : PaymentDescriptor) × (find_add 0 toy_added.our_update_log ≡ some htlc)
    × (receive_htlc_settle toy_lib Unit toy_sha
          (zeros 32)
          0
          (receive_htlc_settle toy_lib Unit toy_sha (zeros 32) 0 toy_added).1
        ≡ (
          ok tt,
          with_settle toy_lib Unit toy_sha htlc (with_settle toy_lib Unit toy_sha htlc toy_added),
        ))
receive_htlc_settle_twice_example =
    receive_htlc_settle_twice toy_lib Unit toy_sha (zeros 32) 0 toy_added toy_settles

abbrev toy_received : Channel toy_lib toy_channels
toy_received = (receive_htlc toy_lib Unit toy_request toy_window).1

settle_htlc-waiting_example :
    ((i : ℕ) × ((settle_htlc toy_lib Unit toy_sha (zeros 32) toy_received).0 ≡ ok i)
      × (suc (
            waiting
              (zeros 32)
              (settle_htlc toy_lib Unit toy_sha (zeros 32) toy_received).1.their_update_log)
          ≡ waiting (zeros 32) toy_received.their_update_log)
      × (length (settle_htlc toy_lib Unit toy_sha (zeros 32) toy_received).1.our_update_log
          ≡ length toy_received.our_update_log + 1))
    ⊎ ((waiting (zeros 32) toy_received.their_update_log ≡ 0)
        × (settle_htlc toy_lib Unit toy_sha (zeros 32) toy_received
            ≡ (err invalid_payment_hash, toy_received)))
settle_htlc-waiting_example = settle_htlc-waiting toy_lib Unit toy_sha (zeros 32) toy_received
