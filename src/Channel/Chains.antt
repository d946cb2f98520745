-- ===== src/Channel/Chains.antt =====
-- lnwallet/channel.go: the commitment chains (NewLightningChannel, fetchCommitmentView,
-- SignNextCommitment, ReceiveNewCommitment, PendingUpdates). Where the source panics on a nil
-- pointer or out of range, the result is `nil_pointer`.
use lnd_cc.Prelude.{
  ℕ, ◌+◌, ◌%◌, ◌^◌, Bool, true, false, not, Option, none, some, List, [], ◌∷◌, ◌++◌, ◌==◌,
  if◌then◌else◌, length, Result, ok, err,
}
use lnd_cc.Elkrem.{ElkremNode, sender_at_index}
use lnd_cc.Lnwire.{WireLib, OutPoint}
use lnd_cc.Lnwire.CommitRevocation.{CommitRevocation}
use lnd_cc.Channel.{
  PaymentDescriptor, Balances, Fault, nil_pointer, no_window, elkrem_failed, tx_failed, sign_failed,
  invalid_signature,
}
use lnd_cc.Channel.View.{Evaluation, evaluate_htlc_view}
use lnd_cc.Channel.Updates.{Commitment, LightningChannel, StoredHtlc, restore_state_logs, Outcome}

-- What the chains use of other code: the hashes, the keys, the transactions (CreateCommitTx,
-- addHTLC and txsort, lndcc.ColorifyTx), their signatures, and the database.
pub record ChannelLib (L : WireLib) : Type 1 where
  pub Tx : Type 0
  pub sha256 : List ℕ → List ℕ
  pub double_sha256 : List ℕ → List ℕ
  pub derive_revocation_pubkey : L.PublicKey → List ℕ → L.PublicKey
  pub is_equal : L.PublicKey → L.PublicKey → Bool
  pub create_commit_tx :
      (remote_chain : Bool) (b : Balances) (revocation_key : L.PublicKey) (revocation_hash : List ℕ)
      (outgoing incoming : List PaymentDescriptor)
      → Option Tx
  pub sign_output_raw : Option Tx → Option (List ℕ)
  pub verify : Option Tx → (raw_sig : List ℕ) → Bool
  pub update_commitment : Commitment Tx → Bool
  pub append_to_revocation_log : Commitment Tx → Bool

abbrev pub initial_revocation_window : ℕ
initial_revocation_window = 4

-- tip, and nothing where the chain is empty.
unfoldable pub tip : {A : Type 0} → List A → Option A
tip [] = none
tip (c ∷ []) = some c
tip (c ∷ d ∷ chain) = tip (d ∷ chain)

abbrev pub next_height : ℕ → ℕ
next_height h = (h + 1) % 2 ^ 64

module _ (L : WireLib) (T : ChannelLib L) where
  abbrev pub Channel : Type 0
  Channel = LightningChannel L T.Tx

  -- NewLightningChannel on the stored state: both chains begin with its one commitment.
  unfoldable pub new_lightning_channel :
      (num_updates our_balance their_balance : ℕ) (htlcs : List StoredHtlc) (local_elkrem : List ℕ)
      (remote_elkrem : List ElkremNode)
      (our_commit_key their_commit_key their_current_revocation : L.PublicKey)
      (their_current_revocation_hash : List ℕ) (chan_id : OutPoint)
      → Channel
  new_lightning_channel num_updates our_balance their_balance htlcs local_elkrem remote_elkrem
        our_commit_key their_commit_key their_current_revocation their_current_revocation_hash
        chan_id =
      let r = restore_state_logs num_updates htlcs in
      let first : Commitment T.Tx = record {
        height = num_updates;
        our_message_index = r.our_counter;
        their_message_index = r.their_counter;
        txn = none;
        sig = [];
        our_balance = our_balance;
        their_balance = their_balance;
        outgoing_htlcs = [];
        incoming_htlcs = [];
      } in
      record {
        our_log_counter = r.our_counter;
        their_log_counter = r.their_counter;
        current_height = num_updates;
        revocation_window_edge = num_updates;
        used_revocations = [];
        revocation_window = [];
        remote_commit_chain = first ∷ [];
        local_commit_chain = first ∷ [];
        our_update_log = r.our_log;
        their_update_log = r.their_log;
        local_elkrem = local_elkrem;
        remote_elkrem = remote_elkrem;
        our_commit_key = our_commit_key;
        their_commit_key = their_commit_key;
        their_current_revocation = their_current_revocation;
        their_current_revocation_hash = their_current_revocation_hash;
        chan_id = chan_id;
      }

  unfoldable pub chain_of : Bool → Channel → List (Commitment T.Tx)
  chain_of true s = s.remote_commit_chain
  chain_of false s = s.local_commit_chain

  abbrev pub Logs : Type 0
  Logs = List PaymentDescriptor × List PaymentDescriptor

  abbrev pub with_logs : Channel → Logs → Channel
  with_logs s logs = record s { our_update_log = logs.0; their_update_log = logs.1 }

  -- The commitment that an evaluation ends in.
  unfoldable pub commit_view :
      (remote_chain : Bool) (our_log_index their_log_index height : ℕ)
      (revocation_key : L.PublicKey) (revocation_hash : List ℕ)
      → Evaluation
      → Result Fault (Commitment T.Tx)
  commit_view remote_chain our_log_index their_log_index height revocation_key revocation_hash ev =
      elim (T.create_commit_tx remote_chain ev.balances revocation_key revocation_hash ev.outgoing
        ev.incoming) [
          | none ↦ err tx_failed
          | some txn ↦ ok (record {
            height = height;
            our_message_index = our_log_index;
            their_message_index = their_log_index;
            txn = some txn;
            sig = [];
            our_balance = ev.balances.ours;
            their_balance = ev.balances.theirs;
            outgoing_htlcs = ev.outgoing;
            incoming_htlcs = ev.incoming;
          })
        ]

  -- The new commitment, and the logs, which are changed even where it fails.
  unfoldable pub fetch_commitment_view :
      (remote_chain : Bool) (our_log_index their_log_index : ℕ) (revocation_key : L.PublicKey)
      (revocation_hash : List ℕ)
      → Channel
      → Result Fault (Commitment T.Tx) × Logs
  unfolding tip chain_of commit_view
  fetch_commitment_view remote_chain our_log_index their_log_index revocation_key revocation_hash
        s =
      elim (tip (chain_of remote_chain s)) [
        | none ↦ (err nil_pointer, (s.our_update_log, s.their_update_log))
        | some c ↦
            elim (evaluate_htlc_view (next_height c.height) remote_chain our_log_index
              their_log_index s.our_update_log s.their_update_log
              (record { ours = c.our_balance; theirs = c.their_balance })) [
                | err e ↦ (err e, (s.our_update_log, s.their_update_log))
                | ok ev ↦ (
                  commit_view remote_chain our_log_index their_log_index (next_height c.height)
                      revocation_key revocation_hash ev,
                  (ev.our_log, ev.their_log),
                )
              ]
      ]

  -- The end of SignNextCommitment, with the revocation at the front of the window.
  unfoldable pub extend_remote :
      (next : CommitRevocation L) (window : List (CommitRevocation L))
      → Channel
      → Result Fault (Commitment T.Tx)
      → Outcome L T.Tx (List ℕ × ℕ)
  extend_remote next window s (err e) = (err e, s)
  extend_remote next window s (ok view) = elim (T.sign_output_raw view.txn) [
    | none ↦ (err sign_failed, s)
    | some sig ↦ (
      ok (sig, s.their_log_counter),
      record s {
        remote_commit_chain = s.remote_commit_chain ++ (view ∷ []);
        used_revocations = s.used_revocations ++ (next ∷ []);
        revocation_window = window;
      },
    )
  ]

  unfoldable pub sign_next_commitment : Channel → Outcome L T.Tx (List ℕ × ℕ)
  unfolding fetch_commitment_view extend_remote
  sign_next_commitment s = elim s.revocation_window [
    | [] ↦ (err no_window, s)
    | next ∷ window ↦
        if length s.used_revocations == initial_revocation_window
        then (err no_window, s)
        else (let view =
              fetch_commitment_view true s.our_log_counter s.their_log_counter
                next.next_revocation_key next.next_revocation_hash s in
            extend_remote next window (with_logs s view.1) view.0)
  ]

  -- The end of ReceiveNewCommitment.
  unfoldable pub extend_local :
      (raw_sig : List ℕ) → Channel → Result Fault (Commitment T.Tx) → Outcome L T.Tx (Unit {0})
  extend_local raw_sig s (err e) = (err e, s)
  extend_local raw_sig s (ok view) =
      if T.verify view.txn raw_sig
      then (
        ok tt,
        record s {
          local_commit_chain = s.local_commit_chain ++ (record view { sig = raw_sig } ∷ []);
        },
      )
      else (err invalid_signature, s)

  unfoldable pub receive_new_commitment :
      (raw_sig : List ℕ) (our_log_index : ℕ) → Channel → Outcome L T.Tx (Unit {0})
  unfolding fetch_commitment_view extend_local
  receive_new_commitment raw_sig our_log_index s =
      elim (sender_at_index T.double_sha256 s.local_elkrem (next_height s.current_height)) [
        | err e ↦ (err elkrem_failed, s)
        | ok revocation ↦
            let view =
              fetch_commitment_view false our_log_index s.their_log_counter
                (T.derive_revocation_pubkey s.their_commit_key revocation) (T.sha256 revocation)
                s in
            extend_local raw_sig (with_logs s view.1) view.0
      ]

  unfoldable pub pending_updates : Channel → Result Fault Bool
  unfolding tip
  pending_updates s = elim (tip s.local_commit_chain) [
    | none ↦ err nil_pointer
    | some c ↦ elim (tip s.remote_commit_chain) [
      | none ↦ err nil_pointer
      | some d ↦ ok (not (c.our_message_index == d.our_message_index))
    ]
  ]
