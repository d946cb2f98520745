-- ===== src/Channel/Updates.antt =====
-- lnwallet/channel.go: LightningChannel, and the operations on its update logs (AddHTLC, ReceiveHTLC,
-- SettleHTLC, ReceiveHTLCSettle, compactLogs and the forwarding loop of ReceiveRevocation).
use lnd_cc.Prelude.{
  ℕ, ◌+◌, ◌-◌, ◌%◌, ◌^◌, Bool, true, false, not, ◌&&◌, ◌||◌, Option, none, some, List, [], ◌∷◌,
  ◌++◌, leb, ◌==◌, if◌then◌else◌, Result, ok, err, ◌>>=◌, bytes_equal,
}
use lnd_cc.Elkrem.{ElkremNode}
use lnd_cc.Lnwire.{WireLib, OutPoint}
use lnd_cc.Lnwire.CommitRevocation.{CommitRevocation}
use lnd_cc.Lnwire.HtlcAddRequest.{HtlcAddRequest}
use lnd_cc.Channel.{
  UpdateType, add, settle, is_add, PaymentDescriptor, Fault, nil_pointer, invalid_payment_hash,
  no_log_entry,
}
use lnd_cc.Channel.View.{find_add}

pub record Commitment (Tx : Type 0) : Type 0 where
  pub height : ℕ
  pub our_message_index : ℕ
  pub their_message_index : ℕ
  -- a pointer, nil in the first commitment of a session
  pub txn : Option Tx
  pub sig : List ℕ
  pub our_balance : ℕ
  pub their_balance : ℕ
  pub outgoing_htlcs : List PaymentDescriptor
  pub incoming_htlcs : List PaymentDescriptor

-- The fields that the operations use, with those of channelState. A chain is its list of
-- commitments from the tail to the tip; the maps beside the logs are read off the logs.
pub record LightningChannel (L : WireLib) (Tx : Type 0) : Type 0 where
  pub our_log_counter : ℕ
  pub their_log_counter : ℕ
  pub current_height : ℕ
  pub revocation_window_edge : ℕ
  pub used_revocations : List (CommitRevocation L)
  pub revocation_window : List (CommitRevocation L)
  pub remote_commit_chain : List (Commitment Tx)
  pub local_commit_chain : List (Commitment Tx)
  pub our_update_log : List PaymentDescriptor
  pub their_update_log : List PaymentDescriptor
  pub local_elkrem : List ℕ
  pub remote_elkrem : List ElkremNode
  pub our_commit_key : L.PublicKey
  pub their_commit_key : L.PublicKey
  pub their_current_revocation : L.PublicKey
  pub their_current_revocation_hash : List ℕ
  pub chan_id : OutPoint

-- A counter of log entries, which is an uint32.
abbrev pub next_index : ℕ → ℕ
next_index n = (n + 1) % 2 ^ 32

-- A descriptor with the fields that a literal sets, and Go's zero in the others.
abbrev pub new_descriptor :
    UpdateType → (rhash : List ℕ) (expiry amount index parent_index : ℕ) → PaymentDescriptor
new_descriptor t rhash expiry amount index parent_index = record {
  rhash = rhash;
  expiry = expiry;
  amount = amount;
  index = index;
  parent_index = parent_index;
  entry_type = t;
  add_commit_height_remote = 0;
  add_commit_height_local = 0;
  remove_commit_height_remote = 0;
  remove_commit_height_local = 0;
  is_forwarded = false;
  settled = false;
}

-- The loop of SettleHTLC: the log with the entry marked, and the entry.
unfoldable pub mark_settled :
    List ℕ → List PaymentDescriptor → Option (List PaymentDescriptor × PaymentDescriptor)
mark_settled hash [] = none
mark_settled hash (htlc ∷ log) =
    let rest = mark_settled hash log in
    if is_add htlc.entry_type && (not htlc.settled && bytes_equal htlc.rhash hash)
    then some (record htlc { settled = true } ∷ log, htlc)
    else elim rest [ none ↦ none | some r ↦ some (htlc ∷ r.0, r.1) ]

-- `logB.Remove(parentLink)`
unfoldable pub remove_add : ℕ → List PaymentDescriptor → List PaymentDescriptor
remove_add i [] = []
remove_add i (htlc ∷ log) =
    let rest = remove_add i log in
    if is_add htlc.entry_type && htlc.index == i then log else htlc ∷ rest

-- An entry that both chains' tails have removed.
unfoldable pub is_removable : (local_tail remote_tail : ℕ) → PaymentDescriptor → Bool
is_removable local_tail remote_tail htlc =
    not (is_add htlc.entry_type)
    && (not (htlc.remove_commit_height_remote == 0 || htlc.remove_commit_height_local == 0)
        && (leb htlc.remove_commit_height_remote remote_tail
            && leb htlc.remove_commit_height_local local_tail))

module _ (local_tail remote_tail : ℕ) where
  -- compactLog: both logs after it.
  unfoldable pub compact_log :
      (log_a log_b : List PaymentDescriptor)
      → Result Fault (List PaymentDescriptor × List PaymentDescriptor)
  compact_log [] log_b = ok ([], log_b)
  compact_log (htlc ∷ log_a) log_b = elim (is_removable local_tail remote_tail htlc) [
    | false ↦ compact_log log_a log_b >>= λ r. ok (htlc ∷ r.0, r.1)
    | true ↦ elim (find_add htlc.parent_index log_b) [
      | none ↦ err nil_pointer
      | some parent ↦ compact_log log_a (remove_add htlc.parent_index log_b)
    ]
  ]

  unfoldable pub compact_logs :
      (our_log their_log : List PaymentDescriptor)
      → Result Fault (List PaymentDescriptor × List PaymentDescriptor)
  unfolding compact_log
  compact_logs our_log their_log = do
    (ours, theirs) ← compact_log our_log their_log
    (theirs', ours') ← compact_log theirs ours
    ok (ours', theirs')

  unfoldable pub is_forwardable : PaymentDescriptor → Bool
  is_forwardable htlc =
      not htlc.is_forwarded
      && (if is_add htlc.entry_type
          then not (htlc.add_commit_height_remote == 0 || htlc.add_commit_height_local == 0)
            && (leb htlc.add_commit_height_remote remote_tail
                && leb htlc.add_commit_height_local local_tail)
          else leb htlc.remove_commit_height_remote remote_tail
            && leb htlc.remove_commit_height_local local_tail)

  -- The forwarding loop of ReceiveRevocation: the log after it, and the entries to forward.
  unfoldable pub forward_pass :
      List PaymentDescriptor → List PaymentDescriptor × List PaymentDescriptor
  unfolding is_forwardable
  forward_pass [] = ([], [])
  forward_pass (htlc ∷ log) =
      let rest = forward_pass log in
      if is_forwardable htlc
      then (
        record htlc { is_forwarded = true } ∷ rest.0,
        record htlc { is_forwarded = true } ∷ rest.1,
      )
      else (htlc ∷ rest.0, rest.1)

module _ (L : WireLib) (Tx : Type 0) where
  -- What an operation returns, and the channel after it.
  abbrev pub Outcome : Type 0 → Type 0
  Outcome A = Result Fault A × LightningChannel L Tx

  unfoldable pub add_htlc : HtlcAddRequest L → LightningChannel L Tx → Outcome ℕ
  add_htlc htlc s = elim htlc.redemption_hashes [
    | [] ↦ (err nil_pointer, s)
    | hash ∷ hashes ↦ (
      ok s.our_log_counter,
      record s {
        our_update_log =
            s.our_update_log
            ++ (new_descriptor add hash htlc.expiry htlc.amount s.our_log_counter 0 ∷ []);
        our_log_counter = next_index s.our_log_counter;
      },
    )
  ]

  unfoldable pub receive_htlc : HtlcAddRequest L → LightningChannel L Tx → Outcome ℕ
  receive_htlc htlc s = elim htlc.redemption_hashes [
    | [] ↦ (err nil_pointer, s)
    | hash ∷ hashes ↦ (
      ok s.their_log_counter,
      record s {
        their_update_log =
            s.their_update_log
            ++ (new_descriptor add hash htlc.expiry htlc.amount s.their_log_counter 0 ∷ []);
        their_log_counter = next_index s.their_log_counter;
      },
    )
  ]

  module _ (sha256 : List ℕ → List ℕ) where
    unfoldable pub settle_htlc : (preimage : List ℕ) → LightningChannel L Tx → Outcome ℕ
    unfolding mark_settled
    settle_htlc preimage s = elim (mark_settled (sha256 preimage) s.their_update_log) [
      | none ↦ (err invalid_payment_hash, s)
      | some (log, parent) ↦ (
        ok parent.index,
        record s {
          their_update_log = log;
          our_update_log =
              s.our_update_log
              ++ (new_descriptor settle [] 0 parent.amount s.our_log_counter parent.index ∷ []);
          our_log_counter = next_index s.our_log_counter;
        },
      )
    ]

    unfoldable pub receive_htlc_settle :
        (preimage : List ℕ) (log_index : ℕ) → LightningChannel L Tx → Outcome (Unit {0})
    receive_htlc_settle preimage log_index s = elim (find_add log_index s.our_update_log) [
      | none ↦ (err no_log_entry, s)
      | some htlc ↦
          if bytes_equal htlc.rhash (sha256 preimage)
          then (
            ok tt,
            record s {
              their_update_log =
                  s.their_update_log
                  ++ (new_descriptor settle [] 0 htlc.amount s.their_log_counter htlc.index ∷ []);
              their_log_counter = next_index s.their_log_counter;
            },
          )
          else (err invalid_payment_hash, s)
    ]

-- channeldb.HTLC, as far as restoreStateLogs reads it.
pub record StoredHtlc : Type 0 where
  pub rhash : List ℕ
  pub amt : ℕ
  pub refund_timeout : ℕ
  pub incoming : Bool

pub record Restored : Type 0 where
  pub our_log : List PaymentDescriptor
  pub their_log : List PaymentDescriptor
  pub our_counter : ℕ
  pub their_counter : ℕ

-- The loop of restoreStateLogs.
unfoldable pub restore_pass :
    (past_height : ℕ) (our_counter their_counter : ℕ) → List StoredHtlc → Restored
restore_pass past_height ours theirs [] = record {
  our_log = [];
  their_log = [];
  our_counter = ours;
  their_counter = theirs;
}
restore_pass past_height ours theirs (htlc ∷ htlcs) = elim htlc.incoming [
  | false ↦
      let r = restore_pass past_height (next_index ours) theirs htlcs in
      record r { our_log = restored ours ∷ r.our_log }
  | true ↦
      let r = restore_pass past_height ours (next_index theirs) htlcs in
      record r { their_log = restored theirs ∷ r.their_log }
]
  where
    restored : ℕ → PaymentDescriptor
    restored index = record (new_descriptor add htlc.rhash htlc.refund_timeout htlc.amt index 0) {
      add_commit_height_remote = past_height;
      add_commit_height_local = past_height;
    }

unfoldable pub restore_state_logs : (current_height : ℕ) → List StoredHtlc → Restored
unfolding restore_pass
restore_state_logs current_height htlcs =
    if current_height == 0
    then record { our_log = []; their_log = []; our_counter = 0; their_counter = 0 }
    else restore_pass (current_height - 1) 0 0 htlcs
