-- ===== src/Channel/View.antt =====
-- lnwallet/channel.go: how the entries of the two update logs that a commitment covers change the
-- balances (processAddEntry, processRemoveEntry, evaluateHTLCView). A view is a selection of the
-- logs' entries, which the source mutates through pointers: here the loops run over the logs, pass
-- over what the view leaves out, and give back the logs.
use lnd_cc.Prelude.{
  ℕ, Bool, true, false, not, ◌&&◌, ◌||◌, Option, none, some, List, [], ◌∷◌, ltb, ◌==◌,
  if◌then◌else◌, Result, ok, err, ◌>>=◌,
}
use lnd_cc.Channel.{
  UpdateType, add, timeout, settle, is_add, PaymentDescriptor, add64, sub64, Balances, Fault,
  nil_pointer,
}

-- The height that a call reads and writes through its pointer.
unfoldable pub add_height : Bool → PaymentDescriptor → ℕ
add_height true htlc = htlc.add_commit_height_remote
add_height false htlc = htlc.add_commit_height_local

unfoldable pub set_add_height : Bool → ℕ → PaymentDescriptor → PaymentDescriptor
set_add_height true h htlc = record htlc { add_commit_height_remote = h }
set_add_height false h htlc = record htlc { add_commit_height_local = h }

unfoldable pub remove_height : Bool → PaymentDescriptor → ℕ
remove_height true htlc = htlc.remove_commit_height_remote
remove_height false htlc = htlc.remove_commit_height_local

unfoldable pub set_remove_height : Bool → ℕ → PaymentDescriptor → PaymentDescriptor
set_remove_height true h htlc = record htlc { remove_commit_height_remote = h }
set_remove_height false h htlc = record htlc { remove_commit_height_local = h }

unfoldable pub debit : Bool → ℕ → Balances → Balances
debit true amount b = record b { theirs = sub64 b.theirs amount }
debit false amount b = record b { ours = sub64 b.ours amount }

unfoldable pub process_add_entry :
    (next_height : ℕ) (remote_chain is_incoming : Bool)
    → PaymentDescriptor × Balances
    → PaymentDescriptor × Balances
unfolding add_height set_add_height debit
process_add_entry next_height remote_chain is_incoming (htlc, b) =
    if add_height remote_chain htlc == 0
    then (set_add_height remote_chain next_height htlc, debit is_incoming htlc.amount b)
    else (htlc, b)

-- The four cases of the switch, and none for an entry that adds.
unfoldable pub credit : (is_incoming : Bool) → UpdateType → ℕ → Balances → Balances
credit true settle amount b = record b { ours = add64 b.ours amount }
credit true timeout amount b = record b { theirs = add64 b.theirs amount }
credit false settle amount b = record b { theirs = add64 b.theirs amount }
credit false timeout amount b = record b { ours = add64 b.ours amount }
credit is_incoming add amount b = b

unfoldable pub process_remove_entry :
    (next_height : ℕ) (remote_chain is_incoming : Bool)
    → PaymentDescriptor × Balances
    → PaymentDescriptor × Balances
unfolding remove_height set_remove_height credit
process_remove_entry next_height remote_chain is_incoming (htlc, b) =
    if remove_height remote_chain htlc == 0
    then (
      set_remove_height remote_chain next_height htlc,
      credit is_incoming htlc.entry_type htlc.amount b,
    )
    else (htlc, b)

-- ourLogIndex and theirLogIndex: the entry of a log that adds an HTLC, by its index, the last if
-- there are several. The source keeps a map beside the log, with the log's entries of this type.
unfoldable pub find_add : ℕ → List PaymentDescriptor → Option PaymentDescriptor
unfolding is_add
find_add i [] = none
find_add i (htlc ∷ log) = elim (find_add i log) [
  | some last ↦ some last
  | none ↦ if is_add htlc.entry_type && htlc.index == i then some htlc else none
]

-- An entry is in the view if its index is below the bound.
unfoldable pub in_view : ℕ → PaymentDescriptor → Bool
in_view bound htlc = ltb htlc.index bound

-- One of the two loops over the entries that remove an HTLC: the log after it, the balances, and
-- the indices that are to be skipped in the other log.
pub record Removals : Type 0 where
  pub log : List PaymentDescriptor
  pub balances : Balances
  pub skip : List ℕ

module _ (next_height : ℕ) (remote_chain is_incoming : Bool) where
  unfoldable pub remove_pass :
      (bound : ℕ) (other : List PaymentDescriptor)
      → List PaymentDescriptor
      → Balances
      → Result Fault Removals
  unfolding in_view is_add find_add process_remove_entry
  remove_pass bound other [] b = ok (record { log = []; balances = b; skip = [] })
  remove_pass bound other (entry ∷ log) b =
      elim (in_view bound entry && not (is_add entry.entry_type)) [
        | false ↦ remove_pass bound other log b >>= λ r. ok (record r { log = entry ∷ r.log })
        | true ↦ elim (find_add entry.parent_index other) [
          | none ↦ err nil_pointer
          | some parent ↦
              let (entry', b') =
                process_remove_entry next_height remote_chain is_incoming (entry, b) in
              remove_pass bound other log b' >>= λ r.
              ok (record r { log = entry' ∷ r.log; skip = parent.index ∷ r.skip })
        ]
      ]

unfoldable pub member : ℕ → List ℕ → Bool
member i [] = false
member i (j ∷ js) = i == j || member i js

-- One of the two loops over the entries that add an HTLC: the log after it, the balances, and the
-- entries of the new view.
pub record Additions : Type 0 where
  pub log : List PaymentDescriptor
  pub balances : Balances
  pub pending : List PaymentDescriptor

module _ (next_height : ℕ) (remote_chain is_incoming : Bool) where
  unfoldable pub add_pass :
      (bound : ℕ) (skip : List ℕ) → List PaymentDescriptor → Balances → Additions
  unfolding in_view is_add member process_add_entry
  add_pass bound skip [] b = record { log = []; balances = b; pending = [] }
  add_pass bound skip (entry ∷ log) b =
      elim (in_view bound entry && (is_add entry.entry_type && not (member entry.index skip))) [
        | false ↦ let r = add_pass bound skip log b in record r { log = entry ∷ r.log }
        | true ↦
            let (entry', b') = process_add_entry next_height remote_chain is_incoming (entry, b) in
            let r = add_pass bound skip log b' in
            record r { log = entry' ∷ r.log; pending = entry' ∷ r.pending }
      ]

pub record Evaluation : Type 0 where
  pub our_log : List PaymentDescriptor
  pub their_log : List PaymentDescriptor
  pub balances : Balances
  pub outgoing : List PaymentDescriptor
  pub incoming : List PaymentDescriptor

-- fetchHTLCView and evaluateHTLCView.
unfoldable pub evaluate_htlc_view :
    (next_height : ℕ) (remote_chain : Bool) (our_log_index their_log_index : ℕ)
    → (our_log their_log : List PaymentDescriptor) → Balances
    → Result Fault Evaluation
unfolding remove_pass add_pass
evaluate_htlc_view next_height remote_chain our_log_index their_log_index our_log their_log b = do
  us ← remove_pass next_height remote_chain true our_log_index their_log our_log b
  them ← remove_pass next_height remote_chain false their_log_index our_log their_log us.balances
  let out = add_pass next_height remote_chain false our_log_index them.skip us.log them.balances
  let inc = add_pass next_height remote_chain true their_log_index us.skip them.log out.balances
  ok (record {
    our_log = out.log;
    their_log = inc.log;
    balances = inc.balances;
    outgoing = out.pending;
    incoming = inc.pending;
  })
