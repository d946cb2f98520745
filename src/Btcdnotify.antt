-- ===== src/Btcdnotify.antt =====
-- chainntnfs/btcdnotify (btcd.go, confheap.go): the dispatcher's state, and what it does with
-- registrations, blocks and spends. A client is the number of its Go channel. container/heap is the
-- list of its items, of which Pop takes one with the least trigger height.
pub mod Dispatch
pub mod Included
pub mod Delivery
pub mod Examples
use lnd_cc.Prelude.{
  ℕ, zero, suc, ◌+◌, ◌-◌, ◌%◌, ◌^◌, ◌&&◌, ◌==◌, Bool, true, false, Option, none, some, List, [],
  ◌∷◌, ◌++◌, ltb, leb, if◌then◌else◌, length, bytes_equal,
}
use lnd_cc.Lnwire.{OutPoint}

pub record ConfirmationsNotification : Type 0 where
  pub num_confirmations : ℕ
  pub fin_conf : ℕ

pub record ConfEntry : Type 0 where
  pub fin_conf : ℕ
  pub trigger_height : ℕ

-- A height sent to a client.
pub record Confirmed : Type 0 where
  pub client : ℕ
  pub height : ℕ

pub record SpendDetail : Type 0 where
  pub client : ℕ
  pub spent_out_point : OutPoint
  pub spender_tx_hash : List ℕ
  pub spender_input_index : ℕ

pub record BtcdNotifier : Type 0 where
  pub spend_notifications : OutPoint → Option ℕ
  pub conf_notifications : List ℕ → List ConfirmationsNotification
  pub conf_heap : List ConfEntry

-- The least item of e and items, and the others.
unfoldable pub take_least : ConfEntry → List ConfEntry → ConfEntry × List ConfEntry
take_least e [] = (e, [])
take_least e (x ∷ items) =
    let keep = take_least e items in
    let swap = take_least x items in
    if ltb x.trigger_height e.trigger_height then (swap.0, e ∷ swap.1) else (keep.0, x ∷ keep.1)

unfoldable pub heap_push : ConfEntry → List ConfEntry → List ConfEntry
heap_push e items = e ∷ items

-- The loop of notifyConfs: the clients that are sent the height, and the heap after it.
unfoldable pub notify_loop :
    (fuel : ℕ) → (height : ℕ) → ConfEntry → List ConfEntry → List Confirmed × List ConfEntry
unfolding take_least heap_push
notify_loop fuel height next [] =
    if leb next.trigger_height height
    then (record { client = next.fin_conf; height = height } ∷ [], [])
    else ([], heap_push next [])
notify_loop zero height next (x ∷ items) = ([], heap_push next (x ∷ items))
notify_loop (suc fuel) height next (x ∷ items) =
    let popped = take_least x items in
    let rest = notify_loop fuel height popped.0 popped.1 in
    if leb next.trigger_height height
    then (record { client = next.fin_conf; height = height } ∷ rest.0, rest.1)
    else ([], heap_push next (x ∷ items))

unfoldable pub notify_confs :
    (new_block_height : ℕ) → List ConfEntry → List Confirmed × List ConfEntry
unfolding take_least notify_loop
notify_confs height [] = ([], [])
notify_confs height (x ∷ items) =
    let popped = take_least x items in notify_loop (length items) height popped.0 popped.1

-- The loop of checkConfirmationTrigger over the clients of a transaction.
unfoldable pub trigger_clients :
    (block_height : ℕ)
    → List ConfirmationsNotification
    → List ConfEntry
    → List Confirmed × List ConfEntry
unfolding heap_push
trigger_clients height [] heap = ([], heap)
trigger_clients height (c ∷ clients) heap =
    let entry : ConfEntry = record {
      fin_conf = c.fin_conf;
      trigger_height = (height + c.num_confirmations + (2 ^ 32 - 1)) % 2 ^ 32;
    } in
    let now = trigger_clients height clients heap in
    let later = trigger_clients height clients (heap_push entry heap) in
    if c.num_confirmations == 1
    then (record { client = c.fin_conf; height = height } ∷ now.0, now.1)
    else later

unfoldable pub check_confirmation_trigger :
    (tx_sha : List ℕ) → (block_height : ℕ) → BtcdNotifier → List Confirmed × BtcdNotifier
unfolding trigger_clients
check_confirmation_trigger tx_sha height b =
    let out = trigger_clients height (b.conf_notifications tx_sha) b.conf_heap in
    (
      out.0,
      record {
        spend_notifications = b.spend_notifications;
        conf_notifications = λ id. if bytes_equal id tx_sha then [] else b.conf_notifications id;
        conf_heap = out.1;
      },
    )

unfoldable pub check_transactions :
    (txs : List (List ℕ)) → (block_height : ℕ) → BtcdNotifier → List Confirmed × BtcdNotifier
unfolding check_confirmation_trigger
check_transactions [] height b = ([], b)
check_transactions (tx ∷ txs) height b =
    let first = check_confirmation_trigger tx height b in
    let others = check_transactions txs height first.1 in (first.0 ++ others.0, others.1)

-- A connected block that GetBlock returns.
unfoldable pub connect_block :
    (txs : List (List ℕ)) → (height : ℕ) → BtcdNotifier → List Confirmed × BtcdNotifier
unfolding check_transactions notify_confs
connect_block txs height b =
    let checked = check_transactions txs height b in
    let due = notify_confs height checked.1.conf_heap in
    (
      checked.0 ++ due.0,
      record {
        spend_notifications = checked.1.spend_notifications;
        conf_notifications = checked.1.conf_notifications;
        conf_heap = due.1;
      },
    )

unfoldable pub register_confirmations :
    (txid : List ℕ) → ConfirmationsNotification → BtcdNotifier → BtcdNotifier
register_confirmations txid msg b = record {
  spend_notifications = b.spend_notifications;
  conf_notifications = λ id.
      if bytes_equal id txid
      then b.conf_notifications txid ++ msg ∷ []
      else b.conf_notifications id;
  conf_heap = b.conf_heap;
}

abbrev pub same_point : OutPoint → OutPoint → Bool
same_point o p = bytes_equal o.hash p.hash && o.index == p.index

unfoldable pub register_spend : OutPoint → (client : ℕ) → BtcdNotifier → BtcdNotifier
register_spend o client b = record {
  spend_notifications = λ p. if same_point p o then some client else b.spend_notifications p;
  conf_notifications = b.conf_notifications;
  conf_heap = b.conf_heap;
}

-- The loop over the inputs of a transaction, from input i on.
unfoldable pub notify_spends :
    (spender : List ℕ)
    → (i : ℕ) → List OutPoint
    → (OutPoint → Option ℕ)
    → List SpendDetail × (OutPoint → Option ℕ)
notify_spends spender i [] subscribed = ([], subscribed)
notify_spends spender i (o ∷ inputs) subscribed =
    let missed = notify_spends spender (suc i) inputs subscribed in
    let hit =
      notify_spends spender (suc i) inputs (λ p. if same_point p o then none else subscribed p) in
    elim (subscribed o) [
      | none ↦ missed
      | some client ↦ (
        record {
          client = client;
          spent_out_point = o;
          spender_tx_hash = spender;
          spender_input_index = i;
        }
            ∷ hit.0,
        hit.1,
      )
    ]

-- The next blocks after a height, each a list of the ids of its transactions.
unfoldable pub connect_blocks :
    (blocks : List (List (List ℕ))) → (height : ℕ) → BtcdNotifier → List Confirmed × BtcdNotifier
unfolding connect_block
connect_blocks [] height b = ([], b)
connect_blocks (txs ∷ blocks) height b =
    let first = connect_block txs (height + 1) b in
    let others = connect_blocks blocks (height + 1) first.1 in (first.0 ++ others.0, others.1)
