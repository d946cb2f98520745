-- ===== src/Btcdnotify/Examples.antt =====
-- Runs of chainntnfs/btcdnotify's dispatcher, and its theorems at concrete inputs.
use lnd_cc.Prelude.{
  ℕ, ◌≡◌, ◌+◌, ◌≤◌, refl, List, [], ◌∷◌, none, arith, map, All, ◌<◌, bytes_equal, if◌then◌else◌,
  Bool-cases, inl, inr,
}
use lnd_cc.Btcdnotify.Included.{awaited, confirmations, left_after, IsWanted}
use lnd_cc.Btcdnotify.Delivery.{connect_blocks-awaited}
use lnd_cc.Btcdnotify.{
  connect_blocks, ConfirmationsNotification, ConfEntry, BtcdNotifier, notify_confs, trigger_clients,
  connect_block, register_confirmations,
}
use lnd_cc.Btcdnotify.Dispatch.{
  Splits, notify_confs-Splits, weigh, singles, waiting, trigger_clients-waiting,
}

abbrev toy_clients : List ConfirmationsNotification
toy_clients =
    record { num_confirmations = 1; fin_conf = 7 }
    ∷ record { num_confirmations = 3; fin_conf = 8 }
    ∷ []

abbrev toy_heap : List ConfEntry
toy_heap =
    record { fin_conf = 1; trigger_height = 30 }
    ∷ record { fin_conf = 2; trigger_height = 10 }
    ∷ record { fin_conf = 3; trigger_height = 20 }
    ∷ []

-- The clients of heights 10 and 20, the least first.
notified : notify_confs 20 toy_heap ≡ (
  record { client = 2; height = 20 } ∷ record { client = 3; height = 20 } ∷ [],
  record { fin_conf = 1; trigger_height = 30 } ∷ [],
)
unfolding notify_confs
notified = refl

trigger_clients-waiting_example :
    ((trigger_clients 20 toy_clients toy_heap).0
      ≡ map (λ c. record { client = c.fin_conf; height = 20 }) (singles toy_clients))
    × ((f : ConfEntry → ℕ)
        → weigh f (trigger_clients 20 toy_clients toy_heap).1
          ≡ weigh f (waiting 20 toy_clients) + weigh f toy_heap)
trigger_clients-waiting_example =
    trigger_clients-waiting 20 toy_clients toy_heap
      ((omega arith, omega arith), ((omega arith, omega arith), tt))

notify_confs-Splits_example : Splits 20 (notify_confs 20 toy_heap) toy_heap
notify_confs-Splits_example = notify_confs-Splits 20 toy_heap

-- Two clients of the transaction 4, over the heap.
abbrev toy_notifier : BtcdNotifier
toy_notifier = record {
  spend_notifications = λ o. none;
  conf_notifications = λ id. if bytes_equal id (4 ∷ []) then toy_clients else [];
  conf_heap = toy_heap;
}

-- Blocks 10 to 13. The second has the transaction, and the fourth has it again.
abbrev toy_blocks : List (List (List ℕ))
toy_blocks =
    ((1 ∷ []) ∷ []) ∷ ((2 ∷ []) ∷ (4 ∷ []) ∷ []) ∷ ((3 ∷ []) ∷ []) ∷ ((5 ∷ []) ∷ (4 ∷ []) ∷ []) ∷ []

delivered :
    (connect_blocks toy_blocks 9 toy_notifier).0
    ≡ record { client = 2; height = 10 }
      ∷ record { client = 7; height = 11 }
      ∷ record { client = 8; height = 13 }
      ∷ []
unfolding connect_blocks connect_block bytes_equal
delivered = refl

toy_notifier-IsWanted : IsWanted 13 toy_notifier.conf_notifications
toy_notifier-IsWanted id = elim (Bool-cases (bytes_equal id (4 ∷ []))) [
  | inl t ↦ rw t ((omega arith, omega arith), ((omega arith, omega arith), tt))
  | inr t ↦ rw t tt
]

connect_blocks-awaited_example :
    (due : List ConfEntry) × ((connect_blocks toy_blocks 9 toy_notifier).0 ≡ map awaited due)
    × All (λ e. e.trigger_height ≤ 13) due
    × All (λ e. 13 < e.trigger_height) (connect_blocks toy_blocks 9 toy_notifier).1.conf_heap
    × ((f : ConfEntry → ℕ)
        → weigh f due + weigh f (connect_blocks toy_blocks 9 toy_notifier).1.conf_heap
          ≡ weigh f (confirmations toy_blocks 9 toy_notifier.conf_notifications) + weigh f toy_heap)
    × ((connect_blocks toy_blocks 9 toy_notifier).1.conf_notifications
        ≡ left_after toy_blocks toy_notifier.conf_notifications)
connect_blocks-awaited_example =
    connect_blocks-awaited toy_blocks 9 toy_notifier (omega arith, (omega arith, (omega arith, tt)))
      toy_notifier-IsWanted

-- A client that wants two confirmations of a transaction in block 5.
registered :
    (connect_blocks (((4 ∷ []) ∷ []) ∷ [] ∷ [] ∷ []) 4 (
      register_confirmations
        (4 ∷ [])
        (record { num_confirmations = 2; fin_conf = 8 })
        (record {
          spend_notifications = λ o. none;
          conf_notifications = λ id. [];
          conf_heap = [];
        }))).0
    ≡ record { client = 8; height = 6 } ∷ []
unfolding connect_blocks connect_block register_confirmations bytes_equal
registered = refl
