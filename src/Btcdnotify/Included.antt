-- ===== src/Btcdnotify/Included.antt =====
-- chainntnfs/btcdnotify/btcd.go: what the clients of a block's transactions wait for.
use lnd_cc.Prelude.{
  ℕ, ◌+◌, ◌-◌, ◌≤◌, ◌≡◌, refl, inl, inr, List, [], ◌∷◌, ◌++◌, map, ◌==◌, if◌then◌else◌, arith,
  bytes_equal, All, Bool-cases,
}
use lnd_cc.Btcdnotify.{
  ConfirmationsNotification, ConfEntry, Confirmed, BtcdNotifier, check_confirmation_trigger,
  check_transactions,
}
use lnd_cc.Btcdnotify.Dispatch.{weigh, singles, waiting, InRange, trigger_clients-waiting}

-- What the client of an entry waits for.
abbrev pub awaited : ConfEntry → Confirmed
awaited e = record { client = e.fin_conf; height = e.trigger_height }

-- What a client waits for once its transaction is in the block of a height.
abbrev pub entry_at : (height : ℕ) → ConfirmationsNotification → ConfEntry
entry_at height c = record {
  fin_conf = c.fin_conf;
  trigger_height = height + c.num_confirmations - 1;
}

abbrev pub Registered : Type 0
Registered = List ℕ → List ConfirmationsNotification

-- The clients registered for transactions, without those of one.
abbrev pub without : List ℕ → Registered → Registered
without tx n = λ id. if bytes_equal id tx then [] else n id

unfoldable pub clients_of : (txs : List (List ℕ)) → Registered → List ConfirmationsNotification
unfolding bytes_equal
clients_of [] n = []
clients_of (tx ∷ txs) n = n tx ++ clients_of txs (without tx n)

unfoldable pub without_all : (txs : List (List ℕ)) → Registered → Registered
without_all [] n = n
without_all (tx ∷ txs) n = without_all txs (without tx n)

-- What the clients of the transactions of the next blocks wait for: a client's transaction is in
-- the first block that has it.
unfoldable pub confirmations :
    (blocks : List (List (List ℕ))) → (height : ℕ) → Registered → List ConfEntry
unfolding clients_of without_all
confirmations [] height n = []
confirmations (txs ∷ blocks) height n =
    map (entry_at (height + 1)) (clients_of txs n)
    ++ confirmations blocks (height + 1) (without_all txs n)

-- The clients that are left after the blocks.
unfoldable pub left_after : (blocks : List (List (List ℕ))) → Registered → Registered
unfolding without_all
left_after [] n = n
left_after (txs ∷ blocks) n = left_after blocks (without_all txs n)

-- Every client wants a confirmation, and none of a height above 2 ^ 32 if its transaction is in a
-- block of at most the last height.
abbrev pub IsWanted : (last : ℕ) → Registered → Type 0
IsWanted last n = (id : List ℕ) → InRange last (n id)

InRange-lower :
    (k last : ℕ) (cs : List ConfirmationsNotification) → k ≤ last → InRange last cs → InRange k cs
InRange-lower k last [] le h = tt
InRange-lower k last (c ∷ cs) le ((one, room), hs) =
    ((one, omega (arith, room)), InRange-lower k last cs le hs)

pub IsWanted-lower : (k last : ℕ) (n : Registered) → k ≤ last → IsWanted last n → IsWanted k n
IsWanted-lower k last n le h id = InRange-lower k last (n id) le (h id)

pub without-IsWanted :
    (last : ℕ) (tx : List ℕ) (n : Registered) → IsWanted last n → IsWanted last (without tx n)
without-IsWanted last tx n h id = elim (Bool-cases (bytes_equal id tx)) [
  | inl t ↦ rw t tt
  | inr t ↦ rw t (h id)
]

pub without_all-IsWanted :
    (last : ℕ) (txs : List (List ℕ)) (n : Registered)
    → IsWanted last n
    → IsWanted last (without_all txs n)
unfolding without_all
without_all-IsWanted last [] n h = h
without_all-IsWanted last (tx ∷ txs) n h =
    without_all-IsWanted last txs (without tx n) (without-IsWanted last tx n h)

pub map-append :
    (xs ys : List ConfEntry) → map awaited xs ++ map awaited ys ≡ map awaited (xs ++ ys)
map-append [] ys = refl
map-append (x ∷ xs) ys = rw (map-append xs ys)

entries-append :
    (k : ℕ) (cs ds : List ConfirmationsNotification)
    → map (entry_at k) (cs ++ ds) ≡ map (entry_at k) cs ++ map (entry_at k) ds
entries-append k [] ds = refl
entries-append k (c ∷ cs) ds = rw (entries-append k cs ds)

pub weigh-append :
    (f : ConfEntry → ℕ) (xs ys : List ConfEntry) → weigh f (xs ++ ys) ≡ weigh f xs + weigh f ys
unfolding weigh
weigh-append f [] ys = omega arith
weigh-append f (x ∷ xs) ys = omega (arith, weigh-append f xs ys)

abbrev pub Due : ℕ → List ConfEntry → Type 0
Due k xs = All (λ e. e.trigger_height ≤ k) xs

pub Due-append : (k : ℕ) (xs ys : List ConfEntry) → Due k xs → Due k ys → Due k (xs ++ ys)
Due-append k [] ys a b = b
Due-append k (x ∷ xs) ys (a, more) b = (a, Due-append k xs ys more b)

-- A client that wants one confirmation waits for the height of its transaction's block.
singles_lem :
    (k : ℕ) (cs : List ConfirmationsNotification)
    → (map (λ c. record { client = c.fin_conf; height = k }) (singles cs)
        ≡ map awaited (map (entry_at k) (singles cs)))
      × Due k (map (entry_at k) (singles cs))
      × ((f : ConfEntry → ℕ)
          → weigh f (map (entry_at k) (singles cs)) + weigh f (waiting k cs)
            ≡ weigh f (map (entry_at k) cs))
unfolding singles waiting weigh
singles_lem k [] = (refl, tt, λ f. refl)
singles_lem k (c ∷ cs) =
    let (sent, due, total) = singles_lem k cs in
    elim (Bool-cases (c.num_confirmations == 1)) [
      | inl t ↦
          let now : k + c.num_confirmations - 1 ≡ k = ground arith in
          let early : k + c.num_confirmations - 1 ≤ k = omega (arith, now) in
          rw t (rw (sent, now) refl, (early, due), λ f. omega (arith, total f))
      | inr t ↦ rw t (sent, due, λ f. omega (arith, total f))
    ]

-- What a block's transactions do: the clients that are sent a height now, and the heap after it.
abbrev pub Includes :
    (k : ℕ) → List Confirmed × BtcdNotifier → (txs : List (List ℕ)) → BtcdNotifier → Type 0
Includes k out txs b =
    (due : List ConfEntry) × (out.0 ≡ map awaited due)
    × Due k due
    × ((f : ConfEntry → ℕ)
        → weigh f due + weigh f out.1.conf_heap
          ≡ weigh f (map (entry_at k) (clients_of txs b.conf_notifications)) + weigh f b.conf_heap)
    × (out.1.conf_notifications ≡ without_all txs b.conf_notifications)

pub check_transactions_lem :
    (k : ℕ) (txs : List (List ℕ)) (b : BtcdNotifier)
    → IsWanted k b.conf_notifications
    → Includes k (check_transactions txs k b) txs b
unfolding check_transactions check_confirmation_trigger clients_of without_all weigh
check_transactions_lem k [] b h = ([], refl, tt, (λ f. refl), refl)
check_transactions_lem k (tx ∷ txs) b h =
    let cs = b.conf_notifications tx in
    let (sent, sum) = trigger_clients-waiting k cs b.conf_heap (h tx) in
    let (same, early, total) = singles_lem k cs in
    let b₁ = (check_confirmation_trigger tx k b).1 in
    let (due, sent', early', total', left) =
      check_transactions_lem k txs b₁ (without-IsWanted k tx b.conf_notifications h) in
    let now = map (entry_at k) (singles cs) in
    (
      now ++ due,
      rw (sent, same, sent') (map-append now due),
      Due-append k now due early early',
      (λ f. rw (entries-append k cs (clients_of txs (without tx b.conf_notifications))) (
          omega (
            arith,
            weigh-append f now due,
            weigh-append f (map (entry_at k) cs)
                (map (entry_at k) (clients_of txs (without tx b.conf_notifications))),
            sum f,
            total f,
            total' f,
          ))),
      left,
    )
