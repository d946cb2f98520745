-- ===== src/Btcdnotify/Dispatch.antt =====
-- chainntnfs/btcdnotify/btcd.go: which clients a block notifies, and which it leaves on the heap.
use lnd_cc.Prelude.{
  ℕ, zero, suc, ◌+◌, ◌-◌, ◌%◌, ◌^◌, ◌≤◌, ◌<◌, ◌≡◌, refl, ap, inl, inr, List, [], ◌∷◌, map, ltb, leb,
  ◌==◌, if◌then◌else◌, length, arith, ltb→lt, ltb→le, leb→le, leb→lt, All, Bool-cases,
}
use lnd_cc.Btcdnotify.{
  trigger_clients, ConfirmationsNotification, ConfEntry, Confirmed, take_least, heap_push,
  notify_loop, notify_confs,
}

-- The sum of f over a list: two lists with the same sums for every f have the same entries, as often.
unfoldable pub weigh : (ConfEntry → ℕ) → List ConfEntry → ℕ
weigh f [] = 0
weigh f (x ∷ xs) = f x + weigh f xs

abbrev pub NotBelow : ℕ → List ConfEntry → Type 0
NotBelow h xs = All (λ x. h ≤ x.trigger_height) xs

abbrev pub Least : ConfEntry × List ConfEntry → ConfEntry → List ConfEntry → Type 0
Least out e items =
    ((f : ConfEntry → ℕ) → f out.0 + weigh f out.1 ≡ f e + weigh f items)
    × (length out.1 ≡ length items)
    × (out.0.trigger_height ≤ e.trigger_height)
    × NotBelow out.0.trigger_height out.1

NotBelow-lower : (h k : ℕ) (xs : List ConfEntry) → h ≤ k → NotBelow k xs → NotBelow h xs
NotBelow-lower h k [] le n = tt
NotBelow-lower h k (x ∷ xs) le (n, ns) = (omega (arith, n), NotBelow-lower h k xs le ns)

take_least_lem : (e : ConfEntry) (items : List ConfEntry) → Least (take_least e items) e items
unfolding take_least weigh
take_least_lem e [] = ((λ f. refl), refl, omega arith, tt)
take_least_lem e (x ∷ items) = elim (Bool-cases (ltb x.trigger_height e.trigger_height)) [
  | inl t ↦
      let (sum, size, below, others) = take_least_lem x items in
      let smaller = ltb→lt x.trigger_height e.trigger_height t in
      rw t (
        (λ f. omega (arith, sum f)),
        ap suc size,
        omega (arith, below, smaller),
        (omega (arith, below, smaller), others),
      )
  | inr t ↦
      let (sum, size, below, others) = take_least_lem e items in
      let greater = ltb→le x.trigger_height e.trigger_height t in
      rw t
        ((λ f. omega (arith, sum f)), ap suc size, below, (omega (arith, below, greater), others))
]

abbrev pub confirmed_at : ℕ → ConfEntry → Confirmed
confirmed_at height e = record { client = e.fin_conf; height = height }

-- A heap is split at a height: those due by then are sent it, the others stay.
abbrev pub Splits : (height : ℕ) → List Confirmed × List ConfEntry → List ConfEntry → Type 0
Splits height out items =
    (due : List ConfEntry) × (out.0 ≡ map (confirmed_at height) due)
    × All (λ e. e.trigger_height ≤ height) due
    × All (λ e. height < e.trigger_height) out.1
    × ((f : ConfEntry → ℕ) → weigh f due + weigh f out.1 ≡ weigh f items)

NotBelow-later :
    (h k : ℕ) (xs : List ConfEntry) → h < k → NotBelow k xs → All (λ e. h < e.trigger_height) xs
NotBelow-later h k [] lt n = tt
NotBelow-later h k (x ∷ xs) lt (n, ns) = (omega (arith, n), NotBelow-later h k xs lt ns)

notify_loop_lem :
    (fuel height : ℕ) (next : ConfEntry) (items : List ConfEntry)
    → length items ≤ fuel
    → NotBelow next.trigger_height items
    → Splits height (notify_loop fuel height next items) (next ∷ items)
unfolding notify_loop heap_push weigh
notify_loop_lem fuel height next [] n b = elim (Bool-cases (leb next.trigger_height height)) [
  | inl t ↦ rw t (next ∷ [], refl, (leb→le next.trigger_height height t, tt), tt, λ f. omega arith)
  | inr t ↦ rw t ([], refl, tt, (leb→lt next.trigger_height height t, tt), λ f. omega arith)
]
notify_loop_lem zero height next (x ∷ items) n b = absurd (omega arith)
notify_loop_lem (suc fuel) height next (x ∷ items) n b =
    elim (Bool-cases (leb next.trigger_height height)) [
      | inr t ↦
          let late = leb→lt next.trigger_height height t in
          rw t (
            [],
            refl,
            tt,
            (late, NotBelow-later height next.trigger_height (x ∷ items) late b),
            λ f. omega arith,
          )
      | inl t ↦
          let (sum, size, below, others) = take_least_lem x items in
          let (due, sent, early, late, total) =
            notify_loop_lem fuel height (take_least x items).0 (take_least x items).1
              (omega (arith, size)) others in
          rw t (
            next ∷ due,
            rw sent,
            (leb→le next.trigger_height height t, early),
            late,
            λ f. omega (arith, sum f, total f),
          )
    ]

-- NotifyConfs at a height: it sends the height to the clients of exactly the entries of the heap
-- whose trigger height is reached, each as often as it stands there, and the others stay.
pub notify_confs-Splits :
    (height : ℕ) (heap : List ConfEntry) → Splits height (notify_confs height heap) heap
unfolding notify_confs weigh
notify_confs-Splits height [] = ([], refl, tt, tt, λ f. refl)
notify_confs-Splits height (x ∷ items) =
    let (sum, size, below, others) = take_least_lem x items in
    let (due, sent, early, late, total) =
      notify_loop_lem (length items) height (take_least x items).0 (take_least x items).1
        (omega (arith, size)) others in
    (due, sent, early, late, λ f. omega (arith, sum f, total f))

-- The clients of a transaction that want one confirmation, and the heap entries of the others.
unfoldable pub singles : List ConfirmationsNotification → List ConfirmationsNotification
singles [] = []
singles (c ∷ cs) = let rest = singles cs in if c.num_confirmations == 1 then c ∷ rest else rest

unfoldable pub waiting : (block_height : ℕ) → List ConfirmationsNotification → List ConfEntry
waiting height [] = []
waiting height (c ∷ cs) =
    let rest = waiting height cs in
    let entry : ConfEntry = record {
      fin_conf = c.fin_conf;
      trigger_height = height + c.num_confirmations - 1;
    } in
    if c.num_confirmations == 1 then rest else entry ∷ rest

-- What each client of a transaction wants, and the last height it may lead to.
abbrev pub InRange : ℕ → List ConfirmationsNotification → Type 0
InRange height cs =
    All (λ c. (1 ≤ c.num_confirmations) × (height + c.num_confirmations ≤ 2 ^ 32)) cs

-- CheckConfirmationTrigger over the clients of a transaction in a block, each of which wants at
-- least one confirmation at a height below 2 ^ 32: exactly those that want one are sent the height,
-- in order, and the heap gains, for each other, an entry with the height of its last confirmation.
pub trigger_clients-waiting :
    (height : ℕ) (cs : List ConfirmationsNotification) (heap : List ConfEntry)
    → InRange height cs
    → ((trigger_clients height cs heap).0
        ≡ map (λ c. record { client = c.fin_conf; height = height }) (singles cs))
      × ((f : ConfEntry → ℕ)
          → weigh f (trigger_clients height cs heap).1 ≡ weigh f (waiting height cs) + weigh f heap)
unfolding trigger_clients heap_push singles waiting weigh
trigger_clients-waiting height [] heap r = (refl, λ f. omega arith)
trigger_clients-waiting height (c ∷ cs) heap ((one, room), rs) =
    elim (Bool-cases (c.num_confirmations == 1)) [
      | inl t ↦ let (sent, sum) = trigger_clients-waiting height cs heap rs in rw t (rw sent, sum)
      | inr t ↦
          let no_wrap : (height + c.num_confirmations + (2 ^ 32 - 1)) % 2 ^ 32
              ≡ height + c.num_confirmations - 1 =
            omega (arith, one, room) in
          let (sent, sum) =
            trigger_clients-waiting height cs
              (record { fin_conf = c.fin_conf; trigger_height = height + c.num_confirmations - 1 }
                ∷ heap)
              rs in
          rw (t, no_wrap) (sent, λ f. omega (arith, sum f))
    ]
