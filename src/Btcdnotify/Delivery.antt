-- ===== src/Btcdnotify/Delivery.antt =====
-- chainntnfs/btcdnotify/btcd.go: every pending confirmation is delivered, at its height.
use lnd_cc.Prelude.{
  ℕ, suc, ◌+◌, ◌≤◌, ◌<◌, ◌≡◌, refl, ap, ◌∙◌, inl, inr, List, [], ◌∷◌, ◌++◌, map, leb, if◌then◌else◌,
  arith, lt→leb, leb→lt, length, All, Bool-cases,
}
use lnd_cc.Btcdnotify.{
  check_transactions, ConfirmationsNotification, ConfEntry, Confirmed, BtcdNotifier, connect_block,
  connect_blocks,
}
use lnd_cc.Btcdnotify.Dispatch.{InRange, weigh, confirmed_at, notify_confs-Splits}
use lnd_cc.Btcdnotify.Included.{
  awaited, entry_at, Registered, without, clients_of, without_all, left_after, confirmations,
  IsWanted, IsWanted-lower, without-IsWanted, without_all-IsWanted, map-append, weigh-append, Due,
  Due-append, check_transactions_lem,
}

abbrev After : ℕ → List ConfEntry → Type 0
After h xs = All (λ e. h < e.trigger_height) xs

reached : ℕ → ConfEntry → ℕ
reached h e = if leb e.trigger_height h then 1 else 0

After-weigh : (h : ℕ) (xs : List ConfEntry) → After h xs → weigh (reached h) xs ≡ 0
unfolding weigh reached
After-weigh h [] a = refl
After-weigh h (x ∷ xs) (a, more) =
    rw (lt→leb x.trigger_height h a) (omega (arith, After-weigh h xs more))

weigh-After : (h : ℕ) (xs : List ConfEntry) → weigh (reached h) xs ≡ 0 → After h xs
unfolding weigh reached
weigh-After h [] e = tt
weigh-After h (x ∷ xs) e = elim (Bool-cases (leb x.trigger_height h)) [
  | inl t ↦ absurd (let e' = rw t at e in omega (arith, e'))
  | inr t ↦
      let e' = rw t at e in
      let rest : weigh (reached h) xs ≡ 0 = omega (arith, e') in
      (leb→lt x.trigger_height h t, weigh-After h xs rest)
]

-- Entries that are due now and were not before are sent what they wait for.
awaited_now :
    (h : ℕ) (due : List ConfEntry)
    → After h due
    → All (λ e. e.trigger_height ≤ h + 1) due
    → map (confirmed_at (h + 1)) due ≡ map awaited due
awaited_now h [] a b = refl
awaited_now h (e ∷ due) (a, more) (b, bs) =
    let now : h + 1 ≡ e.trigger_height = omega (arith, a, b) in rw (awaited_now h due more bs, now)

After-entries :
    (h : ℕ) (cs : List ConfirmationsNotification)
    → InRange (h + 1) cs
    → After h (map (entry_at (h + 1)) cs)
After-entries h [] r = tt
After-entries h (c ∷ cs) ((one, room), rs) = (omega (arith, one), After-entries h cs rs)

InRange-append :
    (k : ℕ) (xs ys : List ConfirmationsNotification)
    → InRange k xs
    → InRange k ys
    → InRange k (xs ++ ys)
InRange-append k [] ys h i = i
InRange-append k (x ∷ xs) ys (h, hs) i = (h, InRange-append k xs ys hs i)

clients_of-InRange :
    (k : ℕ) (txs : List (List ℕ)) (n : Registered) → IsWanted k n → InRange k (clients_of txs n)
unfolding clients_of
clients_of-InRange k [] n h = tt
clients_of-InRange k (tx ∷ txs) n h =
    InRange-append k (n tx) (clients_of txs (without tx n)) (h tx)
      (clients_of-InRange k txs (without tx n) (without-IsWanted k tx n h))

Due-later : (h k : ℕ) (xs : List ConfEntry) → h ≤ k → Due h xs → Due k xs
Due-later h k [] le d = tt
Due-later h k (x ∷ xs) le (d, ds) = (omega (arith, d), Due-later h k xs le ds)

-- What a block at the next height does to a heap whose entries are all above the last.
abbrev Connects :
    (h : ℕ) → List Confirmed × BtcdNotifier → (txs : List (List ℕ)) → BtcdNotifier → Type 0
Connects h out txs b =
    (due : List ConfEntry) × (out.0 ≡ map awaited due)
    × Due (h + 1) due
    × After (h + 1) out.1.conf_heap
    × ((f : ConfEntry → ℕ)
        → weigh f due + weigh f out.1.conf_heap
          ≡ weigh f (map (entry_at (h + 1)) (clients_of txs b.conf_notifications))
            + weigh f b.conf_heap)
    × (out.1.conf_notifications ≡ without_all txs b.conf_notifications)

connect_block_lem :
    (h : ℕ) (txs : List (List ℕ)) (b : BtcdNotifier)
    → After h b.conf_heap
    → IsWanted (h + 1) b.conf_notifications
    → Connects h (connect_block txs (h + 1) b) txs b
unfolding connect_block
connect_block_lem h txs b a w =
    let (now, sent, early, total, left) = check_transactions_lem (h + 1) txs b w in
    let b₁ = (check_transactions txs (h + 1) b).1 in
    let (due, sent', early', late, total') = notify_confs-Splits (h + 1) b₁.conf_heap in
    let clients = clients_of txs b.conf_notifications in
    let entries =
      After-weigh h (map (entry_at (h + 1)) clients)
        (After-entries h clients (clients_of-InRange (h + 1) txs b.conf_notifications w)) in
    let fresh = weigh-After h due (
      omega (arith, After-weigh h b.conf_heap a, entries, total (reached h), total' (reached h))) in
    (
      now ++ due,
      rw (sent, sent', awaited_now h due fresh early') (map-append now due),
      Due-append (h + 1) now due early early',
      late,
      (λ f. omega (arith, weigh-append f now due, total f, total' f)),
      left,
    )

-- From a heap whose entries are all above a height, when every registered client wants at least one
-- confirmation, and the height of the last block with what a client wants is at most 2 ^ 32: the
-- next blocks, of any transactions, send every client, of the heap or of a transaction in them, the
-- height of its last confirmation, if they reach it, as often as it waits, and nothing else. Those
-- that they do not reach are on the heap, and clients of other transactions stay registered.
pub connect_blocks-awaited :
    (blocks : List (List (List ℕ))) (height : ℕ) (b : BtcdNotifier)
    → All (λ e. height < e.trigger_height) b.conf_heap
    → IsWanted (height + length blocks) b.conf_notifications
    → (due : List ConfEntry) × ((connect_blocks blocks height b).0 ≡ map awaited due)
      × All (λ e. e.trigger_height ≤ height + length blocks) due
      × All
          (λ e. height + length blocks < e.trigger_height)
          (connect_blocks blocks height b).1.conf_heap
      × ((f : ConfEntry → ℕ)
          → weigh f due + weigh f (connect_blocks blocks height b).1.conf_heap
            ≡ weigh f (confirmations blocks height b.conf_notifications) + weigh f b.conf_heap)
      × ((connect_blocks blocks height b).1.conf_notifications
          ≡ left_after blocks b.conf_notifications)
unfolding connect_blocks confirmations left_after weigh
connect_blocks-awaited [] height b a w =
    ([], refl, tt, rw (add_zero height) a, (λ f. omega arith), refl)
  where
    add_zero : (n : ℕ) → n + 0 ≡ n
    add_zero n = omega arith
connect_blocks-awaited (txs ∷ blocks) height b a w =
    let n = b.conf_notifications in
    let first : height + 1 ≤ height + suc (length blocks) = omega arith in
    let sum : height + 1 + length blocks ≡ height + suc (length blocks) = omega arith in
    let wanted = IsWanted-lower (height + 1) (height + suc (length blocks)) n first w in
    let (due, sent, early, late, total, left) = connect_block_lem height txs b a wanted in
    let b₁ = (connect_block txs (height + 1) b).1 in
    let w₁ : IsWanted (height + 1 + length blocks) b₁.conf_notifications =
      rw (sum, left) (without_all-IsWanted (height + suc (length blocks)) txs n w) in
    let (due', sent', early', late', total', left') =
      connect_blocks-awaited blocks (height + 1) b₁ late w₁ in
    let later = λ (f : ConfEntry → ℕ).
      ap (λ (m : Registered). weigh f (confirmations blocks (height + 1) m)) left in
    (
      due ++ due',
      rw (sent, sent') (map-append due due'),
      Due-append (height + suc (length blocks)) due due'
          (Due-later (height + 1) (height + suc (length blocks)) due first early)
          (rw (sum) at early'),
      rw (sum) at late',
      (λ f. omega (
        arith,
        weigh-append f due due',
        weigh-append f (map (entry_at (height + 1)) (clients_of txs n))
            (confirmations blocks (height + 1) (without_all txs n)),
        total f,
        total' f,
        later f,
      )),
      left' ∙ ap (left_after blocks) left,
    )
