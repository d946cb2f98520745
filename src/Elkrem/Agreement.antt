-- ===== src/Elkrem/Agreement.antt =====
-- The sender and the receiver of elkrem/elkrem.go agree: what ElkremSender.AtIndex generates in
-- turn, AddNext accepts, and ElkremReceiver.AtIndex then gives what the sender would.
use native.Mathlib.Nat.{two-pow-succ, one-le-pow}
use lnd_cc.Prelude.{
  ℕ, zero, suc, ◌+◌, ◌-◌, ◌^◌, ◌≤◌, ◌<◌, ◌≡◌, ◌≢◌, refl, sym, ap, ◌∙◌, some, List, [], ◌∷◌, ◌++◌,
  length-take, take, drop, take-append-drop, get_elem?, get_elem?-take, arith, Result, ok, err,
  ◌>>=◌, >>=-eq-ok, bytes_equal_refl,
}
use lnd_cc.Elkrem.{
  ElkremNode, Error, left_sha, right_sha, sender_at_index, add_next, receiver_at_index, max_index,
  max_height,
}
use lnd_cc.Elkrem.Tree.{post_order, length-post_order, descend_loop-post_order}
use lnd_cc.Elkrem.Receiver.{receive}
use lnd_cc.Elkrem.Lookup.{at_index-receive, descend_ok}

-- No merge is pending at heights up to `h`.
abbrev Ready : ℕ → List ElkremNode → Type 0
Ready h [] = Unit
Ready h (t ∷ []) = h ≤ t.h
Ready h (t ∷ m ∷ rest) = (h ≤ t.h) × (m.h ≢ t.h)

abbrev next : List ElkremNode → ℕ
next [] = 0
next (t ∷ rest) = t.i + 1

-- The node of a finished subtree of height `h` whose indices start at `start`.
abbrev node : ℕ → ℕ → List ℕ → ElkremNode
node h start sha = record { h = h; i = start + 2 ^ suc h - 2; sha = sha }

same_elem : {x y : List ℕ} → some y ≡ some x → y ≡ x
same_elem e = cc

take-suc {ℓ} :
    {A : Type ℓ} (n : ℕ) (xs : List A) (x : A)
    → get_elem? xs n ≡ some x
    → take (suc n) xs ≡ take n xs ++ x ∷ []
take-suc zero [] x e = cc
take-suc zero (y ∷ ys) x e = cc
take-suc (suc n) [] x e = cc
take-suc (suc n) (y ∷ ys) x e = rw (take-suc n ys x e)

bind_ok : (r : Result Error (List ElkremNode)) → (r >>= λ t. ok t) ≡ r
bind_ok (ok t) = refl
bind_ok (err e) = refl

module _ (double_sha256 : List ℕ → List ℕ) where
  after_step :
      (r : Result Error (List ElkremNode)) (xs ys : List (List ℕ))
      → ((t : List ElkremNode)
          → receive double_sha256 t (xs ++ ys)
            ≡ (receive double_sha256 t xs >>= λ u. receive double_sha256 u ys))
      → (r >>= λ t. receive double_sha256 t (xs ++ ys))
        ≡ ((r >>= λ t. receive double_sha256 t xs) >>= λ u. receive double_sha256 u ys)
  after_step (ok t) xs ys ih = ih t
  after_step (err e) xs ys ih = refl

  receive-append :
      (s : List ElkremNode) (xs ys : List (List ℕ))
      → receive double_sha256 s (xs ++ ys)
        ≡ (receive double_sha256 s xs >>= λ t. receive double_sha256 t ys)
  unfolding receive
  receive-append s [] ys = refl
  receive-append s (x ∷ xs) ys =
      after_step (add_next double_sha256 s x) xs ys (λ t. receive-append t xs ys)

  add_leaf :
      (s : List ElkremNode) (sha : List ℕ)
      → Ready 0 s
      → next s < 2 ^ 63
      → add_next double_sha256 s sha ≡ ok (node 0 (next s) sha ∷ s)
  unfolding add_next
  add_leaf [] sha r b = refl
  add_leaf (t ∷ []) sha r b = ground arith
  add_leaf (t ∷ m ∷ rest) sha r b = ground arith

  add_parent :
      (h start : ℕ) (s : List ElkremNode) (sha : List ℕ)
      → h < 255
      → start + 2 ^ suc (suc h) < 2 ^ 63
      → add_next double_sha256
          (node h (start + 2 ^ suc h - 1) (right_sha double_sha256 sha)
            ∷ node h start (left_sha double_sha256 sha)
            ∷ s)
          sha
        ≡ ok (node (suc h) start sha ∷ s)
  unfolding add_next
  add_parent h start s sha b c =
      let twice = two-pow-succ (suc h) in
      let one = one-le-pow h 2 (omega arith) in
      let once = two-pow-succ h in
      ground (
        arith,
        twice,
        one,
        once,
        bytes_equal_refl (left_sha double_sha256 sha),
        bytes_equal_refl (right_sha double_sha256 sha),
      )

  receive_last :
      (s t : List ElkremNode) (xs : List (List ℕ)) (sha : List ℕ)
      → receive double_sha256 s xs ≡ ok t
      → receive double_sha256 s (xs ++ sha ∷ []) ≡ add_next double_sha256 t sha
  receive_last s t xs sha e =
      rw (receive-append s xs (sha ∷ []), e)
        (unfold receive in bind_ok (add_next double_sha256 t sha))

  Ready-left : (h : ℕ) (s : List ElkremNode) → Ready (suc h) s → Ready h s
  Ready-left h [] r = tt
  Ready-left h (t ∷ []) r = omega arith
  Ready-left h (t ∷ m ∷ rest) r = (omega (arith, r.0), r.1)

  Ready-right :
      (h start : ℕ) (s : List ElkremNode) (sha : List ℕ)
      → Ready (suc h) s
      → Ready h (node h start sha ∷ s)
  Ready-right h start [] sha r = omega arith
  Ready-right h start (t ∷ []) sha r = (omega arith, omega arith)
  Ready-right h start (t ∷ m ∷ rest) sha r = (omega arith, omega (arith, r.0))

  receive_leaf :
      (s : List ElkremNode) (sha : List ℕ)
      → Ready 0 s
      → next s < 2 ^ 63
      → receive double_sha256 s (post_order double_sha256 0 sha) ≡ ok (node 0 (next s) sha ∷ s)
  unfolding post_order receive
  receive_leaf s sha r c = bind_ok (add_next double_sha256 s sha) ∙ add_leaf s sha r c

  receive_children :
      (h : ℕ) (s u : List ElkremNode) (sha : List ℕ)
      → receive double_sha256 s (post_order double_sha256 h (left_sha double_sha256 sha)) ≡ ok u
      → (t : List ElkremNode)
      → receive double_sha256 u (post_order double_sha256 h (right_sha double_sha256 sha)) ≡ ok t
      → receive double_sha256 s (post_order double_sha256 (suc h) sha)
        ≡ add_next double_sha256 t sha
  unfolding post_order
  receive_children h s u sha p t q = rw (receive-append s, p) (receive_last u t _ sha q)

  -- A whole subtree is accepted, and leaves its root on the stack.
  receive-post_order :
      (h : ℕ) (s : List ElkremNode) (sha : List ℕ)
      → Ready h s
      → h < 256
      → next s + 2 ^ suc h < 2 ^ 63
      → receive double_sha256 s (post_order double_sha256 h sha) ≡ ok (node h (next s) sha ∷ s)
  receive-post_order zero s sha r b c = receive_leaf s sha r (omega arith)
  receive-post_order (suc h) s sha r b c =
      receive_children h s (node h (next s) (left_sha double_sha256 sha) ∷ s) sha
        (receive-post_order h s (left_sha double_sha256 sha) (Ready-left h s r) (omega arith)
          (omega (arith, twice)))
        (node h (next s + 2 ^ suc h - 1) (right_sha double_sha256 sha)
          ∷ node h (next s) (left_sha double_sha256 sha)
          ∷ s)
        (rw place at (
          receive-post_order h (node h (next s) (left_sha double_sha256 sha) ∷ s)
            (right_sha double_sha256 sha) (Ready-right h (next s) s (left_sha double_sha256 sha) r)
            (omega arith) (omega (arith, twice, place))))
      ∙ add_parent h (next s) s sha (omega arith) c
    where
      twice : 2 ^ suc (suc h) ≡ 2 ^ suc h + 2 ^ suc h
      twice = two-pow-succ (suc h)

      place : next s + 2 ^ suc h - 2 + 1 ≡ next s + 2 ^ suc h - 1
      place = omega (arith, two-pow-succ h, one-le-pow h 2 (omega arith))

  -- What the sender generates is the sequence of the whole tree.
  pub sender_at_index-post_order :
      (root : List ℕ) (w : ℕ)
      → w ≤ max_index
      → (x : List ℕ) × (get_elem? (post_order double_sha256 max_height root) w ≡ some x)
        × (sender_at_index double_sha256 root w ≡ ok x)
  unfolding sender_at_index
  sender_at_index-post_order root w p =
      let (x, at, run) =
        descend_loop-post_order double_sha256 max_height 0 max_index w root
          (omega (arith, length-post_order double_sha256 max_height root)) (omega arith)
          (omega (arith, length-post_order double_sha256 max_height root)) in
      (x, at, descend_ok double_sha256 w (0 + w) max_index max_height root x (omega arith) run)

  -- The sender's first `n` hashes, generated one by one.
  unfoldable pub revealed : List ℕ → ℕ → Result Error (List (List ℕ))
  revealed root zero = ok []
  revealed root (suc n) = do
    xs ← revealed root n
    x ← sender_at_index double_sha256 root n
    ok (xs ++ x ∷ [])

  revealed-take :
      (root : List ℕ) (n : ℕ)
      → n ≤ max_index + 1
      → revealed root n ≡ ok (take n (post_order double_sha256 max_height root))
  unfolding revealed
  revealed-take root zero p = refl
  revealed-take root (suc n) p =
      let (x, at, sent) = sender_at_index-post_order root n (omega arith) in
      rw (revealed-take root n (omega arith), sent)
        (ap ok (sym (take-suc n (post_order double_sha256 max_height root) x at)))

  receive-take :
      (root : List ℕ) (n : ℕ)
      → (s : List ElkremNode) × (receive double_sha256 []
            (take n (post_order double_sha256 max_height root))
          ≡ ok s)
  receive-take root n =
      let P = post_order double_sha256 max_height root in
      let whole : receive double_sha256 [] (take n P ++ drop n P)
          ≡ ok (node max_height 0 root ∷ []) =
        rw (take-append-drop n P)
          (receive-post_order max_height [] root tt (omega arith) (omega arith)) in
      let (s, front, back) =
        >>=-eq-ok (receive double_sha256 [] (take n P)) (λ t. receive double_sha256 t (drop n P))
          (rw (receive-append [] (take n P) (drop n P)) at whole) in
      (s, front)

  -- The sender can generate its first `n` hashes, for every `n` up to 2 ^ 48 - 1; an empty
  -- receiver accepts all of them in turn; and for each of these indices the receiver then
  -- generates the hash that the sender generates.
  pub receiver-sender :
      (root : List ℕ) (n : ℕ)
      → n ≤ max_index + 1
      → (xs : List (List ℕ)) × (s : List ElkremNode) × (revealed root n ≡ ok xs)
        × (receive double_sha256 [] xs ≡ ok s)
        × ((w : ℕ)
            → w < n
            → (x : List ℕ) × (sender_at_index double_sha256 root w ≡ ok x)
              × (receiver_at_index double_sha256 s w ≡ ok x))
  receiver-sender root n p =
      let P = post_order double_sha256 max_height root in
      let (s, accepted) = receive-take root n in
      (
        take n P,
        s,
        revealed-take root n p,
        accepted,
        λ w q.
            let (x, at, sent) = sender_at_index-post_order root w (omega arith) in
            let size = length-take n P in
            let total = length-post_order double_sha256 max_height root in
            let (y, at', got) =
              at_index-receive double_sha256 (take n P) s w (omega (arith, size, total)) accepted
                (omega (arith, size, total)) in
            (x, sent, got ∙ ap ok (same_elem (sym at' ∙ get_elem?-take n P w q ∙ at))),
      )
