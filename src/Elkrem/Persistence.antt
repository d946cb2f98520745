-- ===== src/Elkrem/Persistence.antt =====
-- Whatever state an ElkremReceiver (elkrem/elkrem.go) reaches, elkrem/serdes.go saves and restores.
use native.Mathlib.Nat.{two-pow-succ, one-le-pow}
use mathlib.Core.Path.{subst}
use lnd_cc.Prelude.{
  ℕ, ◌+◌, ◌%◌, ◌^◌, ◌≤◌, ◌≡◌, ap, inl, inr, List, [], ◌∷◌, ◌++◌, ◌==◌, length, arith, ok, >>=-eq-ok,
  All, Bool-cases,
}
use lnd_cc.Elkrem.{ElkremNode, add_next, max_index}
use lnd_cc.Elkrem.Receiver.{contents, length-contents, receive, receive-contents, IsIndexed}
use lnd_cc.Elkrem.Storage.{IsStacked, Rising, receive-IsStacked, length-receive, below_exponent}
use lnd_cc.Elkrem.Serdes.{to_bytes, from_bytes}
use lnd_cc.Elkrem.RoundTrip.{IsNode, IsOrdered, from_bytes-to_bytes}

abbrev IsSha : List ℕ → Type 0
IsSha sha = length sha ≡ 32

abbrev HasShas : List ElkremNode → Type 0
HasShas [] = Unit
HasShas (n ∷ rest) = IsSha n.sha × HasShas rest

HasShas-eq : (t s : List ElkremNode) → t ≡ s → HasShas t → HasShas s
HasShas-eq t s e x = subst (λ u. HasShas u) e x

Rising-IsOrdered :
    (n : ElkremNode) (rest : List ElkremNode) → Rising n.h rest → IsOrdered (n ∷ rest)
Rising-IsOrdered n [] r = (tt, tt)
Rising-IsOrdered n (m ∷ rest) r = (r.0, Rising-IsOrdered m rest (lower rest r.1))
  where
    lower : (l : List ElkremNode) → Rising (m.h + 1) l → Rising m.h l
    lower [] x = tt
    lower (k ∷ l) x = (omega (arith, x.0), x.1)

IsStacked-IsOrdered : (s : List ElkremNode) → IsStacked s → IsOrdered s
IsStacked-IsOrdered [] x = tt
IsStacked-IsOrdered (n ∷ rest) x = Rising-IsOrdered n rest x

module _ (double_sha256 : List ℕ → List ℕ) where
  add_next-HasShas :
      (s : List ElkremNode) (sha : List ℕ) (s' : List ElkremNode)
      → HasShas s
      → IsSha sha
      → add_next double_sha256 s sha ≡ ok s'
      → HasShas s'
  unfolding add_next
  add_next-HasShas [] sha s' x y e =
      HasShas-eq (record { h = 0; i = 0; sha = sha } ∷ []) s' (cc) (y, tt)
  add_next-HasShas (n ∷ []) sha s' x y e =
      HasShas-eq (record { h = 0; i = (n.i + 1) % 2 ^ 64; sha = sha } ∷ n ∷ []) s' (cc) (y, x)
  add_next-HasShas (n ∷ m ∷ rest) sha s' x y e = elim (Bool-cases (m.h == n.h)) [
    | inr differ ↦
        HasShas-eq (record { h = 0; i = (n.i + 1) % 2 ^ 64; sha = sha } ∷ n ∷ m ∷ rest) s'
          (ground arith) (y, x)
    | inl same ↦
        HasShas-eq (record { h = (n.h + 1) % 256; i = (n.i + 1) % 2 ^ 64; sha = sha } ∷ rest) s'
          (ground arith) (y, x.1.1)
  ]

  receive-HasShas :
      (s : List ElkremNode) (xs : List (List ℕ)) (s' : List ElkremNode)
      → HasShas s
      → All IsSha xs
      → receive double_sha256 s xs ≡ ok s'
      → HasShas s'
  unfolding receive
  receive-HasShas s [] s' x y e = HasShas-eq s s' (cc) x
  receive-HasShas s (z ∷ zs) s' x (y, ys) e =
      let (t, step, more) =
        >>=-eq-ok (add_next double_sha256 s z) (λ t. receive double_sha256 t zs) e in
      receive-HasShas t zs s' (add_next-HasShas s z t x y step) ys more

  All-IsNode :
      (s : List ElkremNode)
      → IsIndexed double_sha256 s
      → HasShas s
      → length (contents double_sha256 s) ≤ max_index + 1
      → All IsNode s
  All-IsNode [] x y b = tt
  All-IsNode (n ∷ rest) x y b =
      let size = length-contents double_sha256 n rest in
      let one = one-le-pow n.h 2 (omega arith) in
      let double = two-pow-succ n.h in
      (
        (
          omega (arith, below_exponent n.h 48 (omega (arith, size, one, double))),
          omega (arith, x.0),
          y.0,
        ),
        All-IsNode rest x.1 y.1 (omega (arith, size, one, double)),
      )

  -- The stack that an empty receiver has after any accepted sequence of up to 2 ^ 48 - 1 hashes of
  -- 32 bytes is written by ToBytes without an error, and ElkremReceiverFromBytes restores it.
  pub restore-receive :
      (xs : List (List ℕ)) (s : List ElkremNode)
      → length xs ≤ max_index + 1
      → All IsSha xs
      → receive double_sha256 [] xs ≡ ok s
      → (bs : List ℕ) × (to_bytes s ≡ ok bs) × (from_bytes bs ≡ ok s)
  restore-receive xs s b shas e =
      let (same, indexed) =
        receive-contents double_sha256 [] xs tt (unfold contents in omega arith) e in
      from_bytes-to_bytes s (All-IsNode s indexed (receive-HasShas [] xs s tt shas e) (total same))
        (IsStacked-IsOrdered s (receive-IsStacked double_sha256 [] xs s tt e))
        (length-receive double_sha256 xs s b e)
    where
      total :
          contents double_sha256 s ≡ contents double_sha256 [] ++ xs
          → length (contents double_sha256 s) ≤ max_index + 1
      total same = unfold contents in omega (arith, ap length same)
