-- ===== src/Elkrem/Storage.antt =====
-- How much an ElkremReceiver (elkrem/elkrem.go) stores: the heights fall from the bottom of the
-- stack to its top, so that the number of its nodes is logarithmic.
use native.Mathlib.Decide.{dec_lt}
use native.Mathlib.Nat.{two-pow-succ, one-le-pow, pow-le-pow_right}
use mathlib.Core.Path.{subst}
use lnd_cc.Prelude.{
  ℕ, suc, ◌+◌, ◌%◌, ◌^◌, ◌≤◌, ◌<◌, ◌≡◌, ap, inl, inr, List, [], ◌∷◌, ◌++◌, ◌==◌, length, arith, ok,
  >>=-eq-ok, Bool-cases,
}
use lnd_cc.Elkrem.{ElkremNode, add_next, max_index, max_height}
use lnd_cc.Elkrem.Receiver.{contents, length-contents, receive, receive-contents}

-- Heights of at least `k`, each above the one nearer to the top.
abbrev pub Rising : ℕ → List ElkremNode → Type 0
Rising k [] = Unit
Rising k (n ∷ rest) = (k ≤ n.h) × Rising (n.h + 1) rest

-- Only the two topmost nodes may have one height.
abbrev pub IsStacked : List ElkremNode → Type 0
IsStacked [] = Unit
IsStacked (n ∷ rest) = Rising n.h rest

Rising-weaken : (k j : ℕ) (s : List ElkremNode) → j ≤ k → Rising k s → Rising j s
Rising-weaken k j [] p r = tt
Rising-weaken k j (n ∷ rest) p r = (omega (arith, r.0), r.1)

IsStacked-eq : (t s : List ElkremNode) → t ≡ s → IsStacked t → IsStacked s
IsStacked-eq t s e x = subst (λ u. IsStacked u) e x

pub below_exponent : (a b : ℕ) → 2 ^ a < 2 ^ b → a < b
below_exponent a b p = elim (dec_lt a b) [ yes q ↦ q | no q ↦ absurd (omega (arith, grows q)) ]
  where
    grows : ¬ (a < b) → 2 ^ b ≤ 2 ^ a
    grows q = pow-le-pow_right (omega arith) (omega arith)

module _ (double_sha256 : List ℕ → List ℕ) where
  add_next-IsStacked :
      (s : List ElkremNode) (sha : List ℕ) (s' : List ElkremNode)
      → IsStacked s
      → add_next double_sha256 s sha ≡ ok s'
      → IsStacked s'
  unfolding add_next
  add_next-IsStacked [] sha s' x e =
      IsStacked-eq (record { h = 0; i = 0; sha = sha } ∷ []) s' (cc) tt
  add_next-IsStacked (n ∷ []) sha s' x e =
      IsStacked-eq (record { h = 0; i = (n.i + 1) % 2 ^ 64; sha = sha } ∷ n ∷ []) s' (cc)
        (omega arith)
  add_next-IsStacked (n ∷ m ∷ rest) sha s' x e = elim (Bool-cases (m.h == n.h)) [
    | inr differ ↦
        IsStacked-eq (record { h = 0; i = (n.i + 1) % 2 ^ 64; sha = sha } ∷ n ∷ m ∷ rest) s'
          (ground arith) (omega arith, (ground (arith, x.0), x.1))
    | inl same ↦
        IsStacked-eq (record { h = (n.h + 1) % 256; i = (n.i + 1) % 2 ^ 64; sha = sha } ∷ rest) s'
          (ground arith) (Rising-weaken (m.h + 1) ((n.h + 1) % 256) rest (ground arith) x.1)
  ]

  pub receive-IsStacked :
      (s : List ElkremNode) (xs : List (List ℕ)) (s' : List ElkremNode)
      → IsStacked s
      → receive double_sha256 s xs ≡ ok s'
      → IsStacked s'
  unfolding receive
  receive-IsStacked s [] s' x e = IsStacked-eq s s' (cc) x
  receive-IsStacked s (y ∷ ys) s' x e =
      let (t, step, more) =
        >>=-eq-ok (add_next double_sha256 s y) (λ t. receive double_sha256 t ys) e in
      receive-IsStacked t ys s' (add_next-IsStacked s y t x step) more

  size_ge :
      (k : ℕ) (s : List ElkremNode)
      → Rising k s
      → 2 ^ (k + length s) ≤ length (contents double_sha256 s) + 2 ^ k
  size_ge k [] r = let e : k + 0 ≡ k = omega arith in rw e (omega arith)
  size_ge k (n ∷ rest) r =
      let e : k + suc (length rest) ≡ suc k + length rest = omega arith in
      rw e (
        omega (
          arith,
          size_ge (suc k) rest (Rising-weaken (n.h + 1) (suc k) rest (omega (arith, r.0)) r.1),
          length-contents double_sha256 n rest,
          two-pow-succ k,
          two-pow-succ n.h,
          pow-le-pow_right {n = 2} (omega arith) {i = k} {j = n.h} r.0,
          one-le-pow k 2 (omega arith),
        ))

  -- A receiver that has accepted any sequence of up to 2 ^ 48 - 1 hashes stores at most
  -- `max_height + 1` = 48 of them.
  pub length-receive :
      (xs : List (List ℕ)) (s : List ElkremNode)
      → length xs ≤ max_index + 1
      → receive double_sha256 [] xs ≡ ok s
      → length s ≤ max_height + 1
  length-receive xs s b e =
      let (same, indexed) =
        receive-contents double_sha256 [] xs tt (unfold contents in omega arith) e in
      bounded s (receive-IsStacked [] xs s tt e) (total same)
    where
      total :
          contents double_sha256 s ≡ contents double_sha256 [] ++ xs
          → length (contents double_sha256 s) ≤ max_index + 1
      total same = unfold contents in omega (arith, ap length same)

      bounded :
          (t : List ElkremNode)
          → IsStacked t
          → length (contents double_sha256 t) ≤ max_index + 1
          → length t ≤ max_height + 1
      bounded [] x c = omega arith
      bounded (n ∷ rest) x c =
          let e : 0 + length rest ≡ length rest = omega arith in
          omega (
            arith,
            below_exponent (length rest) 48 (
                omega (
                  arith,
                  rw e at (size_ge 0 rest (Rising-weaken n.h 0 rest (omega arith) x)),
                  length-contents double_sha256 n rest,
                  two-pow-succ n.h,
                  one-le-pow n.h 2 (omega arith),
                )),
          )
