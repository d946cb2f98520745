-- ===== src/Elkrem/Receiver.antt =====
-- What ElkremReceiver (elkrem/elkrem.go) keeps: the stack stands for all the hashes that it was
-- given, and each of them can be read back.
use native.Mathlib.Nat.{pow-le-pow_right}
use native.Mathlib.Decide.{dec_lt}
use mathlib.Core.Path.{subst}
use lnd_cc.Prelude.{
  ℕ, suc, ◌+◌, ◌%◌, ◌^◌, ◌≤◌, ◌<◌, ◌≡◌, refl, sym, ap, inl, inr, List, [], ◌∷◌, ◌++◌, ◌==◌, length,
  length-append, arith, Result, ok, ◌>>=◌, >>=-eq-ok, eq_of_bytes_equal, append-nil, append_assoc,
  Bool-cases,
}
use lnd_cc.Elkrem.{ElkremNode, Error, left_sha, right_sha, add_next}
use lnd_cc.Elkrem.Tree.{post_order, length-post_order}

-- A power of two below 2 ^ 63 has an exponent below 63.
pub exponent_lt : (h k n : ℕ) → n + 1 ≡ 2 ^ suc h → n + 1 < 2 ^ k → h < k
exponent_lt h k n e p = elim (dec_lt h k) [ yes q ↦ q | no q ↦ absurd (omega (arith, grows)) ]
  where
    grows : ¬ (h < k) → 2 ^ k ≤ 2 ^ suc h
    grows q = pow-le-pow_right (omega arith) (omega arith)

module _ (double_sha256 : List ℕ → List ℕ) where
  -- The hashes that a stack stands for, in the order in which they came.
  unfoldable pub contents : List ElkremNode → List (List ℕ)
  contents [] = []
  contents (n ∷ rest) = contents rest ++ post_order double_sha256 n.h n.sha

  -- Each node's index is the place of its hash.
  abbrev pub IsIndexed : List ElkremNode → Type 0
  IsIndexed [] = Unit
  IsIndexed (n ∷ rest) = (n.i + 1 ≡ length (contents (n ∷ rest))) × IsIndexed rest

  -- AddNext for each hash of a sequence.
  unfoldable pub receive : List ElkremNode → List (List ℕ) → Result Error (List ElkremNode)
  receive s [] = ok s
  receive s (x ∷ xs) = add_next double_sha256 s x >>= λ s'. receive s' xs

  pub length-contents :
      (n : ElkremNode) (rest : List ElkremNode)
      → length (contents (n ∷ rest)) + 1 ≡ length (contents rest) + 2 ^ suc n.h
  unfolding contents
  length-contents n rest = omega (
    arith,
    length-append (contents rest) (post_order double_sha256 n.h n.sha),
    length-post_order double_sha256 n.h n.sha,
  )

  contents-leaf :
      (i : ℕ) (sha : List ℕ) (s : List ElkremNode)
      → contents (record { h = 0; i = i; sha = sha } ∷ s) ≡ contents s ++ sha ∷ []
  unfolding contents
  contents-leaf i sha s = unfold post_order in refl

  contents-parent :
      (i : ℕ) (sha : List ℕ) (n m : ElkremNode) (rest : List ElkremNode)
      → m.h ≡ n.h
      → m.sha ≡ left_sha double_sha256 sha
      → n.sha ≡ right_sha double_sha256 sha
      → contents (record { h = suc n.h; i = i; sha = sha } ∷ rest)
        ≡ contents (n ∷ m ∷ rest) ++ sha ∷ []
  unfolding contents
  contents-parent i sha n m rest p q r = unfold post_order in rw (p, q, r) (simp append_assoc)

  -- What AddNext accepts, it adds to the end of the sequence, and it stays indexed.
  abbrev pub Grows : List ElkremNode → List ℕ → List ElkremNode → Type 0
  Grows s sha s' = (contents s' ≡ contents s ++ sha ∷ []) × IsIndexed s'

  leaf-Grows :
      (n : ElkremNode) (rest : List ElkremNode) (sha : List ℕ)
      → IsIndexed (n ∷ rest)
      → length (contents (n ∷ rest)) < 2 ^ 63
      → Grows (n ∷ rest) sha (record { h = 0; i = (n.i + 1) % 2 ^ 64; sha = sha } ∷ n ∷ rest)
  leaf-Grows n rest sha x b = (
    contents-leaf _ sha (n ∷ rest),
    (
      omega (
        arith,
        ap length (contents-leaf ((n.i + 1) % 2 ^ 64) sha (n ∷ rest)),
        length-append (contents (n ∷ rest)) (sha ∷ []),
        x.0,
      ),
      x,
    ),
  )

  parent-Grows :
      (n m : ElkremNode) (rest : List ElkremNode) (sha : List ℕ)
      → m.h ≡ n.h
      → m.sha ≡ left_sha double_sha256 sha
      → n.sha ≡ right_sha double_sha256 sha
      → IsIndexed (n ∷ m ∷ rest)
      → length (contents (n ∷ m ∷ rest)) < 2 ^ 63
      → Grows
          (n ∷ m ∷ rest)
          sha
          (record { h = (n.h + 1) % 256; i = (n.i + 1) % 2 ^ 64; sha = sha } ∷ rest)
  parent-Grows n m rest sha p q r x b =
      let small : (n.h + 1) % 256 ≡ suc n.h = omega (
        arith,
        exponent_lt n.h 64 (length (post_order double_sha256 n.h n.sha))
            (length-post_order double_sha256 n.h n.sha)
            (omega
              (arith, length-contents n (m ∷ rest), length-post_order double_sha256 n.h n.sha)),
      ) in
      let same : contents (record { h = (n.h + 1) % 256; i = (n.i + 1) % 2 ^ 64; sha = sha } ∷ rest)
          ≡ contents (n ∷ m ∷ rest) ++ sha ∷ [] =
        rw small (contents-parent _ sha n m rest p q r) in
      (
        same,
        (
          omega (arith, ap length same, length-append (contents (n ∷ m ∷ rest)) (sha ∷ []), x.0),
          x.1.1,
        ),
      )

  pub add_next-Grows :
      (s : List ElkremNode) (sha : List ℕ) {s' : List ElkremNode}
      → IsIndexed s
      → length (contents s) < 2 ^ 63
      → add_next double_sha256 s sha ≡ ok s'
      → Grows s sha s'
  unfolding add_next
  add_next-Grows [] sha x b e =
      subst (λ t. Grows [] sha t) (cc)
        (contents-leaf 0 sha [], (unfold contents post_order in refl, tt))
  add_next-Grows (n ∷ []) sha x b e =
      subst (λ t. Grows (n ∷ []) sha t) (cc) (leaf-Grows n [] sha x b)
  add_next-Grows (n ∷ m ∷ rest) sha x b e = elim (Bool-cases (m.h == n.h)) [
    | inr differ ↦
        subst (λ t. Grows (n ∷ m ∷ rest) sha t) (ground arith) (leaf-Grows n (m ∷ rest) sha x b)
    | inl same ↦
        subst (λ t. Grows (n ∷ m ∷ rest) sha t) (ground arith)
          (parent-Grows n m rest sha (ground arith)
            (eq_of_bytes_equal m.sha (left_sha double_sha256 sha) (ground arith))
            (eq_of_bytes_equal n.sha (right_sha double_sha256 sha) (ground arith)) x b)
  ]

  -- A sequence that the receiver accepts is what its stack stands for.
  pub receive-contents :
      (s : List ElkremNode) (xs : List (List ℕ)) {s' : List ElkremNode}
      → IsIndexed s
      → length (contents s) + length xs < 2 ^ 63
      → receive s xs ≡ ok s'
      → (contents s' ≡ contents s ++ xs) × IsIndexed s'
  unfolding receive
  receive-contents s [] {s'} x b e =
      subst (λ t. (contents t ≡ contents s ++ []) × IsIndexed t) (cc) (sym (append-nil _), x)
  receive-contents s (y ∷ xs) {s'} x b e =
      let (t, step, more) = >>=-eq-ok (add_next double_sha256 s y) (λ t. receive t xs) e in
      let (same, indexed) = add_next-Grows s y x (omega arith) step in
      let (all, last) =
        receive-contents t xs indexed
          (omega (arith, ap length same, length-append (contents s) (y ∷ []))) more in
      (rw (same, append_assoc) at all, last)
