-- ===== src/Elkrem/Tree.antt =====
-- The tree of hashes that elkrem/elkrem.go describes: a reference definition of its sequence, and
-- the descent of `descend` to any place of it.
use native.Mathlib.Nat.{pow-suc}
use native.Mathlib.Decide.{dec_lt}
use lnd_cc.Prelude.{
  ℕ, zero, suc, ◌+◌, ◌-◌, ◌^◌, ◌≤◌, ◌<◌, ◌≡◌, refl, ◌∙◌, some, List, [], ◌∷◌, ◌++◌, length,
  length-append, get_elem?, get_elem?-append_left, get_elem?-append_right, arith,
}
use lnd_cc.Elkrem.{left_sha, right_sha, descend_loop, shl_one, sub64}

module _ (double_sha256 : List ℕ → List ℕ) where
  -- The hashes of a subtree of height `h` with the root hash `sha`, in the order in which they are
  -- revealed: those below the left child, those below the right child, the root.
  unfoldable pub post_order : ℕ → List ℕ → List (List ℕ)
  post_order zero sha = sha ∷ []
  post_order (suc h) sha =
      post_order h (left_sha double_sha256 sha)
      ++ (post_order h (right_sha double_sha256 sha) ++ sha ∷ [])

  pub length-post_order : (h : ℕ) (sha : List ℕ) → length (post_order h sha) + 1 ≡ 2 ^ suc h
  unfolding post_order
  length-post_order zero sha = refl
  length-post_order (suc h) sha = omega (
    arith,
    length-append (post_order h (left_sha double_sha256 sha))
        (post_order h (right_sha double_sha256 sha) ++ sha ∷ []),
    length-append (post_order h (right_sha double_sha256 sha)) (sha ∷ []),
    length-post_order h (left_sha double_sha256 sha),
    length-post_order h (right_sha double_sha256 sha),
    pow-suc 2 (suc h),
  )

  -- One round of the loop at a height above 0.
  loop_left :
      (w i h : ℕ) (sha : List ℕ)
      → w < i
      → w ≤ sub64 i (shl_one (suc h))
      → descend_loop double_sha256 w i (suc h) sha
        ≡ descend_loop double_sha256 w (sub64 i (shl_one (suc h))) h (left_sha double_sha256 sha)
  unfolding descend_loop
  loop_left w i h sha p q = ground arith

  loop_right :
      (w i h : ℕ) (sha : List ℕ)
      → w < i
      → sub64 i (shl_one (suc h)) < w
      → descend_loop double_sha256 w i (suc h) sha
        ≡ descend_loop double_sha256 w (i - 1) h (right_sha double_sha256 sha)
  unfolding descend_loop
  loop_right w i h sha p q = ground arith

  loop_here : (i h : ℕ) (sha : List ℕ) → descend_loop double_sha256 i i h sha ≡ (i, sha)
  unfolding descend_loop
  loop_here i zero sha = ground arith
  loop_here i (suc h) sha = ground arith

  -- The step to the left does not wrap in a subtree whose indices are below 2 ^ 63.
  sub64-shl_one : (i n h : ℕ) → n + 1 ≡ 2 ^ h → n < i → i < 2 ^ 63 → sub64 i (shl_one h) + n + 1 ≡ i
  sub64-shl_one i n h e p q = rw (← e) (omega arith)

  -- A subtree of height h + 1 has as many hashes below its left child as below its right one.
  sizes :
      (h : ℕ) (sha : List ℕ)
      → (length (post_order h (left_sha double_sha256 sha)) + 1 ≡ 2 ^ suc h)
        × (length (post_order h (right_sha double_sha256 sha)) + 1 ≡ 2 ^ suc h)
        × (length (post_order (suc h) sha)
            ≡ length (post_order h (left_sha double_sha256 sha))
              + length (post_order h (right_sha double_sha256 sha))
              + 1)
  unfolding post_order
  sizes h sha = (
    length-post_order h (left_sha double_sha256 sha),
    length-post_order h (right_sha double_sha256 sha),
    omega (
      arith,
      length-append (post_order h (left_sha double_sha256 sha))
          (post_order h (right_sha double_sha256 sha) ++ sha ∷ []),
      length-append (post_order h (right_sha double_sha256 sha)) (sha ∷ []),
    ),
  )

  -- The child's index, by the code's subtraction.
  left_index :
      (h start i : ℕ) (sha : List ℕ)
      → start + length (post_order (suc h) sha) ≡ i + 1
      → i < 2 ^ 63
      → start + length (post_order h (left_sha double_sha256 sha)) ≡ sub64 i (shl_one (suc h)) + 1
  left_index h start i sha e b = omega (
    arith,
    sizes h sha,
    sub64-shl_one i (length (post_order h (left_sha double_sha256 sha))) (suc h) (sizes h sha).0
        (omega (arith, sizes h sha)) b,
  )

  abbrev Reaches : ℕ → ℕ → ℕ → ℕ → List ℕ → Type 0
  Reaches h start i j sha =
      (x : List ℕ) × (get_elem? (post_order h sha) j ≡ some x)
      × (descend_loop double_sha256 (start + j) i h sha ≡ (start + j, x))

  from_left :
      (h start i j : ℕ) (sha : List ℕ)
      → start + length (post_order (suc h) sha) ≡ i + 1
      → i < 2 ^ 63
      → j < length (post_order h (left_sha double_sha256 sha))
      → Reaches h start (sub64 i (shl_one (suc h))) j (left_sha double_sha256 sha)
      → Reaches (suc h) start i j sha
  unfolding post_order
  from_left h start i j sha e b p (x, at, run) = (
    x,
    get_elem?-append_left (post_order h (left_sha double_sha256 sha)) _ j p ∙ at,
    loop_left (start + j) i h sha (omega (arith, sizes h sha))
          (omega (arith, left_index h start i sha e b))
        ∙ run,
  )

  from_right :
      (h start i j k : ℕ) (sha : List ℕ)
      → start + length (post_order (suc h) sha) ≡ i + 1
      → i < 2 ^ 63
      → k < length (post_order h (right_sha double_sha256 sha))
      → j ≡ length (post_order h (left_sha double_sha256 sha)) + k
      → Reaches h
          (start + length (post_order h (left_sha double_sha256 sha)))
          (i - 1)
          k
          (right_sha double_sha256 sha)
      → Reaches (suc h) start i j sha
  unfolding post_order
  from_right h start i j k sha e b p q (x, at, run) = (
    x,
    get_elem?-append_right (post_order h (left_sha double_sha256 sha)) _ j k q
        ∙ get_elem?-append_left (post_order h (right_sha double_sha256 sha)) _ k p
        ∙ at,
    loop_right (start + j) i h sha (omega (arith, sizes h sha))
          (omega (arith, left_index h start i sha e b))
        ∙ (let e' : start + j ≡ start + length (post_order h (left_sha double_sha256 sha)) + k =
              omega arith in
            rw e' run),
  )

  at_root :
      (h start i j : ℕ) (sha : List ℕ)
      → start + length (post_order (suc h) sha) ≡ i + 1
      → j
        ≡ length (post_order h (left_sha double_sha256 sha))
          + length (post_order h (right_sha double_sha256 sha))
      → Reaches (suc h) start i j sha
  unfolding post_order
  at_root h start i j sha e q = (
    sha,
    get_elem?-append_right (post_order h (left_sha double_sha256 sha)) _ j _ q
        ∙ get_elem?-append_right (post_order h (right_sha double_sha256 sha)) _ _ 0 (omega arith),
    (let e' : i ≡ start + j = omega (arith, sizes h sha) in
        rw e' (loop_here (start + j) (suc h) sha)),
  )

  -- From the root of a subtree, whose indices start at `start`, the loop comes to the `j`-th of
  -- them, with the `j`-th hash.
  pub descend_loop-post_order :
      (h start i j : ℕ) (sha : List ℕ)
      → start + length (post_order h sha) ≡ i + 1
      → i < 2 ^ 63
      → j < length (post_order h sha)
      → Reaches h start i j sha
  unfolding post_order
  descend_loop-post_order zero start i zero sha e b p =
      let e' : i ≡ start + 0 = omega arith in (sha, refl, rw e' (loop_here (start + 0) 0 sha))
  descend_loop-post_order zero start i (suc j) sha e b p = absurd (omega arith)
  descend_loop-post_order (suc h) start i j sha e b p =
      elim (dec_lt j (length (post_order h (left_sha double_sha256 sha)))) [
        | yes q ↦ from_left h start i j sha e b q (
            descend_loop-post_order h start _ j (left_sha double_sha256 sha)
              (left_index h start i sha e b)
              (omega (arith, left_index h start i sha e b, sizes h sha)) q)
        | no q ↦ elim (dec_lt (j - m) (length (post_order h (right_sha double_sha256 sha)))) [
          | yes r ↦ from_right h start i j (j - m) sha e b r (omega arith) (
              descend_loop-post_order h (start + m) (i - 1) (j - m) (right_sha double_sha256 sha)
                (omega (arith, sizes h sha)) (omega arith) r)
          | no r ↦ at_root h start i j sha e (omega (arith, sizes h sha))
        ]
      ]
    where
      m : ℕ
      m = length (post_order h (left_sha double_sha256 sha))
