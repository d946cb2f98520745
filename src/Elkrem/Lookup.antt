-- ===== src/Elkrem/Lookup.antt =====
-- ElkremReceiver.AtIndex (elkrem/elkrem.go) reads back every hash that the receiver accepted.
use native.Mathlib.Decide.{dec_lt}
use native.Mathlib.Nat.{one-le-pow, two-pow-succ}
use mathlib.Core.List.{reverse, reverse-append}
use lnd_cc.Prelude.{
  ℕ, suc, ◌+◌, ◌-◌, ◌^◌, ◌≤◌, ◌<◌, ◌≡◌, refl, ap, ◌∙◌, none, some, List, [], ◌∷◌, ◌++◌, length,
  get_elem?, get_elem?-append_left, get_elem?-append_right, arith, ok, ==_refl,
}
use lnd_cc.Elkrem.{
  ElkremNode, descend_loop, descend, first_at_least, descend_from, receiver_at_index,
}
use lnd_cc.Elkrem.Tree.{post_order, length-post_order, descend_loop-post_order}
use lnd_cc.Elkrem.Receiver.{contents, IsIndexed, length-contents, receive, receive-contents}

first_at_least-append_some :
    (w : ℕ) (xs ys : List ElkremNode) {n : ElkremNode}
    → first_at_least w xs ≡ some n
    → first_at_least w (xs ++ ys) ≡ some n
unfolding first_at_least
first_at_least-append_some w [] ys e = cc
first_at_least-append_some w (x ∷ xs) ys {n} e =
    ground (arith, first_at_least-append_some w xs ys {n = n})

first_at_least-append_none :
    (w : ℕ) (xs ys : List ElkremNode)
    → first_at_least w xs ≡ none
    → first_at_least w (xs ++ ys) ≡ first_at_least w ys
unfolding first_at_least
first_at_least-append_none w [] ys e = refl
first_at_least-append_none w (x ∷ xs) ys e = ground (arith, first_at_least-append_none w xs ys)

module _ (double_sha256 : List ℕ → List ℕ) where
  -- Past the end of the sequence no node is found.
  first_at_least-none :
      (w : ℕ) (s : List ElkremNode)
      → IsIndexed double_sha256 s
      → length (contents double_sha256 s) ≤ w
      → first_at_least w (reverse s) ≡ none
  first_at_least-none w [] x b = unfold first_at_least in refl
  first_at_least-none w (n ∷ rest) x b = rw (reverse-append (n ∷ []) rest) (
      first_at_least-append_none w (reverse rest) (n ∷ []) (
        first_at_least-none w rest x.1 (
          omega (
            arith,
            length-contents double_sha256 n rest,
            length-post_order double_sha256 n.h n.sha,
            one-le-pow (suc n.h) 2 (omega arith),
          )))
      ∙ last)
    where
      last : first_at_least w (n ∷ []) ≡ none
      last = unfold first_at_least in ground arith

  -- The node that the search finds covers the place `w`, which is the `j`-th of its subtree.
  abbrev Found : ℕ → List ElkremNode → Type 0
  Found w s =
      (n : ElkremNode) × (start : ℕ) × (j : ℕ) × (first_at_least w (reverse s) ≡ some n)
      × (start + length (post_order double_sha256 n.h n.sha) ≡ n.i + 1)
      × (w ≡ start + j)
      × (j < length (post_order double_sha256 n.h n.sha))
      × (n.i < length (contents double_sha256 s))
      × (get_elem? (contents double_sha256 s) w ≡ get_elem? (post_order double_sha256 n.h n.sha) j)

  post_order_nonempty : (h : ℕ) (sha : List ℕ) → 1 ≤ length (post_order double_sha256 h sha)
  post_order_nonempty h sha =
      omega
        (arith, length-post_order double_sha256 h sha, two-pow-succ h, one-le-pow h 2 (omega arith))

  Found-here :
      (w : ℕ) (n : ElkremNode) (rest : List ElkremNode)
      → IsIndexed double_sha256 (n ∷ rest)
      → length (contents double_sha256 rest) ≤ w
      → w ≤ n.i
      → Found w (n ∷ rest)
  Found-here w n rest x b c =
      let size = length-contents double_sha256 n rest in
      let sub = length-post_order double_sha256 n.h n.sha in
      (
        n,
        length (contents double_sha256 rest),
        w - length (contents double_sha256 rest),
        rw (reverse-append (n ∷ []) rest) (
            first_at_least-append_none w (reverse rest) (n ∷ []) (first_at_least-none w rest x.1 b)
            ∙ (unfold first_at_least in ground arith)),
        omega (arith, x.0),
        omega arith,
        omega (arith, x.0),
        omega (arith, x.0),
        unfold contents in
            get_elem?-append_right (contents double_sha256 rest)
              (post_order double_sha256 n.h n.sha) w _ (omega arith),
      )

  earlier :
      (w : ℕ) (n : ElkremNode) (rest : List ElkremNode)
      → w < length (contents double_sha256 rest)
      → get_elem? (contents double_sha256 (n ∷ rest)) w ≡ get_elem? (contents double_sha256 rest) w
  unfolding contents
  earlier w n rest p =
      get_elem?-append_left (contents double_sha256 rest) (post_order double_sha256 n.h n.sha) w p

  found :
      (w : ℕ) (s : List ElkremNode)
      → IsIndexed double_sha256 s
      → w < length (contents double_sha256 s)
      → Found w s
  found w [] x b = absurd (unfold contents in omega arith)
  found w (n ∷ rest) x b = elim (dec_lt w (length (contents double_sha256 rest))) [
    | no p ↦ Found-here w n rest x (omega arith) (omega (arith, x.0))
    | yes p ↦
        let (m, start, j, first, size, place, inside, small, at) = found w rest x.1 p in
        (
          m,
          start,
          j,
          rw (reverse-append (n ∷ []) rest)
              (first_at_least-append_some w (reverse rest) (n ∷ []) first),
          size,
          place,
          inside,
          omega (
            arith,
            length-contents double_sha256 n rest,
            length-post_order double_sha256 n.h n.sha,
          ),
          earlier w n rest p ∙ at,
        )
  ]

  pub descend_ok :
      (w w' i h : ℕ) (sha x : List ℕ)
      → w ≡ w'
      → descend_loop double_sha256 w' i h sha ≡ (w', x)
      → descend double_sha256 w i h sha ≡ ok x
  unfolding descend
  descend_ok w w' i h sha x p e = rw p (rw e (rw ==_refl))

  answer :
      (w : ℕ) (top : ElkremNode) (below : List ElkremNode) (n : ElkremNode) (y : List ℕ)
      → first_at_least w (reverse (top ∷ below)) ≡ some n
      → descend double_sha256 w n.i n.h n.sha ≡ ok y
      → receiver_at_index double_sha256 (top ∷ below) w ≡ ok y
  answer w top below n y e f =
      unfold receiver_at_index in ap (λ o. descend_from double_sha256 o w) e ∙ f

  pub at_index-contents :
      (w : ℕ) (s : List ElkremNode)
      → IsIndexed double_sha256 s
      → length (contents double_sha256 s) < 2 ^ 63
      → w < length (contents double_sha256 s)
      → (x : List ℕ) × (get_elem? (contents double_sha256 s) w ≡ some x)
        × (receiver_at_index double_sha256 s w ≡ ok x)
  at_index-contents w [] x b p = absurd (unfold contents in omega arith)
  at_index-contents w (top ∷ below) x b p =
      let (n, start, j, first, size, place, inside, small, at) = found w (top ∷ below) x p in
      let (y, here, run) =
        descend_loop-post_order double_sha256 n.h start n.i j n.sha size (omega arith) inside in
      (
        y,
        at ∙ here,
        answer w top below n y first (descend_ok w (start + j) n.i n.h n.sha y place run),
      )

  -- Whatever sequence of up to 2 ^ 63 - 1 hashes an empty receiver accepts, it can read back each
  -- of them: AtIndex of a place below the sequence's length is the hash at this place.
  pub at_index-receive :
      (xs : List (List ℕ)) (s : List ElkremNode) (w : ℕ)
      → length xs < 2 ^ 63
      → receive double_sha256 [] xs ≡ ok s
      → w < length xs
      → (x : List ℕ) × (get_elem? xs w ≡ some x) × (receiver_at_index double_sha256 s w ≡ ok x)
  at_index-receive xs s w b e p =
      let (same, indexed) =
        receive-contents double_sha256 [] xs tt (unfold contents in omega arith) e in
      let same' : contents double_sha256 s ≡ xs = unfold contents in same in
      let size : length (contents double_sha256 s) ≡ length xs = ap length same' in
      rw same' at (at_index-contents w s indexed (omega arith) (omega arith))
