-- ===== src/Elkrem/RoundTrip.antt =====
-- What elkrem/serdes.go writes of a receiver it reads back.
use mathlib.Core.List.{reverse, reverse-reverse, reverse_aux}
use lnd_cc.Prelude.{
  ℕ, suc, ◌+◌, ◌%◌, ◌/◌, ◌*◌, ◌≤◌, ◌<◌, ◌≡◌, refl, ap, ◌∙◌, false, List, [], ◌∷◌, ◌++◌, ◌==◌,
  length, length-append, arith, ok, le→leb, ==_iff, All, append_assoc,
}
use lnd_cc.Bytes.{put_be, length-put_be, read_full-append, from_be-put_be}
use lnd_cc.Elkrem.{ElkremNode, max_index, max_height}
use lnd_cc.Elkrem.Serdes.{nodes_to_bytes, to_bytes, read, check_order, read_nodes, from_bytes}

-- A node whose fields are in range.
abbrev pub IsNode : ElkremNode → Type 0
IsNode n = (n.h ≤ max_height) × (n.i ≤ max_index) × (length n.sha ≡ 32)

abbrev NotAbove : ElkremNode → List ElkremNode → Type 0
NotAbove n [] = Unit
NotAbove n (m ∷ rest) = n.h ≤ m.h

-- The heights do not rise from the bottom of the stack to its top.
abbrev pub IsOrdered : List ElkremNode → Type 0
IsOrdered [] = Unit
IsOrdered (n ∷ rest) = NotAbove n rest × IsOrdered rest

node_bytes : ElkremNode → List ℕ
node_bytes n = put_be 1 n.h ++ (put_be 8 n.i ++ n.sha)

flat : List ElkremNode → List ℕ
flat [] = []
flat (n ∷ rest) = node_bytes n ++ flat rest

nodes_to_bytes-flat : (ns : List ElkremNode) → All IsNode ns → nodes_to_bytes ns ≡ ok (flat ns)
unfolding nodes_to_bytes flat node_bytes
nodes_to_bytes-flat [] v = refl
nodes_to_bytes-flat (n ∷ rest) (v, vs) =
    rw ((==_iff (length n.sha) 32).1 v.2) (rw (nodes_to_bytes-flat rest vs))

length-node_bytes : (n : ElkremNode) → IsNode n → length (node_bytes n) ≡ 41
unfolding node_bytes
length-node_bytes n v = omega (
  arith,
  length-append (put_be 1 n.h) (put_be 8 n.i ++ n.sha),
  length-append (put_be 8 n.i) n.sha,
  length-put_be 1 n.h,
  length-put_be 8 n.i,
)

length-flat : (ns : List ElkremNode) → All IsNode ns → length (flat ns) ≡ length ns * 41
unfolding flat
length-flat [] v = refl
length-flat (n ∷ rest) (v, vs) =
    omega
      (arith, length-append (node_bytes n) (flat rest), length-node_bytes n v, length-flat rest vs)

read-append : (n : ℕ) (xs ys : List ℕ) → length xs ≡ n → read n (xs ++ ys) ≡ ok (xs, ys)
unfolding read
read-append n xs ys e = rw (read_full-append xs ys n e, read)

check_order_ok : (s : List ElkremNode) (n : ElkremNode) → NotAbove n s → check_order s n.h ≡ ok tt
unfolding check_order
check_order_ok [] n o = refl
check_order_ok (m ∷ rest) n o = rw (le→leb n.h m.h o)

read_one :
    (k : ℕ) (s : List ElkremNode) (n : ElkremNode) (rest : List ℕ)
    → IsNode n
    → NotAbove n s
    → read_nodes (suc k) s (node_bytes n ++ rest) ≡ read_nodes k (n ∷ s) rest
unfolding node_bytes
read_one k s n rest v o = simp append_assoc (
    unfold read_nodes in
    simp (
      read-append 1 (put_be 1 n.h) (put_be 8 n.i ++ (n.sha ++ rest)) (length-put_be 1 n.h),
      read-append 8 (put_be 8 n.i) (n.sha ++ rest) (length-put_be 8 n.i),
      read-append 32 n.sha rest v.2,
      from_be-put_be 1 n.h (omega (arith, v.0)),
      from_be-put_be 8 n.i (omega (arith, v.1)),
      le→leb n.h max_height v.0,
      le→leb n.i max_index v.1,
      check_order_ok s n o,
    ))

Ordered-reverse_aux : (ns s : List ElkremNode) → IsOrdered (reverse_aux ns s) → IsOrdered s
Ordered-reverse_aux [] s o = o
Ordered-reverse_aux (n ∷ ns) s o = (Ordered-reverse_aux ns (n ∷ s) o).1

read_nodes-flat :
    (ns s : List ElkremNode)
    → All IsNode ns
    → IsOrdered (reverse_aux ns s)
    → read_nodes (length ns) s (flat ns) ≡ ok (reverse_aux ns s)
unfolding flat
read_nodes-flat [] s v o = unfold read_nodes in refl
read_nodes-flat (n ∷ ns) s (v, vs) o =
    read_one (length ns) s n (flat ns) v (Ordered-reverse_aux ns (n ∷ s) o).0
    ∙ read_nodes-flat ns (n ∷ s) vs o

All-reverse_aux :
    (ns s : List ElkremNode) → All IsNode ns → All IsNode s → All IsNode (reverse_aux ns s)
All-reverse_aux [] s v w = w
All-reverse_aux (n ∷ ns) s (v, vs) w = All-reverse_aux ns (n ∷ s) vs (v, w)

length-reverse_aux : (ns s : List ElkremNode) → length (reverse_aux ns s) ≡ length ns + length s
length-reverse_aux [] s = omega arith
length-reverse_aux (n ∷ ns) s = omega (arith, length-reverse_aux ns (n ∷ s))

put_be_one : (m : ℕ) → m < 256 → put_be 1 m ≡ m ∷ []
unfolding put_be
put_be_one m h = let e : m / 1 % 256 ≡ m = omega arith in rw e

from_bytes-flat :
    (ns : List ElkremNode) (m : ℕ)
    → length ns ≡ m
    → 1 ≤ m
    → m ≤ max_height + 1
    → All IsNode ns
    → IsOrdered (reverse_aux ns [])
    → from_bytes (put_be 1 m ++ flat ns) ≡ ok (reverse_aux ns [])
unfolding from_bytes
from_bytes-flat ns m e lo hi v o = rw (put_be_one m (omega arith)) (
    rw (le→leb 1 m lo, le→leb m (max_height + 1) hi)
      (rw ((==_iff (length (flat ns)) (m * 41)).1 (omega (arith, length-flat ns v)))
        (rw e at (read_nodes-flat ns [] v o))))

to_bytes-flat :
    (s : List ElkremNode) (m : ℕ)
    → length s ≡ m
    → 1 ≤ m
    → m ≤ max_height + 1
    → All IsNode s
    → to_bytes s ≡ ok (put_be 1 m ++ flat (reverse s))
unfolding to_bytes
to_bytes-flat s m e lo hi v =
    let small : length s % 256 ≡ m = omega arith in
    let back = All-reverse_aux s [] v tt in
    rw small (
      rw (not_zero m lo, le→leb m (max_height + 1) hi)
        (rw (nodes_to_bytes-flat (reverse s) back) (
          rw (
            (==_iff (length (flat (reverse s)) + 1) (m * 41 + 1)).1
              (omega (arith, length-flat (reverse s) back, length-reverse_aux s []))))))
  where
    not_zero : (k : ℕ) → 1 ≤ k → (k == 0) ≡ false
    not_zero k h = ground arith

-- A receiver of up to `max_height + 1` nodes, whose fields are in range and whose heights do not
-- rise from the bottom of the stack to its top, is written without an error and read back as it was.
pub from_bytes-to_bytes :
    (s : List ElkremNode)
    → All IsNode s
    → IsOrdered s
    → length s ≤ max_height + 1
    → (bs : List ℕ) × (to_bytes s ≡ ok bs) × (from_bytes bs ≡ ok s)
from_bytes-to_bytes [] v o p = ([], unfold to_bytes in refl, unfold from_bytes in refl)
from_bytes-to_bytes (n ∷ rest) v o p =
    let s = n ∷ rest in
    let m = length s in
    (
      put_be 1 m ++ flat (reverse s),
      to_bytes-flat s m refl (omega arith) p v,
      from_bytes-flat (reverse s) m (omega (arith, length-reverse_aux s [])) (omega arith) p
            (All-reverse_aux s [] v tt) (rw twice o)
          ∙ ap ok twice,
    )
  where
    twice : reverse (reverse (n ∷ rest)) ≡ n ∷ rest
    twice = reverse-reverse (n ∷ rest)
