-- ===== src/Elkrem.antt =====
-- elkrem/elkrem.go: the hash tree by which one side derives its revocation preimages and the
-- other stores them. A hash is its string of bytes; a slice of nodes is held top of stack first.
pub mod Tree
pub mod Receiver
pub mod Lookup
pub mod Storage
pub mod Serdes
pub mod RoundTrip
pub mod Persistence
pub mod Agreement
mod Examples
use lnd_cc.Prelude.{
  ℕ, zero, suc, ◌+◌, ◌-◌, ◌%◌, ◌^◌, Bool, true, false, ◌&&◌, Option, none, some, List, [], ◌∷◌,
  ◌++◌, ltb, leb, ◌==◌, if◌then◌else◌, bytes_equal, Result, ok, err, ◌>>=◌, ◌>>◌, guard,
}
use mathlib.Core.List.{reverse}

abbrev pub max_index : ℕ
max_index = 281474976710654

abbrev pub max_height : ℕ
max_height = 47

-- The arithmetic of uint64 and uint8: `1 << h`, `a - b`, `a + 1`.
abbrev pub shl_one : ℕ → ℕ
shl_one h = 2 ^ h % 2 ^ 64

abbrev pub sub64 : ℕ → ℕ → ℕ
sub64 a b = (a + 2 ^ 64 - b) % 2 ^ 64

pub data Error : Type 0 where
  cannot_generate left_mismatch right_mismatch nil_receiver beyond_max : Error

pub record ElkremNode : Type 0 where
  pub h : ℕ
  pub i : ℕ
  pub sha : List ℕ

-- The search of ElkremReceiver.AtIndex: the first node, in the order of the slice, whose index
-- is not below `w`.
unfoldable pub first_at_least : ℕ → List ElkremNode → Option ElkremNode
first_at_least w [] = none
first_at_least w (n ∷ rest) = if leb w n.i then some n else first_at_least w rest

-- `double_sha256` is the third-party wire.DoubleSha256SH.
module _ (double_sha256 : List ℕ → List ℕ) where
  unfoldable pub left_sha : List ℕ → List ℕ
  left_sha sha = double_sha256 sha

  unfoldable pub right_sha : List ℕ → List ℕ
  right_sha sha = double_sha256 (sha ++ 1 ∷ [])

  -- The loop of `descend`: it ends with the index and the hash that it has reached. A round at
  -- height 0 is the last one.
  unfoldable pub descend_loop : ℕ → ℕ → ℕ → List ℕ → ℕ × List ℕ
  descend_loop w i zero sha =
      if ltb w i
      then if leb w (sub64 i (shl_one 0))
        then (sub64 i (shl_one 0), left_sha sha)
        else (i - 1, right_sha sha)
      else (i, sha)
  descend_loop w i (suc h) sha = elim (ltb w i) [
    | true ↦ elim (leb w (sub64 i (shl_one (suc h)))) [
      | true ↦ descend_loop w (sub64 i (shl_one (suc h))) h (left_sha sha)
      | false ↦ descend_loop w (i - 1) h (right_sha sha)
    ]
    | false ↦ (i, sha)
  ]

  unfoldable pub descend : ℕ → ℕ → ℕ → List ℕ → Result Error (List ℕ)
  unfolding descend_loop
  descend w i h sha =
      let (j, out) = descend_loop w i h sha in if w == j then ok out else err cannot_generate

  -- ElkremSender.AtIndex, for the sender with root hash `root`.
  unfoldable pub sender_at_index : List ℕ → ℕ → Result Error (List ℕ)
  unfolding descend
  sender_at_index root w = descend w max_index max_height root

  -- ElkremReceiver.AddNext: the stack after it, or the error that leaves the stack as it was.
  unfoldable pub add_next : List ElkremNode → List ℕ → Result Error (List ElkremNode)
  unfolding left_sha right_sha bytes_equal
  add_next [] sha = ok (record { h = 0; i = 0; sha = sha } ∷ [])
  add_next (top ∷ []) sha = ok (record { h = 0; i = (top.i + 1) % 2 ^ 64; sha = sha } ∷ top ∷ [])
  add_next (top ∷ below ∷ rest) sha =
      if below.h == top.h
      then (do
        guard (bytes_equal below.sha (left_sha sha)) left_mismatch
        guard (bytes_equal top.sha (right_sha sha)) right_mismatch
        ok (record { h = (top.h + 1) % 256; i = (top.i + 1) % 2 ^ 64; sha = sha } ∷ rest))
      else ok (record { h = 0; i = (top.i + 1) % 2 ^ 64; sha = sha } ∷ top ∷ below ∷ rest)

  unfoldable pub descend_from : Option ElkremNode → ℕ → Result Error (List ℕ)
  unfolding descend
  descend_from none w = err beyond_max
  descend_from (some n) w = descend w n.i n.h n.sha

  unfoldable pub receiver_at_index : List ElkremNode → ℕ → Result Error (List ℕ)
  unfolding descend_from first_at_least
  receiver_at_index [] w = err nil_receiver
  receiver_at_index (top ∷ below) w = descend_from (first_at_least w (reverse (top ∷ below))) w

-- ElkremReceiver.UpTo
unfoldable pub up_to : List ElkremNode → ℕ
up_to [] = 0
up_to (top ∷ rest) = top.i
