-- ===== src/Elkrem/Serdes.antt =====
-- elkrem/serdes.go: a receiver as bytes, a node in 41 of them, and back.
use mathlib.Core.List.{reverse}
use lnd_cc.Prelude.{
  ℕ, zero, suc, ◌+◌, ◌%◌, ◌*◌, ◌&&◌, none, some, List, [], ◌∷◌, ◌++◌, leb, ◌==◌, if◌then◌else◌,
  length, Result, ok, err, ◌>>=◌, ◌>>◌, guard,
}
use lnd_cc.Bytes.{put_be, from_be, read_full}
use lnd_cc.Elkrem.{ElkremNode, max_index, max_height}

pub data SerdesError : Type 0 where
  too_many_nodes bad_hash_size bad_size bad_node_count short_read bad_height bad_index : SerdesError
  heights_out_of_order : SerdesError

-- One round of the loop of ElkremReceiver.ToBytes.
unfoldable pub node_to_bytes : ElkremNode → Result SerdesError (List ℕ)
unfolding put_be
node_to_bytes n = do
  guard (length n.sha == 32) bad_hash_size
  ok (put_be 1 n.h ++ (put_be 8 n.i ++ n.sha))

unfoldable pub nodes_to_bytes : List ElkremNode → Result SerdesError (List ℕ)
unfolding node_to_bytes
nodes_to_bytes [] = ok []
nodes_to_bytes (n ∷ rest) = do
  front ← node_to_bytes n
  back ← nodes_to_bytes rest
  ok (front ++ back)

-- ElkremReceiver.ToBytes. The stack is written from its bottom.
unfoldable pub to_bytes : List ElkremNode → Result SerdesError (List ℕ)
unfolding nodes_to_bytes
to_bytes s =
    let num_of_nodes = length s % 256 in
    if num_of_nodes == 0 then ok [] else (do
      guard (leb num_of_nodes (max_height + 1)) too_many_nodes
      body ← nodes_to_bytes (reverse s)
      guard (length body + 1 == num_of_nodes * 41 + 1) bad_size
      ok (put_be 1 num_of_nodes ++ body))

unfoldable pub read : ℕ → List ℕ → Result SerdesError (List ℕ × List ℕ)
unfolding read_full
read n bs = elim (read_full n bs) [ none ↦ err short_read | some p ↦ ok p ]

-- The check that the heights fall along the slice: `e.s[j-1].h < e.s[j].h` is refused.
unfoldable pub check_order : List ElkremNode → ℕ → Result SerdesError (Unit {0})
check_order [] h = ok tt
check_order (before ∷ rest) h = guard (leb h before.h) heights_out_of_order

-- The loop of ElkremReceiverFromBytes over the nodes still to be read, with those read so far,
-- the last one first.
unfoldable pub read_nodes : ℕ → List ElkremNode → List ℕ → Result SerdesError (List ElkremNode)
unfolding read from_be check_order
read_nodes zero s bs = ok s
read_nodes (suc k) s bs = do
  (hb, bs₁) ← read 1 bs
  (ib, bs₂) ← read 8 bs₁
  (sha, bs₃) ← read 32 bs₂
  let n : ElkremNode = record { h = from_be 0 hb; i = from_be 0 ib; sha = sha }
  guard (leb n.h max_height) bad_height
  guard (leb n.i max_index) bad_index
  check_order s n.h
  read_nodes k (n ∷ s) bs₃

-- ElkremReceiverFromBytes
unfoldable pub from_bytes : List ℕ → Result SerdesError (List ElkremNode)
unfolding read_nodes
from_bytes [] = ok []
from_bytes (num_of_nodes ∷ buf) = do
  guard (leb 1 num_of_nodes && leb num_of_nodes (max_height + 1)) bad_node_count
  guard (length buf == num_of_nodes * 41) bad_size
  read_nodes num_of_nodes [] buf

-- ElkremSender.ToBytes
unfoldable pub sender_to_bytes : List ℕ → List ℕ
sender_to_bytes root = root
