-- ===== src/Elkrem/Examples.antt =====
-- Runs of the elkrem tree, and its theorems at concrete inputs. The hash here keeps 32 bytes of
-- its input's end and so tells the left child from the right one.
use lnd_cc.Prelude.{
  ℕ, ◌+◌, ◌-◌, ◌≤◌, ◌<◌, ◌≡◌, refl, some, List, [], ◌∷◌, ◌++◌, length, take, drop, get_elem?, arith,
  ok, err,
}
use lnd_cc.Elkrem.{
  ElkremNode, sender_at_index, receiver_at_index, add_next, left_mismatch, max_height,
}
use lnd_cc.Elkrem.Receiver.{receive}
use lnd_cc.Elkrem.Lookup.{at_index-receive}
use lnd_cc.Elkrem.Storage.{length-receive}
use lnd_cc.Elkrem.Agreement.{revealed, receiver-sender}
use lnd_cc.Elkrem.Serdes.{to_bytes, from_bytes}
use lnd_cc.Elkrem.Persistence.{restore-receive}

abbrev toy_sha : List ℕ → List ℕ
toy_sha bs = take 32 (drop (length bs - 32) bs)

abbrev toy_root : List ℕ
toy_root =
    7 ∷ 9 ∷ 1 ∷ 1 ∷ 1 ∷ 1 ∷ 1 ∷ 1 ∷ 1 ∷ 1 ∷ 1 ∷ 1 ∷ 1 ∷ 1 ∷ 1 ∷ 1 ∷ 5 ∷ 6 ∷ 1 ∷ 1 ∷ 1 ∷ 1 ∷ 1 ∷ 1
    ∷ 1 ∷ 1 ∷ 1 ∷ 1 ∷ 1 ∷ 1 ∷ 1 ∷ 1 ∷ []

-- The right child of `toy_root`.
abbrev toy_right : List ℕ
toy_right = drop 1 toy_root ++ 1 ∷ []

abbrev toy_sequence : List (List ℕ)
toy_sequence = toy_root ∷ toy_right ∷ toy_root ∷ toy_root ∷ []

abbrev toy_stack : List ElkremNode
toy_stack = record { h = 0; i = 3; sha = toy_root } ∷ record { h = 1; i = 2; sha = toy_root } ∷ []

receive_toy : receive toy_sha [] toy_sequence ≡ ok toy_stack
unfolding receive add_next
receive_toy = refl

add_next_wrong :
    add_next toy_sha
      (record { h = 0; i = 1; sha = [] } ∷ record { h = 0; i = 0; sha = [] } ∷ [])
      toy_root
    ≡ err left_mismatch
unfolding add_next
add_next_wrong = refl

at_index-receive_example :
    (x : List ℕ) × (get_elem? toy_sequence 1 ≡ some x)
    × (receiver_at_index toy_sha toy_stack 1 ≡ ok x)
at_index-receive_example =
    at_index-receive toy_sha toy_sequence toy_stack 1 (omega arith) receive_toy (omega arith)

length-receive_example : length toy_stack ≤ max_height + 1
length-receive_example = length-receive toy_sha toy_sequence toy_stack (omega arith) receive_toy

receiver-sender_example :
    (xs : List (List ℕ)) × (s : List ElkremNode) × (revealed toy_sha toy_root 3 ≡ ok xs)
    × (receive toy_sha [] xs ≡ ok s)
    × ((w : ℕ)
        → w < 3
        → (x : List ℕ) × (sender_at_index toy_sha toy_root w ≡ ok x)
          × (receiver_at_index toy_sha s w ≡ ok x))
receiver-sender_example = receiver-sender toy_sha toy_root 3 (omega arith)

restore-receive_example :
    (bs : List ℕ) × (to_bytes toy_stack ≡ ok bs) × (from_bytes bs ≡ ok toy_stack)
restore-receive_example =
    restore-receive toy_sha toy_sequence toy_stack (omega arith) (refl, (refl, (refl, (refl, tt))))
      receive_toy
