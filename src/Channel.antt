-- ===== src/Channel.antt =====
-- lnwallet/channel.go: the data of the commitment state machine. An amount (an int64 of satoshis)
-- is its bit pattern, a number below 2 ^ 64, and sums wrap as the source's do.
pub mod View
pub mod Run
pub mod Ledger
pub mod Updates
pub mod Chains
pub mod Revocations
pub mod Soundness
pub mod RevokedSoundness
pub mod Steps
pub mod Commitments
pub mod Settles
pub mod Delta
mod Examples
use lnd_cc.Prelude.{
  ℕ, zero, suc, ◌+◌, ◌-◌, ◌%◌, ◌/◌, ◌^◌, ◌*◌, ◌≤◌, ◌<◌, ◌≡◌, ◌≢◌, refl, sym, ap, ◌∙◌, ◌⊎◌, inl, inr,
  Bool, true, false, not, ◌&&◌, ◌||◌, Option, none, some, List, [], ◌∷◌, ◌++◌, map, ltb, leb, ◌==◌,
  if◌then◌else◌, length, length-append, length-take, take, drop, take-append-drop, take-append_left,
  drop-append_left, get_elem?, get_elem?-append_left, get_elem?-append_right, get_elem?-take, arith,
  Result, ok, err, ◌>>=◌, ◌>>◌, guard, >>=-eq-ok, lt→ltb, le→leb, lt→leb, ltb→lt, ltb→le, leb→le,
  leb→lt, ==_iff, ==_refl, bytes_equal, bytes_equal_refl, eq_of_bytes_equal, All, append-nil,
  append_assoc, Bool-cases, Option-cases,
}

pub data UpdateType : Type 0 where
  add timeout settle : UpdateType

unfoldable pub is_add : UpdateType → Bool
is_add add = true
is_add timeout = false
is_add settle = false

-- An entry of an update log. The heights tell at which commitment of each chain it took effect,
-- and are 0 before that.
pub record PaymentDescriptor : Type 0 where
  pub rhash : List ℕ
  pub expiry : ℕ
  pub amount : ℕ
  pub index : ℕ
  pub parent_index : ℕ
  pub entry_type : UpdateType
  pub add_commit_height_remote : ℕ
  pub add_commit_height_local : ℕ
  pub remove_commit_height_remote : ℕ
  pub remove_commit_height_local : ℕ
  pub is_forwarded : Bool
  pub settled : Bool

-- The arithmetic of int64 on bit patterns.
abbrev pub add64 : ℕ → ℕ → ℕ
add64 a b = (a + b) % 2 ^ 64

abbrev pub sub64 : ℕ → ℕ → ℕ
sub64 a b = (a + (2 ^ 64 - b % 2 ^ 64)) % 2 ^ 64

pub record Balances : Type 0 where
  pub ours : ℕ
  pub theirs : ℕ

pub data Fault : Type 0 where
  -- a read through a nil pointer, which is a panic
  nil_pointer : Fault
  no_window elkrem_failed tx_failed sign_failed invalid_signature key_mismatch : Fault
  hash_mismatch invalid_payment_hash no_log_entry storage_failed : Fault
