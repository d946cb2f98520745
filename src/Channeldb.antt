-- ===== src/Channeldb.antt =====
-- channeldb/channel.go: the stored state of a channel, and what the package uses of other code. A
-- time is its Unix seconds and an amount its bit pattern, numbers below 2 ^ 64.
pub mod Codec
pub mod CodecTrips
pub mod Fetch
pub mod Puts
pub mod Reads
pub mod Holding
pub mod Recovery
pub mod Columns
pub mod Store
pub mod Snapshot
pub mod Synced
pub mod Commitment
pub mod Log
pub mod Closing
pub mod Sample
pub mod Examples
pub mod Invoices
use lnd_cc.Prelude.{
  ℕ, zero, suc, ◌+◌, ◌-◌, ◌%◌, ◌/◌, ◌^◌, ◌*◌, ◌≤◌, ◌<◌, ◌≡◌, ◌≢◌, refl, sym, ap, ◌∙◌, ◌⊎◌, inl, inr,
  Bool, true, false, not, ◌&&◌, ◌||◌, Option, none, some, List, [], ◌∷◌, ◌++◌, map, ltb, leb, ◌==◌,
  if◌then◌else◌, length, length-append, length-take, length-drop, take, drop, take-append-drop,
  take-append_left, drop-append_left, arith, Result, ok, err, ◌>>=◌, ◌>>◌, guard, >>=-eq-ok,
  ok-injective, Result-cases, lt→ltb, le→leb, lt→leb, ltb→lt, ltb→le, leb→le, leb→lt, ==_iff,
  ==_refl, bytes_equal, bytes_equal_refl, eq_of_bytes_equal, All, append-nil, append_assoc,
  Bool-cases, Option-cases,
}
use lnd_cc.Elkrem.{ElkremNode}
use lnd_cc.Lnwire.{WireLib, OutPoint}

-- bolt's buckets, inside a transaction, and btcd's transactions and varints. What the code relies
-- on: a value of up to 2 GB under a key of 1 to 32,768 bytes is stored and read back, and leaves
-- the other keys alone; what was serialized is read back; ReadVarBytes refuses what is longer than
-- its bound, and an empty input.
pub record DbLib (L : WireLib) : Type 1 where
  pub Tx : Type 0
  pub serialize_tx : Tx → List ℕ
  pub deserialize_tx : List ℕ → Option (Tx × List ℕ)
  pub write_var_int : ℕ → List ℕ
  pub read_var_int : List ℕ → Option (ℕ × List ℕ)
  pub Bucket : Type 0
  pub empty : Bucket
  pub get : List ℕ → Bucket → Option (List ℕ)
  pub put : (key value : List ℕ) → Bucket → Option Bucket
  pub delete : List ℕ → Bucket → Bucket
  pub keys : Bucket → List (List ℕ)
  pub deserialize-serialize_tx :
      (tx : Tx) (rest : List ℕ) → deserialize_tx (serialize_tx tx ++ rest) ≡ some (tx, rest)
  pub read-write_var_int :
      (n : ℕ) (rest : List ℕ) → n < 2 ^ 64 → read_var_int (write_var_int n ++ rest) ≡ some (n, rest)
  pub read_var_bytes_long :
      (max : ℕ) (bs rest : List ℕ)
      → max < length bs
      → L.read_var_bytes max (L.write_var_bytes bs ++ rest) ≡ none
  pub read_var_bytes_empty : (max : ℕ) → L.read_var_bytes max [] ≡ none
  pub get-empty : (key : List ℕ) → get key empty ≡ none
  pub get-put :
      (key value : List ℕ) (b : Bucket)
      → 0 < length key
      → length key ≤ 32768
      → length value ≤ 2147483646
      → (b' : Bucket) × (put key value b ≡ some b')
        × ((other : List ℕ)
            → get other b' ≡ (if bytes_equal other key then some value else get other b))
  pub get-delete :
      (other key : List ℕ) (b : Bucket)
      → get other (delete key b) ≡ (if bytes_equal other key then none else get other b)

pub data DbError : Type 0 where
  -- the end of a reader
  eof : DbError
  -- a slice out of range or a method of a nil bucket, which are panics
  out_of_range nil_bucket : DbError
  bad_var_int bad_var_bytes bad_tx bad_public_key bad_hash bad_elkrem put_failed : DbError
  no_chan_db no_active_channels no_log_entry out_of_fuel : DbError

pub record Htlc : Type 0 where
  pub incoming : Bool
  pub amt : ℕ
  pub rhash : List ℕ
  pub refund_timeout : ℕ
  pub revocation_delay : ℕ

pub record ChannelDelta : Type 0 where
  pub local_balance : ℕ
  pub remote_balance : ℕ
  pub update_num : ℕ
  pub htlcs : List Htlc

-- OpenChannel, without its lock and its database.
pub record OpenChannel (L : WireLib) (D : DbLib L) : Type 0 where
  pub their_lnid : List ℕ
  pub chan_id : OutPoint
  pub min_fee_per_kb : ℕ
  pub our_commit_key : L.PublicKey
  pub their_commit_key : L.PublicKey
  pub capacity : ℕ
  pub our_balance : ℕ
  pub their_balance : ℕ
  pub our_commit_tx : D.Tx
  pub our_commit_sig : List ℕ
  pub funding_outpoint : OutPoint
  pub our_multi_sig_key : L.PublicKey
  pub their_multi_sig_key : L.PublicKey
  pub funding_redeem_script : List ℕ
  pub local_csv_delay : ℕ
  pub remote_csv_delay : ℕ
  pub their_current_revocation : L.PublicKey
  pub their_current_revocation_hash : List ℕ
  pub local_elkrem : List ℕ
  pub remote_elkrem : List ElkremNode
  pub our_delivery_script : List ℕ
  pub their_delivery_script : List ℕ
  pub num_updates : ℕ
  pub total_satoshis_sent : ℕ
  pub total_satoshis_received : ℕ
  pub total_net_fees : ℕ
  pub creation_time : ℕ
  pub htlcs : List Htlc
