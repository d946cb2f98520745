-- ===== src/Channel/Delta.antt =====
-- lnwallet/channel.go: toChannelDelta, the form in which a commitment goes to the log of past
-- states of channeldb/channel.go.
use lnd_cc.Prelude.{
  ℕ, ◌%◌, ◌^◌, ◌≤◌, ◌<◌, ◌≡◌, ◌∙◌, Bool, true, false, List, [], ◌∷◌, ◌++◌, map, ◌==◌, length, arith,
  ok, ==_refl, All, refl, inl, inr, not, if◌then◌else◌, append-nil, Bool-cases,
}
use lnd_cc.Elkrem.Serdes.{to_bytes}
use lnd_cc.Lnwire.{WireLib}
use lnd_cc.Channel.{PaymentDescriptor}
use lnd_cc.Channel.Updates.{Commitment}
use lnd_cc.Channeldb.{DbLib, Htlc, ChannelDelta, OpenChannel}
use lnd_cc.Channeldb.Codec.{serialize_channel_delta}
use lnd_cc.Channeldb.CodecTrips.{IsHtlc, IsDelta}
use lnd_cc.Channeldb.Columns.{elkrem_columns}
use lnd_cc.Channeldb.Puts.{Fits}
use lnd_cc.Channeldb.Store.{Store, append_to_revocation_log, find_previous_state}
use lnd_cc.Channeldb.Log.{find_previous_state-append_to_revocation_log}

unfoldable pub to_htlc : (incoming : Bool) → PaymentDescriptor → Htlc
to_htlc incoming htlc = record {
  incoming = incoming;
  amt = htlc.amount;
  rhash = htlc.rhash;
  refund_timeout = htlc.expiry;
  revocation_delay = 0;
}

unfoldable pub to_channel_delta : {Tx : Type 0} → Commitment Tx → ChannelDelta
unfolding to_htlc
to_channel_delta c = record {
  local_balance = c.our_balance;
  remote_balance = c.their_balance;
  update_num = c.height % 2 ^ 32;
  htlcs = map (to_htlc false) c.outgoing_htlcs ++ map (to_htlc true) c.incoming_htlcs;
}

-- An entry whose fields fit their types.
abbrev pub IsPending : PaymentDescriptor → Type 0
IsPending d = (d.amount < 2 ^ 64) × (length d.rhash ≡ 32) × (d.expiry < 2 ^ 32)

map-IsHtlc :
    (incoming : Bool) (ds : List PaymentDescriptor)
    → All IsPending ds
    → All IsHtlc (map (to_htlc incoming) ds)
unfolding to_htlc
map-IsHtlc incoming [] h = tt
map-IsHtlc incoming (d ∷ ds) ((amount, rhash, expiry), hs) =
    ((amount, rhash, expiry, omega arith), map-IsHtlc incoming ds hs)

append-IsHtlc : (xs ys : List Htlc) → All IsHtlc xs → All IsHtlc ys → All IsHtlc (xs ++ ys)
append-IsHtlc [] ys h k = k
append-IsHtlc (x ∷ xs) ys (h, hs) k = (h, append-IsHtlc xs ys hs k)

-- A commitment whose fields fit their types, with fewer than 2 ^ 64 HTLCs.
abbrev pub IsCommitment : {Tx : Type 0} → Commitment Tx → Type 0
IsCommitment c =
    (c.our_balance < 2 ^ 64)
    × (c.their_balance < 2 ^ 64)
    × (length (to_channel_delta c).htlcs < 2 ^ 64)
    × All IsPending c.outgoing_htlcs
    × All IsPending c.incoming_htlcs

to_channel_delta-IsDelta :
    {Tx : Type 0} (c : Commitment Tx) → IsCommitment c → IsDelta (to_channel_delta c)
unfolding to_channel_delta
to_channel_delta-IsDelta c (ours, theirs, count, outgoing, incoming) = (
  ours,
  theirs,
  omega arith,
  count,
  append-IsHtlc (map (to_htlc false) c.outgoing_htlcs) (map (to_htlc true) c.incoming_htlcs)
      (map-IsHtlc false c.outgoing_htlcs outgoing) (map-IsHtlc true c.incoming_htlcs incoming),
)

-- An HTLC's amount, payment hash and timeout, in the log of the database and in a commitment.
abbrev pub Terms : Type 0
Terms = ℕ × List ℕ × ℕ

abbrev pub logged_terms : Htlc → Terms
logged_terms h = (h.amt, h.rhash, h.refund_timeout)

abbrev pub pending_terms : PaymentDescriptor → Terms
pending_terms d = (d.amount, d.rhash, d.expiry)

-- The terms of the logged HTLCs of one direction, in their order.
unfoldable pub directed : (incoming : Bool) → List Htlc → List Terms
directed incoming [] = []
directed incoming (h ∷ hs) =
    let rest = directed incoming hs in
    let other = not h.incoming in
    if (if incoming then h.incoming else other) then logged_terms h ∷ rest else rest

directed-append :
    (incoming : Bool) (xs ys : List Htlc)
    → directed incoming (xs ++ ys) ≡ directed incoming xs ++ directed incoming ys
unfolding directed
directed-append incoming [] ys = refl
directed-append true (x ∷ xs) ys = elim (Bool-cases x.incoming) [
  | inl t ↦ rw (t, directed-append true xs ys) refl
  | inr t ↦ rw (t, directed-append true xs ys) refl
]
directed-append false (x ∷ xs) ys = elim (Bool-cases x.incoming) [
  | inl t ↦ rw (t, directed-append false xs ys) refl
  | inr t ↦ rw (t, directed-append false xs ys) refl
]

directed-same :
    (incoming : Bool) (ds : List PaymentDescriptor)
    → directed incoming (map (to_htlc incoming) ds) ≡ map pending_terms ds
unfolding directed to_htlc
directed-same incoming [] = refl
directed-same true (d ∷ ds) = rw (directed-same true ds) refl
directed-same false (d ∷ ds) = rw (directed-same false ds) refl

directed-other :
    (incoming : Bool) (ds : List PaymentDescriptor)
    → directed incoming (map (to_htlc (not incoming)) ds) ≡ []
unfolding directed to_htlc
directed-other incoming [] = refl
directed-other true (d ∷ ds) = directed-other true ds
directed-other false (d ∷ ds) = directed-other false ds

-- A delta that tells a commitment: its balances, its height as a uint32, and the HTLCs of each
-- direction.
abbrev pub Tells : {Tx : Type 0} → ChannelDelta → Commitment Tx → Type 0
Tells delta c =
    (delta.local_balance ≡ c.our_balance)
    × (delta.remote_balance ≡ c.their_balance)
    × (delta.update_num ≡ c.height % 2 ^ 32)
    × (directed false delta.htlcs ≡ map pending_terms c.outgoing_htlcs)
    × (directed true delta.htlcs ≡ map pending_terms c.incoming_htlcs)

to_channel_delta-Tells : {Tx : Type 0} (c : Commitment Tx) → Tells (to_channel_delta c) c
unfolding to_channel_delta
to_channel_delta-Tells c =
    let outgoing = map (to_htlc false) c.outgoing_htlcs in
    let incoming = map (to_htlc true) c.incoming_htlcs in
    (
      refl,
      refl,
      refl,
      directed-append false outgoing incoming
          ∙ rw (directed-same false c.outgoing_htlcs, directed-other false c.incoming_htlcs)
              (append-nil (map pending_terms c.outgoing_htlcs)),
      directed-append true outgoing incoming
          ∙ rw (directed-other true c.outgoing_htlcs, directed-same true c.incoming_htlcs) refl,
    )

module _ (L : WireLib) (D : DbLib L) where
  -- For a commitment whose fields fit their types, with fewer than 2 ^ 64 HTLCs, and a channel whose
  -- id has a hash of 32 bytes and whose elkrem receiver is saved and fits, as the commitment's delta
  -- does: AppendToRevocationLog of what toChannelDelta gives succeeds on any store, and
  -- FindPreviousState of the commitment's height then gives a delta with the commitment's balances,
  -- its height as a uint32, and, of each direction, its HTLCs' amounts, hashes and timeouts in order.
  pub find_previous_state-to_channel_delta :
      (commitment : Commitment D.Tx) (c : OpenChannel L D) (s : Store L D) (receiver : List ℕ)
      → IsCommitment commitment
      → length c.chan_id.hash ≡ 32
      → length (serialize_channel_delta L D (to_channel_delta commitment)) ≤ 2147483646
      → to_bytes c.remote_elkrem ≡ ok receiver
      → All Fits (elkrem_columns L D c receiver)
      → (s' : Store L D) × (delta : ChannelDelta) × (append_to_revocation_log L D
            (to_channel_delta commitment)
            c
            s
          ≡ ok s')
        × (find_previous_state L D commitment.height c s' ≡ ok delta)
        × Tells delta commitment
  unfolding to_channel_delta
  find_previous_state-to_channel_delta commitment c s receiver fits point small saves elkrem =
      let (s', done, look) =
        find_previous_state-append_to_revocation_log L D (to_channel_delta commitment) c s receiver
          point (to_channel_delta-IsDelta commitment fits) small saves elkrem in
      (
        s',
        to_channel_delta commitment,
        done,
        look commitment.height ∙ rw (same_number commitment),
        to_channel_delta-Tells commitment,
      )
    where
      same_number :
          (c : Commitment D.Tx) → (c.height % 2 ^ 32 == (to_channel_delta c).update_num) ≡ true
      same_number c = ==_refl (c.height % 2 ^ 32)
