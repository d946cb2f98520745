-- ===== src/Channel/Settles.antt =====
-- SettleHTLC and ReceiveHTLCSettle (lnwallet/channel.go), called twice.
use mathlib.Core.Path.{subst}
use lnd_cc.Prelude.{
  ℕ, suc, ◌+◌, ◌≡◌, refl, sym, ap, ◌⊎◌, inl, inr, Bool, true, false, not, ◌&&◌, none, some, List,
  [], ◌∷◌, ◌++◌, if◌then◌else◌, length, length-append, arith, ok, err, bytes_equal, Bool-cases,
  Option-cases,
}
use lnd_cc.Lnwire.{WireLib}
use lnd_cc.Channel.{settle, is_add, PaymentDescriptor, invalid_payment_hash}
use lnd_cc.Channel.View.{find_add}
use lnd_cc.Channel.Updates.{
  LightningChannel, Outcome, next_index, new_descriptor, mark_settled, settle_htlc,
  receive_htlc_settle,
}

-- The number of HTLCs of a log that are to be settled by a preimage with this hash.
pub waiting : List ℕ → List PaymentDescriptor → ℕ
waiting hash [] = 0
waiting hash (htlc ∷ log) =
    (if is_add htlc.entry_type && (not htlc.settled && bytes_equal htlc.rhash hash) then 1 else 0)
    + waiting hash log

and_false : (a : Bool) → (a && false) ≡ false
and_false true = refl
and_false false = refl

mark_settled-waiting :
    (hash : List ℕ) (log : List PaymentDescriptor) (r : List PaymentDescriptor × PaymentDescriptor)
    → mark_settled hash log ≡ some r
    → suc (waiting hash r.0) ≡ waiting hash log
unfolding mark_settled waiting
mark_settled-waiting hash [] r e = cc
mark_settled-waiting hash (htlc ∷ log) r e =
    elim (Bool-cases
      (is_add htlc.entry_type && (not htlc.settled && bytes_equal htlc.rhash hash))) [
        | inl p ↦
            let here : (record htlc { settled = true } ∷ log, htlc) ≡ r =
              cc (rw (p, mark_settled) at e) in
            subst
              (λ (x : List PaymentDescriptor × PaymentDescriptor).
                suc (waiting hash x.0) ≡ waiting hash (htlc ∷ log))
              here (rw (and_false (is_add htlc.entry_type), p) (omega arith))
        | inr p ↦ elim (Option-cases (mark_settled hash log)) [
          | inl q ↦ absurd (cc (rw (p, q, mark_settled) at e))
          | inr (t, q) ↦
              let there : (htlc ∷ t.0, t.1) ≡ r = cc (rw (p, q, mark_settled) at e) in
              subst
                (λ (x : List PaymentDescriptor × PaymentDescriptor).
                  suc (waiting hash x.0) ≡ waiting hash (htlc ∷ log))
                there (rw p (omega (arith, mark_settled-waiting hash log t q)))
        ]
      ]

mark_settled-none :
    (hash : List ℕ) (log : List PaymentDescriptor)
    → mark_settled hash log ≡ none
    → waiting hash log ≡ 0
unfolding mark_settled waiting
mark_settled-none hash [] e = refl
mark_settled-none hash (htlc ∷ log) e =
    elim (Bool-cases
      (is_add htlc.entry_type && (not htlc.settled && bytes_equal htlc.rhash hash))) [
        | inl p ↦ absurd (cc (rw (p, mark_settled) at e))
        | inr p ↦ elim (Option-cases (mark_settled hash log)) [
          | inl q ↦ rw p (omega (arith, mark_settled-none hash log q))
          | inr (t, q) ↦ absurd (cc (rw (p, q, mark_settled) at e))
        ]
      ]

module _ (L : WireLib) (Tx : Type 0) (sha256 : List ℕ → List ℕ) where
  -- SettleHTLC settles one of the HTLCs that wait for the preimage, so that one fewer waits after
  -- it, and logs one entry; where none waits, it fails and changes nothing.
  pub settle_htlc-waiting :
      (preimage : List ℕ) (s : LightningChannel L Tx)
      → ((i : ℕ) × ((settle_htlc L Tx sha256 preimage s).0 ≡ ok i)
          × (suc (waiting (sha256 preimage) (settle_htlc L Tx sha256 preimage s).1.their_update_log)
              ≡ waiting (sha256 preimage) s.their_update_log)
          × (length (settle_htlc L Tx sha256 preimage s).1.our_update_log
              ≡ length s.our_update_log + 1))
        ⊎ ((waiting (sha256 preimage) s.their_update_log ≡ 0)
            × (settle_htlc L Tx sha256 preimage s ≡ (err invalid_payment_hash, s)))
  unfolding settle_htlc
  settle_htlc-waiting preimage s =
      elim (Option-cases (mark_settled (sha256 preimage) s.their_update_log)) [
        | inl p ↦
            inr (mark_settled-none (sha256 preimage) s.their_update_log p, rw (p, settle_htlc) refl)
        | inr (r, p) ↦ inl (
          r.1.index,
          rw (p, settle_htlc) refl,
          rw (p, settle_htlc) (mark_settled-waiting (sha256 preimage) s.their_update_log r p),
          rw (p, settle_htlc) (length-append s.our_update_log _),
        )
      ]

  -- The channel with one more entry that settles an HTLC of ours.
  abbrev pub with_settle : PaymentDescriptor → LightningChannel L Tx → LightningChannel L Tx
  with_settle htlc s = record s {
    their_update_log =
        s.their_update_log
        ++ (new_descriptor settle [] 0 htlc.amount s.their_log_counter htlc.index ∷ []);
    their_log_counter = next_index s.their_log_counter;
  }

  receive_htlc_settle_ok :
      (preimage : List ℕ) (log_index : ℕ) (s : LightningChannel L Tx) (htlc : PaymentDescriptor)
      → find_add log_index s.our_update_log ≡ some htlc
      → bytes_equal htlc.rhash (sha256 preimage) ≡ true
      → receive_htlc_settle L Tx sha256 preimage log_index s ≡ (ok tt, with_settle htlc s)
  unfolding receive_htlc_settle
  receive_htlc_settle_ok preimage log_index s htlc p q = rw (p, receive_htlc_settle) (rw q refl)

  -- A settle message that ReceiveHTLCSettle accepts, it accepts again: the log then has two entries
  -- that settle the one HTLC, with its amount.
  pub receive_htlc_settle_twice :
      (preimage : List ℕ) (log_index : ℕ) (s : LightningChannel L Tx)
      → (receive_htlc_settle L Tx sha256 preimage log_index s).0 ≡ ok tt
      → (htlc : PaymentDescriptor) × (find_add log_index s.our_update_log ≡ some htlc)
        × (receive_htlc_settle L Tx sha256 preimage log_index
              (receive_htlc_settle L Tx sha256 preimage log_index s).1
            ≡ (ok tt, with_settle htlc (with_settle htlc s)))
  unfolding receive_htlc_settle
  receive_htlc_settle_twice preimage log_index s e =
      elim (Option-cases (find_add log_index s.our_update_log)) [
        | inl p ↦ absurd (cc (rw (p, receive_htlc_settle) at e))
        | inr (htlc, p) ↦ elim (Bool-cases (bytes_equal htlc.rhash (sha256 preimage))) [
          | inl q ↦ (htlc, p, twice htlc p q)
          | inr q ↦ absurd (cc (rw (p, q, receive_htlc_settle) at e))
        ]
      ]
    where
      twice :
          (htlc : PaymentDescriptor)
          → find_add log_index s.our_update_log ≡ some htlc
          → bytes_equal htlc.rhash (sha256 preimage) ≡ true
          → receive_htlc_settle L Tx sha256 preimage log_index
              (receive_htlc_settle L Tx sha256 preimage log_index s).1
            ≡ (ok tt, with_settle htlc (with_settle htlc s))
      twice htlc p q =
          subst
            (λ (t : LightningChannel L Tx).
              receive_htlc_settle L Tx sha256 preimage log_index t
              ≡ (ok tt, with_settle htlc (with_settle htlc s)))
            (ap (λ (o : Outcome L Tx (Unit {0})). o.1)
              (sym (receive_htlc_settle_ok preimage log_index s htlc p q)))
            (receive_htlc_settle_ok preimage log_index (with_settle htlc s) htlc p q)
