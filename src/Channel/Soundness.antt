-- ===== src/Channel/Soundness.antt =====
-- The shape of a channel's commitment chains and revocations (lnwallet/channel.go), and that
-- signing and receiving a commitment keep it.
use lnd_cc.Prelude.{
  ℕ, ◌≤◌, ◌<◌, ◌≡◌, ◌≢◌, refl, sym, ap, ◌⊎◌, inl, inr, Bool, true, false, some, List, [], ◌∷◌, ◌++◌,
  ◌==◌, length, length-append, arith, Result, ok, err, ok-injective, Result-cases, ==_iff,
  Bool-cases, Option-cases,
}
use lnd_cc.Elkrem.{sender_at_index}
use lnd_cc.Lnwire.{WireLib}
use lnd_cc.Lnwire.CommitRevocation.{CommitRevocation}
use lnd_cc.Channel.{Fault}
use lnd_cc.Channel.View.{Evaluation, evaluate_htlc_view}
use lnd_cc.Channel.Updates.{Commitment}
use lnd_cc.Channel.Chains.{
  ChannelLib, initial_revocation_window, tip, next_height, Channel, chain_of, with_logs,
  commit_view, fetch_commitment_view, extend_remote, sign_next_commitment, extend_local,
  receive_new_commitment,
}

-- Each commitment of a chain is one above the one before it.
abbrev pub IsConsecutive : {Tx : Type 0} → List (Commitment Tx) → Type 0
IsConsecutive [] = Unit
IsConsecutive (c ∷ []) = Unit
IsConsecutive (c ∷ d ∷ chain) = (d.height ≡ next_height c.height) × IsConsecutive (d ∷ chain)

abbrev pub HasTail : {Tx : Type 0} → ℕ → List (Commitment Tx) → Type 0
HasTail h [] = ⊥
HasTail h (c ∷ chain) = c.height ≡ h

abbrev pub IsExtension : {Tx : Type 0} → List (Commitment Tx) → Commitment Tx → Type 0
IsExtension {Tx = Tx} chain d =
    (c : Commitment Tx) × (tip chain ≡ some c) × (d.height ≡ next_height c.height)

extended-IsConsecutive :
    {Tx : Type 0} (chain : List (Commitment Tx)) (d : Commitment Tx)
    → IsConsecutive chain
    → IsExtension chain d
    → IsConsecutive (chain ++ (d ∷ []))
unfolding tip
extended-IsConsecutive [] d h x = tt
extended-IsConsecutive (c ∷ []) d h (e, same, above) = (cc (same, above), tt)
extended-IsConsecutive (c ∷ c' ∷ chain) d (h, hs) (b, same, above) =
    (h, extended-IsConsecutive (c' ∷ chain) d hs (b, same, above))

extended-HasTail :
    {Tx : Type 0} (h : ℕ) (chain : List (Commitment Tx)) (d : Commitment Tx)
    → HasTail h chain
    → HasTail h (chain ++ (d ∷ []))
extended-HasTail h [] d p = absurd p
extended-HasTail h (c ∷ chain) d p = p

pub rest-IsConsecutive :
    {Tx : Type 0} (c : Commitment Tx) (chain : List (Commitment Tx))
    → IsConsecutive (c ∷ chain)
    → IsConsecutive chain
rest-IsConsecutive c [] h = tt
rest-IsConsecutive c (d ∷ chain) (h, hs) = hs

module _ (L : WireLib) (T : ChannelLib L) where
  -- At most four revocations are used and fewer than the commitments of the remote chain, the
  -- heights of both chains are consecutive, and the local one's tail is the current height.
  abbrev pub Sound :
      List (CommitRevocation L) → (remote local : List (Commitment T.Tx)) → ℕ → Type 0
  Sound used remote local height =
      (length used < length remote)
      × (length used ≤ initial_revocation_window)
      × IsConsecutive remote
      × IsConsecutive local
      × HasTail height local

  abbrev pub IsSound : Channel L T → Type 0
  IsSound s = Sound s.used_revocations s.remote_commit_chain s.local_commit_chain s.current_height

  commit_view-height :
      (chain : Bool) (i j h : ℕ) (key : L.PublicKey) (hash : List ℕ) (ev : Evaluation)
      (d : Commitment T.Tx)
      → commit_view L T chain i j h key hash ev ≡ ok d
      → d.height ≡ h
  unfolding commit_view
  commit_view-height chain i j h key hash ev d e =
      elim (Option-cases (T.create_commit_tx chain ev.balances key hash ev.outgoing ev.incoming)) [
        | inl p ↦ absurd (cc (rw (p, commit_view) at e))
        | inr (txn, p) ↦
            ap (λ (x : Commitment T.Tx). x.height) (sym (ok-injective (rw (p, commit_view) at e)))
      ]

  pub fetch_commitment_view-IsExtension :
      (chain : Bool) (i j : ℕ) (key : L.PublicKey) (hash : List ℕ) (s : Channel L T)
      (d : Commitment T.Tx)
      → (fetch_commitment_view L T chain i j key hash s).0 ≡ ok d
      → IsExtension (chain_of L T chain s) d
  unfolding fetch_commitment_view
  fetch_commitment_view-IsExtension chain i j key hash s d e =
      elim (Option-cases (tip (chain_of L T chain s))) [
        | inl p ↦ absurd (cc (rw (p, fetch_commitment_view) at e))
        | inr (c, p) ↦
            elim (Result-cases (
              evaluate_htlc_view (next_height c.height) chain i j s.our_update_log
                s.their_update_log (record { ours = c.our_balance; theirs = c.their_balance }))) [
                  | inl (x, q) ↦ absurd (cc (rw (p, q, fetch_commitment_view) at e))
                  | inr (ev, q) ↦ (
                    c,
                    p,
                    commit_view-height chain i j (next_height c.height) key hash ev d
                        (rw (p, q, fetch_commitment_view) at e),
                  )
                ]
      ]

  extend_remote-IsSound :
      (next : CommitRevocation L) (window : List (CommitRevocation L)) (s : Channel L T)
      (view : Result Fault (Commitment T.Tx))
      → length s.used_revocations ≢ initial_revocation_window
      → ((d : Commitment T.Tx) → view ≡ ok d → IsExtension s.remote_commit_chain d)
      → IsSound s
      → IsSound (extend_remote L T next window s view).1
  unfolding extend_remote
  extend_remote-IsSound next window s (err e) room x h = h
  extend_remote-IsSound next window s (ok d) room x (fewer, most, remote, local, at_tail) =
      elim (Option-cases (T.sign_output_raw d.txn)) [
        | inl p ↦ rw (p, extend_remote) (fewer, most, remote, local, at_tail)
        | inr (sig, p) ↦
            rw (p, extend_remote)
              (
                omega (
                  arith,
                  length-append s.used_revocations (next ∷ []),
                  length-append s.remote_commit_chain (d ∷ []),
                ),
                omega (arith, length-append s.used_revocations (next ∷ [])),
                extended-IsConsecutive s.remote_commit_chain d remote (x d refl),
                local,
                at_tail,
              )
      ]

  -- SignNextCommitment keeps the shape.
  pub sign_next_commitment-IsSound :
      (s : Channel L T) → IsSound s → IsSound (sign_next_commitment L T s).1
  unfolding sign_next_commitment chain_of
  sign_next_commitment-IsSound s h = elim (window_cases s.revocation_window) [
    | inl p ↦ rw (p, sign_next_commitment) h
    | inr (next, window, p) ↦
        elim (Bool-cases (length s.used_revocations == initial_revocation_window)) [
          | inl q ↦ rw (p, q, sign_next_commitment) h
          | inr q ↦
              rw (p, q, sign_next_commitment)
                (let view =
                    fetch_commitment_view L T true s.our_log_counter s.their_log_counter
                      next.next_revocation_key next.next_revocation_hash s in
                  extend_remote-IsSound next window (with_logs L T s view.1) view.0
                    (λ full.
                      cc (q, (==_iff (length s.used_revocations) initial_revocation_window).1 full))
                    (λ d e.
                      fetch_commitment_view-IsExtension true s.our_log_counter s.their_log_counter
                        next.next_revocation_key next.next_revocation_hash s d e)
                    h)
        ]
  ]
    where
      window_cases : {A : Type 0} (w : List A) → (w ≡ []) ⊎ ((x : A) × (xs : List A) × (w ≡ x ∷ xs))
      window_cases [] = inl refl
      window_cases (x ∷ xs) = inr (x, xs, refl)

  extend_local-IsSound :
      (raw_sig : List ℕ) (s : Channel L T) (view : Result Fault (Commitment T.Tx))
      → ((d : Commitment T.Tx) → view ≡ ok d → IsExtension s.local_commit_chain d)
      → IsSound s
      → IsSound (extend_local L T raw_sig s view).1
  unfolding extend_local
  extend_local-IsSound raw_sig s (err e) x h = h
  extend_local-IsSound raw_sig s (ok d) x (fewer, most, remote, local, at_tail) =
      elim (Bool-cases (T.verify d.txn raw_sig)) [
        | inr p ↦ rw (p, extend_local) (fewer, most, remote, local, at_tail)
        | inl p ↦
            rw (p, extend_local)
              (
                fewer,
                most,
                remote,
                extended-IsConsecutive s.local_commit_chain (record d { sig = raw_sig }) local
                    (x d refl),
                extended-HasTail s.current_height s.local_commit_chain (record d { sig = raw_sig })
                    at_tail,
              )
      ]

  -- ReceiveNewCommitment keeps the shape.
  pub receive_new_commitment-IsSound :
      (raw_sig : List ℕ) (our_log_index : ℕ) (s : Channel L T)
      → IsSound s
      → IsSound (receive_new_commitment L T raw_sig our_log_index s).1
  unfolding receive_new_commitment chain_of
  receive_new_commitment-IsSound raw_sig our_log_index s h =
      elim (Result-cases
        (sender_at_index T.double_sha256 s.local_elkrem (next_height s.current_height))) [
          | inl (e, p) ↦ rw (p, receive_new_commitment) h
          | inr (revocation, p) ↦
              rw (p, receive_new_commitment)
                (let key = T.derive_revocation_pubkey s.their_commit_key revocation in
                  let view =
                    fetch_commitment_view L T false our_log_index s.their_log_counter key
                      (T.sha256 revocation) s in
                  extend_local-IsSound raw_sig (with_logs L T s view.1) view.0
                    (λ d e.
                      fetch_commitment_view-IsExtension false our_log_index s.their_log_counter key
                        (T.sha256 revocation) s d e)
                    h)
        ]
