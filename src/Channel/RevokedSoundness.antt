-- ===== src/Channel/RevokedSoundness.antt =====
-- The shape of a channel's commitment chains and revocations is kept by the operations that revoke
-- commitments (lnwallet/channel.go).
use lnd_cc.Prelude.{
  ℕ, suc, ◌≤◌, ◌≡◌, ◌≢◌, refl, inl, inr, List, [], ◌∷◌, ◌++◌, length, arith, err, Result-cases,
  bytes_equal, Bool-cases,
}
use lnd_cc.Elkrem.{sender_at_index, add_next}
use lnd_cc.Lnwire.{WireLib}
use lnd_cc.Lnwire.Scripts.{zero_hash}
use lnd_cc.Lnwire.CommitRevocation.{CommitRevocation}
use lnd_cc.Channel.{nil_pointer}
use lnd_cc.Channel.Updates.{Commitment, Outcome, compact_logs, forward_pass}
use lnd_cc.Channel.Chains.{ChannelLib, next_height, Channel}
use lnd_cc.Channel.Revocations.{
  advance_local, revoke_current_commitment, extend_revocation_window, check_revocation, settle_logs,
  advance_remote, rotate, receive_revocation,
}
use lnd_cc.Channel.Soundness.{Sound, IsSound, rest-IsConsecutive}

module _ (L : WireLib) (T : ChannelLib L) where
  -- What did not panic.
  abbrev pub IsHandled : {A : Type 0} → Outcome L T.Tx A → Type 0
  IsHandled o = o.0 ≢ err nil_pointer

  advance_local-IsSound :
      (message : CommitRevocation L) (chain : List (Commitment T.Tx)) (s : Channel L T)
      → s.local_commit_chain ≡ chain
      → IsHandled (advance_local L T message chain s)
      → Sound L T s.used_revocations s.remote_commit_chain chain s.current_height
      → IsSound L T (advance_local L T message chain s).1
  unfolding advance_local
  advance_local-IsSound message [] s e fine h = absurd (fine refl)
  advance_local-IsSound message (c ∷ []) s e fine h = absurd (fine refl)
  advance_local-IsSound message (c ∷ tail ∷ chain) s e fine
        (fewer, most, remote, (above, local), at_tail) =
      (fewer, most, remote, local, cc (above, at_tail))

  -- RevokeCurrentCommitment keeps the shape.
  pub revoke_current_commitment-IsSound :
      (s : Channel L T)
      → IsHandled (revoke_current_commitment L T s)
      → IsSound L T s
      → IsSound L T (revoke_current_commitment L T s).1
  unfolding revoke_current_commitment
  revoke_current_commitment-IsSound s fine h =
      elim (Result-cases (sender_at_index T.double_sha256 s.local_elkrem s.current_height)) [
        | inl (e, p) ↦ rw (p, revoke_current_commitment) h
        | inr (current, p) ↦
            elim (Result-cases (
              sender_at_index T.double_sha256 s.local_elkrem
                (next_height s.revocation_window_edge))) [
                  | inl (e, q) ↦ rw (p, q, revoke_current_commitment) h
                  | inr (edge, q) ↦
                      rw (p, q, revoke_current_commitment)
                        (advance_local-IsSound _ s.local_commit_chain
                          (record s {
                            revocation_window_edge = next_height s.revocation_window_edge;
                          })
                          refl (rw (p, q, revoke_current_commitment) at fine) h)
                ]
      ]

  -- ExtendRevocationWindow keeps the shape.
  pub extend_revocation_window-IsSound :
      (s : Channel L T) → IsSound L T s → IsSound L T (extend_revocation_window L T s).1
  unfolding extend_revocation_window
  extend_revocation_window-IsSound s h =
      elim (Result-cases
        (sender_at_index T.double_sha256 s.local_elkrem (next_height s.revocation_window_edge))) [
          | inl (e, p) ↦ rw (p, extend_revocation_window) h
          | inr (revocation, p) ↦ rw (p, extend_revocation_window) h
        ]

  settle_logs-IsSound :
      (s : Channel L T) (remote_tail local_tail : ℕ)
      → IsSound L T s
      → IsSound L T (settle_logs L T s remote_tail local_tail).1
  unfolding settle_logs
  settle_logs-IsSound s remote_tail local_tail h =
      elim (Result-cases (
        compact_logs local_tail remote_tail s.our_update_log
          (forward_pass local_tail remote_tail s.their_update_log).0)) [
            | inl (e, p) ↦ rw (p, settle_logs) h
            | inr (logs, p) ↦ rw (p, settle_logs) h
          ]

  -- The used revocations are already one fewer here.
  advance_remote-IsSound :
      (remote local : List (Commitment T.Tx)) (s : Channel L T)
      → s.remote_commit_chain ≡ remote
      → s.local_commit_chain ≡ local
      → suc (suc (length s.used_revocations)) ≤ length remote
      → IsSound L T s
      → IsSound L T (advance_remote L T remote local s).1
  unfolding advance_remote
  advance_remote-IsSound [] local s e e' fewer h = absurd (omega arith)
  advance_remote-IsSound (revoked ∷ []) local s e e' fewer h = absurd (omega arith)
  advance_remote-IsSound (revoked ∷ tail ∷ chain) [] s e e' fewer (f, m, r, l, at_tail) =
      absurd (rw e' at at_tail)
  advance_remote-IsSound (revoked ∷ tail ∷ chain) (c ∷ local) s e e' fewer (f, m, r, l, at_tail) =
      elim (Bool-cases (T.append_to_revocation_log revoked)) [
        | inr p ↦ rw (p, advance_remote) (f, m, r, l, at_tail)
        | inl p ↦
            rw (p, advance_remote)
              (settle_logs-IsSound (record s { remote_commit_chain = tail ∷ chain }) tail.height
                c.height
                (omega arith, m, rest-IsConsecutive revoked (tail ∷ chain) (rw e at r), l, at_tail))
      ]

  rotate-IsSound :
      (message : CommitRevocation L) (used : List (CommitRevocation L)) (s : Channel L T)
      → IsHandled (rotate L T message used s)
      → Sound L T used s.remote_commit_chain s.local_commit_chain s.current_height
      → IsSound L T (rotate L T message used s).1
  unfolding rotate
  rotate-IsSound message [] s fine h = absurd (fine refl)
  rotate-IsSound message (next ∷ used) s fine (f, m, r, l, at_tail) =
      advance_remote-IsSound s.remote_commit_chain s.local_commit_chain
        (record s {
          their_current_revocation = next.next_revocation_key;
          their_current_revocation_hash = next.next_revocation_hash;
          used_revocations = used;
          revocation_window = s.revocation_window ++ (message ∷ []);
        })
        refl refl f (omega arith, omega arith, r, l, at_tail)

  -- ReceiveRevocation keeps the shape.
  pub receive_revocation-IsSound :
      (message : CommitRevocation L) (s : Channel L T)
      → IsHandled (receive_revocation L T message s)
      → IsSound L T s
      → IsSound L T (receive_revocation L T message s).1
  unfolding receive_revocation
  receive_revocation-IsSound message s fine h =
      elim (Bool-cases (bytes_equal zero_hash message.revocation)) [
        | inl p ↦ rw (p, receive_revocation) h
        | inr p ↦
            elim (Result-cases (add_next T.double_sha256 s.remote_elkrem message.revocation)) [
              | inl (e, q) ↦ rw (p, q, receive_revocation) h
              | inr (stack, q) ↦
                  elim (Result-cases (
                    check_revocation L T message.revocation (record s { remote_elkrem = stack }))) [
                      | inl (e, t) ↦ rw (p, q, t, receive_revocation) h
                      | inr (u, t) ↦
                          rw (p, q, t, receive_revocation)
                            (rotate-IsSound message s.used_revocations
                              (record s { remote_elkrem = stack })
                              (rw (p, q, t, receive_revocation) at fine) h)
                    ]
            ]
      ]
