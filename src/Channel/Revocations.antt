-- ===== src/Channel/Revocations.antt =====
-- lnwallet/channel.go: the revocation of commitments (RevokeCurrentCommitment,
-- ExtendRevocationWindow, ReceiveRevocation). Panics are as in Channel/Chains.antt.
use lnd_cc.Prelude.{
  ℕ, ◌||◌, List, [], ◌∷◌, ◌++◌, if◌then◌else◌, Result, ok, err, ◌>>◌, guard, bytes_equal,
}
use lnd_cc.Elkrem.{sender_at_index, add_next}
use lnd_cc.Lnwire.{WireLib}
use lnd_cc.Lnwire.Scripts.{zero_hash}
use lnd_cc.Lnwire.CommitRevocation.{CommitRevocation}
use lnd_cc.Channel.{
  PaymentDescriptor, Fault, nil_pointer, elkrem_failed, key_mismatch, hash_mismatch, storage_failed,
}
use lnd_cc.Channel.Updates.{Commitment, Outcome, compact_logs, forward_pass}
use lnd_cc.Channel.Chains.{ChannelLib, next_height, Channel, with_logs}

module _ (L : WireLib) (T : ChannelLib L) where
  -- The end of RevokeCurrentCommitment: the tail is dropped, and the new one stored.
  unfoldable pub advance_local :
      CommitRevocation L
      → List (Commitment T.Tx)
      → Channel L T
      → Outcome L T.Tx (CommitRevocation L)
  advance_local message [] s = (err nil_pointer, s)
  advance_local message (c ∷ []) s = (
    err nil_pointer,
    record s { local_commit_chain = []; current_height = next_height s.current_height },
  )
  advance_local message (c ∷ tail ∷ chain) s = (
    (if T.update_commitment tail then ok message else err storage_failed),
    record s { local_commit_chain = tail ∷ chain; current_height = next_height s.current_height },
  )

  unfoldable pub revoke_current_commitment : Channel L T → Outcome L T.Tx (CommitRevocation L)
  unfolding advance_local
  revoke_current_commitment s =
      elim (sender_at_index T.double_sha256 s.local_elkrem s.current_height) [
        | err e ↦ (err elkrem_failed, s)
        | ok current ↦
            let s' = record s { revocation_window_edge = next_height s.revocation_window_edge } in
            elim (sender_at_index T.double_sha256 s.local_elkrem s'.revocation_window_edge) [
              | err e ↦ (err elkrem_failed, s')
              | ok edge ↦
                  advance_local
                    (record {
                      channel_point = s.chan_id;
                      revocation = current;
                      next_revocation_key = T.derive_revocation_pubkey s.their_commit_key edge;
                      next_revocation_hash = T.sha256 edge;
                    })
                    s.local_commit_chain s'
            ]
      ]

  unfoldable pub extend_revocation_window : Channel L T → Outcome L T.Tx (CommitRevocation L)
  extend_revocation_window s =
      elim (sender_at_index T.double_sha256 s.local_elkrem (next_height s.revocation_window_edge)) [
        | err e ↦ (err elkrem_failed, s)
        | ok revocation ↦ (
          ok (record {
            channel_point = s.chan_id;
            revocation = zero_hash;
            next_revocation_key = T.derive_revocation_pubkey s.their_commit_key revocation;
            next_revocation_hash = T.sha256 revocation;
          }),
          record s { revocation_window_edge = next_height s.revocation_window_edge },
        )
      ]

  -- The two checks of a revocation against the commitment that it revokes.
  unfoldable pub check_revocation : List ℕ → Channel L T → Result Fault (Unit {0})
  check_revocation revocation s = do
    guard
        (T.is_equal (T.derive_revocation_pubkey s.our_commit_key revocation)
          s.their_current_revocation)
        key_mismatch
    guard
        (bytes_equal s.their_current_revocation_hash zero_hash
          || bytes_equal s.their_current_revocation_hash (T.sha256 revocation))
        hash_mismatch

  -- ReceiveRevocation from the forwarding loop on, with the tails of both chains.
  unfoldable pub settle_logs :
      Channel L T → (remote_tail local_tail : ℕ) → Outcome L T.Tx (List PaymentDescriptor)
  settle_logs s remote_tail local_tail =
      let forwarded = forward_pass local_tail remote_tail s.their_update_log in
      elim (compact_logs local_tail remote_tail s.our_update_log forwarded.0) [
        | err e ↦ (err e, with_logs L T s (s.our_update_log, forwarded.0))
        | ok logs ↦ (ok forwarded.1, with_logs L T s logs)
      ]

  -- ReceiveRevocation from the storage of the revoked commitment on, with the chains.
  unfoldable pub advance_remote :
      (remote local : List (Commitment T.Tx))
      → Channel L T
      → Outcome L T.Tx (List PaymentDescriptor)
  unfolding settle_logs
  advance_remote [] local s = (err nil_pointer, s)
  advance_remote (revoked ∷ []) local s =
      (if T.append_to_revocation_log revoked
        then (err nil_pointer, record s { remote_commit_chain = [] })
        else (err storage_failed, s))
  advance_remote (revoked ∷ tail ∷ chain) [] s =
      (if T.append_to_revocation_log revoked
        then (err nil_pointer, record s { remote_commit_chain = tail ∷ chain })
        else (err storage_failed, s))
  advance_remote (revoked ∷ tail ∷ chain) (c ∷ local) s =
      if T.append_to_revocation_log revoked
      then settle_logs (record s { remote_commit_chain = tail ∷ chain }) tail.height c.height
      else (err storage_failed, s)

  -- ReceiveRevocation from the rotation of the revocations on.
  unfoldable pub rotate :
      CommitRevocation L
      → List (CommitRevocation L)
      → Channel L T
      → Outcome L T.Tx (List PaymentDescriptor)
  unfolding advance_remote
  rotate message [] s = (err nil_pointer, s)
  rotate message (next ∷ used) s =
      advance_remote s.remote_commit_chain s.local_commit_chain (record s {
        their_current_revocation = next.next_revocation_key;
        their_current_revocation_hash = next.next_revocation_hash;
        used_revocations = used;
        revocation_window = s.revocation_window ++ (message ∷ []);
      })

  unfoldable pub receive_revocation :
      CommitRevocation L → Channel L T → Outcome L T.Tx (List PaymentDescriptor)
  unfolding check_revocation rotate
  receive_revocation message s =
      if bytes_equal zero_hash message.revocation
      then (ok [], record s { revocation_window = s.revocation_window ++ (message ∷ []) })
      else elim (add_next T.double_sha256 s.remote_elkrem message.revocation) [
        | err e ↦ (err elkrem_failed, s)
        | ok stack ↦
            let s' = record s { remote_elkrem = stack } in
            elim (check_revocation message.revocation s') [
              | err e ↦ (err e, s')
              | ok u ↦ rotate message s.used_revocations s'
            ]
      ]
