-- ===== src/Channel/Steps.antt =====
-- Runs of a channel (lnwallet/channel.go): its operations in any order, from a new channel on.
use lnd_cc.Prelude.{
  ℕ, ◌≡◌, refl, inl, inr, List, [], ◌∷◌, arith, bytes_equal, Bool-cases, Option-cases,
}
use lnd_cc.Elkrem.{ElkremNode}
use lnd_cc.Lnwire.{WireLib, OutPoint}
use lnd_cc.Lnwire.CommitRevocation.{CommitRevocation}
use lnd_cc.Lnwire.HtlcAddRequest.{HtlcAddRequest}
use lnd_cc.Channel.View.{find_add}
use lnd_cc.Channel.Updates.{
  StoredHtlc, mark_settled, add_htlc, receive_htlc, settle_htlc, receive_htlc_settle,
}
use lnd_cc.Channel.Chains.{
  ChannelLib, Channel, new_lightning_channel, sign_next_commitment, receive_new_commitment,
}
use lnd_cc.Channel.Revocations.{
  revoke_current_commitment, extend_revocation_window, receive_revocation,
}
use lnd_cc.Channel.Soundness.{IsSound, sign_next_commitment-IsSound, receive_new_commitment-IsSound}
use lnd_cc.Channel.RevokedSoundness.{
  IsHandled, revoke_current_commitment-IsSound, extend_revocation_window-IsSound,
  receive_revocation-IsSound,
}

module _ (L : WireLib) (T : ChannelLib L) where
  -- One call of an operation, with or without an error; a revocation that panics is none.
  pub data Step : Channel L T → Channel L T → Type 0 where
    adds : (htlc : HtlcAddRequest L) (s : Channel L T) → Step s (add_htlc L T.Tx htlc s).1
    receives_add :
        (htlc : HtlcAddRequest L) (s : Channel L T) → Step s (receive_htlc L T.Tx htlc s).1
    settles :
        (preimage : List ℕ) (s : Channel L T) → Step s (settle_htlc L T.Tx T.sha256 preimage s).1
    receives_settle :
        (preimage : List ℕ) (log_index : ℕ) (s : Channel L T)
        → Step s (receive_htlc_settle L T.Tx T.sha256 preimage log_index s).1
    signs : (s : Channel L T) → Step s (sign_next_commitment L T s).1
    receives_commitment :
        (raw_sig : List ℕ) (our_log_index : ℕ) (s : Channel L T)
        → Step s (receive_new_commitment L T raw_sig our_log_index s).1
    revokes :
        (s : Channel L T)
        → IsHandled L T (revoke_current_commitment L T s)
        → Step s (revoke_current_commitment L T s).1
    receives_revocation :
        (message : CommitRevocation L) (s : Channel L T)
        → IsHandled L T (receive_revocation L T message s)
        → Step s (receive_revocation L T message s).1
    extends_window : (s : Channel L T) → Step s (extend_revocation_window L T s).1

  pub data Reach (start : Channel L T) : Channel L T → Type 0 where
    here : Reach start start
    after : {s t : Channel L T} → Reach start s → Step s t → Reach start t

  add_htlc-IsSound :
      (htlc : HtlcAddRequest L) (s : Channel L T)
      → IsSound L T s
      → IsSound L T (add_htlc L T.Tx htlc s).1 × IsSound L T (receive_htlc L T.Tx htlc s).1
  unfolding add_htlc receive_htlc
  add_htlc-IsSound htlc s h = by_hashes htlc.redemption_hashes refl
    where
      by_hashes :
          (hashes : List (List ℕ))
          → htlc.redemption_hashes ≡ hashes
          → IsSound L T (add_htlc L T.Tx htlc s).1 × IsSound L T (receive_htlc L T.Tx htlc s).1
      by_hashes [] e = (rw (e, add_htlc) h, rw (e, receive_htlc) h)
      by_hashes (x ∷ xs) e = (rw (e, add_htlc) h, rw (e, receive_htlc) h)

  settle_htlc-IsSound :
      (preimage : List ℕ) (s : Channel L T)
      → IsSound L T s
      → IsSound L T (settle_htlc L T.Tx T.sha256 preimage s).1
  unfolding settle_htlc
  settle_htlc-IsSound preimage s h =
      elim (Option-cases (mark_settled (T.sha256 preimage) s.their_update_log)) [
        | inl p ↦ rw (p, settle_htlc) h
        | inr (r, p) ↦ rw (p, settle_htlc) h
      ]

  receive_htlc_settle-IsSound :
      (preimage : List ℕ) (log_index : ℕ) (s : Channel L T)
      → IsSound L T s
      → IsSound L T (receive_htlc_settle L T.Tx T.sha256 preimage log_index s).1
  unfolding receive_htlc_settle
  receive_htlc_settle-IsSound preimage log_index s h =
      elim (Option-cases (find_add log_index s.our_update_log)) [
        | inl p ↦ rw (p, receive_htlc_settle) h
        | inr (htlc, p) ↦ elim (Bool-cases (bytes_equal htlc.rhash (T.sha256 preimage))) [
          | inl q ↦ rw (p, q, receive_htlc_settle) h
          | inr q ↦ rw (p, q, receive_htlc_settle) h
        ]
      ]

  Step-IsSound : {s t : Channel L T} → Step s t → IsSound L T s → IsSound L T t
  Step-IsSound (adds htlc s) h = (add_htlc-IsSound htlc s h).0
  Step-IsSound (receives_add htlc s) h = (add_htlc-IsSound htlc s h).1
  Step-IsSound (settles preimage s) h = settle_htlc-IsSound preimage s h
  Step-IsSound (receives_settle preimage log_index s) h =
      receive_htlc_settle-IsSound preimage log_index s h
  Step-IsSound (signs s) h = sign_next_commitment-IsSound L T s h
  Step-IsSound (receives_commitment raw_sig our_log_index s) h =
      receive_new_commitment-IsSound L T raw_sig our_log_index s h
  Step-IsSound (revokes s fine) h = revoke_current_commitment-IsSound L T s fine h
  Step-IsSound (receives_revocation message s fine) h =
      receive_revocation-IsSound L T message s fine h
  Step-IsSound (extends_window s) h = extend_revocation_window-IsSound L T s h

  -- A new channel, as NewLightningChannel makes it out of the stored state.
  pub data IsNew : Channel L T → Type 0 where
    made :
        (num_updates our_balance their_balance : ℕ) (htlcs : List StoredHtlc)
        (local_elkrem : List ℕ) (remote_elkrem : List ElkremNode)
        (ours theirs revocation : L.PublicKey) (hash : List ℕ) (chan_id : OutPoint)
        → IsNew (
            new_lightning_channel L T num_updates our_balance their_balance htlcs local_elkrem
              remote_elkrem ours theirs revocation hash chan_id)

  IsNew-IsSound : {s : Channel L T} → IsNew s → IsSound L T s
  unfolding new_lightning_channel
  IsNew-IsSound (made n ob tb htlcs le re ours theirs r hash id) =
      (omega arith, omega arith, tt, tt, refl)

  -- After any calls of the operations on a new channel, in any order, with or without errors but
  -- without a panic in a revocation,
  -- at most four revocations are used, fewer than the commitments of the remote chain, the heights
  -- of both chains are consecutive, and the local chain's tail is at the current height.
  pub Reach-IsSound : {start s : Channel L T} → IsNew start → Reach start s → IsSound L T s
  Reach-IsSound new here = IsNew-IsSound new
  Reach-IsSound new (after run step) = Step-IsSound step (Reach-IsSound new run)
