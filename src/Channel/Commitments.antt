-- ===== src/Channel/Commitments.antt =====
-- The balances of a new commitment (fetchCommitmentView, lnwallet/channel.go) and the entries of the
-- logs that it covers.
use lnd_cc.Prelude.{
  ℕ, ◌+◌, ◌%◌, ◌^◌, ◌≡◌, ◌≢◌, sym, ap, inl, inr, Bool, some, List, arith, ok, ok-injective,
  Result-cases, Result-cases, Option-cases,
}
use lnd_cc.Lnwire.{WireLib}
use lnd_cc.Channel.View.{Evaluation, evaluate_htlc_view}
use lnd_cc.Channel.Ledger.{debited, credited, evaluate_htlc_view-IsBalanced}
use lnd_cc.Channel.Updates.{Commitment}
use lnd_cc.Channel.Chains.{
  ChannelLib, tip, next_height, Channel, chain_of, Logs, commit_view, fetch_commitment_view,
}

module _ (L : WireLib) (T : ChannelLib L) where
  -- The balances of a commitment plus what the logs before it have credited and the logs after it
  -- have debited.
  abbrev pub ledger : Bool → Commitment T.Tx → (credits debits : Logs L T) → ℕ
  ledger chain c credits debits =
      (c.our_balance
        + c.their_balance
        + (debited chain debits.0 + debited chain debits.1)
        + (credited chain credits.0 + credited chain credits.1))
      % 2 ^ 64

  commit_view-balances :
      (chain : Bool) (i j h : ℕ) (key : L.PublicKey) (hash : List ℕ) (ev : Evaluation)
      (d : Commitment T.Tx)
      → commit_view L T chain i j h key hash ev ≡ ok d
      → (d.our_balance ≡ ev.balances.ours) × (d.their_balance ≡ ev.balances.theirs)
  unfolding commit_view
  commit_view-balances chain i j h key hash ev d e =
      elim (Option-cases (T.create_commit_tx chain ev.balances key hash ev.outgoing ev.incoming)) [
        | inl p ↦ absurd (cc (rw (p, commit_view) at e))
        | inr (txn, p) ↦
            let same = sym (ok-injective (rw (p, commit_view) at e)) in
            (
              ap (λ (x : Commitment T.Tx). x.our_balance) same,
              ap (λ (x : Commitment T.Tx). x.their_balance) same,
            )
      ]

  -- A new commitment for a chain, whose height does not wrap to 0, moves between its balances and
  -- those of the chain's tip exactly what the logs' entries were debited and credited meanwhile,
  -- modulo 2 ^ 64.
  pub fetch_commitment_view-ledger :
      (chain : Bool) (i j : ℕ) (key : L.PublicKey) (hash : List ℕ) (s : Channel L T)
      (c d : Commitment T.Tx)
      → tip (chain_of L T chain s) ≡ some c
      → next_height c.height ≢ 0
      → (fetch_commitment_view L T chain i j key hash s).0 ≡ ok d
      → ledger chain d
          (s.our_update_log, s.their_update_log)
          (fetch_commitment_view L T chain i j key hash s).1
        ≡ ledger chain c
            (fetch_commitment_view L T chain i j key hash s).1
            (s.our_update_log, s.their_update_log)
  unfolding fetch_commitment_view
  fetch_commitment_view-ledger chain i j key hash s c d p nz e =
      elim (Result-cases (
        evaluate_htlc_view (next_height c.height) chain i j s.our_update_log s.their_update_log
          (record { ours = c.our_balance; theirs = c.their_balance }))) [
            | inl (x, q) ↦ absurd (cc (rw (p, q, fetch_commitment_view) at e))
            | inr (ev, q) ↦
                let same =
                  commit_view-balances chain i j (next_height c.height) key hash ev d
                    (rw (p, q, fetch_commitment_view) at e) in
                let balanced =
                  evaluate_htlc_view-IsBalanced (next_height c.height) chain i j s.our_update_log
                    s.their_update_log (record { ours = c.our_balance; theirs = c.their_balance })
                    ev nz q in
                rw (p, q, fetch_commitment_view) (omega (arith, same.0, same.1, balanced))
          ]
