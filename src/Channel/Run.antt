-- ===== src/Channel/Run.antt =====
-- The loops of evaluateHTLCView (lnwallet/channel.go) over the entries that remove an HTLC, as a
-- relation with a rule for each kind of round, by which the proofs go.
use mathlib.Core.Path.{subst}
use lnd_cc.Prelude.{
  ℕ, ◌≡◌, refl, inl, inr, Bool, true, false, not, ◌&&◌, some, List, [], ◌∷◌, ok, >>=-eq-ok,
  Bool-cases, Option-cases,
}
use lnd_cc.Channel.{is_add, PaymentDescriptor, Balances}
use lnd_cc.Channel.View.{process_remove_entry, find_add, in_view, Removals, remove_pass}

module _ (next_height : ℕ) (chain incoming : Bool) (bound : ℕ)
    (other : List PaymentDescriptor) where
  pub data RemoveRun : List PaymentDescriptor → Balances → Removals → Type 0 where
    done : {b : Balances} → RemoveRun [] b (record { log = []; balances = b; skip = [] })
    keep :
        (entry : PaymentDescriptor) (log : List PaymentDescriptor) (b : Balances) (r : Removals)
        → (in_view bound entry && not (is_add entry.entry_type)) ≡ false
        → RemoveRun log b r
        → RemoveRun (entry ∷ log) b (record r { log = entry ∷ r.log })
    hit :
        (entry parent : PaymentDescriptor) (log : List PaymentDescriptor) (b : Balances)
        (r : Removals)
        → in_view bound entry ≡ true
        → is_add entry.entry_type ≡ false
        → find_add entry.parent_index other ≡ some parent
        → RemoveRun log (process_remove_entry next_height chain incoming (entry, b)).1 r
        → RemoveRun (entry ∷ log) b (record r {
          log = (process_remove_entry next_height chain incoming (entry, b)).0 ∷ r.log;
          skip = parent.index ∷ r.skip;
        })

  both_true : (a b : Bool) → (a && not b) ≡ true → (a ≡ true) × (b ≡ false)
  both_true true false e = (refl, refl)
  both_true true true e = cc
  both_true false b e = cc

  pub remove_pass-RemoveRun :
      (log : List PaymentDescriptor) (b : Balances) (r : Removals)
      → remove_pass next_height chain incoming bound other log b ≡ ok r
      → RemoveRun log b r
  unfolding remove_pass
  remove_pass-RemoveRun [] b r e = subst (λ t. RemoveRun [] b t) (cc) done
  remove_pass-RemoveRun (entry ∷ log) b r e =
      elim (Bool-cases (in_view bound entry && not (is_add entry.entry_type))) [
        | inr out ↦
            let (t, rest, here) =
              >>=-eq-ok (remove_pass next_height chain incoming bound other log b) _
                (rw (out, remove_pass) at e) in
            subst (λ t. RemoveRun (entry ∷ log) b t) (cc)
              (keep entry log b t out (remove_pass-RemoveRun log b t rest))
        | inl covered ↦ elim (Option-cases (find_add entry.parent_index other)) [
          | inl missing ↦ absurd (cc (rw (covered, missing, remove_pass) at e))
          | inr (parent, found) ↦
              let (t, rest, here) =
                >>=-eq-ok
                  (remove_pass next_height chain incoming bound other log
                    (process_remove_entry next_height chain incoming (entry, b)).1)
                  _ (rw (covered, found, remove_pass) at e) in
              let (inside, removal) = both_true _ _ covered in
              subst (λ t. RemoveRun (entry ∷ log) b t) (cc)
                (hit entry parent log b t inside removal found (remove_pass-RemoveRun log _ t rest))
        ]
      ]
