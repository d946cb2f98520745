-- ===== src/Channel/Ledger.antt =====
-- The money that lnwallet/channel.go moves between the balances and the HTLCs when it evaluates
-- the logs: what is debited and what is credited for each entry, once.
use mathlib.Core.Path.{subst}
use lnd_cc.Prelude.{
  ℕ, ◌+◌, ◌%◌, ◌^◌, ◌≡◌, ◌≢◌, refl, inl, inr, Bool, true, false, not, ◌&&◌, List, [], ◌∷◌, ◌==◌,
  if◌then◌else◌, arith, ok, >>=-eq-ok, ok-injective, Bool-cases,
}
use lnd_cc.Channel.{UpdateType, add, timeout, settle, is_add, PaymentDescriptor, Balances}
use lnd_cc.Channel.Run.{RemoveRun, done, keep, hit, remove_pass-RemoveRun}
use lnd_cc.Channel.View.{
  add_height, remove_height, set_add_height, set_remove_height, process_add_entry,
  process_remove_entry, debit, credit, in_view, Removals, remove_pass, member, Additions, add_pass,
  Evaluation, evaluate_htlc_view,
}

-- What an entry has taken from the balances of a chain, and what it has given back.
pub debited_by : Bool → PaymentDescriptor → ℕ
debited_by chain htlc =
    if is_add htlc.entry_type then (if add_height chain htlc == 0 then 0 else htlc.amount) else 0

pub credited_by : Bool → PaymentDescriptor → ℕ
credited_by chain htlc =
    if is_add htlc.entry_type then 0 else (if remove_height chain htlc == 0 then 0 else htlc.amount)

pub debited : Bool → List PaymentDescriptor → ℕ
debited chain [] = 0
debited chain (htlc ∷ log) = debited_by chain htlc + debited chain log

pub credited : Bool → List PaymentDescriptor → ℕ
credited chain [] = 0
credited chain (htlc ∷ log) = credited_by chain htlc + credited chain log

credit_total :
    (incoming : Bool) (t : UpdateType) (a : ℕ) (b : Balances)
    → is_add t ≡ false
    → ((credit incoming t a b).ours + (credit incoming t a b).theirs) % 2 ^ 64
      ≡ (b.ours + b.theirs + a) % 2 ^ 64
unfolding credit is_add
credit_total true settle a b e = omega arith
credit_total true timeout a b e = omega arith
credit_total false settle a b e = omega arith
credit_total false timeout a b e = omega arith
credit_total true add a b e = cc
credit_total false add a b e = cc

debit_total :
    (incoming : Bool) (a : ℕ) (b : Balances)
    → ((debit incoming a b).ours + (debit incoming a b).theirs + a) % 2 ^ 64
      ≡ (b.ours + b.theirs) % 2 ^ 64
unfolding debit
debit_total true a b = omega arith
debit_total false a b = omega arith

middle_true : (a b c : Bool) → (a && (b && c)) ≡ true → b ≡ true
middle_true true true c e = refl
middle_true true false c e = cc
middle_true false b c e = cc

module _ (next_height : ℕ) (positive : next_height ≢ 0) (chain incoming : Bool) where
  -- What one removal does.
  abbrev RemoveStep : (htlc htlc' : PaymentDescriptor) (b b' : Balances) → Type 0
  RemoveStep htlc htlc' b b' =
      ((b'.ours + b'.theirs + credited_by chain htlc) % 2 ^ 64
        ≡ (b.ours + b.theirs + credited_by chain htlc') % 2 ^ 64)
      × (debited_by chain htlc' ≡ debited_by chain htlc)

  remove_entry_step :
      (htlc : PaymentDescriptor) (b : Balances)
      → is_add htlc.entry_type ≡ false
      → RemoveStep htlc
          (process_remove_entry next_height chain incoming (htlc, b)).0
          b
          (process_remove_entry next_height chain incoming (htlc, b)).1
  unfolding process_remove_entry credited_by debited_by remove_height set_remove_height
  remove_entry_step htlc b e = ground (arith, credit_total incoming htlc.entry_type htlc.amount b)

  abbrev AddStep : (htlc htlc' : PaymentDescriptor) (b b' : Balances) → Type 0
  AddStep htlc htlc' b b' =
      ((b'.ours + b'.theirs + debited_by chain htlc') % 2 ^ 64
        ≡ (b.ours + b.theirs + debited_by chain htlc) % 2 ^ 64)
      × (credited_by chain htlc' ≡ credited_by chain htlc)

  add_entry_step :
      (htlc : PaymentDescriptor) (b : Balances)
      → is_add htlc.entry_type ≡ true
      → AddStep htlc
          (process_add_entry next_height chain incoming (htlc, b)).0
          b
          (process_add_entry next_height chain incoming (htlc, b)).1
  unfolding process_add_entry credited_by debited_by add_height set_add_height
  add_entry_step htlc b e = ground (arith, debit_total incoming htlc.amount b)

  -- What a loop over removals does.
  abbrev pub RemovePass : List PaymentDescriptor → Balances → Removals → Type 0
  RemovePass log b r =
      ((r.balances.ours + r.balances.theirs + credited chain log) % 2 ^ 64
        ≡ (b.ours + b.theirs + credited chain r.log) % 2 ^ 64)
      × (debited chain r.log ≡ debited chain log)

  RemoveRun-RemovePass :
      {bound : ℕ} {other log : List PaymentDescriptor} {b : Balances} {r : Removals}
      → RemoveRun next_height chain incoming bound other log b r
      → RemovePass log b r
  unfolding credited debited
  RemoveRun-RemovePass done = omega arith
  RemoveRun-RemovePass (keep entry log b r out run) = omega (arith, RemoveRun-RemovePass run)
  RemoveRun-RemovePass (hit entry parent log b r covered removal found run) =
      omega (arith, RemoveRun-RemovePass run, remove_entry_step entry b removal)

  abbrev pub AddPass : List PaymentDescriptor → Balances → Additions → Type 0
  AddPass log b r =
      ((r.balances.ours + r.balances.theirs + debited chain r.log) % 2 ^ 64
        ≡ (b.ours + b.theirs + debited chain log) % 2 ^ 64)
      × (credited chain r.log ≡ credited chain log)

  add_pass-AddPass :
      (bound : ℕ) (skip : List ℕ) (log : List PaymentDescriptor) (b : Balances)
      → AddPass log b (add_pass next_height chain incoming bound skip log b)
  unfolding add_pass credited debited
  add_pass-AddPass bound skip [] b = omega arith
  add_pass-AddPass bound skip (entry ∷ log) b =
      elim (Bool-cases
        (in_view bound entry && (is_add entry.entry_type && not (member entry.index skip)))) [
          | inl e ↦
              rw (e, add_pass)
                (omega (
                  arith,
                  add_pass-AddPass bound skip log
                      (process_add_entry next_height chain incoming (entry, b)).1,
                  add_entry_step entry b (middle_true _ _ _ e),
                ))
          | inr e ↦ rw (e, add_pass) (omega (arith, add_pass-AddPass bound skip log b))
        ]

-- The balances plus what the entries have debited, less what they have credited, are the same
-- before and after, in the arithmetic of the amounts.
abbrev pub IsBalanced :
    Bool → (our_log their_log : List PaymentDescriptor) → Balances → Evaluation → Type 0
IsBalanced chain our_log their_log b ev =
    (ev.balances.ours
        + ev.balances.theirs
        + (debited chain ev.our_log + debited chain ev.their_log)
        + (credited chain our_log + credited chain their_log))
      % 2 ^ 64
    ≡ (b.ours
        + b.theirs
        + (debited chain our_log + debited chain their_log)
        + (credited chain ev.our_log + credited chain ev.their_log))
      % 2 ^ 64

passes-IsBalanced :
    (next_height : ℕ) (nz : next_height ≢ 0) (chain : Bool)
    (our_log their_log : List PaymentDescriptor) (b : Balances) (us them : Removals)
    (out inc : Additions)
    → RemovePass next_height nz chain true our_log b us
    → RemovePass next_height nz chain false their_log us.balances them
    → AddPass next_height nz chain false us.log them.balances out
    → AddPass next_height nz chain true them.log out.balances inc
    → IsBalanced chain our_log their_log b (record {
      our_log = out.log;
      their_log = inc.log;
      balances = inc.balances;
      outgoing = out.pending;
      incoming = inc.pending;
    })
passes-IsBalanced next_height nz chain our_log their_log b us them out inc p q r t = omega arith

-- The evaluation of a view for a chain, at a height that is not 0, keeps the balances plus what
-- the logs' entries have debited, less what they have credited, modulo 2 ^ 64.
pub evaluate_htlc_view-IsBalanced :
    (next_height : ℕ) (chain : Bool) (our_bound their_bound : ℕ)
    (our_log their_log : List PaymentDescriptor) (b : Balances) (ev : Evaluation)
    → next_height ≢ 0
    → evaluate_htlc_view next_height chain our_bound their_bound our_log their_log b ≡ ok ev
    → IsBalanced chain our_log their_log b ev
unfolding evaluate_htlc_view
evaluate_htlc_view-IsBalanced next_height chain our_bound their_bound our_log their_log b ev nz e =
    let (us, first, e₁) =
      >>=-eq-ok (remove_pass next_height chain true our_bound their_log our_log b) _ e in
    let (them, second, e₂) =
      >>=-eq-ok (remove_pass next_height chain false their_bound our_log their_log us.balances) _
        e₁ in
    let out = add_pass next_height chain false our_bound them.skip us.log them.balances in
    let inc = add_pass next_height chain true their_bound us.skip them.log out.balances in
    subst (λ v. IsBalanced chain our_log their_log b v) (ok-injective e₂)
      (passes-IsBalanced next_height nz chain our_log their_log b us them out inc
        (RemoveRun-RemovePass next_height nz chain true
          (remove_pass-RemoveRun next_height chain true our_bound their_log our_log b us first))
        (RemoveRun-RemovePass next_height nz chain false (
          remove_pass-RemoveRun next_height chain false their_bound our_log their_log us.balances
            them second))
        (add_pass-AddPass next_height nz chain false our_bound them.skip us.log them.balances)
        (add_pass-AddPass next_height nz chain true their_bound us.skip them.log out.balances))
