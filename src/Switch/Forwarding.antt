-- ===== src/Switch/Forwarding.antt =====
-- htlcswitch.go: what a payment does to the bandwidths of the links, and where it goes.
use lnd_cc.Prelude.{
  ℕ, zero, suc, ◌+◌, ◌-◌, ◌^◌, ◌*◌, ◌≤◌, ◌<◌, ◌≡◌, refl, sym, ap, ◌∙◌, inl, inr, false, Option,
  none, some, List, [], ◌∷◌, map, ltb, ◌==◌, if◌then◌else◌, length, arith, ok, ltb→le, All,
  Bool-cases,
}
use lnd_cc.Prelude.{get_elem?}
use lnd_cc.Channel.{sub64}
use lnd_cc.Switch.{
  Sender, Link, HtlcPacket, HtlcSwitch, less64, set_bandwidth, set_link, deref, send_over,
  with_links, outcome_of, send_amount, forward_payment, add_request,
}
use lnd_cc.Switch.Senders.{StartsIn, StartsIn-cons, HandsOver, StartsIn-HandsOver}

-- Amounts that are not negative.
abbrev pub IsAmount : ℕ → Type 0
IsAmount a = a < 2 ^ 63

abbrev pub IsSolvent : Link → Type 0
IsSolvent l = IsAmount l.available_bandwidth

-- The sum of all bandwidths, a number without bound.
unfoldable pub total_bandwidth : List Link → ℕ
total_bandwidth [] = 0
total_bandwidth (l ∷ ls) = l.available_bandwidth + total_bandwidth ls

less64_lem : (a b : ℕ) → IsAmount a → IsAmount b → less64 a b ≡ ltb a b
less64_lem a b h k = ground arith

sub64_lem : (a b : ℕ) → IsAmount a → b ≤ a → sub64 a b ≡ a - b
sub64_lem a b h k = omega arith

total-set_link :
    (links : List Link) (p : ℕ) (l m : Link)
    → get_elem? links p ≡ some l
    → total_bandwidth (set_link p m links) + l.available_bandwidth
      ≡ total_bandwidth links + m.available_bandwidth
unfolding total_bandwidth set_link
total-set_link [] p l m e = absurd (cc (e))
total-set_link (x ∷ xs) zero l m e =
    let same : x.available_bandwidth ≡ l.available_bandwidth = cc (e) in omega (arith, same)
total-set_link (x ∷ xs) (suc p) l m e = omega (arith, total-set_link xs p l m e)

All-set_link :
    (links : List Link) (p : ℕ) (m : Link)
    → All IsSolvent links
    → IsSolvent m
    → All IsSolvent (set_link p m links)
unfolding set_link
All-set_link [] p m h k = tt
All-set_link (x ∷ xs) zero m (h, hs) k = (k, hs)
All-set_link (x ∷ xs) (suc p) m (h, hs) k = (h, All-set_link xs p m hs k)

get-IsSolvent :
    (links : List Link) (p : ℕ) (l : Link)
    → All IsSolvent links
    → get_elem? links p ≡ some l
    → IsSolvent l
get-IsSolvent [] p l h e = absurd (cc (e))
get-IsSolvent (x ∷ xs) zero l (h, hs) e =
    let same : x.available_bandwidth ≡ l.available_bandwidth = cc (e) in omega (arith, same)
get-IsSolvent (x ∷ xs) (suc p) l (h, hs) e = get-IsSolvent xs p l hs e

pub length-set_link :
    (links : List Link) (p : ℕ) (m : Link) → length (set_link p m links) ≡ length links
unfolding set_link
length-set_link [] p m = refl
length-set_link (x ∷ xs) zero m = refl
length-set_link (x ∷ xs) (suc p) m = ap suc (length-set_link xs p m)

get-set_link_other :
    (links : List Link) (p q : ℕ) (m : Link)
    → (p == q) ≡ false
    → get_elem? (set_link p m links) q ≡ get_elem? links q
unfolding set_link
get-set_link_other [] p q m h = refl
get-set_link_other (x ∷ xs) zero zero m h = absurd (ground arith)
get-set_link_other (x ∷ xs) zero (suc q) m h = refl
get-set_link_other (x ∷ xs) (suc p) zero m h = refl
get-set_link_other (x ∷ xs) (suc p) (suc q) m h = get-set_link_other xs p q m (ground arith)

pub get-within :
    (links : List Link) (p : ℕ) → p < length links → (l : Link) × (get_elem? links p ≡ some l)
get-within [] p h = absurd (omega arith)
get-within (x ∷ xs) zero h = (x, refl)
get-within (x ∷ xs) (suc p) h = get-within xs p (omega arith)

unfoldable select : (amt p : ℕ) → Option Link → List ℕ → List ℕ
select amt p none others = others
select amt p (some l) others = if ltb l.available_bandwidth amt then others else p ∷ others

-- The links of an interface that have the bandwidth for a payment.
unfoldable pub recipients : (amt : ℕ) → List ℕ → List Link → List ℕ
unfolding select
recipients amt [] links = []
recipients amt (p ∷ ps) links = select amt p (get_elem? links p) (recipients amt ps links)

abbrev pub NotIn : ℕ → List ℕ → Type 0
NotIn p ps = All (λ q. (p == q) ≡ false) ps

abbrev pub Distinct : List ℕ → Type 0
Distinct [] = Unit
Distinct (p ∷ ps) = NotIn p ps × Distinct ps

-- Pointers to links of the heap.
abbrev pub Within : List Link → List ℕ → Type 0
Within links ps = All (λ p. p < length links) ps

recipients-set_link :
    (amt : ℕ) (ps : List ℕ) (links : List Link) (p : ℕ) (m : Link)
    → NotIn p ps
    → recipients amt ps (set_link p m links) ≡ recipients amt ps links
unfolding recipients
recipients-set_link amt [] links p m h = refl
recipients-set_link amt (q ∷ ps) links p m (h, hs) =
    rw (get-set_link_other links p q m h, recipients-set_link amt ps links p m hs)

pub Within-set_link :
    (ps : List ℕ) (links : List Link) (p : ℕ) (m : Link)
    → Within links ps
    → Within (set_link p m links) ps
Within-set_link [] links p m h = tt
Within-set_link (q ∷ ps) links p m (h, hs) =
    (omega (arith, length-set_link links p m), Within-set_link ps links p m hs)

-- What a payment of amt over an interface leaves: solvent links that have lost its amount once for
-- each recipient.
abbrev pub Debits : (amt : ℕ) → List ℕ → (links links' : List Link) → Type 0
Debits amt used links links' =
    All IsSolvent links' × (total_bandwidth links' + amt * length used ≡ total_bandwidth links)

one_debit :
    (amt : ℕ) (links : List Link) (p : ℕ) (l : Link)
    → All IsSolvent links
    → get_elem? links p ≡ some l
    → ltb l.available_bandwidth amt ≡ false
    → Debits amt
        (p ∷ [])
        links
        (set_link p (set_bandwidth (sub64 l.available_bandwidth amt) l) links)
unfolding set_bandwidth
one_debit amt links p l h e t =
    let solvent = get-IsSolvent links p l h e in
    let enough = ltb→le l.available_bandwidth amt t in
    let left = sub64_lem l.available_bandwidth amt solvent enough in
    let m = set_bandwidth (sub64 l.available_bandwidth amt) l in
    (
      All-set_link links p m h (omega (arith, left)),
      omega (arith, left, total-set_link links p l m e),
    )

pub deref-get_elem? :
    (links : List Link) (p : ℕ) (l : Link)
    → get_elem? links p ≡ some l
    → deref (some p) links ≡ ok (p, l)
unfolding deref
deref-get_elem? links p l e = rw (deref, e)

recipients_nil : (amt : ℕ) (links : List Link) → recipients amt [] links ≡ []
unfolding recipients
recipients_nil amt links = refl

recipients_cons :
    (amt : ℕ) (p : ℕ) (ps : List ℕ) (links : List Link) (l : Link)
    → get_elem? links p ≡ some l
    → recipients amt (p ∷ ps) links ≡ (
        if ltb l.available_bandwidth amt
        then recipients amt ps links
        else p ∷ recipients amt ps links)
unfolding recipients select
recipients_cons amt p ps links l e = rw e

send_over-recipients :
    (amt : ℕ) (ps : List ℕ) (links : List Link)
    → IsAmount amt
    → All IsSolvent links
    → Distinct ps
    → Within links ps
    → (links' : List Link) × (senders : List Sender) × (send_over amt (map some ps) links
        ≡ ok (links', senders))
      × (map (λ s. s.debited) senders ≡ recipients amt ps links)
      × All (StartsIn ps) senders
      × Debits amt (recipients amt ps links) links links'
unfolding send_over
send_over-recipients amt [] links a h d w = (
  links,
  [],
  refl,
  sym (recipients_nil amt links),
  tt,
  (h, rw (recipients_nil amt links) (omega arith)),
)
send_over-recipients amt (p ∷ ps) links a h (d, ds) (w, ws) =
    let (l, e) = get-within links p w in
    let listed = recipients_cons amt p ps links l e in
    let test = less64_lem l.available_bandwidth amt (get-IsSolvent links p l h e) a in
    elim (Bool-cases (ltb l.available_bandwidth amt)) [
      | inl t ↦
          let (links', senders, done, debited, starts, debits) =
            send_over-recipients amt ps links a h ds ws in
          (
            links',
            senders,
            rw (deref-get_elem? links p l e) (rw (test ∙ t) (rw done)),
            rw (listed, t) debited,
            StartsIn-cons p ps senders starts,
            rw (listed, t) debits,
          )
      | inr t ↦
          let m = set_bandwidth (sub64 l.available_bandwidth amt) l in
          let first = one_debit amt links p l h e t in
          let same = recipients-set_link amt ps links p m d in
          let (links', senders, done, debited, starts, (solvent, sum)) =
            send_over-recipients amt ps (set_link p m links) a first.0 ds
              (Within-set_link ps links p m ws) in
          (
            links',
            record { debited = p; slots = some p ∷ map some ps } ∷ senders,
            rw (deref-get_elem? links p l e) (rw (test ∙ t) (rw done)),
            rw (listed, t) (ap (p ∷◌) (debited ∙ same)),
            (([], ps, refl, refl), StartsIn-cons p ps senders starts),
            (
              solvent,
              rw (listed, t)
                  (omega (arith, first.1, sum, ap (λ (u : List ℕ). amt * length u) same)),
            ),
          )
    ]

-- A payment of an amount that is not negative, over an interface whose links are distinct and
-- exist, when no link of the switch has a negative bandwidth: the loop debits exactly the links of
-- the interface that have the amount, in order, no bandwidth becomes negative, and the sum of all
-- falls by the amount times their number; without such a link the outcome is the error of an
-- insufficient capacity. Each debit starts a goroutine, which hands the packet to the link that
-- stands as many places after the debited one as rounds pass before it runs, or to the last.
pub forward_payment-recipients :
    (pkt : HtlcPacket) (h : HtlcSwitch) (ps : List ℕ) (amt : ℕ)
    → h.interfaces pkt.dest ≡ some (map some ps)
    → pkt.msg ≡ add_request amt
    → IsAmount amt
    → All IsSolvent h.links
    → Distinct ps
    → Within h.links ps
    → (links' : List Link) × (senders : List Sender) × (forward_payment pkt h
        ≡ ok (with_links links' h, outcome_of senders))
      × (map (λ s. s.debited) senders ≡ recipients amt ps h.links)
      × All (HandsOver ps) senders
      × Debits amt (recipients amt ps h.links) h.links links'
unfolding forward_payment send_amount
forward_payment-recipients pkt h ps amt e m a s d w =
    let (links', senders, done, debited, starts, debits) =
      send_over-recipients amt ps h.links a s d w in
    (
      links',
      senders,
      rw (forward_payment, e) (rw (m, send_amount) (rw done)),
      debited,
      StartsIn-HandsOver ps senders starts,
      debits,
    )
