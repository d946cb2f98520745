-- ===== src/Switch/Senders.antt =====
-- htlcswitch.go: where the goroutines that htlcForwarder starts send a packet.
use lnd_cc.Prelude.{
  ℕ, zero, suc, ◌≡◌, refl, ap, ◌∙◌, inl, inr, true, false, some, List, [], ◌∷◌, ◌++◌, map, ltb,
  if◌then◌else◌, length, get_elem?, arith, lt→ltb, All, Bool-cases,
}
use lnd_cc.Switch.{Sender, loop_variable}

-- The slots of a goroutine start at a link of the interface, which is the one it debits.
abbrev pub StartsIn : List ℕ → Sender → Type 0
StartsIn ps s =
    (earlier : List ℕ) × (later : List ℕ) × (ps ≡ earlier ++ s.debited ∷ later)
    × (s.slots ≡ map some (s.debited ∷ later))

pub StartsIn-cons :
    (p : ℕ) (ps : List ℕ) (ss : List Sender) → All (StartsIn ps) ss → All (StartsIn (p ∷ ps)) ss
StartsIn-cons p ps [] h = tt
StartsIn-cons p ps (s ∷ ss) ((earlier, later, place, slots), hs) =
    ((p ∷ earlier, later, ap (p ∷◌) place, slots), StartsIn-cons p ps ss hs)

-- What a goroutine does when it runs some rounds after its own: the packet goes to the link that
-- stands so many places after the debited one, or to the last.
abbrev pub HandsOver : List ℕ → Sender → Type 0
HandsOver ps s =
    (earlier : List ℕ) × (later : List ℕ) × (ps ≡ earlier ++ s.debited ∷ later)
    × ((rounds : ℕ)
        → loop_variable rounds s.slots
          ≡ get_elem? (s.debited ∷ later)
              (if ltb rounds (length later) then rounds else length later))

loop_variable_lem :
    (rounds p : ℕ) (later : List ℕ)
    → loop_variable rounds (map some (p ∷ later))
      ≡ get_elem? (p ∷ later) (if ltb rounds (length later) then rounds else length later)
unfolding loop_variable
loop_variable_lem zero p [] = refl
loop_variable_lem (suc rounds) p [] = let e : ltb (suc rounds) 0 ≡ false = ground arith in rw e refl
loop_variable_lem zero p (q ∷ later) = rw (lt→ltb zero (suc (length later)) (omega arith)) refl
loop_variable_lem (suc rounds) p (q ∷ later) = elim (Bool-cases (ltb rounds (length later))) [
  | inl t ↦
      let next : ltb (suc rounds) (suc (length later)) ≡ true = ground arith in
      let e = loop_variable_lem rounds q later in rw next (rw t at e)
  | inr t ↦
      let next : ltb (suc rounds) (suc (length later)) ≡ false = ground arith in
      let e = loop_variable_lem rounds q later in rw next (rw t at e)
]

pub StartsIn-HandsOver :
    (ps : List ℕ) (ss : List Sender) → All (StartsIn ps) ss → All (HandsOver ps) ss
StartsIn-HandsOver ps [] h = tt
StartsIn-HandsOver ps (s ∷ ss) ((earlier, later, place, slots), hs) = (
  (
    earlier,
    later,
    place,
    λ rounds. ap (loop_variable rounds) slots ∙ loop_variable_lem rounds s.debited later,
  ),
  StartsIn-HandsOver ps ss hs,
)
