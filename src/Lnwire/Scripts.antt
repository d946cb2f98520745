-- ===== src/Lnwire/Scripts.antt =====
-- lnwire/lnwire.go: isValidPkScript, and two tests that the messages' Validate methods share.
use lnd_cc.Prelude.{
  ℕ, ◌-◌, ◌^◌, ◌≤◌, ◌≡◌, ◌≢◌, refl, sym, ap, ◌∙◌, ◌⊎◌, inl, inr, Bool, true, false, ◌&&◌, List, [],
  ◌∷◌, ◌++◌, leb, ◌==◌, if◌then◌else◌, length, length-take, length-drop, take, drop,
  take-append-drop, arith, ==_iff, bytes_equal, eq_of_bytes_equal, Bool-cases,
}

-- The opcodes of Bitcoin's scripts.
abbrev pub op_0 : ℕ
op_0 = 0x00

abbrev pub op_data_20 : ℕ
op_data_20 = 0x14

abbrev pub op_data_32 : ℕ
op_data_32 = 0x20

abbrev pub op_dup : ℕ
op_dup = 0x76

abbrev pub op_equal : ℕ
op_equal = 0x87

abbrev pub op_equalverify : ℕ
op_equalverify = 0x88

abbrev pub op_hash160 : ℕ
op_hash160 = 0xa9

abbrev pub op_checksig : ℕ
op_checksig = 0xac

-- `s[i:j]`
abbrev pub slice : ℕ → ℕ → List ℕ → List ℕ
slice i j s = take (j - i) (drop i s)

unfoldable pub is_valid_pk_script : List ℕ → Bool
unfolding bytes_equal
is_valid_pk_script s =
    if length s == 25
    then bytes_equal (slice 0 3 s) (op_dup ∷ op_hash160 ∷ [])
      && bytes_equal (slice 23 25 s) (op_equalverify ∷ op_checksig ∷ op_data_20 ∷ [])
    else if length s == 22
    then bytes_equal (slice 0 2 s) (op_0 ∷ op_data_20 ∷ [])
    else if length s == 23
    then bytes_equal (slice 0 2 s) (op_hash160 ∷ op_data_20 ∷ [])
      && bytes_equal (slice 22 23 s) (op_equal ∷ [])
    else if length s == 34
    then bytes_equal (slice 0 2 s) (op_0 ∷ op_data_32 ∷ [])
    else false

-- The sign of an int64, by its bit pattern.
abbrev pub is_negative : ℕ → Bool
is_negative a = leb (2 ^ 63) a

abbrev pub zero_hash : List ℕ
zero_hash =
    0 ∷ 0 ∷ 0 ∷ 0 ∷ 0 ∷ 0 ∷ 0 ∷ 0 ∷ 0 ∷ 0 ∷ 0 ∷ 0 ∷ 0 ∷ 0 ∷ 0 ∷ 0 ∷ 0 ∷ 0 ∷ 0 ∷ 0 ∷ 0 ∷ 0 ∷ 0 ∷ 0
    ∷ 0 ∷ 0 ∷ 0 ∷ 0 ∷ 0 ∷ 0 ∷ 0 ∷ 0 ∷ []

different_lengths : (xs ys : List ℕ) → length xs ≢ length ys → bytes_equal xs ys ≡ false
different_lengths xs ys h = elim (Bool-cases (bytes_equal xs ys)) [
  | inr e ↦ e
  | inl e ↦ absurd (h (ap length (eq_of_bytes_equal xs ys e)))
]

-- The script templates: a hash of 20 bytes for P2WKH and P2SH, of 32 bytes for P2WSH.
abbrev pub IsP2wkh : List ℕ → Type 0
IsP2wkh s = (h : List ℕ) × (length h ≡ 20) × (s ≡ op_0 ∷ op_data_20 ∷ h)

abbrev pub IsP2sh : List ℕ → Type 0
IsP2sh s = (h : List ℕ) × (length h ≡ 20) × (s ≡ op_hash160 ∷ op_data_20 ∷ (h ++ op_equal ∷ []))

abbrev pub IsP2wsh : List ℕ → Type 0
IsP2wsh s = (h : List ℕ) × (length h ≡ 32) × (s ≡ op_0 ∷ op_data_32 ∷ h)

-- A script of 25 bytes fails the test, which compares three of its bytes with two.
p2pkh_refused :
    (s : List ℕ)
    → length s ≡ 25
    → (bytes_equal (slice 0 3 s) (op_dup ∷ op_hash160 ∷ [])
        && bytes_equal (slice 23 25 s) (op_equalverify ∷ op_checksig ∷ op_data_20 ∷ []))
      ≡ false
p2pkh_refused s h =
    rw (different_lengths (take 3 s) (op_dup ∷ op_hash160 ∷ []) (omega (arith, length-take 3 s)))

two_bytes :
    (s : List ℕ) (a b : ℕ)
    → 2 ≤ length s
    → bytes_equal (slice 0 2 s) (a ∷ b ∷ []) ≡ true
    → s ≡ a ∷ b ∷ drop 2 s
two_bytes [] a b h e = absurd (omega arith)
two_bytes (x ∷ []) a b h e = absurd (omega arith)
two_bytes (x ∷ y ∷ s) a b h e = cc (eq_of_bytes_equal (x ∷ y ∷ []) (a ∷ b ∷ []) e)

last_byte :
    (s : List ℕ) (a : ℕ)
    → length s ≡ 21
    → bytes_equal (take 1 (drop 20 s)) (a ∷ []) ≡ true
    → s ≡ take 20 s ++ a ∷ []
last_byte s a h e =
    sym (take-append-drop 20 s)
    ∙ ap (λ (t : List ℕ). take 20 s ++ t)
        (one_left (drop 20 s) (omega (arith, length-drop 20 s))
          ∙ eq_of_bytes_equal (take 1 (drop 20 s)) (a ∷ []) e)
  where
    one_left : (t : List ℕ) → length t ≡ 1 → t ≡ take 1 t
    one_left [] p = absurd (omega arith)
    one_left (x ∷ []) p = refl
    one_left (x ∷ y ∷ t) p = absurd (omega arith)

abbrev IsTemplate : List ℕ → Type 0
IsTemplate s = IsP2wkh s ⊎ IsP2sh s ⊎ IsP2wsh s

p2wkh-IsTemplate :
    (s : List ℕ)
    → length s ≡ 22
    → bytes_equal (slice 0 2 s) (op_0 ∷ op_data_20 ∷ []) ≡ true
    → IsTemplate s
p2wkh-IsTemplate s l e =
    inl (drop 2 s, omega (arith, length-drop 2 s), two_bytes s op_0 op_data_20 (omega arith) e)

p2wsh-IsTemplate :
    (s : List ℕ)
    → length s ≡ 34
    → bytes_equal (slice 0 2 s) (op_0 ∷ op_data_32 ∷ []) ≡ true
    → IsTemplate s
p2wsh-IsTemplate s l e =
    inr
      (inr (drop 2 s, omega (arith, length-drop 2 s), two_bytes s op_0 op_data_32 (omega arith) e))

p2sh-IsTemplate :
    (s : List ℕ)
    → length s ≡ 23
    → bytes_equal (slice 0 2 s) (op_hash160 ∷ op_data_20 ∷ []) ≡ true
    → bytes_equal (slice 22 23 s) (op_equal ∷ []) ≡ true
    → IsTemplate s
p2sh-IsTemplate [] l e f = absurd (omega arith)
p2sh-IsTemplate (x ∷ []) l e f = absurd (omega arith)
p2sh-IsTemplate (x ∷ y ∷ s) l e f = inr (
    inl (
      take 20 s,
      omega (arith, length-take 20 s),
      two_bytes (x ∷ y ∷ s) op_hash160 op_data_20 (omega arith) e
          ∙ ap (λ (t : List ℕ). op_hash160 ∷ op_data_20 ∷ t) (last_byte s op_equal (omega arith) f),
    ))

both : (a b : Bool) → (a && b) ≡ true → (a ≡ true) × (b ≡ true)
both true b e = (refl, e)
both false b e = cc

-- Every script that passes is of one of the templates P2WKH, P2SH and P2WSH; none of 25 bytes
-- passes, so no P2PKH script does.
pub is_valid_pk_script-templates :
    (s : List ℕ) → is_valid_pk_script s ≡ true → (length s ≢ 25) × IsTemplate s
unfolding is_valid_pk_script
is_valid_pk_script-templates s e = elim (Bool-cases (length s == 25)) [
  | inl p ↦
      absurd (cc (rw (p, is_valid_pk_script) at e, p2pkh_refused s ((==_iff (length s) 25).0 p)))
  | inr p ↦ (
    λ q. cc (p, (==_iff (length s) 25).1 q),
    elim (Bool-cases (length s == 22)) [
      | inl q ↦ p2wkh-IsTemplate s ((==_iff (length s) 22).0 q) (rw (p, q, is_valid_pk_script) at e)
      | inr q ↦ elim (Bool-cases (length s == 23)) [
        | inl r ↦
            let (f, g) = both _ _ (rw (p, q, r, is_valid_pk_script) at e) in
            p2sh-IsTemplate s ((==_iff (length s) 23).0 r) f g
        | inr r ↦ elim (Bool-cases (length s == 34)) [
          | inl t ↦
              p2wsh-IsTemplate s ((==_iff (length s) 34).0 t)
                (rw (p, q, r, t, is_valid_pk_script) at e)
          | inr t ↦ absurd (cc (rw (p, q, r, t, is_valid_pk_script) at e))
        ]
      ]
    ],
  )
]
