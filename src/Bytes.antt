-- ===== src/Bytes.antt =====
-- The calls of encoding/binary and io that the sources make: big-endian integers of `k` bytes,
-- and reads of an exact number of bytes.
use native.Mathlib.Nat.{pow-suc, div-div-eq-div-mul, div-eq_of_lt}
use lnd_cc.Prelude.{
  ℕ, zero, suc, ◌+◌, ◌%◌, ◌/◌, ◌^◌, ◌*◌, ◌<◌, ◌≡◌, refl, sym, ap, Option, none, some, List, [], ◌∷◌,
  ◌++◌, leb, if◌then◌else◌, length, length-append, take, drop, take-append_left, drop-append_left,
  arith, le→leb, All,
}

abbrev pub IsByte : ℕ → Type 0
IsByte b = b < 256

-- The `k` lowest bytes of a number, the highest first.
unfoldable pub put_be : ℕ → ℕ → List ℕ
put_be zero v = []
put_be (suc k) v = (v / 256 ^ k % 256) ∷ put_be k v

-- The number that a string of bytes spells, onto what was read before.
unfoldable pub from_be : ℕ → List ℕ → ℕ
from_be acc [] = acc
from_be acc (b ∷ bs) = from_be (acc * 256 + b) bs

-- io.ReadFull of `n` bytes: what was read and what is left, or nothing if the input is too short.
unfoldable pub read_full : ℕ → List ℕ → Option (List ℕ × List ℕ)
read_full n bs = if leb n (length bs) then some (take n bs, drop n bs) else none

pub length-put_be : (k v : ℕ) → length (put_be k v) ≡ k
unfolding put_be
length-put_be zero v = refl
length-put_be (suc k) v = ap suc (length-put_be k v)

pub put_be-IsByte : (k v : ℕ) → All IsByte (put_be k v)
unfolding put_be
put_be-IsByte zero v = tt
put_be-IsByte (suc k) v = (omega arith, put_be-IsByte k v)

pub read_full-append :
    (xs ys : List ℕ) (n : ℕ) → length xs ≡ n → read_full n (xs ++ ys) ≡ some (xs, ys)
unfolding read_full
read_full-append xs ys n e = rw (← e) (
    rw (le→leb (length xs) (length (xs ++ ys)) (omega (arith, length-append xs ys)))
      (rw (take-append_left xs ys, drop-append_left xs ys)))

-- The digit step: the quotient by 256 ^ k, in base 256.
digit : (k v acc : ℕ) → v / 256 ^ suc k ≡ acc → acc * 256 + v / 256 ^ k % 256 ≡ v / 256 ^ k
digit k v acc e =
    omega (arith, sym e, div-div-eq-div-mul v (256 ^ k) 256, ap (λ (t : ℕ). v / t) (pow-suc 256 k))

from_be-put_be_from : (k v acc : ℕ) → v / 256 ^ k ≡ acc → from_be acc (put_be k v) ≡ v
unfolding put_be from_be
from_be-put_be_from zero v acc e = omega arith
from_be-put_be_from (suc k) v acc e =
    from_be-put_be_from k v (acc * 256 + v / 256 ^ k % 256) (sym (digit k v acc e))

-- A number that fits `k` bytes is read back.
pub from_be-put_be : (k v : ℕ) → v < 256 ^ k → from_be 0 (put_be k v) ≡ v
from_be-put_be k v h = from_be-put_be_from k v 0 (div_small)
  where
    div_small : v / 256 ^ k ≡ 0
    div_small = div-eq_of_lt h
