-- ===== src/Lnwire/Sample.antt =====
-- A library of keys and signatures to run the wire format with: its one key is 33 zero bytes, and
-- it puts a length before bytes.
use lnd_cc.Prelude.{
  ℕ, zero, suc, ◌≤◌, ◌≡◌, refl, Option, none, some, List, [], ◌∷◌, ◌++◌, leb, if◌then◌else◌, length,
  le→leb,
}
use lnd_cc.Bytes.{read_full, read_full-append}
use lnd_cc.Lnwire.{WireLib}

abbrev pub zeros : ℕ → List ℕ
zeros zero = []
zeros (suc n) = 0 ∷ zeros n

abbrev prefixed : List ℕ → List ℕ
prefixed bs = length bs ∷ bs

abbrev read_prefixed : ℕ → List ℕ → Option (List ℕ × List ℕ)
read_prefixed max [] = none
read_prefixed max (n ∷ bs) = if leb n max then read_full n bs else none

pub read-prefixed :
    (max : ℕ) (bs rest : List ℕ)
    → length bs ≤ max
    → read_prefixed max (prefixed bs ++ rest) ≡ some (bs, rest)
read-prefixed max bs rest h =
    rw (le→leb (length bs) max h) (read_full-append bs rest (length bs) refl)

abbrev pub toy_lib : WireLib
toy_lib = record {
  PublicKey = Unit;
  Signature = Unit;
  IsCanonical = λ s. Unit;
  serialize_compressed = λ k. zeros 33;
  parse_pub_key = λ bs. some tt;
  serialize_signature = λ s. zeros 70;
  parse_signature = λ bs. some tt;
  write_var_bytes = prefixed;
  read_var_bytes = read_prefixed;
  write_var_string = prefixed;
  read_var_string = read_prefixed 65535;
  length-serialize_compressed = λ k. refl;
  parse-serialize_compressed = λ k. refl;
  parse-serialize_signature = λ s c. refl;
  read-write_var_bytes = read-prefixed;
  read-write_var_string = read-prefixed 65535;
}
