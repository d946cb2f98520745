-- ===== src/Channeldb/Sample.antt =====
-- A database library to run channeldb with: a bucket is the function of its keys, and a transaction
-- a number.
use lnd_cc.Prelude.{
  ℕ, zero, suc, ◌<◌, ◌≡◌, refl, Option, none, some, List, [], ◌∷◌, ◌++◌, if◌then◌else◌, length,
  lt→leb, bytes_equal,
}
use lnd_cc.Lnwire.Sample.{toy_lib}
use lnd_cc.Channeldb.{DbLib}

abbrev pub toy_zeros : ℕ → List ℕ
toy_zeros zero = []
toy_zeros (suc n) = 0 ∷ toy_zeros n

abbrev pub read_number : List ℕ → Option (ℕ × List ℕ)
read_number [] = none
read_number (n ∷ bs) = some (n, bs)

pub toy_read_long :
    (max : ℕ) (bs rest : List ℕ)
    → max < length bs
    → toy_lib.read_var_bytes max (toy_lib.write_var_bytes bs ++ rest) ≡ none
toy_read_long max bs rest h = rw (lt→leb (length bs) max h)

abbrev pub toy_db : DbLib toy_lib
toy_db = record {
  Tx = ℕ;
  serialize_tx = λ tx. tx ∷ [];
  deserialize_tx = read_number;
  write_var_int = λ n. n ∷ [];
  read_var_int = read_number;
  Bucket = List ℕ → Option (List ℕ);
  empty = λ key. none;
  get = λ key b. b key;
  put = λ key value b. some (λ other. if bytes_equal other key then some value else b other);
  delete = λ key b other. if bytes_equal other key then none else b other;
  keys = λ b. [];
  deserialize-serialize_tx = λ tx rest. refl;
  read-write_var_int = λ n rest h. refl;
  read_var_bytes_long = toy_read_long;
  read_var_bytes_empty = λ max. refl;
  get-empty = λ key. refl;
  get-put = λ key value b h k l. (_, refl, λ other. refl);
  get-delete = λ other key b. refl;
}
