-- ===== src/Users/Password/Tests.antt =====
-- A codec that meets what is documented of base64, and a record written and read with it.
use atrium_go.Base.{
  ℕ, zero, suc, length, ◌+◌, ◌-◌, ◌≡◌, refl, ap, true, false, some, [], ◌∷◌, map, arith, ◌==◌, All,
}
use atrium_go.Text.Decimal.{decimal, parse_int}
use atrium_go.Text.{Text, codes, split, str_eq, has_prefix}
use atrium_go.Users.Password.Decoy.{Sized}
use atrium_go.Users.Password.RoundTrip.{IsValid, parse_record-record_string}
use atrium_go.Users.Password.{
  Crypto, Documented, Record, parse_record, record_string, parse_fields, parse_parameters,
  named_number, verify_record, below_current_constants,
}

-- Shifts each byte above the separators.
abbrev raise : Text → Text
raise = map (λ x. x + 64)

abbrev lower : Text → Text
lower = map (λ x. x - 64)

lower-raise : (b : Text) → lower (raise b) ≡ b
lower-raise [] = refl
lower-raise (x ∷ b) = ground (arith, lower-raise b)

raise_avoids : (b : Text) → All (λ x. (x == b'$') ≡ false) (raise b)
raise_avoids [] = tt
raise_avoids (x ∷ b) = (ground arith, raise_avoids b)

-- The first bytes, with zeros behind them where there are fewer.
abbrev pad : ℕ → Text → Text
pad zero s = []
pad (suc n) [] = 0 ∷ pad n []
pad (suc n) (c ∷ cs) = c ∷ pad n cs

length-pad : (n : ℕ) (s : Text) → length (pad n s) ≡ n
length-pad zero s = refl
length-pad (suc n) [] = omega (arith, length-pad n [])
length-pad (suc n) (c ∷ cs) = omega (arith, length-pad n cs)

-- A stand-in for the key derivation: as much of the password as the key is long.
abbrev pub toy : Crypto
toy = record {
  version = 19;
  id_key = λ password salt t m p n. pad n password;
  encode = raise;
  decode = λ s. some (lower s);
}

pub toy-Documented : Documented toy
toy-Documented = record {
  version_small = omega arith;
  decode-encode = λ b. ap some (lower-raise b);
  encode_alphabet = raise_avoids;
}

pub toy-Sized : Sized toy
toy-Sized password salt time memory threads n = length-pad n password

abbrev pub sample : Record
sample = record {
  memory_kib = 65_536;
  time = 3;
  parallelism = 2;
  salt = codes "0123456789abcdef";
  key = codes "secret";
}

sample-IsValid : IsValid sample
sample-IsValid = record {
  memory_pos = omega arith;
  memory_fits = omega arith;
  time_pos = omega arith;
  time_fits = omega arith;
  lanes_pos = omega arith;
  lanes_fit = omega arith;
  salt_nonempty = refl;
  key_nonempty = refl;
}

parse_record-record_string_example : parse_record toy (record_string toy sample) ≡ some sample
parse_record-record_string_example =
    parse_record-record_string toy sample toy-Documented sample-IsValid

reads_back : parse_record toy (record_string toy sample) ≡ some sample
unfolding parse_record record_string parse_fields split str_eq named_number has_prefix parse_int
    decimal parse_parameters
reads_back = refl

-- A short key is below the current constants, so a right password asks for a new record.
verifies : verify_record toy (record_string toy sample) (codes "secret") ≡ some (true, true)
unfolding verify_record parse_record record_string parse_fields split str_eq named_number has_prefix
    parse_int decimal parse_parameters below_current_constants
verifies = refl
