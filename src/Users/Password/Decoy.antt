-- ===== src/Users/Password/Decoy.antt =====
-- The decoy of internal/users/password.go: what is derived with the current constants.
use atrium_go.Base.{ap, suc, ℕ, ◌≡◌, ◌∙◌, refl, Bool, true, false, some, [], ◌∷◌, arith, length}
use atrium_go.Text.{Text, nonempty, str_eq}
use atrium_go.Users.Password.RoundTrip.{IsValid, parse_record-record_string}
use atrium_go.Users.Password.{
  Crypto, Documented, Record, Seed, argon2id_key_length, argon2id_memory_kib, argon2id_parallelism,
  argon2id_salt_length, argon2id_time, below_current_constants, decoy_record, derive_key,
  parse_record, record_string, verify_record,
}

nonempty-length : (s : Text) (n : ℕ) → length s ≡ suc n → nonempty s ≡ true
nonempty-length [] n h = ground arith
nonempty-length (c ∷ cs) n h = refl

-- `argon2.IDKey` gives a key of the length that is asked for.
abbrev pub Sized : Crypto → Type 0
Sized c =
    (password salt : Text) (time memory threads n : ℕ)
    → length (c.id_key password salt time memory threads n) ≡ n

verified :
    (c : Crypto) (s password : Text) (r : Record)
    → parse_record c s ≡ some r
    → verify_record c s password
      ≡ some (str_eq (derive_key c password r (length r.key)) r.key, below_current_constants r)
unfolding verify_record
verified c s password r h = rw h refl

module _ (c : Crypto) (documented : Documented c) (sized : Sized c) (seed : Seed)
    (salted : length seed.salt ≡ argon2id_salt_length) where
  abbrev decoy_parameters : Record
  decoy_parameters = record {
    memory_kib = argon2id_memory_kib;
    time = argon2id_time;
    parallelism = argon2id_parallelism;
    salt = seed.salt;
    key = [];
  }

  abbrev decoy_key : Text
  decoy_key = derive_key c seed.secret decoy_parameters argon2id_key_length

  abbrev decoy : Record
  decoy = record decoy_parameters { key = decoy_key }

  decoy-IsValid : IsValid decoy
  decoy-IsValid = record {
    memory_pos = omega arith;
    memory_fits = omega arith;
    time_pos = omega arith;
    time_fits = omega arith;
    lanes_pos = omega arith;
    lanes_fit = omega arith;
    salt_nonempty = nonempty-length seed.salt 15 salted;
    key_nonempty = nonempty-length decoy_key 31 (
        sized seed.secret seed.salt argon2id_time argon2id_memory_kib argon2id_parallelism
          argon2id_key_length);
  }

  decoy_current : below_current_constants decoy ≡ false
  unfolding below_current_constants
  decoy_current =
      rw
        (
          salted,
          sized seed.secret seed.salt argon2id_time argon2id_memory_kib argon2id_parallelism
              argon2id_key_length,
        )
        refl

  -- A password is verified against the decoy as against a record of the current constants.
  pub verify_record-decoy_record :
      (password : Text)
      → (b : Bool) × (verify_record c (decoy_record c seed) password ≡ some (b, false))
  unfolding decoy_record
  verify_record-decoy_record password = (
    str_eq (derive_key c password decoy (length decoy_key)) decoy_key,
    verified c (record_string c decoy) password decoy
          (parse_record-record_string c decoy documented decoy-IsValid)
        ∙ ap
            (λ (b : Bool).
              some (str_eq (derive_key c password decoy (length decoy_key)) decoy_key, b))
            decoy_current,
  )
