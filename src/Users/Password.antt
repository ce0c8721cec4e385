-- ===== src/Users/Password.antt =====
-- internal/users/password.go: the record of a password, written and read in the PHC format, and
-- the check of a password against one. Argon2id and its version number (golang.org/x/crypto) and
-- base64 are parameters. The semaphore that bounds concurrent derivations is left out.
pub mod Decoy
pub mod RoundTrip
pub mod Tests
use atrium_go.Base.{
  ℕ, ◌-◌, ◌^◌, ◌<◌, ◌≡◌, Bool, true, false, not, ◌&&◌, ◌||◌, Option, none, some, List, [], ◌∷◌,
  ◌++◌, ltb, leb, ◌==◌, if◌then◌else◌, ◌>>=◌, ◌>>◌, guard, length, drop, All,
}
use atrium_go.Base.Int.{ℤ, pos, negsuc}
use atrium_go.Text.Decimal.{decimal, parse_int}
use atrium_go.Text.{Text, codes, str_eq, has_prefix, split, nonempty}

-- What `init` draws for the decoy: the secret, and the salt of its derivation.
pub record Seed : Type 0 where
  pub secret : Text
  pub salt : Text

-- What password.go calls of other packages.
pub record Crypto : Type 0 where
  pub version : ℕ
  -- password, salt, time, memory, threads, key length
  pub id_key : Text → Text → ℕ → ℕ → ℕ → ℕ → Text
  pub encode : Text → Text
  pub decode : Text → Option Text

-- `base64.RawStdEncoding` reads back what it wrote and writes no `$`; the version is a small number.
pub record Documented (c : Crypto) : Type 0 where
  pub version_small : c.version < 2 ^ 31
  pub decode-encode : (b : Text) → c.decode (c.encode b) ≡ some b
  pub encode_alphabet : (b : Text) → All (λ x. (x == b'$') ≡ false) (c.encode b)

abbrev pub argon2id_memory_kib : ℕ
argon2id_memory_kib = 65_536

abbrev pub argon2id_time : ℕ
argon2id_time = 3

abbrev pub argon2id_parallelism : ℕ
argon2id_parallelism = 2

abbrev pub argon2id_salt_length : ℕ
argon2id_salt_length = 16

abbrev pub argon2id_key_length : ℕ
argon2id_key_length = 32

pub record Record : Type 0 where
  pub memory_kib : ℕ  -- uint32
  pub time : ℕ  -- uint32
  pub parallelism : ℕ  -- uint8
  pub salt : Text
  pub key : Text

unfoldable pub below_current_constants : Record → Bool
below_current_constants r =
    ltb r.memory_kib argon2id_memory_kib
    || ltb r.time argon2id_time
    || ltb r.parallelism argon2id_parallelism
    || ltb (length r.salt) argon2id_salt_length
    || ltb (length r.key) argon2id_key_length

-- `namedNumber(field, name)`.
unfoldable pub named_number : Text → ℕ → Option ℕ
named_number field name =
    if has_prefix (name ∷ b'=' ∷ []) field
    then elim (parse_int (drop 2 field)) [
      | none ↦ none
      | some n ↦ elim n [ pos k ↦ some k | negsuc k ↦ none ]
    ]
    else none

-- The three parameters, within their ranges.
unfoldable pub parse_parameters : List Text → Option (ℕ × ℕ × ℕ)
parse_parameters (m ∷ t ∷ p ∷ []) = do
  memory ← named_number m b'm'
  passes ← named_number t b't'
  lanes ← named_number p b'p'
  guard (not (ltb memory 1 || ltb passes 1 || ltb lanes 1))
  guard (not (ltb (2 ^ 32 - 1) memory || ltb (2 ^ 32 - 1) passes || ltb 255 lanes))
  some (memory, passes, lanes)
parse_parameters _ = none

module _ (c : Crypto) where
  -- The six fields that `$` separates, the first of them empty.
  unfoldable pub parse_fields : List Text → Option Record
  parse_fields (f0 ∷ f1 ∷ f2 ∷ f3 ∷ f4 ∷ f5 ∷ []) = do
    guard (not (nonempty f0))
    guard (str_eq f1 (codes "argon2id"))
    version ← named_number f2 b'v'
    guard (version == c.version)
    parameters ← parse_parameters (split b',' f3)
    salt ← c.decode f4
    key ← c.decode f5
    guard (nonempty salt && nonempty key)
    some (record {
      memory_kib = parameters.0;
      time = parameters.1;
      parallelism = parameters.2;
      salt = salt;
      key = key;
    })
  parse_fields _ = none

  -- `ParseRecord`; every refusal wraps the one error `ErrMalformedRecord`.
  unfoldable pub parse_record : Text → Option Record
  parse_record s = parse_fields (split b'$' s)

  -- `Record.String`.
  unfoldable pub record_string : Record → Text
  record_string r =
      b'$'
      ∷ (codes "argon2id"
          ++ b'$'
            ∷ ((codes "v=" ++ decimal c.version)
                ++ b'$'
                  ∷ (((codes "m=" ++ decimal r.memory_kib)
                        ++ b','
                          ∷ ((codes "t=" ++ decimal r.time)
                              ++ b',' ∷ (codes "p=" ++ decimal r.parallelism)))
                      ++ b'$' ∷ (c.encode r.salt ++ b'$' ∷ c.encode r.key))))

  abbrev pub derive_key : Text → Record → ℕ → Text
  derive_key password r n = c.id_key password r.salt r.time r.memory_kib r.parallelism n

  -- `Verify`: whether the password opens the record, and whether the record is below the current
  -- constants; none for a record that is malformed.
  unfoldable pub verify_record : Text → Text → Option (Bool × Bool)
  verify_record s password = do
    stored ← parse_record s
    some (
      str_eq (derive_key password stored (length stored.key)) stored.key,
      below_current_constants stored,
    )

  -- `Derive`, over the salt that was drawn.
  unfoldable pub derive : Text → Text → Text
  derive password salt =
      let r : Record = record {
        memory_kib = argon2id_memory_kib;
        time = argon2id_time;
        parallelism = argon2id_parallelism;
        salt = salt;
        key = [];
      } in
      record_string (record r { key = derive_key password r argon2id_key_length })

  -- `DecoyRecord`: what `init` derives.
  unfoldable pub decoy_record : Seed → Text
  unfolding derive
  decoy_record seed = derive seed.secret seed.salt
