-- ===== src/Users/Password/RoundTrip.antt =====
-- `ParseRecord` reads back what `String` writes.
use atrium_go.Base.{
  ==_iff, ℕ, ◌^◌, ◌≤◌, ◌<◌, ◌≡◌, refl, ap, ◌∙◌, true, false, some, [], ◌∷◌, ◌++◌, arith, ◌==◌, All,
  All-append,
}
use atrium_go.Text.Decimal.{decimal, parse_int-decimal, decimal-IsDigit, IsDigit}
use atrium_go.Text.Laws.{str_eq_refl, split_prefix, split_single}
use atrium_go.Text.{Text, codes, has_prefix, split, nonempty}
use atrium_go.Users.Password.{
  Crypto, Documented, Record, named_number, parse_parameters, parse_fields, parse_record,
  record_string,
}

named_number-decimal :
    (name n : ℕ) → n < 2 ^ 63 → named_number (name ∷ b'=' ∷ decimal n) name ≡ some n
unfolding named_number has_prefix
named_number-decimal name n h = rw (parse_int-decimal n h) (ground arith)

abbrev Avoids : ℕ → Text → Type 0
Avoids sep = All (λ x. (x == sep) ≡ false)

digits_avoid : (sep : ℕ) (s : Text) → sep < b'0' → All IsDigit s → Avoids sep s
digits_avoid sep [] h a = tt
digits_avoid sep (c ∷ s) h a = (ground arith, digits_avoid sep s h a.1)

decimal-Avoids : (sep n : ℕ) → sep < b'0' → Avoids sep (decimal n)
decimal-Avoids sep n h = digits_avoid sep (decimal n) h (decimal-IsDigit n)

-- A record that `Derive` can have produced: each parameter in the range that its type and
-- `ParseRecord` allow, and neither the salt nor the key empty.
pub record IsValid (r : Record) : Type 0 where
  pub memory_pos : 1 ≤ r.memory_kib
  pub memory_fits : r.memory_kib < 2 ^ 32
  pub time_pos : 1 ≤ r.time
  pub time_fits : r.time < 2 ^ 32
  pub lanes_pos : 1 ≤ r.parallelism
  pub lanes_fit : r.parallelism < 2 ^ 8
  pub salt_nonempty : nonempty r.salt ≡ true
  pub key_nonempty : nonempty r.key ≡ true

prefixed :
    (sep name n : ℕ)
    → (name == sep) ≡ false
    → (b'=' == sep) ≡ false
    → sep < b'0'
    → Avoids sep (name ∷ b'=' ∷ decimal n)
prefixed sep name n h e l = (h, (e, decimal-Avoids sep n l))

module _ (r : Record) where
  parameters_text : Text
  parameters_text =
      (b'm' ∷ b'=' ∷ decimal r.memory_kib)
      ++ b',' ∷ ((b't' ∷ b'=' ∷ decimal r.time) ++ b',' ∷ (b'p' ∷ b'=' ∷ decimal r.parallelism))

  split-parameters_text :
      split b',' parameters_text
      ≡ (b'm' ∷ b'=' ∷ decimal r.memory_kib)
        ∷ (b't' ∷ b'=' ∷ decimal r.time)
        ∷ (b'p' ∷ b'=' ∷ decimal r.parallelism)
        ∷ []
  unfolding parameters_text
  split-parameters_text =
      split_prefix b',' (b'm' ∷ b'=' ∷ decimal r.memory_kib) _
        (prefixed b',' b'm' r.memory_kib refl refl (omega arith))
      ∙ ap (◌∷◌ (b'm' ∷ b'=' ∷ decimal r.memory_kib)) (
          split_prefix b',' (b't' ∷ b'=' ∷ decimal r.time) _
            (prefixed b',' b't' r.time refl refl (omega arith))
          ∙ ap (◌∷◌ (b't' ∷ b'=' ∷ decimal r.time)) (
              split_single b',' (b'p' ∷ b'=' ∷ decimal r.parallelism)
                (prefixed b',' b'p' r.parallelism refl refl (omega arith))))

  parameters_text-Avoids : Avoids b'$' parameters_text
  unfolding parameters_text
  parameters_text-Avoids =
      All-append _ (b'm' ∷ b'=' ∷ decimal r.memory_kib) _
        (prefixed b'$' b'm' r.memory_kib refl refl (omega arith))
        (
          refl,
          All-append _ (b't' ∷ b'=' ∷ decimal r.time) _
              (prefixed b'$' b't' r.time refl refl (omega arith))
              (refl, prefixed b'$' b'p' r.parallelism refl refl (omega arith)),
        )

  parse_parameters-parameters_text :
      IsValid r
      → parse_parameters (split b',' parameters_text) ≡ some (r.memory_kib, r.time, r.parallelism)
  unfolding parse_parameters
  parse_parameters-parameters_text v = rw split-parameters_text (
      rw
        (
          named_number-decimal b'm' r.memory_kib (omega arith),
          named_number-decimal b't' r.time (omega arith),
          named_number-decimal b'p' r.parallelism (omega arith),
        )
        (ground arith))

  module _ (c : Crypto) (d : Documented c) where
    split-record_string :
        split b'$' (record_string c r)
        ≡ []
          ∷ codes "argon2id"
          ∷ (b'v' ∷ b'=' ∷ decimal c.version)
          ∷ parameters_text
          ∷ c.encode r.salt
          ∷ c.encode r.key
          ∷ []
    unfolding record_string parameters_text
    split-record_string =
        split_prefix b'$' [] _ tt
        ∙ ap (◌∷◌ []) (
            split_prefix b'$' (codes "argon2id") _ (ground arith)
            ∙ ap (◌∷◌ (codes "argon2id")) (
                split_prefix b'$' (b'v' ∷ b'=' ∷ decimal c.version) _
                  (prefixed b'$' b'v' c.version refl refl (omega arith))
                ∙ ap (◌∷◌ (b'v' ∷ b'=' ∷ decimal c.version)) (
                    split_prefix b'$' parameters_text _ parameters_text-Avoids
                    ∙ ap (◌∷◌ parameters_text) (
                        split_prefix b'$' (c.encode r.salt) _ (d.encode_alphabet r.salt)
                        ∙ ap (◌∷◌ (c.encode r.salt))
                            (split_single b'$' (c.encode r.key) (d.encode_alphabet r.key))))))

-- `ParseRecord` reads back every valid record from what `String` writes of it.
pub parse_record-record_string :
    (c : Crypto) (r : Record)
    → Documented c
    → IsValid r
    → parse_record c (record_string c r) ≡ some r
unfolding parse_record parse_fields
parse_record-record_string c r d v = rw (split-record_string r c d) (
    rw (
      named_number-decimal b'v' c.version (omega (arith, d.version_small)),
      parse_parameters-parameters_text r v,
      d.decode-encode r.salt,
      d.decode-encode r.key,
      str_eq_refl (codes "argon2id"),
      (==_iff c.version c.version).1 refl,
      v.salt_nonempty,
      v.key_nonempty,
    ))
