-- ===== src/Library/SortKey/Ascii.antt =====
-- A derived key is ASCII.
use atrium_go.Base.{
  ◌≡◌, refl, ℕ, Bool, true, false, ◌&&◌, List, [], ◌∷◌, ◌++◌, ltb, arith, if◌then◌else◌, Bool-cases,
  inl, inr,
}
use atrium_go.Library.SortKey.{
  Unicode, sort_key_base, fold_to_ascii, fold_each, ascii_of, reading_of, latin_readings,
}
use atrium_go.Text.{Text}

abbrev pub is_ascii : Text → Bool
is_ascii [] = true
is_ascii (c ∷ cs) = ltb c 128 && is_ascii cs

abbrev are_ascii : List (ℕ × Text) → Bool
are_ascii [] = true
are_ascii ((k, s) ∷ rows) = is_ascii s && are_ascii rows

reading_of-ascii :
    (rows : List (ℕ × Text)) (r : ℕ) → are_ascii rows ≡ true → is_ascii (reading_of rows r) ≡ true
unfolding reading_of
reading_of-ascii [] r h = refl
reading_of-ascii ((k, s) ∷ rows) r h = ground (arith, reading_of-ascii rows r)

is_ascii-append : (s t : Text) → is_ascii s ≡ true → is_ascii t ≡ true → is_ascii (s ++ t) ≡ true
is_ascii-append [] t h k = k
is_ascii-append (c ∷ s) t h k = ground (arith, is_ascii-append s t)

module _ (unicode : Unicode) where
  ascii_of-ascii : (r : ℕ) → is_ascii (ascii_of unicode r) ≡ true
  ascii_of-ascii r = elim (Bool-cases (ltb r 128)) [
    | inl e ↦ rw (e, e) refl
    | inr e ↦ rw e (marked (unicode.is_mark r))
  ]
    where
      marked : (b : Bool) → is_ascii (if b then [] else reading_of latin_readings r) ≡ true
      marked true = refl
      marked false = reading_of-ascii latin_readings r refl

  fold_each-ascii : (s : Text) → is_ascii (fold_each unicode s) ≡ true
  fold_each-ascii [] = refl
  fold_each-ascii (r ∷ rs) =
      is_ascii-append (ascii_of unicode r) (fold_each unicode rs) (ascii_of-ascii r)
        (fold_each-ascii rs)

  -- The key derived from a name, whatever code points the name has, is ASCII only.
  pub sort_key_base-ascii : (name : Text) → is_ascii (sort_key_base unicode name) ≡ true
  unfolding sort_key_base fold_to_ascii
  sort_key_base-ascii name = fold_each-ascii (unicode.nfd _)
