-- ===== src/Library/Resolve/Lowered.antt =====
-- Where internal/library/shows.go slices a lowered text with an index of the text.
use atrium_go.Base.{
  ℕ, zero, suc, ◌+◌, ◌≤◌, Bool, true, false, Option, none, some, [], ◌∷◌, ◌≡◌, ◌≢◌, refl, arith,
  length, if◌then◌else◌, ◌&&◌, ltb, inl, inr, Bool-cases, drop,
}
use atrium_go.Library.SeasonNames.{
  remove_folded_from, remove_folded_substring, without_series, parse_unprefixed,
  parse_season_directory_name, remove_any, season_prefix_number,
}
use atrium_go.Library.Tools.{Attempt, done, failed, crashed, ◌>>=◌}
use atrium_go.Text.{Text, has_prefix, nonempty}
use atrium_go.Library.Numbering.{number_separators}

module _ {A B : Type 0} where
  pub chained :
      (m : Attempt A) (f : A → Attempt B)
      → m ≢ crashed
      → ((a : A) → m ≡ done a → f a ≢ crashed)
      → (m >>= f) ≢ crashed
  chained (done a) f h k = k a refl
  chained (failed e) f h k = λ i. cc
  chained crashed f h k = λ i. h refl

sliced :
    (beyond hit : Bool) (c : ℕ) (rest : Attempt Text)
    → beyond ≡ false
    → rest ≢ crashed
    → (if beyond then crashed else if hit then rest else (rest >>= λ kept. done (c ∷ kept)))
      ≢ crashed
sliced beyond true c rest e h = rw e h
sliced beyond false c rest e h = rw e (chained rest (λ kept. done (c ∷ kept)) h (λ kept k i. cc))

within : (i n : ℕ) → i ≤ n → ltb n i ≡ false
within i n h = ground arith

module _ (lowered target : Text) where
  remove_folded_from-safe :
      (i skip : ℕ) (s : Text)
      → i + length s ≤ length lowered
      → remove_folded_from lowered target i skip s ≢ crashed
  unfolding remove_folded_from
  remove_folded_from-safe i skip [] h = λ k. cc
  remove_folded_from-safe i (suc skip) (c ∷ cs) h =
      remove_folded_from-safe (suc i) skip cs (omega arith)
  remove_folded_from-safe i zero (c ∷ cs) h =
      sliced (ltb (length lowered) i) (has_prefix target (drop i lowered)) c _
        (within i (length lowered) (omega arith))
        (remove_folded_from-safe (suc i) _ cs (omega arith))

-- Lowering the name, freed of separators, leaves at least as many bytes.
abbrev pub Lengthy : (Text → Text) → Text → Type 0
Lengthy to_lower name =
    length (remove_any number_separators name)
    ≤ length (to_lower (remove_any number_separators name))

module _ (to_lower : Text → Text) where
  without_series-safe :
      (name series : Text)
      → Lengthy to_lower name
      → without_series to_lower (remove_any number_separators name) series ≢ crashed
  unfolding remove_folded_substring
  without_series-safe name series lengthy =
      let cleaned = remove_any number_separators name in
      elim (Bool-cases (nonempty series && nonempty (remove_any number_separators series))) [
        | inl e ↦
            rw e (remove_folded_from-safe (to_lower cleaned) _ 0 0 cleaned (omega (arith, lengthy)))
        | inr e ↦ rw e (λ k. cc)
      ]

  parse_unprefixed-safe :
      (name series : Text) (found : Option ℕ)
      → Lengthy to_lower name
      → parse_unprefixed to_lower name series found ≢ crashed
  parse_unprefixed-safe name series none lengthy =
      chained (without_series to_lower (remove_any number_separators name) series) _
        (without_series-safe name series lengthy) (λ cleaned e k. cc)
  parse_unprefixed-safe name series (some n) lengthy = λ k. cc

  -- Where lowering the name leaves enough of it, no slice is out of its range.
  pub parse_season_directory_name-safe :
      (name series : Text)
      → Lengthy to_lower name
      → parse_season_directory_name to_lower name series ≢ crashed
  unfolding parse_season_directory_name
  parse_season_directory_name-safe name series =
      parse_unprefixed-safe name series (season_prefix_number name)
