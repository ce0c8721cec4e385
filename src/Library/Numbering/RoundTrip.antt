-- ===== src/Library/Numbering/RoundTrip.antt =====
-- What internal/library/shows.go reads back of a name that was made of a season and an episode.
use atrium_go.Base.{
  ◌≡◌, refl, ap, ◌∙◌, ℕ, zero, suc, ◌+◌, ◌^◌, ◌<◌, true, false, Option, none, some, [], ◌∷◌, ◌++◌,
  arith, length, drop, ltb, ◌==◌, ◌>>=◌,
}
use atrium_go.Library.Bytes.{
  read_number, run_length, is_ascii_digit, one_of, skip_run, at, first_of, positions, or_else,
}
use atrium_go.Library.Numbering.{
  Numbering, keyword_at, season_and_episode_at, parse_episode_numbering, plausible_season,
  number_separators, episodes_from, read_episode_range, anywhere,
}
use atrium_go.Ports.Items.{Time}
use atrium_go.Text.Decimal.{decimal, decimal-cons, decimal-IsDigit, IsDigit}
use atrium_go.Text.Laws.{str_eq_refl}
use atrium_go.Text.{Text, codes, str_eq, has_prefix, fold_ascii, fold_byte}
use atrium_go.Library.Numbering.Numerals.{drop-length, drop-drop, read_number-decimal}

-- No digit is one of the bytes between the numbers.
one_of-digit : (c : ℕ) → IsDigit c → one_of number_separators c ≡ false
unfolding one_of
one_of-digit c h = ground arith

skip_run-digit :
    (s : Text) (i c : ℕ) (rest : Text)
    → drop i s ≡ c ∷ rest
    → one_of number_separators c ≡ false
    → skip_run s i number_separators ≡ i
unfolding run_length
skip_run-digit s i c rest here none_of = rw here (rw none_of (omega arith))

digit_folds : (c last : ℕ) → IsDigit c → 57 < last → (fold_byte c == last) ≡ false
unfolding fold_byte
digit_folds c last d h = ground arith

-- A letter in front of a digit is the keyword by itself.
keyword_at-letter :
    (s : Text) (i letter c : ℕ) (rest : Text) (word last : ℕ) (more : Text)
    → drop i s ≡ letter ∷ c ∷ rest
    → fold_byte letter ≡ word
    → (fold_byte c == last) ≡ false
    → keyword_at s i (word ∷ []) (last ∷ more) ≡ some (i + 1)
unfolding keyword_at fold_ascii str_eq
keyword_at-letter s i letter c rest word last more here same other =
    rw here (rw (next, same, str_eq_refl (word ∷ [])) (rw other))
  where
    next : drop (i + 1) s ≡ c ∷ rest
    next = drop-drop i 1 s ∙ ap (drop 1) here

at-drop : (s : Text) (i : ℕ) → at s i ≡ at (drop i s) 0
unfolding at
at-drop [] zero = refl
at-drop [] (suc i) = refl
at-drop (c ∷ cs) zero = refl
at-drop (c ∷ cs) (suc i) = at-drop cs i

not_below : (i : ℕ) → ltb i i ≡ false
not_below i = ground arith

-- Behind a name there is no further episode.
read_episode_range-end : (s : Text) (i : ℕ) → drop i s ≡ [] → read_episode_range s i ≡ (i, none)
unfolding read_episode_range has_prefix
read_episode_range-end s i here = rw here (rw beyond (rw (not_below i)))
  where
    beyond : at s i ≡ none
    beyond = at-drop s i ∙ ap (λ t. at t 0) here ∙ (unfold at in refl)

found_first : {A : Type 0} (a b : Option A) {n : A} → a ≡ some n → or_else a b ≡ some n
found_first none b h = cc
found_first (some a) b h = h

found_at_once :
    (rule : ℕ → Option Numbering) (c : ℕ) (cs : Text) {n : Numbering}
    → rule 0 ≡ some n
    → anywhere rule (c ∷ cs) ≡ some n
unfolding first_of positions
found_at_once rule c cs h = rw h

module _ (season episode : ℕ) where
  -- `S`, the season, `E`, the episode.
  abbrev pub episode_name : Text
  episode_name = b'S' ∷ (decimal season ++ b'E' ∷ decimal episode)

  abbrev behind_season : ℕ
  behind_season = 1 + length (decimal season)

  at_episode : drop behind_season episode_name ≡ b'E' ∷ decimal episode
  at_episode =
      drop-drop 1 (length (decimal season)) episode_name
      ∙ drop-length (decimal season) (b'E' ∷ decimal episode)

  at_number : drop (behind_season + 1) episode_name ≡ decimal episode
  at_number = drop-drop behind_season 1 episode_name ∙ ap (drop 1) at_episode

  at_end : drop (behind_season + 1 + length (decimal episode)) episode_name ≡ []
  at_end =
      drop-drop (behind_season + 1) (length (decimal episode)) episode_name
      ∙ ap (drop (length (decimal episode))) at_number
      ∙ all_of (decimal episode)
    where
      all_of : (t : Text) → drop (length t) t ≡ []
      all_of [] = refl
      all_of (c ∷ cs) = all_of cs

  abbrev pub both_numbers : Numbering
  both_numbers = record {
    season = some season;
    episode = some episode;
    episode_end = none;
    premiere = none;
    start = 0;
    end = behind_season + 1 + length (decimal episode);
  }

  decimal-cons-IsDigit : (n : ℕ) → (c : ℕ) × (t : Text) × (decimal n ≡ c ∷ t) × IsDigit c
  decimal-cons-IsDigit n =
      let (c, t, p) = decimal-cons n in (c, t, p, (rw p at (decimal-IsDigit n)).0)

  season_keyword : keyword_at episode_name 0 (codes "s") (codes "eason") ≡ some 1
  season_keyword =
      let (c, t, p, d) = decimal-cons-IsDigit season in
      keyword_at-letter episode_name 0 b'S' c (t ++ b'E' ∷ decimal episode) b's' b'e' (codes "ason")
        (ap (λ u. b'S' ∷ (u ++ b'E' ∷ decimal episode)) p) (unfold fold_byte in refl)
        (digit_folds c b'e' d (omega arith))

  episode_keyword :
      keyword_at episode_name behind_season (codes "e") (codes "pisode") ≡ some (behind_season + 1)
  episode_keyword =
      let (c, t, p, d) = decimal-cons-IsDigit episode in
      keyword_at-letter episode_name behind_season b'E' c t b'e' b'p' (codes "isode")
        (at_episode ∙ ap (◌∷◌ b'E') p) (unfold fold_byte in refl)
        (digit_folds c b'p' d (omega arith))

  skip_at :
      (i n : ℕ) (rest : Text)
      → drop i episode_name ≡ decimal n ++ rest
      → skip_run episode_name i number_separators ≡ i
  skip_at i n rest here =
      let (c, t, p, d) = decimal-cons-IsDigit n in
      skip_run-digit episode_name i c (t ++ rest) (here ∙ ap (λ u. u ++ rest) p) (one_of-digit c d)

  behind_digits : run_length is_ascii_digit (b'E' ∷ decimal episode) ≡ 0
  behind_digits = unfold run_length in refl

  nothing_left : run_length is_ascii_digit [] ≡ 0
  nothing_left = unfold run_length in refl

  append_nil : (t : Text) → t ≡ t ++ []
  append_nil [] = refl
  append_nil (c ∷ cs) = ap (◌∷◌ c) (append_nil cs)

  letter_there : at episode_name behind_season ≡ some b'E'
  letter_there =
      at-drop episode_name behind_season ∙ ap (λ t. at t 0) at_episode ∙ (unfold at in refl)

  skip_letter : skip_run episode_name behind_season number_separators ≡ behind_season
  skip_letter =
      skip_run-digit episode_name behind_season b'E' (decimal episode) at_episode
        (unfold one_of in refl)

  season_and_episode_at-name :
      plausible_season season ≡ true
      → season < 10 ^ 9
      → episode < 10 ^ 9
      → season_and_episode_at episode_name 0 ≡ some both_numbers
  unfolding season_and_episode_at
  season_and_episode_at-name plausible small few = rw season_keyword (
      rw (skip_at 1 season (b'E' ∷ decimal episode) refl) (
        rw
          (read_number-decimal episode_name 1 season (b'E' ∷ decimal episode) small refl
            behind_digits)
          (rw plausible (rw skip_letter (rw letter_there (rw episode_keyword second))))))
    where
      here : drop (behind_season + 1) episode_name ≡ decimal episode ++ []
      here = at_number ∙ append_nil (decimal episode)

      second :
          (read_number episode_name (skip_run episode_name (behind_season + 1) number_separators)
            >>= λ e. some (episodes_from episode_name 0 (some season) e.0 e.1))
          ≡ some both_numbers
      second = rw (skip_at (behind_season + 1) episode [] here) (
          rw (read_number-decimal episode_name (behind_season + 1) episode [] few here nothing_left)
            (rw (
              read_episode_range-end episode_name (behind_season + 1 + length (decimal episode))
                at_end)))

  -- A name that is `S`, a season, `E` and an episode is read as that season and that episode, whole
  -- and with no further one, where the season is a plausible one and both have nine digits at most.
  pub parse_episode_numbering-episode_name :
      (day_at : ℕ → ℕ → ℕ → Option Time)
      → plausible_season season ≡ true
      → season < 10 ^ 9
      → episode < 10 ^ 9
      → parse_episode_numbering day_at episode_name ≡ some both_numbers
  unfolding parse_episode_numbering
  parse_episode_numbering-episode_name day_at plausible small few = found_first _ _ (
      found_at_once (season_and_episode_at episode_name) b'S' _
        (season_and_episode_at-name plausible small few))
