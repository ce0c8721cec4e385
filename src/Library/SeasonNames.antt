-- ===== src/Library/SeasonNames.antt =====
-- internal/library/shows.go: the number of a season that the name of a directory carries. The words
-- are their bytes in UTF-8; `strings.ToLower` is a parameter.
use atrium_go.Base.{
  ℕ, zero, suc, ◌+◌, ◌-◌, Bool, not, ◌&&◌, ◌||◌, Option, none, some, List, [], ◌∷◌, ◌==◌, ltb,
  if◌then◌else◌, length, take, drop,
}
use atrium_go.Library.Bytes.{
  at, positions, first_of, or_else, one_of, test_at, is_ascii_digit, skip_run, run_length,
  read_number,
}
use atrium_go.Library.Numbering.{number_separators, is_some}
use atrium_go.Library.Tools.{Attempt, done, crashed, ◌>>=◌}
use atrium_go.Text.{Text, codes, str_eq, has_prefix, fold_byte, nonempty}

abbrev pub season_directory_words : List Text
season_directory_words =
    codes "temporada"
    ∷ codes "stagione"
    ∷ codes "sezonul"
    ∷ codes "seizoen"
    ∷ codes "seasong"
    ∷ codes "staffel"
    ∷ (115 ∷ 195 ∷ 164 ∷ 115 ∷ 111 ∷ 110 ∷ 103 ∷ [])
    ∷ codes "sezona"
    ∷ (115 ∷ 101 ∷ 122 ∷ 195 ∷ 179 ∷ 110 ∷ 97 ∷ [])
    ∷ codes "saison"
    ∷ codes "series"
    ∷ codes "season"
    ∷ codes "kausi"
    ∷ (209 ∷ 129 ∷ 208 ∷ 181 ∷ 208 ∷ 183 ∷ 208 ∷ 190 ∷ 208 ∷ 189 ∷ [])
    ∷ (115 ∷ 195 ∷ 166 ∷ 115 ∷ 111 ∷ 110 ∷ [])
    ∷ codes "sezon"
    ∷ (227 ∷ 130 ∷ 183 ∷ 227 ∷ 131 ∷ 188 ∷ 227 ∷ 130 ∷ 186 ∷ 227 ∷ 131 ∷ 179 ∷ [])
    ∷ (236 ∷ 139 ∷ 156 ∷ 236 ∷ 166 ∷ 140 ∷ [])
    ∷ codes "s"
    ∷ codes "t"
    ∷ codes "k"
    ∷ (209 ∷ 129 ∷ [])
    ∷ []

abbrev pub specials_directory_name : Text
specials_directory_name = codes "specials"

-- A byte that folds to a letter.
abbrev pub folds_to : ℕ → ℕ → Bool
folds_to letter c = fold_byte c == letter

abbrev pub prefix_number_with : Text → ℕ → Option (ℕ × ℕ) → Option ℕ
prefix_number_with name i none = none
prefix_number_with name i (some (value, j)) =
    if ltb 4 (j - (i + 1))
    then none
    else if ltb j (length name)
        && (test_at is_ascii_digit name j
            || test_at (folds_to b'e') name j && test_at is_ascii_digit name (j + 1)
            || not (test_at (one_of (codes "._-[] ")) name j))
    then none
    else some value

abbrev pub prefix_number_at : Text → ℕ → Option ℕ
prefix_number_at name i =
    if test_at (folds_to b's') name i
    then prefix_number_with name i (read_number name (i + 1))
    else none

-- `seasonPrefixNumber`.
unfoldable pub season_prefix_number : Text → Option ℕ
unfolding first_of positions read_number one_of at
season_prefix_number name = first_of (prefix_number_at name) (positions 0 (length name - 1))

-- How far a pair of letters repeats.
unfoldable pub pair_run : ℕ → ℕ → Text → ℕ
pair_run a b [] = 0
pair_run a b (c ∷ []) = 0
pair_run a b (c ∷ d ∷ s) =
    let rest = pair_run a b s in if fold_byte c == a && fold_byte d == b then suc (suc rest) else 0

-- The index behind the endings of an ordinal number.
abbrev pub behind_ordinal : Text → ℕ → ℕ
behind_ordinal s j =
    let j1 = j + pair_run b's' b't' (drop j s) in
    let j2 = j1 + pair_run b'n' b'd' (drop j1 s) in
    let j3 = j2 + pair_run b'r' b'd' (drop j2 s) in j3 + pair_run b't' b'h' (drop j3 s)

-- `followedByEpisodeLetter`.
unfoldable pub followed_by_episode_letter : Text → ℕ → Bool
unfolding at one_of run_length
followed_by_episode_letter s i =
    let j = skip_run s i (codes " ") in
    test_at (folds_to b'e') s j && test_at is_ascii_digit s (j + 1)

-- `isResolutionRun`.
unfoldable pub is_resolution_run : Text → ℕ → ℕ → Bool
unfolding at
is_resolution_run cleaned run k =
    (run - k == 3 || run - k == 4) && test_at (folds_to b'p') cleaned run

abbrev pub resolution_at : Text → ℕ → ℕ → Option ℕ
resolution_at cleaned run k = if is_resolution_run cleaned run k then some k else none

-- Where the digits of a season end: in front of those of a resolution.
unfoldable pub season_end : Text → ℕ → ℕ → ℕ
unfolding is_resolution_run first_of positions
season_end cleaned j run =
    elim (first_of (resolution_at cleaned run) (positions (j + 1) (run - (j + 1)))) [
      | none ↦ run
      | some k ↦ k
    ]

-- `removeAny`.
unfoldable pub remove_any : Text → Text → Text
unfolding one_of
remove_any set [] = []
remove_any set (c ∷ cs) = let rest = remove_any set cs in if one_of set c then rest else c ∷ rest

-- The loop of `removeFoldedSubstring`, whose slice of the lowered text can lie beyond its end. The
-- second number counts the bytes of an occurrence that are still to be passed over.
unfoldable pub remove_folded_from : Text → Text → ℕ → ℕ → Text → Attempt Text
remove_folded_from lowered target i skip [] = done []
remove_folded_from lowered target i (suc skip) (c ∷ cs) =
    remove_folded_from lowered target (suc i) skip cs
remove_folded_from lowered target i zero (c ∷ cs) =
    let hit = has_prefix target (drop i lowered) in
    let rest =
      remove_folded_from lowered target (suc i) (if hit then length target - 1 else 0) cs in
    if ltb (length lowered) i
    then crashed
    else if hit
    then rest
    else (rest >>= λ kept. done (c ∷ kept))

abbrev pub first_number : Option (ℕ × ℕ) → Option ℕ
first_number none = none
first_number (some (value, j)) = some value

abbrev pub whole : Text → Option (ℕ × ℕ) → Option ℕ
whole s none = none
whole s (some (value, j)) = if j == length s then some value else none

module _ (to_lower : Text → Text) where
  -- `removeFoldedSubstring`; a text that is not empty is not lowered to the empty one.
  unfoldable pub remove_folded_substring : Text → Text → Attempt Text
  unfolding remove_folded_from
  remove_folded_substring s sub = remove_folded_from (to_lower s) (to_lower sub) 0 0 s

  abbrev pub word_at : Text → ℕ → Text → Option ℕ
  word_at lowered i word = if has_prefix word lowered then some (i + length word) else none

  -- `seasonWordAt`.
  unfoldable pub season_word_at : Text → ℕ → Option ℕ
  unfolding first_of
  season_word_at s i = first_of (word_at (to_lower (drop i s)) i) season_directory_words

  abbrev pub number_with : Text → Option (ℕ × ℕ) → Option ℕ
  number_with cleaned none = none
  number_with cleaned (some (value, j)) =
      let k = behind_ordinal cleaned j in
      if followed_by_episode_letter cleaned k || not (is_some (season_word_at cleaned k))
      then none
      else some value

  -- `numberThenSeasonWord`.
  unfoldable pub number_then_season_word : Text → Option ℕ
  unfolding season_word_at followed_by_episode_letter pair_run read_number
  number_then_season_word cleaned = number_with cleaned (read_number cleaned 0)

  abbrev pub word_with : Text → Option ℕ → Option ℕ
  word_with cleaned none = none
  word_with cleaned (some j) =
      let run = j + run_length is_ascii_digit (drop j cleaned) in
      let end = season_end cleaned j run in
      if run == j || followed_by_episode_letter cleaned end
      then none
      else first_number (read_number (take end cleaned) j)

  -- `seasonWordThenNumber`.
  unfoldable pub season_word_then_number : Text → Option ℕ
  unfolding season_word_at followed_by_episode_letter season_end run_length read_number
  season_word_then_number cleaned = word_with cleaned (season_word_at cleaned 0)

  -- The rules that read the name without separators and without the series.
  unfoldable pub parse_cleaned : Text → Option ℕ
  unfolding number_then_season_word season_word_then_number read_number
  parse_cleaned cleaned =
      if not (nonempty cleaned)
      then none
      else if str_eq (to_lower cleaned) specials_directory_name
      then some 0
      else or_else (whole cleaned (read_number cleaned 0))
          (or_else (number_then_season_word cleaned) (season_word_then_number cleaned))

  abbrev pub without_series : Text → Text → Attempt Text
  without_series cleaned series =
      if nonempty series && nonempty (remove_any number_separators series)
      then remove_folded_substring cleaned (remove_any number_separators series)
      else done cleaned

  abbrev pub parse_unprefixed : Text → Text → Option ℕ → Attempt (Option ℕ)
  parse_unprefixed name series (some n) = done (some n)
  parse_unprefixed name series none =
      without_series (remove_any number_separators name) series >>= λ cleaned.
      done (parse_cleaned cleaned)

  -- `parseSeasonDirectoryName`.
  unfoldable pub parse_season_directory_name : Text → Text → Attempt (Option ℕ)
  unfolding remove_folded_substring parse_cleaned season_prefix_number remove_any
  parse_season_directory_name name series = parse_unprefixed name series (season_prefix_number name)
