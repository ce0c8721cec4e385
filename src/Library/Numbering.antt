-- ===== src/Library/Numbering.antt =====
-- internal/library/shows.go: the season, the episodes or the date that the name of a file carries.
pub mod Numerals
pub mod RoundTrip
mod Tests
use atrium_go.Base.{
  ℕ, suc, ◌+◌, ◌-◌, Bool, true, false, not, ◌&&◌, ◌||◌, Option, none, some, [], ◌∷◌, ◌++◌, ◌==◌,
  ltb, leb, if◌then◌else◌, length, take, drop, guard, ◌>>=◌, ◌>>◌,
}
use atrium_go.Library.Bytes.{
  at, positions, first_of, or_else, one_of, test_at, is_ascii_digit, skip_run, read_number,
  value_of,
}
use atrium_go.Ports.Items.{Time}
use atrium_go.Text.{Text, codes, str_eq, has_prefix, fold_ascii, nonempty}

abbrev pub number_separators : Text
number_separators = codes "][ ._-"

-- `episodeNumbering`, of a name that has one.
pub record Numbering : Type 0 where
  pub season : Option ℕ
  pub episode : Option ℕ
  pub episode_end : Option ℕ
  pub premiere : Option Time
  pub start : ℕ
  pub end : ℕ

abbrev pub is_x : ℕ → Bool
is_x c = c == b'x' || c == b'X'

-- `plausibleSeason`.
unfoldable pub plausible_season : ℕ → Bool
plausible_season n = not (leb 200 n && ltb n 1928 || ltb 2500 n)

-- `keywordAt`, of a word that is not empty.
unfoldable pub keyword_at : Text → ℕ → Text → Text → Option ℕ
keyword_at s i letter rest =
    let j = i + length letter in
    if not (str_eq (fold_ascii (take (length letter) (drop i s))) letter)
    then none
    else if nonempty rest && str_eq (fold_ascii (take (length rest) (drop j s))) rest
    then some (j + length rest)
    else some j

abbrev pub range_end : Text → ℕ → Option (ℕ × ℕ) → ℕ × Option ℕ
range_end stem i none = (i, none)
range_end stem i (some (end, k)) =
    if test_at (one_of (codes "0123456789iIpP")) stem k then (i, none) else (k, some end)

abbrev pub ranged : Text → ℕ → ℕ → Bool → ℕ × Option ℕ
ranged stem i j spaced =
    let letter = test_at (one_of (codes "eExX")) stem j in
    if not letter && (spaced || not (ltb i j))
    then (i, none)
    else range_end stem i (read_number stem (if letter then suc j else j))

-- `readEpisodeRange`: the index behind it and the last episode.
unfoldable pub read_episode_range : Text → ℕ → ℕ × Option ℕ
unfolding at one_of read_number
read_episode_range stem i =
    if has_prefix (codes " - ") (drop i stem)
    then ranged stem i (i + 3) true
    else if has_prefix (codes "-") (drop i stem)
    then ranged stem i (i + 1) false
    else ranged stem i i false

abbrev pub episodes_from : Text → ℕ → Option ℕ → ℕ → ℕ → Numbering
episodes_from stem i season episode k =
    let (end, last) = read_episode_range stem k in
    record {
      season = season;
      episode = some episode;
      episode_end = last;
      premiere = none;
      start = i;
      end = end;
    }

abbrev pub behind_x : Text → ℕ → ℕ
behind_x stem k = if test_at is_x stem k then skip_run stem (suc k) number_separators else k

-- The bodies of the loops of the four rules, at one index.
unfoldable pub season_and_episode_at : Text → ℕ → Option Numbering
unfolding keyword_at read_number plausible_season read_episode_range at one_of
season_and_episode_at stem i = do
  j ← keyword_at stem i (codes "s") (codes "eason")
  season ← read_number stem (skip_run stem j number_separators)
  guard (plausible_season season.0)
  k ←
      keyword_at stem (behind_x stem (skip_run stem season.1 number_separators)) (codes "e")
        (codes "pisode")
  episode ← read_number stem (skip_run stem k number_separators)
  some (episodes_from stem i (some season.0) episode.0 episode.1)

-- Whether the byte in front of an index is one of a set, or there is none.
abbrev pub opens_at : Text → Text → ℕ → Bool
opens_at set stem i = not (ltb 0 i && not (test_at (one_of set) stem (i - 1)))

unfoldable pub cross_episode_at : Text → ℕ → Option Numbering
unfolding read_number plausible_season read_episode_range at one_of
cross_episode_at stem i = do
  guard (opens_at (number_separators ++ codes "(") stem i)
  season ← read_number stem i
  guard (plausible_season season.0)
  guard (test_at is_x stem season.1)
  episode ← read_number stem (suc season.1)
  some (episodes_from stem i (some season.0) episode.0 episode.1)

abbrev pub ep_numbered : Text → ℕ → ℕ → Option Numbering
ep_numbered stem i j = do
  episode ← read_number stem (skip_run stem j (codes "_"))
  some (episodes_from stem i none episode.0 episode.1)

abbrev pub is_dot : ℕ → Bool
is_dot c = c == b'.'

abbrev pub e_numbered : Text → ℕ → Option Numbering
e_numbered stem i = do
  j ← keyword_at stem i (codes "e") []
  episode ← read_number stem j
  guard (episode.1 == length stem || test_at is_dot stem episode.1)
  some (record {
    season = none;
    episode = some episode.0;
    episode_end = none;
    premiere = none;
    start = i;
    end = episode.1;
  })

abbrev pub prefixed_with : Text → ℕ → Option ℕ → Option Numbering
prefixed_with stem i none = e_numbered stem i
prefixed_with stem i (some j) = ep_numbered stem i j

unfoldable pub prefixed_episode_at : Text → ℕ → Option Numbering
unfolding keyword_at read_number read_episode_range at one_of
prefixed_episode_at stem i = do
  guard (opens_at number_separators stem i)
  prefixed_with stem i (keyword_at stem i (codes "ep") [])

abbrev pub all_digits : Text → Bool
all_digits [] = true
all_digits (c ∷ cs) = is_ascii_digit c && all_digits cs

-- `fixedDigits`.
unfoldable pub fixed_digits : Text → ℕ → ℕ → Option ℕ
unfolding value_of
fixed_digits s i n =
    let digits = take n (drop i s) in
    if length digits == n && all_digits digits then some (value_of 0 digits) else none

abbrev pub same_byte : Option ℕ → Option ℕ → Bool
same_byte none b = false
same_byte (some c) none = false
same_byte (some c) (some d) = c == d

-- `readDate`, over the calendar: the day and the index behind it.
unfoldable pub read_date : (ℕ → ℕ → ℕ → Option Time) → Text → ℕ → Bool → Option (Time × ℕ)
unfolding fixed_digits at one_of
read_date day_at stem i year_first =
    let first = if year_first then 4 else 2 in
    let second = if year_first then 2 else 4 in
    let j = i + first in
    let k = j + 3 in
    let end = k + 1 + second in
    do
      a ← fixed_digits stem i first
      guard (test_at (one_of (codes "._ -")) stem j)
      month ← fixed_digits stem (j + 1) 2
      guard (same_byte (at stem k) (at stem j))
      b ← fixed_digits stem (k + 1) second
      guard (not (test_at is_ascii_digit stem end))
      day ← day_at (if year_first then a else b) month (if year_first then b else a)
      some (day, end)

abbrev pub date_found : ℕ → Option (Time × ℕ) → Option Numbering
date_found i none = none
date_found i (some (day, end)) = some (record {
  season = none;
  episode = none;
  episode_end = none;
  premiere = some day;
  start = i;
  end = end;
})

unfoldable pub date_at : (ℕ → ℕ → ℕ → Option Time) → Text → ℕ → Option Numbering
unfolding read_date at
date_at day_at stem i = do
  guard (not (ltb 0 i && test_at is_ascii_digit stem (i - 1)))
  or_else (date_found i (read_date day_at stem i true))
      (date_found i (read_date day_at stem i false))

-- The loop of a rule.
abbrev pub anywhere : (ℕ → Option Numbering) → Text → Option Numbering
anywhere rule stem = first_of rule (positions 0 (length stem))

-- `parseEpisodeNumbering`: the first rule that finds something.
unfoldable pub parse_episode_numbering : (ℕ → ℕ → ℕ → Option Time) → Text → Option Numbering
unfolding season_and_episode_at prefixed_episode_at date_at cross_episode_at first_of positions
parse_episode_numbering day_at stem = or_else (anywhere (season_and_episode_at stem) stem) (
    or_else (anywhere (prefixed_episode_at stem) stem)
      (or_else (anywhere (date_at day_at stem) stem) (anywhere (cross_episode_at stem) stem)))

abbrev pub is_some : {A : Type 0} → Option A → Bool
is_some none = false
is_some (some a) = true

-- `placeable`.
unfoldable pub placeable : Option Numbering → Bool
placeable none = false
placeable (some n) = is_some n.episode || is_some n.premiere
