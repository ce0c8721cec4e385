-- ===== src/Library/TrackNames.antt =====
-- internal/library/music.go: what the names of files and directories say of tracks and albums.
use atrium_go.Base.{
  ℕ, Bool, false, ◌&&◌, Option, none, some, List, [], ◌∷◌, ◌++◌, ◌==◌, if◌then◌else◌, length, take,
  drop,
}
use atrium_go.Library.Bytes.{at, first_of, one_of, test_at, read_number, index_of}
use atrium_go.Library.Names.{take_year, is_space_byte}
use atrium_go.Library.Tools.{Tools, trim_space}
use atrium_go.Text.{Text, codes, str_eq, fold_ascii, nonempty, trim, trim_left}

abbrev pub track_number_separators : Text
track_number_separators = codes " _.-"

abbrev pub track_name_trim_separators : Text
track_name_trim_separators = b' ' ∷ 9 ∷ codes "_.-"

module _ (tools : Tools) where
  abbrev pub numbered_track : Text → Option (ℕ × ℕ) → Text × Option ℕ
  numbered_track stem none = (trim_space tools stem, none)
  numbered_track stem (some (number, after)) =
      let title = trim (one_of track_name_trim_separators) (drop after stem) in
      if test_at (one_of track_number_separators) stem after && nonempty title
      then (title, some number)
      else (trim_space tools stem, none)

  -- `parseTrackName`.
  unfoldable pub parse_track_name : Text → Text × Option ℕ
  unfolding one_of at read_number
  parse_track_name stem = numbered_track stem (read_number stem 0)

  -- `albumNameFromDirectory`.
  unfoldable pub album_name_from_directory : Text → Text × Option ℕ
  unfolding take_year
  album_name_from_directory name =
      let title = trim_space tools (take_year name).0 in
      if nonempty title then (title, (take_year name).1) else (trim_space tools name, none)

abbrev pub disc_prefixes : List Text
disc_prefixes =
    codes "cd"
    ∷ codes "digital media"
    ∷ codes "disc"
    ∷ codes "disk"
    ∷ codes "vol"
    ∷ codes "volume"
    ∷ codes "part"
    ∷ codes "act"
    ∷ []

abbrev pub disc_separators : Text
disc_separators = codes "-.() " ++ 9 ∷ 10 ∷ 13 ∷ 11 ∷ 12 ∷ []

-- `collapseRuns`; the test says whether a run is being passed over.
unfoldable pub collapse_from : Text → ℕ → Bool → Text → Text
unfolding one_of
collapse_from set replacement inside [] = []
collapse_from set replacement inside (c ∷ cs) =
    let hit = one_of set c in
    let rest = collapse_from set replacement hit cs in
    if hit then (if inside then rest else replacement ∷ rest) else c ∷ rest

abbrev pub first_word : Text → Option ℕ → Text
first_word rest none = rest
first_word rest (some end) = take end rest

abbrev pub whole_number : Text → Option (ℕ × ℕ) → Option ℕ
whole_number rest none = none
whole_number rest (some (number, after)) = if after == length rest then some number else none

-- The body of the loop of `parseDiscDirectoryName`.
abbrev pub disc_with : Text → Text → Option ℕ
disc_with cleaned prefix =
    let rest = trim is_space_byte (drop (length prefix) cleaned) in
    let word = first_word rest (index_of b' ' rest) in
    if str_eq (fold_ascii (take (length prefix) cleaned)) prefix
    then whole_number word (read_number word 0)
    else none

-- `parseDiscDirectoryName`.
unfoldable pub parse_disc_directory_name : Text → Option ℕ
unfolding collapse_from first_of read_number index_of
parse_disc_directory_name name =
    first_of (disc_with (trim_left is_space_byte (collapse_from disc_separators b' ' false name)))
      disc_prefixes
