-- ===== src/Library/Names.antt =====
-- internal/library/names.go: the title and the year that the name of a file or directory gives. A
-- name is its bytes; what a rule does at an index is done with `take` and `drop` there.
use atrium_go.Base.{
  ℕ, ◌+◌, ◌-◌, Bool, false, not, ◌&&◌, ◌||◌, Option, none, some, List, [], ◌∷◌, ◌==◌, ltb,
  if◌then◌else◌, length, take, drop,
}
use atrium_go.Library.Bytes.{
  at, positions, first_of, one_of, test_at, is_ascii_digit, is_word_byte, trim_right, index_of,
  present, value_of,
}
use atrium_go.Text.{Text, codes, has_prefix, fold_ascii, nonempty, trim_left}

abbrev pub year_separators : Text
year_separators = codes " _.()[]-"

abbrev pub year_single_separators : Text
year_single_separators = codes "_.()[]-"

abbrev pub title_trailing_separators : Text
title_trailing_separators = codes "_,.()[]-"

abbrev pub tag_separators : Text
tag_separators = codes " _,.()[]-"

abbrev pub release_tags : List Text
release_tags =
    codes "3d"
    ∷ codes "sbs"
    ∷ codes "tab"
    ∷ codes "hsbs"
    ∷ codes "htab"
    ∷ codes "mvc"
    ∷ codes "hdr"
    ∷ codes "hdc"
    ∷ codes "uhd"
    ∷ codes "ultrahd"
    ∷ codes "4k"
    ∷ codes "ac3"
    ∷ codes "dts"
    ∷ codes "custom"
    ∷ codes "dc"
    ∷ codes "divx"
    ∷ codes "divx5"
    ∷ codes "dsr"
    ∷ codes "dsrip"
    ∷ codes "dutch"
    ∷ codes "dvd"
    ∷ codes "dvdrip"
    ∷ codes "dvdscr"
    ∷ codes "dvdscreener"
    ∷ codes "screener"
    ∷ codes "dvdivx"
    ∷ codes "cam"
    ∷ codes "fragment"
    ∷ codes "fs"
    ∷ codes "hdtv"
    ∷ codes "hdrip"
    ∷ codes "hdtvrip"
    ∷ codes "internal"
    ∷ codes "limited"
    ∷ codes "multi"
    ∷ codes "subs"
    ∷ codes "ntsc"
    ∷ codes "ogg"
    ∷ codes "ogm"
    ∷ codes "pal"
    ∷ codes "pdtv"
    ∷ codes "proper"
    ∷ codes "repack"
    ∷ codes "rerip"
    ∷ codes "retail"
    ∷ codes "cd1"
    ∷ codes "cd2"
    ∷ codes "cd3"
    ∷ codes "cd4"
    ∷ codes "cd5"
    ∷ codes "cd6"
    ∷ codes "cd7"
    ∷ codes "cd8"
    ∷ codes "cd9"
    ∷ codes "r5"
    ∷ codes "bd5"
    ∷ codes "bd"
    ∷ codes "se"
    ∷ codes "svcd"
    ∷ codes "swedish"
    ∷ codes "german"
    ∷ codes "read.nfo"
    ∷ codes "nfofix"
    ∷ codes "unrated"
    ∷ codes "ws"
    ∷ codes "telesync"
    ∷ codes "ts"
    ∷ codes "telecine"
    ∷ codes "tc"
    ∷ codes "brrip"
    ∷ codes "bdrip"
    ∷ codes "480p"
    ∷ codes "480i"
    ∷ codes "576p"
    ∷ codes "576i"
    ∷ codes "720p"
    ∷ codes "720i"
    ∷ codes "1080p"
    ∷ codes "1080i"
    ∷ codes "2160p"
    ∷ codes "hrhd"
    ∷ codes "hrhdtv"
    ∷ codes "hddvd"
    ∷ codes "bluray"
    ∷ codes "blu-ray"
    ∷ codes "x264"
    ∷ codes "x265"
    ∷ codes "h264"
    ∷ codes "h265"
    ∷ codes "xvid"
    ∷ codes "xvidvd"
    ∷ codes "xxx"
    ∷ codes "www.www"
    ∷ codes "aac"
    ∷ []

-- `isYearRun`.
unfoldable pub is_year_run : Text → ℕ → Bool
unfolding at
is_year_run s i =
    test_at is_ascii_digit s i
    && test_at is_ascii_digit s (i + 1)
    && test_at is_ascii_digit s (i + 2)
    && test_at is_ascii_digit s (i + 3)
    && not (ltb 0 i && test_at is_ascii_digit s (i - 1))
    && not (test_at is_ascii_digit s (i + 4))

abbrev pub is_not_word : ℕ → Bool
is_not_word c = not (is_word_byte c)

-- `looksLikeDateTail`; a test beyond the end is false, as the length is asked for first.
unfoldable pub looks_like_date_tail : Text → Bool
unfolding at
looks_like_date_tail rest =
    test_at is_not_word rest 0
    && test_at is_ascii_digit rest 1
    && test_at is_ascii_digit rest 2
    && test_at is_not_word rest 3
    && test_at is_ascii_digit rest 4
    && test_at is_ascii_digit rest 5

-- The value of the four digits at an index.
abbrev pub year_value : Text → ℕ → ℕ
year_value s i = value_of 0 (take 4 (drop i s))

-- The tests of the loop of `takeYear`.
unfoldable pub is_year_at : Text → ℕ → Bool
unfolding is_year_run looks_like_date_tail one_of value_of at
is_year_at s i =
    is_year_run s i
    && not (ltb (year_value s i) 1900 || ltb 2099 (year_value s i))
    && not (ltb i 2 || not (test_at (one_of year_separators) s (i - 1)))
    && not (looks_like_date_tail (drop (i + 4) s))

-- The loop: the last one wins.
unfoldable pub last_year : Text → List ℕ → Option ℕ → Option ℕ
unfolding is_year_at
last_year s [] found = found
last_year s (i ∷ rest) found = last_year s rest (if is_year_at s i then some i else found)

-- `endsOutsideTitleSeparators`.
unfoldable pub ends_outside_title_separators : Text → Bool
unfolding one_of
ends_outside_title_separators [] = false
ends_outside_title_separators (c ∷ []) = not (one_of title_trailing_separators c)
ends_outside_title_separators (c ∷ d ∷ cs) = ends_outside_title_separators (d ∷ cs)

-- `titleBeforeYear`.
unfoldable pub title_before_year : Text → ℕ → Option Text
unfolding ends_outside_title_separators one_of at trim_left
title_before_year s found =
    let single = take (found - 1) s in
    let run = trim_right (one_of year_separators) (take found s) in
    if test_at (one_of year_single_separators) s (found - 1) && ends_outside_title_separators single
    then some single
    else if ends_outside_title_separators run
    then some run
    else none

abbrev pub titled : Text → ℕ → Option Text → Text × Option ℕ
titled s i none = (s, none)
titled s i (some title) = (title, some (year_value s i))

abbrev pub dated : Text → Option ℕ → Text × Option ℕ
dated s none = (s, none)
dated s (some i) = titled s i (title_before_year s i)

-- `takeYear`.
unfoldable pub take_year : Text → Text × Option ℕ
unfolding last_year title_before_year positions value_of
take_year s = dated s (last_year s (positions 0 (length s + 1 - 4)) none)

-- One tag of `releaseTagAt`.
abbrev pub delimited : Text → Text → Bool
delimited rest tag =
    has_prefix tag rest
    && (length rest == length tag || test_at (one_of tag_separators) rest (length tag))

abbrev pub any_tag : Text → List Text → Bool
any_tag rest [] = false
any_tag rest (tag ∷ tags) = delimited rest tag || any_tag rest tags

-- `releaseTagAt`.
unfoldable pub release_tag_at : Text → ℕ → Bool
unfolding one_of at
release_tag_at s i = any_tag (fold_ascii (drop i s)) release_tags

abbrev pub tag_cut : Text → ℕ → Option Text
tag_cut s i =
    if test_at (one_of tag_separators) s i && release_tag_at s (i + 1)
    then some (take i s)
    else none

-- `cutAtReleaseTag`.
unfoldable pub cut_at_release_tag : Text → Text
unfolding release_tag_at one_of at first_of positions
cut_at_release_tag s = elim (first_of (tag_cut s) (positions 1 (length s - 1))) [
  | none ↦ s
  | some head ↦ head
]

abbrev pub bracket_cut : Text → Option ℕ → Text
bracket_cut s none = s
bracket_cut s (some start) =
    if ltb start 1 || not (present (index_of b']' (drop (start + 1) s))) then s else take start s

-- `cutAtReleaseGroupBracket`.
unfoldable pub cut_at_release_group_bracket : Text → Text
unfolding index_of
cut_at_release_group_bracket s = bracket_cut s (index_of b'[' s)

abbrev pub is_space_byte : ℕ → Bool
is_space_byte c = c == b' '

abbrev pub bracket_drop : Text → Text → Option ℕ → Text
bracket_drop s trimmed none = s
bracket_drop s trimmed (some end) =
    let rest = trim_left is_space_byte (drop (end + 1) trimmed) in
    if ltb end 2 || not (nonempty rest) then s else rest

-- `dropLeadingReleaseGroupBracket`.
unfoldable pub drop_leading_release_group_bracket : Text → Text
unfolding index_of trim_left
drop_leading_release_group_bracket s =
    let trimmed = trim_left is_space_byte s in
    if has_prefix (codes "[") trimmed then bracket_drop s trimmed (index_of b']' trimmed) else s

-- `removeReleaseTags`.
unfoldable pub remove_release_tags : Text → Text
unfolding cut_at_release_tag cut_at_release_group_bracket drop_leading_release_group_bracket
remove_release_tags s =
    drop_leading_release_group_bracket (cut_at_release_group_bracket (cut_at_release_tag s))

-- `cleanVideoName`, over `strings.TrimSpace`.
unfoldable pub clean_video_name : (Text → Text) → Text → Text × Option ℕ
unfolding take_year remove_release_tags
clean_video_name trim_space stem =
    let title = trim_space (remove_release_tags (take_year stem).0) in
    (if nonempty title then title else trim_space stem, (take_year stem).1)
