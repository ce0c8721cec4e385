-- ===== src/Library/SortKey.antt =====
-- internal/library/sortkey.go: the key that orders an item in its library. A name is the list of its
-- code points. The tables of the packages unicode and norm are parameters.
pub mod Padding
pub mod Ascii
pub mod Order
mod Tests
use mathlib.Core.List.{reverse}
use atrium_go.Base.{
  ℕ, zero, suc, ◌+◌, ◌-◌, Bool, true, false, Option, none, some, List, [], ◌∷◌, ◌++◌, ◌==◌, ltb,
  if◌then◌else◌, length, take, drop, replicate,
}
use atrium_go.Base.Int.{ℤ, pos, negsuc}
use atrium_go.Ports.Items.{ScannedItem}
use atrium_go.Text.Decimal.{decimal}
use atrium_go.Text.{Text, codes, str_eq, nonempty, has_prefix, trim}

pub record Unicode : Type 0 where
  pub is_space : ℕ → Bool
  pub is_digit : ℕ → Bool
  pub is_mark : ℕ → Bool
  pub to_lower : Text → Text
  pub nfd : Text → Text

abbrev pub space : ℕ
space = b' '

abbrev pub sort_articles : List Text
sort_articles = codes "the" ∷ codes "a" ∷ codes "an" ∷ []

abbrev pub sort_removed_characters : Text
sort_removed_characters = codes ",&-{}'"

abbrev pub sort_replaced_characters : Text
sort_replaced_characters = codes ".+%"

abbrev pub sort_pad_width : ℕ
sort_pad_width = 10

-- `strings.HasSuffix`.
unfoldable pub has_suffix : Text → Text → Bool
has_suffix suffix s = has_prefix (reverse suffix) (reverse s)

-- Each occurrence of ` article `, from the left, becomes one space; the number counts the code
-- points of an occurrence that are still to be passed over.
unfoldable pub replace_surrounded : Text → ℕ → Text → Text
replace_surrounded article skip [] = []
replace_surrounded article (suc n) (c ∷ cs) = replace_surrounded article n cs
replace_surrounded article zero (c ∷ cs) =
    let hit = has_prefix (space ∷ article ++ space ∷ []) (c ∷ cs) in
    (if hit then space else c)
    ∷ replace_surrounded article (if hit then length article + 1 else 0) cs

abbrev pub without_first : Text → Text → Text
without_first article s =
    if has_prefix (article ++ space ∷ []) s then drop (length article + 1) s else s

abbrev pub without_last : Text → Text → Text
without_last article s =
    if has_suffix (space ∷ article) s then take (length s - length article - 1) s else s

-- `removeArticle`.
unfoldable pub remove_article : Text → Text → Text
unfolding has_suffix replace_surrounded
remove_article s article =
    without_last article (replace_surrounded article 0 (without_first article s))

abbrev pub remove_articles : List Text → Text → Text
remove_articles [] s = s
remove_articles (a ∷ rest) s = remove_articles rest (remove_article s a)

unfoldable pub contains_rune : Text → ℕ → Bool
contains_rune [] r = false
contains_rune (c ∷ cs) r = if c == r then true else contains_rune cs r

unfoldable pub remove_characters : Text → Text → Text
unfolding contains_rune
remove_characters set [] = []
remove_characters set (r ∷ rs) =
    let rest = remove_characters set rs in if contains_rune set r then rest else r ∷ rest

unfoldable pub replace_characters_with_space : Text → Text → Text
unfolding contains_rune
replace_characters_with_space set [] = []
replace_characters_with_space set (r ∷ rs) =
    (if contains_rune set r then space else r) ∷ replace_characters_with_space set rs

-- A run of digits, which is not empty, behind the zeros that it lacks.
abbrev pub padded_run : ℕ → Text → Text
padded_run width [] = []
padded_run width (d ∷ ds) = replicate (width - length (d ∷ ds)) b'0' ++ d ∷ ds

-- The readings that a decomposition does not give.
abbrev pub latin_readings : List (ℕ × Text)
latin_readings =
    (230, codes "ae")
    ∷ (198, codes "AE")
    ∷ (339, codes "oe")
    ∷ (338, codes "OE")
    ∷ (248, codes "o")
    ∷ (216, codes "O")
    ∷ (223, codes "ss")
    ∷ (7838, codes "SS")
    ∷ (273, codes "d")
    ∷ (272, codes "D")
    ∷ (240, codes "d")
    ∷ (208, codes "D")
    ∷ (254, codes "th")
    ∷ (222, codes "TH")
    ∷ (322, codes "l")
    ∷ (321, codes "L")
    ∷ (295, codes "h")
    ∷ (294, codes "H")
    ∷ (331, codes "ng")
    ∷ (330, codes "NG")
    ∷ (305, codes "i")
    ∷ (304, codes "I")
    ∷ []

-- A map without the key answers the empty text.
unfoldable pub reading_of : List (ℕ × Text) → ℕ → Text
reading_of [] r = []
reading_of ((k, s) ∷ rows) r = if k == r then s else reading_of rows r

-- `strconv.Itoa`.
unfoldable pub itoa : ℤ → Text
itoa (pos n) = decimal n
itoa (negsuc n) = b'-' ∷ decimal (suc n)

-- `padNumber`.
unfoldable pub pad_number : ℤ → ℕ → Text
unfolding itoa
pad_number n width =
    let digits = itoa n in
    if ltb (length digits) width then replicate (width - length digits) b'0' ++ digits else digits

-- `numberSegment`.
unfoldable pub number_segment : Option ℤ → ℕ → Text
unfolding pad_number
number_segment none width = []
number_segment (some n) width = pad_number n width ++ codes " - "

module _ (unicode : Unicode) where
  -- `trimSurroundingWhitespace`.
  abbrev pub trim_surrounding_whitespace : Text → Text
  trim_surrounding_whitespace = trim unicode.is_space

  -- The loop of `padDigitRuns`, from inside a run.
  unfoldable pub pad_from : ℕ → Text → Text → Text
  pad_from width run [] = padded_run width run
  pad_from width run (r ∷ rs) =
      let grown = if unicode.is_digit r then run ++ r ∷ [] else [] in
      let rest = pad_from width grown rs in
      if unicode.is_digit r then rest else padded_run width run ++ r ∷ rest

  -- `padDigitRuns`.
  unfoldable pub pad_digit_runs : Text → ℕ → Text
  unfolding pad_from
  pad_digit_runs s width = pad_from width [] s

  -- One code point of `foldToASCII`.
  abbrev pub ascii_of : ℕ → Text
  ascii_of r =
      if ltb r 128 then r ∷ [] else if unicode.is_mark r then [] else reading_of latin_readings r

  abbrev pub fold_each : Text → Text
  fold_each [] = []
  fold_each (r ∷ rs) = ascii_of r ++ fold_each rs

  -- `foldToASCII`.
  unfoldable pub fold_to_ascii : Text → Text
  unfolding reading_of
  fold_to_ascii s = fold_each (unicode.nfd s)

  -- `SortKeyBase`.
  unfoldable pub sort_key_base : Text → Text
  unfolding remove_article remove_characters replace_characters_with_space pad_digit_runs
      fold_to_ascii
  sort_key_base name = fold_to_ascii (
      pad_digit_runs
        (replace_characters_with_space sort_replaced_characters (
          remove_characters sort_removed_characters
            (remove_articles sort_articles (unicode.to_lower (trim_surrounding_whitespace name)))))
        sort_pad_width)

  -- `sortKeyFromTitle`.
  unfoldable pub sort_key_from_title : Text → Text
  unfolding pad_digit_runs fold_to_ascii
  sort_key_from_title title = unicode.to_lower (fold_to_ascii (pad_digit_runs title sort_pad_width))

  abbrev pub season_key : Option ℤ → Text → Text
  season_key none name = name
  season_key (some n) name = pad_number n 4

  -- The switch on the kind.
  abbrev pub key_of_kind : ScannedItem → Text
  key_of_kind x =
      if str_eq x.kind (codes "Audio")
      then number_segment x.parent_index_number 4 ++ number_segment x.index_number 4 ++ x.name
      else if str_eq x.kind (codes "Episode")
      then number_segment x.parent_index_number 3 ++ number_segment x.index_number 4 ++ x.name
      else if str_eq x.kind (codes "Season")
      then season_key x.index_number x.name
      else sort_key_base x.name

  -- `SortKeyFor`.
  unfoldable pub sort_key_for : ScannedItem → Text
  unfolding number_segment sort_key_base sort_key_from_title
  sort_key_for x = if nonempty x.sort_title then sort_key_from_title x.sort_title else key_of_kind x
