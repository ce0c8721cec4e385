-- ===== src/Library/ShowNames.antt =====
-- internal/library/shows.go: what the path of a file says of its series and its episode.
use atrium_go.Base.{
  ℕ, Bool, true, false, not, ◌&&◌, Option, none, some, List, [], ◌∷◌, if◌then◌else◌, take, drop,
}
use atrium_go.Library.Bytes.{one_of, dir_name, stem_of_path}
use atrium_go.Library.Data.{Entry}
use atrium_go.Library.Names.{clean_video_name}
use atrium_go.Library.Numbering.{Numbering, parse_episode_numbering}
use atrium_go.Library.Tools.{Tools, trim_space}
use atrium_go.Text.{Text, codes, str_eq, nonempty, trim, split}

abbrev pub name_trim_separators : Text
name_trim_separators = b' ' ∷ 9 ∷ codes "_.-"

pub record ShowCandidate : Type 0 where
  pub root : ℕ
  pub entry : Entry
  pub series_dir : Text
  pub season_dir : Text
  pub series_name : Text
  pub series_year : Option ℕ
  pub numbers : Option Numbering
  pub name : Text

abbrev pub first_element : List Text → Text
first_element [] = []
first_element (e ∷ es) = e

abbrev pub several : List Text → Bool
several [] = false
several (e ∷ []) = false
several (e ∷ f ∷ es) = true

module _ (tools : Tools) where
  abbrev pub titled_by : Text → Text × Option ℕ
  titled_by source =
      if nonempty source then clean_video_name (trim_space tools) source else ([], none)

  -- `episodeName`.
  abbrev pub episode_name : Text → Option Numbering → Text
  episode_name stem none = trim_space tools stem
  episode_name stem (some n) =
      let after = trim (one_of name_trim_separators) (drop n.end stem) in
      if nonempty after then after else trim_space tools stem

  -- What names the series of a file that stands in no directory.
  abbrev pub leading_name : Text → Option Numbering → Text
  leading_name stem none = []
  leading_name stem (some n) = trim (one_of name_trim_separators) (take n.start stem)

  -- `classifyShow`.
  unfoldable pub classify_show : ℕ → Entry → ShowCandidate
  unfolding parse_episode_numbering clean_video_name dir_name stem_of_path one_of
  classify_show root e =
      let stem = stem_of_path e.path in
      let dir = dir_name e.path in
      let inside = not (str_eq dir (codes ".")) in
      let parts = split b'/' dir in
      let series_dir = if inside then first_element parts else [] in
      let numbers = parse_episode_numbering tools.day_at stem in
      let (series_name, year) =
        titled_by (if nonempty series_dir then series_dir else leading_name stem numbers) in
      record {
        root = root;
        entry = e;
        series_dir = series_dir;
        season_dir = if inside && several parts then dir else [];
        series_name = series_name;
        series_year = year;
        numbers = numbers;
        name = episode_name stem numbers;
      }
