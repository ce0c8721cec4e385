-- ===== src/Library/Episodes.antt =====
-- internal/library/shows.go: the series, the seasons and the episodes of a library. The map of the
-- series is the list of them in the order they were made, each with its key and its seasons.
use atrium_go.Base.{
  ℕ, Bool, true, false, not, ◌&&◌, Option, none, some, List, [], ◌∷◌, ◌++◌, map, ◌==◌,
  if◌then◌else◌,
}
use atrium_go.Base.Int.{ℤ, pos}
use atrium_go.Library.Bytes.{or_else, base_name, join_key}
use atrium_go.Library.Data.{Library, Reading, Note}
use atrium_go.Library.Numbering.{Numbering, placeable}
use atrium_go.Library.SeasonNames.{parse_season_directory_name}
use atrium_go.Library.SortKey.{itoa}
use atrium_go.Library.Tools.{
  Tools, Attempt, done, crashed, ◌>>=◌, blank, file_at, year_number, keyed, normalised, identified,
}
use atrium_go.Ports.Items.{ScannedItem, Time}
use atrium_go.Tables.{find_row, update_rows, any_row}
use atrium_go.Text.{Text, codes, str_eq, nonempty}
use atrium_go.Library.ShowNames.{ShowCandidate, classify_show}

abbrev pub reason_no_episode_number : Text
reason_no_episode_number = codes "the name carries neither an episode number nor a date"

abbrev pub reason_no_series : Text
reason_no_series = codes "nothing names the series this file belongs to"

pub record SeasonGroup : Type 0 where
  pub id : Text
  pub number : ℕ
  pub path : Text
  pub root : ℕ

pub record SeriesGroup : Type 0 where
  pub id : Text
  pub series_key : Text
  pub name : Text
  pub year : Option ℕ
  pub path : Text
  pub root : ℕ
  pub seasons : List SeasonGroup

abbrev pub by_series_key : Text → SeriesGroup → Bool
by_series_key k g = str_eq g.series_key k

abbrev pub by_number : ℕ → SeasonGroup → Bool
by_number n g = g.number == n

abbrev pub number_of : (Numbering → Option ℕ) → Option Numbering → Option ℕ
number_of field none = none
number_of field (some n) = field n

abbrev pub premiere_of : Option Numbering → Option Time
premiere_of none = none
premiere_of (some n) = n.premiere

abbrev pub signed : Option ℕ → Option ℤ
signed none = none
signed (some n) = some (pos n)

-- Which season an episode is put in: what its name says, what its directory says, and the first
-- where it stands in no season's directory and can be placed.
unfoldable pub season_number_of : ShowCandidate → Option ℕ → Option ℕ
unfolding placeable
season_number_of c directory = or_else (number_of (λ n. n.season) c.numbers) (
    or_else directory (if not (nonempty c.season_dir) && placeable c.numbers then some 1 else none))

-- The reason of a note.
unfoldable pub unplaceable_reason : ShowCandidate → Option Text
unfolding placeable
unplaceable_reason c =
    if not (nonempty c.series_name)
    then some reason_no_series
    else if not (placeable c.numbers)
    then some reason_no_episode_number
    else none

abbrev pub note_of : ShowCandidate → Option Text → List Note
note_of c none = []
note_of c (some reason) = record { root = c.root; path = c.entry.path; reason = reason } ∷ []

abbrev pub is_noted : Option Text → Bool
is_noted none = false
is_noted (some reason) = true

-- A directory that says the number of a season with no path yet gives it its own.
abbrev pub claims_season : Option ℕ → ℕ → SeasonGroup → Bool
claims_season none n g = false
claims_season (some d) n g = d == n && not (nonempty g.path)

abbrev pub settle_season : ShowCandidate → Option ℕ → ℕ → SeasonGroup → SeasonGroup
settle_season c directory n g =
    if claims_season directory n g then record g { path = c.season_dir; root = c.root } else g

module _ (tools : Tools) (lib : Library) where
  abbrev pub fresh_series : Text → ShowCandidate → SeriesGroup
  fresh_series k c = record {
    id = identified tools lib (codes "Series") k;
    series_key = k;
    name = c.series_name;
    year = c.series_year;
    path = c.series_dir;
    root = c.root;
    seasons = [];
  }

  abbrev pub series_with : Text → ShowCandidate → List SeriesGroup → List SeriesGroup
  series_with k c gs = if any_row (by_series_key k) gs then gs else gs ++ fresh_series k c ∷ []

  -- The first loop of `resolveShows`.
  unfoldable pub series_of : List ShowCandidate → List SeriesGroup → Attempt (List SeriesGroup)
  series_of [] gs = done gs
  series_of (c ∷ cs) gs =
      if not (nonempty c.series_name)
      then series_of cs gs
      else (normalised tools lib c.series_name >>= λ k. series_of cs (series_with k c gs))

  abbrev pub season_id : SeriesGroup → ℕ → Text
  season_id g n = identified tools lib (codes "Season") (join_key (g.id ∷ itoa (pos n) ∷ []))

  abbrev pub fresh_season : SeriesGroup → ℕ → SeasonGroup
  fresh_season g n = record { id = season_id g n; number = n; path = []; root = g.root }

  -- `season`: the season of a number, made where it is missing, and the seasons with it.
  abbrev pub season_with : SeriesGroup → ℕ → Option SeasonGroup → SeasonGroup
  season_with g n none = fresh_season g n
  season_with g n (some s) = s

  abbrev pub seasons_with : SeriesGroup → ℕ → Option SeasonGroup → List SeasonGroup
  seasons_with g n none = g.seasons ++ fresh_season g n ∷ []
  seasons_with g n (some s) = g.seasons

  abbrev pub season_of : SeriesGroup → ℕ → SeasonGroup
  season_of g n = season_with g n (find_row (by_number n) g.seasons)

  abbrev pub enter_season : ShowCandidate → Option ℕ → ℕ → SeriesGroup → SeriesGroup
  enter_season c directory n g = record g {
    seasons =
        update_rows (by_number n) (settle_season c directory n)
          (seasons_with g n (find_row (by_number n) g.seasons));
  }

  -- The item of an episode beneath a parent and in a season.
  unfoldable pub episode_item : ShowCandidate → Text → Text → Option ℕ → ScannedItem
  unfolding unplaceable_reason
  episode_item c k parent season = keyed tools (record blank {
    id = identified tools lib (codes "Episode") k;
    library_id = lib.id;
    parent_id = parent;
    kind = codes "Episode";
    name = c.name;
    path = c.entry.path;
    root_ordinal = pos c.root;
    index_number = signed (number_of (λ n. n.episode) c.numbers);
    index_number_end = signed (number_of (λ n. n.episode_end) c.numbers);
    premiere_date = premiere_of c.numbers;
    parent_index_number = signed (or_else season (number_of (λ n. n.season) c.numbers));
    unplaceable = is_noted (unplaceable_reason c);
    files = file_at 0 c.entry ∷ [];
  })

  abbrev pub directory_number : ShowCandidate → Attempt (Option ℕ)
  directory_number c =
      if nonempty c.season_dir
      then parse_season_directory_name tools.folding.to_lower (base_name c.season_dir) c.series_dir
      else done none

  -- An episode of a series that is there, and what that leaves of the series.
  abbrev pub placed_in :
      ShowCandidate
      → Text
      → Text
      → List SeriesGroup
      → Option ℕ
      → SeriesGroup
      → Option ℕ
      → ScannedItem × List SeriesGroup
  placed_in c k series_key gs directory g none = (episode_item c k g.id none, gs)
  placed_in c k series_key gs directory g (some n) = (
    episode_item c k (season_of g n).id (some n),
    update_rows (by_series_key series_key) (enter_season c directory n) gs,
  )

  abbrev pub placed_with :
      ShowCandidate
      → Text
      → Text
      → List SeriesGroup
      → Option SeriesGroup
      → Attempt (ScannedItem × List SeriesGroup)
  placed_with c k series_key gs none = crashed
  placed_with c k series_key gs (some g) = directory_number c >>= λ directory.
      done (placed_in c k series_key gs directory g (season_number_of c directory))

  -- `placeEpisode`.
  unfoldable pub place_episode :
      Text → ShowCandidate → List SeriesGroup → Attempt (ScannedItem × List SeriesGroup)
  unfolding episode_item season_number_of parse_season_directory_name
  place_episode parent c gs = normalised tools lib c.entry.path >>= λ k.
      if not (nonempty c.series_name)
      then done (episode_item c k parent none, gs)
      else (normalised tools lib c.series_name >>= λ series_key.
          placed_with c k series_key gs (find_row (by_series_key series_key) gs))

  -- The second loop of `resolveShows`.
  unfoldable pub place_episodes :
      Text → List ShowCandidate → List SeriesGroup → Attempt (List ScannedItem × List SeriesGroup)
  unfolding place_episode
  place_episodes parent [] gs = done ([], gs)
  place_episodes parent (c ∷ cs) gs = place_episode parent c gs >>= λ placed.
      place_episodes parent cs placed.1 >>= λ rest. done (placed.0 ∷ rest.0, rest.1)

  abbrev pub series_item : Text → SeriesGroup → ScannedItem
  series_item parent g = keyed tools (record blank {
    id = g.id;
    library_id = lib.id;
    parent_id = parent;
    kind = codes "Series";
    name = g.name;
    path = g.path;
    root_ordinal = pos g.root;
    production_year = year_number g.year;
  })

  abbrev pub season_name : ℕ → Text
  season_name n = if n == 0 then codes "Specials" else codes "Season " ++ itoa (pos n)

  abbrev pub season_item : Text → SeasonGroup → ScannedItem
  season_item series g = keyed tools (record blank {
    id = g.id;
    library_id = lib.id;
    parent_id = series;
    kind = codes "Season";
    name = season_name g.number;
    path = g.path;
    root_ordinal = pos g.root;
    index_number = some (pos g.number);
  })

  -- A series and its seasons.
  abbrev pub series_items : Text → List SeriesGroup → List ScannedItem
  series_items parent [] = []
  series_items parent (g ∷ gs) =
      series_item parent g ∷ (map (season_item g.id) g.seasons ++ series_items parent gs)

  abbrev pub notes_of : List ShowCandidate → List Note
  notes_of [] = []
  notes_of (c ∷ cs) = note_of c (unplaceable_reason c) ++ notes_of cs

  unfoldable pub show_candidates : List Reading → List ShowCandidate
  unfolding classify_show
  show_candidates [] = []
  show_candidates (r ∷ rs) = map (classify_show tools r.root) r.entries ++ show_candidates rs

  -- `resolveShows`.
  unfoldable pub resolve_shows : List Reading → Text → Attempt (List ScannedItem × List Note)
  unfolding series_of place_episodes show_candidates unplaceable_reason
  resolve_shows readings parent =
      let candidates = show_candidates readings in
      series_of candidates [] >>= λ gs. place_episodes parent candidates gs >>= λ placed.
      done (series_items parent placed.1 ++ placed.0, notes_of candidates)
