-- ===== src/Library/Resolve.antt =====
-- internal/library/resolve.go: what the readings of a library resolve to.
pub mod Albums
pub mod Attempts
pub mod Crashes
pub mod Files
pub mod Lowered
pub mod Parents
pub mod Climbing
pub mod Placing
pub mod Safety
pub mod Series
pub mod Spared
pub mod Stacks
pub mod Groups
pub mod Places
pub mod Weights
mod Tests
use atrium_go.Base.{ℕ, Bool, Option, none, some, List, [], ◌∷◌, ◌++◌, map, ltb, if◌then◌else◌}
use atrium_go.Base.Int.{pos}
use atrium_go.Library.Candidates.{
  Collection, Skip, movies, shows, music, parse_collection_type, candidate, skip_string,
}
use atrium_go.Library.Data.{Library, Entry, Reading, Note, Plan}
use atrium_go.Library.Episodes.{resolve_shows}
use atrium_go.Library.Films.{resolve_movies}
use atrium_go.Library.Tools.{Tools, Attempt, done, failed, crashed, ◌>>=◌, blank, keyed, identified}
use atrium_go.Library.Tracks.{TagSource, no_tags, resolve_music}
use atrium_go.Ports.Items.{ScannedItem}
use atrium_go.Scan.{sort_items}
use atrium_go.Sorting.{sort_by}
use atrium_go.Text.{Text, codes, str_lt}

abbrev pub entry_before : Entry → Entry → Bool
entry_before a b = str_lt a.path b.path

abbrev pub root_before : Reading → Reading → Bool
root_before a b = ltb a.root b.root

abbrev pub sort_entries : Reading → Reading
sort_entries r = record r { entries = sort_by entry_before r.entries }

-- `sortReadings`.
unfoldable pub sort_readings : List Reading → List Reading
sort_readings readings = sort_by root_before (map sort_entries readings)

abbrev pub kept_with : Entry → Option Skip → List Entry → List Entry
kept_with e none es = e ∷ es
kept_with e (some skip) es = es

abbrev pub kept_entries : Collection → List Entry → List Entry
kept_entries c [] = []
kept_entries c (e ∷ es) = kept_with e (candidate c e.path) (kept_entries c es)

abbrev pub note_with : ℕ → Entry → Option Skip → List Note → List Note
note_with root e none ns = ns
note_with root e (some skip) ns =
    record { root = root; path = e.path; reason = skip_string skip } ∷ ns

abbrev pub skipped_entries : Collection → ℕ → List Entry → List Note
skipped_entries c root [] = []
skipped_entries c root (e ∷ es) = note_with root e (candidate c e.path) (skipped_entries c root es)

abbrev pub kept_reading : Collection → Reading → Reading
kept_reading c r = record r { entries = kept_entries c r.entries }

-- `partitionCandidates`, in two halves.
unfoldable pub kept_readings : Collection → List Reading → List Reading
kept_readings c rs = map (kept_reading c) rs

unfoldable pub skipped_notes : Collection → List Reading → List Note
skipped_notes c [] = []
skipped_notes c (r ∷ rs) = skipped_entries c r.root r.entries ++ skipped_notes c rs

module _ (tools : Tools) (lib : Library) where
  -- `libraryRootItem`.
  unfoldable pub library_root_item : ScannedItem
  library_root_item = keyed tools (record blank {
    id = identified tools lib (codes "CollectionFolder") lib.id;
    library_id = lib.id;
    kind = codes "CollectionFolder";
    name = lib.name;
  })

  -- The switch on the collection.
  unfoldable pub resolve_kept :
      TagSource → Collection → List Reading → Attempt (List ScannedItem × List Note)
  resolve_kept tags movies kept =
      resolve_movies tools lib kept library_root_item.id >>= λ items. done (items, [])
  resolve_kept tags shows kept = resolve_shows tools lib kept library_root_item.id
  resolve_kept tags music kept =
      resolve_music tools lib tags kept library_root_item.id >>= λ items. done (items, [])

  abbrev pub plan_of : List Note → List ScannedItem × List Note → Plan
  plan_of skipped found = record {
    items = sort_items (library_root_item ∷ found.0);
    unplaceable = found.1;
    skipped = skipped;
  }

  abbrev pub resolve_collection :
      TagSource → List Reading → Option Collection → Attempt (Option Plan)
  resolve_collection tags sorted none = done none
  resolve_collection tags sorted (some c) =
      resolve_kept tags c (kept_readings c sorted) >>= λ found.
      done (some (plan_of (skipped_notes c sorted) found))

  -- `ResolveWithTags`; a collection type that is unknown has no plan.
  unfoldable pub resolve_with_tags : TagSource → List Reading → Attempt (Option Plan)
  unfolding sort_readings kept_readings skipped_notes library_root_item resolve_kept
      parse_collection_type
  resolve_with_tags tags readings =
      resolve_collection tags (sort_readings readings) (parse_collection_type lib.collection_type)

  -- `Resolve`.
  unfoldable pub resolve : List Reading → Attempt (Option Plan)
  unfolding resolve_with_tags
  resolve = resolve_with_tags no_tags
