-- ===== src/Scan/Scanner/Stored/Tests.antt =====
-- A library of one film in two parts, scanned for the first time.
use atrium_go.Base.Int.{wrap_i64, ◌+ℤ◌}
use atrium_go.Text.Decimal.{decimal}
use atrium_go.Library.SortKey.{itoa}
use atrium_go.Library.Bytes.{dir_name, stem_of_path}
use atrium_go.Base.{◌≡◌, refl, true, false, Option, none, some, [], ◌∷◌, between, ◌==◌, All}
use atrium_go.Base.Int.{pos}
use atrium_go.Library.Data.{Library, Entry, Plan}
use atrium_go.Library.Resolve.{resolve_with_tags}
use atrium_go.Library.Tools.{Tools, Attempt, done, failed, crashed}
use atrium_go.Library.Tracks.{no_tags}
use atrium_go.Scan.Scanner.Monad
use atrium_go.Scan.Scanner.Monad.{World, Result, err}
use atrium_go.Scan.Scanner.Stored.{scan-IsPlaced, IsPlaced}
use atrium_go.Scan.Scanner.Success.{Decided}
use atrium_go.Scan.{
  reconcile, by_path_from, same_key, is_present, record_moved, signal_moved, classify, sort_items,
  item_less, sort_identifiers, mismatch, decide, gone, by_id_from,
}
use atrium_go.ItemStore.{
  items_for_library, claim_scan, apply_scan_batch, remove_items, release_scan,
}
use atrium_go.Tables.{find_row, any_row, count_rows, delete_rows, update_rows}
use atrium_go.Scan.Scanner.{is_collection_type}
use atrium_go.Scan.Scanner.Monad.{read, act, write, now}
use atrium_go.Text.{str_eq, str_lt, nonempty, split, has_prefix, fold_ascii, join, trim}
use atrium_go.Sorting.{sort_by, insert}
use atrium_go.Library.Films.{resolve_movies}
use atrium_go.Library.Candidates.{candidate, parse_collection_type}
use atrium_go.Library.Identity.{normalise, derive_id}
use atrium_go.Scan.Scanner.{Options, Scanner, Surroundings, Changes, scan}
use atrium_go.Scan.{Reconciliation}
use atrium_go.Text.{Text, codes}

abbrev ascii : Tools
ascii = record {
  unicode = record {
    is_space = λ c. c == b' ';
    is_digit = between b'0' b'9';
    is_mark = λ _. false;
    to_lower = λ s. s;
    nfd = λ s. s;
  };
  folding = record { nfc = λ s. s; to_lower = λ s. s };
  digest = record { sha256 = λ s. s; hex = λ s. s };
  decode = λ s. s;
  encode = λ s. s;
  day_at = λ year month day. none;
}

abbrev two_parts : Library
two_parts = record {
  id = codes "L";
  name = codes "Films";
  name_folded = codes "films";
  collection_type = codes "movies";
  case_sensitive = true;
  roots = codes "/f" ∷ [];
  created_at = pos 0;
}

abbrev of_file : Text → Entry
of_file path = record { path = path; size = pos 7; modified_at = pos 3 }

abbrev plan_option : Attempt (Option Plan) → Option Plan
plan_option (done plan) = plan
plan_option (failed e) = none
plan_option crashed = none

plan_option-some :
    (a : Attempt (Option Plan)) (p : Plan) → plan_option a ≡ some p → a ≡ done (some p)
plan_option-some (done plan) p h = cc
plan_option-some (failed e) p h = cc
plan_option-some crashed p h = cc

abbrev resolving : Surroundings
resolving = record {
  store = record { fails = λ _. false; clock = λ n. pos n };
  is_cancelled = λ _. false;
  walk = λ _ _. some (record {
    entries = of_file (codes "Up-cd1.mkv") ∷ of_file (codes "Up-cd2.mkv") ∷ [];
    refused = [];
  });
  resolve = λ lib rs. plan_option (resolve_with_tags ascii lib no_tags rs);
  encode = λ _. some (codes "{}");
}

abbrev by_path_only : Options
by_path_only = record { full = false; allow_empty_root = false }

abbrev alone : Scanner
alone = record { claimed_by = codes "me"; stale_after = pos 100; batch_size = 2 }

abbrev empty : World
empty = record { tables = record { items = []; files = []; scans = [] }; calls = 0; readings = 0 }

abbrev no_changes : Changes
no_changes = record {
  added = [];
  updated = [];
  removed = [];
  examined = 0;
  skipped = 0;
  unplaceable = 0;
}

abbrev listed_of : Result Changes → Changes
listed_of (Monad.done c) = c
listed_of (err e) = no_changes

abbrev answer : Result Changes × World
answer = scan resolving alone two_parts by_path_only empty

scans :
    scan resolving alone two_parts by_path_only empty ≡ (Monad.done (listed_of answer.0), answer.1)
unfolding scan read act write now is_collection_type str_eq items_for_library reconcile by_id_from
    by_path_from same_key is_present record_moved signal_moved classify sort_items item_less
    sort_identifiers claim_scan find_row apply_scan_batch any_row count_rows delete_rows update_rows
    remove_items release_scan str_lt sort_by mismatch decide gone nonempty insert resolve_with_tags
    resolve_movies candidate split has_prefix fold_ascii join trim normalise derive_id
    parse_collection_type stem_of_path itoa decimal dir_name wrap_i64 ◌+ℤ◌
scans = refl

scan-IsPlaced_example :
    (d : Reconciliation × Changes) × (decided : Decided resolving two_parts by_path_only empty d)
    × (listed_of answer.0 ≡ d.1)
    × All (IsPlaced ascii two_parts decided.plan.items answer.1.tables) decided.plan.items
scan-IsPlaced_example =
    scan-IsPlaced resolving ascii no_tags alone two_parts by_path_only empty
      (λ rs p. plan_option-some (resolve_with_tags ascii two_parts no_tags rs) p) scans
