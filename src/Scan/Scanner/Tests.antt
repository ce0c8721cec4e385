-- ===== src/Scan/Scanner/Tests.antt =====
-- A library with one film is scanned, and scanned again while another scanner holds the claim.
use atrium_go.Base.Int.{wrap_i64, ◌-ℤ◌}
use atrium_go.Tables.{find_row}
use atrium_go.Sorting.{sort_by}
use atrium_go.ItemStore.{claim_scan, items_for_library}
use atrium_go.Scan.{by_path_from, decide, mismatch, reconcile}
use atrium_go.Scan.Scanner.Monad.{act, now, read}
use atrium_go.Text.{str_eq}
use atrium_go.Scan.Scanner.{is_collection_type}
use atrium_go.Base.{◌≡◌, refl, false, none, some, [], ◌∷◌, map, if◌then◌else◌}
use atrium_go.Base.Int.{pos}
use atrium_go.ItemStore.{columns, holds, take_claim, unclaimed}
use atrium_go.Ports.Items.{ScannedItem, ScannedFile}
use atrium_go.Scan.Scanner.Effects.{is_refusal}
use atrium_go.Scan.Scanner.Monad.{World, already_scanning, done, err}
use atrium_go.Scan.Scanner.Refusal.{scan-refused}
use atrium_go.Scan.Scanner.Success.{scan-rows, Decided}
use atrium_go.Scan.Scanner.Rows.{row_of}
use atrium_go.Scan.{
  reconcile, by_path_from, same_key, is_present, record_moved, signal_moved, classify, sort_items,
  item_less, sort_identifiers, mismatch, decide, gone,
}
use atrium_go.ItemStore.{
  items_for_library, claim_scan, apply_scan_batch, remove_items, release_scan,
}
use atrium_go.Tables.{find_row, any_row, count_rows, delete_rows, update_rows}
use atrium_go.Scan.Scanner.{is_collection_type}
use atrium_go.Scan.Scanner.Monad.{read, act, write, now}
use atrium_go.Text.{str_eq, str_lt, nonempty}
use atrium_go.Sorting.{sort_by, insert}
use atrium_go.Scan.Scanner.{Library, Changes, Options, Scanner, Surroundings, scan}
use atrium_go.Scan.{Reconciliation, by_id_from}
use atrium_go.Text.{codes}

abbrev part : ScannedFile
part = record { ordinal = pos 0; path = codes "a.mkv"; size = pos 7; modified_at = pos 3 }

abbrev film : ScannedItem
film = record {
  id = codes "f";
  library_id = codes "L";
  parent_id = [];
  kind = codes "Movie";
  name = codes "Film";
  sort_key = codes "film";
  sort_title = [];
  path = codes "a.mkv";
  root_ordinal = pos 0;
  index_number = none;
  parent_index_number = none;
  index_number_end = none;
  production_year = none;
  premiere_date = none;
  unplaceable = false;
  files = part ∷ [];
}

abbrev films : Library
films = record {
  id = codes "L";
  name = codes "Films";
  name_folded = codes "films";
  collection_type = codes "movies";
  case_sensitive = false;
  roots = codes "/f" ∷ [];
  created_at = pos 0;
}

abbrev one_film : Surroundings
one_film = record {
  store = record { fails = λ _. false; clock = λ n. pos n };
  is_cancelled = λ _. false;
  walk = λ _ _. some (record {
    entries = record { path = codes "a.mkv"; size = pos 7; modified_at = pos 3 } ∷ [];
    refused = [];
  });
  resolve = λ _ _. some (record { items = film ∷ []; unplaceable = []; skipped = [] });
  encode = λ _. some (codes "{}");
}

abbrev plain : Options
plain = record { full = false; allow_empty_root = false }

abbrev me : Scanner
me = record { claimed_by = codes "me"; stale_after = pos 100; batch_size = 2 }

abbrev fresh : World
fresh = record { tables = record { items = []; files = []; scans = [] }; calls = 0; readings = 0 }

abbrev taken : World
taken = record fresh {
  tables = record {
    items = [];
    files = [];
    scans = take_claim (codes "you") (pos 0) (unclaimed (codes "L")) ∷ [];
  };
}

abbrev added_film : Changes
added_film = record {
  added = codes "f" ∷ [];
  updated = [];
  removed = [];
  examined = 1;
  skipped = 0;
  unplaceable = 0;
}

abbrev scanned : World
scanned = record {
  tables = record {
    items = columns film ∷ [];
    files = record { item_id = codes "f"; file = part } ∷ [];
    scans =
        record (unclaimed (codes "L")) {
          last_scan_at = some (pos 2);
          last_scan_full = some false;
          summary_document = some (codes "{}");
        }
        ∷ [];
  };
  calls = 4;
  readings = 3;
}

succeeds : scan one_film me films plain fresh ≡ (done added_film, scanned)
unfolding scan read act write now is_collection_type str_eq items_for_library reconcile by_id_from
    by_path_from same_key is_present record_moved signal_moved classify sort_items item_less
    sort_identifiers claim_scan find_row apply_scan_batch any_row count_rows delete_rows update_rows
    remove_items release_scan str_lt sort_by mismatch decide gone nonempty insert
succeeds = refl

loses :
    scan one_film me films plain taken
    ≡ (err (already_scanning (codes "you")), record taken { calls = 2; readings = 1 })
unfolding scan is_collection_type str_eq read reconcile decide mismatch by_path_from
    items_for_library sort_by now act claim_scan find_row wrap_i64 ◌-ℤ◌
loses = refl

scan-refused_example : taken.tables ≡ taken.tables
unfolding is_refusal
scan-refused_example = scan-refused one_film me films plain taken loses refl

scan-rows_example :
    (d : Reconciliation × Changes) × Decided one_film films plain fresh d
    × (added_film ≡ d.1)
    × (row_of scanned.tables (codes "f") ≡ (
        if holds d.0.remove (codes "f")
        then none
        else by_id_from (row_of fresh.tables) (map columns d.0.write) (codes "f")))
scan-rows_example = scan-rows one_film me films plain (codes "f") fresh succeeds
