-- ===== src/ItemStore/Tests.antt =====
-- A library is claimed, a film with two files is written, and removed again.
use atrium_go.Tables.{any_row, count_rows, delete_rows, update_rows}
use atrium_go.Base.{◌≡◌, refl, true, false, none, some, [], ◌∷◌}
use atrium_go.Base.Int.{pos, ltb_ℤ, wrap_i64, ◌-ℤ◌}
use atrium_go.ItemStore.{
  ItemTables, ScanBatch, claim_scan, apply_scan_batch, remove_items, columns, take_claim, unclaimed,
  by_item_id, files_of, ordinal_before,
}
use atrium_go.ItemStore.Chunks.{Removed, remove_items-Removed}
use atrium_go.ItemStore.Claims.{claim_scan-exclusive}
use atrium_go.ItemStore.Rows.{override, apply_scan_batch-rows}
use atrium_go.Ports.Items.{ScannedItem, ScannedFile}
use atrium_go.Sorting.{sort_by}
use atrium_go.Tables.{find_row}
use atrium_go.Text.{codes, str_eq}

abbrev part : ScannedFile
part = record { ordinal = pos 1; path = codes "b.mkv"; size = pos 7; modified_at = pos 3 }

abbrev film : ScannedItem
film = record {
  id = codes "f";
  library_id = codes "L";
  parent_id = [];
  kind = codes "Movie";
  name = codes "Film";
  sort_key = codes "film";
  sort_title = [];
  path = codes "a.mkv";
  root_ordinal = pos 0;
  index_number = none;
  parent_index_number = none;
  index_number_end = none;
  production_year = none;
  premiere_date = none;
  unplaceable = false;
  files = part ∷ record part { ordinal = pos 0; path = codes "a.mkv" } ∷ [];
}

abbrev nothing_yet : ItemTables
nothing_yet = record { items = []; files = []; scans = [] }

abbrev claimed : ItemTables
claimed = record nothing_yet {
  scans = take_claim (codes "one") (pos 10) (unclaimed (codes "L")) ∷ [];
}

abbrev batch : ScanBatch
batch = record { library_id = codes "L"; items = film ∷ []; claimed_by = codes "one"; at = pos 11 }

abbrev scanned : ItemTables
scanned = record {
  items = columns film ∷ [];
  files =
      record { item_id = codes "f"; file = part }
      ∷ record { item_id = codes "f"; file = record part { ordinal = pos 0; path = codes "a.mkv" } }
      ∷ [];
  scans = take_claim (codes "one") (pos 11) (unclaimed (codes "L")) ∷ [];
}

wins : claim_scan (codes "L") (codes "one") (pos 10) (pos 100) nothing_yet ≡ ((true, []), claimed)
unfolding claim_scan find_row
wins = refl

writes : apply_scan_batch batch claimed ≡ some scanned
unfolding apply_scan_batch any_row count_rows str_eq delete_rows update_rows
writes = refl

removes :
    remove_items (codes "f" ∷ codes "f" ∷ []) scanned
    ≡ some (record scanned { items = []; files = [] })
unfolding remove_items count_rows str_eq delete_rows
removes = refl

later_young : ltb_ℤ (wrap_i64 (pos 20 -ℤ pos 10)) (pos 100) ≡ true
unfolding wrap_i64 ◌-ℤ◌
later_young = refl

apart : str_eq (codes "one") (codes "two") ≡ false
unfolding str_eq
apart = refl

claim_scan-exclusive_example :
    (claim_scan (codes "L") (codes "two") (pos 20) (pos 100) claimed
      ≡ ((false, codes "one"), claimed))
    × (apply_scan_batch (record batch { claimed_by = codes "two" }) claimed ≡ none)
claim_scan-exclusive_example =
    claim_scan-exclusive (codes "L") (codes "one") (codes "two") (pos 10) (pos 20) (pos 100)
      (pos 100) nothing_yet (record batch { claimed_by = codes "two" }) wins later_young refl apart

remove_items-Removed_example :
    Removed (codes "f" ∷ codes "f" ∷ []) scanned (record scanned { items = []; files = [] })
remove_items-Removed_example = remove_items-Removed (codes "f" ∷ codes "f" ∷ []) scanned removes

apply_scan_batch-rows_example :
    (find_row (by_item_id (codes "f")) scanned.items
      ≡ override (λ x. some (columns x)) (find_row (by_item_id (codes "f")) (film ∷ [])) none)
    × (files_of scanned.files (codes "f")
        ≡ override
            (λ (x : ScannedItem). sort_by ordinal_before x.files)
            (find_row (by_item_id (codes "f")) (film ∷ []))
            (files_of [] (codes "f")))
unfolding find_row
apply_scan_batch-rows_example = apply_scan_batch-rows batch (codes "f") claimed writes
