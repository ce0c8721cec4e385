-- ===== src/ItemStore.antt =====
-- internal/store/sqlite/items.go: what a scan keeps. The state is the three tables of
-- derived/library.sql: the items, their files and the scans. Each operation is one transaction, and
-- fails with nothing changed where a key, a repeated identifier, a claim or a count of rows is not
-- as it wants. A nullable text column holds NULL for the empty text, and is read back as it.
pub mod Chunks
pub mod Claims
pub mod Files
pub mod Rows
mod Tests
use atrium_go.Base.{
  ℕ, zero, suc, ◌+◌, Bool, true, false, not, ◌&&◌, Option, none, some, List, [], ◌∷◌, ◌++◌, map,
  ◌==◌, if◌then◌else◌, guard, ◌>>=◌, ◌>>◌, keep, length, take, drop,
}
use atrium_go.Base.Int.{ℤ, ◌-ℤ◌, eqb_ℤ, ltb_ℤ, wrap_i64}
use atrium_go.Ports.Items.{ScannedItem, ScannedFile, Time}
use atrium_go.Sorting.{sort_by}
use atrium_go.Tables.{find_row, update_rows, delete_rows, count_rows, any_row}
use atrium_go.Text.{Text, str_eq, str_lt}

pub record FileRow : Type 0 where
  pub item_id : Text
  pub file : ScannedFile

pub record ScanState : Type 0 where
  pub library_id : Text
  pub claimed_at : Option Time
  pub claimed_by : Option Text
  pub last_scan_at : Option Time
  pub last_scan_full : Option Bool
  pub summary_document : Option Text

pub record ItemTables : Type 0 where
  -- with no files and no sort title, for which there is no column
  pub items : List ScannedItem
  pub files : List FileRow
  pub scans : List ScanState

pub record ScanBatch : Type 0 where
  pub library_id : Text
  pub items : List ScannedItem
  pub claimed_by : Text
  pub at : Time

abbrev pub by_item_id : Text → ScannedItem → Bool
by_item_id k x = str_eq x.id k

abbrev pub beneath : Text → FileRow → Bool
beneath k f = str_eq f.item_id k

-- `ORDER BY sort_key, id` and `ORDER BY ordinal`.
abbrev pub keyed_before : ScannedItem → ScannedItem → Bool
keyed_before a b =
    if str_eq a.sort_key b.sort_key then str_lt a.id b.id else str_lt a.sort_key b.sort_key

abbrev pub ordinal_before : ScannedFile → ScannedFile → Bool
ordinal_before a b = ltb_ℤ a.ordinal b.ordinal

abbrev pub file_of : FileRow → ScannedFile
file_of f = f.file

-- `filesForLibrary`, of one item.
unfoldable pub files_of : List FileRow → Text → List ScannedFile
files_of rows k = sort_by ordinal_before (map file_of (keep (beneath k) rows))

abbrev pub with_files : List FileRow → ScannedItem → ScannedItem
with_files rows x = record x { files = files_of rows x.id }

-- `ItemsForLibrary`.
unfoldable pub items_for_library : Text → ItemTables → List ScannedItem
unfolding files_of
items_for_library library t =
    map (with_files t.files)
      (sort_by keyed_before (keep (λ x. str_eq x.library_id library) t.items))

-- Whether one identifier stands twice.
unfoldable pub is_repeated : List ScannedItem → Bool
is_repeated [] = false
is_repeated (x ∷ xs) =
    let rest = is_repeated xs in if any_row (by_item_id x.id) xs then true else rest

abbrev pub claims : Text → Text → ScanState → Bool
claims library by s =
    str_eq s.library_id library && elim s.claimed_by [ none ↦ false | some c ↦ str_eq c by ]

-- `renewClaim`.
unfoldable pub renew_claim : ScanBatch → List ScanState → Option (List ScanState)
renew_claim b scans = do
  guard (count_rows (claims b.library_id b.claimed_by) scans == 1)
  some (
      update_rows (claims b.library_id b.claimed_by) (λ s. record s { claimed_at = some b.at })
        scans)

-- The columns of an item.
abbrev pub columns : ScannedItem → ScannedItem
columns x = record x { sort_title = []; files = [] }

-- INSERT … ON CONFLICT(id) DO UPDATE of every column.
unfoldable pub upsert_item : ScannedItem → List ScannedItem → List ScannedItem
upsert_item x rows =
    if any_row (by_item_id x.id) rows
    then update_rows (by_item_id x.id) (λ _. columns x) rows
    else rows ++ columns x ∷ []

-- The insertions of the files, whose ordinals are a key.
unfoldable pub insert_files : Text → List ScannedFile → List FileRow → Option (List FileRow)
insert_files k [] rows = some rows
insert_files k (f ∷ fs) rows = do
  guard (not (any_row (λ r. beneath k r && eqb_ℤ r.file.ordinal f.ordinal) rows))
  insert_files k fs (rows ++ record { item_id = k; file = f } ∷ [])

-- `writeItem`.
unfoldable pub write_item : ScannedItem → ItemTables → Option ItemTables
unfolding upsert_item insert_files
write_item x t = do
  files ← insert_files x.id x.files (delete_rows (beneath x.id) t.files)
  some (record t { items = upsert_item x t.items; files = files })

unfoldable pub write_items : List ScannedItem → ItemTables → Option ItemTables
unfolding write_item
write_items [] t = some t
write_items (x ∷ xs) t = do u ← write_item x t; write_items xs u

-- `ApplyScanBatch`.
unfoldable pub apply_scan_batch : ScanBatch → ItemTables → Option ItemTables
unfolding is_repeated renew_claim write_items
apply_scan_batch b t = do
  guard (not (is_repeated b.items))
  scans ← renew_claim b t.scans
  write_items b.items (record t { scans = scans })

abbrev pub maximum_identifiers_per_delete : ℕ
maximum_identifiers_per_delete = 500

unfoldable pub holds : List Text → Text → Bool
holds [] k = false
holds (i ∷ is) k = let rest = holds is k in if str_eq i k then true else rest

-- The identifiers without the repeated ones, each at its first place.
unfoldable pub distinct_from : List Text → List Text → List Text
unfolding holds
distinct_from seen [] = []
distinct_from seen (k ∷ ks) =
    let fresh = k ∷ distinct_from (k ∷ seen) ks in
    let rest = distinct_from seen ks in if holds seen k then rest else fresh

-- `chunks`; every round takes at least one value, so the length is enough fuel.
unfoldable pub chunks : ℕ → List Text → ℕ → List (List Text)
chunks fuel [] size = []
chunks zero (k ∷ ks) size = []
chunks (suc fuel) (k ∷ ks) size = take size (k ∷ ks) ∷ chunks fuel (drop size (k ∷ ks)) size

abbrev pub is_among : List Text → ScannedItem → Bool
is_among ks x = holds ks x.id

-- The deletions of the chunks, with the files beneath by the cascade, and the rows they remove.
unfoldable pub delete_chunks : List (List Text) → ItemTables → ItemTables × ℕ
delete_chunks [] t = (t, 0)
delete_chunks (c ∷ cs) t =
    let affected = count_rows (is_among c) t.items in
    let (u, n) = delete_chunks cs (record t {
      items = delete_rows (is_among c) t.items;
      files = delete_rows (λ f. holds c f.item_id) t.files;
    }) in
    (u, affected + n)

-- `RemoveItems`: a count other than that of the identifiers is an error.
unfoldable pub remove_items : List Text → ItemTables → Option ItemTables
unfolding distinct_from chunks delete_chunks
remove_items [] t = some t
remove_items (k ∷ ks) t =
    let wanted = distinct_from [] (k ∷ ks) in
    let removed = delete_chunks (chunks (length wanted) wanted maximum_identifiers_per_delete) t in
    do guard (removed.1 == length wanted); some removed.0

abbrev pub scans_of : Text → ScanState → Bool
scans_of library s = str_eq s.library_id library

abbrev pub unclaimed : Text → ScanState
unclaimed library = record {
  library_id = library;
  claimed_at = none;
  claimed_by = none;
  last_scan_at = none;
  last_scan_full = none;
  summary_document = none;
}

-- Whether a claim holds off one made at an instant: an age is a count of ticks, which wraps.
abbrev pub is_live : Time → ℤ → ScanState → Bool
is_live at stale_after s = elim s.claimed_at [
  | none ↦ false
  | some since ↦ elim s.claimed_by [
    | none ↦ false
    | some _ ↦ ltb_ℤ (wrap_i64 (at -ℤ since)) stale_after
  ]
]

-- The claimant that is displaced or lost to; it is empty where there is none.
abbrev pub claimant : ScanState → Text
claimant s = elim s.claimed_at [
  | none ↦ []
  | some _ ↦ elim s.claimed_by [ none ↦ [] | some by ↦ by ]
]

abbrev pub take_claim : Text → Time → ScanState → ScanState
take_claim by at s = record s { claimed_at = some at; claimed_by = some by }

-- `ClaimScan`, from the row that the library has: whether it won, and the claimant displaced or
-- lost to.
unfoldable pub claim_with :
    Option ScanState → Text → Text → Time → ℤ → ItemTables → (Bool × Text) × ItemTables
claim_with none library by at stale_after t =
    ((true, []), record t { scans = t.scans ++ take_claim by at (unclaimed library) ∷ [] })
claim_with (some s) library by at stale_after t =
    if is_live at stale_after s then ((false, claimant s), t) else (
      (true, claimant s),
      record t { scans = update_rows (scans_of library) (take_claim by at) t.scans },
    )

unfoldable pub claim_scan : Text → Text → Time → ℤ → ItemTables → (Bool × Text) × ItemTables
unfolding claim_with
claim_scan library by at stale_after t =
    claim_with (find_row (scans_of library) t.scans) library by at stale_after t

-- `nullableDocument`.
unfoldable pub nullable_document : Text → Option Text
nullable_document [] = none
nullable_document (c ∷ cs) = some (c ∷ cs)

-- `ReleaseScan`, whoever holds the claim.
unfoldable pub release_scan : Text → Time → Text → Bool → ItemTables → Option ItemTables
unfolding nullable_document
release_scan library at summary full t = do
  guard (count_rows (scans_of library) t.scans == 1)
  some (record t {
    scans =
        update_rows (scans_of library)
          (λ s. record s {
            claimed_at = none;
            claimed_by = none;
            last_scan_at = some at;
            last_scan_full = some full;
            summary_document = nullable_document summary;
          })
          t.scans;
  })
