-- ===== src/Scan.antt =====
-- internal/scan/reconcile.go: `Reconcile`, which decides every change a scan makes to a library,
-- with `SortItems` of internal/library/resolve.go. A Go map is a function from keys, built by the
-- same loop; the set `present` is its membership test.
pub mod Records
pub mod Scanner
mod Tests
pub mod Rescan
pub mod Verdicts
pub mod Index
pub mod Removal
pub mod Partition
pub mod Covering
use atrium_go.Base.{
  ◌≡◌, Bool, true, false, not, ◌&&◌, ◌||◌, Option, none, some, List, [], ◌∷◌, if◌then◌else◌,
}
use atrium_go.Base.Int.{ℤ, ltb_ℤ, eqb_ℤ}
use atrium_go.Ports.Items.{Time, ScannedFile, ScannedItem}
use atrium_go.Sorting.{sort_by}
use atrium_go.Text.{Text, str_eq, str_lt, nonempty}

pub record PathKey : Type 0 where
  pub root : ℤ
  pub path : Text

pub record Reconciliation : Type 0 where
  pub write : List ScannedItem
  pub remove : List Text
  pub added : List Text
  pub updated : List Text
  pub unchanged : List Text
  pub retained : List Text

pub record IdentifierMismatch : Type 0 where
  pub root : ℤ
  pub path : Text
  pub stored : Text
  pub derived : Text

-- `(Reconciliation, error)`.
pub data Outcome (A : Type 0) : Type 0 where
  ok : A → Outcome A
  mismatched : IdentifierMismatch → Outcome A

-- `sameNumber`; `sameDate` is the same test on tick counts.
unfoldable pub same_number : Option ℤ → Option ℤ → Bool
same_number none none = true
same_number none (some d) = false
same_number (some p) none = false
same_number (some p) (some d) = eqb_ℤ p d

unfoldable pub same_date : Option Time → Option Time → Bool
same_date none none = true
same_date none (some d) = false
same_date (some p) none = false
same_date (some p) (some d) = eqb_ℤ p d

-- `previous.Unplaceable != desired.Unplaceable`.
abbrev pub differ : Bool → Bool → Bool
differ true b = not b
differ false b = b

unfoldable pub record_moved : ScannedItem → ScannedItem → Bool
unfolding same_number same_date
record_moved p d =
    not (str_eq p.library_id d.library_id)
    || not (str_eq p.parent_id d.parent_id)
    || not (str_eq p.kind d.kind)
    || not (str_eq p.name d.name)
    || not (str_eq p.sort_key d.sort_key)
    || not (str_eq p.path d.path)
    || not (eqb_ℤ p.root_ordinal d.root_ordinal)
    || differ p.unplaceable d.unplaceable
    || not (same_number p.index_number d.index_number)
    || not (same_number p.parent_index_number d.parent_index_number)
    || not (same_number p.index_number_end d.index_number_end)
    || not (same_number p.production_year d.production_year)
    || not (same_date p.premiere_date d.premiere_date)

file_moved : ScannedFile → ScannedFile → Bool
file_moved p d =
    not (eqb_ℤ p.ordinal d.ordinal)
    || not (str_eq p.path d.path)
    || not (eqb_ℤ p.size d.size)
    || not (eqb_ℤ p.modified_at d.modified_at)

-- Lists of different lengths differ at the end of the shorter one.
unfoldable pub signal_moved : List ScannedFile → List ScannedFile → Bool
unfolding file_moved
signal_moved [] [] = false
signal_moved [] (d ∷ ds) = true
signal_moved (p ∷ ps) [] = true
signal_moved (p ∷ ps) (d ∷ ds) = file_moved p d || signal_moved ps ds

-- The comparison of `SortItems`.
unfoldable pub item_less : ScannedItem → ScannedItem → Bool
item_less a b =
    if not (eqb_ℤ a.root_ordinal b.root_ordinal)
    then ltb_ℤ a.root_ordinal b.root_ordinal
    else if not (str_eq a.path b.path)
    then str_lt a.path b.path
    else str_lt a.id b.id

unfoldable pub sort_items : List ScannedItem → List ScannedItem
sort_items = sort_by item_less

unfoldable pub sort_identifiers : List Text → List Text
sort_identifiers = sort_by str_lt

-- `previousByID[item.ID] = item`.
abbrev pub set_id : (Text → Option ScannedItem) → ScannedItem → Text → Option ScannedItem
set_id m x k = if str_eq x.id k then some x else m k

-- `previousByID`: a later row of the same identifier takes the place of an earlier one.
unfoldable pub by_id_from :
    (Text → Option ScannedItem) → List ScannedItem → Text → Option ScannedItem
by_id_from m [] = m
by_id_from m (x ∷ xs) = by_id_from (set_id m x) xs

pub same_key : PathKey → PathKey → Bool
same_key a b = eqb_ℤ a.root b.root && str_eq a.path b.path

abbrev pub key_of : ScannedItem → PathKey
key_of x = record { root = x.root_ordinal; path = x.path }

-- The assignment to `previousByPath`, made only where the item has a path.
abbrev pub set_path : (PathKey → Option ScannedItem) → ScannedItem → PathKey → Option ScannedItem
set_path m x k = if nonempty x.path && same_key (key_of x) k then some x else m k

-- `previousByPath`.
unfoldable pub by_path_from :
    (PathKey → Option ScannedItem) → List ScannedItem → PathKey → Option ScannedItem
unfolding same_key
by_path_from m [] = m
by_path_from m (x ∷ xs) = by_path_from (set_path m x) xs

unfoldable pub is_present : List ScannedItem → Text → Bool
is_present [] k = false
is_present (x ∷ xs) k = str_eq x.id k || is_present xs k

-- The check at the head of the loop.
unfoldable pub mismatch : (PathKey → Option ScannedItem) → ScannedItem → Option IdentifierMismatch
mismatch by_path item =
    if nonempty item.path
    then elim (by_path (key_of item)) [
      | none ↦ none
      | some stored ↦
          if not (str_eq stored.id item.id)
          then some (record {
            root = item.root_ordinal;
            path = item.path;
            stored = stored.id;
            derived = item.id;
          })
          else none
    ]
    else none

pub data Verdict : Type 0 where
  is_added is_updated is_unchanged : Verdict

-- The `switch` of the loop.
unfoldable pub classify : (Text → Option ScannedItem) → Bool → ScannedItem → Verdict
classify by_id full item = elim (by_id item.id) [
  | none ↦ is_added
  | some stored ↦
      if record_moved stored item
        || signal_moved stored.files item.files
        || full && nonempty item.files
      then is_updated
      else is_unchanged
]

abbrev pub nothing : Reconciliation
nothing = record {
  write = [];
  remove = [];
  added = [];
  updated = [];
  unchanged = [];
  retained = [];
}

-- What one arm appends.
unfoldable pub put : Verdict → ScannedItem → Reconciliation → Reconciliation
put is_added x r = record r { added = x.id ∷ r.added; write = x ∷ r.write }
put is_updated x r = record r { updated = x.id ∷ r.updated; write = x ∷ r.write }
put is_unchanged x r = record r { unchanged = x.id ∷ r.unchanged }

abbrev pub put_ok : Verdict → ScannedItem → Outcome Reconciliation → Outcome Reconciliation
put_ok v x (ok r) = ok (put v x r)
put_ok v x (mismatched e) = mismatched e

-- The loop over the desired set. The first disagreement ends it, and nothing decided before counts.
unfoldable pub decide :
    (Text → Option ScannedItem)
    → (PathKey → Option ScannedItem)
    → Bool
    → List ScannedItem
    → Outcome Reconciliation
unfolding put
decide by_id by_path full [] = ok nothing
decide by_id by_path full (x ∷ xs) =
    let rest = decide by_id by_path full xs in
    elim (mismatch by_path x) [
      | some e ↦ mismatched e
      | none ↦ put_ok (classify by_id full x) x rest
    ]

-- The loop over the previous rows: those that are gone, split by whether a file is behind them.
unfoldable pub gone : Bool → (Text → Bool) → List ScannedItem → List Text
gone with_files present [] = []
gone with_files present (x ∷ xs) =
    let rest = gone with_files present xs in
    if present x.id
    then rest
    else if differ with_files (nonempty x.files)
    then rest
    else x.id ∷ rest

abbrev pub finish : List ScannedItem → List ScannedItem → Reconciliation → Reconciliation
finish previous desired r = record {
  write = sort_items r.write;
  remove = sort_identifiers (gone true (is_present desired) previous);
  added = sort_identifiers r.added;
  updated = sort_identifiers r.updated;
  unchanged = sort_identifiers r.unchanged;
  retained = sort_identifiers (gone false (is_present desired) previous);
}

abbrev pub finish_ok :
    List ScannedItem → List ScannedItem → Outcome Reconciliation → Outcome Reconciliation
finish_ok previous desired (ok r) = ok (finish previous desired r)
finish_ok previous desired (mismatched e) = mismatched e

unfoldable pub reconcile : List ScannedItem → List ScannedItem → Bool → Outcome Reconciliation
reconcile previous desired full =
    finish_ok previous desired
      (decide (by_id_from (λ _. none) previous) (by_path_from (λ _. none) previous) full desired)
