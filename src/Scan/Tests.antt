-- ===== src/Scan/Tests.antt =====
-- `Reconcile` at small libraries: a film that stays, one that arrives, one that leaves, and a
-- container with no file behind it.
use mathlib.Core.List.{Perm}
use atrium_go.Base.{
  ◌≡◌, refl, ◌↔◌, inl, inr, true, false, none, List, [], ◌∷◌, ◌++◌, map, arith, In,
}
use atrium_go.Base.Int.{ℤ, pos}
use atrium_go.Ports.Items.{ScannedFile, ScannedItem}
use atrium_go.Scan.Partition.{id_of, reconcile-partition}
use atrium_go.Scan.Removal.{Gone, reconcile-removal}
use atrium_go.Scan.Rescan.{
  stored, OneItemPerId, OneIdPerPath, reconcile-stored, Disagrees, reconcile-mismatched,
}
use atrium_go.Scan.Verdicts.{New, Believed, reconcile-added, reconcile-unchanged}
use atrium_go.Scan.{
  Reconciliation, IdentifierMismatch, ok, mismatched, nothing, reconcile, sort_identifiers,
  sort_items, item_less, by_id_from, by_path_from, mismatch, classify, record_moved, signal_moved,
  decide, gone, is_present, same_key,
}
use atrium_go.Sorting.{sort_by}
use atrium_go.Text.{Text, codes, str_eq, str_lt}

abbrev file : Text → ℤ → ScannedFile
file p n = record { ordinal = pos 0; path = p; size = n; modified_at = pos 7 }

abbrev item : Text → Text → List ScannedFile → ScannedItem
item i p fs = record {
  id = i;
  library_id = codes "lib";
  parent_id = codes "root";
  kind = codes "Movie";
  name = p;
  sort_key = p;
  sort_title = [];
  path = p;
  root_ordinal = pos 0;
  index_number = none;
  parent_index_number = none;
  index_number_end = none;
  production_year = none;
  premiere_date = none;
  unplaceable = false;
  files = fs;
}

abbrev film : Text → Text → ℤ → ScannedItem
film i p n = item i p (file p n ∷ [])

abbrev before : List ScannedItem
before =
    film (codes "c") (codes "kept.mkv") (pos 10)
    ∷ film (codes "b") (codes "gone.mkv") (pos 20)
    ∷ item (codes "e") (codes "Empty Show") []
    ∷ []

abbrev after : List ScannedItem
after =
    film (codes "d") (codes "new.mkv") (pos 30) ∷ film (codes "c") (codes "kept.mkv") (pos 10) ∷ []

abbrev result : Reconciliation
result = record {
  write = film (codes "d") (codes "new.mkv") (pos 30) ∷ [];
  remove = codes "b" ∷ [];
  added = codes "d" ∷ [];
  updated = [];
  unchanged = codes "c" ∷ [];
  retained = codes "e" ∷ [];
}

reconcile_runs : reconcile before after false ≡ ok result
unfolding reconcile sort_identifiers sort_items sort_by item_less by_id_from by_path_from mismatch
    classify record_moved signal_moved decide gone is_present str_eq str_lt same_key
reconcile_runs = refl

reconcile-partition_example :
    Perm (result.added ++ (result.updated ++ result.unchanged)) (map id_of after)
    × Perm (map id_of result.write) (result.added ++ result.updated)
reconcile-partition_example = reconcile-partition before after false reconcile_runs

reconcile-removal_example :
    (In (codes "b") result.remove ↔ Gone before after true (codes "b"))
    × (In (codes "b") result.retained ↔ Gone before after false (codes "b"))
reconcile-removal_example = reconcile-removal before after false (codes "b") reconcile_runs

reconcile-added_example : In (codes "d") result.added ↔ New before after (codes "d")
reconcile-added_example = reconcile-added before after false (codes "d") reconcile_runs

reconcile-unchanged_example : Believed before after false (codes "c")
reconcile-unchanged_example =
    reconcile-unchanged before after false (codes "c") reconcile_runs (inl refl)

after_one : OneItemPerId after
after_one a b (inl e) (inl f) g = cc
after_one a b (inl e) (inr (inl f)) g = ground arith
after_one a b (inr (inl e)) (inl f) g = ground arith
after_one a b (inr (inl e)) (inr (inl f)) g = cc
after_one a b (inl e) (inr (inr f)) g = elim f [ ]
after_one a b (inr (inl e)) (inr (inr f)) g = elim f [ ]
after_one a b (inr (inr e)) _ g = elim e [ ]

after_paths : OneIdPerPath after
after_paths a b (inl e) (inl f) g = cc
after_paths a b (inl e) (inr (inl f)) g = ground arith
after_paths a b (inr (inl e)) (inl f) g = ground arith
after_paths a b (inr (inl e)) (inr (inl f)) g = cc
after_paths a b (inl e) (inr (inr f)) g = elim f [ ]
after_paths a b (inr (inl e)) (inr (inr f)) g = elim f [ ]
after_paths a b (inr (inr e)) _ g = elim e [ ]

reconcile-stored_example :
    reconcile (map stored after) after false
    ≡ ok (record nothing { unchanged = sort_identifiers (map id_of after) })
reconcile-stored_example = reconcile-stored after after_one after_paths

abbrev renamed : List ScannedItem
renamed = film (codes "x") (codes "kept.mkv") (pos 10) ∷ []

abbrev report : IdentifierMismatch
report = record { root = pos 0; path = codes "kept.mkv"; stored = codes "c"; derived = codes "x" }

mismatch_runs : reconcile before renamed false ≡ mismatched report
unfolding reconcile by_id_from by_path_from mismatch decide str_eq same_key
mismatch_runs = refl

reconcile-mismatched_example : Disagrees before renamed report
reconcile-mismatched_example = reconcile-mismatched before renamed false mismatch_runs
