-- ===== src/ItemStore/Rows.antt =====
-- What a batch writes is what is read back.
use mathlib.Core.Path.{subst}
use mathlib.Core.List.{append-nil}
use atrium_go.Base.{
  some-injective, ◌≡◌, refl, ap, sym, ◌∙◌, inl, inr, Bool, true, false, not, Option, none, some,
  List, [], ◌∷◌, ◌++◌, arith, if◌then◌else◌, Bool-cases, guard, >>=-some, guard-some,
}
use atrium_go.ItemStore.{
  ItemTables, ScanBatch, by_item_id, beneath, ordinal_before, files_of, columns, upsert_item,
  insert_files, write_item, write_items, renew_claim, apply_scan_batch, is_repeated,
}
use atrium_go.Ports.Items.{ScannedItem, ScannedFile}
use atrium_go.Sorting.{sort_by}
use atrium_go.Tables.{find_row, update_rows, delete_rows, any_row}
use atrium_go.Tables.Keys.{find_row-append, any_row-find_row}
use atrium_go.Text.Laws.{str_eq_iff}
use atrium_go.Text.{Text, str_eq}
use atrium_go.ItemStore.Files.{of_item, insert_files-of_item, of_item-deleted}

find_row-replaced :
    (x : ScannedItem) (k : Text) (rows : List ScannedItem)
    → any_row (by_item_id x.id) rows ≡ true
    → find_row (by_item_id k) (update_rows (by_item_id x.id) (λ _. columns x) rows)
      ≡ (if str_eq x.id k then some (columns x) else find_row (by_item_id k) rows)
unfolding find_row update_rows any_row
find_row-replaced x k [] h = cc
find_row-replaced x k (r ∷ rows) h = ground (
  arith,
  find_row-replaced x k rows,
  str_eq_iff x.id k,
  str_eq_iff r.id k,
  str_eq_iff r.id x.id,
  find_row-kept x k rows,
)
  where
    find_row-kept :
        (x : ScannedItem) (k : Text) (rows : List ScannedItem)
        → str_eq x.id k ≡ false
        → find_row (by_item_id k) (update_rows (by_item_id x.id) (λ _. columns x) rows)
          ≡ find_row (by_item_id k) rows
    find_row-kept x k [] n = refl
    find_row-kept x k (r ∷ rows) n = ground (
      arith,
      find_row-kept x k rows n,
      str_eq_iff r.id k,
      str_eq_iff r.id x.id,
      str_eq_iff x.id k,
    )

find_row-upsert_item :
    (x : ScannedItem) (k : Text) (rows : List ScannedItem)
    → find_row (by_item_id k) (upsert_item x rows)
      ≡ (if str_eq x.id k then some (columns x) else find_row (by_item_id k) rows)
unfolding upsert_item
find_row-upsert_item x k rows = elim (Bool-cases (any_row (by_item_id x.id) rows)) [
  | inl e ↦ rw e (find_row-replaced x k rows e)
  | inr e ↦ rw e (
      find_row-append (by_item_id k) rows (columns x)
      ∙ appended (find_row (by_item_id k) rows) (missing k rows e))
]
  where
    missing :
        (k : Text) (rows : List ScannedItem)
        → any_row (by_item_id x.id) rows ≡ false
        → str_eq x.id k ≡ true
        → find_row (by_item_id k) rows ≡ none
    missing k rows e h =
        subst (λ j. find_row (by_item_id j) rows ≡ none) ((str_eq_iff x.id k).0 h)
          (any_row-find_row (by_item_id x.id) rows e)

    appended :
        (o : Option ScannedItem)
        → (str_eq x.id k ≡ true → o ≡ none)
        → elim o [ some s ↦ some s | none ↦ if str_eq x.id k then some (columns x) else none ]
          ≡ (if str_eq x.id k then some (columns x) else o)
    appended none h = ground arith
    appended (some s) h = elim (Bool-cases (str_eq x.id k)) [
      | inl e ↦ absurd (cc (h e))
      | inr e ↦ rw e refl
    ]

-- An item that a write leaves, and its files.
abbrev pub override : {A B : Type 0} → (A → B) → Option A → B → B
override f none old = old
override f (some x) old = f x

pub write_item-items :
    (x : ScannedItem) (k : Text) (t : ItemTables) {u : ItemTables}
    → write_item x t ≡ some u
    → find_row (by_item_id k) u.items
      ≡ (if str_eq x.id k then some (columns x) else find_row (by_item_id k) t.items)
unfolding write_item
write_item-items x k t {u} h =
    let (files, i, l) =
      >>=-some (insert_files x.id x.files (delete_rows (beneath x.id) t.files)) _ h in
    ap (λ (v : ItemTables). find_row (by_item_id k) v.items) (sym (some-injective l))
    ∙ find_row-upsert_item x k t.items

write_item-files :
    (x : ScannedItem) (k : Text) (t : ItemTables) {u : ItemTables}
    → write_item x t ≡ some u
    → of_item u.files k ≡ (if str_eq x.id k then x.files else of_item t.files k)
unfolding write_item
write_item-files x k t {u} h =
    let (files, i, l) =
      >>=-some (insert_files x.id x.files (delete_rows (beneath x.id) t.files)) _ h in
    ap (λ (v : ItemTables). of_item v.files k) (sym (some-injective l))
    ∙ insert_files-of_item x.id k x.files (delete_rows (beneath x.id) t.files) {r = files} i
    ∙ ap (λ xs. xs ++ (if str_eq x.id k then x.files else [])) (of_item-deleted x.id k t.files)
    ∙ either (str_eq x.id k) (of_item t.files k) x.files
  where
    either :
        (b : Bool) (xs fs : List ScannedFile)
        → (if b then [] else xs) ++ (if b then fs else []) ≡ (if b then fs else xs)
    either true xs fs = refl
    either false xs fs = append-nil xs

unrepeated :
    (x : ScannedItem) (k : Text) (xs : List ScannedItem)
    → any_row (by_item_id x.id) xs ≡ false
    → str_eq x.id k ≡ true
    → find_row (by_item_id k) xs ≡ none
unrepeated x k xs e h =
    subst (λ j. find_row (by_item_id j) xs ≡ none) ((str_eq_iff x.id k).0 h)
      (any_row-find_row (by_item_id x.id) xs e)

override-cons :
    {B : Type 0} (f : ScannedItem → B) (x : ScannedItem) (k : Text) (xs : List ScannedItem)
    (old : B)
    → any_row (by_item_id x.id) xs ≡ false
    → override f (find_row (by_item_id k) xs) (if str_eq x.id k then f x else old)
      ≡ override f (find_row (by_item_id k) (x ∷ xs)) old
unfolding find_row
override-cons f x k xs old e = elim (Bool-cases (str_eq x.id k)) [
  | inl b ↦ rw (b, unrepeated x k xs e b) refl
  | inr b ↦ rw b refl
]

-- What reading one identifier and its files answers.
record Written (xs : List ScannedItem) (k : Text) (t u : ItemTables) : Type 0 where
  items :
      find_row (by_item_id k) u.items
      ≡ override
          (λ x. some (columns x))
          (find_row (by_item_id k) xs)
          (find_row (by_item_id k) t.items)
  files :
      of_item u.files k
      ≡ override (λ (x : ScannedItem). x.files) (find_row (by_item_id k) xs) (of_item t.files k)

write_items-Written :
    (xs : List ScannedItem) (k : Text) (t : ItemTables) {u : ItemTables}
    → is_repeated xs ≡ false
    → write_items xs t ≡ some u
    → Written xs k t u
unfolding write_items is_repeated find_row
write_items-Written [] k t {u} n h =
    subst (λ (v : ItemTables). Written [] k t v) (some-injective h)
      (record { items = refl; files = refl })
write_items-Written (x ∷ xs) k t {u} n h =
    let (w, i, l) = >>=-some (write_item x t) _ h in
    let rest = write_items-Written xs k w {u = u} (unrepeated_rest x xs n) l in
    let fresh = unrepeated_head x xs n in
    record {
      items =
          rest.items
          ∙ ap (override (λ x. some (columns x)) (find_row (by_item_id k) xs))
              (write_item-items x k t i)
          ∙ override-cons (λ x. some (columns x)) x k xs (find_row (by_item_id k) t.items) fresh;
      files =
          rest.files
          ∙ ap (override (λ (x : ScannedItem). x.files) (find_row (by_item_id k) xs))
              (write_item-files x k t i)
          ∙ override-cons (λ (x : ScannedItem). x.files) x k xs (of_item t.files k) fresh;
    }
  where
    unrepeated_head :
        (x : ScannedItem) (xs : List ScannedItem)
        → is_repeated (x ∷ xs) ≡ false
        → any_row (by_item_id x.id) xs ≡ false
    unrepeated_head x xs n = ground arith

    unrepeated_rest :
        (x : ScannedItem) (xs : List ScannedItem)
        → is_repeated (x ∷ xs) ≡ false
        → is_repeated xs ≡ false
    unrepeated_rest x xs n = ground arith

not-false : (b : Bool) → not b ≡ true → b ≡ false
not-false b h = ground arith

-- After a batch is written, the row of each identifier in it has the columns of its item, and the
-- files that are read beneath it are the item's, in the order of their ordinals; the row and the
-- files of every other identifier are as they were.
pub apply_scan_batch-rows :
    (b : ScanBatch) (k : Text) (t : ItemTables) {u : ItemTables}
    → apply_scan_batch b t ≡ some u
    → (find_row (by_item_id k) u.items
        ≡ override
            (λ x. some (columns x))
            (find_row (by_item_id k) b.items)
            (find_row (by_item_id k) t.items))
      × (files_of u.files k
          ≡ override
              (λ (x : ScannedItem). sort_by ordinal_before x.files)
              (find_row (by_item_id k) b.items)
              (files_of t.files k))
unfolding apply_scan_batch files_of
apply_scan_batch-rows b k t {u} h =
    let (x, g, l) = >>=-some (guard (not (is_repeated b.items))) _ h in
    let (scans, i, l) = >>=-some (renew_claim b t.scans) _ l in
    let written =
      write_items-Written b.items k (record t { scans = scans }) {u = u}
        (not-false _ (guard-some _ x g)) l in
    (
      written.items,
      ap (sort_by ordinal_before) written.files
          ∙ sorted (find_row (by_item_id k) b.items) (of_item t.files k),
    )
  where
    sorted :
        (o : Option ScannedItem) (fs : List ScannedFile)
        → sort_by ordinal_before (override (λ (x : ScannedItem). x.files) o fs)
          ≡ override
              (λ (x : ScannedItem). sort_by ordinal_before x.files)
              o
              (sort_by ordinal_before fs)
    sorted none fs = refl
    sorted (some x) fs = refl
