-- ===== src/ItemStore/Files.antt =====
-- The files beneath an item, through the statements that write them.
use mathlib.Core.List.{append-nil, append_assoc}
use atrium_go.Base.{
  some-injective, ◌≡◌, refl, ap, sym, ◌∙◌, Bool, true, false, not, ◌&&◌, some, List, [], ◌∷◌, ◌++◌,
  map, arith, if◌then◌else◌, guard, >>=-some, keep,
}
use atrium_go.Base.Int.{eqb_ℤ}
use atrium_go.ItemStore.{FileRow, beneath, file_of, insert_files}
use atrium_go.Ports.Items.{ScannedFile}
use atrium_go.Tables.{delete_rows, any_row}
use atrium_go.Text.Laws.{str_eq_iff}
use atrium_go.Text.{Text, str_eq}

keep-append :
    {A : Type 0} (p : A → Bool) (xs ys : List A) → keep p (xs ++ ys) ≡ keep p xs ++ keep p ys
keep-append p [] ys = refl
keep-append p (x ∷ xs) ys = ground (arith, keep-append p xs ys)

pub map-append :
    {A B : Type 0} (f : A → B) (xs ys : List A) → map f (xs ++ ys) ≡ map f xs ++ map f ys
map-append f [] ys = refl
map-append f (x ∷ xs) ys = ap (◌∷◌ (f x)) (map-append f xs ys)

-- The files beneath an item, before they are sorted.
abbrev pub of_item : List FileRow → Text → List ScannedFile
of_item rows k = map file_of (keep (beneath k) rows)

of_item-append :
    (k : Text) (rows : List FileRow) (r : FileRow)
    → of_item (rows ++ r ∷ []) k
      ≡ of_item rows k ++ (if str_eq r.item_id k then r.file ∷ [] else [])
of_item-append k [] r = ground arith
of_item-append k (s ∷ rows) r = ground (arith, of_item-append k rows r)

no_more : (b : Bool) (xs : List ScannedFile) → xs ≡ xs ++ (if b then [] else [])
no_more true xs = sym (append-nil xs)
no_more false xs = sym (append-nil xs)

one_more :
    (b : Bool) (f : ScannedFile) (xs fs : List ScannedFile)
    → (xs ++ (if b then f ∷ [] else [])) ++ (if b then fs else [])
      ≡ xs ++ (if b then f ∷ fs else [])
one_more true f xs fs = append_assoc xs (f ∷ []) fs
one_more false f xs fs = append_assoc xs [] []

pub insert_files-of_item :
    (j k : Text) (fs : List ScannedFile) (rows : List FileRow) {r : List FileRow}
    → insert_files j fs rows ≡ some r
    → of_item r k ≡ of_item rows k ++ (if str_eq j k then fs else [])
unfolding insert_files
insert_files-of_item j k [] rows h =
    ap (λ x. of_item x k) (sym (some-injective h)) ∙ no_more (str_eq j k) (of_item rows k)
insert_files-of_item j k (f ∷ fs) rows {r} h =
    let (u, g, l) =
      >>=-some (guard (not (any_row (λ r. beneath j r && eqb_ℤ r.file.ordinal f.ordinal) rows))) _
        h in
    insert_files-of_item j k fs (rows ++ record { item_id = j; file = f } ∷ []) {r = r} l
    ∙ ap (λ xs. xs ++ (if str_eq j k then fs else []))
        (of_item-append k rows (record { item_id = j; file = f }))
    ∙ one_more (str_eq j k) f (of_item rows k) fs

pub of_item-deleted :
    (j k : Text) (rows : List FileRow)
    → of_item (delete_rows (beneath j) rows) k ≡ (if str_eq j k then [] else of_item rows k)
unfolding delete_rows
of_item-deleted j k [] = ground arith
of_item-deleted j k (r ∷ rows) = ground (
  arith,
  of_item-deleted j k rows,
  str_eq_iff r.item_id j,
  str_eq_iff r.item_id k,
  str_eq_iff j k,
)
