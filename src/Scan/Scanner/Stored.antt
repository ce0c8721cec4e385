-- ===== src/Scan/Scanner/Stored.antt =====
-- The scan of internal/scan/scan.go over the resolver of internal/library/resolve.go.
mod Tests
use atrium_go.Base.{
  ℕ, zero, suc, ◌≤◌, All, ◌≡◌, ◌≢◌, refl, sym, ap, ◌∙◌, ◌⊎◌, inl, inr, Bool, true, false, Option,
  none, some, List, [], ◌∷◌, arith, Bool-cases, In, In-map, In-map_inv, map, keep, if◌then◌else◌,
}
use atrium_go.ItemStore.{
  ItemTables, items_for_library, by_item_id, columns, holds, with_files, keyed_before,
}
use atrium_go.Library.Data.{Library, Reading, Plan}
use atrium_go.Library.Resolve.{resolve_with_tags, library_root_item}
use atrium_go.Library.Resolve.Climbing.{Ascends}
use atrium_go.Library.Resolve.Parents.{resolve_with_tags-Reaches, Reaches}
use atrium_go.Library.Tools.{Tools, Attempt, done}
use atrium_go.Library.Tracks.{TagSource}
use atrium_go.Ports.Items.{ScannedItem}
use atrium_go.Scan.Covering.{reconcile_covers, by_id_from_known}
use atrium_go.Scan.Index.{by_id-some}
use atrium_go.Scan.Removal.{reconcile-removal, Gone}
use atrium_go.Scan.Scanner.Monad.{World}
use atrium_go.Scan.Scanner.Monad
use atrium_go.Scan.Scanner.Rows.{row_of}
use atrium_go.Scan.Scanner.Success.{Decided, scan-Decided}
use atrium_go.Scan.Scanner.{Options, Scanner, Surroundings, Changes, scan}
use atrium_go.Scan.{Reconciliation, ok, reconcile, by_id_from}
use atrium_go.Sorting.{sort_by, sort_by-In}
use atrium_go.Tables.{find_row}
use atrium_go.Tables.Members.{find_row-there}
use atrium_go.Text.{Text, str_eq}
use atrium_go.Text.Laws.{str_eq_iff}

-- The identifier has a row.
abbrev pub IsStored : ItemTables → Text → Type 0
IsStored t k = (s : ScannedItem) × (row_of t k ≡ some s)

holds-In : (ks : List Text) (k : Text) → holds ks k ≡ true → In k ks
unfolding holds
holds-In [] k h = cc
holds-In (i ∷ is) k h = elim (Bool-cases (str_eq i k)) [
  | inl e ↦ inl (sym ((str_eq_iff i k).0 e))
  | inr e ↦ inr (holds-In is k (rw e at h))
]

keep-In :
    (p : ScannedItem → Bool) (x : ScannedItem) (xs : List ScannedItem) → In x (keep p xs) → In x xs
keep-In p x [] h = h
keep-In p x (y ∷ ys) h = elim (Bool-cases (p y)) [
  | inl e ↦ elim (rw e at h) [ inl same ↦ inl same | inr there ↦ inr (keep-In p x ys there) ]
  | inr e ↦ inr (keep-In p x ys (rw e at h))
]

items_for_library-IsStored :
    (library : Text) (t : ItemTables) (s : ScannedItem)
    → In s (items_for_library library t)
    → IsStored t s.id
unfolding items_for_library
items_for_library-IsStored library t s i =
    let (y, j, e) =
      In-map_inv (with_files t.files) s
        (sort_by keyed_before (keep (λ x. str_eq x.library_id library) t.items)) i in
    find_row-there (by_item_id s.id) y t.items
      (keep-In _ y t.items ((sort_by-In keyed_before y _).0 j))
      ((str_eq_iff y.id s.id).1 (sym (ap (λ (x : ScannedItem). x.id) e)))

-- A desired item is known before the scan or written by it.
known :
    (library : Text) (t : ItemTables) (desired : List ScannedItem) (full : Bool) (x : ScannedItem)
    {r : Reconciliation}
    → reconcile (items_for_library library t) desired full ≡ ok r
    → In x desired
    → In (columns x) (map columns r.write) ⊎ IsStored t x.id
known library t desired full x {r} h i =
    elim (reconcile_covers (items_for_library library t) desired full x h i) [
      | inl w ↦ inl (In-map columns x r.write w)
      | inr (s, e) ↦
          let (j, same) = by_id-some (items_for_library library t) x.id e in
          inr (rw same at (items_for_library-IsStored library t s j))
    ]

kept :
    (previous desired : List ScannedItem) (full : Bool) (x : ScannedItem) {r : Reconciliation}
    → reconcile previous desired full ≡ ok r
    → In x desired
    → holds r.remove x.id ≡ false
kept previous desired full x {r} h i = elim (Bool-cases (holds r.remove x.id)) [
  | inl e ↦
      let (p, j, same, empty, absent) =
        (reconcile-removal previous desired full x.id h).0.0 (holds-In r.remove x.id e) in
      absurd (absent x i refl)
  | inr e ↦ e
]

-- The row of a desired item, by what the scan leaves of the rows.
written :
    (w v : World) (r : Reconciliation) (lib : Library) (plan : Plan) (full : Bool)
    → reconcile (items_for_library lib.id w.tables) plan.items full ≡ ok r
    → ((k : Text)
        → row_of v.tables k ≡ (
            if holds r.remove k
            then none
            else by_id_from (row_of w.tables) (map columns r.write) k))
    → (x : ScannedItem) → In x plan.items
    → IsStored v.tables x.id
written w v r lib plan full h rows x i =
    let (s, e) =
      by_id_from_known (row_of w.tables) (columns x) (map columns r.write)
        (known lib.id w.tables plan.items full x h i) in
    (s, rows x.id ∙ rw (kept (items_for_library lib.id w.tables) plan.items full x h i) e)

-- The item has a row, and so has each of the parents, among the items, that lead from it to the
-- library's own.
abbrev pub Rows : Tools → Library → List ScannedItem → ItemTables → ℕ → ScannedItem → Type 0
Rows tools lib items t zero x = (x ≡ library_root_item tools lib) × IsStored t x.id
Rows tools lib items t (suc n) x =
    (p : ScannedItem) × In p items
    × (p.id ≡ x.parent_id)
    × IsStored t x.id
    × Rows tools lib items t n p

abbrev pub IsPlaced : Tools → Library → List ScannedItem → ItemTables → ScannedItem → Type 0
IsPlaced tools lib items t x = (n : ℕ) × (n ≤ 3) × Rows tools lib items t n x

ascending :
    (tools : Tools) (lib : Library) (items : List ScannedItem) (t : ItemTables) (n : ℕ)
    (x : ScannedItem)
    → ((y : ScannedItem) → In y items → IsStored t y.id)
    → In x items
    → Ascends (library_root_item tools lib) items n x
    → Rows tools lib items t n x
ascending tools lib items t zero x stored i e = (e, stored x i)
ascending tools lib items t (suc n) x stored i (p, j, e, above) =
    (p, j, e, stored x i, ascending tools lib items t n p stored j above)

each : {A : Type 0} (P : A → Type 0) (xs : List A) → ((x : A) → In x xs → P x) → All P xs
each P [] h = tt
each P (x ∷ xs) h = (h x (inl refl), each P xs (λ y i. h y (inr i)))

module _ (env : Surroundings) (tools : Tools) (tags : TagSource) where
  placed :
      (lib : Library) (rs : List Reading) (plan : Plan) (t : ItemTables)
      → resolve_with_tags tools lib tags rs ≡ done (some plan)
      → ((y : ScannedItem) → In y plan.items → IsStored t y.id)
      → (x : ScannedItem) → In x plan.items
      → IsPlaced tools lib plan.items t x
  placed lib rs plan t h stored x i =
      let (n, le, above) = resolve_with_tags-Reaches tools lib tags rs x h i in
      (n, le, ascending tools lib plan.items t n x stored i above)

  -- Where the resolver that a scan is given answers as ResolveWithTags does: a scan that succeeds
  -- lists the changes that it decided from what was stored and from what the walks of all the
  -- library's roots, in their order, gave; afterwards every item that these walks resolved to has
  -- a row, and so has each of the at most three parents that lead from it to the library's own item.
  pub scan-IsPlaced :
      (s : Scanner) (lib : Library) (options : Options) (w : World) {c : Changes} {v : World}
      → ((rs : List Reading) (p : Plan)
          → env.resolve lib rs ≡ some p
          → resolve_with_tags tools lib tags rs ≡ done (some p))
      → scan env s lib options w ≡ (Monad.done c, v)
      → (d : Reconciliation × Changes) × (decided : Decided env lib options w d) × (c ≡ d.1)
        × All (IsPlaced tools lib decided.plan.items v.tables) decided.plan.items
  scan-IsPlaced s lib options w {c} {v} agrees h =
      let (d, decided, listed, rows) = scan-Decided env s lib options w h in
      (
        d,
        decided,
        listed,
        each (IsPlaced tools lib decided.plan.items v.tables) decided.plan.items (
            placed lib decided.found.readings decided.plan v.tables
              (agrees decided.found.readings decided.plan decided.resolves)
              (λ y i. written w v d.0 lib decided.plan options.full decided.reconciles rows y i)),
      )
