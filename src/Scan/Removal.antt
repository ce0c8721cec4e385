-- ===== src/Scan/Removal.antt =====
-- What `Reconcile` removes and what it keeps.
use atrium_go.Base.{
  ◌≡◌, refl, sym, ◌↔◌, ◌≢◌, ◌∙◌, inl, inr, Bool, true, false, List, [], ◌∷◌, arith, In, Bool-cases,
}
use atrium_go.Ports.Items.{ScannedItem}
use atrium_go.Scan.{Reconciliation, ok, differ, gone, is_present, reconcile, sort_identifiers}
use atrium_go.Scan.Index.{is_present-In, is_present-false}
use atrium_go.Scan.Partition.{finish_ok-inv}
use atrium_go.Sorting.{sort_by-In}
use atrium_go.Text.{Text, nonempty, str_lt}

-- A previous row under the identifier `k`, that no desired item has, with or without files.
abbrev pub Gone : List ScannedItem → List ScannedItem → Bool → Text → Type 0
Gone previous desired with_files k =
    (x : ScannedItem) × In x previous
    × (x.id ≡ k)
    × (nonempty x.files ≡ with_files)
    × ((d : ScannedItem) → In d desired → d.id ≢ k)

module _ (with_files : Bool) (present : Text → Bool) where
  abbrev GoneRow : List ScannedItem → Text → Type 0
  GoneRow xs k =
      (x : ScannedItem) × In x xs
      × (x.id ≡ k)
      × (nonempty x.files ≡ with_files)
      × (present x.id ≡ false)

  gone_sound : (xs : List ScannedItem) (k : Text) → In k (gone with_files present xs) → GoneRow xs k
  unfolding gone
  gone_sound [] k h = elim h [ ]
  gone_sound (x ∷ xs) k h = elim (Bool-cases (present x.id)) [
    | inl p ↦ later x xs k (gone_sound xs k (ground arith))
    | inr p ↦ elim (Bool-cases (differ with_files (nonempty x.files))) [
      | inl d ↦ later x xs k (gone_sound xs k (ground arith))
      | inr d ↦ here x xs k p (ground arith) (gone_sound xs k) (rw (p, d) at h)
    ]
  ]
    where
      later :
          (x : ScannedItem) (xs : List ScannedItem) (k : Text) → GoneRow xs k → GoneRow (x ∷ xs) k
      later x xs k (y, i, e, f, q) = (y, inr i, e, f, q)

      here :
          (x : ScannedItem) (xs : List ScannedItem) (k : Text)
          → present x.id ≡ false
          → nonempty x.files ≡ with_files
          → (In k (gone with_files present xs) → GoneRow xs k)
          → In k (x.id ∷ gone with_files present xs)
          → GoneRow (x ∷ xs) k
      here x xs k p d ih (inl e) = (x, inl refl, cc, d, p)
      here x xs k p d ih (inr i) = later x xs k (ih i)

  gone_complete :
      (xs : List ScannedItem) (k : Text) → GoneRow xs k → In k (gone with_files present xs)
  unfolding gone
  gone_complete [] k (x, i, e, f, p) = elim i [ ]
  gone_complete (y ∷ ys) k (x, inl i, e, f, p) = ground arith
  gone_complete (y ∷ ys) k (x, inr i, e, f, p) = ground (arith, gone_complete ys k (x, i, e, f, p))

-- `Reconcile` removes exactly the identifiers of the previous rows that have a file behind them and
-- whose identifier no desired item has, and retains exactly those of such rows with no file.
pub reconcile-removal :
    (previous desired : List ScannedItem) (full : Bool) {r : Reconciliation} (k : Text)
    → reconcile previous desired full ≡ ok r
    → (In k r.remove ↔ Gone previous desired true k)
      × (In k r.retained ↔ Gone previous desired false k)
unfolding reconcile sort_identifiers
reconcile-removal previous desired full k h =
    let (q, o, e) = finish_ok-inv previous desired _ h in rw e (both true, both false)
  where
    forth : (b : Bool) → GoneRow b (is_present desired) previous k → Gone previous desired b k
    forth b (x, i, e, f, p) = (x, i, e, f, λ d j q. is_present-false desired x.id d p j (q ∙ sym e))

    absent :
        (x : ScannedItem)
        → x.id ≡ k
        → ((d : ScannedItem) → In d desired → d.id ≢ k)
        → is_present desired x.id ≡ false
    absent x e n = elim (Bool-cases (is_present desired x.id)) [
      | inl p ↦ let (d, j, q) = is_present-In desired x.id p in absurd (n d j (q ∙ e))
      | inr p ↦ p
    ]

    back : (b : Bool) → Gone previous desired b k → GoneRow b (is_present desired) previous k
    back b (x, i, e, f, n) = (x, i, e, f, absent x e n)

    both :
        (b : Bool)
        → In k (sort_identifiers (gone b (is_present desired) previous)) ↔ Gone previous desired b k
    both b = (
      λ i. forth b (gone_sound b (is_present desired) previous k ((sort_by-In str_lt k _).0 i)),
      λ g. (sort_by-In str_lt k _).1 (gone_complete b (is_present desired) previous k (back b g)),
    )
