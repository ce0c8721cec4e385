-- ===== src/Scan/Rescan.antt =====
-- A second scan over what the first one stored, and the error that ends a scan.
use atrium_go.Base.{
  ◌≡◌, refl, sym, ap, inl, inr, ◌≢◌, ◌∙◌, Bool, true, false, Option, none, some, List, [], ◌∷◌, map,
  arith, In, Bool-cases, Option-cases,
}
use atrium_go.Ports.Items.{ScannedItem}
use atrium_go.Scan.{
  PathKey, Reconciliation, IdentifierMismatch, Outcome, ok, mismatched, Verdict, is_unchanged,
  classify, nothing, put, put_ok, decide, mismatch, gone, is_present, finish_ok, reconcile,
  sort_identifiers, sort_items, key_of,
}
use atrium_go.Scan.Index.{by_id, by_path, by_id-some, by_id-none, by_path-some, is_present-false}
use atrium_go.Scan.Partition.{id_of}
use atrium_go.Scan.Records.{record_moved_refl, signal_moved_refl}
use atrium_go.Sorting.{sort_by}
use atrium_go.Text.Laws.{str_eq_iff}
use atrium_go.Text.{Text, nonempty}

-- What the store holds of an item: it has no column for the sort title.
abbrev pub stored : ScannedItem → ScannedItem
stored x = record x { sort_title = [] }

abbrev pub OneItemPerId : List ScannedItem → Type 0
OneItemPerId xs = (a b : ScannedItem) → In a xs → In b xs → a.id ≡ b.id → a ≡ b

abbrev pub OneIdPerPath : List ScannedItem → Type 0
OneIdPerPath xs = (a b : ScannedItem) → In a xs → In b xs → key_of a ≡ key_of b → a.id ≡ b.id

In-stored :
    (xs : List ScannedItem) (s : ScannedItem)
    → In s (map stored xs)
    → (y : ScannedItem) × In y xs × (s ≡ stored y)
In-stored [] s h = elim h [ ]
In-stored (x ∷ xs) s (inl e) = (x, inl refl, e)
In-stored (x ∷ xs) s (inr h) = let (y, i, e) = In-stored xs s h in (y, inr i, e)

stored-In : (xs : List ScannedItem) (x : ScannedItem) → In x xs → In (stored x) (map stored xs)
stored-In [] x h = elim h [ ]
stored-In (y ∷ ys) x (inl e) = inl (ap stored e)
stored-In (y ∷ ys) x (inr h) = inr (stored-In ys x h)

mismatch-none :
    (ys : List ScannedItem) (x : ScannedItem)
    → ((s : ScannedItem) → In s ys → key_of s ≡ key_of x → s.id ≡ x.id)
    → mismatch (by_path ys) x ≡ none
unfolding mismatch
mismatch-none ys x same = elim (Option-cases (by_path ys (key_of x))) [
  | inl e ↦ ground arith
  | inr (s, e) ↦
      let (i, k, n) = by_path-some ys (key_of x) e in
      ground (arith, str_eq_iff s.id x.id, same s i k)
]

classify-stored :
    (xs : List ScannedItem) (x : ScannedItem)
    → OneItemPerId xs
    → In x xs
    → classify (by_id (map stored xs)) false x ≡ is_unchanged
unfolding classify
classify-stored xs x one h = elim (Option-cases (by_id (map stored xs) x.id)) [
  | inl e ↦ absurd (by_id-none (map stored xs) x.id (stored x) e (stored-In xs x h) refl)
  | inr (s, e) ↦
      let (i, k) = by_id-some (map stored xs) x.id e in
      let (y, j, t) = In-stored xs s i in
      let same : y ≡ x = one y x j h (ap id_of (sym t) ∙ k) in
      let found : by_id (map stored xs) x.id ≡ some (stored x) = e ∙ ap some (t ∙ ap stored same) in
      rw (found, classify) (simp (record_moved_refl (stored x) x.sort_title, signal_moved_refl))
]

decide-cons :
    (ids : Text → Option ScannedItem) (paths : PathKey → Option ScannedItem) (full : Bool)
    (x : ScannedItem) (xs : List ScannedItem) {v : Verdict} {q : Reconciliation}
    → mismatch paths x ≡ none
    → classify ids full x ≡ v
    → decide ids paths full xs ≡ ok q
    → decide ids paths full (x ∷ xs) ≡ ok (put v x q)
unfolding decide
decide-cons ids paths full x xs m c h = ground arith

module _ (desired : List ScannedItem) (one : OneItemPerId desired)
    (paths : OneIdPerPath desired) where
  decide-stored :
      (xs : List ScannedItem)
      → ((x : ScannedItem) → In x xs → In x desired)
      → decide (by_id (map stored desired)) (by_path (map stored desired)) false xs
        ≡ ok (record nothing { unchanged = map id_of xs })
  unfolding put
  decide-stored [] sub = unfold decide in refl
  decide-stored (x ∷ xs) sub =
      decide-cons _ _ false x xs (mismatch-none (map stored desired) x (same x (sub x (inl refl))))
        (classify-stored desired x one (sub x (inl refl))) (decide-stored xs (λ y i. sub y (inr i)))
    where
      same :
          (x : ScannedItem)
          → In x desired
          → (s : ScannedItem) → In s (map stored desired)
          → key_of s ≡ key_of x
          → s.id ≡ x.id
      same x h s i k =
          let (y, j, t) = In-stored desired s i in
          ap id_of t ∙ paths y x j h (ap key_of (sym t) ∙ k)

gone_none :
    (b : Bool) (desired xs : List ScannedItem)
    → ((x : ScannedItem) → In x xs → In x desired)
    → gone b (is_present desired) (map stored xs) ≡ []
unfolding gone
gone_none b desired [] sub = refl
gone_none b desired (x ∷ xs) sub = elim (Bool-cases (is_present desired x.id)) [
  | inl p ↦ rw p (gone_none b desired xs (λ y i. sub y (inr i)))
  | inr p ↦ absurd (is_present-false desired x.id x p (sub x (inl refl)) refl)
]

-- Reconciling without the flag for a full scan, where the desired set is what the store holds
-- already, with one item for each identifier and one identifier for each path, writes nothing,
-- removes nothing and reports every item unchanged.
pub reconcile-stored :
    (desired : List ScannedItem)
    → OneItemPerId desired
    → OneIdPerPath desired
    → reconcile (map stored desired) desired false
      ≡ ok (record nothing { unchanged = sort_identifiers (map id_of desired) })
unfolding reconcile sort_identifiers sort_items sort_by
reconcile-stored desired one paths = rw (
  decide-stored desired one paths desired (λ x i. i),
  gone_none true desired desired (λ x i. i),
  gone_none false desired desired (λ x i. i),
)

-- A desired item and a previous row at one path whose identifiers differ, and the report of them.
abbrev pub Disagrees : List ScannedItem → List ScannedItem → IdentifierMismatch → Type 0
Disagrees previous desired e =
    (p : ScannedItem) × (d : ScannedItem) × In p previous
    × In d desired
    × (key_of p ≡ key_of d)
    × (nonempty d.path ≡ true)
    × (p.id ≢ d.id)
    × (e ≡ record { root = d.root_ordinal; path = d.path; stored = p.id; derived = d.id })

mismatch-some :
    (previous : List ScannedItem) (d : ScannedItem) {e : IdentifierMismatch}
    → mismatch (by_path previous) d ≡ some e
    → (p : ScannedItem) × In p previous
      × (key_of p ≡ key_of d)
      × (nonempty d.path ≡ true)
      × (p.id ≢ d.id)
      × (e ≡ record { root = d.root_ordinal; path = d.path; stored = p.id; derived = d.id })
unfolding mismatch
mismatch-some previous d h = elim (Option-cases (by_path previous (key_of d))) [
  | inl e ↦ ground arith
  | inr (s, e) ↦
      let (i, k, n) = by_path-some previous (key_of d) e in
      (s, i, k, ground arith, ground (arith, str_eq_iff s.id d.id), ground arith)
]

decide-Disagrees :
    (previous : List ScannedItem) (full : Bool) (xs : List ScannedItem) {e : IdentifierMismatch}
    → decide (by_id previous) (by_path previous) full xs ≡ mismatched e
    → Disagrees previous xs e
unfolding decide
decide-Disagrees previous full [] h = cc
decide-Disagrees previous full (x ∷ xs) h = elim (Option-cases (mismatch (by_path previous) x)) [
  | inl n ↦ later x xs (
      decide-Disagrees previous full xs
        (put_ok-mismatched (classify (by_id previous) full x) x _ (ground arith)))
  | inr (m, n) ↦
      let (p, i, k, t, f, g) = mismatch-some previous x n in
      (p, x, i, inl refl, k, t, f, ground arith)
]
  where
    later :
        (x : ScannedItem) (xs : List ScannedItem) {e : IdentifierMismatch}
        → Disagrees previous xs e
        → Disagrees previous (x ∷ xs) e
    later x xs (p, d, i, j, k, t, f, g) = (p, d, i, inr j, k, t, f, g)

    put_ok-mismatched :
        (v : Verdict) (x : ScannedItem) (o : Outcome Reconciliation) {e : IdentifierMismatch}
        → put_ok v x o ≡ mismatched e
        → o ≡ mismatched e
    put_ok-mismatched v x (ok q) h = cc
    put_ok-mismatched v x (mismatched e) h = h

-- `Reconcile` fails only where a desired item and a previous row at one path, which is not empty,
-- have different identifiers, and its error names that path and the two identifiers.
pub reconcile-mismatched :
    (previous desired : List ScannedItem) (full : Bool) {e : IdentifierMismatch}
    → reconcile previous desired full ≡ mismatched e
    → Disagrees previous desired e
unfolding reconcile
reconcile-mismatched previous desired full h =
    decide-Disagrees previous full desired
      (finish_ok-mismatched (decide (by_id previous) (by_path previous) full desired) h)
  where
    finish_ok-mismatched :
        (o : Outcome Reconciliation) {e : IdentifierMismatch}
        → finish_ok previous desired o ≡ mismatched e
        → o ≡ mismatched e
    finish_ok-mismatched (ok q) h = cc
    finish_ok-mismatched (mismatched e) h = h
