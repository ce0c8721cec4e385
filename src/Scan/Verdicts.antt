-- ===== src/Scan/Verdicts.antt =====
-- Which list of a `Reconciliation` an item of the desired set lands in, and why.
use atrium_go.Base.{
  ◌≡◌, refl, sym, ◌⊎◌, inl, inr, ◌↔◌, ◌≢◌, ◌∙◌, Bool, false, ◌&&◌, ◌||◌, Option, List, [], ◌∷◌,
  arith, In, Option-cases,
}
use atrium_go.Ports.Items.{ScannedItem}
use atrium_go.Scan.{
  PathKey, Reconciliation, ok, Verdict, is_added, is_updated, is_unchanged, classify, nothing, put,
  decide, reconcile, sort_identifiers, record_moved, signal_moved,
}
use atrium_go.Scan.Index.{by_id, by_path, by_id-some, by_id-none}
use atrium_go.Scan.Partition.{decide-inv, decide_nil, finish_ok-inv}
use atrium_go.Scan.Records.{unmoved-eq}
use atrium_go.Sorting.{sort_by-In}
use atrium_go.Text.{Text, nonempty, str_lt}

-- The list that an arm appends to.
abbrev pick : Verdict → Reconciliation → List Text
pick is_added r = r.added
pick is_updated r = r.updated
pick is_unchanged r = r.unchanged

In-put :
    (v w : Verdict) (x : ScannedItem) (r : Reconciliation) (k : Text)
    → In k (pick v (put w x r))
    → ((k ≡ x.id) × (w ≡ v)) ⊎ In k (pick v r)
unfolding put
In-put v w x r k h = ground arith

put-In :
    (v w : Verdict) (x : ScannedItem) (r : Reconciliation) (k : Text)
    → ((k ≡ x.id) × (w ≡ v)) ⊎ In k (pick v r)
    → In k (pick v (put w x r))
unfolding put
put-In v w x r k h = ground arith

module _ (ids : Text → Option ScannedItem) (paths : PathKey → Option ScannedItem) (full : Bool)
    (v : Verdict) (k : Text) where
  abbrev Judged : List ScannedItem → Type 0
  Judged xs = (d : ScannedItem) × In d xs × (d.id ≡ k) × (classify ids full d ≡ v)

  Judged-cons : (x : ScannedItem) (xs : List ScannedItem) → Judged xs → Judged (x ∷ xs)
  Judged-cons x xs (d, i, e, c) = (d, inr i, e, c)

  nothing-pick : ¬ In k (pick v nothing)
  nothing-pick h = ground arith

  decide_sound :
      (xs : List ScannedItem) {r : Reconciliation}
      → decide ids paths full xs ≡ ok r
      → In k (pick v r)
      → Judged xs
  decide_sound [] h i = absurd (nothing-pick (rw (← decide_nil ids paths full h) at i))
  decide_sound (x ∷ xs) h i =
      let (q, m, o, p) = decide-inv ids paths full x xs h in
      elim (In-put v (classify ids full x) x q k (rw p at i)) [
        | inl (e, c) ↦ (x, inl refl, sym e, c)
        | inr j ↦ Judged-cons x xs (decide_sound xs o j)
      ]

  decide_complete :
      (xs : List ScannedItem) {r : Reconciliation}
      → decide ids paths full xs ≡ ok r
      → Judged xs
      → In k (pick v r)
  decide_complete [] h (d, i, e, c) = elim i [ ]
  decide_complete (x ∷ xs) h (d, inl i, e, c) =
      let (q, m, o, p) = decide-inv ids paths full x xs h in
      rw p (put-In v (classify ids full x) x q k (inl (cc, rw (← i) c)))
  decide_complete (x ∷ xs) h (d, inr i, e, c) =
      let (q, m, o, p) = decide-inv ids paths full x xs h in
      rw p (put-In v (classify ids full x) x q k (inr (decide_complete xs o (d, i, e, c))))

-- A desired item whose identifier no previous row has.
abbrev pub New : List ScannedItem → List ScannedItem → Text → Type 0
New previous desired k =
    (d : ScannedItem) × In d desired × (d.id ≡ k) × ((p : ScannedItem) → In p previous → p.id ≢ k)

classify-is_added :
    (previous : List ScannedItem) (full : Bool) (d : ScannedItem)
    → classify (by_id previous) full d ≡ is_added
    → (p : ScannedItem) → In p previous
    → p.id ≢ d.id
unfolding classify
classify-is_added previous full d c p i = elim (Option-cases (by_id previous d.id)) [
  | inl e ↦ by_id-none previous d.id p e i
  | inr (s, e) ↦ ground arith
]

is_added-classify :
    (previous : List ScannedItem) (full : Bool) (d : ScannedItem)
    → ((p : ScannedItem) → In p previous → p.id ≢ d.id)
    → classify (by_id previous) full d ≡ is_added
unfolding classify
is_added-classify previous full d n = elim (Option-cases (by_id previous d.id)) [
  | inl e ↦ rw (e, classify)
  | inr (s, e) ↦ let (i, q) = by_id-some previous d.id e in absurd (n s i q)
]

-- `Reconcile` adds exactly the desired items whose identifier no previous row has, under a full
-- re-examination and without one.
pub reconcile-added :
    (previous desired : List ScannedItem) (full : Bool) {r : Reconciliation} (k : Text)
    → reconcile previous desired full ≡ ok r
    → In k r.added ↔ New previous desired k
unfolding reconcile sort_identifiers
reconcile-added previous desired full k h =
    let (q, o, e) = finish_ok-inv previous desired _ h in rw e (forth q o, back q o)
  where
    forth :
        (q : Reconciliation)
        → decide (by_id previous) (by_path previous) full desired ≡ ok q
        → In k (sort_identifiers q.added)
        → New previous desired k
    forth q o i =
        let (d, j, e, c) =
          decide_sound (by_id previous) (by_path previous) full is_added k desired o
            ((sort_by-In str_lt k q.added).0 i) in
        (d, j, e, λ p l g. classify-is_added previous full d c p l (g ∙ sym e))

    back :
        (q : Reconciliation)
        → decide (by_id previous) (by_path previous) full desired ≡ ok q
        → New previous desired k
        → In k (sort_identifiers q.added)
    back q o (d, j, e, n) = (sort_by-In str_lt k q.added).1 (
        decide_complete (by_id previous) (by_path previous) full is_added k desired o
          (d, j, e, is_added-classify previous full d (λ p l g. n p l (g ∙ e))))

-- A desired item that is the previous row of its identifier but for the sort title, and that has
-- no file if the scan is a full one.
abbrev pub Believed : List ScannedItem → List ScannedItem → Bool → Text → Type 0
Believed previous desired full k =
    (p d : ScannedItem) × In p previous
    × In d desired
    × (d.id ≡ k)
    × (d ≡ record p { sort_title = d.sort_title })
    × (full && nonempty d.files ≡ false)

classify-is_unchanged :
    (previous : List ScannedItem) (full : Bool) (d : ScannedItem)
    → classify (by_id previous) full d ≡ is_unchanged
    → (p : ScannedItem) × In p previous
      × (d ≡ record p { sort_title = d.sort_title })
      × (full && nonempty d.files ≡ false)
unfolding classify
classify-is_unchanged previous full d c = elim (Option-cases (by_id previous d.id)) [
  | inl e ↦ ground arith
  | inr (s, e) ↦
      let (i, q) = by_id-some previous d.id e in
      let (m, f, n) =
        unmoved (record_moved s d) (signal_moved s.files d.files) (full && nonempty d.files)
          (ground arith) in
      (s, i, unmoved-eq s d q m f, n)
]
  where
    unmoved : (a b c : Bool) → a || b || c ≡ false → (a ≡ false) × (b ≡ false) × (c ≡ false)
    unmoved a b c h = ground arith

-- `Reconcile` leaves an identifier unwritten only where the desired item is the stored one, in
-- every field but the sort title and with the same files, and has no file if the scan is full.
pub reconcile-unchanged :
    (previous desired : List ScannedItem) (full : Bool) {r : Reconciliation} (k : Text)
    → reconcile previous desired full ≡ ok r
    → In k r.unchanged
    → Believed previous desired full k
unfolding reconcile sort_identifiers
reconcile-unchanged previous desired full k h i =
    let (q, o, e) = finish_ok-inv previous desired _ h in
    let (d, j, g, c) =
      decide_sound (by_id previous) (by_path previous) full is_unchanged k desired o
        ((sort_by-In str_lt k q.unchanged).0 (rw e at i)) in
    let (p, l, m, n) = classify-is_unchanged previous full d c in (p, d, l, j, g, m, n)
