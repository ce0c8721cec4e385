-- ===== src/Scan/Covering.antt =====
-- Every desired item of internal/scan/reconcile.go is stored already or is to be written.
use atrium_go.Base.{
  ◌≡◌, refl, ◌⊎◌, inl, inr, Bool, Option, some, List, [], ◌∷◌, Option-cases, Bool-cases, In,
}
use atrium_go.Ports.Items.{ScannedItem}
use atrium_go.Scan.Index.{by_id, by_path}
use atrium_go.Scan.Partition.{decide-inv, finish_ok-inv}
use atrium_go.Scan.{
  PathKey, Reconciliation, ok, Verdict, is_added, is_updated, is_unchanged, classify, put, decide,
  reconcile, by_id_from, set_id, item_less, sort_items,
}
use atrium_go.Sorting.{sort_by-In}
use atrium_go.Text.{Text, str_eq}
use atrium_go.Text.Laws.{str_eq_refl}

put-In :
    (v : Verdict) (x y : ScannedItem) (r : Reconciliation) → In y r.write → In y (put v x r).write
unfolding put
put-In is_added x y r h = inr h
put-In is_updated x y r h = inr h
put-In is_unchanged x y r h = h

put_new :
    (v : Verdict) (x : ScannedItem) (r : Reconciliation)
    → In x (put v x r).write ⊎ (v ≡ is_unchanged)
unfolding put
put_new is_added x r = inl (inl refl)
put_new is_updated x r = inl (inl refl)
put_new is_unchanged x r = inr refl

classify_known :
    (stored : Text → Option ScannedItem) (full : Bool) (x : ScannedItem)
    → classify stored full x ≡ is_unchanged
    → (s : ScannedItem) × (stored x.id ≡ some s)
unfolding classify
classify_known stored full x h = elim (Option-cases (stored x.id)) [
  | inl e ↦ absurd (cc (rw (e, classify) at h))
  | inr (s, e) ↦ (s, e)
]

decide_covers :
    (stored : Text → Option ScannedItem) (at : PathKey → Option ScannedItem) (full : Bool)
    (x : ScannedItem) (xs : List ScannedItem) {r : Reconciliation}
    → decide stored at full xs ≡ ok r
    → In x xs
    → In x r.write ⊎ ((s : ScannedItem) × (stored x.id ≡ some s))
decide_covers stored at full x [] h i = elim i [ ]
decide_covers stored at full x (y ∷ ys) h (inl e) =
    let (q, m, o, p) = decide-inv stored at full y ys h in
    elim (put_new (classify stored full y) y q) [
      | inl w ↦ inl (rw (e, p) w)
      | inr u ↦ inr (rw e (classify_known stored full y u))
    ]
decide_covers stored at full x (y ∷ ys) h (inr i) =
    let (q, m, o, p) = decide-inv stored at full y ys h in
    elim (decide_covers stored at full x ys o i) [
      | inl w ↦ inl (rw p (put-In (classify stored full y) y x q w))
      | inr s ↦ inr s
    ]

-- Where `Reconcile` succeeds, an item that was desired is to be written, or one of its identifier
-- was there.
pub reconcile_covers :
    (previous desired : List ScannedItem) (full : Bool) (x : ScannedItem) {r : Reconciliation}
    → reconcile previous desired full ≡ ok r
    → In x desired
    → In x r.write ⊎ ((s : ScannedItem) × (by_id previous x.id ≡ some s))
unfolding reconcile sort_items
reconcile_covers previous desired full x h i =
    let (q, o, e) = finish_ok-inv previous desired _ h in
    elim (decide_covers (by_id previous) (by_path previous) full x desired o i) [
      | inl w ↦ inl (rw e ((sort_by-In item_less x q.write).1 w))
      | inr s ↦ inr s
    ]

by_id_from_kept :
    (m : Text → Option ScannedItem) (k : Text) (xs : List ScannedItem) {s : ScannedItem}
    → m k ≡ some s
    → (u : ScannedItem) × (by_id_from m xs k ≡ some u)
unfolding by_id_from
by_id_from_kept m k [] {s} h = (s, h)
by_id_from_kept m k (x ∷ xs) {s} h = elim (Bool-cases (str_eq x.id k)) [
  | inl e ↦ by_id_from_kept (set_id m x) k xs {s = x} (rw e)
  | inr e ↦ by_id_from_kept (set_id m x) k xs {s = s} (rw e h)
]

-- An identifier that was known, or is one of the items', is known once they are set.
pub by_id_from_known :
    (m : Text → Option ScannedItem) (x : ScannedItem) (xs : List ScannedItem)
    → In x xs ⊎ ((s : ScannedItem) × (m x.id ≡ some s))
    → (u : ScannedItem) × (by_id_from m xs x.id ≡ some u)
unfolding by_id_from
by_id_from_known m x [] (inl i) = elim i [ ]
by_id_from_known m x (y ∷ ys) (inl (inl e)) =
    by_id_from_kept (set_id m y) x.id ys {s = y} (rw (e, str_eq_refl y.id))
by_id_from_known m x (y ∷ ys) (inl (inr i)) = by_id_from_known (set_id m y) x ys (inl i)
by_id_from_known m x xs (inr (s, e)) = by_id_from_kept m x.id xs e
