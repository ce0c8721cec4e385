-- ===== src/Scan/Partition.antt =====
-- `Reconcile` puts every item of the desired set into exactly one of its three lists.
use mathlib.Core.List.{Perm, perm_middle}
use mathlib.Core.List.Perm
use atrium_go.Base.{
  ◌≡◌, refl, inl, inr, Bool, Option, none, List, [], ◌∷◌, ◌++◌, map, arith, Option-cases,
}
use atrium_go.Ports.Items.{ScannedItem}
use atrium_go.Scan.{
  PathKey, Reconciliation, Outcome, ok, mismatched, Verdict, is_added, is_updated, is_unchanged,
  mismatch, classify, nothing, put, put_ok, decide, finish, finish_ok, reconcile, sort_items,
  sort_identifiers, item_less,
}
use atrium_go.Sorting.{sort_by-perm}
use atrium_go.Text.{Text, str_lt}

abbrev pub id_of : ScannedItem → Text
id_of x = x.id

put_ok-inv :
    (v : Verdict) (x : ScannedItem) (o : Outcome Reconciliation) {r : Reconciliation}
    → put_ok v x o ≡ ok r
    → (q : Reconciliation) × (o ≡ ok q) × (r ≡ put v x q)
put_ok-inv v x (ok q) h = (q, refl, cc)
put_ok-inv v x (mismatched e) h = cc

-- A successful step of the loop: no disagreement, the rest succeeds, and one arm is taken.
pub decide-inv :
    (by_id : Text → Option ScannedItem) (by_path : PathKey → Option ScannedItem) (full : Bool)
    (x : ScannedItem) (xs : List ScannedItem) {r : Reconciliation}
    → decide by_id by_path full (x ∷ xs) ≡ ok r
    → (q : Reconciliation) × (mismatch by_path x ≡ none)
      × (decide by_id by_path full xs ≡ ok q)
      × (r ≡ put (classify by_id full x) x q)
unfolding decide
decide-inv by_id by_path full x xs h = elim (Option-cases (mismatch by_path x)) [
  | inl e ↦
      let (q, o, p) =
        put_ok-inv (classify by_id full x) x (decide by_id by_path full xs) (ground arith) in
      (q, e, o, p)
  | inr (m, e) ↦ ground arith
]

pub decide_nil :
    (by_id : Text → Option ScannedItem) (by_path : PathKey → Option ScannedItem) (full : Bool)
    {r : Reconciliation}
    → decide by_id by_path full [] ≡ ok r
    → nothing ≡ r
unfolding decide
decide_nil by_id by_path full h = cc

abbrev three : Reconciliation → List Text
three r = r.added ++ (r.updated ++ r.unchanged)

abbrev Partitions : List ScannedItem → Reconciliation → Type 0
Partitions xs r = Perm (three r) (map id_of xs) × Perm (map id_of r.write) (r.added ++ r.updated)

put-Partitions :
    (v : Verdict) (x : ScannedItem) (xs : List ScannedItem) (r : Reconciliation)
    → Partitions xs r
    → Partitions (x ∷ xs) (put v x r)
unfolding put
put-Partitions is_added x xs r (h, w) = (Perm.cons x.id h, Perm.cons x.id w)
put-Partitions is_updated x xs r (h, w) = (
  Perm.trans (perm_middle r.added (r.updated ++ r.unchanged)) (Perm.cons x.id h),
  Perm.trans (Perm.cons x.id w) (Perm.symm (perm_middle r.added r.updated)),
)
put-Partitions is_unchanged x xs r (h, w) = (
  Perm.trans (Perm.append_left r.added (perm_middle r.updated r.unchanged))
      (Perm.trans (perm_middle r.added (r.updated ++ r.unchanged)) (Perm.cons x.id h)),
  w,
)

decide-Partitions :
    (by_id : Text → Option ScannedItem) (by_path : PathKey → Option ScannedItem) (full : Bool)
    (xs : List ScannedItem) {r : Reconciliation}
    → decide by_id by_path full xs ≡ ok r
    → Partitions xs r
decide-Partitions by_id by_path full [] h =
    rw (← decide_nil by_id by_path full h) (Perm.refl [], Perm.refl [])
decide-Partitions by_id by_path full (x ∷ xs) h =
    let (q, m, o, p) = decide-inv by_id by_path full x xs h in
    rw p (put-Partitions (classify by_id full x) x xs q (decide-Partitions by_id by_path full xs o))

pub finish_ok-inv :
    (previous desired : List ScannedItem) (o : Outcome Reconciliation) {r : Reconciliation}
    → finish_ok previous desired o ≡ ok r
    → (q : Reconciliation) × (o ≡ ok q) × (r ≡ finish previous desired q)
finish_ok-inv previous desired (ok q) h = (q, refl, cc)
finish_ok-inv previous desired (mismatched e) h = cc

sorted-perm : (ids : List Text) → Perm (sort_identifiers ids) ids
unfolding sort_identifiers
sorted-perm ids = sort_by-perm str_lt ids

items-perm : (xs : List ScannedItem) → Perm (sort_items xs) xs
unfolding sort_items
items-perm xs = sort_by-perm item_less xs

-- When `Reconcile` succeeds, its added, updated and unchanged identifiers together are those of
-- the desired set, each as often, and the items to write are those that are added or updated.
pub reconcile-partition :
    (previous desired : List ScannedItem) (full : Bool) {r : Reconciliation}
    → reconcile previous desired full ≡ ok r
    → Perm (r.added ++ (r.updated ++ r.unchanged)) (map id_of desired)
      × Perm (map id_of r.write) (r.added ++ r.updated)
unfolding reconcile
reconcile-partition previous desired full h =
    let (q, o, e) = finish_ok-inv previous desired _ h in
    let (p, w) = decide-Partitions _ _ full desired o in
    rw e (
      Perm.trans
          (Perm.append (sorted-perm q.added)
            (Perm.append (sorted-perm q.updated) (sorted-perm q.unchanged)))
          p,
      Perm.trans (Perm.map id_of (items-perm q.write))
          (Perm.trans w (Perm.symm (Perm.append (sorted-perm q.added) (sorted-perm q.updated)))),
    )
