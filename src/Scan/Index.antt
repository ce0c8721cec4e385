-- ===== src/Scan/Index.antt =====
-- The two maps that `Reconcile` builds hold previous rows under their own keys, and miss none.
use atrium_go.Base.{
  ◌≡◌, refl, sym, ap, ◌⊎◌, inl, inr, ◌∙◌, ◌≢◌, true, false, ◌&&◌, Option, none, some, List, [], ◌∷◌,
  arith, In, Bool-cases, &&-true,
}
use atrium_go.Base.Int.{eqb_ℤ, eq_of_parts}
use atrium_go.Ports.Items.{ScannedItem}
use atrium_go.Scan.{
  PathKey, key_of, same_key, by_id_from, by_path_from, set_id, set_path, is_present,
}
use atrium_go.Text.Laws.{str_eq_iff}
use atrium_go.Text.{Text, str_eq, nonempty}

by_id_from-some :
    (m : Text → Option ScannedItem) (xs : List ScannedItem) (k : Text) {s : ScannedItem}
    → by_id_from m xs k ≡ some s
    → (m k ≡ some s) ⊎ (In s xs × (s.id ≡ k))
unfolding by_id_from
by_id_from-some m [] k h = inl h
by_id_from-some m (x ∷ xs) k h = elim (by_id_from-some (set_id m x) xs k h) [
  | inr (i, e) ↦ inr (inr i, e)
  | inl e ↦ elim (Bool-cases (str_eq x.id k)) [
    | inl t ↦ inr (inl (ground arith), ground (arith, str_eq_iff x.id k))
    | inr f ↦ inl (ground arith)
  ]
]

by_id_from-none :
    (m : Text → Option ScannedItem) (xs : List ScannedItem) (k : Text) (x : ScannedItem)
    → by_id_from m xs k ≡ none
    → (m k ≡ none) × (In x xs → x.id ≢ k)
unfolding by_id_from
by_id_from-none m [] k x h = (h, λ i. elim i [ ])
by_id_from-none m (y ∷ ys) k x h =
    let (e, r) = by_id_from-none (set_id m y) ys k x h in
    elim (Bool-cases (str_eq y.id k)) [
      | inl t ↦ ground arith
      | inr f ↦
          (ground arith, λ i. elim i [ inl p ↦ ground (arith, str_eq_iff y.id k) | inr j ↦ r j ])
    ]

abbrev pub by_id : List ScannedItem → Text → Option ScannedItem
by_id = by_id_from (λ _. none)

abbrev pub by_path : List ScannedItem → PathKey → Option ScannedItem
by_path = by_path_from (λ _. none)

pub by_id-some :
    (xs : List ScannedItem) (k : Text) {s : ScannedItem}
    → by_id xs k ≡ some s
    → In s xs × (s.id ≡ k)
by_id-some xs k h = elim (by_id_from-some _ xs k h) [ inl e ↦ cc | inr p ↦ p ]

pub by_id-none :
    (xs : List ScannedItem) (k : Text) (x : ScannedItem) → by_id xs k ≡ none → In x xs → x.id ≢ k
by_id-none xs k x h = (by_id_from-none _ xs k x h).1

same_key-eq : (a b : PathKey) → same_key a b ≡ true → a ≡ b
unfolding same_key
same_key-eq a b h =
    let (r, p) = &&-true (eqb_ℤ a.root b.root) (str_eq a.path b.path) h in
    let e : a.root ≡ b.root = eq_of_parts a.root b.root (ground arith) in
    let f : a.path ≡ b.path = (str_eq_iff a.path b.path).0 p in
    λ i. record { root = e i; path = f i }

by_path_from-some :
    (m : PathKey → Option ScannedItem) (xs : List ScannedItem) (k : PathKey) {s : ScannedItem}
    → by_path_from m xs k ≡ some s
    → (m k ≡ some s) ⊎ (In s xs × (key_of s ≡ k) × (nonempty s.path ≡ true))
unfolding by_path_from
by_path_from-some m [] k h = inl h
by_path_from-some m (x ∷ xs) k {s} h = elim (by_path_from-some (set_path m x) xs k h) [
  | inr (i, e, n) ↦ inr (inr i, e, n)
  | inl e ↦ elim (Bool-cases (nonempty x.path && same_key (key_of x) k)) [
    | inl t ↦
        let (n, w) = &&-true (nonempty x.path) (same_key (key_of x) k) t in
        let x-eq-s : x ≡ s = ground arith in
        inr (inl (sym x-eq-s), ap key_of (sym x-eq-s) ∙ same_key-eq _ _ w, ground arith)
    | inr f ↦ inl (ground arith)
  ]
]

pub by_path-some :
    (xs : List ScannedItem) (k : PathKey) {s : ScannedItem}
    → by_path xs k ≡ some s
    → In s xs × (key_of s ≡ k) × (nonempty s.path ≡ true)
by_path-some xs k h = elim (by_path_from-some _ xs k h) [ inl e ↦ cc | inr p ↦ p ]

pub is_present-In :
    (xs : List ScannedItem) (k : Text)
    → is_present xs k ≡ true
    → (x : ScannedItem) × In x xs × (x.id ≡ k)
unfolding is_present
is_present-In [] k h = cc
is_present-In (x ∷ xs) k h = elim (Bool-cases (str_eq x.id k)) [
  | inl e ↦ (x, inl refl, (str_eq_iff x.id k).0 e)
  | inr f ↦ let (y, i, e) = is_present-In xs k (ground arith) in (y, inr i, e)
]

pub is_present-false :
    (xs : List ScannedItem) (k : Text) (x : ScannedItem)
    → is_present xs k ≡ false
    → In x xs
    → x.id ≢ k
unfolding is_present
is_present-false [] k x h i = elim i [ ]
is_present-false (y ∷ ys) k x h (inl e) = ground (arith, str_eq_iff y.id k)
is_present-false (y ∷ ys) k x h (inr i) = is_present-false ys k x (ground arith) i
