-- ===== src/Sorting.antt =====
-- A stable sort by a `less` test, for the source's calls of sort.SliceStable, sort.Strings and
-- slices.SortFunc. Insertion keeps elements that neither precede the other in their order.
use mathlib.Core.List.{Perm}
use mathlib.Core.List.Perm
use atrium_go.Base.{
  ◌≡◌, refl, inl, inr, ◌↔◌, Bool, true, false, List, [], ◌∷◌, arith, if◌then◌else◌, Bool-cases, All,
  In, length, total, ℕ, ◌+◌,
}

module _ {A : Type 0} (less : A → A → Bool) where
  unfoldable pub insert : A → List A → List A
  insert x [] = x ∷ []
  insert x (y ∷ ys) = if less y x then y ∷ insert x ys else x ∷ y ∷ ys

  unfoldable pub sort_by : List A → List A
  unfolding insert
  sort_by [] = []
  sort_by (x ∷ xs) = insert x (sort_by xs)

  -- No element precedes one that stands before it.
  abbrev pub IsSorted : List A → Type 0
  IsSorted [] = Unit
  IsSorted (x ∷ xs) = All (λ y. less y x ≡ false) xs × IsSorted xs

  insert-perm : (x : A) (xs : List A) → Perm (insert x xs) (x ∷ xs)
  unfolding insert
  insert-perm x [] = Perm.refl (x ∷ [])
  insert-perm x (y ∷ ys) = elim (Bool-cases (less y x)) [
    | inl e ↦ rw e (Perm.trans (Perm.cons y (insert-perm x ys)) (Perm.swap x y ys))
    | inr e ↦ rw e (Perm.refl (x ∷ y ∷ ys))
  ]

  pub sort_by-perm : (xs : List A) → Perm (sort_by xs) xs
  unfolding sort_by
  sort_by-perm [] = Perm.refl []
  sort_by-perm (x ∷ xs) = Perm.trans (insert-perm x (sort_by xs)) (Perm.cons x (sort_by-perm xs))

  insert-total :
      (weight : A → ℕ) (x : A) (xs : List A)
      → total weight (insert x xs) ≡ weight x + total weight xs
  unfolding insert
  insert-total weight x [] = refl
  insert-total weight x (y ∷ ys) = ground (arith, insert-total weight x ys)

  pub sort_by-total : (weight : A → ℕ) (xs : List A) → total weight (sort_by xs) ≡ total weight xs
  unfolding sort_by
  sort_by-total weight [] = refl
  sort_by-total weight (x ∷ xs) =
      omega (arith, insert-total weight x (sort_by xs), sort_by-total weight xs)

  insert-In : (a x : A) (xs : List A) → In a (insert x xs) ↔ In a (x ∷ xs)
  unfolding insert
  insert-In a x [] = ground arith
  insert-In a x (y ∷ ys) = ground (arith, insert-In a x ys)

  pub sort_by-In : (a : A) (xs : List A) → In a (sort_by xs) ↔ In a xs
  unfolding sort_by
  sort_by-In a [] = ground arith
  sort_by-In a (x ∷ xs) = ground (arith, insert-In a x (sort_by xs), sort_by-In a xs)

  length-insert : (x : A) (xs : List A) → length (insert x xs) ≡ length (x ∷ xs)
  unfolding insert
  length-insert x [] = refl
  length-insert x (y ∷ ys) = ground (arith, length-insert x ys)

  pub length-sort_by : (xs : List A) → length (sort_by xs) ≡ length xs
  unfolding sort_by
  length-sort_by [] = refl
  length-sort_by (x ∷ xs) = ground (arith, length-insert x (sort_by xs), length-sort_by xs)

  -- The order under which a sorted list is sorted: `less` is asymmetric, and what does not
  -- precede is transitive.
  module _ (asym : (a b : A) → less a b ≡ true → less b a ≡ false)
      (weak : (a b c : A) → less b a ≡ false → less c b ≡ false → less c a ≡ false) where
    All-weak :
        (x y : A) (ys : List A)
        → less y x ≡ false
        → All (λ z. less z y ≡ false) ys
        → All (λ z. less z x ≡ false) ys
    All-weak x y [] h k = tt
    All-weak x y (z ∷ zs) h k = (weak x y z h k.0, All-weak x y zs h k.1)

    All-insert :
        (x y : A) (ys : List A)
        → less x y ≡ false
        → All (λ z. less z y ≡ false) ys
        → All (λ z. less z y ≡ false) (insert x ys)
    unfolding insert
    All-insert x y [] h k = (h, tt)
    All-insert x y (z ∷ zs) h k = elim (Bool-cases (less z x)) [
      | inl e ↦ rw e (k.0, All-insert x y zs h k.1)
      | inr e ↦ rw e (h, k)
    ]

    insert-IsSorted : (x : A) (xs : List A) → IsSorted xs → IsSorted (insert x xs)
    unfolding insert
    insert-IsSorted x [] h = (tt, tt)
    insert-IsSorted x (y ∷ ys) h = elim (Bool-cases (less y x)) [
      | inl e ↦ rw e (All-insert x y ys (asym y x e) h.0, insert-IsSorted x ys h.1)
      | inr e ↦ rw e ((e, All-weak x y ys e h.0), h)
    ]

    pub sort_by-IsSorted : (xs : List A) → IsSorted (sort_by xs)
    unfolding sort_by
    sort_by-IsSorted [] = tt
    sort_by-IsSorted (x ∷ xs) = insert-IsSorted x (sort_by xs) (sort_by-IsSorted xs)
