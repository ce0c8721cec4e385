-- ===== src/Base/Totals.antt =====
-- Sums over lists of what each element weighs.
use Prim.Native.Nat.{ℕ, ◌+◌}
use mathlib.Core.Path.{◌≡◌, refl}
use mathlib.Core.List.{List, [], ◌∷◌, ◌++◌, map}
use native.Mathlib.Omega.{arith}

module _ {A : Type 0} where
  abbrev pub total : (A → ℕ) → List A → ℕ
  total weight [] = 0
  total weight (x ∷ xs) = weight x + total weight xs

  pub total-append :
      (weight : A → ℕ) (xs ys : List A)
      → total weight (xs ++ ys) ≡ total weight xs + total weight ys
  total-append weight [] ys = omega arith
  total-append weight (x ∷ xs) ys = omega (arith, total-append weight xs ys)

  pub total_zero : (weight : A → ℕ) (xs : List A) → ((x : A) → weight x ≡ 0) → total weight xs ≡ 0
  total_zero weight [] h = refl
  total_zero weight (x ∷ xs) h = omega (arith, h x, total_zero weight xs h)

  pub total_same :
      (first second : A → ℕ) (xs : List A)
      → ((x : A) → first x ≡ second x)
      → total first xs ≡ total second xs
  total_same first second [] h = refl
  total_same first second (x ∷ xs) h = omega (arith, h x, total_same first second xs h)

module _ {A B : Type 0} where
  pub total-map :
      (weight : B → ℕ) (f : A → B) (xs : List A)
      → total weight (map f xs) ≡ total (λ x. weight (f x)) xs
  total-map weight f [] = refl
  total-map weight f (x ∷ xs) = omega (arith, total-map weight f xs)
