-- ===== src/Library/Resolve/Attempts.antt =====
-- What an attempt that is done says of the attempts it is made of.
use atrium_go.Base.{◌≡◌, refl, List, [], ◌∷◌, In, inl, inr}
use atrium_go.Library.Tools.{Attempt, done, failed, crashed, ◌>>=◌, traverse}

pub done-injective : {A : Type 0} {a b : A} → done a ≡ done b → a ≡ b
done-injective h = cc

module _ {A B : Type 0} where
  pub done_of :
      (m : Attempt A) (f : A → Attempt B) {b : B}
      → (m >>= f) ≡ done b
      → (a : A) × (m ≡ done a) × (f a ≡ done b)
  done_of (done a) f h = (a, refl, h)
  done_of (failed e) f h = cc
  done_of crashed f h = cc

module _ {A B : Type 0} where
  -- A traversal that is done did each element, and kept what each gave.
  pub traverse_of :
      (f : A → Attempt B) (x : A) (xs : List A) {ys : List B}
      → traverse f (x ∷ xs) ≡ done ys
      → (b : B) × (bs : List B) × (f x ≡ done b) × (traverse f xs ≡ done bs) × (ys ≡ b ∷ bs)
  unfolding traverse
  traverse_of f x xs h =
      let (b, e, h1) = done_of (f x) (λ b. traverse f xs >>= λ bs. done (b ∷ bs)) h in
      let (bs, k, h2) = done_of (traverse f xs) (λ bs. done (b ∷ bs)) h1 in (b, bs, e, k, cc)

  pub traverse-In :
      (f : A → Attempt B) (xs : List A) {ys : List B} (y : B)
      → traverse f xs ≡ done ys
      → In y ys
      → (x : A) × In x xs × (f x ≡ done y)
  unfolding traverse
  traverse-In f [] {ys} y h k = elim (rw (nothing h) at k) [ ]
    where
      nothing : done [] ≡ done ys → ys ≡ []
      nothing e = cc
  traverse-In f (x ∷ xs) {ys} y h k =
      let (b, bs, e, rest, shape) = traverse_of f x xs h in
      elim (rw shape at k) [
        | inl same ↦ (x, inl refl, cc)
        | inr there ↦ let (z, i, r) = traverse-In f xs y rest there in (z, inr i, r)
      ]
