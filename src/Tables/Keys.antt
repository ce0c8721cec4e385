-- ===== src/Tables/Keys.antt =====
-- Keys of a table: a column on which no two rows agree, and what the statements do to it.
use mathlib.Core.Path.{subst}
use atrium_go.Base.{
  ◌≡◌, refl, inl, inr, Bool, true, false, none, some, List, [], ◌∷◌, ◌++◌, arith, if◌then◌else◌,
  All, All-append, Bool-cases,
}
use atrium_go.Tables.{find_row, update_rows, delete_rows, any_row}
use atrium_go.Text.Laws.{str_eq_iff}
use atrium_go.Text.{Text, str_eq}

pub str_eq_sym : (a b : Text) → str_eq a b ≡ str_eq b a
str_eq_sym a b = ground (arith, str_eq_iff a b, str_eq_iff b a)

module _ {Row : Type 0} where
  -- A row that has the key.
  abbrev pub has : (Row → Text) → Text → Row → Bool
  has key k r = str_eq (key r) k

  -- No two rows agree on the key.
  abbrev pub Unique : (Row → Text) → List Row → Type 0
  Unique key [] = Unit
  Unique key (r ∷ rs) = All (λ s. str_eq (key s) (key r) ≡ false) rs × Unique key rs

  pub any_row-find_row :
      (wanted : Row → Bool) (rs : List Row) → any_row wanted rs ≡ false → find_row wanted rs ≡ none
  unfolding any_row find_row
  any_row-find_row wanted [] h = refl
  any_row-find_row wanted (r ∷ rs) h = ground (arith, any_row-find_row wanted rs)

  -- A statement that leaves the key alone.
  All-update_rows :
      (key : Row → Text) (wanted : Row → Bool) (f : Row → Row) (k : Text) (rs : List Row)
      → ((r : Row) → key (f r) ≡ key r)
      → All (λ s. str_eq (key s) k ≡ false) rs
      → All (λ s. str_eq (key s) k ≡ false) (update_rows wanted f rs)
  unfolding update_rows
  All-update_rows key wanted f k [] e a = tt
  All-update_rows key wanted f k (r ∷ rs) e a =
      (ground (arith, e r), All-update_rows key wanted f k rs e a.1)

  key-update :
      (key : Row → Text) (f : Row → Row) (b : Bool) (r : Row)
      → key (f r) ≡ key r
      → key (if b then f r else r) ≡ key r
  key-update key f true r e = e
  key-update key f false r e = refl

  pub update_rows-Unique :
      (key : Row → Text) (wanted : Row → Bool) (f : Row → Row) (rs : List Row)
      → ((r : Row) → key (f r) ≡ key r)
      → Unique key rs
      → Unique key (update_rows wanted f rs)
  unfolding update_rows
  update_rows-Unique key wanted f [] e h = tt
  update_rows-Unique key wanted f (r ∷ rs) e h = (
    rw (key-update key f (wanted r) r (e r)) (All-update_rows key wanted f (key r) rs e h.0),
    update_rows-Unique key wanted f rs e h.1,
  )

  pub All-delete_rows {κ} :
      (P : Row → Type κ) (wanted : Row → Bool) (rs : List Row)
      → All P rs
      → All P (delete_rows wanted rs)
  unfolding delete_rows
  All-delete_rows P wanted [] h = tt
  All-delete_rows P wanted (r ∷ rs) h = elim (Bool-cases (wanted r)) [
    | inl e ↦ rw e (All-delete_rows P wanted rs h.1)
    | inr e ↦ rw e (h.0, All-delete_rows P wanted rs h.1)
  ]

  pub delete_rows-Unique :
      (key : Row → Text) (wanted : Row → Bool) (rs : List Row)
      → Unique key rs
      → Unique key (delete_rows wanted rs)
  unfolding delete_rows
  delete_rows-Unique key wanted [] h = tt
  delete_rows-Unique key wanted (r ∷ rs) h = elim (Bool-cases (wanted r)) [
    | inl e ↦ rw e (delete_rows-Unique key wanted rs h.1)
    | inr e ↦ rw e (All-delete_rows _ wanted rs h.0, delete_rows-Unique key wanted rs h.1)
  ]

  any_row-All :
      (key : Row → Text) (k : Text) (rs : List Row)
      → any_row (has key k) rs ≡ false
      → All (λ s. str_eq (key s) k ≡ false) rs
  unfolding any_row
  any_row-All key k [] h = tt
  any_row-All key k (r ∷ rs) h = (ground arith, any_row-All key k rs (ground arith))

  -- A row whose key is new.
  pub append-Unique :
      (key : Row → Text) (rs : List Row) (r : Row)
      → any_row (has key (key r)) rs ≡ false
      → Unique key rs
      → Unique key (rs ++ r ∷ [])
  unfolding any_row
  append-Unique key [] r h k = (tt, tt)
  append-Unique key (s ∷ rs) r h k = (
    All-append (λ t. str_eq (key t) (key s) ≡ false) rs (r ∷ []) k.0
        (ground (arith, str_eq_sym (key r) (key s)), tt),
    append-Unique key rs r (ground arith) k.1,
  )

  -- Reading by a key after each statement.
  pub find_row-append :
      (wanted : Row → Bool) (rs : List Row) (r : Row)
      → find_row wanted (rs ++ r ∷ [])
        ≡ elim (find_row wanted rs) [ some s ↦ some s | none ↦ if wanted r then some r else none ]
  unfolding find_row
  find_row-append wanted [] r = refl
  find_row-append wanted (s ∷ rs) r = ground (arith, find_row-append wanted rs r)

  find_row-none :
      (key : Row → Text) (k : Text) (rs : List Row)
      → All (λ s. str_eq (key s) k ≡ false) rs
      → find_row (has key k) rs ≡ none
  unfolding find_row
  find_row-none key k [] h = refl
  find_row-none key k (r ∷ rs) h = rw h.0 (find_row-none key k rs h.1)

  find_row-deleted :
      (gone : Row → Bool) (key : Row → Text) (k : Text) (r : Row) (rs : List Row)
      → str_eq (key r) k ≡ true
      → All (λ s. str_eq (key s) (key r) ≡ false) rs
      → find_row (has key k) (delete_rows gone rs) ≡ none
  find_row-deleted gone key k r rs e h = find_row-none key k (delete_rows gone rs) (
      All-delete_rows (λ s. str_eq (key s) k ≡ false) gone rs
        (subst (λ (t : Text). All (λ s. str_eq (key s) t ≡ false) rs) ((str_eq_iff (key r) k).0 e)
          h))

  pub find_row-delete_rows :
      (gone : Row → Bool) (key : Row → Text) (k : Text) (rs : List Row)
      → Unique key rs
      → find_row (has key k) (delete_rows gone rs)
        ≡ elim (find_row (has key k) rs) [ none ↦ none | some r ↦ if gone r then none else some r ]
  unfolding find_row delete_rows
  find_row-delete_rows gone key k [] h = refl
  find_row-delete_rows gone key k (r ∷ rs) h = elim (Bool-cases (str_eq (key r) k)) [
    | inl e ↦ ground (arith, find_row-deleted gone key k r rs e h.0)
    | inr e ↦ ground (arith, find_row-delete_rows gone key k rs h.1)
  ]

  -- A statement that changes neither the key nor which rows it picks.
  pub find_row-update_rows :
      (wanted : Row → Bool) (f : Row → Row) (key : Row → Text) (k : Text) (rs : List Row)
      → ((r : Row) → key (f r) ≡ key r)
      → find_row (has key k) (update_rows wanted f rs) ≡ elim (find_row (has key k) rs) [
        | none ↦ none
        | some r ↦ some (if wanted r then f r else r)
      ]
  unfolding find_row update_rows
  find_row-update_rows wanted f key k [] e = refl
  find_row-update_rows wanted f key k (r ∷ rs) e =
      ground (arith, e r, find_row-update_rows wanted f key k rs e)

  pub find_row-has :
      (wanted : Row → Bool) (rs : List Row) {r : Row}
      → find_row wanted rs ≡ some r
      → wanted r ≡ true
  unfolding find_row
  find_row-has wanted [] h = cc
  find_row-has wanted (s ∷ rs) h = elim (Bool-cases (wanted s)) [
    | inl e ↦ ground arith
    | inr e ↦ find_row-has wanted rs (rw e at h)
  ]
