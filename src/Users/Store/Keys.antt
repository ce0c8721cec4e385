-- ===== src/Users/Store/Keys.antt =====
-- The account table keeps its two keys, and an account that a key finds is the one row that a
-- statement on its identifier changes.
use atrium_go.Base.{
  ◌⊎◌, ◌≢◌, In, ◌≡◌, refl, inl, inr, Bool, true, false, none, some, List, [], ◌∷◌, ◌++◌, arith, All,
  All-append, Bool-cases, Option-cases,
}
use atrium_go.Ports.Accounts.{User}
use atrium_go.Text.Laws.{str_eq_refl, str_eq_iff}
use atrium_go.Text.{Text, str_eq}
use atrium_go.Users.Store.{Accounts, by_id, by_fold, find_user, update_users, affected, create_user}

str_eq-sym : (a b : Text) → str_eq a b ≡ false → str_eq b a ≡ false
str_eq-sym a b h = ground (arith, str_eq_iff a b, str_eq_iff b a)

module _ {Document : Type 0} where
  abbrev pub row_id : User Document → Text
  row_id u = u.id

  abbrev pub row_fold : User Document → Text
  row_fold u = u.username_folded

  -- No two rows agree on a key.
  abbrev pub OneOfEach : (User Document → Text) → List (User Document) → Type 0
  OneOfEach key [] = Unit
  OneOfEach key (u ∷ us) = All (λ v. str_eq (key v) (key u) ≡ false) us × OneOfEach key us

  -- The primary key and the unique column.
  pub record Keyed (s : Accounts Document) : Type 0 where
    pub ids : OneOfEach row_id s.users
    pub folds : OneOfEach row_fold s.users

  pub find_user-matches :
      (matches : User Document → Bool) (us : List (User Document)) {u : User Document}
      → find_user matches us ≡ some u
      → matches u ≡ true
  unfolding find_user
  find_user-matches matches [] h = cc
  find_user-matches matches (v ∷ us) h = elim (Bool-cases (matches v)) [
    | inl e ↦ ground arith
    | inr e ↦ find_user-matches matches us (ground arith)
  ]

  affected-zero :
      (k : Text) (us : List (User Document))
      → All (λ v. str_eq v.id k ≡ false) us
      → affected k us ≡ 0
  unfolding affected
  affected-zero k [] a = refl
  affected-zero k (u ∷ us) a = ground (arith, affected-zero k us a.1)

  find_user-In :
      (matches : User Document → Bool) (us : List (User Document)) {u : User Document}
      → find_user matches us ≡ some u
      → In u us
  unfolding find_user
  find_user-In matches [] h = cc
  find_user-In matches (v ∷ us) h = elim (Bool-cases (matches v)) [
    | inl e ↦ inl (same (rw e at h))
    | inr e ↦ inr (find_user-In matches us (rw e at h))
  ]
    where
      same : {u : User Document} → some v ≡ some u → u ≡ v
      same e = cc

  absent-find :
      (matches : User Document → Bool) (k : Text) (us : List (User Document)) (u : User Document)
      → All (λ v. str_eq v.id k ≡ false) us
      → find_user matches us ≡ some u
      → str_eq u.id k ≡ false
  unfolding find_user
  absent-find matches k [] u a h = cc
  absent-find matches k (v ∷ us) u a h = elim (Bool-cases (matches v)) [
    | inl e ↦ ground arith
    | inr e ↦ absent-find matches k us u a.1 (ground arith)
  ]

  -- A row that a query finds is the only one of its identifier.
  pub affected-find :
      (matches : User Document → Bool) (us : List (User Document)) {u : User Document}
      → OneOfEach row_id us
      → find_user matches us ≡ some u
      → affected u.id us ≡ 1
  unfolding find_user affected
  affected-find matches [] o h = cc
  affected-find matches (v ∷ us) {u} o h = elim (Bool-cases (matches v)) [
    | inl e ↦ ground (arith, str_eq_refl v.id, affected-zero v.id us o.0)
    | inr e ↦ ground (
      arith,
      str_eq_iff v.id u.id,
      str_eq_iff u.id v.id,
      absent-find matches v.id us u o.0,
      affected-find matches us {u = u} o.1,
    )
  ]

  -- The identifier of a row that a query finds leads back to it.
  pub find-by_id :
      (matches : User Document → Bool) (us : List (User Document)) (u : User Document)
      → OneOfEach row_id us
      → find_user matches us ≡ some u
      → find_user (by_id u.id) us ≡ some u
  unfolding find_user
  find-by_id matches [] u o h = cc
  find-by_id matches (v ∷ us) u o h = elim (Bool-cases (matches v)) [
    | inl e ↦ ground (arith, str_eq_refl v.id)
    | inr e ↦ ground (
      arith,
      str_eq_iff v.id u.id,
      str_eq_iff u.id v.id,
      absent-find matches v.id us u o.0,
      find-by_id matches us u o.1,
    )
  ]

  -- A query on a key that the update leaves alone finds the updated row.
  pub find-update :
      (matches : User Document → Bool) (f : User Document → User Document)
      (us : List (User Document)) {u : User Document}
      → ((v : User Document) → matches (f v) ≡ matches v)
      → find_user matches us ≡ some u
      → find_user matches (update_users u.id f us) ≡ some (f u)
  unfolding find_user update_users
  find-update matches f [] e h = cc
  find-update matches f (v ∷ us) {u} e h = elim (Bool-cases (matches v)) [
    | inl m ↦ ground (arith, str_eq_refl v.id, e v)
    | inr m ↦ ground (arith, e v, find-update matches f us {u = u} e)
  ]

  All-absent :
      (key : User Document → Text) (j : Text) (us : List (User Document))
      → find_user (λ v. str_eq (key v) j) us ≡ none
      → All (λ v. str_eq (key v) j ≡ false) us
  unfolding find_user
  All-absent key j [] h = tt
  All-absent key j (u ∷ us) h = (ground arith, All-absent key j us (ground arith))

  OneOfEach-concat :
      (key : User Document → Text) (us : List (User Document)) (u : User Document)
      → OneOfEach key us
      → All (λ v. str_eq (key v) (key u) ≡ false) us
      → OneOfEach key (us ++ u ∷ [])
  OneOfEach-concat key [] u h a = (tt, tt)
  OneOfEach-concat key (v ∷ us) u h a = (
    All-append (λ w. str_eq (key w) (key v) ≡ false) us (u ∷ []) h.0
        (str_eq-sym (key v) (key u) a.0, tt),
    OneOfEach-concat key us u h.1 a.1,
  )

  -- No row of the store has the identifier or the folded name of the account.
  abbrev pub Fresh : User Document → Accounts Document → Type 0
  Fresh u s =
      All (λ v. str_eq v.id u.id ≡ false) s.users
      × All (λ v. str_eq v.username_folded u.username_folded ≡ false) s.users

  -- A row of the store has one of them.
  abbrev pub Taken : User Document → Accounts Document → Type 0
  Taken u s =
      (v : User Document) × In v s.users × ((v.id ≡ u.id) ⊎ (v.username_folded ≡ u.username_folded))

  create_user-none :
      (u : User Document) (s : Accounts Document)
      → (find_user (by_id u.id) s.users ≢ none)
        ⊎ (find_user (by_fold u.username_folded) s.users ≢ none)
      → create_user u s ≡ none
  unfolding create_user
  create_user-none u s h = ground arith

  create_user-some :
      (u : User Document) (s : Accounts Document)
      → find_user (by_id u.id) s.users ≡ none
      → find_user (by_fold u.username_folded) s.users ≡ none
      → create_user u s ≡ some (record s { users = s.users ++ u ∷ [] })
  unfolding create_user
  create_user-some u s p q = ground arith

  -- `CreateUser` either refuses, where a row has the identifier or the folded name of the account,
  -- or appends the account's row and changes nothing else, where no row has either; the identifiers
  -- and the folded names, unique before, then stay unique.
  pub create_user-Keyed :
      (u : User Document) (s : Accounts Document)
      → Keyed s
      → ((create_user u s ≡ none) × Taken u s)
        ⊎ ((t : Accounts Document) × (create_user u s ≡ some t)
            × Fresh u s
            × (t ≡ record s { users = s.users ++ u ∷ [] })
            × Keyed t)
  create_user-Keyed u s h = elim (Option-cases (find_user (by_id u.id) s.users)) [
    | inr (v, p) ↦
        let e = (str_eq_iff v.id u.id).0 (find_user-matches (by_id u.id) s.users p) in
        inl (create_user-none u s (inl (λ e. cc)), (v, find_user-In (by_id u.id) s.users p, inl e))
    | inl p ↦ elim (Option-cases (find_user (by_fold u.username_folded) s.users)) [
      | inr (v, q) ↦
          let e =
            (str_eq_iff v.username_folded u.username_folded).0
              (find_user-matches (by_fold u.username_folded) s.users q) in
          inl (
            create_user-none u s (inr (λ e. cc)),
            (v, find_user-In (by_fold u.username_folded) s.users q, inr e),
          )
      | inl q ↦
          let no_id = All-absent row_id u.id s.users p in
          let no_fold = All-absent row_fold u.username_folded s.users q in
          inr (
            record s { users = s.users ++ u ∷ [] },
            create_user-some u s p q,
            (no_id, no_fold),
            refl,
            record {
              ids = OneOfEach-concat row_id s.users u h.ids no_id;
              folds = OneOfEach-concat row_fold s.users u h.folds no_fold;
            },
          )
    ]
  ]
