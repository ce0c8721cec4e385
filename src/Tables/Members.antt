-- ===== src/Tables/Members.antt =====
-- What a row that is found, or changed, has to do with the rows.
use atrium_go.Base.{
  arith, ◌++◌, ◌≡◌, inl, inr, Bool, true, some, List, [], ◌∷◌, Bool-cases, In, if◌then◌else◌,
}
use atrium_go.Tables.{find_row, update_rows, any_row}

module _ {Row : Type 0} where
  pub find_row-In :
      (wanted : Row → Bool) (rows : List Row) {r : Row}
      → find_row wanted rows ≡ some r
      → In r rows × (wanted r ≡ true)
  unfolding find_row
  find_row-In wanted [] h = cc
  find_row-In wanted (x ∷ xs) {r} h = elim (Bool-cases (wanted x)) [
    | inl e ↦ found (rw e at h) e
    | inr e ↦ let (k, w) = find_row-In wanted xs {r = r} (rw e at h) in (inr k, w)
  ]
    where
      found : some x ≡ some r → wanted x ≡ true → In r (x ∷ xs) × (wanted r ≡ true)
      found k e = (inl cc, cc)

  pub update_rows-In :
      (wanted : Row → Bool) (f : Row → Row) (r : Row) (rows : List Row)
      → In r rows
      → In (if wanted r then f r else r) (update_rows wanted f rows)
  unfolding update_rows
  update_rows-In wanted f r [] h = elim h [ ]
  update_rows-In wanted f r (x ∷ xs) (inl e) = inl (cc e)
  update_rows-In wanted f r (x ∷ xs) (inr h) = inr (update_rows-In wanted f r xs h)

  pub any_row-found :
      (wanted : Row → Bool) (rows : List Row)
      → any_row wanted rows ≡ true
      → (r : Row) × (find_row wanted rows ≡ some r)
  unfolding any_row find_row
  any_row-found wanted [] h = cc
  any_row-found wanted (r ∷ rs) h = elim (Bool-cases (wanted r)) [
    | inl e ↦ (r, rw e)
    | inr e ↦ let (s, k) = any_row-found wanted rs (rw e at h) in (s, rw e k)
  ]

  pub any_row-append :
      (wanted : Row → Bool) (rows others : List Row)
      → any_row wanted rows ≡ true
      → any_row wanted (rows ++ others) ≡ true
  unfolding any_row
  any_row-append wanted [] others h = cc
  any_row-append wanted (r ∷ rs) others h = elim (Bool-cases (wanted r)) [
    | inl e ↦ rw e
    | inr e ↦ rw e (any_row-append wanted rs others (rw e at h))
  ]

  pub any_row-append_new :
      (wanted : Row → Bool) (rows : List Row) (r : Row)
      → wanted r ≡ true
      → any_row wanted (rows ++ r ∷ []) ≡ true
  unfolding any_row
  any_row-append_new wanted [] r h = rw h
  any_row-append_new wanted (s ∷ rs) r h = elim (Bool-cases (wanted s)) [
    | inl e ↦ rw e
    | inr e ↦ rw e (any_row-append_new wanted rs r h)
  ]

  pub any_row-update_rows :
      (wanted changed : Row → Bool) (f : Row → Row) (rows : List Row)
      → ((r : Row) → wanted (f r) ≡ wanted r)
      → any_row wanted rows ≡ true
      → any_row wanted (update_rows changed f rows) ≡ true
  unfolding any_row update_rows
  any_row-update_rows wanted changed f [] same h = h
  any_row-update_rows wanted changed f (r ∷ rs) same h =
      ground (arith, same r, any_row-update_rows wanted changed f rs same)

  pub find_row-any :
      (wanted : Row → Bool) (rows : List Row) {r : Row}
      → find_row wanted rows ≡ some r
      → any_row wanted rows ≡ true
  unfolding find_row any_row
  find_row-any wanted [] h = cc
  find_row-any wanted (s ∷ rs) h = elim (Bool-cases (wanted s)) [
    | inl e ↦ rw e
    | inr e ↦ rw e (find_row-any wanted rs (rw e at h))
  ]

  pub find_row-there :
      (wanted : Row → Bool) (r : Row) (rows : List Row)
      → In r rows
      → wanted r ≡ true
      → (s : Row) × (find_row wanted rows ≡ some s)
  unfolding find_row
  find_row-there wanted r [] i h = elim i [ ]
  find_row-there wanted r (x ∷ xs) (inl e) h = (x, rw (← e, h))
  find_row-there wanted r (x ∷ xs) (inr i) h = elim (Bool-cases (wanted x)) [
    | inl e ↦ (x, rw e)
    | inr e ↦ let (s, k) = find_row-there wanted r xs i h in (s, rw e k)
  ]
