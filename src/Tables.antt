-- ===== src/Tables.antt =====
-- A table of the database as the list of its rows, in the order of insertion, and the statements
-- that the stores of internal/store/sqlite run on it.
pub mod Keys
pub mod Members
use atrium_go.Base.{ℕ, ◌+◌, Bool, true, false, Option, none, some, List, [], ◌∷◌, if◌then◌else◌}

module _ {Row : Type 0} where
  -- `SELECT … WHERE`, of which a key allows one row.
  unfoldable pub find_row : (Row → Bool) → List Row → Option Row
  find_row wanted [] = none
  find_row wanted (r ∷ rs) = if wanted r then some r else find_row wanted rs

  -- `UPDATE … WHERE`.
  unfoldable pub update_rows : (Row → Bool) → (Row → Row) → List Row → List Row
  update_rows wanted f [] = []
  update_rows wanted f (r ∷ rs) = (if wanted r then f r else r) ∷ update_rows wanted f rs

  -- `DELETE … WHERE`.
  unfoldable pub delete_rows : (Row → Bool) → List Row → List Row
  delete_rows wanted [] = []
  delete_rows wanted (r ∷ rs) =
      let rest = delete_rows wanted rs in if wanted r then rest else r ∷ rest

  -- `RowsAffected`.
  unfoldable pub count_rows : (Row → Bool) → List Row → ℕ
  count_rows wanted [] = 0
  count_rows wanted (r ∷ rs) = (if wanted r then 1 else 0) + count_rows wanted rs

  -- Whether a row is there, as a foreign key and a unique column ask.
  unfoldable pub any_row : (Row → Bool) → List Row → Bool
  any_row wanted [] = false
  any_row wanted (r ∷ rs) = let rest = any_row wanted rs in if wanted r then true else rest
