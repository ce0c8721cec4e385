-- ===== src/Users/Store/Listing.antt =====
-- The accounts as they are listed.
use mathlib.Core.List.{Perm}
use atrium_go.Base.{◌≡◌, true, false, arith, if◌then◌else◌}
use atrium_go.Ports.Accounts.{User}
use atrium_go.Sorting.{IsSorted, sort_by-IsSorted, sort_by-perm}
use atrium_go.Text.Laws.{str_lt_asym, str_lt_weak, str_lt_connected, str_eq_iff, str_lt_irrefl}
use atrium_go.Text.{Text, str_eq, str_lt}
use atrium_go.Users.Store.{Accounts, list_users, listed_before}

module _ {Document : Type 0} where
  listed_before_asym : (a b : User Document) → listed_before a b ≡ true → listed_before b a ≡ false
  listed_before_asym a b h = pairs a.username_folded b.username_folded a.id b.id h
    where
      pairs :
          (x y i j : Text)
          → (if str_eq x y then str_lt i j else str_lt x y) ≡ true
          → (if str_eq y x then str_lt j i else str_lt y x) ≡ false
      pairs x y i j h =
          ground (
            arith,
            str_lt_asym i j,
            str_lt_asym x y,
            str_eq_iff x y,
            str_eq_iff y x,
            str_lt_irrefl x,
          )

  listed_before_weak :
      (a b c : User Document)
      → listed_before b a ≡ false
      → listed_before c b ≡ false
      → listed_before c a ≡ false
  listed_before_weak a b c h k =
      pairs a.username_folded b.username_folded c.username_folded a.id b.id c.id h k
    where
      pairs :
          (x y z i j l : Text)
          → (if str_eq y x then str_lt j i else str_lt y x) ≡ false
          → (if str_eq z y then str_lt l j else str_lt z y) ≡ false
          → (if str_eq z x then str_lt l i else str_lt z x) ≡ false
      pairs x y z i j l h k = ground (
        arith,
        str_lt_weak i j l,
        str_lt_weak x y z,
        str_eq_iff y x,
        str_eq_iff z y,
        str_eq_iff z x,
        str_lt_connected x y,
        str_lt_asym y z,
        str_lt_asym z y,
      )

  -- The accounts are listed by folded username and, of one folded username, by identifier; the list
  -- is a permutation of the table.
  pub list_users-IsSorted :
      (s : Accounts Document) → IsSorted listed_before (list_users s) × Perm (list_users s) s.users
  unfolding list_users
  list_users-IsSorted s = (
    sort_by-IsSorted listed_before listed_before_asym listed_before_weak s.users,
    sort_by-perm listed_before s.users,
  )
