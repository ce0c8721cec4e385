-- ===== src/Users/Store.antt =====
-- internal/store/sqlite/users.go: the account store. The state is the two tables, `users` and
-- `user_credentials`, as the lists of their rows in the order of insertion; every operation is one
-- statement or one transaction, and fails where the driver does, with nothing changed. The keys of
-- migrations/precious/0002_users_and_sessions.sql are checked where a row is inserted.
pub mod Keys
pub mod Listing
use atrium_go.Base.{
  ◌-◌, ◌^◌, ℕ, suc, ◌+◌, ◌≡◌, Bool, true, false, not, ◌&&◌, ◌||◌, Option, none, some, List, [], ◌∷◌,
  ◌++◌, map, ◌==◌, if◌then◌else◌,
}
use atrium_go.Base.Int.{ℤ, pos, ◌+ℤ◌, leb_ℤ}
use atrium_go.Ports.Accounts.{
  User, Credential, LoginOutcome, outcome_unset, failed, succeeded, locked_out,
}
use atrium_go.Ports.Items.{Time}
use atrium_go.Sorting.{sort_by}
use atrium_go.Text.{Text, str_eq, str_lt}
use atrium_go.Users.Policy.{Policy, Codec, decode_policy, document}

module _ {Document : Type 0} where
  abbrev pub by_id : Text → User Document → Bool
  by_id k u = str_eq u.id k

  abbrev pub by_fold : Text → User Document → Bool
  by_fold k u = str_eq u.username_folded k

  -- `SELECT … WHERE`, which the keys allow one row of.
  unfoldable pub find_user : (User Document → Bool) → List (User Document) → Option (User Document)
  find_user matches [] = none
  find_user matches (u ∷ us) = if matches u then some u else find_user matches us

  -- `UPDATE … WHERE id = ?`.
  unfoldable pub update_users :
      Text → (User Document → User Document) → List (User Document) → List (User Document)
  update_users k f [] = []
  update_users k f (u ∷ us) = (if by_id k u then f u else u) ∷ update_users k f us

  -- The rows that such a statement affects.
  unfoldable pub affected : Text → List (User Document) → ℕ
  affected k [] = 0
  affected k (u ∷ us) = (if by_id k u then 1 else 0) + affected k us

unfoldable pub find_credential : Text → List Credential → Option Credential
find_credential k [] = none
find_credential k (c ∷ cs) = if str_eq c.user_id k then some c else find_credential k cs

-- `INSERT … ON CONFLICT(user_id) DO UPDATE`.
unfoldable pub upsert_credential : Credential → List Credential → List Credential
upsert_credential c [] = c ∷ []
upsert_credential c (d ∷ ds) =
    if str_eq d.user_id c.user_id
    then record d { phc = c.phc; written_at = c.written_at } ∷ ds
    else d ∷ upsert_credential c ds

pub record Accounts (Document : Type 0) : Type 0 where
  pub users : List (User Document)
  pub credentials : List Credential

module _ {Document : Type 0} where
  -- `CreateUser`; the identifier and the folded name are unique.
  unfoldable pub create_user : User Document → Accounts Document → Option (Accounts Document)
  unfolding find_user
  create_user u s = elim (find_user (by_id u.id) s.users) [
    | some _ ↦ none
    | none ↦ elim (find_user (by_fold u.username_folded) s.users) [
      | some _ ↦ none
      | none ↦ some (record s { users = s.users ++ u ∷ [] })
    ]
  ]

  unfoldable pub user_by_folded_name : Text → Accounts Document → Option (User Document)
  user_by_folded_name folded s = find_user (by_fold folded) s.users

  unfoldable pub user_by_id : Text → Accounts Document → Option (User Document)
  user_by_id k s = find_user (by_id k) s.users

  -- `ORDER BY username_folded, id`, on bytes.
  abbrev pub listed_before : User Document → User Document → Bool
  listed_before a b =
      if str_eq a.username_folded b.username_folded
      then str_lt a.id b.id
      else str_lt a.username_folded b.username_folded

  -- `Users`.
  unfoldable pub list_users : Accounts Document → List (User Document)
  list_users s = sort_by listed_before s.users

  unfoldable pub credential : Text → Accounts Document → Option Credential
  credential k s = find_credential k s.credentials

  -- `ReplaceCredential`; the row refers to an account.
  unfoldable pub replace_credential :
      Text → Text → Time → Accounts Document → Option (Accounts Document)
  replace_credential k phc at s = elim (user_by_id k s) [
    | none ↦ none
    | some _ ↦ some (record s {
      credentials =
          upsert_credential (record { user_id = k; phc = phc; written_at = at }) s.credentials;
    })
  ]

  -- `updateOneUser`: a count of rows other than one is an error.
  unfoldable pub update_one_user :
      Text → (User Document → User Document) → Accounts Document → Option (Accounts Document)
  update_one_user k f s =
      if affected k s.users == 1 then some (record s { users = update_users k f s.users }) else none

  -- `ReplaceConfiguration` and `TouchActivity`.
  unfoldable pub replace_configuration :
      Text → Document → Accounts Document → Option (Accounts Document)
  unfolding update_one_user
  replace_configuration k d = update_one_user k (λ u. record u { configuration_document = d })

  unfoldable pub touch_activity : Text → Time → Accounts Document → Option (Accounts Document)
  unfolding update_one_user
  touch_activity k at = update_one_user k (λ u. record u { last_activity_at = some at })

  abbrev pub log_in : Time → User Document → User Document
  log_in at u = record u { invalid_login_attempt_count = pos 0; last_login_at = some at }

  -- The count is the largest integer that the column holds: SQLite's next is no integer, which a
  -- column of a STRICT table refuses.
  abbrev pub is_full : User Document → Bool
  is_full u = leb_ℤ (pos (2 ^ 63 - 1)) u.invalid_login_attempt_count

  -- An update that counts, of the row that was found.
  abbrev pub unless_full :
      Option (User Document) → Option (Accounts Document) → Option (Accounts Document)
  unless_full none updated = updated
  unless_full (some u) updated = if is_full u then none else updated

  -- `invalid_login_attempt_count + 1`.
  abbrev pub count_failure : User Document → User Document
  count_failure u = record u {
    invalid_login_attempt_count = u.invalid_login_attempt_count +ℤ pos 1;
  }

  abbrev pub lock_out : Document → User Document → User Document
  lock_out d u = record u {
    invalid_login_attempt_count = u.invalid_login_attempt_count +ℤ pos 1;
    policy_document = d;
  }

  module _ (json : Codec Document) where
    -- `recordLockout`: one transaction, rolled back on every error.
    unfoldable pub record_lockout : Text → Accounts Document → Option (Accounts Document)
    unfolding update_one_user
    record_lockout k s = elim (user_by_id k s) [
      | none ↦ none
      | some u ↦ elim (decode_policy json u.policy_document) [
        | none ↦ none
        | some p ↦ elim (document json (record p { is_disabled = true })) [
          | none ↦ none
          | some d ↦ unless_full (some u) (update_one_user k (lock_out d) s)
        ]
      ]
    ]

    unfoldable pub record_login_outcome :
        Text → LoginOutcome → Time → Accounts Document → Option (Accounts Document)
    unfolding record_lockout user_by_id update_one_user
    record_login_outcome k succeeded at s = update_one_user k (log_in at) s
    record_login_outcome k failed at s =
        unless_full (user_by_id k s) (update_one_user k count_failure s)
    record_login_outcome k locked_out at s = record_lockout k s
    record_login_outcome k outcome_unset at s = none
