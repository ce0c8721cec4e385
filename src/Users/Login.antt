-- ===== src/Users/Login.antt =====
-- internal/users/login.go: `Authenticate`, with every store call, every key derivation and every
-- reading of the clock in its order. The environment chooses which calls of the database driver
-- fail, the instants that the clock gives and the salts that are drawn. `strings.ToLower` folds by
-- Unicode's tables, which are a parameter. What an error message says is left out: an error is its
-- kind.
pub mod Monad
pub mod Safety
pub mod Lockout
pub mod Disclosure
pub mod Disabled
mod Tests
use atrium_go.Base.{ℕ, Bool, true, false, not, Option, none, some, if◌then◌else◌, length}
use mathlib.Core.Option
use atrium_go.Base.Int.{ℤ, pos, negsuc, ◌+ℤ◌, wrap_i64, eqb_ℤ, leb_ℤ}
use atrium_go.Ports.Accounts.{User, Credential, LoginOutcome, failed, succeeded, locked_out}
use atrium_go.Ports.Items.{Time}
use atrium_go.Text.{Text, nonempty}
use atrium_go.Users.Login.Monad.{
  World, M, Result, LoginError, credentials_refused, account_disabled, unreadable_policy,
  unreadable_credential, no_randomness, vanished, Environment, ◌>>=◌, ◌>>◌, pure, throw, read,
  write, now, count_derivation, draw_salt,
}
use atrium_go.Users.Password.{Seed, decoy_record, Crypto, verify_record, parse_record, derive}
use atrium_go.Users.Policy.{Policy, Codec, decode_policy}
use atrium_go.Users.Store.{
  Accounts, user_by_folded_name, user_by_id, credential, replace_credential, record_login_outcome,
}

abbrev pub default_lockout_threshold : ℤ
default_lockout_threshold = pos 3

-- `lockoutThreshold`; none is the answer that does not lock.
unfoldable pub lockout_threshold : ℤ → Option ℤ
lockout_threshold n =
    if eqb_ℤ n (negsuc 0)
    then none
    else if eqb_ℤ n (pos 0)
    then some default_lockout_threshold
    else some n

unfoldable pub failure_outcome : Policy → LoginOutcome
unfolding lockout_threshold
failure_outcome p = elim (lockout_threshold p.login_attempts_before_lockout) [
  | none ↦ failed
  | some threshold ↦
      if leb_ℤ threshold (wrap_i64 (p.invalid_login_attempt_count +ℤ pos 1))
      then locked_out
      else failed
]

abbrev pub overlay : {Document : Type 0} → User Document → Policy → Policy
overlay u p = record p { invalid_login_attempt_count = u.invalid_login_attempt_count }

module _ {Document : Type 0} (env : Environment) (json : Codec Document) (crypto : Crypto) where
  -- `PolicyOf`: the counter of the account's row takes the place of the document's.
  unfoldable pub policy_of : User Document → Option Policy
  policy_of u = Option.map (overlay u) (decode_policy json u.policy_document)

  -- `Verify`, and the derivation that it counts when the record is well formed.
  unfoldable pub verify_counted : Text → Text → M Document (Bool × Bool)
  verify_counted phc password = elim (verify_record crypto phc password) [
    | none ↦ throw unreadable_credential
    | some answer ↦ do count_derivation; pure answer
  ]

  -- `Derive`, which draws a salt and counts a derivation.
  unfoldable pub derive_counted : Text → M Document Text
  derive_counted password = do
    salt ← draw_salt env
    count_derivation
    pure (derive crypto password salt)

  -- An account without a password is opened by the empty one.
  unfoldable pub verify_with : Option Credential → Text → M Document (Bool × Bool)
  unfolding verify_counted
  verify_with none password = pure (not (nonempty password), false)
  verify_with (some c) password = verify_counted c.phc password

  -- `verify`.
  unfoldable pub verify : User Document → Text → M Document (Bool × Bool)
  unfolding verify_with
  verify u password = do found ← read env (credential u.id); verify_with found password

  -- The decoy is verified, and its answer is dropped, an error as well.
  unfoldable pub verify_decoy : Seed → Text → M Document (Unit {0})
  unfolding decoy_record
  verify_decoy seed password = elim (verify_record crypto (decoy_record crypto seed) password) [
    | none ↦ pure tt
    | some _ ↦ count_derivation
  ]

  unfoldable pub rehash : Bool → User Document → Text → M Document (Unit {0})
  unfolding derive_counted
  rehash false u password = pure tt
  rehash true u password = do
    phc ← derive_counted password
    at ← now env
    write env (replace_credential u.id phc at)

  -- The account that the login reads back.
  unfoldable pub reread : Option (User Document) → M Document (User Document)
  reread none = throw vanished
  reread (some u) = pure u

  -- What follows a password that opens the account.
  unfoldable pub log_in_verified : Bool → User Document → Text → M Document (User Document)
  unfolding rehash reread
  log_in_verified needs_rehash u password = do
    rehash needs_rehash u password
    at ← now env
    write env (record_login_outcome json u.id succeeded at)
    after ← read env (user_by_id u.id)
    reread after

  -- What follows one that does not.
  unfoldable pub refuse : Policy → User Document → M Document (User Document)
  refuse p u = do
    at ← now env
    write env (record_login_outcome json u.id (failure_outcome p) at)
    throw credentials_refused

  -- The two answers of `verify`.
  unfoldable pub act_on : Bool × Bool → Policy → User Document → Text → M Document (User Document)
  unfolding log_in_verified refuse
  act_on (true, needs_rehash) p u password = log_in_verified needs_rehash u password
  act_on (false, needs_rehash) p u password = refuse p u

  unfoldable pub check_password : Policy → User Document → Text → M Document (User Document)
  unfolding verify act_on
  check_password p u password = do answer ← verify u password; act_on answer p u password

  -- By the policy's IsDisabled.
  unfoldable pub unless_disabled : Bool → Policy → User Document → Text → M Document (User Document)
  unfolding check_password
  unless_disabled true p u password = throw account_disabled
  unless_disabled false p u password = check_password p u password

  unfoldable pub check_policy : Option Policy → User Document → Text → M Document (User Document)
  unfolding unless_disabled
  check_policy none u password = throw unreadable_policy
  check_policy (some p) u password = unless_disabled p.is_disabled p u password

  unfoldable pub authenticate_with :
      Seed → Option (User Document) → Text → M Document (User Document)
  unfolding check_policy verify_decoy
  authenticate_with seed none password = do verify_decoy seed password; throw credentials_refused
  authenticate_with seed (some u) password = check_policy (policy_of u) u password

  -- `Authenticate`, over what was drawn for the decoy when the process started.
  unfoldable pub authenticate : Seed → Text → Text → M Document (User Document)
  unfolding authenticate_with
  authenticate seed username password = do
    found ← read env (user_by_folded_name (env.to_lower username))
    authenticate_with seed found password
