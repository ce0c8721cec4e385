-- ===== src/Users/Login/Tests.antt =====
-- A store with one account, whose documents are policies, and a driver that does not fail.
use atrium_go.Base.{Bool, ◌⊎◌, ◌≡◌, refl, sym, true, false, none, some, [], ◌∷◌}
use atrium_go.Base.Int.{pos, ◌+ℤ◌, wrap_i64}
use atrium_go.Ports.Accounts.{User, Credential, locked_out}
use atrium_go.Text.Decimal.{decimal, parse_int}
use atrium_go.Text.{codes, split, str_eq, has_prefix}
use atrium_go.Users.Login.Disabled.{authenticate_locks}
use atrium_go.Users.Login.Disclosure.{authenticate_alike, authenticate_wrong}
use atrium_go.Users.Login.Lockout.{Lawful, Failed, record_login_outcome-Failed}
use atrium_go.Users.Login.Monad.{
  World, Environment, ok, err, called, credentials_refused, account_disabled, draw_salt, now,
  count_derivation, read, write,
}
use atrium_go.Users.Login.Safety.{Admitted, authenticate-Admitted}
use atrium_go.Users.Login.{
  policy_of, authenticate, failure_outcome, lockout_threshold, authenticate_with, check_policy,
  unless_disabled, check_password, verify, verify_with, verify_counted, act_on, log_in_verified,
  rehash, reread, derive_counted,
}
use atrium_go.Users.Password.Tests.{toy, toy-Documented, toy-Sized, sample}
use atrium_go.Users.Password.{
  Seed, decoy_record, parse_record, record_string, parse_fields, parse_parameters, named_number,
  verify_record, below_current_constants, derive,
}
use atrium_go.Users.Policy.{Policy, Codec, default_policy, decode_policy}
use atrium_go.Users.Store.Keys.{Keyed, Fresh, Taken, create_user-Keyed}
use atrium_go.Users.Store.{
  Accounts, create_user, credential, user_by_folded_name, record_login_outcome, user_by_id,
  replace_credential, update_one_user, find_user, find_credential, affected, update_users,
  upsert_credential,
}

abbrev plain : Codec Policy
plain = record { unmarshal = λ d base. some d; marshal = λ p. some p }

plain-Lawful : Lawful plain
plain-Lawful = record {
  writes = λ p d h. (record p { is_disabled = true }, refl);
  keeps_disabled = λ p d h. (p, sym h, refl);
}

abbrev seed : Seed
seed = record { secret = codes "0123456789abcdef0123456789abcdef"; salt = codes "fedcba9876543210" }

abbrev steady : Environment
steady = record {
  fails = λ n. false;
  clock = λ n. pos 1_000;
  salts = λ n. some (codes "0123456789abcdef");
  to_lower = λ s. s;
}

-- One failure locks it.
abbrev strict : Policy
strict = record default_policy { login_attempts_before_lockout = pos 1 }

abbrev ada : User Policy
ada = record {
  id = codes "1";
  username = codes "Ada";
  username_folded = codes "ada";
  policy_document = strict;
  configuration_document = strict;
  invalid_login_attempt_count = pos 0;
  last_login_at = none;
  last_activity_at = none;
}

abbrev stored : Credential
stored = record { user_id = codes "1"; phc = record_string toy sample; written_at = pos 1 }

abbrev accounts : Accounts Policy
accounts = record { users = ada ∷ []; credentials = stored ∷ [] }

abbrev start : World Policy
start = record { accounts = accounts; derivations = 0; calls = 0; readings = 0; draws = 0 }

accounts-Keyed : Keyed accounts
accounts-Keyed = record { ids = (tt, tt); folds = (tt, tt) }

ada_found : user_by_folded_name (codes "ada") accounts ≡ some ada
unfolding user_by_folded_name str_eq find_user
ada_found = refl

ada_policy : policy_of steady plain toy ada ≡ some strict
unfolding policy_of decode_policy default_policy
ada_policy = refl

ada_credential : credential (codes "1") accounts ≡ some stored
unfolding credential str_eq find_credential
ada_credential = refl

wrong_password : verify_record toy stored.phc (codes "wrong") ≡ some (false, true)
unfolding verify_record parse_record record_string parse_fields split str_eq named_number has_prefix
    parse_int decimal parse_parameters below_current_constants
wrong_password = refl

one_failure : failure_outcome strict ≡ locked_out
unfolding failure_outcome wrap_i64 ◌+ℤ◌ default_policy lockout_threshold
one_failure = refl

authenticate_locks_example :
    (v : World Policy) × (authenticate steady plain toy seed (codes "ada") (codes "wrong") start
      ≡ (err credentials_refused, v))
    × (v.derivations ≡ 1)
    × (authenticate steady plain toy seed (codes "ada") (codes "secret") v
        ≡ (err account_disabled, called v))
unfolding default_policy
authenticate_locks_example =
    authenticate_locks steady plain toy (λ n. refl) plain-Lawful seed (codes "ada") (codes "wrong")
      start ada strict stored (codes "ada") (codes "secret") accounts-Keyed ada_found ada_policy
      refl ada_credential wrong_password one_failure refl refl

failure_recorded :
    (t : Accounts Policy) × (record_login_outcome plain
        (codes "1")
        (failure_outcome strict)
        (pos 1_000)
        accounts
      ≡ some t)
    × Failed steady plain toy (codes "ada") ada strict t
failure_recorded =
    record_login_outcome-Failed steady plain toy plain-Lawful (codes "ada") (pos 1_000) accounts ada
      strict accounts-Keyed ada_found ada_policy refl

record_login_outcome-Failed_example :
    (t : Accounts Policy) × (record_login_outcome plain
        (codes "1")
        (failure_outcome strict)
        (pos 9)
        accounts
      ≡ some t)
    × Failed steady plain toy (codes "ada") ada strict t
record_login_outcome-Failed_example =
    record_login_outcome-Failed steady plain toy plain-Lawful (codes "ada") (pos 9) accounts ada
      strict accounts-Keyed ada_found ada_policy refl

authenticate_wrong_example :
    authenticate steady plain toy seed (codes "ada") (codes "wrong") start ≡ (
      err credentials_refused,
      record start { accounts = failure_recorded.0; derivations = 1; calls = 3; readings = 1 },
    )
unfolding default_policy
authenticate_wrong_example =
    authenticate_wrong steady plain toy (λ n. refl) seed (codes "ada") (codes "wrong") start ada
      strict stored ada_found ada_policy refl ada_credential wrong_password failure_recorded.1

nobody : user_by_folded_name (codes "eve") accounts ≡ none
unfolding user_by_folded_name str_eq find_user
nobody = refl

authenticate_alike_example :
    (x y : World Policy) × (authenticate steady plain toy seed (codes "eve") (codes "guess") start
      ≡ (err credentials_refused, x))
    × (authenticate steady plain toy seed (codes "ada") (codes "wrong") start
        ≡ (err credentials_refused, y))
    × (x.derivations ≡ y.derivations)
    × (y.derivations ≡ 1)
    × (x.accounts ≡ accounts)
    × ((d : Bool) × (verify_record toy (decoy_record toy seed) (codes "guess") ≡ some (d, false)))
unfolding default_policy
authenticate_alike_example =
    authenticate_alike steady plain toy (λ n. refl) seed (codes "eve") (codes "guess") (codes "ada")
      (codes "wrong") start ada strict stored toy-Documented toy-Sized refl nobody ada_found
      ada_policy refl ada_credential wrong_password failure_recorded.1

abbrev barred : User Policy
barred = record ada { policy_document = record strict { is_disabled = true } }

abbrev barring : World Policy
barring = record start { accounts = record { users = barred ∷ []; credentials = [] } }

barred_found : user_by_folded_name (codes "ada") barring.accounts ≡ some barred
unfolding user_by_folded_name str_eq find_user
barred_found = refl

barred_policy : policy_of steady plain toy barred ≡ some (record strict { is_disabled = true })
unfolding policy_of decode_policy default_policy
barred_policy = refl

-- The account after a login, and the record that took the place of the one with a short key.
abbrev welcomed : User Policy
welcomed = record ada { last_login_at = some (pos 1_000) }

abbrev rehashed : Credential
rehashed = record stored {
  phc = derive toy (codes "secret") (codes "0123456789abcdef");
  written_at = pos 1_000;
}

abbrev welcome : World Policy
welcome = record {
  accounts = record { users = welcomed ∷ []; credentials = rehashed ∷ [] };
  derivations = 2;
  calls = 5;
  readings = 2;
  draws = 1;
}

logs_in :
    authenticate steady plain toy seed (codes "ada") (codes "secret") start ≡ (ok welcomed, welcome)
unfolding authenticate authenticate_with check_policy unless_disabled check_password verify
    verify_with verify_counted act_on log_in_verified rehash reread derive_counted draw_salt now
    count_derivation read write policy_of decode_policy credential user_by_folded_name user_by_id
    replace_credential record_login_outcome update_one_user verify_record parse_record record_string
    parse_fields split str_eq named_number has_prefix parse_int decimal parse_parameters
    below_current_constants find_user default_policy find_credential affected update_users
    upsert_credential derive
logs_in = refl

authenticate-Admitted_example :
    Admitted steady plain toy accounts
      (user_by_folded_name (codes "ada") accounts)
      (codes "secret")
      welcomed
      welcome.accounts
authenticate-Admitted_example =
    authenticate-Admitted steady plain toy seed (codes "ada") (codes "secret") start logs_in

abbrev eve : User Policy
eve = record ada { id = codes "2"; username_folded = codes "eve" }

create_user-Keyed_example :
    ((create_user eve accounts ≡ none) × Taken eve accounts)
    ⊎ ((t : Accounts Policy) × (create_user eve accounts ≡ some t)
        × Fresh eve accounts
        × (t ≡ record accounts { users = ada ∷ eve ∷ [] })
        × Keyed t)
create_user-Keyed_example = create_user-Keyed eve accounts accounts-Keyed
