-- ===== src/Users/Login/Disabled.antt =====
-- The failure that locks an account, and what every later login of that account answers.
use atrium_go.Base.{true, sym, ◌⊎◌, inl, inr, ◌+◌, ◌≡◌, refl, Bool, false, some, ap, ◌∙◌}
use atrium_go.Ports.Accounts.{User, Credential, locked_out, failed}
use atrium_go.Text.{Text}
use atrium_go.Users.Login.Disclosure.{Quiet, authenticate_wrong, authenticate_disabled}
use atrium_go.Users.Login.Lockout.{Lawful, record_login_outcome-Failed}
use atrium_go.Users.Login.Monad.{
  World, err, Environment, called, credentials_refused, account_disabled,
}
use atrium_go.Users.Login.{policy_of, authenticate, failure_outcome}
use atrium_go.Users.Password.{Seed, Crypto, verify_record}
use atrium_go.Users.Policy.{Policy, Codec}
use atrium_go.Users.Store.Keys.{Keyed}
use atrium_go.Users.Store.{is_full, user_by_folded_name, credential}

module _ {Document : Type 0} (env : Environment) (json : Codec Document) (crypto : Crypto)
    (quiet : Quiet env) (lawful : Lawful json) where
  -- Where no call of the driver fails, and encoding/json writes again every policy that it has read
  -- and reads back the IsDisabled that it wrote: a wrong password for a readable, enabled account
  -- that has a stored record, whose count of failures is below the largest 64-bit integer and whose
  -- failure is one that locks, is refused as every wrong password is, with one derivation; from the
  -- state it leaves, every login under the same folded name, with any password, answers that the
  -- account is disabled, after one query and no derivation, and writes nothing.
  pub authenticate_locks :
      (seed : Seed) (username password : Text) (w : World Document) (u : User Document) (p : Policy)
      (c : Credential) (other any : Text) {b : Bool}
      → Keyed w.accounts
      → user_by_folded_name (env.to_lower username) w.accounts ≡ some u
      → policy_of env json crypto u ≡ some p
      → p.is_disabled ≡ false
      → credential u.id w.accounts ≡ some c
      → verify_record crypto c.phc password ≡ some (false, b)
      → failure_outcome p ≡ locked_out
      → is_full u ≡ false
      → env.to_lower other ≡ env.to_lower username
      → (v : World Document) × (authenticate env json crypto seed username password w
          ≡ (err credentials_refused, v))
        × (v.derivations ≡ w.derivations + 1)
        × (authenticate env json crypto seed other any v ≡ (err account_disabled, called v))
  authenticate_locks seed username password w u p c other any keyed found policy enabled stored
        wrong locks room same =
      let (s, recorded, after) =
        record_login_outcome-Failed env json crypto lawful (env.to_lower username)
          (env.clock w.readings) w.accounts u p keyed found policy room in
      (
        record w {
          accounts = s;
          derivations = w.derivations + 1;
          calls = w.calls + 1 + 1 + 1;
          readings = w.readings + 1;
        },
        authenticate_wrong env json crypto quiet seed username password w u p c found policy enabled
            stored wrong recorded,
        refl,
        authenticate_disabled env json crypto quiet seed other any _
            (ap (λ k. user_by_folded_name k s) same ∙ after.found) after.read_policy
            (locked after.outcome),
      )
    where
      apart : locked_out ≡ failed → ⊥
      apart h = cc

      locked :
          {a : Bool}
          → ((failure_outcome p ≡ locked_out) × (a ≡ true))
            ⊎ ((failure_outcome p ≡ failed) × (a ≡ p.is_disabled))
          → a ≡ true
      locked (inl h) = h.1
      locked (inr h) = absurd (apart (sym locks ∙ h.0))
