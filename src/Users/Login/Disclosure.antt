-- ===== src/Users/Login/Disclosure.antt =====
-- What the refusals of a login cost and what they disclose, where no call of the driver fails.
use atrium_go.Base.{refl, length, ℕ, ◌+◌, ◌≡◌, ap, ◌∙◌, Bool, true, false, Option, none, some}
use atrium_go.Ports.Accounts.{User, Credential}
use atrium_go.Text.{Text}
use atrium_go.Users.Login.Monad.{
  count_derivation, World, ok, err, Environment, called, credentials_refused, account_disabled,
  read, write, now,
}
use atrium_go.Users.Login.{
  policy_of, verify, verify_counted, verify_with, check_password, check_policy, authenticate_with,
  unless_disabled, act_on, authenticate, refuse, verify_decoy, failure_outcome,
}
use atrium_go.Users.Password.Decoy.{Sized, verify_record-decoy_record}
use atrium_go.Users.Password.{
  Documented, argon2id_salt_length, Seed, decoy_record, Crypto, verify_record,
}
use atrium_go.Users.Policy.{Policy, Codec}
use atrium_go.Users.Store.{Accounts, user_by_folded_name, credential, record_login_outcome}

-- No call of the driver fails.
abbrev pub Quiet : Environment → Type 0
Quiet env = (n : ℕ) → env.fails n ≡ false

module _ {Document : Type 0} (env : Environment) (json : Codec Document) (crypto : Crypto)
    (quiet : Quiet env) where
  read-Quiet :
      {A : Type 0} (f : Accounts Document → A) (w : World Document)
      → read env f w ≡ (ok (f w.accounts), called w)
  unfolding read
  read-Quiet f w = rw (quiet w.calls)

  write-Quiet :
      (f : Accounts Document → Option (Accounts Document)) (w : World Document)
      {s : Accounts Document}
      → f w.accounts ≡ some s
      → write env f w ≡ (ok tt, record (called w) { accounts = s })
  unfolding write
  write-Quiet f w h = rw (quiet w.calls, h)

  verify_decoy-some :
      (seed : Seed) (password : Text) (w : World Document) {b : Bool × Bool}
      → verify_record crypto (decoy_record crypto seed) password ≡ some b
      → verify_decoy env json crypto seed password w
        ≡ (ok tt, record w { derivations = w.derivations + 1 })
  unfolding verify_decoy count_derivation
  verify_decoy-some seed password w h = rw (h, verify_decoy)

  verify_counted-some :
      (phc password : Text) (w : World Document) {b : Bool × Bool}
      → verify_record crypto phc password ≡ some b
      → verify_counted env json crypto phc password w
        ≡ (ok b, record w { derivations = w.derivations + 1 })
  unfolding verify_counted count_derivation
  verify_counted-some phc password w h = rw (h, verify_counted)

  -- An account whose policy is disabled is refused after one query: no password is verified,
  -- right or wrong, and nothing is written.
  pub authenticate_disabled :
      (seed : Seed) (username password : Text) (w : World Document) {u : User Document} {p : Policy}
      → user_by_folded_name (env.to_lower username) w.accounts ≡ some u
      → policy_of env json crypto u ≡ some p
      → p.is_disabled ≡ true
      → authenticate env json crypto seed username password w ≡ (err account_disabled, called w)
  unfolding authenticate authenticate_with check_policy unless_disabled
  authenticate_disabled seed username password w {u} {p} found policy disabled =
      rw (read-Quiet (user_by_folded_name (env.to_lower username)) w, found, policy)
        (ap (λ (b : Bool). unless_disabled env json crypto b p u password (called w)) disabled)

  -- A username that no account has is refused after one query and one derivation, the decoy's,
  -- and nothing is written.
  authenticate_unknown :
      (seed : Seed) (username password : Text) (w : World Document) {b : Bool × Bool}
      → user_by_folded_name (env.to_lower username) w.accounts ≡ none
      → verify_record crypto (decoy_record crypto seed) password ≡ some b
      → authenticate env json crypto seed username password w
        ≡ (err credentials_refused, record (called w) { derivations = w.derivations + 1 })
  unfolding authenticate authenticate_with
  authenticate_unknown seed username password w found decoyed = rw (
    read-Quiet (user_by_folded_name (env.to_lower username)) w,
    found,
    verify_decoy-some seed password (called w) decoyed,
  )

  wrong_password :
      (u : User Document) (p : Policy) (password : Text) (w : World Document) (c : Credential)
      {b : Bool} {s : Accounts Document}
      → credential u.id w.accounts ≡ some c
      → verify_record crypto c.phc password ≡ some (false, b)
      → record_login_outcome json u.id (failure_outcome p) (env.clock w.readings) w.accounts
        ≡ some s
      → check_password env json crypto p u password w ≡ (
        err credentials_refused,
        record w {
          accounts = s;
          derivations = w.derivations + 1;
          calls = w.calls + 1 + 1;
          readings = w.readings + 1;
        },
      )
  unfolding check_password verify verify_with act_on refuse now
  wrong_password u p password w c stored wrong recorded = rw (
    read-Quiet (credential u.id) w,
    stored,
    verify_counted-some c.phc password (called w) wrong,
    write-Quiet (record_login_outcome json u.id (failure_outcome p) (env.clock w.readings))
        (record (called w) { derivations = w.derivations + 1; readings = w.readings + 1 }) recorded,
  )

  -- Where no call of the driver fails: a wrong password for an account that is found, whose policy
  -- is readable and not disabled and that has a well-formed stored record, where the store can
  -- record the failure, is refused after two queries, one derivation and one statement, the one
  -- that records the failure, and leaves the accounts as that statement does.
  pub authenticate_wrong :
      (seed : Seed) (username password : Text) (w : World Document) (u : User Document) (p : Policy)
      (c : Credential) {b : Bool} {s : Accounts Document}
      → user_by_folded_name (env.to_lower username) w.accounts ≡ some u
      → policy_of env json crypto u ≡ some p
      → p.is_disabled ≡ false
      → credential u.id w.accounts ≡ some c
      → verify_record crypto c.phc password ≡ some (false, b)
      → record_login_outcome json u.id (failure_outcome p) (env.clock w.readings) w.accounts
        ≡ some s
      → authenticate env json crypto seed username password w ≡ (
        err credentials_refused,
        record w {
          accounts = s;
          derivations = w.derivations + 1;
          calls = w.calls + 1 + 1 + 1;
          readings = w.readings + 1;
        },
      )
  unfolding authenticate authenticate_with check_policy unless_disabled
  authenticate_wrong seed username password w u p c found policy enabled stored wrong recorded =
      rw (read-Quiet (user_by_folded_name (env.to_lower username)) w, found, policy)
        (ap (λ (b : Bool). unless_disabled env json crypto b p u password (called w)) enabled
          ∙ wrong_password u p password (called w) c stored wrong recorded)

  -- Where no call of the driver fails, base64 and Argon2id are as documented and the decoy's salt
  -- has its 16 bytes: from any state, a login under a folded name that no account has and one with a
  -- wrong password for an account that is found, readable, enabled and has a well-formed stored
  -- record, where the store can record the failure, answer the same error after the same number of
  -- derivations, one; the decoy is not below the current constants, and an unknown name changes no
  -- account.
  pub authenticate_alike :
      (seed : Seed) (unknown guess username password : Text) (w : World Document)
      (u : User Document) (p : Policy) (c : Credential) {b : Bool} {s : Accounts Document}
      → Documented crypto
      → Sized crypto
      → length seed.salt ≡ argon2id_salt_length
      → user_by_folded_name (env.to_lower unknown) w.accounts ≡ none
      → user_by_folded_name (env.to_lower username) w.accounts ≡ some u
      → policy_of env json crypto u ≡ some p
      → p.is_disabled ≡ false
      → credential u.id w.accounts ≡ some c
      → verify_record crypto c.phc password ≡ some (false, b)
      → record_login_outcome json u.id (failure_outcome p) (env.clock w.readings) w.accounts
        ≡ some s
      → (x y : World Document) × (authenticate env json crypto seed unknown guess w
          ≡ (err credentials_refused, x))
        × (authenticate env json crypto seed username password w ≡ (err credentials_refused, y))
        × (x.derivations ≡ y.derivations)
        × (y.derivations ≡ w.derivations + 1)
        × (x.accounts ≡ w.accounts)
        × ((d : Bool) × (verify_record crypto (decoy_record crypto seed) guess ≡ some (d, false)))
  authenticate_alike seed unknown guess username password w u p c documented sized salted absent
        found policy enabled stored wrong recorded =
      let decoyed = verify_record-decoy_record crypto documented sized seed salted guess in
      (
        _,
        _,
        authenticate_unknown seed unknown guess w absent decoyed.1,
        authenticate_wrong seed username password w u p c found policy enabled stored wrong
            recorded,
        refl,
        refl,
        refl,
        decoyed,
      )
