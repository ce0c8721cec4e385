-- ===== src/Users/Login/Safety.antt =====
-- What a successful login has established, whatever calls of the driver fail.
use mathlib.Core.Path.{subst}
use atrium_go.Base.{
  ◌≡◌, refl, ap, sym, ◌∙◌, ◌⊎◌, inl, inr, Bool, true, false, Option, none, some, arith,
}
use atrium_go.Ports.Accounts.{User, Credential, succeeded}
use atrium_go.Text.{Text, nonempty}
use atrium_go.Users.Login.Monad.{
  World, ok, Environment, after-ok, read-ok, now, write, read, count_derivation,
}
use atrium_go.Users.Login.{
  reread, rehash, log_in_verified, policy_of, verify, verify_counted, verify_with, unless_disabled,
  act_on, failure_outcome, verify_decoy, check_policy, authenticate_with, check_password,
  authenticate, refuse,
}
use atrium_go.Users.Password.{Seed, Crypto, verify_record}
use atrium_go.Users.Policy.{Policy, Codec}
use atrium_go.Text.Laws.{str_eq_iff}
use atrium_go.Users.Store.Keys.{find_user-matches}
use atrium_go.Users.Store.{
  Accounts, user_by_id, by_id, user_by_folded_name, credential, record_login_outcome,
}

-- The password opens the account: it verifies against the stored record, or the account has none
-- and the password is empty.
abbrev pub Opens : {Document : Type 0} → Crypto → Accounts Document → User Document → Text → Type 0
Opens crypto s u password =
    ((credential u.id s ≡ none) × (nonempty password ≡ false))
    ⊎ ((c : Credential) × (rehash : Bool) × (credential u.id s ≡ some c)
        × (verify_record crypto c.phc password ≡ some (true, rehash)))

module _ {Document : Type 0} (env : Environment) (json : Codec Document) (crypto : Crypto) where
  verify_counted-ok :
      (phc password : Text) (w : World Document) {a : Bool × Bool} {v : World Document}
      → verify_counted env json crypto phc password w ≡ (ok a, v)
      → verify_record crypto phc password ≡ some a
  unfolding verify_counted count_derivation
  verify_counted-ok phc password w h = ground arith

  verify_with-ok :
      (s : Accounts Document) (u : User Document) (found : Option Credential) (password : Text)
      (w : World Document) {b : Bool} {v : World Document}
      → credential u.id s ≡ found
      → verify_with env json crypto found password w ≡ (ok (true, b), v)
      → Opens crypto s u password
  verify_with-ok s u none password w e h = inl (e, unfold verify_with in ground arith)
  verify_with-ok s u (some c) password w {b} {v} e h =
      inr (c, b, e, verify_counted-ok c.phc password w {v = v} (unfold verify_with in h))

  verify-ok :
      (u : User Document) (password : Text) (w : World Document) {b : Bool} {v : World Document}
      → verify env json crypto u password w ≡ (ok (true, b), v)
      → Opens crypto w.accounts u password
  unfolding verify
  verify-ok u password w h =
      let (found, v, r, k) = after-ok (read env (credential u.id) w) _ h in
      let (e, l) = read-ok env (credential u.id) w r in
      verify_with-ok w.accounts u found password v (sym e) k

  refuse-err :
      (p : Policy) (u : User Document) (w : World Document) {a : User Document} {v : World Document}
      → ¬ (refuse env json crypto p u w ≡ (ok a, v))
  unfolding refuse
  refuse-err p u w h =
      let (at, v, r, k) = after-ok (now env w) _ h in
      let (t, x, q, l) =
        after-ok (write env (record_login_outcome json u.id (failure_outcome p) at) v) _ k in
      cc l

  -- The account is the row of that identifier.
  abbrev pub Reread : User Document → User Document → Accounts Document → Type 0
  Reread u a s = (user_by_id u.id s ≡ some a) × (a.id ≡ u.id)

  user_by_id-Reread :
      (u a : User Document) (s : Accounts Document) → user_by_id u.id s ≡ some a → Reread u a s
  unfolding user_by_id
  user_by_id-Reread u a s h =
      (h, (str_eq_iff a.id u.id).0 (find_user-matches (by_id u.id) s.users h))

  reread-ok :
      (found : Option (User Document)) (w : World Document) {a : User Document} {v : World Document}
      → reread env json crypto found w ≡ (ok a, v)
      → (found ≡ some a) × (v ≡ w)
  unfolding reread
  reread-ok none w h = cc
  reread-ok (some u) w h = ground arith

  log_in_verified-ok :
      (needs_rehash : Bool) (u : User Document) (password : Text) (w : World Document)
      {a : User Document} {v : World Document}
      → log_in_verified env json crypto needs_rehash u password w ≡ (ok a, v)
      → Reread u a v.accounts
  unfolding log_in_verified
  log_in_verified-ok needs_rehash u password w {a} {v} h =
      let (_, w1, a1, h1) = after-ok (rehash env json crypto needs_rehash u password w) _ h in
      let (at, w2, a2, h2) = after-ok (now env w1) _ h1 in
      let (_, w3, a3, h3) =
        after-ok (write env (record_login_outcome json u.id succeeded at) w2) _ h2 in
      let (found, w4, a4, h4) = after-ok (read env (user_by_id u.id) w3) _ h3 in
      let (e, l) = read-ok env (user_by_id u.id) w3 a4 in
      let (f, m) = reread-ok found w4 h4 in
      user_by_id-Reread u a v.accounts
        (ap (λ (x : World Document). user_by_id u.id x.accounts) (m ∙ l) ∙ sym e ∙ f)

  act_on-ok :
      (answer : Bool × Bool) (p : Policy) (u : User Document) (password : Text) (w : World Document)
      {a : User Document} {v : World Document}
      → act_on env json crypto answer p u password w ≡ (ok a, v)
      → (answer.0 ≡ true) × Reread u a v.accounts
  act_on-ok (true, b) p u password w {a} {v} h =
      (refl, log_in_verified-ok b u password w {a = a} {v = v} (unfold act_on in h))
  act_on-ok (false, b) p u password w {a} {v} h =
      absurd (refuse-err p u w {a = a} {v = v} (unfold act_on in h))

  check_password-ok :
      (p : Policy) (u : User Document) (password : Text) (w : World Document) {a : User Document}
      {v : World Document}
      → check_password env json crypto p u password w ≡ (ok a, v)
      → Opens crypto w.accounts u password × Reread u a v.accounts
  unfolding check_password
  check_password-ok p u password w h =
      let (answer, v, r, k) = after-ok (verify env json crypto u password w) _ h in
      let (e, again) = act_on-ok answer p u password v k in
      (
        verify-ok u password w {b = answer.1} {v = v}
            (r ∙ ap (λ (t : Bool). (ok (t, answer.1), v)) e),
        again,
      )

  unless_disabled-ok :
      (disabled : Bool) (p : Policy) (u : User Document) (password : Text) (w : World Document)
      {a : User Document} {v : World Document}
      → unless_disabled env json crypto disabled p u password w ≡ (ok a, v)
      → (disabled ≡ false) × Opens crypto w.accounts u password × Reread u a v.accounts
  unfolding unless_disabled
  unless_disabled-ok true p u password w h = cc
  unless_disabled-ok false p u password w h =
      let (o, again) = check_password-ok p u password w h in (refl, o, again)

  check_policy-ok :
      (p : Option Policy) (u : User Document) (password : Text) (w : World Document)
      {a : User Document} {v : World Document}
      → check_policy env json crypto p u password w ≡ (ok a, v)
      → (q : Policy) × (p ≡ some q)
        × (q.is_disabled ≡ false)
        × Opens crypto w.accounts u password
        × Reread u a v.accounts
  unfolding check_policy
  check_policy-ok none u password w h = cc
  check_policy-ok (some p) u password w h =
      let (e, o, again) = unless_disabled-ok p.is_disabled p u password w h in
      (p, refl, e, o, again)

  -- The account that a login opens: its folded name finds it, its policy is readable and not
  -- disabled, and the password opens it; the login answers the row of its identifier.
  abbrev pub Admitted :
      Accounts Document → Option (User Document) → Text → User Document → Accounts Document → Type 0
  Admitted s found password a after =
      (u : User Document) × (q : Policy) × (found ≡ some u)
      × (policy_of env json crypto u ≡ some q)
      × (q.is_disabled ≡ false)
      × Opens crypto s u password
      × Reread u a after

  authenticate_with-ok :
      (seed : Seed) (found : Option (User Document)) (password : Text) (w : World Document)
      {a : User Document} {v : World Document}
      → authenticate_with env json crypto seed found password w ≡ (ok a, v)
      → Admitted w.accounts found password a v.accounts
  unfolding authenticate_with
  authenticate_with-ok seed none password w h =
      let (t, x, q, l) = after-ok (verify_decoy env json crypto seed password w) _ h in cc l
  authenticate_with-ok seed (some u) password w h =
      let (q, e, d, o, again) = check_policy-ok (policy_of env json crypto u) u password w h in
      (u, q, refl, e, d, o, again)

  -- A login succeeds only for an account that the folded name finds, whose policy is readable and
  -- not disabled, and that the password opens, whatever calls of the driver fail, whatever the
  -- clock gives and whatever salts are drawn; the account that it answers is the row that the
  -- store it leaves has of that account's identifier.
  pub authenticate-Admitted :
      (seed : Seed) (username password : Text) (w : World Document) {a : User Document}
      {v : World Document}
      → authenticate env json crypto seed username password w ≡ (ok a, v)
      → Admitted w.accounts
          (user_by_folded_name (env.to_lower username) w.accounts)
          password
          a
          v.accounts
  unfolding authenticate
  authenticate-Admitted seed username password w h =
      let by_name = user_by_folded_name (env.to_lower username) in
      let (found, x, r, k) = after-ok (read env by_name w) _ h in
      let (e, l) = read-ok env by_name w r in
      let (u, q, f, p, d, o, again) = authenticate_with-ok seed found password x k in
      (
        u,
        q,
        sym e ∙ f,
        p,
        d,
        subst (λ (t : World Document). Opens crypto t.accounts u password) l o,
        again,
      )
