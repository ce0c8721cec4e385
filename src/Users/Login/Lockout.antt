-- ===== src/Users/Login/Lockout.antt =====
-- The failed logins of an account: each is counted, and the one that reaches the threshold
-- disables the account.

use atrium_go.Base.{
  false, ◌≡◌, ◌↔◌, ◌≢◌, if◌then◌else◌, refl, ap, sym, ◌∙◌, ◌⊎◌, inl, inr, true, none, some, arith,
  Option-cases,
}
use atrium_go.Base.Int.{ℤ, pos, negsuc, ◌+ℤ◌, ◌≤ℤ◌, wrap_i64, leb_ℤ}
use atrium_go.Ports.Accounts.{User, LoginOutcome, failed, locked_out}
use atrium_go.Ports.Items.{Time}
use atrium_go.Text.{Text}
use atrium_go.Users.Login.Monad.{Environment}
use atrium_go.Users.Login.{policy_of, failure_outcome, lockout_threshold, overlay}
use atrium_go.Users.Password.{Crypto}
use atrium_go.Users.Policy.{Policy, Codec, decode_policy, document, default_policy}
use atrium_go.Users.Store.Keys.{Keyed, affected-find, find-by_id, find-update}
use atrium_go.Users.Store.{
  Accounts, user_by_folded_name, record_login_outcome, update_one_user, user_by_id, record_lockout,
  is_full, update_users, lock_out, count_failure, by_fold,
}

-- What is documented of encoding/json, for a struct of Booleans, integers, texts and lists: what was
-- read is written, disabled or not, and what is written is read back with the Boolean it was written
-- with. Texts may be read back otherwise than they were written.
pub record Lawful {Document : Type 0} (json : Codec Document) : Type 0 where
  pub writes :
      (p : Policy) (d : Document)
      → json.unmarshal d default_policy ≡ some p
      → (e : Document) × (json.marshal (record p { is_disabled = true }) ≡ some e)
  pub keeps_disabled :
      (p : Policy) (d : Document)
      → json.marshal p ≡ some d
      → (q : Policy) × (json.unmarshal d default_policy ≡ some q) × (q.is_disabled ≡ p.is_disabled)

-- A failure locks the account exactly if the setting is 0 and the failure is at least the third, or
-- the setting is neither 0 nor -1 and the failure brings the count to at least the setting. Every
-- other failure is an ordinary one; a setting of -1 never locks.
pub failure_outcome-locked_out :
    (p : Policy)
    → let n = p.login_attempts_before_lockout in
      let next = wrap_i64 (p.invalid_login_attempt_count +ℤ pos 1) in
      (failure_outcome p ≡ locked_out
        ↔ ((n ≡ pos 0) × (pos 3 ≤ℤ next)) ⊎ ((n ≢ pos 0) × (n ≢ negsuc 0) × (n ≤ℤ next)))
      × ((failure_outcome p ≡ locked_out) ⊎ (failure_outcome p ≡ failed))
unfolding failure_outcome
failure_outcome-locked_out p =
    cases p.login_attempts_before_lockout (wrap_i64 (p.invalid_login_attempt_count +ℤ pos 1))
  where
    cases :
        (n next : ℤ)
        → let o : LoginOutcome = elim (lockout_threshold n) [
          | none ↦ failed
          | some threshold ↦ if leb_ℤ threshold next then locked_out else failed
        ] in
          (o ≡ locked_out
            ↔ ((n ≡ pos 0) × (pos 3 ≤ℤ next)) ⊎ ((n ≢ pos 0) × (n ≢ negsuc 0) × (n ≤ℤ next)))
          × ((o ≡ locked_out) ⊎ (o ≡ failed))
    cases n next = ground arith

module _ {Document : Type 0} (env : Environment) (json : Codec Document) (crypto : Crypto) where
  -- The account after a failure: one more on its count, and disabled if the failure locks it.
  pub record Failed (k : Text) (u : User Document) (p : Policy) (s : Accounts Document)
      : Type 0 where
    pub user : User Document
    pub policy : Policy
    pub found : user_by_folded_name k s ≡ some user
    pub read_policy : policy_of env json crypto user ≡ some policy
    pub counted : user.invalid_login_attempt_count ≡ u.invalid_login_attempt_count +ℤ pos 1
    pub outcome :
        ((failure_outcome p ≡ locked_out) × (policy.is_disabled ≡ true))
        ⊎ ((failure_outcome p ≡ failed) × (policy.is_disabled ≡ p.is_disabled))

  some-policy_of :
      (u : User Document) {q : Policy}
      → decode_policy json u.policy_document ≡ some q
      → policy_of env json crypto u ≡ some (overlay u q)
  unfolding policy_of
  some-policy_of u h = rw h

  none-policy_of :
      (u : User Document)
      → decode_policy json u.policy_document ≡ none
      → policy_of env json crypto u ≡ none
  unfolding policy_of
  none-policy_of u h = rw h

  policy_of-some :
      (u : User Document) (p : Policy)
      → policy_of env json crypto u ≡ some p
      → (q : Policy) × (decode_policy json u.policy_document ≡ some q) × (p ≡ overlay u q)
  policy_of-some u p h = elim (Option-cases (decode_policy json u.policy_document)) [
    | inl e ↦ absurd (none-ne (sym h ∙ none-policy_of u e))
    | inr (q, e) ↦ (q, e, injective (sym h ∙ some-policy_of u e))
  ]
    where
      none-ne : some p ≡ none → ⊥
      none-ne e = cc

      injective : {q : Policy} → some p ≡ some q → p ≡ q
      injective e = cc

  update_found :
      (f : User Document → User Document) (k : Text) (s : Accounts Document) (u : User Document)
      → ((v : User Document) → by_fold k (f v) ≡ by_fold k v)
      → Keyed s
      → user_by_folded_name k s ≡ some u
      → (t : Accounts Document) × (update_one_user u.id f s ≡ some t)
        × (user_by_folded_name k t ≡ some (f u))
  unfolding update_one_user user_by_folded_name
  update_found f k s u keeps keyed found = (
    record s { users = update_users u.id f s.users },
    rw (affected-find (by_fold k) s.users keyed.ids found),
    find-update (by_fold k) f s.users keeps found,
  )

  record_lockout-some :
      (k : Text) (s : Accounts Document) (u : User Document) (q : Policy) (d : Document)
      (t : Accounts Document)
      → user_by_id k s ≡ some u
      → decode_policy json u.policy_document ≡ some q
      → document json (record q { is_disabled = true }) ≡ some d
      → update_one_user k (lock_out d) s ≡ some t
      → is_full u ≡ false
      → record_lockout json k s ≡ some t
  unfolding record_lockout
  record_lockout-some k s u q d t found decoded written updated room =
      rw (record_lockout, found, decoded, written, room, updated)

  by_its_id :
      (k : Text) (s : Accounts Document) (u : User Document)
      → Keyed s
      → user_by_folded_name k s ≡ some u
      → user_by_id u.id s ≡ some u
  unfolding user_by_folded_name user_by_id
  by_its_id k s u keyed found = find-by_id (by_fold k) s.users u keyed.ids found

  failed-some :
      (k : Text) (at : Time) (s : Accounts Document) (u : User Document) (t : Accounts Document)
      → user_by_id k s ≡ some u
      → update_one_user k count_failure s ≡ some t
      → is_full u ≡ false
      → record_login_outcome json k failed at s ≡ some t
  unfolding record_login_outcome
  failed-some k at s u t found updated room = rw (found, room, updated)

  module _ (lawful : Lawful json) where
    locked_row :
        (k : Text) (s : Accounts Document) (u : User Document) (q : Policy)
        → Keyed s
        → user_by_folded_name k s ≡ some u
        → decode_policy json u.policy_document ≡ some q
        → is_full u ≡ false
        → (t : Accounts Document) × (d : Document) × (r : Policy) × (record_lockout json u.id s
            ≡ some t)
          × (user_by_folded_name k t ≡ some (lock_out d u))
          × (decode_policy json d ≡ some r)
          × (r.is_disabled ≡ true)
    unfolding document decode_policy
    locked_row k s u q keyed found decoded room =
        let (d, m) = lawful.writes q u.policy_document decoded in
        let (r, n, o) = lawful.keeps_disabled (record q { is_disabled = true }) d m in
        let (t, e, f) = update_found (lock_out d) k s u (λ v. refl) keyed found in
        (
          t,
          d,
          r,
          record_lockout-some u.id s u q d t (by_its_id k s u keyed found) decoded m e room,
          f,
          n,
          o,
        )

    record_failure :
        (outcome : LoginOutcome) (k : Text) (at : Time) (s : Accounts Document) (u : User Document)
        (p : Policy)
        → (outcome ≡ locked_out) ⊎ (outcome ≡ failed)
        → failure_outcome p ≡ outcome
        → Keyed s
        → user_by_folded_name k s ≡ some u
        → policy_of env json crypto u ≡ some p
        → is_full u ≡ false
        → (t : Accounts Document) × (record_login_outcome json u.id outcome at s ≡ some t)
          × Failed k u p t
    record_failure outcome k at s u p (inl e) o keyed found policy room =
        let (q, decoded, same) = policy_of-some u p policy in
        let (t, d, b, r, f, g, disabled) = locked_row k s u q keyed found decoded room in
        (
          t,
          rw e (unfold record_login_outcome in r),
          record {
            user = lock_out d u;
            policy = overlay (lock_out d u) b;
            found = f;
            read_policy = some-policy_of (lock_out d u) g;
            counted = refl;
            outcome = inl (o ∙ e, disabled);
          },
        )
    record_failure outcome k at s u p (inr e) o keyed found policy room =
        let (q, decoded, same) = policy_of-some u p policy in
        let (t, r, f) = update_found count_failure k s u (λ v. refl) keyed found in
        (
          t,
          rw e (failed-some u.id at s u t (by_its_id k s u keyed found) r room),
          record {
            user = count_failure u;
            policy = overlay (count_failure u) q;
            found = f;
            read_policy = some-policy_of (count_failure u) decoded;
            counted = refl;
            outcome = inr (o ∙ e, ap (λ (t : Policy). t.is_disabled) (sym same));
          },
        )

    -- Where encoding/json writes again every policy that it has read, and reads back the IsDisabled
    -- that it wrote: recording a failed login of a readable account whose count is below the largest
    -- 64-bit integer succeeds. It adds one to the account's count, disables it if the failure is one
    -- that locks, and leaves its IsDisabled as it was if not.
    pub record_login_outcome-Failed :
        (k : Text) (at : Time) (s : Accounts Document) (u : User Document) (p : Policy)
        → Keyed s
        → user_by_folded_name k s ≡ some u
        → policy_of env json crypto u ≡ some p
        → is_full u ≡ false
        → (t : Accounts Document) × (record_login_outcome json u.id (failure_outcome p) at s
            ≡ some t)
          × Failed k u p t
    record_login_outcome-Failed k at s u p keyed found policy room =
        record_failure (failure_outcome p) k at s u p (failure_outcome-locked_out p).1 refl keyed
          found policy room
