-- ===== src/Sessions/Store/Refinement.antt =====
-- The store of sessions, seen as what each token opens.
use mathlib.Core.Option
use mathlib.Core.Path.{subst}
use atrium_go.Base.{
  ◌≡◌, refl, ap, sym, ◌∙◌, inl, inr, Bool, true, false, not, ◌&&◌, Option, none, some, List, arith,
  if◌then◌else◌, Bool-cases, guard, >>=-some, ◌==◌,
}
use atrium_go.Ports.Accounts.{Session}
use atrium_go.Sessions.Store.{
  Token, SessionTables, token_digest, by_session_id, by_digest, is_rival, token_of, open_session,
  update_one_session, declare_capabilities, replace_capabilities, touch, touch_session, opens,
  close_session, held_on, revoke_tokens_for,
}
use atrium_go.Sessions.Store.Invariant.{
  Label, opened, declared, touched, closed, revoked, run, WellFormed, guarded, not-false,
}
use atrium_go.Tables.{find_row, delete_rows, any_row, count_rows}
use atrium_go.Tables.Keys.{Unique, any_row-find_row, find_row-append, find_row-delete_rows}
use atrium_go.Text.Laws.{str_eq_iff}
use atrium_go.Text.{Text, str_eq}

-- What a token opens: a session, for a user, on a device.
pub record Opened : Type 0 where
  pub session : Text
  pub user : Text
  pub device : Text

abbrev pub opened_by : Token → Opened
opened_by t = record { session = t.session_id; user = t.user_id; device = t.device_id }

-- The abstract state: what each digest opens.
unfoldable pub view : SessionTables → Text → Option Opened
view t d = Option.map opened_by (find_row (by_digest d) t.tokens)

-- What an operation promises on it.
abbrev pub forget : (Opened → Bool) → Option Opened → Option Opened
forget gone none = none
forget gone (some o) = if gone o then none else some o

unfoldable pub promise : Label → (Text → Option Opened) → Text → Option Opened
promise (opened s digest) v d =
    if str_eq digest d
    then some (record { session = s.id; user = s.user_id; device = s.device_id })
    else v d
promise (declared k document) v d = v d
promise (touched k at) v d = v d
promise (closed k) v d = forget (λ o. str_eq o.session k) (v d)
promise (revoked user device) v d = forget (λ o. str_eq o.user user && str_eq o.device device) (v d)

view-deleted :
    (gone : Token → Bool) (stops : Opened → Bool) (d : Text) (tokens : List Token)
    → ((t : Token) → gone t ≡ stops (opened_by t))
    → Unique token_digest tokens
    → Option.map opened_by (find_row (by_digest d) (delete_rows gone tokens))
      ≡ forget stops (Option.map opened_by (find_row (by_digest d) tokens))
view-deleted gone stops d tokens e h =
    ap (Option.map opened_by) (find_row-delete_rows gone token_digest d tokens h)
    ∙ both (find_row (by_digest d) tokens)
  where
    both :
        (o : Option Token)
        → Option.map opened_by (elim o [ none ↦ none | some r ↦ if gone r then none else some r ])
          ≡ forget stops (Option.map opened_by o)
    both none = refl
    both (some r) = ground (arith, e r)

unseen :
    (digest d : Text) (tokens : List Token)
    → any_row (by_digest digest) tokens ≡ false
    → str_eq digest d ≡ true
    → find_row (by_digest d) tokens ≡ none
unseen digest d tokens h e =
    subst (λ k. find_row (by_digest k) tokens ≡ none) ((str_eq_iff digest d).0 e)
      (any_row-find_row (by_digest digest) tokens h)

open_session-view :
    (s : Session) (digest d : Text) (t : SessionTables) {u : SessionTables}
    → open_session s digest t ≡ some u
    → view u d ≡ promise (opened s digest) (view t) d
unfolding open_session view promise
open_session-view s digest d t r =
    let (x, g, r) = >>=-some (guard (any_row (λ k. str_eq k s.user_id) t.accounts)) _ r in
    let (y, rival, r) = >>=-some (guard (not (any_row (is_rival s) t.sessions))) _ r in
    let (fresh, same) = guarded (not (any_row (by_digest digest) t.tokens)) _ r in
    subst
      (λ (v : SessionTables). Option.map opened_by (find_row (by_digest d) v.tokens) ≡ (
        if str_eq digest d
        then some (record { session = s.id; user = s.user_id; device = s.device_id })
        else Option.map opened_by (find_row (by_digest d) t.tokens)))
      same
      (ap (Option.map opened_by) (find_row-append (by_digest d) t.tokens (token_of s digest))
        ∙ joined (find_row (by_digest d) t.tokens) (unseen digest d t.tokens (not-false _ fresh)))
  where
    joined :
        (o : Option Token)
        → (str_eq digest d ≡ true → o ≡ none)
        → Option.map opened_by (elim o [
          | some r ↦ some r
          | none ↦ if str_eq digest d then some (token_of s digest) else none
        ])
          ≡ (if str_eq digest d
              then some (opened_by (token_of s digest))
              else Option.map opened_by o)
    joined none e = ground arith
    joined (some r) e = elim (Bool-cases (str_eq digest d)) [
      | inl b ↦ absurd (cc (e b))
      | inr b ↦ rw b refl
    ]

update_one_session-tokens :
    (f : Session → Session) (k : Text) (t : SessionTables) {u : SessionTables}
    → update_one_session k f t ≡ some u
    → u.tokens ≡ t.tokens
unfolding update_one_session
update_one_session-tokens f k t r =
    let (g, same) = guarded (count_rows (by_session_id k) t.sessions == 1) _ r in
    ap (λ (v : SessionTables). v.tokens) (sym same)

close_session-tokens :
    (k : Text) (t : SessionTables) {u : SessionTables}
    → close_session k t ≡ some u
    → u.tokens ≡ delete_rows (opens k) t.tokens
unfolding close_session
close_session-tokens k t r =
    let (g, same) = guarded (count_rows (by_session_id k) t.sessions == 1) _ r in
    ap (λ (v : SessionTables). v.tokens) (sym same)

pub some-injective : {A : Type 0} {x y : A} → some x ≡ some y → x ≡ y
some-injective e = cc

-- Each operation of the store that succeeds does to what the tokens open what it promises: opening a
-- session adds its token, closing one takes all of its tokens and no other, revoking takes the tokens
-- of that user on that device and no other, and the rest change nothing.
pub run-view :
    (l : Label) (d : Text) (t : SessionTables) {u : SessionTables}
    → WellFormed t
    → run l t ≡ some u
    → view u d ≡ promise l (view t) d
unfolding run view promise replace_capabilities touch_session revoke_tokens_for
run-view (opened s digest) d t h r = open_session-view s digest d t r
run-view (declared k document) d t h r =
    ap (λ ts. Option.map opened_by (find_row (by_digest d) ts))
      (update_one_session-tokens (declare_capabilities document) k t r)
run-view (touched k at) d t h r =
    ap (λ ts. Option.map opened_by (find_row (by_digest d) ts))
      (update_one_session-tokens (touch at) k t r)
run-view (closed k) d t h r =
    ap (λ ts. Option.map opened_by (find_row (by_digest d) ts)) (close_session-tokens k t r)
    ∙ view-deleted (opens k) (λ o. str_eq o.session k) d t.tokens (λ k. refl) h.digests
run-view (revoked user device) d t h r =
    ap (λ (v : SessionTables). Option.map opened_by (find_row (by_digest d) v.tokens))
      (sym (some-injective r))
    ∙ view-deleted (held_on user device) (λ o. str_eq o.user user && str_eq o.device device) d
        t.tokens (λ k. refl) h.digests
