-- ===== src/Sessions/Store/Invariant.antt =====
-- What every reachable state of the session store keeps.
use mathlib.Core.Path.{subst}
use atrium_go.Base.{
  ◌≡◌, refl, ◌∙◌, inl, inr, Bool, true, false, not, ◌||◌, Option, some, List, [], ◌∷◌, ◌++◌, arith,
  All, All-append, Bool-cases, guard, guard-some, >>=-some, ◌>>◌, ◌==◌,
}
use atrium_go.Ports.Accounts.{Session}
use atrium_go.Ports.Items.{Time}
use atrium_go.Sessions.Store.{
  Token, SessionTables, session_id, token_digest, by_session_id, by_digest, is_rival, reopen,
  upsert_session, token_of, open_session, update_one_session, declare_capabilities,
  replace_capabilities, touch, touch_session, opens, close_session, held_on, revoke_tokens_for,
}
use atrium_go.Sessions.Store.Places.{
  Stays, OnePerPlace, update_rows-OnePerPlace, delete_rows-OnePerPlace, append-OnePerPlace,
  reopen-OnePerPlace,
}
use atrium_go.Tables.{update_rows, delete_rows, any_row, count_rows}
use atrium_go.Tables.Keys.{
  Unique, update_rows-Unique, delete_rows-Unique, append-Unique, All-delete_rows,
}
use atrium_go.Text.Laws.{str_eq_iff, str_eq_refl}
use atrium_go.Text.{Text, str_eq}

-- The session that a token names is there.
abbrev pub Refers : List Session → Token → Type 0
Refers sessions t = any_row (by_session_id t.session_id) sessions ≡ true

pub record WellFormed (t : SessionTables) : Type 0 where
  pub ids : Unique session_id t.sessions
  pub places : OnePerPlace t.sessions
  pub digests : Unique token_digest t.tokens
  pub references : All (Refers t.sessions) t.tokens

-- What the callers of the store do, one operation at a time.
pub data Label : Type 0 where
  opened : Session → Text → Label
  declared : Text → Option Text → Label
  touched : Text → Time → Label
  closed : Text → Label
  revoked : Text → Text → Label

-- An operation that succeeds.
unfoldable pub run : Label → SessionTables → Option SessionTables
unfolding open_session replace_capabilities touch_session close_session revoke_tokens_for
run (opened s digest) t = open_session s digest t
run (declared k document) t = replace_capabilities k document t
run (touched k at) t = touch_session k at t
run (closed k) t = close_session k t
run (revoked user device) t = some (revoke_tokens_for user device t)

pub data Reach (s : SessionTables) : SessionTables → Type 0 where
  here : Reach s s
  next : {t u : SessionTables} → Reach s t → (l : Label) → run l t ≡ some u → Reach s u

pub guarded :
    {A : Type 0} (b : Bool) (x : A) {y : A} → (guard b >> some x) ≡ some y → (b ≡ true) × (x ≡ y)
guarded true x h = (refl, cc)
guarded false x h = cc

any_row-update_rows :
    (k : Text) (wanted : Session → Bool) (f : Session → Session) (rows : List Session)
    → ((r : Session) → (f r).id ≡ r.id)
    → any_row (by_session_id k) (update_rows wanted f rows) ≡ any_row (by_session_id k) rows
unfolding any_row update_rows
any_row-update_rows k wanted f [] e = refl
any_row-update_rows k wanted f (r ∷ rows) e =
    ground (arith, e r, any_row-update_rows k wanted f rows e)

any_row-append :
    (k : Text) (rows : List Session) (s : Session)
    → any_row (by_session_id k) (rows ++ s ∷ []) ≡ (any_row (by_session_id k) rows || str_eq s.id k)
unfolding any_row
any_row-append k [] s = ground arith
any_row-append k (r ∷ rows) s = ground (arith, any_row-append k rows s)

any_row-delete_rows :
    (j k : Text) (rows : List Session)
    → str_eq j k ≡ false
    → any_row (by_session_id j) rows ≡ true
    → any_row (by_session_id j) (delete_rows (by_session_id k) rows) ≡ true
unfolding any_row delete_rows
any_row-delete_rows j k [] n h = h
any_row-delete_rows j k (r ∷ rows) n h =
    ground
      (arith, any_row-delete_rows j k rows n, str_eq_iff r.id j, str_eq_iff r.id k, str_eq_iff j k)

All-map :
    {A : Type 0} (P Q : A → Type 0) (xs : List A) → ((x : A) → P x → Q x) → All P xs → All Q xs
All-map P Q [] f h = tt
All-map P Q (x ∷ xs) f h = (f x h.0, All-map P Q xs f h.1)

-- Statements that keep the identifiers keep what the tokens refer to.
updated-WellFormed :
    (f : Session → Session) (k : Text) (t : SessionTables)
    → Stays f
    → WellFormed t
    → WellFormed (record t { sessions = update_rows (by_session_id k) f t.sessions })
updated-WellFormed f k t e h = record {
  ids = update_rows-Unique session_id (by_session_id k) f t.sessions e.keeps_id h.ids;
  places = update_rows-OnePerPlace f k t.sessions e h.places;
  digests = h.digests;
  references =
      All-map (Refers t.sessions) _ t.tokens
        (λ x r. any_row-update_rows x.session_id (by_session_id k) f t.sessions e.keeps_id ∙ r)
        h.references;
}

update_one_session-WellFormed :
    (f : Session → Session) (k : Text) (t : SessionTables) {u : SessionTables}
    → Stays f
    → WellFormed t
    → update_one_session k f t ≡ some u
    → WellFormed u
unfolding update_one_session
update_one_session-WellFormed f k t e h r =
    let (g, same) = guarded (count_rows (by_session_id k) t.sessions == 1) _ r in
    subst WellFormed same (updated-WellFormed f k t e h)

declare-Stays : (document : Option Text) → Stays (declare_capabilities document)
declare-Stays document = record {
  keeps_id = λ r. refl;
  keeps_client = λ r. refl;
  keeps_device = λ r. refl;
}

touch-Stays : (at : Time) → Stays (touch at)
touch-Stays at = record { keeps_id = λ r. refl; keeps_client = λ r. refl; keeps_device = λ r. refl }

upsert_session-refers :
    (s : Session) (rows : List Session) (k : Text)
    → any_row (by_session_id k) (upsert_session s rows)
      ≡ (any_row (by_session_id k) rows || str_eq s.id k)
unfolding upsert_session
upsert_session-refers s rows k = elim (Bool-cases (any_row (by_session_id s.id) rows)) [
  | inr e ↦ rw e (any_row-append k rows s)
  | inl e ↦
      rw (e, any_row-update_rows k (by_session_id s.id) (reopen s) rows (λ r. refl))
        (already s rows k e)
]
  where
    already :
        (s : Session) (rows : List Session) (k : Text)
        → any_row (by_session_id s.id) rows ≡ true
        → any_row (by_session_id k) rows ≡ (any_row (by_session_id k) rows || str_eq s.id k)
    already s rows k e = ground (arith, str_eq_iff s.id k)

upsert_session-Unique :
    (s : Session) (rows : List Session)
    → Unique session_id rows
    → Unique session_id (upsert_session s rows)
unfolding upsert_session
upsert_session-Unique s rows h = elim (Bool-cases (any_row (by_session_id s.id) rows)) [
  | inr e ↦ rw e (append-Unique session_id rows s e h)
  | inl e ↦ rw e (update_rows-Unique session_id (by_session_id s.id) (reopen s) rows (λ r. refl) h)
]

upsert_session-OnePerPlace :
    (s : Session) (rows : List Session)
    → Unique session_id rows
    → any_row (is_rival s) rows ≡ false
    → OnePerPlace rows
    → OnePerPlace (upsert_session s rows)
unfolding upsert_session
upsert_session-OnePerPlace s rows u v p = elim (Bool-cases (any_row (by_session_id s.id) rows)) [
  | inr e ↦ rw e (append-OnePerPlace s rows e v p)
  | inl e ↦ rw e (reopen-OnePerPlace s rows u v p)
]

pub not-false : (b : Bool) → not b ≡ true → b ≡ false
not-false b h = ground arith

open_session-WellFormed :
    (s : Session) (digest : Text) (t : SessionTables) {u : SessionTables}
    → WellFormed t
    → open_session s digest t ≡ some u
    → WellFormed u
unfolding open_session
open_session-WellFormed s digest t h r =
    let (x, g, r) = >>=-some (guard (any_row (λ k. str_eq k s.user_id) t.accounts)) _ r in
    let (y, rival, r) = >>=-some (guard (not (any_row (is_rival s) t.sessions))) _ r in
    let (fresh, same) = guarded (not (any_row (by_digest digest) t.tokens)) _ r in
    subst WellFormed same (record {
      ids = upsert_session-Unique s t.sessions h.ids;
      places =
          upsert_session-OnePerPlace s t.sessions h.ids (not-false _ (guard-some _ y rival))
            h.places;
      digests =
          append-Unique token_digest t.tokens (token_of s digest) (not-false _ fresh) h.digests;
      references =
          All-append (Refers (upsert_session s t.sessions)) t.tokens (token_of s digest ∷ [])
            (All-map (Refers t.sessions) _ t.tokens (λ k r. kept k r) h.references) (own, tt);
    })
  where
    kept : (k : Token) → Refers t.sessions k → Refers (upsert_session s t.sessions) k
    kept k r = upsert_session-refers s t.sessions k.session_id ∙ ground arith

    own : Refers (upsert_session s t.sessions) (token_of s digest)
    own = upsert_session-refers s t.sessions s.id ∙ ground (arith, str_eq_refl s.id)

-- The tokens that are left refer to the sessions that are left.
closed-references :
    (k : Text) (sessions : List Session) (tokens : List Token)
    → All (Refers sessions) tokens
    → All (Refers (delete_rows (by_session_id k) sessions)) (delete_rows (opens k) tokens)
unfolding delete_rows
closed-references k sessions [] h = tt
closed-references k sessions (t ∷ tokens) h = elim (Bool-cases (str_eq t.session_id k)) [
  | inl e ↦ rw e (closed-references k sessions tokens h.1)
  | inr e ↦
      rw e
        (any_row-delete_rows t.session_id k sessions e h.0, closed-references k sessions tokens h.1)
]

close_session-WellFormed :
    (k : Text) (t : SessionTables) {u : SessionTables}
    → WellFormed t
    → close_session k t ≡ some u
    → WellFormed u
unfolding close_session
close_session-WellFormed k t h r =
    let (g, same) = guarded (count_rows (by_session_id k) t.sessions == 1) _ r in
    subst WellFormed same (record {
      ids = delete_rows-Unique session_id (by_session_id k) t.sessions h.ids;
      places = delete_rows-OnePerPlace (by_session_id k) t.sessions h.places;
      digests = delete_rows-Unique token_digest (opens k) t.tokens h.digests;
      references = closed-references k t.sessions t.tokens h.references;
    })

revoked-WellFormed :
    (user device : Text) (t : SessionTables)
    → WellFormed t
    → WellFormed (revoke_tokens_for user device t)
unfolding revoke_tokens_for
revoked-WellFormed user device t h = record {
  ids = h.ids;
  places = h.places;
  digests = delete_rows-Unique token_digest (held_on user device) t.tokens h.digests;
  references = All-delete_rows (Refers t.sessions) (held_on user device) t.tokens h.references;
}

pub run-WellFormed :
    (l : Label) (t : SessionTables) {u : SessionTables}
    → WellFormed t
    → run l t ≡ some u
    → WellFormed u
unfolding run replace_capabilities touch_session
run-WellFormed (opened s digest) t h r = open_session-WellFormed s digest t h r
run-WellFormed (declared k document) t h r =
    update_one_session-WellFormed (declare_capabilities document) k t (declare-Stays document) h r
run-WellFormed (touched k at) t h r =
    update_one_session-WellFormed (touch at) k t (touch-Stays at) h r
run-WellFormed (closed k) t h r = close_session-WellFormed k t h r
run-WellFormed (revoked user device) t h r =
    subst WellFormed (some-injective r) (revoked-WellFormed user device t h)
  where
    some-injective : {x y : SessionTables} → some x ≡ some y → x ≡ y
    some-injective e = cc

-- Whatever sequence of operations succeeds, no two sessions have one identifier, no two stand for
-- one client on one device, no two tokens have one digest, and every token names a session that is
-- there.
pub Reach-WellFormed : {s t : SessionTables} → WellFormed s → Reach s t → WellFormed t
Reach-WellFormed h here = h
Reach-WellFormed h (next {t = t} r l e) = run-WellFormed l t (Reach-WellFormed h r) e
