-- ===== src/Sessions/Store.antt =====
-- internal/store/sqlite/sessions.go: the sessions and the access tokens that open them. The state
-- is the two tables of migrations/precious/0002_users_and_sessions.sql and the identifiers of the
-- accounts that they refer to. Every operation is one statement or one transaction, and fails with
-- nothing changed where a key, a foreign key or a count of rows is not as it wants; what a driver
-- may fail at besides is left out.
pub mod Places
pub mod Invariant
pub mod Refinement
pub mod Resolution
mod Tests
use mathlib.Core.Option
use atrium_go.Base.{
  ℕ, Bool, true, false, not, ◌&&◌, ◌||◌, Option, none, some, List, [], ◌∷◌, ◌++◌, ◌==◌,
  if◌then◌else◌, guard, ◌>>=◌, ◌>>◌,
}
use atrium_go.Base.Int.{eqb_ℤ, ltb_ℤ}
use atrium_go.Ports.Accounts.{Session}
use atrium_go.Ports.Items.{Time}
use atrium_go.Sorting.{sort_by}
use atrium_go.Tables.{find_row, update_rows, delete_rows, count_rows, any_row}
use atrium_go.Text.{Text, str_eq, str_lt}

-- A row of `access_tokens`.
pub record Token : Type 0 where
  pub digest : Text
  pub user_id : Text
  pub session_id : Text
  pub device_id : Text
  pub created_at : Time

pub record SessionTables : Type 0 where
  pub accounts : List Text
  pub sessions : List Session
  pub tokens : List Token

abbrev pub session_id : Session → Text
session_id s = s.id

abbrev pub token_digest : Token → Text
token_digest t = t.digest

abbrev pub by_session_id : Text → Session → Bool
by_session_id k s = str_eq s.id k

abbrev pub by_digest : Text → Token → Bool
by_digest k t = str_eq t.digest k

-- Another session of the client on the device, which UNIQUE (client, device_id) excludes.
abbrev pub is_rival : Session → Session → Bool
is_rival s r = not (str_eq r.id s.id) && str_eq r.client s.client && str_eq r.device_id s.device_id

-- The columns that ON CONFLICT(id) DO UPDATE sets.
abbrev pub reopen : Session → Session → Session
reopen s r = record r {
  user_id = s.user_id;
  client = s.client;
  device_id = s.device_id;
  device_name = s.device_name;
  application_version = s.application_version;
  remote_endpoint = s.remote_endpoint;
  last_activity_at = s.last_activity_at;
}

unfoldable pub upsert_session : Session → List Session → List Session
upsert_session s rows =
    if any_row (by_session_id s.id) rows
    then update_rows (by_session_id s.id) (reopen s) rows
    else rows ++ s ∷ []

abbrev pub token_of : Session → Text → Token
token_of s digest = record {
  digest = digest;
  user_id = s.user_id;
  session_id = s.id;
  device_id = s.device_id;
  created_at = s.last_activity_at;
}

-- `OpenSession`.
unfoldable pub open_session : Session → Text → SessionTables → Option SessionTables
unfolding upsert_session
open_session s digest t = do
  guard (any_row (λ k. str_eq k s.user_id) t.accounts)
  guard (not (any_row (is_rival s) t.sessions))
  guard (not (any_row (by_digest digest) t.tokens))
  some (record t {
    sessions = upsert_session s t.sessions;
    tokens = t.tokens ++ token_of s digest ∷ [];
  })

-- `SessionByTokenDigest`: the join, and the user of the token.
unfoldable pub session_by_token_digest : Text → SessionTables → Option (Session × Text)
session_by_token_digest digest t = do
  token ← find_row (by_digest digest) t.tokens
  session ← find_row (by_session_id token.session_id) t.sessions
  some (session, token.user_id)

-- `ORDER BY created_at, id`.
abbrev pub opened_before : Session → Session → Bool
opened_before a b =
    if eqb_ℤ a.created_at b.created_at then str_lt a.id b.id else ltb_ℤ a.created_at b.created_at

-- `Sessions`.
unfoldable pub list_sessions : SessionTables → List Session
list_sessions t = sort_by opened_before t.sessions

-- `updateOneSession`.
unfoldable pub update_one_session :
    Text → (Session → Session) → SessionTables → Option SessionTables
update_one_session k f t = do
  guard (count_rows (by_session_id k) t.sessions == 1)
  some (record t { sessions = update_rows (by_session_id k) f t.sessions })

-- `ReplaceCapabilities` and `TouchSession`.
abbrev pub declare_capabilities : Option Text → Session → Session
declare_capabilities document s = record s { capabilities_document = document }

unfoldable pub replace_capabilities : Text → Option Text → SessionTables → Option SessionTables
unfolding update_one_session
replace_capabilities k document = update_one_session k (declare_capabilities document)

abbrev pub touch : Time → Session → Session
touch at s = record s { last_activity_at = at }

unfoldable pub touch_session : Text → Time → SessionTables → Option SessionTables
unfolding update_one_session
touch_session k at = update_one_session k (touch at)

abbrev pub opens : Text → Token → Bool
opens k t = str_eq t.session_id k

-- `CloseSession`: the tokens first, and the session, of which there is one.
unfoldable pub close_session : Text → SessionTables → Option SessionTables
close_session k t = do
  guard (count_rows (by_session_id k) t.sessions == 1)
  some (record t {
    sessions = delete_rows (by_session_id k) t.sessions;
    tokens = delete_rows (opens k) t.tokens;
  })

abbrev pub held_on : Text → Text → Token → Bool
held_on user device t = str_eq t.user_id user && str_eq t.device_id device

-- `RevokeTokensFor`.
unfoldable pub revoke_tokens_for : Text → Text → SessionTables → SessionTables
revoke_tokens_for user device t = record t { tokens = delete_rows (held_on user device) t.tokens }
