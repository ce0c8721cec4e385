-- ===== src/Sessions/Store/Tests.antt =====
-- A session is opened twice, from two accounts on one device, and closed.
use atrium_go.Text.{str_eq}
use atrium_go.Tables.{any_row, count_rows, delete_rows, update_rows}
use atrium_go.Base.{◌≡◌, refl, ◌⊎◌, none, some, [], ◌∷◌}
use atrium_go.Base.Int.{pos}
use atrium_go.Ports.Accounts.{Session}
use atrium_go.Sessions.Store.{
  SessionTables, open_session, close_session, session_by_token_digest, token_of,
}
use atrium_go.Sessions.Store.Invariant.{
  opened, closed, run, here, next, WellFormed, Reach-WellFormed,
}
use atrium_go.Sessions.Store.Refinement.{Opened, view, promise, run-view}
use atrium_go.Sessions.Store.Resolution.{session_by_token_digest-view}
use atrium_go.Text.{codes}

abbrev tv : Session
tv = record {
  id = codes "s";
  user_id = codes "1";
  client = codes "Atrium";
  device_id = codes "tv";
  device_name = codes "TV";
  application_version = codes "1";
  remote_endpoint = codes "::1";
  capabilities_document = none;
  created_at = pos 5;
  last_activity_at = pos 5;
  last_playback_check_in_at = pos 0;
}

abbrev again : Session
again = record tv { user_id = codes "2"; created_at = pos 9; last_activity_at = pos 9 }

abbrev empty : SessionTables
empty = record { accounts = codes "1" ∷ codes "2" ∷ []; sessions = []; tokens = [] }

abbrev once : SessionTables
once = record empty { sessions = tv ∷ []; tokens = token_of tv (codes "a") ∷ [] }

-- The session is the same one: it was created when it was, and has the other user.
abbrev twice : SessionTables
twice = record empty {
  sessions = record tv { user_id = codes "2"; last_activity_at = pos 9 } ∷ [];
  tokens = token_of tv (codes "a") ∷ token_of again (codes "b") ∷ [];
}

opens_once : run (opened tv (codes "a")) empty ≡ some once
unfolding run open_session any_row str_eq
opens_once = refl

opens_twice : run (opened again (codes "b")) once ≡ some twice
unfolding run open_session any_row str_eq update_rows
opens_twice = refl

closes : run (closed (codes "s")) twice ≡ some empty
unfolding run close_session count_rows str_eq delete_rows
closes = refl

empty-WellFormed : WellFormed empty
empty-WellFormed = record { ids = tt; places = tt; digests = tt; references = tt }

Reach-WellFormed_example : WellFormed twice
Reach-WellFormed_example =
    Reach-WellFormed empty-WellFormed
      (next (next here (opened tv (codes "a")) opens_once) (opened again (codes "b")) opens_twice)

twice-WellFormed : WellFormed twice
twice-WellFormed =
    Reach-WellFormed empty-WellFormed
      (next (next here (opened tv (codes "a")) opens_once) (opened again (codes "b")) opens_twice)

run-view_example : view empty (codes "a") ≡ promise (closed (codes "s")) (view twice) (codes "a")
run-view_example = run-view (closed (codes "s")) (codes "a") twice twice-WellFormed closes

session_by_token_digest-view_example :
    ((view twice (codes "a") ≡ none) × (session_by_token_digest (codes "a") twice ≡ none))
    ⊎ ((o : Opened) × (s : Session) × (view twice (codes "a") ≡ some o)
        × (session_by_token_digest (codes "a") twice ≡ some (s, o.user))
        × (s.id ≡ o.session))
session_by_token_digest-view_example =
    session_by_token_digest-view (codes "a") twice twice-WellFormed
