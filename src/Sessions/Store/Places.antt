-- ===== src/Sessions/Store/Places.antt =====
-- One session for each client on each device, and what the statements do to that.
use mathlib.Core.Path.{subst}
use atrium_go.Base.{
  ◌≡◌, refl, inl, inr, Bool, false, ◌&&◌, List, [], ◌∷◌, ◌++◌, arith, if◌then◌else◌, All,
  All-append, Bool-cases,
}
use atrium_go.Ports.Accounts.{Session}
use atrium_go.Sessions.Store.{session_id, by_session_id, is_rival, reopen}
use atrium_go.Tables.{update_rows, delete_rows, any_row}
use atrium_go.Tables.Keys.{Unique, All-delete_rows, str_eq_sym}
use atrium_go.Text.Laws.{str_eq_iff}
use atrium_go.Text.{Text, str_eq}

-- Two sessions of one client on one device.
abbrev pub same_place : Session → Session → Bool
same_place a b = str_eq a.client b.client && str_eq a.device_id b.device_id

abbrev pub OnePerPlace : List Session → Type 0
OnePerPlace [] = Unit
OnePerPlace (s ∷ ss) = All (λ r. same_place r s ≡ false) ss × OnePerPlace ss

-- An update that leaves the identifier, the client and the device alone.
pub record Stays (f : Session → Session) : Type 0 where
  pub keeps_id : (r : Session) → (f r).id ≡ r.id
  pub keeps_client : (r : Session) → (f r).client ≡ r.client
  pub keeps_device : (r : Session) → (f r).device_id ≡ r.device_id

All-Stays :
    (f : Session → Session) (k : Text) (s : Session) (rows : List Session)
    → Stays f
    → All (λ r. same_place r s ≡ false) rows
    → All (λ r. same_place r s ≡ false) (update_rows (by_session_id k) f rows)
unfolding update_rows
All-Stays f k s [] e h = tt
All-Stays f k s (r ∷ rows) e h =
    (ground (arith, e.keeps_client r, e.keeps_device r), All-Stays f k s rows e h.1)

All-moved :
    (f : Session → Session) (b : Bool) (s : Session) (rows : List Session)
    → Stays f
    → All (λ r. same_place r s ≡ false) rows
    → All (λ r. same_place r (if b then f s else s) ≡ false) rows
All-moved f b s [] e h = tt
All-moved f b s (r ∷ rows) e h =
    (ground (arith, e.keeps_client s, e.keeps_device s), All-moved f b s rows e h.1)

pub update_rows-OnePerPlace :
    (f : Session → Session) (k : Text) (rows : List Session)
    → Stays f
    → OnePerPlace rows
    → OnePerPlace (update_rows (by_session_id k) f rows)
unfolding update_rows
update_rows-OnePerPlace f k [] e h = tt
update_rows-OnePerPlace f k (r ∷ rows) e h = (
  All-moved f (by_session_id k r) r (update_rows (by_session_id k) f rows) e
      (All-Stays f k r rows e h.0),
  update_rows-OnePerPlace f k rows e h.1,
)

pub delete_rows-OnePerPlace :
    (gone : Session → Bool) (rows : List Session)
    → OnePerPlace rows
    → OnePerPlace (delete_rows gone rows)
unfolding delete_rows
delete_rows-OnePerPlace gone [] h = tt
delete_rows-OnePerPlace gone (r ∷ rows) h = elim (Bool-cases (gone r)) [
  | inl e ↦ rw e (delete_rows-OnePerPlace gone rows h.1)
  | inr e ↦ rw e (All-delete_rows _ gone rows h.0, delete_rows-OnePerPlace gone rows h.1)
]

same_place-sym : (a b : Session) → same_place a b ≡ same_place b a
same_place-sym a b =
    ground (arith, str_eq_sym a.client b.client, str_eq_sym a.device_id b.device_id)

pub append-OnePerPlace :
    (s : Session) (rows : List Session)
    → any_row (by_session_id s.id) rows ≡ false
    → any_row (is_rival s) rows ≡ false
    → OnePerPlace rows
    → OnePerPlace (rows ++ s ∷ [])
unfolding any_row
append-OnePerPlace s [] h k p = (tt, tt)
append-OnePerPlace s (r ∷ rows) h k p = (
  All-append (λ t. same_place t r ≡ false) rows (s ∷ []) p.0
      (ground (arith, same_place-sym s r), tt),
  append-OnePerPlace s rows (ground arith) (ground arith) p.1,
)

-- The rows that are not the one that is reopened stay clear of its place.
All-reopened :
    (s r : Session) (rows : List Session)
    → str_eq r.id s.id ≡ false
    → is_rival s r ≡ false
    → All (λ t. same_place t r ≡ false) rows
    → All (λ t. same_place t r ≡ false) (update_rows (by_session_id s.id) (reopen s) rows)
unfolding update_rows
All-reopened s r [] n v h = tt
All-reopened s r (t ∷ rows) n v h =
    (ground (arith, same_place-sym s r), All-reopened s r rows n v h.1)

update_rows-none :
    (k : Text) (f : Session → Session) (rows : List Session)
    → All (λ t. str_eq t.id k ≡ false) rows
    → update_rows (by_session_id k) f rows ≡ rows
unfolding update_rows
update_rows-none k f [] h = refl
update_rows-none k f (r ∷ rows) h = rw (h.0, update_rows-none k f rows h.1) refl

All-clear :
    (s : Session) (rows : List Session)
    → All (λ t. str_eq t.id s.id ≡ false) rows
    → any_row (is_rival s) rows ≡ false
    → All (λ t. same_place t s ≡ false) rows
unfolding any_row
All-clear s [] h k = tt
All-clear s (r ∷ rows) h k = (ground arith, All-clear s rows h.1 (ground arith))

pub reopen-OnePerPlace :
    (s : Session) (rows : List Session)
    → Unique session_id rows
    → any_row (is_rival s) rows ≡ false
    → OnePerPlace rows
    → OnePerPlace (update_rows (by_session_id s.id) (reopen s) rows)
unfolding update_rows any_row
reopen-OnePerPlace s [] u v p = tt
reopen-OnePerPlace s (r ∷ rows) u v p = elim (Bool-cases (str_eq r.id s.id)) [
  | inr e ↦
      rw e (
        All-reopened s r rows e (ground arith) p.0,
        reopen-OnePerPlace s rows u.1 (ground arith) p.1,
      )
  | inl e ↦
      let apart =
        subst (λ (k : Text). All (λ t. str_eq t.id k ≡ false) rows) ((str_eq_iff r.id s.id).0 e)
          u.0 in
      rw (e, update_rows-none s.id (reopen s) rows apart)
        (All-clear s rows apart (ground arith), p.1)
]
