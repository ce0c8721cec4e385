-- ===== src/Sessions/Store/Resolution.antt =====
-- A token that is presented is resolved to the session that it names.

use mathlib.Core.Path.{subst}
use atrium_go.Base.{
  ◌≡◌, refl, ◌⊎◌, inl, inr, Bool, true, none, some, List, [], ◌∷◌, All, Option-cases, Bool-cases,
}
use atrium_go.Ports.Accounts.{Session}
use atrium_go.Sessions.Store.{SessionTables, by_session_id, by_digest, session_by_token_digest}
use atrium_go.Sessions.Store.Invariant.{WellFormed, Refers}
use atrium_go.Sessions.Store.Refinement.{Opened, opened_by, view, some-injective}
use atrium_go.Tables.{find_row, any_row}
use atrium_go.Tables.Keys.{find_row-has}
use atrium_go.Text.Laws.{str_eq_iff}
use atrium_go.Text.{Text}

find_row-All :
    {A : Type 0} (P : A → Type 0) (wanted : A → Bool) (rows : List A) {r : A}
    → All P rows
    → find_row wanted rows ≡ some r
    → P r
unfolding find_row
find_row-All P wanted [] h e = cc
find_row-All P wanted (s ∷ rows) {r} h e = elim (Bool-cases (wanted s)) [
  | inl b ↦ subst P (some-injective (rw b at e)) h.0
  | inr b ↦ find_row-All P wanted rows {r = r} h.1 (rw b at e)
]

any_row-some :
    {A : Type 0} (wanted : A → Bool) (rows : List A)
    → any_row wanted rows ≡ true
    → (r : A) × (find_row wanted rows ≡ some r)
unfolding any_row find_row
any_row-some wanted [] h = cc
any_row-some wanted (s ∷ rows) h = elim (Bool-cases (wanted s)) [
  | inl b ↦ (s, rw b refl)
  | inr b ↦ let (r, e) = any_row-some wanted rows (rw b at h) in (r, rw b e)
]

-- In a state that the store reaches, a digest that no token has resolves to nothing, and one that a
-- token has resolves to the session that the token names and to the user of the token.
pub session_by_token_digest-view :
    (d : Text) (t : SessionTables)
    → WellFormed t
    → ((view t d ≡ none) × (session_by_token_digest d t ≡ none))
      ⊎ ((o : Opened) × (s : Session) × (view t d ≡ some o)
          × (session_by_token_digest d t ≡ some (s, o.user))
          × (s.id ≡ o.session))
unfolding view session_by_token_digest
session_by_token_digest-view d t h = elim (Option-cases (find_row (by_digest d) t.tokens)) [
  | inl e ↦ inl (rw e refl, rw e refl)
  | inr (k, e) ↦
      let (s, f) =
        any_row-some (by_session_id k.session_id) t.sessions
          (find_row-All (Refers t.sessions) (by_digest d) t.tokens {r = k} h.references e) in
      inr (
        opened_by k,
        s,
        rw e refl,
        rw (e, f) refl,
        (str_eq_iff s.id k.session_id).0 (find_row-has (by_session_id k.session_id) t.sessions f),
      )
]
