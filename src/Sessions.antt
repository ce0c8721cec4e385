-- ===== src/Sessions.antt =====
-- internal/sessions: visible.go, the session list a caller may see, and ceiling.go, the sessions
-- that a login closes. `strings.EqualFold` folds by Unicode's tables, which are a parameter.
pub mod Visible
pub mod Store
pub mod Evictions
mod Tests
use atrium_go.Base.{
  ℕ, ◌+◌, ◌-◌, Bool, true, false, not, ◌&&◌, List, [], map, if◌then◌else◌, keep, length, take,
}
use atrium_go.Base.Int.{ℤ, pos, pos_part, ◌-ℤ◌, times, wrap_i64, ltb_ℤ, leb_ℤ, eqb_ℤ}
use atrium_go.Ports.Accounts.{Session}
use atrium_go.Ports.Items.{Time}
use atrium_go.Sorting.{sort_by}
use atrium_go.Text.{Text, str_eq, str_lt, nonempty}

pub record Caller : Type 0 where
  pub user_id : Text
  pub is_administrator : Bool

pub record Selection : Type 0 where
  pub device_id : Text
  pub controllable_by_user : Text
  pub active_within_seconds : ℤ

abbrev pub ticks_per_second : ℕ
ticks_per_second = 10_000_000

-- `math.MaxInt64`, and that many ticks in whole seconds.
abbrev pub max_ticks : ℕ
max_ticks = 9_223_372_036_854_775_807

abbrev pub max_window_seconds : ℕ
max_window_seconds = 922_337_203_685

unfoldable pub window_ticks : ℤ → ℤ
window_ticks seconds =
    if leb_ℤ (pos max_window_seconds) seconds
    then pos max_ticks
    else wrap_i64 (times seconds ticks_per_second)

-- The test of step 3, on int64 ticks.
unfoldable pub is_active : Time → ℤ → Session → Bool
is_active now window s = leb_ℤ (wrap_i64 (now -ℤ s.last_activity_at)) window

module _ (equal_fold : Text → Text → Bool) where
  by_device : Selection → List Session → List Session
  by_device sel xs =
      if nonempty sel.device_id then keep (λ s. equal_fold s.device_id sel.device_id) xs else xs

  by_caller : Caller → Selection → List Session → List Session
  by_caller caller sel xs =
      if nonempty sel.controllable_by_user
      then []
      else if caller.is_administrator
      then xs
      else keep (λ s. str_eq s.user_id caller.user_id) xs

  by_activity : Selection → Time → List Session → List Session
  by_activity sel now xs =
      if ltb_ℤ (pos 0) sel.active_within_seconds
      then keep (is_active now (window_ticks sel.active_within_seconds)) xs
      else xs

  -- `Visible`: its three steps, in their order.
  unfoldable pub visible : List Session → Caller → Selection → Time → List Session
  unfolding by_device by_caller by_activity
  visible all caller sel now = by_activity sel now (by_caller caller sel (by_device sel all))

-- The comparison of `Evictions`: the tick of the last use, then the identifier.
unfoldable pub session_less : Session → Session → Bool
session_less a b =
    if eqb_ℤ a.last_activity_at b.last_activity_at
    then str_lt a.id b.id
    else ltb_ℤ a.last_activity_at b.last_activity_at

-- The user's sessions other than the one that is being opened.
unfoldable pub others : List Session → Text → Text → List Session
others all user opening = keep (λ s. str_eq s.user_id user && not (str_eq s.id opening)) all

abbrev pub session_id : Session → Text
session_id s = s.id

unfoldable pub evictions : List Session → Text → Text → ℤ → List Text
unfolding others
evictions all user opening ceiling =
    let rivals = others all user opening in
    if ltb_ℤ ceiling (pos 1)
    then []
    else if ltb_ℤ (pos (length rivals)) ceiling
    then []
    else map session_id (take (length rivals - pos_part ceiling + 1) (sort_by session_less rivals))
