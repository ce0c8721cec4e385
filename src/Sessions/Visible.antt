-- ===== src/Sessions/Visible.antt =====
-- The three steps of `Visible` are one filter, and the window saturates.
use atrium_go.Base.{
  ℕ, ◌*◌, ◌≤◌, ◌<◌, ◌≡◌, refl, sym, inl, inr, Bool, true, false, not, ◌&&◌, ◌||◌, List, [], ◌∷◌,
  arith, keep, Bool-cases,
}
use atrium_go.Base.Int.{pos, ltb_ℤ, wrap_i64_pos}
use atrium_go.Ports.Accounts.{Session}
use atrium_go.Ports.Items.{Time}
use atrium_go.Sessions.{
  Caller, Selection, ticks_per_second, max_ticks, max_window_seconds, window_ticks, is_active,
  visible, by_device, by_caller, by_activity,
}
use atrium_go.Text.{Text, str_eq, nonempty}

keep_none :
    (p : Session → Bool) (xs : List Session) → ((s : Session) → p s ≡ false) → keep p xs ≡ []
keep_none p [] h = refl
keep_none p (x ∷ xs) h = rw (h x) (keep_none p xs h)

keep_all : (p : Session → Bool) (xs : List Session) → ((s : Session) → p s ≡ true) → keep p xs ≡ xs
keep_all p [] h = refl
keep_all p (x ∷ xs) h = rw (h x, keep_all p xs h)

keep-ext :
    (p q : Session → Bool) (xs : List Session) → ((s : Session) → p s ≡ q s) → keep p xs ≡ keep q xs
keep-ext p q [] h = refl
keep-ext p q (x ∷ xs) h = rw (h x, keep-ext p q xs h)

keep-keep :
    (p q : Session → Bool) (xs : List Session) → keep q (keep p xs) ≡ keep (λ s. p s && q s) xs
keep-keep p q [] = refl
keep-keep p q (x ∷ xs) = ground (arith, keep-keep p q xs)

module _ (equal_fold : Text → Text → Bool) where
  -- What each parameter of the request asks of a session.
  abbrev pub device_wanted : Selection → Session → Bool
  device_wanted sel s = not (nonempty sel.device_id) || equal_fold s.device_id sel.device_id

  abbrev pub caller_wanted : Caller → Selection → Session → Bool
  caller_wanted caller sel s =
      not (nonempty sel.controllable_by_user)
      && (caller.is_administrator || str_eq s.user_id caller.user_id)

  abbrev pub activity_wanted : Selection → Time → Session → Bool
  activity_wanted sel now s =
      not (ltb_ℤ (pos 0) sel.active_within_seconds)
      || is_active now (window_ticks sel.active_within_seconds) s

  by_device-keep :
      (sel : Selection) (xs : List Session)
      → by_device equal_fold sel xs ≡ keep (device_wanted sel) xs
  unfolding by_device
  by_device-keep sel xs = elim (Bool-cases (nonempty sel.device_id)) [
    | inl e ↦ rw e (keep-ext _ _ xs (λ s. ground arith))
    | inr e ↦ rw e (sym (keep_all _ xs (λ s. ground arith)))
  ]

  by_caller-keep :
      (caller : Caller) (sel : Selection) (xs : List Session)
      → by_caller equal_fold caller sel xs ≡ keep (caller_wanted caller sel) xs
  unfolding by_caller
  by_caller-keep caller sel xs = elim (Bool-cases (nonempty sel.controllable_by_user)) [
    | inl e ↦ rw e (sym (keep_none _ xs (λ s. ground arith)))
    | inr e ↦ elim (Bool-cases caller.is_administrator) [
      | inl a ↦ rw (e, a) (sym (keep_all _ xs (λ s. ground arith)))
      | inr a ↦ rw (e, a) (keep-ext _ _ xs (λ s. ground arith))
    ]
  ]

  by_activity-keep :
      (sel : Selection) (now : Time) (xs : List Session)
      → by_activity equal_fold sel now xs ≡ keep (activity_wanted sel now) xs
  unfolding by_activity
  by_activity-keep sel now xs = elim (Bool-cases (ltb_ℤ (pos 0) sel.active_within_seconds)) [
    | inl e ↦ rw e (keep-ext _ _ xs (λ s. ground arith))
    | inr e ↦ rw e (sym (keep_all _ xs (λ s. ground arith)))
  ]

  -- `Visible` keeps, in their order, the sessions that pass all three tests: the device, if one is
  -- named; no user to control, and the caller's own unless the caller is an administrator; and the
  -- activity window, if it is positive.
  pub visible-keep :
      (all : List Session) (caller : Caller) (sel : Selection) (now : Time)
      → visible equal_fold all caller sel now
        ≡ keep
            (λ s. device_wanted sel s && caller_wanted caller sel s && activity_wanted sel now s)
            all
  unfolding visible
  visible-keep all caller sel now =
      rw (by_device-keep, by_caller-keep, by_activity-keep, keep-keep, keep-keep)
        (keep-ext _ _ all (λ s. ground arith))

-- The window in ticks is exact below the largest whole number of seconds that fits an int64 of
-- ticks, and is the largest tick count from there on, so that it never wraps.
pub window_ticks_bounds :
    (n : ℕ)
    → (n < max_window_seconds → window_ticks (pos n) ≡ pos (n * ticks_per_second))
      × (max_window_seconds ≤ n → window_ticks (pos n) ≡ pos max_ticks)
unfolding window_ticks
window_ticks_bounds n = (λ h. exact n h, λ h. ground arith)
  where
    exact : (n : ℕ) → n < max_window_seconds → window_ticks (pos n) ≡ pos (n * ticks_per_second)
    exact n h = ground (arith, wrap_i64_pos (n * ticks_per_second) (omega arith))
