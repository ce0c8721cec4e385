-- ===== src/Sessions/Tests.antt =====
-- The session list and the ceiling at three sessions of two users.
use atrium_go.Base.{
  some, ◌≡◌, refl, ◌≤◌, ◌<◌, ◌+◌, ◌-◌, true, false, List, [], ◌∷◌, inl, arith, keep, In, length,
  ◌&&◌,
}
use atrium_go.Base.Int.{ℤ, pos, wrap_i64, ◌-ℤ◌, ◌≤ℤ◌}
use atrium_go.Ports.Accounts.{Session}
use atrium_go.Sessions.Evictions.{length-evictions, left_open, LeastUsed, evictions-LeastUsed}
use atrium_go.Sessions.Visible.{device_wanted, caller_wanted, activity_wanted, visible-keep}
use atrium_go.Sessions.{
  Caller, Selection, window_ticks, is_active, visible, session_less, others, evictions,
}
use atrium_go.Sorting.{sort_by}
use atrium_go.Text.{Text, codes, str_eq, str_lt, equal_fold_ascii}

abbrev session : Text → Text → Text → ℤ → Session
session i u d t = record {
  id = i;
  user_id = u;
  client = codes "web";
  device_id = d;
  device_name = d;
  application_version = codes "1";
  remote_endpoint = [];
  capabilities_document = some (codes "{}");
  created_at = pos 0;
  last_activity_at = t;
  last_playback_check_in_at = pos 0;
}

abbrev open_sessions : List Session
open_sessions =
    session (codes "s1") (codes "ann") (codes "TV") (pos 900)
    ∷ session (codes "s2") (codes "bob") (codes "tv") (pos 50_000_000)
    ∷ session (codes "s3") (codes "ann") (codes "Phone") (pos 400)
    ∷ []

abbrev ann : Caller
ann = record { user_id = codes "ann"; is_administrator = false }

abbrev root : Caller
root = record { user_id = codes "root"; is_administrator = true }

abbrev on_tv : Selection
on_tv = record { device_id = codes "tv"; controllable_by_user = []; active_within_seconds = pos 1 }

visible_to_root :
    visible equal_fold_ascii open_sessions root on_tv (pos 50_000_100)
    ≡ session (codes "s2") (codes "bob") (codes "tv") (pos 50_000_000) ∷ []
unfolding visible equal_fold_ascii is_active window_ticks wrap_i64 ◌-ℤ◌
visible_to_root = refl

visible-keep_example :
    visible equal_fold_ascii open_sessions ann on_tv (pos 1000)
    ≡ keep
        (λ s.
          device_wanted equal_fold_ascii on_tv s
          && caller_wanted equal_fold_ascii ann on_tv s
          && activity_wanted equal_fold_ascii on_tv (pos 1000) s)
        open_sessions
visible-keep_example = visible-keep equal_fold_ascii open_sessions ann on_tv (pos 1000)

evicts_oldest : evictions open_sessions (codes "ann") (codes "new") (pos 2) ≡ codes "s3" ∷ []
unfolding evictions sort_by session_less str_eq str_lt
evicts_oldest = refl

length-evictions_example :
    let rivals = others open_sessions (codes "ann") (codes "new") in
    let closed = evictions open_sessions (codes "ann") (codes "new") (pos 2) in
    (length (left_open closed rivals) + 1 ≤ 2)
    × (length closed ≤ length rivals)
    × (0 < length closed → length rivals - length closed + 1 ≡ 2)
length-evictions_example =
    length-evictions open_sessions (codes "ann") (codes "new") 2 (omega arith)

s3_evicted : In (codes "s3") (evictions open_sessions (codes "ann") (codes "new") (pos 2))
unfolding evictions sort_by session_less str_eq str_lt
s3_evicted = inl refl

evictions-LeastUsed_example :
    LeastUsed
      (others open_sessions (codes "ann") (codes "new"))
      (evictions open_sessions (codes "ann") (codes "new") (pos 2))
      (codes "s3")
    × (pos 1 ≤ℤ pos 2)
evictions-LeastUsed_example =
    evictions-LeastUsed open_sessions (codes "ann") (codes "new") (pos 2) (codes "s3") s3_evicted
