-- ===== src/Library/Numbering/Tests.antt =====
-- The numbers that the names of episodes carry.
use atrium_go.Base.{◌≡◌, refl, true, none, some, arith}
use atrium_go.Library.Numbering.RoundTrip.{
  parse_episode_numbering-episode_name, episode_name, both_numbers,
}
use atrium_go.Library.Numbering.{parse_episode_numbering, plausible_season}

twelfth_plausible : plausible_season 12 ≡ true
unfolding plausible_season
twelfth_plausible = refl

parse_episode_numbering-episode_name_example :
    parse_episode_numbering (λ year month day. none) (episode_name 12 7) ≡ some (both_numbers 12 7)
parse_episode_numbering-episode_name_example =
    parse_episode_numbering-episode_name 12 7 (λ year month day. none) twelfth_plausible
      (omega arith) (omega arith)
