-- ===== src/Library/Resolve/Crashes.antt =====
-- Where internal/library/resolve.go, and what it calls, looks up a group that it has made.
use atrium_go.Base.{
  true, ◌∙◌, ℕ, true, Option, none, some, List, [], ◌∷◌, ◌≡◌, ◌≢◌, refl, sym, ap, All, inl, inr,
  Bool-cases,
}
use atrium_go.Library.Data.{Library, Reading}
use atrium_go.Library.Episodes.{
  SeriesGroup, by_series_key, series_with, series_of, directory_number, placed_in, placed_with,
  place_episode, place_episodes, resolve_shows, show_candidates, season_number_of, enter_season,
}
use atrium_go.Library.ShowNames.{ShowCandidate}
use atrium_go.Library.Identity.{Key, key, refused}
use atrium_go.Library.Resolve.Attempts.{done_of, done-injective}
use atrium_go.Library.Resolve.Spared.{Sliced, Spares, show_candidates-Sliced}
use atrium_go.Library.Resolve.Lowered.{chained, parse_season_directory_name-safe}
use atrium_go.Library.Tools.{Tools, done, crashed, normalised, kept_key}
use atrium_go.Ports.Items.{ScannedItem}
use atrium_go.Tables.{find_row, any_row}
use atrium_go.Tables.Members.{
  any_row-found, any_row-append, any_row-append_new, any_row-update_rows,
}
use atrium_go.Text.Laws.{str_eq_refl}
use atrium_go.Text.{Text, nonempty}

kept_key-safe : (k : Key) → kept_key k ≢ crashed
kept_key-safe (key k) = λ i. cc
kept_key-safe (refused e) = λ i. cc

module _ (tools : Tools) (lib : Library) where
  pub normalised-safe : (p : Text) → normalised tools lib p ≢ crashed
  normalised-safe p = kept_key-safe _

  -- The series of an episode that names one is among the groups.
  abbrev Ready : List SeriesGroup → ShowCandidate → Type 0
  Ready gs c =
      (k : Text)
      → nonempty c.series_name ≡ true
      → normalised tools lib c.series_name ≡ done k
      → any_row (by_series_key k) gs ≡ true

  series_with-kept :
      (k i : Text) (c : ShowCandidate) (gs : List SeriesGroup)
      → any_row (by_series_key i) gs ≡ true
      → any_row (by_series_key i) (series_with tools lib k c gs) ≡ true
  series_with-kept k i c gs h = elim (Bool-cases (any_row (by_series_key k) gs)) [
    | inl e ↦ rw e h
    | inr e ↦ rw e (any_row-append (by_series_key i) gs _ h)
  ]

  series_with-there :
      (k : Text) (c : ShowCandidate) (gs : List SeriesGroup)
      → any_row (by_series_key k) (series_with tools lib k c gs) ≡ true
  series_with-there k c gs = elim (Bool-cases (any_row (by_series_key k) gs)) [
    | inl e ↦ rw e e
    | inr e ↦ rw e (any_row-append_new (by_series_key k) gs _ (str_eq_refl k))
  ]

  there_for :
      (s k : Text) (c : ShowCandidate) (gs : List SeriesGroup)
      → s ≡ k
      → any_row (by_series_key k) (series_with tools lib s c gs) ≡ true
  there_for s k c gs e = rw e (series_with-there k c gs)

  series_of-kept :
      (i : Text) (cs : List ShowCandidate) (gs : List SeriesGroup) {after : List SeriesGroup}
      → series_of tools lib cs gs ≡ done after
      → any_row (by_series_key i) gs ≡ true
      → any_row (by_series_key i) after ≡ true
  unfolding series_of
  series_of-kept i [] gs h k = rw (done-injective h) at k
  series_of-kept i (c ∷ cs) gs h k = elim (Bool-cases (nonempty c.series_name)) [
    | inl e ↦
        let (s, f, rest) = done_of (normalised tools lib c.series_name) _ (rw e at h) in
        series_of-kept i cs (series_with tools lib s c gs) rest (series_with-kept s i c gs k)
    | inr e ↦ series_of-kept i cs gs (rw e at h) k
  ]

  series_of-Ready :
      (cs : List ShowCandidate) (gs : List SeriesGroup) {after : List SeriesGroup}
      → series_of tools lib cs gs ≡ done after
      → All (Ready after) cs
  unfolding series_of
  series_of-Ready [] gs h = tt
  series_of-Ready (c ∷ cs) gs {after} h = elim (Bool-cases (nonempty c.series_name)) [
    | inl e ↦
        let (s, f, rest) = done_of (normalised tools lib c.series_name) _ (rw e at h) in
        (
          (λ k named m.
              series_of-kept k cs _ rest (there_for s k c gs (done-injective (sym f ∙ m)))),
          series_of-Ready cs (series_with tools lib s c gs) rest,
        )
    | inr e ↦ ((λ k named m. cc), series_of-Ready cs gs (rw e at h))
  ]

  placed_in-kept :
      (i : Text) (c : ShowCandidate) (k series_key : Text) (gs : List SeriesGroup)
      (directory : Option ℕ) (g : SeriesGroup) (season : Option ℕ)
      → any_row (by_series_key i) gs ≡ true
      → any_row (by_series_key i) (placed_in tools lib c k series_key gs directory g season).1
        ≡ true
  placed_in-kept i c k series_key gs directory g none h = h
  placed_in-kept i c k series_key gs directory g (some n) h =
      any_row-update_rows (by_series_key i) (by_series_key series_key)
        (enter_season tools lib c directory n) gs (λ r. refl) h

  placed_with-kept :
      (i : Text) (c : ShowCandidate) (k series_key : Text) (gs : List SeriesGroup)
      (found : Option SeriesGroup) {r : ScannedItem × List SeriesGroup}
      → placed_with tools lib c k series_key gs found ≡ done r
      → any_row (by_series_key i) gs ≡ true
      → any_row (by_series_key i) r.1 ≡ true
  placed_with-kept i c k series_key gs none h a = cc
  placed_with-kept i c k series_key gs (some g) {r} h a =
      let (directory, e, last) = done_of (directory_number tools lib c) _ h in
      sym (
        ap (λ (u : ScannedItem × List SeriesGroup). any_row (by_series_key i) u.1)
          (done-injective last))
      ∙ placed_in-kept i c k series_key gs directory g (season_number_of c directory) a

  module _ (parent : Text) where
    place_episode-kept :
        (i : Text) (c : ShowCandidate) (gs : List SeriesGroup) {r : ScannedItem × List SeriesGroup}
        → place_episode tools lib parent c gs ≡ done r
        → any_row (by_series_key i) gs ≡ true
        → any_row (by_series_key i) r.1 ≡ true
    unfolding place_episode
    place_episode-kept i c gs h a =
        let (k, e, named) = done_of (normalised tools lib c.entry.path) _ h in
        elim (Bool-cases (nonempty c.series_name)) [
          | inl some_name ↦
              let (s, f, last) =
                done_of (normalised tools lib c.series_name) _ (rw some_name at named) in
              placed_with-kept i c k s gs _ last a
          | inr unnamed ↦
              sym (
                ap (λ (u : ScannedItem × List SeriesGroup). any_row (by_series_key i) u.1)
                  (done-injective (rw unnamed at named)))
              ∙ a
        ]

    Ready-kept :
        (c : ShowCandidate) (gs : List SeriesGroup) (cs : List ShowCandidate)
        {r : ScannedItem × List SeriesGroup}
        → place_episode tools lib parent c gs ≡ done r
        → All (Ready gs) cs
        → All (Ready r.1) cs
    Ready-kept c gs [] h ready = tt
    Ready-kept c gs (d ∷ cs) h ready = (
      (λ k named m. place_episode-kept k c gs h (ready.0 k named m)),
      Ready-kept c gs cs h ready.1,
    )

  module _ (parent : Text) where
    directory_number-safe :
        (c : ShowCandidate) → Sliced tools lib c → directory_number tools lib c ≢ crashed
    directory_number-safe c sliced = elim (Bool-cases (nonempty c.season_dir)) [
      | inl e ↦ rw e (parse_season_directory_name-safe tools.folding.to_lower _ _ (sliced e))
      | inr e ↦ rw e (λ i. cc)
    ]

    placed_with-safe :
        (c : ShowCandidate) (k s : Text) (gs : List SeriesGroup) (found : Option SeriesGroup)
        → found ≢ none
        → Sliced tools lib c
        → placed_with tools lib c k s gs found ≢ crashed
    placed_with-safe c k s gs none h sliced = λ i. h refl
    placed_with-safe c k s gs (some g) h sliced =
        chained (directory_number tools lib c) _ (directory_number-safe c sliced) (λ d e i. cc)

    found-safe :
        (k : Text) (gs : List SeriesGroup)
        → any_row (by_series_key k) gs ≡ true
        → find_row (by_series_key k) gs ≢ none
    found-safe k gs h = let (g, e) = any_row-found (by_series_key k) gs h in λ n. cc

    place_episode-safe :
        (c : ShowCandidate) (gs : List SeriesGroup)
        → Ready gs c
        → Sliced tools lib c
        → place_episode tools lib parent c gs ≢ crashed
    unfolding place_episode
    place_episode-safe c gs ready sliced =
        chained (normalised tools lib c.entry.path) _ (normalised-safe c.entry.path) (λ k e.
          elim (Bool-cases (nonempty c.series_name)) [
            | inl named ↦ rw named (
                chained (normalised tools lib c.series_name) _ (normalised-safe c.series_name)
                  (λ s f. placed_with-safe c k s gs _ (found-safe s gs (ready s named f)) sliced))
            | inr unnamed ↦ rw unnamed (λ i. cc)
          ])

    place_episodes-safe :
        (cs : List ShowCandidate) (gs : List SeriesGroup)
        → All (Ready gs) cs
        → All (Sliced tools lib) cs
        → place_episodes tools lib parent cs gs ≢ crashed
    unfolding place_episodes
    place_episodes-safe [] gs ready sliced = λ i. cc
    place_episodes-safe (c ∷ cs) gs ready sliced =
        chained (place_episode tools lib parent c gs) _ (place_episode-safe c gs ready.0 sliced.0)
          (λ placed e.
            chained (place_episodes tools lib parent cs placed.1) _
              (place_episodes-safe cs placed.1 (Ready-kept parent c gs cs e ready.1) sliced.1)
              (λ rest f i. cc))

    series_of-safe :
        (cs : List ShowCandidate) (gs : List SeriesGroup) → series_of tools lib cs gs ≢ crashed
    unfolding series_of
    series_of-safe [] gs = λ i. cc
    series_of-safe (c ∷ cs) gs = elim (Bool-cases (nonempty c.series_name)) [
      | inl e ↦ rw e (
          chained (normalised tools lib c.series_name) _ (normalised-safe c.series_name)
            (λ k f. series_of-safe cs (series_with tools lib k c gs)))
      | inr e ↦ rw e (series_of-safe cs gs)
    ]

    -- The series of an episode is always there, and so is what its directory is sliced with.
    pub resolve_shows-safe :
        (rs : List Reading) → Spares tools lib rs → resolve_shows tools lib rs parent ≢ crashed
    unfolding resolve_shows
    resolve_shows-safe rs spares =
        let candidates = show_candidates tools lib rs in
        chained (series_of tools lib candidates []) _ (series_of-safe candidates []) (λ gs e.
          chained (place_episodes tools lib parent candidates gs) _
            (place_episodes-safe candidates gs (series_of-Ready candidates [] e)
              (show_candidates-Sliced tools lib rs spares))
            (λ placed f i. cc))
