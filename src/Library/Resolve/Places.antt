-- ===== src/Library/Resolve/Places.antt =====
-- No file is lost and none is doubled while internal/library/shows.go places the episodes.
use atrium_go.Base.{
  ℕ, Option, none, some, List, [], ◌∷◌, ◌≡◌, refl, total, arith, map, ap, sym, ◌∙◌, total-append,
  total-map, total_zero, inl, inr, Bool-cases,
}
use atrium_go.Library.Data.{Library, Entry, Reading, Note}
use atrium_go.Library.Episodes.{
  SeriesGroup, series_of, episode_item, directory_number, placed_in, placed_with, place_episode,
  place_episodes, season_item, series_items, show_candidates, season_number_of, resolve_shows,
}
use atrium_go.Library.ShowNames.{ShowCandidate, classify_show}
use atrium_go.Library.Resolve.Attempts.{done_of, done-injective}
use atrium_go.Library.Resolve.Weights.{item_weight, reading_weight}
use atrium_go.Library.Tools.{Tools, done, normalised}
use atrium_go.Ports.Items.{ScannedItem}
use atrium_go.Text.{Text, nonempty}

module _ (weight : Entry → ℕ) (tools : Tools) (lib : Library) where
  abbrev show_weight : ShowCandidate → ℕ
  show_weight c = weight c.entry

  placed_in-weight :
      (c : ShowCandidate) (k series_key : Text) (gs : List SeriesGroup) (directory : Option ℕ)
      (g : SeriesGroup) (season : Option ℕ)
      → item_weight weight (placed_in tools lib c k series_key gs directory g season).0
        ≡ show_weight c
  unfolding episode_item
  placed_in-weight c k series_key gs directory g none = omega arith
  placed_in-weight c k series_key gs directory g (some n) = omega arith

  placed_with-weight :
      (c : ShowCandidate) (k series_key : Text) (gs : List SeriesGroup) (found : Option SeriesGroup)
      {r : ScannedItem × List SeriesGroup}
      → placed_with tools lib c k series_key gs found ≡ done r
      → item_weight weight r.0 ≡ show_weight c
  placed_with-weight c k series_key gs none h = cc
  placed_with-weight c k series_key gs (some g) h =
      let (directory, e, last) = done_of (directory_number tools lib c) _ h in
      sym
        (ap (λ (r : ScannedItem × List SeriesGroup). item_weight weight r.0) (done-injective last))
      ∙ placed_in-weight c k series_key gs directory g (season_number_of c directory)

  place_episode-weight :
      (parent : Text) (c : ShowCandidate) (gs : List SeriesGroup)
      {r : ScannedItem × List SeriesGroup}
      → place_episode tools lib parent c gs ≡ done r
      → item_weight weight r.0 ≡ show_weight c
  unfolding place_episode episode_item
  place_episode-weight parent c gs {r} h =
      let (k, e, named) = done_of (normalised tools lib c.entry.path) _ h in
      elim (Bool-cases (nonempty c.series_name)) [
        | inl some_name ↦
            let (s, f, last) =
              done_of (normalised tools lib c.series_name) _ (rw some_name at named) in
            placed_with-weight c k s gs _ last
        | inr unnamed ↦
            sym (
              ap (λ (r : ScannedItem × List SeriesGroup). item_weight weight r.0)
                (done-injective (rw unnamed at named)))
            ∙ omega arith
      ]

  place_episodes-total :
      (parent : Text) (cs : List ShowCandidate) (gs : List SeriesGroup)
      {r : List ScannedItem × List SeriesGroup}
      → place_episodes tools lib parent cs gs ≡ done r
      → total (item_weight weight) r.0 ≡ total show_weight cs
  unfolding place_episodes
  place_episodes-total parent [] gs h = sym (
      ap (λ (r : List ScannedItem × List SeriesGroup). total (item_weight weight) r.0)
        (done-injective h))
  place_episodes-total parent (c ∷ cs) gs h =
      let (placed, e, h1) = done_of (place_episode tools lib parent c gs) _ h in
      let (rest, f, last) = done_of (place_episodes tools lib parent cs placed.1) _ h1 in
      sym (
        ap (λ (r : List ScannedItem × List SeriesGroup). total (item_weight weight) r.0)
          (done-injective last))
      ∙ omega (arith, place_episode-weight parent c gs e, place_episodes-total parent cs placed.1 f)

  series_items-total :
      (parent : Text) (gs : List SeriesGroup)
      → total (item_weight weight) (series_items tools lib parent gs) ≡ 0
  series_items-total parent [] = refl
  series_items-total parent (g ∷ gs) = omega (
    arith,
    total-append (item_weight weight) (map (season_item tools lib g.id) g.seasons)
        (series_items tools lib parent gs),
    total-map (item_weight weight) (season_item tools lib g.id) g.seasons,
    total_zero (λ s. item_weight weight (season_item tools lib g.id s)) g.seasons (λ s. refl),
    series_items-total parent gs,
  )

  show_candidates-weight :
      (rs : List Reading)
      → total show_weight (show_candidates tools lib rs) ≡ total (reading_weight weight) rs
  unfolding show_candidates classify_show
  show_candidates-weight [] = refl
  show_candidates-weight (r ∷ rs) = omega (
    arith,
    total-append show_weight (map (classify_show tools r.root) r.entries)
        (show_candidates tools lib rs),
    total-map show_weight (classify_show tools r.root) r.entries,
    show_candidates-weight rs,
  )

  -- The episodes of a library hold the files that were read, each once.
  pub resolve_shows-weight :
      (rs : List Reading) (parent : Text) {found : List ScannedItem × List Note}
      → resolve_shows tools lib rs parent ≡ done found
      → total (item_weight weight) found.0 ≡ total (reading_weight weight) rs
  unfolding resolve_shows
  resolve_shows-weight rs parent h =
      let candidates = show_candidates tools lib rs in
      let (gs, e, h1) = done_of (series_of tools lib candidates []) _ h in
      let (placed, f, last) = done_of (place_episodes tools lib parent candidates gs) _ h1 in
      sym (
        ap (λ (r : List ScannedItem × List Note). total (item_weight weight) r.0)
          (done-injective last))
      ∙ omega (
        arith,
        total-append (item_weight weight) (series_items tools lib parent placed.1) placed.0,
        series_items-total parent placed.1,
        place_episodes-total parent candidates gs f,
        show_candidates-weight rs,
      )
