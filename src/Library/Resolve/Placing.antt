-- ===== src/Library/Resolve/Placing.antt =====
-- What an episode of internal/library/shows.go is put beneath: a series, a season of it or the
-- library.
use mathlib.Core.Path.{subst}
use atrium_go.Base.{
  arith, ℕ, true, Option, none, some, List, [], ◌∷◌, ◌++◌, ◌≡◌, refl, ap, sym, ◌⊎◌, inl, inr, In,
  In-append_left, In-append_right, In-append_inv, In-map, In-map_inv, map, Bool-cases,
  if◌then◌else◌, not,
}
use atrium_go.Library.Data.{Library, Reading, Note}
use atrium_go.Library.Episodes.{
  SeasonGroup, SeriesGroup, by_series_key, enter_season, episode_item, placed_in, placed_with,
  place_episode, place_episodes, series_item, season_item, series_items, directory_number,
  season_number_of, series_of, show_candidates, resolve_shows, notes_of,
}
use atrium_go.Library.ShowNames.{ShowCandidate}
use atrium_go.Library.Resolve.Attempts.{done_of, done-injective}
use atrium_go.Library.Resolve.Climbing.{Beneath}
use atrium_go.Library.Resolve.Series.{Known, enter_season-season_of, update_series-Known}
use atrium_go.Library.Tools.{Tools, done, ◌>>=◌, normalised}
use atrium_go.Ports.Items.{ScannedItem}
use atrium_go.Tables.{find_row, update_rows}
use atrium_go.Tables.Members.{find_row-In, update_rows-In}
use atrium_go.Text.{Text, nonempty}

-- What is beneath the groups of one step is beneath those of the next, the item included.
record Placed (parent : Text) (gs : List SeriesGroup) (r : ScannedItem × List SeriesGroup)
    : Type 0 where
  place : (r.0.parent_id ≡ parent) ⊎ Known r.0.parent_id r.1
  kept : (i : Text) → Known i gs → Known i r.1

-- The same of several items.
abbrev pub AllPlaced : Text → List SeriesGroup → List ScannedItem × List SeriesGroup → Type 0
AllPlaced parent gs r =
    ((x : ScannedItem) → In x r.0 → (x.parent_id ≡ parent) ⊎ Known x.parent_id r.1)
    × ((i : Text) → Known i gs → Known i r.1)

both-AllPlaced :
    (parent : Text) (gs : List SeriesGroup) (placed : ScannedItem × List SeriesGroup)
    (rest : List ScannedItem × List SeriesGroup)
    → Placed parent gs placed
    → AllPlaced parent placed.1 rest
    → AllPlaced parent gs (placed.0 ∷ rest.0, rest.1)
both-AllPlaced parent gs placed rest one (all, kept) = (at, λ i h. kept i (one.kept i h))
  where
    first : (placed.0.parent_id ≡ parent) ⊎ Known placed.0.parent_id rest.1
    first = elim one.place [ inl e ↦ inl e | inr h ↦ inr (kept _ h) ]

    at :
        (x : ScannedItem)
        → In x (placed.0 ∷ rest.0)
        → (x.parent_id ≡ parent) ⊎ Known x.parent_id rest.1
    at x (inl e) = rw e first
    at x (inr h) = all x h

module _ (tools : Tools) (lib : Library) (parent : Text) where
  placed_in-Placed :
      (c : ShowCandidate) (k series_key : Text) (gs : List SeriesGroup) (directory : Option ℕ)
      (g : SeriesGroup) (season : Option ℕ)
      → In g gs
      → by_series_key series_key g ≡ true
      → Placed parent gs (placed_in tools lib c k series_key gs directory g season)
  unfolding episode_item
  placed_in-Placed c k series_key gs directory g none there hit = record {
    place = inr (g, there, inl refl);
    kept = λ i h. h;
  }
  placed_in-Placed c k series_key gs directory g (some n) there hit = record {
    place = inr (
      enter_season tools lib c directory n g,
      changed (
          update_rows-In (by_series_key series_key) (enter_season tools lib c directory n) g gs
            there),
      enter_season-season_of tools lib c directory n g,
    );
    kept = λ i h. update_series-Known tools lib c directory n series_key i gs h;
  }
    where
      changed :
          In
            (if by_series_key series_key g then enter_season tools lib c directory n g else g)
            (update_rows (by_series_key series_key) (enter_season tools lib c directory n) gs)
          → In
              (enter_season tools lib c directory n g)
              (update_rows (by_series_key series_key) (enter_season tools lib c directory n) gs)
      changed h = rw hit at h

  placed_with-Placed :
      (c : ShowCandidate) (k series_key : Text) (gs : List SeriesGroup) (found : Option SeriesGroup)
      {r : ScannedItem × List SeriesGroup}
      → find_row (by_series_key series_key) gs ≡ found
      → placed_with tools lib c k series_key gs found ≡ done r
      → Placed parent gs r
  placed_with-Placed c k series_key gs none f h = cc
  placed_with-Placed c k series_key gs (some g) {r} f h =
      let (there, hit) = find_row-In (by_series_key series_key) gs f in
      let (directory, e, last) =
        done_of (directory_number tools lib c)
          (λ d. done (placed_in tools lib c k series_key gs d g (season_number_of c d))) h in
      subst (λ u. Placed parent gs u) (done-injective last)
        (placed_in-Placed c k series_key gs directory g _ there hit)

  place_episode-Placed :
      (c : ShowCandidate) (gs : List SeriesGroup) {r : ScannedItem × List SeriesGroup}
      → place_episode tools lib parent c gs ≡ done r
      → Placed parent gs r
  unfolding place_episode episode_item
  place_episode-Placed c gs {r} h =
      let (k, e, named) =
        done_of (normalised tools lib c.entry.path)
          (λ k.
            if not (nonempty c.series_name)
            then done (episode_item tools lib c k parent none, gs)
            else (normalised tools lib c.series_name >>= λ series_key.
                placed_with tools lib c k series_key gs (find_row (by_series_key series_key) gs)))
          h in
      elim (Bool-cases (nonempty c.series_name)) [
        | inl some_name ↦
            let (s, f, last) =
              done_of (normalised tools lib c.series_name)
                (λ s. placed_with tools lib c k s gs (find_row (by_series_key s) gs))
                (rw some_name at named) in
            placed_with-Placed c k s gs _ refl last
        | inr unnamed ↦
            subst (λ u. Placed parent gs u) (done-injective (rw unnamed at named))
              (record { place = inl refl; kept = λ i known. known })
      ]

  pub place_episodes-AllPlaced :
      (cs : List ShowCandidate) (gs : List SeriesGroup) {r : List ScannedItem × List SeriesGroup}
      → place_episodes tools lib parent cs gs ≡ done r
      → AllPlaced parent gs r
  unfolding place_episodes
  place_episodes-AllPlaced [] gs {r} h =
      subst (λ u. AllPlaced parent gs u) (done-injective h) ((λ x i. elim i [ ]), λ i known. known)
  place_episodes-AllPlaced (c ∷ cs) gs {r} h =
      let (placed, e, h1) =
        done_of (place_episode tools lib parent c gs)
          (λ placed. place_episodes tools lib parent cs placed.1 >>= λ rest.
            done (placed.0 ∷ rest.0, rest.1))
          h in
      let (rest, f, h2) =
        done_of (place_episodes tools lib parent cs placed.1)
          (λ rest. done (placed.0 ∷ rest.0, rest.1)) h1 in
      subst (λ u. AllPlaced parent gs u) (done-injective h2)
        (both-AllPlaced parent gs placed rest (place_episode-Placed c gs e)
          (place_episodes-AllPlaced cs placed.1 f))

  series_item-In :
      (gs : List SeriesGroup) (g : SeriesGroup)
      → In g gs
      → In (series_item tools lib parent g) (series_items tools lib parent gs)
  series_item-In [] g i = elim i [ ]
  series_item-In (h ∷ gs) g (inl e) = inl (ap (series_item tools lib parent) e)
  series_item-In (h ∷ gs) g (inr i) =
      inr (In-append_right _ (map (season_item tools lib h.id) h.seasons) _ (series_item-In gs g i))

  season_item-In :
      (gs : List SeriesGroup) (g : SeriesGroup) (s : SeasonGroup)
      → In g gs
      → In s g.seasons
      → In (season_item tools lib g.id s) (series_items tools lib parent gs)
  season_item-In [] g s i k = elim i [ ]
  season_item-In (h ∷ gs) g s (inl e) k = inr (
      In-append_left _ (map (season_item tools lib h.id) h.seasons) _ (
        subst
          (λ (u : SeriesGroup).
            In (season_item tools lib g.id s) (map (season_item tools lib u.id) u.seasons))
          e (In-map (season_item tools lib g.id) s g.seasons k)))
  season_item-In (h ∷ gs) g s (inr i) k =
      inr (
        In-append_right _ (map (season_item tools lib h.id) h.seasons) _
          (season_item-In gs g s i k))

  series_items-parent :
      (gs : List SeriesGroup) (x : ScannedItem)
      → In x (series_items tools lib parent gs)
      → (x.parent_id ≡ parent) ⊎ Known x.parent_id gs
  series_items-parent [] x i = elim i [ ]
  series_items-parent (g ∷ gs) x (inl e) = inl (ap (λ y. y.parent_id) e)
  series_items-parent (g ∷ gs) x (inr i) =
      elim (In-append_inv x (map (season_item tools lib g.id) g.seasons) _ i) [
        | inl k ↦
            let (s, j, e) = In-map_inv (season_item tools lib g.id) x g.seasons k in
            inr (g, inl refl, inl (sym (ap (λ y. y.parent_id) e)))
        | inr k ↦ elim (series_items-parent gs x k) [
          | inl e ↦ inl e
          | inr (h, j, n) ↦ inr (h, inr j, n)
        ]
      ]

  -- A series is beneath the library, a season beneath its series.
  Known-Beneath :
      (gs : List SeriesGroup) (eps : List ScannedItem) (x : ScannedItem)
      → (x.parent_id ≡ parent) ⊎ Known x.parent_id gs
      → Beneath parent (series_items tools lib parent gs ++ eps) x
  Known-Beneath gs eps x (inl e) = (0, omega arith, e)
  Known-Beneath gs eps x (inr (g, k, inl e)) =
      (1, omega arith, (series_item tools lib parent g, of_series, e, refl))
    where
      of_series : In (series_item tools lib parent g) (series_items tools lib parent gs ++ eps)
      of_series = In-append_left _ (series_items tools lib parent gs) eps (series_item-In gs g k)
  Known-Beneath gs eps x (inr (g, k, inr (s, j, e))) = (
    2,
    omega arith,
    (
      season_item tools lib g.id s,
      of_season,
      e,
      (series_item tools lib parent g, of_series, refl, refl),
    ),
  )
    where
      of_season : In (season_item tools lib g.id s) (series_items tools lib parent gs ++ eps)
      of_season =
          In-append_left _ (series_items tools lib parent gs) eps (season_item-In gs g s k j)

      of_series : In (series_item tools lib parent g) (series_items tools lib parent gs ++ eps)
      of_series = In-append_left _ (series_items tools lib parent gs) eps (series_item-In gs g k)

  shown-Beneath :
      (start : List SeriesGroup) (r : List ScannedItem × List SeriesGroup) (x : ScannedItem)
      → AllPlaced parent start r
      → In x (series_items tools lib parent r.1 ++ r.0)
      → Beneath parent (series_items tools lib parent r.1 ++ r.0) x
  shown-Beneath start r x (all, kept) k =
      Known-Beneath r.1 r.0 x (elim (In-append_inv x (series_items tools lib parent r.1) r.0 k) [
        | inl i ↦ series_items-parent r.1 x i
        | inr i ↦ all x i
      ])

  -- Whatever stands in a library of series leads to the library by its parents.
  pub resolve_shows-Beneath :
      (readings : List Reading) {items : List ScannedItem} {notes : List Note} (x : ScannedItem)
      → resolve_shows tools lib readings parent ≡ done (items, notes)
      → In x items
      → Beneath parent items x
  unfolding resolve_shows
  resolve_shows-Beneath readings {items} {notes} x h k =
      let candidates = show_candidates tools lib readings in
      let (gs, e, h1) =
        done_of (series_of tools lib candidates [])
          (λ gs. place_episodes tools lib parent candidates gs >>= λ placed.
            done
              (series_items tools lib parent placed.1 ++ placed.0, notes_of tools lib candidates))
          h in
      let (placed, f, h2) =
        done_of (place_episodes tools lib parent candidates gs)
          (λ placed.
            done
              (series_items tools lib parent placed.1 ++ placed.0, notes_of tools lib candidates))
          h1 in
      let same = ap (λ (r : List ScannedItem × List Note). r.0) (done-injective h2) in
      subst (λ u. Beneath parent u x) same
        (shown-Beneath gs placed x (place_episodes-AllPlaced candidates gs f) (rw (← same) at k))
