-- ===== src/Library/Resolve/Series.antt =====
-- The series and the seasons that the loops of internal/library/shows.go have made, which an episode
-- is put beneath.
use atrium_go.Base.{
  ℕ, Option, none, some, List, ◌≡◌, refl, ◌∙◌, ◌⊎◌, inl, inr, In, In-append_left, In-append_right,
  Bool-cases, if◌then◌else◌,
}
use atrium_go.Library.Episodes.{
  SeasonGroup, SeriesGroup, by_series_key, by_number, settle_season, season_with, seasons_with,
  season_of, enter_season, claims_season,
}
use atrium_go.Library.ShowNames.{ShowCandidate}
use atrium_go.Library.Data.{Library}
use atrium_go.Library.Tools.{Tools}
use atrium_go.Tables.{find_row, update_rows}
use atrium_go.Tables.Members.{find_row-In, update_rows-In}
use atrium_go.Text.{Text}

-- A season of an identifier among some.
abbrev pub HasSeason : Text → List SeasonGroup → Type 0
HasSeason i ss = (s : SeasonGroup) × In s ss × (s.id ≡ i)

abbrev pub Names : Text → SeriesGroup → Type 0
Names i g = (g.id ≡ i) ⊎ HasSeason i g.seasons

-- A series or a season of an identifier among the groups.
abbrev pub Known : Text → List SeriesGroup → Type 0
Known i gs = (g : SeriesGroup) × In g gs × Names i g

module _ (c : ShowCandidate) (directory : Option ℕ) (n : ℕ) where
  settle_season-id : (s : SeasonGroup) → (settle_season c directory n s).id ≡ s.id
  settle_season-id s = elim (Bool-cases (claims_season directory n s)) [
    | inl e ↦ rw e
    | inr e ↦ rw e
  ]

  settled-id :
      (s : SeasonGroup) → (if by_number n s then settle_season c directory n s else s).id ≡ s.id
  settled-id s = elim (Bool-cases (by_number n s)) [
    | inl e ↦ rw e (settle_season-id s)
    | inr e ↦ rw e
  ]

  update_seasons-HasSeason :
      (i : Text) (ss : List SeasonGroup)
      → HasSeason i ss
      → HasSeason i (update_rows (by_number n) (settle_season c directory n) ss)
  update_seasons-HasSeason i ss (s, k, e) =
      (_, update_rows-In (by_number n) (settle_season c directory n) s ss k, settled-id s ∙ e)

module _ (tools : Tools) (lib : Library) where
  module _ (c : ShowCandidate) (directory : Option ℕ) (n : ℕ) where
    seasons_with-HasSeason :
        (g : SeriesGroup) (found : Option SeasonGroup) (i : Text)
        → HasSeason i g.seasons
        → HasSeason i (seasons_with tools lib g n found)
    seasons_with-HasSeason g none i (s, k, e) = (s, In-append_left s g.seasons _ k, e)
    seasons_with-HasSeason g (some s) i h = h

    -- What names a series still does when an episode enters one of its seasons.
    enter_season-Names :
        (g : SeriesGroup) (i : Text) → Names i g → Names i (enter_season tools lib c directory n g)
    enter_season-Names g i (inl e) = inl e
    enter_season-Names g i (inr h) = inr (
        update_seasons-HasSeason c directory n i _
          (seasons_with-HasSeason g (find_row (by_number n) g.seasons) i h))

    entered :
        (g : SeriesGroup) (found : Option SeasonGroup)
        → find_row (by_number n) g.seasons ≡ found
        → HasSeason (season_with tools lib g n found).id (seasons_with tools lib g n found)
    entered g none h = (_, In-append_right _ g.seasons _ (inl refl), refl)
    entered g (some s) h = (s, (find_row-In (by_number n) g.seasons h).0, refl)

    pub enter_season-season_of :
        (g : SeriesGroup)
        → Names (season_of tools lib g n).id (enter_season tools lib c directory n g)
    enter_season-season_of g = inr (update_seasons-HasSeason c directory n _ _ (entered g _ refl))

    entered_at :
        (k i : Text) (g : SeriesGroup)
        → Names i g
        → Names i (if by_series_key k g then enter_season tools lib c directory n g else g)
    entered_at k i g h = elim (Bool-cases (by_series_key k g)) [
      | inl e ↦ rw e (enter_season-Names g i h)
      | inr e ↦ rw e h
    ]

    pub update_series-Known :
        (k i : Text) (gs : List SeriesGroup)
        → Known i gs
        → Known i (update_rows (by_series_key k) (enter_season tools lib c directory n) gs)
    update_series-Known k i gs (g, at, h) = (_, update_rows-In _ _ g gs at, entered_at k i g h)
