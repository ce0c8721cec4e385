-- ===== src/Library/Resolve/Spared.antt =====
-- The names of the directories that internal/library/shows.go lowers, of what was read and of what
-- resolve.go keeps of it.
use atrium_go.Base.{
  ◌++◌, ◌⊎◌, ℕ, Bool, true, false, Option, none, some, List, [], ◌∷◌, ◌≡◌, refl, All, In,
  In-map_inv, map, inl, inr, if◌then◌else◌,
}
use atrium_go.Library.Bytes.{base_name, dir_name}
use atrium_go.Library.Candidates.{Collection, Skip, candidate}
use atrium_go.Library.Data.{Library, Entry, Reading}
use atrium_go.Library.Episodes.{show_candidates}
use atrium_go.Library.Resolve.Lowered.{Lengthy}
use atrium_go.Library.Resolve.{
  kept_readings, sort_readings, kept_reading, kept_entries, kept_with, sort_entries, entry_before,
  root_before,
}
use atrium_go.Library.ShowNames.{ShowCandidate, classify_show}
use atrium_go.Library.Tools.{Tools}
use atrium_go.Sorting.{sort_by-In}
use atrium_go.Text.{Text, nonempty}

module _ (tools : Tools) (lib : Library) where
  -- The name of a candidate's season directory keeps its length when it is lowered.
  abbrev pub Sliced : ShowCandidate → Type 0
  Sliced c = nonempty c.season_dir ≡ true → Lengthy tools.folding.to_lower (base_name c.season_dir)

  -- So do the names of the directories of all the entries read.
  abbrev pub Spares : List Reading → Type 0
  Spares rs =
      (r : Reading) (e : Entry)
      → In r rs
      → In e r.entries
      → Lengthy tools.folding.to_lower (base_name (dir_name e.path))

  chosen :
      (b : Bool) (dir : Text)
      → Lengthy tools.folding.to_lower (base_name dir)
      → nonempty (if b then dir else []) ≡ true
      → Lengthy tools.folding.to_lower (base_name (if b then dir else []))
  chosen true dir h i = h
  chosen false dir h i = absurd (cc)

  classify_show-Sliced :
      (root : ℕ) (e : Entry)
      → Lengthy tools.folding.to_lower (base_name (dir_name e.path))
      → Sliced (classify_show tools root e)
  unfolding classify_show
  classify_show-Sliced root e h = chosen _ (dir_name e.path) h

  entries-Sliced :
      (root : ℕ) (es : List Entry) (cs : List ShowCandidate)
      → ((e : Entry) → In e es → Lengthy tools.folding.to_lower (base_name (dir_name e.path)))
      → All Sliced cs
      → All Sliced (map (classify_show tools root) es ++ cs)
  entries-Sliced root [] cs h all = all
  entries-Sliced root (e ∷ es) cs h all = (
    classify_show-Sliced root e (h e (inl refl)),
    entries-Sliced root es cs (λ x i. h x (inr i)) all,
  )

  pub show_candidates-Sliced :
      (rs : List Reading) → Spares rs → All Sliced (show_candidates tools lib rs)
  unfolding show_candidates
  show_candidates-Sliced [] h = tt
  show_candidates-Sliced (r ∷ rs) h =
      entries-Sliced r.root r.entries _ (λ e. h r e (inl refl))
        (show_candidates-Sliced rs (λ s e i. h s e (inr i)))

  kept_with-In :
      (e d : Entry) (es : List Entry) (o : Option Skip)
      → In e (kept_with d o es)
      → (e ≡ d) ⊎ In e es
  kept_with-In e d es none h = h
  kept_with-In e d es (some s) h = inr h

  kept_entries-In :
      (c : Collection) (e : Entry) (es : List Entry) → In e (kept_entries c es) → In e es
  kept_entries-In c e [] h = h
  kept_entries-In c e (d ∷ es) h =
      elim (kept_with-In e d (kept_entries c es) (candidate c d.path) h) [
        | inl same ↦ inl same
        | inr i ↦ inr (kept_entries-In c e es i)
      ]

  pub kept_readings-Spares :
      (c : Collection) (rs : List Reading) → Spares rs → Spares (kept_readings c rs)
  unfolding kept_readings
  kept_readings-Spares c rs h r e i j =
      let (s, k, same) = In-map_inv (kept_reading c) r rs i in
      h s e k (kept_entries-In c e s.entries (rw same at j))

  pub sort_readings-Spares : (rs : List Reading) → Spares rs → Spares (sort_readings rs)
  unfolding sort_readings
  sort_readings-Spares rs h r e i j =
      let (s, k, same) =
        In-map_inv sort_entries r rs ((sort_by-In root_before r (map sort_entries rs)).0 i) in
      h s e k ((sort_by-In entry_before e s.entries).0 (rw same at j))
