-- ===== src/Library/Resolve/Parents.antt =====
-- What the items of internal/library/resolve.go stand beneath.
use mathlib.Core.Path.{subst}
use atrium_go.Base.{
  ℕ, suc, ◌≤◌, arith, some-injective, Option, none, some, List, ◌∷◌, ◌≡◌, refl, ap, sym, inl, inr,
  In,
}
use atrium_go.Library.Candidates.{Collection, movies, shows, music}
use atrium_go.Library.Data.{Library, Reading, Note, Plan}
use atrium_go.Library.Resolve.{
  resolve_with_tags, resolve_collection, resolve_kept, plan_of, library_root_item, kept_readings,
  skipped_notes, sort_readings,
}
use atrium_go.Library.Resolve.Albums.{resolve_music-Beneath, resolve_movies-Beneath}
use atrium_go.Library.Resolve.Attempts.{done_of, done-injective}
use atrium_go.Library.Resolve.Climbing.{Beneath, Ascends, Climbs-Ascends}
use atrium_go.Library.Resolve.Placing.{resolve_shows-Beneath}
use atrium_go.Library.Films.{resolve_movies}
use atrium_go.Library.Tools.{Tools, done}
use atrium_go.Library.Tracks.{TagSource, resolve_music}
use atrium_go.Ports.Items.{ScannedItem}
use atrium_go.Scan.{sort_items, item_less}
use atrium_go.Sorting.{sort_by-In}
use atrium_go.Text.{Text}

module _ (tools : Tools) (lib : Library) where
  abbrev root_id : Text
  root_id = (library_root_item tools lib).id

  resolve_kept-Beneath :
      (tags : TagSource) (c : Collection) (kept : List Reading)
      {found : List ScannedItem × List Note} (x : ScannedItem)
      → resolve_kept tools lib tags c kept ≡ done found
      → In x found.0
      → Beneath root_id found.0 x
  unfolding resolve_kept
  resolve_kept-Beneath tags movies kept {found} x h k =
      let (items, e, last) = done_of (resolve_movies tools lib kept root_id) _ h in
      let same = ap (λ (r : List ScannedItem × List Note). r.0) (done-injective last) in
      subst (λ u. Beneath root_id u x) same
        (resolve_movies-Beneath tools lib root_id kept x e (rw (← same) at k))
  resolve_kept-Beneath tags shows kept {found} x h k =
      resolve_shows-Beneath tools lib root_id kept {items = found.0} {notes = found.1} x h k
  resolve_kept-Beneath tags music kept {found} x h k =
      let (items, e, last) = done_of (resolve_music tools lib tags kept root_id) _ h in
      let same = ap (λ (r : List ScannedItem × List Note). r.0) (done-injective last) in
      subst (λ u. Beneath root_id u x) same
        (resolve_music-Beneath tools lib root_id tags kept x e (rw (← same) at k))

  -- Three parents among the items at most lead from the item to the library's own.
  abbrev pub Reaches : List ScannedItem → ScannedItem → Type 0
  Reaches items x = (n : ℕ) × (n ≤ 3) × Ascends (library_root_item tools lib) items n x

  plan_of-Reaches :
      (skipped : List Note) (found : List ScannedItem × List Note) (x : ScannedItem)
      → ((y : ScannedItem) → In y found.0 → Beneath root_id found.0 y)
      → In x (plan_of tools lib skipped found).items
      → Reaches (plan_of tools lib skipped found).items x
  unfolding sort_items
  plan_of-Reaches skipped found x beneath k =
      elim ((sort_by-In item_less x (library_root_item tools lib ∷ found.0)).0 k) [
        | inl e ↦ (0, omega arith, e)
        | inr i ↦
            let (n, le, climbs) = beneath x i in
            (
              suc n,
              omega (arith, le),
              Climbs-Ascends (library_root_item tools lib) found.0 _ n x
                  ((sort_by-In item_less _ _).1 (inl refl))
                  (λ p j. (sort_by-In item_less _ _).1 (inr j)) climbs,
            )
      ]

  with_collection-Reaches :
      (tags : TagSource) (sorted : List Reading) (c : Option Collection) {plan : Plan}
      (x : ScannedItem)
      → resolve_collection tools lib tags sorted c ≡ done (some plan)
      → In x plan.items
      → Reaches plan.items x
  with_collection-Reaches tags sorted none x h k = cc
  with_collection-Reaches tags sorted (some c) x h k =
      let (found, f, last) = done_of (resolve_kept tools lib tags c (kept_readings c sorted)) _ h in
      let same = some-injective (done-injective last) in
      subst (λ (u : Plan). Reaches u.items x) same
        (plan_of-Reaches (skipped_notes c sorted) found x (λ y. resolve_kept-Beneath tags c _ y f)
          (subst (λ (u : Plan). In x u.items) (sym same) k))

  -- Whatever a library resolves to, from each item of the plan at most three parents, each an item
  -- of the plan whose identifier is the one that the item before it names as its parent, lead to
  -- the library's own item: no item of a plan is out of the library's reach.
  pub resolve_with_tags-Reaches :
      (tags : TagSource) (readings : List Reading) {plan : Plan} (x : ScannedItem)
      → resolve_with_tags tools lib tags readings ≡ done (some plan)
      → In x plan.items
      → Reaches plan.items x
  unfolding resolve_with_tags
  resolve_with_tags-Reaches tags readings x h k =
      with_collection-Reaches tags (sort_readings readings) _ x h k
