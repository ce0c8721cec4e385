-- ===== src/Library/Resolve/Files.antt =====
-- Where the files that were read stand among the items of internal/library/resolve.go.
use atrium_go.Base.{
  length, length-append, suc, some-injective, ℕ, ◌+◌, Option, none, some, List, [], ◌∷◌, ◌≡◌, refl,
  ap, sym, ◌∙◌, total, arith, total-map, total_same, map,
}
use atrium_go.Library.Candidates.{
  Collection, Skip, movies, shows, music, candidate, parse_collection_type,
}
use atrium_go.Library.Data.{Library, Entry, Reading, Note, Plan}
use atrium_go.Library.Films.{resolve_movies}
use atrium_go.Library.Resolve.{
  resolve_with_tags, resolve_collection, resolve_kept, plan_of, library_root_item, kept_readings,
  kept_with, kept_entries, kept_reading, skipped_entries, note_with, skipped_notes, sort_readings,
  sort_entries, root_before, entry_before,
}
use atrium_go.Library.Resolve.Attempts.{done_of, done-injective}
use atrium_go.Library.Resolve.Groups.{resolve_music-weight}
use atrium_go.Library.Resolve.Places.{resolve_shows-weight}
use atrium_go.Library.Resolve.Stacks.{resolve_movies-weight}
use atrium_go.Library.Resolve.Weights.{item_weight, reading_weight}
use atrium_go.Library.Tools.{Tools, done}
use atrium_go.Library.Tracks.{TagSource, resolve_music}
use atrium_go.Ports.Items.{ScannedItem}
use atrium_go.Scan.{sort_items, item_less}
use atrium_go.Sorting.{sort_by-total}

-- What an entry weighs where the library takes it, and nothing where it is passed over.
abbrev taken_with : ℕ → Option Skip → ℕ
taken_with n none = n
taken_with n (some skip) = 0

abbrev pub taken : (Entry → ℕ) → Collection → Entry → ℕ
taken weight c e = taken_with (weight e) (candidate c e.path)

module _ (weight : Entry → ℕ) where
  kept_with-total :
      (e : Entry) (skip : Option Skip) (es : List Entry)
      → total weight (kept_with e skip es) ≡ taken_with (weight e) skip + total weight es
  kept_with-total e none es = omega arith
  kept_with-total e (some skip) es = omega arith

  kept_entries-total :
      (c : Collection) (es : List Entry)
      → total weight (kept_entries c es) ≡ total (taken weight c) es
  kept_entries-total c [] = refl
  kept_entries-total c (e ∷ es) =
      omega
        (arith, kept_with-total e (candidate c e.path) (kept_entries c es), kept_entries-total c es)

  kept_readings-total :
      (c : Collection) (rs : List Reading)
      → total (reading_weight weight) (kept_readings c rs)
        ≡ total (reading_weight (taken weight c)) rs
  unfolding kept_readings
  kept_readings-total c rs =
      total-map (reading_weight weight) (kept_reading c) rs
      ∙ total_same _ (reading_weight (taken weight c)) rs (λ r. kept_entries-total c r.entries)

  module _ (tools : Tools) (lib : Library) where
    resolve_kept-weight :
        (tags : TagSource) (c : Collection) (kept : List Reading)
        {found : List ScannedItem × List Note}
        → resolve_kept tools lib tags c kept ≡ done found
        → total (item_weight weight) found.0 ≡ total (reading_weight weight) kept
    unfolding resolve_kept
    resolve_kept-weight tags movies kept h =
        let (items, e, last) =
          done_of (resolve_movies tools lib kept (library_root_item tools lib).id) _ h in
        sym (
          ap (λ (r : List ScannedItem × List Note). total (item_weight weight) r.0)
            (done-injective last))
        ∙ resolve_movies-weight weight tools lib kept _ e
    resolve_kept-weight tags shows kept {found} h = resolve_shows-weight weight tools lib kept _ h
    resolve_kept-weight tags music kept h =
        let (items, e, last) =
          done_of (resolve_music tools lib tags kept (library_root_item tools lib).id) _ h in
        sym (
          ap (λ (r : List ScannedItem × List Note). total (item_weight weight) r.0)
            (done-injective last))
        ∙ resolve_music-weight weight tools lib tags kept _ e

sort_readings-total :
    (weight : Entry → ℕ) (rs : List Reading)
    → total (reading_weight weight) (sort_readings rs) ≡ total (reading_weight weight) rs
unfolding sort_readings
sort_readings-total weight rs =
    sort_by-total root_before (reading_weight weight) (map sort_entries rs)
    ∙ total-map (reading_weight weight) sort_entries rs
    ∙ total_same _ (reading_weight weight) rs (λ r. sort_by-total entry_before weight r.entries)

skipped_entries-length :
    (c : Collection) (root : ℕ) (es : List Entry)
    → length (skipped_entries c root es) + total (taken (λ e. 1) c) es ≡ total (λ e. 1) es
skipped_entries-length c root [] = refl
skipped_entries-length c root (e ∷ es) =
    omega (arith, noted (candidate c e.path), skipped_entries-length c root es)
  where
    noted :
        (skip : Option Skip)
        → length (note_with root e skip (skipped_entries c root es)) + taken_with 1 skip
          ≡ suc (length (skipped_entries c root es))
    noted none = omega arith
    noted (some skip) = omega arith

skipped_notes-length :
    (c : Collection) (rs : List Reading)
    → length (skipped_notes c rs) + total (reading_weight (taken (λ e. 1) c)) rs
      ≡ total (reading_weight (λ e. 1)) rs
unfolding skipped_notes
skipped_notes-length c [] = refl
skipped_notes-length c (r ∷ rs) = omega (
  arith,
  length-append (skipped_entries c r.root r.entries) (skipped_notes c rs),
  skipped_entries-length c r.root r.entries,
  skipped_notes-length c rs,
)

module _ (tools : Tools) (lib : Library) (weight : Entry → ℕ) where
  plan_of-weight :
      (skipped : List Note) (found : List ScannedItem × List Note)
      → total (item_weight weight) (plan_of tools lib skipped found).items
        ≡ total (item_weight weight) found.0
  unfolding sort_items library_root_item
  plan_of-weight skipped found =
      sort_by-total item_less (item_weight weight) (library_root_item tools lib ∷ found.0)
      ∙ omega arith

  -- Whatever each file may weigh, and so for the number of the files of any kind and for the sum of
  -- their sizes: where a library of a known type resolves, the items of the plan together hold what
  -- the entries weigh that were read and that the library takes, in whatever order they were read.
  pub resolve_with_tags-weight :
      (tags : TagSource) (readings : List Reading) (c : Collection) {plan : Plan}
      → parse_collection_type lib.collection_type ≡ some c
      → resolve_with_tags tools lib tags readings ≡ done (some plan)
      → total (item_weight weight) plan.items ≡ total (reading_weight (taken weight c)) readings
  unfolding resolve_with_tags
  resolve_with_tags-weight tags readings c k h =
      let (found, f, last) =
        done_of (resolve_kept tools lib tags c (kept_readings c (sort_readings readings))) _
          (rw k at h) in
      sym (
        ap (λ (p : Plan). total (item_weight weight) p.items)
          (some-injective (done-injective last)))
      ∙ plan_of-weight (skipped_notes c (sort_readings readings)) found
      ∙ resolve_kept-weight weight tools lib tags c _ f
      ∙ kept_readings-total weight c (sort_readings readings)
      ∙ sort_readings-total (taken weight c) readings

module _ (tools : Tools) (lib : Library) where
  plan_of-accounted :
      (tags : TagSource) (sorted : List Reading) (c : Option Collection) {plan : Plan}
      → resolve_collection tools lib tags sorted c ≡ done (some plan)
      → total (item_weight (λ e. 1)) plan.items + length plan.skipped
        ≡ total (reading_weight (λ e. 1)) sorted
  plan_of-accounted tags sorted none h = cc
  plan_of-accounted tags sorted (some c) h =
      let (found, f, last) = done_of (resolve_kept tools lib tags c (kept_readings c sorted)) _ h in
      sym (
        ap (λ (p : Plan). total (item_weight (λ e. 1)) p.items + length p.skipped)
          (some-injective (done-injective last)))
      ∙ omega (
        arith,
        plan_of-weight tools lib (λ e. 1) (skipped_notes c sorted) found,
        resolve_kept-weight (λ e. 1) tools lib tags c (kept_readings c sorted) f,
        kept_readings-total (λ e. 1) c sorted,
        skipped_notes-length c sorted,
      )

  -- Where a library resolves, every entry that was read is accounted for: the files of the items
  -- and the notes of what was passed over are together as many as the entries.
  pub resolve_with_tags-accounted :
      (tags : TagSource) (readings : List Reading) {plan : Plan}
      → resolve_with_tags tools lib tags readings ≡ done (some plan)
      → total (item_weight (λ e. 1)) plan.items + length plan.skipped
        ≡ total (reading_weight (λ e. 1)) readings
  unfolding resolve_with_tags
  resolve_with_tags-accounted tags readings h =
      plan_of-accounted tags (sort_readings readings) (parse_collection_type lib.collection_type) h
      ∙ sort_readings-total (λ e. 1) readings
