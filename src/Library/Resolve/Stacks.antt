-- ===== src/Library/Resolve/Stacks.antt =====
-- No file is lost and none is doubled while internal/library/movies.go stacks the parts of films.
use atrium_go.Base.{
  ℕ, suc, ◌+◌, Option, none, some, List, [], ◌∷◌, ◌≡◌, refl, total, arith, map, ap, sym, ◌∙◌,
  total-append, total-map, total_same, inl, inr, Bool-cases,
}
use atrium_go.Library.Bytes.{stem_of_path}
use atrium_go.Library.Data.{Library, Entry, Reading}
use atrium_go.Library.Films.{
  FilmCandidate, StackPart, Stack, Stacking, by_stack_key, fits, grow_stack, stack_with, part_less,
  number_files, stack_candidate, candidate_of, place_marked, place_entry, place_entries,
  place_readings, stack_parts, film_item, resolve_movies, first_path,
}
use atrium_go.Library.Parts.{PartMarker, split_part_marker}
use atrium_go.Library.Resolve.Attempts.{done_of, done-injective}
use atrium_go.Library.Resolve.Weights.{file_weight, item_weight, reading_weight, traverse-total}
use atrium_go.Library.Tools.{Tools, done, normalised}
use atrium_go.Ports.Items.{ScannedItem}
use atrium_go.Sorting.{sort_by, sort_by-total}
use atrium_go.Tables.{find_row}
use atrium_go.Text.{Text}

module _ (weight : Entry → ℕ) where
  abbrev part_weight : StackPart → ℕ
  part_weight p = weight p.entry

  abbrev stack_weight : Stack → ℕ
  stack_weight s = part_weight s.first + total part_weight s.others

  abbrev film_weight : FilmCandidate → ℕ
  film_weight c = total (file_weight weight) c.files

  abbrev stacking_weight : Stacking → ℕ
  stacking_weight st = total film_weight st.loose + total stack_weight st.order

  grow_stack-total :
      (k : Text) (m : PartMarker) (e : Entry) (ss : List Stack) {s : Stack}
      → find_row (by_stack_key k) ss ≡ some s
      → total stack_weight (grow_stack k m e ss) ≡ total stack_weight ss + weight e
  unfolding find_row grow_stack
  grow_stack-total k m e [] h = cc
  grow_stack-total k m e (t ∷ ss) h = elim (Bool-cases (by_stack_key k t)) [
    | inl hit ↦ rw hit (omega (arith, total-append part_weight t.others _))
    | inr miss ↦ rw miss (omega (arith, grow_stack-total k m e ss (rw miss at h)))
  ]

  stack_with-weight :
      (k : Text) (root : ℕ) (base : Text) (m : PartMarker) (e : Entry) (st : Stacking)
      (found : Option Stack)
      → find_row (by_stack_key k) st.order ≡ found
      → stacking_weight (stack_with k root base m e st found) ≡ stacking_weight st + weight e
  stack_with-weight k root base m e st none h = omega (arith, total-append stack_weight st.order _)
  stack_with-weight k root base m e st (some s) h = elim (Bool-cases (fits m s)) [
    | inl fit ↦ rw fit (omega (arith, grow_stack-total k m e st.order h))
    | inr unfit ↦ rw unfit (omega (arith, total-append film_weight st.loose _))
  ]

  number_files-weight :
      (n : ℕ) (ps : List StackPart)
      → total (file_weight weight) (number_files n ps) ≡ total part_weight ps
  unfolding number_files
  number_files-weight n [] = refl
  number_files-weight n (p ∷ ps) = omega (arith, number_files-weight (suc n) ps)

  candidate_of-weight : (s : Stack) → film_weight (candidate_of s) ≡ stack_weight s
  unfolding candidate_of
  candidate_of-weight s = of_others s.others
    where
      of_others :
          (ps : List StackPart)
          → film_weight (stack_candidate s ps) ≡ part_weight s.first + total part_weight ps
      of_others [] = omega arith
      of_others (p ∷ ps) = omega (
        arith,
        number_files-weight 1 (sort_by part_less (s.first ∷ p ∷ ps)),
        sort_by-total part_less part_weight (s.first ∷ p ∷ ps),
      )

  module _ (tools : Tools) (lib : Library) where
    place_marked-weight :
        (root : ℕ) (e : Entry) (st : Stacking) (found : Option (Text × PartMarker))
        → stacking_weight (place_marked tools lib root e st found) ≡ stacking_weight st + weight e
    place_marked-weight root e st none = omega (arith, total-append film_weight st.loose _)
    place_marked-weight root e st (some (base, m)) = stack_with-weight _ root base m e st _ refl

    place_entries-weight :
        (root : ℕ) (es : List Entry) (st : Stacking)
        → stacking_weight (place_entries tools lib root es st)
          ≡ stacking_weight st + total weight es
    unfolding place_entries place_entry
    place_entries-weight root [] st = omega arith
    place_entries-weight root (e ∷ es) st = omega (
      arith,
      place_entries-weight root es (place_entry tools lib root e st),
      place_marked-weight root e st (split_part_marker (stem_of_path e.path)),
    )

    place_readings-weight :
        (rs : List Reading) (st : Stacking)
        → stacking_weight (place_readings tools lib rs st)
          ≡ stacking_weight st + total (reading_weight weight) rs
    unfolding place_readings
    place_readings-weight [] st = omega arith
    place_readings-weight (r ∷ rs) st = omega (
      arith,
      place_readings-weight rs (place_entries tools lib r.root r.entries st),
      place_entries-weight r.root r.entries st,
    )

    stack_parts-weight :
        (rs : List Reading)
        → total film_weight (stack_parts tools lib rs) ≡ total (reading_weight weight) rs
    unfolding stack_parts
    stack_parts-weight rs =
        let st = place_readings tools lib rs (record { order = []; loose = [] }) in
        omega (
          arith,
          total-append film_weight st.loose (map candidate_of st.order),
          total-map film_weight candidate_of st.order,
          total_same (λ s. film_weight (candidate_of s)) stack_weight st.order candidate_of-weight,
          place_readings-weight rs (record { order = []; loose = [] }),
        )

    film_item-weight :
        (parent : Text) (candidates : List FilmCandidate) (c : FilmCandidate) (x : ScannedItem)
        → film_item tools lib parent candidates c ≡ done x
        → item_weight weight x ≡ film_weight c
    unfolding film_item
    film_item-weight parent candidates c x h =
        let (k, e, last) = done_of (normalised tools lib (first_path tools lib c.files)) _ h in
        sym (ap (item_weight weight) (done-injective last))

    -- The films of a library hold the files that were read, each once.
    pub resolve_movies-weight :
        (rs : List Reading) (parent : Text) {items : List ScannedItem}
        → resolve_movies tools lib rs parent ≡ done items
        → total (item_weight weight) items ≡ total (reading_weight weight) rs
    unfolding resolve_movies
    resolve_movies-weight rs parent h =
        traverse-total film_weight (item_weight weight) _ (stack_parts tools lib rs)
          (film_item-weight parent _) h
        ∙ stack_parts-weight rs
