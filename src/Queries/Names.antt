-- ===== src/Queries/Names.antt =====
-- Only the casing of names changes in a query.
use mathlib.Core.Path.{subst}
use atrium_go.Base.{
  ◌≡◌, refl, ap, sym, ◌∙◌, inl, inr, ℕ, zero, suc, true, false, not, ◌||◌, Option, none, some, List,
  [], ◌∷◌, ◌++◌, ◌==◌, arith, Bool-cases, All, All-append, length, drop, >>=-some, guard-some,
  guard,
}
use atrium_go.Paths.Compile.{PathFolder, find_text, new_path_folder}
use atrium_go.Paths.Match.{Answer, matched, unmatched, panicked, pattern_of}
use atrium_go.Queries.{
  Route, QueryFolder, Declared, ampersand, equals, declare, declare_routes, new_query_folder,
  check_query_name, all_spelled, is_declared, has_route, name_of, rest_of, respelled, respell,
  respell_all, any_changed, fold_query_names, find_declared, folded_by, routed_query,
  canonicalise_query, distinct_paths, route_before, same_route,
}
use atrium_go.Sorting.{sort_by}
use atrium_go.Text.Laws.{str_eq_iff, split-ne-nil, Without, split-Without, split-join}
use atrium_go.Text.{Text, str_eq, fold_ascii, split, join, nonempty}

-- Two fragments with the same bytes from the `=` on, and names that differ in casing only.
abbrev pub Respelled : Text → Text → Type 0
Respelled f g = (fold_ascii (name_of g) ≡ fold_ascii (name_of f)) × (rest_of g ≡ rest_of f)

abbrev pub Pairs : List Text → List Text → Type 0
Pairs [] [] = Unit {0}
Pairs [] (g ∷ gs) = ⊥
Pairs (f ∷ fs) [] = ⊥
Pairs (f ∷ fs) (g ∷ gs) = Respelled f g × Pairs fs gs

-- A declared name: under its fold, and without the two bytes that end a name.
abbrev Spelled : Text × Text → Type 0
Spelled d = (fold_ascii d.1 ≡ d.0) × Without equals d.1 × Without ampersand d.1

name_of-rest : (f : Text) → name_of (rest_of f) ≡ []
unfolding name_of
name_of-rest [] = refl
name_of-rest (c ∷ cs) = elim (Bool-cases (c == equals)) [
  | inl e ↦ rw (e, e) refl
  | inr e ↦ rw e (name_of-rest cs)
]

name_of-append : (p v : Text) → Without equals p → name_of v ≡ [] → name_of (p ++ v) ≡ p
unfolding name_of
name_of-append [] v h e = e
name_of-append (c ∷ p) v h e = rw h.0 (ap (◌∷◌ c) (name_of-append p v h.1 e))

drop-append : (p v : Text) → drop (length p) (p ++ v) ≡ v
drop-append [] v = refl
drop-append (c ∷ p) v = drop-append p v

rest_of-Without : (f : Text) (n : ℕ) → Without ampersand f → Without ampersand (drop n f)
rest_of-Without f zero h = h
rest_of-Without [] (suc n) h = tt
rest_of-Without (c ∷ cs) (suc n) h = rest_of-Without cs n h.1

find_text-Spelled :
    (k : Text) (declared : Declared) {name : Text}
    → All Spelled declared
    → find_text k declared ≡ some name
    → (fold_ascii name ≡ k) × Without equals name × Without ampersand name
unfolding find_text
find_text-Spelled k [] h e = cc
find_text-Spelled k ((j, n) ∷ rest) {name} h e = elim (Bool-cases (str_eq j k)) [
  | inl b ↦
      subst (λ x. (fold_ascii x ≡ k) × Without equals x × Without ampersand x)
        (the_name (rw b at e)) (h.0.0 ∙ (str_eq_iff j k).0 b, h.0.1, h.0.2)
  | inr b ↦ find_text-Spelled k rest {name = name} h.1 (rw b at e)
]
  where
    the_name : some n ≡ some name → n ≡ name
    the_name l = cc

respelled-Respelled :
    (f : Text) (o : Option Text)
    → ((name : Text)
        → o ≡ some name
        → (fold_ascii name ≡ fold_ascii (name_of f)) × Without equals name × Without ampersand name)
    → Without ampersand f
    → Respelled f (respelled f o).0 × Without ampersand (respelled f o).0
respelled-Respelled f none h w = ((refl, refl), w)
respelled-Respelled f (some name) h w = elim (Bool-cases (str_eq name (name_of f))) [
  | inl e ↦ rw e ((refl, refl), w)
  | inr e ↦
      let (same, no_equals, no_ampersand) = h name refl in
      let named = name_of-append name (rest_of f) no_equals (name_of-rest f) in
      rw e (
        (
          ap fold_ascii named ∙ same,
          ap (λ x. drop (length x) (name ++ rest_of f)) named ∙ drop-append name (rest_of f),
        ),
        All-append (λ c. (c == ampersand) ≡ false) name (rest_of f) no_ampersand
            (rest_of-Without f (length (name_of f)) w),
      )
]

respell_all-Pairs :
    (declared : Declared) (fs : List Text)
    → All Spelled declared
    → All (Without ampersand) fs
    → Pairs fs (respell_all declared fs) × All (Without ampersand) (respell_all declared fs)
respell_all-Pairs declared [] h w = (tt, tt)
respell_all-Pairs declared (f ∷ fs) h w =
    let (pairs, all) = respell_all-Pairs declared fs h w.1 in
    let (one, without) =
      respelled-Respelled f (find_text (fold_ascii (name_of f)) declared)
        (λ name e. find_text-Spelled (fold_ascii (name_of f)) declared {name = name} h e) w.0 in
    ((one, pairs), (without, all))

Pairs-refl : (fs : List Text) → Pairs fs fs
Pairs-refl [] = tt
Pairs-refl (f ∷ fs) = ((refl, refl), Pairs-refl fs)

fold_query_names-Pairs :
    (declared : Declared) (raw : Text)
    → All Spelled declared
    → Pairs (split ampersand raw) (split ampersand (fold_query_names declared raw))
unfolding fold_query_names
fold_query_names-Pairs declared raw h =
    elim (Bool-cases (any_changed declared (split ampersand raw))) [
      | inr e ↦ rw e (Pairs-refl (split ampersand raw))
      | inl e ↦ rw e (
          let (f, fs, p) = split-ne-nil ampersand raw in
          let (pairs, all) =
            respell_all-Pairs declared (f ∷ fs) h
              (subst (All (Without ampersand)) p (split-Without ampersand raw)) in
          subst (λ ps. Pairs ps (split ampersand (join ampersand (respell_all declared ps))))
            (sym p)
            (subst (Pairs (f ∷ fs))
              (sym (split-join ampersand (respell declared f).0 (respell_all declared fs) all))
              pairs))
    ]

all_spelled-Without :
    (name : Text) → all_spelled name ≡ true → Without equals name × Without ampersand name
all_spelled-Without [] h = (tt, tt)
all_spelled-Without (c ∷ cs) h =
    let rest = all_spelled-Without cs (ground arith) in
    ((ground arith, rest.0), (ground arith, rest.1))

check_query_name-spelled : (name : Text) → check_query_name name ≡ true → all_spelled name ≡ true
unfolding check_query_name
check_query_name-spelled name h = ground arith

declare-Spelled :
    (names : List Text) (declared : Declared) {all : Declared}
    → All Spelled declared
    → declare names declared ≡ some all
    → All Spelled all
unfolding declare
declare-Spelled [] declared {all} h e = subst (All Spelled) (cc) h
declare-Spelled (name ∷ names) declared {all} h e =
    let (u, a, k) = >>=-some (guard (check_query_name name)) _ e in
    let (v, b, l) =
      >>=-some (guard (not (is_declared (find_text (fold_ascii name) declared)))) _ k in
    let spelled = all_spelled-Without name (check_query_name-spelled name (guard-some _ u a)) in
    declare-Spelled names (declared ++ (fold_ascii name, name) ∷ []) {all = all}
      (All-append Spelled declared ((fold_ascii name, name) ∷ []) h
        ((refl, spelled.0, spelled.1), tt))
      l

abbrev AllSpelled : Route × Declared → Type 0
AllSpelled r = All Spelled r.1

declare_routes-AllSpelled :
    (table : List Route) (spellings : List (Route × List Text)) {routes : List (Route × Declared)}
    → declare_routes table spellings ≡ some routes
    → All AllSpelled routes
unfolding declare_routes
declare_routes-AllSpelled table [] {routes} h = subst (All AllSpelled) (no_routes h) tt
  where
    no_routes : some [] ≡ some routes → [] ≡ routes
    no_routes e = cc
declare_routes-AllSpelled table ((r, names) ∷ rest) {routes} h =
    let (u, a, k) = >>=-some (guard (has_route table r)) _ h in
    let (declared, b, l) = >>=-some (declare names []) _ k in
    let (others, c, m) = >>=-some (declare_routes table rest) _ l in
    subst (All AllSpelled) (one_more declared others m) (
      declare-Spelled names [] {all = declared} tt b,
      declare_routes-AllSpelled table rest {routes = others} c,
    )
  where
    one_more :
        (declared : Declared) (others : List (Route × Declared))
        → some ((r, declared) ∷ others) ≡ some routes
        → (r, declared) ∷ others ≡ routes
    one_more declared others e = cc

find_declared-Spelled :
    (r : Route) (routes : List (Route × Declared)) {d : Declared}
    → All AllSpelled routes
    → find_declared r routes ≡ some d
    → All Spelled d
unfolding find_declared
find_declared-Spelled r [] h e = cc
find_declared-Spelled r ((k, x) ∷ rest) {d} h e = elim (Bool-cases (same_route k r)) [
  | inl b ↦ subst (All Spelled) (the_declared (rw b at e)) h.0
  | inr b ↦ find_declared-Spelled r rest {d = d} h.1 (rw b at e)
]
  where
    the_declared : some x ≡ some d → x ≡ d
    the_declared l = cc

new_query_folder-AllSpelled :
    (table : List Route) (spellings : List (Route × List Text)) {f : QueryFolder}
    → new_query_folder table spellings ≡ some f
    → All AllSpelled f.by_route
unfolding new_query_folder
new_query_folder-AllSpelled table spellings {f} h =
    let (paths, a, k) = >>=-some (new_path_folder (distinct_paths table)) _ h in
    let (routes, b, l) = >>=-some (declare_routes table (sort_by route_before spellings)) _ k in
    subst (All AllSpelled) (ap (λ (x : QueryFolder). x.by_route) (made paths routes l))
      (declare_routes-AllSpelled table (sort_by route_before spellings) {routes = routes} b)
  where
    made :
        (paths : PathFolder) (routes : List (Route × Declared))
        → some (record { paths = paths; by_route = routes }) ≡ some f
        → record { paths = paths; by_route = routes } ≡ f
    made paths routes e = cc

matched-injective : {a b : Text} → matched a ≡ matched b → a ≡ b
matched-injective e = cc

folded_by-Pairs :
    (raw : Text) (o : Option Declared)
    → ((d : Declared) → o ≡ some d → All Spelled d)
    → Pairs (split ampersand raw) (split ampersand (folded_by raw o))
folded_by-Pairs raw none h = Pairs-refl (split ampersand raw)
folded_by-Pairs raw (some []) h = Pairs-refl (split ampersand raw)
folded_by-Pairs raw (some (d ∷ ds)) h = fold_query_names-Pairs (d ∷ ds) raw (h (d ∷ ds) refl)

-- What a query folder of the table answers has as many fragments as the query, in their order; each
-- has the bytes of its own from the first `=` on, and a name that differs in casing only.
pub canonicalise_query-Pairs :
    (table : List Route) (spellings : List (Route × List Text)) (f : QueryFolder)
    (method path raw : Text) {out : Text}
    → new_query_folder table spellings ≡ some f
    → canonicalise_query f method path raw ≡ matched out
    → Pairs (split ampersand raw) (split ampersand out)
unfolding canonicalise_query
canonicalise_query-Pairs table spellings f method path raw {out} built h =
    elim (Bool-cases (not (nonempty raw) || not (nonempty f.by_route))) [
      | inl e ↦
          subst (λ x. Pairs (split ampersand raw) (split ampersand x))
            (matched-injective (rw e at h)) (Pairs-refl (split ampersand raw))
      | inr e ↦ answered (pattern_of f.paths path) (rw e at h)
    ]
  where
    answered :
        (a : Answer Text)
        → routed_query f method raw a ≡ matched out
        → Pairs (split ampersand raw) (split ampersand out)
    answered unmatched k =
        subst (λ x. Pairs (split ampersand raw) (split ampersand x)) (matched-injective k)
          (Pairs-refl (split ampersand raw))
    answered panicked k = cc
    answered (matched pattern) k =
        let route : Route = record { http_method = method; path = pattern } in
        subst (λ x. Pairs (split ampersand raw) (split ampersand x)) (matched-injective k)
          (folded_by-Pairs raw (find_declared route f.by_route) (λ d e.
            find_declared-Spelled route f.by_route {d = d}
              (new_query_folder-AllSpelled table spellings {f = f} built) e))
