-- ===== src/Queries.antt =====
-- internal/httpapi/query.go: the names of a query in the spelling that the route declares. A Go map
-- is a list of its entries, and the table of routes is the list of its rows.
pub mod Names
mod Tests
use atrium_go.Base.{
  ℕ, Bool, true, false, not, ◌&&◌, ◌||◌, Option, none, some, List, [], ◌∷◌, ◌++◌, ◌==◌, leb, ltb,
  map, if◌then◌else◌, guard, ◌>>=◌, ◌>>◌, length, drop,
}
use atrium_go.Paths.Compile.{PathFolder, find_text, new_path_folder}
use atrium_go.Paths.Match.{Answer, matched, unmatched, panicked, pattern_of}
use atrium_go.Sorting.{sort_by}
use atrium_go.Text.{Text, codes, str_eq, str_lt, nonempty, fold_ascii, split, join}

pub record Route : Type 0 where
  pub http_method : Text
  pub path : Text

-- The declared names by their folds.
abbrev pub Declared : Type 0
Declared = List (Text × Text)

pub record QueryFolder : Type 0 where
  pub paths : PathFolder
  pub by_route : List (Route × Declared)

abbrev pub ampersand : ℕ
ampersand = b'&'

abbrev pub equals : ℕ
equals = b'='

abbrev pub same_route : Route → Route → Bool
same_route a b = str_eq a.http_method b.http_method && str_eq a.path b.path

-- The order of `sortedRoutes`.
abbrev pub route_before : Route × List Text → Route × List Text → Bool
route_before a b =
    if not (str_eq a.0.path b.0.path)
    then str_lt a.0.path b.0.path
    else str_lt a.0.http_method b.0.http_method

-- `unmatchableInAQueryName`.
abbrev pub is_unmatchable : ℕ → Bool
is_unmatchable c = c == b'&' || c == b'=' || c == b'+' || c == b'%' || c == b'#'

abbrev pub is_outside : ℕ → Bool
is_outside c = leb c b' ' || leb 127 c

abbrev pub all_spelled : Text → Bool
all_spelled [] = true
all_spelled (c ∷ cs) = not (is_unmatchable c) && not (is_outside c) && all_spelled cs

-- `checkQueryName`.
unfoldable pub check_query_name : Text → Bool
check_query_name name = nonempty name && all_spelled name

abbrev pub is_declared : Option Text → Bool
is_declared none = false
is_declared (some name) = true

-- The inner loop of `NewQueryFolder`.
unfoldable pub declare : List Text → Declared → Option Declared
unfolding check_query_name
declare [] declared = some declared
declare (name ∷ names) declared = do
  guard (check_query_name name)
  guard (not (is_declared (find_text (fold_ascii name) declared)))
  declare names (declared ++ (fold_ascii name, name) ∷ [])

abbrev pub has_route : List Route → Route → Bool
has_route [] r = false
has_route (x ∷ xs) r = same_route x r || has_route xs r

-- The outer loop.
unfoldable pub declare_routes :
    List Route → List (Route × List Text) → Option (List (Route × Declared))
unfolding declare
declare_routes table [] = some []
declare_routes table ((r, names) ∷ rest) = do
  guard (has_route table r)
  declared ← declare names []
  others ← declare_routes table rest
  some ((r, declared) ∷ others)

abbrev pub has_path : Text → List Text → Bool
has_path p [] = false
has_path p (q ∷ qs) = str_eq q p || has_path p qs

-- `Table.Paths`: every distinct path, in the order of the rows; the first list holds those before.
unfoldable pub paths_from : List Text → List Route → List Text
paths_from seen [] = []
paths_from seen (r ∷ rs) =
    let again = paths_from seen rs in
    let fresh = r.path ∷ paths_from (r.path ∷ seen) rs in
    if has_path r.path seen then again else fresh

unfoldable pub distinct_paths : List Route → List Text
unfolding paths_from
distinct_paths = paths_from []

-- `NewQueryFolder`.
unfoldable pub new_query_folder : List Route → List (Route × List Text) → Option QueryFolder
unfolding declare_routes distinct_paths
new_query_folder table spellings = do
  paths ← new_path_folder (distinct_paths table)
  by_route ← declare_routes table (sort_by route_before spellings)
  some (record { paths = paths; by_route = by_route })

-- The bytes in front of the first `=`.
unfoldable pub name_of : Text → Text
name_of [] = []
name_of (c ∷ cs) = if c == equals then [] else c ∷ name_of cs

abbrev pub rest_of : Text → Text
rest_of fragment = drop (length (name_of fragment)) fragment

abbrev pub respelled : Text → Option Text → Text × Bool
respelled fragment none = (fragment, false)
respelled fragment (some canonical) =
    if str_eq canonical (name_of fragment)
    then (fragment, false)
    else (canonical ++ rest_of fragment, true)

abbrev pub respell : Declared → Text → Text × Bool
respell declared fragment = respelled fragment (find_text (fold_ascii (name_of fragment)) declared)

abbrev pub any_changed : Declared → List Text → Bool
any_changed declared [] = false
any_changed declared (f ∷ fs) = (respell declared f).1 || any_changed declared fs

abbrev pub respell_all : Declared → List Text → List Text
respell_all declared [] = []
respell_all declared (f ∷ fs) = (respell declared f).0 ∷ respell_all declared fs

-- `foldQueryNames`.
unfoldable pub fold_query_names : Declared → Text → Text
unfolding name_of
fold_query_names declared raw =
    let fragments = split ampersand raw in
    if any_changed declared fragments then join ampersand (respell_all declared fragments) else raw

unfoldable pub find_declared : Route → List (Route × Declared) → Option Declared
find_declared r [] = none
find_declared r ((k, d) ∷ rest) = if same_route k r then some d else find_declared r rest

abbrev pub folded_by : Text → Option Declared → Text
folded_by raw none = raw
folded_by raw (some declared) = if nonempty declared then fold_query_names declared raw else raw

abbrev pub routed_query : QueryFolder → Text → Text → Answer Text → Answer Text
routed_query f method raw unmatched = matched raw
routed_query f method raw panicked = panicked
routed_query f method raw (matched pattern) =
    matched
      (folded_by raw (find_declared (record { http_method = method; path = pattern }) f.by_route))

-- `QueryFolder.Canonicalise`.
unfoldable pub canonicalise_query : QueryFolder → Text → Text → Text → Answer Text
unfolding fold_query_names find_declared
canonicalise_query f method path raw =
    if not (nonempty raw) || not (nonempty f.by_route)
    then matched raw
    else routed_query f method raw (pattern_of f.paths path)
