-- ===== src/Queries/Tests.antt =====
-- A path of two routes, of which one declares a name, and a query that spells it otherwise.
use atrium_go.Paths.Match.{pattern_of}
use atrium_go.Sorting.{sort_by}
use atrium_go.Text.{cut, fold_ascii, has_prefix, join, str_eq}
use atrium_go.Paths.Compile.{find_text, new_path_folder}
use atrium_go.Base.{◌≡◌, refl, some, [], ◌∷◌}
use atrium_go.Paths.Match.{matched}
use atrium_go.Queries.Names.{canonicalise_query-Pairs, Pairs}
use atrium_go.Queries.{Route, QueryFolder, new_query_folder, canonicalise_query, ampersand}
use atrium_go.Text.{codes, split}

abbrev sessions : Route
sessions = record { http_method = codes "GET"; path = codes "/Sessions" }

abbrev starting : Route
starting = record { http_method = codes "POST"; path = codes "/Sessions" }

abbrev folder : QueryFolder
folder = record {
  paths = record { literals = (codes "/sessions", codes "/Sessions") ∷ []; patterns = [] };
  by_route = (sessions, (codes "deviceid", codes "deviceId") ∷ []) ∷ [];
}

built :
    new_query_folder (sessions ∷ starting ∷ []) ((sessions, codes "deviceId" ∷ []) ∷ [])
    ≡ some folder
unfolding new_query_folder new_path_folder has_prefix split cut sort_by str_eq
built = refl

spells :
    canonicalise_query folder (codes "GET") (codes "/sessions") (codes "a=B&DEVICEID=X=y&")
    ≡ matched (codes "a=B&deviceId=X=y&")
unfolding canonicalise_query pattern_of find_text str_eq fold_ascii split join
spells = refl

canonicalise_query-Pairs_example :
    Pairs
      (split ampersand (codes "a=B&DEVICEID=X=y&"))
      (split ampersand (codes "a=B&deviceId=X=y&"))
canonicalise_query-Pairs_example =
    canonicalise_query-Pairs (sessions ∷ starting ∷ []) ((sessions, codes "deviceId" ∷ []) ∷ [])
      folder (codes "GET") (codes "/sessions") (codes "a=B&DEVICEID=X=y&") built spells
