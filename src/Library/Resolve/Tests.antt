-- ===== src/Library/Resolve/Tests.antt =====
-- A library of two episodes of one series, with a directory for its season, and a picture beside
-- them, walked in the other order.
use atrium_go.Library.Identity.{derive_id}
use atrium_go.Scan.{item_less, sort_items}
use atrium_go.Tables.{any_row, find_row, update_rows}
use atrium_go.Library.Identity.{normalise}
use atrium_go.Library.Candidates.{candidate}
use atrium_go.Sorting.{sort_by}
use atrium_go.Library.Episodes.{resolve_shows}
use atrium_go.Text.{fold_byte, fold_ascii, has_prefix, join, split, str_eq, str_lt, trim}
use atrium_go.Base.{
  ◌++◌, if◌then◌else◌, ◌<◌, total, zero, suc, ◌+◌, ℕ, true, false, Option, none, some, List, [],
  ◌∷◌, ◌≡◌, refl, inl, inr, arith, In, between, ◌==◌, length,
}
use atrium_go.Base.Int.{pos}
use atrium_go.Library.Candidates.{shows, parse_collection_type}
use atrium_go.Library.Resolve.Files.{resolve_with_tags-weight, resolve_with_tags-accounted, taken}
use atrium_go.Library.Resolve.Parents.{Reaches, resolve_with_tags-Reaches}
use atrium_go.Library.Resolve.Weights.{item_weight, reading_weight}
use atrium_go.Ports.Items.{ScannedItem}
use atrium_go.Library.SeasonNames.{parse_season_directory_name}
use atrium_go.Library.Data.{Library, Entry, Reading, Plan}
use atrium_go.Library.Resolve.{resolve_with_tags}
use atrium_go.Library.Tools.{blank, Tools, Attempt, done, failed, crashed}
use atrium_go.Library.Tracks.{no_tags}
use atrium_go.Text.{Text, codes}

abbrev tools : Tools
tools = record {
  unicode = record {
    is_space = λ c. c == b' ';
    is_digit = between b'0' b'9';
    is_mark = λ _. false;
    to_lower = λ s. s;
    nfd = λ s. s;
  };
  folding = record { nfc = λ s. s; to_lower = λ s. s };
  digest = record { sha256 = λ s. s; hex = λ s. s };
  decode = λ s. s;
  encode = λ s. s;
  day_at = λ year month day. none;
}

abbrev series_library : Library
series_library = record {
  id = codes "L";
  name = codes "Series";
  name_folded = codes "series";
  collection_type = codes "tvshows";
  case_sensitive = true;
  roots = codes "/tv" ∷ [];
  created_at = pos 0;
}

abbrev entry : Text → Entry
entry path = record { path = path; size = pos 7; modified_at = pos 0 }

abbrev walked : List Reading
walked =
    record {
      root = 0;
      entries =
          entry (codes "Lost/Season 1/S01E02.mkv")
          ∷ entry (codes "Lost/Season 1/S01E01.mkv")
          ∷ entry (codes "Lost/poster.jpg")
          ∷ [];
    }
    ∷ []

abbrev no_plan : Plan
no_plan = record { items = []; unplaceable = []; skipped = [] }

abbrev plan_found : Attempt (Option Plan) → Plan
plan_found (done (some plan)) = plan
plan_found (done none) = no_plan
plan_found (failed e) = no_plan
plan_found crashed = no_plan

abbrev planned : Plan
planned = plan_found (resolve_with_tags tools series_library no_tags walked)

resolves : resolve_with_tags tools series_library no_tags walked ≡ done (some planned)
unfolding resolve_with_tags str_eq resolve_shows sort_by str_lt candidate split has_prefix
    fold_ascii join trim normalise find_row any_row update_rows
resolves = refl

planned_length : length planned.items ≡ 5
unfolding resolve_with_tags str_eq resolve_shows sort_by str_lt candidate split has_prefix
    fold_ascii join trim normalise find_row any_row update_rows sort_items item_less derive_id
planned_length = refl

abbrev item_of : ℕ → List ScannedItem → ScannedItem
item_of n [] = blank
item_of zero (x ∷ xs) = x
item_of (suc n) (x ∷ xs) = item_of n xs

item_of-In : (n : ℕ) (xs : List ScannedItem) → n < length xs → In (item_of n xs) xs
item_of-In n [] h = ground arith
item_of-In zero (x ∷ xs) h = inl refl
item_of-In (suc n) (x ∷ xs) h = inr (item_of-In n xs (omega arith))

typed : parse_collection_type (codes "tvshows") ≡ some shows
unfolding parse_collection_type str_eq
typed = refl

resolve_with_tags-Reaches_example :
    Reaches tools series_library planned.items (item_of 3 planned.items)
resolve_with_tags-Reaches_example =
    resolve_with_tags-Reaches tools series_library no_tags walked (item_of 3 planned.items) resolves
      (item_of-In 3 planned.items (omega (arith, planned_length)))

resolve_with_tags-weight_example :
    total (item_weight (λ e. 1)) planned.items
    ≡ total (reading_weight (taken (λ e. 1) shows)) walked
resolve_with_tags-weight_example =
    resolve_with_tags-weight tools series_library (λ e. 1) no_tags walked shows typed resolves

resolve_with_tags-accounted_example :
    total (item_weight (λ e. 1)) planned.items + length planned.skipped
    ≡ total (reading_weight (λ e. 1)) walked
resolve_with_tags-accounted_example =
    resolve_with_tags-accounted tools series_library no_tags walked resolves

-- Lowering U+0130 as Unicode does: its two bytes become one.
abbrev lower_dotted : Text → Text
lower_dotted [] = []
lower_dotted (c ∷ cs) =
    let rest = lower_dotted cs in
    if c == 0xC4 then rest else if c == 0xB0 then b'i' ∷ rest else fold_byte c ∷ rest

abbrev dotted : Tools
dotted = record tools { folding = record { nfc = λ s. s; to_lower = lower_dotted } }

abbrev entries_of : List Reading → List Entry
entries_of [] = []
entries_of (r ∷ rs) = r.entries

-- The Turkish for second season, in the directory of a series.
dotted_crashes :
    parse_season_directory_name lower_dotted
      (0xC4 ∷ 0xB0 ∷ b'K' ∷ 0xC4 ∷ 0xB0 ∷ codes "NC" ++ 0xC4 ∷ 0xB0 ∷ codes " SEZON")
      (codes "Lost")
    ≡ crashed
unfolding parse_season_directory_name fold_byte has_prefix
dotted_crashes = refl
