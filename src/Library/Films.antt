-- ===== src/Library/Films.antt =====
-- internal/library/movies.go: the films of a library, each one file or a stack of parts. The map of
-- the stacks is the list of them in the order they were opened, each with its key.

use atrium_go.Base.{
  ℕ, suc, Bool, true, false, not, ◌&&◌, ◌||◌, Option, none, some, List, [], ◌∷◌, ◌++◌, map, ◌==◌,
  if◌then◌else◌,
}
use atrium_go.Base.Int.{ℤ, pos, eqb_ℤ, ltb_ℤ}
use atrium_go.Library.Bytes.{base_name, dir_name, stem_of_path, join_key}
use atrium_go.Library.Data.{Library, Entry, Reading}
use atrium_go.Library.Identity.{Key, key, refused, normalise}
use atrium_go.Library.Names.{clean_video_name}
use atrium_go.Library.SortKey.{itoa}
use atrium_go.Library.Tools.{
  Tools, Attempt, done, ◌>>=◌, traverse, blank, file_at, year_number, trim_space, keyed, normalised,
  identified,
}
use atrium_go.Ports.Items.{ScannedItem, ScannedFile}
use atrium_go.Sorting.{sort_by}
use atrium_go.Tables.{find_row, count_rows}
use atrium_go.Text.{Text, codes, str_eq, str_lt}
use atrium_go.Library.Parts.{PartKind, part_numeric, part_alphabetic, PartMarker, split_part_marker}

pub record FilmCandidate : Type 0 where
  pub root : ℕ
  pub dir : Text
  pub name_source : Text
  pub files : List ScannedFile

pub record StackPart : Type 0 where
  pub ordinal : ℤ
  pub entry : Entry

pub record Stack : Type 0 where
  pub stack_key : Text
  pub root : ℕ
  pub dir : Text
  pub name_source : Text
  pub part_type : Text
  pub kind : PartKind
  pub tokens : List Text
  pub first : StackPart
  pub others : List StackPart

pub record Stacking : Type 0 where
  pub order : List Stack
  pub loose : List FilmCandidate

-- `singleFileCandidate`.
abbrev pub single_file_candidate : ℕ → Text → Text → Entry → FilmCandidate
single_file_candidate root dir stem entry = record {
  root = root;
  dir = dir;
  name_source = stem;
  files = file_at 0 entry ∷ [];
}

abbrev pub same_kind : PartKind → PartKind → Bool
same_kind part_numeric part_numeric = true
same_kind part_alphabetic part_alphabetic = true
same_kind part_numeric part_alphabetic = false
same_kind part_alphabetic part_numeric = false

unfoldable pub has_token : Text → List Text → Bool
has_token t [] = false
has_token t (u ∷ us) = str_eq u t || has_token t us

abbrev pub fits : PartMarker → Stack → Bool
fits m s =
    str_eq s.part_type m.part_type && same_kind s.kind m.kind && not (has_token m.token s.tokens)

abbrev pub by_stack_key : Text → Stack → Bool
by_stack_key k s = str_eq s.stack_key k

abbrev pub stack_part : PartMarker → Entry → StackPart
stack_part m e = record { ordinal = m.ordinal; entry = e }

abbrev pub grow : PartMarker → Entry → Stack → Stack
grow m e s = record s { tokens = m.token ∷ s.tokens; others = s.others ++ stack_part m e ∷ [] }

abbrev pub fresh_stack : Text → ℕ → Text → Text → PartMarker → Entry → Stack
fresh_stack k root dir base m e = record {
  stack_key = k;
  root = root;
  dir = dir;
  name_source = base;
  part_type = m.part_type;
  kind = m.kind;
  tokens = m.token ∷ [];
  first = stack_part m e;
  others = [];
}

abbrev pub loosen : FilmCandidate → Stacking → Stacking
loosen c st = record st { loose = st.loose ++ c ∷ [] }

-- The first of the stacks with the key takes the part.
unfoldable pub grow_stack : Text → PartMarker → Entry → List Stack → List Stack
grow_stack k m e [] = []
grow_stack k m e (s ∷ ss) = if by_stack_key k s then grow m e s ∷ ss else s ∷ grow_stack k m e ss

abbrev pub stack_with : Text → ℕ → Text → PartMarker → Entry → Stacking → Option Stack → Stacking
stack_with k root base m e st none = record st {
  order = st.order ++ fresh_stack k root (dir_name e.path) base m e ∷ [];
}
stack_with k root base m e st (some s) =
    if fits m s
    then record st { order = grow_stack k m e st.order }
    else loosen (single_file_candidate root (dir_name e.path) (stem_of_path e.path) e) st

-- The parts of a stack, in order.
abbrev pub part_less : StackPart → StackPart → Bool
part_less a b =
    if not (eqb_ℤ a.ordinal b.ordinal)
    then ltb_ℤ a.ordinal b.ordinal
    else str_lt a.entry.path b.entry.path

unfoldable pub number_files : ℕ → List StackPart → List ScannedFile
number_files n [] = []
number_files n (p ∷ ps) = file_at n p.entry ∷ number_files (suc n) ps

abbrev pub stack_candidate : Stack → List StackPart → FilmCandidate
stack_candidate s [] =
    single_file_candidate s.root s.dir (stem_of_path s.first.entry.path) s.first.entry
stack_candidate s (p ∷ ps) = record {
  root = s.root;
  dir = s.dir;
  name_source = s.name_source;
  files = number_files 1 (sort_by part_less (s.first ∷ p ∷ ps));
}

-- A stack of one part is a file of its own.
unfoldable pub candidate_of : Stack → FilmCandidate
unfolding number_files
candidate_of s = stack_candidate s s.others

-- `directoryKey`.
abbrev pub directory_key : FilmCandidate → Text
directory_key c = join_key (itoa (pos c.root) ∷ c.dir ∷ [])

abbrev pub in_directory : Text → FilmCandidate → Bool
in_directory k c = str_eq (directory_key c) k

-- `directoriesThatNameTheirFilm`, at the directory of one candidate.
unfoldable pub film_name_source : List FilmCandidate → FilmCandidate → Text
unfolding base_name
film_name_source candidates c =
    if not (str_eq c.dir (codes ".")) && count_rows (in_directory (directory_key c)) candidates == 1
    then base_name c.dir
    else c.name_source

module _ (tools : Tools) (lib : Library) where
  abbrev pub stack_base : Text → Key → Text
  stack_base base (key k) = k
  stack_base base (refused e) = base

  -- `stackKey`.
  unfoldable pub stack_key_of : ℕ → Text → Text → Text
  stack_key_of root dir base = join_key (
      itoa (pos root)
      ∷ dir
      ∷ stack_base base (normalise tools.folding base lib.case_sensitive)
      ∷ [])

  abbrev pub place_marked : ℕ → Entry → Stacking → Option (Text × PartMarker) → Stacking
  place_marked root e st none =
      loosen (single_file_candidate root (dir_name e.path) (stem_of_path e.path) e) st
  place_marked root e st (some (base, m)) =
      let k = stack_key_of root (dir_name e.path) base in
      stack_with k root base m e st (find_row (by_stack_key k) st.order)

  -- The body of the loops of `stackParts`.
  unfoldable pub place_entry : ℕ → Entry → Stacking → Stacking
  unfolding split_part_marker stack_key_of grow_stack has_token
  place_entry root e st = place_marked root e st (split_part_marker (stem_of_path e.path))

  unfoldable pub place_entries : ℕ → List Entry → Stacking → Stacking
  unfolding place_entry
  place_entries root [] st = st
  place_entries root (e ∷ es) st = place_entries root es (place_entry root e st)

  unfoldable pub place_readings : List Reading → Stacking → Stacking
  unfolding place_entries
  place_readings [] st = st
  place_readings (r ∷ rs) st = place_readings rs (place_entries r.root r.entries st)

  -- `stackParts`.
  unfoldable pub stack_parts : List Reading → List FilmCandidate
  unfolding place_readings candidate_of
  stack_parts readings =
      let st = place_readings readings (record { order = []; loose = [] }) in
      st.loose ++ map candidate_of st.order

  abbrev pub first_path : List ScannedFile → Text
  first_path [] = []
  first_path (f ∷ fs) = f.path

  -- The body of the loop of `resolveMovies`.
  unfoldable pub film_item : Text → List FilmCandidate → FilmCandidate → Attempt ScannedItem
  unfolding film_name_source clean_video_name
  film_item parent candidates c =
      let titled = clean_video_name (trim_space tools) (film_name_source candidates c) in
      normalised tools lib (first_path c.files) >>= λ k. done (
        keyed tools (record blank {
          id = identified tools lib (codes "Movie") k;
          library_id = lib.id;
          parent_id = parent;
          kind = codes "Movie";
          name = titled.0;
          path = first_path c.files;
          root_ordinal = pos c.root;
          production_year = year_number titled.1;
          files = c.files;
        }))

  -- `resolveMovies`.
  unfoldable pub resolve_movies : List Reading → Text → Attempt (List ScannedItem)
  unfolding stack_parts film_item traverse
  resolve_movies readings parent =
      let candidates = stack_parts readings in traverse (film_item parent candidates) candidates
