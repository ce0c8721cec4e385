-- ===== src/Paths/Compile.antt =====
-- internal/httpapi/path.go: `compileSegment`, `compilePath` and `newPathFolder`.
use atrium_go.Base.{
  ℕ, zero, suc, Bool, true, false, ◌||◌, Option, none, some, List, [], ◌∷◌, ◌++◌, if◌then◌else◌,
  length, ◌==◌, ◌>>=◌, ◌>>◌, guard, not, ◌&&◌,
}
use atrium_go.Text.{Text, nonempty, fold_ascii, cut, split, str_eq, has_prefix}

-- A run of a segment; the source's flag says which of the two it is.
pub data PathPart : Type 0 where
  literal : Text → PathPart
  parameter : PathPart

pub record PathPattern : Type 0 where
  pub canonical : Text
  pub segments : List (List PathPart)

pub record PathFolder : Type 0 where
  -- the folded spelling of a path, and its canonical one
  pub literals : List (Text × Text)
  pub patterns : List PathPattern

-- `splitSegments`.
unfoldable pub trim_slash : Text → Text
trim_slash [] = []
trim_slash (c ∷ s) = if c == b'/' then s else c ∷ s

unfoldable pub split_segments : Text → List Text
unfolding trim_slash
split_segments path = split b'/' (trim_slash path)

-- `strings.IndexByte(s, b) >= 0`.
abbrev pub has_byte : ℕ → Text → Bool
has_byte b [] = false
has_byte b (c ∷ s) = c == b || has_byte b s

-- The literal in front of a brace, which may be empty.
abbrev pub run_of : Text → List PathPart
run_of [] = []
run_of (c ∷ s) = literal (c ∷ s) ∷ []

-- Whether the run that was written last is a parameter.
abbrev pub follows : Bool → Text → Bool
follows last [] = last
follows last (c ∷ s) = false

-- One turn of the loop of `compileSegment`, from where the first `{` is and the turns that follow.
unfoldable pub compile_opened :
    Bool → Text → Option (Text × Text) → (Text → Option (List PathPart)) → Option (List PathPart)
compile_opened last s none turns = if has_byte b'}' s then none else some (literal s ∷ [])
compile_opened last s (some (before, behind)) turns = do
  guard (not (has_byte b'}' before))
  named ← cut b'}' behind
  guard (nonempty named.0 && not (has_byte b'{' named.0) && not (follows last before))
  parts ← turns named.1
  some (run_of before ++ parameter ∷ parts)

-- The loop of `compileSegment`, from the bytes that are left and whether the run before them is a
-- parameter. Each turn but the last consumes a `{`, so the length of the segment is enough fuel.
unfoldable pub compile_runs : ℕ → Bool → Text → Option (List PathPart)
unfolding compile_opened
compile_runs fuel last [] = some []
compile_runs zero last (c ∷ s) = none
compile_runs (suc fuel) last (c ∷ s) =
    compile_opened last (c ∷ s) (cut b'{' (c ∷ s)) (λ rest. compile_runs fuel true rest)

unfoldable pub compile_segment : Text → Option (List PathPart)
unfolding compile_runs
compile_segment segment = compile_runs (length segment) false segment

abbrev pub is_parameter : PathPart → Bool
is_parameter (literal _) = false
is_parameter parameter = true

abbrev pub any_parameter : List PathPart → Bool
any_parameter [] = false
any_parameter (p ∷ ps) = is_parameter p || any_parameter ps

-- The segments of a path, compiled; an empty one is an error.
unfoldable pub compile_segments : List Text → Option (List (List PathPart))
unfolding compile_segment
compile_segments [] = some []
compile_segments (s ∷ ss) = do
  guard (nonempty s)
  parts ← compile_segment s
  rest ← compile_segments ss
  some (parts ∷ rest)

abbrev pub parametrised : List (List PathPart) → Bool
parametrised [] = false
parametrised (ps ∷ rest) = any_parameter ps || parametrised rest

unfoldable pub compile_path : Text → Option (PathPattern × Bool)
unfolding compile_segments split_segments
compile_path path = do
  segments ← compile_segments (split_segments path)
  some (record { canonical = path; segments = segments }, parametrised segments)

-- `key`: the mark of a parameter is a byte no path carries.
unfoldable pub key_parts : List PathPart → Text
unfolding fold_ascii
key_parts [] = []
key_parts (literal text ∷ ps) = fold_ascii text ++ key_parts ps
key_parts (parameter ∷ ps) = 0 ∷ key_parts ps

unfoldable pub key_segments : List (List PathPart) → Text
unfolding key_parts
key_segments [] = []
key_segments (ps ∷ rest) = b'/' ∷ key_parts ps ++ key_segments rest

unfoldable pub key : PathPattern → Text
unfolding key_segments
key p = key_segments p.segments

-- Reading a map.
unfoldable pub find_text : Text → List (Text × Text) → Option Text
find_text k [] = none
find_text k ((a, b) ∷ m) = if str_eq a k then some b else find_text k m

-- Where a compiled path goes: to the patterns if it has a parameter.
unfoldable pub put_compiled : Bool → PathPattern → Text → PathFolder → PathFolder
unfolding key
put_compiled true p path f = record f { patterns = f.patterns ++ p ∷ [] }
put_compiled false p path f = record f { literals = (key p, path) ∷ f.literals }

abbrev pub is_none : {A : Type 0} → Option A → Bool
is_none none = true
is_none (some a) = false

-- `newPathFolder`, from the keys met so far and the folder built so far; none is an error.
unfoldable pub add_path :
    Text → List (Text × Text) × PathFolder → Option (List (Text × Text) × PathFolder)
unfolding compile_path key find_text put_compiled
add_path path state = do
  guard (has_prefix (b'/' ∷ []) path)
  compiled ← compile_path path
  guard (is_none (find_text (key compiled.0) state.0))
  some ((key compiled.0, path) ∷ state.0, put_compiled compiled.1 compiled.0 path state.1)

unfoldable pub add_paths :
    List Text → List (Text × Text) × PathFolder → Option (List (Text × Text) × PathFolder)
unfolding add_path
add_paths [] state = some state
add_paths (path ∷ paths) state = do next ← add_path path state; add_paths paths next

abbrev pub empty_folder : PathFolder
empty_folder = record { literals = []; patterns = [] }

unfoldable pub new_path_folder : List Text → Option PathFolder
unfolding add_paths
new_path_folder paths = do built ← add_paths paths ([], empty_folder); some built.1
