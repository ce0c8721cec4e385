-- ===== src/Library/Bytes.antt =====
-- What internal/library uses of the packages strings, strconv and path, on the bytes of a name, and
-- the small readers of names.go, shows.go and extras.go that its rules share.
use mathlib.Core.List.{reverse}
use atrium_go.Base.{
  ℕ, zero, suc, ◌+◌, ◌-◌, ◌*◌, Bool, true, false, ◌||◌, Option, none, some, List, [], ◌∷◌, ◌++◌,
  ◌==◌, ltb, between, if◌then◌else◌, take, drop,
}
use atrium_go.Text.{Text, codes, str_eq, has_prefix, split, join, nonempty, trim_left}

-- `s[i]`.
unfoldable pub at : Text → ℕ → Option ℕ
at [] i = none
at (c ∷ cs) zero = some c
at (c ∷ cs) (suc i) = at cs i

-- The counting of a loop.
unfoldable pub positions : ℕ → ℕ → List ℕ
positions start zero = []
positions start (suc n) = start ∷ positions (suc start) n

abbrev pub or_else : {A : Type 0} → Option A → Option A → Option A
or_else none b = b
or_else (some a) b = some a

-- The first answer of a loop that returns one.
unfoldable pub first_of : {A B : Type 0} → (A → Option B) → List A → Option B
first_of f [] = none
first_of f (a ∷ rest_list) = let rest = first_of f rest_list in or_else (f a) rest

-- `strings.ContainsRune(set, rune(c))`, for a set of ASCII bytes.
unfoldable pub one_of : Text → ℕ → Bool
one_of [] c = false
one_of (d ∷ ds) c = d == c || one_of ds c

abbrev pub holds_at : (ℕ → Bool) → Option ℕ → Bool
holds_at test none = false
holds_at test (some c) = test c

-- A test of `s[i]`, false beyond the end.
abbrev pub test_at : (ℕ → Bool) → Text → ℕ → Bool
test_at test s i = holds_at test (at s i)

-- `isASCIIDigit`.
abbrev pub is_ascii_digit : ℕ → Bool
is_ascii_digit = between b'0' b'9'

-- `isWordByte`.
abbrev pub is_word_byte : ℕ → Bool
is_word_byte c = c == b'_' || is_ascii_digit c || between b'a' b'z' c || between b'A' b'Z' c

-- `strings.TrimRight` and `strings.Trim`.
abbrev pub trim_right : (ℕ → Bool) → Text → Text
trim_right drops s = reverse (trim_left drops (reverse s))

-- `strings.HasSuffix`.
abbrev pub ends_with : Text → Text → Bool
ends_with suffix s = has_prefix (reverse suffix) (reverse s)

-- `strings.IndexByte`.
unfoldable pub index_of : ℕ → Text → Option ℕ
index_of c [] = none
index_of c (d ∷ ds) = let rest = index_of c ds in if d == c then some 0 else next rest
  where
    next : Option ℕ → Option ℕ
    next none = none
    next (some i) = some (suc i)

abbrev pub present : {A : Type 0} → Option A → Bool
present none = false
present (some a) = true

-- What stands before and behind the last occurrence of a byte.
unfoldable pub cut_last : ℕ → Text → Option (Text × Text)
cut_last c [] = none
cut_last c (d ∷ ds) = widened (cut_last c ds)
  where
    widened : Option (Text × Text) → Option (Text × Text)
    widened none = if d == c then some ([], ds) else none
    widened (some (a, b)) = some (d ∷ a, b)

-- `baseName`.
unfoldable pub base_name : Text → Text
unfolding cut_last
base_name path = elim (cut_last b'/' path) [ none ↦ path | some (a, b) ↦ b ]

-- `dirName`.
unfoldable pub dir_name : Text → Text
unfolding cut_last
dir_name path = elim (cut_last b'/' path) [ none ↦ codes "." | some (a, b) ↦ a ]

abbrev pub is_slash : ℕ → Bool
is_slash c = c == b'/'

-- `path.Base`.
unfoldable pub path_base : Text → Text
unfolding base_name trim_left
path_base [] = codes "."
path_base (c ∷ cs) =
    let name = base_name (trim_right is_slash (c ∷ cs)) in if nonempty name then name else codes "/"

-- `path.Ext` of a name without a slash, and the name without it.
unfoldable pub cut_ext : Text → Text × Text
unfolding cut_last
cut_ext name = elim (cut_last b'.' name) [ none ↦ (name, []) | some (a, b) ↦ (a, b'.' ∷ b) ]

-- `stemOf`.
unfoldable pub stem_of : Text → Text
unfolding path_base cut_ext
stem_of filename = (cut_ext (path_base filename)).0

-- `stemOfPath`.
unfoldable pub stem_of_path : Text → Text
unfolding stem_of
stem_of_path path = stem_of (base_name path)

-- `path.Clean`: the elements, of which the last is at the front.
unfoldable pub clean_stack : Bool → List Text → List Text → List Text
clean_stack rooted out [] = out
clean_stack rooted out (e ∷ es) =
    if str_eq e [] || str_eq e (codes ".")
    then clean_stack rooted out es
    else if str_eq e (codes "..")
    then clean_stack rooted (climb out) es
    else clean_stack rooted (e ∷ out) es
  where
    climb : List Text → List Text
    climb [] = if rooted then [] else codes ".." ∷ []
    climb (o ∷ os) = if str_eq o (codes "..") then codes ".." ∷ o ∷ os else os

unfoldable pub path_clean : Text → Text
unfolding clean_stack
path_clean path =
    let rooted = has_prefix (codes "/") path in
    let joined = join b'/' (reverse (clean_stack rooted [] (split b'/' path))) in
    if rooted then b'/' ∷ joined else if nonempty joined then joined else codes "."

-- `path.Dir`.
unfoldable pub path_dir : Text → Text
unfolding path_clean cut_last
path_dir path = elim (cut_last b'/' path) [
  | none ↦ codes "."
  | some (a, b) ↦ path_clean (a ++ codes "/")
]

-- `skipRun`, as the index behind the run.
unfoldable pub run_length : (ℕ → Bool) → Text → ℕ
run_length test [] = 0
run_length test (c ∷ cs) = if test c then suc (run_length test cs) else 0

abbrev pub skip_run : Text → ℕ → Text → ℕ
skip_run s i set = i + run_length (one_of set) (drop i s)

-- The value of digits behind those of `acc`.
unfoldable pub value_of : ℕ → Text → ℕ
value_of acc [] = acc
value_of acc (c ∷ cs) = value_of (acc * 10 + (c - b'0')) cs

-- `readNumber`: the number at an index and the index behind it; more than nine digits are none.
unfoldable pub read_number : Text → ℕ → Option (ℕ × ℕ)
unfolding run_length value_of
read_number s i =
    let n = run_length is_ascii_digit (drop i s) in
    if n == 0 || ltb 9 n then none else some (value_of 0 (take n (drop i s)), i + n)

-- `joinKey`.
abbrev pub join_key : List Text → Text
join_key = join 0
