-- ===== src/Paths/Match.antt =====
-- internal/httpapi/path.go: `matchSegment`, `match`, `lookup` and `Canonicalise`.
use atrium_go.Base.{
  ℕ, Bool, false, not, ◌&&◌, Option, none, some, List, [], ◌∷◌, ◌++◌, if◌then◌else◌, length, take,
  drop, ◌==◌,
}
use atrium_go.Text.{Text, nonempty, fold_ascii, equal_fold_ascii, has_prefix}
use atrium_go.Paths.Compile.{
  PathPart, literal, parameter, PathPattern, PathFolder, split_segments, find_text,
}

-- What a match answers; slicing beyond a text's end panics.
pub data Answer (A : Type 0) : Type 0 where
  matched : A → Answer A
  unmatched panicked : Answer A

abbrev pub also : {A B : Type 0} → Answer A → (A → Answer B) → Answer B
also (matched a) f = f a
also unmatched f = unmatched
also panicked f = panicked

-- `indexFoldASCII`: the bytes in front of the leftmost occurrence of `sub` and those from it on.
unfoldable pub cut_fold : Text → Text → Option (Text × Text)
unfolding equal_fold_ascii
cut_fold [] sub = if nonempty sub then none else some ([], [])
cut_fold (c ∷ s) sub =
    if equal_fold_ascii (take (length sub) (c ∷ s)) sub
    then some ([], c ∷ s)
    else elim (cut_fold s sub) [ none ↦ none | some (a, b) ↦ some (c ∷ a, b) ]

-- The text that the run behind a parameter spells; the source reads it of a literal only, since
-- runs alternate.
abbrev pub text_of : PathPart → Text
text_of (literal t) = t
text_of parameter = []

-- A parameter's bytes, up to where the next run was found, and what is written behind them.
unfoldable pub put_behind : ℕ → Option (Text × Text) → (Text → Answer Text) → Answer Text
put_behind c none rest = unmatched
put_behind c (some (a, b)) rest = also (rest b) (λ out. matched (c ∷ a ++ out))

-- `matchSegment`, on the bytes from `at` on; the answer is what it writes. A parameter that is not
-- the last run is searched behind one byte, and `segment[at+1:]` panics where there is none.
unfoldable pub match_segment : List PathPart → Text → Answer Text
unfolding cut_fold put_behind
match_segment [] s = if nonempty s then unmatched else matched []
match_segment (literal t ∷ ps) s =
    let rest = match_segment ps (drop (length t) s) in
    if equal_fold_ascii (take (length t) s) t
    then also rest (λ out. matched (t ++ out))
    else unmatched
match_segment (parameter ∷ []) s = if nonempty s then matched s else unmatched
match_segment (parameter ∷ p ∷ ps) [] = panicked
match_segment (parameter ∷ p ∷ ps) (c ∷ s) =
    put_behind c (cut_fold s (text_of p)) (λ b. match_segment (p ∷ ps) b)

-- The loop of `match`; unequal numbers of segments do not match, whatever the segments are.
unfoldable pub match_segments : List (List PathPart) → List Text → Answer Text
unfolding match_segment
match_segments [] ss = matched []
match_segments (ps ∷ rest) [] = unmatched
match_segments (ps ∷ rest) (s ∷ ss) =
    also (match_segment ps s)
      (λ out. also (match_segments rest ss) (λ outs. matched (b'/' ∷ out ++ outs)))

unfoldable pub match_path : PathPattern → Text → Answer Text
unfolding match_segments
match_path p path =
    let segments = split_segments path in
    if length segments == length p.segments then match_segments p.segments segments else unmatched

unfoldable pub find_pattern : List PathPattern → Text → Answer (Text × Text)
unfolding match_path
find_pattern [] path = unmatched
find_pattern (p ∷ ps) path = elim (match_path p path) [
  | matched out ↦ matched (out, p.canonical)
  | unmatched ↦ find_pattern ps path
  | panicked ↦ panicked
]

-- `lookup`: the path in the route's casing, and the route's own pattern.
unfoldable pub lookup : PathFolder → Text → Answer (Text × Text)
unfolding find_pattern
lookup f path = elim (find_text (fold_ascii path) f.literals) [
  | some canonical ↦ matched (canonical, canonical)
  | none ↦ find_pattern f.patterns path
]

-- `pattern`.
unfoldable pub pattern_of : PathFolder → Text → Answer Text
unfolding lookup
pattern_of f path = also (lookup f path) (λ found. matched found.1)

-- `strings.HasSuffix(path, "//")`.
unfoldable pub ends_in_two : Text → Bool
ends_in_two [] = false
ends_in_two (c ∷ []) = false
ends_in_two (c ∷ d ∷ []) = c == b'/' && d == b'/'
ends_in_two (c ∷ d ∷ e ∷ s) = ends_in_two (d ∷ e ∷ s)

-- `path[:len(path)-1]`, of a path of more than one byte that ends in a slash.
unfoldable pub trim_last : Text → Text
trim_last [] = []
trim_last (c ∷ []) = c ∷ []
trim_last (c ∷ d ∷ []) = if d == b'/' then c ∷ [] else c ∷ d ∷ []
trim_last (c ∷ d ∷ e ∷ s) = c ∷ trim_last (d ∷ e ∷ s)

-- What is routed: a path that matches nothing goes on as it arrived.
unfoldable pub routed : Text → Answer (Text × Text) → Answer Text
routed path (matched found) = matched found.0
routed path unmatched = matched path
routed path panicked = panicked

-- `Canonicalise`; no match is the refusal.
unfoldable pub canonicalise : PathFolder → Text → Answer Text
unfolding lookup ends_in_two trim_last routed
canonicalise f path =
    if ends_in_two path
    then unmatched
    else if not (has_prefix (b'/' ∷ []) path)
    then matched path
    else routed (trim_last path) (lookup f (trim_last path))
