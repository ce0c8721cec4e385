-- ===== src/Text/Split.antt =====
-- What the source uses of Go's package strings, on bytes.
use atrium_go.Base.{
  ℕ, Bool, true, false, ◌&&◌, ◌||◌, List, [], ◌∷◌, ◌++◌, Option, none, some, ◌==◌, if◌then◌else◌,
}
use mathlib.Core.List.{reverse}
use atrium_go.Text.Fold.{Text}

-- `strings.HasPrefix(s, prefix)`.
unfoldable pub has_prefix : Text → Text → Bool
has_prefix [] s = true
has_prefix (p ∷ ps) [] = false
has_prefix (p ∷ ps) (c ∷ cs) = p == c && has_prefix ps cs

-- The text before the first `sep` and the text behind it, or none where `sep` does not occur:
-- `strings.Cut`, and the two slices at `strings.IndexByte`.
unfoldable pub cut : ℕ → Text → Option (Text × Text)
cut sep [] = none
cut sep (c ∷ cs) =
    if c == sep
    then some ([], cs)
    else elim (cut sep cs) [ none ↦ none | some (a, b) ↦ some (c ∷ a, b) ]

-- Puts a byte in front of the first piece.
abbrev pub cons_head : ℕ → List Text → List Text
cons_head c [] = (c ∷ []) ∷ []
cons_head c (p ∷ ps) = (c ∷ p) ∷ ps

-- `strings.Split(s, sep)` for a separator of one byte.
unfoldable pub split : ℕ → Text → List Text
split sep [] = [] ∷ []
split sep (c ∷ cs) = if c == sep then [] ∷ split sep cs else cons_head c (split sep cs)

-- Pieces joined by a byte, `strings.Join`.
unfoldable pub join : ℕ → List Text → Text
join sep [] = []
join sep (p ∷ []) = p
join sep (p ∷ q ∷ ps) = p ++ (sep ∷ join sep (q ∷ ps))

-- `strings.TrimLeft` and `strings.Trim`, for a set of bytes given by its test.
unfoldable pub trim_left : (ℕ → Bool) → Text → Text
trim_left drops [] = []
trim_left drops (c ∷ cs) = if drops c then trim_left drops cs else c ∷ cs

unfoldable pub trim : (ℕ → Bool) → Text → Text
unfolding trim_left
trim drops s = reverse (trim_left drops (reverse (trim_left drops s)))

-- `' '` and `'\t'`.
abbrev pub is_blank : ℕ → Bool
is_blank c = c == b' ' || c == 9
