-- ===== src/Text/Fold.antt =====
-- Equality and order of texts, and the ASCII case folds of internal/httpapi/path.go.
use Prim.Native.Char.{code}
use Prim.Native.String.{String}
use atrium_go.Base.{
  ℕ, ◌+◌, Bool, true, false, ◌&&◌, List, [], ◌∷◌, map, ltb, ◌==◌, between, if◌then◌else◌,
}

abbrev pub Text : Type 0
Text = List ℕ

-- A literal of the source, whose characters are all ASCII.
abbrev pub codes : String → Text
codes String.[] = []
codes (String.◌∷◌ c s) = code c ∷ codes s

-- `a == b`.
unfoldable pub str_eq : Text → Text → Bool
str_eq [] [] = true
str_eq [] (y ∷ ys) = false
str_eq (x ∷ xs) [] = false
str_eq (x ∷ xs) (y ∷ ys) = x == y && str_eq xs ys

-- `a < b`.
unfoldable pub str_lt : Text → Text → Bool
str_lt xs [] = false
str_lt [] (y ∷ ys) = true
str_lt (x ∷ xs) (y ∷ ys) = if x == y then str_lt xs ys else ltb x y

-- `len(s) > 0`.
abbrev pub nonempty {ℓ} : {A : Type ℓ} → List A → Bool
nonempty [] = false
nonempty (x ∷ xs) = true

-- One byte of `foldASCII`.
unfoldable pub fold_byte : ℕ → ℕ
fold_byte b = if between b'A' b'Z' b then b + 32 else b

-- `foldASCII`. The source returns a text with no upper-case letter as it is, which is the same.
unfoldable pub fold_ascii : Text → Text
unfolding fold_byte
fold_ascii = map fold_byte

-- `equalFoldASCII`: equal lengths, and each pair of bytes equal once folded.
unfoldable pub equal_fold_ascii : Text → Text → Bool
unfolding fold_byte
equal_fold_ascii [] [] = true
equal_fold_ascii [] (y ∷ ys) = false
equal_fold_ascii (x ∷ xs) [] = false
equal_fold_ascii (x ∷ xs) (y ∷ ys) = fold_byte x == fold_byte y && equal_fold_ascii xs ys
