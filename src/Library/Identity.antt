-- ===== src/Library/Identity.antt =====
-- internal/library/identity.go: the key of an item and the message that its identifier is the hash
-- of. Unicode's normal form and fold, SHA-256 and the hexadecimal coding are parameters.
pub mod Clean
mod Tests
use mathlib.Core.List.{reverse}
use atrium_go.Base.{
  ℕ, Bool, true, false, ◌&&◌, ◌||◌, Option, none, some, List, [], ◌∷◌, ◌++◌, ◌==◌, map, between,
  if◌then◌else◌, take,
}
use atrium_go.Text.{Text, codes, str_eq, split, join}

abbrev pub slash : ℕ
slash = b'/'

abbrev pub backslash : ℕ
backslash = b'\\'

abbrev pub identifier_bytes : ℕ
identifier_bytes = 16

abbrev pub separator : ℕ
separator = 0

pub data PathRefusal : Type 0 where
  path_absolute path_climbs_above_root : PathRefusal

pub data Key : Type 0 where
  key : Text → Key
  refused : PathRefusal → Key

pub record Folding : Type 0 where
  pub nfc : Text → Text
  pub to_lower : Text → Text

pub record Digest : Type 0 where
  pub sha256 : Text → Text
  pub hex : Text → Text

abbrev pub slashed_byte : ℕ → ℕ
slashed_byte c = if c == backslash then slash else c

-- `strings.ReplaceAll(p, "\\", "/")`.
abbrev pub slashed : Text → Text
slashed = map slashed_byte

abbrev pub is_letter : ℕ → Bool
is_letter c = between b'a' b'z' c || between b'A' b'Z' c

abbrev pub has_drive : Text → Bool
has_drive [] = false
has_drive (c ∷ []) = false
has_drive (c ∷ d ∷ rest) = d == b':' && is_letter c

abbrev pub starts_with_slash : Text → Bool
starts_with_slash [] = false
starts_with_slash (c ∷ cs) = c == slash

-- `isAbsoluteKey`.
unfoldable pub is_absolute_key : Text → Bool
is_absolute_key s = starts_with_slash s || has_drive s

-- `""` and `"."`.
abbrev pub is_dropped : Text → Bool
is_dropped e = str_eq e [] || str_eq e (codes ".")

abbrev pub is_parent : Text → Bool
is_parent e = str_eq e (codes "..")

abbrev pub behind : List Text → Option (List Text)
behind [] = none
behind (e ∷ out) = some out

-- The loop of `cleanElements`; `out` is held from its end.
unfoldable pub clean_from : List Text → List Text → Option (List Text)
clean_from out [] = some out
clean_from out (e ∷ es) =
    if is_dropped e
    then clean_from out es
    else if is_parent e
    then elim (behind out) [ none ↦ none | some rest ↦ clean_from rest es ]
    else clean_from (e ∷ out) es

-- `cleanElements`.
unfoldable pub clean_elements : Text → Option Text
unfolding clean_from
clean_elements s = elim (clean_from [] (split slash s)) [
  | none ↦ none
  | some out ↦ some (join slash (reverse out))
]

module _ (folding : Folding) where
  abbrev pub folded : Bool → Option Text → Key
  folded case_sensitive none = refused path_climbs_above_root
  folded case_sensitive (some cleaned) =
      let composed = folding.nfc cleaned in
      key (if case_sensitive then composed else folding.to_lower composed)

  -- `Normalise`.
  unfoldable pub normalise : Text → Bool → Key
  unfolding is_absolute_key clean_elements
  normalise p case_sensitive =
      if is_absolute_key (slashed p)
      then refused path_absolute
      else folded case_sensitive (clean_elements (slashed p))

-- What is hashed.
unfoldable pub identity_message : Text → Text → Text → Text
identity_message library kind k = library ++ (separator ∷ kind ++ (separator ∷ k))

-- `DeriveID`.
unfoldable pub derive_id : Digest → Text → Text → Text → Text
unfolding identity_message
derive_id digest library kind k =
    digest.hex (take identifier_bytes (digest.sha256 (identity_message library kind k)))
