-- ===== src/Library/Parts.antt =====
-- internal/library/movies.go: the marker of a part in the name of a file.
use atrium_go.Base.{
  ℕ, ◌+◌, ◌-◌, Bool, true, false, ◌&&◌, ◌||◌, Option, none, some, List, [], ◌∷◌, ◌==◌, ltb, between,
  if◌then◌else◌, length, take, drop,
}
use atrium_go.Base.Int.{ℤ, pos, ◌+ℤ◌, wrap_i64, times}
use atrium_go.Library.Bytes.{
  at, positions, first_of, one_of, test_at, is_ascii_digit, trim_right, run_length,
}
use atrium_go.Text.{Text, codes, has_prefix, fold_ascii, fold_byte, trim_left}

pub data PartKind : Type 0 where
  part_numeric part_alphabetic : PartKind

pub record PartMarker : Type 0 where
  pub part_type : Text
  pub kind : PartKind
  pub token : Text
  pub ordinal : ℤ

abbrev pub part_types : List Text
part_types = codes "cd" ∷ codes "dvd" ∷ codes "part" ∷ codes "pt" ∷ codes "disc" ∷ codes "disk" ∷ []

abbrev pub part_separators : Text
part_separators = codes " _.-"

-- `partTypeAt`, on what stands from the index on: the type, whose length leads behind it.
abbrev pub type_prefix : Text → Text → Option Text
type_prefix rest typ = if has_prefix typ rest then some typ else none

unfoldable pub part_type_at : Text → ℕ → Option Text
unfolding first_of
part_type_at stem i = first_of (type_prefix (fold_ascii (drop i stem))) part_types

-- The digits of a part, in a machine word.
unfoldable pub wrapping_value : ℤ → Text → ℤ
wrapping_value acc [] = acc
wrapping_value acc (c ∷ cs) = wrapping_value (wrap_i64 (times acc 10 +ℤ pos (c - b'0'))) cs

-- The end of a stem, behind one closing bracket at most.
abbrev pub ends_part : Text → Bool
ends_part [] = true
ends_part (c ∷ []) = c == b')' || c == b']'
ends_part (c ∷ d ∷ cs) = false

abbrev pub closed : Text → PartMarker → Option PartMarker
closed rest marker = if ends_part rest then some marker else none

abbrev pub number_marker : Text → Text → Option PartMarker
number_marker typ s =
    let n = run_length is_ascii_digit s in
    closed (drop n s) (record {
      part_type = typ;
      kind = part_numeric;
      token = take n s;
      ordinal = wrapping_value (pos 0) (take n s);
    })

abbrev pub letter_marker : Text → ℕ → Text → Option PartMarker
letter_marker typ c rest =
    if between b'a' b'd' (fold_byte c)
    then closed rest (record {
      part_type = typ;
      kind = part_alphabetic;
      token = fold_byte c ∷ [];
      ordinal = pos (fold_byte c - b'a' + 1);
    })
    else none

abbrev pub marker_of : Text → Text → Option PartMarker
marker_of typ [] = none
marker_of typ (c ∷ cs) =
    if is_ascii_digit c then number_marker typ (c ∷ cs) else letter_marker typ c cs

-- `partNumberAt`, with the type of the marker.
unfoldable pub part_number_at : Text → Text → ℕ → Option PartMarker
unfolding one_of run_length wrapping_value
part_number_at typ stem i = marker_of typ (trim_left (one_of part_separators) (drop i stem))

abbrev pub is_opening : ℕ → Bool
is_opening c = c == b'(' || c == b'['

abbrev pub is_closing : ℕ → Bool
is_closing c = c == b']' || c == b')' || c == b'}'

abbrev pub title_to : Text → ℕ → Option Text
title_to stem n =
    let head = take n stem in
    let title = trim_right (one_of part_separators) head in
    if n == 0
    then none
    else if test_at is_closing stem (n - 1)
    then some head
    else if length title == length head
    then none
    else some title

-- `titleBeforePart`.
unfoldable pub title_before_part : Text → ℕ → Option Text
unfolding at one_of
title_before_part stem token =
    title_to stem (if ltb 0 token && test_at is_opening stem (token - 1) then token - 1 else token)

abbrev pub marked : Option Text → Option PartMarker → Option (Text × PartMarker)
marked (some base) (some m) = some (base, m)
marked (some base) none = none
marked none m = none

abbrev pub part_with : Text → ℕ → Option Text → Option (Text × PartMarker)
part_with stem token none = none
part_with stem token (some typ) =
    marked (title_before_part stem token) (part_number_at typ stem (token + length typ))

abbrev pub part_at : Text → ℕ → Option (Text × PartMarker)
part_at stem token = part_with stem token (part_type_at stem token)

-- `splitPartMarker`.
unfoldable pub split_part_marker : Text → Option (Text × PartMarker)
unfolding part_type_at part_number_at title_before_part first_of positions
split_part_marker stem = first_of (part_at stem) (positions 1 (length stem - 1))
