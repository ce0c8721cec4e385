-- ===== src/Library/Tools.antt =====
-- What the resolver takes from outside, and the calls of it that its rules share. A name is bytes
-- here and code points in its sort key, so the coding of UTF-8 is a parameter beside Unicode's
-- tables; so is the calendar of the package time.
use atrium_go.Base.{ℕ, false, Option, none, some, List, [], ◌∷◌}
use atrium_go.Base.Int.{ℤ, pos}
use atrium_go.Library.Data.{Library, Entry}
use atrium_go.Library.Identity.{
  Folding, Digest, PathRefusal, Key, key, refused, normalise, derive_id,
}
use atrium_go.Library.SortKey.{Unicode, sort_key_for}
use atrium_go.Ports.Items.{ScannedItem, ScannedFile, Time}
use atrium_go.Text.{Text, trim}

pub record Tools : Type 0 where
  pub unicode : Unicode
  pub folding : Folding
  pub digest : Digest
  -- the code points of a text, where a byte that is no UTF-8 has a code of its own above theirs,
  -- and the text of such codes: a name keeps the bytes that Go's strings keep
  pub decode : Text → Text
  pub encode : Text → Text
  -- the midnight of a year, month and day, where there is such a day
  pub day_at : ℕ → ℕ → ℕ → Option Time

-- An answer, an error, or a slice out of range.
pub data Attempt (A : Type 0) : Type 0 where
  done : A → Attempt A
  failed : PathRefusal → Attempt A
  crashed : Attempt A

infixl 5 ◌>>=◌
abbrev pub ◌>>=◌ : {A B : Type 0} → Attempt A → (A → Attempt B) → Attempt B
done a >>= f = f a
failed e >>= f = failed e
crashed >>= f = crashed

-- `for … { b, err := f(a); … append(bs, b) }`.
unfoldable pub traverse : {A B : Type 0} → (A → Attempt B) → List A → Attempt (List B)
traverse f [] = done []
traverse f (a ∷ rest) = f a >>= λ b. traverse f rest >>= λ bs. done (b ∷ bs)

abbrev pub kept_key : Key → Attempt Text
kept_key (key k) = done k
kept_key (refused e) = failed e

abbrev pub year_number : Option ℕ → Option ℤ
year_number none = none
year_number (some n) = some (pos n)

-- An item with no field set.
abbrev pub blank : ScannedItem
blank = record {
  id = [];
  library_id = [];
  parent_id = [];
  kind = [];
  name = [];
  sort_key = [];
  sort_title = [];
  path = [];
  root_ordinal = pos 0;
  index_number = none;
  parent_index_number = none;
  index_number_end = none;
  production_year = none;
  premiere_date = none;
  unplaceable = false;
  files = [];
}

abbrev pub file_at : ℕ → Entry → ScannedFile
file_at ordinal e = record {
  ordinal = pos ordinal;
  path = e.path;
  size = e.size;
  modified_at = e.modified_at;
}

module _ (tools : Tools) where
  -- `strings.TrimSpace`.
  abbrev pub trim_space : Text → Text
  trim_space s = tools.encode (trim tools.unicode.is_space (tools.decode s))

  -- `item.SortKey = SortKeyFor(&item)`.
  abbrev pub keyed : ScannedItem → ScannedItem
  keyed x = record x {
    sort_key = tools.encode (
        sort_key_for tools.unicode
          (record x { name = tools.decode x.name; sort_title = tools.decode x.sort_title }));
  }

  abbrev pub normalised : Library → Text → Attempt Text
  normalised lib p = kept_key (normalise tools.folding p lib.case_sensitive)

  abbrev pub identified : Library → Text → Text → Text
  identified lib = derive_id tools.digest lib.id
