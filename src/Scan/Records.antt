-- ===== src/Scan/Records.antt =====
-- What the comparisons of `Reconcile` establish when they find nothing, and that they find nothing
-- between a row and itself.
use atrium_go.Base.{
  ◌≡◌, refl, sym, Bool, true, false, not, ◌||◌, Option, none, some, List, [], ◌∷◌, arith,
}
use atrium_go.Base.Int.{ℤ, eqb_ℤ, eq_of_parts}
use atrium_go.Ports.Items.{ScannedFile, ScannedItem}
use atrium_go.Scan.{same_number, same_date, record_moved, signal_moved, file_moved, differ}
use atrium_go.Text.Laws.{str_eq_iff, str_eq_refl}
use atrium_go.Text.{Text}

eqb_ℤ-eq : (a b : ℤ) → eqb_ℤ a b ≡ true → a ≡ b
eqb_ℤ-eq a b h = eq_of_parts a b (ground arith)

same_number-eq : (a b : Option ℤ) → same_number a b ≡ true → a ≡ b
unfolding same_number
same_number-eq none none h = refl
same_number-eq none (some b) h = ground arith
same_number-eq (some a) none h = ground arith
same_number-eq (some a) (some b) h = cc (eqb_ℤ-eq a b h)

same_date-eq : (a b : Option ℤ) → same_date a b ≡ true → a ≡ b
unfolding same_date
same_date-eq none none h = refl
same_date-eq none (some b) h = ground arith
same_date-eq (some a) none h = ground arith
same_date-eq (some a) (some b) h = cc (eqb_ℤ-eq a b h)

file_moved-eq : (p d : ScannedFile) → file_moved p d ≡ false → p ≡ d
unfolding file_moved
file_moved-eq p d h = ground (
  arith,
  eqb_ℤ-eq p.ordinal d.ordinal,
  str_eq_iff p.path d.path,
  eqb_ℤ-eq p.size d.size,
  eqb_ℤ-eq p.modified_at d.modified_at,
)

pub signal_moved-eq : (ps ds : List ScannedFile) → signal_moved ps ds ≡ false → ps ≡ ds
unfolding signal_moved
signal_moved-eq [] [] h = refl
signal_moved-eq [] (d ∷ ds) h = ground arith
signal_moved-eq (p ∷ ps) [] h = ground arith
signal_moved-eq (p ∷ ps) (d ∷ ds) h = ground (arith, file_moved-eq p d, signal_moved-eq ps ds)

record SameColumns (p d : ScannedItem) : Type 0 where
  library_id : p.library_id ≡ d.library_id
  parent_id : p.parent_id ≡ d.parent_id
  kind : p.kind ≡ d.kind
  name : p.name ≡ d.name
  sort_key : p.sort_key ≡ d.sort_key
  path : p.path ≡ d.path
  root_ordinal : p.root_ordinal ≡ d.root_ordinal
  index_number : p.index_number ≡ d.index_number
  parent_index_number : p.parent_index_number ≡ d.parent_index_number
  index_number_end : p.index_number_end ≡ d.index_number_end
  production_year : p.production_year ≡ d.production_year
  premiere_date : p.premiere_date ≡ d.premiere_date
  unplaceable : p.unplaceable ≡ d.unplaceable

||-false : (a b : Bool) → a || b ≡ false → (a ≡ false) × (b ≡ false)
||-false a b h = ground arith

or_not-false : (a b : Bool) → a || not b ≡ false → (a ≡ false) × (b ≡ true)
or_not-false a b h = ground arith

differ-eq : (a b : Bool) → differ a b ≡ false → a ≡ b
differ-eq a b h = ground arith

not-false : (b : Bool) → not b ≡ false → b ≡ true
not-false b h = ground arith

record_moved-SameColumns : (p d : ScannedItem) → record_moved p d ≡ false → SameColumns p d
unfolding record_moved
record_moved-SameColumns p d h0 =
    let (h1, premiere_date) = or_not-false _ _ h0 in
    let (h2, production_year) = or_not-false _ _ h1 in
    let (h3, index_number_end) = or_not-false _ _ h2 in
    let (h4, parent_index_number) = or_not-false _ _ h3 in
    let (h5, index_number) = or_not-false _ _ h4 in
    let (h6, unplaceable) = ||-false _ _ h5 in
    let (h7, root_ordinal) = or_not-false _ _ h6 in
    let (h8, path) = or_not-false _ _ h7 in
    let (h9, sort_key) = or_not-false _ _ h8 in
    let (h10, name) = or_not-false _ _ h9 in
    let (h11, kind) = or_not-false _ _ h10 in
    let (h12, parent_id) = or_not-false _ _ h11 in
    record {
      library_id = (str_eq_iff _ _).0 (not-false _ h12);
      parent_id = (str_eq_iff _ _).0 parent_id;
      kind = (str_eq_iff _ _).0 kind;
      name = (str_eq_iff _ _).0 name;
      sort_key = (str_eq_iff _ _).0 sort_key;
      path = (str_eq_iff _ _).0 path;
      root_ordinal = eqb_ℤ-eq _ _ root_ordinal;
      unplaceable = differ-eq _ _ unplaceable;
      index_number = same_number-eq _ _ index_number;
      parent_index_number = same_number-eq _ _ parent_index_number;
      index_number_end = same_number-eq _ _ index_number_end;
      production_year = same_number-eq _ _ production_year;
      premiere_date = same_date-eq _ _ premiere_date;
    }

-- A row that the comparisons find unmoved is the stored one but for the sort title.
pub unmoved-eq :
    (p d : ScannedItem)
    → p.id ≡ d.id
    → record_moved p d ≡ false
    → signal_moved p.files d.files ≡ false
    → d ≡ record p { sort_title = d.sort_title }
unmoved-eq p d e r f =
    let s = record_moved-SameColumns p d r in
    let g = signal_moved-eq p.files d.files f in
    λ i. record {
      id = sym e i;
      library_id = sym s.library_id i;
      parent_id = sym s.parent_id i;
      kind = sym s.kind i;
      name = sym s.name i;
      sort_key = sym s.sort_key i;
      sort_title = d.sort_title;
      path = sym s.path i;
      root_ordinal = sym s.root_ordinal i;
      index_number = sym s.index_number i;
      parent_index_number = sym s.parent_index_number i;
      index_number_end = sym s.index_number_end i;
      production_year = sym s.production_year i;
      premiere_date = sym s.premiere_date i;
      unplaceable = sym s.unplaceable i;
      files = sym g i;
    }

eqb_ℤ-refl : (a : ℤ) → eqb_ℤ a a ≡ true
eqb_ℤ-refl a = ground arith

same_number_refl : (a : Option ℤ) → same_number a a ≡ true
unfolding same_number
same_number_refl none = refl
same_number_refl (some a) = eqb_ℤ-refl a

same_date_refl : (a : Option ℤ) → same_date a a ≡ true
unfolding same_date
same_date_refl none = refl
same_date_refl (some a) = eqb_ℤ-refl a

differ_self : (b : Bool) → differ b b ≡ false
differ_self b = ground arith

-- Nothing has moved between a row and itself, whatever sort titles the two carry.
pub record_moved_refl :
    (p : ScannedItem) (t : Text) → record_moved p (record p { sort_title = t }) ≡ false
unfolding record_moved
record_moved_refl p t =
    simp (str_eq_refl, eqb_ℤ-refl, same_number_refl, same_date_refl, differ_self)

pub signal_moved_refl : (fs : List ScannedFile) → signal_moved fs fs ≡ false
unfolding signal_moved
signal_moved_refl [] = refl
signal_moved_refl (f ∷ fs) = simp (str_eq_refl, eqb_ℤ-refl, signal_moved_refl fs)
