-- ===== src/Text/Laws.antt =====
-- The comparisons decide equality and a strict order; a fold is idempotent.
use atrium_go.Base.{
  ℕ, ◌≡◌, refl, ap, ◌∙◌, inl, inr, ◌↔◌, true, false, List, [], ◌∷◌, ◌++◌, arith, ◌==◌, ==_iff,
  Bool-cases, All,
}
use atrium_go.Text.Fold.{Text, str_eq, str_lt, fold_byte, fold_ascii, equal_fold_ascii}
use atrium_go.Text.Split.{split, join, cons_head}

pub str_eq_iff : (a b : Text) → (str_eq a b ≡ true) ↔ (a ≡ b)
unfolding str_eq
str_eq_iff (x ∷ a) (y ∷ b) = ground (arith, str_eq_iff a b)
str_eq_iff [] [] = ground arith
str_eq_iff [] (y ∷ b) = ground arith
str_eq_iff (x ∷ a) [] = ground arith

pub str_eq_refl : (a : Text) → str_eq a a ≡ true
str_eq_refl a = (str_eq_iff a a).1 refl

pub str_lt_irrefl : (a : Text) → str_lt a a ≡ false
unfolding str_lt
str_lt_irrefl [] = refl
str_lt_irrefl (x ∷ a) = ground (arith, str_lt_irrefl a)

pub str_lt_trans : (a b c : Text) → str_lt a b ≡ true → str_lt b c ≡ true → str_lt a c ≡ true
unfolding str_lt
str_lt_trans [] [] c h k = ground arith
str_lt_trans [] (y ∷ b) [] h k = ground arith
str_lt_trans [] (y ∷ b) (z ∷ c) h k = refl
str_lt_trans (x ∷ a) [] c h k = ground arith
str_lt_trans (x ∷ a) (y ∷ b) [] h k = ground arith
str_lt_trans (x ∷ a) (y ∷ b) (z ∷ c) h k = ground (arith, str_lt_trans a b c)

-- Of two texts that neither precede the other, each is the other.
pub str_lt_connected : (a b : Text) → str_lt a b ≡ false → str_lt b a ≡ false → a ≡ b
unfolding str_lt
str_lt_connected [] [] h k = refl
str_lt_connected [] (y ∷ b) h k = ground arith
str_lt_connected (x ∷ a) [] h k = ground arith
str_lt_connected (x ∷ a) (y ∷ b) h k = ground (arith, str_lt_connected a b)

pub str_lt_asym : (a b : Text) → str_lt a b ≡ true → str_lt b a ≡ false
unfolding str_lt
str_lt_asym [] [] h = ground arith
str_lt_asym [] (y ∷ b) h = refl
str_lt_asym (x ∷ a) [] h = ground arith
str_lt_asym (x ∷ a) (y ∷ b) h = ground (arith, str_lt_asym a b)

pub str_lt_weak : (a b c : Text) → str_lt b a ≡ false → str_lt c b ≡ false → str_lt c a ≡ false
unfolding str_lt
str_lt_weak a b [] h k = ground (arith, str_lt_weak_nil a b)
  where
    str_lt_weak_nil : (a b : Text) → str_lt b a ≡ false → str_lt [] b ≡ false → str_lt [] a ≡ false
    str_lt_weak_nil [] b h k = refl
    str_lt_weak_nil (x ∷ a) [] h k = h
    str_lt_weak_nil (x ∷ a) (y ∷ b) h k = ground arith
str_lt_weak [] b (z ∷ c) h k = refl
str_lt_weak (x ∷ a) [] (z ∷ c) h k = ground arith
str_lt_weak (x ∷ a) (y ∷ b) (z ∷ c) h k = ground (arith, str_lt_weak a b c)

pub fold_byte_idem : (b : ℕ) → fold_byte (fold_byte b) ≡ fold_byte b
unfolding fold_byte
fold_byte_idem b = ground arith

pub fold_ascii_idem : (s : Text) → fold_ascii (fold_ascii s) ≡ fold_ascii s
unfolding fold_ascii
fold_ascii_idem [] = refl
fold_ascii_idem (c ∷ s) = cc (fold_byte_idem c, fold_ascii_idem s)

pub fold_ascii-append : (s t : Text) → fold_ascii (s ++ t) ≡ fold_ascii s ++ fold_ascii t
unfolding fold_ascii
fold_ascii-append [] t = refl
fold_ascii-append (c ∷ s) t = ap (◌∷◌ (fold_byte c)) (fold_ascii-append s t)

pub equal_fold_ascii_iff :
    (a b : Text) → (equal_fold_ascii a b ≡ true) ↔ (fold_ascii a ≡ fold_ascii b)
unfolding equal_fold_ascii fold_ascii
equal_fold_ascii_iff (x ∷ a) (y ∷ b) = ground (arith, equal_fold_ascii_iff a b)
equal_fold_ascii_iff [] [] = ground arith
equal_fold_ascii_iff [] (y ∷ b) = ground arith
equal_fold_ascii_iff (x ∷ a) [] = ground arith

join-cons_head : (sep c : ℕ) (ps : List Text) → join sep (cons_head c ps) ≡ c ∷ join sep ps
unfolding join
join-cons_head sep c [] = refl
join-cons_head sep c (p ∷ []) = refl
join-cons_head sep c (p ∷ q ∷ ps) = refl

join-nil_head :
    (sep : ℕ) (p : Text) (qs : List Text) → join sep ([] ∷ p ∷ qs) ≡ sep ∷ join sep (p ∷ qs)
unfolding join
join-nil_head sep p qs = refl

abbrev pub IsCons : List Text → Type 0
IsCons ps = (p : Text) × (qs : List Text) × (ps ≡ p ∷ qs)

pub split-ne-nil : (sep : ℕ) (s : Text) → IsCons (split sep s)
unfolding split
split-ne-nil sep [] = ([], [], refl)
split-ne-nil sep (c ∷ cs) = elim (Bool-cases (c == sep)) [
  | inl e ↦ ([], split sep cs, ground arith)
  | inr e ↦ let (p, qs, h) = split-ne-nil sep cs in (c ∷ p, qs, ground arith)
]

-- Splitting and joining again gives the text back.
pub join-split : (sep : ℕ) (s : Text) → join sep (split sep s) ≡ s
unfolding split
join-split sep [] = unfold join in refl
join-split sep (c ∷ cs) = elim (Bool-cases (c == sep)) [
  | inl e ↦
      let (p, qs, h) = split-ne-nil sep cs in
      rw (e, h) (join-nil_head sep p qs ∙ ground (arith, rw h at (join-split sep cs), ==_iff c sep))
  | inr e ↦ rw (e, join-cons_head, join-split sep cs)
]

-- A piece that does not hold the separator is split off whole.
pub split_prefix :
    (sep : ℕ) (p rest : Text)
    → All (λ x. (x == sep) ≡ false) p
    → split sep (p ++ sep ∷ rest) ≡ p ∷ split sep rest
unfolding split
split_prefix sep [] rest h = ground arith
split_prefix sep (c ∷ p) rest h = rw (h.0, split_prefix sep p rest h.1)

pub split_single : (sep : ℕ) (p : Text) → All (λ x. (x == sep) ≡ false) p → split sep p ≡ p ∷ []
unfolding split
split_single sep [] h = refl
split_single sep (c ∷ p) h = rw (h.0, split_single sep p h.1)

-- A text that does not hold a byte.
abbrev pub Without : ℕ → Text → Type 0
Without sep = All (λ c. (c == sep) ≡ false)

pub split-Without : (sep : ℕ) (s : Text) → All (Without sep) (split sep s)
unfolding split
split-Without sep [] = (tt, tt)
split-Without sep (c ∷ cs) = elim (Bool-cases (c == sep)) [
  | inl e ↦ rw e (tt, split-Without sep cs)
  | inr e ↦ rw e (grown e (split sep cs) (split-Without sep cs))
]
  where
    grown :
        (c == sep) ≡ false
        → (ps : List Text) → All (Without sep) ps
        → All (Without sep) (cons_head c ps)
    grown e [] h = ((e, tt), tt)
    grown e (p ∷ ps) h = ((e, h.0), h.1)

-- Pieces without the separator are what their joining splits into.
pub split-join :
    (sep : ℕ) (p : Text) (ps : List Text)
    → All (Without sep) (p ∷ ps)
    → split sep (join sep (p ∷ ps)) ≡ p ∷ ps
unfolding join
split-join sep p [] h = split_single sep p h.0
split-join sep p (q ∷ ps) h =
    split_prefix sep p (join sep (q ∷ ps)) h.0 ∙ ap (◌∷◌ p) (split-join sep q ps h.1)
