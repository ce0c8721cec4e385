-- ===== src/Library/Numbering/Numerals.antt =====
-- A decimal numeral in a text, and `readNumber` of internal/library/shows.go on it.
use atrium_go.Base.{
  ◌≡◌, refl, sym, ap, ◌∙◌, ℕ, zero, suc, ◌+◌, ◌-◌, ◌*◌, ◌^◌, ◌<◌, ◌≤◌, false, ◌||◌, some, [], ◌∷◌,
  ◌++◌, arith, inl, inr, Bool-cases, All, length, take, drop, ltb, ◌==◌,
}
use atrium_go.Library.Bytes.{read_number, run_length, value_of, is_ascii_digit}
use atrium_go.Library.SortKey.Padding.{digits_fuel-length}
use atrium_go.Text.Decimal.{
  decimal, digits_value, parse_digits, decimal-cons, parse_digits-decimal, decimal-IsDigit, IsDigit,
  is_digit,
}
use atrium_go.Text.{Text}

pub digits_value-value_of :
    (acc : ℕ) (ds : Text) {m : ℕ} → digits_value acc ds ≡ some m → value_of acc ds ≡ m
unfolding digits_value value_of
digits_value-value_of acc [] h = cc
digits_value-value_of acc (c ∷ cs) {m} h = elim (Bool-cases (is_digit c)) [
  | inl e ↦ digits_value-value_of (acc * 10 + (c - 48)) cs {m = m} (rw e at h)
  | inr e ↦ absurd (cc (rw e at h))
]

pub run_length-digits :
    (ds rest : Text)
    → All IsDigit ds
    → run_length is_ascii_digit rest ≡ 0
    → run_length is_ascii_digit (ds ++ rest) ≡ length ds
unfolding run_length
run_length-digits [] rest h k = k
run_length-digits (c ∷ cs) rest h k = rw (h.0) (ap suc (run_length-digits cs rest h.1 k))

pub take-length : (ds rest : Text) → take (length ds) (ds ++ rest) ≡ ds
take-length [] rest = refl
take-length (c ∷ cs) rest = ap (◌∷◌ c) (take-length cs rest)

pub drop-length : (ds rest : Text) → drop (length ds) (ds ++ rest) ≡ rest
drop-length [] rest = refl
drop-length (c ∷ cs) rest = drop-length cs rest

pub drop_nil : (n : ℕ) → drop {A = ℕ} n [] ≡ []
drop_nil zero = refl
drop_nil (suc n) = refl

pub zero_of : (n : ℕ) → 0 + n ≡ n
zero_of n = omega arith

pub sum_of : (m n : ℕ) → suc m + n ≡ suc (m + n)
sum_of m n = omega arith

pub drop-drop : (m n : ℕ) (s : Text) → drop (m + n) s ≡ drop n (drop m s)
drop-drop zero n s = ap (λ k. drop k s) (zero_of n)
drop-drop (suc m) n [] = drop_nil (suc m + n) ∙ sym (drop_nil n)
drop-drop (suc m) n (c ∷ cs) = ap (λ k. drop k (c ∷ cs)) (sum_of m n) ∙ drop-drop m n cs

pub value_of-decimal : (n : ℕ) → value_of 0 (decimal n) ≡ n
value_of-decimal n =
    let (c, s, p) = decimal-cons n in
    rw p (digits_value-value_of 0 (c ∷ s) (digits c s ∙ (rw p at (parse_digits-decimal n))))
  where
    digits : (c : ℕ) (s : Text) → digits_value 0 (c ∷ s) ≡ parse_digits (c ∷ s)
    digits c s = unfold parse_digits in refl

pub length-decimal : (n : ℕ) → n < 10 ^ 9 → (0 < length (decimal n)) × (length (decimal n) ≤ 9)
length-decimal n h = let (c, s, p) = decimal-cons n in (rw p (omega arith), at_most)
  where
    at_most : length (decimal n) ≤ 9
    at_most = unfold decimal in digits_fuel-length (suc n) n 8 h

pub in_bounds : (k : ℕ) → 0 < k → k ≤ 9 → k == 0 || ltb 9 k ≡ false
in_bounds k h l = ground arith

-- The number of a decimal numeral of nine digits at most, wherever it stands.
pub read_number-decimal :
    (s : Text) (i n : ℕ) (rest : Text)
    → n < 10 ^ 9
    → drop i s ≡ decimal n ++ rest
    → run_length is_ascii_digit rest ≡ 0
    → read_number s i ≡ some (n, i + length (decimal n))
unfolding read_number
read_number-decimal s i n rest small here ends =
    let (some_digits, few) = length-decimal n small in
    rw here (
      rw (run_length-digits (decimal n) rest (decimal-IsDigit n) ends) (
        rw (
          in_bounds (length (decimal n)) some_digits few,
          take-length (decimal n) rest,
          value_of-decimal n,
        )))
