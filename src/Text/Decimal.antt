-- ===== src/Text/Decimal.antt =====
-- Decimal numbers: `strconv.Itoa` and `%d` of a number, and `strconv.ParseInt(s, 10, 64)`.
use atrium_go.Base.{
  ℕ, zero, suc, ◌+◌, ◌-◌, ◌*◌, ◌/◌, ◌%◌, ◌^◌, ◌<◌, ◌≡◌, refl, ap, ◌∙◌, lt→ltb, inl, inr, Bool, true,
  false, Option, none, some, [], ◌∷◌, ◌++◌, arith, ltb, ◌==◌, between, if◌then◌else◌, Bool-cases,
  All, All-append,
}
use atrium_go.Base.Int.{ℤ, pos, negsuc}
use atrium_go.Text.Fold.{Text}

abbrev pub is_digit : ℕ → Bool
is_digit = between b'0' b'9'

-- The digits of `n`, with fuel: a call takes a factor of ten off.
unfoldable pub digits_fuel : ℕ → ℕ → Text
digits_fuel zero n = []
digits_fuel (suc f) n =
    let front = digits_fuel f (n / 10) in
    if ltb n 10 then (48 + n) ∷ [] else front ++ (48 + n % 10) ∷ []

-- The fuel is more than the number, so it is never used up.
unfoldable pub decimal : ℕ → Text
unfolding digits_fuel
decimal n = digits_fuel (suc n) n

-- The value of a text of digits behind the digits of `acc`.
unfoldable pub digits_value : ℕ → Text → Option ℕ
digits_value acc [] = some acc
digits_value acc (c ∷ cs) =
    let rest = digits_value (acc * 10 + (c - 48)) cs in if is_digit c then rest else none

-- At least one digit.
unfoldable pub parse_digits : Text → Option ℕ
unfolding digits_value
parse_digits [] = none
parse_digits (c ∷ cs) = digits_value 0 (c ∷ cs)

unfoldable pub in_range : Bool → Option ℕ → Option ℤ
in_range negative none = none
in_range false (some n) = if ltb n (2 ^ 63) then some (pos n) else none
in_range true (some zero) = some (pos 0)
in_range true (some (suc n)) = if ltb n (2 ^ 63) then some (negsuc n) else none

-- `strconv.ParseInt(s, 10, 64)`: an optional sign, at least one digit, and an int64.
unfoldable pub parse_int : Text → Option ℤ
unfolding parse_digits in_range
parse_int [] = none
parse_int (c ∷ cs) =
    if c == b'-'
    then in_range true (parse_digits cs)
    else if c == b'+'
    then in_range false (parse_digits cs)
    else in_range false (parse_digits (c ∷ cs))

abbrev pub IsDigit : ℕ → Type 0
IsDigit c = is_digit c ≡ true

digits_fuel-IsDigit : (f n : ℕ) → All IsDigit (digits_fuel f n)
unfolding digits_fuel
digits_fuel-IsDigit zero n = tt
digits_fuel-IsDigit (suc f) n = elim (Bool-cases (ltb n 10)) [
  | inl e ↦ rw e (ground arith, tt)
  | inr e ↦ rw e (
      All-append IsDigit (digits_fuel f (n / 10)) ((48 + n % 10) ∷ [])
        (digits_fuel-IsDigit f (n / 10)) (ground arith, tt))
]

pub decimal-IsDigit : (n : ℕ) → All IsDigit (decimal n)
unfolding decimal
decimal-IsDigit n = digits_fuel-IsDigit (suc n) n

digits_value-concat :
    (acc : ℕ) (s : Text) (c m : ℕ)
    → digits_value acc s ≡ some m
    → is_digit c ≡ true
    → digits_value acc (s ++ c ∷ []) ≡ some (m * 10 + (c - 48))
unfolding digits_value
digits_value-concat acc [] c m h d = ground arith
digits_value-concat acc (x ∷ s) c m h d =
    ground (arith, digits_value-concat (acc * 10 + (x - 48)) s c m)

digits_value-digits_fuel : (f n : ℕ) → n < f → digits_value 0 (digits_fuel f n) ≡ some n
unfolding digits_fuel
digits_value-digits_fuel zero n h = absurd (omega arith)
digits_value-digits_fuel (suc f) n h = elim (Bool-cases (ltb n 10)) [
  | inl e ↦ rw e (unfold digits_value in ground arith)
  | inr e ↦ rw e (
      digits_value-concat 0 (digits_fuel f (n / 10)) (48 + n % 10) (n / 10)
        (digits_value-digits_fuel f (n / 10) (ground arith)) (ground arith)
      ∙ ground arith)
]

digits_fuel-cons : (f n : ℕ) → n < f → (c : ℕ) × (s : Text) × (digits_fuel f n ≡ c ∷ s)
unfolding digits_fuel
digits_fuel-cons zero n h = absurd (omega arith)
digits_fuel-cons (suc f) n h = elim (Bool-cases (ltb n 10)) [
  | inl e ↦ (48 + n, [], rw e)
  | inr e ↦
      let (c, s, p) = digits_fuel-cons f (n / 10) (ground arith) in
      (c, s ++ (48 + n % 10) ∷ [], rw (e, p))
]

pub decimal-cons : (n : ℕ) → (c : ℕ) × (s : Text) × (decimal n ≡ c ∷ s)
unfolding decimal
decimal-cons n = digits_fuel-cons (suc n) n (omega arith)

pub parse_digits-decimal : (n : ℕ) → parse_digits (decimal n) ≡ some n
parse_digits-decimal n = let (c, s, p) = decimal-cons n in rw p (cons c s ∙ (rw p at value))
  where
    cons : (c : ℕ) (s : Text) → parse_digits (c ∷ s) ≡ digits_value 0 (c ∷ s)
    cons c s = unfold parse_digits in refl

    value : digits_value 0 (decimal n) ≡ some n
    value = unfold decimal in digits_value-digits_fuel (suc n) n (omega arith)

parse_int-unsigned :
    (c : ℕ) (s : Text)
    → is_digit c ≡ true
    → parse_int (c ∷ s) ≡ in_range false (parse_digits (c ∷ s))
unfolding parse_int
parse_int-unsigned c s d = ground arith

in_range-some : (n : ℕ) → n < 2 ^ 63 → in_range false (some n) ≡ some (pos n)
unfolding in_range
in_range-some n h = rw (lt→ltb n (2 ^ 63) h)

-- Printing a number of at most 63 bits and reading it again gives it back.
pub parse_int-decimal : (n : ℕ) → n < 2 ^ 63 → parse_int (decimal n) ≡ some (pos n)
parse_int-decimal n h =
    let (c, s, p) = decimal-cons n in
    let d : All IsDigit (c ∷ s) = rw p at (decimal-IsDigit n) in
    let v : parse_digits (c ∷ s) ≡ some n = rw p at (parse_digits-decimal n) in
    rw p (parse_int-unsigned c s d.0 ∙ ap (in_range false) v ∙ in_range-some n h)
