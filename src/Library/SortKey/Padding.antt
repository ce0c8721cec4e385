-- ===== src/Library/SortKey/Padding.antt =====
-- Numbers that are padded to one width are ordered as numbers.
use atrium_go.Base.{
  ==_iff, ◌≡◌, refl, ap, sym, ◌∙◌, inl, inr, ℕ, zero, suc, ◌+◌, ◌-◌, ◌*◌, ◌/◌, ◌%◌, ◌^◌, ◌<◌, ◌≤◌,
  true, false, Option, some, [], ◌∷◌, ◌++◌, ◌==◌, ltb, arith, Bool-cases, length, replicate,
  length-append, length-replicate, lt→ltb,
}
use atrium_go.Base.Int.{pos}
use atrium_go.Library.SortKey.{pad_number, itoa}
use atrium_go.Text.Decimal.{
  decimal, digits_fuel, digits_value, parse_digits, decimal-cons, parse_digits-decimal, is_digit,
}
use atrium_go.Text.{Text, str_lt}

tenth_bound : (n p : ℕ) → n < p * 10 → n / 10 < p
tenth_bound n p h = omega arith

power_bound : (n w : ℕ) → n < 10 ^ suc w → n < 10 ^ w * 10
power_bound n w h = ground arith

pub digits_fuel-length : (f n w : ℕ) → n < 10 ^ suc w → length (digits_fuel f n) ≤ suc w
unfolding digits_fuel
digits_fuel-length zero n w h = omega arith
digits_fuel-length (suc f) n zero h = elim (Bool-cases (ltb n 10)) [
  | inl e ↦ rw e (omega arith)
  | inr e ↦ ground arith
]
digits_fuel-length (suc f) n (suc w) h = elim (Bool-cases (ltb n 10)) [
  | inl e ↦ rw e (omega arith)
  | inr e ↦ rw e (
      omega (
        arith,
        length-append (digits_fuel f (n / 10)) ((48 + n % 10) ∷ []),
        digits_fuel-length f (n / 10) w (tenth_bound n (10 ^ suc w) (power_bound n (suc w) h)),
      ))
]

-- Texts of digits of one length are ordered as the numbers that they write.
digits_value-grows :
    (a b : ℕ) (s t : Text) {m n : ℕ}
    → length s ≡ length t
    → digits_value a s ≡ some m
    → digits_value b t ≡ some n
    → a < b
    → m < n
unfolding digits_value
digits_value-grows a b [] [] e h k l = ground arith
digits_value-grows a b (c ∷ s) (d ∷ t) {m} {n} e h k l = elim (Bool-cases (is_digit c)) [
  | inl x ↦ elim (Bool-cases (is_digit d)) [
    | inl y ↦
        digits_value-grows (a * 10 + (c - 48)) (b * 10 + (d - 48)) s t {m = m} {n = n}
          (omega (arith, e)) (rw x at h) (rw y at k) (ground arith)
    | inr y ↦ absurd (cc (rw y at k))
  ]
  | inr x ↦ absurd (cc (rw x at h))
]
digits_value-grows a b [] (d ∷ t) e h k l = absurd (omega (arith, e))
digits_value-grows a b (c ∷ s) [] e h k l = absurd (omega (arith, e))

same_head :
    (a c d : ℕ) (t : Text) {o : Option ℕ}
    → digits_value (a * 10 + (d - 48)) t ≡ o
    → (c == d) ≡ true
    → digits_value (a * 10 + (c - 48)) t ≡ o
same_head a c d t h e = ap (λ x. digits_value (a * 10 + (x - 48)) t) ((==_iff c d).0 e) ∙ h

heads :
    (a c d m n : ℕ)
    → is_digit c ≡ true
    → is_digit d ≡ true
    → (c == d) ≡ false
    → (a * 10 + (c - 48) < a * 10 + (d - 48) → m < n)
    → (a * 10 + (d - 48) < a * 10 + (c - 48) → n < m)
    → ltb c d ≡ ltb m n
heads a c d m n x y z f g = elim (Bool-cases (ltb c d)) [
  | inl l ↦ rw l (sym (lt→ltb m n (f (ground arith))))
  | inr l ↦ below (g (ground arith))
]
  where
    below : n < m → ltb c d ≡ ltb m n
    below k = ground arith

str_lt-digits_value :
    (a : ℕ) (s t : Text) {m n : ℕ}
    → length s ≡ length t
    → digits_value a s ≡ some m
    → digits_value a t ≡ some n
    → str_lt s t ≡ ltb m n
unfolding digits_value str_lt
str_lt-digits_value a [] [] e h k = ground arith
str_lt-digits_value a (c ∷ s) (d ∷ t) {m} {n} e h k = elim (Bool-cases (is_digit c)) [
  | inr x ↦ absurd (cc (rw x at h))
  | inl x ↦ elim (Bool-cases (is_digit d)) [
    | inr y ↦ absurd (cc (rw y at k))
    | inl y ↦ elim (Bool-cases (c == d)) [
      | inl z ↦ rw z (
          str_lt-digits_value (a * 10 + (c - 48)) s t (omega (arith, e)) (rw x at h)
            (same_head a c d t (rw y at k) z))
      | inr z ↦ rw z (
          heads a c d m n x y z
            (λ l.
              digits_value-grows (a * 10 + (c - 48)) (a * 10 + (d - 48)) s t {m = m} {n = n}
                (omega (arith, e)) (rw x at h) (rw y at k) l)
            (λ l.
              digits_value-grows (a * 10 + (d - 48)) (a * 10 + (c - 48)) t s {m = n} {n = m}
                (omega (arith, e)) (rw y at k) (rw x at h) l))
    ]
  ]
]
str_lt-digits_value a [] (d ∷ t) e h k = absurd (omega (arith, e))
str_lt-digits_value a (c ∷ s) [] e h k = absurd (omega (arith, e))

-- `n` digits of zero in front change no value.
digits_value-zeros : (k : ℕ) (s : Text) → digits_value 0 (replicate k 48 ++ s) ≡ digits_value 0 s
unfolding digits_value
digits_value-zeros zero s = refl
digits_value-zeros (suc k) s = digits_value-zeros k s

-- The digits of a number below a power of ten, behind zeros.
record PaddedTo (n w : ℕ) (s : Text) : Type 0 where
  measured : length s ≡ w
  written : digits_value 0 s ≡ some n

pad_number-PaddedTo : (n w : ℕ) → n < 10 ^ suc w → PaddedTo n (suc w) (pad_number (pos n) (suc w))
unfolding pad_number itoa
pad_number-PaddedTo n w h = elim (Bool-cases (ltb (length (decimal n)) (suc w))) [
  | inl e ↦ rw e (record {
    measured =
        length-append (replicate (suc w - length (decimal n)) 48) (decimal n)
        ∙ (omega (arith, length-replicate {A = ℕ} (suc w - length (decimal n)) 48, short));
    written = digits_value-zeros (suc w - length (decimal n)) (decimal n) ∙ value;
  })
  | inr e ↦ rw e (record { measured = ground (arith, short); written = value })
]
  where
    short : length (decimal n) ≤ suc w
    short = unfold decimal in digits_fuel-length (suc n) n w h

    value : digits_value 0 (decimal n) ≡ some n
    value =
        let (c, s, p) = decimal-cons n in
        rw p (unfold parse_digits in (rw p at (parse_digits-decimal n)))

-- Numbers below a power of ten are padded to texts of one length.
pub length-pad_number : (n w : ℕ) → n < 10 ^ suc w → length (pad_number (pos n) (suc w)) ≡ suc w
length-pad_number n w h = (pad_number-PaddedTo n w h).measured

-- Two numbers of at most as many digits as the width are ordered, once padded, as numbers are.
pub str_lt-pad_number :
    (m n w : ℕ)
    → m < 10 ^ suc w
    → n < 10 ^ suc w
    → str_lt (pad_number (pos m) (suc w)) (pad_number (pos n) (suc w)) ≡ ltb m n
str_lt-pad_number m n w h k =
    let p = pad_number-PaddedTo m w h in
    let q = pad_number-PaddedTo n w k in
    str_lt-digits_value 0 (pad_number (pos m) (suc w)) (pad_number (pos n) (suc w))
      (p.measured ∙ sym q.measured) p.written q.written
