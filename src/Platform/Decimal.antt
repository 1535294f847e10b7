-- ===== src/Platform/Decimal.antt =====
-- `String(n)`, `String(n).padStart(2, '0')`, `Number(digits)`, and the facts on few digits.
use gourl.Common.{
  ℕ, zero, suc, ◌+◌, ◌-◌, ◌*◌, ◌/◌, ◌%◌, ◌≤◌, ◌<◌, Bool, ◌&&◌, ltb, leb, if◌then◌else◌, ◌≡◌, refl,
  ◌∙◌, ap, inl, inr, Bool-cases, arith, [], ◌∷◌, Text, length,
}

unfoldable pub digits : ℕ → ℕ → Text → Text
digits zero n out = out
digits (suc f) n out =
    let rest = digits f (n / 10) ((b'0' + n % 10) ∷ out) in
    if ltb n 10 then (b'0' + n % 10) ∷ out else rest

-- `String(n)`: n + 1 rounds are enough, since each divides by ten.
unfoldable pub decimal : ℕ → Text
unfolding digits
decimal n = digits (suc n) n []

unfoldable pub pad2 : ℕ → Text
unfolding decimal
pad2 n = if ltb (length (decimal n)) 2 then b'0' ∷ decimal n else decimal n

unfoldable pub is_digit : ℕ → Bool
is_digit c = leb b'0' c && leb c b'9'

unfoldable pub number_from : ℕ → Text → ℕ
number_from n [] = n
number_from n (c ∷ s) = number_from (n * 10 + (c - b'0')) s

-- `Number(s)` of a run of digits
unfoldable pub number : Text → ℕ
unfolding number_from
number s = number_from 0 s

digits_stop : (f n : ℕ) (out : Text) → n < 10 → digits (suc f) n out ≡ (b'0' + n) ∷ out
unfolding digits
digits_stop f n out h = ground arith

digits_go :
    (f n : ℕ) (out : Text)
    → 10 ≤ n
    → digits (suc f) n out ≡ digits f (n / 10) ((b'0' + n % 10) ∷ out)
unfolding digits
digits_go f n out h = ground arith

two_digits :
    (f n : ℕ)
    → 10 ≤ n
    → n < 100
    → digits (suc (suc f)) n [] ≡ (b'0' + n / 10) ∷ (b'0' + n % 10) ∷ []
two_digits f n h k = digits_go (suc f) n [] h ∙ digits_stop f (n / 10) _ (omega arith)

four_digits :
    (f n : ℕ)
    → 1000 ≤ n
    → n < 10000
    → digits (suc (suc (suc (suc f)))) n []
      ≡ (b'0' + n / 1000) ∷ (b'0' + n / 100 % 10) ∷ (b'0' + n / 10 % 10) ∷ (b'0' + n % 10) ∷ []
four_digits f n h k =
    digits_go (suc (suc (suc f))) n [] (omega arith)
    ∙ digits_go (suc (suc f)) (n / 10) _ (omega arith)
    ∙ digits_go (suc f) (n / 10 / 10) _ (omega arith)
    ∙ digits_stop f (n / 10 / 10 / 10) _ (omega arith)
    ∙ same_digits
  where
    same_digits :
        (b'0' + n / 10 / 10 / 10)
          ∷ (b'0' + n / 10 / 10 % 10)
          ∷ (b'0' + n / 10 % 10)
          ∷ (b'0' + n % 10)
          ∷ []
        ≡ (b'0' + n / 1000) ∷ (b'0' + n / 100 % 10) ∷ (b'0' + n / 10 % 10) ∷ (b'0' + n % 10) ∷ []
    same_digits = ground arith

pub decimal_four :
    (n : ℕ)
    → 1000 ≤ n
    → n < 10000
    → decimal n
      ≡ (b'0' + n / 1000) ∷ (b'0' + n / 100 % 10) ∷ (b'0' + n / 10 % 10) ∷ (b'0' + n % 10) ∷ []
unfolding decimal
decimal_four n h k =
    let enough : suc n ≡ suc (suc (suc (suc (n - 3)))) = omega arith in
    ap (λ f. digits f n []) enough ∙ four_digits (n - 3) n h k

decimal_one : (n : ℕ) → n < 10 → decimal n ≡ (b'0' + n) ∷ []
unfolding decimal
decimal_one n h = digits_stop n n [] h

decimal_two : (n : ℕ) → 10 ≤ n → n < 100 → decimal n ≡ (b'0' + n / 10) ∷ (b'0' + n % 10) ∷ []
unfolding decimal
decimal_two n h k =
    let enough : suc n ≡ suc (suc (n - 1)) = omega arith in
    ap (λ f. digits f n []) enough ∙ two_digits (n - 1) n h k

pub pad2_two : (n : ℕ) → n < 100 → pad2 n ≡ (b'0' + n / 10) ∷ (b'0' + n % 10) ∷ []
unfolding pad2
pad2_two n h = elim (Bool-cases (ltb n 10)) [
  | inl small ↦ ground (arith, decimal_one n (ground arith))
  | inr large ↦ rw (decimal_two n (ground arith) h) refl
]
