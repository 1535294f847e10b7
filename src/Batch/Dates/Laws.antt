-- ===== src/Batch/Dates/Laws.antt =====
-- What the date parsers accept, and that a printed date is read back.
use gourl.Common.{
  ℕ, ◌+◌, ◌-◌, ◌*◌, ◌/◌, ◌%◌, ◌≤◌, ◌<◌, true, false, ◌≡◌, ◌↔◌, ◌⊎◌, refl, some, is_some, arith, [],
  ◌∷◌, ◌++◌, Text, is_space, trim, trim_start, trim_end,
}
use gourl.Platform.{ℤ, floor_thousandth}
use gourl.Platform.Calendar.{Date, new_date_keeps_iff, days_in_month}
use gourl.Platform.Decimal.{is_digit, number, decimal, pad2, pad2_two, decimal_four}
use gourl.Batch.Dates.{
  check_date, match_date, parse_date, parse_batch_date, take_digits, separator, digits_group,
}

-- A day of the calendar after the year 99.
pub record IsRealDay (y mo d : ℕ) : Type 0 where
  pub year_from : 100 ≤ y
  pub month_from : 1 ≤ mo
  pub month_to : mo ≤ 12
  pub day_from : 1 ≤ d
  pub day_to : d ≤ days_in_month y (mo - 1)

days_le : (y m : ℕ) → days_in_month y m ≤ 31
unfolding days_in_month
days_le y m = ground arith

-- The calendar test passes exactly for the days of the calendar after the year 99.
pub check_date_iff : (y mo d : ℕ) → (is_some (check_date y mo d) ≡ true) ↔ IsRealDay y mo d
unfolding check_date
check_date_iff y mo d = ground (arith, new_date_keeps_iff y (mo - 1) d, days_le y (mo - 1))

digit_is_digit : (n : ℕ) → n < 10 → is_digit (b'0' + n) ≡ true
unfolding is_digit
digit_is_digit n h = ground arith

digit_is_no_space : (n : ℕ) → n < 10 → is_space (b'0' + n) ≡ false
unfolding is_space
digit_is_no_space n h = ground arith

separator_at : (s : ℕ) (rest : Text) → (s ≡ b'/') ⊎ (s ≡ b'-') → separator (s ∷ rest) ≡ some rest
separator_at s rest h = ground arith

module _ (a b : ℕ) (fa : a < 10) (fb : b < 10) (rest : Text) where
  group_of_two :
      digits_group 1 2 ((b'0' + a) ∷ (b'0' + b) ∷ rest) ≡ some ((b'0' + a) ∷ (b'0' + b) ∷ [], rest)
  unfolding take_digits
  group_of_two = simp (digit_is_digit a fa, digit_is_digit b fb)

  group_of_four :
      (c e : ℕ)
      → c < 10
      → e < 10
      → digits_group 4 4 ((b'0' + a) ∷ (b'0' + b) ∷ (b'0' + c) ∷ (b'0' + e) ∷ rest)
        ≡ some ((b'0' + a) ∷ (b'0' + b) ∷ (b'0' + c) ∷ (b'0' + e) ∷ [], rest)
  unfolding take_digits
  group_of_four c e fc fe =
      simp (digit_is_digit a fa, digit_is_digit b fb, digit_is_digit c fc, digit_is_digit e fe)

number_of_two : (a b : ℕ) → number ((b'0' + a) ∷ (b'0' + b) ∷ []) ≡ a * 10 + b
unfolding number
number_of_two a b = omega arith

number_of_four :
    (a b c e : ℕ)
    → number ((b'0' + a) ∷ (b'0' + b) ∷ (b'0' + c) ∷ (b'0' + e) ∷ [])
      ≡ a * 1000 + b * 100 + c * 10 + e
unfolding number
number_of_four a b c e = omega arith

-- The ten units of a date in full.
abbrev ten : ℕ → ℕ → ℕ → ℕ → ℕ → ℕ → ℕ → ℕ → ℕ → Text
ten a b c e f g h i s =
    (b'0' + a)
    ∷ (b'0' + b)
    ∷ (b'0' + c)
    ∷ (b'0' + e)
    ∷ s
    ∷ (b'0' + f)
    ∷ (b'0' + g)
    ∷ s
    ∷ (b'0' + h)
    ∷ (b'0' + i)
    ∷ []

module _ (a b c e f g h i s : ℕ) (fa : a < 10) (fi : i < 10) where
  trim-ten : trim (ten a b c e f g h i s) ≡ ten a b c e f g h i s
  unfolding trim_start trim_end trim
  trim-ten = simp (digit_is_no_space a fa, digit_is_no_space i fi)

  match_ten :
      b < 10
      → c < 10
      → e < 10
      → f < 10
      → g < 10
      → h < 10
      → (s ≡ b'/') ⊎ (s ≡ b'-')
      → match_date (ten a b c e f g h i s)
        ≡ some (a * 1000 + b * 100 + c * 10 + e, f * 10 + g, h * 10 + i)
  unfolding match_date
  match_ten fb fc fe ff fg fh hs =
      rw
        (
          group_of_four a b fa fb _ c e fc fe,
          separator_at s _ hs,
          group_of_two f g ff fg _,
          separator_at s _ hs,
          group_of_two h i fh fi [],
          number_of_four a b c e,
          number_of_two f g,
          number_of_two h i,
        )
        refl

-- A date written with one separator, the month and the day in two digits.
abbrev pub print_date : ℕ → ℕ → ℕ → ℕ → Text
print_date s y mo d = decimal y ++ s ∷ (pad2 mo ++ s ∷ pad2 d)

module _ (s y mo d : ℕ) (lo : 1000 ≤ y) (hi : y < 10000) (hmo : mo < 100) (hd : d < 100) where
  abbrev printed_units : Text
  printed_units =
      ten (y / 1000) (y / 100 % 10) (y / 10 % 10) (y % 10) (mo / 10) (mo % 10) (d / 10) (d % 10) s

  printed_ten : print_date s y mo d ≡ printed_units
  printed_ten = rw (decimal_four y lo hi, pad2_two mo hmo, pad2_two d hd) refl

  trim_printed : trim (print_date s y mo d) ≡ print_date s y mo d
  trim_printed = rw printed_ten (trim-ten _ _ _ _ _ _ _ _ s (omega arith) (omega arith))

  match_printed : (s ≡ b'/') ⊎ (s ≡ b'-') → match_date (print_date s y mo d) ≡ some (y, mo, d)
  match_printed hs =
      let found =
        match_ten (y / 1000) (y / 100 % 10) (y / 10 % 10) (y % 10) (mo / 10) (mo % 10) (d / 10)
          (d % 10) s (omega arith) (omega arith) (omega arith) (omega arith) (omega arith)
          (omega arith) (omega arith) (omega arith) hs in
      rw (printed_ten, found) (ground arith)

check_date_real :
    (y mo d : ℕ)
    → IsRealDay y mo d
    → check_date y mo d ≡ some (record { year = y; month = mo - 1; day = d })
unfolding check_date
check_date_real y mo d real = ground (arith, new_date_keeps_iff y (mo - 1) d, days_le y (mo - 1))

-- A date of the years 1000 to 9999, written with slashes or with dashes, is read by the date field
-- as its ISO text.
pub parse_date-print :
    (s y mo d : ℕ)
    → IsRealDay y mo d
    → 1000 ≤ y
    → y < 10000
    → (s ≡ b'/') ⊎ (s ≡ b'-')
    → parse_date (print_date s y mo d) ≡ some (print_date b'-' y mo d)
unfolding parse_date
parse_date-print s y mo d real lo hi hs =
    let fits : d < 100 = omega (arith, days_le y (mo - 1)) in
    rw
      (
        trim_printed s y mo d lo hi (omega arith) fits,
        match_printed s y mo d lo hi (omega arith) fits hs,
        check_date_real y mo d real,
      )
      refl

-- A day of the years 1000 to 9999 resolves to its local midnight in whole seconds.
pub parse_batch_date-print :
    (get_time : Date → ℤ) (s y mo d : ℕ)
    → IsRealDay y mo d
    → 1000 ≤ y
    → y < 10000
    → (s ≡ b'/') ⊎ (s ≡ b'-')
    → parse_batch_date get_time (print_date s y mo d)
      ≡ some (floor_thousandth (get_time (record { year = y; month = mo - 1; day = d })))
unfolding parse_batch_date
parse_batch_date-print get_time s y mo d real lo hi hs =
    let fits : d < 100 = omega (arith, days_le y (mo - 1)) in
    rw
      (
        trim_printed s y mo d lo hi (omega arith) fits,
        match_printed s y mo d lo hi (omega arith) fits hs,
        check_date_real y mo d real,
      )
      refl
