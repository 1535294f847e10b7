-- ===== src/Batch/Dates.antt =====
-- The date syntax that batch.ts and DateInput.tsx share: `^(\d{4})[/-](\d{1,2})[/-](\d{1,2})$`,
-- and the calendar test behind it. `none` is `null`.
pub mod Laws
use gourl.Common.{
  ℕ, zero, suc, ◌-◌, ◌||◌, not, ltb, ◌==◌, if◌then◌else◌, Option, none, some, [], ◌∷◌, ◌++◌, Text,
  length, trim,
}
use gourl.Platform.{ℤ, floor_thousandth}
use gourl.Platform.Calendar.{Date, new_date}
use gourl.Platform.Decimal.{is_digit, number, decimal, pad2}

infixl 5 ◌>>=◌
abbrev pub ◌>>=◌ {ℓ κ} : {A : Type ℓ} {B : Type κ} → Option A → (A → Option B) → Option B
none >>= f = none
some a >>= f = f a

-- The digits at the front, `most` at most, and what follows them.
unfoldable pub take_digits : ℕ → Text → Text × Text
take_digits zero s = ([], s)
take_digits (suc most) [] = ([], [])
take_digits (suc most) (c ∷ s) =
    let rest = take_digits most s in if is_digit c then (c ∷ rest.0, rest.1) else ([], c ∷ s)

-- `\d{least,most}`
abbrev pub digits_group : ℕ → ℕ → Text → Option (Text × Text)
digits_group least most s =
    let (group, rest) = take_digits most s in
    if ltb (length group) least then none else some (group, rest)

-- `[/-]`
abbrev pub separator : Text → Option Text
separator [] = none
separator (c ∷ s) = if c == b'/' || c == b'-' then some s else none

-- `$`
abbrev pub end_of_text : {A : Type 0} → A → Text → Option A
end_of_text a [] = some a
end_of_text a (c ∷ s) = none

unfoldable pub match_date : Text → Option (ℕ × ℕ × ℕ)
match_date s = do
  (y, after_y) ← digits_group 4 4 s
  at_month ← separator after_y
  (mo, after_mo) ← digits_group 1 2 at_month
  at_day ← separator after_mo
  (d, after_d) ← digits_group 1 2 at_day
  end_of_text (number y, number mo, number d) after_d

-- The guards of both parsers on the matched numbers; `mo - 1` is taken only from 1 on.
unfoldable pub check_date : ℕ → ℕ → ℕ → Option Date
check_date y mo d =
    if ltb mo 1 || ltb 12 mo || ltb d 1 || ltb 31 d
    then none
    else let dt = new_date y (mo - 1) d in
      if not (dt.year == y) || not (dt.month == mo - 1) || not (dt.day == d) then none else some dt

-- `getTime()` of a local midnight depends on the browser's time zone.
module _ (get_time : Date → ℤ) where
  unfoldable pub parse_batch_date : Text → Option ℤ
  parse_batch_date raw = do
    (y, mo, d) ← match_date (trim raw)
    dt ← check_date y mo d
    some (floor_thousandth (get_time dt))

-- DateInput.tsx: the ISO text of the date.
unfoldable pub parse_date : Text → Option Text
parse_date raw = do
  (y, mo, d) ← match_date (trim raw)
  dt ← check_date y mo d
  some (decimal y ++ b'-' ∷ (pad2 mo ++ b'-' ∷ pad2 d))
