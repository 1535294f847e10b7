-- ===== src/Platform/Calendar.antt =====
-- The calendar of JavaScript's `Date`: `new Date(y, m, d)` with a month index below 12 and a day
-- from 1 to 31, as the callers have checked, and the getters on the result.
use gourl.Common.{
  ℕ, ◌+◌, ◌-◌, ◌%◌, ◌≤◌, Bool, true, ◌&&◌, ◌||◌, not, ltb, leb, ◌==◌, if◌then◌else◌, ◌≡◌, arith,
  ◌↔◌,
}

-- The month is an index, as `getMonth()` returns it: 0 is January.
pub record Date : Type 0 where
  pub year : ℕ
  pub month : ℕ
  pub day : ℕ

unfoldable pub is_leap : ℕ → Bool
is_leap y = (y % 4 == 0) && (not (y % 100 == 0) || y % 400 == 0)

unfoldable pub days_in_month : ℕ → ℕ → ℕ
days_in_month y m =
    if m == 1
    then (if is_leap y then 29 else 28)
    else if m == 3 || m == 5 || m == 8 || m == 10
    then 30
    else 31

-- Two-digit years mean 1900 + y; a day past the end of the month rolls over into the next one.
unfoldable pub new_date : ℕ → ℕ → ℕ → Date
new_date y m d =
    let year : ℕ = if ltb y 100 then 1900 + y else y in
    if leb d (days_in_month year m)
    then record { year = year; month = m; day = d }
    else if m == 11
    then record { year = year + 1; month = 0; day = d - days_in_month year m }
    else record { year = year; month = m + 1; day = d - days_in_month year m }

-- The fields come back as given exactly for a day of the calendar after the year 99.
pub new_date_keeps_iff :
    (y m d : ℕ)
    → (((new_date y m d).year == y) && ((new_date y m d).month == m) && ((new_date y m d).day == d)
        ≡ true)
      ↔ ((100 ≤ y) × (d ≤ days_in_month y m))
unfolding new_date
new_date_keeps_iff y m d = ground arith
