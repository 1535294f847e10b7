-- ===== src/Backend/Update/Day.antt =====
-- The day that the form of frontend/src/components/LinkFormDialog.tsx keeps of an expiry: `toDate`
-- writes it and `toUnix` reads it. The calendar and the clock are the browser's `Date`.
use gourl.Common.{
  ℕ, zero, suc, ◌+◌, ◌*◌, ◌/◌, ◌%◌, ◌≤◌, ◌<◌, [], ◌∷◌, Text, ◌≡◌, refl, sym, ap, ◌∙◌, arith,
}
use gourl.Platform.{ℤ, pos, negsuc, floor_thousandth}
use gourl.Platform.Calendar.{Date, days_in_month}
use gourl.Platform.Clock.{LocalTime}
use gourl.Platform.Decimal.{decimal_four, pad2_two}
use gourl.LinkForm.{to_date, to_unix}

-- `yyyy-mm-dd`, digit by digit; `mo` is 1 in January.
abbrev pub iso_date : ℕ → ℕ → ℕ → Text
iso_date y mo d =
    (b'0' + y / 1000)
    ∷ (b'0' + y / 100 % 10)
    ∷ (b'0' + y / 10 % 10)
    ∷ (b'0' + y % 10)
    ∷ b'-'
    ∷ (b'0' + mo / 10)
    ∷ (b'0' + mo % 10)
    ∷ b'-'
    ∷ (b'0' + d / 10)
    ∷ (b'0' + d % 10)
    ∷ []

abbrev pub day_of : LocalTime → Date
day_of l = record { year = l.year; month = l.month; day = l.day }

abbrev pub seconds_of_day : LocalTime → ℕ
seconds_of_day l = l.hours * 3600 + l.minutes * 60 + l.seconds

-- A day of the calendar, its month counted from 0, of a year of four digits.
pub record IsDay (day : Date) : Type 0 where
  pub year_from : 1000 ≤ day.year
  pub year_to : day.year < 10000
  pub month_to : day.month < 12
  pub day_from : 1 ≤ day.day
  pub day_to : day.day ≤ days_in_month day.year day.month

-- A time of the clock on a day.
abbrev pub clock_at : Date → ℕ → ℕ → ℕ → LocalTime
clock_at day h mi s = record {
  year = day.year;
  month = day.month;
  day = day.day;
  hours = h;
  minutes = mi;
  seconds = s;
}

abbrev pub midnight_of : Date → LocalTime
midnight_of day = clock_at day 0 0 0

-- What is relied on of parsing in the browser: `${date}T00:00:00` of a date in full is read as the
-- local midnight of its day. `get_time` gives `getTime()` of `new Date(y, m, d, h, mi, s)`.
abbrev pub ReadsIso : (Text → ℤ) → (LocalTime → ℤ) → Type 0
ReadsIso midnight get_time =
    (day : Date)
    → IsDay day
    → midnight (iso_date day.year (day.month + 1) day.day) ≡ get_time (midnight_of day)

-- A day on which the clock is not changed: each time of the clock is as far behind its start, in
-- seconds, as the clock says.
abbrev pub IsPlain : (LocalTime → ℤ) → Date → ℕ → Type 0
IsPlain get_time day start =
    (h mi s : ℕ)
    → h < 24
    → mi < 60
    → s < 60
    → get_time (clock_at day h mi s) ≡ pos (1000 * (start + h * 3600 + mi * 60 + s))

-- A time in seconds on such a day: the getters of its `Date` give a day and a time of the clock,
-- and the `Date` of these is the time again.
pub record IsOnPlainDay (local_time : ℤ → LocalTime) (get_time : LocalTime → ℤ) (u : ℕ)
    : Type 0 where
  pub positive : 1 ≤ u
  pub real : IsDay (day_of (local_time (pos u)))
  pub hours_to : (local_time (pos u)).hours < 24
  pub minutes_to : (local_time (pos u)).minutes < 60
  pub seconds_to : (local_time (pos u)).seconds < 60
  pub read_back : get_time (local_time (pos u)) ≡ pos (1000 * u)
  pub start : ℕ
  pub plain : IsPlain get_time (day_of (local_time (pos u))) start

abbrev size : ℤ → ℕ
size (pos n) = n
size (negsuc n) = n

days_le : (y m : ℕ) → days_in_month y m ≤ 31
unfolding days_in_month
days_le y m = ground arith

module _ (local_time : ℤ → LocalTime) where
  to_date-iso_date :
      (u : ℕ)
      → 1 ≤ u
      → IsDay (day_of (local_time (pos u)))
      → let l = local_time (pos u) in
        to_date local_time (pos u) ≡ iso_date l.year (l.month + 1) l.day
  unfolding to_date
  to_date-iso_date zero h real = absurd (omega (arith, h))
  to_date-iso_date (suc u) h real =
      let l = local_time (pos (suc u)) in
      let few = days_le l.year l.month in
      let low = real.year_from in
      let high = real.year_to in
      let months = real.month_to in
      let days = real.day_to in
      rw
        (
          decimal_four l.year low high,
          pad2_two (l.month + 1) (omega (arith, months)),
          pad2_two l.day (omega (arith, days, few)),
        )
        refl

  module _ (get_time : LocalTime → ℤ) (u : ℕ) (on : IsOnPlainDay local_time get_time u) where
    -- The day of the time begins at its start.
    pub starts : get_time (midnight_of (day_of (local_time (pos u)))) ≡ pos (1000 * on.start)
    starts =
        let sum : on.start + 0 * 3600 + 0 * 60 + 0 ≡ on.start = omega arith in
        on.plain 0 0 0 (omega arith) (omega arith) (omega arith) ∙ ap (λ n. pos (1000 * n)) sum

    -- The time lies behind the start of its day by what the clock shows.
    pub time_of_day : on.start + seconds_of_day (local_time (pos u)) ≡ u
    time_of_day =
        let l = local_time (pos u) in
        let e = ap size (
          sym (on.plain l.hours l.minutes l.seconds on.hours_to on.minutes_to on.seconds_to)
          ∙ on.read_back) in
        omega (arith, e)

    -- The date that is written for an expiry is read back as the midnight of its day.
    pub to_unix-to_date :
        (midnight : Text → ℤ)
        → ReadsIso midnight get_time
        → to_unix midnight (to_date local_time (pos u)) ≡ pos on.start
    unfolding to_unix
    to_unix-to_date midnight reads =
        let whole : 1000 * on.start / 1000 ≡ on.start = omega arith in
        ap (to_unix midnight) (to_date-iso_date u on.positive on.real)
        ∙ ap floor_thousandth (reads (day_of (local_time (pos u))) on.real ∙ starts)
        ∙ ap pos whole
