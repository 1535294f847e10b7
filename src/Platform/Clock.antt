-- ===== src/Platform/Clock.antt =====
-- The local time that the getters of `new Date(ms)` give. The time zone is the browser's, so the
-- function from a timestamp to this record is a parameter of what uses it.
use gourl.Common.{ℕ, ◌+◌}

-- `month` is an index, as `getMonth()` returns it.
pub record LocalTime : Type 0 where
  pub year : ℕ
  pub month : ℕ
  pub day : ℕ
  pub hours : ℕ
  pub minutes : ℕ
  pub seconds : ℕ

-- `getMonth() + 1`
abbrev pub month_number : LocalTime → ℕ
month_number d = d.month + 1
