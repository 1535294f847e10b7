-- ===== src/Platform.antt =====
-- What the browser gives the frontend: integers as JavaScript's timestamps use them, a parsed
-- URL (the fields that the code reads), the calendar behind `new Date(y, m, d)`, and decimal text.
pub mod Calendar
pub mod Decimal
pub mod Clock
use gourl.Common.{ℕ, ◌/◌, Text}

-- `negsuc n` is -(n + 1).
pub data ℤ : Type 0 where
  pos : ℕ → ℤ
  negsuc : ℕ → ℤ

-- `Math.floor(t / 1000)`
abbrev pub floor_thousandth : ℤ → ℤ
floor_thousandth (pos n) = pos (n / 1000)
floor_thousandth (negsuc n) = negsuc (n / 1000)

-- The parts of `new URL(s)` that the code reads.
pub record Url : Type 0 where
  pub protocol : Text
  pub host : Text
  pub pathname : Text
  pub origin : Text
