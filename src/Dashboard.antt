-- ===== src/Dashboard.antt =====
-- frontend/src/pages/Dashboard.tsx: the numbers, the chart's points and the labels of its axis. The
-- chart itself is drawn by a library.
use gourl.Common.{
  ℕ, Bool, true, false, ◌==◌, if◌then◌else◌, Option, none, some, List, [], ◌∷◌, ◌++◌, Text, drop,
  Lacks, ◌≡◌, refl, arith, map,
}
use gourl.Api.Types.{Message, t}

pub record DailyCount : Type 0 where
  pub date : Text
  pub count : ℕ

pub record DashboardData : Type 0 where
  pub links_total : ℕ
  pub clicks_total : ℕ
  pub clicks_today : ℕ
  pub daily : List DailyCount

-- `d.replace('-', '/')`: the first one only
unfoldable pub replace_first : Text → Text
replace_first [] = []
replace_first (c ∷ s) = if c == b'-' then b'/' ∷ s else c ∷ replace_first s

-- `tickFormatter`
unfoldable pub tick : Text → Text
tick d = replace_first (drop 5 d)

-- What the chart is given: a label and a height of each day.
abbrev pub point : DailyCount → Text × ℕ
point d = (tick d.date, d.count)

pub data Chart : Type 0 where
  no_clicks : Chart
  area : List (Text × ℕ) → Chart

unfoldable pub chart : List DailyCount → Chart
chart [] = no_clicks
chart (d ∷ daily) = area (map point (d ∷ daily))

pub data View : Type 0 where
  loading error : View
  shown : List (Message × Text) → Chart → View

-- `locale` is `toLocaleString` of a number.
unfoldable pub view : (ℕ → Text) → Bool → Bool → Option DashboardData → View
view locale true is_error answer = loading
view locale false true answer = error
view locale false false none = error
view locale false false (some d) =
    shown
      ((t "dashboard.totalLinks", locale d.links_total)
        ∷ (t "dashboard.totalClicks", locale d.clicks_total)
        ∷ (t "dashboard.clicksToday", locale d.clicks_today)
        ∷ [])
      (chart d.daily)

replace_first-Lacks : (a b : Text) → Lacks b'-' a → replace_first (a ++ b'-' ∷ b) ≡ a ++ b'/' ∷ b
unfolding replace_first
replace_first-Lacks [] b h = refl
replace_first-Lacks (c ∷ a) b (ne, h) = ground (arith, ne, replace_first-Lacks a b h)

-- The label of a day that is printed as yyyy-MM-dd is its month and day, with a slash.
pub tick-iso :
    (a b c d : ℕ) (month day : Text)
    → Lacks b'-' month
    → tick (a ∷ b ∷ c ∷ d ∷ b'-' ∷ (month ++ b'-' ∷ day)) ≡ month ++ b'/' ∷ day
unfolding tick
tick-iso a b c d month day h = replace_first-Lacks month day h
