-- ===== src/Logs/Filter.antt =====
-- What the log page shows and exports: the filter over the records, and the lines of the file.
use gourl.Common.{
  Bool, true, false, ◌&&◌, ◌||◌, not, ltb, if◌then◌else◌, Option, none, some, List, [], ◌∷◌, ◌++◌,
  map, keep, Text, codes, trim, is_empty, includes, starts_with, join,
}
use gourl.Platform.{ℤ, pos, negsuc}
use gourl.Platform.Decimal.{pad2}
use gourl.Platform.Clock.{LocalTime}
use gourl.Logs.{Logs}

-- A value of `attrs`: a string, or the text that `String(v)` gives for any other.
pub data Attr : Type 0 where
  string : Text → Attr
  other : Text → Attr

pub record LogRecord : Type 0 where
  pub time : Text
  pub level : Text
  pub message : Text
  pub attrs : Option (List (Text × Attr))

-- `s.includes(part)` of texts
unfoldable pub has_part : Text → Text → Bool
has_part part [] = starts_with [] part
has_part part (c ∷ s) = starts_with (c ∷ s) part || has_part part s

abbrev pub has_space : Text → Bool
has_space s = has_part (32 ∷ []) s

abbrev pub quoted : Text → Text
quoted s = b'"' ∷ (s ++ b'"' ∷ [])

abbrev pub quoted_if_spaced : Text → Text
quoted_if_spaced s = if has_space s then quoted s else s

abbrev pub print_value : Attr → Text
print_value (string s) = quoted_if_spaced s
print_value (other s) = s

abbrev pub print_attr : Text × Attr → Text
print_attr (k, v) = k ++ b'=' ∷ print_value v

abbrev pub print_attrs : Option (List (Text × Attr)) → Text
print_attrs none = []
print_attrs (some attrs) = join (32 ∷ []) (map print_attr attrs)

abbrev pub after_space : Text → Text
after_space [] = []
after_space (c ∷ s) = 32 ∷ c ∷ s

abbrev pub level_or_info : Text → Text
level_or_info [] = codes "info"
level_or_info (c ∷ s) = c ∷ s

-- `<` of two timestamps, where `none` is NaN.
abbrev pub ltb_int : ℤ → ℤ → Bool
ltb_int (pos a) (pos b) = ltb a b
ltb_int (pos a) (negsuc b) = false
ltb_int (negsuc a) (pos b) = true
ltb_int (negsuc a) (negsuc b) = ltb b a

unfoldable pub before : Option ℤ → Option ℤ → Bool
before (some a) (some b) = ltb_int a b
before a b = false

-- `upper` and `lower` are `toUpperCase` and `toLowerCase`, `get_time` is `new Date(s).getTime()`,
-- and `json` is `JSON.stringify` of the attributes.
module _ (upper lower : Text → Text) (get_time : Text → Option ℤ)
    (json : List (Text × Attr) → Text) where
  unfoldable pub format_log_line : LogRecord → Text
  format_log_line r =
      r.time
      ++ (codes " level="
          ++ (upper (level_or_info r.level)
              ++ (codes " msg="
                  ++ (quoted_if_spaced r.message ++ after_space (print_attrs r.attrs)))))

  abbrev pub attrs_or_empty : Option (List (Text × Attr)) → List (Text × Attr)
  attrs_or_empty none = []
  attrs_or_empty (some attrs) = attrs

  -- `${r.message} ${JSON.stringify(r.attrs ?? {})}`, in lower case
  abbrev pub hay : LogRecord → Text
  hay r = lower (r.message ++ 32 ∷ json (attrs_or_empty r.attrs))

  -- The test of one record by the page's levels, keyword and range.
  unfoldable pub passes : Logs LogRecord → LogRecord → Bool
  passes y r =
      let kw = lower (trim y.keyword) in
      let ts = get_time r.time in
      not (not (is_empty r.level) && not (includes y.levels r.level))
      && not (not (is_empty kw) && not (has_part kw (hay r)))
      && not (not (is_empty y.from) && before ts (get_time y.from))
      && not (not (is_empty y.to) && before (get_time y.to) ts)

  unfoldable pub filtered : Logs LogRecord → List LogRecord
  filtered y = keep (passes y) y.records

  -- The text that `exportLog` saves.
  unfoldable pub export_text : Logs LogRecord → Text
  export_text y = elim (filtered y) [
    | [] ↦ []
    | r ∷ rs ↦ join (10 ∷ []) (map format_log_line (r ∷ rs)) ++ 10 ∷ []
  ]

  -- `fmtTime`; the dash is for a record without a time.
  unfoldable pub fmt_time : (ℤ → LocalTime) → Text → Text
  fmt_time local_time iso = if is_empty iso then 0x2014 ∷ [] else elim (get_time iso) [
    | none ↦ iso
    | some ms ↦
        let d = local_time ms in pad2 d.hours ++ b':' ∷ (pad2 d.minutes ++ b':' ∷ pad2 d.seconds)
  ]
