-- ===== src/Batch.antt =====
-- frontend/src/lib/batch.ts: the parser of one batch-create line, `[code](date)url`.
-- `new URL` and the local time zone are the browser's: they are parameters.
pub mod Dates
pub mod Brackets
pub mod Laws
pub mod Urls
use gourl.Common.{
  ℕ, suc, Bool, false, ◌&&◌, ◌||◌, not, ◌==◌, if◌then◌else◌, Option, none, some, [], ◌∷◌, Text,
  trim, is_empty, index_of, slice, drop, length, starts_with,
}
use gourl.Platform.{ℤ, Url}
use gourl.Platform.Calendar.{Date}
use Dates.{parse_batch_date}

-- `ParsedBatchItem`
pub record Item : Type 0 where
  pub url : Text
  pub code : Option Text
  pub expires_at : Option ℤ

-- The values of `error`.
pub data Reason : Type 0 where
  skip invalid_syntax invalid_url invalid_date : Reason

-- `BatchLineResult`: `ok: true` comes with an item and no error, `ok: false` with an error alone.
pub data LineResult : Type 0 where
  ok : Item → LineResult
  err : Reason → LineResult

-- What one optional bracket gives: an error, or its content and the text behind it.
pub data Bracket (A : Type 0) : Type 0 where
  bad : Reason → Bracket A
  absent : Bracket A
  found : A → Text → Bracket A

-- The text between an opening bracket at the front and the first `close`, trimmed, and the rest.
unfoldable pub bracket : ℕ → ℕ → Text → Bracket Text
bracket opening closing rest =
    if starts_with rest (opening ∷ [])
    then elim (index_of closing rest) [
      | none ↦ bad invalid_syntax
      | some close ↦ found (trim (slice 1 close rest)) (drop (suc close) rest)
    ]
    else absent

-- `[code]`
unfoldable pub code_part : Text → Bracket Text
code_part rest = elim (bracket b'[' b']' rest) [
  | bad r ↦ bad r
  | absent ↦ absent
  | found code rest' ↦ if is_empty code then bad invalid_syntax else found code rest'
]

module _ (parse_url : Text → Option Url) where
  unfoldable pub is_absolute_url : Text → Bool
  is_absolute_url s = elim (parse_url s) [
    | none ↦ false
    | some u ↦ not (is_empty u.protocol) && (not (is_empty u.host) || not (is_empty u.pathname))
  ]

  unfoldable pub url_part : Option Text → Option ℤ → Text → LineResult
  url_part code expires_at rest =
      let url = trim rest in
      if is_empty url
      then err invalid_syntax
      else if not (is_absolute_url url)
      then err invalid_url
      else ok (record { url = url; code = code; expires_at = expires_at })

module _ (get_time : Date → ℤ) where
  -- `(date)`
  unfoldable pub date_part : Text → Bracket ℤ
  date_part rest = elim (bracket b'(' b')' rest) [
    | bad r ↦ bad r
    | absent ↦ absent
    | found raw rest' ↦ elim (if is_empty raw then none else parse_batch_date get_time raw) [
      | none ↦ bad invalid_date
      | some unix ↦ found unix rest'
    ]
  ]

module _ (parse_url : Text → Option Url) (get_time : Date → ℤ) where
  unfoldable pub after_code : Option Text → Text → LineResult
  after_code code rest = elim (date_part get_time rest) [
    | bad r ↦ err r
    | absent ↦ url_part parse_url code none rest
    | found unix rest' ↦ url_part parse_url code (some unix) rest'
  ]

  unfoldable pub after_trim : Text → LineResult
  after_trim rest = elim (code_part rest) [
    | bad r ↦ err r
    | absent ↦ after_code none rest
    | found code rest' ↦ after_code (some code) rest'
  ]

  unfoldable pub parse_batch_line : Text → LineResult
  parse_batch_line line =
      let rest = trim line in
      if is_empty rest || starts_with rest (b'#' ∷ []) then err skip else after_trim rest
