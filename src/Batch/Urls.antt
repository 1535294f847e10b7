-- ===== src/Batch/Urls.antt =====
-- The URL of an item of frontend/src/lib/batch.ts.
use gourl.Common.{
  false, ◌||◌, Option, none, some, Text, is_empty, trim, starts_with, [], ◌∷◌, ◌≡◌, Bool-cases, inl,
  inr,
}
use gourl.Platform.{Url, ℤ}
use gourl.Platform.Calendar.{Date}
use gourl.Batch.{
  Item, LineResult, ok, err, Bracket, bad, absent, found, code_part, is_absolute_url, date_part,
  url_part, after_code, after_trim, parse_batch_line,
}

abbrev pub HasUrl : Item → Type 0
HasUrl item = is_empty item.url ≡ false

abbrev pub OkHasUrl : LineResult → Type 0
OkHasUrl (ok item) = HasUrl item
OkHasUrl (err r) = Unit

module _ (parse_url : Text → Option Url) where
  url_part-OkHasUrl :
      (code : Option Text) (expires_at : Option ℤ) (rest : Text)
      → OkHasUrl (url_part parse_url code expires_at rest)
  unfolding url_part
  url_part-OkHasUrl code expires_at rest = elim (Bool-cases (is_empty (trim rest))) [
    | inl e ↦ rw e tt
    | inr e ↦ elim (Bool-cases (is_absolute_url parse_url (trim rest))) [
      | inl k ↦ rw (e, k) e
      | inr k ↦ rw (e, k) tt
    ]
  ]

  module _ (get_time : Date → ℤ) where
    dated-OkHasUrl :
        (code : Option Text) (rest : Text) (b : Bracket ℤ)
        → OkHasUrl (elim b [
          | bad r ↦ err r
          | absent ↦ url_part parse_url code none rest
          | found unix rest' ↦ url_part parse_url code (some unix) rest'
        ])
    dated-OkHasUrl code rest (bad r) = tt
    dated-OkHasUrl code rest absent = url_part-OkHasUrl code none rest
    dated-OkHasUrl code rest (found unix rest') = url_part-OkHasUrl code (some unix) rest'

    after_code-OkHasUrl :
        (code : Option Text) (rest : Text) → OkHasUrl (after_code parse_url get_time code rest)
    unfolding after_code
    after_code-OkHasUrl code rest = dated-OkHasUrl code rest (date_part get_time rest)

    coded-OkHasUrl :
        (rest : Text) (b : Bracket Text)
        → OkHasUrl (elim b [
          | bad r ↦ err r
          | absent ↦ after_code parse_url get_time none rest
          | found code rest' ↦ after_code parse_url get_time (some code) rest'
        ])
    coded-OkHasUrl rest (bad r) = tt
    coded-OkHasUrl rest absent = after_code-OkHasUrl none rest
    coded-OkHasUrl rest (found code rest') = after_code-OkHasUrl (some code) rest'

    pub parse_batch_line-OkHasUrl :
        (line : Text) → OkHasUrl (parse_batch_line parse_url get_time line)
    unfolding parse_batch_line after_trim
    parse_batch_line-OkHasUrl line =
        elim (Bool-cases (is_empty (trim line) || starts_with (trim line) (b'#' ∷ []))) [
          | inl e ↦ rw e tt
          | inr e ↦ rw e (coded-OkHasUrl (trim line) (code_part (trim line)))
        ]
