-- ===== src/Batch/Laws.antt =====
-- A batch line that is put together from its parts is read back as these parts.
use gourl.Common.{
  ℕ, true, false, ◌≡◌, ◌≢◌, refl, some, none, arith, ◌∷◌, ◌++◌, Text, Lacks, trim, trim_start,
  trim_end, is_space, is_empty, Option, [], starts_with,
}
use gourl.Platform.{ℤ, Url}
use gourl.Platform.Calendar.{Date}
use gourl.Batch.{
  ok, code_part, is_absolute_url, date_part, url_part, after_code, after_trim, parse_batch_line,
}
use gourl.Batch.Brackets.{trim_end-append, trim_plain, bracket_at, bracket_absent}
use gourl.Batch.Dates.{parse_batch_date}

abbrev pub bracketed : ℕ → ℕ → Option Text → Text → Text
bracketed opening closing none rest = rest
bracketed opening closing (some content) rest = opening ∷ (content ++ closing ∷ rest)

abbrev pub with_code : Option Text → Text → Text
with_code code rest = bracketed b'[' b']' code rest

abbrev pub with_date : Option (Text × ℤ) → Text → Text
with_date none rest = rest
with_date (some (raw, unix)) rest = b'(' ∷ (raw ++ b')' ∷ rest)

abbrev pub CodeFits : Option Text → Type 0
CodeFits none = Unit
CodeFits (some code) = Lacks b']' code × (is_empty (trim code) ≡ false)

abbrev pub trimmed : Option Text → Option Text
trimmed none = none
trimmed (some code) = some (trim code)

abbrev pub unix_of : Option (Text × ℤ) → Option ℤ
unix_of none = none
unix_of (some (raw, unix)) = some unix

module _ (get_time : Date → ℤ) where
  -- The text between the round brackets resolves to the timestamp beside it.
  abbrev pub DateFits : Option (Text × ℤ) → Type 0
  DateFits none = Unit
  DateFits (some (raw, unix)) =
      Lacks b')' raw
      × (is_empty (trim raw) ≡ false)
      × (parse_batch_date get_time (trim raw) ≡ some unix)

module _ (parse_url : Text → Option Url) where
  -- A URL that starts with none of `[`, `(`, `#` and has no spaces around it.
  pub record UrlFits (c : ℕ) (u : Text) : Type 0 where
    pub not_space : is_space c ≡ false
    pub end_trimmed : trim_end (c ∷ u) ≡ c ∷ u
    pub not_square : c ≢ b'['
    pub not_round : c ≢ b'('
    pub not_hash : c ≢ b'#'
    pub absolute : is_absolute_url parse_url (c ∷ u) ≡ true

  module _ (c : ℕ) (u : Text) (fits : UrlFits c u) where
    trim_url : trim (c ∷ u) ≡ c ∷ u
    unfolding trim trim_start
    trim_url = rw fits.not_space fits.end_trimmed

    url_part_reads :
        (code : Option Text) (expires : Option ℤ)
        → url_part parse_url code expires (c ∷ u)
          ≡ ok (record { url = c ∷ u; code = code; expires_at = expires })
    unfolding url_part
    url_part_reads code expires = rw (trim_url, fits.absolute) refl

  module _ (get_time : Date → ℤ) (c : ℕ) (u : Text) (fits : UrlFits c u) where
    after_code_reads :
        (code : Option Text) (date : Option (Text × ℤ))
        → DateFits get_time date
        → after_code parse_url get_time code (with_date date (c ∷ u))
          ≡ ok (record { url = c ∷ u; code = code; expires_at = unix_of date })
    unfolding after_code date_part
    after_code_reads code none h =
        rw (bracket_absent b'(' b')' c u fits.not_round, after_code, date_part)
          (url_part_reads c u fits code none)
    after_code_reads code (some (raw, unix)) (lacks, full, reads) =
        rw
          (bracket_at b'(' b')' raw (c ∷ u) (omega arith) lacks, full, reads, after_code, date_part)
          (url_part_reads c u fits code (some unix))

    after_trim_reads :
        (code : Option Text) (date : Option (Text × ℤ))
        → CodeFits code
        → DateFits get_time date
        → after_trim parse_url get_time (with_code code (with_date date (c ∷ u)))
          ≡ ok (record { url = c ∷ u; code = trimmed code; expires_at = unix_of date })
    unfolding after_trim code_part
    after_trim_reads none none h k =
        rw (bracket_absent b'[' b']' c u fits.not_square, after_trim, code_part)
          (after_code_reads none none k)
    after_trim_reads none (some (raw, unix)) h k =
        rw
          (bracket_absent b'[' b']' b'(' (raw ++ b')' ∷ c ∷ u) (omega arith), after_trim, code_part)
          (after_code_reads none (some (raw, unix)) k)
    after_trim_reads (some code) date (lacks, full) k =
        rw
          (
            bracket_at b'[' b']' code (with_date date (c ∷ u)) (omega arith) lacks,
            full,
            after_trim,
            code_part,
          )
          (after_code_reads (some (trim code)) date k)

    -- The printed line has no space at either end and is no comment.
    line_start :
        (code : Option Text) (date : Option (Text × ℤ))
        → CodeFits code
        → (trim (with_code code (with_date date (c ∷ u))) ≡ with_code code (with_date date (c ∷ u)))
          × (is_empty (with_code code (with_date date (c ∷ u))) ≡ false)
          × (starts_with (with_code code (with_date date (c ∷ u))) (b'#' ∷ []) ≡ false)
    unfolding starts_with is_space
    line_start none none h = (trim_url c u fits, refl, ground (arith, fits.not_hash))
    line_start none (some (raw, unix)) h = (
      trim_plain b'(' raw b')' (c ∷ u) refl (trim_end-append (b')' ∷ []) c u fits.end_trimmed),
      refl,
      refl,
    )
    line_start (some code) none h = (
      trim_plain b'[' code b']' (c ∷ u) refl (trim_end-append (b']' ∷ []) c u fits.end_trimmed),
      refl,
      refl,
    )
    line_start (some code) (some (raw, unix)) h =
        let after_date = trim_end-append (b')' ∷ []) c u fits.end_trimmed in
        (
          trim_plain b'[' code b']' (with_date (some (raw, unix)) (c ∷ u)) refl
              (trim_end-append (b']' ∷ b'(' ∷ raw) b')' (c ∷ u) after_date),
          refl,
          refl,
        )

    -- A line that is written as `[code](date)url`, each bracket optional, is read as these parts:
    -- the URL, the trimmed code and the timestamp of the date.
    pub parse-print_line :
        (code : Option Text) (date : Option (Text × ℤ))
        → CodeFits code
        → DateFits get_time date
        → parse_batch_line parse_url get_time (with_code code (with_date date (c ∷ u)))
          ≡ ok (record { url = c ∷ u; code = trimmed code; expires_at = unix_of date })
    unfolding parse_batch_line
    parse-print_line code date h k =
        let (whole, full, no_hash) = line_start code date h in
        rw (whole, full, no_hash) (after_trim_reads code date h k)
