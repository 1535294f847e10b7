-- ===== src/Examples/Texts.antt =====
-- The parsers of texts.
use gourl.Common.{
  true, false, none, some, is_some, List, [], ◌∷◌, Text, codes, trim, ◌≡◌, ◌↔◌, inl, refl, arith,
  not, is_space, trim_start, trim_end,
}
use gourl.Platform.{floor_thousandth}
use gourl.Platform.Calendar.{days_in_month, is_leap}
use gourl.Batch.{ok, parse_batch_line, is_absolute_url}
use gourl.Batch.Laws.{parse-print_line, with_code, with_date, UrlFits, CodeFits, trimmed}
use gourl.Batch.Dates.{check_date, parse_batch_date}
use gourl.Batch.Dates.Laws.{check_date_iff, parse_batch_date-print, IsRealDay, print_date}
use gourl.Csv.{parse_rows}
use gourl.Csv.RoundTrip.{parse_rows-print_rows, print_rows}
use gourl.Settings.{body_of, drafts_of}
use gourl.Settings.Fields.{body_of-drafts_of, IsPlain}
use gourl.LinkForm.DateField.{Field, on_blur, handle, on_blur-handle}
use gourl.Common.{has_unit-Lacks}
use gourl.Examples.Values.{parse_url, get_time, config, quoted}

abbrev url_rest : Text
url_rest = codes "ttp://y"

url_fits : UrlFits parse_url b'h' url_rest
unfolding is_space trim_end is_absolute_url
url_fits = record {
  not_space = refl;
  end_trimmed = refl;
  not_square = λ e. omega (arith, e);
  not_round = λ e. omega (arith, e);
  not_hash = λ e. omega (arith, e);
  absolute = refl;
}

code_fits : CodeFits (some (codes "ab"))
unfolding trim trim_start trim_end is_space
code_fits = (has_unit-Lacks b']' (codes "ab") refl, refl)

parse-print_line_example :
    parse_batch_line parse_url get_time
      (with_code (some (codes "ab")) (with_date none (b'h' ∷ url_rest)))
    ≡ ok (record { url = b'h' ∷ url_rest; code = trimmed (some (codes "ab")); expires_at = none })
parse-print_line_example =
    parse-print_line parse_url get_time b'h' url_rest url_fits (some (codes "ab")) none code_fits tt

abbrev table : List (List Text)
table = (codes "code" ∷ codes "url" ∷ []) ∷ (codes "a,\"b" ∷ codes "http://y" ∷ []) ∷ []

parse_rows-print_rows_example : parse_rows (print_rows quoted table) ≡ table
parse_rows-print_rows_example =
    parse_rows-print_rows quoted table ((λ e. cc e, refl), ((λ e. cc e, refl), tt))

leap_day : IsRealDay 2024 2 29
unfolding days_in_month is_leap
leap_day = record {
  year_from = omega arith;
  month_from = omega arith;
  month_to = omega arith;
  day_from = omega arith;
  day_to = omega arith;
}

check_date_iff_example : (is_some (check_date 2024 2 29) ≡ true) ↔ IsRealDay 2024 2 29
check_date_iff_example = check_date_iff 2024 2 29

parse_batch_date-print_example :
    parse_batch_date get_time (print_date b'/' 2024 2 29)
    ≡ some (floor_thousandth (get_time (record { year = 2024; month = 1; day = 29 })))
parse_batch_date-print_example =
    parse_batch_date-print get_time b'/' 2024 2 29 leap_day (omega arith) (omega arith) (inl refl)

config-IsPlain : IsPlain config
unfolding trim trim_start trim_end is_space
config-IsPlain = (
  (
    (refl, refl, has_unit-Lacks 10 (codes "http://b") refl),
    ((refl, refl, has_unit-Lacks 10 (codes "http://a") refl), tt),
  ),
  (
    (refl, refl, has_unit-Lacks b',' (codes "api") refl),
    ((refl, refl, has_unit-Lacks b',' (codes "admin") refl), tt),
  ),
  tt,
  tt,
)

body_of-drafts_of_example : body_of config (drafts_of config) ≡ config
body_of-drafts_of_example = body_of-drafts_of config config-IsPlain

abbrev date_field : Field
date_field = record { text = []; invalid = false }

on_blur-handle_example :
    (on_blur (handle (codes "2024/2/30") date_field).0).invalid
    ≡ not (is_some (handle (codes "2024/2/30") date_field).1)
on_blur-handle_example = on_blur-handle (codes "2024/2/30") date_field
