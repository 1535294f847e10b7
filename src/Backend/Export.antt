-- ===== src/Backend/Export.antt =====
-- `exportCSV` of internal/api/export.go. `csv.Writer` is Go's: it writes the fields as RFC 4180
-- asks and decides which of them it quotes. `exported_at` is the formatted time.
pub mod Lines
pub mod Rows
pub mod Import
use gourl.Common.{ℕ, suc, List, [], ◌∷◌, ◌++◌, map, Text, codes, length}
use gourl.Platform.{ℤ, pos, negsuc}
use gourl.Platform.Decimal.{decimal}
use gourl.Api.Types.{Link}
use gourl.Csv.RoundTrip.{Quoting, print_rows}

abbrev pub newline : ℕ
newline = 10

-- `strconv.FormatInt(n, 10)`
abbrev pub format_int : ℤ → Text
format_int (pos n) = decimal n
format_int (negsuc n) = b'-' ∷ decimal (suc n)

abbrev pub header : List Text
header =
    codes "code"
    ∷ codes "url"
    ∷ codes "title"
    ∷ codes "description"
    ∷ codes "expires_at"
    ∷ codes "click_count"
    ∷ codes "created_at"
    ∷ []

abbrev pub row : Link → List Text
row l =
    l.code
    ∷ l.url
    ∷ l.title
    ∷ l.description
    ∷ format_int l.expires_at
    ∷ decimal l.click_count
    ∷ format_int l.created_at
    ∷ []

-- The metadata in front of the table.
pub record Meta : Type 0 where
  pub site : Text
  pub version : Text
  pub exported_at : Text

abbrev pub meta_lines : Meta → ℕ → List Text
meta_lines m count =
    (codes "# site: " ++ m.site)
    ∷ (codes "# version: " ++ m.version)
    ∷ (codes "# count: " ++ decimal count)
    ∷ (codes "# exported_at: " ++ m.exported_at)
    ∷ []

-- The lines in front of a text, each with its end.
abbrev pub with_lines : List Text → Text → Text
with_lines [] text = text
with_lines (l ∷ ls) text = l ++ newline ∷ with_lines ls text

-- The byte order mark is the first unit of the file.
abbrev pub byte_order_mark : ℕ
byte_order_mark = 0xfeff

unfoldable pub export_csv : Quoting → Meta → List Link → Text
export_csv w m links =
    byte_order_mark
    ∷ with_lines (meta_lines m (length links)) (print_rows w (header ∷ map row links))
