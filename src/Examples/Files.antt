-- ===== src/Examples/Files.antt =====
-- The files of the server, read by the console.
use gourl.Common.{
  All, true, false, some, List, [], ◌∷◌, map, Text, codes, same, length, has_unit-Lacks, ◌≡◌, refl,
  split,
}
use gourl.Platform.{pos}
use gourl.Platform.Decimal.{decimal}
use gourl.Api.Types.{resolved, Link}
use gourl.Import
use gourl.Import.{LoadedItem, load_file, item_of, ends_with, is_csv}
use gourl.Backend.Codes.{is_code_rune, check_runes, check_segments, validate}
use gourl.Backend.Export.{Meta, export_csv}
use gourl.Backend.Export.Rows.{IsExportable, imported}
use gourl.Backend.Export.Import.{IsMeta, load_file-export_csv}
use gourl.Logs
use gourl.Logs.{Logs, LogHistory, reversed, more_loaded}
use gourl.Logs.History.{ShowsNewest}
use gourl.Backend.Export.{with_lines}
use gourl.Backend.Logs.{content, log_history}
use gourl.Backend.Logs.History.{IsLogged, IsExtended, newest, more_loaded-log_history}
use gourl.Examples.Values.{quoted}

abbrev export_meta : Meta
export_meta = record { site = codes "go"; version = codes "1"; exported_at = codes "now" }

abbrev exported : Link
exported = record {
  id = 1;
  code = codes "a/b";
  url = codes "http://y";
  title = codes "a, \"b\"";
  description = [];
  expires_at = pos 0;
  click_count = 7;
  created_at = pos 12;
  updated_at = pos 12;
}

exported-IsExportable : IsExportable exported
unfolding validate split check_segments check_runes is_code_rune same
exported-IsExportable = record {
  valid = refl;
  url_lines = refl;
  title_lines = refl;
  description_lines = refl;
}

export_meta-IsMeta : IsMeta export_meta
export_meta-IsMeta = record {
  site_line = has_unit-Lacks 10 (codes "go") refl;
  version_line = has_unit-Lacks 10 (codes "1") refl;
  time_line = has_unit-Lacks 10 (codes "now") refl;
}

abbrev unmarked : Text → Text
unmarked [] = []
unmarked (c ∷ s) = s

abbrev print_items : List (LoadedItem (λ s. s) (λ s. same s (codes "0"))) → Text
print_items items = decimal (length items)

abbrev import_dialog : Import.Dialog
import_dialog = record { text = []; conflict = Import.skip; busy = false }

csv_name :
    is_csv
      (λ s. s)
      (λ rows. print_items (map (item_of (λ s. s) (λ s. same s (codes "0"))) rows))
      (codes "l.csv")
    ≡ true
unfolding is_csv ends_with same
csv_name = refl

load_file-export_csv_example :
    load_file
      (λ s. s)
      (λ rows. print_items (map (item_of (λ s. s) (λ s. same s (codes "0"))) rows))
      (codes "l.csv")
      (some (unmarked (export_csv quoted export_meta (exported ∷ []))))
      import_dialog
    ≡ (
      record import_dialog {
        text = print_items (map (imported (λ s. s) (λ s. same s (codes "0"))) (exported ∷ []));
      },
      [],
    )
load_file-export_csv_example =
    load_file-export_csv (λ s. s) (λ s. same s (codes "0")) (λ s. s) (λ s h. refl) unmarked
      print_items quoted (codes "l.csv") export_meta (exported ∷ []) import_dialog (λ s. refl)
      csv_name export_meta-IsMeta (exported-IsExportable, tt)

abbrev log_lines : List Text
log_lines = codes "a" ∷ codes "b" ∷ codes "c" ∷ []

log_lines-IsLogged : All IsLogged log_lines
log_lines-IsLogged = (
  (refl, has_unit-Lacks 10 (codes "a") refl),
  ((refl, has_unit-Lacks 10 (codes "b") refl), ((refl, has_unit-Lacks 10 (codes "c") refl), tt)),
)

abbrev shown_logs : Logs Text
shown_logs = record Logs.initial { records = codes "b" ∷ codes "c" ∷ []; history_offset = 2 }

shows_last : ShowsNewest (newest (λ s. s) log_lines) shown_logs
unfolding reversed
shows_last = refl

more_loaded-log_history_example :
    (page : LogHistory Text) × (log_history
        (λ s. s)
        (content (with_lines log_lines []))
        (pos 200)
        (pos 2)
      ≡ some page)
    × IsExtended (λ s. s) log_lines shown_logs (more_loaded (resolved page) shown_logs).0
more_loaded-log_history_example =
    more_loaded-log_history (λ s. s) log_lines shown_logs log_lines-IsLogged shows_last
