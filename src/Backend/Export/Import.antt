-- ===== src/Backend/Export/Import.antt =====
-- The round trip of the links through a file: `exportCSV` of internal/api/export.go writes it, and
-- `loadFile` of frontend/src/components/ImportDialog.tsx reads it.
use gourl.Common.{
  has_unit, has_unit-Lacks, ℕ, Bool, true, false, some, List, [], ◌∷◌, ◌++◌, map, Text, codes,
  starts_with, length, All, All-append, Lacks, ◌≡◌, ◌≢◌, refl,
}
use gourl.Platform.Decimal.{decimal}
use gourl.Api.Types.{Link}
use gourl.Csv.{objects, fill}
use gourl.Csv.RoundTrip.{Quoting, print_rows, parse_csv-print_rows}
use gourl.Import.{Dialog, LoadedItem, item_of, load_file, is_csv, is_comment, strip_comments}
use gourl.Import.Comments.{IsComment, strip_comments_behind}
use gourl.Backend.Export.{
  newline, header, row, Meta, meta_lines, with_lines, byte_order_mark, export_csv,
}
use gourl.Backend.Export.Rows.{
  IsExportable, KeepsSmall, imported, row_item, headings, lowered, All-map, decimal_units,
  int_unit_clean, rows_clean, rows_full,
}
use gourl.Backend.Export.Lines.{is_clean, is_clean-split, is_clean-print_rows, with_lines-join}

-- The metadata stand on one line each.
pub record IsMeta (m : Meta) : Type 0 where
  pub site_line : Lacks newline m.site
  pub version_line : Lacks newline m.version
  pub time_line : Lacks newline m.exported_at

IsComment-line :
    (start s : Text)
    → is_comment start ≡ true
    → has_unit newline start ≡ false
    → Lacks newline s
    → IsComment (start ++ s)
unfolding starts_with
IsComment-line [] s h k l = absurd (cc h)
IsComment-line (c ∷ start) s h k l =
    (h, All-append (λ u. u ≢ newline) (c ∷ start) s (has_unit-Lacks newline (c ∷ start) k) l)

metas_comments : (m : Meta) (count : ℕ) → IsMeta m → All IsComment (meta_lines m count)
unfolding starts_with
metas_comments m count h =
    let number_line : Lacks newline (decimal count) =
      All-map (decimal count) (λ c k. (int_unit_clean c k).1) (decimal_units count) in
    (
      IsComment-line (codes "# site: ") m.site refl refl h.site_line,
      (
        IsComment-line (codes "# version: ") m.version refl refl h.version_line,
        (
          IsComment-line (codes "# count: ") (decimal count) refl refl number_line,
          (IsComment-line (codes "# exported_at: ") m.exported_at refl refl h.time_line, tt),
        ),
      ),
    )

module _ (w : Quoting) where
  -- The table of the file is what is left of it without its mark and its comment lines.
  strip_comments-with_lines :
      (m : Meta) (links : List Link)
      → IsMeta m
      → All IsExportable links
      → strip_comments
          (with_lines (meta_lines m (length links)) (print_rows w (header ∷ map row links)))
        ≡ print_rows w (header ∷ map row links)
  strip_comments-with_lines m links metas h =
      let table = print_rows w (header ∷ map row links) in
      let clean : is_clean true table ≡ true = is_clean-print_rows w (header ∷ map row links) (
        (refl, (refl, (refl, (refl, (refl, (refl, (refl, (refl, tt)))))))),
        rows_clean w links h,
      ) in
      rw (with_lines-join (meta_lines m (length links)) table) (
        strip_comments_behind (meta_lines m (length links)) table
          (metas_comments m (length links) metas) (is_clean-split table clean))

module _ {N : Type 0} (to_number : Text → N) (is_falsy : N → Bool) (lower : Text → Text)
    (small : KeepsSmall lower) where
  items_of_rows :
      (links : List Link)
      → All IsExportable links
      → map (item_of to_number is_falsy) (map (λ r. fill header r []) (map row links))
        ≡ map (imported to_number is_falsy) links
  items_of_rows [] h = refl
  items_of_rows (l ∷ links) (k, h) =
      let first = row_item to_number is_falsy l k in cc (first, items_of_rows links h)

  -- The file that the server exports its links to is loaded by the import dialog as the items of
  -- these links, in their order: each with its code, its trimmed texts, the time of its expiry and
  -- of its creation, and without its clicks. The codes are valid, no line of a text behind its
  -- first starts with '#', and the metadata stand on one line each. `file.text()` leaves out the
  -- byte order mark.
  pub load_file-export_csv :
      (read_text : Text → Text) (print_items : List (LoadedItem to_number is_falsy) → Text)
      (w : Quoting) (name : Text) (m : Meta) (links : List Link) (d : Dialog)
      → ((s : Text) → read_text (byte_order_mark ∷ s) ≡ s)
      → is_csv lower (λ rows. print_items (map (item_of to_number is_falsy) rows)) name ≡ true
      → IsMeta m
      → All IsExportable links
      → load_file lower
          (λ rows. print_items (map (item_of to_number is_falsy) rows))
          name
          (some (read_text (export_csv w m links)))
          d
        ≡ (record d { text = print_items (map (imported to_number is_falsy) links) }, [])
  unfolding load_file objects export_csv
  load_file-export_csv read_text print_items w name m links d marked csv metas h =
      rw
        (
          csv,
          marked,
          strip_comments-with_lines w m links metas h,
          parse_csv-print_rows w lower (header ∷ map row links)
              (((λ e. cc e), refl), rows_full w links),
          lowered lower small header headings,
          items_of_rows links h,
        )
        refl
