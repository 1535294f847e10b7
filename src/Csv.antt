-- ===== src/Csv.antt =====
-- frontend/src/lib/csv.ts: the CSV parser. The loop over `text` with its index and its flag
-- `inQuotes` is a recursion on the units left; `toLowerCase` is a parameter.
pub mod RoundTrip
use gourl.Common.{
  ℕ, Bool, true, false, ◌&&◌, ◌||◌, not, ltb, ◌==◌, if◌then◌else◌, List, [], ◌∷◌, ◌++◌, map, Text,
  trim, same, is_empty, length,
}

abbrev pub quote : ℕ
quote = b'"'

abbrev pub comma : ℕ
comma = b','

abbrev pub newline : ℕ
newline = 10

abbrev pub carriage_return : ℕ
carriage_return = 13

-- The variables `rows`, `row` and `field`.
pub record Progress : Type 0 where
  pub rows : List (List Text)
  pub row : List Text
  pub field : Text

abbrev pub push_unit : ℕ → Progress → Progress
push_unit c p = record p { field = p.field ++ c ∷ [] }

abbrev pub push_field : Progress → Progress
push_field p = record p { row = p.row ++ p.field ∷ []; field = [] }

-- `row.length > 1 || row[0] !== ''`
abbrev pub is_full : List Text → Bool
is_full [] = true
is_full (f ∷ []) = not (is_empty f)
is_full (f ∷ g ∷ fs) = true

abbrev pub keep_row : List (List Text) → List Text → List (List Text)
keep_row rows row = if is_full row then rows ++ row ∷ [] else rows

abbrev pub end_row : Progress → Progress
end_row p = record { rows = keep_row p.rows (p.row ++ p.field ∷ []); row = []; field = [] }

-- The first argument is `inQuotes`.
unfoldable pub scan : Bool → Text → Progress → Progress
scan true [] p = p
scan true (c ∷ []) p = elim (c == quote) [ true ↦ p | false ↦ push_unit c p ]
scan true (c ∷ d ∷ s) p = elim (c == quote) [
  | true ↦ elim (d == quote) [
    | true ↦ scan true s (push_unit quote p)
    | false ↦ scan false (d ∷ s) p
  ]
  | false ↦ scan true (d ∷ s) (push_unit c p)
]
scan false [] p = p
scan false (c ∷ s) p = elim (c == quote) [
  | true ↦ scan true s p
  | false ↦ elim (c == comma) [
    | true ↦ scan false s (push_field p)
    | false ↦ elim (c == newline) [
      | true ↦ scan false s (end_row p)
      | false ↦ elim (c == carriage_return) [
        | true ↦ scan false s p
        | false ↦ scan false s (push_unit c p)
      ]
    ]
  ]
]

abbrev pub no_progress : Progress
no_progress = record { rows = []; row = []; field = [] }

unfoldable pub parse_rows : Text → List (List Text)
parse_rows text = let p = scan false text no_progress in keep_row p.rows (p.row ++ p.field ∷ [])

-- `obj[h] = v`
unfoldable pub put : Text → Text → List (Text × Text) → List (Text × Text)
put h v [] = (h, v) ∷ []
put h v ((k, w) ∷ obj) = if same k h then (k, v) ∷ obj else (k, w) ∷ put h v obj

-- `r[i] ?? ''` for the cells behind one another.
abbrev pub first_cell : List Text → Text
first_cell [] = []
first_cell (c ∷ cells) = c

abbrev pub next_cells : List Text → List Text
next_cells [] = []
next_cells (c ∷ cells) = cells

-- `header.forEach` of one row.
unfoldable pub fill : List Text → List Text → List (Text × Text) → List (Text × Text)
fill [] cells obj = obj
fill (h ∷ header) cells obj =
    fill header (next_cells cells) (if is_empty h then obj else put h (trim (first_cell cells)) obj)

module _ (lower : Text → Text) where
  unfoldable pub objects : List (List Text) → List (List (Text × Text))
  objects [] = []
  objects (first ∷ rows) =
      let header = map (λ h. lower (trim h)) first in map (λ r. fill header r []) rows

  -- `parseCSV`
  unfoldable pub parse_csv : Text → List (List (Text × Text))
  parse_csv text = objects (parse_rows text)
