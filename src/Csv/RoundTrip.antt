-- ===== src/Csv/RoundTrip.antt =====
-- A table that is written as RFC 4180 asks is read back, whichever fields the writer quotes.
use gourl.Common.{
  ℕ, Bool, true, false, ◌==◌, ==_iff, if◌then◌else◌, List, [], ◌∷◌, ◌++◌, Text, ◌≡◌, ◌≢◌, refl,
  Bool-cases, inl, inr, append_assoc, append-nil, All, ◌∙◌, ap, arith,
}
use gourl.Csv.{
  quote, comma, newline, carriage_return, Progress, push_unit, push_field, is_full, keep_row,
  end_row, scan, parse_rows, objects, parse_csv,
}

-- A quote inside a field is written twice.
unfoldable pub escape : Text → Text
escape [] = []
escape (c ∷ f) = if c == quote then quote ∷ quote ∷ escape f else c ∷ escape f

-- A field that the writer does not quote has no unit that the parser treats apart.
abbrev pub IsPlainUnit : ℕ → Type 0
IsPlainUnit c = (c ≢ quote) × (c ≢ comma) × (c ≢ newline) × (c ≢ carriage_return)

-- What a writer decides: which fields stand in quotes. All that need them do.
pub record Quoting : Type 0 where
  pub quotes : Text → Bool
  pub plain : (f : Text) → quotes f ≡ false → All IsPlainUnit f

module _ (w : Quoting) where
  unfoldable pub print_field : Text → Text → Text
  print_field f rest = if w.quotes f then quote ∷ (escape f ++ quote ∷ rest) else f ++ rest

  -- The fields of a row behind one another, then the end of the line.
  unfoldable pub print_row : List Text → Text → Text
  print_row [] rest = newline ∷ rest
  print_row (f ∷ []) rest = print_field f (newline ∷ rest)
  print_row (f ∷ g ∷ fs) rest = print_field f (comma ∷ print_row (g ∷ fs) rest)

  unfoldable pub print_rows : List (List Text) → Text
  print_rows [] = []
  print_rows (r ∷ rs) = print_row r (print_rows rs)

-- What stands behind the closing quote of a field.
data Ends : Text → Type 0 where
  at_comma : (s : Text) → Ends (comma ∷ s)
  at_newline : (s : Text) → Ends (newline ∷ s)

scan_plain :
    (c : ℕ) (s : Text) (p : Progress)
    → (c == quote) ≡ false
    → scan true (c ∷ s) p ≡ scan true s (push_unit c p)
unfolding scan
scan_plain c [] p h = rw (h, scan)
scan_plain c (d ∷ s) p h = rw (h, scan)

scan_doubled :
    (s : Text) (p : Progress) → scan true (quote ∷ quote ∷ s) p ≡ scan true s (push_unit quote p)
unfolding scan
scan_doubled s p = refl

push_assoc :
    (p : Progress) (c : ℕ) (f : Text)
    → record p { field = (p.field ++ c ∷ []) ++ f } ≡ record p { field = p.field ++ c ∷ f }
push_assoc p c f = ap (λ t. record p { field = t }) (append_assoc p.field (c ∷ []) f)

scan_escaped :
    (f rest : Text) (p : Progress)
    → Ends rest
    → scan true (escape f ++ quote ∷ rest) p ≡ scan false rest (record p { field = p.field ++ f })
unfolding escape
scan_escaped [] _ p (at_comma s) = unfold scan in rw append-nil
scan_escaped [] _ p (at_newline s) = unfold scan in rw append-nil
scan_escaped (c ∷ f) rest p e = elim (Bool-cases (c == quote)) [
  | inl q ↦
      rw (q, escape, scan_doubled, (==_iff c quote).0 q)
        (scan_escaped f rest (push_unit quote p) e ∙ ap (scan false rest) (push_assoc p quote f))
  | inr plain ↦
      rw (plain, escape, scan_plain c (escape f ++ quote ∷ rest) p plain)
        (scan_escaped f rest (push_unit c p) e ∙ ap (scan false rest) (push_assoc p c f))
]

scan_opening : (s : Text) (p : Progress) → scan false (quote ∷ s) p ≡ scan true s p
unfolding scan
scan_opening s p = refl

scan-comma : (s : Text) (p : Progress) → scan false (comma ∷ s) p ≡ scan false s (push_field p)
unfolding scan
scan-comma s p = refl

scan-newline : (s : Text) (p : Progress) → scan false (newline ∷ s) p ≡ scan false s (end_row p)
unfolding scan
scan-newline s p = refl

scan_unit :
    (c : ℕ) (s : Text) (p : Progress)
    → IsPlainUnit c
    → scan false (c ∷ s) p ≡ scan false s (push_unit c p)
unfolding scan
scan_unit c s p (nq, nc, nn, nr) = ground arith

scan_units :
    (f rest : Text) (p : Progress)
    → All IsPlainUnit f
    → scan false (f ++ rest) p ≡ scan false rest (record p { field = p.field ++ f })
scan_units [] rest p h = rw append-nil refl
scan_units (c ∷ f) rest p (k, h) =
    scan_unit c (f ++ rest) p k
    ∙ scan_units f rest (push_unit c p) h
    ∙ ap (scan false rest) (push_assoc p c f)

-- A row that the parser does not take for an empty line.
abbrev pub IsRow : List Text → Type 0
IsRow r = (r ≢ []) × (is_full r ≡ true)

module _ (w : Quoting) where
  scan_field :
      (f rest : Text) (p : Progress)
      → Ends rest
      → scan false (print_field w f rest) p ≡ scan false rest (record p { field = p.field ++ f })
  unfolding print_field
  scan_field f rest p e = elim (Bool-cases (w.quotes f)) [
    | inl q ↦
        rw (q, print_field) (scan_opening (escape f ++ quote ∷ rest) p ∙ scan_escaped f rest p e)
    | inr q ↦ rw (q, print_field) (scan_units f rest p (w.plain f q))
  ]

  -- Reading one printed row appends its fields, and ends the row.
  scan_row :
      (r : List Text) (rest : Text) (rows : List (List Text)) (done : List Text)
      → r ≢ []
      → scan false (print_row w r rest) (record { rows = rows; row = done; field = [] })
        ≡ scan false rest (record { rows = keep_row rows (done ++ r); row = []; field = [] })
  unfolding print_row
  scan_row [] rest rows done h = absurd (h refl)
  scan_row (f ∷ []) rest rows done h =
      scan_field f (newline ∷ rest) _ (at_newline rest) ∙ scan-newline rest _
  scan_row (f ∷ g ∷ fs) rest rows done h =
      scan_field f (comma ∷ print_row w (g ∷ fs) rest) _ (at_comma (print_row w (g ∷ fs) rest))
      ∙ scan-comma (print_row w (g ∷ fs) rest) _
      ∙ scan_row (g ∷ fs) rest rows (done ++ f ∷ []) (λ e. cc e)
      ∙ ap (λ ds. scan false rest (record { rows = keep_row rows ds; row = []; field = [] }))
          (append_assoc done (f ∷ []) (g ∷ fs))

  scan_rows :
      (rs : List (List Text)) (rows : List (List Text))
      → All IsRow rs
      → scan false (print_rows w rs) (record { rows = rows; row = []; field = [] })
        ≡ record { rows = rows ++ rs; row = []; field = [] }
  unfolding print_rows
  scan_rows [] rows h = unfold scan in rw append-nil
  scan_rows (r ∷ rs) rows ((ne, full), h) =
      scan_row r (print_rows w rs) rows [] ne
      ∙ rw full (scan_rows rs (rows ++ r ∷ []) h)
      ∙ ap (λ rs'. record { rows = rs'; row = []; field = [] }) (append_assoc rows (r ∷ []) rs)

  -- A table of rows none of which is a single empty field is read back from its print, whatever
  -- commas, quotes and line ends its fields hold, and whichever fields the writer quotes besides
  -- those that need it.
  pub parse_rows-print_rows :
      (rs : List (List Text)) → All IsRow rs → parse_rows (print_rows w rs) ≡ rs
  unfolding parse_rows
  parse_rows-print_rows rs h = rw (scan_rows rs [] h) refl

  -- So the parser returns the objects of the table.
  pub parse_csv-print_rows :
      (lower : Text → Text) (rs : List (List Text))
      → All IsRow rs
      → parse_csv lower (print_rows w rs) ≡ objects lower rs
  unfolding parse_csv
  parse_csv-print_rows lower rs h = ap (objects lower) (parse_rows-print_rows rs h)
