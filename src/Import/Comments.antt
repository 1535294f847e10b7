-- ===== src/Import/Comments.antt =====
-- The comment lines that the exporter puts before a table.
use gourl.Common.{
  ℕ, true, false, not, List, [], ◌∷◌, ◌++◌, keep, Text, All, All-append, Lacks, split, join,
  split-join, join-split, split-ne-nil, onto_first, ◌≡◌, ◌≢◌, refl, ap, ◌∙◌, arith, Bool-cases, inl,
  inr, ==_iff, ◌==◌,
}
use gourl.Csv.{parse_csv, objects}
use gourl.Csv.RoundTrip.{Quoting, print_rows, IsRow, parse_csv-print_rows}
use gourl.Import.{strip_comments, is_comment, newline}

abbrev pub IsComment : Text → Type 0
IsComment line = (is_comment line ≡ true) × Lacks newline line

abbrev pub IsData : Text → Type 0
IsData line = is_comment line ≡ false

onto_first-Lacks :
    (c : ℕ) (ps : List Text)
    → c ≢ newline
    → All (Lacks newline) ps
    → All (Lacks newline) (onto_first c ps)
onto_first-Lacks c [] h k = ((h, tt), tt)
onto_first-Lacks c (p ∷ ps) h (k, ks) = ((h, k), ks)

split-Lacks : (s : Text) → All (Lacks newline) (split newline s)
unfolding split
split-Lacks [] = (tt, tt)
split-Lacks (c ∷ s) = elim (Bool-cases (c == newline)) [
  | inl e ↦ rw (e, split) (tt, split-Lacks s)
  | inr e ↦
      rw (e, split)
        (onto_first-Lacks c (split newline s) (λ same. ground (arith, e, (==_iff c newline).1 same))
          (split-Lacks s))
]

comments-Lacks : (metas : List Text) → All IsComment metas → All (Lacks newline) metas
comments-Lacks [] h = tt
comments-Lacks (m ∷ metas) ((_, k), h) = (k, comments-Lacks metas h)

keep_data : (ls : List Text) → All IsData ls → keep (λ l. not (is_comment l)) ls ≡ ls
keep_data [] h = refl
keep_data (l ∷ ls) (e, h) = rw e (ap (λ r. l ∷ r) (keep_data ls h))

keep_behind :
    (metas ls : List Text)
    → All IsComment metas
    → All IsData ls
    → keep (λ l. not (is_comment l)) (metas ++ ls) ≡ ls
keep_behind [] ls h k = keep_data ls k
keep_behind (m ∷ metas) ls ((e, _), h) k = rw e (keep_behind metas ls h k)

pub append-ne-nil : (metas ls : List Text) → ls ≢ [] → metas ++ ls ≢ []
append-ne-nil [] ls h = h
append-ne-nil (m ∷ metas) ls h = λ e. cc e

-- A text behind comment lines is read as it is, if none of its own lines starts with '#'.
pub strip_comments_behind :
    (metas : List Text) (text : Text)
    → All IsComment metas
    → All IsData (split newline text)
    → strip_comments (join (newline ∷ []) (metas ++ split newline text)) ≡ text
unfolding strip_comments
strip_comments_behind metas text h k =
    rw
      (
        split-join newline (metas ++ split newline text)
            (append-ne-nil metas (split newline text) (split-ne-nil newline text))
            (All-append (Lacks newline) metas (split newline text) (comments-Lacks metas h)
              (split-Lacks text)),
        keep_behind metas (split newline text) h k,
      )
      (join-split newline text)

-- A printed table behind comment lines is read back as its objects, if none of its rows is a
-- single empty field and no line of the print starts with '#'.
parse_csv-strip_comments :
    (w : Quoting) (lower : Text → Text) (metas : List Text) (rs : List (List Text))
    → All IsComment metas
    → All IsRow rs
    → All IsData (split newline (print_rows w rs))
    → parse_csv lower
        (strip_comments (join (newline ∷ []) (metas ++ split newline (print_rows w rs))))
      ≡ objects lower rs
parse_csv-strip_comments w lower metas rs h rows k =
    ap (parse_csv lower) (strip_comments_behind metas (print_rows w rs) h k)
    ∙ parse_csv-print_rows w lower rs rows
