-- ===== src/Backend/Logs/History.antt =====
-- The pages of the history that internal/api/logs.go answers from the log file, and the log page
-- that loads them (frontend/src/pages/Logs.tsx).
use gourl.Common.{
  ◌-◌, leb, ◌==◌, min, length, length-map, length-append, length-take, ◌+◌, ℕ, zero, suc, ◌≤◌, true,
  false, Option, none, some, List, [], ◌∷◌, ◌++◌, map, Text, Lacks, is_empty, take, drop, split,
  split_first, All, All-append, ◌≡◌, refl, ap, ◌∙◌, arith,
}
use gourl.Platform.{pos}
use gourl.Api.Stream.{newline}
use gourl.Api.Types.{resolved}
use gourl.Logs.{Logs, LogHistory, reversed, more_loaded}
use gourl.Logs.History.{ShowsNewest, more_loaded-ShowsNewest}
use gourl.Backend.Export.{with_lines}
use gourl.Backend.Logs.{content, clamp_limit, drop_last_empty, read_back, read_history, log_history}

-- A line that the log writes: not empty, and without a line end.
abbrev pub IsLogged : Text → Type 0
IsLogged line = (is_empty line ≡ false) × Lacks newline line

split-with_lines :
    (lines : List Text)
    → All IsLogged lines
    → split newline (with_lines lines []) ≡ lines ++ [] ∷ []
unfolding split
split-with_lines [] h = refl
split-with_lines (l ∷ lines) ((k, lacks), h) =
    split_first newline l (with_lines lines []) lacks ∙ ap (λ ls. l ∷ ls) (split-with_lines lines h)

dropped-end : (lines : List Text) → drop_last_empty (lines ++ [] ∷ []) ≡ lines
dropped-end [] = refl
dropped-end (l ∷ []) = refl
dropped-end (l ∷ l' ∷ lines) = ap (λ ls. l ∷ ls) (dropped-end (l' ∷ lines))

reversed-All : (lines : List Text) → All IsLogged lines → All IsLogged (reversed lines)
unfolding reversed
reversed-All [] h = tt
reversed-All (l ∷ lines) (k, h) =
    All-append IsLogged (reversed lines) (l ∷ []) (reversed-All lines h) (k, tt)

drop-All : (n : ℕ) (lines : List Text) → All IsLogged lines → All IsLogged (drop n lines)
drop-All zero lines h = h
drop-All (suc n) [] h = tt
drop-All (suc n) (l ∷ lines) (k, h) = drop-All n lines h

length-reversed : (lines : List Text) → length (reversed lines) ≡ length lines
unfolding reversed
length-reversed [] = refl
length-reversed (l ∷ lines) =
    let ih = length-reversed lines in omega (arith, ih, length-append {0} (reversed lines))

all_room : (m n : ℕ) → (min m n == m) ≡ leb m n
all_room m n = ground arith

module _ {R : Type 0} where
  length-drop : (n : ℕ) (rs : List R) → length (drop n rs) ≡ length rs - n
  length-drop zero rs = omega arith
  length-drop (suc n) [] = omega arith
  length-drop (suc n) (r ∷ rs) = let ih = length-drop n rs in omega (arith, ih)

module _ {R : Type 0} (parse_line : Text → R) where
  map-drop :
      (n : ℕ) (lines : List Text) → map parse_line (drop n lines) ≡ drop n (map parse_line lines)
  map-drop zero lines = refl
  map-drop (suc n) [] = refl
  map-drop (suc n) (l ∷ lines) = map-drop n lines

  -- The records of the file, the newest first.
  abbrev pub newest : List Text → List R
  newest lines = map parse_line (reversed lines)

  read_back-take :
      (n : ℕ) (lines : List Text)
      → All IsLogged lines
      → read_back parse_line n lines ≡ take n (map parse_line lines)
  unfolding read_back
  read_back-take zero [] h = refl
  read_back-take (suc n) [] h = refl
  read_back-take zero (l ∷ lines) h = refl
  read_back-take (suc n) (l ∷ lines) ((full, _), h) =
      rw (full, read_back) (ap (λ rs. parse_line l ∷ rs) (read_back-take n lines h))

  clamp_within : (n : ℕ) → 1 ≤ n → n ≤ 1000 → clamp_limit (pos n) ≡ n
  clamp_within n low high = ground (arith, low, high)

  read_history-take :
      (lines : List Text) (m n : ℕ)
      → All IsLogged lines
      → 1 ≤ m
      → m ≤ 1000
      → read_history parse_line (content (with_lines lines [])) (pos m) (pos n)
        ≡ some (take m (drop n (newest lines)))
  unfolding read_history
  read_history-take lines m n h low high =
      rw
        (
          split-with_lines lines h,
          dropped-end lines,
          clamp_within m low high,
          read_back-take m (drop n (reversed lines))
              (drop-All n (reversed lines) (reversed-All lines h)),
          map-drop n (reversed lines),
        )
        refl

  length-newest : (lines : List Text) → length (newest lines) ≡ length lines
  length-newest lines = length-map parse_line (reversed lines) ∙ length-reversed lines

  page_size :
      (lines : List Text) (m n : ℕ)
      → length (take m (drop n (newest lines))) ≡ min m (length lines - n)
  page_size lines m n =
      length-take m (drop n (newest lines))
      ∙ ap (min m) (length-drop n (newest lines) ∙ ap (λ k. k - n) (length-newest lines))

  -- The answer with the records that are read.
  abbrev page_of : Option (List R) → Option (LogHistory R)
  page_of none = none
  page_of (some records) = some (record { available = true; records = records })

  -- The answer for a page of 1 to 1000 records.
  log_history-answer :
      (lines : List Text) (m n : ℕ)
      → All IsLogged lines
      → 1 ≤ m
      → m ≤ 1000
      → log_history parse_line (content (with_lines lines [])) (pos m) (pos n)
        ≡ some (record { available = true; records = take m (drop n (newest lines)) })
  unfolding log_history
  log_history-answer lines m n h low high =
      ap (λ k. page_of (read_history parse_line (content (with_lines lines [])) (pos k) (pos n)))
        (clamp_within m low high)
      ∙ ap page_of (read_history-take lines m n h low high)

  -- The next older records are put before those shown, 200 or all that are left, and the newest
  -- records of the file are shown again; there is more to load where 200 were left.
  abbrev pub IsExtended : List Text → Logs R → Logs R → Type 0
  IsExtended lines y y' =
      let left = length lines - y.history_offset in
      (y'.records ≡ reversed (take 200 (drop y.history_offset (newest lines))) ++ y.records)
      × (y'.history_offset ≡ y.history_offset + min 200 left)
      × (y'.has_more ≡ leb 200 left)
      × ShowsNewest (newest lines) y'

  -- "Load more" on the log page with the page of 200 records that the server reads back from its
  -- log file, while nothing is logged and no line of the file is empty. Where the page shows the
  -- newest records of the file, as many as it has loaded, the next older ones are put before them:
  -- 200, or all that are left where there are fewer. Then it shows the newest records again, without
  -- a gap and without a repetition, and offers more exactly if 200 were left.
  pub more_loaded-log_history :
      (lines : List Text) (y : Logs R)
      → All IsLogged lines
      → ShowsNewest (newest lines) y
      → (page : LogHistory R) × (log_history parse_line
            (content (with_lines lines []))
            (pos 200)
            (pos y.history_offset)
          ≡ some page)
        × IsExtended lines y (more_loaded (resolved page) y).0
  unfolding more_loaded
  more_loaded-log_history lines y h shows =
      let size = page_size lines 200 y.history_offset in
      (
        record { available = true; records = take 200 (drop y.history_offset (newest lines)) },
        log_history-answer lines 200 y.history_offset h (omega arith) (omega arith),
        (
          refl,
          ap (λ k. y.history_offset + k) size,
          ap (λ k. k == 200) size ∙ all_room 200 (length lines - y.history_offset),
          more_loaded-ShowsNewest (newest lines) y shows,
        ),
      )
