-- ===== src/CodeEditor/Flags.antt =====
-- The batch-create dialog and its editor: frontend/src/components/CodeEditor.tsx marks the lines
-- that `validate` of frontend/src/components/BatchCreateDialog.tsx refuses.
use gourl.Common.{
  ℕ, zero, suc, ◌≤◌, false, ◌||◌, ltb, ◌==◌, ==_iff, Option, none, some, List, [], ◌∷◌, Text, split,
  length, get_elem?, map, All, ◌≡◌, refl, ◌∙◌, sym, ap, arith, Bool-cases, inl, inr,
}
use gourl.Platform.{Url, ℤ}
use gourl.Platform.Calendar.{Date}
use gourl.Batch.{Reason}
use gourl.BatchDialog.{ErrorLine, newline, validate}
use gourl.BatchDialog.Numbers.{reason_at, fault_of_line, validate-reason_at}
use gourl.CodeEditor.{CodeMirror, Marks, Editor, positions, update, apply_effects, sync_errors}

abbrev pub number_of : ErrorLine → ℕ
number_of e = e.line

-- A number of one of so many lines.
abbrev IsLine : ℕ → ℕ → Type 0
IsLine count n = (1 ≤ n) × (n ≤ count)

get_elem?-none : {A : Type 0} (xs : List A) (i : ℕ) → length xs ≤ i → get_elem? xs i ≡ none
get_elem?-none [] i h = refl
get_elem?-none (x ∷ xs) zero h = absurd (omega (arith, h))
get_elem?-none (x ∷ xs) (suc i) h = get_elem?-none xs i (omega (arith, h))

module _ (parse_url : Text → Option Url) (get_time : Date → ℤ) where
  fault_of_line-IsLine :
      (lines : List Text) (n : ℕ) (r : Reason)
      → fault_of_line parse_url get_time lines n ≡ some r
      → IsLine (length lines) n
  unfolding fault_of_line
  fault_of_line-IsLine lines zero r h = absurd (cc h)
  fault_of_line-IsLine lines (suc i) r h = elim (Bool-cases (ltb i (length lines))) [
    | inl e ↦ (omega arith, ground (arith, e))
    | inr e ↦
        let gone = get_elem?-none lines i (ground (arith, e)) in
        let nothing : fault_of_line parse_url get_time lines (suc i) ≡ none =
          rw (gone, fault_of_line) refl in
        absurd (cc (nothing, h))
  ]

  -- Whatever holds of each number with a reason holds of all numbers.
  listed :
      (P : ℕ → Type 0) (es : List ErrorLine)
      → ((n : ℕ) (r : Reason) → reason_at es n ≡ some r → P n)
      → All P (map number_of es)
  unfolding reason_at
  listed P [] h = tt
  listed P (e ∷ es) h = (
    h e.line e.reason (rw ((==_iff e.line e.line).1 refl, reason_at) refl),
    listed P es (λ n r k. elim (Bool-cases (e.line == n)) [
      | inl m ↦ h n e.reason (rw (m, reason_at) refl)
      | inr m ↦ h n r (rw (m, reason_at) k)
    ]),
  )

  validate-IsLine :
      (value : Text)
      → All
          (IsLine (length (split newline value)))
          (map number_of (validate parse_url get_time value).error_lines)
  validate-IsLine value = listed _ _ (λ n r h.
      fault_of_line-IsLine (split newline value) n r
        (sym (validate-reason_at parse_url get_time value n) ∙ h))

module _ (cm : CodeMirror) where
  positions_all :
      (doc : cm.Doc) (ns : List ℕ)
      → All (IsLine (cm.lines doc)) ns
      → positions cm doc ns ≡ map (cm.from doc) ns
  unfolding positions
  positions_all doc [] h = refl
  positions_all doc (n ∷ ns) ((low, high), h) =
      let inside : ltb n 1 || ltb (cm.lines doc) n ≡ false = ground (arith, low, high) in
      rw (inside, positions) (ap (λ ps. cm.from doc n ∷ ps) (positions_all doc ns h))

  -- The marks that stand at the starts of the lines with the given numbers.
  unfoldable pub marks_at : cm.Doc → List ℕ → Marks cm
  marks_at doc ns = record {
    lines = cm.range_set (map (cm.from doc) ns);
    markers = cm.range_set (map (cm.from doc) ns);
  }

  -- When the editor's document has the lines of the validated text, the editor marks every line
  -- that the validation refuses, in both of its sets, and none else, whatever was marked before.
  pub sync_errors-validate :
      (parse_url : Text → Option Url) (get_time : Date → ℤ) (value : Text) (v : Editor cm)
      → cm.lines v.doc ≡ length (split newline value)
      → sync_errors cm
          (some (map number_of (validate parse_url get_time value).error_lines))
          (some v)
        ≡ some (record {
          doc = v.doc;
          marks = marks_at v.doc (map number_of (validate parse_url get_time value).error_lines);
        })
  unfolding sync_errors update apply_effects marks_at
  sync_errors-validate parse_url get_time value v h =
      let ns = map number_of (validate parse_url get_time value).error_lines in
      let at = positions_all v.doc ns (rw (h) (validate-IsLine parse_url get_time value)) in
      rw (at) refl
