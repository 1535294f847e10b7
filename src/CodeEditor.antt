-- ===== src/CodeEditor.antt =====
-- frontend/src/components/CodeEditor.tsx: the marks of the refused lines, and the two effects that
-- keep the editor in step with its caller. CodeMirror's document, its changes and its sets of
-- ranges are parameters.
pub mod Flags
pub mod Highlight
pub mod Progress
pub mod Setup
use gourl.Common.{
  ℕ, Bool, true, false, ◌||◌, not, ltb, if◌then◌else◌, Option, none, some, List, [], ◌∷◌, Text,
  same, map, keep, or_else,
}

-- What the model uses of CodeMirror: documents with their lines, numbered from 1, changes, and the
-- sets that are built of positions and follow a change.
pub record CodeMirror : Type 1 where
  pub Doc : Type 0
  pub Change : Type 0
  pub Ranges : Type 0
  pub to_text : Doc → Text
  pub of_text : Text → Doc
  pub lines : Doc → ℕ
  pub from : Doc → ℕ → ℕ
  pub no_ranges : Ranges
  pub range_set : List ℕ → Ranges
  pub mapped : Change → Ranges → Ranges

-- An effect of a transaction: the numbers of `setErrorLines`, or one of another kind.
pub data StateEffect : Type 0 where
  set_error_lines : List ℕ → StateEffect
  other_effect : StateEffect

module _ (cm : CodeMirror) where
  -- The value of `errorField`.
  pub record Marks : Type 0 where
    pub lines : cm.Ranges
    pub markers : cm.Ranges

  -- `changes` is there where `docChanged` is; `doc` is the document after the transaction.
  pub record Transaction : Type 0 where
    pub changes : Option cm.Change
    pub doc : cm.Doc
    pub effects : List StateEffect

  abbrev pub no_marks : Marks
  no_marks = record { lines = cm.no_ranges; markers = cm.no_ranges }

  -- The positions of the lines with the given numbers; a number without a line is passed over.
  unfoldable pub positions : cm.Doc → List ℕ → List ℕ
  positions doc [] = []
  positions doc (n ∷ ns) =
      if ltb n 1 || ltb (cm.lines doc) n then positions doc ns else cm.from doc n ∷ positions doc ns

  abbrev pub move : Option cm.Change → Marks → Marks
  move none v = v
  move (some ch) v = record { lines = cm.mapped ch v.lines; markers = cm.mapped ch v.markers }

  -- The first effect with line numbers replaces both sets.
  unfoldable pub apply_effects : cm.Doc → List StateEffect → Marks → Marks
  apply_effects doc [] v = v
  apply_effects doc (other_effect ∷ es) v = apply_effects doc es v
  apply_effects doc (set_error_lines ns ∷ es) v = record {
    lines = cm.range_set (positions doc ns);
    markers = cm.range_set (positions doc ns);
  }

  unfoldable pub update : Marks → Transaction → Marks
  update v tr = apply_effects tr.doc tr.effects (move tr.changes v)

  -- The editor's view, when it is there.
  pub record Editor : Type 0 where
    pub doc : cm.Doc
    pub marks : Marks

  -- The effect on a new value: the document is replaced where its text differs, and the listener
  -- hands the new text to the caller. `whole` is the change that replaces it all.
  unfoldable pub sync_value :
      (cm.Doc → Text → cm.Change) → Text → Option Editor → Option Editor × List Text
  sync_value whole value none = (none, [])
  sync_value whole value (some v) =
      if not (same (cm.to_text v.doc) value)
      then (
        some (record {
          doc = cm.of_text value;
          marks =
              update v.marks (record {
                changes = some (whole v.doc value);
                doc = cm.of_text value;
                effects = [];
              });
        }),
        cm.to_text (cm.of_text value) ∷ [],
      )
      else (some v, [])

  -- The effect on new line numbers; without any the marks are cleared.
  unfoldable pub sync_errors : Option (List ℕ) → Option Editor → Option Editor
  sync_errors error_lines none = none
  sync_errors error_lines (some v) = some (record v {
    marks = update v.marks (record {
      changes = none;
      doc = v.doc;
      effects = set_error_lines (or_else error_lines []) ∷ [];
    });
  })
