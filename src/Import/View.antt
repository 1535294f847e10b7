-- ===== src/Import/View.antt =====
-- What the import dialog of frontend/src/components/ImportDialog.tsx shows.
use gourl.Common.{
  false, ◌||◌, if◌then◌else◌, none, List, [], ◌∷◌, Text, codes, is_empty, trim, same,
}
use gourl.Api.Types.{t, Message}
use gourl.Markup.{Node, text, button, input, select}
use gourl.Import.{Dialog, Conflict, error, skip, update}

pub data Event : Type 0 where
  pick_file cancelled submitted : Event
  typed : Text → Event
  chosen : Conflict → Event

abbrev pub conflict_name : Conflict → Text
conflict_name error = codes "error"
conflict_name skip = codes "skip"
conflict_name update = codes "update"

-- The options have the three names as their values.
abbrev conflict_of : Text → Conflict
conflict_of name =
    if same name (codes "skip") then skip else if same name (codes "update") then update else error

abbrev conflict_options : List (Text × Message)
conflict_options =
    (conflict_name error, t "form.conflictError")
    ∷ (conflict_name skip, t "form.conflictSkip")
    ∷ (conflict_name update, t "form.conflictUpdate")
    ∷ []

-- The editor is shown as a field.
unfoldable pub view : Dialog → List (Node Event)
view d =
    text (t "form.importTitle")
    ∷ text (t "form.importHint")
    ∷ button (t "form.importFromFile") false pick_file
    ∷ input (t "form.importHint") d.text typed none
    ∷ select (t "form.importConflict") (conflict_name d.conflict) conflict_options
        (λ name. chosen (conflict_of name))
    ∷ button (t "form.cancel") false cancelled
    ∷ button (t "form.create") (d.busy || is_empty (trim d.text)) submitted
    ∷ []

-- What an event changes at once.
unfoldable pub on_event : Event → Dialog → Dialog
on_event (typed s) d = record d { text = s }
on_event (chosen c) d = record d { conflict = c }
on_event _ d = d
