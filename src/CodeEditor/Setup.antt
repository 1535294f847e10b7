-- ===== src/CodeEditor/Setup.antt =====
-- frontend/src/components/CodeEditor.tsx: the editor that is made when the component mounts, its
-- extensions, and the listener that hands changes to the caller.
use gourl.Common.{
  Bool, true, false, ◌&&◌, not, if◌then◌else◌, Option, none, some, List, [], ◌∷◌, ◌++◌, Text, codes,
  same, same_refl, is_empty, Bool-cases, inl, inr, ◌≡◌, refl,
}
use gourl.CodeEditor.{CodeMirror, Editor, no_marks, sync_value, update}

-- The extensions that the editor is made with; `extra` is one of the caller's.
pub data Extension (E : Type 0) : Type 0 where
  editor_class : Text → Extension E
  content_label : Text → Extension E
  basic_setup error_field error_lines error_markers update_listener : Extension E
  placeholder : Text → Extension E
  extra : E → Extension E

module _ {E : Type 0} where
  abbrev pub label_part : Option Text → List (Extension E)
  label_part none = []
  label_part (some label) = if is_empty label then [] else content_label label ∷ []

  abbrev pub placeholder_part : Option Text → List (Extension E)
  placeholder_part none = []
  placeholder_part (some text) = placeholder text ∷ []

  abbrev pub extra_part : List E → List (Extension E)
  extra_part [] = []
  extra_part (e ∷ es) = extra e ∷ extra_part es

  unfoldable pub extensions : Option Text → Option Text → List E → List (Extension E)
  extensions aria_label text given =
      editor_class (codes "batch-editor") ∷ label_part aria_label
      ++ (basic_setup ∷ error_field ∷ error_lines ∷ error_markers ∷ update_listener ∷ [])
      ++ placeholder_part text
      ++ extra_part given

-- The calls of the caller's functions.
pub data EditorCall : Type 0 where
  on_change : Text → EditorCall
  on_blur : EditorCall

module _ (cm : CodeMirror) where
  pub record ViewUpdate : Type 0 where
    pub doc : cm.Doc
    pub doc_changed : Bool
    pub focus_changed : Bool
    pub has_focus : Bool

  -- The listener; `blur` is whether the caller of the last render gave an `onBlur`.
  unfoldable pub on_update : Bool → ViewUpdate → List EditorCall
  on_update blur u =
      (if u.doc_changed then on_change (cm.to_text u.doc) ∷ [] else [])
      ++ (if u.focus_changed && not u.has_focus && blur then on_blur ∷ [] else [])

  -- The effect of the first render: a view with the value, if the container is there.
  unfoldable pub mount : Bool → Text → Option (Editor cm)
  mount parent value =
      if not parent then none else some (record { doc = cm.of_text value; marks = no_marks cm })

  -- The value that the caller keeps after the calls of `onChange`.
  abbrev last_value : Text → List Text → Text
  last_value value [] = value
  last_value value (v ∷ vs) = last_value v vs

  module _ (whole : cm.Doc → Text → cm.Change) where
    sync_value-same :
        (value : Text) (v : Editor cm)
        → same (cm.to_text v.doc) value ≡ true
        → sync_value cm whole value (some v) ≡ (some v, [])
    unfolding sync_value
    sync_value-same value v e = rw (e) refl

    abbrev replaced : Text → Editor cm → Editor cm
    replaced value v = record {
      doc = cm.of_text value;
      marks =
          update cm v.marks
            (record { changes = some (whole v.doc value); doc = cm.of_text value; effects = [] });
    }

    sync_value-changed :
        (value : Text) (v : Editor cm)
        → same (cm.to_text v.doc) value ≡ false
        → sync_value cm whole value (some v)
          ≡ (some (replaced value v), cm.to_text (cm.of_text value) ∷ [])
    unfolding sync_value
    sync_value-changed value v e = rw (e) refl

    -- Once the caller has stored what `onChange` gave back, the value's effect changes nothing
    -- more, also where CodeMirror reads the given text as another one.
    sync_value_settles :
        (value : Text) (v : Editor cm)
        → let (editor, calls) = sync_value cm whole value (some v) in
          sync_value cm whole (last_value value calls) editor ≡ (editor, [])
    sync_value_settles value v = elim (Bool-cases (same (cm.to_text v.doc) value)) [
      | inl e ↦ rw (sync_value-same value v e) (sync_value-same value v e)
      | inr e ↦
          rw (sync_value-changed value v e)
            (sync_value-same _ (replaced value v) (same_refl (cm.to_text (cm.of_text value))))
    ]
