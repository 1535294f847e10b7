-- ===== src/Ui/Controls.antt =====
-- The drawn controls of frontend/src/components/ui.tsx: what their clicks do and what they show.
use gourl.Common.{
  ℕ, suc, Bool, false, not, ◌==◌, if◌then◌else◌, Option, none, some, or_else, List, [], ◌∷◌, Text,
  codes, same, length,
}
use gourl.Platform.{ℤ}
use gourl.Api.Types.{Kind, plain}
use gourl.Api.Storage.{Storage}
use gourl.Device.Settings.{haptics_enabled}
use gourl.Markup.{Node, button, when}
use gourl.Ui.Select.{Select, Choice, shows_panel, current_label}
use gourl.Ui.Toasts.{Toast, margin_bottom}

-- The variants of a button and their classes.
pub data ButtonVariant : Type 0 where
  primary ghost danger outline : ButtonVariant

unfoldable pub button_style : ButtonVariant → Text
button_style primary =
    codes "bg-accent text-white hover:bg-accent-deep shadow-[0_4px_14px_rgba(245,158,11,0.35)]"
button_style ghost = codes "text-ink dark:text-ink-dark hover:bg-black/5 dark:hover:bg-white/10"
button_style danger = codes "bg-danger/10 text-danger hover:bg-danger/20"
button_style outline = codes "border border-hairline hover:bg-black/5 dark:hover:bg-white/10"

-- `variant = 'primary'`
unfoldable pub style_of : Option ButtonVariant → Text
style_of variant = button_style (or_else variant primary)

-- A click on a checkbox: what `onChange` is given, and whether the check is drawn.
unfoldable pub click_checkbox : Bool → Bool
click_checkbox checked = not checked

unfoldable pub draws_check : Bool → Bool
draws_check checked = checked

-- `switchHaptic`: the tick that the bridge is asked for, if it is; `bridge` says whether the
-- bridge has the method.
unfoldable pub switch_haptic : Bool → Bool → Storage → Bool → Option Bool
switch_haptic is_app bridge s on =
    if not (haptics_enabled s)
    then none
    else if not is_app
    then none
    else if bridge
    then some on
    else none

-- A click on a switch: what `onChange` is given, then the tick, which reads the storage as
-- `onChange` left it.
unfoldable pub click_switch :
    Bool → Bool → (Bool → Storage → Storage) → Bool → Storage → Storage × Option Bool
click_switch is_app bridge on_change checked s =
    let after = on_change (not checked) s in
    (after, switch_haptic is_app bridge after (not checked))

-- Where the knob stands, and how much of its check is drawn.
unfoldable pub knob_x : Bool → ℕ
knob_x checked = if checked then 23 else 3

unfoldable pub path_length : Bool → ℕ
path_length checked = if checked then 1 else 0

-- The select's own click, and the choice of an option.
pub data SelectEvent : Type 0 where
  toggle_clicked : SelectEvent
  option_clicked : Text → SelectEvent

abbrev label_text : Option Text → Text
label_text none = []
label_text (some s) = s

abbrev option_nodes : List Choice → List (Node SelectEvent)
option_nodes [] = []
option_nodes (o ∷ options) =
    button (plain o.label) false (option_clicked o.value) ∷ option_nodes options

unfoldable pub select_nodes : Text → List Choice → Select → List (Node SelectEvent)
select_nodes shown options s =
    button (plain (label_text (current_label shown options))) false toggle_clicked
    ∷ when (shows_panel s) (option_nodes options)

-- The check mark of an option.
unfoldable pub is_picked : Text → Choice → Bool
is_picked shown o = same o.value shown

-- A card of the pile: its place, its distance to the next, its kind and its text. `i` counts the
-- cards from the oldest.
pub record ToastCard : Type 0 where
  pub z_index : ℕ
  pub margin : ℤ
  pub id : ℕ
  pub kind : Kind
  pub message : Text

abbrev height_of : ℕ → List (ℕ × ℕ) → Option ℕ
height_of id [] = none
height_of id ((k, h) ∷ heights) = if k == id then some h else height_of id heights

unfoldable pub cards_from : Bool → List (ℕ × ℕ) → ℕ → List Toast → List ToastCard
cards_from expanded heights i [] = []
cards_from expanded heights i (x ∷ xs) =
    record {
      z_index = suc i;
      margin = margin_bottom (length xs == 0) expanded (height_of x.id heights);
      id = x.id;
      kind = x.kind;
      message = x.message;
    }
    ∷ cards_from expanded heights (suc i) xs
