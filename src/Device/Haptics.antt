-- ===== src/Device/Haptics.antt =====
-- frontend/src/lib/haptics.ts: which clicks are felt.
use gourl.Common.{
  Bool, true, false, ◌||◌, not, if◌then◌else◌, Option, none, some, Text, codes, same, includes,
  List, [], ◌∷◌, ◌≡◌, arith,
}
use gourl.Api.Storage.{Storage}
use gourl.Device.Settings.{haptics_enabled}

-- The closest `a` or `button` around the target of a click. The origin of an anchor is that of
-- `new URL(el.href, location.href)`, none where this throws.
pub data Control : Type 0 where
  button : Option Text → Control
  anchor : Text → Option Text → Control

unfoldable pub is_external_anchor : Text → Text → Option Text → Bool
is_external_anchor location target origin =
    if same target (codes "_blank") || same target (codes "_system")
    then true
    else elim origin [ none ↦ true | some o ↦ not (same o location) ]

abbrev pub skip_roles : List Text
skip_roles = codes "switch" ∷ codes "checkbox" ∷ []

abbrev pub is_skipped : Option Text → Bool
is_skipped none = false
is_skipped (some role) = includes skip_roles role

-- `buttonHaptic`: whether the bridge is called, if there is one.
unfoldable pub button_haptic : Bool → Storage → Bool
button_haptic is_app s = if not (haptics_enabled s) then false else is_app

-- `handleInteractiveClick`; `none` where the click is on no control.
unfoldable pub handle_interactive_click : Text → Bool → Storage → Option Control → Bool
handle_interactive_click location is_app s none = false
handle_interactive_click location is_app s (some (button role)) =
    if is_skipped role then false else button_haptic is_app s
handle_interactive_click location is_app s (some (anchor target origin)) =
    if is_external_anchor location target origin then false else button_haptic is_app s

-- With the haptics setting off, and in a browser, no click is felt.
pub click_gated :
    (location : Text) (is_app : Bool) (s : Storage) (control : Option Control)
    → handle_interactive_click location is_app s control ≡ true
    → (is_app ≡ true) × (haptics_enabled s ≡ true)
unfolding handle_interactive_click button_haptic
click_gated location is_app s none h = absurd (cc h)
click_gated location is_app s (some (button role)) h = (ground (arith, h), ground (arith, h))
click_gated location is_app s (some (anchor target origin)) h =
    (ground (arith, h), ground (arith, h))
