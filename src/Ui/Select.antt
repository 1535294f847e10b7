-- ===== src/Ui/Select.antt =====
-- `Select`: a list of options in a panel that is closed with an animation.
use gourl.Common.{
  ℕ, ◌+◌, Bool, true, false, ◌||◌, if◌then◌else◌, Option, none, some, is_some, List, [], ◌∷◌, Text,
  same, ◌≡◌, arith,
}

pub record Panel : Type 0 where
  pub top : ℕ
  pub left : ℕ
  pub width : ℕ

-- `timer` says whether the timer of the exit animation is set.
pub record Select : Type 0 where
  pub is_open : Bool
  pub closing : Bool
  pub pos : Option Panel
  pub timer : Bool

unfoldable pub close : Select → Select
close s = if s.closing then s else record s { closing = true; timer = true }

unfoldable pub timer_fires : Select → Select
timer_fires s = if s.timer then record s { is_open = false; closing = false; timer = false } else s

-- The button's rectangle: `bottom`, `left` and `width`, if it is there.
unfoldable pub toggle : Option Panel → Select → Select
toggle rect s = if s.is_open then close s else elim rect [
  | none ↦ record s { is_open = true }
  | some r ↦ record s {
    pos = some (record { top = r.top + 6; left = r.left; width = r.width });
    is_open = true;
  }
]

-- A press of the mouse, in the button or the panel or outside of both.
unfoldable pub on_down : Bool → Select → Select
on_down inside s = if s.is_open then (if inside then s else close s) else s

-- Scrolling or resizing.
unfoldable pub on_scroll : Select → Select
on_scroll s = if s.is_open then close s else s

-- An option is clicked: what `onChange` is given, and the state.
unfoldable pub pick : Text → Select → Text × Select
pick value s = (value, close s)

unfoldable pub shows_panel : Select → Bool
shows_panel s = if s.is_open || s.closing then is_some s.pos else false

pub record Choice : Type 0 where
  pub value : Text
  pub label : Text

unfoldable pub current_label : Text → List Choice → Option Text
current_label value [] = none
current_label value (o ∷ options) =
    if same o.value value then some o.label else current_label value options

pub data Event : Type 0 where
  toggled : Option Panel → Event
  pressed : Bool → Event
  scrolled timeout : Event
  picked : Text → Event

unfoldable pub on_event : Event → Select → Select
on_event (toggled rect) s = toggle rect s
on_event (pressed inside) s = on_down inside s
on_event scrolled s = on_scroll s
on_event timeout s = timer_fires s
on_event (picked value) s = (pick value s).1

unfoldable pub on_events : List Event → Select → Select
on_events [] s = s
on_events (e ∷ es) s = on_events es (on_event e s)

-- The panel closes exactly while its timer is set, and only an open one closes; an option can be
-- clicked only in a panel that is open.
abbrev pub IsSettled : Select → Type 0
IsSettled s = (s.closing ≡ s.timer) × ((if s.closing then s.is_open else true) ≡ true)

abbrev pub Fits : Event → Select → Type 0
Fits (picked value) s = s.is_open ≡ true
Fits e s = Unit

abbrev pub AllFit : List Event → Select → Type 0
AllFit [] s = Unit
AllFit (e ∷ es) s = Fits e s × AllFit es (on_event e s)

close-IsSettled : (s : Select) → s.is_open ≡ true → IsSettled s → IsSettled (close s)
unfolding close
close-IsSettled s o (h, k) = (ground (arith, o, h, k), ground (arith, o, h, k))

on_event-IsSettled : (e : Event) (s : Select) → Fits e s → IsSettled s → IsSettled (on_event e s)
unfolding on_event toggle on_down on_scroll timer_fires pick close
on_event-IsSettled (toggled none) s fits (h, k) = (ground (arith, h, k), ground (arith, h, k))
on_event-IsSettled (toggled (some r)) s fits (h, k) = (ground (arith, h, k), ground (arith, h, k))
on_event-IsSettled (pressed inside) s fits (h, k) = (ground (arith, h, k), ground (arith, h, k))
on_event-IsSettled scrolled s fits (h, k) = (ground (arith, h, k), ground (arith, h, k))
on_event-IsSettled timeout s fits (h, k) = (ground (arith, h, k), ground (arith, h, k))
on_event-IsSettled (picked value) s fits h = close-IsSettled s fits h

-- Whatever is clicked, scrolled and timed out, options only while the panel is open: the panel
-- plays its exit exactly while the timer is set that ends it, and only a panel that is open does.
pub select-IsSettled :
    (es : List Event) (s : Select) → AllFit es s → IsSettled s → IsSettled (on_events es s)
unfolding on_events
select-IsSettled [] s fits h = h
select-IsSettled (e ∷ es) s (fit, fits) h =
    select-IsSettled es (on_event e s) fits (on_event-IsSettled e s fit h)
