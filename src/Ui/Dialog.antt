-- ===== src/Ui/Dialog.antt =====
-- `Dialog`: mounting, the exit animation, and its timer.
use gourl.Common.{Bool, true, false, if◌then◌else◌, List, [], ◌∷◌, ◌≡◌, refl, arith}

-- `timer` says whether the 180 ms timer of the exit animation is set.
pub record Dialog : Type 0 where
  pub is_open : Bool
  pub rendered : Bool
  pub closing : Bool
  pub timer : Bool

-- `useState(open)`
abbrev pub mounted : Bool → Dialog
mounted is_open = record { is_open = is_open; rendered = is_open; closing = false; timer = false }

-- The effect on `[open, rendered]`, after the cleanup of its former run cleared the timer.
unfoldable pub exit_effect : Dialog → Dialog
exit_effect d =
    if d.is_open
    then record d { rendered = true; closing = false; timer = false }
    else if d.rendered
    then record d { closing = true; timer = true }
    else record d { timer = false }

-- The parent passes another `open`.
unfoldable pub set_open : Bool → Dialog → Dialog
set_open is_open d = exit_effect (record d { is_open = is_open })

-- The timer of the exit animation; without one nothing happens.
unfoldable pub timer_fires : Dialog → Dialog
timer_fires d = if d.timer then exit_effect (record d { rendered = false; timer = false }) else d

-- A key that is pressed, `Escape` or another: whether `onClose` is called.
unfoldable pub on_key : Bool → Dialog → Bool
on_key is_escape d = if d.is_open then is_escape else false

-- `document.body.style.overflow` is 'hidden' while the dialog is mounted.
unfoldable pub locks_scroll : Dialog → Bool
locks_scroll d = d.rendered

pub data Event : Type 0 where
  opened closed timeout : Event

unfoldable pub on_event : Event → Dialog → Dialog
on_event opened d = set_open true d
on_event closed d = set_open false d
on_event timeout d = timer_fires d

unfoldable pub on_events : List Event → Dialog → Dialog
on_events [] d = d
on_events (e ∷ es) d = on_events es (on_event e d)

-- An open dialog is mounted, is not closing and has no timer; one that is closed but mounted has
-- the timer that takes it down.
abbrev pub IsSettled : Dialog → Type 0
IsSettled d =
    (d.timer ≡ (if d.is_open then false else d.rendered))
    × ((if d.is_open then d.rendered else true) ≡ true)
    × ((if d.is_open then d.closing else false) ≡ false)

on_event-IsSettled : (e : Event) (d : Dialog) → IsSettled d → IsSettled (on_event e d)
unfolding on_event set_open timer_fires exit_effect
on_event-IsSettled opened d h = (refl, refl, refl)
on_event-IsSettled closed d h = (ground arith, ground arith, ground arith)
on_event-IsSettled timeout d (h, k, m) =
    (ground (arith, h, k, m), ground (arith, h, k, m), ground (arith, h, k, m))

-- However a dialog is opened and closed, also while it is still closing, no timer of a former
-- closing takes an open one down, and a closed one that is still mounted has its timer.
pub on_events-IsSettled : (es : List Event) (d : Dialog) → IsSettled d → IsSettled (on_events es d)
unfolding on_events
on_events-IsSettled [] d h = h
on_events-IsSettled (e ∷ es) d h = on_events-IsSettled es (on_event e d) (on_event-IsSettled e d h)
