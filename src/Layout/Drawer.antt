-- ===== src/Layout/Drawer.antt =====
-- The drawer of frontend/src/components/Layout.tsx and its swipe. Positions are whole pixels. The
-- timers that are set are a list, since a handler can set one while an earlier one still runs.
pub mod Swipe
pub mod Edge
use gourl.Common.{
  ℕ, suc, ◌+◌, ◌-◌, ◌*◌, ◌≤◌, ◌<◌, Bool, true, false, ◌&&◌, ◌||◌, not, ltb, leb, ◌==◌,
  if◌then◌else◌, Option, none, some, is_some, or_else, List, [], ◌∷◌, keep, ◌≡◌, refl, arith, min,
}

abbrev pub drawer_w : ℕ
drawer_w = 256

pub record Point : Type 0 where
  pub x : ℕ
  pub y : ℕ

-- What a timer does when it fires: the end of an opening or of a closing.
pub data Ending : Type 0 where
  opened closed : Ending

pub record Timer : Type 0 where
  pub id : ℕ
  pub ending : Ending

pub record Drawer : Type 0 where
  pub mobile_open : Bool
  pub mobile_closing : Bool
  pub drag_x : Option ℕ
  pub settle_to : Option ℕ
  pub drag_active : Bool
  pub committed : Bool
  pub drag_origin : Point
  pub drag_base : ℕ
  pub settle_timer : Option ℕ
  pub timers : List Timer
  pub next_id : ℕ

abbrev pub closed_drawer : Drawer
closed_drawer = record {
  mobile_open = false;
  mobile_closing = false;
  drag_x = none;
  settle_to = none;
  drag_active = false;
  committed = false;
  drag_origin = record { x = 0; y = 0 };
  drag_base = drawer_w;
  settle_timer = none;
  timers = [];
  next_id = 0;
}

-- `setTimeout`, whose id goes into the ref.
unfoldable pub set_timer : Ending → Drawer → Drawer
set_timer ending d = record d {
  settle_timer = some d.next_id;
  timers = record { id = d.next_id; ending = ending } ∷ d.timers;
  next_id = d.next_id + 1;
}

-- `if (settleTimerRef.current) { clearTimeout(…); settleTimerRef.current = null }`
unfoldable pub clear_timer : Drawer → Drawer
clear_timer d = elim d.settle_timer [
  | none ↦ d
  | some id ↦ record d { settle_timer = none; timers = keep (λ x. not (x.id == id)) d.timers }
]

-- The callback of a timer.
unfoldable pub end_animation : Ending → Drawer → Drawer
end_animation opened d = record d { settle_timer = none; settle_to = none }
end_animation closed d = record d {
  settle_timer = none;
  mobile_closing = false;
  mobile_open = false;
  settle_to = none;
}

abbrev pub first_ending : ℕ → List Timer → Option Ending
first_ending id [] = none
first_ending id (x ∷ timers) = if x.id == id then some x.ending else first_ending id timers

-- The timer `id` fires, if it was not cleared.
unfoldable pub timer_fires : ℕ → Drawer → Drawer
timer_fires id d = elim (first_ending id d.timers) [
  | none ↦ d
  | some ending ↦ end_animation ending (record d { timers = keep (λ x. not (x.id == id)) d.timers })
]

-- `touch.clientX < window.innerWidth * 0.7` in tenths; `touch` is none where there is no touch.
unfoldable pub on_touch_start : Option Point → ℕ → Bool → Bool → Drawer → Drawer
on_touch_start none inner_width in_table dialog_open d = d
on_touch_start (some touch) inner_width in_table dialog_open d =
    if leb 768 inner_width || in_table || dialog_open || ltb (10 * touch.x) (7 * inner_width)
    then d
    else record d { drag_origin = touch; drag_active = true; committed = false }

-- `Math.abs(a - b)`
abbrev pub distance : ℕ → ℕ → ℕ
distance a b = (a - b) + (b - a)

unfoldable pub commit : Drawer → Drawer
commit d = record (clear_timer d) {
  committed = true;
  drag_base =
      if d.mobile_closing || is_some d.settle_to
      then drawer_w
      else if d.mobile_open
      then 0
      else drawer_w;
  mobile_closing = false;
  settle_to = none;
  mobile_open = true;
}

-- `Math.max(0, Math.min(DRAWER_W, base - dx))` with `dx = origin.x - touch.x`
unfoldable pub dragged : ℕ → ℕ → ℕ → ℕ
dragged base origin_x touch_x = min drawer_w ((base + touch_x) - origin_x)

abbrev pub drag_to : Point → Drawer → Drawer
drag_to touch d = record d { drag_x = some (dragged d.drag_base d.drag_origin.x touch.x) }

unfoldable pub on_touch_move : Point → Drawer → Drawer
on_touch_move touch d =
    if not d.drag_active
    then d
    else if d.committed
    then drag_to touch d
    else let dx = distance d.drag_origin.x touch.x in
      let dy = distance d.drag_origin.y touch.y in
      if ltb dx 8 || ltb dx dy then d else drag_to touch (commit d)

unfoldable pub finish_gesture : Drawer → Drawer
finish_gesture d =
    if not d.drag_active
    then d
    else if not d.committed
    then record d { drag_active = false }
    else let e : Drawer = record d { drag_active = false; committed = false; drag_x = none } in
      if ltb (or_else d.drag_x d.drag_base) 128
      then set_timer opened (record e { settle_to = some 0; mobile_open = true })
      else set_timer closed (record e { settle_to = some drawer_w; mobile_closing = true })

unfoldable pub open_mobile : Drawer → Drawer
open_mobile d = record (clear_timer d) {
  drag_active = false;
  mobile_closing = false;
  mobile_open = true;
  settle_to = some drawer_w;
}

-- The animation frame that `openMobile` asks for.
unfoldable pub open_frame : Drawer → Drawer
open_frame d = if d.drag_active then d else record d { settle_to = some 0 }

unfoldable pub close_mobile : Drawer → Drawer
close_mobile d =
    if d.mobile_closing
    then d
    else set_timer closed
        (record d { drag_active = false; mobile_closing = true; settle_to = some drawer_w })

pub data Event : Type 0 where
  touch_start : Option Point → ℕ → Bool → Bool → Event
  touch_move : Point → Event
  touch_end open_tap close_tap frame : Event
  fires : ℕ → Event

unfoldable pub on_event : Event → Drawer → Drawer
on_event (touch_start touch w in_table dialog) d = on_touch_start touch w in_table dialog d
on_event (touch_move touch) d = on_touch_move touch d
on_event touch_end d = finish_gesture d
on_event open_tap d = open_mobile d
on_event close_tap d = close_mobile d
on_event frame d = open_frame d
on_event (fires id) d = timer_fires id d

unfoldable pub on_events : List Event → Drawer → Drawer
on_events [] d = d
on_events (e ∷ es) d = on_events es (on_event e d)
