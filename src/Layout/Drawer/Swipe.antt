-- ===== src/Layout/Drawer/Swipe.antt =====
-- Runs of the drawer's handlers.
use gourl.Common.{
  ℕ, ◌+◌, ◌-◌, ◌*◌, ◌≤◌, ◌<◌, Bool, true, false, ltb, if◌then◌else◌, Option, none, some, List, [],
  ◌∷◌, ◌≡◌, refl, arith, min, Bool-cases, Option-cases, inl, inr, ◌||◌, leb,
}
use gourl.Layout.Drawer.{
  Drawer, Event, Point, touch_start, touch_move, touch_end, open_tap, close_tap, frame, fires,
  on_event, on_events, closed_drawer, distance, on_touch_start, on_touch_move, finish_gesture,
  commit, clear_timer, set_timer, dragged, opened, closed, open_mobile, close_mobile, open_frame,
  timer_fires, end_animation, first_ending, Ending,
}

-- A swipe on a phone that starts in the right part of the screen, outside tables and dialogs, and
-- goes to the left by eight pixels at least and more than up or down, leaves the closed drawer
-- sliding to its open position exactly if it went further than half of its width.
swipe_opens :
    (w : ℕ) (o p : Point)
    → w < 768
    → 7 * w ≤ 10 * o.x
    → p.x + 8 ≤ o.x
    → distance o.y p.y ≤ o.x - p.x
    → (on_events
        (touch_start (some o) w false false ∷ touch_move p ∷ touch_end ∷ [])
        closed_drawer).settle_to
      ≡ some (if ltb 128 (o.x - p.x) then 0 else 256)
unfolding on_events on_event on_touch_start on_touch_move finish_gesture commit clear_timer
    set_timer dragged
swipe_opens w o p h k m n =
    let starts : (leb 768 w || false || false || ltb (10 * o.x) (7 * w)) ≡ false =
      ground (arith, h, k) in
    let moves : (ltb (distance o.x p.x) 8 || ltb (distance o.x p.x) (distance o.y p.y)) ≡ false =
      ground (arith, m, n) in
    let half : ltb (min 256 ((256 + p.x) - o.x)) 128 ≡ ltb 128 (o.x - p.x) = ground (arith, m) in
    rw (starts, on_touch_start, moves, on_touch_move, half)
      (elim (Bool-cases (ltb 128 (o.x - p.x))) [ inl e ↦ rw e refl | inr e ↦ rw e refl ])

abbrev pub within : Option ℕ → Bool
within none = true
within (some x) = leb x 256

within-dragged : (base origin_x touch_x : ℕ) → within (some (dragged base origin_x touch_x)) ≡ true
unfolding dragged
within-dragged base origin_x touch_x = ground arith

clear_timer_keeps : (d : Drawer) → (clear_timer d).drag_x ≡ d.drag_x
unfolding clear_timer
clear_timer_keeps d = elim (Option-cases d.settle_timer) [
  | inl e ↦ rw (e, clear_timer) refl
  | inr (id, e) ↦ rw (e, clear_timer) refl
]

end_animation_keeps : (e : Ending) (d : Drawer) → (end_animation e d).drag_x ≡ d.drag_x
unfolding end_animation
end_animation_keeps opened d = refl
end_animation_keeps closed d = refl

timer_fires_keeps : (id : ℕ) (d : Drawer) → (timer_fires id d).drag_x ≡ d.drag_x
unfolding timer_fires
timer_fires_keeps id d = elim (Option-cases (first_ending id d.timers)) [
  | inl e ↦ rw (e, timer_fires) refl
  | inr (ending, e) ↦ rw (e, timer_fires) (end_animation_keeps ending _)
]

within-on_event :
    (e : Event) (d : Drawer) → within d.drag_x ≡ true → within (on_event e d).drag_x ≡ true
unfolding on_event close_mobile open_frame set_timer on_touch_start on_touch_move finish_gesture
    open_mobile
within-on_event (touch_start none w in_table dialog) d h = h
within-on_event (touch_start (some p) w in_table dialog) d h = ground (arith, h)
within-on_event (touch_move p) d h = ground (
  arith,
  h,
  within-dragged d.drag_base d.drag_origin.x p.x,
  within-dragged (commit d).drag_base (commit d).drag_origin.x p.x,
)
within-on_event touch_end d h = ground (arith, h)
within-on_event open_tap d h = rw (clear_timer_keeps d) h
within-on_event close_tap d h = ground (arith, h)
within-on_event frame d h = ground (arith, h)
within-on_event (fires id) d h = rw (timer_fires_keeps id d) h

-- While a finger drags the drawer, however it moves and whatever taps and timers come between,
-- the drawer's edge stays between its open position, 0, and its closed one, 256.
pub within-on_events :
    (es : List Event) (d : Drawer) → within d.drag_x ≡ true → within (on_events es d).drag_x ≡ true
unfolding on_events
within-on_events [] d h = h
within-on_events (e ∷ es) d h = within-on_events es (on_event e d) (within-on_event e d h)
