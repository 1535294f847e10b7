-- ===== src/Layout/Drawer/Edge.antt =====
-- Where the drawer stands, over every run of its events (frontend/src/components/Layout.tsx).
use gourl.Common.{
  ℕ, ◌≤◌, Bool, true, false, if◌then◌else◌, Option, none, some, or_else, List, [], ◌∷◌, ◌≡◌, refl,
  arith, Option-cases, inl, inr,
}
use gourl.Layout.Drawer.{
  Drawer, drawer_w, Event, touch_start, touch_move, touch_end, open_tap, close_tap, frame, fires,
  on_event, on_events, on_touch_start, on_touch_move, commit, finish_gesture, open_mobile,
  open_frame, close_mobile, set_timer, timer_fires, end_animation, first_ending, Ending, opened,
  closed,
}
use gourl.Layout.Drawer.Swipe.{within, within-on_events}
use gourl.Layout.Shell.{drawer_edge}

end_animation-settle_to : (e : Ending) (d : Drawer) → (end_animation e d).settle_to ≡ none
unfolding end_animation
end_animation-settle_to opened d = refl
end_animation-settle_to closed d = refl

settled_fires :
    (id : ℕ) (d : Drawer) → within d.settle_to ≡ true → within (timer_fires id d).settle_to ≡ true
unfolding timer_fires
settled_fires id d h = elim (Option-cases (first_ending id d.timers)) [
  | inl e ↦ rw (e, timer_fires) h
  | inr (ending, e) ↦ rw (e, timer_fires, end_animation-settle_to) refl
]

settled-on_event :
    (e : Event) (d : Drawer) → within d.settle_to ≡ true → within (on_event e d).settle_to ≡ true
unfolding on_event close_mobile open_frame set_timer on_touch_start on_touch_move finish_gesture
    open_mobile commit
settled-on_event (touch_start none w in_table dialog) d h = h
settled-on_event (touch_start (some p) w in_table dialog) d h = ground (arith, h)
settled-on_event (touch_move p) d h = ground (arith, h)
settled-on_event touch_end d h = ground (arith, h)
settled-on_event open_tap d h = refl
settled-on_event close_tap d h = ground (arith, h)
settled-on_event frame d h = ground (arith, h)
settled-on_event (fires id) d h = settled_fires id d h

settled-on_events :
    (es : List Event) (d : Drawer)
    → within d.settle_to ≡ true
    → within (on_events es d).settle_to ≡ true
unfolding on_events
settled-on_events [] d h = h
settled-on_events (e ∷ es) d h = settled-on_events es (on_event e d) (settled-on_event e d h)

edge_within :
    (s x : Option ℕ) (b : Bool)
    → within s ≡ true
    → within x ≡ true
    → or_else s (or_else x (if b then 0 else 256)) ≤ 256
edge_within none none true h k = omega arith
edge_within none none false h k = omega arith
edge_within none (some x) b h k = ground (arith, k)
edge_within (some s) x b h k = ground (arith, h)

-- However fingers, taps, animation frames and timers follow each other, the drawer's edge on the
-- screen never leaves the range from its open position, 0, to its closed one, 256: while it is
-- dragged, while it is animated and at rest.
pub drawer_edge-on_events :
    (es : List Event) (d : Drawer)
    → within d.settle_to ≡ true
    → within d.drag_x ≡ true
    → drawer_edge (on_events es d) ≤ drawer_w
unfolding drawer_edge
drawer_edge-on_events es d h k =
    edge_within (on_events es d).settle_to (on_events es d).drag_x (on_events es d).mobile_open
      (settled-on_events es d h) (within-on_events es d k)
