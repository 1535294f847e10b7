-- ===== src/Ui/Toasts.antt =====
-- `ToastProvider`: the pile of toasts. `Text` is the shown message.
use gourl.Common.{
  ℕ, suc, zero, ◌≤◌, Bool, not, ◌==◌, if◌then◌else◌, Option, or_else, List, [], ◌∷◌, Text, take,
  keep, length, length-take, arith,
}
use gourl.Platform.{ℤ, pos, negsuc}
use gourl.Api.Types.{Kind, success, failure}

-- An id stands for `Date.now() + Math.random()`.
pub record Toast : Type 0 where
  pub id : ℕ
  pub message : Text
  pub kind : Kind

unfoldable pub dismiss : ℕ → List Toast → List Toast
dismiss id ts = keep (λ x. not (x.id == id)) ts

-- The toasts with the new one, and the time after which it is dismissed.
unfoldable pub toast : ℕ → Text → Kind → List Toast → List Toast × ℕ
toast id message success ts =
    (take 5 (record { id = id; message = message; kind = success } ∷ ts), 3200)
toast id message failure ts =
    (take 5 (record { id = id; message = message; kind = failure } ∷ ts), 6000)

-- What changes the pile: a new toast, or the end of one, by its timer or its button.
pub data Event : Type 0 where
  shown : ℕ → Text → Kind → Event
  dismissed : ℕ → Event

unfoldable pub on_event : Event → List Toast → List Toast
on_event (shown id message kind) ts = (toast id message kind ts).0
on_event (dismissed id) ts = dismiss id ts

unfoldable pub on_events : List Event → List Toast → List Toast
on_events [] ts = ts
on_events (e ∷ es) ts = on_events es (on_event e ts)

-- `a - b` of two heights
abbrev pub difference : ℕ → ℕ → ℤ
difference a zero = pos a
difference zero (suc b) = negsuc b
difference (suc a) (suc b) = difference a b

-- The margin below a card: none for the one in front, the gap in an expanded pile, and else all
-- of its measured height but twelve pixels, taken back.
unfoldable pub margin_bottom : Bool → Bool → Option ℕ → ℤ
margin_bottom is_front expanded height =
    if is_front then pos 0 else if expanded then pos 8 else difference 12 (or_else height 64)

length-keep : (p : Toast → Bool) (ts : List Toast) → length (keep p ts) ≤ length ts
length-keep p [] = omega arith
length-keep p (x ∷ ts) = ground (arith, length-keep p ts)

on_event_bounded : (e : Event) (ts : List Toast) → length ts ≤ 5 → length (on_event e ts) ≤ 5
unfolding on_event toast dismiss
on_event_bounded (shown id message success) ts h =
    omega (arith, length-take 5 (record { id = id; message = message; kind = success } ∷ ts))
on_event_bounded (shown id message failure) ts h =
    omega (arith, length-take 5 (record { id = id; message = message; kind = failure } ∷ ts))
on_event_bounded (dismissed id) ts h = omega (arith, h, length-keep (λ x. not (x.id == id)) ts)

-- The pile never has more than five toasts, whatever is shown and dismissed.
pub on_events_bounded :
    (es : List Event) (ts : List Toast) → length ts ≤ 5 → length (on_events es ts) ≤ 5
unfolding on_events
on_events_bounded [] ts h = h
on_events_bounded (e ∷ es) ts h = on_events_bounded es (on_event e ts) (on_event_bounded e ts h)
