-- ===== src/Api/Stream/Retry.antt =====
-- The connection after it is closed, and the fetches that run at a time.
use gourl.Common.{true, false, ◌&&◌, List, [], ◌∷◌, ◌++◌, ◌≡◌, refl, arith, ◌∙◌}
use gourl.Api.Stream.{
  Connection, Event, dropped, fired, closed, connect, schedule_retry, on_event, on_events,
}

-- A closed connection has no timer, and one that runs has none either.
pub record IsSound (c : Connection) : Type 0 where
  pub closed_quiet : (c.aborted && c.retry_timer) ≡ false
  pub one_at_a_time : (c.running && c.retry_timer) ≡ false

on_event-IsSound : (e : Event) (c : Connection) → IsSound c → IsSound (on_event e c)
unfolding on_event connect schedule_retry
on_event-IsSound dropped c h = ground (arith, h.closed_quiet)
on_event-IsSound fired c h = ground (arith, h.closed_quiet)
on_event-IsSound closed c h = ground (arith, h.closed_quiet)

-- Whatever happens to an open connection, a timer is set only while no fetch runs and only while
-- the connection is not closed.
pub on_events-IsSound : (es : List Event) (c : Connection) → IsSound c → IsSound (on_events es c)
unfolding on_events
on_events-IsSound [] c h = h
on_events-IsSound (e ∷ es) c h = on_events-IsSound es (on_event e c) (on_event-IsSound e c h)

on_event_closed :
    (e : Event) (c : Connection)
    → c.aborted ≡ true
    → ((on_event e c).aborted ≡ true) × ((on_event e c).fetches ≡ c.fetches)
unfolding on_event connect schedule_retry
on_event_closed dropped c h = ground arith
on_event_closed fired c h = ground arith
on_event_closed closed c h = ground arith

stays_closed :
    (es : List Event) (c : Connection) → c.aborted ≡ true → (on_events es c).fetches ≡ c.fetches
unfolding on_events
stays_closed [] c h = refl
stays_closed (e ∷ es) c h =
    let (still, same) = on_event_closed e c h in stays_closed es (on_event e c) still ∙ same

-- After `close` no fetch is ever begun again, whatever happens next.
pub no_fetch_after_close :
    (before after : List Event) (c : Connection)
    → (on_events (before ++ closed ∷ after) c).fetches ≡ (on_events before c).fetches
unfolding on_events
no_fetch_after_close [] after c =
    stays_closed after (on_event closed c) (unfold on_event in refl) ∙ (unfold on_event in refl)
no_fetch_after_close (e ∷ before) after c = no_fetch_after_close before after (on_event e c)
