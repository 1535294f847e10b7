-- ===== src/Settings/Probes.antt =====
-- When the connection card of frontend/src/pages/Settings.tsx probes the server: as it mounts, every
-- ten seconds, when the app comes to the front, and by its refresh button.
use gourl.Common.{
  ℕ, suc, ◌-◌, Bool, true, false, ◌&&◌, ◌==◌, if◌then◌else◌, Option, none, some, List, [], ◌∷◌,
  Text, ◌≡◌, refl, arith,
}
use gourl.Api.Types.{Outcome, resolved, rejected, thrown, AppConfig}
use gourl.Settings.Connection.{
  ConnStatus, checking, connected, unauthorized, unreachable, Card, checked, judge, refused,
  refresh,
}

-- The card with its alive flag, its interval, the listener on the plugin, and the number of probes
-- under way.
pub record Probes : Type 0 where
  pub card : Card
  pub alive : Bool
  pub timer : Bool
  pub listening : Bool
  pub under_way : ℕ

pub data ProbeEvent : Type 0 where
  ticked refreshed unmounted : ProbeEvent
  state_change : Bool → ProbeEvent
  answered : Outcome (Option Bool) → Outcome Text → Outcome AppConfig → ProbeEvent

abbrev begun : Probes → Probes
begun p = record p { under_way = suc p.under_way }

-- The first render with its effect; `has_plugin` is whether there is something to listen to.
unfoldable pub mounted : Bool → Probes
mounted has_plugin = record {
  card = record { confirm_disconnect = false; status = checking; server_version = none };
  alive = true;
  timer = true;
  listening = has_plugin;
  under_way = 1;
}

-- An event that its state rules out changes nothing: without the interval nothing ticks, the
-- button is there only while the card is, and no probe ends that is not under way.
unfoldable pub on_event : ProbeEvent → Probes → Probes
on_event ticked p = if p.timer then begun p else p
on_event (state_change is_active) p = if p.listening && is_active then begun p else p
on_event refreshed p =
    let (card, runs) = refresh p.card in
    let p' = record p { card = card } in if p.alive then (if runs then begun p' else p') else p
on_event (answered st health config) p =
    if p.under_way == 0
    then p
    else record p { card = checked p.alive st health config p.card; under_way = p.under_way - 1 }
on_event unmounted p = record p { alive = false; timer = false; listening = false }

unfoldable pub on_events : List ProbeEvent → Probes → Probes
on_events [] p = p
on_events (e ∷ es) p = on_events es (on_event e p)

abbrev pub is_checking : ConnStatus → Bool
is_checking checking = true
is_checking connected = false
is_checking unauthorized = false
is_checking unreachable = false

-- A card that is there, says that it checks, and waits for nothing.
abbrev pub is_stuck : Probes → Bool
is_stuck p = p.alive && is_checking p.card.status && p.under_way == 0

refused_settles {ℓ} : {A : Type ℓ} (o : Outcome A) → is_checking (refused o) ≡ false
unfolding refused
refused_settles (resolved a) = refl
refused_settles (rejected e) = ground arith
refused_settles (thrown m) = refl

judge_settles :
    (st : Outcome (Option Bool)) (config : Outcome AppConfig)
    → is_checking (judge st config) ≡ false
unfolding judge
judge_settles (resolved (some true)) config = refl
judge_settles (resolved (some false)) config = refl
judge_settles (resolved none) (resolved cfg) = refl
judge_settles (resolved none) (rejected e) = refused_settles {A = AppConfig} (rejected e)
judge_settles (resolved none) (thrown m) = refl
judge_settles (rejected e) config = refused_settles {A = AppConfig} (rejected e)
judge_settles (thrown m) config = refl

-- The button alone: the status is set and the probe is begun by separate calls.
refresh-stuck : (p : Probes) → is_stuck p ≡ false → is_stuck (on_event refreshed p) ≡ false
unfolding on_event refresh
refresh-stuck p h = ground (arith, h)

on_event-stuck :
    (e : ProbeEvent) (p : Probes) → is_stuck p ≡ false → is_stuck (on_event e p) ≡ false
unfolding on_event checked
on_event-stuck ticked p h = ground (arith, h)
on_event-stuck (state_change is_active) p h = ground (arith, h)
on_event-stuck refreshed p h = refresh-stuck p h
on_event-stuck (answered st health config) p h = ground (arith, h, judge_settles st config)
on_event-stuck unmounted p h = refl

on_events-stuck_from :
    (es : List ProbeEvent) (p : Probes) → is_stuck p ≡ false → is_stuck (on_events es p) ≡ false
unfolding on_events
on_events-stuck_from [] p h = h
on_events-stuck_from (e ∷ es) p h = on_events-stuck_from es (on_event e p) (on_event-stuck e p h)

-- Over every run of the card that starts with its mounting: while it is there and says that it
-- checks the connection, a probe is under way, so that the status is settled when that ends.
pub on_events-mounted :
    (has_plugin : Bool) (es : List ProbeEvent)
    → is_stuck (on_events es (mounted has_plugin)) ≡ false
on_events-mounted has_plugin es =
    on_events-stuck_from es (mounted has_plugin) (unfold mounted in refl)
