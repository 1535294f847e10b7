-- ===== src/Settings/Autosave.antt =====
-- The autosave over a run of the form's handlers.
use gourl.Common.{
  true, false, Option, none, some, is_some, List, [], ◌∷◌, ◌++◌, ◌≡◌, refl, ap, ◌∙◌, Bool-cases,
  Option-cases, inl, inr,
}
use gourl.Api.Types.{AppConfig}
use gourl.Settings.{
  Settings, Render, Drafts, Flight, save, set_and_save, set_field, set_drafts, settled, body_of,
}

-- What happens to the form: a field or a text is edited, a control of some render saves, or the
-- oldest request ends.
pub data Event : Type 0 where
  edited : (AppConfig → AppConfig) → Render → Event
  typed : (Drafts → Drafts) → Event
  blurred : Render → Event
  switched : (AppConfig → AppConfig) → Render → Event
  ended : Event

-- The form, the requests that are under way, and the bodies sent so far.
pub record System : Type 0 where
  pub settings : Settings
  pub flights : List Flight
  pub sent : List AppConfig

abbrev pub launch : Settings × Option Flight → List Flight → List AppConfig → System
launch (s, none) flights sent = record { settings = s; flights = flights; sent = sent }
launch (s, some f) flights sent = record {
  settings = s;
  flights = flights ++ f ∷ [];
  sent = sent ++ f.body ∷ [];
}

abbrev pub finish : List Flight → System → System
finish [] y = y
finish (f ∷ flights) y = launch (settled f y.settings) flights y.sent

unfoldable pub on_event : Event → System → System
on_event (edited change r) y = record y { settings = set_field change r y.settings }
on_event (typed change) y = record y { settings = set_drafts change y.settings }
on_event (blurred r) y = launch (save r none y.settings) y.flights y.sent
on_event (switched change r) y = launch (set_and_save change r y.settings) y.flights y.sent
on_event ended y = finish y.flights y

unfoldable pub on_events : List Event → System → System
on_events [] y = y
on_events (e ∷ es) y = on_events es (on_event e y)

-- No request is under way and no save waits, or exactly one is, whose render had a form.
abbrev pub IsSingle : Settings → List Flight → Type 0
IsSingle s [] = (s.saving ≡ false) × (s.pending ≡ false)
IsSingle s (f ∷ []) = (s.saving ≡ true) × (is_some f.closure.form ≡ true)
IsSingle s (f ∷ g ∷ flights) = true ≡ false

abbrev pub IsSingleFlight : System → Type 0
IsSingleFlight y = IsSingle y.settings y.flights

save-IsSingle :
    (r : Render) (over : Option AppConfig) (s : Settings) (flights : List Flight)
    (sent : List AppConfig)
    → IsSingle s flights
    → IsSingleFlight (launch (save r over s) flights sent)
unfolding save
save-IsSingle r over s [] sent (idle, calm) = elim (Option-cases r.form) [
  | inl e ↦ rw (e, save) (idle, calm)
  | inr (f, e) ↦ rw (e, idle, save) (refl, ap is_some e)
]
save-IsSingle r over s (f ∷ []) sent (busy, h) = elim (Option-cases r.form) [
  | inl e ↦ rw (e, save) (busy, h)
  | inr (g, e) ↦ rw (e, busy, save) (refl, h)
]
save-IsSingle r over s (f ∷ g ∷ flights) sent h = absurd (cc h)

-- Editing leaves the two refs of the autosave as they are.
same_refs :
    (s t : Settings) (flights : List Flight)
    → t.saving ≡ s.saving
    → t.pending ≡ s.pending
    → IsSingle s flights
    → IsSingle t flights
same_refs s t [] e f (h, k) = (e ∙ h, f ∙ k)
same_refs s t (g ∷ []) e f (h, k) = (e ∙ h, k)
same_refs s t (g ∷ i ∷ flights) e f h = h

set_field-refs :
    (change : AppConfig → AppConfig) (r : Render) (s : Settings)
    → ((set_field change r s).saving ≡ s.saving) × ((set_field change r s).pending ≡ s.pending)
unfolding set_field
set_field-refs change r s = elim (Option-cases r.form) [
  | inl e ↦ rw (e, set_field) (refl, refl)
  | inr (f, e) ↦ rw (e, set_field) (refl, refl)
]

set_field-IsSingle :
    (change : AppConfig → AppConfig) (r : Render) (s : Settings) (flights : List Flight)
    → IsSingle s flights
    → IsSingle (set_field change r s) flights
set_field-IsSingle change r s flights =
    same_refs s (set_field change r s) flights (set_field-refs change r s).0
      (set_field-refs change r s).1

set_drafts-IsSingle :
    (change : Drafts → Drafts) (s : Settings) (flights : List Flight)
    → IsSingle s flights
    → IsSingle (set_drafts change s) flights
unfolding set_drafts
set_drafts-IsSingle change s flights = same_refs s (set_drafts change s) flights refl refl

set_and_save-IsSingle :
    (change : AppConfig → AppConfig) (r : Render) (s : Settings) (flights : List Flight)
    (sent : List AppConfig)
    → IsSingle s flights
    → IsSingleFlight (launch (set_and_save change r s) flights sent)
unfolding set_and_save
set_and_save-IsSingle change r s flights sent h = elim (Option-cases r.form) [
  | inl e ↦ rw (e, set_and_save) h
  | inr (f, e) ↦
      rw (e, set_and_save)
        (save-IsSingle r (some (change f)) (set_field change r s) flights sent
          (set_field-IsSingle change r s flights h))
]

settled-IsSingle :
    (f : Flight) (s : Settings) (sent : List AppConfig)
    → IsSingle s (f ∷ [])
    → IsSingleFlight (launch (settled f s) [] sent)
unfolding settled
settled-IsSingle f s sent (busy, h) = elim (Bool-cases s.pending) [
  | inl e ↦
      rw (e, settled)
        (save-IsSingle f.closure none (record s { saving = false; pending = false }) [] sent
          (refl, refl))
  | inr e ↦ rw (e, settled) (refl, refl)
]

finish-IsSingle :
    (flights : List Flight) (y : System)
    → IsSingle y.settings flights
    → y.flights ≡ flights
    → IsSingleFlight (finish flights y)
finish-IsSingle [] y h e = rw e h
finish-IsSingle (f ∷ []) y h e = settled-IsSingle f y.settings y.sent h
finish-IsSingle (f ∷ g ∷ flights) y h e = absurd (cc h)

on_event-IsSingleFlight :
    (e : Event) (y : System) → IsSingleFlight y → IsSingleFlight (on_event e y)
unfolding on_event
on_event-IsSingleFlight (edited change r) y h = set_field-IsSingle change r y.settings y.flights h
on_event-IsSingleFlight (typed change) y h = set_drafts-IsSingle change y.settings y.flights h
on_event-IsSingleFlight (blurred r) y h = save-IsSingle r none y.settings y.flights y.sent h
on_event-IsSingleFlight (switched change r) y h =
    set_and_save-IsSingle change r y.settings y.flights y.sent h
on_event-IsSingleFlight ended y h = finish-IsSingle y.flights y h refl

-- However the handlers and the ends of requests follow each other, at most one request is under
-- way, and when none is, no save is left waiting.
pub on_events-IsSingleFlight :
    (es : List Event) (y : System) → IsSingleFlight y → IsSingleFlight (on_events es y)
unfolding on_events
on_events-IsSingleFlight [] y h = h
on_events-IsSingleFlight (e ∷ es) y h =
    on_events-IsSingleFlight es (on_event e y) (on_event-IsSingleFlight e y h)

abbrev pub render : AppConfig → Drafts → Render
render form drafts = record { form = some form; drafts = drafts }

abbrev pub idle : AppConfig → Drafts → System
idle form drafts = record {
  settings = record {
    shown = record { form = some form; drafts = drafts };
    saving = false;
    pending = false;
  };
  flights = [];
  sent = [];
}

-- Two controls are switched, the second while the first request is under way, and both requests
-- end: the form shows both changes, but the body that was sent last has neither of them.
pub resent_without_changes :
    (form : AppConfig) (drafts : Drafts) (a b : AppConfig → AppConfig)
    → let y =
        on_events
          (switched a (render form drafts)
            ∷ switched b (render (a form) drafts)
            ∷ ended
            ∷ ended
            ∷ [])
          (idle form drafts) in
      (y.settings.shown.form ≡ some (b (a form)))
      × (y.sent ≡ body_of (a form) drafts ∷ body_of form drafts ∷ [])
      × (y.flights ≡ [])
unfolding on_events on_event set_and_save set_field save settled
resent_without_changes form drafts a b = (refl, refl, refl)
