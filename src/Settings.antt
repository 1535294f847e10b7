-- ===== src/Settings.antt =====
-- frontend/src/pages/Settings.tsx: the settings form with its autosave. The request that `save`
-- starts is cut in two: `save` up to the call, and `settled`, which runs when the call has ended.
-- A handler is a closure of the render that made it, and reads that render's values.
pub mod Fields
pub mod Autosave
pub mod Connection
pub mod Tokens
pub mod Probes
pub mod Form
pub mod Cards
pub mod Page
use Prim.Native.String.{String}
use gourl.Common.{
  ℕ, Bool, true, false, not, if◌then◌else◌, Option, none, some, List, [], ◌∷◌, map, keep, Text,
  trim, is_empty, split, join, or_else,
}
use gourl.Api.Types.{
  AppConfig, SiteInfo, Outcome, resolved, rejected, thrown, Message, t, plain, Kind, success,
  failure, ApiError,
}

-- The texts of the four list fields.
pub record Drafts : Type 0 where
  pub extra_urls : Text
  pub reserved : Text
  pub ua : Text
  pub ip : Text

abbrev pub no_drafts : Drafts
no_drafts = record { extra_urls = []; reserved = []; ua = []; ip = [] }

-- The values of one render, which its handlers hold.
pub record Render : Type 0 where
  pub form : Option AppConfig
  pub drafts : Drafts

-- The component's state, with the two refs of the autosave.
pub record Settings : Type 0 where
  pub shown : Render
  pub saving : Bool
  pub pending : Bool

-- A request that is under way: its body, and the render whose `save` runs again at its end.
pub record Flight : Type 0 where
  pub body : AppConfig
  pub closure : Render

pub data Effect : Type 0 where
  toast : Message → Kind → Effect
  invalidate_config : Effect

abbrev pub comma : ℕ
comma = 44

abbrev pub newline : ℕ
newline = 10

-- `[','].join` with a space behind the comma
abbrev pub comma_space : Text
comma_space = comma ∷ 32 ∷ []

-- `text.split(sep).map((s) => s.trim()).filter(Boolean)`
unfoldable pub entries : ℕ → Text → List Text
entries sep text = keep (λ s. not (is_empty s)) (map trim (split sep text))

unfoldable pub drafts_of : AppConfig → Drafts
drafts_of cfg = record {
  extra_urls = join (newline ∷ []) cfg.extra_base_urls;
  reserved = join comma_space cfg.reserved_codes;
  ua = join comma_space cfg.ua_blocks;
  ip = join comma_space cfg.ip_blocks;
}

-- The effect that fills the form when the configuration has arrived, once.
unfoldable pub on_config : Option AppConfig → Render → Render
on_config none r = r
on_config (some cfg) r = elim r.form [
  | none ↦ record { form = some cfg; drafts = drafts_of cfg }
  | some form ↦ r
]

unfoldable pub body_of : AppConfig → Drafts → AppConfig
body_of f d = record {
  site = f.site;
  short_code_length = f.short_code_length;
  base_url = f.base_url;
  login_rate_max_attempts = f.login_rate_max_attempts;
  login_rate_lock_seconds = f.login_rate_lock_seconds;
  session_ttl_minutes = f.session_ttl_minutes;
  link_rate_per_second = f.link_rate_per_second;
  log_level = f.log_level;
  hard_delete = f.hard_delete;
  backup_on_edit = f.backup_on_edit;
  icon = f.icon;
  extra_base_urls = entries newline d.extra_urls;
  reserved_codes = entries comma d.reserved;
  ua_blocks = entries comma d.ua;
  ip_blocks = entries comma d.ip;
}

-- `set` and `setSite`: `change` puts one field into the form of the render.
unfoldable pub set_field : (AppConfig → AppConfig) → Render → Settings → Settings
set_field change r s = elim r.form [
  | none ↦ s
  | some form ↦ record s { shown = record s.shown { form = some (change form) } }
]

unfoldable pub set_drafts : (Drafts → Drafts) → Settings → Settings
set_drafts change s = record s { shown = record s.shown { drafts = change s.shown.drafts } }

-- `save` of the render `r`, with the override of an immediate control.
unfoldable pub save : Render → Option AppConfig → Settings → Settings × Option Flight
save r over s = elim r.form [
  | none ↦ (s, none)
  | some form ↦ if s.saving then (record s { pending = true }, none) else (
    record s { saving = true },
    some (record { body = body_of (or_else over form) r.drafts; closure = r }),
  )
]

-- `setAndSave` of the render `r`
unfoldable pub set_and_save : (AppConfig → AppConfig) → Render → Settings → Settings × Option Flight
set_and_save change r s = elim r.form [
  | none ↦ (s, none)
  | some form ↦ save r (some (change form)) (set_field change r s)
]

-- `onSettled`: the `save` that it calls is that of the render which sent the request.
unfoldable pub settled : Flight → Settings → Settings × Option Flight
settled flight s =
    if s.pending
    then save flight.closure none (record s { saving = false; pending = false })
    else (record s { saving = false }, none)

module _ (translated : ApiError → Message) where
  abbrev pub failed_message {ℓ} : {A : Type ℓ} → Outcome A → Message
  failed_message (rejected e) = translated e
  failed_message other = t "settings.saveFailed"

  -- `onSuccess` and `onError` of the mutation
  unfoldable pub save_effects : Outcome (Unit {0}) → List Effect
  save_effects (resolved done) = toast (t "settings.saved") success ∷ invalidate_config ∷ []
  save_effects other = toast (failed_message other) failure ∷ []

  -- `iconInput`, when the upload of a file has ended with the icon's name.
  unfoldable pub icon_uploaded : Outcome Text → Settings → Settings × List Effect
  icon_uploaded (resolved name) s = (
    elim s.shown.form [
      | none ↦ s
      | some form ↦ record s {
        shown = record s.shown { form = some (record form { icon = name }) };
      }
    ],
    toast (t "settings.saved") success ∷ invalidate_config ∷ [],
  )
  icon_uploaded other s = (s, toast (failed_message other) failure ∷ [])
