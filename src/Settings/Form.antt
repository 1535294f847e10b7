-- ===== src/Settings/Form.antt =====
-- The cards of the settings form of frontend/src/pages/Settings.tsx: each control with what it
-- shows and what its change does.
use gourl.Common.{
  false, not, if◌then◌else◌, Option, none, some, List, [], ◌∷◌, ◌++◌, Text, codes, is_empty,
}
use gourl.Platform.{ℤ}
use gourl.Api.Types.{AppConfig, SiteInfo, Message, t, Outcome, ApiError}
use gourl.Markup.{Node, text, value, button, input, select, switch, when}
use gourl.Settings.{
  Settings, Render, Drafts, Flight, Effect, save, set_and_save, set_field, set_drafts,
  icon_uploaded,
}

-- `edited` is `set` or `setSite`, `picked` is `setAndSave`, `blurred` is `save()`.
pub data Event : Type 0 where
  edited picked : (AppConfig → AppConfig) → Event
  drafted : (Drafts → Drafts) → Event
  blurred change_password pick_file remove_icon : Event

-- What a handler of the render `r` does to the state, and the request that it starts.
unfoldable pub on_event : Render → Event → Settings → Settings × Option Flight
on_event r (edited change) s = (set_field change r s, none)
on_event r (picked change) s = set_and_save change r s
on_event r (drafted change) s = (set_drafts change s, none)
on_event r blurred s = save r none s
on_event r _ s = (s, none)

-- The remove button, when the request has ended with the icon's name: as after an upload.
unfoldable pub icon_removed :
    (ApiError → Message) → Outcome Text → Settings → Settings × List Effect
icon_removed translated answer s = icon_uploaded translated answer s

abbrev pub set_site : (SiteInfo → SiteInfo) → AppConfig → AppConfig
set_site change f = record f { site = change f.site }

abbrev typed : Message → Text → (Text → AppConfig → AppConfig) → Node Event
typed label shown put = input label shown (λ v. edited (put v)) (some blurred)

abbrev draft : Message → Text → (Text → Drafts → Drafts) → Node Event
draft label shown put = input label shown (λ v. drafted (put v)) (some blurred)

unfoldable pub site_card : AppConfig → List (Node Event)
site_card form =
    text (t "settings.site")
    ∷ typed (t "settings.siteName") form.site.name (λ v. set_site (λ s. record s { name = v }))
    ∷ typed (t "settings.siteTitle") form.site.title (λ v. set_site (λ s. record s { title = v }))
    ∷ typed (t "settings.description") form.site.description
        (λ v. set_site (λ s. record s { description = v }))
    ∷ []

-- `print_number` is `String` and `to_number` is `Number`, on the values of a number field.
module _ (print_number : ℤ → Text) (to_number : Text → ℤ) where
  abbrev number_typed : Message → ℤ → (ℤ → AppConfig → AppConfig) → Node Event
  number_typed label shown put = typed label (print_number shown) (λ v. put (to_number v))

  unfoldable pub security_card : AppConfig → List (Node Event)
  security_card form =
      text (t "settings.security")
      ∷ text (t "settings.securityHint")
      ∷ button (t "settings.changePassword") false change_password
      ∷ number_typed (t "settings.sessionTTL") form.session_ttl_minutes
          (λ n f. record f { session_ttl_minutes = n })
      ∷ text (t "settings.sessionTTLHint")
      ∷ number_typed (t "settings.loginRateAttempts") form.login_rate_max_attempts
          (λ n f. record f { login_rate_max_attempts = n })
      ∷ text (t "settings.loginRateHint")
      ∷ number_typed (t "settings.loginRateLock") form.login_rate_lock_seconds
          (λ n f. record f { login_rate_lock_seconds = n })
      ∷ text (t "settings.loginRateLockHint")
      ∷ []

  abbrev log_levels : List (Text × Message)
  log_levels =
      (codes "debug", t "settings.logLevelDebug")
      ∷ (codes "info", t "settings.logLevelInfo")
      ∷ (codes "warning", t "settings.logLevelWarning")
      ∷ (codes "error", t "settings.logLevelError")
      ∷ []

  unfoldable pub behavior_card : AppConfig → Drafts → List (Node Event)
  behavior_card form d =
      text (t "settings.behavior")
      ∷ number_typed (t "settings.shortCodeLength") form.short_code_length
          (λ n f. record f { short_code_length = n })
      ∷ typed (t "settings.baseUrl") form.base_url (λ v f. record f { base_url = v })
      ∷ text (t "settings.baseUrlHint")
      ∷ draft (t "settings.extraBaseUrls") d.extra_urls (λ v e. record e { extra_urls = v })
      ∷ text (t "settings.extraBaseUrlsHint")
      ∷ draft (t "settings.reservedCodes") d.reserved (λ v e. record e { reserved = v })
      ∷ text (t "settings.reservedCodesHint")
      ∷ number_typed (t "settings.linkRate") form.link_rate_per_second
          (λ n f. record f { link_rate_per_second = n })
      ∷ text (t "settings.linkRateHint")
      ∷ select (t "settings.logLevel") form.log_level log_levels
          (λ v. picked (λ f. record f { log_level = v }))
      ∷ text (t "settings.logLevelHint")
      ∷ []

unfoldable pub icon_card : AppConfig → List (Node Event)
icon_card form =
    text (t "settings.icon")
      ∷ button (t "settings.uploadIcon") false pick_file
      ∷ when (not (is_empty form.icon)) (button (t "settings.removeIcon") false remove_icon ∷ [])
    ++ value (if is_empty form.icon then codes "default" else form.icon) ∷ []

unfoldable pub blocks_cards : Drafts → List (Node Event)
blocks_cards d =
    text (t "settings.uaBlocks")
    ∷ text (t "settings.uaBlockHint")
    ∷ text (t "common.never")
    ∷ draft (t "settings.uaPatterns") d.ua (λ v e. record e { ua = v })
    ∷ text (t "settings.ipBlocks")
    ∷ text (t "settings.ipBlockHint")
    ∷ draft (t "settings.ipPatterns") d.ip (λ v e. record e { ip = v })
    ∷ []

unfoldable pub data_card : AppConfig → List (Node Event)
data_card form =
    text (t "settings.dataManagement")
    ∷ text (t "settings.hardDeleteHint")
    ∷ switch (t "settings.hardDelete") form.hard_delete
        (λ v. picked (λ f. record f { hard_delete = v }))
    ∷ text (t "settings.backupOnEditHint")
    ∷ switch (t "settings.backupOnEdit") form.backup_on_edit
        (λ v. picked (λ f. record f { backup_on_edit = v }))
    ∷ []
