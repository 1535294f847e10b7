-- ===== src/Auth/Start.antt =====
-- frontend/src/App.tsx: the classes of the document before the first paint, and the listeners of
-- the app; `applyNoSelect` of frontend/src/lib/appSettings.ts.
use gourl.Common.{
  ℕ, zero, suc, Bool, true, false, not, ◌==◌, if◌then◌else◌, List, [], ◌∷◌, ◌++◌, ◌≡◌, refl, keep,
}
use gourl.Api.Storage.{Storage, theme}
use gourl.Auth.Routes.{starts_dark}
use gourl.Device.Settings.{no_select_enabled, set_no_select, switches_read_back}

pub record RootClasses : Type 0 where
  pub dark : Bool
  pub capacitor : Bool
  pub no_select : Bool

unfoldable pub apply_no_select : Storage → RootClasses → RootClasses
apply_no_select s c = record c { no_select = no_select_enabled s }

-- The classes that the loaded module leaves on a document without any of them.
unfoldable pub start : Storage → Bool → Bool → RootClasses
start s prefers_dark is_app =
    let fresh : RootClasses = record {
      dark = starts_dark (s theme) prefers_dark;
      capacitor = is_app;
      no_select = false;
    } in
    if is_app then apply_no_select s fresh else fresh

-- What the app listens to: clicks in the document, and two events of the Capacitor plugin.
pub data Listener : Type 0 where
  click back_button app_url_open : Listener

abbrev index : Listener → ℕ
index click = 0
index back_button = 1
index app_url_open = 2

abbrev pub remove : Listener → List Listener → List Listener
remove l = keep (λ k. not (index k == index l))

unfoldable pub click_effect : List Listener → List Listener
click_effect ls = ls ++ click ∷ []

-- The second effect, which returns early where the plugin is missing, and its clean-up.
unfoldable pub app_effect : Bool → List Listener → List Listener
app_effect has_plugin ls = if not has_plugin then ls else ls ++ back_button ∷ app_url_open ∷ []

unfoldable pub app_cleanup : Bool → List Listener → List Listener
app_cleanup has_plugin ls =
    if not has_plugin then ls else remove app_url_open (remove back_button ls)

-- The effects of the first render, and those of so many later ones in which `navigate` is new.
unfoldable pub renders : Bool → ℕ → List Listener
renders has_plugin zero = app_effect has_plugin (click_effect [])
renders has_plugin (suc n) = app_effect has_plugin (app_cleanup has_plugin (renders has_plugin n))

-- However often the app renders, each event has one listener.
listened_once : (has_plugin : Bool) (n : ℕ) → renders has_plugin n ≡ renders has_plugin zero
unfolding renders app_effect app_cleanup click_effect
listened_once has_plugin zero = refl
listened_once false (suc n) = listened_once false n
listened_once true (suc n) = rw (listened_once true n) refl

-- The switch for the selection of text has the same effect at once and at the next start.
start-set_no_select :
    (on prefers_dark : Bool) (s : Storage) (c : RootClasses)
    → let stored = set_no_select on s in
      ((apply_no_select stored c).no_select ≡ on)
      × ((start stored prefers_dark true).no_select ≡ on)
unfolding start apply_no_select
start-set_no_select on prefers_dark s c = let read = (switches_read_back on s).0 in (read, read)
