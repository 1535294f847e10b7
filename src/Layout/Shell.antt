-- ===== src/Layout/Shell.antt =====
-- The frame of every page, frontend/src/components/Layout.tsx: the navigation, the sidebar, the
-- top bar, the drawer on the screen, the footer, and logging out.
use gourl.Common.{
  ℕ, Bool, false, ◌||◌, not, if◌then◌else◌, Option, none, some, is_some, or_else, List, [], ◌∷◌,
  ◌++◌, Text, codes, is_empty, same,
}
use gourl.Api.Types.{Message, t, plain, Outcome, AppConfig}
use gourl.Markup.{Node, text, value, button, link, when}
use gourl.Layout.Theme.{Theme, light, dark, system, is_chinese}
use gourl.Layout.Drawer.{Drawer, drawer_w}

pub data Event : Type 0 where
  nav_clicked : Text → Event
  theme_clicked language_clicked logout_clicked open_clicked close_clicked : Event

-- `cfg?.site.name || __APP_NAME__`
unfoldable pub site_name : Text → Option AppConfig → Text
site_name app_name none = app_name
site_name app_name (some cfg) = if is_empty cfg.site.name then app_name else cfg.site.name

-- The entries of the navigation with their labels.
abbrev pub nav_entries : List (Text × Message)
nav_entries =
    (codes "/admin", t "nav.dashboard")
    ∷ (codes "/admin/links", t "nav.links")
    ∷ (codes "/admin/logs", t "nav.logs")
    ∷ (codes "/admin/settings", t "nav.settings")
    ∷ []

-- One entry: whether the whole path must match is decided by `to === '/admin'`. `matches` is the
-- router's test of a path against an entry's target.
unfoldable pub is_active : (Bool → Text → Text → Bool) → Text → Text → Bool
is_active matches path to = matches (same to (codes "/admin")) to path

unfoldable pub nav_nodes : List (Text × Message) → List (Node Event)
nav_nodes [] = []
nav_nodes ((to, label) ∷ entries) = button label false (nav_clicked to) ∷ nav_nodes entries

-- The page goes to the login page whatever the call of the API ends in.
unfoldable pub logged_out : Outcome (Unit {0}) → Text
logged_out o = codes "/admin/login"

abbrev theme_label : Theme → Message
theme_label dark = t "app.dark"
theme_label light = t "app.light"
theme_label system = t "app.system"

-- The label of the language in use: the two characters of Chinese, or English.
abbrev language_label : Option Text → Text
language_label language = if is_chinese language then 0x4e2d ∷ 0x6587 ∷ [] else codes "English"

module _ (app_name : Text) (app_mode : Bool) (cfg : Option AppConfig) where
  unfoldable pub sidebar : Theme → Option Text → List (Node Event)
  sidebar theme language =
      value (site_name app_name cfg) ∷ text (t "app.tagline") ∷ nav_nodes nav_entries
      ++ button (theme_label theme) false theme_clicked
        ∷ button (plain (language_label language)) false language_clicked
        ∷ when (not app_mode) (button (t "nav.logout") false logout_clicked ∷ [])

  unfoldable pub top_bar : List (Node Event)
  top_bar = value (site_name app_name cfg) ∷ button (t "app.menu") false open_clicked ∷ []

  unfoldable pub footer : Text → Text → List (Node Event)
  footer repository version =
      value (site_name app_name cfg)
      ∷ link (t "footer.openSource") repository (codes "_blank")
      ∷ value (b'v' ∷ version)
      ∷ []

  unfoldable pub shows_drawer : Drawer → Bool
  shows_drawer d = d.mobile_open || d.mobile_closing

  unfoldable pub drawer_nodes : Drawer → Theme → Option Text → List (Node Event)
  drawer_nodes d theme language =
      when (shows_drawer d) (button (t "common.close") false close_clicked ∷ sidebar theme language)

-- `settleTo ?? dragX ?? (mobileOpen ? 0 : DRAWER_W)`: where the drawer's left edge stands.
unfoldable pub drawer_edge : Drawer → ℕ
drawer_edge d = or_else d.settle_to (or_else d.drag_x (if d.mobile_open then 0 else drawer_w))

-- The edge follows the finger at once, and else with a transition.
unfoldable pub slides : Drawer → Bool
slides d = not (is_some d.drag_x)
