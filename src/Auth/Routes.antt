-- ===== src/Auth/Routes.antt =====
-- frontend/src/App.tsx: which page a path shows, the links into the app, and the back button.
use gourl.Common.{
  Bool, true, false, ◌&&◌, ◌||◌, not, if◌then◌else◌, Option, none, some, is_some, Text, codes, same,
  is_empty, ◌++◌, ◌≡◌, arith,
}
use gourl.Api.Types.{ServerConfig}

-- The paths under "/admin" that have a route; `unknown` is any other path.
pub data Route : Type 0 where
  login setup change_password connect dashboard links logs settings unknown : Route

pub data Page : Type 0 where
  login_page setup_page change_password_page connect_page : Page
  console : Route → Page

pub data Element : Type 0 where
  navigate : Route → Element
  show : Page → Element

-- What the routes depend on: the mode, the stored connection, and `configured` of the auth status
-- once it is known.
pub record Session : Type 0 where
  pub app_mode : Bool
  pub server : Option ServerConfig
  pub configured : Option Bool

-- `authStatus && !authStatus.configured`
abbrev pub unconfigured : Option Bool → Bool
unconfigured none = false
unconfigured (some c) = not c

-- `authStatus && authStatus.configured`
abbrev pub is_configured : Option Bool → Bool
is_configured none = false
is_configured (some c) = c

abbrev pub layout : Session → Route → Element
layout s r =
    if s.app_mode && not (is_some s.server)
    then navigate connect
    else if unconfigured s.configured && not s.app_mode
    then navigate setup
    else show (console r)

unfoldable pub element : Session → Route → Element
element s login =
    if s.app_mode
    then navigate connect
    else if unconfigured s.configured
    then navigate setup
    else show login_page
element s setup =
    if s.app_mode
    then navigate connect
    else if is_configured s.configured
    then navigate login
    else show setup_page
element s change_password =
    if unconfigured s.configured then navigate setup else show change_password_page
element s connect = show connect_page
element s dashboard = layout s dashboard
element s links = layout s links
element s logs = layout s logs
element s settings = layout s settings
element s unknown = navigate dashboard

-- What the browser comes to when it follows a redirect, if there is one.
abbrev follow_element : (Route → Element) → Element → Element
follow_element next (show p) = show p
follow_element next (navigate r) = next r

-- The route of `gourl://page`, for a host that is not a name which every object has.
unfoldable pub deep_link : Text → Route
deep_link host =
    if same host (codes "links")
    then links
    else if same host (codes "log")
    then logs
    else if same host (codes "settings")
    then settings
    else dashboard

pub data Back : Type 0 where
  escape move_to_background exit_app : Back

-- The `backButton` handler: an open dialog, and whether the bridge can move the task.
unfoldable pub on_back : Bool → Bool → Back
on_back dialog bridge = if dialog then escape else if bridge then move_to_background else exit_app

-- The class `dark` before the first paint.
unfoldable pub starts_dark : Option Text → Bool → Bool
starts_dark none prefers_dark = prefers_dark
starts_dark (some saved) prefers_dark =
    same saved (codes "dark") || (not (same saved (codes "light")) && prefers_dark)

abbrev is_shown : Element → Bool
is_shown (show p) = true
is_shown (navigate r) = false

-- From every path, in every session, two redirects at most lead to a page: no two routes send the
-- browser to each other.
redirects_end :
    (s : Session) (r : Route)
    → is_shown (follow_element (element s) (follow_element (element s) (element s r))) ≡ true
unfolding element
redirects_end s login = ground arith
redirects_end s setup = ground arith
redirects_end s change_password = ground arith
redirects_end s connect = ground arith
redirects_end s dashboard = ground arith
redirects_end s links = ground arith
redirects_end s logs = ground arith
redirects_end s settings = ground arith
redirects_end s unknown = ground arith

-- The console is shown only to an app that has a connection, or in a browser when the server is
-- not known to lack its password.
pub console_shown :
    (s : Session) (r c : Route)
    → element s r ≡ show (console c)
    → (if s.app_mode then is_some s.server else not (unconfigured s.configured)) ≡ true
unfolding element
console_shown s login c h = ground (arith, h)
console_shown s setup c h = ground (arith, h)
console_shown s change_password c h = ground (arith, h)
console_shown s connect c h = absurd (cc h)
console_shown s dashboard c h = ground (arith, h)
console_shown s links c h = ground (arith, h)
console_shown s logs c h = ground (arith, h)
console_shown s settings c h = ground (arith, h)
console_shown s unknown c h = absurd (cc h)

-- `a || b` of a name that may be missing.
abbrev name_or : Option Text → Text → Text
name_or none d = d
name_or (some name) d = if is_empty name then d else name

-- The title of the tab: the service's name on the login and setup pages, else the site's title.
unfoldable pub document_title : Text → Option Text → Option Text → Text
document_title pathname health_name site_title =
    if same pathname (codes "/admin/login") || same pathname (codes "/admin/setup")
    then name_or health_name (codes "gourl")
    else name_or site_title (codes "gourl")

-- The address of the tab's icon.
unfoldable pub favicon : Option Text → Text
favicon none = codes "/favicon.svg?t=default"
favicon (some icon) =
    codes "/favicon.svg?t=" ++ (if is_empty icon then codes "default" else codes "custom")
