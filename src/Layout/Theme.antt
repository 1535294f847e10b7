-- ===== src/Layout/Theme.antt =====
-- The theme of frontend/src/components/Layout.tsx, the switch of the language, and the icon.
use gourl.Common.{
  Bool, true, false, not, if◌then◌else◌, Option, none, some, Text, codes, same, starts_with, ◌≡◌,
  refl,
}
use gourl.Api.Storage.{Storage, theme, set_item}
use gourl.Auth.Routes.{starts_dark}

pub data Theme : Type 0 where
  light dark system : Theme

abbrev pub name_of : Theme → Text
name_of light = codes "light"
name_of dark = codes "dark"
name_of system = codes "system"

-- The theme that `useState` starts with.
unfoldable pub saved_theme : Option Text → Theme
saved_theme none = system
saved_theme (some saved) =
    if same saved (codes "light") then light else if same saved (codes "dark") then dark else system

-- Whether the class `dark` is set.
unfoldable pub is_dark : Theme → Bool → Bool
is_dark light prefers_dark = false
is_dark dark prefers_dark = true
is_dark system prefers_dark = prefers_dark

unfoldable pub next_theme : Theme → Theme
next_theme light = dark
next_theme dark = system
next_theme system = light

-- `cycle`
unfoldable pub cycle : Theme × Storage → Theme × Storage
cycle (current, s) = (next_theme current, set_item theme (name_of (next_theme current)) s)

-- After a click on the theme button a new load of the page starts with the theme that is shown:
-- the class of the first paint and the class of the page agree.
pub saved_theme-cycle :
    (current : Theme) (s : Storage) (prefers_dark : Bool)
    → let (now, stored) = cycle (current, s) in
      (saved_theme (stored theme) ≡ now)
      × (starts_dark (stored theme) prefers_dark ≡ is_dark now prefers_dark)
unfolding cycle saved_theme next_theme is_dark starts_dark same
saved_theme-cycle light s prefers_dark = (refl, refl)
saved_theme-cycle dark s prefers_dark = (refl, refl)
saved_theme-cycle system s prefers_dark = (refl, refl)

-- `lang` and `switchLang`: the language that is set, from the one in use.
unfoldable pub is_chinese : Option Text → Bool
is_chinese none = false
is_chinese (some language) = starts_with language (codes "zh")

unfoldable pub switch_lang : Option Text → Text
switch_lang language = if is_chinese language then codes "en" else codes "zh"

-- The icon: the custom one, unless it is the one that failed to load.
unfoldable pub icon_src : Option Text → Option Text → Text → Text
icon_src none failed icon_url = icon_url
icon_src (some custom) none icon_url = custom
icon_src (some custom) (some failed) icon_url =
    if not (same failed custom) then custom else icon_url
