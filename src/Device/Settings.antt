-- ===== src/Device/Settings.antt =====
-- The stored settings of the app: frontend/src/lib/appSettings.ts, and the language of i18n.ts.
use gourl.Common.{
  Bool, true, false, ◌&&◌, not, if◌then◌else◌, Option, none, some, is_some, Text, codes, same,
  starts_with, or_else, ◌≡◌, refl,
}
use gourl.Api.Storage.{Storage, no_select, haptics, lang, set_item, remove_item}

abbrev pub is_item : Option Text → Text → Bool
is_item none v = false
is_item (some w) v = same w v

-- `noSelectEnabled`, which also is the class that `applyNoSelect` sets.
unfoldable pub no_select_enabled : Storage → Bool
no_select_enabled s = is_item (s no_select) (codes "1")

unfoldable pub set_no_select : Bool → Storage → Storage
set_no_select enabled s =
    if enabled then set_item no_select (codes "1") s else remove_item no_select s

unfoldable pub haptics_enabled : Storage → Bool
haptics_enabled s = not (is_item (s haptics) (codes "0"))

unfoldable pub set_haptics_enabled : Bool → Storage → Storage
set_haptics_enabled enabled s =
    if enabled then remove_item haptics s else set_item haptics (codes "0") s

-- Each switch reads back as it was set, whatever was stored before, and leaves the other one as it
-- was.
pub switches_read_back :
    (on : Bool) (s : Storage)
    → (no_select_enabled (set_no_select on s) ≡ on)
      × (haptics_enabled (set_no_select on s) ≡ haptics_enabled s)
      × (haptics_enabled (set_haptics_enabled on s) ≡ on)
      × (no_select_enabled (set_haptics_enabled on s) ≡ no_select_enabled s)
unfolding no_select_enabled set_no_select haptics_enabled set_haptics_enabled same
switches_read_back true s = (refl, refl, refl, refl)
switches_read_back false s = (refl, refl, refl, refl)

-- `stored ?? detected`, with `lower` for `toLowerCase`
unfoldable pub start_language : (Text → Text) → Option Text → Storage → Text
start_language lower navigator_language s = or_else (s lang) (
    if is_some navigator_language
      && starts_with (lower (or_else navigator_language (codes ""))) (codes "zh")
    then codes "zh"
    else codes "en")

unfoldable pub set_language : Text → Storage → Storage
set_language language s = set_item lang language s

-- The language that the user has set is the one that the next start uses.
pub start_language-set_language :
    (lower : Text → Text) (navigator_language : Option Text) (language : Text) (s : Storage)
    → start_language lower navigator_language (set_language language s) ≡ language
unfolding start_language set_language
start_language-set_language lower navigator_language language s = refl
