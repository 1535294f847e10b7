-- ===== src/Logs/View.antt =====
-- What the log page of frontend/src/pages/Logs.tsx shows, and the events of its controls.
use gourl.Common.{
  ℕ, Bool, false, ◌&&◌, not, ltb, if◌then◌else◌, Option, none, some, List, [], ◌∷◌, ◌++◌, map, Text,
  codes, is_empty, includes, join, ◌-◌,
}
use gourl.Platform.{ℤ}
use gourl.Platform.Clock.{LocalTime}
use gourl.Api.Types.{t, plain}
use gourl.Markup.{Node, text, value, button, input, when}
use gourl.Logs.{Logs, all_levels, toggle_level, jump_to_bottom}
use gourl.Logs.Filter.{LogRecord, Attr, string, other, filtered, fmt_time}

pub data Event : Type 0 where
  pause_clicked export_clicked more_clicked latest_clicked : Event
  level_clicked keyword_typed from_typed to_typed : Text → Event
  -- the scroll height, the position and the height of the window on the list
  scrolled : ℕ → ℕ → ℕ → Event

-- What each handler does at once; the export and the older records end in Logs.
unfoldable pub on_event : Event → Logs LogRecord → Logs LogRecord
on_event pause_clicked y = record y { paused = not y.paused }
on_event (level_clicked lv) y = toggle_level lv y
on_event (keyword_typed s) y = record y { keyword = s }
on_event (from_typed s) y = record y { from = s }
on_event (to_typed s) y = record y { to = s }
on_event latest_clicked y = jump_to_bottom y
on_event (scrolled height top client) y = record y {
  auto_follow = ltb ((height - top) - client) 40;
}
on_event _ y = y

-- Whether the list is scrolled down when its records change.
unfoldable pub follows : Logs LogRecord → Bool
follows y = y.auto_follow && not y.paused

-- The class of the dot and of the text of a level; none has its own.
unfoldable pub level_dot : Text → Text
level_dot level =
    if includes (codes "debug" ∷ []) level
    then codes "bg-muted/40"
    else if includes (codes "info" ∷ []) level
    then codes "bg-accent"
    else if includes (codes "warn" ∷ []) level
    then codes "bg-amber-500"
    else if includes (codes "error" ∷ []) level
    then codes "bg-danger"
    else codes "bg-muted/40"

abbrev plain_attr : Text × Attr → Text
plain_attr (k, string s) = k ++ b'=' ∷ s
plain_attr (k, other s) = k ++ b'=' ∷ s

abbrev attr_nodes : Option (List (Text × Attr)) → List (Node Event)
attr_nodes none = []
attr_nodes (some []) = []
attr_nodes (some (a ∷ attrs)) = value (join (32 ∷ []) (map plain_attr (a ∷ attrs))) ∷ []

abbrev level_nodes : List Text → List (Node Event)
level_nodes [] = []
level_nodes (lv ∷ lvs) = button (plain lv) false (level_clicked lv) ∷ level_nodes lvs

module _ (upper lower : Text → Text) (get_time : Text → Option ℤ) (json : List (Text × Attr) → Text)
    (local_time : ℤ → LocalTime) where
  unfoldable pub record_nodes : LogRecord → List (Node Event)
  record_nodes r =
      value (fmt_time upper lower get_time json local_time r.time)
      ∷ value (if is_empty r.level then 0x2014 ∷ [] else upper r.level)
      ∷ value r.message
      ∷ attr_nodes r.attrs

  abbrev all_records : List LogRecord → List (Node Event)
  all_records [] = []
  all_records (r ∷ rs) = record_nodes r ++ all_records rs

  abbrev list_nodes : List LogRecord → List (Node Event)
  list_nodes [] = text (t "logs.empty") ∷ []
  list_nodes (r ∷ rs) = all_records (r ∷ rs)

  unfoldable pub head_nodes : Logs LogRecord → List (Node Event)
  head_nodes y =
      text (t "nav.logs")
        ∷ text (if y.stream_down then t "logs.reconnecting" else t "logs.live")
        ∷ button (if y.paused then t "logs.resume" else t "logs.pause") false pause_clicked
        ∷ button (t "logs.export") false export_clicked
        ∷ level_nodes all_levels
      ++ input (t "logs.keyword") y.keyword keyword_typed none
        ∷ input (t "logs.from") y.from from_typed none
        ∷ input (t "logs.to") y.to to_typed none
        ∷ []

  unfoldable pub view : Logs LogRecord → List (Node Event)
  view y =
      head_nodes y
      ++ when (not y.history_available) (text (t "logs.noHistory") ∷ [])
      ++ (if y.history_loading
          then text (t "common.loading") ∷ []
          else list_nodes (filtered upper lower get_time json y))
      ++ when (not y.auto_follow) (button (t "logs.latest") false latest_clicked ∷ [])
      ++ when y.has_more (button (t "logs.loadMore") false more_clicked ∷ [])
