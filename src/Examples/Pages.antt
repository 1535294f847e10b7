-- ===== src/Examples/Pages.antt =====
-- The pages and dialogs.
use gourl.Common.{
  get_elem?, is_some, ℕ, ◌-◌, ◌*◌, ◌<◌, true, false, ltb, if◌then◌else◌, none, some, List, [], ◌∷◌,
  ◌++◌, Text, codes, is_empty, take, ◌≡◌, refl, arith,
}
use gourl.Api.Types.{Link, resolved}
use gourl.Links.{Page, initial, delete_settled}
use gourl.Links.View.{current_url, total_pages, Pager, pager, body, empty, no_results, Row}
use gourl.Links.Paging.{delete_settled_strands, loaded, InRange}
use gourl.Logs.{Logs, reversed, more_loaded, on_record}
use gourl.Logs.History.{more_loaded_repeats, ShowsNewest, answer}
use gourl.Layout.Drawer
use gourl.Ui
use gourl.Logs
use gourl.QrCode.{active, on_link, active-on_link}
use gourl.Examples.Values.{link}
use gourl.Layout.Drawer.{closed_drawer, Point}

abbrev first_of_three : Pager
first_of_three = record {
  page = 1;
  pages = 3;
  total = 41;
  prev_enabled = false;
  next_enabled = true;
}

initial-InRange : InRange initial 41
unfolding total_pages
initial-InRange = (omega arith, omega arith)

first_shown : pager initial 41 ≡ some first_of_three
unfolding pager total_pages
first_shown = refl

abbrev any_row : Link → Row
any_row link = record {
  checked = false;
  code = link.code;
  current = none;
  copied = false;
  has_arrow = false;
  menu = none;
  url = link.url;
  title = none;
  description = none;
  clicks = 0;
  expired = false;
  expires = none;
}

abbrev on_second_page : Page
on_second_page = record initial { page = 2; deleting = some link }

delete_settled_strands_example :
    (total_pages (some (1 * 20)) < (delete_settled (resolved tt) on_second_page).0.page)
    × (body any_row false (delete_settled (resolved tt) on_second_page).0 (loaded [] (1 * 20) 2)
        ≡ (if is_empty on_second_page.query then empty else no_results))
delete_settled_strands_example =
    delete_settled_strands (resolved tt) on_second_page 0 any_row false refl

abbrev log_page : Logs ℕ
log_page = record Logs.initial { records = 8 ∷ 9 ∷ []; history_offset = 2 }

shows_two : ShowsNewest (9 ∷ 8 ∷ 7 ∷ []) log_page
unfolding reversed
shows_two = refl

more_loaded_repeats_example :
    (more_loaded (answer (10 ∷ 9 ∷ 8 ∷ 7 ∷ []) 200 2) (on_record 10 log_page)).0.records
    ≡ reversed (take 199 (7 ∷ [])) ++ (8 ∷ 8 ∷ (reversed (take 1 (9 ∷ 8 ∷ 7 ∷ [])) ++ 10 ∷ []))
more_loaded_repeats_example =
    more_loaded_repeats (9 ∷ 8 ∷ 7 ∷ []) 10 8 1 (7 ∷ []) log_page shows_two refl refl

abbrev two_urls : List Text
two_urls = codes "http://a/x" ∷ codes "http://b/x" ∷ []

active-on_link_example :
    (current_url two_urls 5 ≡ (if ltb 5 2 then get_elem? two_urls 5 else get_elem? two_urls 0))
    × (active two_urls (on_link true (some link) 5 two_urls (record { shown = none; index = 0 }))
        ≡ (if ltb 5 2 then get_elem? two_urls 5 else get_elem? two_urls (2 - 1)))
active-on_link_example = active-on_link link two_urls 5 (record { shown = none; index = 0 })

abbrev from_point : Point
from_point = record { x = 300; y = 100 }

abbrev to_point : Point
to_point = record { x = 150; y = 110 }

on_events-IsSettled_example : Ui.Dialog.IsSettled (
    Ui.Dialog.on_events
      (Ui.Dialog.opened ∷ Ui.Dialog.closed ∷ Ui.Dialog.opened ∷ Ui.Dialog.timeout ∷ [])
      (Ui.Dialog.mounted false))
on_events-IsSettled_example =
    Ui.Dialog.on_events-IsSettled
      (Ui.Dialog.opened ∷ Ui.Dialog.closed ∷ Ui.Dialog.opened ∷ Ui.Dialog.timeout ∷ [])
      (Ui.Dialog.mounted false) (refl, refl, refl)

-- A drawer that was swiped open is closed by a tap before its opening has ended; the end of the
-- opening drops the reference to the closing timer, so the next swipe does not clear it, and the
-- timer takes the drawer down under the finger.
drawer_lost :
    let d =
      Drawer.on_events
        (Drawer.touch_start (some from_point) 360 false false
          ∷ Drawer.touch_move to_point
          ∷ Drawer.touch_end
          ∷ Drawer.close_tap
          ∷ Drawer.fires 0
          ∷ Drawer.touch_start (some from_point) 360 false false
          ∷ Drawer.touch_move to_point
          ∷ Drawer.fires 1
          ∷ [])
        closed_drawer in
    (d.mobile_open ≡ false) × (d.drag_active ≡ true) × (is_some d.drag_x ≡ true)
unfolding Drawer.on_events Drawer.on_event Drawer.on_touch_start Drawer.on_touch_move
    Drawer.finish_gesture Drawer.commit Drawer.clear_timer Drawer.set_timer Drawer.dragged
    Drawer.close_mobile Drawer.timer_fires Drawer.end_animation
drawer_lost = (refl, refl, refl)
