-- ===== src/Links/Controls.antt =====
-- The controls of frontend/src/pages/Links.tsx outside the table: the buttons above it, the search
-- and the filter, the selection's bar, the pager and the three dialogs that confirm a deletion.
use gourl.Common.{
  ℕ, Bool, true, false, not, Option, none, some, List, [], ◌∷◌, ◌++◌, Text, codes, length, ◌+◌,
}
use Prim.Native.String.{String}
use gourl.Api.Types.{Link, Message, t, t_numbers}
use gourl.Api.Endpoints.{Call, delete_link, delete_links, delete_expired, expired_count}
use gourl.Markup.{Node, text, value, button, input, select, checkbox, link, when}
use gourl.Links.{
  Page, on_search, on_filter, toggle_row, toggle_page, set_deleting, open_create, open_edit,
  click_url_menu, pick_url, prev_page, next_page,
}
use gourl.Links.View.{Row, MenuEntry, Pager, selection_bar}

pub data Event : Type 0 where
  refresh_clicked import_clicked export_clicked batch_clicked create_clicked : Event
  searched filtered : Text → Event
  clear_clicked delete_selected_clicked : Event
  header_ticked : Bool → Event
  row_ticked : Text → Bool → Event
  qr_clicked : Link → Event
  copy_clicked share_clicked : Text → Text → Event
  url_menu_clicked : Text → Event
  url_picked : Text → ℕ → Event
  edit_clicked delete_clicked : Link → Event
  prev_clicked next_clicked : Event
  delete_cancelled bulk_cancelled clear_cancelled : Event
  delete_confirmed bulk_confirmed clear_confirmed : Event

-- What each handler does before it waits; `shown` are the codes of the page that is shown.
unfoldable pub on_event : List Text → Event → Page → Page
on_event shown import_clicked p = record p { import_open = true }
on_event shown export_clicked p = record p { export_open = true }
on_event shown batch_clicked p = record p { batch_open = true }
on_event shown create_clicked p = open_create p
on_event shown (searched v) p = on_search v p
on_event shown (filtered v) p = on_filter v p
on_event shown delete_selected_clicked p = record p { bulk_delete_open = true }
on_event shown (header_ticked on) p = toggle_page shown on p
on_event shown (row_ticked code on) p = toggle_row code on p
on_event shown (qr_clicked l) p = record p { qr_link = some l }
on_event shown (url_menu_clicked code) p = click_url_menu code p
on_event shown (url_picked code i) p = pick_url code i p
on_event shown (edit_clicked l) p = open_edit l p
on_event shown (delete_clicked l) p = set_deleting (some l) p
on_event shown prev_clicked p = prev_page p
on_event shown next_clicked p = next_page p
on_event shown delete_cancelled p = set_deleting none p
on_event shown bulk_cancelled p = record p { bulk_delete_open = false }
on_event shown clear_cancelled p = record p { expired_confirm = none }
on_event shown _ p = p

abbrev deletion_of : Option Link → Option Call
deletion_of none = none
deletion_of (some l) = some (delete_link l.code)

-- The call of the API that a handler makes.
unfoldable pub call_of : Event → Page → Option Call
call_of clear_clicked p = some expired_count
call_of delete_confirmed p = deletion_of p.deleting
call_of bulk_confirmed p = some (delete_links p.selected)
call_of clear_confirmed p = some delete_expired
call_of _ p = none

unfoldable pub toolbar : List (Node Event)
toolbar =
    text (t "links.heading")
    ∷ button (t "links.refresh") false refresh_clicked
    ∷ button (t "links.import") false import_clicked
    ∷ button (t "links.export") false export_clicked
    ∷ button (t "links.batchCreate") false batch_clicked
    ∷ button (t "links.create") false create_clicked
    ∷ []

abbrev expiry_options : List (Text × Message)
expiry_options =
    ([], t "links.filterAll")
    ∷ (codes "active", t "links.filterActive")
    ∷ (codes "expired", t "links.filterExpired")
    ∷ []

abbrev selected_count : Option ℕ → List (Node Event)
selected_count none = []
selected_count (some n) =
    text (t_numbers "links.selected" (n ∷ []))
    ∷ button (t "links.deleteSelected") false delete_selected_clicked
    ∷ []

unfoldable pub filters : Page → List (Node Event)
filters p =
    input (t "links.search") p.query searched none
    ∷ select (t "links.filterExpires") p.expires expiry_options filtered
    ∷ button (t "links.clearExpired") false clear_clicked
    ∷ selected_count (selection_bar p)

unfoldable pub table_head : Bool → List (Node Event)
table_head all_selected =
    checkbox (t "links.selectAll") all_selected header_ticked
    ∷ text (t "links.shortUrl")
    ∷ text (t "links.destination")
    ∷ text (t "links.description")
    ∷ text (t "links.clicks")
    ∷ text (t "links.expires")
    ∷ text (t "links.actions")
    ∷ []

abbrev menu_nodes : Text → ℕ → List MenuEntry → List (Node Event)
menu_nodes code i [] = []
menu_nodes code i (e ∷ es) =
    value e.url
    ∷ button (t "links.pickBaseUrl") false (url_picked code i)
    ∷ menu_nodes code (i + 1) es

abbrev open_menu : Text → Option (List MenuEntry) → List (Node Event)
open_menu code none = []
open_menu code (some entries) = menu_nodes code 0 entries

-- The copy, share and menu buttons of a row that has a URL.
abbrev url_controls : Row → List (Node Event)
url_controls r = elim r.current [
  | none ↦ []
  | some url ↦
      button (t "links.copy") false (copy_clicked r.code url)
      ∷ button (t "links.share") false (share_clicked r.code url)
      ∷ button (t "links.pickBaseUrl") false (url_menu_clicked r.code)
      ∷ value url
      ∷ open_menu r.code r.menu
]

abbrev or_dash : Option Text → Text
or_dash none = 0x2014 ∷ []
or_dash (some s) = s

abbrev shown_title : Option Text → List (Node Event)
shown_title none = []
shown_title (some s) = value s ∷ []

unfoldable pub row_nodes : Link → Row → List (Node Event)
row_nodes l r =
    checkbox (t "links.selectRow") r.checked (row_ticked r.code)
      ∷ button (t "links.qr") false (qr_clicked l)
      ∷ value r.code
      ∷ url_controls r
    ++ link (t "links.destination") r.url (codes "_blank") ∷ shown_title r.title
    ++ value (or_dash r.description)
      ∷ button (t "links.edit") false (edit_clicked l)
      ∷ button (t "links.delete") false (delete_clicked l)
      ∷ []

unfoldable pub pager_nodes : Option Pager → List (Node Event)
pager_nodes none = []
pager_nodes (some g) =
    text (t_numbers "links.page" (g.page ∷ g.pages ∷ g.total ∷ []))
    ∷ button (t "links.prevPage") (not g.prev_enabled) prev_clicked
    ∷ button (t "links.nextPage") (not g.next_enabled) next_clicked
    ∷ []

-- A dialog that asks before a deletion; while the request runs the red button is disabled.
abbrev confirm_dialog : String → List (Node Event) → Event → Bool → Event → List (Node Event)
confirm_dialog title content cancel is_pending confirm =
    text (t title) ∷ content
    ++ button (t "common.cancel") false cancel ∷ button (t "common.delete") is_pending confirm ∷ []

unfoldable pub delete_dialog : Bool → Page → List (Node Event)
delete_dialog is_pending p = elim p.deleting [
  | none ↦ []
  | some l ↦
      confirm_dialog "links.delete"
        (text (t "links.deleteConfirm") ∷ value l.code ∷ value l.url ∷ []) delete_cancelled
        is_pending delete_confirmed
]

unfoldable pub bulk_dialog : Bool → Page → List (Node Event)
bulk_dialog is_pending p = when p.bulk_delete_open (
    confirm_dialog "links.bulkDeleteTitle"
      (text (t_numbers "links.bulkDeleteConfirm" (length p.selected ∷ [])) ∷ []) bulk_cancelled
      is_pending bulk_confirmed)

unfoldable pub expired_dialog : Bool → Page → List (Node Event)
expired_dialog is_pending p = elim p.expired_confirm [
  | none ↦ []
  | some count ↦
      confirm_dialog "links.clearExpired"
        (text (t_numbers "links.clearExpiredConfirm" (count ∷ [])) ∷ []) clear_cancelled is_pending
        clear_confirmed
]
