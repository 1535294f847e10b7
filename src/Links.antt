-- ===== src/Links.antt =====
-- frontend/src/pages/Links.tsx: the state of the links page and the handlers that change it.
pub mod Sets
pub mod View
pub mod Selection
pub mod Paging
pub mod Choice
pub mod Controls
pub mod Deletion
use Prim.Native.String.{String}
use gourl.Common.{
  ℕ, ◌+◌, ◌-◌, Bool, true, false, ◌&&◌, not, ltb, leb, ◌==◌, if◌then◌else◌, Option, none, some,
  List, [], ◌∷◌, map, Text, same, length,
}
use gourl.Api.Types.{
  Link, Outcome, resolved, rejected, thrown, Message, t, t_numbers, plain, Kind, success, failure,
  api_message,
}
use Sets.{set_add, set_delete, add_all, delete_all, all_in}

pub record Page : Type 0 where
  pub query : Text
  pub expires : Text
  pub page : ℕ
  pub form_open : Bool
  pub editing : Option Link
  pub qr_link : Option Link
  pub import_open : Bool
  pub export_open : Bool
  pub batch_open : Bool
  pub deleting : Option Link
  pub selected : List Text
  pub bulk_delete_open : Bool
  pub expired_confirm : Option ℕ
  pub copied : Text
  pub url_idx : List (Text × ℕ)
  pub url_menu : Option Text
  pub menu_closing : Bool

abbrev pub initial : Page
initial = record {
  query = [];
  expires = [];
  page = 1;
  form_open = false;
  editing = none;
  qr_link = none;
  import_open = false;
  export_open = false;
  batch_open = false;
  deleting = none;
  selected = [];
  bulk_delete_open = false;
  expired_confirm = none;
  copied = [];
  url_idx = [];
  url_menu = none;
  menu_closing = false;
}

-- The queries that the page invalidates.
pub data Query : Type 0 where
  links dashboard config : Query

pub data Effect : Type 0 where
  toast : Message → Kind → Effect
  invalidate : Query → Effect

-- A different search drops the selection and goes back to the first page.
unfoldable pub on_search : Text → Page → Page
on_search value p = record p { query = value; page = 1; selected = [] }

unfoldable pub on_filter : Text → Page → Page
on_filter value p = record p { expires = value; page = 1; selected = [] }

unfoldable pub toggle_row : Text → Bool → Page → Page
toggle_row code on p = record p {
  selected = if on then set_add code p.selected else set_delete code p.selected;
}

-- `togglePage`, over the codes of the page that is shown.
unfoldable pub toggle_page : List Text → Bool → Page → Page
toggle_page codes on p = record p {
  selected = if on then add_all codes p.selected else delete_all codes p.selected;
}

unfoldable pub all_page_selected : List Text → Page → Bool
all_page_selected codes p = ltb 0 (length codes) && all_in codes p.selected

unfoldable pub set_deleting : Option Link → Page → Page
set_deleting link p = record p { deleting = link }

-- `deleteMutation`, when the call has ended.
unfoldable pub delete_settled : Outcome (Unit {0}) → Page → Page × List Effect
delete_settled (resolved done) p = (
  record p { deleting = none },
  invalidate links ∷ invalidate dashboard ∷ toast (t "links.deleted") success ∷ [],
)
delete_settled failed p = (p, toast (api_message "common.error" failed) failure ∷ [])

-- `deleteSelectedMutation`, when the call has ended.
unfoldable pub delete_selected_settled : Outcome ℕ → Page → Page × List Effect
delete_selected_settled (resolved deleted) p = (
  record p { bulk_delete_open = false; selected = [] },
  invalidate links ∷ invalidate dashboard ∷ toast (t "links.deleted") success ∷ [],
)
delete_selected_settled failed p = (p, toast (api_message "common.error" failed) failure ∷ [])

-- `clearExpired`, when the count of expired links is in.
unfoldable pub clear_expired : Outcome ℕ → Page → Page × List Effect
clear_expired (resolved count) p =
    if count == 0
    then (p, toast (t "links.noExpired") success ∷ [])
    else (record p { expired_confirm = some count }, [])
clear_expired failed p = (p, toast (t "common.error") failure ∷ [])

-- `clearExpiredMutation`, when the call has ended.
unfoldable pub clear_expired_settled : Outcome ℕ → Page → Page × List Effect
clear_expired_settled (resolved deleted) p = (
  record p { expired_confirm = none },
  invalidate links
      ∷ invalidate dashboard
      ∷ toast (t_numbers "links.expiredCleared" (deleted ∷ [])) success
      ∷ [],
)
clear_expired_settled failed p = (p, toast (api_message "common.error" failed) failure ∷ [])

-- `copy`, when the clipboard has answered; a second event clears the mark later.
unfoldable pub copy_settled : Text → Bool → Page → Page × List Effect
copy_settled code true p = (record p { copied = code }, [])
copy_settled code false p = (p, toast (t "links.copyFailed") failure ∷ [])

unfoldable pub copied_over : Page → Page
copied_over p = record p { copied = [] }

unfoldable pub open_create : Page → Page
open_create p = record p { editing = none; form_open = true }

unfoldable pub open_edit : Link → Page → Page
open_edit link p = record p { editing = some link; form_open = true }

-- `setUrlIdx((m) => ({ ...m, [code]: i }))`
unfoldable pub put_index : Text → ℕ → List (Text × ℕ) → List (Text × ℕ)
put_index code i [] = (code, i) ∷ []
put_index code i ((k, j) ∷ m) = if same k code then (k, i) ∷ m else (k, j) ∷ put_index code i m

unfoldable pub index_of_url : Text → List (Text × ℕ) → ℕ
index_of_url code [] = 0
index_of_url code ((k, j) ∷ m) = if same k code then j else index_of_url code m

-- The menu of base URLs closes in two steps, the second after its animation.
unfoldable pub close_url_menu : Page → Page
close_url_menu p = if p.menu_closing then p else record p { menu_closing = true }

unfoldable pub url_menu_closed : Page → Page
url_menu_closed p = record p { menu_closing = false; url_menu = none }

abbrev pub menu_is : Option Text → Text → Bool
menu_is none code = false
menu_is (some open_code) code = same open_code code

unfoldable pub click_url_menu : Text → Page → Page
click_url_menu code p =
    if menu_is p.url_menu code then close_url_menu p else record p { url_menu = some code }

unfoldable pub pick_url : Text → ℕ → Page → Page
pick_url code i p = close_url_menu (record p { url_idx = put_index code i p.url_idx })

-- A scroll within 150 ms of the opening is ignored.
unfoldable pub on_scroll : ℕ → ℕ → Page → Page
on_scroll now opened_at p = if ltb (now - opened_at) 150 then p else record p { url_menu = none }

abbrev pub page_size : ℕ
page_size = 20

unfoldable pub prev_page : Page → Page
prev_page p = record p { page = p.page - 1 }

unfoldable pub next_page : Page → Page
next_page p = record p { page = p.page + 1 }
