-- ===== src/Links/View.antt =====
-- What the links page shows: the state of the list, each row, and the pager with its buttons.
use gourl.Common.{
  ℕ, suc, ◌+◌, ◌-◌, ◌*◌, ◌/◌, Bool, false, ◌&&◌, not, ltb, leb, ◌==◌, if◌then◌else◌, Option, none,
  some, is_some, List, [], ◌∷◌, ◌++◌, map, Text, same, is_empty, includes, length, get_elem?, max,
  zero,
}
use gourl.Platform.{ℤ, pos, negsuc}
use gourl.Platform.Decimal.{decimal, pad2}
use gourl.Platform.Clock.{LocalTime, month_number}
use gourl.Api.Types.{Link, LinkListResponse, AppConfig, ServerConfig}
use gourl.Api.Urls.{link_urls}
use gourl.Links.{Page, page_size, index_of_url, menu_is}

-- `Math.max(1, Math.ceil(data.total / PAGE_SIZE))`, and 1 without data
unfoldable pub total_pages : Option ℕ → ℕ
total_pages none = 1
total_pages (some total) = max 1 ((total + (page_size - 1)) / page_size)

-- `now` is `Date.now()` in milliseconds.
unfoldable pub is_expired : ℕ → Link → Bool
is_expired now link = elim link.expires_at [
  | pos e ↦ ltb 0 e && ltb (e * 1000) now
  | negsuc e ↦ false
]

abbrev pub print_time : LocalTime → Text
print_time d =
    decimal d.year
    ++ b'/'
      ∷ (pad2 (month_number d)
          ++ b'/' ∷ (pad2 d.day ++ b' ' ∷ (pad2 d.hours ++ b':' ∷ pad2 d.minutes)))

-- `none` is the translated "never".
unfoldable pub format_date : (ℕ → LocalTime) → ℤ → Option Text
format_date local_time (pos zero) = none
format_date local_time (pos (suc e)) = some (print_time (local_time (suc e * 1000)))
format_date local_time (negsuc e) = none

-- One entry of the menu of base URLs, with its check mark.
pub record MenuEntry : Type 0 where
  pub url : Text
  pub picked : Bool

pub record Row : Type 0 where
  pub checked : Bool
  pub code : Text
  pub current : Option Text
  pub copied : Bool
  pub has_arrow : Bool
  pub menu : Option (List MenuEntry)
  pub url : Text
  pub title : Option Text
  pub description : Option Text
  pub clicks : ℕ
  pub expired : Bool
  pub expires : Option Text

abbrev pub shown_text : Text → Option Text
shown_text [] = none
shown_text (c ∷ s) = some (c ∷ s)

-- `urls[idx] ?? urls[0]`; an empty text is not shown, but no short URL is empty
abbrev pub current_url : List Text → ℕ → Option Text
current_url urls idx = elim (get_elem? urls idx) [ some u ↦ some u | none ↦ get_elem? urls 0 ]

unfoldable pub menu_entries : ℕ → ℕ → List Text → List MenuEntry
menu_entries idx i [] = []
menu_entries idx i (u ∷ urls) =
    record { url = u; picked = i == idx } ∷ menu_entries idx (suc i) urls

module _ (now : ℕ) (local_time : ℕ → LocalTime) (server : Option ServerConfig) (origin : Text) where
  -- Without the configuration there are no URLs.
  abbrev pub row_urls : Option AppConfig → Link → List Text
  row_urls none link = []
  row_urls (some cfg) link = link_urls link.code cfg server origin

  unfoldable pub row : Option AppConfig → Page → Link → Row
  row cfg p link =
      let urls = row_urls cfg link in
      let idx = index_of_url link.code p.url_idx in
      let current = current_url urls idx in
      record {
        checked = includes p.selected link.code;
        code = link.code;
        current = current;
        copied = is_some current && same p.copied link.code;
        has_arrow = is_some current && ltb 1 (length urls);
        menu =
            if is_some current && menu_is p.url_menu link.code && ltb 1 (length urls)
            then some (menu_entries idx 0 urls)
            else none;
        url = link.url;
        title = shown_text link.title;
        description = shown_text link.description;
        clicks = link.click_count;
        expired = is_expired now link;
        expires = format_date local_time link.expires_at;
      }

-- The pager below the table; it is shown only where there is more than one page.
pub record Pager : Type 0 where
  pub page : ℕ
  pub pages : ℕ
  pub total : ℕ
  pub prev_enabled : Bool
  pub next_enabled : Bool

unfoldable pub pager : Page → ℕ → Option Pager
pager p total =
    let pages = total_pages (some total) in
    if ltb 1 pages
    then some (record {
      page = p.page;
      pages = pages;
      total = total;
      prev_enabled = not (leb p.page 1);
      next_enabled = not (leb pages p.page);
    })
    else none

pub data Body : Type 0 where
  loading error no_results empty : Body
  table : Bool → List Row → Option Pager → Body

-- The query's state: `isLoading`, `isError`, `data`.
pub record QueryState : Type 0 where
  pub is_loading : Bool
  pub is_error : Bool
  pub response : Option LinkListResponse

abbrev pub list_body : (Link → Row) → Bool → Page → LinkListResponse → Body
list_body show all_selected p res = elim res.links [
  | [] ↦ if is_empty p.query then empty else no_results
  | link ∷ rest ↦ table all_selected (map show (link ∷ rest)) (pager p res.total)
]

unfoldable pub body : (Link → Row) → Bool → Page → QueryState → Body
body show all_selected p q =
    if q.is_loading
    then loading
    else if q.is_error
    then error
    else elim q.response [ none ↦ error | some res ↦ list_body show all_selected p res ]

-- The red button for the selection, with its count.
unfoldable pub selection_bar : Page → Option ℕ
selection_bar p = if ltb 0 (length p.selected) then some (length p.selected) else none
