-- ===== src/Links/Paging.antt =====
-- The page number against the number of pages.
use gourl.Common.{
  ℕ, suc, ◌*◌, ◌≤◌, ◌<◌, Bool, true, false, not, leb, if◌then◌else◌, some, List, [], ◌≡◌, refl,
  arith, is_empty,
}
use gourl.Api.Types.{Link, Outcome, resolved, rejected, thrown}
use gourl.Links.{Page, page_size, prev_page, next_page, delete_settled}
use gourl.Links.View.{total_pages, Pager, pager, body, Row, QueryState, empty, no_results}

abbrev pub InRange : Page → ℕ → Type 0
InRange p total = (1 ≤ p.page) × (p.page ≤ total_pages (some total))

-- Every link has a page: `total` links fit on `total_pages` pages of twenty, of which there is one
-- at least, and they fit on no smaller positive number of pages.
pub total_pages_fits :
    (total n : ℕ)
    → 1 ≤ n
    → total ≤ n * 20
    → (total ≤ total_pages (some total) * 20)
      × (1 ≤ total_pages (some total))
      × (total_pages (some total) ≤ n)
unfolding total_pages
total_pages_fits total n h k = (omega arith, omega arith, omega arith)

prev_page-InRange :
    (p : Page) (total : ℕ)
    → InRange p total
    → not (leb p.page 1) ≡ true
    → InRange (prev_page p) total
unfolding prev_page
prev_page-InRange p total (low, high) h = (ground (arith, low, h), ground (arith, high))

next_page-InRange :
    (p : Page) (total : ℕ)
    → InRange p total
    → not (leb (total_pages (some total)) p.page) ≡ true
    → InRange (next_page p) total
unfolding next_page
next_page-InRange p total (low, high) h = (ground (arith, low), ground (arith, h))

-- Where the pager is shown, its enabled "previous" button keeps the page within the pages.
pub pager-prev_page :
    (p : Page) (total : ℕ) (b : Pager)
    → InRange p total
    → pager p total ≡ some b
    → b.prev_enabled ≡ true
    → InRange (prev_page p) total
unfolding pager
pager-prev_page p total b range shown h = prev_page-InRange p total range (ground (arith, shown, h))

-- Where the pager is shown, its enabled "next" button keeps the page between 1 and the number of
-- pages.
pub pager-next_page :
    (p : Page) (total : ℕ) (b : Pager)
    → InRange p total
    → pager p total ≡ some b
    → b.next_enabled ≡ true
    → InRange (next_page p) total
unfolding pager
pager-next_page p total b range shown h = next_page-InRange p total range (ground (arith, shown, h))

abbrev pub loaded : List Link → ℕ → ℕ → QueryState
loaded ls total page = record {
  is_loading = false;
  is_error = false;
  response = some (record { links = ls; total = total; page = page; page_size = page_size });
}

-- A deletion never changes the page number: when it takes the only link of the last page, the
-- number is beyond the pages of the links that are left, and the answer for it, which has no
-- links, is shown as an empty list without a pager.
pub delete_settled_strands :
    (o : Outcome (Unit {0})) (p : Page) (n : ℕ) (show : Link → Row) (all_selected : Bool)
    → p.page ≡ suc (suc n)
    → (total_pages (some (suc n * 20)) < (delete_settled o p).0.page)
      × (body show all_selected (delete_settled o p).0 (loaded [] (suc n * 20) p.page)
          ≡ (if is_empty p.query then empty else no_results))
unfolding total_pages body delete_settled
delete_settled_strands (resolved done) p n show all_selected e = (omega (arith, e), refl)
delete_settled_strands (rejected err) p n show all_selected e = (omega (arith, e), refl)
delete_settled_strands (thrown m) p n show all_selected e = (omega (arith, e), refl)
