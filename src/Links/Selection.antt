-- ===== src/Links/Selection.antt =====
-- The selection across pages.
use gourl.Common.{
  Bool, true, false, ◌&&◌, ◌||◌, not, if◌then◌else◌, List, [], ◌∷◌, Text, includes, same, same_refl,
  ◌≡◌, refl, arith,
}
use gourl.Links.{Page, toggle_page, toggle_row, all_page_selected}
use gourl.Links.Sets.{
  includes-add_all, includes-delete_all, includes-set_add, includes-set_delete, all_in, add_all,
}

-- Ticking the header selects every code of the page and keeps those of other pages; unticking it
-- drops the codes of the page alone.
pub toggle_page_selects :
    (codes : List Text) (on : Bool) (p : Page) (c : Text)
    → includes (toggle_page codes on p).selected c ≡ (
        if on
        then includes p.selected c || includes codes c
        else includes p.selected c && not (includes codes c))
unfolding toggle_page
toggle_page_selects codes true p c = includes-add_all codes p.selected c
toggle_page_selects codes false p c = includes-delete_all codes p.selected c

-- A row's box adds or drops its own code and no other.
pub toggle_row_selects :
    (code : Text) (on : Bool) (p : Page) (c : Text)
    → includes (toggle_row code on p).selected c
      ≡ (if same code c then on else includes p.selected c)
unfolding toggle_row
toggle_row_selects code true p c = ground (arith, includes-set_add code p.selected c)
toggle_row_selects code false p c = ground (arith, includes-set_delete code p.selected c)

all_in-includes :
    (cs s : List Text)
    → ((c : Text) → includes cs c ≡ true → includes s c ≡ true)
    → all_in cs s ≡ true
unfolding all_in includes
all_in-includes [] s h = refl
all_in-includes (c ∷ cs) s h =
    ground (arith, h c, same_refl c, all_in-includes cs s (λ d e. h d (ground (arith, e))))

-- After ticking the header of a page with links its box is ticked.
pub toggle_page-all_page_selected :
    (code : Text) (codes : List Text) (p : Page)
    → all_page_selected (code ∷ codes) (toggle_page (code ∷ codes) true p) ≡ true
unfolding all_page_selected toggle_page
toggle_page-all_page_selected code codes p = ground (
  arith,
  all_in-includes (code ∷ codes) (add_all (code ∷ codes) p.selected)
      (λ c e. ground (arith, e, includes-add_all (code ∷ codes) p.selected c)),
)
