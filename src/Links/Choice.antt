-- ===== src/Links/Choice.antt =====
-- Runs of the links page's handlers, seen from the selection: the list of codes implements a set of
-- codes, given by its membership test. The other handlers of the page do not touch the selection.
use gourl.Common.{
  ℕ, Bool, true, false, ◌&&◌, not, if◌then◌else◌, List, [], ◌∷◌, ◌++◌, Text, same, same_iff,
  includes, ◌≡◌, refl, ◌∙◌, arith, Bool-cases, inl, inr,
}
use gourl.Api.Types.{Link, Outcome, resolved, rejected, thrown}
use gourl.Links.{
  Page, on_search, on_filter, toggle_row, toggle_page, prev_page, next_page, pick_url,
  close_url_menu, delete_settled, delete_selected_settled, open_edit,
}
use gourl.Links.Sets.{
  set_add, set_delete, add_all, delete_all, includes-append, includes-set_delete,
}
use gourl.Links.Selection.{toggle_page_selects, toggle_row_selects}

pub data Op : Type 0 where
  searched filtered : Text → Op
  row_ticked : Text → Bool → Op
  header_ticked : List Text → Bool → Op
  prev_clicked next_clicked : Op
  url_picked : Text → ℕ → Op
  edit_clicked : Link → Op
  deletion_ended : Outcome (Unit {0}) → Op
  bulk_deletion_ended : Outcome ℕ → Op

unfoldable pub on_op : Op → Page → Page
on_op (searched v) p = on_search v p
on_op (filtered v) p = on_filter v p
on_op (row_ticked code on) p = toggle_row code on p
on_op (header_ticked codes on) p = toggle_page codes on p
on_op prev_clicked p = prev_page p
on_op next_clicked p = next_page p
on_op (url_picked code i) p = pick_url code i p
on_op (edit_clicked link) p = open_edit link p
on_op (deletion_ended o) p = (delete_settled o p).0
on_op (bulk_deletion_ended o) p = (delete_selected_settled o p).0

unfoldable pub run : List Op → Page → Page
run [] p = p
run (o ∷ os) p = run os (on_op o p)

-- What the user sees of an event: which codes are chosen after it.
unfoldable pub choose : Op → (Text → Bool) → Text → Bool
choose (searched v) chosen c = false
choose (filtered v) chosen c = false
choose (row_ticked code on) chosen c = if same code c then on else chosen c
choose (header_ticked codes on) chosen c = if includes codes c then on else chosen c
choose prev_clicked chosen c = chosen c
choose next_clicked chosen c = chosen c
choose (url_picked code i) chosen c = chosen c
choose (edit_clicked link) chosen c = chosen c
choose (deletion_ended o) chosen c = chosen c
choose (bulk_deletion_ended (resolved n)) chosen c = false
choose (bulk_deletion_ended (rejected e)) chosen c = chosen c
choose (bulk_deletion_ended (thrown m)) chosen c = chosen c

unfoldable pub choose_all : List Op → (Text → Bool) → Text → Bool
choose_all [] chosen = chosen
choose_all (o ∷ os) chosen = choose_all os (choose o chosen)

-- No code stands twice in the list.
unfoldable pub distinct : List Text → Bool
distinct [] = true
distinct (c ∷ s) = not (includes s c) && distinct s

-- The page's selection holds exactly the chosen codes, each once.
pub record Implements (p : Page) (chosen : Text → Bool) : Type 0 where
  pub marked : (c : Text) → includes p.selected c ≡ chosen c
  pub once : distinct p.selected ≡ true

distinct-append :
    (s : List Text) (c : Text) → distinct (s ++ c ∷ []) ≡ (distinct s && not (includes s c))
unfolding distinct includes
distinct-append [] c = refl
distinct-append (d ∷ s) c =
    ground (arith, distinct-append s c, includes-append s (c ∷ []) d, same_iff c d, same_iff d c)

distinct-set_add : (c : Text) (s : List Text) → distinct s ≡ true → distinct (set_add c s) ≡ true
unfolding set_add
distinct-set_add c s h = ground (arith, h, distinct-append s c)

distinct-set_delete :
    (c : Text) (s : List Text) → distinct s ≡ true → distinct (set_delete c s) ≡ true
unfolding set_delete distinct
distinct-set_delete c [] h = refl
distinct-set_delete c (d ∷ s) h =
    ground (arith, h, distinct-set_delete c s, includes-set_delete c s d)

distinct-add_all : (cs s : List Text) → distinct s ≡ true → distinct (add_all cs s) ≡ true
unfolding add_all
distinct-add_all [] s h = h
distinct-add_all (c ∷ cs) s h = distinct-add_all cs (set_add c s) (distinct-set_add c s h)

distinct-delete_all : (cs s : List Text) → distinct s ≡ true → distinct (delete_all cs s) ≡ true
unfolding delete_all
distinct-delete_all [] s h = h
distinct-delete_all (c ∷ cs) s h =
    distinct-delete_all cs (set_delete c s) (distinct-set_delete c s h)

module _ (p : Page) (chosen : Text → Bool) (h : Implements p chosen) where
  row_ticked-Implements :
      (code : Text) (on : Bool)
      → Implements (toggle_row code on p) (choose (row_ticked code on) chosen)
  unfolding choose toggle_row
  row_ticked-Implements code true = record {
    marked = λ c. toggle_row_selects code true p c ∙ rw (h.marked c) refl;
    once = distinct-set_add code p.selected h.once;
  }
  row_ticked-Implements code false = record {
    marked = λ c. toggle_row_selects code false p c ∙ rw (h.marked c) refl;
    once = distinct-set_delete code p.selected h.once;
  }

  header_ticked-Implements :
      (codes : List Text) (on : Bool)
      → Implements (toggle_page codes on p) (choose (header_ticked codes on) chosen)
  unfolding choose toggle_page
  header_ticked-Implements codes true = record {
    marked = λ c. ground (arith, toggle_page_selects codes true p c, h.marked c);
    once = distinct-add_all codes p.selected h.once;
  }
  header_ticked-Implements codes false = record {
    marked = λ c. ground (arith, toggle_page_selects codes false p c, h.marked c);
    once = distinct-delete_all codes p.selected h.once;
  }

  pick_url-selected : (code : Text) (i : ℕ) → (pick_url code i p).selected ≡ p.selected
  unfolding pick_url close_url_menu
  pick_url-selected code i = elim (Bool-cases p.menu_closing) [
    | inl e ↦ rw (e) refl
    | inr e ↦ rw (e) refl
  ]

  on_op-Implements : (o : Op) → Implements (on_op o p) (choose o chosen)
  unfolding on_op choose on_search on_filter prev_page next_page open_edit delete_settled
      delete_selected_settled includes distinct
  on_op-Implements (searched v) = record { marked = λ c. refl; once = refl }
  on_op-Implements (filtered v) = record { marked = λ c. refl; once = refl }
  on_op-Implements (row_ticked code on) = row_ticked-Implements code on
  on_op-Implements (header_ticked codes on) = header_ticked-Implements codes on
  on_op-Implements prev_clicked = record { marked = h.marked; once = h.once }
  on_op-Implements next_clicked = record { marked = h.marked; once = h.once }
  on_op-Implements (url_picked code i) = record {
    marked = λ c. rw (pick_url-selected code i) (h.marked c);
    once = rw (pick_url-selected code i) h.once;
  }
  on_op-Implements (edit_clicked link) = record { marked = h.marked; once = h.once }
  on_op-Implements (deletion_ended (resolved u)) = record { marked = h.marked; once = h.once }
  on_op-Implements (deletion_ended (rejected e)) = record { marked = h.marked; once = h.once }
  on_op-Implements (deletion_ended (thrown m)) = record { marked = h.marked; once = h.once }
  on_op-Implements (bulk_deletion_ended (resolved n)) = record { marked = λ c. refl; once = refl }
  on_op-Implements (bulk_deletion_ended (rejected e)) = record { marked = h.marked; once = h.once }
  on_op-Implements (bulk_deletion_ended (thrown m)) = record { marked = h.marked; once = h.once }

-- From a page whose selection holds the chosen codes each once, every run of the handlers leads to
-- a page whose selection holds each once exactly the codes that are chosen after it: a search, a
-- filter and a bulk deletion that succeeded clear the choice, a row's box and the header's box set
-- it for their codes, and turning pages, editing, picking a URL, a failed bulk deletion and the
-- deletion of a single link keep it.
pub run-Implements_choice :
    (os : List Op) (p : Page) (chosen : Text → Bool)
    → Implements p chosen
    → Implements (run os p) (choose_all os chosen)
unfolding run choose_all
run-Implements_choice [] p chosen h = h
run-Implements_choice (o ∷ os) p chosen h =
    run-Implements_choice os (on_op o p) (choose o chosen) (on_op-Implements p chosen h o)
