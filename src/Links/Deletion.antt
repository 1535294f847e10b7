-- ===== src/Links/Deletion.antt =====
-- What the deletions of frontend/src/pages/Links.tsx send.
use gourl.Common.{true, false, some, List, Text, includes, ◌≡◌, refl}
use gourl.Api.Endpoints.{delete_links}
use gourl.Links.{initial}
use gourl.Links.Choice.{Op, run, choose_all, distinct, run-Implements_choice}
use gourl.Links.Controls.{call_of, bulk_confirmed}

-- From a page where nothing is selected: the confirmed bulk deletion sends, after any run of the
-- handlers, a list of codes that holds each chosen code once and no other.
pub call_of-run :
    (os : List Op)
    → (cs : List Text) × (call_of bulk_confirmed (run os initial) ≡ some (delete_links cs))
      × (distinct cs ≡ true)
      × ((c : Text) → includes cs c ≡ choose_all os (λ d. false) c)
unfolding call_of
call_of-run os =
    let p = run os initial in
    let h =
      run-Implements_choice os initial (λ d. false)
        (record { marked = λ c. unfold includes in refl; once = unfold distinct in refl }) in
    (p.selected, refl, h.once, h.marked)
