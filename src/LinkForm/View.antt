-- ===== src/LinkForm/View.antt =====
-- What the link form of frontend/src/components/LinkFormDialog.tsx and the date field of
-- frontend/src/components/DateInput.tsx show.
use gourl.Common.{false, not, Option, none, some, or_else, List, [], ◌∷◌, ◌++◌, Text, is_empty}
use gourl.Api.Types.{Link, t, plain, Message}
use gourl.Batch.Dates.{parse_date}
use gourl.Markup.{Node, text, button, input, when, embed}
use gourl.LinkForm.{Form, Scheme, http, https, prefix_of}
use gourl.LinkForm.DateField.{Field}

pub data DateEvent : Type 0 where
  date_typed : Text → DateEvent
  date_left cleared picker_opened : DateEvent

-- The text, the button that clears it, the button of the calendar, and the browser's own date
-- field behind it.
unfoldable pub date_nodes : Message → Field → List (Node DateEvent)
date_nodes label f =
    input label f.text date_typed (some date_left)
      ∷ when (not (is_empty f.text)) (button (t "common.clear") false cleared ∷ [])
    ++ button (t "common.pickDate") false picker_opened
      ∷ input label (or_else (parse_date f.text) []) date_typed none
      ∷ []

pub data Event : Type 0 where
  url_typed code_typed description_typed : Text → Event
  scheme_clicked : Scheme → Event
  on_date : DateEvent → Event
  cancelled submitted : Event

abbrev title_of : Option Link → Message
title_of none = t "form.createTitle"
title_of (some link) = t "form.editTitle"

unfoldable pub view : Option Link → Form → Field → List (Node Event)
view link f date =
    text (title_of link)
      ∷ input (t "form.url") f.url url_typed none
      ∷ text (t "form.schemeHint")
      ∷ button (plain (prefix_of http)) false (scheme_clicked http)
      ∷ button (plain (prefix_of https)) false (scheme_clicked https)
      ∷ input (t "form.code") f.code code_typed none
      ∷ input (t "form.description") f.description description_typed none
      ∷ embed on_date (date_nodes (t "form.expiresAt") date)
    ++ button (t "form.cancel") false cancelled ∷ button (t "form.save") f.busy submitted ∷ []
