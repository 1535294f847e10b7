-- ===== src/QrCode/View.antt =====
-- What the QR dialog of frontend/src/components/QRDialog.tsx shows.
use gourl.Common.{
  ℕ, suc, false, ltb, if◌then◌else◌, Option, none, some, List, [], ◌∷◌, ◌++◌, Text, length,
}
use gourl.Platform.{Url}
use gourl.Api.Types.{Link, t, plain}
use gourl.Markup.{Node, text, value, button}
use gourl.QrCode.{Qr, active}

pub data Event : Type 0 where
  download_clicked : Event
  variant_clicked : ℕ → Event

unfoldable pub on_event : Event → Qr → Qr
on_event download_clicked q = q
on_event (variant_clicked i) q = record q { index = i }

-- The button of one variant has the URL's host; `new URL` throws where the URL has none, and then
-- the dialog is not shown at all.
module _ (parse_url : Text → Option Url) where
  unfoldable pub variants : ℕ → List Text → Option (List (Node Event))
  variants i [] = some []
  variants i (u ∷ urls) = elim (parse_url u) [
    | none ↦ none
    | some url ↦ elim (variants (suc i) urls) [
      | none ↦ none
      | some nodes ↦ some (button (plain url.host) false (variant_clicked i) ∷ nodes)
    ]
  ]

  abbrev code_nodes : Option Text → List (Node Event)
  code_nodes none = text (t "common.error") ∷ []
  code_nodes (some url) = value url ∷ []

  abbrev switcher : List Text → Option (List (Node Event))
  switcher urls = if ltb 1 (length urls) then variants 0 urls else some []

  abbrev with_head : Link → List Text → Qr → Option (List (Node Event)) → Option (List (Node Event))
  with_head link urls q none = none
  with_head link urls q (some nodes) =
      some (value link.code ∷ (code_nodes (active urls q) ++ nodes))

  -- The code as its URL, and the buttons of the variants.
  unfoldable pub view : List Text → Qr → Option (List (Node Event))
  view urls q = elim q.shown [ none ↦ some [] | some link ↦ with_head link urls q (switcher urls) ]
