-- ===== src/Export/View.antt =====
-- What the export dialog of frontend/src/components/ExportDialog.tsx shows.
use gourl.Common.{Bool, false, List, [], ◌∷◌, codes}
use gourl.Api.Types.{t}
use gourl.Markup.{Node, text, button, link}

pub data Event : Type 0 where
  csv_clicked json_clicked markdown_clicked cancelled : Event

unfoldable pub view : Bool → List (Node Event)
view busy =
    text (t "links.exportTitle")
    ∷ button (t "links.exportCsv") busy csv_clicked
    ∷ button (t "links.exportJson") busy json_clicked
    ∷ button (t "links.exportMarkdown") busy markdown_clicked
    ∷ link (t "links.exportHint")
        (codes "https://raw.githubusercontent.com/wmy2981/gourl/main/scripts/db-export.mts")
        (codes "_blank")
    ∷ button (t "form.cancel") false cancelled
    ∷ []
