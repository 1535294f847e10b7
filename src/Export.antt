-- ===== src/Export.antt =====
-- frontend/src/components/ExportDialog.tsx: exporting the links to a file.
pub mod View
use gourl.Common.{Bool, true, false, if◌then◌else◌, List, [], ◌∷◌, Text, codes, same}
use gourl.Platform.Clock.{LocalTime}
use gourl.Api.Types.{
  Outcome, resolved, rejected, thrown, Message, t_text, plain, Kind, success, failure,
}
use gourl.Device.Sharing.{Saved, browser_download, saved_at, save_error, export_filename}

-- What a format's fetch gives.
pub record Payload : Type 0 where
  pub content : Text
  pub base64 : Bool
  pub mime : Text

pub data Effect : Type 0 where
  toast : Message → Kind → Effect
  on_close : Effect

unfoldable pub mime_to_ext : Text → Text
mime_to_ext mime =
    if same mime (codes "text/csv")
    then codes "csv"
    else if same mime (codes "text/markdown")
    then codes "md"
    else codes "json"

-- The payloads of the three formats; the first two are blobs, read as base64.
abbrev pub csv_payload : Text → Payload
csv_payload blob = record { content = blob; base64 = true; mime = codes "text/csv" }

abbrev pub markdown_payload : Text → Payload
markdown_payload blob = record { content = blob; base64 = true; mime = codes "text/markdown" }

abbrev pub json_payload : Text → Payload
json_payload printed = record { content = printed; base64 = false; mime = codes "application/json" }

-- `withBusy`, up to the fetch: the busy flag, and whether the payload is fetched.
unfoldable pub with_busy : Bool → Bool × Bool
with_busy busy = (true, if busy then false else true)

-- The name under which the payload is saved, at the local time `d`.
unfoldable pub payload_filename : LocalTime → Payload → Text
payload_filename d p = export_filename (codes "links") (mime_to_ext p.mime) d

abbrev pub saved_effects : Saved → List Effect
saved_effects browser_download = on_close ∷ []
saved_effects (saved_at path) = toast (t_text "links.downloadedTo" path) success ∷ on_close ∷ []
saved_effects (save_error m) = toast (plain m) failure ∷ []

-- `withBusy`, when the fetch has ended: the busy flag and the effects. `save` is `saveDownload`.
unfoldable pub exported : (Payload → Saved) → Outcome Payload → Bool × List Effect
exported save (resolved p) = (false, saved_effects (save p))
exported save (rejected e) = (false, toast (plain e.message) failure ∷ [])
exported save (thrown m) = (false, toast (plain m) failure ∷ [])
