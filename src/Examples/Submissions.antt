-- ===== src/Examples/Submissions.antt =====
-- The batch-create dialog and the autosave of the settings.
use gourl.Common.{
  true, false, none, some, [], ◌∷◌, codes, ◌≡◌, refl, trim, trim_start, trim_end, is_space, split,
  starts_with,
}
use gourl.Api.Types.{AppConfig, BatchCreateResponse, created, resolved}
use gourl.Batch.{
  parse_batch_line, after_code, code_part, after_trim, date_part, url_part, is_absolute_url,
  bracket,
}
use gourl.BatchDialog.{
  Dialog, Request, newline, settle, on_create, validate, validate_from, validate_line, retry,
  no_validation,
}
use gourl.BatchDialog.Retry.{retry-settle}
use gourl.Settings.{body_of, no_drafts}
use gourl.Settings.Autosave.{
  System, switched, ended, blurred, on_events, IsSingleFlight, on_events-IsSingleFlight, idle,
  render, resent_without_changes,
}
use gourl.BatchDialog
use gourl.Examples.Values.{parse_url, get_time, config}

abbrev one_created : BatchCreateResponse
one_created = record {
  created = 1;
  failed = 1;
  succeeded = 1;
  skipped = 0;
  updated = 0;
  failed_codes = [];
  skipped_codes = [];
  updated_codes = [];
  results =
      record {
        index = 0;
        url = codes "http://y";
        status = created;
        code = none;
        error_code = none;
        error_message = none;
      }
      ∷ [];
}

abbrev batch_dialog : Dialog
batch_dialog = record {
  text = codes "http://y";
  busy = false;
  failures = [];
  validation = no_validation;
}

abbrev one_line : Request
one_line = record {
  lines = codes "http://y" ∷ [];
  items = record { url = codes "http://y"; code = none; expires_at = none } ∷ [];
}

abbrev validated : Dialog
validated = record {
  text = codes "http://y";
  busy = true;
  failures = [];
  validation = record { items = one_line.items; valid_lines = one_line.lines; error_lines = [] };
}

created_request : on_create parse_url get_time batch_dialog ≡ (validated, some one_line)
unfolding on_create validate validate_from validate_line parse_batch_line after_code code_part
    after_trim date_part url_part is_absolute_url trim trim_start trim_end is_space split
    BatchDialog.submit bracket starts_with
created_request = refl

retry-settle_example :
    (retry (settle one_line (resolved one_created) validated).0).1 ≡ some one_line
retry-settle_example =
    retry-settle parse_url get_time batch_dialog validated one_line one_created created_request

abbrev debugging : AppConfig → AppConfig
debugging cfg = record cfg { log_level = codes "debug" }

abbrev hard : AppConfig → AppConfig
hard cfg = record cfg { hard_delete = true }

on_events-IsSingleFlight_example : IsSingleFlight (
    on_events
      (switched debugging (render config no_drafts)
        ∷ blurred (render config no_drafts)
        ∷ ended
        ∷ [])
      (idle config no_drafts))
on_events-IsSingleFlight_example =
    on_events-IsSingleFlight
      (switched debugging (render config no_drafts)
        ∷ blurred (render config no_drafts)
        ∷ ended
        ∷ [])
      (idle config no_drafts) (refl, refl)

abbrev twice : System
twice =
    on_events
      (switched debugging (render config no_drafts)
        ∷ switched hard (render (debugging config) no_drafts)
        ∷ ended
        ∷ ended
        ∷ [])
      (idle config no_drafts)

resent_without_changes_example :
    (twice.settings.shown.form ≡ some (hard (debugging config)))
    × (twice.sent ≡ body_of (debugging config) no_drafts ∷ body_of config no_drafts ∷ [])
    × (twice.flights ≡ [])
resent_without_changes_example = resent_without_changes config no_drafts debugging hard
