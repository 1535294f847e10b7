-- ===== src/Examples/Edits.antt =====
-- An edit of a link, from the form to the database.
use gourl.Common.{◌+◌, ◌*◌, true, false, none, [], Text}
use gourl.Platform.{ℤ, pos}
use gourl.Platform.Clock.{LocalTime}
use gourl.Api.Types.{Link}
use gourl.LinkForm
use gourl.LinkForm.{Form, to_date, to_unix}
use gourl.Backend.Targets
use gourl.Backend.Update.{LinkStore, found, renamed, updated, update_link}
use gourl.Examples.Values.{link}

abbrev morning : ℤ → LocalTime
morning t = record { year = 1970; month = 0; day = 1; hours = 10; minutes = 0; seconds = 0 }

abbrev midnight : Text → ℤ
midnight s = pos 0

abbrev expiring : Link
expiring = record link { expires_at = pos 36000 }

abbrev edit_store : LinkStore
edit_store = record {
  now = pos 40000;
  get_link = λ code. found expiring;
  backup_link = λ l. true;
  rename_link = λ old code. renamed;
  update_link = λ l. updated;
}

abbrev edit_form : Form
edit_form = record { url = []; code = []; description = []; expires_date = none; busy = false }

abbrev day_time : LocalTime → ℤ
day_time l = pos (1000 * (0 + l.hours * 3600 + l.minutes * 60 + l.seconds))
