-- ===== src/Examples/Views.antt =====
-- The editor, the script, the settings page and the frame of the pages.
use gourl.Common.{
  ap, drop, ℕ, Bool, true, false, ◌||◌, ◌&&◌, not, ltb, if◌then◌else◌, Option, none, some, is_some,
  List, [], ◌∷◌, ◌++◌, map, Text, codes, includes, split, length, trim_start, index_of, drop,
  is_empty, same, ◌≤◌, ◌≡◌, refl, inr, arith,
}
use gourl.Platform.{ℤ, pos}
use gourl.Batch.{bracket}
use gourl.BatchDialog.{newline, validate}
use gourl.BatchDialog.Numbers.{reason_at, fault_of_line, validate-reason_at}
use gourl.CodeEditor.{CodeMirror, Editor, sync_errors}
use gourl.CodeEditor.Flags.{number_of, marks_at, sync_errors-validate}
use gourl.CodeEditor.Highlight.{
  StringStream, first, skipped, map_rest, token, code, read_on, token-bracket,
}
use gourl.CodeEditor.Progress.{tokens, tokens_end}
use gourl.DbExport.{LinkRow, main}
use gourl.DbExport.Restore.{Contents, answered, disk, restored, KeepsApart, restored-main}
use gourl.DbExport.Start.{any_touches, first_path, any_touches-main}
use gourl.Settings.{Render, no_drafts}
use gourl.Settings.Connection.{checking}
use gourl.Settings.Cards.{DeviceCard}
use gourl.Settings.Page.{view, offers, view-offers}
use gourl.Settings.Tokens.{Tokens}
use gourl.Settings.Probes.{ProbeEvent, ticked, refreshed, mounted, is_stuck, on_events-mounted}
use gourl.Settings.Probes
use gourl.Api.Types.{resolved, thrown}
use gourl.Markup.{clicks}
use gourl.Layout.Drawer
use gourl.Layout.Drawer.{closed_drawer, Point}
use gourl.Layout.Drawer.Edge.{drawer_edge-on_events}
use gourl.Layout.Shell.{drawer_edge}
use gourl.Ui.Snapshot.{content, renders, first_render, last_open, content-renders}
use gourl.Examples.Values.{parse_url, get_time}

abbrev two_lines : Text
two_lines = codes "http://y" ++ newline ∷ codes "[a"

validate-reason_at_example :
    reason_at (validate parse_url get_time two_lines).error_lines 2
    ≡ fault_of_line parse_url get_time (split newline two_lines) 2
validate-reason_at_example = validate-reason_at parse_url get_time two_lines 2

-- An editor whose document is its text, and whose sets are lists of line numbers.
abbrev plain_editor : CodeMirror
plain_editor = record {
  Doc = Text;
  Change = Unit;
  Ranges = List ℕ;
  to_text = λ d. d;
  of_text = λ s. s;
  lines = λ d. length (split newline d);
  from = λ d n. n;
  no_ranges = [];
  range_set = λ ns. ns;
  mapped = λ ch ns. ns;
}

abbrev editor : Editor plain_editor
editor = record { doc = two_lines; marks = record { lines = []; markers = [] } }

sync_errors-validate_example :
    sync_errors plain_editor
      (some (map number_of (validate parse_url get_time two_lines).error_lines))
      (some editor)
    ≡ some (record {
      doc = two_lines;
      marks =
          marks_at plain_editor two_lines
            (map number_of (validate parse_url get_time two_lines).error_lines);
    })
sync_errors-validate_example =
    sync_errors-validate plain_editor parse_url get_time two_lines editor refl

map_rest_id : (o : Option Text) → map_rest (λ s. s) o ≡ o
map_rest_id none = refl
map_rest_id (some s) = refl

-- A stream that is what is left of its line.
abbrev line_stream : StringStream
line_stream = record {
  S = Text;
  rest = λ s. s;
  peek = first;
  next = drop 1;
  eat_space = λ s. if ltb (length (trim_start s)) (length s) then some (trim_start s) else none;
  skip_to = λ c s. skipped (index_of c s) s;
  skip_to_end = λ s. [];
  peek_first = λ s. refl;
  next_drops = λ s. refl;
  eat_space_trims = λ s. map_rest_id _;
  skip_to_finds = λ c s. map_rest_id _;
  skip_to_end_drops = λ s. refl;
}

token-bracket_example :
    ((token line_stream (codes "[a]b")).0 ≡ code)
    × ((token line_stream (codes "[a]b")).1
        ≡ read_on (bracket b'[' b']' (codes "[a]b")) (codes "[a]b"))
token-bracket_example = token-bracket line_stream false (codes "[a]b") (codes "a]b") refl

tokens_end_example : (tokens line_stream 4 (codes "[a]b")).1 ≡ []
tokens_end_example = tokens_end line_stream 4 (codes "[a]b") (omega arith)

abbrev deleted_row : LinkRow ℤ
deleted_row = record {
  id = 1;
  code = codes "x";
  url = codes "http://y";
  title = [];
  description = [];
  expires_at = pos 0;
  click_count = 0;
  created_at = pos 0;
  updated_at = pos 0;
  deleted = pos 1;
}

abbrev contents : Contents
contents = record { links = deleted_row ∷ []; tokens = []; dailies = []; backups = [] }

abbrev in_dir : Text → Text → Text
in_dir dir name = dir ++ b'/' ∷ name

in_out_apart : KeepsApart (in_dir (codes "out"))
in_out_apart a b h k e = ap (drop 4) e

restored-main_example :
    restored (in_dir (codes "out")) (
      disk
        (main (λ p. true) in_dir (λ p. some (answered contents)) (codes "db" ∷ codes "out" ∷ []))
        (λ p. none))
    ≡ answered contents
unfolding includes same
restored-main_example =
    restored-main (λ p. true) in_dir (λ p. some (answered contents)) (codes "db") (codes "out")
      contents (λ p. none) refl refl refl refl refl in_out_apart (inr refl, tt) tt

any_touches-main_example :
    any_touches (main (λ p. false) (λ a b. a) (λ p. none) (codes "db" ∷ [])) ≡ (
      not (includes (codes "db" ∷ []) (codes "--help") || includes (codes "db" ∷ []) (codes "-h"))
      && (not (is_empty (first_path (codes "db" ∷ []))) && false))
any_touches-main_example = any_touches-main (λ p. false) (λ a b. a) (λ p. none) (codes "db" ∷ [])

abbrev card : DeviceCard
card = record {
  card = record { confirm_disconnect = false; status = checking; server_version = none };
  no_select = false;
  haptics = true;
}

abbrev no_tokens : Tokens
no_tokens = record { token_note = []; new_token = []; revoking = none; token_copied = false }

abbrev unfilled : Render
unfilled = record { form = none; drafts = no_drafts }

view-offers_example :
    offers (
      clicks
        (view (λ z. []) (λ s. pos 0) (codes "1") false none unfilled card none false no_tokens))
    ≡ (false || not (is_some unfilled.form))
view-offers_example =
    view-offers (λ z. []) (λ s. pos 0) (codes "1") false none unfilled card none false no_tokens

abbrev probe_events : List ProbeEvent
probe_events =
    ticked
    ∷ Probes.answered (resolved (some true)) (resolved (codes "1.0")) (thrown (codes ""))
    ∷ refreshed
    ∷ Probes.answered (resolved (some true)) (resolved (codes "1.0")) (thrown (codes ""))
    ∷ []

on_events-mounted_example : is_stuck (Probes.on_events probe_events (mounted false)) ≡ false
on_events-mounted_example = on_events-mounted false probe_events

abbrev swipe : List Drawer.Event
swipe =
    Drawer.touch_start (some (record { x = 350; y = 100 })) 400 false false
    ∷ Drawer.touch_move (record { x = 300; y = 100 })
    ∷ Drawer.touch_end
    ∷ []

drawer_edge-on_events_example : drawer_edge (Drawer.on_events swipe closed_drawer) ≤ Drawer.drawer_w
drawer_edge-on_events_example = drawer_edge-on_events swipe closed_drawer refl refl

abbrev passed : List (Bool × ℕ)
passed = (true, 2) ∷ (false, 3) ∷ []

content-renders_example :
    ◌≡◌ {A = ℕ} (content (renders passed (first_render true 1))) (last_open passed 1)
content-renders_example = content-renders true 1 passed
