-- ===== src/Logs.antt =====
-- frontend/src/pages/Logs.tsx: the log page. Its state and handlers, over the records that the
-- history and the live stream bring.
pub mod Filter
pub mod History
pub mod View
use Prim.Native.String.{String}
use gourl.Common.{
  ℕ, suc, ◌+◌, Bool, true, false, ◌==◌, if◌then◌else◌, List, [], ◌∷◌, ◌++◌, Text, codes, length,
  includes,
}
use gourl.Api.Types.{Outcome, resolved, rejected, thrown, Message, t, Kind, failure}
use gourl.Links.Sets.{set_add, set_delete}

-- `[...xs].reverse()`
unfoldable pub reversed {ℓ} : {A : Type ℓ} → List A → List A
reversed [] = []
reversed (x ∷ xs) = reversed xs ++ x ∷ []

abbrev pub all_levels : List Text
all_levels = codes "debug" ∷ codes "info" ∷ codes "warn" ∷ codes "error" ∷ []

pub record LogHistory {ℓ} (R : Type ℓ) : Type ℓ where
  pub available : Bool
  pub records : List R

pub record Logs {ℓ} (R : Type ℓ) : Type ℓ where
  pub records : List R
  pub history_available : Bool
  pub history_loading : Bool
  pub history_offset : ℕ
  pub has_more : Bool
  pub levels : List Text
  pub keyword : Text
  pub from : Text
  pub to : Text
  pub paused : Bool
  pub stream_down : Bool
  pub auto_follow : Bool

module _ {ℓ} {R : Type ℓ} where
  abbrev pub initial : Logs R
  initial = record {
    records = [];
    history_available = true;
    history_loading = true;
    history_offset = 0;
    has_more = false;
    levels = all_levels;
    keyword = [];
    from = [];
    to = [];
    paused = false;
    stream_down = false;
    auto_follow = true;
  }

  -- The end of the request for the first page; a page that was left is not changed.
  unfoldable pub history_loaded : Bool → Outcome (LogHistory R) → Logs R → Logs R
  history_loaded false o y = y
  history_loaded true (resolved res) y = record y {
    history_available = res.available;
    records = reversed res.records;
    history_offset = length res.records;
    has_more = length res.records == 200;
    history_loading = false;
  }
  history_loaded true other y = record y { history_available = false; history_loading = false }

  -- The three callbacks of the live stream.
  unfoldable pub on_record : R → Logs R → Logs R
  on_record rec y = record y { records = y.records ++ rec ∷ [] }

  unfoldable pub on_stream_error : Logs R → Logs R
  on_stream_error y = record y { stream_down = true }

  unfoldable pub on_stream_open : Logs R → Logs R
  on_stream_open y = record y { stream_down = false }

  unfoldable pub toggle_level : Text → Logs R → Logs R
  toggle_level lv y = record y {
    levels = if includes y.levels lv then set_delete lv y.levels else set_add lv y.levels;
  }

  -- `loadMore`, when its request has ended.
  unfoldable pub more_loaded : Outcome (LogHistory R) → Logs R → Logs R × List (Message × Kind)
  more_loaded (resolved res) y = (
    record y {
      records = reversed res.records ++ y.records;
      history_offset = y.history_offset + length res.records;
      has_more = length res.records == 200;
    },
    [],
  )
  more_loaded other y = (y, (t "common.error", failure) ∷ [])

  unfoldable pub jump_to_bottom : Logs R → Logs R
  jump_to_bottom y = record y { auto_follow = true }
