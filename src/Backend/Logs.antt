-- ===== src/Backend/Logs.antt =====
-- internal/api/logs.go: the event stream of the log that `logStream` writes, and the pages of the
-- history that `logHistory` answers from the log file (`ReadHistory` of internal/logx/logx.go).
pub mod Stream
pub mod History
use gourl.Common.{
  ℕ, zero, suc, Bool, true, false, ◌==◌, ltb, if◌then◌else◌, Option, none, some, List, [], ◌∷◌,
  ◌++◌, Text, codes, Lacks, trim, is_empty, drop, split, ◌≡◌,
}
use gourl.Platform.{ℤ, pos, negsuc}
use gourl.Logs.{LogHistory, reversed}
use gourl.Api.Stream.{newline}

-- What the loop of `logStream` writes: a record as JSON, or the comment that keeps the connection.
pub data Sent : Type 0 where
  event : Text → Sent
  ping : Sent

abbrev pub event_line : Text
event_line = codes "event: log"

abbrev pub data_start : Text
data_start = codes "data: "

abbrev pub ping_line : Text
ping_line = codes ": ping"

abbrev pub empty_line : Text → Text
empty_line rest = newline ∷ newline ∷ rest

-- `writeSSEEvent`, in front of what is written later
abbrev pub write_event : Text → Text → Text
write_event payload rest = event_line ++ newline ∷ data_start ++ payload ++ empty_line rest

unfoldable pub print_stream : List Sent → Text
print_stream [] = []
print_stream (event payload ∷ ss) = write_event payload (print_stream ss)
print_stream (ping ∷ ss) = ping_line ++ empty_line (print_stream ss)

-- The records among what is sent.
abbrev pub payloads : List Sent → List Text
payloads [] = []
payloads (event payload ∷ ss) = payload ∷ payloads ss
payloads (ping ∷ ss) = payloads ss

-- A payload on one line, without white space around it, as `json.Marshal` writes an object.
pub record IsPayload (payload : Text) : Type 0 where
  pub one_line : Lacks newline payload
  pub is_trimmed : trim payload ≡ payload

abbrev pub IsSent : Sent → Type 0
IsSent (event payload) = IsPayload payload
IsSent ping = Unit

-- What `ReadHistory` finds: no configured file, no file yet, one that cannot be read, or its text.
pub data LogFile : Type 0 where
  no_sink missing unreadable : LogFile
  content : Text → LogFile

abbrev pub history_limit : ℕ
history_limit = 1000

-- The bounds that both functions put on their arguments.
abbrev pub clamp_limit : ℤ → ℕ
clamp_limit (pos n) = if n == 0 then 200 else if ltb history_limit n then history_limit else n
clamp_limit (negsuc n) = 200

abbrev pub clamp_offset : ℤ → ℕ
clamp_offset (pos n) = n
clamp_offset (negsuc n) = 0

-- The lines of the file, without the empty one behind the last end.
abbrev pub drop_last_empty : List Text → List Text
drop_last_empty [] = []
drop_last_empty (l ∷ []) = if is_empty l then [] else l ∷ []
drop_last_empty (l ∷ l' ∷ ls) = l ∷ drop_last_empty (l' ∷ ls)

module _ {R : Type 0} (parse_line : Text → R) where
  -- The loop of `ReadHistory` over the lines from the last one back, with the room that is left.
  unfoldable pub read_back : ℕ → List Text → List R
  read_back n [] = []
  read_back zero (line ∷ lines) = []
  read_back (suc n) (line ∷ lines) =
      let same_room = read_back (suc n) lines in
      let less_room = read_back n lines in
      if is_empty line then same_room else parse_line line ∷ less_room

  unfoldable pub read_history : LogFile → ℤ → ℤ → Option (List R)
  read_history no_sink limit offset = some []
  read_history missing limit offset = some []
  read_history unreadable limit offset = none
  read_history (content text) limit offset = some (
      read_back (clamp_limit limit)
        (drop (clamp_offset offset) (reversed (drop_last_empty (split newline text)))))

  -- `HistoryEnabled`
  abbrev pub history_enabled : LogFile → Bool
  history_enabled no_sink = false
  history_enabled file = true

  -- `logHistory`, with the numbers that it reads from the query, 0 where there are none. Its answer
  -- is the value, or the error 500.
  unfoldable pub log_history : LogFile → ℤ → ℤ → Option (LogHistory R)
  log_history file limit offset =
      elim (read_history file (pos (clamp_limit limit)) (pos (clamp_offset offset))) [
        | none ↦ none
        | some records ↦ some (record { available = history_enabled file; records = records })
      ]
