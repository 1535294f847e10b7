-- ===== src/Api/Stream.antt =====
-- `logStream` of frontend/src/lib/api.ts in token mode: the frames of the event stream, as chunks
-- of text come in, and the connection that is tried again until it is closed.
pub mod Frames
pub mod Retry
pub mod Source
use gourl.Common.{
  ℕ, zero, suc, Bool, true, false, ◌&&◌, ◌||◌, ◌==◌, not, if◌then◌else◌, Option, none, some, List,
  [], ◌∷◌, ◌++◌, Text, codes, trim, starts_with, split, drop, length,
}

abbrev pub newline : ℕ
newline = 10

-- The text before the first empty line, `buf.slice(0, idx)`, and the text behind it.
unfoldable pub first_frame : Text → Option (Text × Text)
first_frame [] = none
first_frame (c ∷ []) = none
first_frame (c ∷ d ∷ s) =
    if c == newline && d == newline
    then some ([], s)
    else elim (first_frame (d ∷ s)) [ none ↦ none | some (frame, rest) ↦ some (c ∷ frame, rest) ]

-- The loop `while ((idx = buf.indexOf('\n\n')) >= 0)`: the frames in order, and what is left.
unfoldable pub drain : ℕ → Text → List Text × Text
drain zero buf = ([], buf)
drain (suc fuel) buf = elim (first_frame buf) [
  | none ↦ ([], buf)
  | some (frame, rest) ↦ let later = drain fuel rest in (frame ∷ later.0, later.1)
]

-- A round takes two units at least, so the length of the buffer is fuel enough.
unfoldable pub frames : Text → List Text × Text
frames buf = drain (length buf) buf

-- `find((l) => l.startsWith('data:'))`
unfoldable pub data_line : List Text → Option Text
data_line [] = none
data_line (l ∷ ls) = if starts_with l (codes "data:") then some l else data_line ls

module _ {R : Type 0} (parse : Text → Option R) where
  -- The records that the frames hand to `onLog`; a frame without data or with bad JSON gives none.
  unfoldable pub records_of : List Text → List R
  records_of [] = []
  records_of (frame ∷ fs) = elim (data_line (split newline frame)) [
    | none ↦ records_of fs
    | some line ↦ elim (parse (trim (drop 5 line))) [
      | none ↦ records_of fs
      | some rec ↦ rec ∷ records_of fs
    ]
  ]

  -- One chunk: the records that it completes, and the new buffer.
  unfoldable pub on_chunk : Text → Text → List R × Text
  on_chunk buf chunk = let (fs, rest) = frames (buf ++ chunk) in (records_of fs, rest)

  unfoldable pub on_chunks : Text → List Text → List R × Text
  on_chunks buf [] = ([], buf)
  on_chunks buf (chunk ∷ chunks) =
      let (now, rest) = on_chunk buf chunk in
      let (later, left) = on_chunks rest chunks in (now ++ later, left)

-- The variables of the connection: the abort signal, the retry timer, whether a fetch or its
-- stream is running, and the number of fetches begun.
pub record Connection : Type 0 where
  pub aborted : Bool
  pub retry_timer : Bool
  pub running : Bool
  pub fetches : ℕ

-- What can happen to it: the stream ends or fails, the timer fires, the caller closes it.
pub data Event : Type 0 where
  dropped fired closed : Event

unfoldable pub connect : Connection → Connection
connect c = if c.aborted then c else record c { running = true; fetches = suc c.fetches }

unfoldable pub schedule_retry : Connection → Connection
schedule_retry c = if c.aborted || c.retry_timer then c else record c { retry_timer = true }

-- An event that its state rules out changes nothing: no timer fires that is not set, and nothing
-- is dropped that does not run.
unfoldable pub on_event : Event → Connection → Connection
on_event dropped c = if c.running then schedule_retry (record c { running = false }) else c
on_event fired c = if c.retry_timer then connect (record c { retry_timer = false }) else c
on_event closed c = record c { aborted = true; retry_timer = false }

unfoldable pub on_events : List Event → Connection → Connection
on_events [] c = c
on_events (e ∷ es) c = on_events es (on_event e c)

abbrev pub opened : Connection
opened = record { aborted = false; retry_timer = false; running = true; fetches = 1 }
