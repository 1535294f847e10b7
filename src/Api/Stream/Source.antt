-- ===== src/Api/Stream/Source.antt =====
-- The two modes of `logStream` of frontend/src/lib/api.ts: in the browser an EventSource, which is
-- the browser's, and in token mode the frames that the app reads itself.
use gourl.Common.{Option, none, some, List, [], ◌∷◌, ◌++◌, Text, codes}
use gourl.Api.Types.{ServerConfig}
use gourl.Api.Urls.{strip_slashes}
use gourl.Api.Request.{authorization, bearer}

abbrev pub stream_path : Text
stream_path = codes "/api/v1/logs/stream"

unfoldable pub stream_url : Option ServerConfig → Text
stream_url none = stream_path
stream_url (some server) = strip_slashes server.url ++ stream_path

-- The headers of the fetch in token mode.
abbrev pub stream_headers : ServerConfig → List (Text × Text)
stream_headers server = (authorization, bearer server.token) ∷ []

-- What an EventSource raises, a message with its `data`, and the calls of the caller's functions.
pub data SourceEvent : Type 0 where
  message : Text → SourceEvent
  source_open source_error : SourceEvent

pub data StreamCall (R : Type 0) : Type 0 where
  on_log : R → StreamCall R
  on_open on_error : StreamCall R

module _ {R : Type 0} (parse : Text → Option R) where
  -- The three listeners; a malformed message is passed over.
  unfoldable pub on_source_event : SourceEvent → List (StreamCall R)
  on_source_event (message text) = elim (parse text) [ none ↦ [] | some rec ↦ on_log rec ∷ [] ]
  on_source_event source_open = on_open ∷ []
  on_source_event source_error = on_error ∷ []

  unfoldable pub on_source_events : List SourceEvent → List (StreamCall R)
  on_source_events [] = []
  on_source_events (e ∷ es) = on_source_event e ++ on_source_events es
