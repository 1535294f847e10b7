-- ===== src/BatchDialog/Retry.antt =====
-- The retry button after an answer with failures.
use gourl.Common.{Option, some, Text, ◌≡◌, arith}
use gourl.Platform.{Url, ℤ}
use gourl.Platform.Calendar.{Date}
use gourl.Api.Types.{BatchCreateResponse, resolved}
use gourl.BatchDialog.{Dialog, Request, submit, settle, on_create, retry}

module _ (parse_url : Text → Option Url) (get_time : Date → ℤ) where
  -- Once the create button has sent a request and its answer is in, the retry button sends the
  -- same request again: every line of it, those that the server has created included.
  pub retry-settle :
      (d d' : Dialog) (q : Request) (res : BatchCreateResponse)
      → on_create parse_url get_time d ≡ (d', some q)
      → (retry (settle q (resolved res) d').0).1 ≡ some q
  unfolding on_create submit settle retry
  retry-settle d d' q res sent = ground arith
