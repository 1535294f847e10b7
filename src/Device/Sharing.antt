-- ===== src/Device/Sharing.antt =====
-- frontend/src/lib/clipboard.ts, share.ts, download.ts and apiError.ts: ways out of the program,
-- each with what it falls back to.
use Prim.Native.String.{String}
use gourl.Common.{
  Bool, true, false, if◌then◌else◌, Option, none, some, List, [], ◌∷◌, ◌++◌, Text, codes, same,
  is_empty,
}
use gourl.Platform.Decimal.{decimal, pad2}
use gourl.Platform.Clock.{LocalTime, month_number}
use gourl.Api.Types.{ApiError}

-- What `navigator.clipboard.writeText` does: it is missing, resolves or rejects. What `execCommand`
-- does: the Boolean it returns, or an exception of the code around it.
pub data Clipboard : Type 0 where
  missing accepts rejects : Clipboard

-- `copyText`
unfoldable pub copy_text : Clipboard → Option Bool → Bool
copy_text accepts command = true
copy_text other none = false
copy_text other (some ok) = ok

pub data ShareOutcome : Type 0 where
  shared unsupported cancelled failed : ShareOutcome

-- `navigator.share`: missing, done, dismissed with an `AbortError`, or failed otherwise.
pub data WebShare : Type 0 where
  no_share done aborted error : WebShare

-- `bridge` is the answer of the bridge's `share`, none where the bridge has none.
unfoldable pub share_url : Bool → Option Bool → WebShare → ShareOutcome
share_url true none web = unsupported
share_url true (some ok) web = if ok then shared else failed
share_url false bridge no_share = unsupported
share_url false bridge done = shared
share_url false bridge aborted = cancelled
share_url false bridge error = failed

pub data Saved : Type 0 where
  browser_download : Saved
  saved_at : Text → Saved
  save_error : Text → Saved

-- `saveDownload`: the bridge's `saveToDownloads` takes the text in base64 and answers with a path;
-- `none` for a bridge without it, `some none` for the answer null.
unfoldable pub save_download :
    (Text → Text) → Bool → Option (Text → Option Text) → Text → Bool → Saved
save_download utf8_to_base64 false bridge content base64 = browser_download
save_download utf8_to_base64 true none content base64 =
    save_error (codes "native download bridge unavailable")
save_download utf8_to_base64 true (some save) content base64 =
    elim (save (if base64 then content else utf8_to_base64 content)) [
      | none ↦ save_error (codes "ERR_FILE_SAVE_FAILED")
      | some path ↦
          if is_empty path then save_error (codes "ERR_FILE_SAVE_FAILED") else saved_at path
    ]

-- `exportFilename` at the local time `d`
unfoldable pub export_filename : Text → Text → LocalTime → Text
export_filename kind ext d =
    codes "gourl-"
    ++ (kind
        ++ b'-'
          ∷ (decimal d.year
              ++ b'-'
                ∷ (pad2 (month_number d)
                    ++ b'-'
                      ∷ (pad2 d.day
                          ++ b'-'
                            ∷ (pad2 d.hours
                                ++ b'-'
                                  ∷ (pad2 d.minutes ++ b'-' ∷ (pad2 d.seconds ++ b'.' ∷ ext)))))))

abbrev pub error_keys : List (Text × String)
error_keys =
    (codes "short_code_length_range", "errors.shortCodeLengthRange")
    ∷ (codes "invalid_base_url", "errors.invalidBaseUrl")
    ∷ (codes "invalid_extra_base_url", "errors.invalidExtraBaseUrl")
    ∷ (codes "invalid_reserved_code", "errors.invalidReservedCode")
    ∷ (codes "invalid_ip_block", "errors.invalidIpBlock")
    ∷ (codes "negative_login_rate", "errors.negativeLoginRate")
    ∷ (codes "negative_link_rate", "errors.negativeLinkRate")
    ∷ (codes "invalid_session_ttl", "errors.invalidSessionTtl")
    ∷ (codes "invalid_log_level", "errors.invalidLogLevel")
    ∷ (codes "token_taken", "errors.tokenTaken")
    ∷ (codes "pattern_taken", "errors.patternTaken")
    ∷ []

abbrev pub key_of : Text → List (Text × String) → Option String
key_of code [] = none
key_of code ((k, key) ∷ keys) = if same k code then some key else key_of code keys

-- `apiErrorMessage`: the translated text with the backend's parameters put in, or the message.
unfoldable pub api_error_message : (String → List (Text × Text) → Text) → ApiError → Text
api_error_message translate e = elim (key_of e.code error_keys) [
  | none ↦ e.message
  | some key ↦ translate key e.params
]
