-- ===== src/LinkForm.antt =====
-- frontend/src/components/LinkFormDialog.tsx: the form that creates or edits a link, and the date
-- field that it contains, frontend/src/components/DateInput.tsx (LinkForm/DateField).
pub mod Schemes
pub mod DateField
pub mod View
use Prim.Native.String.{String}
use gourl.Common.{
  ℕ, suc, zero, ◌+◌, Bool, true, false, ◌||◌, ◌&&◌, leb, if◌then◌else◌, Option, none, some, List,
  [], ◌∷◌, ◌++◌, map, Text, codes, trim, is_empty, starts_with, drop, same,
}
use gourl.Platform.{ℤ, pos, negsuc, floor_thousandth}
use gourl.Platform.Decimal.{decimal, pad2}
use gourl.Platform.Clock.{LocalTime, month_number}
use gourl.Api.Types.{
  Link, ApiError, Outcome, resolved, rejected, thrown, Message, t, plain, Kind, success, failure,
}

pub record Form : Type 0 where
  pub url : Text
  pub code : Text
  pub description : Text
  pub expires_date : Option Text
  pub busy : Bool

pub data Effect : Type 0 where
  toast : Message → Kind → Effect
  on_saved on_close : Effect

-- The body of the request; `code` is not sent where it is `none`.
pub record LinkBody : Type 0 where
  pub url : Text
  pub code : Option Text
  pub description : Text
  pub expires_at : ℤ

pub data Request : Type 0 where
  update_link : Text → LinkBody → Request
  create_link : LinkBody → Request

-- `local_time` gives the getters of `new Date(ms)`.
unfoldable pub to_date : (ℤ → LocalTime) → ℤ → Text
to_date local_time (pos zero) = []
to_date local_time unix =
    let d = local_time unix in decimal d.year ++ b'-' ∷ (pad2 (month_number d) ++ b'-' ∷ pad2 d.day)

-- `midnight` gives `getTime()` of `${date}T00:00:00` in local time.
unfoldable pub to_unix : (Text → ℤ) → Text → ℤ
to_unix midnight [] = pos 0
to_unix midnight (c ∷ date) = floor_thousandth (midnight (c ∷ date))

-- The effect that fills the form when the dialog opens.
unfoldable pub on_open : (ℤ → LocalTime) → Bool → Option Link → Form → Form
on_open local_time false link f = f
on_open local_time true none f = record f {
  url = [];
  code = [];
  description = [];
  expires_date = some (to_date local_time (pos 0));
}
on_open local_time true (some link) f = record f {
  url = link.url;
  code = link.code;
  description = link.description;
  expires_date = some (to_date local_time link.expires_at);
}

pub data Scheme : Type 0 where
  http https : Scheme

-- `${scheme}://`
abbrev pub prefix_of : Scheme → Text
prefix_of http = codes "http://"
prefix_of https = codes "https://"

-- The letters A to Z in lower case. The prefixes are of ASCII alone, and no other unit turns into
-- one of theirs, so this decides `lower.startsWith(…)` and the flag `i` as `toLowerCase` does.
unfoldable pub lower_unit : ℕ → ℕ
lower_unit c = if leb 65 c && leb c 90 then c + 32 else c

unfoldable pub has_scheme : Scheme → Text → Bool
has_scheme scheme url = starts_with (map lower_unit url) (prefix_of scheme)

-- `trimmed.replace(/^https?:\/\//i, '')`
unfoldable pub after_scheme : Text → Text
after_scheme url =
    if has_scheme https url then drop 8 url else if has_scheme http url then drop 7 url else url

unfoldable pub scheme_url : Scheme → Text → Text
scheme_url scheme url =
    let trimmed = trim url in
    if is_empty trimmed
    then prefix_of scheme
    else if has_scheme scheme trimmed
    then url
    else if has_scheme http trimmed || has_scheme https trimmed
    then prefix_of scheme ++ after_scheme trimmed
    else prefix_of scheme ++ trimmed

unfoldable pub apply_scheme : Scheme → Form → Form
apply_scheme scheme f = record f { url = scheme_url scheme f.url }

abbrev pub code_or_none : Text → Option Text
code_or_none [] = none
code_or_none (c ∷ s) = some (c ∷ s)

unfoldable pub request_of : Option Link → Form → ℤ → Request
request_of (some link) f expires =
    update_link link.code (record {
      url = f.url;
      code = some f.code;
      description = f.description;
      expires_at = expires;
    })
request_of none f expires = create_link (record {
  url = f.url;
  code = code_or_none f.code;
  description = f.description;
  expires_at = expires;
})

-- `submit`, up to the request.
unfoldable pub submit : (Text → ℤ) → Option Link → Form → Form × List Effect × Option Request
submit midnight link f =
    if f.busy
    then (f, [], none)
    else if is_empty (trim f.url)
    then (f, toast (t "form.urlRequired") failure ∷ [], none)
    else elim f.expires_date [
      | none ↦ (f, toast (t "form.invalidDate") failure ∷ [], none)
      | some date ↦ (record f { busy = true }, [], some (request_of link f (to_unix midnight date)))
    ]

unfoldable pub error_message : ApiError → Message
error_message e =
    if same e.code (codes "code_taken")
    then t "form.codeTaken"
    else if same e.code (codes "reserved_code")
    then t "form.reserved"
    else if same e.code (codes "invalid_code")
    then t "form.invalidCode"
    else if same e.code (codes "invalid_request")
    then t "form.invalidUrl"
    else if same e.code (codes "description_too_long")
    then t "form.descriptionTooLong"
    else if same e.code (codes "self_link_target")
    then t "form.selfLinkTarget"
    else plain e.message

abbrev pub saved_message : Option Link → Message
saved_message none = t "form.created"
saved_message (some link) = t "form.updated"

-- `submit`, when the request has ended.
unfoldable pub settled : Option Link → Outcome Link → Form → Form × List Effect
settled link (resolved saved) f =
    (record f { busy = false }, toast (saved_message link) success ∷ on_saved ∷ on_close ∷ [])
settled link (rejected e) f = (record f { busy = false }, toast (error_message e) failure ∷ [])
settled link (thrown m) f = (record f { busy = false }, toast (t "common.error") failure ∷ [])
