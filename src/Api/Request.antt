-- ===== src/Api/Request.antt =====
-- `request` of frontend/src/lib/api.ts, cut at the call of `fetch`: the HTTP request that it
-- makes, and what it does with the answer. Also the two exports that bypass it, and the query
-- string of the link list.
use gourl.Common.{
  ℕ, Bool, ◌&&◌, not, leb, ◌==◌, if◌then◌else◌, Option, none, some, or_else, List, [], ◌∷◌, ◌++◌,
  Text, is_empty, same, codes, ◌≡◌, refl, arith, is_some, same_refl, Bool-cases, inl, inr,
}
use gourl.Platform.Decimal.{decimal}
use gourl.Api.Types.{ServerConfig, ApiError, Outcome, resolved, rejected, thrown}
use gourl.Api.Urls.{strip_slashes}

pub data Credentials : Type 0 where
  omit same_origin : Credentials

pub data Method : Type 0 where
  get post put patch delete : Method

pub record HttpRequest : Type 0 where
  pub url : Text
  pub method : Method
  pub credentials : Credentials
  pub headers : List (Text × Text)

-- The arguments that callers pass in `init`: no caller sets the credentials.
pub record Init : Type 0 where
  pub method : Method
  pub headers : List (Text × Text)
  pub is_form : Bool

-- `headers[k] = v` on an object whose keys are texts
unfoldable pub set_header : Text → Text → List (Text × Text) → List (Text × Text)
set_header k v [] = (k, v) ∷ []
set_header k v ((j, w) ∷ hs) = if same j k then (j, v) ∷ hs else (j, w) ∷ set_header k v hs

unfoldable pub header : Text → List (Text × Text) → Option Text
header k [] = none
header k ((j, w) ∷ hs) = if same j k then some w else header k hs

-- `{ ...hs, ...more }`
unfoldable pub spread : List (Text × Text) → List (Text × Text) → List (Text × Text)
spread hs [] = hs
spread hs ((k, v) ∷ more) = spread (set_header k v hs) more

abbrev pub json_headers : List (Text × Text)
json_headers = (codes "Content-Type", codes "application/json") ∷ []

abbrev pub bearer : Text → Text
bearer token = codes "Bearer " ++ token

abbrev pub authorization : Text
authorization = codes "Authorization"

unfoldable pub http_request : Option ServerConfig → Text → Init → HttpRequest
http_request none path init = record {
  url = path;
  method = init.method;
  credentials = same_origin;
  headers = if init.is_form then init.headers else spread json_headers init.headers;
}
http_request (some server) path init = record {
  url = strip_slashes server.url ++ path;
  method = init.method;
  credentials = omit;
  headers =
      set_header authorization (bearer server.token)
        (if init.is_form then init.headers else spread json_headers init.headers);
}

-- The error object of a JSON body, each field optional.
pub record ErrorBody : Type 0 where
  pub code : Option Text
  pub message : Option Text
  pub params : List (Text × Text)

-- `error` and `value` are what `res.json()` gives; `none` where the body is no such JSON.
pub record Response (A : Type 0) : Type 0 where
  pub status : ℕ
  pub error : Option ErrorBody
  pub value : Option A

abbrev pub is_ok : ℕ → Bool
is_ok status = leb 200 status && leb status 299

abbrev pub login_path : Text
login_path = codes "/admin/login"

abbrev pub http_status : ℕ → Text
http_status status = codes "HTTP " ++ decimal status

abbrev pub error_of : ℕ → Option ErrorBody → ApiError
error_of status none = record {
  status = status;
  code = codes "unknown";
  message = http_status status;
  params = [];
}
error_of status (some body) = record {
  status = status;
  code = or_else body.code (codes "unknown");
  message = or_else body.message (http_status status);
  params = body.params;
}

abbrev pub unauthorized : Text → ApiError
unauthorized message = record {
  status = 401;
  code = codes "unauthorized";
  message = message;
  params = [];
}

-- What the caller gets, and where the page is sent, if it is. The value of a 204 is `undefined`.
pub record Answer (A : Type 0) : Type 0 where
  pub outcome : Outcome (Option A)
  pub redirect : Option Text

module _ (token_invalid bad_json : Text) {A : Type 0} where
  abbrev pub value_of : ℕ → Option A → Outcome (Option A)
  value_of status value =
      if status == 204
      then resolved none
      else elim value [ none ↦ thrown bad_json | some a ↦ resolved (some a) ]

  -- `pathname` is the page's path; `token_invalid` is the translated text of that error, and
  -- `bad_json` the message of the exception of `res.json()`.
  unfoldable pub answer : Option ServerConfig → Text → Response A → Answer A
  answer server pathname res =
      if res.status == 401
      then elim server [
        | some _ ↦ record { outcome = rejected (unauthorized token_invalid); redirect = none }
        | none ↦ record {
          outcome = rejected (unauthorized (codes "authentication required"));
          redirect = if same pathname login_path then none else some login_path;
        }
      ]
      else if not (is_ok res.status)
      then record { outcome = rejected (error_of res.status res.error); redirect = none }
      else record { outcome = value_of res.status res.value; redirect = none }

  -- The page is sent away exactly on a 401 of the web console outside the login page, and then to
  -- the login page.
  pub answer_redirects :
      (server : Option ServerConfig) (pathname : Text) (res : Response A)
      → (answer server pathname res).redirect ≡ (
          if (res.status == 401) && not (is_some server) && not (same pathname login_path)
          then some login_path
          else none)
  unfolding answer same
  answer_redirects none pathname res = ground arith
  answer_redirects (some s) pathname res = ground arith

  -- The status of the error that the caller gets.
  abbrev pub rejected_status : Outcome (Option A) → Option ℕ
  rejected_status (resolved a) = none
  rejected_status (rejected e) = some e.status
  rejected_status (thrown m) = none

  -- The caller gets an API error exactly for a status outside 200 to 299, and it carries that
  -- status, whatever the body holds.
  pub answer_rejects :
      (server : Option ServerConfig) (pathname : Text) (res : Response A)
      → rejected_status (answer server pathname res).outcome
        ≡ (if is_ok res.status then none else some res.status)
  unfolding answer
  answer_rejects none pathname res = ground arith
  answer_rejects (some s) pathname res = ground arith

header-set_header : (k v : Text) (hs : List (Text × Text)) → header k (set_header k v hs) ≡ some v
unfolding header set_header
header-set_header k v [] = rw (same_refl k)
header-set_header k v ((j, w) ∷ hs) = elim (Bool-cases (same j k)) [
  | inl e ↦ rw (e, set_header, header) (rw e refl)
  | inr ne ↦ rw (ne, set_header, header) (rw ne (header-set_header k v hs))
]

-- Where a request goes and how it authenticates.
abbrev pub IsAddressed : Option ServerConfig → Text → HttpRequest → Type 0
IsAddressed none path r = (r.url ≡ path) × (r.credentials ≡ same_origin)
IsAddressed (some cfg) path r =
    (r.url ≡ strip_slashes cfg.url ++ path)
    × (r.credentials ≡ omit)
    × (header authorization r.headers ≡ some (bearer cfg.token))

-- In token mode every request carries the stored token, also where the caller gave another
-- Authorization header, and no cookie; it goes to the stored server, whose trailing slashes are
-- dropped. In the web console it goes to the page's own server with its cookies.
pub http_request-IsAddressed :
    (server : Option ServerConfig) (path : Text) (init : Init)
    → IsAddressed server path (http_request server path init)
unfolding http_request
http_request-IsAddressed none path init = (refl, refl)
http_request-IsAddressed (some cfg) path init =
    (refl, refl, header-set_header authorization (bearer cfg.token) _)

-- `exportCsv` and `exportMarkdown`: the same addressing, no JSON headers.
unfoldable pub export_request : Text → Option ServerConfig → HttpRequest
export_request path none = record {
  url = path;
  method = get;
  credentials = same_origin;
  headers = [];
}
export_request path (some server) = record {
  url = strip_slashes server.url ++ path;
  method = get;
  credentials = omit;
  headers = (authorization, bearer server.token) ∷ [];
}

-- What they make of the answer: the blob, or an error that carries the status alone.
unfoldable pub export_answer {ℓ} : {A : Type ℓ} → ℕ → A → Outcome A
export_answer status blob =
    if is_ok status
    then resolved blob
    else rejected (record {
      status = status;
      code = codes "unknown";
      message = http_status status;
      params = [];
    })

-- `listLinks`: a parameter that is undefined or empty is left out, the others are set in order.
unfoldable pub list_query : List (Text × Option Text) → List (Text × Text)
list_query [] = []
list_query ((k, none) ∷ params) = list_query params
list_query ((k, some v) ∷ params) =
    if is_empty v then list_query params else (k, v) ∷ list_query params
