-- ===== src/Api/Endpoints.antt =====
-- The table `api` of frontend/src/lib/api.ts: the method, the path and the body of each call. The
-- calls differ in nothing else; `request` (Api/Request) makes the HTTP request of each.
pub mod Deletion
use gourl.Common.{
  ℕ, Bool, true, false, if◌then◌else◌, Option, none, some, List, [], ◌∷◌, ◌++◌, Text, codes,
  is_empty, ◌≡◌, ◌⊎◌, inl, inr, refl,
}
use gourl.Platform.Decimal.{decimal}
use gourl.Api.Types.{ServerConfig, AppConfig, ImportItem}
use gourl.Api.Request.{
  Method, get, post, put, patch, delete, Init, HttpRequest, http_request, list_query,
}
use gourl.Api.Urls.{link_address}

-- `conflict` of `batchCreate`
pub data Conflict : Type 0 where
  error skip update : Conflict

-- A value of a JSON body that a caller puts together.
pub data Value : Type 0 where
  string : Text → Value
  number : ℕ → Value
  unset : Value

-- The bodies: objects of named values, an import, a list of codes, a configuration, or the form
-- with the file.
pub data Body : Type 0 where
  object : List (Text × Value) → Body
  batch : Conflict → List ImportItem → Body
  code_list : List Text → Body
  configuration : AppConfig → Body
  icon_form : Text → Body

-- The calls behind the log stream in the table.
pub data ConsoleCall : Type 0 where
  ua_blocks : ConsoleCall
  add_ua_block : Text → ConsoleCall
  delete_ua_block : ℕ → ConsoleCall
  tokens : ConsoleCall
  create_token : Text → ConsoleCall
  delete_token : ℕ → ConsoleCall
  get_config : ConsoleCall
  update_config : AppConfig → ConsoleCall
  upload_icon : Text → ConsoleCall
  delete_icon dashboard : ConsoleCall

pub data Call : Type 0 where
  login : Text → Call
  logout : Call
  change_password : Text → Text → Call
  setup_admin : Text → Text → Call
  auth_status health : Call
  list_links : List (Text × Option Text) → Call
  create_link : List (Text × Value) → Call
  batch_create : List ImportItem → Conflict → Call
  get_link : Text → Call
  update_link : Text → List (Text × Value) → Call
  delete_link : Text → Call
  delete_links : List Text → Call
  expired_count delete_expired export_json : Call
  log_history : ℕ → ℕ → Call
  console : ConsoleCall → Call

pub record Endpoint : Type 0 where
  pub method : Method
  pub path : Text
  pub body : Option Body

abbrev field : Text → Text → Text × Value
field name value = (name, string value)

abbrev pub ask : Method → Text → Endpoint
ask method path = record { method = method; path = path; body = none }

abbrev pub send : Method → Text → Body → Endpoint
send method path body = record { method = method; path = path; body = some body }

abbrev pub links_path : Text
links_path = codes "/api/v1/links/"

unfoldable pub log_page : ℕ → ℕ → Endpoint
log_page limit offset =
    ask get (codes "/api/v1/logs?limit=" ++ (decimal limit ++ (codes "&offset=" ++ decimal offset)))

unfoldable pub console_endpoint : ConsoleCall → Endpoint
console_endpoint ua_blocks = ask get (codes "/api/v1/ua-blocks")
console_endpoint (add_ua_block pattern) =
    send post (codes "/api/v1/ua-blocks") (object (field (codes "pattern") pattern ∷ []))
console_endpoint (delete_ua_block id) = ask delete (codes "/api/v1/ua-blocks/" ++ decimal id)
console_endpoint tokens = ask get (codes "/api/v1/tokens")
console_endpoint (create_token note) =
    send post (codes "/api/v1/tokens") (object (field (codes "note") note ∷ []))
console_endpoint (delete_token id) = ask delete (codes "/api/v1/tokens/" ++ decimal id)
console_endpoint get_config = ask get (codes "/api/v1/config")
console_endpoint (update_config cfg) = send put (codes "/api/v1/config") (configuration cfg)
console_endpoint (upload_icon file) = send post (codes "/api/v1/icon") (icon_form file)
console_endpoint delete_icon = ask delete (codes "/api/v1/icon")
console_endpoint dashboard = ask get (codes "/api/v1/dashboard")

-- `encode` is `encodeURIComponent`; `print_query` is `URLSearchParams.toString` on its pairs.
module _ (encode : Text → Text) (print_query : List (Text × Text) → Text) where
  -- `qs ? `?${qs}` : ''`
  abbrev with_query : Text → Text
  with_query qs = if is_empty qs then [] else b'?' ∷ qs

  unfoldable pub endpoint : Call → Endpoint
  endpoint (login password) =
      send post (codes "/api/v1/auth/login") (object (field (codes "password") password ∷ []))
  endpoint logout = ask post (codes "/api/v1/auth/logout")
  endpoint (change_password old new) =
      send post (codes "/api/v1/auth/change-password")
        (object (field (codes "old_password") old ∷ field (codes "new_password") new ∷ []))
  endpoint (setup_admin code password) =
      send post (codes "/api/v1/auth/setup")
        (object (field (codes "code") code ∷ field (codes "password") password ∷ []))
  endpoint auth_status = ask get (codes "/api/v1/auth/status")
  endpoint health = ask get (codes "/api/v1/health")
  endpoint (list_links params) =
      ask get (codes "/api/v1/links" ++ with_query (print_query (list_query params)))
  endpoint (create_link body) = send post (codes "/api/v1/links") (object body)
  endpoint (batch_create items conflict) =
      send post (codes "/api/v1/links/batch") (batch conflict items)
  endpoint (get_link code) = ask get (links_path ++ link_address encode code)
  endpoint (update_link code body) =
      send patch (links_path ++ link_address encode code) (object body)
  endpoint (delete_link code) = ask delete (links_path ++ link_address encode code)
  endpoint (delete_links cs) = send delete (codes "/api/v1/links") (code_list cs)
  endpoint expired_count = ask get (codes "/api/v1/links/expired")
  endpoint delete_expired = ask delete (codes "/api/v1/links/expired")
  endpoint export_json = ask get (codes "/api/v1/links/export.json")
  endpoint (log_history limit offset) = log_page limit offset
  endpoint (console k) = console_endpoint k

  abbrev is_form : Option Body → Bool
  is_form (some (icon_form file)) = true
  is_form _ = false

  -- The HTTP request of a call.
  unfoldable pub request_of : Option ServerConfig → Call → HttpRequest
  request_of server call =
      let e = endpoint call in
      http_request server e.path
        (record { method = e.method; headers = []; is_form = is_form e.body })
