-- ===== src/Examples/Server.antt =====
-- The console and the server together.
use gourl.Common.{
  drop, All, index_of, is_space, trim, trim_start, trim_end, ℕ, Bool, true, false, Option, none,
  some, List, [], ◌∷◌, ◌++◌, if◌then◌else◌, map, Text, codes, same, same_refl, starts_with, length,
  inl, ◌⊎◌, ◌≡◌, refl, arith, split,
}
use gourl.Platform.{pos}
use gourl.Api.Types.{AppConfig, BatchCreateResponse}
use gourl.Api.Urls.{link_address, link_urls, strip_slashes}
use gourl.Api.Endpoints.{Conflict, delete_link}
use gourl.BatchDialog
use gourl.BatchDialog.{Request, on_create, submit, validate_from, validate_line}
use gourl.Batch.{
  Item, parse_batch_line, after_trim, after_code, code_part, date_part, url_part, bracket,
  is_absolute_url,
}
use gourl.Backend.Batch.Request.{received, import_item}
use gourl.Backend.Targets
use gourl.Backend.Targets.{GoLibrary, GoUrl, self_link_target, any_own_base, is_own_base, host_port}
use gourl.Backend.Codes.{
  is_code_rune, check_runes, check_segments, validate, is_reserved, first_segment, is_extra,
}
use gourl.Backend.Batch.{
  handle_batch, Store, NewLink, created_with, batch_create, check_all, new_link, no_tally,
}
use gourl.Backend.Items.{CreateRequest, Site, CodeError, resolve_code, checked_code}
use gourl.Backend.Batch.Order.{report}
use gourl.Backend.Batch.Answers.{Reports, batch_create-report}
use gourl.Backend.Batch.Dialog.{Leaves, stored, settle-handle_batch}
use gourl.Backend.Batch.Accepted.{accepted-delete_link}
use gourl.Backend.Addresses.{read_code, addressed_code-link_address}
use gourl.Backend.Targets.ShortUrls.{IsSiteBase, written, of_http, link_urls-self_link_target}
use gourl.Examples.Percent.{percent, http, encode}
use gourl.Examples.Values.{config, parse_url, get_time}

-- Every text is a URL of another host.
abbrev pub go_library : GoLibrary
go_library = record {
  parse = λ s. some (record {
    scheme = codes "http";
    host = s;
    hostname = s;
    port = [];
    opaque_part = [];
    path = [];
    fragment = [];
  });
  join_host_port = λ h p. h;
  equal_fold = same;
  to_lower = λ s. s;
  rune_count = length;
}

abbrev pub site : Site
site = record {
  go = go_library;
  config = config;
  origin = record { is_tls = false; forwarded_proto = []; host = codes "h" };
}

abbrev item_for : Text → Bool → CreateRequest
item_for code deleted = record {
  url = codes "http://y";
  code = code;
  title = [];
  description = [];
  expires_at = none;
  created_at = none;
  deleted = deleted;
}

abbrev site_check : ℕ → CreateRequest → Text ⊎ CodeError
site_check i item = checked_code (λ f. codes "bad") site (some (1 ∷ 2 ∷ [])) item

-- The store has a link of the code `b`.
abbrev answers : List NewLink → Option (List Bool)
answers rows = some (map (λ r. same r.code (codes "b")) rows)

abbrev link_store : Store
link_store = record { now = pos 5; create_links = answers; update_error = λ p. none }

abbrev items : List CreateRequest
items =
    item_for (codes "a") false
    ∷ item_for (codes "b") false
    ∷ item_for (codes "docs") false
    ∷ item_for (codes "c") true
    ∷ []

store_answers :
    link_store.create_links
      (map (new_link link_store.now) (check_all site_check 0 items no_tally).1)
    ≡ some (false ∷ true ∷ [])
unfolding check_all new_link resolve_code validate split check_segments check_runes is_code_rune
    is_reserved first_segment is_extra Targets.is_absolute_url self_link_target any_own_base
    is_own_base host_port same starts_with
store_answers = refl

batch_create-report_example :
    Reports
      (batch_create site_check link_store Conflict.skip items)
      (report site_check Conflict.skip link_store.update_error 0 items (false ∷ true ∷ []))
batch_create-report_example =
    batch_create-report site_check link_store Conflict.skip items (false ∷ true ∷ []) (omega arith)
      (omega arith) store_answers

abbrev batch_dialog : BatchDialog.Dialog
batch_dialog = record {
  text = codes "[a]http://y\n[b]http://y\n[docs]http://y";
  busy = false;
  failures = [];
  validation = BatchDialog.no_validation;
}

abbrev dialog_item : Text → Item
dialog_item code = record { url = codes "http://y"; code = some code; expires_at = none }

abbrev request : Request
request = record {
  lines = codes "[a]http://y" ∷ codes "[b]http://y" ∷ codes "[docs]http://y" ∷ [];
  items = dialog_item (codes "a") ∷ dialog_item (codes "b") ∷ dialog_item (codes "docs") ∷ [];
}

dialog_sends : (on_create parse_url get_time batch_dialog).1 ≡ some request
unfolding on_create submit BatchDialog.validate index_of validate_from validate_line
    parse_batch_line after_trim after_code code_part date_part url_part bracket is_absolute_url
    split trim trim_start trim_end is_space starts_with
dialog_sends = refl

dialog_answers :
    link_store.create_links (
      map
        (new_link link_store.now)
        (check_all site_check 0 (map received request.items) no_tally).1)
    ≡ some (false ∷ true ∷ [])
unfolding check_all new_link resolve_code validate split check_segments check_runes is_code_rune
    is_reserved first_segment is_extra Targets.is_absolute_url self_link_target any_own_base
    is_own_base host_port same starts_with
dialog_answers = refl

settle-handle_batch_example :
    (length request.items ≡ length request.lines)
    × (res : BatchCreateResponse) × (handle_batch site_check link_store
          (λ s. none)
          []
          Conflict.error
          (map import_item request.items)
        ≡ created_with res)
    × Leaves request
        (stored site_check 0 (map received request.items) (false ∷ true ∷ []))
        batch_dialog
        res
settle-handle_batch_example =
    settle-handle_batch site_check link_store parse_url get_time (λ s. none) [] batch_dialog
      batch_dialog request (false ∷ true ∷ []) dialog_sends (omega arith) dialog_answers

slash_escaped : percent.encode (codes "/") ≡ codes "%2F"
unfolding encode
slash_escaped = refl

custom_valid : validate (codes "a/b") ≡ none
unfolding validate split check_segments check_runes is_code_rune same
custom_valid = refl

addressed_code-link_address_example :
    read_code percent http (link_address percent.encode (codes "a/b")) ≡ codes "a/b"
addressed_code-link_address_example =
    addressed_code-link_address percent http (codes "a/b") slash_escaped custom_valid

expired_plain : percent.encode (codes "expired") ≡ codes "expired"
unfolding encode
expired_plain = refl

custom_accepted :
    resolve_code (λ f. codes "bad") site none (item_for (codes "a/b") false) ≡ inl (codes "a/b")
unfolding resolve_code validate split check_segments check_runes is_code_rune is_reserved
    first_segment is_extra same starts_with Targets.is_absolute_url self_link_target any_own_base
    is_own_base host_port
custom_accepted = refl

accepted-delete_link_example :
    (delete_link (codes "a/b") ≡ delete_link (codes "a/b"))
    × (read_code percent http (link_address percent.encode (codes "a/b")) ≡ codes "a/b")
accepted-delete_link_example =
    accepted-delete_link percent (λ pairs. []) http (λ f. codes "bad") site none
      (item_for (codes "a/b") false) (codes "a/b") (delete_link (codes "a/b")) same_refl
      expired_plain slash_escaped refl custom_accepted refl

abbrev site_url : GoUrl
site_url = record {
  scheme = codes "http";
  host = codes "h";
  hostname = codes "h";
  port = [];
  opaque_part = [];
  path = [];
  fragment = [];
}

-- `http://h` is the site; what is spelled as `HTTP://H:80/...` has its port written out, and
-- what stands behind it as its path.
abbrev own_library : GoLibrary
own_library = record go_library {
  parse = λ s.
      if starts_with (codes "http://h") s
      then some site_url
      else some (record site_url { hostname = codes "H"; port = codes "80"; path = drop 11 s });
  join_host_port = λ h p. h ++ b':' ∷ p;
  to_lower = λ s. if same s (codes "H") then codes "h" else s;
}

-- `http://h` in capitals and with its port.
abbrev shout : Text → Text
shout s = codes "HTTP://H:80" ++ drop 8 s

abbrev own_config : AppConfig
own_config = record config { base_url = codes "http://h"; extra_base_urls = [] }

own_base-IsSiteBase : IsSiteBase own_library (codes "ab/c") shout own_config.base_url
unfolding strip_slashes trim trim_start trim_end is_space same starts_with
own_base-IsSiteBase = record {
  site = site_url;
  parses = refl;
  has_host = refl;
  short = record site_url { hostname = codes "H"; port = codes "80"; path = codes "/ab/c" };
  joined = refl;
  keeps_host = refl;
  is_web = refl;
  path_is = refl;
  same_host = refl;
  port = codes "80";
  site_port = of_http refl refl;
  short_port = written refl;
}

short_valid : validate (codes "ab/c") ≡ none
unfolding validate split check_segments check_runes is_code_rune same
short_valid = refl

short_other : same (codes "ab/c") (codes "/") ≡ false
unfolding same
short_other = refl

short_free :
    is_reserved same own_library.to_lower (first_segment (codes "ab/c")) own_config.reserved_codes
    ≡ false
unfolding is_reserved first_segment is_extra same starts_with
short_free = refl

link_urls-self_link_target_example :
    All
      (λ u. self_link_target own_library own_config site.origin (shout u) ≡ true)
      (link_urls (codes "ab/c") own_config none [])
link_urls-self_link_target_example =
    link_urls-self_link_target own_library (codes "ab/c") shout own_config site.origin none [] refl
      (own_base-IsSiteBase, tt) short_valid short_other short_free
