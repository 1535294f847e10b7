-- ===== src/Examples/Values.antt =====
-- The inputs of the examples, and codecs that stand for the browser's.
use gourl.Common.{
  ℕ, zero, suc, ◌+◌, ◌-◌, ◌*◌, true, false, Option, none, some, List, [], ◌∷◌, map, Text, codes,
  onto_first, ◌≡◌, ◌≢◌, refl, ap, ◌∙◌, arith, All,
}
use gourl.Platform.{ℤ, pos, Url}
use gourl.Platform.Calendar.{Date}
use gourl.Api.Types.{ServerConfig, AppConfig, Link}
use gourl.Api.Storage.{Storage, JsonCodec}
use gourl.Csv.RoundTrip.{Quoting, IsPlainUnit}
use gourl.Api.Urls.Paths.{UriCoding}

-- Texts, each ended by a zero, with every unit raised by one.
abbrev pub write_text : Text → Text → Text
write_text [] rest = zero ∷ rest
write_text (c ∷ s) rest = suc c ∷ write_text s rest

abbrev pub write_texts : List Text → Text
write_texts [] = []
write_texts (s ∷ ss) = write_text s (write_texts ss)

abbrev pub read_texts : Text → List Text
read_texts [] = []
read_texts (zero ∷ s) = [] ∷ read_texts s
read_texts (suc c ∷ s) = onto_first c (read_texts s)

pub read-write_text : (s rest : Text) → read_texts (write_text s rest) ≡ s ∷ read_texts rest
read-write_text [] rest = refl
read-write_text (c ∷ s) rest = ap (onto_first c) (read-write_text s rest)

pub read-write_texts : (ss : List Text) → read_texts (write_texts ss) ≡ ss
read-write_texts [] = refl
read-write_texts (s ∷ ss) =
    read-write_text s (write_texts ss) ∙ ap (λ r. s ∷ r) (read-write_texts ss)

abbrev pub parse_hosts : Text → Option (List Text)
parse_hosts [] = none
parse_hosts (c ∷ s) = some (read_texts s)

abbrev pub hosts_codec : JsonCodec (List Text)
hosts_codec = record {
  stringify = λ ss. 0 ∷ write_texts ss;
  parse = parse_hosts;
  parse-stringify = λ ss. ap some (read-write_texts ss);
  stringify_full = λ ss. refl;
}

abbrev pub server_of : Option (List Text) → Option ServerConfig
server_of (some (url ∷ token ∷ [])) = some (record { url = url; token = token })
server_of other = none

abbrev pub server_codec : JsonCodec ServerConfig
server_codec = record {
  stringify = λ cfg. 0 ∷ write_texts (cfg.url ∷ cfg.token ∷ []);
  parse = λ s. server_of (parse_hosts s);
  parse-stringify =
      λ cfg. ap (λ ss. server_of (some ss)) (read-write_texts (cfg.url ∷ cfg.token ∷ []));
  stringify_full = λ cfg. refl;
}

-- No unit of its result is a slash.
pub encoded-Lacks : (s : Text) → All (λ c. c ≢ 47) (map (λ c. c + 64) s)
encoded-Lacks [] = tt
encoded-Lacks (c ∷ s) = (λ e. omega (arith, e), encoded-Lacks s)

-- Nor is it a question mark.
pub marked-Lacks : (s : Text) → All (λ c. c ≢ 63) (map (λ c. c + 64) s)
marked-Lacks [] = tt
marked-Lacks (c ∷ s) = (λ e. omega (arith, e), marked-Lacks s)

back : (c : ℕ) → (c + 64) - 64 ≡ c
back c = omega arith

pub decoded : (s : Text) → map (λ c. c - 64) (map (λ c. c + 64) s) ≡ s
decoded [] = refl
decoded (c ∷ s) = cc (back c, decoded s)

abbrev pub shifted : UriCoding
shifted = record {
  encode = map (λ c. c + 64);
  decode = map (λ c. c - 64);
  decode-encode = decoded;
  encode-Lacks = encoded-Lacks;
  encode-Lacks_mark = marked-Lacks;
}

-- Every text is an absolute URL of one host.
abbrev pub parse_url : Text → Option Url
parse_url s = some (record {
  protocol = codes "http:";
  host = codes "ex";
  pathname = [];
  origin = codes "http://ex";
})

abbrev pub get_time : Date → ℤ
get_time d = pos ((d.year - 1970) * 31556952000)

abbrev pub storage : Storage
storage k = none

abbrev pub server : ServerConfig
server = record { url = codes "http://ex/"; token = codes "tok" }

abbrev pub config : AppConfig
config = record {
  site = record { name = codes "go"; title = codes "go"; description = [] };
  short_code_length = pos 6;
  base_url = codes "http://a/";
  extra_base_urls = codes "http://b" ∷ codes "http://a" ∷ [];
  reserved_codes = codes "api" ∷ codes "admin" ∷ [];
  ua_blocks = [];
  ip_blocks = [];
  login_rate_max_attempts = pos 5;
  login_rate_lock_seconds = pos 60;
  session_ttl_minutes = pos 60;
  link_rate_per_second = pos 0;
  log_level = codes "info";
  hard_delete = false;
  backup_on_edit = true;
  icon = [];
}

abbrev pub link : Link
link = record {
  id = 1;
  code = codes "x";
  url = codes "http://y";
  title = [];
  description = [];
  expires_at = pos 0;
  click_count = 0;
  created_at = pos 0;
  updated_at = pos 0;
}

pub never_plain : (f : Text) → true ≡ false → All IsPlainUnit f
never_plain f h = absurd (cc h)

-- A writer that quotes every field.
abbrev pub quoted : Quoting
quoted = record { quotes = λ f. true; plain = never_plain }
