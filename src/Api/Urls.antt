-- ===== src/Api/Urls.antt =====
-- Addresses of frontend/src/lib/api.ts: the short URLs of a code, the address of an asset on the
-- connected server, and the path that addresses a code in the REST API.
use gourl.Common.{
  ℕ, Bool, true, false, ◌||◌, ◌==◌, not, if◌then◌else◌, Option, none, some, List, [], ◌∷◌, ◌++◌,
  map, Text, trim, is_empty, includes, same, codes, split, join,
}
use gourl.Api.Types.{ServerConfig, AppConfig}
pub mod Bases
pub mod Paths

abbrev pub slash : ℕ
slash = b'/'

abbrev pub keep_slash : ℕ → Text → Text
keep_slash c [] = if c == slash then [] else c ∷ []
keep_slash c (d ∷ r) = c ∷ d ∷ r

-- `s.replace(/\/+$/, '')`
unfoldable pub strip_slashes : Text → Text
strip_slashes [] = []
strip_slashes (c ∷ s) = keep_slash c (strip_slashes s)

unfoldable pub asset_url : Option ServerConfig → Text → Text
asset_url none path = path
asset_url (some server) path = strip_slashes server.url ++ path

-- One call of `push` on the list of bases.
unfoldable pub push_base : List Text → Text → List Text
push_base bases base =
    let trimmed = strip_slashes (trim base) in
    if is_empty trimmed || includes bases trimmed then bases else bases ++ trimmed ∷ []

unfoldable pub push_all : List Text → List Text → List Text
push_all bases [] = bases
push_all bases (extra ∷ extras) = push_all (push_base bases extra) extras

-- `cfg.base_url || getServerConfig()?.url || origin`
abbrev pub first_full : Text → Text → Text
first_full a b = if is_empty a then b else a

abbrev pub server_url : Option ServerConfig → Text
server_url none = []
server_url (some server) = server.url

abbrev pub main_base : AppConfig → Option ServerConfig → Text → Text
main_base cfg server origin = first_full cfg.base_url (first_full (server_url server) origin)

-- The last argument is the origin of the page, `location.protocol//location.host`.
unfoldable pub link_bases : AppConfig → Option ServerConfig → Text → List Text
link_bases cfg server origin =
    push_all (push_base [] (main_base cfg server origin)) cfg.extra_base_urls

abbrev pub with_base : Text → Text → Text
with_base code base = base ++ slash ∷ code

unfoldable pub link_urls : Text → AppConfig → Option ServerConfig → Text → List Text
link_urls code cfg server origin =
    let bases = link_bases cfg server origin in
    if same code (codes "/") then bases else map (with_base code) bases

-- `encodeURIComponent` is a parameter.
module _ (encode : Text → Text) where
  unfoldable pub encode_path : Text → Text
  encode_path code = join (slash ∷ []) (map encode (split slash code))

  unfoldable pub link_address : Text → Text
  link_address code = if same code (codes "/") then codes "_?code=%2F" else encode_path code
