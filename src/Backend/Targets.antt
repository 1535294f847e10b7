-- ===== src/Backend/Targets.antt =====
-- Which targets of a link the server refuses: `isAbsoluteURL`, `selfLinkTarget` and
-- `selfRootTarget` of internal/api/links.go. What net/url makes of a text is a parameter.
pub mod ShortUrls
use gourl.Common.{
  ℕ, Bool, true, false, ◌&&◌, ◌||◌, not, ◌==◌, if◌then◌else◌, Option, none, some, List, [], ◌∷◌,
  ◌++◌, Text, codes, same, is_empty,
}
use gourl.Api.Types.{AppConfig}
use gourl.Backend.Addresses.{path_code}
use gourl.Backend.Codes.{slash, first_segment, is_reserved}

-- The fields of `url.URL` that the server reads.
pub record GoUrl : Type 0 where
  pub scheme : Text
  pub host : Text
  pub hostname : Text
  pub port : Text
  pub opaque_part : Text
  pub path : Text
  pub fragment : Text

-- The request, as far as it tells the server's own address.
pub record Origin : Type 0 where
  pub is_tls : Bool
  pub forwarded_proto : Text
  pub host : Text

abbrev pub http_scheme : Text
http_scheme = codes "http"

abbrev pub https_scheme : Text
https_scheme = codes "https"

abbrev pub is_web_scheme : Text → Bool
is_web_scheme s = same s http_scheme || same s https_scheme

unfoldable pub inferred_base_url : Origin → Text
inferred_base_url o =
    let scheme =
      if is_web_scheme o.forwarded_proto
      then o.forwarded_proto
      else if o.is_tls
      then https_scheme
      else http_scheme in
    scheme ++ codes "://" ++ o.host

-- The bases that `selfLinkTarget` and `selfRootTarget` compare with.
abbrev pub own_bases : AppConfig → Origin → List Text
own_bases cfg o =
    (if is_empty cfg.base_url then inferred_base_url o else cfg.base_url) ∷ cfg.extra_base_urls

-- What the standard library of Go does.
pub record GoLibrary : Type 0 where
  pub parse : Text → Option GoUrl
  pub join_host_port : Text → Text → Text
  pub equal_fold : Text → Text → Bool
  pub to_lower : Text → Text
  pub rune_count : Text → ℕ

module _ (go : GoLibrary) where
  unfoldable pub is_absolute_url : Text → Bool
  is_absolute_url s = elim (go.parse s) [
    | none ↦ false
    | some u ↦
        not (is_empty u.scheme)
        && (not (is_empty u.host) || not (is_empty u.opaque_part) || not (is_empty u.path))
  ]

  unfoldable pub host_port : GoUrl → Text
  host_port u = go.join_host_port (go.to_lower u.hostname) (
      if is_empty u.port
      then (if same u.scheme https_scheme then codes "443" else codes "80")
      else u.port)

  -- The test of the target that both functions begin with.
  abbrev pub web_target : Text → Option GoUrl
  web_target target = elim (go.parse target) [
    | none ↦ none
    | some u ↦ if is_empty u.host || not (is_web_scheme u.scheme) then none else some u
  ]

  -- A base that cannot be parsed or has no host is passed over.
  unfoldable pub is_own_base : GoUrl → Text → Bool
  is_own_base u base = elim (go.parse base) [
    | none ↦ false
    | some b ↦ if is_empty b.host then false else same (host_port b) (host_port u)
  ]

  unfoldable pub any_own_base : GoUrl → List Text → Bool
  any_own_base u [] = false
  any_own_base u (b ∷ bases) = is_own_base u b || any_own_base u bases

  unfoldable pub self_link_target : AppConfig → Origin → Text → Bool
  self_link_target cfg o target = elim (web_target target) [
    | none ↦ false
    | some u ↦
        if any_own_base u (own_bases cfg o)
        then (let seg = first_segment (path_code u.path) in
            not (is_empty seg)
            && not (is_reserved go.equal_fold go.to_lower seg cfg.reserved_codes))
        else false
  ]

  abbrev pub is_root : GoUrl → Bool
  is_root u = (is_empty u.path || same u.path (slash ∷ [])) && is_empty u.fragment

  unfoldable pub self_root_target : AppConfig → Origin → Text → Bool
  self_root_target cfg o target = elim (web_target target) [
    | none ↦ false
    | some u ↦ any_own_base u (own_bases cfg o) && is_root u
  ]
