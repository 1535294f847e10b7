-- ===== src/Backend/Targets/ShortUrls.antt =====
-- The short URLs that the console shows (`linkUrls` of frontend/src/lib/api.ts) as targets of links
-- (`selfLinkTarget` of internal/api/links.go).
use gourl.Common.{
  true, false, ◌||◌, ◌==◌, Option, none, some, List, [], ◌∷◌, ◌++◌, map, Text, codes, same,
  same_refl, is_empty, includes, trim, split, All, All-append, append_assoc, ◌≡◌, refl, sym, ap,
  ◌∙◌, arith, Bool-cases, inl, inr,
}
use gourl.Api.Types.{AppConfig, ServerConfig}
use gourl.Api.Urls.{strip_slashes, push_base, push_all, link_bases, link_urls, with_base}
use gourl.Backend.Addresses.{path_code, IsPlainSegment, plain_segments}
use gourl.Backend.Codes.{slash, first_segment, is_reserved, validate}
use gourl.Backend.Codes.Laws.{valid_segments}
use gourl.Backend.Targets.{
  GoUrl, Origin, GoLibrary, own_bases, is_web_scheme, host_port, is_own_base, any_own_base,
  self_link_target,
}

module _ (P : Text → Type 0) where
  push_base-All :
      (bases : List Text) (base : Text)
      → All P bases
      → P (strip_slashes (trim base))
      → All P (push_base bases base)
  unfolding push_base
  push_base-All bases base h k =
      let t = strip_slashes (trim base) in
      elim (Bool-cases (is_empty t || includes bases t)) [
        | inl old ↦ rw (old, push_base) h
        | inr fresh ↦ rw (fresh, push_base) (All-append P bases (t ∷ []) h (k, tt))
      ]

  push_all-All :
      (bases extras : List Text)
      → All P bases
      → All (λ b. P (strip_slashes (trim b))) extras
      → All P (push_all bases extras)
  unfolding push_all
  push_all-All bases [] h k = h
  push_all-All bases (b ∷ extras) h (k, ks) =
      push_all-All (push_base bases b) extras (push_base-All bases b h k) ks

All-with_base :
    (P : Text → Type 0) (code : Text) (bases : List Text)
    → All (λ b. P (with_base code b)) bases
    → All P (map (with_base code) bases)
All-with_base P code [] h = tt
All-with_base P code (b ∷ bases) (k, h) = (k, All-with_base P code bases h)

first_segment-full :
    (code : Text)
    → is_empty code ≡ false
    → All IsPlainSegment (split slash code)
    → is_empty (first_segment code) ≡ false
unfolding first_segment split
first_segment-full [] full h = absurd (cc full)
first_segment-full (c ∷ s) full h = elim (Bool-cases (c == slash)) [
  | inl e ↦ absurd (cc ((rw e at h).0.0))
  | inr e ↦ rw e refl
]

-- The port of a web address: the one it is written with, or else the one of its scheme.
pub data EffectivePort (u : GoUrl) : Text → Type 0 where
  written : is_empty u.port ≡ false → EffectivePort u u.port
  of_https : u.port ≡ [] → u.scheme ≡ codes "https" → EffectivePort u (codes "443")
  of_http : u.port ≡ [] → u.scheme ≡ codes "http" → EffectivePort u (codes "80")

host_port-EffectivePort :
    (go : GoLibrary) (u : GoUrl) (p : Text)
    → EffectivePort u p
    → host_port go u ≡ go.join_host_port (go.to_lower u.hostname) p
unfolding host_port same
host_port-EffectivePort go u _ (written h) = rw (h, host_port) refl
host_port-EffectivePort go u _ (of_https h k) = rw (h, k, host_port) refl
host_port-EffectivePort go u _ (of_http h k) = rw (h, k, host_port) refl

-- `spell` is a way to write a URL, for instance with capitals in the host or with its port.
module _ (go : GoLibrary) (code : Text) (spell : Text → Text) where
  -- A base of the site: net/url reads it as an address with a host. Behind it, without spaces and
  -- slashes at its ends, the code is the path of a web address, of the same host up to its letters'
  -- case and of the same port.
  pub record IsSiteBase (base : Text) : Type 0 where
    pub site : GoUrl
    pub parses : go.parse base ≡ some site
    pub has_host : is_empty site.host ≡ false
    pub short : GoUrl
    pub joined : go.parse (spell (with_base code (strip_slashes (trim base)))) ≡ some short
    pub keeps_host : is_empty short.host ≡ false
    pub is_web : is_web_scheme short.scheme ≡ true
    pub path_is : short.path ≡ slash ∷ code
    pub same_host : go.to_lower short.hostname ≡ go.to_lower site.hostname
    pub port : Text
    pub site_port : EffectivePort site port
    pub short_port : EffectivePort short port

  any_own_base-append :
      (u : GoUrl) (pre post : List Text) (b : Text)
      → is_own_base go u b ≡ true
      → any_own_base go u (pre ++ b ∷ post) ≡ true
  unfolding any_own_base
  any_own_base-append u [] post b h = ground (arith, h)
  any_own_base-append u (c ∷ pre) post b h = ground (arith, any_own_base-append u pre post b h)

  site_base-is_own_base : (base : Text) (h : IsSiteBase base) → is_own_base go h.short base ≡ true
  unfolding is_own_base
  site_base-is_own_base base h =
      let near =
        host_port-EffectivePort go h.site h.port h.site_port
        ∙ ap (λ n. go.join_host_port n h.port) (sym h.same_host)
        ∙ sym (host_port-EffectivePort go h.short h.port h.short_port) in
      rw (is_own_base, h.parses, h.has_host, near) (same_refl _)

  module _ (cfg : AppConfig) (o : Origin) where
    abbrev Refused : Text → Type 0
    Refused url = self_link_target go cfg o (spell url) ≡ true

    base-Refused :
        (pre post : List Text) (base : Text)
        → own_bases cfg o ≡ pre ++ base ∷ post
        → is_empty (first_segment code) ≡ false
        → is_reserved go.equal_fold go.to_lower (first_segment code) cfg.reserved_codes ≡ false
        → IsSiteBase base
        → Refused (with_base code (strip_slashes (trim base)))
    unfolding self_link_target path_code
    base-Refused pre post base e full free h =
        let own : any_own_base go h.short (own_bases cfg o) ≡ true =
          ap (any_own_base go h.short) e
          ∙ any_own_base-append h.short pre post base (site_base-is_own_base base h) in
        rw (self_link_target, h.joined, h.keeps_host, h.is_web, own, h.path_is, full, free) refl

    bases-Refused :
        (pre post : List Text)
        → own_bases cfg o ≡ pre ++ post
        → is_empty (first_segment code) ≡ false
        → is_reserved go.equal_fold go.to_lower (first_segment code) cfg.reserved_codes ≡ false
        → All IsSiteBase post
        → All (λ b. Refused (with_base code (strip_slashes (trim b)))) post
    bases-Refused pre [] e full free h = tt
    bases-Refused pre (b ∷ post) e full free (k, h) = (
      base-Refused pre post b e full free k,
      bases-Refused (pre ++ b ∷ []) post (e ∙ sym (append_assoc pre (b ∷ []) post)) full free h,
    )

    -- Where the address of the site is configured, none of the short URLs that the console shows for
    -- a code can become the target of a link, however it is spelled: the server refuses each of them
    -- as one of its own links. The code is valid, not the root code, and its first segment is not
    -- reserved. Spelled in any way that keeps the host up to the case of its letters, the port
    -- (written out, or else 443 for https and 80 for http) and the code as the path, each short URL
    -- is a web address.
    pub link_urls-self_link_target :
        (server : Option ServerConfig) (page_origin : Text)
        → is_empty cfg.base_url ≡ false
        → All IsSiteBase (cfg.base_url ∷ cfg.extra_base_urls)
        → validate code ≡ none
        → same code (codes "/") ≡ false
        → is_reserved go.equal_fold go.to_lower (first_segment code) cfg.reserved_codes ≡ false
        → All Refused (link_urls code cfg server page_origin)
    unfolding link_urls link_bases
    link_urls-self_link_target server page_origin set sites ok other free =
        let (code_full, segments) = valid_segments code ok other in
        let full = first_segment-full code code_full (plain_segments (split slash code) segments) in
        let own : own_bases cfg o ≡ cfg.base_url ∷ cfg.extra_base_urls = rw (set) refl in
        let (first, rest) =
          bases-Refused [] (cfg.base_url ∷ cfg.extra_base_urls) own full free sites in
        let P : Text → Type 0 = λ b. Refused (with_base code b) in
        rw (other, set, link_urls, link_bases)
          (All-with_base Refused code _ (
            push_all-All P (push_base [] cfg.base_url) cfg.extra_base_urls
              (push_base-All P [] cfg.base_url tt first) rest))
