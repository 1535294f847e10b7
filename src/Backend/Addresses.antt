-- ===== src/Backend/Addresses.antt =====
-- Which link a request of the REST API addresses: `pathCode` and `addressedCode` of
-- internal/api/links.go. What net/http reads from the address is a parameter.
use mathlib.Core.Path.{subst}
use gourl.Common.{
  false, ◌==◌, if◌then◌else◌, none, List, [], ◌∷◌, ◌++◌, map, Text, codes, same, same_iff, is_empty,
  split, join, join-split, All, Lacks, ◌≡◌, ◌≢◌, refl, sym, ◌∙◌, arith, Bool-cases, Option-cases,
  inl, inr,
}
use gourl.Api.Urls.{encode_path, link_address}
use gourl.Api.Urls.Paths.{UriCoding, encode_path-Lacks}
use gourl.Backend.Codes.{slash, check_segments, check_runes, is_code_rune, validate}
use gourl.Backend.Codes.Laws.{valid_segments}

-- `strings.TrimPrefix(code, "/")`
unfoldable pub path_code : Text → Text
path_code [] = []
path_code (c ∷ s) = if c == slash then s else c ∷ s

-- The value of `code` in the query, and the value of the wildcard in the path.
unfoldable pub addressed_code : Text → Text → Text
addressed_code query path = if is_empty query then path_code path else query

-- A segment of a path that neither ServeMux nor the browser cleans away.
abbrev pub IsPlainSegment : Text → Type 0
IsPlainSegment s = (is_empty s ≡ false) × (s ≢ codes ".") × (s ≢ codes "..")

-- What is relied on of net/http: `Query().Get` reads nothing where there is no query and undoes
-- the escapes of the value, and the wildcard holds the unescaped segments of a clean path.
pub record Http (uri : UriCoding) : Type 0 where
  pub query_code : Text → Text
  pub path_value : Text → Text
  pub no_query : (target : Text) → Lacks b'?' target → query_code target ≡ []
  pub query_code-code :
      (path value : Text)
      → Lacks b'?' path
      → query_code (path ++ codes "?code=" ++ uri.encode value) ≡ value
  pub path_value-encode :
      (segments : List Text)
      → All IsPlainSegment segments
      → path_value (join (slash ∷ []) (map uri.encode segments)) ≡ join (slash ∷ []) segments

-- A segment of a valid code is plain: `Validate` lets no dot pass.
plain_runes : (s : Text) → is_empty s ≡ false → check_runes s ≡ none → IsPlainSegment s
unfolding check_runes is_code_rune
plain_runes s full ok = (full, (λ e. cc (rw e at ok)), (λ e. cc (rw e at ok)))

pub plain_segments : (segs : List Text) → check_segments segs ≡ none → All IsPlainSegment segs
unfolding check_segments
plain_segments [] h = tt
plain_segments (s ∷ segs) h = elim (Bool-cases (is_empty s)) [
  | inl e ↦ absurd (cc (rw e at h))
  | inr e ↦ elim (Option-cases (check_runes s)) [
    | inl ok ↦ (plain_runes s e ok, plain_segments segs (ground (arith, h, e, ok)))
    | inr (fault, bad) ↦ absurd (ground (arith, h, e, bad))
  ]
]

path_code-plain : (code : Text) → All IsPlainSegment (split slash code) → path_code code ≡ code
unfolding path_code split
path_code-plain [] h = refl
path_code-plain (c ∷ s) h = elim (Bool-cases (c == slash)) [
  | inl e ↦ absurd (cc ((rw e at h).0.0))
  | inr e ↦ rw (e) refl
]

module _ (uri : UriCoding) (http : Http uri) where
  -- What the handlers read from the address of a request.
  abbrev pub read_code : Text → Text
  read_code target = addressed_code (http.query_code target) (http.path_value target)

  root_code : uri.encode (slash ∷ []) ≡ codes "%2F" → read_code (codes "_?code=%2F") ≡ slash ∷ []
  unfolding addressed_code
  root_code h =
      let query : http.query_code (codes "_?code=%2F") ≡ slash ∷ [] =
        subst (λ x. http.query_code (codes "_?code=" ++ x) ≡ slash ∷ []) h
          (http.query_code-code (codes "_") (slash ∷ []) ((λ e. absurd (omega (arith, e))), tt)) in
      rw (query) refl

  path_code-encode_path :
      (code : Text)
      → same code (slash ∷ []) ≡ false
      → validate code ≡ none
      → read_code (encode_path uri.encode code) ≡ code
  unfolding addressed_code encode_path
  path_code-encode_path code other ok =
      let segments : All IsPlainSegment (split slash code) =
        plain_segments (split slash code) (valid_segments code ok other).1 in
      rw
        (
          http.no_query (encode_path uri.encode code) (encode_path-Lacks uri code),
          http.path_value-encode (split slash code) segments,
          join-split,
        )
        (path_code-plain code segments)

  -- The server finds each valid code from the address that the console makes for it: a code of
  -- several segments from the path, and the code of a single slash from the query.
  pub addressed_code-link_address :
      (code : Text)
      → uri.encode (slash ∷ []) ≡ codes "%2F"
      → validate code ≡ none
      → read_code (link_address uri.encode code) ≡ code
  unfolding link_address
  addressed_code-link_address code escape ok = elim (Bool-cases (same code (codes "/"))) [
    | inl e ↦ rw (e) (root_code escape ∙ sym ((same_iff code (codes "/")).0 e))
    | inr e ↦ rw (e) (path_code-encode_path code e ok)
  ]
