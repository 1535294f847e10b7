-- ===== src/Examples/Percent.antt =====
-- A concrete escaping of three units, and what a server reads with it.
use gourl.Common.{
  ℕ, Bool, true, false, ◌==◌, if◌then◌else◌, List, [], ◌∷◌, ◌++◌, map, Text, codes, split, join,
  split-join, drop, All, Lacks, ◌≡◌, ◌≢◌, refl, ap, ◌∙◌, arith, Bool-cases, inl, inr,
}
use gourl.Api.Urls.Paths.{UriCoding}
use gourl.Backend.Addresses.{Http}

-- The last two units of an escape, which stand for one of three units.
abbrev unit_of : ℕ → ℕ → ℕ
unit_of d e = if d == b'3' then b'?' else if e == b'5' then b'%' else b'/'

abbrev is_special : ℕ → Bool
is_special c = if c == b'/' then true else if c == b'?' then true else c == b'%'

abbrev high : ℕ → ℕ
high c = if c == b'?' then b'3' else b'2'

abbrev low : ℕ → ℕ
low c = if c == b'%' then b'5' else b'F'

unfoldable pub encode : Text → Text
encode [] = []
encode (c ∷ s) =
    let rest = encode s in if is_special c then b'%' ∷ high c ∷ low c ∷ rest else c ∷ rest

pub decode : Text → Text
decode [] = []
decode (c ∷ []) = c ∷ []
decode (c ∷ d ∷ []) = c ∷ d ∷ []
decode (c ∷ d ∷ e ∷ s) =
    let behind = decode s in
    let rest = decode (d ∷ e ∷ s) in if c == b'%' then unit_of d e ∷ behind else c ∷ rest

decode_plain : (c : ℕ) (s : Text) → (c == b'%') ≡ false → decode (c ∷ s) ≡ c ∷ decode s
unfolding decode
decode_plain c [] h = refl
decode_plain c (d ∷ []) h = refl
decode_plain c (d ∷ e ∷ s) h = rw (h) refl

decode_escape : (d e : ℕ) (s : Text) → decode (b'%' ∷ d ∷ e ∷ s) ≡ unit_of d e ∷ decode s
unfolding decode
decode_escape d e s = refl

unit_back : (c : ℕ) → is_special c ≡ true → unit_of (high c) (low c) ≡ c
unit_back c h = ground (arith, h)

special_percent : (c : ℕ) → is_special c ≡ false → (c == b'%') ≡ false
special_percent c h = ground (arith, h)

pub decode-encode : (s : Text) → decode (encode s) ≡ s
unfolding encode
decode-encode [] = unfold decode in refl
decode-encode (c ∷ s) = elim (Bool-cases (is_special c)) [
  | inl e ↦ rw e (
      decode_escape (high c) (low c) (encode s)
      ∙ ap (λ u. u ∷ decode (encode s)) (unit_back c e)
      ∙ ap (λ r. c ∷ r) (decode-encode s))
  | inr e ↦
      rw e (decode_plain c (encode s) (special_percent c e) ∙ ap (λ r. c ∷ r) (decode-encode s))
]

plain_unit : (c : ℕ) → is_special c ≡ false → (c ≢ b'/') × (c ≢ b'?')
plain_unit c h = ((λ e. ground (arith, h, e)), λ e. ground (arith, h, e))

escape_units : (c : ℕ) → (high c ≢ b'/') × (high c ≢ b'?') × (low c ≢ b'/') × (low c ≢ b'?')
escape_units c = (
  (λ e. ground (arith, e)),
  (λ e. ground (arith, e)),
  (λ e. ground (arith, e)),
  λ e. ground (arith, e),
)

pub encode-Lacks : (s : Text) → All (λ c. (c ≢ b'/') × (c ≢ b'?')) (encode s)
unfolding encode
encode-Lacks [] = tt
encode-Lacks (c ∷ s) = elim (Bool-cases (is_special c)) [
  | inl e ↦
      let (a, b, d, f) = escape_units c in
      rw e (
        ((λ k. absurd (omega (arith, k))), λ k. absurd (omega (arith, k))),
        ((a, b), ((d, f), encode-Lacks s)),
      )
  | inr e ↦ rw e (plain_unit c e, encode-Lacks s)
]

pub slashes : (s : Text) → All (λ c. (c ≢ b'/') × (c ≢ b'?')) s → Lacks b'/' s
slashes [] h = tt
slashes (c ∷ s) ((k, _), h) = (k, slashes s h)

pub marks : (s : Text) → All (λ c. (c ≢ b'/') × (c ≢ b'?')) s → Lacks b'?' s
marks [] h = tt
marks (c ∷ s) ((_, k), h) = (k, marks s h)

abbrev pub percent : UriCoding
percent = record {
  encode = encode;
  decode = decode;
  decode-encode = decode-encode;
  encode-Lacks = λ s. slashes (encode s) (encode-Lacks s);
  encode-Lacks_mark = λ s. marks (encode s) (encode-Lacks s);
}

-- The value behind `?code=`.
pub query_code : Text → Text
query_code [] = []
query_code (c ∷ s) = if c == b'?' then decode (drop 5 s) else query_code s

pub no_query : (s : Text) → Lacks b'?' s → query_code s ≡ []
unfolding query_code
no_query [] h = refl
no_query (c ∷ s) (k, h) = ground (arith, k, no_query s h)

pub query_code-code : (p v : Text) → Lacks b'?' p → query_code (p ++ codes "?code=" ++ encode v) ≡ v
unfolding query_code
query_code-code [] v h = decode-encode v
query_code-code (c ∷ p) v (k, h) = ground (arith, k, query_code-code p v h)

decode_all : (ps : List Text) → map decode (map encode ps) ≡ ps
decode_all [] = refl
decode_all (p ∷ ps) = cc (decode-encode p, decode_all ps)

all_slashes : (ps : List Text) → All (Lacks b'/') (map encode ps)
all_slashes [] = tt
all_slashes (p ∷ ps) = (slashes (encode p) (encode-Lacks p), all_slashes ps)

pub read_segments :
    (ps : List Text)
    → join (b'/' ∷ []) (map decode (split b'/' (join (b'/' ∷ []) (map encode ps))))
      ≡ join (b'/' ∷ []) ps
read_segments [] = unfold join split decode in refl
read_segments (p ∷ ps) =
    rw (split-join b'/' (map encode (p ∷ ps)) (λ e. cc e) (all_slashes (p ∷ ps)))
      (ap (join (b'/' ∷ [])) (decode_all (p ∷ ps)))

abbrev pub http : Http percent
http = record {
  query_code = query_code;
  path_value = λ s. join (b'/' ∷ []) (map decode (split b'/' s));
  no_query = no_query;
  query_code-code = query_code-code;
  path_value-encode = λ ps h. read_segments ps;
}
