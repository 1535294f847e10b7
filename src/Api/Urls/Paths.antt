-- ===== src/Api/Urls/Paths.antt =====
-- The path that addresses a code, read back the way the server reads it.
use mathlib.Core.Path.{subst}
use gourl.Common.{
  List, [], ◌∷◌, map, Text, codes, same, same_iff, same_refl, if◌then◌else◌, Bool-cases, inl, inr,
  All, All-append, Lacks, ◌≡◌, ◌≢◌, refl, sym, arith, split, join, split-join, join-split,
  split-ne-nil,
}
use gourl.Api.Urls.{slash, encode_path, link_address}

-- What is relied on of `encodeURIComponent`: the server's unescaping undoes it, and its result
-- holds no slash and no question mark.
pub record UriCoding : Type 0 where
  pub encode : Text → Text
  pub decode : Text → Text
  pub decode-encode : (s : Text) → decode (encode s) ≡ s
  pub encode-Lacks : (s : Text) → Lacks slash (encode s)
  pub encode-Lacks_mark : (s : Text) → Lacks b'?' (encode s)

module _ (uri : UriCoding) where
  -- The server splits the path at its slashes and unescapes each part.
  unfoldable pub read_path : Text → Text
  read_path path = join (slash ∷ []) (map uri.decode (split slash path))

  encoded-Lacks : (ps : List Text) → All (Lacks slash) (map uri.encode ps)
  encoded-Lacks [] = tt
  encoded-Lacks (p ∷ ps) = (uri.encode-Lacks p, encoded-Lacks ps)

  decode_all : (ps : List Text) → map uri.decode (map uri.encode ps) ≡ ps
  decode_all [] = refl
  decode_all (p ∷ ps) = cc (uri.decode-encode p, decode_all ps)

  map-ne-nil : (ps : List Text) → ps ≢ [] → map uri.encode ps ≢ []
  map-ne-nil [] h = absurd (h refl)
  map-ne-nil (p ∷ ps) h = λ e. cc e

  -- The path of a code is read back as the code, whatever it holds, slashes included.
  pub read_path-encode_path : (code : Text) → read_path (encode_path uri.encode code) ≡ code
  unfolding read_path encode_path
  read_path-encode_path code =
      rw
        (
          split-join slash _ (map-ne-nil (split slash code) (split-ne-nil slash code))
              (encoded-Lacks (split slash code)),
          decode_all,
          join-split,
        )
        refl

  join-Lacks : (ps : List Text) → All (Lacks b'?') ps → Lacks b'?' (join (slash ∷ []) ps)
  unfolding join
  join-Lacks [] h = tt
  join-Lacks (p ∷ []) (h, _) = h
  join-Lacks (p ∷ q ∷ ps) (h, hs) =
      All-append (λ c. c ≢ b'?') p _ h ((λ e. absurd (omega (arith, e))), join-Lacks (q ∷ ps) hs)

  marks_lacking : (ps : List Text) → All (Lacks b'?') (map uri.encode ps)
  marks_lacking [] = tt
  marks_lacking (p ∷ ps) = (uri.encode-Lacks_mark p, marks_lacking ps)

  pub encode_path-Lacks : (code : Text) → Lacks b'?' (encode_path uri.encode code)
  unfolding encode_path
  encode_path-Lacks code = join-Lacks _ (marks_lacking (split slash code))

  abbrev root_address : Text
  root_address = codes "_?code=%2F"

  encode_path-ne-root : (code : Text) → encode_path uri.encode code ≢ root_address
  unfolding encode_path
  encode_path-ne-root code e =
      let lacking : Lacks b'?' root_address = subst (Lacks b'?') e (encode_path-Lacks code) in
      lacking.1.0 refl

  -- The server takes the code from the query where the address has the one of the root code.
  unfoldable pub read_address : Text → Text
  read_address address = if same address root_address then codes "/" else read_path address

  -- The address of a code, in the path or in the query, is read back as the code, whatever it
  -- holds, the code of a single slash included.
  pub read_address-link_address : (code : Text) → read_address (link_address uri.encode code) ≡ code
  unfolding read_address link_address
  read_address-link_address code = elim (Bool-cases (same code (codes "/"))) [
    | inl e ↦
        rw (e, link_address)
          (rw (same_refl root_address, read_address) (sym ((same_iff code (codes "/")).0 e)))
    | inr e ↦
        rw (e, link_address)
          (elim (Bool-cases (same (encode_path uri.encode code) root_address)) [
            | inl k ↦ absurd (encode_path-ne-root code ((same_iff _ root_address).0 k))
            | inr k ↦ rw (k, read_address) (read_path-encode_path code)
          ])
  ]
