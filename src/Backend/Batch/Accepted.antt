-- ===== src/Backend/Batch/Accepted.antt =====
-- The codes that `resolveCode` of internal/api/batch.go accepts, and what the console's deletion of
-- such a link does.
use gourl.Common.{
  ℕ, Bool, true, false, Option, none, List, [], ◌∷◌, Text, codes, same, split, join, is_empty, ◌⊎◌,
  inl, inr, ◌≡◌, refl, sym, ap, ◌∙◌, arith, Bool-cases, Option-cases,
}
use gourl.Api.Urls.{link_address}
use gourl.Api.Urls.Paths.{UriCoding, read_address, read_path}
use gourl.Api.Endpoints.{Call, delete_link}
use gourl.Api.Endpoints.Deletion.{SameRequest, delete_link-SameRequest}
use gourl.Backend.Codes.{Fault, validate, is_reserved, slash, first_segment}
use gourl.Backend.Items.{CreateRequest, Site, CodeError, resolve_code}
use gourl.Backend.Addresses.{Http, read_code, addressed_code-link_address}

module _ (fault_text : Fault → Text) (site : Site) (buffer : Option (List ℕ))
    (item : CreateRequest) where
  abbrev resolved : Text ⊎ CodeError
  resolved = resolve_code fault_text site buffer item

  -- A custom code is accepted as it is.
  custom :
      (code : Text)
      → is_empty item.code ≡ false
      → resolved ≡ inl code
      → (code ≡ item.code)
        × (validate code ≡ none)
        × (is_reserved site.go.equal_fold site.go.to_lower code site.config.reserved_codes ≡ false)
  unfolding resolve_code
  custom code given h = elim (Option-cases (validate item.code)) [
    | inr (fault, bad) ↦ absurd (ground (arith, h, given, bad))
    | inl ok ↦
        elim (Bool-cases
          (is_reserved site.go.equal_fold site.go.to_lower item.code site.config.reserved_codes)) [
            | inl e ↦ absurd (ground (arith, h, given, ok, e))
            | inr e ↦
                let same_code : code ≡ item.code = ground (arith, h, given, ok, e) in
                (same_code, rw (same_code) ok, rw (same_code) e)
          ]
  ]

expired_is_reserved :
    (equal_fold : Text → Text → Bool) (to_lower : Text → Text) (extra : List Text)
    → ((s : Text) → equal_fold s s ≡ true)
    → is_reserved equal_fold to_lower (codes "expired") extra ≡ true
unfolding is_reserved first_segment same
expired_is_reserved equal_fold to_lower extra reflexive =
    let hit = reflexive (codes "expired") in
    elim (Bool-cases (equal_fold (codes "expired") (codes "api"))) [
      | inl e ↦ rw (e) refl
      | inr e ↦ elim (Bool-cases (equal_fold (codes "expired") (codes "admin"))) [
        | inl k ↦ rw (e, k) refl
        | inr k ↦ rw (e, k, hit) refl
      ]
    ]

read_expired :
    (uri : UriCoding)
    → uri.encode (codes "expired") ≡ codes "expired"
    → read_address uri (codes "expired") ≡ codes "expired"
unfolding read_address read_path split join same
read_expired uri plain = ap uri.decode (sym plain) ∙ uri.decode-encode (codes "expired")

module _ (uri : UriCoding) (print_query : List (Text × Text) → Text) (http : Http uri) where
  -- Where the server accepted the custom code of a link, the call that deletes this one link is
  -- the only call of the console that makes its request, the deletion of all expired links
  -- included, and the server reads the code of the link from the address.
  pub accepted-delete_link :
      (fault_text : Fault → Text) (site : Site) (buffer : Option (List ℕ)) (item : CreateRequest)
      (code : Text) (k : Call)
      → ((s : Text) → site.go.equal_fold s s ≡ true)
      → uri.encode (codes "expired") ≡ codes "expired"
      → uri.encode (slash ∷ []) ≡ codes "%2F"
      → is_empty item.code ≡ false
      → resolve_code fault_text site buffer item ≡ inl code
      → SameRequest uri print_query k (delete_link code)
      → (k ≡ delete_link code) × (read_code uri http (link_address uri.encode code) ≡ item.code)
  accepted-delete_link fault_text site buffer item code k reflexive plain escape given accepted
        same_request =
      let (same_code, ok, free) = custom fault_text site buffer item code given accepted in
      let reads = addressed_code-link_address uri http code escape ok ∙ same_code in
      elim (delete_link-SameRequest uri print_query code k same_request) [
        | inl one ↦ (one, reads)
        | inr (all, reserved) ↦
            let is_expired : code ≡ codes "expired" = reserved ∙ read_expired uri plain in
            absurd (
              cc (
                sym free
                ∙ ap
                    (λ c.
                      is_reserved site.go.equal_fold site.go.to_lower c site.config.reserved_codes)
                    is_expired
                ∙ expired_is_reserved site.go.equal_fold site.go.to_lower site.config.reserved_codes
                    reflexive))
      ]
