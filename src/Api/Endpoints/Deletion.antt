-- ===== src/Api/Endpoints/Deletion.antt =====
-- No other call makes the request that deletes a link (frontend/src/lib/api.ts).
use gourl.Common.{
  List, ◌++◌, Text, codes, drop, starts_with, Bool, true, false, ◌≡◌, ◌⊎◌, inl, inr, refl, ◌∙◌, sym,
  ap, some, none,
}
use gourl.Api.Request.{delete}
use gourl.Api.Urls.{link_address}
use gourl.Api.Urls.Paths.{UriCoding, read_address, read_address-link_address}
use gourl.Api.Endpoints.{
  Call, ConsoleCall, ua_blocks, Endpoint, endpoint, console_endpoint, log_page, links_path,
  delete_link, delete_expired, console,
}

module _ (uri : UriCoding) (print_query : List (Text × Text) → Text) where
  abbrev pub SameRequest : Call → Call → Type 0
  SameRequest k c = endpoint uri.encode print_query k ≡ endpoint uri.encode print_query c

  -- Whether a request has the shape of a link's deletion.
  abbrev deletes : Endpoint → Bool
  deletes e = elim e.method [
    | delete ↦ elim e.body [ none ↦ starts_with e.path links_path | some b ↦ false ]
    | _ ↦ false
  ]

  console_keeps : (k : ConsoleCall) → deletes (console_endpoint k) ≡ false
  unfolding console_endpoint starts_with
  console_keeps ua_blocks = refl
  console_keeps _ = refl

  address_of :
      (code : Text) (d : Text)
      → links_path ++ d ≡ links_path ++ link_address uri.encode code
      → code ≡ read_address uri d
  address_of code d h =
      let rest : d ≡ link_address uri.encode code = ap (drop 14) h in
      sym (ap (read_address uri) rest ∙ read_address-link_address uri code)

  -- A call that makes the same request as the deletion of a link is that deletion, of the same
  -- code, unless the address of the code reads `expired`: then it may be the deletion of all
  -- expired links.
  pub delete_link-SameRequest :
      (code : Text) (k : Call)
      → SameRequest k (delete_link code)
      → (k ≡ delete_link code)
        ⊎ ((k ≡ delete_expired) × (code ≡ read_address uri (codes "expired")))
  unfolding endpoint log_page starts_with
  delete_link-SameRequest code (delete_link d) h =
      let path = ap (λ (e : Endpoint). e.path) h in
      let code_is : code ≡ d =
        address_of code (link_address uri.encode d) path ∙ read_address-link_address uri d in
      inl (ap delete_link (sym code_is))
  delete_link-SameRequest code delete_expired h =
      inr (refl, address_of code (codes "expired") (ap (λ (e : Endpoint). e.path) h))
  delete_link-SameRequest code (console k) h =
      let shape : false ≡ true = sym (console_keeps k) ∙ ap deletes h in absurd (cc shape)
  delete_link-SameRequest code k h = let shape = ap deletes h in absurd (cc shape)
