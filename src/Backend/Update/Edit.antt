-- ===== src/Backend/Update/Edit.antt =====
-- Saving the edit form of frontend/src/components/LinkFormDialog.tsx without a change, up to the
-- link that `updateLink` of internal/api/links.go writes.
use gourl.Common.{true, false, ◌&&◌, ltb, none, some, [], ◌∷◌, same, is_empty, trim, ◌≡◌}
use gourl.Platform.{ℤ}
use gourl.Api.Types.{Link}
use gourl.LinkForm
use gourl.LinkForm.{LinkBody}
use gourl.Backend.Codes.{slash, validate}
use gourl.Backend.Targets.{is_absolute_url, self_link_target}
use gourl.Backend.Items.{Site, max_description_len}
use gourl.Backend.Update.{UpdateRequest, found, updated, LinkStore, on_root, update_link}

-- The body of the form's request as the handler decodes it.
abbrev pub received : LinkBody → UpdateRequest
received body = record {
  code = body.code;
  url = some body.url;
  title = none;
  description = some body.description;
  expires_at = some body.expires_at;
}

-- A link that the server takes as it is, and a store that answers each call.
pub record IsEditable (site : Site) (store : LinkStore) (link : Link) : Type 0 where
  pub full : is_empty (trim link.url) ≡ false
  pub valid : validate link.code ≡ none
  pub is_absolute : is_absolute_url site.go link.url ≡ true
  pub not_own : self_link_target site.go site.config site.origin link.url ≡ false
  pub short : ltb max_description_len (site.go.rune_count link.description) ≡ false
  pub no_loop : (same link.code (slash ∷ []) && on_root site link.url) ≡ false
  pub is_found : store.get_link link.code ≡ found link
  pub backed_up : store.backup_link link ≡ true
  pub accepted : (l : Link) → store.update_link l ≡ updated

-- What the form sends of the link that it was opened with.
abbrev pub body_of : Link → ℤ → LinkBody
body_of link expires = record {
  url = link.url;
  code = some link.code;
  description = link.description;
  expires_at = expires;
}
