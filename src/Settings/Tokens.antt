-- ===== src/Settings/Tokens.antt =====
-- The tokens card of frontend/src/pages/Settings.tsx: creating, copying and revoking a token.
use gourl.Common.{Bool, true, false, Option, none, some, List, [], ◌∷◌, ◌++◌, Text, codes}
use gourl.Api.Types.{
  TokenInfo, ServerConfig, ApiError, Outcome, resolved, rejected, Message, t, Kind, success,
  failure,
}
use gourl.Api.Urls.{strip_slashes}

-- `revoking` and `token_copied` are the card's, the note and the new token its parent's.
pub record Tokens : Type 0 where
  pub token_note : Text
  pub new_token : Text
  pub revoking : Option TokenInfo
  pub token_copied : Bool

pub data Effect : Type 0 where
  toast : Message → Kind → Effect
  invalidate_tokens : Effect

module _ (translated : ApiError → Message) where
  abbrev pub failed {ℓ} : {A : Type ℓ} → Outcome A → List Effect
  failed (rejected e) = toast (translated e) failure ∷ []
  failed other = toast (t "common.error") failure ∷ []

  -- `create`, when the request with the note has ended with the new token.
  unfoldable pub token_created : Outcome Text → Tokens → Tokens × List Effect
  token_created (resolved token) c = (
    record c { new_token = token; token_note = [] },
    invalidate_tokens ∷ toast (t "settings.tokenCreated") success ∷ [],
  )
  token_created other c = (c, failed other)

  -- `revokeMutation`, when the request has ended.
  unfoldable pub token_revoked : Outcome (Unit {0}) → Tokens → Tokens × List Effect
  token_revoked (resolved done) c = (
    record c { revoking = none },
    invalidate_tokens ∷ toast (t "settings.tokenRevoked") success ∷ [],
  )
  token_revoked other c = (c, failed other)

-- The copy button, when the clipboard has answered.
unfoldable pub token_copy_settled : Bool → Tokens → Tokens × List Effect
token_copy_settled true c =
    (record c { token_copied = true }, toast (t "links.copied") success ∷ [])
token_copy_settled false c = (c, toast (t "links.copyFailed") failure ∷ [])

unfoldable pub docs_url : Bool → Option ServerConfig → Text
docs_url true (some server) = strip_slashes server.url ++ codes "/docs/"
docs_url app_mode server = codes "/docs/"
