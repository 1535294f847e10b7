-- ===== src/Auth/Session.antt =====
-- Connecting and the requests that follow: frontend/src/pages/Connect.tsx together with the stored
-- connection and `request` of frontend/src/lib/api.ts. A request reads the stored connection at
-- each call, so where it goes is decided by the last connection that was stored.
use gourl.Common.{
  Bool, true, false, not, ◌&&◌, ◌||◌, if◌then◌else◌, Option, none, some, Text, is_empty, ◌≡◌, refl,
  ◌∙◌,
}
use gourl.Api.Types.{ServerConfig, Outcome, resolved, rejected, thrown}
use gourl.Api.Storage.{Storage, JsonCodec}
use gourl.Api.Server.{get_server_config, get-set_server_config}
use gourl.Api.Request.{Init, HttpRequest, http_request, IsAddressed, http_request-IsAddressed}
use gourl.Auth.Connect.{Connect, Target, connect, probed}

-- What a stored target reads as: a connection without an address or a token reads as none.
unfoldable pub config_of : Target → Option ServerConfig
config_of target =
    if is_empty target.origin || is_empty target.token
    then none
    else some (record { url = target.origin; token = target.token })

unfoldable pub accepted : Outcome Bool → Bool
accepted (resolved authenticated) = authenticated
accepted (rejected e) = false
accepted (thrown m) = false

module _ (server_codec : JsonCodec ServerConfig) where
  abbrev pub sends : Storage → Text → Init → HttpRequest
  sends s path init = http_request (get_server_config server_codec s) path init

  sends-IsAddressed :
      (s : Storage) (cfg : Option ServerConfig) (path : Text) (init : Init)
      → get_server_config server_codec s ≡ cfg
      → IsAddressed cfg path (sends s path init)
  sends-IsAddressed s cfg path init h = rw (h) (http_request-IsAddressed cfg path init)

  both_given {ℓ} :
      {A : Type ℓ} (a b : Bool) (x y : A)
      → (if not a && not b then x else y) ≡ (if a || b then y else x)
  both_given false false x y = refl
  both_given false true x y = refl
  both_given true b x y = refl

  get-connect :
      (target : Target) (c : Connect) (s : Storage)
      → get_server_config server_codec (connect server_codec target (c, s)).1 ≡ config_of target
  unfolding connect config_of
  get-connect target c s =
      get-set_server_config server_codec _ s
      ∙ both_given (is_empty target.origin) (is_empty target.token) _ none

  get-probed :
      (target : Target) (o : Outcome Bool) (c : Connect) (s : Storage)
      → get_server_config server_codec
          (probed server_codec o (connect server_codec target (c, s))).1
        ≡ (if accepted o then config_of target else none)
  unfolding probed accepted
  get-probed target (resolved true) c s = get-connect target c s
  get-probed target (resolved false) c s = get-set_server_config server_codec none _
  get-probed target (rejected e) c s = get-set_server_config server_codec none _
  get-probed target (thrown m) c s = get-set_server_config server_codec none _

  -- The probe and every later request go where they belong. While the probe runs, a request goes
  -- to the target with its token and without cookies; after the probe it does so exactly if the
  -- server accepted the token, and else it goes to the page's own server with its cookies. A target
  -- without an origin or a token never gets a request: it all goes to the page's own server.
  pub connect-IsAddressed :
      (target : Target) (o : Outcome Bool) (c : Connect) (s : Storage) (path : Text) (init : Init)
      → IsAddressed (config_of target) path (sends (connect server_codec target (c, s)).1 path init)
        × IsAddressed
            (if accepted o then config_of target else none)
            path
            (sends (probed server_codec o (connect server_codec target (c, s))).1 path init)
  connect-IsAddressed target o c s path init = (
    sends-IsAddressed _ (config_of target) path init (get-connect target c s),
    sends-IsAddressed _ _ path init (get-probed target o c s),
  )
