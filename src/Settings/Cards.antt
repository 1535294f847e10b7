-- ===== src/Settings/Cards.antt =====
-- The connection card and the tokens card of frontend/src/pages/Settings.tsx: their controls, the
-- device's switches, disconnecting, and the page that puts the cards together.
use gourl.Common.{
  ℕ, Bool, true, false, not, if◌then◌else◌, Option, none, some, List, [], ◌∷◌, ◌++◌, Text, codes,
  is_empty,
}
use gourl.Api.Types.{ServerConfig, TokenInfo, t}
use gourl.Api.Storage.{Storage, JsonCodec}
use gourl.Api.Server.{set_server_config}
use gourl.Device.Settings.{set_no_select, set_haptics_enabled}
use gourl.Markup.{Node, text, value, button, input, switch, link, when}
use gourl.Settings.Connection.{Card, ConnStatus, checking, shown_status, refresh}
use gourl.Settings.Tokens.{Tokens, docs_url}

pub data CardEvent : Type 0 where
  refresh_clicked ask_disconnect keep_connection disconnect : CardEvent
  no_select_switched haptics_switched : Bool → CardEvent

-- The card with the device's two switches.
pub record DeviceCard : Type 0 where
  pub card : Card
  pub no_select : Bool
  pub haptics : Bool

-- `navigated` is where the page goes; refreshing also starts a probe.
pub record Done : Type 0 where
  pub state : DeviceCard
  pub storage : Storage
  pub probes : Bool
  pub navigated : Option Text

abbrev stay : DeviceCard → Storage → Done
stay c s = record { state = c; storage = s; probes = false; navigated = none }

module _ (server_codec : JsonCodec ServerConfig) where
  unfoldable pub on_card : CardEvent → DeviceCard → Storage → Done
  on_card refresh_clicked c s =
      let (card, probes) = refresh c.card in
      record { state = record c { card = card }; storage = s; probes = probes; navigated = none }
  on_card ask_disconnect c s =
      stay (record c { card = record c.card { confirm_disconnect = true } }) s
  on_card keep_connection c s =
      stay (record c { card = record c.card { confirm_disconnect = false } }) s
  on_card disconnect c s = record {
    state = record c { card = record c.card { confirm_disconnect = false } };
    storage = set_server_config server_codec none s;
    probes = false;
    navigated = some (codes "/admin/connect");
  }
  on_card (no_select_switched v) c s = stay (record c { no_select = v }) (set_no_select v s)
  on_card (haptics_switched v) c s = stay (record c { haptics = v }) (set_haptics_enabled v s)

abbrev pub is_checking : ConnStatus → Bool
is_checking checking = true
is_checking _ = false

abbrev or_dash : Option Text → Text
or_dash none = 0x2014 ∷ []
or_dash (some s) = s

abbrev version_text : Option Text → Text
version_text none = 0x2014 ∷ []
version_text (some v) = b'v' ∷ v

abbrev url_of : Option ServerConfig → Option Text
url_of none = none
url_of (some server) = some server.url

-- `app_version` is the constant of the build.
module _ (app_version : Text) where
  unfoldable pub connection_card : Option ServerConfig → DeviceCard → List (Node CardEvent)
  connection_card server c =
      text (t "settings.appConnection")
      ∷ text (t "settings.connectedTo")
      ∷ value (or_dash (url_of server))
      ∷ text (t "settings.serverVersion")
      ∷ value (version_text c.card.server_version)
      ∷ text (t "settings.appVersion")
      ∷ value (b'v' ∷ app_version)
      ∷ text (shown_status c.card.status).2
      ∷ button (t "settings.connRefresh") (is_checking c.card.status) refresh_clicked
      ∷ button (t "settings.disconnectApp") false ask_disconnect
      ∷ switch (t "settings.noTextSelect") c.no_select no_select_switched
      ∷ switch (t "settings.hapticsFeedback") c.haptics haptics_switched
      ∷ when c.card.confirm_disconnect (
          text (t "settings.disconnectApp")
          ∷ text (t "settings.disconnectConfirm")
          ∷ button (t "form.cancel") false keep_connection
          ∷ button (t "settings.disconnectApp") false disconnect
          ∷ [])

pub data TokenEvent : Type 0 where
  copy_clicked create_clicked keep_token : TokenEvent
  note_typed : Text → TokenEvent
  revoke_clicked : TokenInfo → TokenEvent
  revoke_confirmed : ℕ → TokenEvent

-- The synchronous part of the handlers: creating, copying and revoking go on in Settings/Tokens.
unfoldable pub on_token : TokenEvent → Tokens → Tokens
on_token (note_typed v) c = record c { token_note = v }
on_token (revoke_clicked tok) c = record c { revoking = some tok }
on_token keep_token c = record c { revoking = none }
on_token _ c = c

-- The prefix of a token with an ellipsis.
abbrev preview : TokenInfo → Text
preview tok = tok.token ++ 0x2026 ∷ []

abbrev shown_full : Text → List (Node TokenEvent)
shown_full note = when (not (is_empty note)) (value note ∷ [])

unfoldable pub token_rows : List TokenInfo → List (Node TokenEvent)
token_rows [] = []
token_rows (tok ∷ toks) =
    value (preview tok) ∷ shown_full tok.note
    ++ button (t "settings.revoke") false (revoke_clicked tok) ∷ token_rows toks

abbrev token_list : Option (List TokenInfo) → List (Node TokenEvent)
token_list none = []
token_list (some []) = text (t "common.never") ∷ []
token_list (some (tok ∷ toks)) = token_rows (tok ∷ toks)

abbrev revoke_dialog : Bool → Option TokenInfo → List (Node TokenEvent)
revoke_dialog is_pending none = []
revoke_dialog is_pending (some tok) =
    text (t "settings.revoke")
      ∷ text (t "settings.tokenRevokeConfirm")
      ∷ value (preview tok)
      ∷ shown_full tok.note
    ++ button (t "common.cancel") false keep_token
      ∷ button (t "common.delete") is_pending (revoke_confirmed tok.id)
      ∷ []

-- `list` is the query's data; `is_pending` says that a revocation is under way.
unfoldable pub tokens_card :
    Bool → Option ServerConfig → Option (List TokenInfo) → Bool → Tokens → List (Node TokenEvent)
tokens_card app_mode server list is_pending c =
    text (t "settings.tokens")
      ∷ text (t "settings.tokensHint")
      ∷ text (t "settings.tokenNeverExpires")
      ∷ link (t "settings.apiDocs") (docs_url app_mode server)
          (if app_mode then codes "_system" else codes "_blank")
      ∷ when (not (is_empty c.new_token))
          (value c.new_token ∷ button (t "links.copy") false copy_clicked ∷ [])
    ++ token_list list
    ++ input (t "form.note") c.token_note note_typed none
      ∷ button (t "settings.createToken") false create_clicked
      ∷ revoke_dialog is_pending c.revoking
