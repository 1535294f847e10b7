-- ===== src/Auth/Connect.antt =====
-- frontend/src/pages/Connect.tsx: connecting the mobile app to a server.
use gourl.Common.{
  Bool, true, false, ◌&&◌, ◌||◌, not, if◌then◌else◌, Option, none, some, List, [], ◌∷◌, ◌++◌, Text,
  codes, trim, is_empty, same, ◌≡◌, ◌⊎◌, inl, inr, refl, arith, Bool-cases, Option-cases, ◌∙◌,
  same_refl,
}
use gourl.Platform.{Url}
use gourl.Api.Types.{
  ServerConfig, Outcome, resolved, rejected, thrown, Message, t, Kind, failure, api_message,
}
use gourl.Api.Storage.{Storage, JsonCodec, trusted_hosts}
use gourl.Api.Server.{
  get_server_config, set_server_config, is_trusted_insecure_host, trust_insecure_host,
  get-set_server_config, is_trusted-trust, host_list,
}

pub record Target : Type 0 where
  pub origin : Text
  pub token : Text

pub record Connect : Type 0 where
  pub url : Text
  pub token : Text
  pub busy : Bool
  pub pending : Option Target

pub data Effect : Type 0 where
  toast : Message → Kind → Effect
  navigate open_window : Text → Effect

module _ (server_codec : JsonCodec ServerConfig) where
  -- `connect`, up to the probe: the connection is stored so that the probe is sent to it.
  unfoldable pub connect : Target → Connect × Storage → Connect × Storage
  connect target (c, s) = (
    record c { busy = true },
    set_server_config server_codec (some (record { url = target.origin; token = target.token })) s,
  )

  -- `connect`, when the probe has ended with the server's `authenticated`.
  unfoldable pub probed : Outcome Bool → Connect × Storage → Connect × Storage × List Effect
  probed (resolved true) (c, s) = (record c { busy = false }, s, navigate (codes "/admin") ∷ [])
  probed (resolved false) (c, s) = (
    record c { busy = false },
    set_server_config server_codec none s,
    toast (t "errors.tokenInvalid") failure ∷ [],
  )
  probed other (c, s) = (
    record c { busy = false },
    set_server_config server_codec none s,
    toast (api_message "connect.failed" other) failure ∷ [],
  )

  -- When the probe has ended the stored connection is the target's, if the server accepted the
  -- token and the two texts are not empty, and none if it did not or the probe failed.
  pub probed-connect :
      (target : Target) (o : Outcome Bool) (c : Connect) (s : Storage)
      → is_empty target.origin ≡ false
      → is_empty target.token ≡ false
      → get_server_config server_codec (probed o (connect target (c, s))).1 ≡ (elim o [
        | resolved authenticated ↦
            if authenticated
            then some (record { url = target.origin; token = target.token })
            else none
        | rejected e ↦ none
        | thrown m ↦ none
      ])
  unfolding probed connect
  probed-connect target (resolved true) c s h k =
      get-set_server_config server_codec
        (some (record { url = target.origin; token = target.token })) s
      ∙ rw (h, k) refl
  probed-connect target (resolved false) c s h k = get-set_server_config server_codec none _
  probed-connect target (rejected e) c s h k = get-set_server_config server_codec none _
  probed-connect target (thrown m) c s h k = get-set_server_config server_codec none _

abbrev pub web_url : Url → Option Url
web_url u =
    if same u.protocol (codes "http:") || same u.protocol (codes "https:") then some u else none

module _ (hosts_codec : JsonCodec (List Text)) (parse_url : Text → Option Url) where
  -- `new URL(url.trim())` with the test of its protocol; `none` is the thrown error.
  unfoldable pub parsed : Text → Option Url
  parsed url = elim (parse_url (trim url)) [ none ↦ none | some u ↦ web_url u ]

  abbrev pub insecure : Storage → Url → Bool
  insecure s u =
      same u.protocol (codes "http:") && not (is_trusted_insecure_host hosts_codec u.origin s)

  secure_cases :
      (s : Storage) (u : Url)
      → insecure s u ≡ false
      → (same u.protocol (codes "http:") ≡ false)
        ⊎ (is_trusted_insecure_host hosts_codec u.origin s ≡ true)
  secure_cases s u m = elim (Bool-cases (same u.protocol (codes "http:"))) [
    | inl e ↦ inr (ground (arith, e, m))
    | inr e ↦ inl e
  ]

  -- `submit`, up to the call of `connect` with a target.
  unfoldable pub submit : Connect → Storage → Connect × List Effect × Option Target
  submit c s =
      if is_empty c.url || is_empty c.token || c.busy then (c, [], none) else elim (parsed c.url) [
        | none ↦ (c, toast (t "connect.invalidUrl") failure ∷ [], none)
        | some u ↦
            if insecure s u
            then (
              record c { pending = some (record { origin = u.origin; token = trim c.token }) },
              [],
              none,
            )
            else (c, [], some (record { origin = u.origin; token = trim c.token }))
      ]

  -- `confirmInsecure`, up to the call of `connect`.
  unfoldable pub confirm_insecure : Connect → Storage → Connect × Storage × Option Target
  confirm_insecure c s = elim c.pending [
    | none ↦ (c, s, none)
    | some target ↦
        (record c { pending = none }, trust_insecure_host hosts_codec target.origin s, some target)
  ]

  unfoldable pub open_server : Connect → List Effect
  open_server c = elim (parsed c.url) [
    | none ↦ toast (t "connect.invalidUrl") failure ∷ []
    | some u ↦ open_window (u.origin ++ codes "/admin/settings") ∷ []
  ]

  abbrev pub target_of : Connect → Url → Target
  target_of c u = record { origin = u.origin; token = trim c.token }

  -- Submitting connects to a server over plain HTTP only if its origin has been trusted before,
  -- and it connects to the origin of the entered address with the trimmed token.
  pub submit_secure :
      (c : Connect) (s : Storage) (target : Target)
      → (submit c s).2 ≡ some target
      → (u : Url) × (parsed c.url ≡ some u)
        × (target ≡ target_of c u)
        × ((same u.protocol (codes "http:") ≡ false)
            ⊎ (is_trusted_insecure_host hosts_codec u.origin s ≡ true))
  unfolding submit
  submit_secure c s target h = elim (Bool-cases (is_empty c.url || is_empty c.token || c.busy)) [
    | inl e ↦ let gone : (submit c s).2 ≡ none = rw (e, submit) refl in absurd (cc (gone, h))
    | inr e ↦ elim (Option-cases (parsed c.url)) [
      | inl k ↦ let gone : (submit c s).2 ≡ none = rw (e, k, submit) refl in absurd (cc (gone, h))
      | inr (u, k) ↦ elim (Bool-cases (insecure s u)) [
        | inl m ↦
            let gone : (submit c s).2 ≡ none = rw (e, k, m, submit) refl in absurd (cc (gone, h))
        | inr m ↦
            let sent : (submit c s).2 ≡ some (target_of c u) = rw (e, k, m, submit) refl in
            (u, k, cc (sent, h), secure_cases s u m)
      ]
    ]
  ]

  -- Once the user has confirmed a plain-HTTP origin, submitting the same form connects to it,
  -- unless the stored list of origins does not parse.
  pub submit-confirm_insecure :
      (c : Connect) (s : Storage) (u : Url) (hosts : List Text)
      → is_empty c.url || is_empty c.token || c.busy ≡ false
      → parsed c.url ≡ some u
      → host_list hosts_codec (s trusted_hosts) ≡ some hosts
      → (submit c (confirm_insecure (record c { pending = some (target_of c u) }) s).1).2
        ≡ some (target_of c u)
  unfolding submit confirm_insecure
  submit-confirm_insecure c s u hosts e k listed =
      let calm : insecure (trust_insecure_host hosts_codec u.origin s) u ≡ false = ground (
        arith,
        is_trusted-trust hosts_codec u.origin u.origin s hosts listed,
        same_refl u.origin,
      ) in
      rw (e, k, calm, submit) refl
