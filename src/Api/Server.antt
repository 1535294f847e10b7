-- ===== src/Api/Server.antt =====
-- The stored server connection and the trusted plain-HTTP origins of frontend/src/lib/api.ts.
use gourl.Common.{
  Bool, false, ◌&&◌, ◌||◌, not, if◌then◌else◌, Option, none, some, List, [], ◌∷◌, ◌++◌, Text,
  is_empty, includes, same, ◌≡◌, ◌≢◌, refl, arith, Bool-cases, same_iff, inl, inr,
}
use gourl.Api.Types.{ServerConfig}
use gourl.Api.Storage.{Storage, Key, server, trusted_hosts, set_item, remove_item, JsonCodec}

-- `if (!raw) return null`, where the item may be missing or empty
abbrev pub stored {ℓ} : {A : Type ℓ} → JsonCodec A → Option Text → Option A
stored codec none = none
stored codec (some raw) = if is_empty raw then none else codec.parse raw

pub stored_stringify {ℓ} :
    {A : Type ℓ} (codec : JsonCodec A) (a : A) → stored codec (some (codec.stringify a)) ≡ some a
stored_stringify codec a = rw (codec.stringify_full a) (codec.parse-stringify a)

module _ (codec : JsonCodec ServerConfig) where
  unfoldable pub get_server_config : Storage → Option ServerConfig
  get_server_config s = elim (stored codec (s server)) [
    | none ↦ none
    | some cfg ↦ if not (is_empty cfg.url) && not (is_empty cfg.token) then some cfg else none
  ]

  unfoldable pub set_server_config : Option ServerConfig → Storage → Storage
  set_server_config none s = remove_item server s
  set_server_config (some cfg) s = set_item server (codec.stringify cfg) s

  -- What is stored is read back, if its two fields are not empty, and reads as none if one is; a
  -- cleared connection reads as none.
  pub get-set_server_config :
      (cfg : Option ServerConfig) (s : Storage)
      → get_server_config (set_server_config cfg s) ≡ (elim cfg [
        | none ↦ none
        | some c ↦ if not (is_empty c.url) && not (is_empty c.token) then some c else none
      ])
  unfolding get_server_config set_server_config
  get-set_server_config none s = refl
  get-set_server_config (some c) s = rw (stored_stringify codec c, get_server_config) refl

  -- No other key of the storage changes.
  pub set_server_config_keeps :
      (cfg : Option ServerConfig) (s : Storage) (k : Key)
      → k ≢ server
      → set_server_config cfg s k ≡ s k
  unfolding set_server_config
  set_server_config_keeps none s server h = absurd (h refl)
  set_server_config_keeps (some c) s server h = absurd (h refl)
  set_server_config_keeps none s _ h = refl
  set_server_config_keeps (some c) s _ h = refl

module _ (codec : JsonCodec (List Text)) where
  unfoldable pub is_trusted_insecure_host : Text → Storage → Bool
  is_trusted_insecure_host origin s = elim (stored codec (s trusted_hosts)) [
    | none ↦ false
    | some hosts ↦ includes hosts origin
  ]

  abbrev pub add_host : Text → List Text → Storage → Storage
  add_host origin hosts s =
      if includes hosts origin
      then s
      else set_item trusted_hosts (codec.stringify (hosts ++ origin ∷ [])) s

  -- `raw ? JSON.parse(raw) : []`; `none` where the parse fails
  abbrev pub host_list : Option Text → Option (List Text)
  host_list none = some []
  host_list (some raw) = if is_empty raw then some [] else codec.parse raw

  -- A stored text that does not parse makes the function fall into its empty `catch`.
  unfoldable pub trust_insecure_host : Text → Storage → Storage
  trust_insecure_host origin s = elim (host_list (s trusted_hosts)) [
    | none ↦ s
    | some hosts ↦ add_host origin hosts s
  ]

includes-append :
    (hosts : List Text) (a b : Text) → includes (hosts ++ a ∷ []) b ≡ (includes hosts b || same a b)
unfolding includes
includes-append [] a b = ground arith
includes-append (h ∷ hosts) a b = ground (arith, includes-append hosts a b)

module _ (codec : JsonCodec (List Text)) (a b : Text) (s : Storage) where
  add_host_trusts :
      (hosts : List Text)
      → is_trusted_insecure_host codec b s ≡ includes hosts b
      → is_trusted_insecure_host codec b (add_host codec a hosts s) ≡ (includes hosts b || same a b)
  unfolding is_trusted_insecure_host
  add_host_trusts hosts reads = elim (Bool-cases (includes hosts a)) [
    | inl old ↦ rw old (ground (arith, reads, same_iff a b))
    | inr new ↦
        rw (new, stored_stringify codec (hosts ++ a ∷ []), is_trusted_insecure_host)
          (includes-append hosts a b)
  ]

  stored_hosts :
      (item : Option Text) (hosts : List Text)
      → host_list codec item ≡ some hosts
      → (elim (stored codec item) [ none ↦ false | some listed ↦ includes listed b ])
        ≡ includes hosts b
  unfolding includes
  stored_hosts none hosts e = ground arith
  stored_hosts (some raw) hosts e = ground arith

  -- After the user trusts one origin exactly this one and those before it are trusted, unless the
  -- stored list does not parse.
  pub is_trusted-trust :
      (hosts : List Text)
      → host_list codec (s trusted_hosts) ≡ some hosts
      → is_trusted_insecure_host codec b (trust_insecure_host codec a s)
        ≡ (is_trusted_insecure_host codec b s || same a b)
  unfolding trust_insecure_host
  is_trusted-trust hosts e =
      let reads : is_trusted_insecure_host codec b s ≡ includes hosts b =
        unfold is_trusted_insecure_host in stored_hosts (s trusted_hosts) hosts e in
      rw (e, trust_insecure_host, reads) (add_host_trusts hosts reads)
