-- ===== src/LocalStorage/Refinement.antt =====
-- The store of texts implements the memory: over any run each reader finds what was written last.
use gourl.Common.{
  Bool, true, false, ◌||◌, Option, none, some, List, [], ◌∷◌, ◌++◌, Text, same, includes, ◌≡◌, refl,
  ◌∙◌, ap, Bool-cases, inl, inr,
}
use gourl.Api.Types.{ServerConfig}
use gourl.Api.Storage.{
  Storage, Key, server, trusted_hosts, no_select, haptics, theme, lang, JsonCodec, same_key,
}
use gourl.Api.Server.{
  get_server_config, set_server_config, is_trusted_insecure_host, trust_insecure_host, host_list,
  get-set_server_config, is_trusted-trust, add_host,
}
use gourl.Device.Settings.{
  no_select_enabled, set_no_select, haptics_enabled, set_haptics_enabled, set_language,
}
use gourl.Layout.Theme.{Theme, light, dark, system, saved_theme, next_theme, cycle}
use gourl.LocalStorage.{
  Op, connected, trusted, selecting, feeling, speaking, theme_clicked, on_op, run, Memory, blank,
  remember, replay,
}

saved_theme-cycle_mode :
    (current : Theme) (s : Storage)
    → saved_theme ((cycle (current, s)).1 theme) ≡ next_theme current
unfolding saved_theme cycle next_theme same
saved_theme-cycle_mode light s = refl
saved_theme-cycle_mode dark s = refl
saved_theme-cycle_mode system s = refl

module _ (server_codec : JsonCodec ServerConfig) (hosts_codec : JsonCodec (List Text)) where
  -- Every reader of the store gives what the memory holds, and the list of origins is readable.
  pub record Implements (s : Storage) (m : Memory) : Type 0 where
    pub connection : get_server_config server_codec s ≡ m.connection
    pub origins : (o : Text) → is_trusted_insecure_host hosts_codec o s ≡ m.is_trusted o
    pub readable : (hosts : List Text) × (host_list hosts_codec (s trusted_hosts) ≡ some hosts)
    pub unselectable : no_select_enabled s ≡ m.is_unselectable
    pub felt : haptics_enabled s ≡ m.is_felt
    pub language : s lang ≡ m.language
    pub mode : saved_theme (s theme) ≡ m.mode

  module _ (s : Storage) (m : Memory) (h : Implements s m) where
    connected-Implements :
        (cfg : Option ServerConfig)
        → Implements (set_server_config server_codec cfg s) (remember (connected cfg) m)
    unfolding set_server_config is_trusted_insecure_host no_select_enabled haptics_enabled remember
    connected-Implements none = record {
      connection = get-set_server_config server_codec none s;
      origins = h.origins;
      readable = h.readable;
      unselectable = h.unselectable;
      felt = h.felt;
      language = h.language;
      mode = h.mode;
    }
    connected-Implements (some cfg) = record {
      connection = get-set_server_config server_codec (some cfg) s;
      origins = h.origins;
      readable = h.readable;
      unselectable = h.unselectable;
      felt = h.felt;
      language = h.language;
      mode = h.mode;
    }

    selecting-Implements :
        (off : Bool) → Implements (set_no_select off s) (remember (selecting off) m)
    unfolding get_server_config is_trusted_insecure_host no_select_enabled set_no_select
        haptics_enabled remember same
    selecting-Implements true = record {
      connection = h.connection;
      origins = h.origins;
      readable = h.readable;
      unselectable = refl;
      felt = h.felt;
      language = h.language;
      mode = h.mode;
    }
    selecting-Implements false = record {
      connection = h.connection;
      origins = h.origins;
      readable = h.readable;
      unselectable = refl;
      felt = h.felt;
      language = h.language;
      mode = h.mode;
    }

    feeling-Implements :
        (on : Bool) → Implements (set_haptics_enabled on s) (remember (feeling on) m)
    unfolding get_server_config is_trusted_insecure_host no_select_enabled set_haptics_enabled
        haptics_enabled remember same
    feeling-Implements true = record {
      connection = h.connection;
      origins = h.origins;
      readable = h.readable;
      unselectable = h.unselectable;
      felt = refl;
      language = h.language;
      mode = h.mode;
    }
    feeling-Implements false = record {
      connection = h.connection;
      origins = h.origins;
      readable = h.readable;
      unselectable = h.unselectable;
      felt = refl;
      language = h.language;
      mode = h.mode;
    }

    speaking-Implements :
        (text : Text) → Implements (set_language text s) (remember (speaking text) m)
    unfolding get_server_config is_trusted_insecure_host no_select_enabled set_language
        haptics_enabled remember
    speaking-Implements text = record {
      connection = h.connection;
      origins = h.origins;
      readable = h.readable;
      unselectable = h.unselectable;
      felt = h.felt;
      language = refl;
      mode = h.mode;
    }

    theme-Implements : Implements (cycle (saved_theme (s theme), s)).1 (remember theme_clicked m)
    unfolding get_server_config is_trusted_insecure_host no_select_enabled cycle haptics_enabled
        remember
    theme-Implements = record {
      connection = h.connection;
      origins = h.origins;
      readable = h.readable;
      unselectable = h.unselectable;
      felt = h.felt;
      language = h.language;
      mode = saved_theme-cycle_mode (saved_theme (s theme)) s ∙ ap next_theme h.mode;
    }

    -- Trusting an origin writes the list of origins alone, and the list stays readable.
    kept_origins :
        (origin : Text) (hosts : List Text)
        → host_list hosts_codec (s trusted_hosts) ≡ some hosts
        → (is : List Text) × (host_list hosts_codec
              (add_host hosts_codec origin hosts s trusted_hosts)
            ≡ some is)
    kept_origins origin hosts e = elim (Bool-cases (includes hosts origin)) [
      | inl old ↦ (hosts, rw (old) e)
      | inr new ↦ (
        hosts ++ origin ∷ [],
        rw (new, hosts_codec.stringify_full (hosts ++ origin ∷ []))
            (hosts_codec.parse-stringify (hosts ++ origin ∷ [])),
      )
    ]

    trust_adds :
        (origin : Text) (hosts : List Text)
        → host_list hosts_codec (s trusted_hosts) ≡ some hosts
        → trust_insecure_host hosts_codec origin s ≡ add_host hosts_codec origin hosts s
    unfolding trust_insecure_host
    trust_adds origin hosts e = rw (e, trust_insecure_host) refl

    trust_keeps :
        (origin : Text) (k : Key)
        → same_key trusted_hosts k ≡ false
        → trust_insecure_host hosts_codec origin s k ≡ s k
    unfolding trust_insecure_host
    trust_keeps origin k other =
        let (hosts, e) = h.readable in
        elim (Bool-cases (includes hosts origin)) [
          | inl old ↦ rw (e, trust_insecure_host) (rw old refl)
          | inr new ↦ rw (e, trust_insecure_host) (rw (new, other) refl)
        ]

    trusted-Implements :
        (origin : Text)
        → Implements (trust_insecure_host hosts_codec origin s) (remember (trusted origin) m)
    unfolding get_server_config no_select_enabled haptics_enabled remember
    trusted-Implements origin =
        let (hosts, e) = h.readable in
        record {
          connection = rw (trust_keeps origin server refl, get_server_config) h.connection;
          origins = λ o.
              is_trusted-trust hosts_codec origin o s hosts e
              ∙ ap (λ b. b || same origin o) (h.origins o);
          readable =
              let (now, reads) = kept_origins origin hosts e in
              (
                now,
                ap (λ t. host_list hosts_codec (t trusted_hosts)) (trust_adds origin hosts e)
                    ∙ reads,
              );
          unselectable = rw (trust_keeps origin no_select refl, no_select_enabled) h.unselectable;
          felt = rw (trust_keeps origin haptics refl, haptics_enabled) h.felt;
          language = trust_keeps origin lang refl ∙ h.language;
          mode = rw (trust_keeps origin theme refl) h.mode;
        }

    on_op-Implements : (op : Op) → Implements (on_op server_codec hosts_codec op s) (remember op m)
    unfolding on_op
    on_op-Implements (connected cfg) = connected-Implements cfg
    on_op-Implements (trusted origin) = trusted-Implements origin
    on_op-Implements (selecting off) = selecting-Implements off
    on_op-Implements (feeling on) = feeling-Implements on
    on_op-Implements (speaking text) = speaking-Implements text
    on_op-Implements theme_clicked = theme-Implements

  -- Over any run of the writers, from a store that implements a memory, the store implements the
  -- memory that the same calls give: each reader finds what its own writer left, and no writer
  -- disturbs another's value.
  pub run-Implements :
      (ops : List Op) (s : Storage) (m : Memory)
      → Implements s m
      → Implements (run server_codec hosts_codec ops s) (replay ops m)
  unfolding run replay
  run-Implements [] s m h = h
  run-Implements (op ∷ ops) s m h =
      run-Implements ops (on_op server_codec hosts_codec op s) (remember op m)
        (on_op-Implements s m h op)

  -- An empty store implements the blank memory.
  pub empty-Implements : Implements (λ k. none) blank
  unfolding get_server_config is_trusted_insecure_host no_select_enabled haptics_enabled saved_theme
  empty-Implements = record {
    connection = refl;
    origins = λ o. refl;
    readable = ([], refl);
    unselectable = refl;
    felt = refl;
    language = refl;
    mode = refl;
  }
