-- ===== src/LocalStorage.antt =====
-- What the frontend keeps in the browser's `localStorage`, taken together: the connection and the
-- trusted origins of lib/api.ts, the switches of lib/appSettings.ts, the language of lib/i18n.ts
-- and the theme of components/Layout.tsx. All of them write into one store of texts.
pub mod Refinement
use gourl.Common.{
  ℕ, Bool, true, false, ◌&&◌, ◌||◌, not, if◌then◌else◌, Option, none, some, List, [], ◌∷◌, ◌++◌,
  Text, codes, is_empty, same, includes, ◌≡◌, refl, ◌∙◌, sym, ap, arith, Bool-cases, inl, inr,
}
use gourl.Api.Types.{ServerConfig}
use gourl.Api.Storage.{
  Storage, Key, server, trusted_hosts, no_select, haptics, theme, lang, JsonCodec, set_item,
  remove_item,
}
use gourl.Api.Server.{
  get_server_config, set_server_config, is_trusted_insecure_host, trust_insecure_host, host_list,
  get-set_server_config, is_trusted-trust, stored, add_host,
}
use gourl.Device.Settings.{
  no_select_enabled, set_no_select, haptics_enabled, set_haptics_enabled, set_language,
}
use gourl.Layout.Theme.{Theme, system, saved_theme, next_theme, cycle}

-- The calls that write to the store.
pub data Op : Type 0 where
  connected : Option ServerConfig → Op
  trusted : Text → Op
  selecting feeling : Bool → Op
  speaking : Text → Op
  theme_clicked : Op

module _ (server_codec : JsonCodec ServerConfig) (hosts_codec : JsonCodec (List Text)) where
  unfoldable pub on_op : Op → Storage → Storage
  on_op (connected cfg) s = set_server_config server_codec cfg s
  on_op (trusted origin) s = trust_insecure_host hosts_codec origin s
  on_op (selecting off) s = set_no_select off s
  on_op (feeling on) s = set_haptics_enabled on s
  on_op (speaking language) s = set_language language s
  on_op theme_clicked s = (cycle (saved_theme (s theme), s)).1

  unfoldable pub run : List Op → Storage → Storage
  run [] s = s
  run (op ∷ ops) s = run ops (on_op op s)

-- What the program means to remember, as values of its own types.
pub record Memory : Type 0 where
  pub connection : Option ServerConfig
  pub is_trusted : Text → Bool
  pub is_unselectable : Bool
  pub is_felt : Bool
  pub language : Option Text
  pub mode : Theme

abbrev pub blank : Memory
blank = record {
  connection = none;
  is_trusted = λ origin. false;
  is_unselectable = false;
  is_felt = true;
  language = none;
  mode = system;
}

-- A connection counts if both its texts are there.
abbrev pub full_config : Option ServerConfig → Option ServerConfig
full_config none = none
full_config (some cfg) =
    if not (is_empty cfg.url) && not (is_empty cfg.token) then some cfg else none

pub remember : Op → Memory → Memory
remember (connected cfg) m = record m { connection = full_config cfg }
remember (trusted origin) m = record m { is_trusted = λ o. m.is_trusted o || same origin o }
remember (selecting off) m = record m { is_unselectable = off }
remember (feeling on) m = record m { is_felt = on }
remember (speaking text) m = record m { language = some text }
remember theme_clicked m = record m { mode = next_theme m.mode }

pub replay : List Op → Memory → Memory
replay [] m = m
replay (op ∷ ops) m = replay ops (remember op m)
