-- ===== src/Api/Storage.antt =====
-- The browser's `localStorage` under the keys that the frontend uses, and JSON text, which the
-- browser reads and writes.
use gourl.Common.{ℕ, Bool, false, ◌==◌, if◌then◌else◌, Option, none, some, Text, ◌≡◌, is_empty}

pub data Key : Type 0 where
  server trusted_hosts no_select haptics theme lang : Key

abbrev pub key_index : Key → ℕ
key_index server = 0
key_index trusted_hosts = 1
key_index no_select = 2
key_index haptics = 3
key_index theme = 4
key_index lang = 5

abbrev pub same_key : Key → Key → Bool
same_key j k = key_index j == key_index k

abbrev pub Storage : Type 0
Storage = Key → Option Text

abbrev pub set_item : Key → Text → Storage → Storage
set_item k v s j = if same_key k j then some v else s j

abbrev pub remove_item : Key → Storage → Storage
remove_item k s j = if same_key k j then none else s j

-- `JSON.stringify` and `JSON.parse` at one type. `parse` is `none` where the text is no JSON or
-- holds no value of the type.
pub record JsonCodec {ℓ} (A : Type ℓ) : Type ℓ where
  pub stringify : A → Text
  pub parse : Text → Option A
  pub parse-stringify : (a : A) → parse (stringify a) ≡ some a
  pub stringify_full : (a : A) → is_empty (stringify a) ≡ false
