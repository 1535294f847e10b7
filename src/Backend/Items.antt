-- ===== src/Backend/Items.antt =====
-- The items of `batchCreate` of internal/api/batch.go: how one is decoded, and its check with the
-- code that it gets. Random bytes and the libraries of Go are parameters.
use Prim.Native.String.{String}
use gourl.Common.{
  ℕ, Bool, true, false, ◌&&◌, not, ltb, if◌then◌else◌, Option, none, some, List, [], ◌∷◌, Text,
  codes, same, is_empty, or_else, ◌⊎◌, inl, inr,
}
use gourl.Platform.{ℤ, pos, negsuc}
use gourl.Api.Types.{AppConfig, ImportItem, unix, date_text}
use gourl.Backend.Targets.{GoLibrary, Origin, is_absolute_url, self_link_target, self_root_target}
use gourl.Backend.Codes.{Fault, validate, random, is_reserved, slash}

pub record CreateRequest : Type 0 where
  pub url : Text
  pub code : Text
  pub title : Text
  pub description : Text
  pub expires_at : Option ℤ
  pub created_at : Option ℤ
  pub deleted : Bool

abbrev pub max_description_len : ℕ
max_description_len = 500

abbrev read_item : ImportItem → Option ℤ → CreateRequest
read_item i expires = record {
  url = i.url;
  code = or_else i.code [];
  title = or_else i.title [];
  description = or_else i.description [];
  expires_at = expires;
  created_at = i.created_at;
  deleted = or_else i.deleted false;
}

-- `lenientItem` of an item as the console prints it; `as_expiry` reads the text of an expiry.
unfoldable pub lenient_item : (Text → Option ℤ) → ImportItem → Option CreateRequest
lenient_item as_expiry i = if is_empty i.url then none else elim i.expires_at [
  | none ↦ some (read_item i none)
  | some (unix n) ↦ some (read_item i (some n))
  | some (date_text s) ↦ elim (as_expiry s) [ none ↦ none | some n ↦ some (read_item i (some n)) ]
]

-- One item that is refused refuses the request.
unfoldable pub lenient_items : (Text → Option ℤ) → List ImportItem → Option (List CreateRequest)
lenient_items as_expiry [] = some []
lenient_items as_expiry (i ∷ is) = elim (lenient_item as_expiry i) [
  | none ↦ none
  | some item ↦ elim (lenient_items as_expiry is) [ none ↦ none | some items ↦ some (item ∷ items) ]
]

pub record CodeError : Type 0 where
  pub code : Text
  pub message : Text

-- What a check depends on beside the item: the libraries, the configuration and the request.
pub record Site : Type 0 where
  pub go : GoLibrary
  pub config : AppConfig
  pub origin : Origin

abbrev pub is_negative : Option ℤ → Bool
is_negative none = false
is_negative (some (pos n)) = false
is_negative (some (negsuc n)) = true

abbrev fail : String → String → Text ⊎ CodeError
fail code message = inr (record { code = codes code; message = codes message })

-- `resolveCode`; `buffer` holds the random bytes, if the system has any. The text of a fault of
-- `Validate` is a parameter.
unfoldable pub resolve_code :
    (Fault → Text) → Site → Option (List ℕ) → CreateRequest → Text ⊎ CodeError
resolve_code fault_text site buffer item =
    if not (is_absolute_url site.go item.url)
    then fail "invalid_request" "url must be an absolute URL with a scheme"
    else if self_link_target site.go site.config site.origin item.url
    then fail "self_link_target" "target URL points at this instance's own short links"
    else if ltb max_description_len (site.go.rune_count item.description)
    then fail "description_too_long" "description must be at most 500 characters"
    else if is_negative item.expires_at
    then fail "invalid_request" "expires_at must be >= 0"
    else if is_empty item.code
    then elim buffer [
      | none ↦ fail "internal_error" "failed to generate code"
      | some bytes ↦ inl (random bytes)
    ]
    else elim (validate item.code) [
      | some fault ↦ inr (record { code = codes "invalid_code"; message = fault_text fault })
      | none ↦
          if is_reserved site.go.equal_fold site.go.to_lower item.code site.config.reserved_codes
          then fail "reserved_code" "code is a reserved system path"
          else inl item.code
    ]

-- The code of an item, with the test for a root code that leads to the root.
abbrev pub checked_code : (Fault → Text) → Site → Option (List ℕ) → CreateRequest → Text ⊎ CodeError
checked_code fault_text site buffer item = elim (resolve_code fault_text site buffer item) [
  | inr e ↦ inr e
  | inl code ↦
      if same code (slash ∷ []) && self_root_target site.go site.config site.origin item.url
      then fail "self_root_target" "the root short code cannot point at this instance's own root"
      else inl code
]
