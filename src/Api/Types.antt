-- ===== src/Api/Types.antt =====
-- The interfaces of frontend/src/lib/api.ts that the modelled code uses. Numbers that may be
-- negative are integers; an optional field is an `Option`.
use Prim.Native.String.{String}
use gourl.Common.{ℕ, Bool, Option, List, Text}
use gourl.Platform.{ℤ}

-- The stored connection of the mobile app.
pub record ServerConfig : Type 0 where
  pub url : Text
  pub token : Text

-- `params` is kept as the backend sent it, in the form of its printed entries.
pub record ApiError : Type 0 where
  pub status : ℕ
  pub code : Text
  pub message : Text
  pub params : List (Text × Text)

pub record Link : Type 0 where
  pub id : ℕ
  pub code : Text
  pub url : Text
  pub title : Text
  pub description : Text
  pub expires_at : ℤ
  pub click_count : ℕ
  pub created_at : ℤ
  pub updated_at : ℤ

pub record LinkListResponse : Type 0 where
  pub links : List Link
  pub total : ℕ
  pub page : ℕ
  pub page_size : ℕ

pub record TokenInfo : Type 0 where
  pub id : ℕ
  pub token : Text
  pub note : Text
  pub created_at : ℤ

pub record SiteInfo : Type 0 where
  pub name : Text
  pub title : Text
  pub description : Text

pub record AppConfig : Type 0 where
  pub site : SiteInfo
  pub short_code_length : ℤ
  pub base_url : Text
  pub extra_base_urls : List Text
  pub reserved_codes : List Text
  pub ua_blocks : List Text
  pub ip_blocks : List Text
  pub login_rate_max_attempts : ℤ
  pub login_rate_lock_seconds : ℤ
  pub session_ttl_minutes : ℤ
  pub link_rate_per_second : ℤ
  pub log_level : Text
  pub hard_delete : Bool
  pub backup_on_edit : Bool
  pub icon : Text

pub data BatchStatus : Type 0 where
  created updated skipped error : BatchStatus

pub record BatchCreateResult : Type 0 where
  pub index : ℕ
  pub url : Text
  pub status : BatchStatus
  pub code : Option Text
  pub error_code : Option Text
  pub error_message : Option Text

pub record BatchCreateResponse : Type 0 where
  pub created : ℕ
  pub failed : ℕ
  pub succeeded : ℕ
  pub skipped : ℕ
  pub updated : ℕ
  pub failed_codes : List Text
  pub skipped_codes : List Text
  pub updated_codes : List Text
  pub results : List BatchCreateResult

-- `number | string`
pub data Expiry : Type 0 where
  unix : ℤ → Expiry
  date_text : Text → Expiry

pub record ImportItem : Type 0 where
  pub url : Text
  pub code : Option Text
  pub title : Option Text
  pub description : Option Text
  pub expires_at : Option Expiry
  pub created_at : Option ℤ
  pub deleted : Option Bool

-- What an awaited call ends in: a value, an `ApiError`, or another exception with its message.
pub data Outcome {ℓ} (A : Type ℓ) : Type ℓ where
  resolved : A → Outcome A
  rejected : ApiError → Outcome A
  thrown : Text → Outcome A

-- The text of a toast: a translated key, with its numbers or a text put in, or a plain text.
pub data Message : Type 0 where
  t : String → Message
  t_numbers : String → List ℕ → Message
  t_text : String → Text → Message
  plain : Text → Message

pub data Kind : Type 0 where
  success failure : Kind

-- `err instanceof ApiError ? err.message : t(key)`
abbrev pub api_message {ℓ} : {A : Type ℓ} → String → Outcome A → Message
api_message key (resolved a) = t key
api_message key (rejected e) = plain e.message
api_message key (thrown m) = t key
