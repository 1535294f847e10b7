-- ===== src/Backend/Update.antt =====
-- `updateLink` of internal/api/links.go. What the database answers is a parameter; the log and the
-- fetching of titles in the background are left out.
pub mod Day
pub mod Edit
use Prim.Native.String.{String}
use gourl.Common.{
  ℕ, Bool, true, false, ◌&&◌, ◌||◌, not, ltb, if◌then◌else◌, Option, none, some, is_some, List, [],
  ◌∷◌, Text, codes, same, or_else, ◌⊎◌, inl, inr,
}
use gourl.Platform.{ℤ}
use gourl.Api.Types.{Link, AppConfig}
use gourl.Backend.Codes.{Fault, slash, validate, is_reserved}
use gourl.Backend.Targets.{is_absolute_url, self_link_target, self_root_target}
use gourl.Backend.Items.{Site, is_negative, max_description_len}

pub record UpdateRequest : Type 0 where
  pub code : Option Text
  pub url : Option Text
  pub title : Option Text
  pub description : Option Text
  pub expires_at : Option ℤ

-- The arguments of `writeError`.
pub record Refusal : Type 0 where
  pub status : ℕ
  pub code : Text
  pub message : Text

pub data Found : Type 0 where
  found : Link → Found
  not_found lookup_failed : Found

pub data Renamed : Type 0 where
  renamed taken rename_failed : Renamed

pub data Updated : Type 0 where
  updated gone update_failed : Updated

-- What the store answers to each call.
pub record LinkStore : Type 0 where
  pub now : ℤ
  pub get_link : Text → Found
  pub backup_link : Link → Bool
  pub rename_link : Text → Text → Renamed
  pub update_link : Link → Updated

abbrev refuse : {A : Type 0} → ℕ → String → String → A ⊎ Refusal
refuse status code message =
    inr (record { status = status; code = codes code; message = codes message })

abbrev pub internal : {A : Type 0} → String → A ⊎ Refusal
internal message = refuse 500 "internal_error" message

abbrev pub bad_request : {A : Type 0} → String → String → A ⊎ Refusal
bad_request code message = refuse 400 code message

-- `req.Code != nil && *req.Code != oldCode`
abbrev pub new_code : UpdateRequest → Text → Option Text
new_code req old = elim req.code [ none ↦ none | some c ↦ if same c old then none else some c ]

abbrev pub is_mutating : UpdateRequest → Text → Bool
is_mutating req old =
    is_some req.url
    || is_some req.title
    || is_some req.description
    || is_some req.expires_at
    || is_some (new_code req old)

module _ (site : Site) where
  unfoldable pub set_url : Option Text → Link → Link ⊎ Refusal
  set_url none l = inl l
  set_url (some url) l =
      if not (is_absolute_url site.go url)
      then bad_request "invalid_request" "url must be an absolute URL with a scheme"
      else if self_link_target site.go site.config site.origin url
      then bad_request "self_link_target" "target URL points at this instance's own short links"
      else inl (record l { url = url })

  unfoldable pub set_description : Option Text → Link → Link ⊎ Refusal
  set_description none l = inl l
  set_description (some description) l =
      if ltb max_description_len (site.go.rune_count description)
      then bad_request "description_too_long" "description must be at most 500 characters"
      else inl (record l { description = description })

  unfoldable pub set_expiry : Option ℤ → Link → Link ⊎ Refusal
  set_expiry none l = inl l
  set_expiry (some n) l =
      if is_negative (some n)
      then bad_request "invalid_request" "expires_at must be >= 0"
      else inl (record l { expires_at = n })

  abbrev pub on_root : Text → Bool
  on_root url = self_root_target site.go site.config site.origin url

  abbrev pub root_refused : Link ⊎ Refusal
  root_refused =
      bad_request "self_root_target" "the root short code cannot point at this instance's own root"

  module _ (fault_text : Fault → Text) (store : LinkStore) where
    -- The change of the code, or the test of the root code where it stays.
    unfoldable pub set_code : Text → UpdateRequest → Link → Link ⊎ Refusal
    set_code old req l = elim (new_code req old) [
      | some code ↦ elim (validate code) [
        | some fault ↦
            inr (record { status = 400; code = codes "invalid_code"; message = fault_text fault })
        | none ↦
            if is_reserved site.go.equal_fold site.go.to_lower code site.config.reserved_codes
            then bad_request "reserved_code" "code is a reserved system path"
            else if same code (slash ∷ []) && on_root l.url
            then root_refused
            else elim (store.rename_link old code) [
              | taken ↦ refuse 409 "code_taken" "code is already in use"
              | rename_failed ↦ internal "failed to update link"
              | renamed ↦ inl (record l { code = code })
            ]
      ]
      | none ↦
          if same old (slash ∷ []) && is_some req.url && on_root (or_else req.url [])
          then root_refused
          else inl l
    ]

    unfoldable pub write_back : Link → Link ⊎ Refusal
    write_back l = elim (store.update_link l) [
      | updated ↦ inl l
      | gone ↦ refuse 404 "not_found" "link not found"
      | update_failed ↦ internal "failed to update link"
    ]

    -- Each step on the link that the former one gives; a refusal ends the handler.
    abbrev pub and_then : Link ⊎ Refusal → (Link → Link ⊎ Refusal) → Link ⊎ Refusal
    and_then (inl l) f = f l
    and_then (inr e) f = inr e

    unfoldable pub edit : Text → UpdateRequest → Link → Link ⊎ Refusal
    edit old req l = and_then (set_url req.url l) (λ l1.
        and_then
          (set_description req.description (record l1 { title = or_else req.title l1.title }))
          (λ l2.
            and_then (set_expiry req.expires_at l2) (λ l3.
              and_then (set_code old req (record l3 { updated_at = store.now })) write_back)))

    -- The whole handler, with the code that the request addresses.
    unfoldable pub update_link : Text → UpdateRequest → Link ⊎ Refusal
    update_link old req = elim (store.get_link old) [
      | not_found ↦ refuse 404 "not_found" "link not found"
      | lookup_failed ↦ internal "failed to get link"
      | found l ↦
          if is_mutating req old && site.config.backup_on_edit && not (store.backup_link l)
          then internal "failed to backup link"
          else edit old req l
    ]
