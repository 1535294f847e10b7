-- ===== src/Settings/Page.antt =====
-- The whole page of frontend/src/pages/Settings.tsx, and when it offers to disconnect.
use gourl.Common.{
  Bool, true, false, ◌||◌, not, if◌then◌else◌, Option, none, some, is_some, List, [], ◌∷◌, ◌++◌,
  Text, map, ◌≡◌, refl, ◌∙◌, ap, arith,
}
use gourl.Platform.{ℤ}
use gourl.Api.Types.{ServerConfig, TokenInfo, AppConfig, t}
use gourl.Markup.{Node, text, when, clicks, embed, clicks-embed, clicks-append}
use gourl.Settings.{Render, Drafts}
use gourl.Settings.Connection.{ConnStatus, checking, connected, unauthorized, unreachable}
use gourl.Settings.Tokens.{Tokens}
use gourl.Settings.Form.{
  Event, site_card, security_card, behavior_card, icon_card, blocks_cards, data_card,
}
use gourl.Settings.Cards.{
  CardEvent, refresh_clicked, ask_disconnect, DeviceCard, is_checking, connection_card, TokenEvent,
  tokens_card,
}

pub data PageEvent : Type 0 where
  on_form : Event → PageEvent
  on_card : CardEvent → PageEvent
  on_token : TokenEvent → PageEvent

abbrev asks : PageEvent → Bool
asks (on_card ask_disconnect) = true
asks _ = false

-- Whether the page shows the button that leads to the disconnect dialog.
unfoldable pub offers : List PageEvent → Bool
offers [] = false
offers (e ∷ es) = asks e || offers es

offers-append : (es fs : List PageEvent) → offers (es ++ fs) ≡ (offers es || offers fs)
unfolding offers
offers-append [] fs = refl
offers-append (e ∷ es) fs = ground (arith, offers-append es fs)

offers-form : (es : List Event) → offers (map on_form es) ≡ false
unfolding offers
offers-form [] = refl
offers-form (e ∷ es) = offers-form es

offers-token : (es : List TokenEvent) → offers (map on_token es) ≡ false
unfolding offers
offers-token [] = refl
offers-token (e ∷ es) = offers-token es

card_offers :
    (status : ConnStatus) (rest : List CardEvent)
    → offers (
        map on_card (
          if is_checking status
          then ask_disconnect ∷ rest
          else refresh_clicked ∷ ask_disconnect ∷ rest))
      ≡ true
unfolding offers
card_offers checking rest = refl
card_offers connected rest = refl
card_offers unauthorized rest = refl
card_offers unreachable rest = refl

offers_both :
    (ms ns : List (Node PageEvent))
    → offers (clicks (ms ++ ns)) ≡ (offers (clicks ms) || offers (clicks ns))
offers_both ms ns = ap offers (clicks-append ms ns) ∙ offers-append (clicks ms) (clicks ns)

module _ (print_number : ℤ → Text) (to_number : Text → ℤ) (app_version : Text) (app_mode : Bool)
    (server : Option ServerConfig) where
  unfoldable pub form_cards : AppConfig → Drafts → List (Node Event)
  form_cards form d =
      site_card form
      ++ security_card print_number to_number form
      ++ behavior_card print_number to_number form d
      ++ icon_card form
      ++ blocks_cards d
      ++ data_card form

  -- Without the form the connection card stands above the loading text in every mode.
  abbrev cards :
      Option AppConfig
      → Drafts
      → DeviceCard
      → Option (List TokenInfo)
      → Bool
      → Tokens
      → List (Node PageEvent)
  cards none d c list is_pending tokens =
      embed on_card (connection_card app_version server c) ++ text (t "common.loading") ∷ []
  cards (some form) d c list is_pending tokens =
      when app_mode (embed on_card (connection_card app_version server c))
      ++ embed on_form (form_cards form d)
      ++ embed on_token (tokens_card app_mode server list is_pending tokens)

  unfoldable pub view :
      Render → DeviceCard → Option (List TokenInfo) → Bool → Tokens → List (Node PageEvent)
  view r c list is_pending tokens =
      text (t "settings.heading") ∷ cards r.form r.drafts c list is_pending tokens

  offers-card :
      (c : DeviceCard)
      → offers (clicks (embed on_card (connection_card app_version server c))) ≡ true
  unfolding connection_card clicks
  offers-card c =
      ap offers (clicks-embed on_card (connection_card app_version server c))
      ∙ card_offers c.card.status _

  offers-when :
      (b : Bool) (ms : List (Node PageEvent))
      → offers (clicks ms) ≡ true
      → offers (clicks (when b ms)) ≡ b
  unfolding clicks offers
  offers-when true ms h = h
  offers-when false ms h = refl

  offers_first :
      (ms ns ks : List (Node PageEvent))
      → offers (clicks ms) ≡ app_mode
      → offers (clicks ns) ≡ false
      → offers (clicks ks) ≡ false
      → offers (clicks ((ms ++ ns) ++ ks)) ≡ (app_mode || false)
  offers_first ms ns ks h k l =
      ground (arith, h, k, l, offers_both (ms ++ ns) ks, offers_both ms ns)

  cards-offers :
      (form : Option AppConfig) (d : Drafts) (c : DeviceCard) (list : Option (List TokenInfo))
      (is_pending : Bool) (tokens : Tokens)
      → offers (clicks (cards form d c list is_pending tokens)) ≡ (app_mode || not (is_some form))
  cards-offers none d c list is_pending tokens = ground (
    arith,
    offers_both (embed on_card (connection_card app_version server c))
        (text (t "common.loading") ∷ []),
    offers-card c,
  )
  cards-offers (some form) d c list is_pending tokens =
      offers_first _ _ _ (offers-when app_mode _ (offers-card c))
        (ap offers (clicks-embed on_form (form_cards form d)) ∙ offers-form _)
        (ap offers (clicks-embed on_token (tokens_card app_mode server list is_pending tokens))
          ∙ offers-token _)

  -- The page offers to disconnect in the app, and also in the web console as long as the
  -- configuration has not arrived.
  pub view-offers :
      (r : Render) (c : DeviceCard) (list : Option (List TokenInfo)) (is_pending : Bool)
      (tokens : Tokens)
      → offers (clicks (view r c list is_pending tokens)) ≡ (app_mode || not (is_some r.form))
  unfolding view clicks
  view-offers r c list is_pending tokens = cards-offers r.form r.drafts c list is_pending tokens
