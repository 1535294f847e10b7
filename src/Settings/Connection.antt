-- ===== src/Settings/Connection.antt =====
-- The connection card of frontend/src/pages/Settings.tsx: the probe of the server and its verdict.
use gourl.Common.{
  Bool, true, false, ◌==◌, ==_iff, Bool-cases, inl, inr, if◌then◌else◌, Option, none, some, Text,
  codes, ◌≡◌, ◌↔◌, refl, arith,
}
use gourl.Api.Types.{ApiError, Outcome, resolved, rejected, thrown, AppConfig, Message, t}

pub data ConnStatus : Type 0 where
  checking connected unauthorized unreachable : ConnStatus

pub record Card : Type 0 where
  pub confirm_disconnect : Bool
  pub status : ConnStatus
  pub server_version : Option Text

-- `err instanceof ApiError && err.status === 401 ? 'unauthorized' : 'unreachable'`
unfoldable pub refused {ℓ} : {A : Type ℓ} → Outcome A → ConnStatus
refused (rejected e) = if e.status == 401 then unauthorized else unreachable
refused other = unreachable

-- `config` is the answer of the configuration's endpoint, which an old server is asked.
unfoldable pub judge : Outcome (Option Bool) → Outcome AppConfig → ConnStatus
judge (resolved (some authed)) config = if authed then connected else unauthorized
judge (resolved none) (resolved cfg) = connected
judge (resolved none) (rejected e) = refused {A = AppConfig} (rejected e)
judge (resolved none) (thrown m) = unreachable
judge (rejected e) config = refused {A = AppConfig} (rejected e)
judge (thrown m) config = unreachable

abbrev pub version_of : Outcome Text → Option Text
version_of (resolved version) = some version
version_of other = none

-- `check`, when its requests have ended; a card that was taken down is left as it is.
unfoldable pub checked :
    Bool → Outcome (Option Bool) → Outcome Text → Outcome AppConfig → Card → Card
checked alive st health config c =
    if alive then record c { status = judge st config; server_version = version_of health } else c

-- `refresh`: a probe that is under way is not started again. The Boolean says whether `check` runs.
unfoldable pub refresh : Card → Card × Bool
refresh c = elim c.status [ checking ↦ (c, false) | _ ↦ (record c { status = checking }, true) ]

-- What the card shows of the status: the class of its dot, the class of its text and the label.
unfoldable pub shown_status : ConnStatus → Text × Text × Message
shown_status checking = (codes "bg-current", codes "text-muted", t "settings.connChecking")
shown_status connected = (
  codes "bg-emerald-500",
  codes "text-emerald-600 dark:text-emerald-400",
  t "settings.connConnected",
)
shown_status unauthorized =
    (codes "bg-red-500", codes "text-red-600 dark:text-red-400", t "settings.connUnauthorized")
shown_status unreachable =
    (codes "bg-red-500", codes "text-red-600 dark:text-red-400", t "settings.connUnreachable")

-- Whether the server accepts the credential, as the endpoint that decides says: the auth status
-- of a server that sends it, and the configuration's endpoint of one that does not.
abbrev pub Accepts : Outcome (Option Bool) → Outcome AppConfig → Type 0
Accepts (resolved (some authed)) config = authed ≡ true
Accepts (resolved none) (resolved cfg) = Unit
Accepts st config = ⊥

abbrev pub Refuses : Outcome (Option Bool) → Outcome AppConfig → Type 0
Refuses (resolved (some authed)) config = authed ≡ false
Refuses (resolved none) (rejected e) = e.status ≡ 401
Refuses (rejected e) config = e.status ≡ 401
Refuses st config = ⊥

refused_cases :
    (e : ApiError)
    → ((refused {A = AppConfig} (rejected e) ≡ connected) ↔ ⊥)
      × ((refused {A = AppConfig} (rejected e) ≡ unauthorized) ↔ (e.status ≡ 401))
unfolding refused
refused_cases e = elim (Bool-cases (e.status == 401)) [
  | inl h ↦
      rw (h, refused) ((λ k. cc k, λ k. absurd k), ((λ _. (==_iff e.status 401).0 h), λ _. refl))
  | inr h ↦ rw (h, refused) ((λ k. cc k, λ k. absurd k), ((λ k. cc k), λ k. ground (arith, h, k)))
]

-- The card says "connected" exactly if the server accepts the credential, and "unauthorized"
-- exactly if it refuses it.
pub judge_iff :
    (st : Outcome (Option Bool)) (config : Outcome AppConfig)
    → ((judge st config ≡ connected) ↔ Accepts st config)
      × ((judge st config ≡ unauthorized) ↔ Refuses st config)
unfolding judge
judge_iff (resolved (some true)) config = ((λ _. refl, λ _. refl), ((λ k. cc k), λ k. cc k))
judge_iff (resolved (some false)) config = ((λ k. cc k, λ k. cc k), ((λ _. refl), λ _. refl))
judge_iff (resolved none) (resolved cfg) = ((λ _. tt, λ _. refl), ((λ k. cc k), λ k. absurd k))
judge_iff (resolved none) (rejected e) = refused_cases e
judge_iff (resolved none) (thrown m) = ((λ k. cc k, λ k. absurd k), ((λ k. cc k), λ k. absurd k))
judge_iff (rejected e) config = refused_cases e
judge_iff (thrown m) config = ((λ k. cc k, λ k. absurd k), ((λ k. cc k), λ k. absurd k))
