-- ===== src/Auth/Setup.antt =====
-- frontend/src/pages/Setup.tsx
use gourl.Common.{
  Bool, true, false, ◌||◌, not, if◌then◌else◌, Option, none, some, List, [], ◌∷◌, Text, codes,
  is_empty, same,
}
use gourl.Api.Types.{Outcome, resolved, t, failure, api_message}
use gourl.Auth.Passwords.{Effect, toast, navigate, configured, has_code}

pub record Form : Type 0 where
  pub code : Text
  pub password : Text
  pub confirm : Text
  pub busy : Bool

unfoldable pub submit : Form → Form × List Effect × Option (Text × Text)
submit f =
    if is_empty f.code || is_empty f.password || f.busy
    then (f, [], none)
    else if not (same f.password f.confirm)
    then (f, toast (t "setup.mismatch") failure ∷ [], none)
    else (record f { busy = true }, [], some (f.code, f.password))

-- `configured` is the write of `{ configured: true }` into the cached status.
unfoldable pub settled : Outcome (Unit {0}) → Form → Form × List Effect
settled (resolved done) f = (record f { busy = false }, configured ∷ navigate (codes "/admin") ∷ [])
settled other f = (
  record f { busy = false },
  (if has_code other (codes "weak_password")
        then toast (t "setup.weak") failure
        else if has_code other (codes "invalid_setup_code")
        then toast (t "setup.invalidCode") failure
        else toast (api_message "common.error" other) failure)
      ∷ [],
)
