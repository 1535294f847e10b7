-- ===== src/Auth/Login.antt =====
-- frontend/src/pages/Login.tsx
use gourl.Common.{
  Bool, true, false, ◌||◌, if◌then◌else◌, Option, none, some, List, [], ◌∷◌, Text, codes, is_empty,
}
use gourl.Api.Types.{Outcome, resolved, t, failure}
use gourl.Auth.Passwords.{Effect, toast, navigate, has_code}

pub record Form : Type 0 where
  pub password : Text
  pub busy : Bool

-- `submit`, up to the request with the password.
unfoldable pub submit : Form → Form × Option Text
submit f =
    if is_empty f.password || f.busy then (f, none) else (record f { busy = true }, some f.password)

unfoldable pub settled : Outcome (Unit {0}) → Form → Form × List Effect
settled (resolved done) f = (record f { busy = false }, navigate (codes "/admin") ∷ [])
settled other f = (
  record f { busy = false },
  (if has_code other (codes "auth_disabled")
        then toast (t "login.authDisabled") failure
        else toast (t "login.wrongPassword") failure)
      ∷ [],
)
