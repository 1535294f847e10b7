-- ===== src/Auth/Passwords.antt =====
-- What the password forms of frontend/src/pages/ share: their effects and the test of an error.
use gourl.Common.{Bool, false, Text, same}
use gourl.Api.Types.{Outcome, rejected, Message, Kind}

pub data Effect : Type 0 where
  toast : Message → Kind → Effect
  navigate : Text → Effect
  configured : Effect

abbrev pub has_code : {A : Type 0} → Outcome A → Text → Bool
has_code (rejected e) code = same e.code code
has_code other code = false
