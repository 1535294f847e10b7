-- ===== src/Auth/Forms.antt =====
-- What the forms of frontend/src/pages/Login.tsx, Setup.tsx, ChangePassword.tsx and Connect.tsx
-- show. The browser submits a form by its submit button alone, and not while that is disabled.
use gourl.Common.{
  Bool, true, false, ◌||◌, if◌then◌else◌, Option, none, some, List, [], ◌∷◌, ◌++◌, Text, is_empty,
}
use gourl.Api.Types.{t, t_text}
use gourl.Markup.{Node, text, value, button, input}
use gourl.Auth.Passwords.{Effect}
use gourl.Auth.Connect.{Connect, Target}
use gourl.Auth.Login
use gourl.Auth.Setup
use gourl.Auth.ChangePassword

-- `typed` is the change of a field, by its place in the form.
pub data Event : Type 0 where
  typed_first typed_second typed_third : Text → Event
  submitted went_back open_server cancelled confirmed : Event

-- The brand line: the server's name, or the built-in one, and the version.
unfoldable pub brand : Text → Text → Option Text → List (Node Event)
brand app_name version none = value app_name ∷ value (b'v' ∷ version) ∷ []
brand app_name version (some name) =
    value (if is_empty name then app_name else name) ∷ value (b'v' ∷ version) ∷ []

module _ (app_name version : Text) (health : Option Text) where
  unfoldable pub login_view : Login.Form → List (Node Event)
  login_view f =
      text (t "login.heading") ∷ brand app_name version health
      ++ input (t "login.password") f.password typed_first none
        ∷ button (t "login.signIn") (f.busy || is_empty f.password) submitted
        ∷ []

  unfoldable pub setup_view : Setup.Form → List (Node Event)
  setup_view f =
      text (t "setup.heading") ∷ brand app_name version health
      ++ text (t "setup.sub")
        ∷ input (t "setup.code") f.code typed_first none
        ∷ text (t "setup.codeHint")
        ∷ input (t "setup.password") f.password typed_second none
        ∷ input (t "setup.confirm") f.confirm typed_third none
        ∷ button (t "setup.setup")
            (f.busy || is_empty f.code || is_empty f.password || is_empty f.confirm) submitted
        ∷ []

  unfoldable pub change_view : ChangePassword.Form → List (Node Event)
  change_view f =
      button (t "common.back") false went_back
        ∷ text (t "changePassword.heading")
        ∷ brand app_name version health
      ++ input (t "changePassword.current") f.old_password typed_first none
        ∷ input (t "changePassword.new") f.new_password typed_second none
        ∷ input (t "changePassword.confirm") f.confirm typed_third none
        ∷ button (t "changePassword.submit")
            (f.busy || is_empty f.old_password || is_empty f.new_password || is_empty f.confirm)
            submitted
        ∷ []

abbrev insecure_dialog : Option Target → List (Node Event)
insecure_dialog none = []
insecure_dialog (some target) =
    text (t "connect.insecureTitle")
    ∷ text (t_text "connect.insecureBody" target.origin)
    ∷ button (t "common.cancel") false cancelled
    ∷ button (t "connect.insecureTrust") false confirmed
    ∷ []

unfoldable pub connect_view : Connect → List (Node Event)
connect_view c =
    text (t "connect.heading")
    ∷ text (t "connect.sub")
    ∷ input (t "connect.url") c.url typed_first none
    ∷ text (t "connect.urlHint")
    ∷ input (t "connect.token") c.token typed_second none
    ∷ text (t "connect.tokenHint")
    ∷ button (t "connect.connect") (c.busy || is_empty c.url || is_empty c.token) submitted
    ∷ text (t "connect.step1")
    ∷ text (t "connect.step2")
    ∷ text (t "connect.step3")
    ∷ button (t "connect.openServer") false open_server
    ∷ insecure_dialog c.pending

abbrev pub is_submit : Event → Bool
is_submit submitted = true
is_submit _ = false

-- Whether a form's submit button can be clicked.
unfoldable pub offers_submit : List Event → Bool
offers_submit [] = false
offers_submit (e ∷ es) = is_submit e || offers_submit es

abbrev pub has_effects : List Effect → Bool
has_effects [] = false
has_effects (e ∷ es) = true
