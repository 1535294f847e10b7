-- ===== src/Auth/Answers.antt =====
-- The submit buttons of the password forms against their handlers.
use gourl.Common.{◌&&◌, ◌||◌, not, Option, none, some, is_some, Text, is_empty, ◌≡◌, arith}
use gourl.Markup.{clicks}
use gourl.Auth.Forms.{login_view, setup_view, change_view, brand, offers_submit, has_effects}
use gourl.Auth.Login
use gourl.Auth.Setup
use gourl.Auth.ChangePassword

module _ (app_name version : Text) where
  login_answers :
      (health : Option Text) (f : Login.Form)
      → offers_submit (clicks (login_view app_name version health f)) ≡ is_some (Login.submit f).1
  unfolding login_view clicks brand offers_submit Login.submit
  login_answers none f = ground arith
  login_answers (some name) f = ground arith

  setup_answers :
      (health : Option Text) (f : Setup.Form)
      → offers_submit (clicks (setup_view app_name version health f)) ≡ (
          (is_some (Setup.submit f).2 || has_effects (Setup.submit f).1)
          && not (is_empty f.confirm))
  unfolding setup_view clicks brand offers_submit Setup.submit
  setup_answers none f = ground arith
  setup_answers (some name) f = ground arith

  change_answers :
      (health : Option Text) (f : ChangePassword.Form)
      → offers_submit (clicks (change_view app_name version health f))
        ≡ (is_some (ChangePassword.submit f).2 || has_effects (ChangePassword.submit f).1)
  unfolding change_view clicks brand offers_submit ChangePassword.submit
  change_answers none f = ground arith
  change_answers (some name) f = ground arith
