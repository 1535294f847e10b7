-- ===== src/Auth/ChangePassword.antt =====
-- frontend/src/pages/ChangePassword.tsx
use gourl.Common.{
  ◌≤◌, Bool, true, false, ◌&&◌, ◌||◌, not, ltb, if◌then◌else◌, Option, none, some, List, [], ◌∷◌,
  Text, codes, is_empty, same, same_iff, same_refl, ◌∙◌, length, ◌≡◌, ◌↔◌, arith, refl, Bool-cases,
  inl, inr,
}
use gourl.Api.Types.{Outcome, resolved, t, success, failure, api_message}
use gourl.Auth.Passwords.{Effect, toast, navigate, has_code}

pub record Form : Type 0 where
  pub old_password : Text
  pub new_password : Text
  pub confirm : Text
  pub busy : Bool

unfoldable pub submit : Form → Form × List Effect × Option (Text × Text)
submit f =
    if f.busy
    then (f, [], none)
    else if is_empty f.old_password || is_empty f.new_password || is_empty f.confirm
    then (f, [], none)
    else if ltb (length f.new_password) 8
    then (f, toast (t "changePassword.tooShort") failure ∷ [], none)
    else if not (same f.new_password f.confirm)
    then (f, toast (t "changePassword.mismatch") failure ∷ [], none)
    else (record f { busy = true }, [], some (f.old_password, f.new_password))

unfoldable pub settled : Bool → Outcome (Unit {0}) → Form → Form × List Effect
settled is_app (resolved done) f = (
  record f { busy = false },
  if is_app
      then toast (t "changePassword.successApp") success ∷ navigate (codes "/admin/settings") ∷ []
      else toast (t "changePassword.success") success ∷ navigate (codes "/admin/login") ∷ [],
)
settled is_app other f = (
  record f { busy = false },
  (if has_code other (codes "unauthorized")
        then toast (t "changePassword.wrongCurrent") failure
        else if has_code other (codes "rate_limited")
        then toast (t "login.rateLimited") failure
        else toast (api_message "changePassword.failed" other) failure)
      ∷ [],
)

-- The guards, all together.
abbrev accepts : Form → Bool
accepts f =
    not f.busy
    && not (is_empty f.old_password || is_empty f.new_password || is_empty f.confirm)
    && not (ltb (length f.new_password) 8)
    && same f.new_password f.confirm

accepted : (f : Form) → accepts f ≡ true → (submit f).2 ≡ some (f.old_password, f.new_password)
unfolding submit
accepted f e = ground (arith, e)

refused : (f : Form) → accepts f ≡ false → (submit f).2 ≡ none
unfolding submit
refused f e = ground (arith, e)

long_full : (s : Text) → 8 ≤ length s → is_empty s ≡ false
long_full [] h = ground (arith, h)
long_full (c ∷ s) h = refl

accepts_all :
    (f : Form)
    → f.busy ≡ false
    → is_empty f.old_password ≡ false
    → 8 ≤ length f.new_password
    → f.confirm ≡ f.new_password
    → accepts f ≡ true
accepts_all f idle given long repeated =
    rw (idle, given, repeated, same_refl f.new_password, long_full f.new_password long)
      (ground (arith, long))

-- The change form sends a request exactly if none is under way, the old password is not empty,
-- and the new one has eight units at least and is repeated without a difference; the request then
-- has the two passwords.
submit_sends_iff :
    (f : Form) (old new : Text)
    → ((submit f).2 ≡ some (old, new)) ↔ (
        (f.busy ≡ false)
        × (is_empty f.old_password ≡ false)
        × (8 ≤ length f.new_password)
        × (f.confirm ≡ f.new_password)
        × (old ≡ f.old_password)
        × (new ≡ f.new_password))
unfolding submit
submit_sends_iff f old new = (
  λ sent. elim (Bool-cases (accepts f)) [
    | inl e ↦
        let it : (submit f).2 ≡ some (f.old_password, f.new_password) = accepted f e in
        (
          ground (arith, e),
          ground (arith, e),
          ground (arith, e),
          ground (arith, e, same_iff f.new_password f.confirm),
          cc (it, sent),
          cc (it, sent),
        )
    | inr e ↦ let gone : (submit f).2 ≡ none = refused f e in absurd (cc (gone, sent))
  ],
  λ (idle, given, long, repeated, is_old, is_new).
      accepted f (accepts_all f idle given long repeated) ∙ cc (is_old, is_new),
)
