-- ===== src/LinkForm/DateField.antt =====
-- frontend/src/components/DateInput.tsx: the text field of a date.
use gourl.Common.{
  Bool, true, false, ◌&&◌, not, if◌then◌else◌, Option, some, is_some, [], ◌∷◌, Text, trim, is_empty,
  ◌≡◌, refl, ◌==◌, Bool-cases, inl, inr,
}
use gourl.Platform.Decimal.{is_digit}
use gourl.Batch.Dates.{parse_date}

pub record Field : Type 0 where
  pub text : Text
  pub invalid : Bool

abbrev pub all_digits : Text → Bool
all_digits [] = true
all_digits (c ∷ s) = is_digit c && all_digits s

-- `^(\d{4})-(\d{2})-(\d{2})$` of a text of ten units, with '/' put for both '-'.
unfoldable pub to_slash : Text → Text
to_slash (a ∷ b ∷ c ∷ d ∷ m ∷ e ∷ f ∷ n ∷ g ∷ h ∷ []) =
    if all_digits (a ∷ b ∷ c ∷ d ∷ e ∷ f ∷ g ∷ h ∷ []) && m == b'-' && n == b'-'
    then a ∷ b ∷ c ∷ d ∷ b'/' ∷ e ∷ f ∷ b'/' ∷ g ∷ h ∷ []
    else a ∷ b ∷ c ∷ d ∷ m ∷ e ∷ f ∷ n ∷ g ∷ h ∷ []
to_slash iso = iso

abbrev pub initial : Text → Field
initial value = record { text = to_slash value; invalid = false }

-- `handle`: the second component is what `onChange` reports.
unfoldable pub handle : Text → Field → Field × Option Text
handle raw f = (
  record { text = raw; invalid = false },
  if is_empty (trim raw) then some [] else parse_date raw,
)

unfoldable pub on_blur : Field → Field
on_blur f =
    if not (is_empty (trim f.text)) && not (is_some (parse_date f.text))
    then record f { invalid = true }
    else f

unfoldable pub on_focus : Field → Field
on_focus f = record f { invalid = false }

-- After the field is left it is marked exactly if the text it reported last is no date.
pub on_blur-handle :
    (raw : Text) (f : Field) → (on_blur (handle raw f).0).invalid ≡ not (is_some (handle raw f).1)
unfolding on_blur handle
on_blur-handle raw f = elim (Bool-cases (is_empty (trim raw))) [
  | inl e ↦ rw (e, on_blur) refl
  | inr e ↦ elim (Bool-cases (is_some (parse_date raw))) [
    | inl k ↦ rw (e, k, on_blur) refl
    | inr k ↦ rw (e, k, on_blur) refl
  ]
]
