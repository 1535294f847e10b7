-- ===== src/BatchDialog/Numbers.antt =====
-- The numbers of the lines that the validation flags, against the lines themselves.
use gourl.Common.{
  ℕ, zero, suc, ◌+◌, ◌-◌, false, ◌==◌, ==_iff, if◌then◌else◌, Option, none, some, List, [], ◌∷◌,
  ◌++◌, Text, trim, split, get_elem?, ◌≡◌, refl, ◌∙◌, sym, ap, arith, Bool-cases, inl, inr,
}
use gourl.Platform.{Url, ℤ}
use gourl.Platform.Calendar.{Date}
use gourl.Batch.{
  LineResult, ok, err, Reason, skip, invalid_syntax, invalid_url, invalid_date, parse_batch_line,
}
use gourl.BatchDialog.{
  ErrorLine, Validation, no_validation, newline, flag_line, validate_line, validate_from, validate,
}

-- The reason that is listed for a number.
unfoldable pub reason_at : List ErrorLine → ℕ → Option Reason
reason_at [] n = none
reason_at (e ∷ es) n = if e.line == n then some e.reason else reason_at es n

-- Why a line is refused: a blank line and a comment are not.
unfoldable pub fault : LineResult → Option Reason
fault (ok item) = none
fault (err skip) = none
fault (err invalid_syntax) = some invalid_syntax
fault (err invalid_url) = some invalid_url
fault (err invalid_date) = some invalid_date

abbrev or_next : Option Reason → Option Reason → Option Reason
or_next none r = r
or_next (some q) r = some q

reason_at-append :
    (es fs : List ErrorLine) (n : ℕ)
    → reason_at (es ++ fs) n ≡ or_next (reason_at es n) (reason_at fs n)
unfolding reason_at
reason_at-append [] fs n = refl
reason_at-append (e ∷ es) fs n = elim (Bool-cases (e.line == n)) [
  | inl h ↦ rw (h) refl
  | inr h ↦ rw (h) (reason_at-append es fs n)
]

or_next-none : (q : Option Reason) → or_next q none ≡ q
or_next-none none = refl
or_next-none (some r) = refl

or_next_assoc : (p q r : Option Reason) → or_next (or_next p q) r ≡ or_next p (or_next q r)
or_next_assoc none q r = refl
or_next_assoc (some p) q r = refl

abbrev noted : ℕ → Text → LineResult → Validation → Validation
noted i raw r v = elim r [
  | ok item ↦ record v {
    items = v.items ++ item ∷ [];
    valid_lines = v.valid_lines ++ trim raw ∷ [];
  }
  | err reason ↦ flag_line i reason v
]

minus_zero : (n : ℕ) → n - 0 ≡ n
minus_zero n = omega arith

minus_one : (n : ℕ) → suc n - 1 ≡ n
minus_one n = omega arith

not_first : (n : ℕ) → (1 == suc (suc n)) ≡ false
not_first n = ground arith

never_zero : (n : ℕ) → ((n + 1) == 0) ≡ false
never_zero n = ground arith

zero_minus : (n : ℕ) → 0 - n ≡ 0
zero_minus n = omega arith

both_next : (i n : ℕ) → ((suc i + 1) == suc n) ≡ ((i + 1) == n)
both_next i n = ground (arith, ==_iff (suc i + 1) (suc n), ==_iff (i + 1) n)

minus_next : (n k : ℕ) → suc n - suc k ≡ n - k
minus_next n k = omega arith

module _ (i : ℕ) (v : Validation) (n : ℕ) where
  flagged-reason_at :
      (reason : Reason)
      → reason_at (v.error_lines ++ record { line = i + 1; reason = reason } ∷ []) n
        ≡ or_next (reason_at v.error_lines n) (if (i + 1) == n then some reason else none)
  unfolding reason_at
  flagged-reason_at reason = reason_at-append v.error_lines _ n

  if_none : ◌≡◌ {A = Option Reason} (if (i + 1) == n then none else none) none
  if_none = elim (Bool-cases ((i + 1) == n)) [ inl h ↦ rw (h) refl | inr h ↦ rw (h) refl ]

  noted-reason_at :
      (raw : Text) (r : LineResult)
      → reason_at (noted i raw r v).error_lines n
        ≡ or_next (reason_at v.error_lines n) (if (i + 1) == n then fault r else none)
  unfolding fault
  noted-reason_at raw (ok item) = rw (if_none) (sym (or_next-none _))
  noted-reason_at raw (err skip) = rw (if_none) (sym (or_next-none _))
  noted-reason_at raw (err invalid_syntax) = flagged-reason_at invalid_syntax
  noted-reason_at raw (err invalid_url) = flagged-reason_at invalid_url
  noted-reason_at raw (err invalid_date) = flagged-reason_at invalid_date

module _ (parse_url : Text → Option Url) (get_time : Date → ℤ) where
  -- The fault of the line with a number that counts from 1.
  unfoldable pub fault_of_line : List Text → ℕ → Option Reason
  fault_of_line lines zero = none
  fault_of_line lines (suc i) = elim (get_elem? lines i) [
    | none ↦ none
    | some raw ↦ fault (parse_batch_line parse_url get_time raw)
  ]

  -- The same where the first line has number `i + 1`.
  abbrev fault_from : ℕ → List Text → ℕ → Option Reason
  fault_from i lines n = fault_of_line lines (n - i)

  fault_from_cons :
      (i : ℕ) (raw : Text) (lines : List Text) (n : ℕ)
      → or_next
          (if (i + 1) == n then fault (parse_batch_line parse_url get_time raw) else none)
          (fault_from (suc i) lines n)
        ≡ fault_from i (raw ∷ lines) n
  unfolding fault_of_line
  fault_from_cons zero raw lines zero = refl
  fault_from_cons zero raw lines (suc zero) = or_next-none _
  fault_from_cons zero raw lines (suc (suc n)) =
      rw (not_first n, minus_zero (suc (suc n)), minus_one (suc n)) refl
  fault_from_cons (suc i) raw lines zero =
      rw (never_zero (suc i), zero_minus (suc (suc i)), zero_minus (suc i)) refl
  fault_from_cons (suc i) raw lines (suc n) =
      rw (both_next i n, minus_next n (suc i), minus_next n i) (fault_from_cons i raw lines n)

  fault_of_no_line : (n : ℕ) → fault_of_line [] n ≡ none
  unfolding fault_of_line
  fault_of_no_line zero = refl
  fault_of_no_line (suc n) = refl

  validate_from-reason_at :
      (i : ℕ) (lines : List Text) (v : Validation) (n : ℕ)
      → reason_at (validate_from parse_url get_time i lines v).error_lines n
        ≡ or_next (reason_at v.error_lines n) (fault_from i lines n)
  unfolding validate_from validate_line
  validate_from-reason_at i [] v n =
      rw (fault_of_no_line (n - i)) (sym (or_next-none (reason_at v.error_lines n)))
  validate_from-reason_at i (raw ∷ lines) v n =
      let r = parse_batch_line parse_url get_time raw in
      validate_from-reason_at (suc i) lines (noted i raw r v) n
      ∙ ap (λ q. or_next q (fault_from (suc i) lines n)) (noted-reason_at i v n raw r)
      ∙ or_next_assoc (reason_at v.error_lines n) _ _
      ∙ ap (or_next (reason_at v.error_lines n)) (fault_from_cons i raw lines n)

  -- The validation flags, by its number from 1, exactly each line of the text that the parser
  -- refuses, with the parser's reason; blank lines, comments and numbers beyond the last line are
  -- not flagged.
  pub validate-reason_at :
      (value : Text) (n : ℕ)
      → reason_at (validate parse_url get_time value).error_lines n
        ≡ fault_of_line (split newline value) n
  unfolding validate reason_at
  validate-reason_at value n =
      validate_from-reason_at 0 (split newline value) no_validation n
      ∙ ap (fault_of_line (split newline value)) (minus_zero n)
