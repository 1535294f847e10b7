-- ===== src/BatchDialog.antt =====
-- frontend/src/components/BatchCreateDialog.tsx: the state of the batch-create dialog and its
-- handlers. An awaited call is cut in two: the handler up to the request, and its continuation.
pub mod Laws
pub mod Retry
pub mod Numbers
pub mod View
use Prim.Native.String.{String}
use gourl.Common.{
  ℕ, suc, ◌+◌, Bool, true, false, ◌||◌, ltb, if◌then◌else◌, Option, none, some, List, [], ◌∷◌, ◌++◌,
  Text, trim, codes, same, split, join, length, is_empty,
}
use gourl.Platform.{Url, ℤ}
use gourl.Platform.Calendar.{Date}
use gourl.Batch.{
  Item, LineResult, ok, err, Reason, skip, invalid_syntax, invalid_url, invalid_date,
  parse_batch_line,
}
use gourl.Api.Types.{
  BatchCreateResult, BatchCreateResponse, BatchStatus, created, updated, skipped, error, Outcome,
  resolved, rejected, thrown, Message, t, t_numbers, plain, Kind, success, failure, api_message,
}

pub record Failure : Type 0 where
  pub line : Text
  pub reason : Message

pub record ErrorLine : Type 0 where
  pub line : ℕ
  pub reason : Reason

pub record Validation : Type 0 where
  pub items : List Item
  pub valid_lines : List Text
  pub error_lines : List ErrorLine

abbrev pub no_validation : Validation
no_validation = record { items = []; valid_lines = []; error_lines = [] }

pub record Dialog : Type 0 where
  pub text : Text
  pub busy : Bool
  pub failures : List Failure
  pub validation : Validation

-- What a handler asks of its surroundings.
pub data Effect : Type 0 where
  toast : Message → Kind → Effect
  on_created on_close : Effect

-- The arguments of `submit`, which its continuation still holds.
pub record Request : Type 0 where
  pub lines : List Text
  pub items : List Item

abbrev pub newline : ℕ
newline = 10

abbrev pub flag_line : ℕ → Reason → Validation → Validation
flag_line i skip v = v
flag_line i reason v = record v {
  error_lines = v.error_lines ++ record { line = i + 1; reason = reason } ∷ [];
}

module _ (parse_url : Text → Option Url) (get_time : Date → ℤ) where
  -- One round of the loop of `validate`.
  unfoldable pub validate_line : ℕ → Text → Validation → Validation
  validate_line i raw v = elim (parse_batch_line parse_url get_time raw) [
    | ok item ↦ record v {
      items = v.items ++ item ∷ [];
      valid_lines = v.valid_lines ++ trim raw ∷ [];
    }
    | err reason ↦ flag_line i reason v
  ]

  unfoldable pub validate_from : ℕ → List Text → Validation → Validation
  validate_from i [] v = v
  validate_from i (raw ∷ lines) v = validate_from (suc i) lines (validate_line i raw v)

  unfoldable pub validate : Text → Validation
  validate value = validate_from 0 (split newline value) no_validation

abbrev pub reason_text : Reason → Message
reason_text invalid_url = t "form.invalidUrl"
reason_text invalid_date = t "form.invalidDate"
reason_text skip = t "form.batchSyntax"
reason_text invalid_syntax = t "form.batchSyntax"

-- `submit` up to the request.
unfoldable pub submit : List Text → List Item → Dialog → Dialog × Option Request
submit lines items d =
    if d.busy
    then (d, none)
    else (record d { busy = true }, some (record { lines = lines; items = items }))

abbrev pub failure_message : Option BatchCreateResult → Message
failure_message none = t "common.error"
failure_message (some r) = elim r.error_code [
  | none ↦ elim r.error_message [ none ↦ t "common.error" | some m ↦ plain m ]
  | some code ↦
      if same code (codes "code_taken")
      then t "form.codeTaken"
      else elim r.error_message [ none ↦ t "common.error" | some m ↦ plain m ]
]

abbrev pub was_created : Option BatchCreateResult → Bool
was_created none = false
was_created (some r) = elim r.status [ created ↦ true | _ ↦ false ]

-- The results by position; past their end the result is `undefined`.
abbrev pub head_result : List BatchCreateResult → Option BatchCreateResult
head_result [] = none
head_result (r ∷ rs) = some r

abbrev pub tail_results : List BatchCreateResult → List BatchCreateResult
tail_results [] = []
tail_results (r ∷ rs) = rs

-- The loop over `linesToSend`: the failures with their lines, and the calls of `onCreated`.
unfoldable pub collect :
    List Text
    → List BatchCreateResult
    → List Failure
    → List Text
    → List Effect
    → List Failure × List Text × List Effect
collect [] rs failed kept done = (failed, kept, done)
collect (line ∷ lines) rs failed kept done = elim (was_created (head_result rs)) [
  | true ↦ collect lines (tail_results rs) failed kept (done ++ on_created ∷ [])
  | false ↦
      collect lines (tail_results rs)
        (failed ++ record { line = line; reason = failure_message (head_result rs) } ∷ [])
        (kept ++ line ∷ []) done
]

abbrev pub summary : BatchCreateResponse → List Effect
summary res =
    if ltb 0 res.created
    then toast (t_numbers "form.batchDone" (res.created ∷ res.failed ∷ [])) success ∷ []
    else []

-- The rest of `submit`, when the request has been answered.
unfoldable pub settle : Request → Outcome BatchCreateResponse → Dialog → Dialog × List Effect
settle q (resolved res) d =
    let (failed, kept, done) = collect q.lines res.results [] [] [] in
    (
      record d { text = join (newline ∷ []) kept; busy = false; failures = failed },
      done ++ summary res,
    )
settle q (rejected e) d = (record d { busy = false }, toast (plain e.message) failure ∷ [])
settle q (thrown m) d = (record d { busy = false }, toast (t "common.error") failure ∷ [])

unfoldable pub on_change : Text → Dialog → Dialog
on_change value d = record d { text = value }

module _ (parse_url : Text → Option Url) (get_time : Date → ℤ) where
  unfoldable pub on_blur : Dialog → Dialog
  on_blur d = record d { validation = validate parse_url get_time d.text }

  abbrev pub send_if_valid : Validation → Dialog → Dialog × Option Request
  send_if_valid v d =
      if ltb 0 (length v.error_lines) || ltb (length v.items) 1
      then (d, none)
      else submit v.valid_lines v.items d

  unfoldable pub on_create : Dialog → Dialog × Option Request
  on_create d =
      let v = validate parse_url get_time d.text in send_if_valid v (record d { validation = v })

unfoldable pub retry : Dialog → Dialog × Option Request
retry d =
    if ltb (length d.validation.items) 1 || d.busy
    then (d, none)
    else submit d.validation.valid_lines d.validation.items d

unfoldable pub close : Dialog → Dialog × List Effect
close d = (record d { text = []; failures = []; validation = no_validation }, on_close ∷ [])
