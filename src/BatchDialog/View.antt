-- ===== src/BatchDialog/View.antt =====
-- What the batch-create dialog of frontend/src/components/BatchCreateDialog.tsx shows, and when
-- its retry button is there.
use gourl.Common.{
  Bool, true, false, ◌&&◌, ◌||◌, not, ltb, some, is_some, List, [], ◌∷◌, ◌++◌, Text, is_empty, trim,
  length, ◌≡◌, ◌∙◌, refl, arith,
}
use gourl.Api.Types.{t, t_numbers}
use gourl.Markup.{Node, text, value, button, input, when, clicks, clicks-append}
use gourl.BatchDialog.{Dialog, Failure, ErrorLine, reason_text, retry, submit}

pub data Event : Type 0 where
  typed : Text → Event
  left cancelled retried created : Event

-- A flagged line with its number and its reason.
unfoldable pub error_nodes : List ErrorLine → List (Node Event)
error_nodes [] = []
error_nodes (e ∷ es) =
    text (t_numbers "form.batchLineNum" (e.line ∷ []))
    ∷ text (reason_text e.reason)
    ∷ error_nodes es

unfoldable pub failure_rows : List Failure → List (Node Event)
failure_rows [] = []
failure_rows (f ∷ fs) = value f.line ∷ text f.reason ∷ failure_rows fs

unfoldable pub failure_nodes : List Failure → List (Node Event)
failure_nodes [] = []
failure_nodes (f ∷ fs) = text (t "form.batchFailures") ∷ failure_rows (f ∷ fs)

unfoldable pub view : Dialog → List (Node Event)
view d =
    text (t "form.batchTitle")
    ∷ input (t "form.batchHint") d.text typed (some left)
    ∷ (error_nodes d.validation.error_lines
        ++ (failure_nodes d.failures
            ++ (button (t "form.cancel") false cancelled
                ∷ (when (ltb 0 (length d.failures) && ltb 0 (length d.validation.items))
                      (button (t "form.batchRetry") d.busy retried ∷ [])
                    ++ button (t "form.create") (d.busy || is_empty (trim d.text)) created ∷ []))))

abbrev is_retry : Event → Bool
is_retry retried = true
is_retry _ = false

-- Whether the retry button can be clicked.
unfoldable pub offers_retry : List Event → Bool
offers_retry [] = false
offers_retry (e ∷ es) = is_retry e || offers_retry es

error_nodes-clicks : (es : List ErrorLine) → clicks (error_nodes es) ≡ []
unfolding error_nodes clicks
error_nodes-clicks [] = refl
error_nodes-clicks (e ∷ es) = error_nodes-clicks es

failure_rows-clicks : (fs : List Failure) → clicks (failure_rows fs) ≡ []
unfolding failure_rows clicks
failure_rows-clicks [] = refl
failure_rows-clicks (f ∷ fs) = failure_rows-clicks fs

failure_nodes-clicks : (fs : List Failure) → clicks (failure_nodes fs) ≡ []
unfolding failure_nodes clicks
failure_nodes-clicks [] = refl
failure_nodes-clicks (f ∷ fs) = failure_rows-clicks (f ∷ fs)

last_buttons :
    (shown busy empty_text : Bool)
    → offers_retry (
        clicks (
          button (t "form.cancel") false cancelled
          ∷ (when shown (button (t "form.batchRetry") busy retried ∷ [])
              ++ button (t "form.create") (busy || empty_text) created ∷ [])))
      ≡ (shown && not busy)
unfolding offers_retry clicks
last_buttons true true empty_text = refl
last_buttons true false true = refl
last_buttons true false false = refl
last_buttons false true empty_text = refl
last_buttons false false true = refl
last_buttons false false false = refl

retry_sends :
    (d : Dialog)
    → ((ltb 0 (length d.failures) && ltb 0 (length d.validation.items)) && not d.busy)
      ≡ (ltb 0 (length d.failures) && is_some (retry d).1)
unfolding retry submit
retry_sends d = ground arith

-- The retry button can be clicked exactly if there are failures and a click sends a request.
pub view-retry :
    (d : Dialog)
    → offers_retry (clicks (view d)) ≡ (ltb 0 (length d.failures) && is_some (retry d).1)
unfolding view retry submit clicks
view-retry d =
    rw
      (
        clicks-append (error_nodes d.validation.error_lines) _,
        error_nodes-clicks,
        clicks-append (failure_nodes d.failures) _,
        failure_nodes-clicks,
      )
      (last_buttons _ d.busy (is_empty (trim d.text)) ∙ retry_sends d)
