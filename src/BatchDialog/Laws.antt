-- ===== src/BatchDialog/Laws.antt =====
-- What the dialog sends, and what is left of the text when the answer is in.
use gourl.Common.{
  ℕ, suc, ◌+◌, false, ltb, Option, none, some, List, [], ◌∷◌, ◌++◌, Text, ◌≡◌, refl, arith, join,
  length, map, length-append, Bool-cases, inl, inr, if◌then◌else◌, ◌||◌, sym, ap,
}
use mathlib.Core.List.{map-append}
use gourl.Platform.{Url, ℤ}
use gourl.Platform.Calendar.{Date}
use gourl.Api.Types.{BatchCreateResult, BatchCreateResponse, resolved}
use gourl.BatchDialog.{
  Failure, Dialog, Effect, on_created, on_close, toast, Request, newline, validate, submit, collect,
  settle, on_create, was_created, head_result, tail_results, failure_message, summary,
}

abbrev pub line_of : Failure → Text
line_of f = f.line

-- How often the dialog tells its parent that a link was created.
abbrev pub count_created : List Effect → ℕ
count_created [] = 0
count_created (on_created ∷ es) = suc (count_created es)
count_created (on_close ∷ es) = count_created es
count_created (toast m k ∷ es) = count_created es

pub count_created-append :
    (es fs : List Effect) → count_created (es ++ fs) ≡ count_created es + count_created fs
count_created-append [] fs = omega arith
count_created-append (on_created ∷ es) fs = omega (arith, count_created-append es fs)
count_created-append (on_close ∷ es) fs = count_created-append es fs
count_created-append (toast m k ∷ es) fs = count_created-append es fs

pub collect-kept :
    (lines : List Text) (rs : List BatchCreateResult) (failed : List Failure) (kept : List Text)
    (done : List Effect)
    → map line_of failed ≡ kept
    → map line_of (collect lines rs failed kept done).0 ≡ (collect lines rs failed kept done).1
unfolding collect
collect-kept [] rs failed kept done h = h
collect-kept (line ∷ lines) rs failed kept done h =
    elim (Bool-cases (was_created (head_result rs))) [
      | inl made ↦ rw (made, collect) (collect-kept lines (tail_results rs) failed kept _ h)
      | inr missed ↦
          rw (missed, collect)
            (collect-kept lines (tail_results rs) _ _ done
              (rw map-append (ap (λ ks. ks ++ line ∷ []) h)))
    ]

pub collect_counts :
    (lines : List Text) (rs : List BatchCreateResult) (failed : List Failure) (kept : List Text)
    (done : List Effect)
    → length (collect lines rs failed kept done).0
        + count_created (collect lines rs failed kept done).2
      ≡ length failed + count_created done + length lines
unfolding collect
collect_counts [] rs failed kept done = omega arith
collect_counts (line ∷ lines) rs failed kept done =
    elim (Bool-cases (was_created (head_result rs))) [
      | inl made ↦
          rw (made, collect)
            (omega (
              arith,
              collect_counts lines (tail_results rs) failed kept (done ++ on_created ∷ []),
              count_created-append done (on_created ∷ []),
            ))
      | inr missed ↦
          let more =
            failed ++ record { line = line; reason = failure_message (head_result rs) } ∷ [] in
          rw (missed, collect)
            (omega (
              arith,
              collect_counts lines (tail_results rs) more (kept ++ line ∷ []) done,
              length-append {0} failed,
            ))
    ]

pub summary_counts : (res : BatchCreateResponse) → count_created (summary res) ≡ 0
summary_counts res = ground arith

-- An answered request leaves in the text exactly the lines of its failures, reports every other
-- line as created, and ends the busy state: failures and reports add up to the lines sent.
settle_splits :
    (q : Request) (res : BatchCreateResponse) (d : Dialog)
    → ((settle q (resolved res) d).0.text
        ≡ join (newline ∷ []) (map line_of (settle q (resolved res) d).0.failures))
      × (length (settle q (resolved res) d).0.failures + count_created (settle q (resolved res) d).1
          ≡ length q.lines)
      × ((settle q (resolved res) d).0.busy ≡ false)
unfolding settle
settle_splits q res d = (
  ap (join (newline ∷ [])) (sym (collect-kept q.lines res.results [] [] [] refl)),
  omega (
    arith,
    collect_counts q.lines res.results [] [] [],
    count_created-append (collect q.lines res.results [] [] []).2 (summary res),
    summary_counts res,
  ),
  refl,
)

module _ (parse_url : Text → Option Url) (get_time : Date → ℤ) where
  -- The create button sends a request exactly when the dialog is idle, no line is flagged and
  -- there is an item; the request holds what the validation found, and nothing is sent otherwise.
  pub on_create_sends :
      (d : Dialog)
      → (on_create parse_url get_time d).1 ≡ (
          if ltb 0 (length (validate parse_url get_time d.text).error_lines)
            || ltb (length (validate parse_url get_time d.text).items) 1
            || d.busy
          then none
          else some (record {
            lines = (validate parse_url get_time d.text).valid_lines;
            items = (validate parse_url get_time d.text).items;
          }))
  unfolding on_create submit
  on_create_sends d = ground arith
