-- ===== src/Backend/Batch/Dialog.antt =====
-- The batch-create dialog of frontend/src/components/BatchCreateDialog.tsx with the answer of
-- `batchCreate` of internal/api/batch.go: what the text and the parent hear of the links stored.
use gourl.Common.{
  All, ℕ, suc, ◌+◌, Bool, false, not, if◌then◌else◌, Option, some, List, [], ◌∷◌, ◌++◌, map, Text,
  join, length, ◌≤◌, ◌⊎◌, inl, inr, ◌≡◌, refl, ap, sym, ◌∙◌, arith, Bool-cases, append_assoc,
  append-nil, length-map,
}
use gourl.Api.Types.{BatchCreateResult, BatchCreateResponse, resolved}
use gourl.Api.Endpoints.{Conflict}
use gourl.Backend.Batch.{
  handle_batch, Pending, Store, created_with, insert_result, batch_create, batch_limit, new_link,
}
use gourl.Backend.Items.{CreateRequest, CodeError}
use gourl.Backend.Batch.Order.{report}
use gourl.Backend.Batch.Answers.{pending, batch_create-report}
use gourl.Platform.{Url, ℤ}
use gourl.Platform.Calendar.{Date}
use gourl.Batch.{Item}
use gourl.Batch.Urls.{HasUrl}
use gourl.Backend.Batch.Request.{import_item, received, lenient_items-received, on_create-IsAligned}
use gourl.BatchDialog.{
  on_create, Failure, Dialog, Effect, Request, newline, collect, settle, was_created, summary,
}
use gourl.BatchDialog.Laws.{
  count_created, line_of, collect-kept, collect_counts, count_created-append, summary_counts,
}

-- Of each item in turn, whether a link of its own is stored: it passes the check, and its code is
-- not taken.
unfoldable pub stored :
    (ℕ → CreateRequest → Text ⊎ CodeError) → ℕ → List CreateRequest → List Bool → List Bool
stored check i [] errs = []
stored check i (item ∷ items) errs =
    if item.deleted
    then (let rest = stored check (suc i) items errs in false ∷ rest)
    else elim (check i item) [
      | inr e ↦ false ∷ stored check (suc i) items errs
      | inl code ↦ elim errs [
        | [] ↦ stored check (suc i) items []
        | taken ∷ errs' ↦ not taken ∷ stored check (suc i) items errs'
      ]
    ]

-- The lines without a stored link.
unfoldable pub unstored : List Text → List Bool → List Text
unstored [] bs = []
unstored (line ∷ lines) [] = line ∷ unstored lines []
unstored (line ∷ lines) (b ∷ bs) = let rest = unstored lines bs in if b then rest else line ∷ rest

abbrev creations : List BatchCreateResult → List Bool
creations = map (λ r. was_created (some r))

module _ (check : ℕ → CreateRequest → Text ⊎ CodeError) (update_error : Pending → Option Text) where
  creations-report :
      (i : ℕ) (items : List CreateRequest) (errs : List Bool)
      → creations (report check Conflict.error update_error i items errs)
        ≡ stored check i items errs
  unfolding report stored insert_result
  creations-report i [] errs = refl
  creations-report i (item ∷ items) [] =
      let ih = creations-report (suc i) items [] in ground (arith, ih)
  creations-report i (item ∷ items) (taken ∷ errs) =
      let ih = creations-report (suc i) items (taken ∷ errs) in
      let ih' = creations-report (suc i) items errs in ground (arith, ih, ih')

collect_keeps :
    (lines : List Text) (rs : List BatchCreateResult) (failed : List Failure) (kept : List Text)
    (done : List Effect)
    → (collect lines rs failed kept done).1 ≡ kept ++ unstored lines (creations rs)
unfolding collect unstored
collect_keeps [] rs failed kept done = sym (append-nil kept)
collect_keeps (line ∷ lines) [] failed kept done =
    collect_keeps lines [] _ (kept ++ line ∷ []) done ∙ append_assoc kept (line ∷ []) _
collect_keeps (line ∷ lines) (r ∷ rs) failed kept done = elim (Bool-cases (was_created (some r))) [
  | inl made ↦ rw (made, collect, unstored) (collect_keeps lines rs failed kept _)
  | inr missed ↦
      rw (missed, collect, unstored)
        (collect_keeps lines rs _ (kept ++ line ∷ []) done ∙ append_assoc kept (line ∷ []) _)
]

-- After the answer the text has the lines whose links are not stored, in their order, and every
-- other line has been reported to the parent.
abbrev pub Leaves : Request → List Bool → Dialog → BatchCreateResponse → Type 0
Leaves q made d res =
    let left = unstored q.lines made in
    let (d', effects) = settle q (resolved res) d in
    (d'.text ≡ join (newline ∷ []) left) × (length left + count_created effects ≡ length q.lines)

module _ (check : ℕ → CreateRequest → Text ⊎ CodeError) (store : Store) where
  left_behind :
      (items : List CreateRequest) (errs : List Bool) (q : Request) (d : Dialog)
      (res : BatchCreateResponse)
      → res.results ≡ report check Conflict.error store.update_error 0 items errs
      → Leaves q (stored check 0 items errs) d res
  unfolding settle
  left_behind items errs q d res same_results =
      let left : (collect q.lines res.results [] [] []).1
          ≡ unstored q.lines (stored check 0 items errs) =
        collect_keeps q.lines res.results [] [] []
        ∙ ap (λ rs. unstored q.lines (creations rs)) same_results
        ∙ ap (unstored q.lines) (creations-report check store.update_error 0 items errs) in
      (
        ap (join (newline ∷ [])) left,
        omega (
          arith,
          ap length left,
          ap length (collect-kept q.lines res.results [] [] [] refl),
          length-map line_of (collect q.lines res.results [] [] []).0,
          collect_counts q.lines res.results [] [] [],
          count_created-append (collect q.lines res.results [] [] []).2 (summary res),
          summary_counts res,
        ),
      )

  module _ (parse_url : Text → Option Url) (get_time : Date → ℤ) (as_expiry : Text → Option ℤ) where
    decoded :
        (decode_error : Text) (items : List Item)
        → All HasUrl items
        → handle_batch check store as_expiry decode_error Conflict.error (map import_item items)
          ≡ batch_create check store Conflict.error (map received items)
    unfolding handle_batch
    decoded decode_error items full = cc (lenient_items-received as_expiry items full)

    -- A request of at most 500 items that the create button sends is decoded and answered when the
    -- store has processed the valid items. The dialog then agrees with the store: it has one line
    -- for each item, the lines that stay in its text are, in their order, exactly those whose item
    -- fails its check or meets a taken code, and the parent hears of a new link once for every
    -- other line.
    pub settle-handle_batch :
        (decode_error : Text) (d d' : Dialog) (q : Request) (errs : List Bool)
        → (on_create parse_url get_time d).1 ≡ some q
        → length q.items ≤ batch_limit
        → store.create_links
            (map (new_link store.now) (pending check store Conflict.error (map received q.items)))
          ≡ some errs
        → (length q.items ≡ length q.lines)
          × (res : BatchCreateResponse) × (handle_batch check store as_expiry decode_error
                Conflict.error
                (map import_item q.items)
              ≡ created_with res)
          × Leaves q (stored check 0 (map received q.items) errs) d' res
    settle-handle_batch decode_error d d' q errs sent most answer =
        let (full, aligned, least) = on_create-IsAligned parse_url get_time d q sent in
        let size = length-map received q.items in
        let (y, same_reply, _, _, _, _) =
          batch_create-report check store Conflict.error (map received q.items) errs
            (omega (arith, least, size)) (omega (arith, most, size)) answer in
        (
          aligned,
          _,
          decoded decode_error q.items full ∙ same_reply,
          left_behind (map received q.items) errs q d' _ refl,
        )
