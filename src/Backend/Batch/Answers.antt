-- ===== src/Backend/Batch/Answers.antt =====
-- What `batchCreate` of internal/api/batch.go answers, against one walk over the items.
use gourl.Common.{ℕ, Bool, some, List, map, Text, length, ◌≤◌, ◌⊎◌, ◌≡◌, ap, ◌∙◌, arith, ◌++◌}
use gourl.Api.Types.{
  BatchStatus, BatchCreateResult, BatchCreateResponse, created, updated, skipped, error,
}
use gourl.Api.Endpoints.{Conflict}
use gourl.Backend.Batch.{
  Pending, Tally, no_tally, check_all, insert_results, sort, Reply, created_with, response, Store,
  new_link, insert_all, batch_create, batch_limit,
}
use gourl.Backend.Items.{CreateRequest, CodeError}
use gourl.Backend.Batch.Order.{report, sorted}
use gourl.Backend.Batch.Counts.{
  counter, number, number_append, number-sort, counter-check_all, counter-insert_results,
}

counter-no_tally : (s : BatchStatus) → counter s no_tally ≡ 0
counter-no_tally s = ground arith

-- An answer with these results, in this order, whose counters are the numbers of the results.
abbrev pub Reports : Reply BatchCreateResponse → List BatchCreateResult → Type 0
Reports reply results =
    (y : Tally) × (reply ≡ created_with (response results y))
    × (y.created ≡ number created results)
    × (y.updated ≡ number updated results)
    × (y.skipped ≡ number skipped results)
    × (y.failed ≡ number error results)

module _ (check : ℕ → CreateRequest → Text ⊎ CodeError) (store : Store) (conflict : Conflict) where
  -- The items that the store is asked to insert.
  abbrev pub pending : List CreateRequest → List Pending
  pending items = (check_all check 0 items no_tally).1

  module _ (items : List CreateRequest) (errs : List Bool) where
    small :
        1 ≤ length items
        → length items ≤ batch_limit
        → batch_create check store conflict items
          ≡ insert_all check store conflict (check_all check 0 items no_tally)
    unfolding batch_create
    small least most = ground (arith, least, most)

    answered :
        store.create_links (map (new_link store.now) (pending items)) ≡ some errs
        → insert_all check store conflict (check_all check 0 items no_tally)
          ≡ let (results, valid, y) = check_all check 0 items no_tally in
            let (more, y') = insert_results conflict store.update_error valid errs y in
            created_with (response (sort (results ++ more)) y')
    answered answer = cc

    in_order :
        (z : Tally)
        → let (results, valid, y) = check_all check 0 items no_tally in
          sort (results ++ (insert_results conflict store.update_error valid errs z).0)
          ≡ report check conflict store.update_error 0 items errs
    in_order z =
        let (low, low', all_same) =
          sorted check conflict store.update_error 0 items errs no_tally z in
        all_same

    counted :
        (s : BatchStatus)
        → let (results, valid, y) = check_all check 0 items no_tally in
          let (more, y') = insert_results conflict store.update_error valid errs y in
          counter s y' ≡ number s (report check conflict store.update_error 0 items errs)
    counted s =
        let (results, valid, y) = check_all check 0 items no_tally in
        let more = (insert_results conflict store.update_error valid errs y).0 in
        omega (
          arith,
          counter-insert_results conflict store.update_error s valid errs y,
          counter-check_all check s 0 items no_tally,
          counter-no_tally s,
          number_append s results more,
          number-sort s (results ++ more),
          ap (number s) (in_order y),
        )

    -- A request of 1 to 500 items whose valid links the store has processed is answered, and the
    -- answer reports on every item in the order of the request, as one walk over the items does:
    -- a deleted item is skipped, one that fails its check is an error, and every other one is what
    -- the next answer of the store makes of it. The four counters are the numbers of results of
    -- their status.
    pub batch_create-report :
        1 ≤ length items
        → length items ≤ batch_limit
        → store.create_links (map (new_link store.now) (pending items)) ≡ some errs
        → Reports
            (batch_create check store conflict items)
            (report check conflict store.update_error 0 items errs)
    unfolding batch_create
    batch_create-report least most answer =
        let y = (check_all check 0 items no_tally).2 in
        let y' = (insert_results conflict store.update_error (pending items) errs y).1 in
        (
          y',
          small least most
              ∙ answered answer
              ∙ ap (λ rs. created_with (response rs y')) (in_order y),
          counted created,
          counted updated,
          counted skipped,
          counted error,
        )
