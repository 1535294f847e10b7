-- ===== src/Backend/Batch/Counts.antt =====
-- The counters of the answer of internal/api/batch.go.
use gourl.Common.{
  ℕ, suc, ◌+◌, Bool, Option, List, [], ◌∷◌, ◌++◌, Text, ◌⊎◌, ◌≡◌, refl, ap, ◌∙◌, arith,
}
use gourl.Api.Types.{BatchStatus, BatchCreateResult, created, updated, skipped, error}
use gourl.Api.Endpoints.{Conflict}
use gourl.Backend.Batch.{
  Pending, Tally, count_failed, count_skipped, check_all, insert_result, insert_results, insert,
  sort,
}
use gourl.Backend.Items.{CreateRequest, CodeError}

abbrev pub counter : BatchStatus → Tally → ℕ
counter created y = y.created
counter updated y = y.updated
counter skipped y = y.skipped
counter error y = y.failed

abbrev one_of : BatchStatus → BatchStatus → ℕ
one_of created created = 1
one_of updated updated = 1
one_of skipped skipped = 1
one_of error error = 1
one_of s t = 0

unfoldable pub number : BatchStatus → List BatchCreateResult → ℕ
number s [] = 0
number s (r ∷ rs) = one_of s r.status + number s rs

pub number_append :
    (s : BatchStatus) (xs ys : List BatchCreateResult)
    → number s (xs ++ ys) ≡ number s xs + number s ys
unfolding number
number_append s [] ys = omega arith
number_append s (x ∷ xs) ys = let ih = number_append s xs ys in omega (arith, ih)

number-insert :
    (s : BatchStatus) (r : BatchCreateResult) (xs : List BatchCreateResult)
    → number s (insert r xs) ≡ one_of s r.status + number s xs
unfolding number insert
number-insert s r [] = refl
number-insert s r (x ∷ xs) = let ih = number-insert s r xs in ground (arith, ih)

pub number-sort : (s : BatchStatus) (xs : List BatchCreateResult) → number s (sort xs) ≡ number s xs
unfolding number sort
number-sort s [] = refl
number-sort s (x ∷ xs) =
    number-insert s x (sort xs) ∙ ap (λ n. one_of s x.status + n) (number-sort s xs)

counter-count_skipped :
    (s : BatchStatus) (code : Text) (y : Tally)
    → counter s (count_skipped code y) ≡ counter s y + one_of s skipped
counter-count_skipped s code y = ground arith

counter-count_failed :
    (s : BatchStatus) (code : Text) (y : Tally)
    → counter s (count_failed code y) ≡ counter s y + one_of s error
counter-count_failed s code y = ground arith

module _ (check : ℕ → CreateRequest → Text ⊎ CodeError) where
  pub counter-check_all :
      (s : BatchStatus) (i : ℕ) (items : List CreateRequest) (y : Tally)
      → let (results, valid, y') = check_all check i items y in
        counter s y' ≡ counter s y + number s results
  unfolding check_all number
  counter-check_all s i [] y = omega arith
  counter-check_all s i (item ∷ items) y =
      let skip = counter-check_all s (suc i) items (count_skipped item.code y) in
      let skip' = counter-count_skipped s item.code y in
      let fail' = counter-count_failed s item.code y in
      let fail = counter-check_all s (suc i) items (count_failed item.code y) in
      let go = counter-check_all s (suc i) items y in ground (arith, skip, fail, go, skip', fail')

module _ (conflict : Conflict) (update_error : Pending → Option Text) where
  counter-insert_result :
      (s : BatchStatus) (p : Pending) (taken : Bool) (y : Tally)
      → let (r, y') = insert_result conflict update_error p taken y in
        counter s y' ≡ counter s y + one_of s r.status
  unfolding insert_result
  counter-insert_result s p taken y = ground arith

  pub counter-insert_results :
      (s : BatchStatus) (valid : List Pending) (errs : List Bool) (y : Tally)
      → let (rs, y') = insert_results conflict update_error valid errs y in
        counter s y' ≡ counter s y + number s rs
  unfolding insert_results number
  counter-insert_results s [] errs y = omega arith
  counter-insert_results s (p ∷ valid) [] y = omega arith
  counter-insert_results s (p ∷ valid) (taken ∷ errs) y =
      let (r, y') = insert_result conflict update_error p taken y in
      let one = counter-insert_result s p taken y in
      let rest =
        counter-insert_results s valid errs (insert_result conflict update_error p taken y).1 in
      omega (arith, one, rest)
