-- ===== src/Backend/Batch/Order.antt =====
-- The order of the answer of internal/api/batch.go: `batchCreate` collects the refused items first
-- and the others behind them, then sorts by the index. `report` is one walk over the items.
use mathlib.Core.Path.{subst}
use gourl.Common.{
  ℕ, suc, ◌≤◌, Bool, true, false, if◌then◌else◌, Option, List, [], ◌∷◌, ◌++◌, Text, All-append, ◌⊎◌,
  inl, inr, ◌≡◌, refl, ap, sym, ◌∙◌, arith, Bool-cases,
}
use gourl.Api.Types.{BatchCreateResult, skipped}
use gourl.Api.Endpoints.{Conflict}
use gourl.Backend.Batch.Sorting.{From, From-sort, insert_first, sort_middle, From-suc}
use gourl.Backend.Batch.{
  Pending, Tally, done_result, error_result, count_failed, count_skipped, check_all, insert_result,
  insert_results, sort,
}
use gourl.Backend.Items.{CreateRequest, CodeError}

-- What happens to the items, in their order: each takes an answer of the store where it is valid.
module _ (check : ℕ → CreateRequest → Text ⊎ CodeError) (conflict : Conflict)
    (update_error : Pending → Option Text) where
  abbrev no_counts : Tally
  no_counts = record {
    created = 0;
    failed = 0;
    skipped = 0;
    updated = 0;
    failed_codes = [];
    skipped_codes = [];
    updated_codes = [];
  }

  unfoldable pub report : ℕ → List CreateRequest → List Bool → List BatchCreateResult
  report i [] errs = []
  report i (item ∷ items) errs =
      if item.deleted
      then (let rest = report (suc i) items errs in done_result i item.url skipped item.code ∷ rest)
      else elim (check i item) [
        | inr e ↦ error_result i item.url e ∷ report (suc i) items errs
        | inl code ↦ elim errs [
          | [] ↦ report (suc i) items []
          | taken ∷ errs' ↦
              let p : Pending = record { index = i; item = item; code = code } in
              (insert_result conflict update_error p taken no_counts).0 ∷ report (suc i) items errs'
        ]
      ]

pub Sum-cases {ℓ} : {A B : Type ℓ} (s : A ⊎ B) → ((a : A) × (s ≡ inl a)) ⊎ ((b : B) × (s ≡ inr b))
Sum-cases (inl a) = inl (a, refl)
Sum-cases (inr b) = inr (b, refl)

module _ (check : ℕ → CreateRequest → Text ⊎ CodeError) (conflict : Conflict)
    (update_error : Pending → Option Text) where
  abbrev refused_of : ℕ → List CreateRequest → Tally → List BatchCreateResult
  refused_of i items y = (check_all check i items y).0

  abbrev inserted_of : ℕ → List CreateRequest → Tally → List Bool → Tally → List BatchCreateResult
  inserted_of i items y errs z =
      (insert_results conflict update_error (check_all check i items y).1 errs z).0

  module _ (i : ℕ) (item : CreateRequest) (items : List CreateRequest) where
    check_deleted :
        (y : Tally)
        → item.deleted ≡ true
        → check_all check i (item ∷ items) y
          ≡ let (results, valid, y') = check_all check (suc i) items (count_skipped item.code y) in
            (done_result i item.url skipped item.code ∷ results, valid, y')
    unfolding check_all
    check_deleted y d = simp d refl

    check_refused :
        (y : Tally) (e : CodeError)
        → item.deleted ≡ false
        → check i item ≡ inr e
        → check_all check i (item ∷ items) y
          ≡ let (results, valid, y') = check_all check (suc i) items (count_failed item.code y) in
            (error_result i item.url e ∷ results, valid, y')
    unfolding check_all
    check_refused y e d k = simp (d, k) refl

    check_valid :
        (y : Tally) (code : Text)
        → item.deleted ≡ false
        → check i item ≡ inl code
        → check_all check i (item ∷ items) y
          ≡ let (results, valid, y') = check_all check (suc i) items y in
            (results, record { index = i; item = item; code = code } ∷ valid, y')
    unfolding check_all
    check_valid y code d k = simp (d, k) refl

  insert_result-index :
      (p : Pending) (taken : Bool) (z : Tally)
      → (insert_result conflict update_error p taken z).0.index ≡ p.index
  unfolding insert_result
  insert_result-index p taken z = ground arith

  no_answers :
      (valid : List Pending) (z : Tally) → insert_results conflict update_error valid [] z ≡ ([], z)
  unfolding insert_results
  no_answers [] z = refl
  no_answers (p ∷ valid) z = refl

  insert_result_keeps :
      (p : Pending) (taken : Bool) (z z' : Tally)
      → (insert_result conflict update_error p taken z).0
        ≡ (insert_result conflict update_error p taken z').0
  unfolding insert_result
  insert_result_keeps p taken z z' = ground arith

  module _ (i : ℕ) (item : CreateRequest) (items : List CreateRequest) where
    abbrev next_report : List Bool → List BatchCreateResult
    next_report errs = report check conflict update_error (suc i) items errs

    report_deleted :
        (errs : List Bool)
        → item.deleted ≡ true
        → report check conflict update_error i (item ∷ items) errs
          ≡ done_result i item.url skipped item.code ∷ next_report errs
    unfolding report
    report_deleted errs d = simp d refl

    report_refused :
        (errs : List Bool) (e : CodeError)
        → item.deleted ≡ false
        → check i item ≡ inr e
        → report check conflict update_error i (item ∷ items) errs
          ≡ error_result i item.url e ∷ next_report errs
    unfolding report
    report_refused errs e d k = simp (d, k) refl

    report_unanswered :
        (code : Text)
        → item.deleted ≡ false
        → check i item ≡ inl code
        → report check conflict update_error i (item ∷ items) [] ≡ next_report []
    unfolding report
    report_unanswered code d k = simp (d, k) refl

    report_answered :
        (code : Text) (taken : Bool) (errs : List Bool)
        → item.deleted ≡ false
        → check i item ≡ inl code
        → report check conflict update_error i (item ∷ items) (taken ∷ errs)
          ≡ (insert_result conflict update_error
              (record { index = i; item = item; code = code })
              taken
              (no_counts check conflict update_error)).0
            ∷ next_report errs
    unfolding report
    report_answered code taken errs d k = simp (d, k) refl

  -- What is shown of the outcome of the first loop: all results stand at indices from `i` on, and
  -- sorted they are the report.
  abbrev pub Fits :
      ℕ → List CreateRequest → List Bool → List BatchCreateResult × List Pending × Tally → Type 0
  Fits i items errs (results, valid, y) =
      (z : Tally)
      → From i results
        × From i (insert_results conflict update_error valid errs z).0
        × (sort (results ++ (insert_results conflict update_error valid errs z).0)
            ≡ report check conflict update_error i items errs)

  abbrev pub Sorted : ℕ → List CreateRequest → Type 0
  Sorted i items = (errs : List Bool) (y : Tally) → Fits i items errs (check_all check i items y)

  -- A result of index `i` goes in front of those behind it.
  sorted_front :
      (i : ℕ) (items items' : List CreateRequest) (errs : List Bool) (r : BatchCreateResult)
      (c : List BatchCreateResult × List Pending × Tally)
      → r.index ≡ i
      → report check conflict update_error i items' errs
        ≡ r ∷ report check conflict update_error (suc i) items errs
      → Fits (suc i) items errs c
      → Fits i items' errs (r ∷ c.0, c.1, c.2)
  unfolding sort
  sorted_front i items items' errs r (results, valid, y) at e ih z =
      let (low, low', same) = ih z in
      let rest = results ++ (insert_results conflict update_error valid errs z).0 in
      let all : From r.index (sort rest) = From-sort r.index rest (
        rw (at) (All-append (λ x. i ≤ x.index) results _ (From-suc i _ low) (From-suc i _ low'))) in
      (
        (omega (arith, at), From-suc i _ low),
        From-suc i _ low',
        insert_first r (sort rest) all ∙ ap (λ rs. r ∷ rs) same ∙ sym e,
      )

  sorted_valid :
      (i : ℕ) (item : CreateRequest) (items items' : List CreateRequest) (code : Text)
      (errs : List Bool) (c : List BatchCreateResult × List Pending × Tally)
      → report check conflict update_error i items' []
        ≡ report check conflict update_error (suc i) items []
      → ((taken : Bool) (errs' : List Bool)
          → report check conflict update_error i items' (taken ∷ errs')
            ≡ (insert_result conflict update_error
                (record { index = i; item = item; code = code })
                taken
                (no_counts check conflict update_error)).0
              ∷ report check conflict update_error (suc i) items errs')
      → ((errs' : List Bool) → Fits (suc i) items errs' c)
      → Fits i items' errs (c.0, record { index = i; item = item; code = code } ∷ c.1, c.2)
  unfolding insert_results
  sorted_valid i item items items' code [] (results, valid, y) e f ih z =
      let (low, low', all_same) = ih [] z in
      (
        From-suc i results low,
        tt,
        ap (λ q. sort (results ++ q.0)) (sym (no_answers valid z)) ∙ all_same ∙ sym e,
      )
  sorted_valid i item items items' code (taken ∷ errs) (results, valid, y) e f ih z =
      let p : Pending = record { index = i; item = item; code = code } in
      let r = (insert_result conflict update_error p taken z).0 in
      let z' = (insert_result conflict update_error p taken z).1 in
      let after = (insert_results conflict update_error valid errs z').0 in
      let (low, low', all_same) = ih errs z' in
      let at : r.index ≡ i = insert_result-index p taken z in
      (
        From-suc i results low,
        (omega (arith, at), From-suc i after low'),
        sort_middle results after r (rw (at) low) (rw (at) (From-suc i after low'))
            ∙ ap (λ rs. r ∷ rs) all_same
            ∙ ap (λ x. x ∷ report check conflict update_error (suc i) items errs)
                (insert_result_keeps p taken z (no_counts check conflict update_error))
            ∙ sym (f taken errs),
      )

  pub sorted : (i : ℕ) (items : List CreateRequest) → Sorted i items
  unfolding check_all report insert_results sort
  sorted i [] [] y = λ z. (tt, tt, refl)
  sorted i [] (taken ∷ errs) y = λ z. (tt, tt, refl)
  sorted i (item ∷ items) errs y = elim (Bool-cases item.deleted) [
    | inl d ↦
        subst (λ c. Fits i (item ∷ items) errs c) (sym (check_deleted i item items y d))
          (sorted_front i items (item ∷ items) errs (done_result i item.url skipped item.code)
            (check_all check (suc i) items (count_skipped item.code y)) refl
            (report_deleted i item items errs d)
            (sorted (suc i) items errs (count_skipped item.code y)))
    | inr d ↦ elim (Sum-cases (check i item)) [
      | inr (e, k) ↦
          subst (λ c. Fits i (item ∷ items) errs c) (sym (check_refused i item items y e d k))
            (sorted_front i items (item ∷ items) errs (error_result i item.url e)
              (check_all check (suc i) items (count_failed item.code y)) refl
              (report_refused i item items errs e d k)
              (sorted (suc i) items errs (count_failed item.code y)))
      | inl (code, k) ↦
          subst (λ c. Fits i (item ∷ items) errs c) (sym (check_valid i item items y code d k))
            (sorted_valid i item items (item ∷ items) code errs (check_all check (suc i) items y)
              (report_unanswered i item items code d k)
              (λ taken errs'. report_answered i item items code taken errs' d k)
              (λ errs'. sorted (suc i) items errs' y))
    ]
  ]
