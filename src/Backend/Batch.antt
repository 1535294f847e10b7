-- ===== src/Backend/Batch.antt =====
-- `batchCreate` of internal/api/batch.go, from the decoded items to the answer. The libraries of
-- Go, the random bytes and the database are parameters: what they say of an item, and what
-- `CreateLinks` and `applyConflictUpdate` of the store answer. `Conflict` holds the policies that
-- the handler lets pass; the log and the fetching of titles in the background are left out.
pub mod Sorting
pub mod Order
pub mod Counts
pub mod Answers
pub mod Request
pub mod Dialog
pub mod Accepted
use Prim.Native.String.{String}
use gourl.Common.{
  ℕ, zero, suc, ◌+◌, Bool, true, false, ◌&&◌, ◌||◌, not, ltb, leb, if◌then◌else◌, Option, none,
  some, List, [], ◌∷◌, ◌++◌, map, Text, codes, same, is_empty, length, or_else, ◌⊎◌, inl, inr,
}
use gourl.Platform.{ℤ, pos, negsuc}
use gourl.Api.Types.{
  AppConfig, BatchStatus, BatchCreateResult, BatchCreateResponse, created, updated, skipped, error,
  ImportItem, Expiry, unix, date_text,
}
use gourl.Api.Endpoints.{Conflict}
use gourl.Backend.Targets.{GoLibrary, Origin, is_absolute_url, self_link_target, self_root_target}
use gourl.Backend.Items.{CreateRequest, lenient_items, CodeError}
use gourl.Backend.Codes.{Fault, validate, random, is_reserved, slash}

abbrev pub batch_limit : ℕ
batch_limit = 500

-- A valid item with its place in the request and its code.
pub record Pending : Type 0 where
  pub index : ℕ
  pub item : CreateRequest
  pub code : Text

-- The counters and lists that the answer reports.
pub record Tally : Type 0 where
  pub created : ℕ
  pub failed : ℕ
  pub skipped : ℕ
  pub updated : ℕ
  pub failed_codes : List Text
  pub skipped_codes : List Text
  pub updated_codes : List Text

abbrev pub no_tally : Tally
no_tally = record {
  created = 0;
  failed = 0;
  skipped = 0;
  updated = 0;
  failed_codes = [];
  skipped_codes = [];
  updated_codes = [];
}

abbrev pub count_failed : Text → Tally → Tally
count_failed code y = record y { failed = suc y.failed; failed_codes = y.failed_codes ++ code ∷ [] }

abbrev pub count_skipped : Text → Tally → Tally
count_skipped code y = record y {
  skipped = suc y.skipped;
  skipped_codes = y.skipped_codes ++ code ∷ [];
}

abbrev pub count_updated : Text → Tally → Tally
count_updated code y = record y {
  updated = suc y.updated;
  updated_codes = y.updated_codes ++ code ∷ [];
}

abbrev pub done_result : ℕ → Text → BatchStatus → Text → BatchCreateResult
done_result index url status code = record {
  index = index;
  url = url;
  status = status;
  code = some code;
  error_code = none;
  error_message = none;
}

abbrev pub error_result : ℕ → Text → CodeError → BatchCreateResult
error_result index url e = record {
  index = index;
  url = url;
  status = error;
  code = none;
  error_code = some e.code;
  error_message = some e.message;
}

-- The loop over the items, from the index on: results, the valid items, and the counters.
module _ (check : ℕ → CreateRequest → Text ⊎ CodeError) where
  unfoldable pub check_all :
      ℕ → List CreateRequest → Tally → List BatchCreateResult × List Pending × Tally
  check_all i [] y = ([], [], y)
  check_all i (item ∷ items) y =
      if item.deleted
      then (let (results, valid, y') = check_all (suc i) items (count_skipped item.code y) in
          (done_result i item.url skipped item.code ∷ results, valid, y'))
      else elim (check i item) [
        | inr e ↦
            let (results, valid, y') = check_all (suc i) items (count_failed item.code y) in
            (error_result i item.url e ∷ results, valid, y')
        | inl code ↦
            let (results, valid, y') = check_all (suc i) items y in
            (results, record { index = i; item = item; code = code } ∷ valid, y')
      ]

-- The row that `CreateLinks` inserts.
pub record NewLink : Type 0 where
  pub code : Text
  pub url : Text
  pub title : Text
  pub description : Text
  pub expires_at : ℤ
  pub created_at : ℤ
  pub updated_at : ℤ

unfoldable pub new_link : ℤ → Pending → NewLink
new_link now p = record {
  code = p.code;
  url = p.item.url;
  title = p.item.title;
  description = p.item.description;
  expires_at = or_else p.item.expires_at (pos 0);
  created_at = or_else p.item.created_at now;
  updated_at = now;
}

-- The cases of the switch in the second loop. `taken` is whether the insertion met `ErrTaken`, and
-- `update_error` is what `applyConflictUpdate` fails with.
module _ (conflict : Conflict) (update_error : Pending → Option Text) where
  abbrev failed_update : Pending → Text → BatchCreateResult
  failed_update p message =
      error_result p.index p.item.url (record { code = codes "internal_error"; message = message })

  abbrev code_taken : CodeError
  code_taken = record { code = codes "code_taken"; message = codes "code is already in use" }

  abbrev on_taken : Conflict → Pending → Tally → BatchCreateResult × Tally
  on_taken Conflict.update p y = elim (update_error p) [
    | some message ↦ (failed_update p message, count_failed p.code y)
    | none ↦ (done_result p.index p.item.url updated p.code, count_updated p.code y)
  ]
  on_taken Conflict.skip p y =
      (done_result p.index p.item.url skipped p.code, count_skipped p.code y)
  on_taken Conflict.error p y = (error_result p.index p.item.url code_taken, count_failed p.code y)

  unfoldable pub insert_result : Pending → Bool → Tally → BatchCreateResult × Tally
  insert_result p taken y =
      if taken
      then on_taken conflict p y
      else (done_result p.index p.item.url created p.code, record y { created = suc y.created })

  unfoldable pub insert_results : List Pending → List Bool → Tally → List BatchCreateResult × Tally
  insert_results [] errs y = ([], y)
  insert_results (p ∷ valid) [] y = ([], y)
  insert_results (p ∷ valid) (taken ∷ errs) y =
      let (r, y') = insert_result p taken y in
      let (rs, y'') = insert_results valid errs y' in (r ∷ rs, y'')

-- `sort.SliceStable` by the index, as an insertion sort.
unfoldable pub insert : BatchCreateResult → List BatchCreateResult → List BatchCreateResult
insert r [] = r ∷ []
insert r (x ∷ xs) = if leb r.index x.index then r ∷ x ∷ xs else x ∷ insert r xs

unfoldable pub sort : List BatchCreateResult → List BatchCreateResult
sort [] = []
sort (r ∷ rs) = insert r (sort rs)

-- The answer of the handler, or the status and the code of its error.
pub data Reply (A : Type 0) : Type 0 where
  created_with : A → Reply A
  write_error : ℕ → Text → Text → Reply A

abbrev refuse : {A : Type 0} → ℕ → String → String → Reply A
refuse status code message = write_error status (codes code) (codes message)

abbrev pub response : List BatchCreateResult → Tally → BatchCreateResponse
response results y = record {
  created = y.created;
  failed = y.failed;
  succeeded = y.created;
  skipped = y.skipped;
  updated = y.updated;
  failed_codes = y.failed_codes;
  skipped_codes = y.skipped_codes;
  updated_codes = y.updated_codes;
  results = results;
}

-- What the handler is given by the rest of the server.
pub record Store : Type 0 where
  pub now : ℤ
  pub create_links : List NewLink → Option (List Bool)
  pub update_error : Pending → Option Text

module _ (check : ℕ → CreateRequest → Text ⊎ CodeError) (store : Store) where
  -- From the checked items to the answer.
  abbrev pub insert_all :
      Conflict → List BatchCreateResult × List Pending × Tally → Reply BatchCreateResponse
  insert_all conflict (results, valid, y) =
      elim (store.create_links (map (new_link store.now) valid)) [
        | none ↦ refuse 500 "internal_error" "failed to create links"
        | some errs ↦
            let (more, y') = insert_results conflict store.update_error valid errs y in
            created_with (response (sort (results ++ more)) y')
      ]

  unfoldable pub batch_create : Conflict → List CreateRequest → Reply BatchCreateResponse
  batch_create conflict items =
      if ltb (length items) 1
      then refuse 400 "invalid_request" "batch must not be empty"
      else if ltb batch_limit (length items)
      then refuse 400 "invalid_request" "batch exceeds 500 items"
      else insert_all conflict (check_all check 0 items no_tally)

  -- The whole handler, from the items of the body; `decode_error` is what the decoder says of them.
  unfoldable pub handle_batch :
      (Text → Option ℤ) → Text → Conflict → List ImportItem → Reply BatchCreateResponse
  handle_batch as_expiry decode_error conflict items = elim (lenient_items as_expiry items) [
    | none ↦ write_error 400 (codes "invalid_request") decode_error
    | some read ↦ batch_create conflict read
  ]
