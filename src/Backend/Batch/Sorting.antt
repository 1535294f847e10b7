-- ===== src/Backend/Batch/Sorting.antt =====
-- Sorting the results of internal/api/batch.go by their index.
use gourl.Common.{
  ℕ, suc, ◌≤◌, ◌<◌, leb, List, [], ◌∷◌, ◌++◌, All, inl, inr, ◌≡◌, refl, ap, ◌∙◌, arith, Bool-cases,
}
use gourl.Api.Types.{BatchCreateResult}
use gourl.Backend.Batch.{insert, sort}

-- All results stand at indices from `i` on.
abbrev pub From : ℕ → List BatchCreateResult → Type 0
From i = All (λ r. i ≤ r.index)

From-insert :
    (i : ℕ) (r : BatchCreateResult) (xs : List BatchCreateResult)
    → i ≤ r.index
    → From i xs
    → From i (insert r xs)
unfolding insert
From-insert i r [] h k = (h, tt)
From-insert i r (x ∷ xs) h (k, ks) = elim (Bool-cases (leb r.index x.index)) [
  | inl e ↦ rw (e) (h, (k, ks))
  | inr e ↦ rw (e) (k, From-insert i r xs h ks)
]

pub From-sort : (i : ℕ) (xs : List BatchCreateResult) → From i xs → From i (sort xs)
unfolding sort
From-sort i [] h = tt
From-sort i (x ∷ xs) (k, h) = From-insert i x (sort xs) k (From-sort i xs h)

pub insert_first :
    (r : BatchCreateResult) (xs : List BatchCreateResult) → From r.index xs → insert r xs ≡ r ∷ xs
unfolding insert
insert_first r [] h = refl
insert_first r (x ∷ xs) (k, h) = ground (arith, k)

insert_behind :
    (r x : BatchCreateResult) (xs : List BatchCreateResult)
    → x.index < r.index
    → insert r (x ∷ xs) ≡ x ∷ insert r xs
unfolding insert
insert_behind r x xs h = ground (arith, h)

-- A result that stands before all others comes first, wherever it is in the list.
pub sort_middle :
    (before after : List BatchCreateResult) (r : BatchCreateResult)
    → From (suc r.index) before
    → From r.index after
    → sort (before ++ r ∷ after) ≡ r ∷ sort (before ++ after)
unfolding sort
sort_middle [] after r h k = insert_first r (sort after) (From-sort r.index after k)
sort_middle (x ∷ before) after r (h, hs) k =
    ap (insert x) (sort_middle before after r hs k) ∙ insert_behind x r (sort (before ++ after)) h

pub From-suc : (i : ℕ) (xs : List BatchCreateResult) → From (suc i) xs → From i xs
From-suc i [] h = tt
From-suc i (x ∷ xs) (k, h) = (omega (arith, k), From-suc i xs h)
