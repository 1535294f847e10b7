-- ===== src/Batch/Brackets.antt =====
-- Brackets and white space of one line: what the helpers of the line parser return on a text
-- of the expected shape.
use gourl.Common.{
  ℕ, suc, ◌-◌, false, ◌≡◌, ◌≢◌, refl, ap, some, arith, [], ◌∷◌, ◌++◌, Text, Lacks, ==_iff, length,
  drop, take_all, index_of, trim, trim_start, trim_end, keep_front, is_space, starts_with,
}
use gourl.Batch.{bracket, found, absent}

index_of_first : (b : ℕ) (xs ys : Text) → Lacks b xs → index_of b (xs ++ b ∷ ys) ≡ some (length xs)
unfolding index_of
index_of_first b [] ys h = ground (arith, ==_iff b b)
index_of_first b (x ∷ xs) ys (ne, h) = rw (index_of_first b xs ys h) (ground (arith, ==_iff x b))

drop_past : (b : ℕ) (xs ys : Text) → drop (suc (length xs)) (xs ++ b ∷ ys) ≡ ys
drop_past b [] ys = refl
drop_past b (x ∷ xs) ys = drop_past b xs ys

-- A bracket pair at the front gives its trimmed content and what follows.
pub bracket_at :
    (opening closing : ℕ) (content rest : Text)
    → opening ≢ closing
    → Lacks closing content
    → bracket opening closing (opening ∷ (content ++ closing ∷ rest)) ≡ found (trim content) rest
unfolding bracket starts_with
bracket_at opening closing content rest ne h =
    let inside : suc (length content) - 1 ≡ length content = omega arith in
    rw
      (
        index_of_first closing (opening ∷ content) rest (ne, h),
        (==_iff opening opening).1 refl,
        inside,
        take_all,
        drop_past,
      )
      refl

pub bracket_absent :
    (opening closing c : ℕ) (rest : Text)
    → c ≢ opening
    → bracket opening closing (c ∷ rest) ≡ absent
unfolding bracket starts_with
bracket_absent opening closing c rest ne = ground (arith, ==_iff c opening)

pub trim_end-append :
    (xs : Text) (c : ℕ) (u : Text) → trim_end (c ∷ u) ≡ c ∷ u → trim_end (xs ++ c ∷ u) ≡ xs ++ c ∷ u
unfolding trim_end
trim_end-append [] c u h = h
trim_end-append (x ∷ []) c u h = ap (keep_front x) h
trim_end-append (x ∷ y ∷ xs) c u h = ap (keep_front x) (trim_end-append (y ∷ xs) c u h)

-- A text that starts and ends without a space is its own trim.
pub trim_plain :
    (x : ℕ) (xs : Text) (c : ℕ) (u : Text)
    → is_space x ≡ false
    → trim_end (c ∷ u) ≡ c ∷ u
    → trim (x ∷ (xs ++ c ∷ u)) ≡ x ∷ (xs ++ c ∷ u)
unfolding trim trim_start
trim_plain x xs c u h k = rw h (trim_end-append (x ∷ xs) c u k)
