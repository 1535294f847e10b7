-- ===== src/Logs/History.antt =====
-- The pages of the history, put before the live records. The server's `logHistory(limit, offset)`
-- answers with the records of its log, newest first.
use gourl.Common.{
  ℕ, zero, suc, ◌+◌, true, List, [], ◌∷◌, ◌++◌, length, take, drop, ◌≡◌, refl, ap, sym, ◌∙◌, arith,
  append_assoc, append-nil,
}
use gourl.Api.Types.{Outcome, resolved}
use gourl.Logs.{Logs, LogHistory, reversed, more_loaded, on_record}

suc_first : (n m : ℕ) → suc (n + m) ≡ suc n + m
suc_first n m = omega arith

module _ {ℓ} {R : Type ℓ} where
  reversed-append : (xs ys : List R) → reversed (xs ++ ys) ≡ reversed ys ++ reversed xs
  unfolding reversed
  reversed-append [] ys = sym (append-nil (reversed ys))
  reversed-append (x ∷ xs) ys =
      ap (λ r. r ++ x ∷ []) (reversed-append xs ys)
      ∙ append_assoc (reversed ys) (reversed xs) (x ∷ [])

  take_nil : (m : ℕ) → take {A = R} m [] ≡ []
  take_nil zero = refl
  take_nil (suc m) = refl

  take-length : (m : ℕ) (xs : List R) → take m xs ≡ take (length (take m xs)) xs
  take-length zero xs = refl
  take-length (suc m) [] = refl
  take-length (suc m) (x ∷ xs) = ap (λ r. x ∷ r) (take-length m xs)

  take_next :
      (n : ℕ) (xs : List R) (x : R) (rest : List R)
      → drop n xs ≡ x ∷ rest
      → take (suc n) xs ≡ take n xs ++ x ∷ []
  take_next zero [] x rest e = absurd (cc e)
  take_next zero (y ∷ xs) x rest e = cc e
  take_next (suc n) [] x rest e = absurd (cc e)
  take_next (suc n) (y ∷ xs) x rest e = ap (λ r. y ∷ r) (take_next n xs x rest e)

  take_on :
      (n m : ℕ) (xs : List R)
      → take n xs ++ take m (drop n xs) ≡ take (n + length (take m (drop n xs))) xs
  take_on zero m xs = take-length m xs ∙ ap (λ k. take k xs) (omega arith)
  take_on (suc n) m [] = take_nil m ∙ sym (take_nil (suc n + length (take {A = R} m [])))
  take_on (suc n) m (x ∷ xs) =
      ap (λ r. x ∷ r) (take_on n m xs)
      ∙ ap (λ k. take k (x ∷ xs)) (suc_first n (length (take m (drop n xs))))

  -- The answer of the server that has `newest`, its log with the newest record first.
  abbrev pub answer : List R → ℕ → ℕ → Outcome (LogHistory R)
  answer newest limit offset =
      resolved (record { available = true; records = take limit (drop offset newest) })

  -- The page shows the newest `history_offset` records of the log in the order of time.
  abbrev pub ShowsNewest : List R → Logs R → Type ℓ
  ShowsNewest newest y = y.records ≡ reversed (take y.history_offset newest)

  -- As long as no record is logged, each "load more" extends what is shown by the next older
  -- records of the log, without a gap and without a repetition.
  pub more_loaded-ShowsNewest :
      (newest : List R) (y : Logs R)
      → ShowsNewest newest y
      → ShowsNewest newest (more_loaded (answer newest 200 y.history_offset) y).0
  unfolding more_loaded
  more_loaded-ShowsNewest newest y shows =
      ap (λ r. reversed (take 200 (drop y.history_offset newest)) ++ r) shows
      ∙ sym
          (reversed-append (take y.history_offset newest) (take 200 (drop y.history_offset newest)))
      ∙ ap reversed (take_on y.history_offset 200 newest)

  -- A record that is logged before "load more" moves the log's numbers by one: the first record
  -- of the next page, which is the oldest record shown already, is then shown twice.
  pub more_loaded_repeats :
      (newest : List R) (r x : R) (n : ℕ) (rest : List R) (y : Logs R)
      → ShowsNewest newest y
      → y.history_offset ≡ suc n
      → drop n newest ≡ x ∷ rest
      → (more_loaded (answer (r ∷ newest) 200 (suc n)) (on_record r y)).0.records
        ≡ reversed (take 199 rest) ++ (x ∷ x ∷ (reversed (take n newest) ++ r ∷ []))
  unfolding more_loaded on_record reversed
  more_loaded_repeats newest r x n rest y shows at next =
      let older = reversed (take 199 rest) in
      rw (shows, at, next)
        (ap (λ l. (older ++ x ∷ []) ++ (l ++ r ∷ []))
            (ap reversed (take_next n newest x rest next)
              ∙ reversed-append (take n newest) (x ∷ []))
          ∙ append_assoc older (x ∷ []) (x ∷ (reversed (take n newest) ++ r ∷ [])))
