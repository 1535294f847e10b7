-- ===== src/Device/Base64.antt =====
-- `utf8ToBase64` and `blobToBase64` of frontend/src/lib/download.ts. The encoder of UTF-8 and
-- `btoa` are the browser's.
use gourl.Common.{
  ℕ, zero, suc, ◌+◌, ◌≤◌, ltb, if◌then◌else◌, List, [], ◌∷◌, ◌++◌, Text, length, take, drop, split,
  get_elem?, or_else, append_assoc, append-nil, Bool-cases, inl, inr, ◌≡◌, refl, arith,
}

abbrev pub chunk_size : ℕ
chunk_size = 32768

-- The loop that appends a chunk of bytes a round to `bin`, for any size of a chunk.
unfoldable pub bin_loop : ℕ → ℕ → List ℕ → ℕ → Text → Text
bin_loop chunk zero bytes i bin = bin
bin_loop chunk (suc fuel) bytes i bin =
    let rest = bin_loop chunk fuel bytes (i + chunk) (bin ++ take chunk (drop i bytes)) in
    if ltb i (length bytes) then rest else bin

-- A round takes a byte at least, so the number of bytes is fuel enough.
unfoldable pub utf8_to_base64 : (Text → List ℕ) → (Text → Text) → Text → Text
utf8_to_base64 encode btoa s =
    let bytes = encode s in btoa (bin_loop chunk_size (length bytes) bytes 0 [])

-- The part of a data URL behind the comma.
unfoldable pub data_part : Text → Text
data_part url = or_else (get_elem? (split b',' url) 1) []

drop_over : (i : ℕ) (xs : List ℕ) → length xs ≤ i → drop i xs ≡ []
drop_over zero [] h = refl
drop_over zero (x ∷ xs) h = absurd (omega (arith, h))
drop_over (suc i) [] h = refl
drop_over (suc i) (x ∷ xs) h = drop_over i xs (omega (arith, h))

drop_nil : (n : ℕ) → drop {A = ℕ} n [] ≡ []
drop_nil zero = refl
drop_nil (suc n) = refl

drop_further : (i n k : ℕ) (xs : List ℕ) → k ≡ i + n → drop n (drop i xs) ≡ drop k xs
drop_further zero n k xs e = let same_count : k ≡ n = omega (arith, e) in rw (same_count) refl
drop_further (suc i) n k [] e = rw (drop_nil n, drop_nil k) refl
drop_further (suc i) n zero (x ∷ xs) e = absurd (omega (arith, e))
drop_further (suc i) n (suc k) (x ∷ xs) e = drop_further i n k xs (omega (arith, e))

take-drop : (n : ℕ) (xs : List ℕ) → take n xs ++ drop n xs ≡ xs
take-drop zero xs = refl
take-drop (suc n) [] = refl
take-drop (suc n) (x ∷ xs) = rw (take-drop n xs) refl

bin_loop_rest :
    (chunk fuel : ℕ) (bytes : List ℕ) (i : ℕ) (bin : Text)
    → 1 ≤ chunk
    → length bytes ≤ i + fuel
    → bin_loop chunk fuel bytes i bin ≡ bin ++ drop i bytes
unfolding bin_loop
bin_loop_rest chunk zero bytes i bin low h =
    rw (drop_over i bytes (omega (arith, h)), append-nil) refl
bin_loop_rest chunk (suc fuel) bytes i bin low h = elim (Bool-cases (ltb i (length bytes))) [
  | inl e ↦
      let next =
        bin_loop_rest chunk fuel bytes (i + chunk) (bin ++ take chunk (drop i bytes)) low
          (omega (arith, low, h)) in
      rw (e, next, append_assoc, ← drop_further i chunk (i + chunk) bytes refl, take-drop) refl
  | inr e ↦ rw (e, drop_over i bytes (ground (arith, e)), append-nil) refl
]

-- The loop ends, and what is encoded is all bytes of the text in order, whatever its length is.
utf8_to_base64-whole :
    (encode : Text → List ℕ) (btoa : Text → Text) (s : Text)
    → utf8_to_base64 encode btoa s ≡ btoa (encode s)
unfolding utf8_to_base64
utf8_to_base64-whole encode btoa s =
    rw (bin_loop_rest chunk_size (length (encode s)) (encode s) 0 [] (omega arith) (omega arith))
      refl
