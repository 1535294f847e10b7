-- ===== src/Backend/Codes/Laws.antt =====
-- Valid and generated codes (internal/shortcode/shortcode.go).
use mathlib.Core.Path.{subst}
use gourl.Common.{
  ℕ, zero, suc, ◌%◌, ◌≤◌, ◌<◌, Bool, true, false, ◌&&◌, ◌||◌, not, ◌==◌, none, List, [], ◌∷◌, Text,
  same, same_iff, is_empty, is_space, trim, trim_start, trim_end, split, split_plain, join,
  join-split, length, length-map, get_elem?, or_else, All, All-append, Lacks, ◌≡◌, ◌≢◌, refl, ap,
  arith, Bool-cases, Option-cases, inl, inr,
}
use gourl.Backend.Codes.{
  slash, alphabet, is_code_rune, check_runes, check_segments, validate, char_of, random,
}

-- A unit that a valid code may hold.
abbrev pub IsCodeUnit : ℕ → Type 0
IsCodeUnit c = (is_code_rune c || c == slash) ≡ true

check_runes_all : (s : Text) → check_runes s ≡ none → All IsCodeUnit s
unfolding check_runes
check_runes_all [] h = tt
check_runes_all (r ∷ s) h = elim (Bool-cases (is_code_rune r)) [
  | inl e ↦ (rw e refl, check_runes_all s (rw e at h))
  | inr e ↦ absurd (cc (rw e at h))
]

check_segments_all : (segs : List Text) → check_segments segs ≡ none → All (All IsCodeUnit) segs
unfolding check_segments
check_segments_all [] h = tt
check_segments_all (s ∷ segs) h = elim (Bool-cases (is_empty s)) [
  | inl e ↦ absurd (cc (rw e at h))
  | inr e ↦ elim (Option-cases (check_runes s)) [
    | inl ok ↦ (check_runes_all s ok, check_segments_all segs (ground (arith, h, e, ok)))
    | inr (fault, bad) ↦ absurd (ground (arith, h, e, bad))
  ]
]

joined_all :
    (segs : List Text) → All (All IsCodeUnit) segs → All IsCodeUnit (join (slash ∷ []) segs)
unfolding join is_code_rune
joined_all [] h = tt
joined_all (s ∷ []) (k, _) = k
joined_all (s ∷ s' ∷ segs) (k, h) = All-append IsCodeUnit s _ k (refl, joined_all (s' ∷ segs) h)

pub valid_segments :
    (code : Text)
    → validate code ≡ none
    → same code (slash ∷ []) ≡ false
    → (is_empty code ≡ false) × (check_segments (split slash code) ≡ none)
unfolding validate
valid_segments code h e = (ground (arith, h, e), ground (arith, h, e))

full-ne-nil : (s : Text) → is_empty s ≡ false → s ≢ []
full-ne-nil [] h = absurd (cc h)
full-ne-nil (c ∷ s) h = λ e. cc e

-- A valid code is not empty, and each of its units is a slash or one that `Validate` lets pass.
pub validate_units : (code : Text) → validate code ≡ none → (code ≢ []) × All IsCodeUnit code
validate_units code h = elim (Bool-cases (same code (slash ∷ []))) [
  | inl e ↦
      let root : code ≡ slash ∷ [] = (same_iff code (slash ∷ [])).0 e in
      rw (root) ((λ k. cc k), (unfold is_code_rune in refl, tt))
  | inr e ↦
      let (full, ok) = valid_segments code h e in
      (
        full-ne-nil code full,
        subst (All IsCodeUnit) (join-split slash code)
            (joined_all (split slash code) (check_segments_all (split slash code) ok)),
      )
]

-- All letters and digits pass, and none is a slash.
abbrev is_single : ℕ → Bool
is_single c = is_code_rune c && not (c == slash)

all_single : Text → Bool
all_single [] = true
all_single (c ∷ s) = is_single c && all_single s

get_single :
    (s : Text) (i : ℕ)
    → all_single s ≡ true
    → i < length s
    → is_single (or_else (get_elem? s i) 0) ≡ true
unfolding all_single
get_single [] i h k = absurd (omega (arith, k))
get_single (c ∷ s) zero h k = ground (arith, h)
get_single (c ∷ s) (suc i) h k = get_single s i (ground (arith, h)) (omega (arith, k))

alphabet_single : all_single alphabet ≡ true
unfolding all_single is_code_rune
alphabet_single = refl

char_of-single : (b : ℕ) → is_single (char_of b) ≡ true
char_of-single b = get_single alphabet (b % 62) alphabet_single (omega arith)

check_random : (buf : List ℕ) → check_runes (random buf) ≡ none
unfolding random check_runes
check_random [] = refl
check_random (b ∷ buf) = ground (arith, char_of-single b, check_random buf)

slash_not_single : is_single slash ≡ false
unfolding is_code_rune
slash_not_single = refl

random-Lacks : (buf : List ℕ) → Lacks slash (random buf)
unfolding random
random-Lacks [] = tt
random-Lacks (b ∷ buf) =
    ((λ e. cc (ap is_single e, char_of-single b, slash_not_single)), random-Lacks buf)

-- A code that is generated of 1 to 64 bytes is valid.
pub validate-random :
    (buf : List ℕ) → 1 ≤ length buf → length buf ≤ 64 → validate (random buf) ≡ none
unfolding validate check_segments
validate-random buf low high =
    let whole : split slash (random buf) ≡ random buf ∷ [] =
      split_plain slash (random buf) (random-Lacks buf) in
    let size : length (random buf) ≡ length buf = unfold random in length-map char_of buf in
    rw (whole) (ground (arith, low, high, size, check_random buf))

-- What a trim leaves alone: a text without any space.
abbrev pub NoSpace : Text → Type 0
NoSpace = All (λ c. is_space c ≡ false)

pub code_unit_visible : (c : ℕ) → IsCodeUnit c → is_space c ≡ false
unfolding is_code_rune is_space
code_unit_visible c h = ground (arith, h)

trim_end_visible : (s : Text) → NoSpace s → trim_end s ≡ s
unfolding trim_end
trim_end_visible [] h = refl
trim_end_visible (c ∷ []) (k, _) = rw (k) refl
trim_end_visible (c ∷ d ∷ s) (k, h) = rw (trim_end_visible (d ∷ s) h) refl

pub trim_visible : (s : Text) → NoSpace s → trim s ≡ s
unfolding trim trim_start
trim_visible [] h = refl
trim_visible (c ∷ s) (k, h) = rw (k) (trim_end_visible (c ∷ s) (k, h))
