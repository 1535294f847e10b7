-- ===== src/Backend/Codes.antt =====
-- internal/shortcode/shortcode.go: which codes are valid, which are reserved, and generated codes.
-- `strings.EqualFold` and `strings.ToLower` are Go's. The units of a code are its runes, which are
-- UTF-16 units where the code is valid.
pub mod Laws
use gourl.Common.{
  ℕ, ◌%◌, Bool, true, false, ◌&&◌, ◌||◌, not, ltb, leb, ◌==◌, if◌then◌else◌, Option, none, some,
  List, [], ◌∷◌, ◌++◌, map, Text, codes, same, starts_with, is_empty, split, length, get_elem?,
  or_else,
}

abbrev pub slash : ℕ
slash = b'/'

abbrev pub alphabet : Text
alphabet = codes "0123456789ABCDEFGHIJKLMNOPQRSTUVWXYZabcdefghijklmnopqrstuvwxyz"

abbrev pub max_segments : ℕ
max_segments = 5

abbrev pub max_length : ℕ
max_length = 64

-- The errors of `Validate`.
pub data Fault : Type 0 where
  empty_code empty_segment : Fault
  too_long too_deep : ℕ → Fault
  invalid_character : ℕ → Fault

unfoldable pub is_code_rune : ℕ → Bool
is_code_rune r =
    (leb b'a' r && leb r b'z')
    || (leb b'A' r && leb r b'Z')
    || (leb b'0' r && leb r b'9')
    || r == b'-'
    || r == b'_'
    || (leb 19968 r && leb r 40959)

-- The runes of a segment in turn.
unfoldable pub check_runes : Text → Option Fault
check_runes [] = none
check_runes (r ∷ s) =
    let rest = check_runes s in if not (is_code_rune r) then some (invalid_character r) else rest

unfoldable pub check_segments : List Text → Option Fault
check_segments [] = none
check_segments (s ∷ segs) =
    if is_empty s
    then some empty_segment
    else elim (check_runes s) [ some fault ↦ some fault | none ↦ check_segments segs ]

unfoldable pub validate : Text → Option Fault
validate code =
    if same code (slash ∷ [])
    then none
    else if is_empty code
    then some empty_code
    else if ltb max_length (length code)
    then some (too_long (length code))
    else if ltb max_segments (length (split slash code))
    then some (too_deep (length (split slash code)))
    else check_segments (split slash code)

-- `Random`, with the bytes that `crypto/rand` fills the buffer with.
abbrev pub char_of : ℕ → ℕ
char_of b = or_else (get_elem? alphabet (b % 62)) 0

unfoldable pub random : List ℕ → Text
random buf = map char_of buf

abbrev pub builtin_reserved : List Text
builtin_reserved =
    codes "api"
    ∷ codes "admin"
    ∷ codes "expired"
    ∷ codes "health"
    ∷ codes "assets"
    ∷ codes "favicon"
    ∷ codes "export"
    ∷ codes "login"
    ∷ codes "logout"
    ∷ codes "config"
    ∷ codes "icon"
    ∷ codes "dashboard"
    ∷ codes "links"
    ∷ codes "tokens"
    ∷ codes "ua-blocks"
    ∷ codes "settings"
    ∷ codes "static"
    ∷ codes "docs"
    ∷ codes "db"
    ∷ codes "gourl-public-page"
    ∷ []

-- `code[:strings.IndexByte(code, '/')]`
unfoldable pub first_segment : Text → Text
first_segment [] = []
first_segment (c ∷ s) = if c == slash then [] else c ∷ first_segment s

-- `strings.Contains(r, "/")`
abbrev pub has_slash : Text → Bool
has_slash [] = false
has_slash (c ∷ s) = c == slash || has_slash s

module _ (equal_fold : Text → Text → Bool) (to_lower : Text → Text) where
  abbrev pub any_fold : Text → List Text → Bool
  any_fold seg [] = false
  any_fold seg (r ∷ rs) = equal_fold seg r || any_fold seg rs

  unfoldable pub is_extra : Text → List Text → Bool
  is_extra code [] = false
  is_extra code (r ∷ extra) =
      (if has_slash r
        then same (to_lower code) (to_lower r)
          || starts_with (to_lower code) (to_lower r ++ slash ∷ [])
        else equal_fold (first_segment code) r)
      || is_extra code extra

  unfoldable pub is_reserved : Text → List Text → Bool
  is_reserved code extra =
      if same code (slash ∷ [])
      then false
      else if any_fold (first_segment code) builtin_reserved
      then true
      else is_extra code extra
