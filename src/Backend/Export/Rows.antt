-- ===== src/Backend/Export/Rows.antt =====
-- The rows of a table that internal/api/export.go writes, their lines, and the items of
-- frontend/src/components/ImportDialog.tsx that they are read as.
use gourl.Common.{
  ℕ, zero, suc, ◌+◌, ◌/◌, ◌%◌, Bool, true, false, ◌&&◌, ◌||◌, ltb, ◌==◌, if◌then◌else◌, leb, Option,
  none, some, List, [], ◌∷◌, map, Text, same, is_empty, is_space, trim, All, Lacks, ◌≡◌, ◌≢◌, refl,
  ap, ◌∙◌, arith, Bool-cases, inl, inr,
}
use gourl.Platform.{ℤ, pos, negsuc}
use gourl.Platform.Decimal.{digits, decimal, is_digit}
use gourl.Api.Types.{Link}
use gourl.Csv.{fill, put}
use gourl.Csv.RoundTrip.{Quoting, IsRow}
use gourl.Import.{LoadedItem, item_of, read_expiry, cell, full_cell}
use gourl.Backend.Codes.{validate, is_code_rune}
use gourl.Backend.Codes.Laws.{IsCodeUnit, validate_units, trim_visible, code_unit_visible}
use gourl.Backend.Export.{newline, format_int, header, row}
use gourl.Backend.Export.Lines.{is_clean, IsCleanRow}

-- The digits and the sign of a printed integer.
abbrev pub IsIntUnit : ℕ → Type 0
IsIntUnit c = (is_digit c || c == b'-') ≡ true

digit_unit : (n : ℕ) → IsIntUnit (b'0' + n % 10)
unfolding is_digit
digit_unit n = ground arith

digits_units : (f n : ℕ) (out : Text) → All IsIntUnit out → All IsIntUnit (digits f n out)
unfolding digits
digits_units zero n out h = h
digits_units (suc f) n out h = elim (Bool-cases (ltb n 10)) [
  | inl e ↦ rw (e) (digit_unit n, h)
  | inr e ↦ rw (e) (digits_units f (n / 10) _ (digit_unit n, h))
]

pub decimal_units : (n : ℕ) → All IsIntUnit (decimal n)
unfolding decimal
decimal_units n = digits_units (suc n) n [] tt

format_units : (n : ℤ) → All IsIntUnit (format_int n)
format_units (pos n) = decimal_units n
format_units (negsuc n) = (unfold is_digit in refl, decimal_units (suc n))

int_unit_visible : (c : ℕ) → IsIntUnit c → is_space c ≡ false
unfolding is_digit is_space
int_unit_visible c h = ground (arith, h)

pub All-map {ℓ} : {P Q : ℕ → Type ℓ} (s : Text) → ((c : ℕ) → P c → Q c) → All P s → All Q s
All-map [] f h = tt
All-map (c ∷ s) f (k, h) = (f c k, All-map s f h)

trim-format_int : (n : ℤ) → trim (format_int n) ≡ format_int n
trim-format_int n =
    trim_visible (format_int n) (All-map (format_int n) int_unit_visible (format_units n))

-- A text without '#' and line ends.
clean_run : (s : Text) → Lacks b'#' s → Lacks newline s → (at : Bool) → is_clean at s ≡ true
clean_run [] h k at = refl
clean_run (c ∷ s) (h, hs) (k, ks) at =
    let behind = clean_run s hs ks (c == newline) in ground (arith, h, behind)

-- What is relied on of `toLowerCase`: it leaves small letters and underscores as they are.
abbrev pub is_small : Text → Bool
is_small [] = true
is_small (c ∷ s) = ((leb b'a' c && leb c b'z') || c == b'_') && is_small s

abbrev pub KeepsSmall : (Text → Text) → Type 0
KeepsSmall lower = (s : Text) → is_small s ≡ true → lower s ≡ s

abbrev IsHeading : Text → Type 0
IsHeading h = (is_small (trim h) ≡ true) × (trim h ≡ h)

pub headings : All IsHeading header
unfolding trim is_space
headings = (
  (refl, refl),
  (
    (refl, refl),
    ((refl, refl), ((refl, refl), ((refl, refl), ((refl, refl), ((refl, refl), tt))))),
  ),
)

module _ (lower : Text → Text) (small : KeepsSmall lower) where
  pub lowered : (hs : List Text) → All IsHeading hs → map (λ h. lower (trim h)) hs ≡ hs
  lowered [] h = refl
  lowered (h ∷ hs) ((k, e), ks) =
      let first = small (trim h) k ∙ e in rw (first) (ap (λ r. h ∷ r) (lowered hs ks))

-- A link whose table row keeps its lines: its code is valid, and no line behind the first of its
-- texts starts with '#'.
pub record IsExportable (l : Link) : Type 0 where
  pub valid : validate l.code ≡ none
  pub url_lines : is_clean false l.url ≡ true
  pub title_lines : is_clean false l.title ≡ true
  pub description_lines : is_clean false l.description ≡ true

-- A text field that is not there where it is empty.
abbrev pub full_text : Text → Option Text
full_text s = if is_empty s then none else some s

digits_full : (f n : ℕ) (out : Text) → is_empty (digits (suc f) n out) ≡ false
unfolding digits
digits_full zero n out = ground arith
digits_full (suc f) n out = ground (arith, digits_full f (n / 10) ((b'0' + n % 10) ∷ out))

format_full : (n : ℤ) → is_empty (format_int n) ≡ false
unfolding decimal
format_full (pos n) = digits_full n n []
format_full (negsuc n) = refl

full_of-ne-nil : (s : Text) → s ≢ [] → is_empty s ≡ false
full_of-ne-nil [] h = absurd (h refl)
full_of-ne-nil (c ∷ s) h = refl

code_visible : (l : Link) → IsExportable l → (trim l.code ≡ l.code) × (is_empty l.code ≡ false)
code_visible l h =
    let (full, units) = validate_units l.code h.valid in
    (trim_visible l.code (All-map l.code code_unit_visible units), full_of-ne-nil l.code full)

module _ {N : Type 0} (to_number : Text → N) (is_falsy : N → Bool) where
  -- The item that the importer makes of an exported link.
  abbrev pub imported : Link → LoadedItem to_number is_falsy
  imported l = record {
    url = some (trim l.url);
    code = some l.code;
    title = full_text (trim l.title);
    description = full_text (trim l.description);
    expires_at = some (read_expiry to_number is_falsy (format_int l.expires_at));
    created_at = some (to_number (format_int l.created_at));
  }

  pub row_item :
      (l : Link) → IsExportable l → item_of to_number is_falsy (fill header (row l) []) ≡ imported l
  unfolding item_of full_cell cell fill put same
  row_item l h =
      let (seen, full) = code_visible l h in
      rw (seen, trim-format_int l.expires_at, trim-format_int l.created_at)
        (rw (item_of, full, format_full l.expires_at, format_full l.created_at) refl)

-- A code holds no '#' and no line end, and neither does a printed integer.
code_unit_clean : (c : ℕ) → IsCodeUnit c → (c ≢ b'#') × (c ≢ newline)
unfolding is_code_rune
code_unit_clean c h = ((λ e. ground (arith, h, e)), λ e. ground (arith, h, e))

pub int_unit_clean : (c : ℕ) → IsIntUnit c → (c ≢ b'#') × (c ≢ newline)
unfolding is_digit
int_unit_clean c h = ((λ e. ground (arith, h, e)), λ e. ground (arith, h, e))

clean_of {ℓ} :
    {P : ℕ → Type ℓ} (s : Text)
    → ((c : ℕ) → P c → (c ≢ b'#') × (c ≢ newline))
    → All P s
    → (at : Bool) → is_clean at s ≡ true
clean_of [] f h at = refl
clean_of (c ∷ s) f (k, h) at =
    let (no_hash, no_end) = f c k in
    let behind = clean_of s f h (c == newline) in ground (arith, no_hash, behind)

module _ (w : Quoting) where
  row_clean : (l : Link) → IsExportable l → IsCleanRow w (row l)
  row_clean l h =
      let code = clean_of l.code code_unit_clean (validate_units l.code h.valid).1 in
      let int = λ (n : ℤ). clean_of (format_int n) int_unit_clean (format_units n) false in
      (
        code true,
        (
          code false,
          (
            h.url_lines,
            (
              h.title_lines,
              (
                h.description_lines,
                (int l.expires_at, (int (pos l.click_count), (int l.created_at, tt))),
              ),
            ),
          ),
        ),
      )

  pub rows_clean : (links : List Link) → All IsExportable links → All (IsCleanRow w) (map row links)
  rows_clean [] h = tt
  rows_clean (l ∷ links) (k, h) = (row_clean l k, rows_clean links h)

  pub rows_full : (links : List Link) → All IsRow (map row links)
  rows_full [] = tt
  rows_full (l ∷ links) = (((λ e. cc e), refl), rows_full links)
