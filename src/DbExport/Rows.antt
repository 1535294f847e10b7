-- ===== src/DbExport/Rows.antt =====
-- The rows that scripts/db-export.mts writes, read back: the flags and the identifiers of backups.
use gourl.Common.{
  ℕ, zero, suc, ◌+◌, ◌-◌, ◌*◌, ◌/◌, ◌%◌, ◌≤◌, ◌<◌, Bool, false, ltb, if◌then◌else◌, List, [], ◌∷◌,
  Text, drop, All, map, ◌≡◌, ◌⊎◌, inl, inr, refl, ◌∙◌, ap, arith, Bool-cases,
}
use gourl.Platform.{ℤ, pos}
use gourl.Platform.Decimal.{decimal, number, number_from, digits}
use gourl.DbExport.{LinkRow, TokenRow, BackupRow, dump_link, dump_token, dump_backup, is_set}

last_digit : (n : ℕ) → n < 10 → 0 * 10 + ((b'0' + n % 10) - b'0') ≡ n
last_digit n h = omega (arith, h)

next_digit : (n : ℕ) → n / 10 * 10 + ((b'0' + n % 10) - b'0') ≡ n
next_digit n = omega arith

not_small : (n : ℕ) → ltb n 10 ≡ false → 10 ≤ n
not_small n e = ground (arith, e)

-- Reading on behind what `digits` writes.
number_from-digits :
    (f n : ℕ) (out : Text) → n < f → number_from 0 (digits f n out) ≡ number_from n out
unfolding digits number_from
number_from-digits zero n out h = absurd (omega (arith, h))
number_from-digits (suc f) n out h = elim (Bool-cases (ltb n 10)) [
  | inl e ↦ rw (e) (ap (λ k. number_from k out) (last_digit n (ground (arith, e))))
  | inr e ↦ rw (e) (
      number_from-digits f (n / 10) _ (omega (arith, h, not_small n e))
      ∙ ap (λ k. number_from k out) (next_digit n))
]

pub number-decimal : (n : ℕ) → number (decimal n) ≡ n
unfolding number decimal number_from
number-decimal n = number_from-digits (suc n) n [] (omega arith)

abbrev pub flag : Bool → ℤ
flag b = if b then pos 1 else pos 0

abbrev pub restore_link : LinkRow Bool → LinkRow ℤ
restore_link r = record {
  id = r.id;
  code = r.code;
  url = r.url;
  title = r.title;
  description = r.description;
  expires_at = r.expires_at;
  click_count = r.click_count;
  created_at = r.created_at;
  updated_at = r.updated_at;
  deleted = flag r.deleted;
}

abbrev pub restore_token : TokenRow Bool → TokenRow ℤ
restore_token r = record {
  id = r.id;
  token = r.token;
  token_prefix = r.token_prefix;
  note = r.note;
  created_at = r.created_at;
  deleted = flag r.deleted;
}

abbrev pub restore_backup : BackupRow Text → BackupRow ℕ
restore_backup r = record {
  b_id = number (drop 2 r.b_id);
  link_id = r.link_id;
  code = r.code;
  url = r.url;
  title = r.title;
  description = r.description;
  expires_at = r.expires_at;
  click_count = r.click_count;
  created_at = r.created_at;
  updated_at = r.updated_at;
  backed_at = r.backed_at;
}

-- The flag of the schema: 0 or 1.
abbrev pub IsFlag : ℤ → Type 0
IsFlag z = (z ≡ pos 0) ⊎ (z ≡ pos 1)

flag-is_set : (z : ℤ) → IsFlag z → flag (is_set z) ≡ z
flag-is_set z (inl e) = rw (e) refl
flag-is_set z (inr e) = rw (e) refl

pub same_links :
    (rows : List (LinkRow ℤ))
    → All (λ r. IsFlag r.deleted) rows
    → map restore_link (map dump_link rows) ≡ rows
same_links [] h = refl
same_links (r ∷ rows) (h, hs) =
    let same_row : restore_link (dump_link r) ≡ r = rw (flag-is_set r.deleted h) refl in
    cc (same_row, same_links rows hs)

pub same_tokens :
    (rows : List (TokenRow ℤ))
    → All (λ r. IsFlag r.deleted) rows
    → map restore_token (map dump_token rows) ≡ rows
same_tokens [] h = refl
same_tokens (r ∷ rows) (h, hs) =
    let same_row : restore_token (dump_token r) ≡ r = rw (flag-is_set r.deleted h) refl in
    cc (same_row, same_tokens rows hs)

pub same_backups : (rows : List (BackupRow ℕ)) → map restore_backup (map dump_backup rows) ≡ rows
same_backups [] = refl
same_backups (r ∷ rows) =
    let same_row : restore_backup (dump_backup r) ≡ r = rw (number-decimal r.b_id) refl in
    cc (same_row, same_backups rows)
