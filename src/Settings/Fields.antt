-- ===== src/Settings/Fields.antt =====
-- The list fields of the form: what is read from their texts.
use gourl.Common.{
  ℕ, false, not, List, [], ◌∷◌, map, keep, Text, trim, is_empty, split, join, All, Lacks,
  split_plain, split_first, split-ne-nil, ◌≡◌, ◌≢◌, refl, ap, ◌∙◌, arith, Bool-cases, inl, inr,
  trim_start, trim_end, onto_first, is_space, ◌==◌,
}
use mathlib.Core.Path.{ap₂}
use gourl.Api.Types.{AppConfig}
use gourl.Settings.{comma, newline, entries, drafts_of, body_of}

-- A text that a list field can hold as one entry.
abbrev pub IsEntry : ℕ → Text → Type 0
IsEntry sep s = (trim s ≡ s) × (is_empty s ≡ false) × Lacks sep s

trim_space : (s : Text) → trim (32 ∷ s) ≡ trim s
unfolding trim trim_start is_space
trim_space s = refl

trim-onto_first : (ps : List Text) → ps ≢ [] → map trim (onto_first 32 ps) ≡ map trim ps
trim-onto_first [] h = absurd (h refl)
trim-onto_first (p ∷ ps) h = ap (λ r. r ∷ map trim ps) (trim_space p)

split_space :
    (sep : ℕ) (s : Text) → sep ≢ 32 → map trim (split sep (32 ∷ s)) ≡ map trim (split sep s)
unfolding split
split_space sep s h = elim (Bool-cases (32 == sep)) [
  | inl e ↦ absurd (h (ground (arith, e)))
  | inr e ↦ rw (e, split) (trim-onto_first (split sep s) (split-ne-nil sep s))
]

trimmed_split :
    (sep : ℕ) (e : Text) (es : List Text)
    → sep ≢ 32
    → All (IsEntry sep) (e ∷ es)
    → map trim (split sep (join (sep ∷ 32 ∷ []) (e ∷ es))) ≡ e ∷ es
unfolding join
trimmed_split sep e [] h ((clean, _, lacks), _) = rw (split_plain sep e lacks, clean) refl
trimmed_split sep e (f ∷ es) h ((clean, _, lacks), k) =
    ap (map trim) (split_first sep e (32 ∷ join (sep ∷ 32 ∷ []) (f ∷ es)) lacks)
    ∙ ap₂ (λ x y. x ∷ y) clean
        (split_space sep (join (sep ∷ 32 ∷ []) (f ∷ es)) h ∙ trimmed_split sep f es h k)

trimmed_lines :
    (sep : ℕ) (e : Text) (es : List Text)
    → All (IsEntry sep) (e ∷ es)
    → map trim (split sep (join (sep ∷ []) (e ∷ es))) ≡ e ∷ es
unfolding join
trimmed_lines sep e [] ((clean, _, lacks), _) = rw (split_plain sep e lacks, clean) refl
trimmed_lines sep e (f ∷ es) ((clean, _, lacks), k) =
    ap (map trim) (split_first sep e (join (sep ∷ []) (f ∷ es)) lacks)
    ∙ ap₂ (λ x y. x ∷ y) clean (trimmed_lines sep f es k)

keep_entries :
    (sep : ℕ) (es : List Text) → All (IsEntry sep) es → keep (λ s. not (is_empty s)) es ≡ es
keep_entries sep [] k = refl
keep_entries sep (e ∷ es) ((_, full, _), k) = rw full (ap (λ r. e ∷ r) (keep_entries sep es k))

entries-join :
    (sep : ℕ) (es : List Text)
    → sep ≢ 32
    → All (IsEntry sep) es
    → (entries sep (join (sep ∷ 32 ∷ []) es) ≡ es) × (entries sep (join (sep ∷ []) es) ≡ es)
unfolding entries
entries-join sep [] h k = unfold join split trim trim_start trim_end in (refl, refl)
entries-join sep (e ∷ es) h k = (
  ap (keep (λ s. not (is_empty s))) (trimmed_split sep e es h k) ∙ keep_entries sep (e ∷ es) k,
  ap (keep (λ s. not (is_empty s))) (trimmed_lines sep e es k) ∙ keep_entries sep (e ∷ es) k,
)

abbrev pub IsPlain : AppConfig → Type 0
IsPlain cfg =
    All (IsEntry newline) cfg.extra_base_urls
    × All (IsEntry comma) cfg.reserved_codes
    × All (IsEntry comma) cfg.ua_blocks
    × All (IsEntry comma) cfg.ip_blocks

-- Saving the form unchanged sends the configuration that filled it, if each entry of its lists
-- is trimmed, not empty, and free of its field's separator.
pub body_of-drafts_of : (cfg : AppConfig) → IsPlain cfg → body_of cfg (drafts_of cfg) ≡ cfg
unfolding body_of drafts_of
body_of-drafts_of cfg (urls, reserved, ua, ip) =
    rw
      (
        (entries-join newline cfg.extra_base_urls (λ e. omega (arith, e)) urls).1,
        (entries-join comma cfg.reserved_codes (λ e. omega (arith, e)) reserved).0,
        (entries-join comma cfg.ua_blocks (λ e. omega (arith, e)) ua).0,
        (entries-join comma cfg.ip_blocks (λ e. omega (arith, e)) ip).0,
      )
      refl
