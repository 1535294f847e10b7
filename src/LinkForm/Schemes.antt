-- ===== src/LinkForm/Schemes.antt =====
-- The scheme buttons of the link form.
use gourl.Common.{
  ℕ, zero, suc, true, false, ◌||◌, [], ◌∷◌, ◌++◌, Text, trim, trim_start, trim_end, keep_front,
  is_space, is_empty, starts_with, drop, ◌≡◌, refl, ap, ◌∙◌, sym, arith, Bool-cases, inl, inr,
}
use gourl.LinkForm.{
  Form, Scheme, http, https, prefix_of, has_scheme, after_scheme, scheme_url, apply_scheme,
  lower_unit,
}

keep_front_solid : (c : ℕ) (s : Text) → is_space c ≡ false → keep_front c s ≡ c ∷ s
keep_front_solid c [] h = rw h refl
keep_front_solid c (d ∷ s) h = refl

trim_end-keep_front :
    (c : ℕ) (s : Text) → trim_end s ≡ s → trim_end (keep_front c s) ≡ keep_front c s
unfolding trim_end
trim_end-keep_front c [] h = elim (Bool-cases (is_space c)) [
  | inl e ↦ rw e refl
  | inr e ↦ rw e (rw (e, trim_end) refl)
]
trim_end-keep_front c (d ∷ s) h = ap (keep_front c) h

trim_end_again : (s : Text) → trim_end (trim_end s) ≡ trim_end s
unfolding trim_end
trim_end_again [] = refl
trim_end_again (c ∷ s) = trim_end-keep_front c (trim_end s) (trim_end_again s)

trim_end-trim : (s : Text) → trim_end (trim s) ≡ trim s
unfolding trim
trim_end-trim s = trim_end_again (trim_start s)

keep_front_tail : (c : ℕ) (r s : Text) → keep_front c r ≡ c ∷ s → r ≡ s
keep_front_tail c [] s h = elim (Bool-cases (is_space c)) [
  | inl e ↦ absurd (cc (h, e))
  | inr e ↦ ground (arith, h, e)
]
keep_front_tail c (d ∷ r) s h = cc h

trim_end_tail : (c : ℕ) (s : Text) → trim_end (c ∷ s) ≡ c ∷ s → trim_end s ≡ s
unfolding trim_end
trim_end_tail c s h = keep_front_tail c (trim_end s) s h

trim_end-drop : (n : ℕ) (s : Text) → trim_end s ≡ s → trim_end (drop n s) ≡ drop n s
trim_end-drop zero s h = h
trim_end-drop (suc n) [] h = h
trim_end-drop (suc n) (c ∷ s) h = trim_end-drop n s (trim_end_tail c s h)

-- A trimmed text behind a prefix is kept by the next trim.
trim-prefix :
    (scheme : Scheme) (r : Text)
    → trim_end r ≡ r
    → trim (prefix_of scheme ++ r) ≡ prefix_of scheme ++ r
unfolding trim trim_start trim_end is_space
trim-prefix http r h = rw (h, keep_front_solid 47 r refl) refl
trim-prefix https r h = rw (h, keep_front_solid 47 r refl) refl

prefix_has : (scheme : Scheme) (r : Text) → has_scheme scheme (prefix_of scheme ++ r) ≡ true
unfolding has_scheme starts_with lower_unit
prefix_has http r = refl
prefix_has https r = refl

after_prefix : (scheme : Scheme) (r : Text) → after_scheme (prefix_of scheme ++ r) ≡ r
unfolding after_scheme has_scheme starts_with lower_unit
after_prefix http r = refl
after_prefix https r = refl

trim_end-after_scheme : (s : Text) → trim_end s ≡ s → trim_end (after_scheme s) ≡ after_scheme s
unfolding after_scheme
trim_end-after_scheme s h = elim (Bool-cases (has_scheme https s)) [
  | inl e ↦ rw (e, after_scheme) (trim_end-drop 8 s h)
  | inr e ↦ elim (Bool-cases (has_scheme http s)) [
    | inl k ↦ rw (e, k, after_scheme) (trim_end-drop 7 s h)
    | inr k ↦ rw (e, k, after_scheme) h
  ]
]

after_scheme_none :
    (s : Text) → has_scheme http s ≡ false → has_scheme https s ≡ false → after_scheme s ≡ s
unfolding after_scheme
after_scheme_none s h k = rw (h, k) refl

after_nothing : (s : Text) → is_empty s ≡ true → after_scheme s ≡ []
unfolding after_scheme has_scheme starts_with
after_nothing [] e = refl
after_nothing (c ∷ s) e = absurd (cc e)

has_scheme_full : (scheme : Scheme) (s : Text) → has_scheme scheme s ≡ true → is_empty s ≡ false
unfolding has_scheme starts_with
has_scheme_full http [] e = absurd (cc e)
has_scheme_full https [] e = absurd (cc e)
has_scheme_full scheme (c ∷ s) e = refl

scheme_url_stays :
    (scheme : Scheme) (u : Text) → has_scheme scheme (trim u) ≡ true → scheme_url scheme u ≡ u
unfolding scheme_url
scheme_url_stays scheme u h = rw (has_scheme_full scheme (trim u) h, h, scheme_url) refl

-- What a button leaves in the field: the text as it was, or the scheme before a trimmed rest,
-- which is what stood behind the former scheme.
data Pressed (scheme : Scheme) (u : Text) : Text → Type 0 where
  kept : has_scheme scheme (trim u) ≡ true → Pressed scheme u u
  put :
      (r : Text)
      → trim_end r ≡ r
      → after_scheme (trim u) ≡ r
      → Pressed scheme u (prefix_of scheme ++ r)

put_nothing :
    (scheme : Scheme) (u : Text) → is_empty (trim u) ≡ true → Pressed scheme u (prefix_of scheme)
unfolding trim_end
put_nothing http u e = put [] refl (after_nothing (trim u) e)
put_nothing https u e = put [] refl (after_nothing (trim u) e)

press : (scheme : Scheme) (u : Text) → Pressed scheme u (scheme_url scheme u)
unfolding scheme_url
press scheme u = elim (Bool-cases (is_empty (trim u))) [
  | inl e ↦ rw (e, scheme_url) (put_nothing scheme u e)
  | inr e ↦ elim (Bool-cases (has_scheme scheme (trim u))) [
    | inl k ↦ rw (e, k, scheme_url) (kept k)
    | inr k ↦ elim (Bool-cases (has_scheme http (trim u) || has_scheme https (trim u))) [
      | inl m ↦
          rw (e, k, m, scheme_url)
            (put (after_scheme (trim u)) (trim_end-after_scheme (trim u) (trim_end-trim u)) refl)
      | inr m ↦
          rw (e, k, m, scheme_url)
            (put (trim u) (trim_end-trim u)
              (after_scheme_none (trim u) (ground (arith, m)) (ground (arith, m))))
    ]
  ]
]

pressed_has :
    (scheme : Scheme) (u v : Text) → Pressed scheme u v → has_scheme scheme (trim v) ≡ true
pressed_has scheme u _ (kept h) = h
pressed_has scheme u _ (put r h e) =
    ap (has_scheme scheme) (trim-prefix scheme r h) ∙ prefix_has scheme r

pressed_keeps :
    (scheme : Scheme) (u v : Text)
    → Pressed scheme u v
    → after_scheme (trim v) ≡ after_scheme (trim u)
pressed_keeps scheme u _ (kept h) = refl
pressed_keeps scheme u _ (put r h e) =
    ap after_scheme (trim-prefix scheme r h) ∙ (after_prefix scheme r ∙ sym e)

-- A scheme button gives the address its scheme and changes nothing behind the scheme, and to press
-- the button again changes nothing at all.
pub apply_scheme_lem :
    (scheme : Scheme) (f : Form)
    → (has_scheme scheme (trim (apply_scheme scheme f).url) ≡ true)
      × (after_scheme (trim (apply_scheme scheme f).url) ≡ after_scheme (trim f.url))
      × (apply_scheme scheme (apply_scheme scheme f) ≡ apply_scheme scheme f)
unfolding apply_scheme
apply_scheme_lem scheme f = (
  pressed_has scheme f.url (scheme_url scheme f.url) (press scheme f.url),
  pressed_keeps scheme f.url (scheme_url scheme f.url) (press scheme f.url),
  ap (λ u. record f { url = u })
      (scheme_url_stays scheme (scheme_url scheme f.url)
        (pressed_has scheme f.url (scheme_url scheme f.url) (press scheme f.url))),
)
