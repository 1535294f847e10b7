-- ===== src/Backend/Export/Lines.antt =====
-- Which lines of an exported table start with '#', the mark of the comment lines that
-- `strip_comments` removes.
use gourl.Common.{
  ℕ, Bool, true, false, ◌&&◌, not, ◌==◌, List, [], ◌∷◌, ◌++◌, Text, starts_with, split,
  split-ne-nil, onto_first, join, join-split, All, ◌≡◌, ◌≢◌, refl, ap, sym, ◌∙◌, arith, Bool-cases,
  inl, inr,
}
use gourl.Csv.{quote, comma}
use gourl.Csv.RoundTrip.{Quoting, escape, print_field, print_row, print_rows, IsPlainUnit}
use gourl.Import.Comments.{IsData, append-ne-nil}
use gourl.Backend.Export.{newline, with_lines}

abbrev hash : ℕ
hash = b'#'

-- No line of the text starts with '#'; the flag says whether the text begins a line.
abbrev pub is_clean : Bool → Text → Bool
is_clean at [] = true
is_clean at (c ∷ s) = not (at && c == hash) && is_clean (c == newline) s

abbrev Behind : Bool → List Text → Type 0
Behind true ls = All IsData ls
Behind false [] = Unit
Behind false (l ∷ ls) = All IsData ls

Behind-first : (c : ℕ) (ls : List Text) → Behind false ls → Behind false (onto_first c ls)
Behind-first c [] h = tt
Behind-first c (l ∷ ls) h = h

line-IsData :
    (c : ℕ) (ls : List Text) → (c == hash) ≡ false → Behind false ls → All IsData (onto_first c ls)
unfolding starts_with
line-IsData c [] e h = (rw (e) refl, tt)
line-IsData c (l ∷ ls) e h = (rw (e) refl, h)

rest_clean :
    (at : Bool) (c : ℕ) (s : Text) → is_clean at (c ∷ s) ≡ true → is_clean (c == newline) s ≡ true
rest_clean at c s h = ground (arith, h)

clean_lines : (at : Bool) (s : Text) → is_clean at s ≡ true → Behind at (split newline s)
unfolding split starts_with
clean_lines true [] h = (refl, tt)
clean_lines false [] h = tt
clean_lines true (c ∷ s) h = elim (Bool-cases (c == newline)) [
  | inl e ↦ rw (e) (refl, clean_lines true s (rw (e) at (rest_clean true c s h)))
  | inr e ↦ rw (e) (
      line-IsData c (split newline s) (ground (arith, h))
        (clean_lines false s (rw (e) at (rest_clean true c s h))))
]
clean_lines false (c ∷ s) h = elim (Bool-cases (c == newline)) [
  | inl e ↦ rw (e) (clean_lines true s (rw (e) at (rest_clean false c s h)))
  | inr e ↦
      rw (e) (
        Behind-first c (split newline s) (clean_lines false s (rw (e) at (rest_clean false c s h))))
]

pub is_clean-split : (s : Text) → is_clean true s ≡ true → All IsData (split newline s)
is_clean-split s h = clean_lines true s h

clean_units :
    (f rest : Text)
    → All IsPlainUnit f
    → is_clean false rest ≡ true
    → is_clean false (f ++ rest) ≡ true
clean_units [] rest h k = k
clean_units (c ∷ f) rest ((_, _, n, _), h) k =
    let other : (c == newline) ≡ false = ground (arith, n) in rw (other) (clean_units f rest h k)

clean_escaped :
    (at : Bool) (f rest : Text)
    → is_clean at f ≡ true
    → is_clean false rest ≡ true
    → is_clean at (escape f ++ quote ∷ rest) ≡ true
unfolding escape
clean_escaped at [] rest h k = ground (arith, k)
clean_escaped at (c ∷ f) rest h k = elim (Bool-cases (c == quote)) [
  | inl e ↦
      let again : is_clean false (escape f ++ quote ∷ rest) ≡ true =
        clean_escaped false f rest (ground (arith, rest_clean at c f h, e)) k in
      rw (e) (ground (arith, again))
  | inr e ↦
      let again = clean_escaped (c == newline) f rest (rest_clean at c f h) k in
      rw (e) (ground (arith, h, again))
]

clean_plain :
    (at : Bool) (f rest : Text)
    → All IsPlainUnit f
    → is_clean at f ≡ true
    → ((b : Bool) → is_clean b rest ≡ true)
    → is_clean at (f ++ rest) ≡ true
clean_plain at [] rest u h k = k at
clean_plain at (c ∷ f) rest ((_, _, n, _), u) h k =
    let other : (c == newline) ≡ false = ground (arith, n) in
    let behind = clean_units f rest u (k false) in rw (other) (ground (arith, h, behind))

-- A field keeps the lines of its text, when what follows is clean on a line of its own and not.
module _ (w : Quoting) where
  clean_field :
      (at : Bool) (f rest : Text)
      → is_clean at f ≡ true
      → is_clean false f ≡ true
      → ((b : Bool) → is_clean b rest ≡ true)
      → is_clean at (print_field w f rest) ≡ true
  unfolding print_field
  clean_field at f rest h h' k = elim (Bool-cases (w.quotes f)) [
    | inl q ↦ rw (q) (let inner = clean_escaped false f rest h' (k false) in ground (arith, inner))
    | inr q ↦ rw (q) (clean_plain at f rest (w.plain f q) h k)
  ]

  -- The first field begins a line.
  abbrev pub IsCleanRow : List Text → Type 0
  IsCleanRow [] = Unit
  IsCleanRow (f ∷ fs) = (is_clean true f ≡ true) × All (λ g. is_clean false g ≡ true) (f ∷ fs)

  clean_fields :
      (at : Bool) (f : Text) (fs : List Text) (rest : Text)
      → is_clean at f ≡ true
      → All (λ g. is_clean false g ≡ true) (f ∷ fs)
      → is_clean true rest ≡ true
      → is_clean at (print_row w (f ∷ fs) rest) ≡ true
  unfolding print_row
  clean_fields at f [] rest h (h', _) k =
      clean_field at f (newline ∷ rest) h h' (λ b. ground (arith, k))
  clean_fields at f (g ∷ fs) rest h (h', hs) k =
      let behind = clean_fields false g fs rest hs.0 hs k in
      clean_field at f (comma ∷ print_row w (g ∷ fs) rest) h h' (λ b. ground (arith, behind))

  pub is_clean-print_rows :
      (rs : List (List Text)) → All IsCleanRow rs → is_clean true (print_rows w rs) ≡ true
  unfolding print_rows print_row
  is_clean-print_rows [] h = refl
  is_clean-print_rows ([] ∷ rs) (_, h) = is_clean-print_rows rs h
  is_clean-print_rows ((f ∷ fs) ∷ rs) ((first, all), h) =
      clean_fields true f fs (print_rows w rs) first all (is_clean-print_rows rs h)

join-cons :
    (b : ℕ) (p : Text) (ps : List Text)
    → ps ≢ []
    → join (b ∷ []) (p ∷ ps) ≡ p ++ b ∷ join (b ∷ []) ps
unfolding join
join-cons b p [] h = absurd (h refl)
join-cons b p (q ∷ ps) h = refl

-- Lines in front of a text, as `join` writes them.
pub with_lines-join :
    (ls : List Text) (text : Text)
    → with_lines ls text ≡ join (newline ∷ []) (ls ++ split newline text)
with_lines-join [] text = sym (join-split newline text)
with_lines-join (l ∷ ls) text =
    ap (λ r. l ++ newline ∷ r) (with_lines-join ls text)
    ∙ sym
        (join-cons newline l _ (append-ne-nil ls (split newline text) (split-ne-nil newline text)))
