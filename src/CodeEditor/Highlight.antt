-- ===== src/CodeEditor/Highlight.antt =====
-- frontend/src/lib/batchHighlight.ts: the token function of the batch editor, against the parser
-- of frontend/src/lib/batch.ts. CodeMirror's stream of one line is a parameter: a record of its
-- operations with what their documentation says they leave of the line.
use gourl.Common.{
  ℕ, zero, suc, Bool, true, false, ltb, ◌==◌, ==_iff, if◌then◌else◌, Option, none, some, [], ◌∷◌,
  Text, trim_start, is_space, starts_with, index_of, drop, length, ◌≡◌, refl, ◌∙◌, sym, ap, arith,
  Option-cases, inl, inr,
}
use gourl.Batch.{Bracket, bad, absent, found, bracket}

abbrev pub first : Text → Option ℕ
first [] = none
first (c ∷ s) = some c

abbrev pub skipped : Option ℕ → Text → Option Text
skipped none s = none
skipped (some i) s = some (drop i s)

abbrev pub map_rest {ℓ} : {S : Type ℓ} → (S → Text) → Option S → Option Text
map_rest rest none = none
map_rest rest (some s) = some (rest s)

-- A stream in a line, by what is left of the line; `skip_to` gives none where the character is not
-- there.
pub record StringStream : Type 1 where
  pub S : Type 0
  pub rest : S → Text
  pub peek : S → Option ℕ
  pub next : S → S
  pub eat_space : S → Option S
  pub skip_to : ℕ → S → Option S
  pub skip_to_end : S → S
  pub peek_first : (s : S) → peek s ≡ first (rest s)
  pub next_drops : (s : S) → rest (next s) ≡ drop 1 (rest s)
  pub eat_space_trims :
      (s : S)
      → map_rest rest (eat_space s) ≡ (
          if ltb (length (trim_start (rest s))) (length (rest s))
          then some (trim_start (rest s))
          else none)
  pub skip_to_finds :
      (c : ℕ) (s : S) → map_rest rest (skip_to c s) ≡ skipped (index_of c (rest s)) (rest s)
  pub skip_to_end_drops : (s : S) → rest (skip_to_end s) ≡ []

-- The names of the tokens; white space has none.
pub data Token : Type 0 where
  blank comment code date url : Token

-- What is left of the line behind a bracket.
abbrev pub behind : Option ℕ → Text → Text
behind none r = []
behind (some i) r = drop (suc i) r

drop_more : (i : ℕ) (r : Text) → drop 1 (drop i r) ≡ drop (suc i) r
drop_more zero r = refl
drop_more (suc i) [] = refl
drop_more (suc i) (c ∷ r) = drop_more i r

-- What a bracket leaves of the line to the parser: nothing where it finds no closing character.
unfoldable pub read_on : Bracket Text → Text → Text
read_on (bad r) line = []
read_on absent line = line
read_on (found content after) line = after

behind-bracket :
    (opening closing : ℕ) (r : Text)
    → opening == closing ≡ false
    → behind (index_of closing r) r ≡ read_on (bracket opening closing (opening ∷ r)) (opening ∷ r)
unfolding read_on bracket starts_with index_of
behind-bracket opening closing r h = elim (Option-cases (index_of closing r)) [
  | inl k ↦ rw (h, k, (==_iff opening opening).1 refl) refl
  | inr (i, k) ↦ rw (h, k, (==_iff opening opening).1 refl) refl
]

abbrev pub opening : Bool → ℕ
opening dated = if dated then b'(' else b'['

abbrev pub closing_of : Bool → ℕ
closing_of dated = if dated then b')' else b']'

abbrev kind_of : Bool → Token
kind_of dated = if dated then date else code

different : (dated : Bool) → opening dated == closing_of dated ≡ false
different true = refl
different false = refl

module _ (st : StringStream) where
  abbrev bracket_end : Token → st.S → Option st.S → Token × st.S
  bracket_end kind t none = (kind, st.skip_to_end t)
  bracket_end kind t (some s) = (kind, st.next s)

  -- The bracket up to its closing character, or to the end of the line without one.
  unfoldable pub bracket_token : ℕ → Token → st.S → Token × st.S
  bracket_token closing kind s = bracket_end kind (st.next s) (st.skip_to closing (st.next s))

  abbrev pub is_char : ℕ → Option ℕ → Bool
  is_char c none = false
  is_char c (some d) = d == c

  abbrev pub starts : ℕ → st.S → Bool
  starts c s = is_char c (st.peek s)

  unfoldable pub visible_token : st.S → Token × st.S
  visible_token s =
      if starts b'#' s
      then (comment, st.skip_to_end s)
      else if starts b'[' s
      then bracket_token b']' code s
      else if starts b'(' s
      then bracket_token b')' date s
      else (url, st.skip_to_end s)

  unfoldable pub token : st.S → Token × st.S
  token s = elim (st.eat_space s) [ none ↦ visible_token s | some s' ↦ (blank, s') ]

  bracket_end-rest :
      (kind : Token) (t : st.S) (r : Text) (o : Option st.S) (q : Option ℕ)
      → map_rest st.rest o ≡ skipped q r
      → st.rest (bracket_end kind t o).1 ≡ behind q r
  bracket_end-rest kind t r none none h = st.skip_to_end_drops t
  bracket_end-rest kind t r none (some i) h = absurd (cc h)
  bracket_end-rest kind t r (some s) none h = absurd (cc h)
  bracket_end-rest kind t r (some s) (some i) h =
      let here : st.rest s ≡ drop i r = cc h in st.next_drops s ∙ ap (drop 1) here ∙ drop_more i r

  pub bracket_token-rest :
      (closing : ℕ) (kind : Token) (s : st.S)
      → st.rest (bracket_token closing kind s).1
        ≡ behind (index_of closing (drop 1 (st.rest s))) (drop 1 (st.rest s))
  unfolding bracket_token
  bracket_token-rest closing kind s =
      bracket_end-rest kind (st.next s) (drop 1 (st.rest s)) (st.skip_to closing (st.next s)) _ (
        st.skip_to_finds closing (st.next s)
        ∙ ap (λ q. skipped (index_of closing q) q) (st.next_drops s))

  bracket_token-kind :
      (closing : ℕ) (kind : Token) (s : st.S) → (bracket_token closing kind s).0 ≡ kind
  unfolding bracket_token
  bracket_token-kind closing kind s =
      elim (st.skip_to closing (st.next s)) as (λ o. (bracket_end kind (st.next s) o).0 ≡ kind) [
        | none ↦ refl
        | some s' ↦ refl
      ]

  module _ (s : st.S) (c : ℕ) (r : Text) (h : st.rest s ≡ c ∷ r) where
    pub peek_is : st.peek s ≡ some c
    peek_is = st.peek_first s ∙ ap first h

    no_space : is_space c ≡ false → st.eat_space s ≡ none
    unfolding trim_start
    no_space solid = elim (Option-cases (st.eat_space s)) [
      | inl gone ↦ gone
      | inr (s', k) ↦
          let kept : trim_start (st.rest s) ≡ st.rest s =
            ap trim_start h ∙ rw (trim_start, solid) (sym h) in
          let law = st.eat_space_trims s in
          let stays : ltb (length (trim_start (st.rest s))) (length (st.rest s)) ≡ false =
            rw (kept) (ground arith) in
          let none_left : map_rest st.rest (some s') ≡ none =
            ap (map_rest st.rest) (sym k) ∙ law ∙ rw (stays) refl in
          absurd (cc none_left)
    ]

  token_opens :
      (dated : Bool) (s : st.S) (r : Text)
      → st.rest s ≡ opening dated ∷ r
      → token s ≡ bracket_token (closing_of dated) (kind_of dated) s
  unfolding token visible_token is_space
  token_opens true s r h =
      rw (token, visible_token, no_space s b'(' r h refl, peek_is s b'(' r h) refl
  token_opens false s r h =
      rw (token, visible_token, no_space s b'[' r h refl, peek_is s b'[' r h) refl

  -- At a bracket the editor colours what the parser reads there: where a line goes on with `[` or
  -- `(`, the token is a code or a date, and it leaves of the line exactly what the parser leaves
  -- behind the bracket, or nothing where the parser finds no closing character.
  pub token-bracket :
      (dated : Bool) (s : st.S) (r : Text)
      → st.rest s ≡ opening dated ∷ r
      → ((token s).0 ≡ (if dated then date else code))
        × (st.rest (token s).1
            ≡ read_on (bracket (opening dated) (closing_of dated) (st.rest s)) (st.rest s))
  token-bracket dated s r h = rw (token_opens dated s r h) (
    bracket_token-kind (closing_of dated) (kind_of dated) s,
    bracket_token-rest (closing_of dated) (kind_of dated) s
        ∙ ap (λ q. behind (index_of (closing_of dated) (drop 1 q)) (drop 1 q)) h
        ∙ behind-bracket (opening dated) (closing_of dated) r (different dated)
        ∙ ap (λ q. read_on (bracket (opening dated) (closing_of dated) q) q) (sym h),
  )
