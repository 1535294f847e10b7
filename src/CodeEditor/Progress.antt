-- ===== src/CodeEditor/Progress.antt =====
-- The token function of frontend/src/lib/batchHighlight.ts makes progress, as CodeMirror demands.
use gourl.Common.{
  ℕ, zero, suc, ◌≤◌, ◌<◌, ltb, ◌==◌, if◌then◌else◌, Option, none, some, List, [], ◌∷◌, Text,
  trim_start, index_of, drop, length, ◌≡◌, refl, ◌∙◌, sym, ap, arith, Bool-cases, Option-cases, inl,
  inr, ◌⊎◌,
}
use gourl.CodeEditor.Highlight.{
  StringStream, Token, code, date, map_rest, behind, bracket_token, visible_token, token,
  bracket_token-rest, peek_is,
}

module _ (st : StringStream) where
  length-drop : (i : ℕ) (r : Text) → length (drop i r) ≤ length r
  length-drop zero r = omega arith
  length-drop (suc i) [] = omega arith
  length-drop (suc i) (c ∷ r) = omega (arith, length-drop i r)

  length-behind : (q : Option ℕ) (r : Text) → length (behind q r) ≤ length r
  length-behind none r = omega arith
  length-behind (some i) r = length-drop (suc i) r

  -- The tokens of a line, `n` of them at most, and what is left then.
  unfoldable pub tokens : ℕ → st.S → List Token × st.S
  tokens zero s = ([], s)
  tokens (suc n) s = elim (st.rest s) [
    | [] ↦ ([], s)
    | c ∷ r ↦ let (k, s') = token st s in let (ks, end) = tokens n s' in (k ∷ ks, end)
  ]

  bracket_shorter :
      (closing : ℕ) (kind : Token) (s : st.S) (c : ℕ) (r : Text)
      → st.rest s ≡ c ∷ r
      → length (st.rest (bracket_token st closing kind s).1) ≤ length r
  bracket_shorter closing kind s c r h =
      let left =
        bracket_token-rest st closing kind s
        ∙ ap (λ q. behind (index_of closing (drop 1 q)) (drop 1 q)) h in
      rw (left) (length-behind (index_of closing r) r)

  end_shorter : (s : st.S) (r : Text) → length (st.rest (st.skip_to_end s)) ≤ length r
  end_shorter s r = rw (st.skip_to_end_drops s) (omega arith)

  visible_shorter :
      (s : st.S) (c : ℕ) (r : Text)
      → st.rest s ≡ c ∷ r
      → length (st.rest (visible_token st s).1) ≤ length r
  unfolding visible_token
  visible_shorter s c r h = elim (Bool-cases (c == b'#')) [
    | inl e ↦ rw (visible_token, peek_is st s c r h, e) (end_shorter s r)
    | inr e ↦ elim (Bool-cases (c == b'[')) [
      | inl o ↦ rw (visible_token, peek_is st s c r h, e, o) (bracket_shorter b']' code s c r h)
      | inr o ↦ elim (Bool-cases (c == b'(')) [
        | inl p ↦
            rw (visible_token, peek_is st s c r h, e, o, p) (bracket_shorter b')' date s c r h)
        | inr p ↦ rw (visible_token, peek_is st s c r h, e, o, p) (end_shorter s r)
      ]
    ]
  ]

  shorter_left :
      (x t u : Text)
      → some x ≡ (if ltb (length t) (length u) then some t else none)
      → length x < length u
  shorter_left x t u h = elim (Bool-cases (ltb (length t) (length u))) [
    | inl e ↦
        let same_text : some x ≡ some t = h ∙ rw (e) refl in
        let it : x ≡ t = cc same_text in rw (it) (ground (arith, e))
    | inr e ↦ let nothing : some x ≡ none = h ∙ rw (e) refl in absurd (cc nothing)
  ]

  eaten_shorter :
      (s s' : st.S) → st.eat_space s ≡ some s' → length (st.rest s') < length (st.rest s)
  eaten_shorter s s' k =
      shorter_left (st.rest s') (trim_start (st.rest s)) (st.rest s)
        (ap (map_rest st.rest) (sym k) ∙ st.eat_space_trims s)

  moves_on :
      (s : st.S) (c : ℕ) (r : Text)
      → st.rest s ≡ c ∷ r
      → length (st.rest (token st s).1) < length (st.rest s)
  unfolding token
  moves_on s c r h = elim (Option-cases (st.eat_space s)) [
    | inl k ↦ rw (token, k, h) (omega (arith, visible_shorter s c r h))
    | inr (s', k) ↦ rw (token, k) (eaten_shorter s s' k)
  ]

  no_length : (t : Text) → length t ≡ 0 → t ≡ []
  no_length [] h = refl
  no_length (c ∷ t) h = absurd (omega (arith, h))

  Text-cases : (t : Text) → (t ≡ []) ⊎ ((c : ℕ) × (r : Text) × (t ≡ c ∷ r))
  Text-cases [] = inl refl
  Text-cases (c ∷ r) = inr (c, r, refl)

  -- Highlighting ends: in a line of `n` characters at most, `n` tokens reach its end.
  pub tokens_end : (n : ℕ) (s : st.S) → length (st.rest s) ≤ n → st.rest (tokens n s).1 ≡ []
  unfolding tokens
  tokens_end zero s h = no_length (st.rest s) (omega (arith, h))
  tokens_end (suc n) s h = elim (Text-cases (st.rest s)) [
    | inl k ↦ rw (tokens, k) k
    | inr (c, r, k) ↦
        rw (tokens, k) (tokens_end n (token st s).1 (omega (arith, h, moves_on s c r k)))
  ]
