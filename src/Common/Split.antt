-- ===== src/Common/Split.antt =====
-- Splitting at one unit and joining undo each other.
use Prim.Native.Nat.{ℕ}
use mathlib.Core.Path.{◌≡◌, refl, ap, sym, ◌∙◌}
use mathlib.Core.Logic.{◌≢◌, inl, inr}
use mathlib.Core.List.{List, [], ◌∷◌, ◌++◌}
use native.Mathlib.Omega.{arith}
use gourl.Common.Tests.{◌==◌, ==_iff, Bool-cases}
use gourl.Common.Lists.{All}
use gourl.Common.Texts.{Text, Lacks, split, join, onto_first}

onto_first-ne-nil : (c : ℕ) (ps : List Text) → onto_first c ps ≢ []
onto_first-ne-nil c [] = λ e. cc e
onto_first-ne-nil c (p ∷ ps) = λ e. cc e

pub split-ne-nil : (b : ℕ) (s : Text) → split b s ≢ []
unfolding split
split-ne-nil b [] = λ e. cc e
split-ne-nil b (c ∷ s) = ground (arith, onto_first-ne-nil c (split b s))

join-onto_first :
    (b c : ℕ) (ps : List Text) → ps ≢ [] → join (b ∷ []) (onto_first c ps) ≡ c ∷ join (b ∷ []) ps
unfolding join
join-onto_first b c [] h = absurd (h refl)
join-onto_first b c (p ∷ []) h = refl
join-onto_first b c (p ∷ q ∷ ps) h = refl

join-nil_first : (b : ℕ) (ps : List Text) → ps ≢ [] → join (b ∷ []) ([] ∷ ps) ≡ b ∷ join (b ∷ []) ps
unfolding join
join-nil_first b [] h = absurd (h refl)
join-nil_first b (p ∷ ps) h = refl

pub join-split : (b : ℕ) (s : Text) → join (b ∷ []) (split b s) ≡ s
unfolding split
join-split b [] = unfold join in refl
join-split b (c ∷ s) = elim (Bool-cases (c == b)) [
  | inl e ↦
      rw (e, split, join-nil_first b (split b s) (split-ne-nil b s), join-split b s)
        (ap (λ (x : ℕ). x ∷ s) (sym ((==_iff c b).0 e)))
  | inr ne ↦
      rw (ne, split, join-onto_first b c (split b s) (split-ne-nil b s))
        (ap (λ r. c ∷ r) (join-split b s))
]

pub split_plain : (b : ℕ) (p : Text) → Lacks b p → split b p ≡ p ∷ []
unfolding split
split_plain b [] h = refl
split_plain b (c ∷ p) (ne, h) = ground (arith, split_plain b p h)

pub split_first : (b : ℕ) (p rest : Text) → Lacks b p → split b (p ++ b ∷ rest) ≡ p ∷ split b rest
unfolding split
split_first b [] rest h = ground (arith, ==_iff b b)
split_first b (c ∷ p) rest (ne, h) = ground (arith, split_first b p rest h)

pub split-join :
    (b : ℕ) (ps : List Text) → ps ≢ [] → All (Lacks b) ps → split b (join (b ∷ []) ps) ≡ ps
unfolding join
split-join b [] h k = absurd (h refl)
split-join b (p ∷ []) h (k, _) = split_plain b p k
split-join b (p ∷ q ∷ ps) h (k, ks) =
    split_first b p (join (b ∷ []) (q ∷ ps)) k
    ∙ ap (λ r. p ∷ r) (split-join b (q ∷ ps) (λ e. cc e) ks)
