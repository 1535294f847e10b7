-- ===== src/Ui/Snapshot.antt =====
-- What a dialog of frontend/src/components/ui.tsx shows while it is animated away: its parent may
-- drop the content in the render that closes it.
use gourl.Common.{Bool, true, false, if◌then◌else◌, List, [], ◌∷◌, ◌≡◌, refl, ◌∙◌, ap}

-- The props of the last render and the content that is kept.
pub record Snapshot {ℓ} (C : Type ℓ) : Type ℓ where
  pub is_open : Bool
  pub children : C
  pub snap : C

module _ {ℓ} {C : Type ℓ} where
  -- `useState(children)`
  unfoldable pub first_render : Bool → C → Snapshot C
  first_render is_open children = record { is_open = is_open; children = children; snap = children }

  -- A render with new props and the effect on `[open, children]`.
  unfoldable pub render : Bool × C → Snapshot C → Snapshot C
  render (is_open, children) d = record {
    is_open = is_open;
    children = children;
    snap = if is_open then children else d.snap;
  }

  unfoldable pub renders : List (Bool × C) → Snapshot C → Snapshot C
  renders [] d = d
  renders (props ∷ more) d = renders more (render props d)

  -- `{open ? children : snap}`
  unfoldable pub content : Snapshot C → C
  content d = if d.is_open then d.children else d.snap

  -- The content of the last of the renders in which the dialog was open, or the one before them.
  unfoldable pub last_open : List (Bool × C) → C → C
  last_open [] c = c
  last_open ((true, children) ∷ more) c = last_open more children
  last_open ((false, children) ∷ more) c = last_open more c

  -- The kept content is the shown one.
  abbrev pub IsKept : Snapshot C → Type ℓ
  IsKept d = d.snap ≡ content d

  content-kept :
      (more : List (Bool × C)) (d : Snapshot C)
      → IsKept d
      → content (renders more d) ≡ last_open more (content d)
  unfolding renders last_open content render
  content-kept [] d h = refl
  content-kept ((true, children) ∷ more) d h = content-kept more (render (true, children) d) refl
  content-kept ((false, children) ∷ more) d h =
      content-kept more (render (false, children) d) refl ∙ ap (last_open more) h

  -- After any renders the dialog shows the content of the last one in which it was open, so that
  -- it keeps its content while it is animated away, whatever its parent passes then.
  pub content-renders :
      (is_open : Bool) (children : C) (more : List (Bool × C))
      → content (renders more (first_render is_open children)) ≡ last_open more children
  unfolding first_render content
  content-renders true children more = content-kept more (first_render true children) refl
  content-renders false children more = content-kept more (first_render false children) refl
