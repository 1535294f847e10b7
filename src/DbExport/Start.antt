-- ===== src/DbExport/Start.antt =====
-- When scripts/db-export.mts touches the file system.
use gourl.Common.{
  Bool, true, false, not, ◌&&◌, ◌||◌, Option, List, [], ◌∷◌, Text, codes, is_empty, includes, ◌≡◌,
  inl, inr, refl, Bool-cases,
}
use gourl.DbExport.{Database, Action, make_dir, write_file, main, with_paths, checked_start}

-- Whether an action makes a directory or a file.
abbrev pub touches : Action → Bool
touches (write_file name rows) = true
touches (make_dir name) = true
touches _ = false

abbrev pub first_path : List Text → Text
first_path [] = []
first_path (p ∷ ps) = p

unfoldable pub any_touches : List Action → Bool
any_touches [] = false
any_touches (a ∷ rest) = touches a || any_touches rest

module _ (exists : Text → Bool) (join_path : Text → Text → Text)
    (open_db : Text → Option Database) where
  checked_start-any_touches :
      (db_path out_dir : Text)
      → any_touches (checked_start exists join_path open_db db_path out_dir)
        ≡ (not (is_empty db_path) && exists db_path)
  unfolding any_touches
  checked_start-any_touches db_path out_dir = elim (Bool-cases (is_empty db_path)) [
    | inl e ↦ rw (e) refl
    | inr e ↦ elim (Bool-cases (exists db_path)) [ inl k ↦ rw (e, k) refl | inr k ↦ rw (e, k) refl ]
  ]

  with_paths-any_touches :
      (args : List Text)
      → any_touches (with_paths exists join_path open_db args)
        ≡ (not (is_empty (first_path args)) && exists (first_path args))
  with_paths-any_touches [] = checked_start-any_touches [] (codes ".")
  with_paths-any_touches (p ∷ []) = checked_start-any_touches p (codes ".")
  with_paths-any_touches (p ∷ q ∷ more) = checked_start-any_touches p q

  -- The script makes a directory or a file exactly if no argument asks for help and the first
  -- argument is the path of a file that exists.
  pub any_touches-main :
      (args : List Text)
      → any_touches (main exists join_path open_db args) ≡ (
          not (includes args (codes "--help") || includes args (codes "-h"))
          && (not (is_empty (first_path args)) && exists (first_path args)))
  unfolding main any_touches
  any_touches-main args =
      elim (Bool-cases (includes args (codes "--help") || includes args (codes "-h"))) [
        | inl e ↦ rw (e) refl
        | inr e ↦ rw (e) (with_paths-any_touches args)
      ]
