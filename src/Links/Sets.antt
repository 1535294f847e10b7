-- ===== src/Links/Sets.antt =====
-- JavaScript's `Set` of texts, as the list of its members in their order.
use gourl.Common.{
  Bool, true, ◌&&◌, ◌||◌, not, if◌then◌else◌, List, [], ◌∷◌, ◌++◌, Text, same, same_iff, includes,
  ◌≡◌, refl, arith,
}

unfoldable pub set_add : Text → List Text → List Text
set_add c s = if includes s c then s else s ++ c ∷ []

unfoldable pub set_delete : Text → List Text → List Text
set_delete c [] = []
set_delete c (d ∷ s) = if same d c then set_delete c s else d ∷ set_delete c s

unfoldable pub add_all : List Text → List Text → List Text
add_all [] s = s
add_all (c ∷ cs) s = add_all cs (set_add c s)

unfoldable pub delete_all : List Text → List Text → List Text
delete_all [] s = s
delete_all (c ∷ cs) s = delete_all cs (set_delete c s)

-- `codes.every((c) => s.has(c))`
unfoldable pub all_in : List Text → List Text → Bool
all_in [] s = true
all_in (c ∷ cs) s = includes s c && all_in cs s

pub includes-append :
    (ts us : List Text) (t : Text) → includes (ts ++ us) t ≡ (includes ts t || includes us t)
unfolding includes
includes-append [] us t = refl
includes-append (s ∷ ts) us t = ground (arith, includes-append ts us t)

pub includes-set_add :
    (c : Text) (s : List Text) (d : Text) → includes (set_add c s) d ≡ (includes s d || same c d)
unfolding set_add includes
includes-set_add c s d = ground (arith, includes-append s (c ∷ []) d, same_iff c d)

pub includes-set_delete :
    (c : Text) (s : List Text) (d : Text)
    → includes (set_delete c s) d ≡ (includes s d && not (same c d))
unfolding set_delete includes
includes-set_delete c [] d = refl
includes-set_delete c (e ∷ s) d =
    ground (arith, includes-set_delete c s d, same_iff e c, same_iff e d, same_iff c d)

pub includes-add_all :
    (cs s : List Text) (d : Text) → includes (add_all cs s) d ≡ (includes s d || includes cs d)
unfolding add_all includes
includes-add_all [] s d = ground arith
includes-add_all (c ∷ cs) s d =
    ground (arith, includes-add_all cs (set_add c s) d, includes-set_add c s d)

pub includes-delete_all :
    (cs s : List Text) (d : Text)
    → includes (delete_all cs s) d ≡ (includes s d && not (includes cs d))
unfolding delete_all includes
includes-delete_all [] s d = ground arith
includes-delete_all (c ∷ cs) s d =
    ground (arith, includes-delete_all cs (set_delete c s) d, includes-set_delete c s d)
