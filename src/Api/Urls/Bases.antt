-- ===== src/Api/Urls/Bases.antt =====
-- The list of short URLs of a code.
use gourl.Common.{
  Bool, true, false, ◌||◌, ◌==◌, Option, List, [], ◌∷◌, ◌++◌, map, Text, trim, is_empty, includes,
  same, same_iff, same_refl, ap, ◌≡◌, refl, arith, Bool-cases, inl, inr, All, All-append, length,
  length-append, codes,
}
use gourl.Api.Types.{ServerConfig, AppConfig}
use gourl.Api.Urls.{
  slash, strip_slashes, keep_slash, push_base, push_all, link_bases, main_base, link_urls,
  with_base,
}

-- The last unit of a text is no slash.
abbrev pub last_is_slash : Text → Bool
last_is_slash [] = false
last_is_slash (c ∷ []) = c == slash
last_is_slash (c ∷ d ∷ s) = last_is_slash (d ∷ s)

-- A base is not empty and does not end in a slash.
pub record IsBase (b : Text) : Type 0 where
  pub full : is_empty b ≡ false
  pub no_slash : last_is_slash b ≡ false

strip-no_slash : (s : Text) → last_is_slash (strip_slashes s) ≡ false
unfolding strip_slashes
strip-no_slash [] = refl
strip-no_slash (c ∷ s) = kept (strip_slashes s) (strip-no_slash s)
  where
    kept : (r : Text) → last_is_slash r ≡ false → last_is_slash (keep_slash c r) ≡ false
    kept [] h = ground arith
    kept (d ∷ r) h = h

-- No text stands twice in the list.
abbrev pub NoRepeat : List Text → Type 0
NoRepeat [] = Unit
NoRepeat (t ∷ ts) = (includes ts t ≡ false) × NoRepeat ts

includes-append :
    (ts us : List Text) (t : Text) → includes (ts ++ us) t ≡ (includes ts t || includes us t)
unfolding includes
includes-append [] us t = refl
includes-append (s ∷ ts) us t = ground (arith, includes-append ts us t)

NoRepeat-append :
    (ts : List Text) (t : Text) → NoRepeat ts → includes ts t ≡ false → NoRepeat (ts ++ t ∷ [])
unfolding includes
NoRepeat-append [] t h n = (refl, tt)
NoRepeat-append (s ∷ ts) t (fresh, h) n = (
  ground (arith, includes-append ts (t ∷ []) s, same_iff s t, same_iff t s),
  NoRepeat-append ts t h (ground arith),
)

pub record AreBases (bases : List Text) : Type 0 where
  pub each : All IsBase bases
  pub no_repeat : NoRepeat bases

append-AreBases :
    (bases : List Text) (t : Text)
    → AreBases bases
    → last_is_slash t ≡ false
    → (is_empty t || includes bases t) ≡ false
    → AreBases (bases ++ t ∷ [])
append-AreBases bases t h k fresh = record {
  each = All-append IsBase bases (t ∷ []) h.each (record { full = ground arith; no_slash = k }, tt);
  no_repeat = NoRepeat-append bases t h.no_repeat (ground arith);
}

push_base-AreBases :
    (bases : List Text) (base : Text) → AreBases bases → AreBases (push_base bases base)
unfolding push_base
push_base-AreBases bases base h =
    let t = strip_slashes (trim base) in
    elim (Bool-cases (is_empty t || includes bases t)) [
      | inl old ↦ rw (old, push_base) h
      | inr fresh ↦
          rw (fresh, push_base) (append-AreBases bases t h (strip-no_slash (trim base)) fresh)
    ]

push_all-AreBases : (bases extras : List Text) → AreBases bases → AreBases (push_all bases extras)
unfolding push_all
push_all-AreBases bases [] h = h
push_all-AreBases bases (extra ∷ extras) h =
    push_all-AreBases (push_base bases extra) extras (push_base-AreBases bases extra h)

no_bases : AreBases []
no_bases = record { each = tt; no_repeat = tt }

pub link_bases-AreBases :
    (cfg : AppConfig) (server : Option ServerConfig) (origin : Text)
    → AreBases (link_bases cfg server origin)
unfolding link_bases
link_bases-AreBases cfg server origin =
    push_all-AreBases (push_base [] (main_base cfg server origin)) cfg.extra_base_urls
      (push_base-AreBases [] (main_base cfg server origin) no_bases)

append_cancel : (a b s : Text) → a ++ s ≡ b ++ s → a ≡ b
append_cancel [] [] s e = refl
append_cancel [] (y ∷ b) s e = absurd (omega (arith, ap length e, length-append {0} b s))
append_cancel (x ∷ a) [] s e = absurd (omega (arith, ap length e, length-append {0} a s))
append_cancel (x ∷ a) (y ∷ b) s e = ground (arith, append_cancel a b s)

map-includes :
    (code : Text) (bases : List Text) (b : Text)
    → includes (map (with_base code) bases) (with_base code b) ≡ includes bases b
unfolding includes
map-includes code [] b = refl
map-includes code (a ∷ bases) b = ground (
  arith,
  map-includes code bases b,
  same_iff a b,
  same_iff (with_base code a) (with_base code b),
  append_cancel a b (slash ∷ code),
)

map-NoRepeat :
    (code : Text) (bases : List Text) → NoRepeat bases → NoRepeat (map (with_base code) bases)
map-NoRepeat code [] h = tt
map-NoRepeat code (b ∷ bases) (fresh, h) = (rw map-includes fresh, map-NoRepeat code bases h)

push_base_keeps :
    (bases : List Text) (base b : Text)
    → includes bases b ≡ true
    → includes (push_base bases base) b ≡ true
unfolding push_base
push_base_keeps bases base b h =
    ground (arith, includes-append bases (strip_slashes (trim base) ∷ []) b)

push_all_keeps :
    (bases extras : List Text) (b : Text)
    → includes bases b ≡ true
    → includes (push_all bases extras) b ≡ true
unfolding push_all
push_all_keeps bases [] b h = h
push_all_keeps bases (extra ∷ extras) b h =
    push_all_keeps (push_base bases extra) extras b (push_base_keeps bases extra b h)

push_base_adds :
    (bases : List Text) (base : Text)
    → is_empty (strip_slashes (trim base)) ≡ false
    → includes (push_base bases base) (strip_slashes (trim base)) ≡ true
unfolding push_base includes
push_base_adds bases base full =
    let t = strip_slashes (trim base) in
    ground (arith, includes-append bases (t ∷ []) t, same_refl t)

-- The base is among the bases, once the spaces and the slashes at its end are taken off.
abbrev pub IsServed : List Text → Text → Type 0
IsServed bases base =
    (is_empty (strip_slashes (trim base)) || includes bases (strip_slashes (trim base))) ≡ true

served :
    (bases : List Text) (base : Text)
    → (is_empty (strip_slashes (trim base)) ≡ false
        → includes bases (strip_slashes (trim base)) ≡ true)
    → IsServed bases base
served bases base h = elim (Bool-cases (is_empty (strip_slashes (trim base)))) [
  | inl e ↦ rw e refl
  | inr e ↦ rw e (h e)
]

push_all_serves : (bases extras : List Text) → All (IsServed (push_all bases extras)) extras
unfolding push_all
push_all_serves bases [] = tt
push_all_serves bases (extra ∷ extras) = (
  served (push_all (push_base bases extra) extras) extra (λ full.
      push_all_keeps (push_base bases extra) extras (strip_slashes (trim extra))
        (push_base_adds bases extra full)),
  push_all_serves (push_base bases extra) extras,
)

-- The short URLs of a code never repeat; each base is not empty and does not end in a slash; and
-- the main base and every extra base are among the bases, unless nothing but spaces and slashes
-- at the end is left of them.
pub link_urls_distinct :
    (code : Text) (cfg : AppConfig) (server : Option ServerConfig) (origin : Text)
    → NoRepeat (link_urls code cfg server origin)
      × All IsBase (link_bases cfg server origin)
      × All
          (IsServed (link_bases cfg server origin))
          (main_base cfg server origin ∷ cfg.extra_base_urls)
unfolding link_urls link_bases
link_urls_distinct code cfg server origin =
    let bases = link_bases-AreBases cfg server origin in
    let main = main_base cfg server origin in
    let all_served : All (IsServed (link_bases cfg server origin)) (main ∷ cfg.extra_base_urls) = (
      served (link_bases cfg server origin) main (λ full.
          push_all_keeps (push_base [] main) cfg.extra_base_urls (strip_slashes (trim main))
            (push_base_adds [] main full)),
      push_all_serves (push_base [] main) cfg.extra_base_urls,
    ) in
    elim (Bool-cases (same code (codes "/"))) [
      | inl root ↦ (rw (root, link_urls) bases.no_repeat, bases.each, all_served)
      | inr sub ↦ (
        rw (sub, link_urls) (map-NoRepeat code (link_bases cfg server origin) bases.no_repeat),
        bases.each,
        all_served,
      )
    ]
