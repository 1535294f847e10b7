-- ===== src/QrCode.antt =====
-- frontend/src/components/QRDialog.tsx: which short URL the dialog shows, and its download. The
-- drawing on the canvas is the browser's.
pub mod Card
pub mod View
use gourl.Common.{
  ℕ, zero, suc, ◌-◌, ◌<◌, ◌≤◌, sym, Bool, true, if◌then◌else◌, Option, none, some, List, [], ◌∷◌,
  ◌++◌, Text, codes, ltb, length, get_elem?, is_empty, min, max, ◌≡◌, ◌≢◌, Option-cases, refl,
  arith, Bool-cases, inl, inr,
}
use gourl.Api.Types.{Link, Message, t, t_text, plain, Kind, success, failure}
use gourl.Device.Sharing.{Saved, browser_download, saved_at, save_error}
use gourl.Links.View.{current_url}

pub record Qr : Type 0 where
  pub shown : Option Link
  pub index : ℕ

pub data Effect : Type 0 where
  toast : Message → Kind → Effect

abbrev pub clamped : ℕ → List Text → ℕ
clamped i urls = min i (max (length urls - 1) 0)

-- The two effects on the link and on the opening.
unfoldable pub on_link : Bool → Option Link → ℕ → List Text → Qr → Qr
on_link is_open none initial_index urls q = q
on_link is_open (some link) initial_index urls q = record q {
  shown = some link;
  index = if is_open then clamped initial_index urls else q.index;
}

-- `active`
unfoldable pub active : List Text → Qr → Option Text
active urls q = get_elem? urls (clamped q.index urls)

-- `${shown?.code ?? 'qr'}.jpg`
unfoldable pub jpeg_name : Qr → Text
jpeg_name q = elim q.shown [ none ↦ codes "qr.jpg" | some link ↦ link.code ++ codes ".jpg" ]

-- The end of `download`: `base64` is the picture's text, none where there is no blob, and `save`
-- is `saveDownload` of it.
unfoldable pub downloaded : Option Text → (Text → Saved) → List Effect
downloaded none save = toast (t "common.error") failure ∷ []
downloaded (some base64) save =
    if is_empty base64 then toast (t "common.error") failure ∷ [] else elim (save base64) [
      | browser_download ↦ []
      | saved_at path ↦ toast (t_text "links.downloadedTo" path) success ∷ []
      | save_error m ↦ toast (plain m) failure ∷ []
    ]

none_beyond : (urls : List Text) (i : ℕ) → i < length urls → get_elem? urls i ≢ none
none_beyond [] i h = λ _. omega (arith, h)
none_beyond (u ∷ urls) zero h = λ e. cc e
none_beyond (u ∷ urls) (suc i) h = none_beyond urls i (omega (arith, h))

beyond : (urls : List Text) (i : ℕ) → length urls ≤ i → get_elem? urls i ≡ none
beyond [] i h = refl
beyond (u ∷ urls) zero h = absurd (omega (arith, h))
beyond (u ∷ urls) (suc i) h = beyond urls i (omega (arith, h))

get_elem?-current_url :
    (urls : List Text) (i : ℕ) → i < length urls → get_elem? urls i ≡ current_url urls i
get_elem?-current_url urls i h = elim (Option-cases (get_elem? urls i)) [
  | inl e ↦ absurd (none_beyond urls i h e)
  | inr (u, e) ↦ rw (e, current_url) refl
]

current_url-within :
    (urls : List Text) (i : ℕ)
    → current_url urls i ≡ (if ltb i (length urls) then get_elem? urls i else get_elem? urls 0)
current_url-within urls i = elim (Bool-cases (ltb i (length urls))) [
  | inl e ↦ rw (e) (sym (get_elem?-current_url urls i (ground (arith, e))))
  | inr e ↦ rw (e, current_url, beyond urls i (ground (arith, e))) refl
]

-- While the picked index has a URL, the row shows it and the dialog opens on it too; else the row
-- shows the first URL, but the dialog shows the last one.
pub active-on_link :
    (link : Link) (urls : List Text) (i : ℕ) (q : Qr)
    → (current_url urls i ≡ (if ltb i (length urls) then get_elem? urls i else get_elem? urls 0))
      × (active urls (on_link true (some link) i urls q)
          ≡ (if ltb i (length urls) then get_elem? urls i else get_elem? urls (length urls - 1)))
unfolding active on_link
active-on_link link urls i q = (
  current_url-within urls i,
  elim (Bool-cases (ltb i (length urls))) [
    | inl e ↦
        let same_index : clamped (clamped i urls) urls ≡ i = ground (arith, e) in
        rw (e, same_index) refl
    | inr e ↦
        let last : clamped (clamped i urls) urls ≡ length urls - 1 = ground (arith, e) in
        rw (e, last) refl
  ],
)
