-- ===== src/QrCode/Card.antt =====
-- The picture that frontend/src/components/QRDialog.tsx draws for the download, as the list of its
-- shapes. All lengths are in half pixels, since the badge is centred; texts are measured by the
-- browser.
use gourl.Common.{
  ℕ, ◌+◌, ◌-◌, ◌/◌, ◌≤◌, Bool, true, false, ◌&&◌, leb, if◌then◌else◌, Option, none, some, List, [],
  ◌∷◌, ◌++◌, Text, codes, is_empty, take, ◌≡◌, refl, arith,
}

-- `DL_W`, `DL_QR`, `DL_HEAD` and `DL_FOOT`, doubled.
abbrev pub dl_w : ℕ
dl_w = 680

abbrev pub dl_qr : ℕ
dl_qr = 600

abbrev pub dl_head : ℕ
dl_head = 180

abbrev pub dl_foot : ℕ
dl_foot = 60

abbrev pub height : ℕ
height = dl_head + dl_qr + dl_foot

-- A rectangle is filled, outlined, or filled with a picture; a text stands at its baseline.
pub data Picture : Type 0 where
  brand_icon qr_code : Picture

pub record Box : Type 0 where
  pub x : ℕ
  pub y : ℕ
  pub w : ℕ
  pub h : ℕ

pub data Shape : Type 0 where
  fill : Box → Text → Shape
  panel : Box → ℕ → Text → Text → Shape
  badge : Box → ℕ → Text → Shape
  picture : Picture → Box → Shape
  text_left text_center : Text → ℕ → ℕ → Shape

abbrev box : ℕ → ℕ → ℕ → ℕ → Box
box x y w h = record { x = x; y = y; w = w; h = h }

-- `(siteName || 'gourl').slice(0, 24)`
unfoldable pub brand_name : Option Text → Text
brand_name none = codes "gourl"
brand_name (some name) = take 24 (if is_empty name then codes "gourl" else name)

-- `drawBrand`: `name_w` is the doubled width of the name, 600 at most: a wider one would start left
-- of the card.
unfoldable pub draw_brand : ℕ → Option Text → List Shape
draw_brand name_w site_name =
    let x0 = ((dl_w - 60) - 20 - name_w) / 2 in
    let y0 = (dl_head - 60) / 2 in
    badge (box x0 y0 60 60) 20 (codes "#fef3c7")
    ∷ picture brand_icon (box (x0 + 10) (y0 + 10) 40 40)
    ∷ text_left (brand_name site_name) (x0 + 60 + 20) (y0 + 30)
    ∷ []

-- `drawBody`
unfoldable pub draw_body : Text → List Shape
draw_body code =
    picture qr_code (box ((dl_w - dl_qr) / 2) dl_head dl_qr dl_qr)
    ∷ text_center code (dl_w / 2) (dl_head + dl_qr + 18)
    ∷ []

-- `download`, up to the picture; `loaded` says whether the icon was loaded.
unfoldable pub draw : Bool → ℕ → Option Text → Text → List Shape
draw loaded name_w site_name code =
    fill (box 0 0 dl_w height) (codes "#f5f5f7")
    ∷ panel (box 28 28 (dl_w - 56) (height - 56)) 40 (codes "#ffffff") (codes "#e5e5ea")
    ∷ (if loaded then draw_brand name_w site_name ++ draw_body code else draw_body code)

abbrev fits : Box → Bool
fits b = leb (b.x + b.w) dl_w && leb (b.y + b.h) height

-- A shape lies within the card; of a text the start of its baseline does.
abbrev pub inside : Shape → Bool
inside (fill b colour) = fits b
inside (panel b radius colour border) = fits b
inside (badge b radius colour) = fits b
inside (picture p b) = fits b
inside (text_left s x y) = leb x dl_w && leb y height
inside (text_center s x y) = leb x dl_w && leb y height

unfoldable pub all_inside : List Shape → Bool
all_inside [] = true
all_inside (s ∷ ss) = inside s && all_inside ss

-- All that is drawn for the download lies within the card, with and without the brand, if the name
-- is 300 pixels wide at most.
pub all_inside-draw :
    (loaded : Bool) (name_w : ℕ) (site_name : Option Text) (code : Text)
    → name_w ≤ 600
    → all_inside (draw loaded name_w site_name code) ≡ true
unfolding all_inside draw draw_brand draw_body
all_inside-draw true name_w site_name code h = ground (arith, h)
all_inside-draw false name_w site_name code h = refl
