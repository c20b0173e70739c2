-- ===== src/Geometry/Fits.antt =====
-- src/core/geometry.cpp: the popup of `placePopup` against the available area and the caret.
use fcitx5_emoji_palette.Prelude.{true, false, ◌≡◌, refl, arith, inl, inr, Bool-cases}
use fcitx5_emoji_palette.Prelude.Int.{
  ℤ, pos, ◌+ℤ◌, ◌-ℤ◌, ◌≤ℤ◌, leb_ℤ, ltb_ℤ, +ℤ_parts, -ℤ_parts, eq_of_parts,
}
use fcitx5_emoji_palette.Protocol.{Rect}
use fcitx5_emoji_palette.Geometry.{Size, max_zero, clamp, place_popup}

max_zero_lem : (v : ℤ) → (pos 0 ≤ℤ max_zero v) × (v ≤ℤ max_zero v)
unfolding max_zero
max_zero_lem v = ground arith

max_zero_of_pos : (v : ℤ) → pos 0 ≤ℤ v → max_zero v ≡ v
unfolding max_zero
max_zero_of_pos v h = elim (Bool-cases (ltb_ℤ (pos 0) v)) [
  | inl a ↦ rw (a, max_zero) refl
  | inr a ↦ rw (a, max_zero) (eq_of_parts (pos 0) v (ground (arith, h, a)))
]

clamp_bounds : (v lo hi : ℤ) → lo ≤ℤ hi → (lo ≤ℤ clamp v lo hi) × (clamp v lo hi ≤ℤ hi)
unfolding clamp
clamp_bounds v lo hi h = ground arith

clamp_inside : (v lo hi : ℤ) → lo ≤ℤ v → v ≤ℤ hi → clamp v lo hi ≡ v
unfolding clamp
clamp_inside v lo hi h k = ground arith

-- The range [lo, lo + max 0 (size - extent)] of a clamped coordinate.
clamped_fits :
    (v lo size extent : ℤ)
    → extent ≤ℤ size
    → (lo ≤ℤ clamp v lo (lo +ℤ max_zero (size -ℤ extent)))
      × (clamp v lo (lo +ℤ max_zero (size -ℤ extent)) +ℤ extent ≤ℤ lo +ℤ size)
clamped_fits v lo size extent h =
    let d = size -ℤ extent in
    let e = -ℤ_parts size extent in
    let z = max_zero_of_pos d (omega (arith, e, h)) in
    let s = +ℤ_parts lo d in
    let b = clamp_bounds v lo (lo +ℤ d) (omega (arith, e, s, h)) in
    let p = clamp v lo (lo +ℤ d) in
    let s1 = +ℤ_parts p extent in
    let s2 = +ℤ_parts lo size in rw z (b.0, omega (arith, b.1, e, s, s1, s2))

-- A popup that is no larger than the available area is placed inside it, whatever the caret.
pub place_popup-inside :
    (caret : Rect) (popup : Size) (available : Rect)
    → popup.width ≤ℤ available.width
    → popup.height ≤ℤ available.height
    → (available.x ≤ℤ (place_popup caret popup available).position.x)
      × ((place_popup caret popup available).position.x +ℤ popup.width
          ≤ℤ available.x +ℤ available.width)
      × (available.y ≤ℤ (place_popup caret popup available).position.y)
      × ((place_popup caret popup available).position.y +ℤ popup.height
          ≤ℤ available.y +ℤ available.height)
unfolding place_popup
place_popup-inside caret popup available h k =
    let (x0, x1) = clamped_fits _ available.x available.width popup.width h in
    let (y0, y1) = clamped_fits _ available.y available.height popup.height k in (x0, x1, y0, y1)

-- The upper end of a clamped coordinate lies at the far edge less the extent.
clamped_stays :
    (v lo size extent : ℤ)
    → lo ≤ℤ v
    → v +ℤ extent ≤ℤ lo +ℤ size
    → clamp v lo (lo +ℤ max_zero (size -ℤ extent)) ≡ v
clamped_stays v lo size extent h k =
    let d = size -ℤ extent in
    let e = -ℤ_parts size extent in
    let s = +ℤ_parts lo d in
    let s1 = +ℤ_parts v extent in
    let s2 = +ℤ_parts lo size in
    let z = max_zero_of_pos d (omega (arith, e, s1, s2, h, k)) in
    rw z (clamp_inside v lo (lo +ℤ d) h (omega (arith, e, s, s1, s2, k)))

-- A popup that fits between the lower end of the caret and the lower end of the available area is
-- placed at the lower end of the caret.
pub place_popup-below :
    (caret : Rect) (popup : Size) (available : Rect)
    → available.y ≤ℤ caret.y +ℤ max_zero caret.height
    → (caret.y +ℤ max_zero caret.height) +ℤ popup.height ≤ℤ available.y +ℤ available.height
    → ((place_popup caret popup available).position.y ≡ caret.y +ℤ max_zero caret.height)
      × ((place_popup caret popup available).below_caret ≡ true)
unfolding place_popup
place_popup-below caret popup available h k =
    let a : leb_ℤ ((caret.y +ℤ max_zero caret.height) +ℤ popup.height)
          (available.y +ℤ available.height)
        ≡ true =
      ground arith in
    rw (a, place_popup) (clamped_stays _ available.y available.height popup.height h k, refl)

-- A popup that does not fit below the caret, but fits between the upper end of the available area and
-- the caret, is placed so that it ends where the caret starts, when the caret starts in that area.
pub place_popup-above :
    (caret : Rect) (popup : Size) (available : Rect)
    → available.y +ℤ available.height
      ≤ℤ ((caret.y +ℤ max_zero caret.height) +ℤ popup.height) -ℤ pos 1
    → available.y ≤ℤ caret.y -ℤ popup.height
    → caret.y ≤ℤ available.y +ℤ available.height
    → ((place_popup caret popup available).position.y +ℤ popup.height ≡ caret.y)
      × ((place_popup caret popup available).below_caret ≡ false)
unfolding place_popup
place_popup-above caret popup available h k l =
    let below = (caret.y +ℤ max_zero caret.height) +ℤ popup.height in
    let above = caret.y -ℤ popup.height in
    let s0 = -ℤ_parts below (pos 1) in
    let s1 = -ℤ_parts caret.y popup.height in
    let s2 = +ℤ_parts above popup.height in
    let a : leb_ℤ below (available.y +ℤ available.height) ≡ false = ground (arith, s0) in
    let b : leb_ℤ available.y above ≡ true = ground arith in
    let q : above +ℤ popup.height ≡ caret.y = eq_of_parts _ _ (omega (arith, s1, s2)) in
    let r = clamped_stays above available.y available.height popup.height k (rw q l) in
    rw (a, b, place_popup) (rw r q, refl)
