-- ===== src/Geometry.antt =====
-- src/core/geometry.cpp: where the popup goes.
pub mod Fits
use fcitx5_emoji_palette.Prelude.{Bool, true, false, not, ◌||◌, if◌then◌else◌}
use fcitx5_emoji_palette.Prelude.Int.{ℤ, pos, ◌+ℤ◌, ◌-ℤ◌, leb_ℤ, ltb_ℤ}
use fcitx5_emoji_palette.Protocol.{Rect}

pub record Point : Type 0 where
  pub x : ℤ
  pub y : ℤ

pub record Size : Type 0 where
  pub width : ℤ
  pub height : ℤ

pub record PopupPlacement : Type 0 where
  pub position : Point
  pub below_caret : Bool

-- `std::max(0, v)`.
unfoldable pub max_zero : ℤ → ℤ
max_zero v = if ltb_ℤ (pos 0) v then v else pos 0

-- `std::clamp`.
unfoldable pub clamp : ℤ → ℤ → ℤ → ℤ
clamp v lo hi = if ltb_ℤ v lo then lo else if ltb_ℤ hi v then hi else v

unfoldable pub place_popup : Rect → Size → Rect → PopupPlacement
place_popup caret popup available =
    let maximum_x = available.x +ℤ max_zero (available.width -ℤ popup.width) in
    let maximum_y = available.y +ℤ max_zero (available.height -ℤ popup.height) in
    let x = clamp caret.x available.x maximum_x in
    let below = caret.y +ℤ max_zero caret.height in
    let above = caret.y -ℤ popup.height in
    let fits_below = leb_ℤ (below +ℤ popup.height) (available.y +ℤ available.height) in
    let fits_above = leb_ℤ available.y above in
    let below_caret = fits_below || not fits_above in
    let y = if below_caret then below else above in
    record {
      position = record { x = x; y = clamp y available.y maximum_y };
      below_caret = below_caret;
    }
