-- ===== src/Tests/View.antt =====
-- The theorems on the grid, the popup and the glyphs at concrete inputs.
use fcitx5_emoji_palette.Prelude.{ℕ, Bool, some, [], ◌∷◌, ◌==◌, arith}
use fcitx5_emoji_palette.Prelude.Int.{pos, ◌+ℤ◌, ◌-ℤ◌, ◌≤ℤ◌}
use fcitx5_emoji_palette.Protocol.{Rect}
use fcitx5_emoji_palette.Utf8.{encode_utf8}
use fcitx5_emoji_palette.Keyboard.{KeyboardState, down, dispatch}
use fcitx5_emoji_palette.Keyboard.Bounds.{IsValid, dispatch-IsValid}
use fcitx5_emoji_palette.Geometry.{Size, place_popup, max_zero}
use fcitx5_emoji_palette.Geometry.Fits.{place_popup-inside}
use fcitx5_emoji_palette.Glyph.{inspect_glyph_coverage}
use fcitx5_emoji_palette.Glyph.Missing.{Verdict, inspect_glyph_coverage-Verdict}
use fcitx5_emoji_palette.Tests.Strings.{euro_and_smile, euro_and_smile-IsScalar}

-- 25 items in 8 columns, in the last of 3 categories.
abbrev grid : KeyboardState
grid = record {
  item_count = 25;
  columns = 8;
  visible_rows = 4;
  selected_index = 20;
  category_index = 2;
  category_count = 3;
}

grid-IsValid : IsValid grid
grid-IsValid = record {
  some_column = omega arith;
  some_row = omega arith;
  some_category = omega arith;
  in_grid = omega arith;
  in_categories = omega arith;
  items_fit = omega arith;
  page_fits = omega arith;
  columns_fit = omega arith;
  categories_fit = omega arith;
}

dispatch-IsValid_example : IsValid (dispatch down grid).1
dispatch-IsValid_example = dispatch-IsValid down grid-IsValid

abbrev screen : Rect
screen = record { x = pos 0; y = pos 0; width = pos 1920; height = pos 1080 }

abbrev popup : Size
popup = record { width = pos 400; height = pos 300 }

abbrev high_caret : Rect
high_caret = record { x = pos 1800; y = pos 100; width = pos 2; height = pos 20 }

abbrev low_caret : Rect
low_caret = record { x = pos 1800; y = pos 900; width = pos 2; height = pos 20 }

place_popup-inside_example :
    (pos 0 ≤ℤ (place_popup low_caret popup screen).position.x)
    × ((place_popup low_caret popup screen).position.x +ℤ pos 400 ≤ℤ pos 0 +ℤ pos 1920)
    × (pos 0 ≤ℤ (place_popup low_caret popup screen).position.y)
    × ((place_popup low_caret popup screen).position.y +ℤ pos 300 ≤ℤ pos 0 +ℤ pos 1080)
place_popup-inside_example = place_popup-inside low_caret popup screen (omega arith) (omega arith)

below_starts_inside : screen.y ≤ℤ high_caret.y +ℤ max_zero high_caret.height
unfolding ◌+ℤ◌ max_zero
below_starts_inside = omega arith

below_has_room :
    (high_caret.y +ℤ max_zero high_caret.height) +ℤ popup.height ≤ℤ screen.y +ℤ screen.height
unfolding ◌+ℤ◌ max_zero
below_has_room = omega arith

below_has_no_room :
    screen.y +ℤ screen.height
    ≤ℤ ((low_caret.y +ℤ max_zero low_caret.height) +ℤ popup.height) -ℤ pos 1
unfolding ◌+ℤ◌ ◌-ℤ◌ max_zero
below_has_no_room = omega arith

above_has_room : screen.y ≤ℤ low_caret.y -ℤ popup.height
unfolding ◌-ℤ◌
above_has_room = omega arith

caret_starts_inside : low_caret.y ≤ℤ screen.y +ℤ screen.height
unfolding ◌+ℤ◌
caret_starts_inside = omega arith

-- A font with the sign of the euro alone.
abbrev euro_font : ℕ → Bool
euro_font c = c == 0x20AC

inspect_glyph_coverage-Verdict_example :
    Verdict euro_font euro_and_smile
      (inspect_glyph_coverage (encode_utf8 euro_and_smile) (some euro_font))
inspect_glyph_coverage-Verdict_example =
    inspect_glyph_coverage-Verdict euro_font 0x20AC (0x1F600 ∷ []) euro_and_smile-IsScalar
