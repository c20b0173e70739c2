-- ===== src/Keyboard/Bounds.antt =====
-- src/core/keyboard.cpp: the ranges of the indices.
use fcitx5_emoji_palette.Prelude.{ℕ, ◌+◌, ◌-◌, ◌*◌, ◌%◌, ◌^◌, ◌≤◌, ◌<◌, max, arith}
use fcitx5_emoji_palette.Keyboard.{
  NavigationCommand, previous_category, next_category, select, KeyboardState, initial, set_grid,
  set_category, dispatch, add_size,
}

-- The fields of a grid that is in use: sizes far below the wrap-around of `std::size_t`.
pub record IsValid (s : KeyboardState) : Type 0 where
  pub some_column : 1 ≤ s.columns
  pub some_row : 1 ≤ s.visible_rows
  pub some_category : 1 ≤ s.category_count
  pub in_grid : s.selected_index ≤ s.item_count - 1
  pub in_categories : s.category_index < s.category_count
  pub items_fit : s.item_count < 2 ^ 62
  pub page_fits : s.columns * s.visible_rows < 2 ^ 62
  pub columns_fit : s.columns < 2 ^ 62
  pub categories_fit : s.category_count < 2 ^ 62

pub initial-IsValid : IsValid initial
initial-IsValid = omega arith

-- Setting a grid keeps a valid state valid, when the items and the columns are fewer than 2 ^ 62 and
-- the cells of a page too, with a column and a row at least.
pub set_grid-IsValid :
    (n c r : ℕ) {s : KeyboardState}
    → IsValid s
    → n < 2 ^ 62
    → c < 2 ^ 62
    → max 1 c * max 1 r < 2 ^ 62
    → IsValid (set_grid n c r s)
unfolding set_grid
set_grid-IsValid n c r v hn hc hp = ground arith

-- Setting the category keeps a valid state valid, when there are fewer than 2 ^ 62 categories.
pub set_category-IsValid :
    (i n : ℕ) {s : KeyboardState} → IsValid s → n < 2 ^ 62 → IsValid (set_category i n s)
unfolding set_category
set_category-IsValid i n v hn = ground arith

mod_lt : (a n : ℕ) → 1 ≤ n → a % n < n
mod_lt a n h = grind arith

-- Whatever the command, the selection stays in the grid and the category in its range.
pub dispatch-IsValid :
    (c : NavigationCommand) {s : KeyboardState} → IsValid s → IsValid (dispatch c s).1
unfolding dispatch
dispatch-IsValid select v = v
dispatch-IsValid previous_category {s} v = ground (
  arith,
  mod_lt ((add_size s.category_index s.category_count + 2 ^ 64 - 1) % 2 ^ 64) s.category_count,
)
dispatch-IsValid next_category {s} v =
    ground (arith, mod_lt (add_size s.category_index 1) s.category_count)
dispatch-IsValid _ v = ground arith
