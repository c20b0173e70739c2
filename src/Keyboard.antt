-- ===== src/Keyboard.antt =====
-- src/core/keyboard.cpp: the selection in the grid and the category, under navigation commands.
pub mod Bounds
pub mod Effects
use fcitx5_emoji_palette.Prelude.{
  ℕ, ◌+◌, ◌-◌, ◌*◌, ◌%◌, ◌^◌, min, max, Bool, true, false, ltb, leb, ◌==◌, if◌then◌else◌,
}

pub data NavigationCommand : Type 0 where
  left right up down home end page_up page_down : NavigationCommand
  previous_category next_category select cancel : NavigationCommand

pub data NavigationOutcome : Type 0 where
  unchanged changed category_changed selected cancelled : NavigationOutcome

pub record KeyboardState : Type 0 where
  pub item_count : ℕ
  pub columns : ℕ
  pub visible_rows : ℕ
  pub selected_index : ℕ
  pub category_index : ℕ
  pub category_count : ℕ

abbrev pub initial : KeyboardState
initial = record {
  item_count = 0;
  columns = 1;
  visible_rows = 1;
  selected_index = 0;
  category_index = 0;
  category_count = 1;
}

-- `std::size_t` arithmetic.
abbrev pub add_size : ℕ → ℕ → ℕ
add_size a b = (a + b) % 2 ^ 64

abbrev pub mul_size : ℕ → ℕ → ℕ
mul_size a b = a * b % 2 ^ 64

unfoldable pub set_grid : ℕ → ℕ → ℕ → KeyboardState → KeyboardState
set_grid item_count columns visible_rows s = record s {
  item_count = item_count;
  columns = max 1 columns;
  visible_rows = max 1 visible_rows;
  selected_index = if item_count == 0 then 0 else min s.selected_index (item_count - 1);
}

unfoldable pub set_category : ℕ → ℕ → KeyboardState → KeyboardState
set_category index count s = record s {
  category_count = max 1 count;
  category_index = min index (max 1 count - 1);
}

-- The switch: the new selected index.
unfoldable pub move : NavigationCommand → KeyboardState → ℕ
move left s = if ltb 0 s.selected_index then s.selected_index - 1 else s.selected_index
move right s = min (add_size s.selected_index 1) (s.item_count - 1)
move up s =
    if leb s.columns s.selected_index then s.selected_index - s.columns else s.selected_index
move down s = min (add_size s.selected_index s.columns) (s.item_count - 1)
move home s = 0
move end s = s.item_count - 1
move page_up s =
    let step = mul_size s.columns s.visible_rows in
    if ltb step s.selected_index then s.selected_index - step else 0
move page_down s =
    min (add_size s.selected_index (mul_size s.columns s.visible_rows)) (s.item_count - 1)
move previous_category s = s.selected_index
move next_category s = s.selected_index
move select s = s.selected_index
move cancel s = s.selected_index

-- The part of `dispatch` for commands that move in the grid.
unfoldable pub dispatch_move : NavigationCommand → KeyboardState → NavigationOutcome × KeyboardState
unfolding move
dispatch_move c s =
    if s.item_count == 0
    then (unchanged, s)
    else let index = move c s in
      (
        if index == s.selected_index then unchanged else changed,
        record s { selected_index = index },
      )

unfoldable pub dispatch_category : ℕ → KeyboardState → NavigationOutcome × KeyboardState
dispatch_category next s =
    if leb s.category_count 1
    then (unchanged, s)
    else (category_changed, record s { category_index = next; selected_index = 0 })

unfoldable pub dispatch : NavigationCommand → KeyboardState → NavigationOutcome × KeyboardState
unfolding dispatch_move dispatch_category
dispatch select s = (if s.item_count == 0 then unchanged else selected, s)
dispatch cancel s = (cancelled, s)
dispatch previous_category s =
    dispatch_category
      ((add_size s.category_index s.category_count + 2 ^ 64 - 1) % 2 ^ 64 % s.category_count) s
dispatch next_category s = dispatch_category (add_size s.category_index 1 % s.category_count) s
dispatch c s = dispatch_move c s
