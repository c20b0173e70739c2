-- ===== src/Window/Moves.antt =====
-- src/ui/palette_window.cpp: what navigation leaves of the keyboard state.
use fcitx5_emoji_palette.Prelude.{
  ℕ, ◌-◌, ◌%◌, ◌≤◌, ◌<◌, ◌==◌, leb, ◌≡◌, arith, inl, inr, Bool-cases,
}
use fcitx5_emoji_palette.Keyboard.{
  NavigationCommand, NavigationOutcome, category_changed, KeyboardState, dispatch, dispatch_move,
  dispatch_category, move, left, right, up, down, home, end, page_up, page_down, previous_category,
  next_category, select, cancel,
}
use fcitx5_emoji_palette.Window.Fresh.{Fits}

-- What a command leaves of the keyboard state.
abbrev pub After : ℕ → ℕ → NavigationOutcome × KeyboardState → Type 0
After count index (category_changed, k) = k.category_index < 12
After count index (_, k) = Fits count index k

mod_twelve : (a n : ℕ) → n ≡ 12 → a % n < 12
mod_twelve a n h = rw h (omega arith)

move-in_grid :
    (c : NavigationCommand) (k : KeyboardState)
    → k.selected_index ≤ k.item_count - 1
    → move c k ≤ k.item_count - 1
unfolding move
move-in_grid left k h = ground (arith, h)
move-in_grid right k h = ground (arith, h)
move-in_grid up k h = ground (arith, h)
move-in_grid down k h = ground (arith, h)
move-in_grid home k h = ground (arith, h)
move-in_grid end k h = ground (arith, h)
move-in_grid page_up k h = ground (arith, h)
move-in_grid page_down k h = ground (arith, h)
move-in_grid previous_category k h = h
move-in_grid next_category k h = h
move-in_grid select k h = h
move-in_grid cancel k h = h

dispatch_move-After :
    {count index : ℕ} (c : NavigationCommand) (k : KeyboardState)
    → Fits count index k
    → After count index (dispatch_move c k)
unfolding dispatch_move
dispatch_move-After {count} {index} c k f =
    let m = move-in_grid c k (omega (arith, f.in_grid, f.counted)) in
    let moved : Fits count index (record k { selected_index = move c k }) = record {
      counted = f.counted;
      in_grid = omega (arith, m, f.counted);
      same_index = f.same_index;
      all_categories = f.all_categories;
    } in
    elim (Bool-cases (k.item_count == 0)) [
      | inl e ↦ rw (e, dispatch_move) f
      | inr e ↦ elim (Bool-cases (move c k == k.selected_index)) [
        | inl s ↦ rw (e, s, dispatch_move) moved
        | inr s ↦ rw (e, s, dispatch_move) moved
      ]
    ]

dispatch_category-After :
    {count index : ℕ} (next : ℕ) (k : KeyboardState)
    → Fits count index k
    → next < 12
    → After count index (dispatch_category next k)
unfolding dispatch_category
dispatch_category-After next k f h = elim (Bool-cases (leb k.category_count 1)) [
  | inl e ↦ rw (e, dispatch_category) f
  | inr e ↦ rw (e, dispatch_category) h
]

pub dispatch-After :
    {count index : ℕ} (c : NavigationCommand) (k : KeyboardState)
    → Fits count index k
    → After count index (dispatch c k)
unfolding dispatch
dispatch-After select k f = elim (Bool-cases (k.item_count == 0)) [
  | inl e ↦ rw (e, dispatch) f
  | inr e ↦ rw (e, dispatch) f
]
dispatch-After cancel k f = f
dispatch-After previous_category k f =
    dispatch_category-After _ k f (mod_twelve _ k.category_count f.all_categories)
dispatch-After next_category k f =
    dispatch_category-After _ k f (mod_twelve _ k.category_count f.all_categories)
dispatch-After left k f = dispatch_move-After left k f
dispatch-After right k f = dispatch_move-After right k f
dispatch-After up k f = dispatch_move-After up k f
dispatch-After down k f = dispatch_move-After down k f
dispatch-After home k f = dispatch_move-After home k f
dispatch-After end k f = dispatch_move-After end k f
dispatch-After page_up k f = dispatch_move-After page_up k f
dispatch-After page_down k f = dispatch_move-After page_down k f
