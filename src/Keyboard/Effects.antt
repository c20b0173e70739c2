-- ===== src/Keyboard/Effects.antt =====
-- src/core/keyboard.cpp: the outcomes of `dispatch` and the category commands.
use fcitx5_emoji_palette.Prelude.{
  ℕ, ◌+◌, ◌-◌, ◌%◌, ◌^◌, ◌≤◌, ◌<◌, true, false, ◌≡◌, ◌≢◌, refl, ap, arith, inl, inr, ltb, leb, ◌==◌,
  if◌then◌else◌, Bool-cases,
}
use fcitx5_emoji_palette.Keyboard.{
  NavigationCommand, left, right, up, down, home, end, page_up, page_down, previous_category,
  next_category, select, cancel, NavigationOutcome, unchanged, changed, category_changed, selected,
  cancelled, KeyboardState, move, dispatch_category, dispatch_move, dispatch, add_size,
}
use native.Mathlib.Nat.{mod_self, mod-eq_of_lt}
use fcitx5_emoji_palette.Keyboard.Bounds.{IsValid}

next_index : (c n : ℕ) → c < n → n < 2 ^ 62 → add_size c 1 % n ≡ (if c + 1 == n then 0 else c + 1)
next_index c n h k =
    let e : add_size c 1 ≡ c + 1 = omega arith in
    elim (Bool-cases (c + 1 == n)) [
      | inl a ↦ let q : c + 1 ≡ n = ground (arith, a) in rw (a, e, q) (mod_self n)
      | inr a ↦ let q : c + 1 < n = ground (arith, a) in rw (a, e) (mod-eq_of_lt q)
    ]

previous_index :
    (c n : ℕ)
    → c < n
    → n < 2 ^ 62
    → (add_size c n + 2 ^ 64 - 1) % 2 ^ 64 % n ≡ (if c == 0 then n - 1 else c - 1)
previous_index c n h k = grind arith

-- The state a call of `dispatch` leaves, by its outcome.
abbrev pub Effect : KeyboardState → NavigationOutcome × KeyboardState → Type 0
Effect s (unchanged, s') = s' ≡ s
Effect s (changed, s') =
    (s'.selected_index ≢ s.selected_index) × (s' ≡ record s { selected_index = s'.selected_index })
Effect s (category_changed, s') =
    (s'.category_index ≢ s.category_index)
    × (s' ≡ record s { selected_index = 0; category_index = s'.category_index })
Effect s (selected, s') = (1 ≤ s.item_count) × (s' ≡ s)
Effect s (cancelled, s') = s' ≡ s

dispatch_move-Effect : (c : NavigationCommand) (s : KeyboardState) → Effect s (dispatch_move c s)
unfolding dispatch_move
dispatch_move-Effect c s = elim (Bool-cases (s.item_count == 0)) [
  | inl a ↦ rw (a, dispatch_move) refl
  | inr a ↦ elim (Bool-cases (move c s == s.selected_index)) [
    | inl b ↦
        rw (a, b, dispatch_move) (ap (λ i. record s { selected_index = i }) (ground (arith, b)))
    | inr b ↦ rw (a, b, dispatch_move) (λ e. ground (arith, b, e), refl)
  ]
]

dispatch_category-Effect :
    (n : ℕ) (s : KeyboardState)
    → (ltb 1 s.category_count ≡ true → n ≢ s.category_index)
    → Effect s (dispatch_category n s)
unfolding dispatch_category
dispatch_category-Effect n s h = elim (Bool-cases (leb s.category_count 1)) [
  | inl a ↦ rw (a, dispatch_category) refl
  | inr a ↦ rw (a, dispatch_category) (h (ground (arith, a)), refl)
]

-- For a valid state: `unchanged` and `cancelled` leave the state as it is; `selected` too, and there is
-- an item; `changed` has moved the selected index and nothing else; `category_changed` has moved the
-- category, selected the first item and changed nothing else.
dispatch-Effect : (c : NavigationCommand) {s : KeyboardState} → IsValid s → Effect s (dispatch c s)
unfolding dispatch
dispatch-Effect select {s} v = elim (Bool-cases (s.item_count == 0)) [
  | inl a ↦ rw (a, dispatch) refl
  | inr a ↦ rw (a, dispatch) (ground (arith, a), refl)
]
dispatch-Effect cancel v = refl
dispatch-Effect previous_category {s} v =
    let h = previous_index s.category_index s.category_count v.in_categories v.categories_fit in
    dispatch_category-Effect _ s (λ e q. ground (arith, h, e, q))
dispatch-Effect next_category {s} v =
    let h = next_index s.category_index s.category_count v.in_categories v.categories_fit in
    dispatch_category-Effect _ s (λ e q. ground (arith, h, e, q))
dispatch-Effect left {s} v = dispatch_move-Effect left s
dispatch-Effect right {s} v = dispatch_move-Effect right s
dispatch-Effect up {s} v = dispatch_move-Effect up s
dispatch-Effect down {s} v = dispatch_move-Effect down s
dispatch-Effect home {s} v = dispatch_move-Effect home s
dispatch-Effect end {s} v = dispatch_move-Effect end s
dispatch-Effect page_up {s} v = dispatch_move-Effect page_up s
dispatch-Effect page_down {s} v = dispatch_move-Effect page_down s

-- In a valid state with two categories or more, going to the next category and back is at the category
-- it started from, and so is going to the previous one and back.
pub dispatch-opposite_categories :
    {s : KeyboardState}
    → IsValid s
    → 2 ≤ s.category_count
    → ((dispatch previous_category (dispatch next_category s).1).1.category_index
        ≡ s.category_index)
      × ((dispatch next_category (dispatch previous_category s).1).1.category_index
          ≡ s.category_index)
unfolding dispatch dispatch_category
dispatch-opposite_categories {s} v k =
    let c = s.category_index in
    let n = s.category_count in
    let a : leb n 1 ≡ false = ground arith in
    let h = next_index c n v.in_categories v.categories_fit in
    let i = if c + 1 == n then 0 else c + 1 in
    let j = if c == 0 then n - 1 else c - 1 in
    let p = previous_index c n v.in_categories v.categories_fit in
    let h2 = next_index j n (ground (arith, k)) v.categories_fit in
    let p2 = previous_index i n (ground (arith, k)) v.categories_fit in
    (rw (a, h, p2) (ground (arith, k)), rw (a, p, h2) (ground (arith, k)))
