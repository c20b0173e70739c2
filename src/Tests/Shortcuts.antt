-- ===== src/Tests/Shortcuts.antt =====
-- The theorem on the physical keys of the shortcuts, on two small keymaps.
use fcitx5_emoji_palette.Prelude.{
  ℕ, ◌==◌, Bool, true, false, not, Option, some, List, [], ◌∷◌, Bytes, equal, ◌≡◌, refl,
}
use fcitx5_emoji_palette.Codes.{is_empty}
use fcitx5_emoji_palette.Shortcut.{
  Keymap, Library, us, matches, new_matcher, set_layout, set_shortcuts,
}
use fcitx5_emoji_palette.Shortcut.Physical.{Call, sets_layout, sets_shortcuts, run_calls}

-- A key: its symbol, its code and whether Shift is among its states.
abbrev Key : Type 0
Key = ℕ × (ℕ × ℕ)

-- The code 10 is that of ";" on the one keymap and of a Cyrillic letter on the other, 11 is "a".
abbrev symbols_of : ℕ → ℕ → List (List (List ℕ))
symbols_of letter code = elim (code == 10) [
  | true ↦ ((letter ∷ []) ∷ (58 ∷ []) ∷ []) ∷ []
  | false ↦ elim (code == 11) [ true ↦ ((97 ∷ []) ∷ (65 ∷ []) ∷ []) ∷ [] | false ↦ [] ]
]

abbrev keymap_for : Bool → Option Keymap
keymap_for true = some (record { min_code = 9; max_code = 12; symbols = symbols_of 59 })
keymap_for false = some (record { min_code = 9; max_code = 12; symbols = symbols_of 1078 })

abbrev to_upper : ℕ → ℕ
to_upper s = elim (s == 97) [ true ↦ 65 | false ↦ s ]

abbrev has_key : Key → List Key → Bool
has_key (s, (c, m)) [] = false
has_key (s, (c, m)) ((t, (d, n)) ∷ ks) = elim (s == t) [
  | true ↦ elim (c == d) [
    | true ↦ elim (m == n) [ true ↦ true | false ↦ has_key (s, (c, m)) ks ]
    | false ↦ has_key (s, (c, m)) ks
  ]
  | false ↦ has_key (s, (c, m)) ks
]

abbrev library : Library Key
library = record {
  has_code = λ k. not (k.1.0 == 0);
  symbol = λ k. k.0;
  states = λ k. k.1.1;
  from_key_code = λ code states. (0, (code, states));
  has_shift = λ states. states == 1;
  with_shift = λ states. 1;
  to_lower = λ s. s;
  to_upper = to_upper;
  check_key_list = has_key;
  has_context = true;
  find_keymap = λ layout variant. keymap_for (equal layout us);
}

-- "ru-phonetic"
abbrev phonetic : Bytes
phonetic = 114 ∷ 117 ∷ 45 ∷ 112 ∷ 104 ∷ 111 ∷ 110 ∷ 101 ∷ 116 ∷ 105 ∷ 99 ∷ []

abbrev calls : List (Call Key)
calls = sets_shortcuts ((59, (0, 0)) ∷ (97, (0, 0)) ∷ (0, (40, 0)) ∷ []) ∷ sets_layout phonetic ∷ []

physical_shortcuts_test :
    (run_calls library calls (new_matcher library us)).physical_shortcuts
    ≡ (0, (10, 0)) ∷ (0, (11, 0)) ∷ (0, (11, 1)) ∷ (0, (40, 0)) ∷ []
unfolding new_matcher set_layout set_shortcuts is_empty
physical_shortcuts_test = refl

matches_test :
    matches library (0, (9, 0)) (0, (11, 1)) (run_calls library calls (new_matcher library us))
    ≡ true
unfolding matches new_matcher set_layout set_shortcuts is_empty
matches_test = refl
