-- ===== src/Shortcut/Physical.antt =====
-- src/addon/shortcut_matcher.cpp: the physical keys are those of the present layout and shortcuts.
use fcitx5_emoji_palette.Prelude.{
  ℕ, zero, suc, ◌+◌, ◌-◌, ◌^◌, ◌≤◌, ◌<◌, Bool, true, false, not, ◌||◌, Option, none, some, List, [],
  ◌∷◌, ◌++◌, Bytes, equal, if◌then◌else◌, ◌≡◌,
}
use fcitx5_emoji_palette.Shortcut.{
  Keymap, Library, ShortcutMatcher, us, split_layout, name_or_us, set_layout, set_shortcuts,
}
use fcitx5_emoji_palette.Shortcut.Expected.{keys_of_code}

abbrev pub codes : ℕ → ℕ → List ℕ
codes zero code = []
codes (suc n) code = code ∷ codes n (code + 1)

abbrev pub is_null : {A : Type 0} → List A → Bool
is_null [] = true
is_null (_ ∷ _) = false

-- What the library of keymaps promises of the range of the keycodes, which are numbers of 32 bits.
abbrev pub IsRange : Option Keymap → Type 0
IsRange none = Unit
IsRange (some m) = (m.min_code ≤ m.max_code) × (m.max_code < 2 ^ 32)

-- The calls that change a matcher.
pub data Call (K : Type 0) : Type 0 where
  sets_layout : Bytes → Call K
  sets_shortcuts : List K → Call K

module _ {K : Type 0} where
  -- The keys of some codes that bear the symbol of a shortcut.
  abbrev pub keys_at : Library K → Keymap → K → List ℕ → List K
  keys_at lib m k [] = []
  keys_at lib m k (c ∷ cs) = keys_of_code lib m k c ++ keys_at lib m k cs

  abbrev pub keys_on : Library K → Option Keymap → K → List K
  keys_on lib none k = []
  keys_on lib (some m) k = keys_at lib m k (codes (suc (m.max_code - m.min_code)) m.min_code)

  -- A shortcut given by its code stands for itself; another for its keys on the keymap, or on the
  -- fallback where there are none.
  abbrev pub keys_for : Library K → Option Keymap → Option Keymap → K → List K
  keys_for lib keymap fallback k =
      if lib.has_code k
      then k ∷ []
      else if is_null (keys_on lib keymap k)
      then keys_on lib fallback k
      else keys_on lib keymap k

  abbrev pub keys_for_all : Library K → Option Keymap → Option Keymap → List K → List K
  keys_for_all lib keymap fallback [] = []
  keys_for_all lib keymap fallback (k ∷ ks) =
      keys_for lib keymap fallback k ++ keys_for_all lib keymap fallback ks

  -- No key at all without a keymap.
  abbrev pub keys_with : Library K → Option Keymap → Option Keymap → List K → List K
  keys_with lib none none ks = []
  keys_with lib (some m) fallback ks = keys_for_all lib (some m) fallback ks
  keys_with lib none (some f) ks = keys_for_all lib none (some f) ks

  abbrev pub extend : Bool × List K → List K → Bool × List K
  extend s l = (s.0 || not (is_null l), s.1 ++ l)

  -- The keys that a layout, a variant and the shortcuts determine.
  abbrev pub keys_of : Library K → Bytes → Bytes → List K → List K
  keys_of lib layout variant ks =
      if lib.has_context
      then keys_with lib (lib.find_keymap layout variant)
          (if equal layout us then none else lib.find_keymap us []) ks
      else []

  abbrev pub IsCurrent : Library K → ShortcutMatcher K → Type 0
  IsCurrent lib s = s.physical_shortcuts ≡ keys_of lib s.layout s.variant s.shortcuts

  abbrev pub IsSound : Library K → Type 0
  IsSound lib = (layout variant : Bytes) → IsRange (lib.find_keymap layout variant)

  -- The matcher stands for a layout as it was given, and for some shortcuts.
  abbrev pub StandsFor : Library K → Bytes → List K → ShortcutMatcher K → Type 0
  StandsFor lib layout ks s =
      (s.layout ≡ name_or_us (split_layout layout).0)
      × (s.variant ≡ (split_layout layout).1)
      × (s.shortcuts ≡ ks)
      × IsCurrent lib s

  abbrev pub run_calls : Library K → List (Call K) → ShortcutMatcher K → ShortcutMatcher K
  run_calls lib [] s = s
  run_calls lib (sets_layout layout ∷ cs) s = run_calls lib cs (set_layout lib layout s)
  run_calls lib (sets_shortcuts ks ∷ cs) s = run_calls lib cs (set_shortcuts lib ks s)

  -- The layout and the shortcuts that were given last.
  abbrev pub last_layout : List (Call K) → Bytes → Bytes
  last_layout [] l = l
  last_layout (sets_layout layout ∷ cs) l = last_layout cs layout
  last_layout (sets_shortcuts ks ∷ cs) l = last_layout cs l

  abbrev pub last_shortcuts : List (Call K) → List K → List K
  last_shortcuts [] l = l
  last_shortcuts (sets_layout layout ∷ cs) l = last_shortcuts cs l
  last_shortcuts (sets_shortcuts ks ∷ cs) l = last_shortcuts cs ks
