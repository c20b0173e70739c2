-- ===== src/Shortcut.antt =====
-- src/addon/shortcut_matcher.cpp: the shortcuts, and the physical keys that stand for them.

pub mod Expected
pub mod Physical
use fcitx5_emoji_palette.Prelude.{
  ℕ, zero, suc, ◌+◌, ◌-◌, ◌%◌, ◌^◌, leb, Bool, true, false, not, ◌&&◌, ◌||◌, Option, none, some,
  List, [], ◌∷◌, ◌++◌, Bytes, equal, ◌==◌, if◌then◌else◌, any,
}
use fcitx5_emoji_palette.Codes.{is_empty}

-- A keymap of xkbcommon: its range of keycodes, and the symbols of a keycode by layout and by level.
pub record Keymap : Type 0 where
  pub min_code : ℕ
  pub max_code : ℕ
  pub symbols : ℕ → List (List (List ℕ))

-- What fcitx::Key and xkbcommon answer, for a type K of keys. `has_context` says whether a context can
-- be made, `find_keymap` compiles the keymap of a layout and a variant.
pub record Library (K : Type 0) : Type 0 where
  pub has_code : K → Bool
  pub symbol : K → ℕ
  pub states : K → ℕ
  pub from_key_code : ℕ → ℕ → K
  pub has_shift : ℕ → Bool
  pub with_shift : ℕ → ℕ
  pub to_lower : ℕ → ℕ
  pub to_upper : ℕ → ℕ
  pub check_key_list : K → List K → Bool
  pub has_context : Bool
  pub find_keymap : Bytes → Bytes → Option Keymap

pub record ShortcutMatcher (K : Type 0) : Type 0 where
  pub layout : Bytes
  pub variant : Bytes
  pub shortcuts : List K
  pub physical_shortcuts : List K

-- The character before a variant, and the layout "us".
abbrev pub separator : ℕ
separator = 45

abbrev pub us : Bytes
us = 117 ∷ 115 ∷ []

abbrev pub add_head : ℕ → Bytes × Bytes → Bytes × Bytes
add_head c parts = (c ∷ parts.0, parts.1)

-- The bytes before the first separator and those behind it.
unfoldable pub split_layout : Bytes → Bytes × Bytes
split_layout [] = ([], [])
split_layout (c ∷ rest) =
    let parts = split_layout rest in if c == separator then ([], rest) else add_head c parts

-- The loops over the layouts, the levels and the symbols end with the first symbol found.
unfoldable pub has_symbol : ℕ → Keymap → ℕ → Bool
has_symbol symbol m code =
    any (λ levels. any (λ symbols. any (λ s. s == symbol) symbols) levels) (m.symbols code)

-- `std::numeric_limits<int>::max()`
abbrev pub maximum_int : ℕ
maximum_int = 2147483647

unfoldable pub is_found : ℕ → Keymap → ℕ → Bool
unfolding has_symbol
is_found symbol m code = has_symbol symbol m code && leb code maximum_int

-- The name of a layout, "us" where there is none.
unfoldable pub name_or_us : Bytes → Bytes
name_or_us name = if is_empty name then us else name

module _ {K : Type 0} where
  -- The key of a code, and that with Shift where the symbol has two cases.
  unfoldable pub physical_keys : Library K → K → ℕ → List K
  physical_keys lib k code =
      lib.from_key_code code (lib.states k)
      ∷ (if not (lib.to_lower (lib.symbol k) == lib.to_upper (lib.symbol k))
            && not (lib.has_shift (lib.states k))
          then lib.from_key_code code (lib.with_shift (lib.states k)) ∷ []
          else [])

  -- One round of the loop of `appendKeycodes`; the state is `matched` and the list.
  unfoldable pub append_code : Library K → Keymap → K → ℕ → Bool × List K → Bool × List K
  unfolding is_found physical_keys
  append_code lib m k code s =
      if is_found (lib.symbol k) m code then (true, s.1 ++ physical_keys lib k code) else s

  -- The loop, on fuel: it ends behind the round of the last code.
  unfoldable pub append_from : ℕ → Library K → Keymap → K → ℕ → Bool × List K → Bool × List K
  unfolding append_code
  append_from zero lib m k code s = s
  append_from (suc fuel) lib m k code s =
      let next = append_code lib m k code s in
      elim (code == m.max_code) [
        | true ↦ next
        | false ↦ append_from fuel lib m k ((code + 1) % 2 ^ 32) next
      ]

  -- The fuel is the number of the codes from the first to the last, on 32 bits.
  unfoldable pub append_keycodes : Library K → Option Keymap → K → List K → Bool × List K
  unfolding append_from
  append_keycodes lib none k keys = (false, keys)
  append_keycodes lib (some m) k keys =
      append_from (suc ((m.max_code + 2 ^ 32 - m.min_code) % 2 ^ 32)) lib m k m.min_code
        (false, keys)

  -- One round of the loop of `rebuildPhysicalShortcuts`.
  unfoldable pub append_shortcut : Library K → Option Keymap → Option Keymap → K → List K → List K
  unfolding append_keycodes
  append_shortcut lib keymap fallback k keys =
      let r = append_keycodes lib keymap k keys in
      if lib.has_code k
      then keys ++ k ∷ []
      else if not r.0
      then (append_keycodes lib fallback k r.1).1
      else r.1

  unfoldable pub append_shortcuts :
      Library K → Option Keymap → Option Keymap → List K → List K → List K
  unfolding append_shortcut
  append_shortcuts lib keymap fallback [] keys = keys
  append_shortcuts lib keymap fallback (k ∷ ks) keys =
      append_shortcuts lib keymap fallback ks (append_shortcut lib keymap fallback k keys)

  unfoldable pub with_keymaps : Library K → Option Keymap → Option Keymap → List K → List K
  unfolding append_shortcuts
  with_keymaps lib none none shortcuts = []
  with_keymaps lib (some m) fallback shortcuts = append_shortcuts lib (some m) fallback shortcuts []
  with_keymaps lib none (some f) shortcuts = append_shortcuts lib none (some f) shortcuts []

  unfoldable pub fallback_for : Library K → Bytes → Option Keymap
  fallback_for lib layout = if equal layout us then none else lib.find_keymap us []

  unfoldable pub rebuild_physical_shortcuts : Library K → ShortcutMatcher K → ShortcutMatcher K
  unfolding with_keymaps fallback_for
  rebuild_physical_shortcuts lib s =
      let keys =
        with_keymaps lib (lib.find_keymap s.layout s.variant) (fallback_for lib s.layout)
          s.shortcuts in
      record s { physical_shortcuts = if not lib.has_context then [] else keys }

  unfoldable pub set_layout : Library K → Bytes → ShortcutMatcher K → ShortcutMatcher K
  unfolding split_layout name_or_us rebuild_physical_shortcuts
  set_layout lib layout s =
      let parts = split_layout layout in
      if equal s.layout (name_or_us parts.0) && equal s.variant parts.1
      then s
      else rebuild_physical_shortcuts lib
          (record s { layout = name_or_us parts.0; variant = parts.1 })

  unfoldable pub set_shortcuts : Library K → List K → ShortcutMatcher K → ShortcutMatcher K
  unfolding rebuild_physical_shortcuts
  set_shortcuts lib shortcuts s =
      rebuild_physical_shortcuts lib (record s { shortcuts = shortcuts })

  unfoldable pub new_matcher : Library K → Bytes → ShortcutMatcher K
  unfolding set_layout
  new_matcher lib layout =
      set_layout lib layout
        (record { layout = []; variant = []; shortcuts = []; physical_shortcuts = [] })

  unfoldable pub matches : Library K → K → K → ShortcutMatcher K → Bool
  matches lib key original_key s =
      lib.check_key_list key s.shortcuts || lib.check_key_list original_key s.physical_shortcuts
