-- ===== src/Router.antt =====
-- src/addon/key_router.cpp: what a key does while the palette is open. What the input method library
-- and the two shortcut matchers say of a key is the parameter `KeyEvent`.
pub mod SearchText
use fcitx5_emoji_palette.Prelude.{
  ℕ, ◌+◌, Bool, true, false, not, ◌&&◌, ◌||◌, Option, none, some, List, [], ◌∷◌, ◌++◌, Bytes,
  length, ltb, leb, ◌==◌, if◌then◌else◌,
}
use fcitx5_emoji_palette.Codes.{is_empty}
use fcitx5_emoji_palette.Utf8.{decode_utf8, encode_utf8}
use fcitx5_emoji_palette.Protocol.{CommandKind, maximum_search_size}

-- The key symbols that the router names.
pub data Symbol : Type 0 where
  escape_key return_key kp_enter_key space_key left_key right_key up_key down_key : Symbol
  home_key end_key page_up_key page_down_key tab_key backspace_key : Symbol

-- `check` without modifiers, `check` of Tab with Shift, `states()`, the two conversions of the symbol,
-- and whether the two chords match.
pub record KeyEvent : Type 0 where
  pub check : Symbol → Bool
  pub check_shift_tab : Bool
  pub has_states : Bool
  pub unicode : ℕ
  pub utf8 : Bytes
  pub favorite_chord : Bool
  pub variants_chord : Bool

pub data Action : Type 0 where
  ignore_key run_command update_search : Action

pub record KeyRoute : Type 0 where
  pub action : Action
  pub command : CommandKind
  pub search_text : Bytes

abbrev pub no_route : KeyRoute
no_route = record { action = ignore_key; command = CommandKind.cancel; search_text = [] }

abbrev pub command_route : CommandKind → KeyRoute
command_route kind = record { action = run_command; command = kind; search_text = [] }

abbrev pub search_update : Bytes → KeyRoute
search_update text = record {
  action = update_search;
  command = CommandKind.search_text;
  search_text = text;
}

unfoldable pub is_printable : KeyEvent → Bool
is_printable key =
    if key.has_states
    then false
    else leb 0x20 key.unicode
      && not (key.unicode == 0x7F)
      && (ltb key.unicode 0x80 || ltb 0x9F key.unicode)

unfoldable pub navigation_command : KeyEvent → Option CommandKind
navigation_command key =
    if key.check left_key
    then some CommandKind.left
    else if key.check right_key
    then some CommandKind.right
    else if key.check up_key
    then some CommandKind.up
    else if key.check down_key
    then some CommandKind.down
    else if key.check home_key
    then some CommandKind.home
    else if key.check end_key
    then some CommandKind.end
    else if key.check page_up_key
    then some CommandKind.page_up
    else if key.check page_down_key
    then some CommandKind.page_down
    else if key.check tab_key
    then some CommandKind.next_category
    else if key.check_shift_tab
    then some CommandKind.previous_category
    else none

-- `pop_back`.
unfoldable pub drop_last : List ℕ → List ℕ
drop_last [] = []
drop_last (c ∷ []) = []
drop_last (c ∷ d ∷ cs) = c ∷ drop_last (d ∷ cs)

-- The search text without its last code point, as it is where there is none or it does not decode.
unfoldable pub erase_last : Option (List ℕ) → Bytes → Bytes
unfolding drop_last
erase_last none search = search
erase_last (some []) search = search
erase_last (some (c ∷ cs)) search = encode_utf8 (drop_last (c ∷ cs))

-- The end of `route`, for a key that is no command and no backspace.
unfoldable pub type_key : KeyEvent → Bytes → KeyRoute
type_key key search =
    if is_printable key
    then (if not (is_empty key.utf8) && leb (length search + length key.utf8) maximum_search_size
        then search_update (search ++ key.utf8)
        else no_route)
    else no_route

-- `route` from the navigation keys on.
unfoldable pub edit_route : Option CommandKind → KeyEvent → Bytes → KeyRoute
unfolding erase_last type_key
edit_route (some navigation) key search = command_route navigation
edit_route none key search =
    if key.check backspace_key
    then search_update (erase_last (decode_utf8 search) search)
    else type_key key search

unfoldable pub route : KeyEvent → Bool → Bytes → KeyRoute
unfolding navigation_command edit_route
route key is_release search =
    if is_release
    then no_route
    else if key.check escape_key
    then command_route CommandKind.cancel
    else if key.check return_key || key.check kp_enter_key || key.check space_key
    then command_route CommandKind.select
    else if key.favorite_chord
    then command_route CommandKind.toggle_favorite
    else if key.variants_chord
    then command_route CommandKind.show_variants
    else edit_route (navigation_command key) key search
