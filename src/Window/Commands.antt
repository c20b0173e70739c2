-- ===== src/Window/Commands.antt =====
-- src/ui/palette_window.cpp: the commands of the addon and the clicks of the user.
use fcitx5_emoji_palette.Prelude.{
  ℕ, zero, suc, max, min, Bool, true, false, not, Option, none, some, List, [], ◌∷◌, Bytes,
  if◌then◌else◌,
}
use fcitx5_emoji_palette.Protocol.{CommandKind, CancelReason, Show, Command, english}
use fcitx5_emoji_palette.Catalog.{EmojiCatalog}
use fcitx5_emoji_palette.Glyph.{GlyphProbe}
use fcitx5_emoji_palette.State.{PersistentState}
use fcitx5_emoji_palette.State.File.{empty_state}
use fcitx5_emoji_palette.Keyboard.{
  NavigationCommand, NavigationOutcome, unchanged, changed, category_changed, selected, cancelled,
  initial, dispatch,
}
use fcitx5_emoji_palette.ListModel.{rebuild, new_model, record_at}
use fcitx5_emoji_palette.Window.{
  cancellation_requested, Surroundings, PaletteWindow, set_settings_panel_visible, update_selection,
  refresh_grid, set_category, update_search, emit, hide_palette, choose_sequence, choose_record,
  activate_current, toggle_current_favorite, show_current_variants,
}

-- The switch of `handleCommand`; `none` is its default.
unfoldable pub navigation_of : CommandKind → Option NavigationCommand
navigation_of CommandKind.left = some NavigationCommand.left
navigation_of CommandKind.right = some NavigationCommand.right
navigation_of CommandKind.up = some NavigationCommand.up
navigation_of CommandKind.down = some NavigationCommand.down
navigation_of CommandKind.home = some NavigationCommand.home
navigation_of CommandKind.end = some NavigationCommand.end
navigation_of CommandKind.page_up = some NavigationCommand.page_up
navigation_of CommandKind.page_down = some NavigationCommand.page_down
navigation_of CommandKind.previous_category = some NavigationCommand.previous_category
navigation_of CommandKind.next_category = some NavigationCommand.next_category
navigation_of CommandKind.select = some NavigationCommand.select
navigation_of CommandKind.search_text = none
navigation_of CommandKind.toggle_favorite = none
navigation_of CommandKind.show_variants = none
navigation_of CommandKind.cancel = none

-- The end of `handleCommand`, by the outcome.
unfoldable pub after_dispatch :
    EmojiCatalog → Surroundings → NavigationOutcome → PaletteWindow → PaletteWindow
unfolding set_category activate_current update_selection
after_dispatch catalog env category_changed w = set_category catalog env w.keyboard.category_index w
after_dispatch catalog env selected w = activate_current catalog env w
after_dispatch catalog env changed w = update_selection catalog w
after_dispatch catalog env unchanged w = w
after_dispatch catalog env cancelled w = w

unfoldable pub navigate :
    EmojiCatalog → Surroundings → Option NavigationCommand → PaletteWindow → PaletteWindow
unfolding after_dispatch
navigate catalog env none w = w
navigate catalog env (some navigation) w =
    let (outcome, keyboard) = dispatch navigation w.keyboard in
    after_dispatch catalog env outcome (record w { keyboard = keyboard })

unfoldable pub cancel_command : PaletteWindow → PaletteWindow
unfolding set_settings_panel_visible emit
cancel_command w =
    if w.settings_visible
    then set_settings_panel_visible false w
    else emit (cancellation_requested CancelReason.user) w

-- `handleCommand`, by the kind of the command.
unfoldable pub handle_kind :
    EmojiCatalog → Surroundings → CommandKind → Bytes → PaletteWindow → PaletteWindow
unfolding update_search toggle_current_favorite show_current_variants cancel_command navigate
    navigation_of
handle_kind catalog env CommandKind.search_text text w = update_search catalog env text w
handle_kind catalog env CommandKind.toggle_favorite text w = toggle_current_favorite catalog env w
handle_kind catalog env CommandKind.show_variants text w = show_current_variants catalog w
handle_kind catalog env CommandKind.cancel text w = cancel_command w
handle_kind catalog env kind text w = navigate catalog env (navigation_of kind) w

unfoldable pub handle_command :
    EmojiCatalog → Surroundings → Command → PaletteWindow → PaletteWindow
unfolding handle_kind
handle_command catalog env c w = handle_kind catalog env c.kind c.text w

unfoldable pub show_palette : EmojiCatalog → Surroundings → Show → PaletteWindow → PaletteWindow
unfolding update_search
show_palette catalog env request w =
    let t = record w {
      close_after_selection = request.close_after_selection;
      locale = request.locale;
    } in
    record (if not w.visible then update_search catalog env [] t else t) { visible = true }

-- The slot of a click on the grid.
unfoldable pub click_row : EmojiCatalog → Surroundings → Option ℕ → PaletteWindow → PaletteWindow
unfolding choose_record
click_row catalog env index w =
    choose_record catalog env (record_at index w.model) (record w { current = index })

-- The slot of a click with the other button; `none` is an index that is not valid.
unfoldable pub open_menu : EmojiCatalog → Option ℕ → PaletteWindow → PaletteWindow
unfolding show_current_variants
open_menu catalog none w = w
open_menu catalog (some row) w = show_current_variants catalog (record w { current = some row })

unfoldable pub nth_variant : ℕ → List Bytes → Option Bytes
nth_variant n [] = none
nth_variant zero (sequence ∷ rest) = some sequence
nth_variant (suc n) (sequence ∷ rest) = nth_variant n rest

-- The slot of a button on the panel of variants.
unfoldable pub click_variant :
    EmojiCatalog → Surroundings → Option Bytes → PaletteWindow → PaletteWindow
unfolding choose_sequence
click_variant catalog env none w = w
click_variant catalog env (some sequence) w = choose_sequence catalog env sequence w

-- `std::clamp(size, 40, 72)`.
abbrev pub clamp_cell_size : ℕ → ℕ
clamp_cell_size size = max 40 (min size 72)

unfoldable pub apply_cell_size : EmojiCatalog → Surroundings → ℕ → PaletteWindow → PaletteWindow
unfolding refresh_grid
apply_cell_size catalog env size w =
    refresh_grid catalog env false (record w { cell_size = clamp_cell_size size })

-- The constructor up to its call of `setCategory`, for the state that was loaded and the cell size of
-- the settings. A negative size is clamped as 0 is.
unfoldable pub first_window : EmojiCatalog → GlyphProbe → PersistentState → ℕ → PaletteWindow
first_window catalog system loaded cell_size = record {
  state = loaded;
  model = rebuild catalog loaded (new_model catalog empty_state system);
  close_after_selection = false;
  locale = english;
  keyboard = initial;
  category_index = 2;
  current = none;
  visible = false;
  settings_visible = false;
  variants = [];
  variants_visible = false;
  favorite_enabled = true;
  favorite_marked = false;
  variants_enabled = true;
  cell_size = clamp_cell_size cell_size;
  signals = [];
  saved = [];
}

unfoldable pub new_window :
    EmojiCatalog → Surroundings → GlyphProbe → PersistentState → ℕ → PaletteWindow
unfolding set_category first_window
new_window catalog env system loaded cell_size =
    set_category catalog env 2 (first_window catalog system loaded cell_size)

-- What happens to the window.
pub data Event : Type 0 where
  shows : Show → Event
  hides : Event
  commands : Command → Event
  clicks : Option ℕ → Event
  opens_menu : Option ℕ → Event
  picks_category : ℕ → Event
  clicks_favorite : Event
  clicks_variants : Event
  picks_variant : ℕ → Event
  toggles_settings : Bool → Event
  picks_size : ℕ → Event

unfoldable pub step : EmojiCatalog → Surroundings → Event → PaletteWindow → PaletteWindow
unfolding show_palette hide_palette handle_command click_row open_menu set_category
    toggle_current_favorite show_current_variants click_variant nth_variant
    set_settings_panel_visible apply_cell_size
step catalog env (shows request) w = show_palette catalog env request w
step catalog env hides w = hide_palette w
step catalog env (commands c) w = handle_command catalog env c w
step catalog env (clicks index) w = click_row catalog env index w
step catalog env (opens_menu index) w = open_menu catalog index w
step catalog env (picks_category index) w = set_category catalog env index w
step catalog env clicks_favorite w = toggle_current_favorite catalog env w
step catalog env clicks_variants w = show_current_variants catalog w
step catalog env (picks_variant n) w = click_variant catalog env (nth_variant n w.variants) w
step catalog env (toggles_settings visible) w = set_settings_panel_visible visible w
step catalog env (picks_size size) w = apply_cell_size catalog env size w

unfoldable pub run : EmojiCatalog → List (Surroundings × Event) → PaletteWindow → PaletteWindow
unfolding step
run catalog [] w = w
run catalog ((env, e) ∷ es) w = run catalog es (step catalog env e w)
