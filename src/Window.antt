-- ===== src/Window.antt =====
-- src/ui/palette_window.cpp: what the palette shows and how it answers commands and clicks. The widgets
-- are the fields that the code reads back or that a user relies on; layouts, texts and the place of the
-- window are left out. What the view, its viewport and the clock answer are parameters; `signals` are
-- the signals emitted and `saved` the states given to `save` so far, the latest first.
pub mod Commands
pub mod Fresh
pub mod Moves
pub mod Steps
pub mod Known
pub mod Offers
use fcitx5_emoji_palette.Prelude.{
  ℕ, ◌+◌, ◌/◌, max, min, Bool, true, false, not, ◌&&◌, ◌==◌, Option, none, some, List, [], ◌∷◌, map,
  Bytes, length, ltb, leb, if◌then◌else◌,
}
use fcitx5_emoji_palette.Prelude.Int.{ℤ}
use fcitx5_emoji_palette.Codes.{is_empty}
use fcitx5_emoji_palette.Protocol.{Locale, english, CommandKind, CancelReason, Show, Command}
use fcitx5_emoji_palette.Catalog.{
  Category, EmojiRecord, EmojiCatalog, recently_used, favorites, smileys_emotion, people_body,
  animals_nature, food_drink, travel_places, activities, objects, symbols, flags, kaomoji,
  variants_for,
}
use fcitx5_emoji_palette.State.{PersistentState, toggle_favorite, record_use}
use fcitx5_emoji_palette.Keyboard.{
  NavigationCommand, NavigationOutcome, unchanged, changed, category_changed, selected, cancelled,
  KeyboardState, initial, set_grid, dispatch,
}
use fcitx5_emoji_palette.Keyboard
use fcitx5_emoji_palette.ListModel.{
  EmojiListModel, row_count, rebuild, set_search, record_at, is_favorite_row,
}
use fcitx5_emoji_palette.ListModel

pub data Signal : Type 0 where
  selection_requested : Bytes → Signal
  cancellation_requested : CancelReason → Signal

-- The viewport of the grid and the clock at an event.
pub record Surroundings : Type 0 where
  pub width : ℕ
  pub height : ℕ
  pub now : ℤ

-- `close_after_selection` and `locale` are those of `request_`; `current` is the current row of the
-- grid, which a reset of the model clears; `variants` are the sequences on the panel of variants.
pub record PaletteWindow : Type 0 where
  pub state : PersistentState
  pub model : EmojiListModel
  pub close_after_selection : Bool
  pub locale : Locale
  pub keyboard : KeyboardState
  pub category_index : ℕ
  pub current : Option ℕ
  pub visible : Bool
  pub settings_visible : Bool
  pub variants : List Bytes
  pub variants_visible : Bool
  pub favorite_enabled : Bool
  pub favorite_marked : Bool
  pub variants_enabled : Bool
  pub cell_size : ℕ
  pub signals : List Signal
  pub saved : List PersistentState

abbrev pub category_count : ℕ
category_count = 12

-- The member `categories_`.
unfoldable pub category_at : ℕ → Category
category_at index =
    if index == 0
    then recently_used
    else if index == 1
    then favorites
    else if index == 2
    then smileys_emotion
    else if index == 3
    then people_body
    else if index == 4
    then animals_nature
    else if index == 5
    then food_drink
    else if index == 6
    then travel_places
    else if index == 7
    then activities
    else if index == 8
    then objects
    else if index == 9
    then symbols
    else if index == 10
    then flags
    else kaomoji

unfoldable pub set_settings_panel_visible : Bool → PaletteWindow → PaletteWindow
set_settings_panel_visible visible w = record w { settings_visible = visible }

unfoldable pub base_of : EmojiRecord → Bytes
base_of emoji = if is_empty emoji.base_sequence then emoji.sequence else emoji.base_sequence

-- `emoji != nullptr` and more than one variant.
unfoldable pub has_variants : EmojiCatalog → Option EmojiRecord → Bool
unfolding base_of
has_variants catalog none = false
has_variants catalog (some emoji) = ltb 1 (length (variants_for catalog (base_of emoji)))

unfoldable pub update_selection : EmojiCatalog → PaletteWindow → PaletteWindow
unfolding has_variants
update_selection catalog w =
    if row_count w.model == 0
    then record w { current = none; favorite_enabled = false; variants_enabled = false }
    else let row = some w.keyboard.selected_index in
      record w {
        current = row;
        favorite_enabled = true;
        favorite_marked = is_favorite_row w.state row w.model;
        variants_enabled = has_variants catalog (record_at row w.model);
      }

-- The columns or rows of cells in an extent; the grid's spacing is 2.
unfoldable pub cells_in : ℕ → ℕ → ℕ
cells_in extent cell_size = max 1 (extent / max 1 (cell_size + 2))

-- `reset_selection` and the two calls of the keyboard state.
unfoldable pub place_keyboard : Surroundings → Bool → PaletteWindow → KeyboardState
unfolding cells_in
place_keyboard env reset_selection w = Keyboard.set_category w.category_index category_count (
    set_grid (row_count w.model) (cells_in env.width w.cell_size) (cells_in env.height w.cell_size)
      (if reset_selection then initial else w.keyboard))

unfoldable pub refresh_grid : EmojiCatalog → Surroundings → Bool → PaletteWindow → PaletteWindow
unfolding place_keyboard update_selection
refresh_grid catalog env reset_selection w =
    update_selection catalog (record w { keyboard = place_keyboard env reset_selection w })

unfoldable pub set_category : EmojiCatalog → Surroundings → ℕ → PaletteWindow → PaletteWindow
unfolding refresh_grid category_at
set_category catalog env index w =
    if leb category_count index
    then w
    else refresh_grid catalog env true (record w {
      category_index = index;
      model = ListModel.set_category catalog w.state (category_at index) w.model;
    })

unfoldable pub update_search : EmojiCatalog → Surroundings → Bytes → PaletteWindow → PaletteWindow
unfolding refresh_grid
update_search catalog env query w =
    refresh_grid catalog env true
      (record w { model = set_search catalog w.state query w.locale w.model })

-- `saveState`, whose failure is only logged.
unfoldable pub save_state : PaletteWindow → PaletteWindow
save_state w = record w { saved = w.state ∷ w.saved }

-- `model_.refresh()`; the reset clears the current row.
unfoldable pub refresh_model : EmojiCatalog → PaletteWindow → PaletteWindow
refresh_model catalog w = record w { model = rebuild catalog w.state w.model; current = none }

unfoldable pub emit : Signal → PaletteWindow → PaletteWindow
emit signal w = record w { signals = signal ∷ w.signals }

unfoldable pub hide_palette : PaletteWindow → PaletteWindow
unfolding set_settings_panel_visible
hide_palette w = record (set_settings_panel_visible false w) {
  visible = false;
  variants_visible = false;
}

unfoldable pub choose_sequence : EmojiCatalog → Surroundings → Bytes → PaletteWindow → PaletteWindow
unfolding save_state refresh_model refresh_grid emit hide_palette
choose_sequence catalog env sequence w =
    let t = emit (selection_requested sequence) (
      refresh_grid catalog env false (
        refresh_model catalog
          (save_state (record w { state = record_use sequence env.now 100 w.state })))) in
    if w.close_after_selection then hide_palette t else t

-- `activateCurrent` and a click, for the record that was found.
unfoldable pub choose_record :
    EmojiCatalog → Surroundings → Option EmojiRecord → PaletteWindow → PaletteWindow
unfolding choose_sequence
choose_record catalog env none w = w
choose_record catalog env (some emoji) w = choose_sequence catalog env emoji.sequence w

unfoldable pub activate_current : EmojiCatalog → Surroundings → PaletteWindow → PaletteWindow
unfolding choose_record
activate_current catalog env w = choose_record catalog env (record_at w.current w.model) w

unfoldable pub toggle_record :
    EmojiCatalog → Surroundings → Option EmojiRecord → PaletteWindow → PaletteWindow
unfolding save_state refresh_model refresh_grid
toggle_record catalog env none w = w
toggle_record catalog env (some emoji) w = refresh_grid catalog env false (
    refresh_model catalog
      (save_state (record w { state = toggle_favorite emoji.sequence w.state })))

unfoldable pub toggle_current_favorite : EmojiCatalog → Surroundings → PaletteWindow → PaletteWindow
unfolding toggle_record
toggle_current_favorite catalog env w = toggle_record catalog env (record_at w.current w.model) w

-- `showCurrentVariants` for the record that was found.
unfoldable pub show_variants_of : EmojiCatalog → Option EmojiRecord → PaletteWindow → PaletteWindow
unfolding base_of
show_variants_of catalog none w = w
show_variants_of catalog (some emoji) w =
    let variants = variants_for catalog (base_of emoji) in
    if leb (length variants) 1 then record w { variants_visible = false } else record w {
      variants = map (λ (r : EmojiRecord). r.sequence) variants;
      variants_visible = true;
    }

unfoldable pub show_current_variants : EmojiCatalog → PaletteWindow → PaletteWindow
unfolding show_variants_of
show_current_variants catalog w = show_variants_of catalog (record_at w.current w.model) w
