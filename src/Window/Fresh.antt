-- ===== src/Window/Fresh.antt =====
-- src/ui/palette_window.cpp: the grid, its model and the keyboard state agree after every event.
use fcitx5_emoji_palette.Prelude.{
  ℕ, ◌-◌, ◌≤◌, ◌<◌, Bool, true, false, ◌&&◌, ◌==◌, Bytes, equal, length, leb, ◌≡◌, refl, sym, ap,
  ◌∙◌, arith, inl, inr, Bool-cases,
}
use fcitx5_emoji_palette.Codes.{is_empty, locale_value}
use fcitx5_emoji_palette.Protocol.{Locale}
use fcitx5_emoji_palette.Catalog.{
  Category, EmojiCatalog, recently_used, favorites, smileys_emotion, people_body, animals_nature,
  food_drink, travel_places, activities, objects, symbols, flags, kaomoji,
}
use fcitx5_emoji_palette.State.{PersistentState}
use fcitx5_emoji_palette.Keyboard.{
  NavigationCommand, NavigationOutcome, unchanged, changed, category_changed, selected, cancelled,
  KeyboardState, initial, set_grid, dispatch, dispatch_move, dispatch_category, move, add_size,
  mul_size, left, right, up, down, home, end, page_up, page_down, previous_category, next_category,
  select, cancel,
}
use fcitx5_emoji_palette.Keyboard
use fcitx5_emoji_palette.ListModel.{
  EmojiListModel, row_count, rebuild, set_search, record_at, shown, category_value, same_category,
  listed, new_model,
}
use fcitx5_emoji_palette.ListModel
use fcitx5_emoji_palette.Window.{
  Surroundings, PaletteWindow, category_count, category_at, set_settings_panel_visible,
  update_selection, place_keyboard, refresh_grid, set_category, update_search, save_state,
  refresh_model, hide_palette,
}

-- What the keyboard state must say of the grid.
pub record Fits (count index : ℕ) (k : KeyboardState) : Type 0 where
  pub counted : k.item_count ≡ count
  pub in_grid : k.selected_index ≤ count - 1
  pub same_index : k.category_index ≡ index
  pub all_categories : k.category_count ≡ 12

-- The grid shows what its category, its search text, the favourites and the recent entries say, the
-- keyboard state counts its rows and selects one of them, and the category is that of the pressed
-- button.
pub record IsFresh (catalog : EmojiCatalog) (w : PaletteWindow) : Type 0 where
  pub fresh : w.model.records ≡ shown catalog w.state w.model
  pub pressed : w.model.category ≡ category_at w.category_index
  pub in_range : w.category_index < 12
  pub placed : Fits (length w.model.records) w.category_index w.keyboard

-- What must hold before the keyboard state is placed.
pub record IsReady (catalog : EmojiCatalog) (w : PaletteWindow) : Type 0 where
  pub fresh : w.model.records ≡ shown catalog w.state w.model
  pub pressed : w.model.category ≡ category_at w.category_index
  pub in_range : w.category_index < 12

category_back : (c : Category) → category_at (category_value c) ≡ c
unfolding category_at
category_back recently_used = refl
category_back favorites = refl
category_back smileys_emotion = refl
category_back people_body = refl
category_back animals_nature = refl
category_back food_drink = refl
category_back travel_places = refl
category_back activities = refl
category_back objects = refl
category_back symbols = refl
category_back flags = refl
category_back kaomoji = refl

same_category_sound : (a b : Category) → same_category a b ≡ true → a ≡ b
same_category_sound a b h =
    let e : category_value a ≡ category_value b = ground (arith, h) in
    sym (category_back a) ∙ ap category_at e ∙ category_back b

place_keyboard-Fits :
    (env : Surroundings) (b : Bool) (w : PaletteWindow)
    → w.category_index < 12
    → Fits (length w.model.records) w.category_index (place_keyboard env b w)
unfolding place_keyboard Keyboard.set_category set_grid row_count
place_keyboard-Fits env b w h = record {
  counted = refl;
  in_grid = ground arith;
  same_index = omega (arith, h);
  all_categories = refl;
}

-- The records of a model are those that it should show.
abbrev pub Shows : EmojiCatalog → PersistentState → EmojiListModel → Type 0
Shows catalog s m = m.records ≡ shown catalog s m

pub rebuild-Shows :
    (catalog : EmojiCatalog) (s : PersistentState) (m : EmojiListModel)
    → Shows catalog s (rebuild catalog s m)
unfolding rebuild shown
rebuild-Shows catalog s m = refl

set_category-Shows :
    (catalog : EmojiCatalog) (s : PersistentState) (c : Category) (m : EmojiListModel)
    → Shows catalog s m
    → Shows catalog s (ListModel.set_category catalog s c m)
      × ((ListModel.set_category catalog s c m).category ≡ c)
unfolding ListModel.set_category rebuild
set_category-Shows catalog s c m h =
    elim (Bool-cases (same_category m.category c && is_empty m.query)) [
      | inl e ↦
          rw (e, ListModel.set_category) (h, same_category_sound m.category c (ground (arith, e)))
      | inr e ↦
          rw (e, ListModel.set_category) (rebuild-Shows catalog s (record m { category = c }), refl)
    ]

set_search-Shows :
    (catalog : EmojiCatalog) (s : PersistentState) (q : Bytes) (l : Locale) (m : EmojiListModel)
    → Shows catalog s m
    → Shows catalog s (set_search catalog s q l m)
      × ((set_search catalog s q l m).category ≡ m.category)
unfolding set_search rebuild
set_search-Shows catalog s q l m h =
    elim (Bool-cases (equal m.query q && locale_value m.locale == locale_value l)) [
      | inl e ↦ rw (e, set_search) (h, refl)
      | inr e ↦
          rw (e, set_search) (rebuild-Shows catalog s (record m { query = q; locale = l }), refl)
    ]

module _ (catalog : EmojiCatalog) where
  pub update_selection-IsFresh :
      (w : PaletteWindow) → IsFresh catalog w → IsFresh catalog (update_selection catalog w)
  unfolding update_selection
  update_selection-IsFresh w i = elim (Bool-cases (row_count w.model == 0)) [
    | inl e ↦
        rw (e, update_selection)
          (record {
            fresh = i.fresh;
            pressed = i.pressed;
            in_range = i.in_range;
            placed = i.placed;
          })
    | inr e ↦
        rw (e, update_selection)
          (record {
            fresh = i.fresh;
            pressed = i.pressed;
            in_range = i.in_range;
            placed = i.placed;
          })
  ]

  module _ (env : Surroundings) where
    pub refresh_grid-IsFresh :
        (b : Bool) (w : PaletteWindow)
        → IsReady catalog w
        → IsFresh catalog (refresh_grid catalog env b w)
    unfolding refresh_grid
    refresh_grid-IsFresh b w i =
        update_selection-IsFresh (record w { keyboard = place_keyboard env b w })
          (record {
            fresh = i.fresh;
            pressed = i.pressed;
            in_range = i.in_range;
            placed = place_keyboard-Fits env b w i.in_range;
          })

    pub set_category-IsReady :
        (index : ℕ) (w : PaletteWindow)
        → IsReady catalog w
        → index < 12
        → IsFresh catalog (set_category catalog env index w)
    unfolding set_category
    set_category-IsReady index w i h =
        let e : leb category_count index ≡ false = ground (arith, h) in
        let (f, p) = set_category-Shows catalog w.state (category_at index) w.model i.fresh in
        rw (e, set_category)
          (refresh_grid-IsFresh true
            (record w {
              category_index = index;
              model = ListModel.set_category catalog w.state (category_at index) w.model;
            })
            (record { fresh = f; pressed = p; in_range = h }))

    pub set_category-IsFresh :
        (index : ℕ) (w : PaletteWindow)
        → IsFresh catalog w
        → IsFresh catalog (set_category catalog env index w)
    unfolding set_category
    set_category-IsFresh index w i = elim (Bool-cases (leb category_count index)) [
      | inl e ↦ rw (e, set_category) i
      | inr e ↦
          set_category-IsReady index w
            (record { fresh = i.fresh; pressed = i.pressed; in_range = i.in_range })
            (ground (arith, e))
    ]

    pub update_search-IsFresh :
        (q : Bytes) (w : PaletteWindow)
        → IsFresh catalog w
        → IsFresh catalog (update_search catalog env q w)
    unfolding update_search
    update_search-IsFresh q w i =
        let (f, p) = set_search-Shows catalog w.state q w.locale w.model i.fresh in
        refresh_grid-IsFresh true
          (record w { model = set_search catalog w.state q w.locale w.model })
          (record { fresh = f; pressed = p ∙ i.pressed; in_range = i.in_range })

    -- A changed state, once the model is refreshed and the grid is placed.
    pub refreshed :
        (s : PersistentState) (w : PaletteWindow)
        → IsFresh catalog w
        → IsFresh catalog (
            refresh_grid catalog env false
              (refresh_model catalog (save_state (record w { state = s }))))
    unfolding save_state refresh_model rebuild
    refreshed s w i = refresh_grid-IsFresh false _ (record {
      fresh = rebuild-Shows catalog s w.model;
      pressed = i.pressed;
      in_range = i.in_range;
    })

    pub hide_palette-IsFresh :
        (w : PaletteWindow) → IsFresh catalog w → IsFresh catalog (hide_palette w)
    unfolding hide_palette set_settings_panel_visible
    hide_palette-IsFresh w i = record {
      fresh = i.fresh;
      pressed = i.pressed;
      in_range = i.in_range;
      placed = i.placed;
    }
