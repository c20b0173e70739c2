-- ===== src/Window/Offers.antt =====
-- src/ui/palette_window.cpp: the sequences that the window asks to commit.
use fcitx5_emoji_palette.Prelude.{
  ℕ, Bool, true, false, not, ◌==◌, Option, none, some, List, [], ◌∷◌, Bytes, All, length, leb,
  if◌then◌else◌, ◌≡◌, refl, subst, sym,
}
use fcitx5_emoji_palette.Protocol.{CommandKind, Show}
use fcitx5_emoji_palette.Catalog.{EmojiRecord, GeneratedEmoji, EmojiCatalog, build, variants_for}
use fcitx5_emoji_palette.Glyph.{GlyphProbe}
use fcitx5_emoji_palette.State.{PersistentState, record_use, toggle_favorite}
use fcitx5_emoji_palette.Keyboard.{
  NavigationCommand, NavigationOutcome, unchanged, changed, category_changed, selected, cancelled,
  KeyboardState, dispatch,
}
use fcitx5_emoji_palette.ListModel.{EmojiListModel, row_count, record_at, nth, shown, set_search}
use fcitx5_emoji_palette.ListModel
use fcitx5_emoji_palette.ListModel.Shown.{IsHeld}
use fcitx5_emoji_palette.Window.{
  Surroundings, PaletteWindow, category_count, category_at, base_of, set_settings_panel_visible,
  update_selection, place_keyboard, refresh_grid, set_category, update_search, save_state,
  refresh_model, emit, hide_palette, choose_sequence, choose_record, activate_current,
  toggle_record, toggle_current_favorite, show_variants_of, show_current_variants,
}
use fcitx5_emoji_palette.Window.Commands.{
  navigation_of, after_dispatch, navigate, cancel_command, handle_kind, handle_command,
  show_palette, click_row, open_menu, click_variant, apply_cell_size, clamp_cell_size, first_window,
  new_window, Event, shows, hides, commands, clicks, opens_menu, picks_category, clicks_favorite,
  clicks_variants, picks_variant, toggles_settings, picks_size, step, run,
}
use fcitx5_emoji_palette.Window.Fresh.{IsFresh}
use fcitx5_emoji_palette.Window.Steps.{step-IsFresh, new_window-IsFresh}
use fcitx5_emoji_palette.Window.Known.{
  IsKnown, IsOffered, IsHonest, nth_variant-All, variants_for-IsKnown, record_at-IsHeld,
}

either-IsHonest :
    {catalog : EmojiCatalog} (b : Bool) (x y : PaletteWindow)
    → IsHonest catalog x
    → IsHonest catalog y
    → IsHonest catalog (if b then x else y)
either-IsHonest true x y p q = p
either-IsHonest false x y p q = q

-- The same signals and variants.
carried :
    {catalog : EmojiCatalog} (w x : PaletteWindow)
    → x.signals ≡ w.signals
    → x.variants ≡ w.variants
    → IsHonest catalog w
    → IsHonest catalog x
carried {catalog} w x s v h = record {
  offered = subst (All (IsOffered catalog)) (sym s) h.offered;
  variants = subst (All (IsKnown catalog)) (sym v) h.variants;
}

module _ (catalog : EmojiCatalog) where
  update_selection-IsHonest :
      (w : PaletteWindow) → IsHonest catalog w → IsHonest catalog (update_selection catalog w)
  unfolding update_selection
  update_selection-IsHonest w h =
      either-IsHonest (row_count w.model == 0) _ _ (carried w _ refl refl h)
        (carried w _ refl refl h)

  module _ (env : Surroundings) where
    refresh_grid-IsHonest :
        (b : Bool) (w : PaletteWindow)
        → IsHonest catalog w
        → IsHonest catalog (refresh_grid catalog env b w)
    unfolding refresh_grid
    refresh_grid-IsHonest b w h =
        update_selection-IsHonest _
          (carried w (record w { keyboard = place_keyboard env b w }) refl refl h)

    set_category-IsHonest :
        (n : ℕ) (w : PaletteWindow)
        → IsHonest catalog w
        → IsHonest catalog (set_category catalog env n w)
    unfolding set_category
    set_category-IsHonest n w h =
        let t = record w {
          category_index = n;
          model = ListModel.set_category catalog w.state (category_at n) w.model;
        } in
        either-IsHonest (leb category_count n) _ _ h
          (refresh_grid-IsHonest true t (carried w t refl refl h))

    update_search-IsHonest :
        (q : Bytes) (w : PaletteWindow)
        → IsHonest catalog w
        → IsHonest catalog (update_search catalog env q w)
    unfolding update_search
    update_search-IsHonest q w h =
        let t = record w { model = set_search catalog w.state q w.locale w.model } in
        refresh_grid-IsHonest true t (carried w t refl refl h)

    -- The state after a change, refreshed.
    refreshed-IsHonest :
        (s : PersistentState) (w : PaletteWindow)
        → IsHonest catalog w
        → IsHonest catalog (
            refresh_grid catalog env false
              (refresh_model catalog (save_state (record w { state = s }))))
    unfolding save_state refresh_model
    refreshed-IsHonest s w h =
        let t = refresh_model catalog (save_state (record w { state = s })) in
        refresh_grid-IsHonest false t (carried w t refl refl h)

    choose_sequence-IsHonest :
        (q : Bytes) (w : PaletteWindow)
        → IsKnown catalog q
        → IsHonest catalog w
        → IsHonest catalog (choose_sequence catalog env q w)
    unfolding choose_sequence emit hide_palette set_settings_panel_visible
    choose_sequence-IsHonest q w k h =
        let t = refreshed-IsHonest (record_use q env.now 100 w.state) w h in
        either-IsHonest w.close_after_selection _ _
          (record { offered = (k, t.offered); variants = t.variants })
          (record { offered = (k, t.offered); variants = t.variants })

module _ (table : List GeneratedEmoji) (env : Surroundings) where
  abbrev Keeps : (PaletteWindow → PaletteWindow) → Type 0
  Keeps f = (w : PaletteWindow) → IsHonest (build table) w → IsHonest (build table) (f w)

  choose_record-IsHonest :
      (o : Option EmojiRecord) (w : PaletteWindow)
      → ((r : EmojiRecord) → o ≡ some r → IsHeld (build table) r)
      → IsHonest (build table) w
      → IsHonest (build table) (choose_record (build table) env o w)
  unfolding choose_record
  choose_record-IsHonest none w k h = h
  choose_record-IsHonest (some r) w k h =
      choose_sequence-IsHonest (build table) env r.sequence w (k r refl) h

  toggle_record-IsHonest : (o : Option EmojiRecord) → Keeps (toggle_record (build table) env o)
  unfolding toggle_record
  toggle_record-IsHonest none w h = h
  toggle_record-IsHonest (some r) w h =
      refreshed-IsHonest (build table) env (toggle_favorite r.sequence w.state) w h

  show_variants_of-IsHonest : (o : Option EmojiRecord) → Keeps (show_variants_of (build table) o)
  unfolding show_variants_of
  show_variants_of-IsHonest none w h = h
  show_variants_of-IsHonest (some r) w h =
      either-IsHonest (leb (length (variants_for (build table) (base_of r))) 1) _ _
        (record { offered = h.offered; variants = h.variants })
        (record { offered = h.offered; variants = variants_for-IsKnown table (base_of r) })

  after_dispatch-IsHonest :
      (o : NavigationOutcome) (k : KeyboardState) (w : PaletteWindow)
      → IsFresh (build table) w
      → IsHonest (build table) w
      → IsHonest (build table) (after_dispatch (build table) env o (record w { keyboard = k }))
  unfolding after_dispatch activate_current
  after_dispatch-IsHonest category_changed k w i h =
      set_category-IsHonest (build table) env k.category_index (record w { keyboard = k })
        (record { offered = h.offered; variants = h.variants })
  after_dispatch-IsHonest selected k w i h =
      choose_record-IsHonest _ (record w { keyboard = k })
        (λ r e. record_at-IsHeld table w.current w i e)
        (record { offered = h.offered; variants = h.variants })
  after_dispatch-IsHonest changed k w i h =
      update_selection-IsHonest (build table) (record w { keyboard = k })
        (record { offered = h.offered; variants = h.variants })
  after_dispatch-IsHonest unchanged k w i h = record { offered = h.offered; variants = h.variants }
  after_dispatch-IsHonest cancelled k w i h = record { offered = h.offered; variants = h.variants }

  navigate-IsHonest :
      (o : Option NavigationCommand) (w : PaletteWindow)
      → IsFresh (build table) w
      → IsHonest (build table) w
      → IsHonest (build table) (navigate (build table) env o w)
  unfolding navigate
  navigate-IsHonest none w i h = h
  navigate-IsHonest (some c) w i h =
      let (o, k) = dispatch c w.keyboard in after_dispatch-IsHonest o k w i h

  cancel_command-IsHonest : Keeps cancel_command
  unfolding cancel_command set_settings_panel_visible emit
  cancel_command-IsHonest w h =
      either-IsHonest w.settings_visible _ _ (record { offered = h.offered; variants = h.variants })
        (record { offered = (tt, h.offered); variants = h.variants })

  handle_kind-IsHonest :
      (kind : CommandKind) (text : Bytes) (w : PaletteWindow)
      → IsFresh (build table) w
      → IsHonest (build table) w
      → IsHonest (build table) (handle_kind (build table) env kind text w)
  unfolding handle_kind toggle_current_favorite show_current_variants
  handle_kind-IsHonest CommandKind.search_text text w i h =
      update_search-IsHonest (build table) env text w h
  handle_kind-IsHonest CommandKind.toggle_favorite text w i h = toggle_record-IsHonest _ w h
  handle_kind-IsHonest CommandKind.show_variants text w i h = show_variants_of-IsHonest _ w h
  handle_kind-IsHonest CommandKind.cancel text w i h = cancel_command-IsHonest w h
  handle_kind-IsHonest kind text w i h = navigate-IsHonest (navigation_of kind) w i h

  show_palette-IsHonest : (r : Show) → Keeps (show_palette (build table) env r)
  unfolding show_palette
  show_palette-IsHonest r w h =
      let t = record w { close_after_selection = r.close_after_selection; locale = r.locale } in
      let j : IsHonest (build table) t = record { offered = h.offered; variants = h.variants } in
      let k =
        either-IsHonest (not w.visible) (update_search (build table) env [] t) t
          (update_search-IsHonest (build table) env [] t j) j in
      record { offered = k.offered; variants = k.variants }

  open_menu-IsHonest : (o : Option ℕ) → Keeps (open_menu (build table) o)
  unfolding open_menu show_current_variants
  open_menu-IsHonest none w h = h
  open_menu-IsHonest (some row) w h =
      show_variants_of-IsHonest _ (record w { current = some row })
        (record { offered = h.offered; variants = h.variants })

  click_variant-IsHonest :
      (o : Option Bytes) (w : PaletteWindow)
      → ((q : Bytes) → o ≡ some q → IsKnown (build table) q)
      → IsHonest (build table) w
      → IsHonest (build table) (click_variant (build table) env o w)
  unfolding click_variant
  click_variant-IsHonest none w k h = h
  click_variant-IsHonest (some q) w k h =
      choose_sequence-IsHonest (build table) env q w (k q refl) h

  step-IsHonest :
      (e : Event) (w : PaletteWindow)
      → IsFresh (build table) w
      → IsHonest (build table) w
      → IsHonest (build table) (step (build table) env e w)
  unfolding step click_row handle_command hide_palette set_settings_panel_visible
      toggle_current_favorite show_current_variants apply_cell_size
  step-IsHonest (shows r) w i h = show_palette-IsHonest r w h
  step-IsHonest hides w i h = record { offered = h.offered; variants = h.variants }
  step-IsHonest (commands c) w i h = handle_kind-IsHonest c.kind c.text w i h
  step-IsHonest (clicks index) w i h =
      choose_record-IsHonest _ (record w { current = index })
        (λ r e. record_at-IsHeld table index w i e)
        (record { offered = h.offered; variants = h.variants })
  step-IsHonest (opens_menu index) w i h = open_menu-IsHonest index w h
  step-IsHonest (picks_category index) w i h = set_category-IsHonest (build table) env index w h
  step-IsHonest clicks_favorite w i h = toggle_record-IsHonest _ w h
  step-IsHonest clicks_variants w i h = show_variants_of-IsHonest _ w h
  step-IsHonest (picks_variant n) w i h =
      click_variant-IsHonest _ w
        (λ q e. nth_variant-All (IsKnown (build table)) n w.variants h.variants e) h
  step-IsHonest (toggles_settings b) w i h = record { offered = h.offered; variants = h.variants }
  step-IsHonest (picks_size size) w i h =
      refresh_grid-IsHonest (build table) env false (record w { cell_size = clamp_cell_size size })
        (record { offered = h.offered; variants = h.variants })

run_from :
    (table : List GeneratedEmoji) (es : List (Surroundings × Event)) (w : PaletteWindow)
    → IsFresh (build table) w
    → IsHonest (build table) w
    → IsHonest (build table) (run (build table) es w)
unfolding run
run_from table [] w i h = h
run_from table ((env, e) ∷ es) w i h =
    run_from table es _ (step-IsFresh (build table) env e w i) (step-IsHonest table env e w i h)

-- Whatever state was loaded and whatever the user and the addon do, every sequence that the window asks
-- to commit is one of the catalog, whether it was chosen by a key, by a click on the grid or on the panel
-- of variants, and so is every sequence on that panel. The catalog is built from a table.
pub run-IsHonest :
    (table : List GeneratedEmoji) (env : Surroundings) (system : GlyphProbe) (s : PersistentState)
    (size : ℕ) (es : List (Surroundings × Event))
    → IsHonest (build table) (run (build table) es (new_window (build table) env system s size))
unfolding new_window
run-IsHonest table env system s size es =
    run_from table es (new_window (build table) env system s size)
      (new_window-IsFresh (build table) env system s size)
      (set_category-IsHonest (build table) env 2 (first_window (build table) system s size)
        (unfold first_window in record { offered = tt; variants = tt }))
