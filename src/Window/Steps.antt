-- ===== src/Window/Steps.antt =====
-- src/ui/palette_window.cpp: every event leaves the grid, its model and the keyboard state in agreement.
use fcitx5_emoji_palette.Prelude.{
  ℕ, Bool, true, false, not, Option, none, some, List, [], ◌∷◌, Bytes, length, leb, if◌then◌else◌,
  refl, arith,
}
use fcitx5_emoji_palette.Protocol.{CommandKind, Show}
use fcitx5_emoji_palette.Catalog.{EmojiRecord, EmojiCatalog, variants_for}
use fcitx5_emoji_palette.Glyph.{GlyphProbe}
use fcitx5_emoji_palette.State.{PersistentState, record_use, toggle_favorite}
use fcitx5_emoji_palette.State.File.{empty_state}
use fcitx5_emoji_palette.Keyboard.{
  NavigationCommand, NavigationOutcome, unchanged, changed, category_changed, selected, cancelled,
  KeyboardState, dispatch,
}
use fcitx5_emoji_palette.ListModel.{rebuild, new_model}
use fcitx5_emoji_palette.Window.{
  Signal, selection_requested, base_of, Surroundings, PaletteWindow, category_at,
  set_settings_panel_visible, update_search, emit, choose_sequence, choose_record, activate_current,
  toggle_record, toggle_current_favorite, show_variants_of, show_current_variants,
}
use fcitx5_emoji_palette.Window.Commands.{
  navigation_of, after_dispatch, navigate, cancel_command, handle_kind, handle_command,
  show_palette, click_row, open_menu, click_variant, apply_cell_size, clamp_cell_size, first_window,
  new_window, Event, shows, hides, commands, clicks, opens_menu, picks_category, clicks_favorite,
  clicks_variants, picks_variant, toggles_settings, picks_size, step, run,
}
use fcitx5_emoji_palette.Window.Fresh.{
  IsFresh, update_selection-IsFresh, refresh_grid-IsFresh, set_category-IsReady,
  set_category-IsFresh, update_search-IsFresh, refreshed, hide_palette-IsFresh, rebuild-Shows,
}
use fcitx5_emoji_palette.Window.Moves.{After, dispatch-After}

either-IsFresh :
    {catalog : EmojiCatalog} (b : Bool) (x y : PaletteWindow)
    → IsFresh catalog x
    → IsFresh catalog y
    → IsFresh catalog (if b then x else y)
either-IsFresh true x y p q = p
either-IsFresh false x y p q = q

module _ (catalog : EmojiCatalog) (env : Surroundings) where
  abbrev pub Keeps : (PaletteWindow → PaletteWindow) → Type 0
  Keeps f = (w : PaletteWindow) → IsFresh catalog w → IsFresh catalog (f w)

  emit-IsFresh : (x : Signal) → Keeps (emit x)
  unfolding emit
  emit-IsFresh x w i = record {
    fresh = i.fresh;
    pressed = i.pressed;
    in_range = i.in_range;
    placed = i.placed;
  }

  choose_sequence-IsFresh : (q : Bytes) → Keeps (choose_sequence catalog env q)
  unfolding choose_sequence
  choose_sequence-IsFresh q w i =
      let t =
        emit-IsFresh (selection_requested q) _
          (refreshed catalog env (record_use q env.now 100 w.state) w i) in
      either-IsFresh w.close_after_selection _ _ (hide_palette-IsFresh catalog env _ t) t

  choose_record-IsFresh : (o : Option EmojiRecord) → Keeps (choose_record catalog env o)
  unfolding choose_record
  choose_record-IsFresh none w i = i
  choose_record-IsFresh (some emoji) w i = choose_sequence-IsFresh emoji.sequence w i

  toggle_record-IsFresh : (o : Option EmojiRecord) → Keeps (toggle_record catalog env o)
  unfolding toggle_record
  toggle_record-IsFresh none w i = i
  toggle_record-IsFresh (some emoji) w i =
      refreshed catalog env (toggle_favorite emoji.sequence w.state) w i

  show_variants_of-IsFresh : (o : Option EmojiRecord) → Keeps (show_variants_of catalog o)
  unfolding show_variants_of
  show_variants_of-IsFresh none w i = i
  show_variants_of-IsFresh (some emoji) w i =
      either-IsFresh (leb (length (variants_for catalog (base_of emoji))) 1) _ _
        (record { fresh = i.fresh; pressed = i.pressed; in_range = i.in_range; placed = i.placed })
        (record { fresh = i.fresh; pressed = i.pressed; in_range = i.in_range; placed = i.placed })

  after_dispatch-IsFresh :
      (o : NavigationOutcome) (k : KeyboardState) (w : PaletteWindow)
      → IsFresh catalog w
      → After (length w.model.records) w.category_index (o, k)
      → IsFresh catalog (after_dispatch catalog env o (record w { keyboard = k }))
  unfolding after_dispatch activate_current
  after_dispatch-IsFresh category_changed k w i f =
      set_category-IsReady catalog env k.category_index (record w { keyboard = k })
        (record { fresh = i.fresh; pressed = i.pressed; in_range = i.in_range }) f
  after_dispatch-IsFresh selected k w i f =
      choose_record-IsFresh _ (record w { keyboard = k })
        (record { fresh = i.fresh; pressed = i.pressed; in_range = i.in_range; placed = f })
  after_dispatch-IsFresh changed k w i f =
      update_selection-IsFresh catalog (record w { keyboard = k })
        (record { fresh = i.fresh; pressed = i.pressed; in_range = i.in_range; placed = f })
  after_dispatch-IsFresh unchanged k w i f = record {
    fresh = i.fresh;
    pressed = i.pressed;
    in_range = i.in_range;
    placed = f;
  }
  after_dispatch-IsFresh cancelled k w i f = record {
    fresh = i.fresh;
    pressed = i.pressed;
    in_range = i.in_range;
    placed = f;
  }

  navigate-IsFresh : (o : Option NavigationCommand) → Keeps (navigate catalog env o)
  unfolding navigate
  navigate-IsFresh none w i = i
  navigate-IsFresh (some c) w i =
      let (o, k) = dispatch c w.keyboard in
      after_dispatch-IsFresh o k w i (dispatch-After c w.keyboard i.placed)

  settings-IsFresh : (b : Bool) → Keeps (set_settings_panel_visible b)
  unfolding set_settings_panel_visible
  settings-IsFresh b w i = record {
    fresh = i.fresh;
    pressed = i.pressed;
    in_range = i.in_range;
    placed = i.placed;
  }

  cancel_command-IsFresh : Keeps cancel_command
  unfolding cancel_command
  cancel_command-IsFresh w i =
      either-IsFresh w.settings_visible _ _ (settings-IsFresh false w i) (emit-IsFresh _ w i)

  handle_kind-IsFresh :
      (kind : CommandKind) (text : Bytes) → Keeps (handle_kind catalog env kind text)
  unfolding handle_kind toggle_current_favorite show_current_variants
  handle_kind-IsFresh CommandKind.search_text text w i = update_search-IsFresh catalog env text w i
  handle_kind-IsFresh CommandKind.toggle_favorite text w i = toggle_record-IsFresh _ w i
  handle_kind-IsFresh CommandKind.show_variants text w i = show_variants_of-IsFresh _ w i
  handle_kind-IsFresh CommandKind.cancel text w i = cancel_command-IsFresh w i
  handle_kind-IsFresh kind text w i = navigate-IsFresh (navigation_of kind) w i

  show_palette-IsFresh : (r : Show) → Keeps (show_palette catalog env r)
  unfolding show_palette
  show_palette-IsFresh r w i =
      let t = record w { close_after_selection = r.close_after_selection; locale = r.locale } in
      let j : IsFresh catalog t = record {
        fresh = i.fresh;
        pressed = i.pressed;
        in_range = i.in_range;
        placed = i.placed;
      } in
      let k =
        either-IsFresh (not w.visible) (update_search catalog env [] t) t
          (update_search-IsFresh catalog env [] t j) j in
      record { fresh = k.fresh; pressed = k.pressed; in_range = k.in_range; placed = k.placed }

  open_menu-IsFresh : (o : Option ℕ) → Keeps (open_menu catalog o)
  unfolding open_menu show_current_variants
  open_menu-IsFresh none w i = i
  open_menu-IsFresh (some row) w i =
      show_variants_of-IsFresh _ (record w { current = some row })
        (record { fresh = i.fresh; pressed = i.pressed; in_range = i.in_range; placed = i.placed })

  click_variant-IsFresh : (o : Option Bytes) → Keeps (click_variant catalog env o)
  unfolding click_variant
  click_variant-IsFresh none w i = i
  click_variant-IsFresh (some q) w i = choose_sequence-IsFresh q w i

  pub step-IsFresh : (e : Event) → Keeps (step catalog env e)
  unfolding step click_row handle_command toggle_current_favorite show_current_variants
      apply_cell_size
  step-IsFresh (shows r) w i = show_palette-IsFresh r w i
  step-IsFresh hides w i = hide_palette-IsFresh catalog env w i
  step-IsFresh (commands c) w i = handle_kind-IsFresh c.kind c.text w i
  step-IsFresh (clicks index) w i =
      choose_record-IsFresh _ (record w { current = index })
        (record { fresh = i.fresh; pressed = i.pressed; in_range = i.in_range; placed = i.placed })
  step-IsFresh (opens_menu index) w i = open_menu-IsFresh index w i
  step-IsFresh (picks_category index) w i = set_category-IsFresh catalog env index w i
  step-IsFresh clicks_favorite w i = toggle_record-IsFresh _ w i
  step-IsFresh clicks_variants w i = show_variants_of-IsFresh _ w i
  step-IsFresh (picks_variant n) w i = click_variant-IsFresh _ w i
  step-IsFresh (toggles_settings b) w i = settings-IsFresh b w i
  step-IsFresh (picks_size size) w i =
      refresh_grid-IsFresh catalog env false (record w { cell_size = clamp_cell_size size })
        (record { fresh = i.fresh; pressed = i.pressed; in_range = i.in_range })

run_from :
    (catalog : EmojiCatalog) (es : List (Surroundings × Event)) (w : PaletteWindow)
    → IsFresh catalog w
    → IsFresh catalog (run catalog es w)
unfolding run
run_from catalog [] w i = i
run_from catalog ((env, e) ∷ es) w i = run_from catalog es _ (step-IsFresh catalog env e w i)

pub new_window-IsFresh :
    (catalog : EmojiCatalog) (env : Surroundings) (system : GlyphProbe) (s : PersistentState)
    (size : ℕ)
    → IsFresh catalog (new_window catalog env system s size)
unfolding new_window first_window rebuild new_model category_at
new_window-IsFresh catalog env system s size =
    set_category-IsReady catalog env 2 (first_window catalog system s size)
      (record {
        fresh = rebuild-Shows catalog s (new_model catalog empty_state system);
        pressed = refl;
        in_range = omega arith;
      })
      (omega arith)

-- Whatever state was loaded and whatever the user and the addon do, at whatever sizes and times: the
-- grid shows the records that its category, its search text, the favourites and the recent entries
-- say, none of them out of date; the category is that of the pressed button; and the keyboard state
-- counts the rows of the grid, selects one of them where there is one, and has the same category.
pub run-IsFresh :
    (catalog : EmojiCatalog) (env : Surroundings) (system : GlyphProbe) (s : PersistentState)
    (size : ℕ) (es : List (Surroundings × Event))
    → IsFresh catalog (run catalog es (new_window catalog env system s size))
run-IsFresh catalog env system s size es =
    run_from catalog es _ (new_window-IsFresh catalog env system s size)
