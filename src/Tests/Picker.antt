-- ===== src/Tests/Picker.antt =====
-- The theorems on the palette window and on the helper's session at concrete events.
use fcitx5_emoji_palette.Prelude.{true, false, some, List, [], ◌∷◌, map, ◌≡◌, refl}
use fcitx5_emoji_palette.Prelude.Int.{pos}
use fcitx5_emoji_palette.Codes.{is_empty}
use fcitx5_emoji_palette.Protocol.{CommandKind, english, Command}
use fcitx5_emoji_palette.Catalog.{
  EmojiRecord, GeneratedEmoji, smileys_emotion, recently_used, favorites, build,
}
use fcitx5_emoji_palette.Glyph.{GlyphProbe}
use fcitx5_emoji_palette.State.{RecentEntry, PersistentState}
use fcitx5_emoji_palette.ListModel.{EmojiListModel, shown, coverage_of, coverage_for}
use fcitx5_emoji_palette.ListModel.Shown.{held, shown-held}
use fcitx5_emoji_palette.ListModel.Cache.{
  Call, asks, sets_probe, refreshes, run_calls, coverage_of-run_calls,
}
use fcitx5_emoji_palette.Window.{Surroundings}
use fcitx5_emoji_palette.Window.Commands.{
  new_window, Event, commands, clicks, picks_category, clicks_favorite, run,
}
use fcitx5_emoji_palette.Window.Fresh.{IsFresh}
use fcitx5_emoji_palette.Window.Steps.{run-IsFresh}
use fcitx5_emoji_palette.Window.Known.{IsHonest}
use fcitx5_emoji_palette.Window.Offers.{run-IsHonest}
use fcitx5_emoji_palette.Tests.{euro, smile}

abbrev row : GeneratedEmoji
row = record {
  sequence = euro;
  category = smileys_emotion;
  subgroup = [];
  name = λ _. [];
  keywords = λ _. [];
  base_sequence = [];
}

abbrev table : List GeneratedEmoji
table = row ∷ []

abbrev emoji : EmojiRecord
emoji = record {
  sequence = euro;
  category = smileys_emotion;
  subgroup = [];
  annotations = λ _. record { name = []; keywords = [] };
  base_sequence = [];
}

abbrev entry : RecentEntry
entry = record { sequence = euro; use_count = 2; last_used = pos 9 }

abbrev memory : PersistentState
memory = record { favorites = smile ∷ euro ∷ []; recents = entry ∷ [] }

abbrev all_glyphs : GlyphProbe
all_glyphs = some (λ _. true)

abbrev no_glyphs : GlyphProbe
no_glyphs = some (λ _. false)

abbrev rows : EmojiListModel
rows = record {
  category = favorites;
  locale = english;
  query = [];
  records = [];
  probe = all_glyphs;
  uses_system_probe = true;
  coverage = [];
}

no_query : is_empty [] ≡ true
unfolding is_empty
no_query = refl

shown-held_example :
    (favorites ≡ favorites
      → map (λ (r : EmojiRecord). r.sequence) (shown (build table) memory rows)
        ≡ held (build table) (smile ∷ euro ∷ []))
    × (favorites ≡ recently_used
        → map (λ (r : EmojiRecord). r.sequence) (shown (build table) memory rows)
          ≡ held (build table) (map (λ (e : RecentEntry). e.sequence) (entry ∷ [])))
shown-held_example = shown-held (build table) memory rows no_query

abbrev calls : List Call
calls = asks emoji ∷ sets_probe all_glyphs no_glyphs ∷ asks emoji ∷ refreshes all_glyphs ∷ []

coverage_of-run_calls_example :
    (coverage_of emoji (run_calls calls rows)).0
    ≡ coverage_for emoji.sequence (run_calls calls rows)
coverage_of-run_calls_example = coverage_of-run_calls calls emoji rows refl

abbrev around : Surroundings
around = record { width = 500; height = 300; now = pos 30 }

abbrev select_command : Command
select_command = record { transaction = []; sequence = 1; kind = CommandKind.select; text = [] }

abbrev search_command : Command
search_command = record {
  transaction = [];
  sequence = 2;
  kind = CommandKind.search_text;
  text = euro;
}

abbrev events : List (Surroundings × Event)
events =
    (around, picks_category 1)
    ∷ (around, clicks_favorite)
    ∷ (around, commands search_command)
    ∷ (around, commands select_command)
    ∷ (around, clicks (some 0))
    ∷ []

run-IsFresh_example :
    IsFresh
      (build table)
      (run (build table) events (new_window (build table) around all_glyphs memory 52))
run-IsFresh_example = run-IsFresh (build table) around all_glyphs memory 52 events

run-IsHonest_example :
    IsHonest
      (build table)
      (run (build table) events (new_window (build table) around all_glyphs memory 52))
run-IsHonest_example = run-IsHonest table around all_glyphs memory 52 events
