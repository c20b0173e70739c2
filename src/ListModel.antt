-- ===== src/ListModel.antt =====
-- src/ui/emoji_list_model.cpp: the records that the grid shows, and what it shows of each. A text of Qt
-- is its UTF-8 bytes and a row is `none` where the source has -1. The catalog and the favourites and
-- recent entries are those that the model refers to; the probe of the system's font is a parameter.
pub mod Shown
pub mod Cache
use fcitx5_emoji_palette.Prelude.{
  ℕ, zero, suc, ◌+◌, Bool, true, false, not, ◌&&◌, ◌||◌, ◌==◌, Option, none, some, List, [], ◌∷◌,
  ◌++◌, map, Bytes, equal, length, if◌then◌else◌,
}
use fcitx5_emoji_palette.Codes.{is_empty, locale_value}
use fcitx5_emoji_palette.Protocol.{Locale, english}
use fcitx5_emoji_palette.Catalog.{
  Category, EmojiRecord, EmojiCatalog, SearchResult, recently_used, favorites, smileys_emotion,
  people_body, animals_nature, food_drink, travel_places, activities, objects, symbols, flags,
  kaomoji, find, search,
}
use fcitx5_emoji_palette.Glyph.{
  GlyphCoverage, GlyphProbe, inspect_glyph_coverage, missing_glyph_label,
}
use fcitx5_emoji_palette.State.{RecentEntry, PersistentState, is_favorite}

-- The values of the enumerators.
abbrev pub category_value : Category → ℕ
category_value recently_used = 0
category_value favorites = 1
category_value smileys_emotion = 2
category_value people_body = 3
category_value animals_nature = 4
category_value food_drink = 5
category_value travel_places = 6
category_value activities = 7
category_value objects = 8
category_value symbols = 9
category_value flags = 10
category_value kaomoji = 11

abbrev pub same_category : Category → Category → Bool
same_category a b = category_value a == category_value b

-- `coverage` is the cache, from the sequence of a record: the records of one sequence have one coverage.
pub record EmojiListModel : Type 0 where
  pub category : Category
  pub locale : Locale
  pub query : Bytes
  pub records : List EmojiRecord
  pub probe : GlyphProbe
  pub uses_system_probe : Bool
  pub coverage : List (Bytes × GlyphCoverage)

unfoldable pub row_count : EmojiListModel → ℕ
row_count m = length m.records

unfoldable pub found : EmojiCatalog → List Bytes → List EmojiRecord
found catalog [] = []
found catalog (sequence ∷ rest) = elim (find catalog sequence) [
  | none ↦ found catalog rest
  | some emoji ↦ emoji ∷ found catalog rest
]

unfoldable pub in_category : Category → List EmojiRecord → List EmojiRecord
in_category category [] = []
in_category category (r ∷ rest) =
    let others = in_category category rest in
    if same_category r.category category then r ∷ others else others

-- The branches of `rebuild` without a query.
unfoldable pub listed : EmojiCatalog → PersistentState → Category → List EmojiRecord
unfolding found in_category
listed catalog s recently_used = found catalog (map (λ (e : RecentEntry). e.sequence) s.recents)
listed catalog s favorites = found catalog s.favorites
listed catalog s category = in_category category catalog.records

unfoldable pub shown : EmojiCatalog → PersistentState → EmojiListModel → List EmojiRecord
unfolding listed
shown catalog s m =
    if not (is_empty m.query)
    then map (λ (r : SearchResult). r.emoji) (search catalog m.query m.locale 500)
    else listed catalog s m.category

unfoldable pub rebuild : EmojiCatalog → PersistentState → EmojiListModel → EmojiListModel
unfolding shown
rebuild catalog s m = record m { records = shown catalog s m }

-- The constructor, with the probe of the system's font.
unfoldable pub new_model : EmojiCatalog → PersistentState → GlyphProbe → EmojiListModel
unfolding rebuild
new_model catalog s system = rebuild catalog s (record {
  category = smileys_emotion;
  locale = english;
  query = [];
  records = [];
  probe = system;
  uses_system_probe = true;
  coverage = [];
})

unfoldable pub set_category :
    EmojiCatalog → PersistentState → Category → EmojiListModel → EmojiListModel
unfolding rebuild
set_category catalog s category m =
    if same_category m.category category && is_empty m.query
    then m
    else rebuild catalog s (record m { category = category })

unfoldable pub set_search :
    EmojiCatalog → PersistentState → Bytes → Locale → EmojiListModel → EmojiListModel
unfolding rebuild
set_search catalog s query locale m =
    if equal m.query query && locale_value m.locale == locale_value locale
    then m
    else rebuild catalog s (record m { query = query; locale = locale })

abbrev has_probe : GlyphProbe → Bool
has_probe none = false
has_probe (some _) = true

abbrev probe_or : GlyphProbe → GlyphProbe → GlyphProbe
probe_or none system = system
probe_or (some probe) system = some probe

unfoldable pub set_glyph_probe : GlyphProbe → GlyphProbe → EmojiListModel → EmojiListModel
set_glyph_probe system probe m = record m {
  uses_system_probe = not (has_probe probe);
  probe = probe_or probe system;
  coverage = [];
}

unfoldable pub refresh_system_glyph_probe : GlyphProbe → EmojiListModel → EmojiListModel
unfolding set_glyph_probe
refresh_system_glyph_probe system m =
    if not m.uses_system_probe then m else set_glyph_probe system none m

unfoldable pub nth : ℕ → List EmojiRecord → Option EmojiRecord
nth row [] = none
nth zero (r ∷ records) = some r
nth (suc row) (r ∷ records) = nth row records

-- `record`.
unfoldable pub record_at : Option ℕ → EmojiListModel → Option EmojiRecord
unfolding nth
record_at none m = none
record_at (some row) m = nth row m.records

unfoldable pub is_favorite_row : PersistentState → Option ℕ → EmojiListModel → Bool
unfolding record_at
is_favorite_row s row m = elim (record_at row m) [
  | none ↦ false
  | some emoji ↦ is_favorite s.favorites emoji.sequence
]

unfoldable pub coverage_for : Bytes → EmojiListModel → GlyphCoverage
coverage_for sequence m = inspect_glyph_coverage sequence m.probe

unfoldable pub cached : Bytes → List (Bytes × GlyphCoverage) → Option GlyphCoverage
cached sequence [] = none
cached sequence ((key, value) ∷ rest) =
    let result = cached sequence rest in if equal key sequence then some value else result

unfoldable pub coverage_of : EmojiRecord → EmojiListModel → GlyphCoverage × EmojiListModel
unfolding cached
coverage_of emoji m = elim (cached emoji.sequence m.coverage) [
  | some value ↦ (value, m)
  | none ↦
      let value = inspect_glyph_coverage emoji.sequence m.probe in
      (value, record m { coverage = (emoji.sequence, value) ∷ m.coverage })
]

unfoldable pub missing_glyph_text : GlyphCoverage → Bytes
missing_glyph_text coverage =
    if coverage.renderable
    then []
    else let label = missing_glyph_label coverage in if is_empty label then b'?' ∷ [] else label

-- `annotatedName`, with the translated text around a name.
unfoldable pub annotated_name : (Bytes → Bytes) → Bytes → GlyphCoverage → Bytes
annotated_name no_glyph name coverage = if coverage.renderable then name else no_glyph name
