-- ===== src/ListModel/Shown.antt =====
-- src/ui/emoji_list_model.cpp: which records the grid shows.
use fcitx5_emoji_palette.Prelude.{
  true, false, none, some, List, [], ◌∷◌, map, Bytes, All, equal, equal_iff, if◌then◌else◌, ◌≡◌,
  refl, sym, ap, ◌∙◌, arith, inl, inr, Bool-cases, Option-cases,
}
use fcitx5_emoji_palette.Codes.{is_empty}
use fcitx5_emoji_palette.Catalog.{
  Category, EmojiRecord, GeneratedEmoji, EmojiCatalog, SearchResult, recently_used, favorites,
  build, build_record, find_in, find, contains,
}
use fcitx5_emoji_palette.Catalog.Hits.{IsHit, exact_hit, token_hit, search-IsHit}
use fcitx5_emoji_palette.State.{RecentEntry, PersistentState}
use fcitx5_emoji_palette.ListModel.{
  same_category, EmojiListModel, found, in_category, listed, shown,
}
use mathlib.Core.List.{Memᴰ}

-- A record whose sequence the catalog holds.
abbrev pub IsHeld : EmojiCatalog → EmojiRecord → Type 0
IsHeld catalog r = contains catalog r.sequence ≡ true

find_in-Memᴰ :
    (table : List GeneratedEmoji) (g : GeneratedEmoji)
    → Memᴰ g table
    → (e : EmojiRecord) × (find_in (map build_record table) g.sequence ≡ some e)
unfolding find_in build_record
find_in-Memᴰ [] g m = elim m [ ]
find_in-Memᴰ (x ∷ table) g (Memᴰ.head p) =
    let q : equal x.sequence g.sequence ≡ true =
      (equal_iff x.sequence g.sequence).1 (ap (λ (y : GeneratedEmoji). y.sequence) (sym p)) in
    (build_record x, rw q refl)
find_in-Memᴰ (x ∷ table) g (Memᴰ.tail m) = elim (Bool-cases (equal x.sequence g.sequence)) [
  | inl q ↦ (build_record x, rw q refl)
  | inr q ↦ let (e, h) = find_in-Memᴰ table g m in (e, rw q h)
]

pub IsHeld-Memᴰ :
    (table : List GeneratedEmoji) (g : GeneratedEmoji)
    → Memᴰ g table
    → IsHeld (build table) (build_record g)
unfolding contains find build build_record
IsHeld-Memᴰ table g m = let (e, h) = find_in-Memᴰ table g m in ground (arith, h)

find_in_same :
    (rs : List EmojiRecord) (q : Bytes) {e : EmojiRecord} → find_in rs q ≡ some e → e.sequence ≡ q
unfolding find_in
find_in_same [] q h = absurd (cc h)
find_in_same (r ∷ rs) q {e} h = elim (Bool-cases (equal r.sequence q)) [
  | inl x ↦
      let same : r ≡ e = cc (h, x) in
      ap (λ (y : EmojiRecord). y.sequence) (sym same) ∙ (equal_iff r.sequence q).0 x
  | inr x ↦ find_in_same rs q (rw x at h)
]

module _ (catalog : EmojiCatalog) where
  contains-none : (q : Bytes) → find catalog q ≡ none → contains catalog q ≡ false
  unfolding contains
  contains-none q h = rw (h, contains) refl

  pub contains-some :
      (q : Bytes) (e : EmojiRecord) → find catalog q ≡ some e → contains catalog q ≡ true
  unfolding contains
  contains-some q e h = rw (h, contains) refl

  pub find-same : (q : Bytes) {e : EmojiRecord} → find catalog q ≡ some e → e.sequence ≡ q
  unfolding find
  find-same q h = find_in_same catalog.records q h

  found-IsHeld : (qs : List Bytes) → All (IsHeld catalog) (found catalog qs)
  unfolding found
  found-IsHeld [] = tt
  found-IsHeld (q ∷ qs) = elim (Option-cases (find catalog q)) [
    | inl n ↦ rw (n, found) (found-IsHeld qs)
    | inr (e, h) ↦
        let same = find-same q h in rw (h, found) (rw same (contains-some q e h), found-IsHeld qs)
  ]

  -- The sequences that the catalog holds, in their order.
  abbrev pub held : List Bytes → List Bytes
  held [] = []
  held (q ∷ qs) = let rest = held qs in if contains catalog q then q ∷ rest else rest

  pub found-held :
      (qs : List Bytes) → map (λ (r : EmojiRecord). r.sequence) (found catalog qs) ≡ held qs
  unfolding found
  found-held [] = refl
  found-held (q ∷ qs) = elim (Option-cases (find catalog q)) [
    | inl n ↦ rw (n, found, contains-none q n) (found-held qs)
    | inr (e, h) ↦
        rw (h, found, contains-some q e h, find-same q h) (ap (λ r. q ∷ r) (found-held qs))
  ]

in_category-All :
    (P : EmojiRecord → Type 0) (category : Category) (table : List GeneratedEmoji)
    → ((g : GeneratedEmoji) → Memᴰ g table → P (build_record g))
    → All P (in_category category (map build_record table))
unfolding in_category
in_category-All P category [] h = tt
in_category-All P category (g ∷ table) h =
    let rest = in_category-All P category table (λ x m. h x (Memᴰ.tail m)) in
    elim (Bool-cases (same_category (build_record g).category category)) [
      | inl e ↦ rw e (h g (Memᴰ.head refl), rest)
      | inr e ↦ rw e rest
    ]

emoji-All :
    (P : EmojiRecord → Type 0) (rs : List SearchResult)
    → All (λ (r : SearchResult). P r.emoji) rs
    → All P (map (λ (r : SearchResult). r.emoji) rs)
emoji-All P [] h = tt
emoji-All P (r ∷ rs) h = (h.0, emoji-All P rs h.1)

hit_held :
    (table : List GeneratedEmoji) (P : EmojiRecord → Type 0)
    → ((g : GeneratedEmoji) → Memᴰ g table → P (build_record g))
    → (rs : List SearchResult) (query : Bytes) (m : EmojiListModel)
    → All (IsHit table query m.locale) rs
    → All (λ (r : SearchResult). P r.emoji) rs
hit_held table P h [] query m a = tt
hit_held table P h (r ∷ rs) query m a = (one a.0, hit_held table P h rs query m a.1)
  where
    one : IsHit table query m.locale r → P r.emoji
    one (exact_hit g x _ e) = rw e (h g x)
    one (token_hit g t x _ e) = rw e (h g x)

module _ (table : List GeneratedEmoji) where
  listed-IsHeld :
      (s : PersistentState) (category : Category)
      → All (IsHeld (build table)) (listed (build table) s category)
  unfolding listed build
  listed-IsHeld s recently_used = found-IsHeld (build table) _
  listed-IsHeld s favorites = found-IsHeld (build table) _
  listed-IsHeld s category =
      in_category-All (IsHeld (build table)) category table (IsHeld-Memᴰ table)

  -- In a catalog built from a table, every record that the grid shows, whether it is found by a search
  -- or listed by a category, the recently used and the favourites among them, has a sequence that the
  -- catalog holds, so that it may be committed.
  pub shown-IsHeld :
      (s : PersistentState) (m : EmojiListModel)
      → All (IsHeld (build table)) (shown (build table) s m)
  unfolding shown
  shown-IsHeld s m = elim (Bool-cases (is_empty m.query)) [
    | inl e ↦ rw (e, shown) (listed-IsHeld s m.category)
    | inr e ↦
        rw (e, shown)
          (emoji-All (IsHeld (build table)) _ (
            hit_held table (IsHeld (build table)) (IsHeld-Memᴰ table) _ m.query m
              (search-IsHit table m.query m.locale 500)))
  ]

-- With no search text, the category of the favourites shows exactly the favourites that the catalog
-- holds, in their order, and the category of the recently used shows exactly the recent entries that
-- it holds, in theirs.
pub shown-held :
    (catalog : EmojiCatalog) (s : PersistentState) (m : EmojiListModel)
    → is_empty m.query ≡ true
    → (m.category ≡ favorites
        → map (λ (r : EmojiRecord). r.sequence) (shown catalog s m) ≡ held catalog s.favorites)
      × (m.category ≡ recently_used
          → map (λ (r : EmojiRecord). r.sequence) (shown catalog s m)
            ≡ held catalog (map (λ (e : RecentEntry). e.sequence) s.recents))
unfolding shown listed
shown-held catalog s m e =
    let q : shown catalog s m ≡ listed catalog s m.category = rw (e, shown) refl in
    (
      λ h. rw q (
          ap (λ k. map (λ (r : EmojiRecord). r.sequence) (listed catalog s k)) h
          ∙ found-held catalog s.favorites),
      λ h. rw q (
          ap (λ k. map (λ (r : EmojiRecord). r.sequence) (listed catalog s k)) h
          ∙ found-held catalog _),
    )
