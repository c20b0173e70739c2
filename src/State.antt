-- ===== src/State.antt =====
-- src/core/state.cpp: the favourites and the recently used sequences, in memory.
pub mod Favorites
pub mod Recents
pub mod Decimal
pub mod File
use fcitx5_emoji_palette.Prelude.{
  ℕ, ◌+◌, ◌%◌, ◌^◌, Bool, true, false, not, ◌&&◌, ◌||◌, List, [], ◌∷◌, ◌++◌, Bytes, equal, length,
  take, ltb, ◌==◌, if◌then◌else◌,
}
use fcitx5_emoji_palette.Prelude.Int.{ℤ, pos_part, neg_part, ltb_ℤ}
use fcitx5_emoji_palette.Sort.{stable_sort}

pub record RecentEntry : Type 0 where
  pub sequence : Bytes
  pub use_count : ℕ
  pub last_used : ℤ

pub record PersistentState : Type 0 where
  pub favorites : List Bytes
  pub recents : List RecentEntry

-- `std::find` among the favourites.
unfoldable pub is_favorite : List Bytes → Bytes → Bool
is_favorite [] sequence = false
is_favorite (f ∷ favorites) sequence = equal f sequence || is_favorite favorites sequence

-- `erase` of the element that was found.
unfoldable pub erase_first : List Bytes → Bytes → List Bytes
erase_first [] sequence = []
erase_first (f ∷ favorites) sequence = elim (equal f sequence) [
  | true ↦ favorites
  | false ↦ f ∷ erase_first favorites sequence
]

unfoldable pub toggle_favorite : Bytes → PersistentState → PersistentState
unfolding is_favorite erase_first
toggle_favorite sequence s = record s {
  favorites =
      if not (is_favorite s.favorites sequence)
      then s.favorites ++ sequence ∷ []
      else erase_first s.favorites sequence;
}

-- The entry that was found, or a new one at the end.
unfoldable pub touch : Bytes → ℤ → List RecentEntry → List RecentEntry
touch sequence timestamp [] =
    record { sequence = sequence; use_count = 1; last_used = timestamp } ∷ []
touch sequence timestamp (e ∷ recents) = elim (equal e.sequence sequence) [
  | true ↦ record e { use_count = (e.use_count + 1) % 2 ^ 64; last_used = timestamp } ∷ recents
  | false ↦ e ∷ touch sequence timestamp recents
]

abbrev pub same_time : ℤ → ℤ → Bool
same_time a b = pos_part a + neg_part b == pos_part b + neg_part a

-- `operator<` on strings.
unfoldable pub less_text : Bytes → Bytes → Bool
less_text _ [] = false
less_text [] (_ ∷ _) = true
less_text (a ∷ left) (b ∷ right) = ltb a b || (a == b && less_text left right)

unfoldable pub goes_before : RecentEntry → RecentEntry → Bool
unfolding less_text
goes_before left right =
    if not (same_time left.last_used right.last_used)
    then ltb_ℤ right.last_used left.last_used
    else if not (left.use_count == right.use_count)
    then ltb right.use_count left.use_count
    else less_text left.sequence right.sequence

-- `resize` where there are more.
unfoldable pub shorten : ℕ → List RecentEntry → List RecentEntry
shorten maximum_entries recents =
    if ltb maximum_entries (length recents) then take maximum_entries recents else recents

unfoldable pub record_use : Bytes → ℤ → ℕ → PersistentState → PersistentState
unfolding touch goes_before shorten
record_use sequence timestamp maximum_entries s = record s {
  recents = shorten maximum_entries (stable_sort goes_before (touch sequence timestamp s.recents));
}
