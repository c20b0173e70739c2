-- ===== src/State/File.antt =====
-- src/core/state.cpp: the text of a state file, `parseState` and `serialize`, and `StateStore` over
-- them. The two sets of each function hold the sequences of the favourites and of the recent entries
-- seen so far, in which membership is looked up. What `readFile` returns is a parameter.
pub mod Lines
pub mod Fields
pub mod RoundTrip
pub mod Stored
pub mod Size
use fcitx5_emoji_palette.Prelude.{
  ℕ, ◌+◌, ◌*◌, Bool, true, false, not, ◌&&◌, ◌||◌, ◌==◌, Option, none, some, List, [], ◌∷◌, ◌++◌,
  Bytes, equal, length, ltb, leb, if◌then◌else◌,
}
use fcitx5_emoji_palette.Prelude.Int.{ℤ}
use fcitx5_emoji_palette.Codes.{is_empty}
use fcitx5_emoji_palette.Utf8.{is_valid_utf8}
use fcitx5_emoji_palette.Text.{hex_encode, hex_decode}
use fcitx5_emoji_palette.State.{RecentEntry, PersistentState, is_favorite}
use fcitx5_emoji_palette.State.Decimal.{parse_count, parse_time, print_count, print_time}

abbrev pub maximum_state_size : ℕ
maximum_state_size = 1024 * 1024

abbrev pub maximum_sequence_size : ℕ
maximum_sequence_size = 128

abbrev pub maximum_favorites : ℕ
maximum_favorites = 500

abbrev pub maximum_recents : ℕ
maximum_recents = 1000

abbrev pub tab : ℕ
tab = b'\t'

abbrev pub newline : ℕ
newline = b'\n'

abbrev pub favorite_word : Bytes
favorite_word = b'f' ∷ b'a' ∷ b'v' ∷ b'o' ∷ b'r' ∷ b'i' ∷ b't' ∷ b'e' ∷ []

abbrev pub recent_word : Bytes
recent_word = b'r' ∷ b'e' ∷ b'c' ∷ b'e' ∷ b'n' ∷ b't' ∷ []

-- "emoji-palette-state\t1".
abbrev pub first_line : Bytes
first_line =
    b'e' ∷ b'm' ∷ b'o' ∷ b'j' ∷ b'i' ∷ b'-' ∷ b'p' ∷ b'a' ∷ b'l' ∷ b'e' ∷ b't' ∷ b't' ∷ b'e' ∷ b'-'
    ∷ b's' ∷ b't' ∷ b'a' ∷ b't' ∷ b'e' ∷ tab ∷ b'1' ∷ []

unfoldable pub cons_head : ℕ → List Bytes → List Bytes
cons_head c [] = (c ∷ []) ∷ []
cons_head c (part ∷ parts) = (c ∷ part) ∷ parts

-- The parts between the separators, empty ones too.
unfoldable pub parts_of : ℕ → Bytes → List Bytes
unfolding cons_head
parts_of separator [] = [] ∷ []
parts_of separator (c ∷ rest) =
    let parts = parts_of separator rest in if c == separator then [] ∷ parts else cons_head c parts

unfoldable pub fields : Bytes → List Bytes
unfolding parts_of
fields value = parts_of tab value

-- `std::getline` up to the end. It gives no line for an empty part at the end, which the loop of
-- `parse_lines` skips as it skips every empty line.
unfoldable pub lines_of : Bytes → List Bytes
unfolding parts_of
lines_of content = parts_of newline content

unfoldable pub valid_sequence : Bytes → Bool
valid_sequence sequence =
    not (is_empty sequence) && leb (length sequence) maximum_sequence_size && is_valid_utf8 sequence

-- Whether the sequence is among those of the entries.
unfoldable pub is_recent : List RecentEntry → Bytes → Bool
is_recent [] sequence = false
is_recent (e ∷ recents) sequence = equal e.sequence sequence || is_recent recents sequence

abbrev pub empty_state : PersistentState
empty_state = record { favorites = []; recents = [] }

unfoldable pub add_favorite : Option Bytes → PersistentState → Option PersistentState
unfolding valid_sequence
add_favorite none s = none
add_favorite (some sequence) s =
    if not (valid_sequence sequence)
      || is_favorite s.favorites sequence
      || ltb maximum_favorites (length s.favorites + 1)
    then none
    else some (record s { favorites = s.favorites ++ sequence ∷ [] })

unfoldable pub add_recent :
    Option ℕ → Option ℤ → Option Bytes → PersistentState → Option PersistentState
unfolding valid_sequence is_recent
add_recent (some count) (some timestamp) (some sequence) s =
    if count == 0
      || not (valid_sequence sequence)
      || is_recent s.recents sequence
      || ltb maximum_recents (length s.recents + 1)
    then none
    else some (record s {
      recents =
          s.recents
          ++ record { sequence = sequence; use_count = count; last_used = timestamp } ∷ [];
    })
add_recent (some count) (some timestamp) none s = none
add_recent (some count) none sequence s = none
add_recent none timestamp sequence s = none

unfoldable pub parse_fields : List Bytes → PersistentState → Option PersistentState
unfolding add_favorite add_recent
parse_fields (word ∷ sequence ∷ []) s =
    if equal word favorite_word then add_favorite (hex_decode sequence) s else none
parse_fields (word ∷ count ∷ timestamp ∷ sequence ∷ []) s =
    if equal word recent_word
    then add_recent (parse_count count) (parse_time timestamp) (hex_decode sequence) s
    else none
parse_fields _ s = none

unfoldable pub parse_line : Bytes → PersistentState → Option PersistentState
unfolding parse_fields fields
parse_line line s = if is_empty line then some s else parse_fields (fields line) s

-- The loop.
unfoldable pub parse_lines : List Bytes → PersistentState → Option PersistentState
unfolding parse_line
parse_lines [] s = some s
parse_lines (line ∷ lines) s = elim (parse_line line s) [
  | none ↦ none
  | some state ↦ parse_lines lines state
]

unfoldable pub parse_content : List Bytes → Option PersistentState
unfolding parse_lines
parse_content [] = none
parse_content (line ∷ lines) =
    if not (equal line first_line) then none else parse_lines lines empty_state

unfoldable pub parse_state : Bytes → Option PersistentState
unfolding parse_content lines_of
parse_state content = parse_content (lines_of content)

abbrev pub favorite_line : Bytes → Bytes
favorite_line sequence = favorite_word ++ tab ∷ hex_encode sequence

abbrev pub recent_line : RecentEntry → Bytes
recent_line e =
    recent_word
    ++ tab
      ∷ (print_count e.use_count ++ tab ∷ (print_time e.last_used ++ tab ∷ hex_encode e.sequence))

-- A line and what comes behind it.
unfoldable pub put_line : Bytes → Option Bytes → Option Bytes
put_line line none = none
put_line line (some output) = some (line ++ newline ∷ output)

-- The first loop, with the sequences seen so far.
unfoldable pub write_favorites : List Bytes → List Bytes → Option Bytes
unfolding put_line valid_sequence
write_favorites seen [] = some []
write_favorites seen (sequence ∷ favorites) =
    let output = write_favorites (seen ++ sequence ∷ []) favorites in
    if not (valid_sequence sequence) || is_favorite seen sequence
    then none
    else put_line (favorite_line sequence) output

-- The second loop.
unfoldable pub write_recents : List RecentEntry → List RecentEntry → Option Bytes
unfolding put_line valid_sequence is_recent
write_recents seen [] = some []
write_recents seen (e ∷ recents) =
    let output = write_recents (seen ++ e ∷ []) recents in
    if not (valid_sequence e.sequence) || e.use_count == 0 || is_recent seen e.sequence
    then none
    else put_line (recent_line e) output

-- The end of `serialize`.
unfoldable pub join_lines : Option Bytes → Option Bytes → Option Bytes
join_lines (some favorites) (some recents) =
    let value = first_line ++ newline ∷ (favorites ++ recents) in
    if ltb maximum_state_size (length value) then none else some value
join_lines (some favorites) none = none
join_lines none recents = none

unfoldable pub serialize_state : PersistentState → Option Bytes
unfolding write_favorites write_recents join_lines
serialize_state s =
    if ltb maximum_favorites (length s.favorites) || ltb maximum_recents (length s.recents)
    then none
    else join_lines (write_favorites [] s.favorites) (write_recents [] s.recents)

pub record StateLoadResult : Type 0 where
  pub state : PersistentState
  pub recovered_from_corruption : Bool

-- `load` behind `parseState`.
unfoldable pub loaded : Option PersistentState → StateLoadResult
loaded none = record { state = empty_state; recovered_from_corruption = true }
loaded (some state) = record { state = state; recovered_from_corruption = false }

-- `load`, for the content that was read and whether the file exists.
unfoldable pub load : Option Bytes → Bool → StateLoadResult
unfolding loaded parse_state
load none exists = record { state = empty_state; recovered_from_corruption = exists }
load (some content) exists = loaded (parse_state content)
