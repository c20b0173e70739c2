-- ===== src/Tests/Store.antt =====
-- The theorems on the state file and on the random device at concrete inputs.
use fcitx5_emoji_palette.Prelude.{
  ℕ, zero, suc, true, false, none, some, List, [], ◌∷◌, ◌++◌, Bytes, length, ◌≡◌, refl, ap, arith,
}
use fcitx5_emoji_palette.Prelude.Int.{pos, negsuc}
use fcitx5_emoji_palette.Codes.{is_empty}
use fcitx5_emoji_palette.Protocol.{TransactionId}
use fcitx5_emoji_palette.Text.{hex_encode, hex_loop}
use fcitx5_emoji_palette.State.{RecentEntry, PersistentState, is_favorite, toggle_favorite}
use fcitx5_emoji_palette.State.Decimal.{print_count, print_time, decimal}
use fcitx5_emoji_palette.State.File.{
  first_line, newline, tab, favorite_word, recent_word, valid_sequence, is_recent, put_line,
  write_favorites, write_recents, join_lines, serialize_state, parse_state, load,
}
use fcitx5_emoji_palette.State.File.Fields.{IsTyped}
use fcitx5_emoji_palette.State.File.RoundTrip.{parse_state-serialize_state, load-serialize_state}
use fcitx5_emoji_palette.State.File.Size.{
  record_uses, serialize_state-parse_state, serialize_state-toggle_favorite,
}
use fcitx5_emoji_palette.Addon.Random.{create_transaction, IsDrawn, create_transaction-ends}
use fcitx5_emoji_palette.Tests.{bytes_of, euro, smile}
use fcitx5_emoji_palette.Tests.Strings.{euro_valid}

abbrev entry : RecentEntry
entry = record { sequence = euro; use_count = 12; last_used = negsuc 4 }

abbrev memory : PersistentState
memory = record { favorites = euro ∷ []; recents = entry ∷ [] }

-- "e282ac"
abbrev euro_text : Bytes
euro_text = b'e' ∷ b'2' ∷ b'8' ∷ b'2' ∷ b'a' ∷ b'c' ∷ []

abbrev file : Bytes
file =
    first_line
    ++ newline ∷ ((favorite_word ++ tab ∷ euro_text) ++ newline ∷ [])
    ++ (recent_word ++ tab ∷ b'1' ∷ b'2' ∷ tab ∷ b'-' ∷ b'5' ∷ tab ∷ euro_text)
    ++ newline ∷ []

memory-IsTyped : IsTyped memory
memory-IsTyped = record {
  favorites = (bytes_of euro refl, tt);
  recents = ((bytes_of euro refl, omega arith, omega arith), tt);
}

memory_written : serialize_state memory ≡ some file
unfolding serialize_state write_favorites write_recents put_line join_lines valid_sequence is_empty
    is_favorite is_recent hex_encode hex_loop print_count print_time decimal
memory_written = rw euro_valid refl

load-serialize_state_example :
    load (some file) true ≡ record { state = memory; recovered_from_corruption = false }
load-serialize_state_example = load-serialize_state memory true memory-IsTyped memory_written

file_parses : parse_state file ≡ some memory
file_parses = parse_state-serialize_state memory memory-IsTyped memory_written

serialize_state-parse_state_example :
    (out : Bytes) × (serialize_state memory ≡ some out) × (parse_state out ≡ some memory)
serialize_state-parse_state_example = serialize_state-parse_state file file_parses

-- The same sequence over and over.
copies : ℕ → List Bytes
copies zero = []
copies (suc n) = euro ∷ copies n

length-copies : (n : ℕ) → length (copies n) ≡ n
unfolding copies
length-copies zero = refl
length-copies (suc n) = ap suc (length-copies n)

is_favorite-copies : (n : ℕ) → is_favorite (copies n) smile ≡ false
unfolding copies is_favorite
is_favorite-copies zero = refl
is_favorite-copies (suc n) = is_favorite-copies n

abbrev full : PersistentState
full = record { favorites = copies 500; recents = [] }

serialize_state-toggle_favorite_example :
    serialize_state (record_uses 10 ((euro, pos 5) ∷ []) (toggle_favorite smile full)) ≡ none
serialize_state-toggle_favorite_example =
    serialize_state-toggle_favorite smile full 10 ((euro, pos 5) ∷ []) (length-copies 500)
      (is_favorite-copies 500)

abbrev counting : ℕ → ℕ
counting n = n

create_transaction-ends_example :
    (t : TransactionId) × (create_transaction counting 0 1 ≡ some t) × IsDrawn t
create_transaction-ends_example =
    create_transaction-ends counting 0 1 0 1 (omega arith) (omega arith) refl
