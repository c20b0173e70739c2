-- ===== src/Tests/Memory.antt =====
-- The theorems on the state and on transaction identifiers at concrete inputs.
use fcitx5_emoji_palette.Prelude.{◌≤◌, not, some, [], ◌∷◌, Bytes, length, ◌≡◌, ◌≢◌, refl, arith}
use fcitx5_emoji_palette.Prelude.Int.{pos}
use fcitx5_emoji_palette.Protocol.{IsTransactionId}
use fcitx5_emoji_palette.Sort.Members.{IsOrdered}
use fcitx5_emoji_palette.State.{
  RecentEntry, PersistentState, is_favorite, toggle_favorite, record_use,
}
use fcitx5_emoji_palette.State.Favorites.{IsUnique, toggle_favorite-IsUnique}
use fcitx5_emoji_palette.State.Recents.{
  MayPrecede, StartsWith, record_use-IsSorted, record_use-StartsWith,
}
use fcitx5_emoji_palette.Transaction.{
  decode_digit, join_digits, decode_digits, transaction_id_from_string, transaction_id_to_string,
}
use fcitx5_emoji_palette.Transaction.RoundTrip.{to_string-from_string}
use fcitx5_emoji_palette.Tests.{bytes_of, euro, smile, id}

abbrev older : RecentEntry
older = record { sequence = euro; use_count = 3; last_used = pos 10 }

abbrev newer : RecentEntry
newer = record { sequence = smile; use_count = 1; last_used = pos 20 }

abbrev memory : PersistentState
memory = record { favorites = euro ∷ smile ∷ []; recents = newer ∷ older ∷ [] }

memory-IsUnique : IsUnique memory.favorites
unfolding is_favorite
memory-IsUnique = (refl, (refl, tt))

euro_is_not_smile : euro ≢ smile
euro_is_not_smile e = ground (arith, e)

toggle_favorite-IsUnique_example :
    (is_favorite (toggle_favorite euro memory).favorites euro
      ≡ not (is_favorite (euro ∷ smile ∷ []) euro))
    × IsUnique (toggle_favorite euro memory).favorites
toggle_favorite-IsUnique_example = toggle_favorite-IsUnique euro memory memory-IsUnique

record_use-IsSorted_example :
    IsOrdered MayPrecede (record_use euro (pos 30) 1 memory).recents
    × (length (record_use euro (pos 30) 1 memory).recents ≤ 1)
record_use-IsSorted_example = record_use-IsSorted euro (pos 30) 1 memory

record_use-StartsWith_example : StartsWith euro (pos 30) (record_use euro (pos 30) 1 memory).recents
record_use-StartsWith_example =
    record_use-StartsWith euro (pos 30) 1 memory (omega arith) (refl, (refl, tt))

id-IsTransactionId : IsTransactionId id
id-IsTransactionId = (refl, bytes_of id refl)

-- "0102030405060708090a0b0c0d0e0f10"
abbrev id_text : Bytes
id_text =
    b'0' ∷ b'1' ∷ b'0' ∷ b'2' ∷ b'0' ∷ b'3' ∷ b'0' ∷ b'4' ∷ b'0' ∷ b'5' ∷ b'0' ∷ b'6' ∷ b'0' ∷ b'7'
    ∷ b'0' ∷ b'8' ∷ b'0' ∷ b'9' ∷ b'0' ∷ b'a' ∷ b'0' ∷ b'b' ∷ b'0' ∷ b'c' ∷ b'0' ∷ b'd' ∷ b'0'
    ∷ b'e' ∷ b'0' ∷ b'f' ∷ b'1' ∷ b'0' ∷ []

id_text_reads : transaction_id_from_string id_text ≡ some id
unfolding transaction_id_from_string decode_digits join_digits decode_digit
id_text_reads = refl

to_string-from_string_example : (transaction_id_to_string id ≡ id_text) × IsTransactionId id
to_string-from_string_example = to_string-from_string id_text id_text_reads
