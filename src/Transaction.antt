-- ===== src/Transaction.antt =====
-- src/ipc/protocol.cpp: the text form of a transaction identifier, 32 lower-case hexadecimal digits.
pub mod RoundTrip
use fcitx5_emoji_palette.Prelude.{
  ℕ, ◌+◌, ◌-◌, ◌*◌, ◌/◌, ◌%◌, ◌^◌, bit_and, bit_or, Bool, not, ◌&&◌, Option, none, some, [], ◌∷◌,
  Bytes, length, get_or, leb, ◌==◌, if◌then◌else◌,
}
use fcitx5_emoji_palette.Protocol.{TransactionId}
use fcitx5_emoji_palette.Text.{digits}

-- The lambda `decode`.
unfoldable pub decode_digit : ℕ → Option ℕ
decode_digit character =
    if leb b'0' character && leb character b'9'
    then some (character - b'0')
    else if leb b'a' character && leb character b'f'
    then some (character - b'a' + 10)
    else none

-- One byte and the bytes behind it.
unfoldable pub join_digits : Option ℕ → Option ℕ → Option Bytes → Option Bytes
join_digits (some high) (some low) (some rest) = some (bit_or (high * 2 ^ 4) low % 256 ∷ rest)
join_digits _ _ _ = none

-- The loop, over two characters at a time.
unfoldable pub decode_digits : Bytes → Option Bytes
unfolding decode_digit join_digits
decode_digits [] = some []
decode_digits (_ ∷ []) = none
decode_digits (high ∷ low ∷ rest) =
    join_digits (decode_digit high) (decode_digit low) (decode_digits rest)

unfoldable pub transaction_id_from_string : Bytes → Option TransactionId
unfolding decode_digits
transaction_id_from_string value = if not (length value == 32) then none else decode_digits value

-- The loop, with the same table of digits as the hex form of a string.
unfoldable pub transaction_id_to_string : TransactionId → Bytes
transaction_id_to_string [] = []
transaction_id_to_string (byte ∷ bytes) =
    get_or digits (byte / 2 ^ 4) 0
    ∷ get_or digits (bit_and byte 0x0F) 0
    ∷ transaction_id_to_string bytes
