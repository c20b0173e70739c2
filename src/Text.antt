-- ===== src/Text.antt =====
-- src/core/utf8.cpp: the folding and normalisation of search text, and the hexadecimal form in which
-- strings are stored.
pub mod Normalize
pub mod Hex
use fcitx5_emoji_palette.Prelude.{
  ℕ, zero, suc, ◌+◌, ◌-◌, ◌*◌, ◌/◌, ◌%◌, ◌^◌, bit_and, bit_or, Bool, true, false, not, ◌&&◌, ◌||◌,
  Option, none, some, List, [], ◌∷◌, ◌++◌, Bytes, length, get_or, ltb, leb, ◌==◌, if◌then◌else◌,
}
use fcitx5_emoji_palette.Utf8.{decode_utf8, encode_utf8, is_valid_utf8, to_char}

unfoldable pub fold_codepoint : ℕ → ℕ
fold_codepoint value =
    if leb b'A' value && leb value b'Z'
    then value + 0x20
    else if leb 0x0410 value && leb value 0x042F
    then value + 0x20
    else if value == 0x00C4
    then 0x00E4
    else if value == 0x00D6
    then 0x00F6
    else if value == 0x00DC
    then 0x00FC
    else if value == 0x1E9E
    then 0x00DF
    else if value == 0x0401
    then 0x0451
    else if value == b'-' || value == b'_'
    then b' '
    else value

unfoldable pub is_space : ℕ → Bool
is_space codepoint =
    codepoint == b' ' || codepoint == b'\t' || codepoint == b'\n' || codepoint == b'\r'

-- The loop, with the code points pushed so far and the flag `previousSpace`.
unfoldable pub normalize_loop : List ℕ → Bool → List ℕ → List ℕ
normalize_loop normalized previous_space [] = normalized
normalize_loop normalized previous_space (original ∷ rest) =
    let codepoint = fold_codepoint original in
    elim (is_space codepoint) [
      | true ↦
          normalize_loop (if not previous_space then normalized ++ b' ' ∷ [] else normalized) true
            rest
      | false ↦ normalize_loop (normalized ++ codepoint ∷ []) false rest
    ]

-- `pop_back` if the last code point is a space.
unfoldable pub trim_last : List ℕ → List ℕ
trim_last [] = []
trim_last (c ∷ []) = if c == b' ' then [] else c ∷ []
trim_last (c ∷ d ∷ rest) = c ∷ trim_last (d ∷ rest)

unfoldable pub normalize_for_search : Bytes → Bytes
normalize_for_search value = elim (decode_utf8 value) [
  | none ↦ []
  | some decoded ↦ encode_utf8 (trim_last (normalize_loop [] true decoded))
]

-- `none` stands for the -1 of the source.
unfoldable pub hex_value : ℕ → Option ℕ
hex_value value =
    if leb b'0' value && leb value b'9'
    then some (value - b'0')
    else if leb b'a' value && leb value b'f'
    then some (value - b'a' + 10)
    else if leb b'A' value && leb value b'F'
    then some (value - b'A' + 10)
    else none

abbrev pub digits : Bytes
digits =
    b'0' ∷ b'1' ∷ b'2' ∷ b'3' ∷ b'4' ∷ b'5' ∷ b'6' ∷ b'7' ∷ b'8' ∷ b'9' ∷ b'a' ∷ b'b' ∷ b'c' ∷ b'd'
    ∷ b'e' ∷ b'f' ∷ []

unfoldable pub hex_loop : Bytes → Bytes → Bytes
hex_loop result [] = result
hex_loop result (byte ∷ rest) =
    hex_loop (result ++ get_or digits (byte / 2 ^ 4) 0 ∷ get_or digits (bit_and byte 0x0F) 0 ∷ [])
      rest

unfoldable pub hex_encode : Bytes → Bytes
hex_encode = hex_loop []

-- Two characters to a byte. The clause for a single character is out of range: the length is even.
unfoldable pub hex_decode_loop : Bytes → Bytes → Option Bytes
hex_decode_loop result [] = some result
hex_decode_loop result (c ∷ []) = none
hex_decode_loop result (c ∷ d ∷ rest) = elim (hex_value c) [
  | none ↦ none
  | some high ↦ elim (hex_value d) [
    | none ↦ none
    | some low ↦ hex_decode_loop (result ++ to_char (bit_or (high * 2 ^ 4) low) ∷ []) rest
  ]
]

unfoldable pub hex_decode : Bytes → Option Bytes
hex_decode value = if not (length value % 2 == 0) then none else elim (hex_decode_loop [] value) [
  | none ↦ none
  | some result ↦ if not (is_valid_utf8 result) then none else some result
]
