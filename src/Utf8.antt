-- ===== src/Utf8.antt =====
-- src/core/utf8.cpp: UTF-8 decoding and encoding, search normalisation, and the hexadecimal form in
-- which strings are stored. A string is the list of its bytes, and a position in it is the suffix
-- that is still to be read.
pub mod Decode
pub mod Single
pub mod RoundTrip
use fcitx5_emoji_palette.Prelude.{
  ℕ, zero, suc, ◌+◌, ◌-◌, ◌*◌, ◌/◌, ◌%◌, ◌^◌, bit_and, bit_or, Bool, true, false, not, ◌&&◌, ◌||◌,
  Option, none, some, List, [], ◌∷◌, ◌++◌, Bytes, length, ltb, leb, ◌==◌, if◌then◌else◌,
}

unfoldable pub is_scalar : ℕ → Bool
is_scalar value = leb value 0x10FFFF && not (leb 0xD800 value && leb value 0xDFFF)

-- The first byte of a sequence: the bits of the code point that it holds, the length of the
-- sequence, and the least code point that may be written in that length.
unfoldable pub lead : ℕ → Option (ℕ × ℕ × ℕ)
lead first =
    if ltb first 0x80
    then some (first, 1, 0)
    else if bit_and first 0xE0 == 0xC0
    then some (bit_and first 0x1F, 2, 0x80)
    else if bit_and first 0xF0 == 0xE0
    then some (bit_and first 0x0F, 3, 0x800)
    else if bit_and first 0xF8 == 0xF0
    then some (bit_and first 0x07, 4, 0x10000)
    else none

-- The inner loop over the continuation bytes. The second clause is out of range of the string;
-- `decode_one` has tested the length before.
unfoldable pub continuations : ℕ → ℕ → Bytes → Option (ℕ × Bytes)
continuations zero codepoint rest = some (codepoint, rest)
continuations (suc n) codepoint [] = none
continuations (suc n) codepoint (b ∷ rest) = elim (bit_and b 0xC0 == 0x80) [
  | true ↦ continuations n (bit_or (codepoint * 64 % 2 ^ 32) (bit_and b 0x3F)) rest
  | false ↦ none
]

-- One round of the outer loop: the code point at the front, and what follows it.
unfoldable pub decode_one : Bytes → Option (ℕ × Bytes)
decode_one [] = none
decode_one (first ∷ rest) = elim (lead first) [
  | none ↦ none
  | some (codepoint, len, minimum) ↦
      if ltb (length (first ∷ rest)) len
      then none
      else elim (continuations (len - 1) codepoint rest) [
        | none ↦ none
        | some (codepoint, rest) ↦
            if ltb codepoint minimum || not (is_scalar codepoint)
            then none
            else some (codepoint, rest)
      ]
]

-- The outer loop. Each round takes a byte at least, so the length of the string is enough fuel.
unfoldable pub decode_loop : ℕ → Bytes → List ℕ → Option (List ℕ)
decode_loop fuel [] result = some result
decode_loop zero (b ∷ rest) result = none
decode_loop (suc fuel) (b ∷ rest) result = elim (decode_one (b ∷ rest)) [
  | none ↦ none
  | some (codepoint, rest) ↦ decode_loop fuel rest (result ++ codepoint ∷ [])
]

unfoldable pub decode_utf8 : Bytes → Option (List ℕ)
decode_utf8 value = decode_loop (length value) value []

unfoldable pub is_valid_utf8 : Bytes → Bool
is_valid_utf8 value = elim (decode_utf8 value) [ none ↦ false | some _ ↦ true ]

-- `static_cast<char>`.
abbrev pub to_char : ℕ → ℕ
to_char x = x % 256

-- What one round of the encoder appends.
unfoldable pub encode_one : ℕ → Bytes
encode_one codepoint =
    if leb codepoint 0x7F
    then to_char codepoint ∷ []
    else if leb codepoint 0x7FF
    then to_char (bit_or 0xC0 (codepoint / 2 ^ 6))
      ∷ to_char (bit_or 0x80 (bit_and codepoint 0x3F))
      ∷ []
    else if leb codepoint 0xFFFF
    then to_char (bit_or 0xE0 (codepoint / 2 ^ 12))
      ∷ to_char (bit_or 0x80 (bit_and (codepoint / 2 ^ 6) 0x3F))
      ∷ to_char (bit_or 0x80 (bit_and codepoint 0x3F))
      ∷ []
    else to_char (bit_or 0xF0 (codepoint / 2 ^ 18))
      ∷ to_char (bit_or 0x80 (bit_and (codepoint / 2 ^ 12) 0x3F))
      ∷ to_char (bit_or 0x80 (bit_and (codepoint / 2 ^ 6) 0x3F))
      ∷ to_char (bit_or 0x80 (bit_and codepoint 0x3F))
      ∷ []

-- A code point that is no scalar value empties the result.
unfoldable pub encode_loop : Bytes → List ℕ → Bytes
encode_loop result [] = result
encode_loop result (codepoint ∷ codepoints) = elim (is_scalar codepoint) [
  | false ↦ []
  | true ↦ encode_loop (result ++ encode_one codepoint) codepoints
]

unfoldable pub encode_utf8 : List ℕ → Bytes
encode_utf8 = encode_loop []
