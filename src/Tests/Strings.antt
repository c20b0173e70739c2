-- ===== src/Tests/Strings.antt =====
-- The theorems on UTF-8 and on text at concrete strings.
use fcitx5_emoji_palette.Prelude.{
  ℕ, map, true, none, some, List, [], ◌∷◌, Bytes, All, ◌≡◌, ◌↔◌, refl, arith,
}
use fcitx5_emoji_palette.Utf8.{
  is_scalar, decode_one, decode_loop, decode_utf8, is_valid_utf8, encode_utf8, continuations, lead,
}
use fcitx5_emoji_palette.Utf8.RoundTrip.{
  IsScalar, decode-encode, encode-decode, is_valid_utf8_iff, decode_loop_fuel, IsStuck,
  IsScalarValue,
}
use fcitx5_emoji_palette.Text.{
  normalize_for_search, fold_codepoint, hex_encode, hex_decode, hex_decode_loop, hex_value,
}
use fcitx5_emoji_palette.Text.Normalize.{
  with_spaces, words, IsNormal, normalize_for_search-IsNormal,
}
use fcitx5_emoji_palette.Text.Hex.{hex_decode-hex_encode}
use fcitx5_emoji_palette.Tests.{bytes_of, euro, smile, loud}

abbrev pub euro_and_smile : List ℕ
euro_and_smile = 0x20AC ∷ 0x1F600 ∷ []

pub euro_and_smile-IsScalar : All IsScalar euro_and_smile
unfolding is_scalar
euro_and_smile-IsScalar = (refl, (refl, tt))

decode_euro : decode_utf8 euro ≡ some (0x20AC ∷ [])
unfolding decode_utf8 decode_loop decode_one continuations lead is_scalar
decode_euro = refl

decode_smile : decode_utf8 smile ≡ some (0x1F600 ∷ [])
unfolding decode_utf8 decode_loop decode_one continuations lead is_scalar
decode_smile = refl

-- An overlong form of the solidus.
overlong : decode_utf8 (0xC0 ∷ 0xAF ∷ []) ≡ none
unfolding decode_utf8 decode_loop decode_one continuations lead is_scalar
overlong = refl

decode_loud : decode_utf8 loud ≡ some loud
unfolding decode_utf8 decode_loop decode_one continuations lead is_scalar
decode_loud = refl

pub euro_valid : is_valid_utf8 euro ≡ true
unfolding is_valid_utf8 decode_utf8 decode_loop decode_one continuations lead is_scalar
euro_valid = refl

is_valid_utf8_iff_example :
    (is_valid_utf8 euro ≡ true)
    ↔ ((cps : List ℕ) × All IsScalarValue cps × (encode_utf8 cps ≡ euro))
is_valid_utf8_iff_example = is_valid_utf8_iff euro (bytes_of euro refl)

decode-encode_example : decode_utf8 (encode_utf8 euro_and_smile) ≡ some euro_and_smile
decode-encode_example = decode-encode euro_and_smile euro_and_smile-IsScalar

encode-decode_example : (encode_utf8 (0x20AC ∷ []) ≡ euro) × All IsScalarValue (0x20AC ∷ [])
encode-decode_example = encode-decode euro (bytes_of euro refl) decode_euro

decode_loop_fuel_example :
    (decode_loop 100 euro [] ≡ decode_utf8 euro) × (decode_utf8 euro ≡ none → IsStuck euro)
decode_loop_fuel_example = decode_loop_fuel 100 euro (bytes_of euro refl) (omega arith)

normalize_for_search-IsNormal_example :
    (out : List ℕ) × (decode_utf8 (normalize_for_search loud) ≡ some out)
    × IsNormal true out
    × (out ≡ with_spaces (words (map fold_codepoint loud)))
normalize_for_search-IsNormal_example =
    normalize_for_search-IsNormal loud (bytes_of loud refl) decode_loud

hex_decode-hex_encode_example : hex_decode (hex_encode euro) ≡ some euro
hex_decode-hex_encode_example = hex_decode-hex_encode euro (bytes_of euro refl) euro_valid

-- "e282ac"
abbrev euro_digits : Bytes
euro_digits = 0x65 ∷ 0x32 ∷ 0x38 ∷ 0x32 ∷ 0x61 ∷ 0x63 ∷ []

decode_euro_digits : hex_decode euro_digits ≡ some euro
unfolding hex_decode hex_decode_loop hex_value is_valid_utf8 decode_utf8 decode_loop decode_one
    continuations lead is_scalar
decode_euro_digits = refl
