-- ===== src/State/Decimal.antt =====
-- src/core/state.cpp: `parseNumber` for the two types of number in a state file, and the decimal form
-- that the output stream gives such a number.
pub mod RoundTrip
use fcitx5_emoji_palette.Prelude.{
  ℕ, zero, suc, ◌+◌, ◌-◌, ◌*◌, ◌/◌, ◌%◌, ◌^◌, ◌&&◌, ◌==◌, Option, none, some, [], ◌∷◌, ◌++◌, Bytes,
  ltb, leb, if◌then◌else◌,
}
use fcitx5_emoji_palette.Prelude.Int.{ℤ, pos, negsuc}

-- The value of decimal digits behind a value.
unfoldable pub read_digits : ℕ → Bytes → Option ℕ
read_digits value [] = some value
read_digits value (c ∷ rest) =
    let result = read_digits (value * 10 + (c - b'0')) rest in
    if leb b'0' c && leb c b'9' then result else none

-- At least one digit.
unfoldable pub read_number : Bytes → Option ℕ
unfolding read_digits
read_number [] = none
read_number (c ∷ rest) = read_digits 0 (c ∷ rest)

-- Out of range is an error.
unfoldable pub at_most : ℕ → Option ℕ → Option ℕ
at_most limit none = none
at_most limit (some value) = if ltb limit value then none else some value

-- `std::from_chars` up to the end of the text, for `std::uint64_t`.
unfoldable pub parse_count : Bytes → Option ℕ
unfolding read_number at_most
parse_count text = at_most (2 ^ 64 - 1) (read_number text)

unfoldable pub positive : Option ℕ → Option ℤ
positive none = none
positive (some value) = some (pos value)

unfoldable pub negative : Option ℕ → Option ℤ
negative none = none
negative (some zero) = some (pos 0)
negative (some (suc value)) = some (negsuc value)

-- The same for `std::int64_t`, which may have a minus sign.
unfoldable pub parse_time : Bytes → Option ℤ
unfolding read_number at_most positive negative
parse_time [] = none
parse_time (c ∷ text) =
    if c == b'-'
    then negative (at_most (2 ^ 63) (read_number text))
    else positive (at_most (2 ^ 63 - 1) (read_number (c ∷ text)))

-- The digits of a number that has at most `fuel` of them.
unfoldable pub decimal : ℕ → ℕ → Bytes
decimal zero value = []
decimal (suc fuel) value =
    let high = decimal fuel (value / 10) in
    if ltb value 10 then (b'0' + value) ∷ [] else high ++ (b'0' + value % 10) ∷ []

-- A value of 64 bits has at most 20 digits.
unfoldable pub print_count : ℕ → Bytes
unfolding decimal
print_count value = decimal 20 value

unfoldable pub print_time : ℤ → Bytes
unfolding decimal
print_time (pos value) = decimal 20 value
print_time (negsuc value) = b'-' ∷ decimal 20 (suc value)
