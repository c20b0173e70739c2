-- ===== src/State/File/Lines.antt =====
-- src/core/state.cpp: the parts of a text that is made of lines and fields.
use fcitx5_emoji_palette.Prelude.{
  ℕ, suc, ◌/◌, ◌^◌, bit_and, ◌≤◌, ◌<◌, false, ◌==◌, [], ◌∷◌, ◌++◌, Bytes, IsByte, All, ◌≡◌, refl,
  arith,
}
use fcitx5_emoji_palette.Prelude.Bits.{bit_and-0x0F}
use fcitx5_emoji_palette.Prelude.Int.{ℤ, pos, negsuc}
use fcitx5_emoji_palette.Text.{hex_encode}
use fcitx5_emoji_palette.Text.Hex.{pairs, hex_encode-pairs, digit_shape}
use fcitx5_emoji_palette.State.Decimal.{print_count, print_time}
use fcitx5_emoji_palette.State.Decimal.RoundTrip.{IsDigit, IsInt64, decimal-IsDecimal}
use fcitx5_emoji_palette.State.File.{cons_head, parts_of}

-- No tabulator and no line feed.
abbrev pub IsPlain : ℕ → Type 0
IsPlain c = 32 ≤ c

-- Not the separator.
abbrev pub Apart : ℕ → ℕ → Type 0
Apart separator c = (c == separator) ≡ false

pub plain-Apart :
    (separator : ℕ) (a : Bytes) → separator < 32 → All IsPlain a → All (Apart separator) a
plain-Apart separator [] l h = tt
plain-Apart separator (c ∷ a) l h = (ground (arith, l, h.0), plain-Apart separator a l h.1)

pub parts_of-append :
    (separator : ℕ) (a b : Bytes)
    → All (Apart separator) a
    → parts_of separator (a ++ separator ∷ b) ≡ a ∷ parts_of separator b
unfolding parts_of cons_head
parts_of-append separator [] b h = ground arith
parts_of-append separator (c ∷ a) b h = rw (h.0, parts_of-append separator a b h.1) refl

pub parts_of-Apart :
    (separator : ℕ) (a : Bytes) → All (Apart separator) a → parts_of separator a ≡ a ∷ []
unfolding parts_of cons_head
parts_of-Apart separator [] h = refl
parts_of-Apart separator (c ∷ a) h = rw (h.0, parts_of-Apart separator a h.1) refl

IsPlain-digits : (xs : Bytes) → All IsDigit xs → All IsPlain xs
IsPlain-digits [] h = tt
IsPlain-digits (c ∷ xs) h = (omega (arith, h.0.0), IsPlain-digits xs h.1)

pub print_count-IsPlain : (n : ℕ) → n < 2 ^ 64 → All IsPlain (print_count n)
unfolding print_count
print_count-IsPlain n h = IsPlain-digits _ (decimal-IsDecimal 19 n (omega (arith, h))).all_digits

pub print_time-IsPlain : (t : ℤ) → IsInt64 t → All IsPlain (print_time t)
unfolding print_time
print_time-IsPlain (pos n) h =
    IsPlain-digits _ (decimal-IsDecimal 19 n (omega (arith, h))).all_digits
print_time-IsPlain (negsuc n) h =
    (omega arith, IsPlain-digits _ (decimal-IsDecimal 19 (suc n) (omega (arith, h))).all_digits)

pairs-IsPlain : (bs : Bytes) → All IsByte bs → All IsPlain (pairs bs)
pairs-IsPlain [] h = tt
pairs-IsPlain (b ∷ bs) h =
    let (high, _) = digit_shape (b / 2 ^ 4) (omega (arith, h.0)) in
    let (low, _) = digit_shape (bit_and b 0x0F) (omega (arith, bit_and-0x0F b)) in
    (omega (arith, high), (omega (arith, low), pairs-IsPlain bs h.1))

pub hex_encode-IsPlain : (bs : Bytes) → All IsByte bs → All IsPlain (hex_encode bs)
hex_encode-IsPlain bs h = rw (hex_encode-pairs bs) (pairs-IsPlain bs h)
