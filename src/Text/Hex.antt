-- ===== src/Text/Hex.antt =====
-- src/core/utf8.cpp: `hexEncode` and `hexDecode`.
use fcitx5_emoji_palette.Prelude.{
  ℕ, ◌+◌, ◌*◌, ◌/◌, ◌%◌, ◌^◌, ◌≤◌, ◌<◌, bit_and, bit_or, Bool, true, false, ◌&&◌, none, some, [],
  ◌∷◌, ◌++◌, Bytes, IsByte, length, All, get_or, ltb, leb, ◌==◌, ◌≡◌, refl, sym, ◌∙◌, arith,
  append_assoc, append-nil, All-append, Option-cases, inl, inr, subst, length-append,
}
use mathlib.Core.Option.{some-injective}
use fcitx5_emoji_palette.Prelude.Bits.{
  holds_below, holds_below_sound, bit_and-0x0F, bit_or-disjoint_4,
}
use fcitx5_emoji_palette.Utf8.{is_valid_utf8, to_char}
use fcitx5_emoji_palette.Text.{hex_value, digits, hex_loop, hex_encode, hex_decode_loop, hex_decode}

is_digit_of : ℕ → Bool
unfolding hex_value
is_digit_of n = elim (hex_value (get_or digits n 0)) [ none ↦ false | some v ↦ v == n ]

-- A digit reads back as its value.
pub hex_value-digit : (n : ℕ) → n < 16 → hex_value (get_or digits n 0) ≡ some n
unfolding is_digit_of
hex_value-digit n h =
    let t : is_digit_of n ≡ true =
      holds_below_sound is_digit_of 16 n (unfold holds_below hex_value in refl) h in
    ground (arith, t)

-- The two characters of a byte.
abbrev pub pair : ℕ → Bytes
pair b = get_or digits (b / 2 ^ 4) 0 ∷ get_or digits (bit_and b 0x0F) 0 ∷ []

abbrev pub pairs : Bytes → Bytes
pairs [] = []
pairs (b ∷ bs) = pair b ++ pairs bs

hex_loop-pairs : (bs out : Bytes) → hex_loop out bs ≡ out ++ pairs bs
unfolding hex_loop
hex_loop-pairs [] out = sym (append-nil out)
hex_loop-pairs (b ∷ bs) out =
    hex_loop-pairs bs (out ++ pair b) ∙ append_assoc out (pair b) (pairs bs)

pub hex_encode-pairs : (bs : Bytes) → hex_encode bs ≡ pairs bs
unfolding hex_encode
hex_encode-pairs bs = hex_loop-pairs bs []

rejoin : (b : ℕ) → b < 256 → to_char (bit_or (b / 2 ^ 4 * 2 ^ 4) (bit_and b 0x0F)) ≡ b
rejoin b h = rw (bit_and-0x0F b, bit_or-disjoint_4 (b / 16) (b % 16) (omega arith)) (omega arith)

hex_decode_loop-pairs :
    (bs out : Bytes) → All IsByte bs → hex_decode_loop out (pairs bs) ≡ some (out ++ bs)
unfolding hex_decode_loop
hex_decode_loop-pairs [] out h = rw append-nil
hex_decode_loop-pairs (b ∷ bs) out h = ground (
  arith,
  hex_value-digit (b / 2 ^ 4) (omega (arith, h.0)),
  hex_value-digit (bit_and b 0x0F) (omega (arith, bit_and-0x0F b)),
  rejoin b h.0,
  hex_decode_loop-pairs bs (out ++ b ∷ []) h.1,
  append_assoc out (b ∷ []) bs,
)

pub length-pairs : (bs : Bytes) → length (pairs bs) ≡ 2 * length bs
length-pairs [] = refl
length-pairs (b ∷ bs) = omega (arith, length-pairs bs)

-- Decoding undoes encoding on every valid UTF-8 string.
pub hex_decode-hex_encode :
    (s : Bytes) → All IsByte s → is_valid_utf8 s ≡ true → hex_decode (hex_encode s) ≡ some s
unfolding hex_decode
hex_decode-hex_encode s h v =
    rw (hex_encode-pairs s) (ground (arith, length-pairs s, hex_decode_loop-pairs s [] h, v))

-- Whatever decodes is a valid UTF-8 string.
pub hex_decode_valid : (t : Bytes) {s : Bytes} → hex_decode t ≡ some s → is_valid_utf8 s ≡ true
unfolding hex_decode
hex_decode_valid t e = ground arith

hex_decode_loop_shape :
    (t out : Bytes) {s : Bytes}
    → All IsByte out
    → hex_decode_loop out t ≡ some s
    → All IsByte s × (2 * length s ≡ 2 * length out + length t)
unfolding hex_decode_loop
hex_decode_loop_shape [] out h e = (subst (All IsByte) (some-injective out _ e) h, ground arith)
hex_decode_loop_shape (c ∷ []) out h e = cc
hex_decode_loop_shape (c ∷ d ∷ r) out {s} h e = elim (Option-cases (hex_value c)) [
  | inl n ↦ cc (rw (n, hex_decode_loop) at e)
  | inr (high, eh) ↦ elim (Option-cases (hex_value d)) [
    | inl n ↦ cc (rw (eh, n, hex_decode_loop) at e)
    | inr (low, el) ↦
        let x : ℕ = to_char (bit_or (high * 2 ^ 4) low) in
        let hx : All IsByte (out ++ x ∷ []) = All-append IsByte out (x ∷ []) h (omega arith, tt) in
        let (hs, hl) = hex_decode_loop_shape r (out ++ x ∷ []) hx (ground (arith, e, eh, el)) in
        (hs, omega (arith, hl, length-append out (x ∷ [])))
  ]
]

-- What decodes is a string of bytes, half as long as its stored form.
pub hex_decode_shape :
    (t : Bytes) {s : Bytes}
    → hex_decode t ≡ some s
    → All IsByte s × (2 * length s ≡ length t) × (is_valid_utf8 s ≡ true)
unfolding hex_decode
hex_decode_shape t {s} e =
    let (hs, hl) = hex_decode_loop_shape t [] {s = s} tt (ground (arith, e)) in
    (hs, omega (arith, hl), hex_decode_valid t e)

is_lower_hex : ℕ → Bool
is_lower_hex n = leb 48 (get_or digits n 0) && ltb (get_or digits n 0) 103

-- A digit of the encoder is a lowercase hexadecimal character, so no separator of a record.
pub digit_shape : (n : ℕ) → n < 16 → (48 ≤ get_or digits n 0) × (get_or digits n 0 < 103)
unfolding is_lower_hex
digit_shape n h =
    let t : is_lower_hex n ≡ true =
      holds_below_sound is_lower_hex 16 n (unfold holds_below in refl) h in
    ground (arith, t)
