-- ===== src/Utf8/Decode.antt =====
-- One round of the decoder and one round of the encoder undo each other.
use fcitx5_emoji_palette.Prelude.{
  ℕ, suc, ◌+◌, ◌-◌, ◌*◌, ◌/◌, ◌%◌, ◌^◌, ◌≤◌, ◌<◌, bit_and, bit_or, true, ◌&&◌, some, [], ◌∷◌, Bytes,
  IsByte, length, All, ltb, leb, ◌≡◌, refl, sym, ◌∙◌, ◌⊎◌, inl, inr, arith, Bool-cases,
}
use fcitx5_emoji_palette.Prelude.Bits.{
  bit_and-0x0F, bit_and-0x3F, bit_and-0x1F, bit_and-0x07, bit_or-disjoint, bit_or-disjoint_6,
  lead_two, lead_three, lead_four, continuation_byte,
}
use fcitx5_emoji_palette.Utf8.{is_scalar, lead, continuations, decode_one, to_char}

-- The encoder's bytes in plain arithmetic.
pub tail_byte : (x : ℕ) → to_char (bit_or 0x80 (bit_and x 0x3F)) ≡ 0x80 + x % 64
tail_byte x = rw (bit_and-0x3F, bit_or-disjoint 6 2 (x % 64) (omega arith)) (omega arith)

pub head_two : (x : ℕ) → x < 0x800 → to_char (bit_or 0xC0 (x / 2 ^ 6)) ≡ 0xC0 + x / 64
head_two x h = rw (bit_or-disjoint 6 3 (x / 64) (omega arith)) (omega arith)

pub head_three : (x : ℕ) → x < 0x10000 → to_char (bit_or 0xE0 (x / 2 ^ 12)) ≡ 0xE0 + x / 4096
head_three x h = rw (bit_or-disjoint 4 14 (x / 4096) (omega arith)) (omega arith)

pub head_four : (x : ℕ) → x < 0x200000 → to_char (bit_or 0xF0 (x / 2 ^ 18)) ≡ 0xF0 + x / 262144
head_four x h = rw (bit_or-disjoint 3 30 (x / 262144) (omega arith)) (omega arith)

-- The decoder's rounds in plain arithmetic.
next_bits : (cp b : ℕ) → cp < 2 ^ 26 → bit_or (cp * 64 % 2 ^ 32) (bit_and b 0x3F) ≡ cp * 64 + b % 64
next_bits cp b h =
    let wide : cp * 64 % 2 ^ 32 ≡ cp * 64 = omega arith in
    rw (wide, bit_and-0x3F) (bit_or-disjoint_6 cp (b % 64) (omega arith))

pub continue_lem :
    (n cp b : ℕ) (rest : Bytes)
    → cp < 2 ^ 26
    → 0x80 ≤ b
    → b < 0xC0
    → continuations (suc n) cp (b ∷ rest) ≡ continuations n (cp * 64 + b % 64) rest
unfolding continuations
continue_lem n cp b rest hc lo hi =
    ground (arith, continuation_byte b (omega arith), next_bits cp b hc)

pub continue_inv :
    (n cp : ℕ) (bs : Bytes) {r : ℕ × Bytes}
    → cp < 2 ^ 26
    → All IsByte bs
    → continuations (suc n) cp bs ≡ some r
    → (b : ℕ) × (rest : Bytes) × (bs ≡ b ∷ rest)
      × (0x80 ≤ b)
      × (b < 0xC0)
      × (continuations n (cp * 64 + b % 64) rest ≡ some r)
unfolding continuations
continue_inv n cp [] hc hb e = cc
continue_inv n cp (b ∷ rest) {r} hc hb e = elim (Bool-cases (leb 0x80 b && ltb b 0xC0)) [
  | inl t ↦
      let lo : 0x80 ≤ b = ground arith in
      let hi : b < 0xC0 = ground arith in
      (b, rest, refl, lo, hi, sym (continue_lem n cp b rest hc lo hi) ∙ e)
  | inr f ↦ absurd (ground (arith, continuation_byte b hb.0))
]

-- The four kinds of first byte.
pub lead_cases :
    (b : ℕ) {x : ℕ × ℕ × ℕ}
    → b < 256
    → lead b ≡ some x
    → ((b < 0x80) × (x ≡ (b, 1, 0)))
      ⊎ ((0xC0 ≤ b) × (b < 0xE0) × (x ≡ (b % 32, 2, 0x80)))
      ⊎ ((0xE0 ≤ b) × (b < 0xF0) × (x ≡ (b % 16, 3, 0x800)))
      ⊎ ((0xF0 ≤ b) × (b < 0xF8) × (x ≡ (b % 8, 4, 0x10000)))
unfolding lead
lead_cases b h e = ground (
  arith,
  lead_two b h,
  lead_three b h,
  lead_four b h,
  bit_and-0x1F b h,
  bit_and-0x0F b,
  bit_and-0x07 b h,
)

pub lead_one_lem : (b : ℕ) → b < 0x80 → lead b ≡ some (b, 1, 0)
unfolding lead
lead_one_lem b h = ground arith

pub lead_two_lem : (b : ℕ) → 0xC0 ≤ b → b < 0xE0 → lead b ≡ some (b % 32, 2, 0x80)
unfolding lead
lead_two_lem b lo hi = ground (arith, lead_two b (omega arith), bit_and-0x1F b (omega arith))

pub lead_three_lem : (b : ℕ) → 0xE0 ≤ b → b < 0xF0 → lead b ≡ some (b % 16, 3, 0x800)
unfolding lead
lead_three_lem b lo hi =
    ground (arith, lead_two b (omega arith), lead_three b (omega arith), bit_and-0x0F b)

pub lead_four_lem : (b : ℕ) → 0xF0 ≤ b → b < 0xF8 → lead b ≡ some (b % 8, 4, 0x10000)
unfolding lead
lead_four_lem b lo hi = ground (
  arith,
  lead_two b (omega arith),
  lead_three b (omega arith),
  lead_four b (omega arith),
  bit_and-0x07 b (omega arith),
)

-- A round of the decoder from its parts, and back.
module _ (b : ℕ) (rest : Bytes) {c0 len least : ℕ} (at : lead b ≡ some (c0, len, least)) where
  pub decode_one_intro :
      {cp : ℕ} {rest' : Bytes}
      → len ≤ suc (length rest)
      → continuations (len - 1) c0 rest ≡ some (cp, rest')
      → least ≤ cp
      → is_scalar cp ≡ true
      → decode_one (b ∷ rest) ≡ some (cp, rest')
  unfolding decode_one
  decode_one_intro fits e lo scalar = ground (arith, at, e)

  pub decode_one_elim :
      {cp : ℕ} {rest' : Bytes}
      → decode_one (b ∷ rest) ≡ some (cp, rest')
      → (len ≤ suc (length rest))
        × (continuations (len - 1) c0 rest ≡ some (cp, rest'))
        × (least ≤ cp)
        × (is_scalar cp ≡ true)
  unfolding decode_one
  decode_one_elim e = ground (arith, at)
