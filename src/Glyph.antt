-- ===== src/Glyph.antt =====
-- src/core/glyph_coverage.cpp: whether a font can draw a sequence. The probe is a parameter; `none`
-- stands for an empty `std::function`.
pub mod Missing
use fcitx5_emoji_palette.Prelude.{
  ℕ, zero, suc, ◌+◌, ◌-◌, ◌/◌, ◌%◌, ◌^◌, bit_and, Bool, true, false, ◌&&◌, ◌||◌, Option, none, some,
  List, [], ◌∷◌, ◌++◌, Bytes, length, get_or, ltb, leb, ◌==◌, if◌then◌else◌,
}
use fcitx5_emoji_palette.Utf8.{decode_utf8}

pub record GlyphCoverage : Type 0 where
  pub renderable : Bool
  pub missing_codepoint : Option ℕ

abbrev pub GlyphProbe : Type 0
GlyphProbe = Option (ℕ → Bool)

unfoldable pub is_non_rendering_codepoint : ℕ → Bool
is_non_rendering_codepoint codepoint =
    if codepoint == 0x200D
    then true
    else if leb 0xFE00 codepoint && leb codepoint 0xFE0F
    then true
    else leb 0xE0020 codepoint && leb codepoint 0xE007F

-- The loop over the code points.
unfoldable pub inspect_loop : (ℕ → Bool) → List ℕ → GlyphCoverage
inspect_loop probe [] = record { renderable = true; missing_codepoint = none }
inspect_loop probe (codepoint ∷ rest) = elim (is_non_rendering_codepoint codepoint) [
  | true ↦ inspect_loop probe rest
  | false ↦ elim (probe codepoint) [
    | true ↦ inspect_loop probe rest
    | false ↦ record { renderable = false; missing_codepoint = some codepoint }
  ]
]

unfoldable pub inspect_glyph_coverage : Bytes → GlyphProbe → GlyphCoverage
inspect_glyph_coverage sequence none = record { renderable = true; missing_codepoint = none }
inspect_glyph_coverage sequence (some probe) = elim (decode_utf8 sequence) [
  | none ↦ record { renderable = false; missing_codepoint = none }
  | some [] ↦ record { renderable = false; missing_codepoint = none }
  | some (codepoint ∷ rest) ↦ inspect_loop probe (codepoint ∷ rest)
]

abbrev pub upper_digits : Bytes
upper_digits =
    b'0' ∷ b'1' ∷ b'2' ∷ b'3' ∷ b'4' ∷ b'5' ∷ b'6' ∷ b'7' ∷ b'8' ∷ b'9' ∷ b'A' ∷ b'B' ∷ b'C' ∷ b'D'
    ∷ b'E' ∷ b'F' ∷ []

-- The first loop, which shifts a value of 32 bits to 0 in eight rounds at most.
unfoldable pub label_loop : ℕ → ℕ → Bytes → Bytes
label_loop zero value result = result
label_loop (suc fuel) value result =
    let text = get_or upper_digits (bit_and value 0xF) 0 ∷ result in
    let longer = label_loop fuel (value / 2 ^ 4) text in if value / 2 ^ 4 == 0 then text else longer

-- The second loop, at most four rounds.
unfoldable pub pad : ℕ → Bytes → Bytes
pad zero result = result
pad (suc fuel) result = pad fuel (if ltb (length result) 4 then b'0' ∷ result else result)

unfoldable pub label_of : Option ℕ → Bytes
unfolding label_loop pad
label_of none = []
label_of (some codepoint) = pad 4 (label_loop 8 codepoint [])

unfoldable pub missing_glyph_label : GlyphCoverage → Bytes
unfolding label_of
missing_glyph_label coverage = label_of coverage.missing_codepoint
