-- ===== src/Glyph/Missing.antt =====
-- src/core/glyph_coverage.cpp: the coverage of a sequence and its code points.
use fcitx5_emoji_palette.Prelude.{
  ℕ, ◌≤◌, Bool, true, false, ◌⊎◌, arith, none, some, List, [], ◌∷◌, ◌++◌, All, ◌≡◌, refl, ap, inl,
  inr, Bool-cases,
}
use fcitx5_emoji_palette.Utf8.{encode_utf8}
use fcitx5_emoji_palette.Utf8.RoundTrip.{IsScalar, decode-encode}
use fcitx5_emoji_palette.Glyph.{
  GlyphCoverage, is_non_rendering_codepoint, inspect_loop, inspect_glyph_coverage,
}

-- The joiner, the variation selectors and the tags.
abbrev pub NeedsNoGlyph : ℕ → Type 0
NeedsNoGlyph c = (c ≡ 0x200D) ⊎ ((0xFE00 ≤ c) × (c ≤ 0xFE0F)) ⊎ ((0xE0020 ≤ c) × (c ≤ 0xE007F))

-- A code point that does not stop the sequence from being drawn, and one that does.
abbrev pub IsDrawn : (ℕ → Bool) → ℕ → Type 0
IsDrawn probe c = NeedsNoGlyph c ⊎ (probe c ≡ true)

abbrev pub IsMissing : (ℕ → Bool) → ℕ → Type 0
IsMissing probe c = (¬ NeedsNoGlyph c) × (probe c ≡ false)

NeedsNoGlyph-true : (c : ℕ) → is_non_rendering_codepoint c ≡ true → NeedsNoGlyph c
unfolding is_non_rendering_codepoint
NeedsNoGlyph-true c h = ground arith

NeedsNoGlyph-false : (c : ℕ) → is_non_rendering_codepoint c ≡ false → ¬ NeedsNoGlyph c
unfolding is_non_rendering_codepoint
NeedsNoGlyph-false c h n = ground (arith, n)

-- The coverage of a list of code points: all are drawn, or the named one is the first that is not.
pub data Verdict (probe : ℕ → Bool) (cs : List ℕ) (g : GlyphCoverage) : Type 0 where
  all_drawn :
      All (IsDrawn probe) cs
      → g ≡ record { renderable = true; missing_codepoint = none }
      → Verdict probe cs g
  first_missing :
      (before : List ℕ) (c : ℕ) (after : List ℕ)
      → cs ≡ before ++ c ∷ after
      → All (IsDrawn probe) before
      → IsMissing probe c
      → g ≡ record { renderable = false; missing_codepoint = some c }
      → Verdict probe cs g

Verdict-cons :
    (probe : ℕ → Bool) (c : ℕ) (cs : List ℕ) (g : GlyphCoverage)
    → IsDrawn probe c
    → Verdict probe cs g
    → Verdict probe (c ∷ cs) g
Verdict-cons probe c cs g d (all_drawn a e) = all_drawn (d, a) e
Verdict-cons probe c cs g d (first_missing before k after e a m r) =
    first_missing (c ∷ before) k after (ap (λ l. c ∷ l) e) (d, a) m r

inspect_loop-Verdict : (probe : ℕ → Bool) (cs : List ℕ) → Verdict probe cs (inspect_loop probe cs)
unfolding inspect_loop
inspect_loop-Verdict probe [] = all_drawn tt refl
inspect_loop-Verdict probe (c ∷ cs) =
    let rest = inspect_loop-Verdict probe cs in
    elim (Bool-cases (is_non_rendering_codepoint c)) [
      | inl a ↦ rw (a, inspect_loop) (Verdict-cons probe c cs _ (inl (NeedsNoGlyph-true c a)) rest)
      | inr a ↦ elim (Bool-cases (probe c)) [
        | inl b ↦ rw (a, b, inspect_loop) (Verdict-cons probe c cs _ (inr b) rest)
        | inr b ↦
            rw (a, b, inspect_loop) (first_missing [] c cs refl tt (NeedsNoGlyph-false c a, b) refl)
      ]
    ]

-- For the UTF-8 encoding of a non-empty list of code points: the sequence is renderable when the probe
-- finds each of them that is not a joiner, a variation selector or a tag; otherwise it is not, and the
-- missing code point is the first of the list that is neither.
pub inspect_glyph_coverage-Verdict :
    (probe : ℕ → Bool) (c : ℕ) (cs : List ℕ)
    → All IsScalar (c ∷ cs)
    → Verdict probe (c ∷ cs) (inspect_glyph_coverage (encode_utf8 (c ∷ cs)) (some probe))
unfolding inspect_glyph_coverage
inspect_glyph_coverage-Verdict probe c cs h =
    rw (decode-encode (c ∷ cs) h, inspect_glyph_coverage) (inspect_loop-Verdict probe (c ∷ cs))
