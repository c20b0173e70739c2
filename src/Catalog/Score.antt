-- ===== src/Catalog/Score.antt =====
-- src/model/catalog.cpp: `textScore`.
use fcitx5_emoji_palette.Prelude.{
  ℕ, ◌<◌, Bool, true, false, [], ◌∷◌, Bytes, equal, equal_iff, if◌then◌else◌, ◌≡◌, refl, subst,
  arith, inl, inr, Bool-cases,
}
use fcitx5_emoji_palette.Prelude.Int.{pos, negsuc, ltb_ℤ}
use fcitx5_emoji_palette.Catalog.{starts_with, has_part, is_empty_text, less_by, text_score}

starts_with_self : (t : Bytes) → starts_with t t ≡ true
unfolding starts_with
starts_with_self [] = refl
starts_with_self (c ∷ t) = ground (arith, starts_with_self t)

has_part-of_start : (t p : Bytes) → starts_with t p ≡ true → has_part t p ≡ true
unfolding has_part
has_part-of_start [] p h = h
has_part-of_start (c ∷ t) p h = rw (h, has_part) refl

has_part-tail : (t p : Bytes) (c : ℕ) → has_part t (c ∷ p) ≡ true → has_part t p ≡ true
unfolding has_part starts_with
has_part-tail [] p c h = ground (arith, h)
has_part-tail (x ∷ t) p c h = elim (Bool-cases (starts_with (x ∷ t) p)) [
  | inl a ↦ rw (a, has_part) refl
  | inr a ↦
      rw (a, has_part)
        (elim (Bool-cases (starts_with (x ∷ t) (c ∷ p))) [
          | inl b ↦ has_part-of_start t p (ground (arith, b))
          | inr b ↦ has_part-tail t p c (simp (b, has_part) at h)
        ])
]

below_zero :
    (exact : ℕ)
    → exact < 750
    → (x : Bool) → ltb_ℤ (if x then less_by exact 750 else negsuc 0) (pos 0) ≡ true
below_zero exact h true = ground arith
below_zero exact h false = refl

-- A text that does not contain the token as a part scores below zero, which counts as no match,
-- where the score of an exact match is below 750: the subsequence branch changes nothing there.
pub text_score_lem :
    (token text : Bytes) (exact : ℕ)
    → exact < 750
    → has_part text token ≡ false
    → ltb_ℤ (text_score token text exact) (pos 0) ≡ true
unfolding text_score
text_score_lem token text exact h n = elim (Bool-cases (is_empty_text text)) [
  | inl a ↦ rw (a, text_score) refl
  | inr a ↦ elim (Bool-cases (equal text token)) [
    | inl b ↦
        let k : has_part text token ≡ true =
          subst (λ p. has_part text p ≡ true) ((equal_iff text token).0 b)
            (has_part-of_start text text (starts_with_self text)) in
        ground (arith, n, k)
    | inr b ↦ elim (Bool-cases (starts_with text token)) [
      | inl c ↦ ground (arith, n, has_part-of_start text token c)
      | inr c ↦ elim (Bool-cases (has_part text (b' ' ∷ token))) [
        | inl d ↦ ground (arith, n, has_part-tail text token b' ' d)
        | inr d ↦ rw (a, b, c, d, n, text_score) (below_zero exact h _)
      ]
    ]
  ]
]
