-- ===== src/Window/Known.antt =====
-- src/ui/palette_window.cpp: the sequences on the grid and on the panel of variants.
use fcitx5_emoji_palette.Prelude.{
  ℕ, zero, suc, true, Option, none, some, List, [], ◌∷◌, map, Bytes, All, equal, ◌≡◌, refl, inl,
  inr, Bool-cases, Option-cases, subst, sym,
}
use fcitx5_emoji_palette.Catalog.{
  EmojiRecord, GeneratedEmoji, EmojiCatalog, build, build_record, contains, find, based_on,
  variants_for,
}
use fcitx5_emoji_palette.ListModel.{record_at, nth}
use fcitx5_emoji_palette.ListModel.Shown.{
  IsHeld, shown-IsHeld, IsHeld-Memᴰ, contains-some, find-same,
}
use fcitx5_emoji_palette.Window.{Signal, selection_requested, cancellation_requested, PaletteWindow}
use fcitx5_emoji_palette.Window.Commands.{nth_variant}
use fcitx5_emoji_palette.Window.Fresh.{IsFresh}
use mathlib.Core.List.{Memᴰ}

-- A sequence that the catalog holds.
abbrev pub IsKnown : EmojiCatalog → Bytes → Type 0
IsKnown catalog q = contains catalog q ≡ true

-- A signal that asks to commit a sequence of the catalog, or asks to cancel.
abbrev pub IsOffered : EmojiCatalog → Signal → Type 0
IsOffered catalog (selection_requested q) = IsKnown catalog q
IsOffered catalog (cancellation_requested _) = Unit {0}

pub record IsHonest (catalog : EmojiCatalog) (w : PaletteWindow) : Type 0 where
  pub offered : All (IsOffered catalog) w.signals
  pub variants : All (IsKnown catalog) w.variants

nth-All :
    (P : EmojiRecord → Type 0) (n : ℕ) (rs : List EmojiRecord) {r : EmojiRecord}
    → All P rs
    → nth n rs ≡ some r
    → P r
unfolding nth
nth-All P n [] h e = absurd (cc e)
nth-All P zero (x ∷ rs) {r} h e = let q : x ≡ r = cc e in subst P q h.0
nth-All P (suc n) (x ∷ rs) h e = nth-All P n rs h.1 e

pub nth_variant-All :
    (P : Bytes → Type 0) (n : ℕ) (qs : List Bytes) {q : Bytes}
    → All P qs
    → nth_variant n qs ≡ some q
    → P q
unfolding nth_variant
nth_variant-All P n [] h e = absurd (cc e)
nth_variant-All P zero (x ∷ qs) {q} h e = let s : x ≡ q = cc e in subst P s h.0
nth_variant-All P (suc n) (x ∷ qs) h e = nth_variant-All P n qs h.1 e

based_on-All :
    (P : Bytes → Type 0) (base : Bytes) (table : List GeneratedEmoji)
    → ((g : GeneratedEmoji) → Memᴰ g table → P (build_record g).sequence)
    → All P (map (λ (r : EmojiRecord). r.sequence) (based_on (map build_record table) base))
unfolding based_on
based_on-All P base [] h = tt
based_on-All P base (g ∷ table) h =
    let rest = based_on-All P base table (λ x m. h x (Memᴰ.tail m)) in
    elim (Bool-cases (equal (build_record g).base_sequence base)) [
      | inl e ↦ rw (e, based_on) (h g (Memᴰ.head refl), rest)
      | inr e ↦ rw (e, based_on) rest
    ]

module _ (table : List GeneratedEmoji) where
  pub variants_for-IsKnown :
      (base : Bytes)
      → All
          (IsKnown (build table))
          (map (λ (r : EmojiRecord). r.sequence) (variants_for (build table) base))
  unfolding variants_for
  variants_for-IsKnown base =
      let rest = based_on-All (IsKnown (build table)) base table (IsHeld-Memᴰ table) in
      elim (Option-cases (find (build table) base)) [
        | inl n ↦ rw (n, variants_for) (unfold build in rest)
        | inr (r, e) ↦
            let k : IsKnown (build table) r.sequence =
              rw (find-same (build table) base e) (contains-some (build table) base r e) in
            rw (e, variants_for) (k, unfold build in rest)
      ]

  pub record_at-IsHeld :
      (o : Option ℕ) (w : PaletteWindow) {r : EmojiRecord}
      → IsFresh (build table) w
      → record_at o w.model ≡ some r
      → IsHeld (build table) r
  unfolding record_at
  record_at-IsHeld none w i e = absurd (cc e)
  record_at-IsHeld (some n) w i e =
      nth-All (IsHeld (build table)) n w.model.records
        (subst (All (IsHeld (build table))) (sym i.fresh) (shown-IsHeld table w.state w.model)) e
