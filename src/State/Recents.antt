-- ===== src/State/Recents.antt =====
-- src/core/state.cpp: `recordUse`.
use fcitx5_emoji_palette.Prelude.{
  ℕ, zero, suc, ◌≤◌, ◌<◌, true, false, List, [], ◌∷◌, All, Bytes, equal, equal_iff, length,
  length-take, ltb, ◌≡◌, refl, ap, arith, ◌⊎◌, inl, inr, Bool-cases,
}
use fcitx5_emoji_palette.Prelude.Int.{ℤ, ltb_ℤ}
use fcitx5_emoji_palette.Sort.{stable_sort-All, IsSorted, stable_sort-IsSorted}
use fcitx5_emoji_palette.Sort.Members.{
  IsOrdered, IsSorted-IsOrdered, take-IsSorted, stable_sort-Memᴰ, All-lookup,
}
use fcitx5_emoji_palette.State.{
  RecentEntry, PersistentState, touch, less_text, goes_before, shorten, record_use,
}
use mathlib.Core.List.{Memᴰ}

less_text_asym : (a b : Bytes) → less_text a b ≡ true → less_text b a ≡ false
unfolding less_text
less_text_asym [] [] h = refl
less_text_asym [] (y ∷ b) h = refl
less_text_asym (x ∷ a) [] h = ground (arith, h)
less_text_asym (x ∷ a) (y ∷ b) h = ground (arith, h, less_text_asym a b)

less_text_trans :
    (a b c : Bytes) → less_text b a ≡ false → less_text c b ≡ false → less_text c a ≡ false
unfolding less_text
less_text_trans [] b c h k = ground arith
less_text_trans (x ∷ a) [] c h k = ground (arith, h)
less_text_trans (x ∷ a) (y ∷ b) [] h k = ground (arith, k)
less_text_trans (x ∷ a) (y ∷ b) (z ∷ c) h k = ground (arith, h, k, less_text_trans a b c)

goes_before_asym : (x y : RecentEntry) → goes_before x y ≡ true → goes_before y x ≡ false
unfolding goes_before
goes_before_asym x y h = ground (arith, h, less_text_asym x.sequence y.sequence)

goes_before_trans :
    (x y z : RecentEntry)
    → goes_before y x ≡ false
    → goes_before z y ≡ false
    → goes_before z x ≡ false
unfolding goes_before
goes_before_trans x y z h k = ground (arith, h, k, less_text_trans x.sequence y.sequence z.sequence)

shorten-IsSorted :
    (n : ℕ) (es : List RecentEntry) → IsSorted goes_before es → IsSorted goes_before (shorten n es)
unfolding shorten
shorten-IsSorted n es h = elim (Bool-cases (ltb n (length es))) [
  | inl e ↦ rw (e, shorten) (take-IsSorted goes_before n es h)
  | inr e ↦ rw (e, shorten) h
]

length-shorten : (n : ℕ) (es : List RecentEntry) → length (shorten n es) ≤ n
unfolding shorten
length-shorten n es = ground (arith, length-take n es)

-- The order of the dictionary on bytes.
abbrev pub IsUpTo : Bytes → Bytes → Type 0
IsUpTo [] b = Unit
IsUpTo (x ∷ a) [] = ⊥
IsUpTo (x ∷ a) (y ∷ b) = (x < y) ⊎ ((x ≡ y) × IsUpTo a b)

-- The first was used later; or not earlier and more often; or equally often as well, and its
-- sequence is the same or stands first in the dictionary.
abbrev pub MayPrecede : RecentEntry → RecentEntry → Type 0
MayPrecede x y =
    (ltb_ℤ y.last_used x.last_used ≡ true)
    ⊎ ((ltb_ℤ x.last_used y.last_used ≡ false)
        × ((y.use_count < x.use_count)
            ⊎ ((x.use_count ≡ y.use_count) × IsUpTo x.sequence y.sequence)))

less_text-IsUpTo : (a b : Bytes) → less_text b a ≡ false → IsUpTo a b
unfolding less_text
less_text-IsUpTo [] b h = tt
less_text-IsUpTo (x ∷ a) [] h = absurd (ground (arith, h))
less_text-IsUpTo (x ∷ a) (y ∷ b) h = ground (arith, h, less_text-IsUpTo a b)

goes_before-MayPrecede : (x y : RecentEntry) → goes_before y x ≡ false → MayPrecede x y
unfolding goes_before
goes_before-MayPrecede x y h = ground (arith, h, less_text-IsUpTo x.sequence y.sequence)

-- After a use, the entries stand by falling time, then falling count, then rising sequence, and there
-- are at most `n` of them.
pub record_use-IsSorted :
    (v : Bytes) (t : ℤ) (n : ℕ) (s : PersistentState)
    → IsOrdered MayPrecede (record_use v t n s).recents × (length (record_use v t n s).recents ≤ n)
unfolding record_use
record_use-IsSorted v t n s = (
  IsSorted-IsOrdered goes_before MayPrecede goes_before-MayPrecede _ (
      shorten-IsSorted n _ (stable_sort-IsSorted goes_before goes_before_asym goes_before_trans _)),
  length-shorten n _,
)

-- The entry of the use, in the list.
touch-Memᴰ :
    (v : Bytes) (t : ℤ) (es : List RecentEntry)
    → (e : RecentEntry) × Memᴰ e (touch v t es) × (e.sequence ≡ v) × (e.last_used ≡ t)
unfolding touch
touch-Memᴰ v t [] = (_, Memᴰ.head refl, refl, refl)
touch-Memᴰ v t (x ∷ es) = elim (Bool-cases (equal x.sequence v)) [
  | inl q ↦ rw (q, touch) (_, Memᴰ.head refl, (equal_iff x.sequence v).0 q, refl)
  | inr q ↦ let (e, m, a, b) = touch-Memᴰ v t es in rw (q, touch) (e, Memᴰ.tail m, a, b)
]

-- The entry of the use, or an earlier one.
abbrev IsEarlier : Bytes → ℤ → RecentEntry → Type 0
IsEarlier v t e = ((e.sequence ≡ v) × (e.last_used ≡ t)) ⊎ (ltb_ℤ e.last_used t ≡ true)

All-IsEarlier :
    (v : Bytes) (t : ℤ) (es : List RecentEntry)
    → All (λ e. ltb_ℤ e.last_used t ≡ true) es
    → All (IsEarlier v t) es
All-IsEarlier v t [] h = tt
All-IsEarlier v t (x ∷ es) h = (inr h.0, All-IsEarlier v t es h.1)

touch-All :
    (v : Bytes) (t : ℤ) (es : List RecentEntry)
    → All (λ e. ltb_ℤ e.last_used t ≡ true) es
    → All (IsEarlier v t) (touch v t es)
unfolding touch
touch-All v t [] h = (inl (refl, refl), tt)
touch-All v t (x ∷ es) h = elim (Bool-cases (equal x.sequence v)) [
  | inl q ↦ rw (q, touch) (inl ((equal_iff x.sequence v).0 q, refl), All-IsEarlier v t es h.1)
  | inr q ↦ rw (q, touch) (inr h.0, touch-All v t es h.1)
]

later_goes_before :
    (e x : RecentEntry) (t : ℤ)
    → e.last_used ≡ t
    → ltb_ℤ x.last_used t ≡ true
    → goes_before e x ≡ true
unfolding goes_before
later_goes_before e x t q l = ground (arith, q, l)

-- The list starts with the entry of the use.
abbrev pub StartsWith : Bytes → ℤ → List RecentEntry → Type 0
StartsWith v t [] = ⊥
StartsWith v t (e ∷ es) = (e.sequence ≡ v) × (e.last_used ≡ t)

sorted-StartsWith :
    (v : Bytes) (t : ℤ) (es : List RecentEntry) (e : RecentEntry)
    → IsSorted goes_before es
    → All (IsEarlier v t) es
    → Memᴰ e es
    → e.last_used ≡ t
    → StartsWith v t es
sorted-StartsWith v t [] e s a m q = elim m [ ]
sorted-StartsWith v t (x ∷ es) e s a m q = elim a.0 [
  | inl p ↦ p
  | inr l ↦ elim m [
    | Memᴰ.head r ↦ absurd (ground (arith, l, ap RecentEntry.last_used r, q))
    | Memᴰ.tail k ↦
        let f = All-lookup (λ y. goes_before y x ≡ false) es s.0 k in
        absurd (ground (arith, f, later_goes_before e x t q l))
  ]
]

shorten-StartsWith :
    (v : Bytes) (t : ℤ) (n : ℕ) (es : List RecentEntry)
    → 1 ≤ n
    → StartsWith v t es
    → StartsWith v t (shorten n es)
unfolding shorten
shorten-StartsWith v t zero es h s = absurd (omega arith)
shorten-StartsWith v t (suc n) [] h s = absurd s
shorten-StartsWith v t (suc n) (e ∷ es) h s = elim (Bool-cases (ltb (suc n) (length (e ∷ es)))) [
  | inl q ↦ rw (q, shorten) s
  | inr q ↦ rw (q, shorten) s
]

-- A use later than all earlier ones stands first, with its time, when one entry or more is kept.
pub record_use-StartsWith :
    (v : Bytes) (t : ℤ) (n : ℕ) (s : PersistentState)
    → 1 ≤ n
    → All (λ e. ltb_ℤ e.last_used t ≡ true) s.recents
    → StartsWith v t (record_use v t n s).recents
unfolding record_use
record_use-StartsWith v t n s h a =
    let (e, m, _, q) = touch-Memᴰ v t s.recents in
    shorten-StartsWith v t n _ h (
      sorted-StartsWith v t _ e
        (stable_sort-IsSorted goes_before goes_before_asym goes_before_trans _)
        (stable_sort-All goes_before (IsEarlier v t) _ (touch-All v t s.recents a))
        (stable_sort-Memᴰ goes_before _ m) q)
