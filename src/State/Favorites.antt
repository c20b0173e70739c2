-- ===== src/State/Favorites.antt =====
-- src/core/state.cpp: `toggleFavorite`.
use fcitx5_emoji_palette.Prelude.{
  false, not, ◌||◌, List, [], ◌∷◌, ◌++◌, Bytes, equal, equal_iff, ◌≡◌, ◌≢◌, refl, sym, ◌∙◌, subst,
  arith, inl, inr, Bool-cases,
}
use fcitx5_emoji_palette.State.{PersistentState, is_favorite, erase_first, toggle_favorite}

-- No favourite stands twice.
abbrev pub IsUnique : List Bytes → Type 0
IsUnique [] = Unit {0}
IsUnique (f ∷ fs) = (is_favorite fs f ≡ false) × IsUnique fs

is_favorite-append :
    (fs : List Bytes) (u v : Bytes) → is_favorite (fs ++ u ∷ []) v ≡ is_favorite fs v || equal u v
unfolding is_favorite
is_favorite-append [] u v = ground arith
is_favorite-append (f ∷ fs) u v = ground (arith, is_favorite-append fs u v)

not_equal : (u v : Bytes) → u ≢ v → equal u v ≡ false
not_equal u v n = elim (Bool-cases (equal u v)) [
  | inl e ↦ absurd (n ((equal_iff u v).0 e))
  | inr e ↦ e
]

-- Erasing one string leaves the others.
is_favorite-erase_other :
    (fs : List Bytes) (u v : Bytes) → u ≢ v → is_favorite (erase_first fs u) v ≡ is_favorite fs v
unfolding is_favorite erase_first
is_favorite-erase_other [] u v n = refl
is_favorite-erase_other (f ∷ fs) u v n = elim (Bool-cases (equal f u)) [
  | inl e ↦
      let k : equal f v ≡ false =
        subst (λ g. equal g v ≡ false) (sym ((equal_iff f u).0 e)) (not_equal u v n) in
      rw (e, erase_first) (ground (arith, k))
  | inr e ↦ rw (e, erase_first) (ground (arith, is_favorite-erase_other fs u v n))
]

is_favorite-erase_self :
    (fs : List Bytes) (v : Bytes) → IsUnique fs → is_favorite (erase_first fs v) v ≡ false
unfolding is_favorite erase_first
is_favorite-erase_self [] v h = refl
is_favorite-erase_self (f ∷ fs) v h = elim (Bool-cases (equal f v)) [
  | inl e ↦ rw (e, erase_first) (subst (λ g. is_favorite fs g ≡ false) ((equal_iff f v).0 e) h.0)
  | inr e ↦ rw (e, erase_first) (ground (arith, e, is_favorite-erase_self fs v h.1))
]

append-IsUnique :
    (fs : List Bytes) (v : Bytes) → IsUnique fs → is_favorite fs v ≡ false → IsUnique (fs ++ v ∷ [])
unfolding is_favorite
append-IsUnique [] v h n = (refl, tt)
append-IsUnique (f ∷ fs) v h n = elim (Bool-cases (equal f v)) [
  | inl e ↦ absurd (ground (arith, n, e))
  | inr e ↦
      let k : equal v f ≡ false =
        not_equal v f (λ q. ground (arith, e, (equal_iff f v).1 (sym q))) in
      (
        ground (arith, is_favorite-append fs v f, h.0, k),
        append-IsUnique fs v h.1 (ground (arith, n, e)),
      )
]

erase_first-IsUnique : (fs : List Bytes) (v : Bytes) → IsUnique fs → IsUnique (erase_first fs v)
unfolding erase_first
erase_first-IsUnique [] v h = tt
erase_first-IsUnique (f ∷ fs) v h = elim (Bool-cases (equal f v)) [
  | inl e ↦ rw (e, erase_first) h.1
  | inr e ↦
      rw (e, erase_first)
        (
          is_favorite-erase_other fs v f (λ q. ground (arith, e, (equal_iff f v).1 (sym q))) ∙ h.0,
          erase_first-IsUnique fs v h.1,
        )
]

-- Where no favourite stands twice, toggling a sequence makes it a favourite exactly when it was none,
-- and still no favourite stands twice.
pub toggle_favorite-IsUnique :
    (v : Bytes) (s : PersistentState)
    → IsUnique s.favorites
    → (is_favorite (toggle_favorite v s).favorites v ≡ not (is_favorite s.favorites v))
      × IsUnique (toggle_favorite v s).favorites
unfolding toggle_favorite
toggle_favorite-IsUnique v s h = elim (Bool-cases (is_favorite s.favorites v)) [
  | inl e ↦
      rw (e, toggle_favorite)
        (is_favorite-erase_self s.favorites v h, erase_first-IsUnique s.favorites v h)
  | inr e ↦
      let k = (equal_iff v v).1 refl in
      rw (e, toggle_favorite)
        (ground (arith, is_favorite-append s.favorites v v, k), append-IsUnique s.favorites v h e)
]

-- Toggling a sequence leaves every other one a favourite, or none, as it was.
pub toggle_favorite_other :
    (u v : Bytes) (s : PersistentState)
    → u ≢ v
    → is_favorite (toggle_favorite u s).favorites v ≡ is_favorite s.favorites v
unfolding toggle_favorite
toggle_favorite_other u v s n = elim (Bool-cases (is_favorite s.favorites u)) [
  | inl e ↦ rw (e, toggle_favorite) (is_favorite-erase_other s.favorites u v n)
  | inr e ↦
      rw (e, toggle_favorite) (ground (arith, is_favorite-append s.favorites u v, not_equal u v n))
]
