-- ===== src/Sort/Members.antt =====
-- What sorting and cutting keep: the members, and what holds of all.
use fcitx5_emoji_palette.Prelude.{
  ℕ, zero, suc, Bool, false, List, [], ◌∷◌, All, take, ◌≡◌, sym, subst, inl, inr, Bool-cases,
}
use fcitx5_emoji_palette.Sort.{insert, stable_sort, IsSorted}
use mathlib.Core.List.{Memᴰ}

pub take-All {ℓ κ} :
    {A : Type ℓ} (P : A → Type κ) (n : ℕ) (xs : List A) → All P xs → All P (take n xs)
take-All P zero xs h = tt
take-All P (suc n) [] h = tt
take-All P (suc n) (x ∷ xs) h = (h.0, take-All P n xs h.1)

pub take-IsSorted {ℓ} :
    {A : Type ℓ} (less : A → A → Bool) (n : ℕ) (xs : List A)
    → IsSorted less xs
    → IsSorted less (take n xs)
take-IsSorted less zero xs h = tt
take-IsSorted less (suc n) [] h = tt
take-IsSorted less (suc n) (x ∷ xs) h =
    (take-All (λ y. less y x ≡ false) n xs h.0, take-IsSorted less n xs h.1)

insert-Memᴰ {ℓ} :
    {A : Type ℓ} (less : A → A → Bool) {a : A} (x : A) (xs : List A)
    → Memᴰ a (x ∷ xs)
    → Memᴰ a (insert less x xs)
unfolding insert
insert-Memᴰ less x [] m = m
insert-Memᴰ less x (y ∷ ys) m = elim (Bool-cases (less y x)) [
  | inr e ↦ rw (e, insert) m
  | inl e ↦
      rw (e, insert)
        (elim m [
          | Memᴰ.head q ↦ Memᴰ.tail (insert-Memᴰ less x ys (Memᴰ.head q))
          | Memᴰ.tail k ↦ elim k [
            | Memᴰ.head q ↦ Memᴰ.head q
            | Memᴰ.tail n ↦ Memᴰ.tail (insert-Memᴰ less x ys (Memᴰ.tail n))
          ]
        ])
]

pub stable_sort-Memᴰ {ℓ} :
    {A : Type ℓ} (less : A → A → Bool) {a : A} (xs : List A)
    → Memᴰ a xs
    → Memᴰ a (stable_sort less xs)
unfolding stable_sort
stable_sort-Memᴰ less [] m = m
stable_sort-Memᴰ less (x ∷ xs) (Memᴰ.head q) =
    insert-Memᴰ less x (stable_sort less xs) (Memᴰ.head q)
stable_sort-Memᴰ less (x ∷ xs) (Memᴰ.tail m) =
    insert-Memᴰ less x (stable_sort less xs) (Memᴰ.tail (stable_sort-Memᴰ less xs m))

pub All-lookup {ℓ κ} :
    {A : Type ℓ} (P : A → Type κ) {a : A} (xs : List A) → All P xs → Memᴰ a xs → P a
All-lookup P [] h m = elim m [ ]
All-lookup P (x ∷ xs) h (Memᴰ.head q) = subst P (sym q) h.0
All-lookup P (x ∷ xs) h (Memᴰ.tail m) = All-lookup P xs h.1 m

-- Each element stands in the relation to all that follow it.
abbrev pub IsOrdered {ℓ κ} : {A : Type ℓ} → (A → A → Type κ) → List A → Type κ
IsOrdered R [] = Unit
IsOrdered R (x ∷ xs) = All (R x) xs × IsOrdered R xs

All-map {ℓ κ λ'} :
    {A : Type ℓ} {P : A → Type κ} {Q : A → Type λ'} (f : (a : A) → P a → Q a) (xs : List A)
    → All P xs
    → All Q xs
All-map f [] h = tt
All-map f (x ∷ xs) h = (f x h.0, All-map f xs h.1)

-- A sorted list is ordered by what the test of the sort stands for.
pub IsSorted-IsOrdered {ℓ κ} :
    {A : Type ℓ} (less : A → A → Bool) (R : A → A → Type κ)
    → ((x y : A) → less y x ≡ false → R x y)
    → (xs : List A) → IsSorted less xs
    → IsOrdered R xs
IsSorted-IsOrdered less R f [] h = tt
IsSorted-IsOrdered less R f (x ∷ xs) h = (All-map (f x) xs h.0, IsSorted-IsOrdered less R f xs h.1)
