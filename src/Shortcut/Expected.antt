-- ===== src/Shortcut/Expected.antt =====
-- src/addon/shortcut_matcher.cpp: what the parts of a layout are, and the keys of one code.
use fcitx5_emoji_palette.Prelude.{
  ℕ, ◌^◌, Bool, true, false, not, ◌&&◌, ◌||◌, ◌==◌, List, [], ◌∷◌, ◌++◌, Bytes, All, any, ltb, leb,
  if◌then◌else◌, ◌≡◌, refl, ap, ◌∙◌, inl, inr, Bool-cases, arith,
}
use fcitx5_emoji_palette.Codes.{is_empty}
use fcitx5_emoji_palette.Shortcut.{
  Keymap, Library, us, split_layout, name_or_us, has_symbol, is_found, physical_keys,
}

-- The name of a layout and its variant, which stands behind the first dash; none without a dash.
pub data IsSplit (layout name variant : Bytes) : Type 0 where
  no_variant :
      All (λ c. ¬ (c ≡ 45)) layout → name ≡ layout → variant ≡ [] → IsSplit layout name variant
  parted : All (λ c. ¬ (c ≡ 45)) name → layout ≡ name ++ 45 ∷ variant → IsSplit layout name variant

IsSplit-add_head :
    (c : ℕ) (rest name variant : Bytes)
    → ¬ (c ≡ 45)
    → IsSplit rest name variant
    → IsSplit (c ∷ rest) (c ∷ name) variant
IsSplit-add_head c rest name variant n (no_variant a e f) = no_variant (n, a) (ap (λ l. c ∷ l) e) f
IsSplit-add_head c rest name variant n (parted a e) = parted (n, a) (ap (λ l. c ∷ l) e)

pub split_layout-IsSplit :
    (layout : Bytes) → IsSplit layout (split_layout layout).0 (split_layout layout).1
unfolding split_layout
split_layout-IsSplit [] = no_variant tt refl refl
split_layout-IsSplit (c ∷ rest) = elim (Bool-cases (c == 45)) [
  | inl h ↦ rw (h, split_layout) (parted tt (ap (λ x. x ∷ rest) (ground (arith, h))))
  | inr h ↦
      rw (h, split_layout)
        (IsSplit-add_head c rest _ _ (λ e. ground (arith, h, e)) (split_layout-IsSplit rest))
]

-- The layout "us" stands for one with no name.
abbrev pub named : Bytes → Bytes
named [] = us
named (c ∷ cs) = c ∷ cs

pub name_or_us-named : (name : Bytes) → name_or_us name ≡ named name
unfolding name_or_us is_empty
name_or_us-named [] = refl
name_or_us-named (c ∷ cs) = refl

abbrev pub joined : {A : Type 0} → List (List A) → List A
joined [] = []
joined (l ∷ ls) = l ++ joined ls

-- The symbols of a code, of all its layouts and levels.
abbrev pub symbols_of : Keymap → ℕ → List ℕ
symbols_of m code = joined (joined (m.symbols code))

any-append :
    {A : Type 0} (p : A → Bool) (xs ys : List A) → any p (xs ++ ys) ≡ (any p xs || any p ys)
any-append p [] ys = refl
any-append p (x ∷ xs) ys = ground (arith, any-append p xs ys)

any-joined :
    {A : Type 0} (p : A → Bool) (ls : List (List A)) → any (λ l. any p l) ls ≡ any p (joined ls)
any-joined p [] = refl
any-joined p (l ∷ ls) = ground (arith, any-joined p ls, any-append p l (joined ls))

has_symbol_lem :
    (symbol : ℕ) (m : Keymap) (code : ℕ)
    → has_symbol symbol m code ≡ any (λ s. s == symbol) (symbols_of m code)
unfolding has_symbol
has_symbol_lem symbol m code =
    any-joined (λ l. any (λ s. s == symbol) l) (m.symbols code)
    ∙ any-joined (λ s. s == symbol) (joined (m.symbols code))

module _ {K : Type 0} where
  -- The key with Shift, for a symbol that has two cases, where Shift is not held anyhow.
  abbrev pub shifted_key : Library K → K → ℕ → List K
  shifted_key lib k code = elim (lib.to_lower (lib.symbol k) == lib.to_upper (lib.symbol k)) [
    | true ↦ []
    | false ↦ elim (lib.has_shift (lib.states k)) [
      | true ↦ []
      | false ↦ lib.from_key_code code (lib.with_shift (lib.states k)) ∷ []
    ]
  ]

  -- The keys of a code: none where the code does not bear the symbol or is no `int`.
  abbrev pub keys_of_code : Library K → Keymap → K → ℕ → List K
  keys_of_code lib m k code = elim (ltb code (2 ^ 31)) [
    | false ↦ []
    | true ↦ elim (any (λ s. s == lib.symbol k) (symbols_of m code)) [
      | false ↦ []
      | true ↦ lib.from_key_code code (lib.states k) ∷ shifted_key lib k code
    ]
  ]

  physical_keys_lem :
      (lib : Library K) (k : K) (code : ℕ)
      → physical_keys lib k code ≡ lib.from_key_code code (lib.states k) ∷ shifted_key lib k code
  unfolding physical_keys
  physical_keys_lem lib k code =
      ap (λ l. lib.from_key_code code (lib.states k) ∷ l)
        (both _ (lib.to_lower (lib.symbol k) == lib.to_upper (lib.symbol k))
          (lib.has_shift (lib.states k)))
    where
      both :
          (x : List K) (a b : Bool)
          → (if not a && not b then x else [])
            ≡ elim a [ true ↦ [] | false ↦ elim b [ true ↦ [] | false ↦ x ] ]
      both x true b = refl
      both x false true = refl
      both x false false = refl

  pub is_found-keys :
      (lib : Library K) (m : Keymap) (k : K) (code : ℕ)
      → (if is_found (lib.symbol k) m code then physical_keys lib k code else [])
        ≡ keys_of_code lib m k code
  unfolding is_found
  is_found-keys lib m k code =
      ap (λ l. if is_found (lib.symbol k) m code then l else []) (physical_keys_lem lib k code)
      ∙ ap
          (λ b.
            if b && leb code 2147483647
            then lib.from_key_code code (lib.states k) ∷ shifted_key lib k code
            else [])
          (has_symbol_lem (lib.symbol k) m code)
      ∙ ap
          (λ b.
            if any (λ s. s == lib.symbol k) (symbols_of m code) && b
            then lib.from_key_code code (lib.states k) ∷ shifted_key lib k code
            else [])
          small
      ∙ swap _ (any (λ s. s == lib.symbol k) (symbols_of m code)) (ltb code (2 ^ 31))
    where
      small : leb code 2147483647 ≡ ltb code (2 ^ 31)
      small = ground arith

      swap :
          (x : List K) (a b : Bool)
          → (if a && b then x else [])
            ≡ elim b [ false ↦ [] | true ↦ elim a [ false ↦ [] | true ↦ x ] ]
      swap x true true = refl
      swap x true false = refl
      swap x false true = refl
      swap x false false = refl
