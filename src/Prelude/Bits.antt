-- ===== src/Prelude/Bits.antt =====
-- Masks, shifts and unions of disjoint bits as arithmetic.
use Prim.Native.Nat.{ℕ, zero, suc, ◌+◌, ◌-◌, ◌*◌, ◌/◌, ◌%◌, ◌^◌, ◌≤◌, ◌<◌}
use Prim.Native.Nat.{min, max, bit_and, bit_or, digits, bit_and-bitwise, bit_or-bitwise}
use mathlib.Core.Path.{◌≡◌, refl, ap, ◌∙◌}
use mathlib.Core.Bool.{Bool, true, false, not, ◌&&◌}
use native.Mathlib.Omega.{arith}
use native.Mathlib.Nat.{pow-suc}
use fcitx5_emoji_palette.Prelude.Tests.{◌==◌, ==_iff, leb, ltb}

-- A test that holds of every number below `bound`.
unfoldable pub holds_below : ℕ → (ℕ → Bool) → Bool
holds_below zero test = true
holds_below (suc bound) test = test bound && holds_below bound test

pub holds_below_sound :
    (test : ℕ → Bool) (bound v : ℕ) → holds_below bound test ≡ true → v < bound → test v ≡ true
unfolding holds_below
holds_below_sound test zero v e l = absurd (omega arith)
holds_below_sound test (suc bound) v e l = ground (arith, holds_below_sound test bound v)

-- The native operations recurse on binary digits, on fuel: more fuel changes nothing.
module _ (rest : ℕ → ℕ) (op : ℕ → ℕ → ℕ) where
  one_more : (fuel x y : ℕ) → x ≤ fuel → digits rest op fuel x y ≡ digits rest op (suc fuel) x y
  one_more zero zero y l = refl
  one_more (suc fuel) zero y l = refl
  one_more zero (suc x) y l = absurd (omega arith)
  one_more (suc fuel) (suc x) y l =
      let h : suc x / 2 ≤ fuel = omega arith in omega (arith, one_more fuel (suc x / 2) (y / 2) h)

  some_more : (extra x y : ℕ) → digits rest op x x y ≡ digits rest op (x + extra) x y
  some_more zero x y = ap (λ fuel. digits rest op fuel x y) (omega arith)
  some_more (suc extra) x y =
      some_more extra x y
      ∙ one_more (x + extra) x y (omega arith)
      ∙ ap (λ fuel. digits rest op fuel x y) {x = suc (x + extra)} (omega arith)

  -- The half of a positive number has fuel enough.
  half_fuel : (x y : ℕ) → digits rest op (suc x / 2) (suc x / 2) y ≡ digits rest op x (suc x / 2) y
  half_fuel x y =
      let e : suc x / 2 + (x - suc x / 2) ≡ x = omega arith in
      some_more (x - suc x / 2) (suc x / 2) y ∙ ap (λ fuel. digits rest op fuel (suc x / 2) y) e

nothing-bit_and : (y : ℕ) → bit_and 0 y ≡ 0
nothing-bit_and = bit_and-bitwise 0

nothing-bit_or : (y : ℕ) → bit_or 0 y ≡ y
nothing-bit_or = bit_or-bitwise 0

bit_and_halves : (x y : ℕ) → bit_and x y ≡ bit_and (x / 2) (y / 2) * 2 + min (x % 2) (y % 2)
bit_and_halves zero y = let e = nothing-bit_and y in let h = nothing-bit_and (y / 2) in omega arith
bit_and_halves (suc x) y =
    let whole = bit_and-bitwise (suc x) y in
    let half = bit_and-bitwise (suc x / 2) (y / 2) in
    let fuel = half_fuel (λ k. zero) min x (y / 2) in omega arith

bit_or_halves : (x y : ℕ) → bit_or x y ≡ bit_or (x / 2) (y / 2) * 2 + max (x % 2) (y % 2)
bit_or_halves zero y = let e = nothing-bit_or y in let h = nothing-bit_or (y / 2) in omega arith
bit_or_halves (suc x) y =
    let whole = bit_or-bitwise (suc x) y in
    let half = bit_or-bitwise (suc x / 2) (y / 2) in
    let fuel = half_fuel (λ k. k) max x (y / 2) in omega arith

bit_and-nothing : (bound x : ℕ) → x ≤ bound → bit_and x 0 ≡ 0
bit_and-nothing zero zero l = refl
bit_and-nothing zero (suc x) l = absurd (omega arith)
bit_and-nothing (suc bound) x l =
    let h = bit_and-nothing bound (x / 2) in omega (arith, bit_and_halves x 0, h (omega arith))

bit_or-nothing : (bound x : ℕ) → x ≤ bound → bit_or x 0 ≡ x
bit_or-nothing zero zero l = refl
bit_or-nothing zero (suc x) l = absurd (omega arith)
bit_or-nothing (suc bound) x l =
    let h = bit_or-nothing bound (x / 2) in omega (arith, bit_or_halves x 0, h (omega arith))

bit_and-one : (a : ℕ) → bit_and a 1 ≡ a % 2
bit_and-one a = omega (arith, bit_and_halves a 1, bit_and-nothing (a / 2) (a / 2))

-- The masks of four and of six ones.
pub bit_and-0x0F : (a : ℕ) → bit_and a 0x0F ≡ a % 16
bit_and-0x0F a = omega (
  arith,
  bit_and_halves a 15,
  bit_and_halves (a / 2) 7,
  bit_and_halves (a / 2 / 2) 3,
  bit_and-one (a / 2 / 2 / 2),
)

pub bit_and-0x3F : (a : ℕ) → bit_and a 0x3F ≡ a % 64
bit_and-0x3F a = omega (
  arith,
  bit_and_halves a 63,
  bit_and_halves (a / 2) 31,
  bit_and-0x0F (a / 2 / 2),
  bit_and_halves (a / 2 / 2) 15,
)

double-bit_or : (a y : ℕ) → bit_or a (y / 2) ≡ a + y / 2 → bit_or (a * 2) y ≡ a * 2 + y
double-bit_or a y e =
    let half : a * 2 / 2 ≡ a = omega arith in bit_or_halves (a * 2) y ∙ rw (half, e) (omega arith)

-- Bits from position `k` on and bits below it add up.
pub bit_or-disjoint : (k x y : ℕ) → y < 2 ^ k → bit_or (x * 2 ^ k) y ≡ x * 2 ^ k + y
bit_or-disjoint zero x y h =
    let e : x * 2 ^ 0 ≡ x = omega arith in
    let z : y ≡ 0 = omega arith in rw (e, z) (omega (arith, bit_or-nothing x x))
bit_or-disjoint (suc k) x y h =
    let e : x * 2 ^ suc k ≡ x * 2 ^ k * 2 = omega (arith, ap (λ (t : ℕ). x * t) (pow-suc 2 k)) in
    rw e (double-bit_or (x * 2 ^ k) y (bit_or-disjoint k x (y / 2) (omega (arith, pow-suc 2 k))))

pub bit_or-disjoint_4 : (x y : ℕ) → y < 16 → bit_or (x * 16) y ≡ x * 16 + y
bit_or-disjoint_4 x y h = bit_or-disjoint 4 x y (omega arith)

pub bit_or-disjoint_6 : (x y : ℕ) → y < 64 → bit_or (x * 64) y ≡ x * 64 + y
bit_or-disjoint_6 x y h = bit_or-disjoint 6 x y (omega arith)

pub bit_or-disjoint_8 : (x y : ℕ) → y < 256 → bit_or (x * 256) y ≡ x * 256 + y
bit_or-disjoint_8 x y h = bit_or-disjoint 8 x y (omega arith)

-- A mask test on one byte, as the interval that it stands for.
pub table_eq : (p q : ℕ → Bool) → ℕ → Bool
table_eq p q b = elim (p b) [ true ↦ q b | false ↦ not (q b) ]

pub table_eq→eq : (p q : ℕ → Bool) (b : ℕ) → table_eq p q b ≡ true → p b ≡ q b
unfolding table_eq
table_eq→eq p q b h = ground arith

agree_below : (p q : ℕ → Bool) (b : ℕ) → holds_below 256 (table_eq p q) ≡ true → b < 256 → p b ≡ q b
agree_below p q b t h = table_eq→eq p q b (holds_below_sound (table_eq p q) 256 b t h)

abbrev in_range : ℕ → ℕ → ℕ → Bool
in_range lo hi b = leb lo b && ltb b hi

pub lead_two : (b : ℕ) → b < 256 → (bit_and b 0xE0 == 0xC0) ≡ (leb 0xC0 b && ltb b 0xE0)
unfolding holds_below table_eq
lead_two b h = agree_below (λ b. bit_and b 0xE0 == 0xC0) (in_range 0xC0 0xE0) b refl h

pub lead_three : (b : ℕ) → b < 256 → (bit_and b 0xF0 == 0xE0) ≡ (leb 0xE0 b && ltb b 0xF0)
unfolding holds_below table_eq
lead_three b h = agree_below (λ b. bit_and b 0xF0 == 0xE0) (in_range 0xE0 0xF0) b refl h

pub lead_four : (b : ℕ) → b < 256 → (bit_and b 0xF8 == 0xF0) ≡ (leb 0xF0 b && ltb b 0xF8)
unfolding holds_below table_eq
lead_four b h = agree_below (λ b. bit_and b 0xF8 == 0xF0) (in_range 0xF0 0xF8) b refl h

pub continuation_byte : (b : ℕ) → b < 256 → (bit_and b 0xC0 == 0x80) ≡ (leb 0x80 b && ltb b 0xC0)
unfolding holds_below table_eq
continuation_byte b h = agree_below (λ b. bit_and b 0xC0 == 0x80) (in_range 0x80 0xC0) b refl h

-- The payload bits of a lead byte.
abbrev same : (ℕ → ℕ) → (ℕ → ℕ) → ℕ → Bool
same f g b = f b == g b

same_below : (f g : ℕ → ℕ) (b : ℕ) → holds_below 256 (same f g) ≡ true → b < 256 → f b ≡ g b
same_below f g b t h = (==_iff _ _).0 (holds_below_sound (same f g) 256 b t h)

pub bit_and-0x1F : (b : ℕ) → b < 256 → bit_and b 0x1F ≡ b % 32
unfolding holds_below
bit_and-0x1F b h = same_below (λ b. bit_and b 0x1F) (λ b. b % 32) b refl h

pub bit_and-0x07 : (b : ℕ) → b < 256 → bit_and b 0x07 ≡ b % 8
unfolding holds_below
bit_and-0x07 b h = same_below (λ b. bit_and b 0x07) (λ b. b % 8) b refl h
