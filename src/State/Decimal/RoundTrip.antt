-- ===== src/State/Decimal/RoundTrip.antt =====
-- src/core/state.cpp: the numbers of a state file, printed and parsed.
use fcitx5_emoji_palette.Prelude.{
  ℕ, zero, suc, ◌+◌, ◌-◌, ◌*◌, ◌/◌, ◌%◌, ◌^◌, ◌≤◌, ◌<◌, true, false, ◌&&◌, ◌==◌, Option, none, some,
  [], ◌∷◌, ◌++◌, Bytes, All, All-append, length, length-append, ltb, leb, ◌≡◌, refl, arith, inl,
  inr, Bool-cases, subst,
}
use fcitx5_emoji_palette.Prelude.Int.{ℤ, pos, negsuc}
use fcitx5_emoji_palette.State.Decimal.{
  read_digits, read_number, at_most, parse_count, positive, negative, parse_time, decimal,
  print_count, print_time,
}

-- A digit.
abbrev pub IsDigit : ℕ → Type 0
IsDigit c = (48 ≤ c) × (c ≤ 57)

read_digits-append :
    (v c w : ℕ) (xs : Bytes)
    → IsDigit c
    → read_digits v xs ≡ some w
    → read_digits v (xs ++ c ∷ []) ≡ some (w * 10 + (c - 48))
unfolding read_digits
read_digits-append v c w [] h e = ground (arith, h, e)
read_digits-append v c w (x ∷ xs) h e = elim (Bool-cases (leb 48 x && leb x 57)) [
  | inl d ↦ rw d (read_digits-append (v * 10 + (x - 48)) c w xs h (ground (arith, e, d)))
  | inr d ↦ absurd (ground (arith, e, d))
]

-- The digits of a number are digits, not more than the fuel, and their value is the number.
pub record IsDecimal (fuel n : ℕ) (xs : Bytes) : Type 0 where
  pub all_digits : All IsDigit xs
  pub short : length xs ≤ fuel
  pub filled : 1 ≤ length xs
  pub reads : read_digits 0 xs ≡ some n

decimal-small : (fuel n : ℕ) → n < 10 → IsDecimal (suc fuel) n (decimal (suc fuel) n)
unfolding decimal read_digits
decimal-small fuel n h =
    let s : ltb n 10 ≡ true = ground (arith, h) in
    rw s (record {
      all_digits = ((omega arith, omega arith), tt);
      short = omega arith;
      filled = omega arith;
      reads = ground (arith, h);
    })

pub decimal-IsDecimal :
    (fuel n : ℕ) → n < 10 ^ suc fuel → IsDecimal (suc fuel) n (decimal (suc fuel) n)
unfolding decimal
decimal-IsDecimal zero n h = decimal-small zero n (omega arith)
decimal-IsDecimal (suc fuel) n h = elim (Bool-cases (ltb n 10)) [
  | inl s ↦ decimal-small (suc fuel) n (ground (arith, s))
  | inr s ↦
      let i = decimal-IsDecimal fuel (n / 10) (omega (arith, h)) in
      let xs = decimal (suc fuel) (n / 10) in
      let d : IsDigit (48 + n % 10) = (omega arith, omega arith) in
      let l = length-append xs ((48 + n % 10) ∷ []) in
      let last : n / 10 * 10 + (48 + n % 10 - 48) ≡ n = omega arith in
      rw (s, decimal)
        (record {
          all_digits = All-append IsDigit xs _ i.all_digits (d, tt);
          short = omega (arith, l, i.short);
          filled = omega (arith, l);
          reads = simp last at (read_digits-append 0 (48 + n % 10) (n / 10) xs d i.reads);
        })
]

read_number-digits :
    (xs : Bytes) {n : ℕ} → 1 ≤ length xs → read_digits 0 xs ≡ some n → read_number xs ≡ some n
unfolding read_number
read_number-digits [] h e = absurd (omega (arith, h))
read_number-digits (c ∷ xs) h e = e

pub parse_count-print_count : (n : ℕ) → n < 2 ^ 64 → parse_count (print_count n) ≡ some n
unfolding parse_count print_count at_most
parse_count-print_count n h =
    let d = decimal-IsDecimal 19 n (omega (arith, h)) in
    let b : ltb (2 ^ 64 - 1) n ≡ false = ground (arith, h) in
    rw (read_number-digits (decimal 20 n) d.filled d.reads, b) refl

-- The values of a signed 64-bit integer.
abbrev pub IsInt64 : ℤ → Type 0
IsInt64 (pos n) = n < 2 ^ 63
IsInt64 (negsuc n) = n < 2 ^ 63

parse_time-digits :
    (xs : Bytes) {n : ℕ}
    → All IsDigit xs
    → 1 ≤ length xs
    → read_digits 0 xs ≡ some n
    → n < 2 ^ 63
    → parse_time xs ≡ some (pos n)
unfolding parse_time at_most positive
parse_time-digits [] d l e h = absurd (omega (arith, l))
parse_time-digits (c ∷ xs) {n} d l e h =
    let m : (c == 45) ≡ false = ground (arith, d.0) in
    let b : ltb (2 ^ 63 - 1) n ≡ false = ground (arith, h) in
    rw (m, read_number-digits (c ∷ xs) l e, b) refl

parse_time-minus :
    (xs : Bytes) {n : ℕ}
    → 1 ≤ length xs
    → read_digits 0 xs ≡ some (suc n)
    → n < 2 ^ 63
    → parse_time (b'-' ∷ xs) ≡ some (negsuc n)
unfolding parse_time at_most negative
parse_time-minus xs {n} l e h =
    let b : ltb (2 ^ 63) (suc n) ≡ false = ground (arith, h) in
    rw (read_number-digits xs l e, b) refl

pub parse_time-print_time : (t : ℤ) → IsInt64 t → parse_time (print_time t) ≡ some t
unfolding print_time
parse_time-print_time (pos n) h =
    let d = decimal-IsDecimal 19 n (omega (arith, h)) in
    parse_time-digits (decimal 20 n) d.all_digits d.filled d.reads h
parse_time-print_time (negsuc n) h =
    let d = decimal-IsDecimal 19 (suc n) (omega (arith, h)) in
    parse_time-minus (decimal 20 (suc n)) d.filled d.reads h

-- The bounds of what `parse_count` and `parse_time` return.
pub parse_count-IsU64 : (text : Bytes) {n : ℕ} → parse_count text ≡ some n → n < 2 ^ 64
unfolding parse_count at_most
parse_count-IsU64 text e = ground (arith, e)

same_value : (v t : ℤ) → Path (Option ℤ) (some v) (some t) → IsInt64 v → IsInt64 t
same_value v t e h = let q : v ≡ t = cc e in subst IsInt64 q h

negative-IsInt64 : (o : Option ℕ) {t : ℤ} → negative (at_most (2 ^ 63) o) ≡ some t → IsInt64 t
unfolding negative at_most
negative-IsInt64 none e = absurd (cc e)
negative-IsInt64 (some zero) {t} e = same_value (pos 0) t e (omega arith)
negative-IsInt64 (some (suc n)) {t} e = elim (Bool-cases (ltb (2 ^ 63) (suc n))) [
  | inl b ↦ absurd (cc (e, b))
  | inr b ↦ same_value (negsuc n) t (rw b at e) (ground (arith, b))
]

positive-IsInt64 : (o : Option ℕ) {t : ℤ} → positive (at_most (2 ^ 63 - 1) o) ≡ some t → IsInt64 t
unfolding positive at_most
positive-IsInt64 none e = absurd (cc e)
positive-IsInt64 (some n) {t} e = elim (Bool-cases (ltb (2 ^ 63 - 1) n)) [
  | inl b ↦ absurd (cc (e, b))
  | inr b ↦ same_value (pos n) t (rw b at e) (ground (arith, b))
]

pub parse_time-IsInt64 : (text : Bytes) {t : ℤ} → parse_time text ≡ some t → IsInt64 t
unfolding parse_time
parse_time-IsInt64 [] e = absurd (cc e)
parse_time-IsInt64 (c ∷ text) {t} e = elim (Bool-cases (c == b'-')) [
  | inl m ↦ negative-IsInt64 (read_number text) (rw m at e)
  | inr m ↦ positive-IsInt64 (read_number (c ∷ text)) (rw m at e)
]
