-- ===== src/Addon/Random.antt =====
-- src/addon/emoji_palette_addon.cpp: the identifiers and the nonces that the addon draws. The random
-- device is a parameter, the sequence of its 32-bit values; the first draw is at the position given.
use fcitx5_emoji_palette.Prelude.{
  ℕ, zero, suc, ◌+◌, ◌*◌, ◌%◌, ◌^◌, ◌<◌, true, false, not, ◌==◌, Option, none, some, [], ◌∷◌, Bytes,
  IsByte, All, any, length, if◌then◌else◌, ◌≡◌, refl, arith, inl, inr, Bool-cases, subst,
}
use fcitx5_emoji_palette.Protocol.{TransactionId, IsTransactionId}
use fcitx5_emoji_palette.Codes.{valid_transaction}

-- The inner loop: `count` bytes.
unfoldable pub draw_bytes : (ℕ → ℕ) → ℕ → ℕ → Bytes
draw_bytes source position zero = []
draw_bytes source position (suc count) =
    source position % 256 ∷ draw_bytes source (position + 1) count

-- `do ... while`, for at most `fuel` rounds; `none` is a device that has given only zeros.
unfoldable pub create_transaction : (ℕ → ℕ) → ℕ → ℕ → Option TransactionId
unfolding draw_bytes
create_transaction source position zero = none
create_transaction source position (suc fuel) =
    let result = draw_bytes source position 16 in
    let again = create_transaction source (position + 16) fuel in
    if not (any (λ byte. not (byte == 0)) result) then again else some result

unfoldable pub create_nonce : (ℕ → ℕ) → ℕ → ℕ → Option ℕ
create_nonce source position zero = none
create_nonce source position (suc fuel) =
    let result = source position * 2 ^ 32 + source (position + 1) in
    let again = create_nonce source (position + 2) fuel in
    if result == 0 then again else some result

draw_bytes-IsByte :
    (source : ℕ → ℕ) (n count : ℕ)
    → (length (draw_bytes source n count) ≡ count) × All IsByte (draw_bytes source n count)
unfolding draw_bytes
draw_bytes-IsByte source n zero = (refl, tt)
draw_bytes-IsByte source n (suc count) =
    let (l, b) = draw_bytes-IsByte source (n + 1) count in (omega (arith, l), (omega arith, b))

-- What an identifier must be.
abbrev pub IsDrawn : TransactionId → Type 0
IsDrawn t = IsTransactionId t × (valid_transaction t ≡ true)

create_transaction-IsDrawn :
    (source : ℕ → ℕ) (n fuel : ℕ) {t : TransactionId}
    → create_transaction source n fuel ≡ some t
    → IsDrawn t
unfolding create_transaction
create_transaction-IsDrawn source n zero e = absurd (cc e)
create_transaction-IsDrawn source n (suc fuel) {t} e =
    let bytes = draw_bytes source n 16 in
    elim (Bool-cases (any (λ byte. not (byte == 0)) bytes)) [
      | inl v ↦
          let q : bytes ≡ t = cc (e, v) in
          subst IsDrawn q (draw_bytes-IsByte source n 16, unfold valid_transaction in v)
      | inr v ↦ create_transaction-IsDrawn source (n + 16) fuel (rw v at e)
    ]

any-draw_bytes :
    (source : ℕ → ℕ) (j count n : ℕ)
    → j < count
    → (source (n + j) % 256 == 0) ≡ false
    → any (λ byte. not (byte == 0)) (draw_bytes source n count) ≡ true
unfolding draw_bytes
any-draw_bytes source j zero n l h = absurd (omega (arith, l))
any-draw_bytes source zero (suc count) n l h =
    let e : n + 0 ≡ n = omega arith in
    let k : (source n % 256 == 0) ≡ false = rw e at h in rw (k, any) refl
any-draw_bytes source (suc j) (suc count) n l h =
    let e : n + suc j ≡ n + 1 + j = omega arith in
    let rest = any-draw_bytes source j count (n + 1) (omega (arith, l)) (rw e at h) in
    elim (Bool-cases (source n % 256 == 0)) [ inl z ↦ rw (z, any) rest | inr z ↦ rw (z, any) refl ]

some_drawn :
    (source : ℕ → ℕ) (k j n fuel : ℕ)
    → k < fuel
    → j < 16
    → (source (n + 16 * k + j) % 256 == 0) ≡ false
    → (t : TransactionId) × (create_transaction source n fuel ≡ some t)
unfolding create_transaction
some_drawn source k j n zero l b h = absurd (omega (arith, l))
some_drawn source zero j n (suc fuel) l b h =
    let e : n + 16 * 0 + j ≡ n + j = omega arith in
    let v = any-draw_bytes source j 16 n b (rw e at h) in (draw_bytes source n 16, rw v refl)
some_drawn source (suc k) j n (suc fuel) l b h =
    let e : n + 16 * suc k + j ≡ n + 16 + 16 * k + j = omega arith in
    elim (Bool-cases (any (λ byte. not (byte == 0)) (draw_bytes source n 16))) [
      | inl v ↦ (draw_bytes source n 16, rw v refl)
      | inr v ↦
          let (t, q) = some_drawn source k j (n + 16) fuel (omega (arith, l)) b (rw e at h) in
          (t, rw v q)
    ]

-- If the device gives a byte other than 0 in one of the first `fuel` rounds, `fuel` rounds are enough
-- for an identifier, and it is a valid one of 16 bytes.
pub create_transaction-ends :
    (source : ℕ → ℕ) (k j n fuel : ℕ)
    → k < fuel
    → j < 16
    → (source (n + 16 * k + j) % 256 == 0) ≡ false
    → (t : TransactionId) × (create_transaction source n fuel ≡ some t) × IsDrawn t
create_transaction-ends source k j n fuel l b h =
    let (t, e) = some_drawn source k j n fuel l b h in
    (t, e, create_transaction-IsDrawn source n fuel e)
