-- ===== src/Utf8/Single.antt =====
-- One code point: the encoder's bytes are decoded to it, and a decoded prefix is its encoding.
use fcitx5_emoji_palette.Prelude.{
  ℕ, ◌+◌, ◌/◌, ◌%◌, ◌^◌, ◌≤◌, ◌<◌, true, some, [], ◌∷◌, ◌++◌, Bytes, IsByte, length, All, ltb, ◌≡◌,
  refl, ◌∙◌, inl, inr, arith, Bool-cases,
}
use fcitx5_emoji_palette.Utf8.{is_scalar, lead, continuations, decode_one, encode_one}
use fcitx5_emoji_palette.Utf8.Decode.{
  tail_byte, head_two, head_three, head_four, continue_lem, continue_inv, lead_cases, lead_one_lem,
  lead_two_lem, lead_three_lem, lead_four_lem, decode_one_intro, decode_one_elim,
}

module _ (cp : ℕ) where
  encode_one_one : cp < 0x80 → encode_one cp ≡ cp ∷ []
  unfolding encode_one
  encode_one_one h = ground arith

  encode_one_two : 0x80 ≤ cp → cp < 0x800 → encode_one cp ≡ (0xC0 + cp / 64) ∷ (0x80 + cp % 64) ∷ []
  unfolding encode_one
  encode_one_two lo hi = ground (arith, head_two cp hi, tail_byte cp)

  encode_one_three :
      0x800 ≤ cp
      → cp < 0x10000
      → encode_one cp ≡ (0xE0 + cp / 4096) ∷ (0x80 + cp / 64 % 64) ∷ (0x80 + cp % 64) ∷ []
  unfolding encode_one
  encode_one_three lo hi = ground (arith, head_three cp hi, tail_byte (cp / 2 ^ 6), tail_byte cp)

  encode_one_four :
      0x10000 ≤ cp
      → cp < 0x200000
      → encode_one cp
        ≡ (0xF0 + cp / 262144)
          ∷ (0x80 + cp / 4096 % 64)
          ∷ (0x80 + cp / 64 % 64)
          ∷ (0x80 + cp % 64)
          ∷ []
  unfolding encode_one
  encode_one_four lo hi =
      ground (arith, head_four cp hi, tail_byte (cp / 2 ^ 12), tail_byte (cp / 2 ^ 6), tail_byte cp)

  scalar_bound : is_scalar cp ≡ true → cp < 0x110000
  unfolding is_scalar
  scalar_bound h = ground arith

module _ (rest : Bytes) where
  -- The last round of continuations ends with the code point.
  finish_lem : (c cp : ℕ) → c ≡ cp → continuations 0 c rest ≡ some (cp, rest)
  unfolding continuations
  finish_lem c cp e = rw e

  decode_two :
      (cp : ℕ)
      → 0x80 ≤ cp
      → cp < 0x800
      → is_scalar cp ≡ true
      → decode_one ((0xC0 + cp / 64) ∷ (0x80 + cp % 64) ∷ rest) ≡ some (cp, rest)
  decode_two cp lo hi s =
      decode_one_intro (0xC0 + cp / 64) _ (lead_two_lem _ (omega arith) (omega arith)) (omega arith)
        (continue_lem 0 _ _ rest (omega arith) (omega arith) (omega arith)
          ∙ finish_lem _ cp (omega arith))
        lo s

  decode_three :
      (cp : ℕ)
      → 0x800 ≤ cp
      → cp < 0x10000
      → is_scalar cp ≡ true
      → decode_one ((0xE0 + cp / 4096) ∷ (0x80 + cp / 64 % 64) ∷ (0x80 + cp % 64) ∷ rest)
        ≡ some (cp, rest)
  decode_three cp lo hi s =
      decode_one_intro (0xE0 + cp / 4096) _ (lead_three_lem _ (omega arith) (omega arith))
        (omega arith)
        (continue_lem 1 _ _ _ (omega arith) (omega arith) (omega arith)
          ∙ continue_lem 0 _ _ rest (omega arith) (omega arith) (omega arith)
          ∙ finish_lem _ cp (omega arith))
        lo s

  decode_four :
      (cp : ℕ)
      → 0x10000 ≤ cp
      → cp < 0x110000
      → is_scalar cp ≡ true
      → decode_one (
          (0xF0 + cp / 262144)
          ∷ (0x80 + cp / 4096 % 64)
          ∷ (0x80 + cp / 64 % 64)
          ∷ (0x80 + cp % 64)
          ∷ rest)
        ≡ some (cp, rest)
  decode_four cp lo hi s =
      decode_one_intro (0xF0 + cp / 262144) _ (lead_four_lem _ (omega arith) (omega arith))
        (omega arith)
        (continue_lem 2 _ _ _ (omega arith) (omega arith) (omega arith)
          ∙ continue_lem 1 _ _ _ (omega arith) (omega arith) (omega arith)
          ∙ continue_lem 0 _ _ rest (omega arith) (omega arith) (omega arith)
          ∙ finish_lem _ cp (omega arith))
        lo s

  decode_single :
      (cp : ℕ) → cp < 0x80 → is_scalar cp ≡ true → decode_one (cp ∷ rest) ≡ some (cp, rest)
  decode_single cp h s =
      decode_one_intro cp _ (lead_one_lem cp h) (omega arith) (finish_lem cp cp refl) (omega arith)
        s

  -- The decoder reads back any scalar value that the encoder wrote.
  pub decode_one-encode_one :
      (cp : ℕ) → is_scalar cp ≡ true → decode_one (encode_one cp ++ rest) ≡ some (cp, rest)
  decode_one-encode_one cp s = elim (Bool-cases (ltb cp 0x80)) [
    | inl h ↦ rw (encode_one_one cp (ground arith)) (decode_single cp (ground arith) s)
    | inr h ↦ elim (Bool-cases (ltb cp 0x800)) [
      | inl k ↦
          rw (encode_one_two cp (ground arith) (ground arith))
            (decode_two cp (ground arith) (ground arith) s)
      | inr k ↦ elim (Bool-cases (ltb cp 0x10000)) [
        | inl l ↦
            rw (encode_one_three cp (ground arith) (ground arith))
              (decode_three cp (ground arith) (ground arith) s)
        | inr l ↦
            let top = scalar_bound cp s in
            rw (encode_one_four cp (ground arith) (ground arith))
              (decode_four cp (ground arith) top s)
      ]
    ]
  ]

-- What was read as a continuation chain, byte by byte.
stop_lem :
    (c : ℕ) (rest : Bytes) {cp : ℕ} {rest' : Bytes}
    → continuations 0 c rest ≡ some (cp, rest')
    → (cp ≡ c) × (rest ≡ rest')
unfolding continuations
stop_lem c rest e = ground arith

-- A decoded prefix is the encoding of a scalar value: no overlong form, no surrogate.
abbrev Written : Bytes → ℕ → Bytes → Type 0
Written bs cp rest = (bs ≡ encode_one cp ++ rest) × (is_scalar cp ≡ true)

Written-two :
    (b : ℕ) (bs : Bytes) {cp : ℕ} {rest : Bytes}
    → All IsByte bs
    → 0xC0 ≤ b
    → b < 0xE0
    → decode_one (b ∷ bs) ≡ some (cp, rest)
    → Written (b ∷ bs) cp rest
Written-two b bs {cp} {rest} hb lo hi e =
    let (_, c, least, s) = decode_one_elim b bs (lead_two_lem b lo hi) e in
    let (x, bs1, e1, lx, hx, c1) = continue_inv 0 _ bs (omega arith) hb c in
    let (ec, er) = stop_lem _ bs1 c1 in
    (rw (e1, er, encode_one_two cp least (omega arith)) (ground arith), s)

Written-three :
    (b : ℕ) (bs : Bytes) {cp : ℕ} {rest : Bytes}
    → All IsByte bs
    → 0xE0 ≤ b
    → b < 0xF0
    → decode_one (b ∷ bs) ≡ some (cp, rest)
    → Written (b ∷ bs) cp rest
Written-three b bs {cp} {rest} hb lo hi e =
    let (_, c, least, s) = decode_one_elim b bs (lead_three_lem b lo hi) e in
    let (x, bs1, e1, lx, hx, c1) = continue_inv 1 _ bs (omega arith) hb c in
    let (y, bs2, e2, ly, hy, c2) = continue_inv 0 _ bs1 (omega arith) (rw e1 at hb).1 c1 in
    let (ec, er) = stop_lem _ bs2 c2 in
    (rw (e1, e2, er, encode_one_three cp least (omega arith)) (ground arith), s)

Written-four :
    (b : ℕ) (bs : Bytes) {cp : ℕ} {rest : Bytes}
    → All IsByte bs
    → 0xF0 ≤ b
    → b < 0xF8
    → decode_one (b ∷ bs) ≡ some (cp, rest)
    → Written (b ∷ bs) cp rest
Written-four b bs {cp} {rest} hb lo hi e =
    let (_, c, least, s) = decode_one_elim b bs (lead_four_lem b lo hi) e in
    let (x, bs1, e1, lx, hx, c1) = continue_inv 2 _ bs (omega arith) hb c in
    let (y, bs2, e2, ly, hy, c2) = continue_inv 1 _ bs1 (omega arith) (rw e1 at hb).1 c1 in
    let (z, bs3, e3, lz, hz, c3) = continue_inv 0 _ bs2 (omega arith) (rw (e1, e2) at hb).1.1 c2 in
    let (ec, er) = stop_lem _ bs3 c3 in
    let top = scalar_bound cp s in
    (rw (e1, e2, e3, er, encode_one_four cp least (omega arith)) (ground arith), s)

Written-one :
    (b : ℕ) (bs : Bytes) {cp : ℕ} {rest : Bytes}
    → b < 0x80
    → decode_one (b ∷ bs) ≡ some (cp, rest)
    → Written (b ∷ bs) cp rest
Written-one b bs {cp} {rest} hi e =
    let (_, c, least, s) = decode_one_elim b bs (lead_one_lem b hi) e in
    let (ec, er) = stop_lem b bs c in (rw (er, ec, encode_one_one b hi) refl, s)

decode_one-lead :
    (b : ℕ) (bs : Bytes) {r : ℕ × Bytes}
    → decode_one (b ∷ bs) ≡ some r
    → (x : ℕ × ℕ × ℕ) × (lead b ≡ some x)
unfolding decode_one
decode_one-lead b bs e = ground arith

pub encode_one-decode_one :
    (bs : Bytes) {cp : ℕ} {rest : Bytes}
    → All IsByte bs
    → decode_one bs ≡ some (cp, rest)
    → (bs ≡ encode_one cp ++ rest) × (is_scalar cp ≡ true)
encode_one-decode_one [] h e = unfold decode_one in cc e
encode_one-decode_one (b ∷ bs) {cp} {rest} h e =
    let (x, l) = decode_one-lead b bs e in
    elim (lead_cases b h.0 l) [
      | inl (hi, _) ↦ Written-one b bs hi e
      | inr (inl (lo, hi, _)) ↦ Written-two b bs h.1 lo hi e
      | inr (inr (inl (lo, hi, _))) ↦ Written-three b bs h.1 lo hi e
      | inr (inr (inr (lo, hi, _))) ↦ Written-four b bs h.1 lo hi e
    ]

-- The encoder writes one to four bytes.
pub encode_one_shape :
    (cp : ℕ) → is_scalar cp ≡ true → All IsByte (encode_one cp) × (1 ≤ length (encode_one cp))
unfolding encode_one
encode_one_shape cp s = ground arith
