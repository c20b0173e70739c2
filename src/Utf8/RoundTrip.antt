-- ===== src/Utf8/RoundTrip.antt =====
-- src/core/utf8.cpp: `decodeUtf8` and `encodeUtf8` together.
use fcitx5_emoji_palette.Prelude.{
  ℕ, zero, suc, ◌≤◌, ◌<◌, true, none, some, List, [], ◌∷◌, ◌++◌, Bytes, IsByte, length, All, ◌≡◌,
  refl, sym, ap, ◌∙◌, ◌↔◌, ◌⊎◌, inl, inr, arith, Option-cases, append_assoc, append-nil,
  length-append, All-append, All-append_right,
}
use fcitx5_emoji_palette.Utf8.{
  is_scalar, decode_one, decode_loop, decode_utf8, is_valid_utf8, encode_one, encode_loop,
  encode_utf8,
}
use fcitx5_emoji_palette.Utf8.Single.{
  decode_one-encode_one, encode_one-decode_one, encode_one_shape,
}

abbrev pub IsScalar : ℕ → Type 0
IsScalar cp = is_scalar cp ≡ true

-- The encodings of the code points, one after the other.
abbrev pub encodings : List ℕ → Bytes
encodings [] = []
encodings (cp ∷ cps) = encode_one cp ++ encodings cps

pub encodings-append : (xs ys : List ℕ) → encodings (xs ++ ys) ≡ encodings xs ++ encodings ys
encodings-append [] ys = refl
encodings-append (x ∷ xs) ys = rw (encodings-append xs ys, append_assoc)

encode_loop-encodings :
    (cps : List ℕ) (out : Bytes) → All IsScalar cps → encode_loop out cps ≡ out ++ encodings cps
unfolding encode_loop
encode_loop-encodings [] out h = sym (append-nil out)
encode_loop-encodings (cp ∷ cps) out h =
    rw (h.0, encode_loop)
      (encode_loop-encodings cps (out ++ encode_one cp) h.1
        ∙ append_assoc out (encode_one cp) (encodings cps))

pub encode-encodings : (cps : List ℕ) → All IsScalar cps → encode_utf8 cps ≡ encodings cps
unfolding encode_utf8
encode-encodings cps h = encode_loop-encodings cps [] h

pub encodings-IsByte : (cps : List ℕ) → All IsScalar cps → All IsByte (encodings cps)
encodings-IsByte [] h = tt
encodings-IsByte (cp ∷ cps) h =
    All-append IsByte (encode_one cp) (encodings cps) (encode_one_shape cp h.0).0
      (encodings-IsByte cps h.1)

decode_loop_step :
    (fuel : ℕ) (bs out : List ℕ) {cp : ℕ} {rest : Bytes}
    → decode_one bs ≡ some (cp, rest)
    → decode_loop (suc fuel) bs out ≡ decode_loop fuel rest (out ++ cp ∷ [])
unfolding decode_loop
decode_loop_step fuel [] out e = unfold decode_one in cc
decode_loop_step fuel (b ∷ bs) out e = rw (e, decode_loop)

decode_loop_done : (fuel : ℕ) (out : List ℕ) → decode_loop fuel [] out ≡ some out
unfolding decode_loop
decode_loop_done fuel out = refl

decode_loop-encodings :
    (cps : List ℕ) (fuel : ℕ) (out : List ℕ)
    → All IsScalar cps
    → length (encodings cps) ≤ fuel
    → decode_loop fuel (encodings cps) out ≡ some (out ++ cps)
decode_loop-encodings [] fuel out h f = decode_loop_done fuel out ∙ rw append-nil
decode_loop-encodings (cp ∷ cps) zero out h f =
    absurd
      (omega (arith, length-append (encode_one cp) (encodings cps), (encode_one_shape cp h.0).1))
decode_loop-encodings (cp ∷ cps) (suc fuel) out h f =
    decode_loop_step fuel _ out (decode_one-encode_one (encodings cps) cp h.0)
    ∙ decode_loop-encodings cps fuel (out ++ cp ∷ []) h.1
        (omega (arith, length-append (encode_one cp) (encodings cps), (encode_one_shape cp h.0).1))
    ∙ ap some (append_assoc out (cp ∷ []) cps)

pub decode-encodings : (cps : List ℕ) → All IsScalar cps → decode_utf8 (encodings cps) ≡ some cps
unfolding decode_utf8
decode-encodings cps h = decode_loop-encodings cps _ [] h (omega arith)

-- Decoding gives back exactly the code points that were encoded, whenever all of them are Unicode
-- scalar values.
pub decode-encode : (cps : List ℕ) → All IsScalar cps → decode_utf8 (encode_utf8 cps) ≡ some cps
decode-encode cps h = rw (encode-encodings cps h) (decode-encodings cps h)

decode_one_shorter :
    (bs : Bytes) {cp : ℕ} {rest : Bytes}
    → All IsByte bs
    → decode_one bs ≡ some (cp, rest)
    → (length rest < length bs) × All IsByte rest
decode_one_shorter bs {cp} {rest} h e =
    let (split, scalar) = encode_one-decode_one bs h e in
    (
      omega (
        arith,
        ap length split,
        length-append (encode_one cp) rest,
        (encode_one_shape cp scalar).1,
      ),
      All-append_right IsByte (encode_one cp) rest (rw split at h),
    )

-- What the loop has read from `bs`.
abbrev Decoded : Bytes → List ℕ → List ℕ → Type 0
Decoded bs out r = (cps : List ℕ) × (r ≡ out ++ cps) × (bs ≡ encodings cps) × All IsScalar cps

decode_loop_sound :
    (fuel : ℕ) (bs : Bytes) (out : List ℕ) {r : List ℕ}
    → All IsByte bs
    → decode_loop fuel bs out ≡ some r
    → Decoded bs out r
unfolding decode_loop
decode_loop_sound zero [] out h e = ([], rw append-nil (cc), refl, tt)
decode_loop_sound (suc fuel) [] out h e = ([], rw append-nil (cc), refl, tt)
decode_loop_sound zero (b ∷ bs) out h e = cc
decode_loop_sound (suc fuel) (b ∷ bs) out {r} h e = elim (Option-cases (decode_one (b ∷ bs))) [
  | inl n ↦ cc (rw (n, decode_loop) at e)
  | inr ((cp, rest), d) ↦
      let (split, scalar) = encode_one-decode_one (b ∷ bs) h d in
      let hr = (decode_one_shorter (b ∷ bs) h d).1 in
      let e' : decode_loop fuel rest (out ++ cp ∷ []) ≡ some r = rw (d, decode_loop) at e in
      let (cps, er, eb, hs) = decode_loop_sound fuel rest (out ++ cp ∷ []) hr e' in
      (
        cp ∷ cps,
        er ∙ append_assoc out (cp ∷ []) cps,
        split ∙ ap (λ t. encode_one cp ++ t) eb,
        (scalar, hs),
      )
]

pub decode_sound :
    (bs : Bytes) {cps : List ℕ}
    → All IsByte bs
    → decode_utf8 bs ≡ some cps
    → (bs ≡ encodings cps) × All IsScalar cps
unfolding decode_utf8
decode_sound bs {cps} h e =
    let (cps', er, eb, hs) = decode_loop_sound (length bs) bs [] h e in (rw er eb, rw er hs)

-- A Unicode scalar value: a code point below the surrogates or above them, up to U+10FFFF.
abbrev pub IsScalarValue : ℕ → Type 0
IsScalarValue cp = (cp < 0xD800) ⊎ ((0xE000 ≤ cp) × (cp ≤ 0x10FFFF))

scalar_value : (cp : ℕ) → IsScalar cp → IsScalarValue cp
unfolding is_scalar
scalar_value cp h = ground arith

IsScalarValue-IsScalar : (cp : ℕ) → IsScalarValue cp → IsScalar cp
unfolding is_scalar
IsScalarValue-IsScalar cp h = ground (arith, h)

scalar_values : (cps : List ℕ) → All IsScalar cps → All IsScalarValue cps
scalar_values [] h = tt
scalar_values (cp ∷ cps) h = (scalar_value cp h.0, scalar_values cps h.1)

pub IsScalarValues-IsScalar : (cps : List ℕ) → All IsScalarValue cps → All IsScalar cps
IsScalarValues-IsScalar [] h = tt
IsScalarValues-IsScalar (cp ∷ cps) h =
    (IsScalarValue-IsScalar cp h.0, IsScalarValues-IsScalar cps h.1)

-- A string that decodes is the encoding of what it decodes to, and all of that is scalar values: no
-- overlong form and no surrogate is accepted.
pub encode-decode :
    (bs : Bytes) {cps : List ℕ}
    → All IsByte bs
    → decode_utf8 bs ≡ some cps
    → (encode_utf8 cps ≡ bs) × All IsScalarValue cps
encode-decode bs {cps} h e =
    let (eb, hs) = decode_sound bs h e in (encode-encodings cps hs ∙ sym eb, scalar_values cps hs)

pub valid_intro : (bs : Bytes) {cps : List ℕ} → decode_utf8 bs ≡ some cps → is_valid_utf8 bs ≡ true
unfolding is_valid_utf8
valid_intro bs e = rw (e, is_valid_utf8)

pub valid_elim :
    (bs : Bytes) → is_valid_utf8 bs ≡ true → (cps : List ℕ) × (decode_utf8 bs ≡ some cps)
unfolding is_valid_utf8
valid_elim bs e = ground arith

-- A byte string is accepted exactly when it is the encoding of some list of scalar values.
pub is_valid_utf8_iff :
    (bs : Bytes)
    → All IsByte bs
    → (is_valid_utf8 bs ≡ true) ↔ ((cps : List ℕ) × All IsScalarValue cps × (encode_utf8 cps ≡ bs))
is_valid_utf8_iff bs h = (
  λ v. let (cps, d) = valid_elim bs v in let (e, s) = encode-decode bs h d in (cps, s, e),
  λ w. valid_intro bs (rw (w.2) at (decode-encode w.0 (IsScalarValues-IsScalar w.0 w.1))),
)

pub is_valid_utf8-encodings :
    (cps : List ℕ) → All IsScalar cps → is_valid_utf8 (encodings cps) ≡ true
is_valid_utf8-encodings cps h = valid_intro (encodings cps) (decode-encodings cps h)

All-IsScalar-append : (xs ys : List ℕ) → All IsScalar xs → All IsScalar ys → All IsScalar (xs ++ ys)
All-IsScalar-append xs ys = All-append IsScalar xs ys

-- Two accepted strings, one after the other, decode to the two lists, one after the other.
pub decode-append :
    (a b : Bytes) {xs ys : List ℕ}
    → All IsByte a
    → All IsByte b
    → decode_utf8 a ≡ some xs
    → decode_utf8 b ≡ some ys
    → decode_utf8 (a ++ b) ≡ some (xs ++ ys)
decode-append a b {xs} {ys} ha hb da db =
    let (ea, sa) = decode_sound a ha da in
    let (eb, sb) = decode_sound b hb db in
    rw (ea, eb, ← encodings-append xs ys)
      (decode-encodings (xs ++ ys) (All-IsScalar-append xs ys sa sb))

decode_loop_two_fuels :
    (f g : ℕ) (bs out : List ℕ)
    → All IsByte bs
    → length bs ≤ f
    → length bs ≤ g
    → decode_loop f bs out ≡ decode_loop g bs out
unfolding decode_loop
decode_loop_two_fuels zero zero bs out h p q = refl
decode_loop_two_fuels zero (suc g) [] out h p q = refl
decode_loop_two_fuels zero (suc g) (b ∷ bs) out h p q = absurd (omega arith)
decode_loop_two_fuels (suc f) zero [] out h p q = refl
decode_loop_two_fuels (suc f) zero (b ∷ bs) out h p q = absurd (omega arith)
decode_loop_two_fuels (suc f) (suc g) [] out h p q = refl
decode_loop_two_fuels (suc f) (suc g) (b ∷ bs) out h p q =
    elim (Option-cases (decode_one (b ∷ bs))) [
      | inl n ↦ rw (n, decode_loop)
      | inr ((cp, rest), d) ↦
          let (lt, hr) = decode_one_shorter (b ∷ bs) h d in
          decode_loop_step f (b ∷ bs) out d
          ∙ decode_loop_two_fuels f g rest (out ++ cp ∷ []) hr (omega arith) (omega arith)
          ∙ sym (decode_loop_step g (b ∷ bs) out d)
    ]

-- The loop stops at a suffix that is not empty and whose first code point is malformed; it has read all
-- that stands before.
abbrev pub IsStuck : Bytes → Type 0
IsStuck bs =
    (cps : List ℕ) × (b : ℕ) × (rest : Bytes) × (bs ≡ encodings cps ++ b ∷ rest)
    × (decode_one (b ∷ rest) ≡ none)

decode_loop-none :
    (fuel : ℕ) (bs out : List ℕ)
    → All IsByte bs
    → length bs ≤ fuel
    → decode_loop fuel bs out ≡ none
    → IsStuck bs
unfolding decode_loop
decode_loop-none zero [] out h le e = cc
decode_loop-none (suc fuel) [] out h le e = cc
decode_loop-none zero (b ∷ bs) out h le e = absurd (omega (arith, le))
decode_loop-none (suc fuel) (b ∷ bs) out h le e = elim (Option-cases (decode_one (b ∷ bs))) [
  | inl n ↦ ([], b, bs, refl, n)
  | inr ((cp, rest), d) ↦
      let (lt, hr) = decode_one_shorter (b ∷ bs) h d in
      let split = (encode_one-decode_one (b ∷ bs) h d).0 in
      let (cps, c, end, s, n) =
        decode_loop-none fuel rest (out ++ cp ∷ []) hr (omega (arith, lt, le))
          (rw (d, decode_loop) at e) in
      (
        cp ∷ cps,
        c,
        end,
        split ∙ ap (λ t. encode_one cp ++ t) s ∙ sym (append_assoc (encode_one cp) _ _),
        n,
      )
]

-- On any byte string, fuel beyond its length changes nothing, and the decoder never fails for want of
-- fuel: where it fails it has come, behind the encodings of some code points, to a byte at which no
-- code point can be read.
pub decode_loop_fuel :
    (fuel : ℕ) (bs : Bytes)
    → All IsByte bs
    → length bs ≤ fuel
    → (decode_loop fuel bs [] ≡ decode_utf8 bs) × (decode_utf8 bs ≡ none → IsStuck bs)
unfolding decode_utf8
decode_loop_fuel fuel bs h le = (
  decode_loop_two_fuels fuel (length bs) bs [] h le (omega arith),
  decode_loop-none (length bs) bs [] h (omega arith),
)
