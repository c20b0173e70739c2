-- ===== src/Reader/Integers.antt =====
-- Big-endian integers: reading what was written, and writing what was read.
use fcitx5_emoji_palette.Prelude.{
  ℕ, zero, suc, ◌+◌, ◌*◌, ◌%◌, ◌^◌, ◌≤◌, ◌<◌, bit_or, Option, none, some, [], ◌∷◌, ◌++◌, Bytes,
  IsByte, All, length, take, drop, ltb, ◌≡◌, refl, sym, ap, ◌∙◌, arith, ◌⊎◌, inl, inr, Bool-cases,
  length-append, take-append, drop-append, length-take, take-append-drop, subst, All-append_left,
  All-append_right,
}
use fcitx5_emoji_palette.Prelude.Bits.{bit_or-disjoint_8}
use fcitx5_emoji_palette.Writer.{integer}
use fcitx5_emoji_palette.Reader.{Reader, accumulate, read_integer}
use fcitx5_emoji_palette.Protocol.{ProtocolError}

-- The number that a list of bytes stands for, behind the number `acc`.
abbrev pub value : ℕ → Bytes → ℕ
value acc [] = acc
value acc (b ∷ bs) = value (acc * 256 + b) bs

pub length-integer : (size v : ℕ) → length (integer size v) ≡ size
unfolding integer
length-integer zero v = refl
length-integer (suc k) v = ap suc (length-integer k v)

pub integer-IsByte : (size v : ℕ) → All IsByte (integer size v)
unfolding integer
integer-IsByte zero v = tt
integer-IsByte (suc k) v = (omega arith, integer-IsByte k v)

accumulate_step :
    (size acc b : ℕ)
    → b < 256
    → acc * 256 + b < 2 ^ (size * 8)
    → bit_or (acc * 256) b % 2 ^ (size * 8) ≡ acc * 256 + b
accumulate_step size acc b hb fits = rw (bit_or-disjoint_8 acc b hb) (grind arith)

value_mono : (bs : Bytes) (acc : ℕ) → acc ≤ value acc bs
value_mono [] acc = omega arith
value_mono (b ∷ bs) acc = omega (arith, value_mono bs (acc * 256 + b))

-- The loop computes that number wherever the type can hold it.
accumulate-value :
    (size : ℕ) (bs : Bytes) (acc : ℕ)
    → All IsByte bs
    → value acc bs < 2 ^ (size * 8)
    → accumulate size acc bs ≡ value acc bs
unfolding accumulate
accumulate-value size [] acc h fits = refl
accumulate-value size (b ∷ bs) acc h fits =
    rw (accumulate_step size acc b h.0 (omega (arith, value_mono bs (acc * 256 + b))))
      (accumulate-value size bs (acc * 256 + b) h.1 fits)

-- The sizes that the protocol uses.
module _ (v : ℕ) where
  value-integer_1 : v < 2 ^ 8 → value 0 (integer 1 v) ≡ v
  unfolding integer
  value-integer_1 h = omega arith

  value-integer_2 : v < 2 ^ 16 → value 0 (integer 2 v) ≡ v
  unfolding integer
  value-integer_2 h = omega arith

  value-integer_4 : v < 2 ^ 32 → value 0 (integer 4 v) ≡ v
  unfolding integer
  value-integer_4 h = omega arith

  value-integer_8 : v < 2 ^ 64 → value 0 (integer 8 v) ≡ v
  unfolding integer
  value-integer_8 h = omega arith

module _ (a b c d : ℕ) (ha : a < 256) (hb : b < 256) (hc : c < 256) (hd : d < 256) where
  integer-value_4 : integer 4 (value 0 (a ∷ b ∷ c ∷ d ∷ [])) ≡ a ∷ b ∷ c ∷ d ∷ []
  unfolding integer
  integer-value_4 = ground arith

module _ (a b c d e f g h : ℕ) (ha : a < 256) (hb : b < 256) (hc : c < 256) (hd : d < 256)
    (he : e < 256) (hf : f < 256) (hg : g < 256) (hh : h < 256) where
  integer-value_8 :
      integer 8 (value 0 (a ∷ b ∷ c ∷ d ∷ e ∷ f ∷ g ∷ h ∷ [])) ≡ a ∷ b ∷ c ∷ d ∷ e ∷ f ∷ g ∷ h ∷ []
  unfolding integer
  integer-value_8 = ground arith

-- The widths that the protocol uses.
abbrev pub IsWidth : ℕ → Type 0
IsWidth size = (size ≡ 1) ⊎ (size ≡ 2) ⊎ (size ≡ 4) ⊎ (size ≡ 8)

value-integer : (size v : ℕ) → IsWidth size → v < 2 ^ (size * 8) → value 0 (integer size v) ≡ v
value-integer size v (inl e) h = rw e (value-integer_1 v (rw e at h))
value-integer size v (inr (inl e)) h = rw e (value-integer_2 v (rw e at h))
value-integer size v (inr (inr (inl e))) h = rw e (value-integer_4 v (rw e at h))
value-integer size v (inr (inr (inr e))) h = rw e (value-integer_8 v (rw e at h))

-- What a list of that many bytes stands for fits, and is written as that list.
abbrev IsWritten : ℕ → Bytes → Type 0
IsWritten size bs = (integer size (value 0 bs) ≡ bs) × (value 0 bs < 2 ^ (size * 8))

IsWritten-1 : (bs : Bytes) → All IsByte bs → length bs ≡ 1 → IsWritten 1 bs
unfolding integer
IsWritten-1 [] h e = absurd (omega arith)
IsWritten-1 (a ∷ []) h e = (ground arith, omega arith)
IsWritten-1 (a ∷ b ∷ r) h e = absurd (omega arith)

IsWritten-2 : (bs : Bytes) → All IsByte bs → length bs ≡ 2 → IsWritten 2 bs
unfolding integer
IsWritten-2 [] h e = absurd (omega arith)
IsWritten-2 (a ∷ []) h e = absurd (omega arith)
IsWritten-2 (a ∷ b ∷ []) h e = (ground arith, omega arith)
IsWritten-2 (a ∷ b ∷ c ∷ r) h e = absurd (omega arith)

IsWritten-4 : (bs : Bytes) → All IsByte bs → length bs ≡ 4 → IsWritten 4 bs
IsWritten-4 (a ∷ b ∷ c ∷ d ∷ []) (ha, (hb, (hc, (hd, _)))) e =
    (integer-value_4 a b c d ha hb hc hd, omega arith)
IsWritten-4 (a ∷ b ∷ c ∷ d ∷ x ∷ r) h e = absurd (omega arith)
IsWritten-4 _ h e = absurd (omega arith)

IsWritten-8 : (bs : Bytes) → All IsByte bs → length bs ≡ 8 → IsWritten 8 bs
IsWritten-8 (a ∷ b ∷ c ∷ d ∷ i ∷ f ∷ g ∷ j ∷ []) (ha, (hb, (hc, (hd, (hi, (hf, (hg, (hj, _))))))))
      e =
    (integer-value_8 a b c d i f g j ha hb hc hd hi hf hg hj, omega arith)
IsWritten-8 (a ∷ b ∷ c ∷ d ∷ i ∷ f ∷ g ∷ j ∷ x ∷ r) h e = absurd (omega arith)
IsWritten-8 _ h e = absurd (omega arith)

written :
    (size : ℕ) (bs : Bytes) → IsWidth size → All IsByte bs → length bs ≡ size → IsWritten size bs
written size bs (inl e) h l = rw e (IsWritten-1 bs h (l ∙ e))
written size bs (inr (inl e)) h l = rw e (IsWritten-2 bs h (l ∙ e))
written size bs (inr (inr (inl e))) h l = rw e (IsWritten-4 bs h (l ∙ e))
written size bs (inr (inr (inr e))) h l = rw e (IsWritten-8 bs h (l ∙ e))

abbrev pub reader : Bytes → ProtocolError → Reader
reader bytes error = record { bytes = bytes; error = error }

-- `Reader::integer` takes back what `Writer::integer` appended, and nothing of what follows.
pub read_integer-integer :
    (size v : ℕ) (rest : Bytes) (error : ProtocolError)
    → IsWidth size
    → v < 2 ^ (size * 8)
    → read_integer size (reader (integer size v ++ rest) error) ≡ (some v, reader rest error)
unfolding read_integer
read_integer-integer size v rest error w h =
    let n = length-integer size v in
    let taken =
      ap (λ k. take k (integer size v ++ rest)) (sym n) ∙ take-append (integer size v) rest in
    let left =
      ap (λ k. drop k (integer size v ++ rest)) (sym n) ∙ drop-append (integer size v) rest in
    let e = value-integer size v w h in
    let acc = accumulate-value size (integer size v) 0 (integer-IsByte size v) (rw e h) ∙ e in
    ground (arith, taken, left, acc, length-append (integer size v) rest, n)

-- The reader `r'` has read from `r` the bytes `bs`.
pub record Took (r r' : Reader) (bs : Bytes) : Type 0 where
  pub split : r.bytes ≡ bs ++ r'.bytes
  pub same_error : r'.error ≡ r.error
  pub rest_bytes : All IsByte r'.bytes

-- A failed read leaves the reader alone; a successful one has read the encoding of its result.
abbrev pub ReadInteger : ℕ → Reader → Option ℕ × Reader → Type 0
ReadInteger size r (none, r') = r' ≡ r
ReadInteger size r (some v, r') = Took r r' (integer size v) × (v < 2 ^ (size * 8))

pub read_integer_lem :
    (size : ℕ) (r : Reader)
    → IsWidth size
    → All IsByte r.bytes
    → ReadInteger size r (read_integer size r)
unfolding read_integer
read_integer_lem size r w h = elim (Bool-cases (ltb (length r.bytes) size)) [
  | inl short ↦ rw (short, read_integer) refl
  | inr long ↦
      let bs : Bytes = take size r.bytes in
      let rest : Bytes = drop size r.bytes in
      let enough : size ≤ length r.bytes = ground (arith, long) in
      let len : length bs ≡ size = omega (arith, length-take size r.bytes, enough) in
      let all : All IsByte (bs ++ rest) =
        subst (All IsByte) (sym (take-append-drop size r.bytes)) h in
      let (enc, fits) = written size bs w (All-append_left IsByte bs rest all) len in
      let acc = accumulate-value size bs 0 (All-append_left IsByte bs rest all) fits in
      let parts : r.bytes ≡ integer size (value 0 bs) ++ rest =
        sym (take-append-drop size r.bytes) ∙ ap (λ t. t ++ rest) (sym enc) in
      rw (long, read_integer, acc)
        (
          record {
            split = parts;
            same_error = refl;
            rest_bytes = All-append_right IsByte bs rest all;
          },
          fits,
        )
]
