-- ===== src/Reader/Fields.antt =====
-- The fields of a payload: transaction identifiers, texts and rectangles. Each is read back as it was
-- written, and what a successful read has taken is the field's one encoding.
use fcitx5_emoji_palette.Prelude.{
  ℕ, ◌^◌, ◌≤◌, ◌<◌, true, false, ◌||◌, Option, none, some, ◌++◌, Bytes, IsByte, All, length, take,
  drop, ltb, ◌≡◌, refl, sym, ap, ◌∙◌, arith, length-append, take-append, drop-append, length-take,
  take-append-drop, subst, All-append_left, All-append_right, Bool-cases, append_assoc, inl, inr,
  ◌>>=◌,
}
use fcitx5_emoji_palette.Prelude.Int.{ℤ, pos, negsuc}
use fcitx5_emoji_palette.Utf8.{is_valid_utf8}
use fcitx5_emoji_palette.Writer.{integer, to_unsigned, to_signed, write_rectangle, write_text}
use fcitx5_emoji_palette.Reader.{
  Reader, read_integer, read_transaction, read_characters, text_of_size, read_text, read_rectangle,
}
use fcitx5_emoji_palette.Reader.Integers.{
  reader, Took, read_integer-integer, ReadInteger, read_integer_lem,
}
use fcitx5_emoji_palette.Protocol.{
  ProtocolError, invalid_utf8, TransactionId, IsTransactionId, Rect, IsInt32, IsRect, IsU32,
}

-- A prefix of the reader's bytes and the rest.
pub Took-take :
    (n : ℕ) (r : Reader)
    → All IsByte r.bytes
    → n ≤ length r.bytes
    → Took r (record r { bytes = drop n r.bytes }) (take n r.bytes)
      × All IsByte (take n r.bytes)
      × (length (take n r.bytes) ≡ n)
Took-take n r h le =
    let whole = sym (take-append-drop n r.bytes) in
    let all : All IsByte (take n r.bytes ++ drop n r.bytes) = subst (All IsByte) whole h in
    (
      record {
        split = whole;
        same_error = refl;
        rest_bytes = All-append_right IsByte (take n r.bytes) (drop n r.bytes) all;
      },
      All-append_left IsByte (take n r.bytes) (drop n r.bytes) all,
      omega (arith, length-take n r.bytes),
    )

pub Took-trans : {r r1 r2 : Reader} (a b : Bytes) → Took r r1 a → Took r1 r2 b → Took r r2 (a ++ b)
Took-trans {r} {r1} {r2} a b f g = record {
  split = f.split ∙ ap (λ t. a ++ t) g.split ∙ sym (append_assoc a b r2.bytes);
  same_error = g.same_error ∙ f.same_error;
  rest_bytes = g.rest_bytes;
}

-- The first bytes of an append, by the length of its left part.
split_at : (n : ℕ) (a b : Bytes) → length a ≡ n → (take n (a ++ b) ≡ a) × (drop n (a ++ b) ≡ b)
split_at n a b e = (
  ap (λ k. take k (a ++ b)) (sym e) ∙ take-append a b,
  ap (λ k. drop k (a ++ b)) (sym e) ∙ drop-append a b,
)

pub read_transaction-append :
    (t rest : Bytes) (error : ProtocolError)
    → length t ≡ 16
    → read_transaction (reader (t ++ rest) error) ≡ (some t, reader rest error)
unfolding read_transaction
read_transaction-append t rest error e =
    let (taken, left) = split_at 16 t rest e in ground (arith, taken, left, length-append t rest, e)

abbrev pub ReadTransaction : Reader → Option TransactionId × Reader → Type 0
ReadTransaction r (none, r') = r' ≡ r
ReadTransaction r (some t, r') = Took r r' t × IsTransactionId t

pub read_transaction_lem :
    (r : Reader) → All IsByte r.bytes → ReadTransaction r (read_transaction r)
unfolding read_transaction
read_transaction_lem r h = elim (Bool-cases (ltb (length r.bytes) 16)) [
  | inl short ↦ rw (short, read_transaction) refl
  | inr long ↦
      let (took, all, len) = Took-take 16 r h (ground (arith, long)) in
      rw (long, read_transaction) (took, (len, all))
]

pub read_text-write_text :
    (v : Bytes) (maximum : ℕ) (rest : Bytes) (error : ProtocolError) {w : Bytes}
    → write_text v maximum ≡ some w
    → read_text maximum (reader (w ++ rest) error) ≡ (some v, reader rest error)
unfolding read_text write_text
read_text-write_text v maximum rest error {w} e =
    let ew : integer 2 (length v) ++ v ≡ w = ground (arith, e) in
    let small : length v < 2 ^ 16 = ground (arith, e) in
    let fits : length v ≤ maximum = ground (arith, e) in
    let valid : is_valid_utf8 v ≡ true = ground (arith, e) in
    let size = read_integer-integer 2 (length v) (v ++ rest) error (inr (inl refl)) small in
    let (taken, left) = split_at (length v) v rest refl in
    rw (← ew, append_assoc, size, read_text)
      (ground (arith, taken, left, fits, valid, length-append v rest))

abbrev pub ReadText : ℕ → Reader → Option Bytes × Reader → Type 0
ReadText maximum r (none, r') = Unit
ReadText maximum r (some v, r') =
    (w : Bytes) × (write_text v maximum ≡ some w) × Took r r' w × All IsByte v

read_characters_lem :
    (size : ℕ) (r : Reader)
    → All IsByte r.bytes
    → size ≤ length r.bytes
    → (is_valid_utf8 (take size r.bytes) ≡ true)
    → read_characters size r ≡ (some (take size r.bytes), record r { bytes = drop size r.bytes })
unfolding read_characters
read_characters_lem size r h le v = ground (arith, v)

read_characters_bad :
    (size : ℕ) (r : Reader)
    → is_valid_utf8 (take size r.bytes) ≡ false
    → read_characters size r ≡ (none, record { bytes = drop size r.bytes; error = invalid_utf8 })
unfolding read_characters
read_characters_bad size r v = ground (arith, v)

write_text_intro :
    (v : Bytes) (maximum : ℕ)
    → length v ≤ maximum
    → length v < 2 ^ 16
    → is_valid_utf8 v ≡ true
    → write_text v maximum ≡ some (integer 2 (length v) ++ v)
unfolding write_text
write_text_intro v maximum a b c = ground (arith, c)

text_of_size_lem :
    (maximum size : ℕ) (r r1 : Reader)
    → Took r r1 (integer 2 size)
    → size < 2 ^ 16
    → ReadText maximum r (text_of_size maximum (some size) r1)
unfolding text_of_size
text_of_size_lem maximum size r r1 took small =
    elim (Bool-cases (ltb maximum size || ltb (length r1.bytes) size)) [
      | inl bad ↦ rw (bad, text_of_size) tt
      | inr good ↦ elim (Bool-cases (is_valid_utf8 (take size r1.bytes))) [
        | inr v ↦ rw (good, text_of_size, read_characters_bad size r1 v) tt
        | inl v ↦
            let fits : size ≤ maximum = ground (arith, good) in
            let enough : size ≤ length r1.bytes = ground (arith, good) in
            let (got, all, len) = Took-take size r1 took.rest_bytes enough in
            let text = take size r1.bytes in
            let w = write_text_intro text maximum (omega arith) (omega arith) v in
            let at : Took r r1 (integer 2 (length text)) = rw len took in
            rw (good, text_of_size, read_characters_lem size r1 took.rest_bytes enough v)
              (integer 2 (length text) ++ text, w, Took-trans _ text at got, all)
      ]
    ]

text_of_size_cases :
    (maximum : ℕ) (size : Option ℕ) (r r1 : Reader)
    → ReadInteger 2 r (size, r1)
    → ReadText maximum r (text_of_size maximum size r1)
text_of_size_cases maximum none r r1 h = unfold text_of_size in tt
text_of_size_cases maximum (some size) r r1 (took, small) =
    text_of_size_lem maximum size r r1 took small

pub read_text_lem :
    (maximum : ℕ) (r : Reader) → All IsByte r.bytes → ReadText maximum r (read_text maximum r)
unfolding read_text
read_text_lem maximum r h =
    text_of_size_cases maximum (read_integer 2 r).0 r (read_integer 2 r).1
      (read_integer_lem 2 r (inr (inl refl)) h)

-- An `std::int32_t` and its bit pattern.
pub to_signed-to_unsigned :
    (z : ℤ) → IsInt32 z → (to_signed (to_unsigned z) ≡ z) × IsU32 (to_unsigned z)
unfolding to_signed to_unsigned
to_signed-to_unsigned (pos n) h = (ground arith, omega arith)
to_signed-to_unsigned (negsuc n) h = (ground arith, omega arith)

pub to_unsigned-to_signed :
    (w : ℕ) → IsU32 w → (to_unsigned (to_signed w) ≡ w) × IsInt32 (to_signed w)
unfolding to_signed to_unsigned
to_unsigned-to_signed w h = ground arith

pub read_rectangle-write_rectangle :
    (q : Rect) (rest : Bytes) (error : ProtocolError)
    → IsRect q
    → read_rectangle (reader (write_rectangle q ++ rest) error) ≡ (some q, reader rest error)
unfolding read_rectangle write_rectangle
read_rectangle-write_rectangle q rest error (hx, hy, hw, hh) =
    let four = inr (inr (inl refl)) in
    let (ex, bx) = to_signed-to_unsigned q.x hx in
    let (ey, by) = to_signed-to_unsigned q.y hy in
    let (ew, bw) = to_signed-to_unsigned q.width hw in
    let (eh, bh) = to_signed-to_unsigned q.height hh in
    rw
      (
        append_assoc,
        append_assoc,
        append_assoc,
        read_integer-integer 4 _ _ error four bx,
        read_integer-integer 4 _ _ error four by,
        read_integer-integer 4 _ _ error four bw,
        read_integer-integer 4 _ _ error four bh,
        ex,
        ey,
        ew,
        eh,
      )
      refl

abbrev pub ReadRectangle : Reader → Option Rect × Reader → Type 0
ReadRectangle r (none, r') = All IsByte r'.bytes
ReadRectangle r (some q, r') = Took r r' (write_rectangle q) × IsRect q

rectangle_of :
    (a b c d : Option ℕ) (r r1 r2 r3 r4 : Reader)
    → ReadInteger 4 r (a, r1)
    → ReadInteger 4 r1 (b, r2)
    → ReadInteger 4 r2 (c, r3)
    → ReadInteger 4 r3 (d, r4)
    → All IsByte r4.bytes
    → ReadRectangle r (
      do
        x ← a
        y ← b
        width ← c
        height ← d
        some (record {
          x = to_signed x;
          y = to_signed y;
          width = to_signed width;
          height = to_signed height;
        }),
      r4,
    )
unfolding write_rectangle
rectangle_of (some x) (some y) (some w) (some h) r r1 r2 r3 r4 (tx, bx) (ty, by) (tw, bw) (th, bh)
      _ =
    let (ex, ix) = to_unsigned-to_signed x bx in
    let (ey, iy) = to_unsigned-to_signed y by in
    let (ew, iw) = to_unsigned-to_signed w bw in
    let (eh, ih) = to_unsigned-to_signed h bh in
    (
      rw (ex, ey, ew, eh) (Took-trans _ _ tx (Took-trans _ _ ty (Took-trans _ _ tw th))),
      (ix, iy, iw, ih),
    )
rectangle_of none _ _ _ r r1 r2 r3 r4 _ _ _ _ h = h
rectangle_of (some x) none _ _ r r1 r2 r3 r4 _ _ _ _ h = h
rectangle_of (some x) (some y) none _ r r1 r2 r3 r4 _ _ _ _ h = h
rectangle_of (some x) (some y) (some z) none r r1 r2 r3 r4 _ _ _ _ h = h

-- After a read of any outcome there are still bytes.
pub integer_rest :
    (size : ℕ) (r : Reader) (p : Option ℕ × Reader)
    → All IsByte r.bytes
    → ReadInteger size r p
    → All IsByte p.1.bytes
integer_rest size r (none, r') h e = subst (λ s. All IsByte s.bytes) (sym e) h
integer_rest size r (some v, r') h e = e.0.rest_bytes

pub transaction_rest :
    (r : Reader) (p : Option TransactionId × Reader)
    → All IsByte r.bytes
    → ReadTransaction r p
    → All IsByte p.1.bytes
transaction_rest r (none, r') h e = subst (λ s. All IsByte s.bytes) (sym e) h
transaction_rest r (some v, r') h e = e.0.rest_bytes

pub read_rectangle_lem : (r : Reader) → All IsByte r.bytes → ReadRectangle r (read_rectangle r)
unfolding read_rectangle
read_rectangle_lem r h =
    let four = inr (inr (inl refl)) in
    let p = read_integer 4 r in
    let f = read_integer_lem 4 r four h in
    let h1 = integer_rest 4 r p h f in
    let q = read_integer 4 p.1 in
    let g = read_integer_lem 4 p.1 four h1 in
    let h2 = integer_rest 4 p.1 q h1 g in
    let s = read_integer 4 q.1 in
    let k = read_integer_lem 4 q.1 four h2 in
    let h3 = integer_rest 4 q.1 s h2 k in
    let t = read_integer 4 s.1 in
    let m = read_integer_lem 4 s.1 four h3 in
    rectangle_of p.0 q.0 s.0 t.0 r p.1 q.1 s.1 t.1 f g k m (integer_rest 4 s.1 t h3 m)

pub rectangle_rest :
    (r : Reader) (p : Option Rect × Reader) → ReadRectangle r p → All IsByte p.1.bytes
rectangle_rest r (none, r') e = e
rectangle_rest r (some v, r') e = e.0.rest_bytes
