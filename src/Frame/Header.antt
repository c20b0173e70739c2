-- ===== src/Frame/Header.antt =====
-- src/ipc/protocol.cpp: the header of a frame, in `serialize` and in `parse`.
use fcitx5_emoji_palette.Prelude.{
  ℕ, ◌+◌, ◌-◌, ◌^◌, ◌≤◌, ◌<◌, Option, none, some, ◌++◌, Bytes, IsByte, All, length, take, drop,
  equal, equal_iff, ltb, ◌≡◌, refl, sym, ap, ◌∙◌, arith, inl, inr, Bool-cases, take-append-drop,
  subst, All-append_right,
}
use fcitx5_emoji_palette.Writer.{magic, header_size, integer}
use fcitx5_emoji_palette.Reader.{Reader, read_integer, read_payload}
use fcitx5_emoji_palette.Reader.Integers.{
  reader, ReadInteger, read_integer-integer, read_integer_lem,
}
use fcitx5_emoji_palette.Reader.Fields.{integer_rest}
use fcitx5_emoji_palette.Reader.Forward.{one, two, four}
use fcitx5_emoji_palette.Frame.{frame_of, parse_end, parse_header, parse}
use fcitx5_emoji_palette.Protocol.{
  maximum_frame_size, Envelope, ProtocolError, no_error, malformed_payload,
}

pub length-frame_of :
    (version type : ℕ) (p : Bytes) → length (frame_of version type p) ≡ 12 + length p
unfolding frame_of integer
length-frame_of version type p = omega arith

frame_of_parts :
    (version type : ℕ) (p : Bytes)
    → (take 4 (frame_of version type p) ≡ magic)
      × (drop 12 (frame_of version type p) ≡ p)
      × (drop 4 (frame_of version type p)
          ≡ integer 2 version ++ (integer 1 type ++ (integer 1 0 ++ (integer 4 (length p) ++ p))))
unfolding frame_of integer
frame_of_parts version type p = (refl, refl, refl)

-- `parse` behind its first tests, with the four fields of the header read.
parse_reads :
    (f : Bytes) (a b c d : Option ℕ) (r1 r2 r3 r4 : Reader)
    → 12 ≤ length f
    → length f ≤ maximum_frame_size
    → take 4 f ≡ magic
    → read_integer 2 (reader (drop 4 f) no_error) ≡ (a, r1)
    → read_integer 1 r1 ≡ (b, r2)
    → read_integer 1 r2 ≡ (c, r3)
    → read_integer 4 r3 ≡ (d, r4)
    → parse f ≡ parse_header a b c d f
unfolding parse
parse_reads f a b c d r1 r2 r3 r4 lo hi m e1 e2 e3 e4 =
    ground (arith, e1, e2, e3, e4, m, equal_iff (take 4 f) magic)

parse_tests :
    (f : Bytes) (e : Envelope) (x : ProtocolError)
    → parse f ≡ record { envelope = some e; error = x }
    → (12 ≤ length f) × (length f ≤ maximum_frame_size) × (take 4 f ≡ magic)
unfolding parse
parse_tests f e x p = elim (Bool-cases (ltb (length f) header_size)) [
  | inl b ↦ absurd (ground (arith, p, b))
  | inr b ↦ elim (Bool-cases (ltb maximum_frame_size (length f))) [
    | inl c ↦ absurd (ground (arith, p, b, c))
    | inr c ↦ elim (Bool-cases (equal (take 4 f) magic)) [
      | inr d ↦ absurd (ground (arith, p, b, c, d))
      | inl d ↦ (ground (arith, b), ground (arith, c), (equal_iff (take 4 f) magic).0 d)
    ]
  ]
]

-- A frame of this version with a known type and an honest length goes to `readPayload`.
pub parse-frame_of :
    (type : ℕ) (p : Bytes)
    → 1 ≤ type
    → type ≤ 9
    → length p ≤ maximum_frame_size - header_size
    → parse (frame_of 1 type p) ≡ parse_end 1 (read_payload type (reader p malformed_payload))
unfolding parse_header
parse-frame_of type p lo hi fits =
    let (taken, left, rest) = frame_of_parts 1 type p in
    let len = length-frame_of 1 type p in
    let t0 : type < 2 ^ 8 = omega arith in
    let l0 : length p < 2 ^ 32 = omega arith in
    let r1 =
      read_integer-integer 2 1 (integer 1 type ++ (integer 1 0 ++ (integer 4 (length p) ++ p)))
        no_error two (omega arith) in
    let r2 =
      read_integer-integer 1 type (integer 1 0 ++ (integer 4 (length p) ++ p)) no_error one t0 in
    let r3 = read_integer-integer 1 0 (integer 4 (length p) ++ p) no_error one (omega arith) in
    let r4 = read_integer-integer 4 (length p) p no_error four l0 in
    let f = frame_of 1 type p in
    let start = rw (← rest) at r1 in
    parse_reads f _ _ _ _ _ _ _ _ (omega (arith, len)) (omega (arith, len, fits)) taken start r2 r3
      r4
    ∙ ground (arith, left, len)

-- The envelope `e` was parsed from a frame with this header.
pub record HasHeader (frame : Bytes) (e : Envelope) (x : ProtocolError) : Type 0 where
  pub type : ℕ
  pub payload : Bytes
  pub frame_is : frame ≡ frame_of 1 type payload
  pub fits : length payload ≤ maximum_frame_size - header_size
  pub all_bytes : All IsByte payload
  pub ends :
      parse_end 1 (read_payload type (reader payload malformed_payload))
      ≡ record { envelope = some e; error = x }

abbrev Header :
    Option ℕ → Option ℕ → Option ℕ → Option ℕ → Bytes → Envelope → ProtocolError → Type 0
Header a b c d frame e x = parse_header a b c d frame ≡ record { envelope = some e; error = x }

-- What the tests of the header say.
Header-tests :
    (v t z n : ℕ) (frame : Bytes) (e : Envelope) (x : ProtocolError)
    → Header (some v) (some t) (some z) (some n) frame e x
    → (v ≡ 1)
      × (z ≡ 0)
      × (n ≡ length frame - 12)
      × (parse_end 1 (read_payload t (reader (drop 12 frame) malformed_payload))
          ≡ record { envelope = some e; error = x })
unfolding parse_header
Header-tests v t z n frame e x h = ground (arith, h)

-- The pieces of a header, put together.
pieces :
    (v t z n : ℕ) (p : Bytes)
    → (length (magic ++ (integer 2 v ++ (integer 1 t ++ (integer 1 z ++ (integer 4 n ++ p)))))
        ≡ 12 + length p)
      × (v ≡ 1
          → z ≡ 0
          → n ≡ length p
          → magic ++ (integer 2 v ++ (integer 1 t ++ (integer 1 z ++ (integer 4 n ++ p))))
            ≡ frame_of 1 t p)
unfolding frame_of
pieces v t z n p = (unfold integer in omega arith, λ ev ez en. rw (ev, ez, en) refl)

Header-of :
    (a b c d : Option ℕ) (frame : Bytes) (r1 r2 r3 r4 : Reader) (e : Envelope) (x : ProtocolError)
    → ReadInteger 2 (reader (drop 4 frame) no_error) (a, r1)
    → ReadInteger 1 r1 (b, r2)
    → ReadInteger 1 r2 (c, r3)
    → ReadInteger 4 r3 (d, r4)
    → take 4 frame ≡ magic
    → length frame ≤ maximum_frame_size
    → Header a b c d frame e x
    → HasHeader frame e x
unfolding parse_header
Header-of (some v) (some t) (some z) (some n) frame r1 r2 r3 r4 e x (t1, _) (t2, _) (t3, _) (t4, _)
      hm hl h =
    let (ev, ez, en, ends) = Header-tests v t z n frame e x h in
    let body =
      t2.split ∙ ap (λ u. integer 1 t ++ u) (t3.split ∙ ap (λ u. integer 1 z ++ u) t4.split) in
    let whole : frame
        ≡ magic ++ (integer 2 v ++ (integer 1 t ++ (integer 1 z ++ (integer 4 n ++ r4.bytes)))) =
      sym (take-append-drop 4 frame)
      ∙ rw hm (ap (λ u. magic ++ u) (t1.split ∙ ap (λ u. integer 2 v ++ u) body)) in
    let size : n ≡ length r4.bytes =
      omega (arith, en, ap length whole, (pieces v t z n r4.bytes).0) in
    let is : frame ≡ frame_of 1 t r4.bytes = whole ∙ (pieces v t z n r4.bytes).1 ev ez size in
    let payload : drop 12 frame ≡ r4.bytes = rw is (frame_of_parts 1 t r4.bytes).1 in
    record {
      type = t;
      payload = r4.bytes;
      frame_is = is;
      fits = omega (arith, hl, length-frame_of 1 t r4.bytes, ap length is);
      all_bytes = t4.rest_bytes;
      ends = rw payload at ends;
    }
Header-of none _ _ _ frame r1 r2 r3 r4 e x _ _ _ _ hm hl h = ground (arith, h)
Header-of (some v) none _ _ frame r1 r2 r3 r4 e x _ _ _ _ hm hl h = ground (arith, h)
Header-of (some v) (some t) none _ frame r1 r2 r3 r4 e x _ _ _ _ hm hl h = ground (arith, h)
Header-of (some v) (some t) (some z) none frame r1 r2 r3 r4 e x _ _ _ _ hm hl h = ground (arith, h)

-- An envelope comes only out of a frame with this header.
pub parse-HasHeader :
    (frame : Bytes) {e : Envelope} {x : ProtocolError}
    → All IsByte frame
    → parse frame ≡ record { envelope = some e; error = x }
    → HasHeader frame e x
parse-HasHeader frame {e} {x} h p =
    let (lo, hi, m) = parse_tests frame e x p in
    let r = reader (drop 4 frame) no_error in
    let hr =
      All-append_right IsByte (take 4 frame) (drop 4 frame)
        (subst (All IsByte) (sym (take-append-drop 4 frame)) h) in
    let a = read_integer 2 r in
    let fa = read_integer_lem 2 r two hr in
    let ha = integer_rest 2 r a hr fa in
    let b = read_integer 1 a.1 in
    let fb = read_integer_lem 1 a.1 one ha in
    let hb = integer_rest 1 a.1 b ha fb in
    let c = read_integer 1 b.1 in
    let fc = read_integer_lem 1 b.1 one hb in
    let hc = integer_rest 1 b.1 c hb fc in
    let d = read_integer 4 c.1 in
    let q = parse_reads frame a.0 b.0 c.0 d.0 a.1 b.1 c.1 d.1 lo hi m refl refl refl refl in
    Header-of a.0 b.0 c.0 d.0 frame a.1 b.1 c.1 d.1 e x fa fb fc (read_integer_lem 4 c.1 four hc) m
      hi (sym q ∙ p)
