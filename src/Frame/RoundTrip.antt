-- ===== src/Frame/RoundTrip.antt =====
-- src/ipc/protocol.cpp: `serialize` and `parse` together.
use fcitx5_emoji_palette.Prelude.{
  ℕ, ◌-◌, ◌≤◌, Option, none, some, [], Bytes, IsByte, All, length, ◌≡◌, refl, sym, ap, ◌∙◌, arith,
  inl, inr, Option-cases, append-nil, subst,
}
use fcitx5_emoji_palette.Codes.{message_type}
use fcitx5_emoji_palette.Writer.{header_size, write_payload}
use fcitx5_emoji_palette.Reader.{Reader, read_payload}
use fcitx5_emoji_palette.Reader.Integers.{reader}
use fcitx5_emoji_palette.Reader.Forward.{IsSendable, read_payload-write_payload}
use fcitx5_emoji_palette.Reader.Backward.{ReadPayload}
use fcitx5_emoji_palette.Reader.Sound.{read_payload_lem}
use fcitx5_emoji_palette.Frame.{frame_of, parse_end, serialize, parse}
use fcitx5_emoji_palette.Frame.Header.{parse-HasHeader, parse-frame_of}
use fcitx5_emoji_palette.Protocol.{
  maximum_frame_size, Payload, welcome, Envelope, ParseResult, ProtocolError, no_error,
  malformed_payload, IsTyped,
}

message_type_bounds : (p : Payload) → (1 ≤ message_type p) × (message_type p ≤ 9)
unfolding message_type
message_type_bounds (welcome m) = (omega arith, omega arith)
message_type_bounds _ = (omega arith, omega arith)

-- What `serialize` has tested, and what it returns.
serialize_parts :
    (e : Envelope) {f : Bytes}
    → serialize e ≡ some f
    → (w : Bytes) × (e.version ≡ 1)
      × (write_payload e.payload ≡ some w)
      × (length w ≤ maximum_frame_size - header_size)
      × (f ≡ frame_of e.version (message_type e.payload) w)
unfolding serialize
serialize_parts e {f} s = elim (Option-cases (write_payload e.payload)) [
  | inl n ↦ absurd (ground (arith, s, n))
  | inr (w, ew) ↦ (w, ground (arith, s), ew, ground (arith, s, ew), ground (arith, s, ew))
]

pub serialize_intro :
    (e : Envelope) (w : Bytes)
    → e.version ≡ 1
    → write_payload e.payload ≡ some w
    → length w ≤ maximum_frame_size - header_size
    → serialize e ≡ some (frame_of e.version (message_type e.payload) w)
unfolding serialize
serialize_intro e w v h l = ground (arith, v, h, l)

abbrev pub parsed : Envelope → ParseResult
parsed e = record { envelope = some e; error = no_error }

parse_end-some :
    (version : ℕ) (p : Payload) (error : ProtocolError)
    → parse_end version (some p, reader [] error)
      ≡ parsed (record { version = version; payload = p })
unfolding parse_end
parse_end-some version p error = refl

-- Every envelope that the sender serializes is parsed back to itself, provided that its fields are
-- values of their C++ types and that a version range or a selected version in it is not refused by
-- the reader.
pub parse-serialize :
    (e : Envelope) {f : Bytes}
    → IsTyped e.payload
    → IsSendable e.payload
    → serialize e ≡ some f
    → parse f ≡ parsed e
parse-serialize e {f} t s h =
    let (w, ev, ew, fits, ef) = serialize_parts e h in
    let (lo, hi) = message_type_bounds e.payload in
    let q = read_payload-write_payload e.payload [] malformed_payload t s ew in
    let back : read_payload (message_type e.payload) (reader w malformed_payload)
        ≡ (some e.payload, reader [] malformed_payload) =
      rw append-nil at q in
    rw (ef, ev)
      (parse-frame_of (message_type e.payload) w lo hi fits
        ∙ ap (parse_end 1) back
        ∙ parse_end-some 1 e.payload malformed_payload
        ∙ rw (← ev) refl)

-- An accepted payload, and that nothing is left of it.
parse_end_inv :
    (version : ℕ) (o : Option Payload) (r : Reader) {e : Envelope} {x : ProtocolError}
    → parse_end version (o, r) ≡ record { envelope = some e; error = x }
    → (o ≡ some e.payload) × (r.bytes ≡ []) × (e.version ≡ version) × (x ≡ no_error)
unfolding parse_end
parse_end_inv version none r h = absurd (ground (arith, h))
parse_end_inv version (some p) r h =
    (ground (arith, h), ground (arith, h), ground (arith, h), ground (arith, h))

-- A frame has at most one reading and an envelope at most one frame: whatever `parse` accepts is what
-- `serialize` writes for the result, which is well typed.
pub serialize-parse :
    (f : Bytes) {e : Envelope} {x : ProtocolError}
    → All IsByte f
    → parse f ≡ record { envelope = some e; error = x }
    → (serialize e ≡ some f) × IsTyped e.payload × IsSendable e.payload × (x ≡ no_error)
serialize-parse f {e} {x} h p =
    let k = parse-HasHeader f h p in
    let r = reader k.payload malformed_payload in
    let out = read_payload k.type r in
    let (eo, er, ev, ex) = parse_end_inv 1 out.0 out.1 k.ends in
    let sound : ReadPayload k.type r (some e.payload, out.1) =
      subst (λ o. ReadPayload k.type r (o, out.1)) eo (read_payload_lem k.type r k.all_bytes) in
    let whole : k.payload ≡ sound.bytes = sound.took.split ∙ rw er (append-nil sound.bytes) in
    let w : write_payload e.payload ≡ some k.payload = sound.written ∙ ap some (sym whole) in
    (
      serialize_intro e k.payload ev w k.fits ∙ ap some (rw (ev, sound.type_is) (sym k.frame_is)),
      sound.typed,
      sound.sendable,
      ex,
    )
