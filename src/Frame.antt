-- ===== src/Frame.antt =====
-- src/ipc/protocol.cpp: `serialize`, `parse` and `negotiate`, over the payloads of Writer and Reader.
pub mod Header
pub mod RoundTrip
use fcitx5_emoji_palette.Prelude.{
  ℕ, ◌-◌, Bool, true, false, not, ◌||◌, Option, none, some, ◌++◌, Bytes, length, take, drop, equal,
  ltb, ◌==◌, if◌then◌else◌, bit_and,
}
use fcitx5_emoji_palette.Codes.{message_type}
use fcitx5_emoji_palette.Writer.{magic, header_size, integer, write_payload}
use fcitx5_emoji_palette.Reader.{Reader, read_integer, read_payload}
use fcitx5_emoji_palette.Protocol.{
  protocol_version, maximum_frame_size, Hello, Welcome, Payload, Envelope, ProtocolError,
  ParseResult, no_error, frame_too_small, frame_too_large, invalid_magic, unsupported_version,
  unknown_message_type, invalid_reserved_bits, size_mismatch, malformed_payload,
}

-- The header and the payload behind it.
unfoldable pub frame_of : ℕ → ℕ → Bytes → Bytes
frame_of version type payload =
    magic
    ++ (integer 2 version
        ++ (integer 1 type ++ (integer 1 0 ++ (integer 4 (length payload) ++ payload))))

unfoldable pub serialize : Envelope → Option Bytes
unfolding frame_of
serialize e = if not (e.version == protocol_version) then none else elim (write_payload e.payload) [
  | none ↦ none
  | some payload ↦
      if ltb (maximum_frame_size - header_size) (length payload)
      then none
      else some (frame_of e.version (message_type e.payload) payload)
]

abbrev pub failed : ProtocolError → ParseResult
failed e = record { envelope = none; error = e }

-- The end of `parse`: the payload that was read, and the reader behind it.
unfoldable pub parse_end : ℕ → Option Payload × Reader → ParseResult
parse_end version (none, r) = failed r.error
parse_end version (some value, r) = if not (length r.bytes == 0) then failed r.error else record {
  envelope = some (record { version = version; payload = value });
  error = no_error;
}

unfoldable pub parse_header : Option ℕ → Option ℕ → Option ℕ → Option ℕ → Bytes → ParseResult
unfolding parse_end
parse_header version type reserved size frame = elim version [
  | none ↦ failed unsupported_version
  | some version ↦
      if not (version == protocol_version) then failed unsupported_version else elim type [
        | none ↦ failed unknown_message_type
        | some type ↦
            if ltb type 1 || ltb 9 type then failed unknown_message_type else elim reserved [
              | none ↦ failed invalid_reserved_bits
              | some reserved ↦
                  if not (reserved == 0) then failed invalid_reserved_bits else elim size [
                    | none ↦ failed size_mismatch
                    | some size ↦
                        if not (size == length frame - header_size)
                        then failed size_mismatch
                        else parse_end version (
                            read_payload type (record {
                              bytes = drop header_size frame;
                              error = malformed_payload;
                            }))
                  ]
            ]
      ]
]

unfoldable pub parse : Bytes → ParseResult
unfolding parse_header
parse frame =
    if ltb (length frame) header_size
    then failed frame_too_small
    else if ltb maximum_frame_size (length frame)
    then failed frame_too_large
    else if not (equal magic (take 4 frame))
    then failed invalid_magic
    else let (version, r) = read_integer 2 (record { bytes = drop 4 frame; error = no_error }) in
      let (type, r) = read_integer 1 r in
      let (reserved, r) = read_integer 1 r in
      let (size, r) = read_integer 4 r in parse_header version type reserved size frame

-- `negotiate`: the version that both sides support, and the capabilities that both sides have.
unfoldable pub negotiate : Hello → ℕ → Option Welcome
negotiate hello supported =
    if ltb protocol_version hello.minimum_version || ltb hello.maximum_version protocol_version
    then none
    else some (record {
      selected_version = protocol_version;
      nonce = hello.nonce;
      capabilities = bit_and hello.capabilities supported;
    })
