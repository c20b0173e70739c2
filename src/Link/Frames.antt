-- ===== src/Link/Frames.antt =====
-- src/ipc/protocol.cpp: the frame of a command of the addon, and what the helper makes of it.
use fcitx5_emoji_palette.Prelude.{
  ◌-◌, ◌≤◌, ◌<◌, ◌^◌, true, false, not, ◌&&◌, ◌||◌, some, ◌++◌, Bytes, IsByte, All, length,
  length-append, ◌≡◌, refl, arith,
}
use fcitx5_emoji_palette.Codes.{valid_transaction, is_search_text, is_empty, command_value}
use fcitx5_emoji_palette.Writer.{integer, write_text, write_payload, header_size}
use fcitx5_emoji_palette.Reader.Integers.{length-integer}
use fcitx5_emoji_palette.Protocol.{
  Command, command, maximum_frame_size, maximum_search_size, IsTransactionId,
}
use fcitx5_emoji_palette.Router.SearchText.{IsCarried}
use fcitx5_emoji_palette.Frame.{serialize, parse}
use fcitx5_emoji_palette.Frame.RoundTrip.{serialize_intro, parse-serialize, parsed}
use fcitx5_emoji_palette.Addon.{envelope_of}

-- A command that the router makes: the text is one that the writer takes, and only a search has one.
pub record IsMade (m : Command) : Type 0 where
  pub id : IsTransactionId m.transaction
  pub not_zero : valid_transaction m.transaction ≡ true
  pub word : m.sequence < 2 ^ 32
  pub octets : All IsByte m.text
  pub carried : IsCarried m.text
  pub searching : (is_search_text m.kind || is_empty m.text) ≡ true

write_text-IsCarried :
    (text : Bytes)
    → IsCarried text
    → write_text text maximum_search_size ≡ some (integer 2 (length text) ++ text)
unfolding write_text
write_text-IsCarried text (v, l) = ground (arith, v, l)

write_payload-IsMade :
    (m : Command)
    → IsMade m
    → write_payload (command m)
      ≡ some (
          m.transaction
          ++ (integer 4 m.sequence
              ++ (integer 1 (command_value m.kind) ++ (integer 2 (length m.text) ++ m.text))))
unfolding write_payload
write_payload-IsMade m h =
    let a = h.not_zero in
    let b : (not (is_search_text m.kind) && not (is_empty m.text)) ≡ false =
      ground (arith, h.searching) in
    rw (a, b, write_text-IsCarried m.text h.carried) refl

-- Such a command is always written to a frame, and the frame is parsed as the command.
pub serialize-IsMade :
    (m : Command)
    → IsMade m
    → (f : Bytes) × (serialize (envelope_of (command m)) ≡ some f)
      × (parse f ≡ parsed (envelope_of (command m)))
serialize-IsMade m h =
    let w =
      m.transaction
      ++ (integer 4 m.sequence
          ++ (integer 1 (command_value m.kind) ++ (integer 2 (length m.text) ++ m.text))) in
    let l : length w ≤ maximum_frame_size - header_size = omega (
      arith,
      h.id.0,
      h.carried.1,
      length-append m.transaction (
          integer 4 m.sequence
          ++ (integer 1 (command_value m.kind) ++ (integer 2 (length m.text) ++ m.text))),
      length-append (integer 4 m.sequence)
          (integer 1 (command_value m.kind) ++ (integer 2 (length m.text) ++ m.text)),
      length-append (integer 1 (command_value m.kind)) (integer 2 (length m.text) ++ m.text),
      length-append (integer 2 (length m.text)) m.text,
      length-integer 4 m.sequence,
      length-integer 1 (command_value m.kind),
      length-integer 2 (length m.text),
    ) in
    let e = serialize_intro (envelope_of (command m)) w refl (write_payload-IsMade m h) l in
    (_, e, parse-serialize (envelope_of (command m)) (h.id, h.word, h.octets) tt e)
