-- ===== src/Reader.antt =====
-- src/ipc/protocol.cpp: reading the payload of a frame. A reader is the suffix of the frame that it has not read, and
-- `error` is the variable that `readPayload` gets by reference.
pub mod Integers
pub mod Fields
pub mod Forward
pub mod Backward
pub mod Commands
pub mod Sound
use fcitx5_emoji_palette.Prelude.{
  ℕ, zero, suc, ◌+◌, ◌-◌, ◌*◌, ◌%◌, ◌^◌, bit_or, Bool, true, false, not, ◌&&◌, ◌||◌, Option, none,
  some, List, [], ◌∷◌, Bytes, length, take, drop, equal, ltb, leb, ◌==◌, if◌then◌else◌, ◌>>=◌, ◌>>◌,
  guard,
}
use fcitx5_emoji_palette.Prelude.Int.{ℤ, pos, negsuc}
use fcitx5_emoji_palette.Utf8.{is_valid_utf8}
use fcitx5_emoji_palette.Codes.{
  valid_rectangle, valid_transaction, command_of, reason_of, locale_of, valid_command_kind,
  valid_cancel_reason, valid_locale, is_search_text, is_empty,
}
use fcitx5_emoji_palette.Writer.{magic, header_size, to_signed}
use fcitx5_emoji_palette.Protocol.{
  protocol_version, maximum_frame_size, maximum_search_size, maximum_selection_size, TransactionId,
  Rect, Ending, Payload, hello, welcome, show, command, hide, selected, cancelled, ping, pong,
  Envelope, ProtocolError, ParseResult, no_error, frame_too_small, frame_too_large, invalid_magic,
  unsupported_version, unknown_message_type, invalid_reserved_bits, size_mismatch,
  malformed_payload, invalid_utf8, value_out_of_range,
}

pub record Reader : Type 0 where
  pub bytes : Bytes
  pub error : ProtocolError

abbrev pub Read : Type 0 → Type 0
Read A = Reader → Option A × Reader

-- The loop of `Reader::integer` for an unsigned type of `size` bytes.
unfoldable pub accumulate : ℕ → ℕ → Bytes → ℕ
accumulate size result [] = result
accumulate size result (byte ∷ rest) =
    accumulate size (bit_or (result * 256) byte % 2 ^ (size * 8)) rest

unfoldable pub read_integer : ℕ → Read ℕ
read_integer size r =
    if ltb (length r.bytes) size
    then (none, r)
    else (some (accumulate size 0 (take size r.bytes)), record r { bytes = drop size r.bytes })

unfoldable pub read_transaction : Read TransactionId
read_transaction r =
    if ltb (length r.bytes) 16
    then (none, r)
    else (some (take 16 r.bytes), record r { bytes = drop 16 r.bytes })

-- The body of `Reader::text` behind its first test.
unfoldable pub read_characters : ℕ → Read Bytes
read_characters size r =
    let result = take size r.bytes in
    let rest = drop size r.bytes in
    if not (is_valid_utf8 result)
    then (none, record { bytes = rest; error = invalid_utf8 })
    else (some result, record r { bytes = rest })

unfoldable pub text_of_size : ℕ → Option ℕ → Read Bytes
unfolding read_characters
text_of_size maximum none r = (none, record r { error = value_out_of_range })
text_of_size maximum (some size) r =
    if ltb maximum size || ltb (length r.bytes) size
    then (none, record r { error = value_out_of_range })
    else read_characters size r

unfoldable pub read_text : ℕ → Read Bytes
unfolding text_of_size
read_text maximum r = let (size, r) = read_integer 2 r in text_of_size maximum size r

unfoldable pub read_rectangle : Read Rect
read_rectangle r =
    let (x, r) = read_integer 4 r in
    let (y, r) = read_integer 4 r in
    let (width, r) = read_integer 4 r in
    let (height, r) = read_integer 4 r in
    (
      do
        x ← x
        y ← y
        width ← width
        height ← height
        some (record {
          x = to_signed x;
          y = to_signed y;
          width = to_signed width;
          height = to_signed height;
        }),
      r,
    )

unfoldable pub read_hello : Read Payload
read_hello r =
    let (minimum, r) = read_integer 2 r in
    let (maximum, r) = read_integer 2 r in
    let (nonce, r) = read_integer 8 r in
    let (capabilities, r) = read_integer 4 r in
    (
      do
        minimum ← minimum
        maximum ← maximum
        nonce ← nonce
        capabilities ← capabilities
        guard (not (minimum == 0 || ltb maximum minimum))
        some (
            hello (record {
              minimum_version = minimum;
              maximum_version = maximum;
              nonce = nonce;
              capabilities = capabilities;
            })),
      r,
    )

unfoldable pub read_welcome : Read Payload
read_welcome r =
    let (chosen, r) = read_integer 2 r in
    let (nonce, r) = read_integer 8 r in
    let (capabilities, r) = read_integer 4 r in
    (
      do
        chosen ← chosen
        nonce ← nonce
        capabilities ← capabilities
        guard (not (chosen == 0))
        some (
            welcome
              (record { selected_version = chosen; nonce = nonce; capabilities = capabilities })),
      r,
    )

-- A failure of `Show` sets the error.
unfoldable pub show_error : Option Payload → Reader → Reader
show_error none r = record r { error = value_out_of_range }
show_error (some _) r = r

unfoldable pub read_show : Read Payload
unfolding show_error
read_show r =
    let (transaction, r) = read_transaction r in
    let (caret, r) = read_rectangle r in
    let (screen, r) = read_rectangle r in
    let (locale, r) = read_integer 1 r in
    let (scale, r) = read_integer 2 r in
    let (close, r) = read_integer 1 r in
    let result : Option Payload = do
      transaction ← transaction
      guard (valid_transaction transaction)
      caret ← caret
      screen ← screen
      locale ← locale
      scale ← scale
      close ← close
      guard (
          valid_rectangle caret
          && valid_rectangle screen
          && valid_locale locale
          && not (ltb scale 50)
          && not (ltb 400 scale)
          && not (ltb 1 close))
      some (
          show (record {
            transaction = transaction;
            caret = caret;
            screen = screen;
            locale = locale_of locale;
            scale_percent = scale;
            close_after_selection = close == 1;
          }))
    in (result, show_error result r)

unfoldable pub read_command : Read Payload
read_command r =
    let (transaction, r) = read_transaction r in
    let (sequence, r) = read_integer 4 r in
    let (kind, r) = read_integer 1 r in
    let (text, r) = read_text maximum_search_size r in
    (
      do
        transaction ← transaction
        guard (valid_transaction transaction)
        sequence ← sequence
        kind ← kind
        text ← text
        guard (valid_command_kind kind)
        guard (not (not (is_search_text (command_of kind)) && not (is_empty text)))
        some (
            command (record {
              transaction = transaction;
              sequence = sequence;
              kind = command_of kind;
              text = text;
            })),
      r,
    )

-- `Hide` and `Cancelled`.
unfoldable pub read_ending : Bool → Read Payload
read_ending is_hide r =
    let (transaction, r) = read_transaction r in
    let (reason, r) = read_integer 1 r in
    (
      do
        transaction ← transaction
        guard (valid_transaction transaction)
        reason ← reason
        guard (valid_cancel_reason reason)
        let ending : Ending = record { transaction = transaction; reason = reason_of reason }
        some (if is_hide then hide ending else cancelled ending),
      r,
    )

unfoldable pub read_selected : Read Payload
read_selected r =
    let (transaction, r) = read_transaction r in
    let (sequence, r) = read_text maximum_selection_size r in
    (
      do
        transaction ← transaction
        guard (valid_transaction transaction)
        sequence ← sequence
        guard (not (is_empty sequence))
        some (selected (record { transaction = transaction; sequence = sequence })),
      r,
    )

unfoldable pub read_nonce : Bool → Read Payload
read_nonce is_ping r =
    let (nonce, r) = read_integer 8 r in
    (do nonce ← nonce; some (if is_ping then ping nonce else pong nonce), r)

unfoldable pub read_payload : ℕ → Read Payload
read_payload type r =
    if type == 1
    then read_hello r
    else if type == 2
    then read_welcome r
    else if type == 3
    then read_show r
    else if type == 4
    then read_command r
    else if type == 5
    then read_ending true r
    else if type == 6
    then read_selected r
    else if type == 7
    then read_ending false r
    else if type == 8
    then read_nonce true r
    else if type == 9
    then read_nonce false r
    else (none, r)
