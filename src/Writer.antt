-- ===== src/Writer.antt =====
-- src/ipc/protocol.cpp: writing a frame.
use fcitx5_emoji_palette.Prelude.{
  ℕ, zero, suc, ◌-◌, ◌*◌, ◌/◌, ◌%◌, ◌^◌, not, ◌&&◌, ◌||◌, Option, none, some, [], ◌∷◌, ◌++◌, Bytes,
  length, ltb, if◌then◌else◌,
}
use fcitx5_emoji_palette.Prelude.Int.{ℤ, pos, negsuc}
use fcitx5_emoji_palette.Utf8.{is_valid_utf8}
use fcitx5_emoji_palette.Codes.{
  valid_rectangle, valid_transaction, command_value, reason_value, locale_value, is_search_text,
  is_empty, bool_value,
}
use fcitx5_emoji_palette.Protocol.{
  maximum_search_size, maximum_selection_size, Rect, Ending, Payload, hello, welcome, show, command,
  hide, selected, cancelled, ping, pong,
}

abbrev pub magic : Bytes
magic = b'E' ∷ b'P' ∷ b'A' ∷ b'L' ∷ []

abbrev pub header_size : ℕ
header_size = 12

-- `Writer::integer` for an unsigned type of `size` bytes: the byte at each offset, the highest first.
unfoldable pub integer : ℕ → ℕ → Bytes
integer zero value = []
integer (suc offset) value = (value / 2 ^ (offset * 8)) % 256 ∷ integer offset value

-- The cast of an `std::int32_t` to its unsigned type, and back.
unfoldable pub to_unsigned : ℤ → ℕ
to_unsigned (pos n) = n % 2 ^ 32
to_unsigned (negsuc n) = 2 ^ 32 - 1 - n % 2 ^ 32

unfoldable pub to_signed : ℕ → ℤ
to_signed w = if ltb w (2 ^ 31) then pos w else negsuc (2 ^ 32 - 1 - w)

unfoldable pub write_rectangle : Rect → Bytes
write_rectangle r =
    integer 4 (to_unsigned r.x)
    ++ (integer 4 (to_unsigned r.y)
        ++ (integer 4 (to_unsigned r.width) ++ integer 4 (to_unsigned r.height)))

-- `Writer::text`; `none` is the result `false`.
unfoldable pub write_text : Bytes → ℕ → Option Bytes
write_text value maximum =
    if ltb maximum (length value) || ltb (2 ^ 16 - 1) (length value) || not (is_valid_utf8 value)
    then none
    else some (integer 2 (length value) ++ value)

-- The branch of `writePayload` for `Hide` and `Cancelled`.
unfoldable pub write_ending : Ending → Option Bytes
write_ending m =
    if not (valid_transaction m.transaction)
    then none
    else some (m.transaction ++ integer 1 (reason_value m.reason))

unfoldable pub write_payload : Payload → Option Bytes
write_payload (hello m) = some (
    integer 2 m.minimum_version
    ++ (integer 2 m.maximum_version ++ (integer 8 m.nonce ++ integer 4 m.capabilities)))
write_payload (welcome m) =
    some (integer 2 m.selected_version ++ (integer 8 m.nonce ++ integer 4 m.capabilities))
write_payload (show m) =
    if not (valid_transaction m.transaction)
      || not (valid_rectangle m.caret)
      || not (valid_rectangle m.screen)
      || ltb m.scale_percent 50
      || ltb 400 m.scale_percent
    then none
    else some (
        m.transaction
        ++ (write_rectangle m.caret
            ++ (write_rectangle m.screen
                ++ (integer 1 (locale_value m.locale)
                    ++ (integer 2 m.scale_percent
                        ++ integer 1 (bool_value m.close_after_selection))))))
write_payload (command m) =
    if not (valid_transaction m.transaction)
      || (not (is_search_text m.kind) && not (is_empty m.text))
    then none
    else elim (write_text m.text maximum_search_size) [
      | none ↦ none
      | some text ↦
          some
            (m.transaction ++ (integer 4 m.sequence ++ (integer 1 (command_value m.kind) ++ text)))
    ]
write_payload (selected m) =
    if not (valid_transaction m.transaction) || is_empty m.sequence
    then none
    else elim (write_text m.sequence maximum_selection_size) [
      | none ↦ none
      | some text ↦ some (m.transaction ++ text)
    ]
write_payload (hide m) = write_ending m
write_payload (cancelled m) = write_ending m
write_payload (ping nonce) = some (integer 8 nonce)
write_payload (pong nonce) = some (integer 8 nonce)
