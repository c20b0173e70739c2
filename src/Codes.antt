-- ===== src/Codes.antt =====
-- src/ipc/protocol.cpp: the values of the enumerators on the wire, and the validity tests.
pub mod Values
use fcitx5_emoji_palette.Prelude.{
  ℕ, Bool, true, false, not, ◌&&◌, [], ◌∷◌, Bytes, any, leb, ◌==◌, if◌then◌else◌,
}
use fcitx5_emoji_palette.Prelude.Int.{pos, negsuc, leb_ℤ}
use fcitx5_emoji_palette.Protocol.{
  TransactionId, Locale, english, german, russian, Rect, CommandKind, CancelReason, Payload, hello,
  welcome, show, command, hide, selected, cancelled, ping, pong,
}

unfoldable pub valid_rectangle : Rect → Bool
valid_rectangle r =
    leb_ℤ (negsuc 999999) r.x
    && leb_ℤ r.x (pos 1000000)
    && leb_ℤ (negsuc 999999) r.y
    && leb_ℤ r.y (pos 1000000)
    && leb_ℤ (pos 0) r.width
    && leb_ℤ r.width (pos 32768)
    && leb_ℤ (pos 0) r.height
    && leb_ℤ r.height (pos 32768)

unfoldable pub valid_transaction : TransactionId → Bool
valid_transaction value = any (λ byte. not (byte == 0)) value

-- The enumerators' values, and `static_cast` from a value that a test has found in range.
unfoldable pub command_value : CommandKind → ℕ
command_value CommandKind.left = 0
command_value CommandKind.right = 1
command_value CommandKind.up = 2
command_value CommandKind.down = 3
command_value CommandKind.home = 4
command_value CommandKind.end = 5
command_value CommandKind.page_up = 6
command_value CommandKind.page_down = 7
command_value CommandKind.previous_category = 8
command_value CommandKind.next_category = 9
command_value CommandKind.select = 10
command_value CommandKind.cancel = 11
command_value CommandKind.search_text = 12
command_value CommandKind.toggle_favorite = 13
command_value CommandKind.show_variants = 14

unfoldable pub command_of : ℕ → CommandKind
command_of v =
    if v == 0
    then CommandKind.left
    else if v == 1
    then CommandKind.right
    else if v == 2
    then CommandKind.up
    else if v == 3
    then CommandKind.down
    else if v == 4
    then CommandKind.home
    else if v == 5
    then CommandKind.end
    else if v == 6
    then CommandKind.page_up
    else if v == 7
    then CommandKind.page_down
    else if v == 8
    then CommandKind.previous_category
    else if v == 9
    then CommandKind.next_category
    else if v == 10
    then CommandKind.select
    else if v == 11
    then CommandKind.cancel
    else if v == 12
    then CommandKind.search_text
    else if v == 13
    then CommandKind.toggle_favorite
    else CommandKind.show_variants

unfoldable pub reason_value : CancelReason → ℕ
reason_value CancelReason.user = 0
reason_value CancelReason.focus_lost = 1
reason_value CancelReason.context_reset = 2
reason_value CancelReason.context_destroyed = 3
reason_value CancelReason.input_method_changed = 4
reason_value CancelReason.helper_disconnected = 5
reason_value CancelReason.timeout = 6
reason_value CancelReason.protocol_error = 7

unfoldable pub reason_of : ℕ → CancelReason
reason_of v =
    if v == 0
    then CancelReason.user
    else if v == 1
    then CancelReason.focus_lost
    else if v == 2
    then CancelReason.context_reset
    else if v == 3
    then CancelReason.context_destroyed
    else if v == 4
    then CancelReason.input_method_changed
    else if v == 5
    then CancelReason.helper_disconnected
    else if v == 6
    then CancelReason.timeout
    else CancelReason.protocol_error

unfoldable pub locale_value : Locale → ℕ
locale_value english = 0
locale_value german = 1
locale_value russian = 2

unfoldable pub locale_of : ℕ → Locale
locale_of v = if v == 0 then english else if v == 1 then german else russian

unfoldable pub valid_command_kind : ℕ → Bool
valid_command_kind value = leb value (command_value CommandKind.show_variants)

unfoldable pub valid_cancel_reason : ℕ → Bool
valid_cancel_reason value = leb value (reason_value CancelReason.protocol_error)

unfoldable pub valid_locale : ℕ → Bool
valid_locale value = leb value (locale_value russian)

unfoldable pub is_search_text : CommandKind → Bool
is_search_text CommandKind.search_text = true
is_search_text _ = false

unfoldable pub is_empty : Bytes → Bool
is_empty [] = true
is_empty (_ ∷ _) = false

unfoldable pub bool_value : Bool → ℕ
bool_value true = 1
bool_value false = 0

-- `MessageType`.
unfoldable pub message_type : Payload → ℕ
message_type (hello _) = 1
message_type (welcome _) = 2
message_type (show _) = 3
message_type (command _) = 4
message_type (hide _) = 5
message_type (selected _) = 6
message_type (cancelled _) = 7
message_type (ping _) = 8
message_type (pong _) = 9
