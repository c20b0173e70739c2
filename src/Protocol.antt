-- ===== src/Protocol.antt =====
-- include/emoji_palette/ipc/protocol.hpp: the messages between the addon and the helper. An unsigned
-- field is a natural number, a signed one an integer; `IsTyped` says that they fit their C++ types.
use fcitx5_emoji_palette.Prelude.{ℕ, ◌*◌, ◌^◌, ◌<◌, ◌≡◌, Bool, Bytes, IsByte, All, Option, length}
use fcitx5_emoji_palette.Prelude.Int.{ℤ, pos, negsuc}

abbrev pub protocol_version : ℕ
protocol_version = 1

abbrev pub maximum_frame_size : ℕ
maximum_frame_size = 64 * 1024

abbrev pub maximum_search_size : ℕ
maximum_search_size = 256

abbrev pub maximum_selection_size : ℕ
maximum_selection_size = 128

-- The bits of `Capability`.
abbrev pub pointer_selection : ℕ
pointer_selection = 1

abbrev pub layer_shell : ℕ
layer_shell = 2

abbrev pub localized_search : ℕ
localized_search = 4

-- The 16 bytes.
abbrev pub TransactionId : Type 0
TransactionId = Bytes

pub data Locale : Type 0 where
  english german russian : Locale

pub record Rect : Type 0 where
  pub x : ℤ
  pub y : ℤ
  pub width : ℤ
  pub height : ℤ

pub data CommandKind : Type 0 where
  left right up down home end page_up page_down previous_category next_category : CommandKind
  select cancel search_text toggle_favorite show_variants : CommandKind

pub data CancelReason : Type 0 where
  user focus_lost context_reset context_destroyed input_method_changed : CancelReason
  helper_disconnected timeout protocol_error : CancelReason

pub record Hello : Type 0 where
  pub minimum_version : ℕ
  pub maximum_version : ℕ
  pub nonce : ℕ
  pub capabilities : ℕ

pub record Welcome : Type 0 where
  pub selected_version : ℕ
  pub nonce : ℕ
  pub capabilities : ℕ

pub record Show : Type 0 where
  pub transaction : TransactionId
  pub caret : Rect
  pub screen : Rect
  pub locale : Locale
  pub scale_percent : ℕ
  pub close_after_selection : Bool

pub record Command : Type 0 where
  pub transaction : TransactionId
  pub sequence : ℕ
  pub kind : CommandKind
  pub text : Bytes

-- `Hide` and `Cancelled` have the same fields.
pub record Ending : Type 0 where
  pub transaction : TransactionId
  pub reason : CancelReason

pub record Selected : Type 0 where
  pub transaction : TransactionId
  pub sequence : Bytes

pub data Payload : Type 0 where
  hello : Hello → Payload
  welcome : Welcome → Payload
  show : Show → Payload
  command : Command → Payload
  hide : Ending → Payload
  selected : Selected → Payload
  cancelled : Ending → Payload
  ping : ℕ → Payload
  pong : ℕ → Payload

pub record Envelope : Type 0 where
  pub version : ℕ
  pub payload : Payload

pub data ProtocolError : Type 0 where
  no_error frame_too_small frame_too_large invalid_magic unsupported_version : ProtocolError
  unknown_message_type invalid_reserved_bits size_mismatch malformed_payload : ProtocolError
  invalid_utf8 value_out_of_range : ProtocolError

pub record ParseResult : Type 0 where
  pub envelope : Option Envelope
  pub error : ProtocolError

-- The values of the C++ types.
abbrev pub IsU16 : ℕ → Type 0
IsU16 v = v < 2 ^ 16

abbrev pub IsU32 : ℕ → Type 0
IsU32 v = v < 2 ^ 32

abbrev pub IsU64 : ℕ → Type 0
IsU64 v = v < 2 ^ 64

abbrev pub IsInt32 : ℤ → Type 0
IsInt32 (pos n) = n < 2 ^ 31
IsInt32 (negsuc n) = n < 2 ^ 31

abbrev pub IsTransactionId : TransactionId → Type 0
IsTransactionId t = (length t ≡ 16) × All IsByte t

abbrev pub IsRect : Rect → Type 0
IsRect r = IsInt32 r.x × IsInt32 r.y × IsInt32 r.width × IsInt32 r.height

abbrev pub IsTyped : Payload → Type 0
IsTyped (hello m) =
    IsU16 m.minimum_version × IsU16 m.maximum_version × IsU64 m.nonce × IsU32 m.capabilities
IsTyped (welcome m) = IsU16 m.selected_version × IsU64 m.nonce × IsU32 m.capabilities
IsTyped (show m) =
    IsTransactionId m.transaction × IsRect m.caret × IsRect m.screen × IsU16 m.scale_percent
IsTyped (command m) = IsTransactionId m.transaction × IsU32 m.sequence × All IsByte m.text
IsTyped (hide m) = IsTransactionId m.transaction
IsTyped (selected m) = IsTransactionId m.transaction × All IsByte m.sequence
IsTyped (cancelled m) = IsTransactionId m.transaction
IsTyped (ping nonce) = IsU64 nonce
IsTyped (pong nonce) = IsU64 nonce
