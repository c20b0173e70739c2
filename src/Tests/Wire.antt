-- ===== src/Tests/Wire.antt =====
-- The theorems on frames and on the session at concrete messages.
use fcitx5_emoji_palette.Prelude.{ℕ, true, bit_and, some, List, [], ◌∷◌, Bytes, ◌≡◌, refl}
use fcitx5_emoji_palette.Protocol.{
  TransactionId, Hello, Welcome, hello, selected, Envelope, IsTyped, no_error,
}
use fcitx5_emoji_palette.Codes.{message_type, valid_transaction, is_empty}
use fcitx5_emoji_palette.Writer.{integer, write_payload, write_text}
use fcitx5_emoji_palette.Reader.Forward.{IsSendable}
use fcitx5_emoji_palette.Frame.{frame_of, serialize, parse, negotiate}
use fcitx5_emoji_palette.Frame.RoundTrip.{parse-serialize, serialize-parse, parsed}
use fcitx5_emoji_palette.Session.{
  initial_session, begin, accept_welcome, accepts, SequenceValidator, accept,
  next_delay_milliseconds, reset_attempt,
}
use fcitx5_emoji_palette.Session.Handshake.{
  Event, begun, welcomed, step, run, Established, accepts-Established,
}
use fcitx5_emoji_palette.Session.Opening.{negotiate-accept_welcome}
use fcitx5_emoji_palette.Session.Order.{accepted, IsIncreasing, accepted-IsIncreasing}
use fcitx5_emoji_palette.Tests.{bytes_of, euro, id}
use fcitx5_emoji_palette.Tests.Strings.{euro_valid}

abbrev choice : Envelope
choice = record { version = 1; payload = selected (record { transaction = id; sequence = euro }) }

-- The frame of `choice`: the header, the transaction, the size of the text, the text.
abbrev choice_frame : Bytes
choice_frame =
    0x45 ∷ 0x50 ∷ 0x41 ∷ 0x4C ∷ 0 ∷ 1 ∷ 6 ∷ 0 ∷ 0 ∷ 0 ∷ 0 ∷ 21 ∷ 1 ∷ 2 ∷ 3 ∷ 4 ∷ 5 ∷ 6 ∷ 7 ∷ 8 ∷ 9
    ∷ 10 ∷ 11 ∷ 12 ∷ 13 ∷ 14 ∷ 15 ∷ 16 ∷ 0 ∷ 3 ∷ 0xE2 ∷ 0x82 ∷ 0xAC ∷ []

choice-IsTyped : IsTyped choice.payload
choice-IsTyped = ((refl, bytes_of id refl), bytes_of euro refl)

choice_serialized : serialize choice ≡ some choice_frame
unfolding serialize frame_of integer message_type write_payload write_text valid_transaction
    is_empty
choice_serialized = rw euro_valid refl

parse-serialize_example : parse choice_frame ≡ parsed choice
parse-serialize_example = parse-serialize choice choice-IsTyped tt choice_serialized

choice-parsed : parse choice_frame ≡ parsed choice
choice-parsed = parse-serialize choice choice-IsTyped tt choice_serialized

serialize-parse_example :
    (serialize choice ≡ some choice_frame)
    × IsTyped choice.payload
    × IsSendable choice.payload
    × (no_error ≡ no_error)
serialize-parse_example = serialize-parse choice_frame (bytes_of choice_frame refl) choice-parsed

-- The bus name of the helper.
abbrev helper : Bytes
helper = 0x3A ∷ 0x31 ∷ []

abbrev answer : Welcome
answer = record { selected_version = 1; nonce = 42; capabilities = 5 }

abbrev history : List Event
history = welcomed helper answer ∷ begun helper 42 7 ∷ []

helper_accepted : accepts helper (run history) ≡ true
unfolding accepts run step begin accept_welcome
helper_accepted = refl

accepts-Established_example : Established helper history × ((run history).version ≡ some 1)
accepts-Established_example = accepts-Established history helper helper_accepted

negotiate-accept_welcome_example :
    (h : Hello) × (w : Welcome) × ((begin helper 42 7 initial_session).0.payload ≡ hello h)
    × (negotiate h 5 ≡ some w)
    × (w.capabilities ≡ bit_and 7 5)
    × ((accept_welcome helper w (begin helper 42 7 initial_session).1).0 ≡ true)
    × (accepts helper (accept_welcome helper w (begin helper 42 7 initial_session).1).1 ≡ true)
negotiate-accept_welcome_example = negotiate-accept_welcome helper 42 7 5 initial_session

abbrev validator : SequenceValidator
validator = record { transaction = some id; last_sequence = 2 }

-- Commands out of order and repeated.
abbrev commands : List (TransactionId × ℕ)
commands = (id, 3) ∷ (id, 3) ∷ (id, 2) ∷ (id, 9) ∷ []

accepted-commands : accepted commands validator ≡ 3 ∷ 9 ∷ []
unfolding accept
accepted-commands = refl

accepted-IsIncreasing_example : IsIncreasing 2 (accepted commands validator)
accepted-IsIncreasing_example = accepted-IsIncreasing commands validator

after_reset : (next_delay_milliseconds (reset_attempt 9)).0 ≡ 100
unfolding next_delay_milliseconds reset_attempt
after_reset = refl
