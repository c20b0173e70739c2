-- ===== src/Helper.antt =====
-- src/ui/palette_session.cpp: the helper's side of the conversation. A bus name or a text of Qt is its
-- UTF-8 bytes. `effects` are the signals emitted and the calls of the window so far, the latest first;
-- what the window emits in turn are calls of `selection_requested` and `cancellation_requested`. It does
-- so on a click at any time, and while it handles a command: for that the session's window says what it
-- emits for each command.
pub mod Trace
use fcitx5_emoji_palette.Prelude.{
  ℕ, Bool, true, false, not, ◌||◌, bit_or, Option, none, some, List, [], ◌∷◌, Bytes, equal,
  if◌then◌else◌,
}
use fcitx5_emoji_palette.Codes.{is_empty}
use fcitx5_emoji_palette.Protocol.{
  protocol_version, pointer_selection, layer_shell, localized_search, TransactionId, CancelReason,
  Welcome, Show, Command, Payload, hello, welcome, show, command, hide, selected, cancelled, ping,
  pong, Envelope, ParseResult,
}
use fcitx5_emoji_palette.Frame.{serialize, parse, negotiate}
use fcitx5_emoji_palette.Session.{
  SequenceValidator, no_sequence, begin_sequence, accept, reset_sequence, differs,
}

pub data Effect : Type 0 where
  outgoing_frame : Bytes → Effect
  peer_changed : Bytes → Effect
  show_palette : Show → Effect
  handle_command : Command → Effect
  hide_palette : Effect

-- A signal of the window: a sequence is chosen, or the palette is cancelled.
pub data Reaction : Type 0 where
  chooses : Bytes → Reaction
  cancels : CancelReason → Reaction

-- What the window emits while it handles a command, the first signal first.
abbrev pub Reactions : Type 0
Reactions = Command → List Reaction

pub record PaletteSession : Type 0 where
  pub window : Reactions
  pub peer_owner : Bytes
  pub negotiated : Bool
  pub transaction : Option TransactionId
  pub validator : SequenceValidator
  pub effects : List Effect

abbrev pub new_palette : Reactions → PaletteSession
new_palette window = record {
  window = window;
  peer_owner = [];
  negotiated = false;
  transaction = none;
  validator = no_sequence;
  effects = [];
}

abbrev pub envelope_of : Payload → Envelope
envelope_of payload = record { version = protocol_version; payload = payload }

unfoldable pub perform : Effect → PaletteSession → PaletteSession
perform e p = record p { effects = e ∷ p.effects }

-- `if (envelope) emit outgoingFrame(...)`.
unfoldable pub emit_frame : Option Bytes → PaletteSession → PaletteSession
unfolding perform
emit_frame none p = p
emit_frame (some frame) p = perform (outgoing_frame frame) p

-- `response`; the empty array is no answer.
unfoldable pub response : Payload → Bytes
response payload = elim (serialize (envelope_of payload)) [ none ↦ [] | some frame ↦ frame ]

-- The end of `reset`, for the transaction that there was.
unfoldable pub notify_peer :
    Bool → Option TransactionId → CancelReason → PaletteSession → PaletteSession
unfolding emit_frame
notify_peer true (some transaction) reason p =
    emit_frame
      (serialize (envelope_of (cancelled (record { transaction = transaction; reason = reason }))))
      p
notify_peer true none reason p = p
notify_peer false _ reason p = p

unfoldable pub reset : CancelReason → Bool → PaletteSession → PaletteSession
unfolding perform notify_peer
reset reason notify p =
    notify_peer notify p.transaction reason (
      perform hide_palette
        (record p { transaction = none; validator = reset_sequence p.validator }))

-- The slot of `selectionRequested`, for the transaction that there is.
unfoldable pub select_for : Option TransactionId → Bytes → PaletteSession → PaletteSession
unfolding emit_frame
select_for none sequence p = p
select_for (some transaction) sequence p =
    emit_frame
      (serialize
        (envelope_of (selected (record { transaction = transaction; sequence = sequence }))))
      (record p { transaction = none; validator = reset_sequence p.validator })

unfoldable pub selection_requested : Bytes → PaletteSession → PaletteSession
unfolding select_for
selection_requested sequence p = select_for p.transaction sequence p

unfoldable pub cancellation_requested : CancelReason → PaletteSession → PaletteSession
unfolding reset
cancellation_requested reason p = reset reason true p

-- The sender of a `Hello` becomes the peer.
unfoldable pub change_peer : Bytes → PaletteSession → PaletteSession
unfolding reset perform
change_peer sender p =
    if not (equal p.peer_owner sender)
    then perform (peer_changed sender)
        (record (reset CancelReason.helper_disconnected false p) { peer_owner = sender })
    else p

-- The capabilities that the helper offers.
abbrev pub helper_capabilities : ℕ
helper_capabilities = bit_or (bit_or pointer_selection layer_shell) localized_search

unfoldable pub answer_hello : Option Welcome → Bytes → PaletteSession → Bytes × PaletteSession
unfolding change_peer response
answer_hello none sender p = ([], p)
answer_hello (some w) sender p =
    (response (welcome w), record (change_peer sender p) { negotiated = true })

-- The slots run before `handleCommand` returns.
unfoldable pub react : Reaction → PaletteSession → PaletteSession
unfolding selection_requested cancellation_requested
react (chooses sequence) p = selection_requested sequence p
react (cancels reason) p = cancellation_requested reason p

unfoldable pub react_all : List Reaction → PaletteSession → PaletteSession
unfolding react
react_all [] p = p
react_all (r ∷ rs) p = react_all rs (react r p)

-- The rest of the command branch, behind `accept`.
unfoldable pub answer_command :
    Command → Bool × SequenceValidator → PaletteSession → Bytes × PaletteSession
unfolding response perform react_all
answer_command m (false, v) p = ([], record p { validator = v })
answer_command m (true, v) p = (
  response (pong m.sequence),
  react_all (p.window m) (perform (handle_command m) (record p { validator = v })),
)

-- The branches behind the test of the peer.
unfoldable pub answer : Payload → PaletteSession → Bytes × PaletteSession
unfolding response perform answer_command reset
answer (show m) p = (
  response (pong 0),
  perform (show_palette m) (record p {
    transaction = some m.transaction;
    validator = begin_sequence m.transaction p.validator;
  }),
)
answer (command m) p =
    if differs p.transaction m.transaction
    then ([], p)
    else answer_command m (accept m.transaction m.sequence p.validator) p
answer (hide m) p =
    if differs p.transaction m.transaction
    then ([], p)
    else (response (pong 0), reset m.reason false p)
answer (ping nonce) p = (response (pong nonce), p)
answer (pong nonce) p = ([], p)
answer (hello m) p = ([], p)
answer (welcome m) p = ([], p)
answer (selected m) p = ([], p)
answer (cancelled m) p = ([], p)

unfoldable pub answer_peer : Payload → Bytes → PaletteSession → Bytes × PaletteSession
unfolding answer
answer_peer payload sender p =
    if not p.negotiated || not (equal sender p.peer_owner) then ([], p) else answer payload p

unfoldable pub exchange_payload : Payload → Bytes → PaletteSession → Bytes × PaletteSession
unfolding answer_hello answer_peer
exchange_payload (hello m) sender p = answer_hello (negotiate m helper_capabilities) sender p
exchange_payload payload sender p = answer_peer payload sender p

unfoldable pub exchange_envelope : Option Envelope → Bytes → PaletteSession → Bytes × PaletteSession
unfolding exchange_payload
exchange_envelope none sender p = ([], p)
exchange_envelope (some e) sender p = exchange_payload e.payload sender p

unfoldable pub exchange : Bytes → Bytes → PaletteSession → Bytes × PaletteSession
unfolding exchange_envelope
exchange frame sender p =
    if is_empty sender then ([], p) else exchange_envelope (parse frame).envelope sender p

unfoldable pub peer_disconnected : Bytes → PaletteSession → PaletteSession
unfolding reset perform
peer_disconnected owner p =
    if equal owner p.peer_owner
    then perform (peer_changed []) (record (reset CancelReason.helper_disconnected false p) {
      peer_owner = [];
      negotiated = false;
    })
    else p
