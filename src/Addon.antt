-- ===== src/Addon.antt =====
-- src/addon/emoji_palette_addon.cpp: the addon's transaction and the calls that it makes. `Environment`
-- is what the input method framework, the bus, the process environment and the random device answer in
-- the course of one event; `sent` are the frames passed to the helper so far, the latest first.
pub mod Random
pub mod Events
pub mod Closure
pub mod Commits
pub mod Origin
pub mod Silent
use fcitx5_emoji_palette.Prelude.{
  ℕ, ◌+◌, ◌%◌, ◌^◌, Bool, true, false, not, ◌&&◌, bit_or, Option, none, some, List, [], ◌∷◌, Bytes,
  ◌==◌, if◌then◌else◌,
}
use fcitx5_emoji_palette.Prelude.Int.{ℤ, pos, pos_part, ltb_ℤ}
use fcitx5_emoji_palette.Codes.{is_empty}
use fcitx5_emoji_palette.Protocol.{
  protocol_version, pointer_selection, localized_search, TransactionId, Locale, english, german,
  russian, Rect, CommandKind, CancelReason, Hello, Show, Command, Payload, hello, show, command,
  hide, Envelope,
}
use fcitx5_emoji_palette.Frame.{serialize}
use fcitx5_emoji_palette.Catalog.{starts_with}
use fcitx5_emoji_palette.Session.{PeerSession, initial_session, is_ready, next_u32}
use fcitx5_emoji_palette.Selection.{
  Target, Context, SelectionController, begin_selection, cancel_selection,
}

pub record Environment : Type 0 where
  pub contexts : Context
  -- `message.send()`.
  pub sends : Bytes → Bool
  -- What `createTransaction` and `createNonce` return.
  pub new_transaction : TransactionId
  pub new_nonce : ℕ
  pub cursor : Target → Rect
  -- `static_cast<int>(context.scaleFactor() * 100.0)`.
  pub scale : Target → ℤ
  pub lc_all : Option Bytes
  pub lc_messages : Option Bytes
  pub lang : Option Bytes

-- The captures of the callback that waits for a `Welcome`.
pub record PendingCall : Type 0 where
  pub context : Target
  pub transaction : TransactionId
  pub nonce : ℕ

pub record Addon : Type 0 where
  pub controller : SelectionController
  pub session : PeerSession
  pub origin : Option Target
  pub command_sequence : ℕ
  pub search : Bytes
  pub close_after_selection : Bool
  -- `config_.closeAfterSelection`.
  pub close_setting : Bool
  pub pending_call : Option PendingCall
  pub sent : List Bytes

abbrev pub new_addon : Addon
new_addon = record {
  controller = record {
    transaction = none;
    target = none;
    last_cancel_reason = none;
    commits = [];
  };
  session = initial_session;
  origin = none;
  command_sequence = 0;
  search = [];
  close_after_selection = true;
  close_setting = true;
  pending_call = none;
  sent = [];
}

-- `value == nullptr || *value == '\0'`.
unfoldable pub or_else : Option Bytes → Option Bytes → Option Bytes
or_else none other = other
or_else (some []) other = other
or_else (some (c ∷ value)) other = some (c ∷ value)

unfoldable pub locale_named : Option Bytes → Locale
locale_named none = english
locale_named (some locale) =
    if starts_with locale (b'd' ∷ b'e' ∷ [])
    then german
    else if starts_with locale (b'r' ∷ b'u' ∷ [])
    then russian
    else english

unfoldable pub current_locale : Environment → Locale
unfolding or_else locale_named
current_locale env = locale_named (or_else (or_else env.lc_all env.lc_messages) env.lang)

abbrev pub addon_capabilities : ℕ
addon_capabilities = bit_or pointer_selection localized_search

abbrev pub envelope_of : Payload → Envelope
envelope_of payload = record { version = protocol_version; payload = payload }

-- `std::clamp(..., 50, 400)`.
unfoldable pub clamp_scale : ℤ → ℕ
clamp_scale v = if ltb_ℤ v (pos 50) then 50 else if ltb_ℤ (pos 400) v then 400 else pos_part v

unfoldable pub show_message : Environment → Target → TransactionId → Bool → Payload
unfolding current_locale clamp_scale
show_message env context transaction close = show (record {
  transaction = transaction;
  caret = env.cursor context;
  screen = record { x = pos 0; y = pos 0; width = pos 0; height = pos 0 };
  locale = current_locale env;
  scale_percent = clamp_scale (env.scale context);
  close_after_selection = close;
})

-- `cancel` without its message.
unfoldable pub drop_transaction : CancelReason → Addon → Addon
unfolding cancel_selection
drop_transaction reason s = record s {
  controller = cancel_selection reason s.controller;
  origin = none;
  search = [];
  command_sequence = 0;
}

-- `sendEnvelope` behind `serialize`.
unfoldable pub send_frame : Environment → Option Bytes → Addon → Addon
unfolding drop_transaction
send_frame env none s = drop_transaction CancelReason.protocol_error s
send_frame env (some frame) s =
    if env.sends frame
    then record s { sent = frame ∷ s.sent }
    else drop_transaction CancelReason.helper_disconnected s

unfoldable pub send_envelope : Environment → Payload → Addon → Addon
unfolding send_frame
send_envelope env payload s = send_frame env (serialize (envelope_of payload)) s

-- The end of `cancel`, for the transaction that there was.
unfoldable pub send_hide : Environment → Bool → Option TransactionId → CancelReason → Addon → Addon
unfolding send_envelope
send_hide env true (some transaction) reason s =
    send_envelope env (hide (record { transaction = transaction; reason = reason })) s
send_hide env true none reason s = s
send_hide env false _ reason s = s

unfoldable pub cancel : Environment → CancelReason → Bool → Addon → Addon
unfolding drop_transaction send_hide
cancel env reason notify_helper s =
    send_hide env (notify_helper && is_ready s.session.state) s.controller.transaction reason
      (drop_transaction reason s)

unfoldable pub send_show : Environment → Target → TransactionId → Addon → Addon
unfolding send_envelope show_message
send_show env context transaction s =
    send_envelope env (show_message env context transaction s.close_after_selection) s

unfoldable pub send_command_for :
    Environment → Option TransactionId → CommandKind → Bytes → Addon → Addon
unfolding send_envelope
send_command_for env none kind text s = s
send_command_for env (some transaction) kind text s =
    send_envelope env
      (command (record {
        transaction = transaction;
        sequence = next_u32 s.command_sequence;
        kind = kind;
        text = text;
      }))
      (record s { command_sequence = next_u32 s.command_sequence })

unfoldable pub send_command : Environment → CommandKind → Bytes → Addon → Addon
unfolding send_command_for
send_command env kind text s = send_command_for env s.controller.transaction kind text s

-- `callExchange` behind `serialize`.
unfoldable pub start_call : Option Bytes → PendingCall → Addon → Addon
unfolding drop_transaction
start_call none call s = drop_transaction CancelReason.protocol_error s
start_call (some frame) call s = record s { pending_call = some call; sent = frame ∷ s.sent }

unfoldable pub negotiate_version : Environment → Target → TransactionId → Addon → Addon
unfolding start_call
negotiate_version env context transaction s =
    start_call
      (serialize (
        envelope_of (
          hello (record {
            minimum_version = protocol_version;
            maximum_version = protocol_version;
            nonce = env.new_nonce;
            capabilities = addon_capabilities;
          }))))
      (record { context = context; transaction = transaction; nonce = env.new_nonce }) s

-- `begin` of the controller, with a new commit target for the context.
unfoldable pub begin_transaction : Environment → Target → Addon → Addon
unfolding begin_selection
begin_transaction env context s = record s {
  controller = begin_selection env.new_transaction context s.controller;
  command_sequence = 0;
}

-- `show` behind its call of `cancel`.
unfoldable pub open_palette : Environment → Target → Addon → Addon
unfolding begin_transaction send_show negotiate_version
open_palette env context s =
    let t = record (begin_transaction env context s) {
      origin = some context;
      close_after_selection = s.close_setting;
      search = [];
    } in
    if is_ready t.session.state
    then send_show env context env.new_transaction t
    else negotiate_version env context env.new_transaction t

unfoldable pub show_palette : Environment → Target → Addon → Addon
unfolding cancel open_palette
show_palette env context s = open_palette env context (cancel env CancelReason.user true s)
