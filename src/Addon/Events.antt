-- ===== src/Addon/Events.antt =====
-- src/addon/emoji_palette_addon.cpp: the handlers of keys, of context events, of replies and frames of
-- the helper, and of changes of its owner on the bus.
use fcitx5_emoji_palette.Prelude.{
  Bool, true, false, not, ◌&&◌, ◌||◌, Option, none, some, List, [], ◌∷◌, Bytes, ◌==◌, if◌then◌else◌,
}
use fcitx5_emoji_palette.Codes.{is_empty}
use fcitx5_emoji_palette.Protocol.{
  CommandKind, CancelReason, Welcome, Payload, welcome, selected, cancelled, Selected, Ending,
  Envelope,
}
use fcitx5_emoji_palette.Frame.{parse}
use fcitx5_emoji_palette.Router.{
  KeyEvent, KeyRoute, Action, ignore_key, run_command, update_search, route,
}
use fcitx5_emoji_palette.Catalog.{EmojiCatalog}
use fcitx5_emoji_palette.Session.{begin, accept_welcome, accepts, owner_lost, differs}
use fcitx5_emoji_palette.Selection.{
  Target, SelectionResult, committed, inactive, transaction_mismatch, target_unavailable,
  focus_was_lost, invalid_selection, active, select,
}
use fcitx5_emoji_palette.Addon.{
  Environment, PendingCall, Addon, addon_capabilities, send_command, send_show, begin_transaction,
  cancel, show_palette,
}

-- `context == origin_.get()`: the reference is empty when its context is gone.
unfoldable pub is_origin : Environment → Option Target → Target → Bool
is_origin env none context = false
is_origin env (some origin) context = env.contexts.available origin && origin == context

-- The switch of `handleActiveKey`.
unfoldable pub follow_action : Environment → Action → KeyRoute → Addon → Addon
unfolding send_command
follow_action env ignore_key r s = s
follow_action env run_command r s = send_command env r.command [] s
follow_action env update_search r s =
    send_command env CommandKind.search_text r.search_text (record s { search = r.search_text })

-- A key event: its context, the key, whether it is a release, and whether the trigger shortcut matches.
pub record KeyInput : Type 0 where
  pub context : Target
  pub key : KeyEvent
  pub is_release : Bool
  pub is_trigger : Bool

-- The result says whether the event was filtered.
unfoldable pub handle_active_key : Environment → KeyInput → Addon → Bool × Addon
unfolding is_origin follow_action
handle_active_key env k s =
    if not (active s.controller) || not (is_origin env s.origin k.context)
    then (false, s)
    else let r = route k.key k.is_release s.search in (true, follow_action env r.action r s)

unfoldable pub handle_key : Environment → KeyInput → Addon → Bool × Addon
unfolding handle_active_key show_palette
handle_key env k s =
    if active s.controller
    then handle_active_key env k s
    else if not k.is_release && k.is_trigger
    then (true, show_palette env k.context s)
    else (false, s)

-- `reset` of the constructor, for the four context events.
unfoldable pub context_event : Environment → CancelReason → Target → Addon → Addon
unfolding is_origin cancel
context_event env reason context s =
    if is_origin env s.origin context then cancel env reason true s else s

unfoldable pub owner_changed : Environment → Bytes → Bytes → Addon → Addon
unfolding cancel
owner_changed env old_owner new_owner s =
    let t =
      if not (is_empty old_owner) && accepts old_owner s.session
      then cancel env CancelReason.helper_disconnected false
          (record s { session = owner_lost old_owner s.session })
      else s in
    if is_empty new_owner then record t { pending_call = none } else t

-- A message of the bus: its sender, whether it is an error, and the bytes that it holds.
pub record Message : Type 0 where
  pub sender : Bytes
  pub is_error : Bool
  pub frame : Option Bytes

-- The end of the callback of `negotiate`, behind `acceptWelcome`.
unfoldable pub show_if_focused : Environment → PendingCall → Bool → Addon → Addon
unfolding cancel send_show
show_if_focused env call false s = cancel env CancelReason.protocol_error true s
show_if_focused env call true s =
    if not (env.contexts.available call.context && env.contexts.focused call.context)
    then cancel env CancelReason.focus_lost true s
    else send_show env call.context call.transaction s

unfoldable pub take_welcome : Environment → PendingCall → Bytes → Welcome → Addon → Addon
unfolding show_if_focused
take_welcome env call sender w s =
    let (accepted, session) =
      accept_welcome sender w (begin sender call.nonce addon_capabilities s.session).1 in
    show_if_focused env call accepted (record s { session = session })

-- `std::get_if` on the payload.
unfoldable pub get_welcome : Payload → Option Welcome
get_welcome (welcome w) = some w
get_welcome _ = none

unfoldable pub welcome_of : Option Envelope → Option Welcome
unfolding get_welcome
welcome_of none = none
welcome_of (some e) = get_welcome e.payload

unfoldable pub take_reply : Environment → PendingCall → Bytes → Option Welcome → Addon → Addon
unfolding take_welcome cancel
take_reply env call sender none s = cancel env CancelReason.protocol_error true s
take_reply env call sender (some w) s = take_welcome env call sender w s

-- The bytes of a reply.
unfoldable pub read_reply : Environment → PendingCall → Bytes → Option Bytes → Addon → Addon
unfolding take_reply welcome_of cancel
read_reply env call sender none s = cancel env CancelReason.protocol_error true s
read_reply env call sender (some frame) s =
    take_reply env call sender (welcome_of (parse frame).envelope) s

-- The callback of `negotiate`.
unfoldable pub handle_reply : Environment → PendingCall → Message → Addon → Addon
unfolding read_reply cancel
handle_reply env call m s =
    if not (active s.controller) || differs s.controller.transaction call.transaction
    then s
    else if m.is_error
    then cancel env CancelReason.helper_disconnected false s
    else read_reply env call m.sender m.frame s

-- The reply to the pending call, where there is one; it comes once.
unfoldable pub reply_for : Environment → Option PendingCall → Message → Addon → Addon
unfolding handle_reply
reply_for env none m s = s
reply_for env (some call) m s = handle_reply env call m (record s { pending_call = none })

unfoldable pub reply_came : Environment → Message → Addon → Addon
unfolding reply_for
reply_came env m s = reply_for env s.pending_call m s

-- The palette stays open: a new transaction for the context that the last one had.
unfoldable pub reopen : Environment → Option Target → Addon → Addon
unfolding begin_transaction send_show cancel
reopen env none s = cancel env CancelReason.focus_lost true s
reopen env (some origin) s =
    if env.contexts.available origin && env.contexts.focused origin
    then send_show env origin env.new_transaction (begin_transaction env origin s)
    else cancel env CancelReason.focus_lost true s

-- `receiveFrame` behind `select`, by its result.
unfoldable pub after_select : Environment → SelectionResult → Addon → Addon
unfolding reopen cancel
after_select env committed s =
    if s.close_after_selection then record s { origin = none } else reopen env s.origin s
after_select env transaction_mismatch s = s
after_select env inactive s = s
after_select env target_unavailable s = cancel env CancelReason.protocol_error true s
after_select env focus_was_lost s = cancel env CancelReason.protocol_error true s
after_select env invalid_selection s = cancel env CancelReason.protocol_error true s

unfoldable pub receive_selected : EmojiCatalog → Environment → Selected → Addon → Addon
unfolding after_select
receive_selected catalog env m s =
    let (result, controller) = select catalog env.contexts m s.controller in
    after_select env result (record s { controller = controller })

unfoldable pub receive_cancelled : Environment → Ending → Addon → Addon
unfolding cancel
receive_cancelled env m s =
    if differs s.controller.transaction m.transaction then s else cancel env m.reason false s

unfoldable pub receive_payload : EmojiCatalog → Environment → Payload → Addon → Addon
unfolding receive_selected receive_cancelled
receive_payload catalog env (selected m) s = receive_selected catalog env m s
receive_payload catalog env (cancelled m) s = receive_cancelled env m s
receive_payload catalog env _ s = s

unfoldable pub receive_envelope : EmojiCatalog → Environment → Option Envelope → Addon → Addon
unfolding receive_payload cancel
receive_envelope catalog env none s = cancel env CancelReason.protocol_error true s
receive_envelope catalog env (some e) s = receive_payload catalog env e.payload s

unfoldable pub receive_bytes : EmojiCatalog → Environment → Option Bytes → Addon → Addon
unfolding receive_envelope cancel
receive_bytes catalog env none s = cancel env CancelReason.protocol_error true s
receive_bytes catalog env (some frame) s = receive_envelope catalog env (parse frame).envelope s

unfoldable pub receive_frame : EmojiCatalog → Environment → Message → Addon → Addon
unfolding receive_bytes
receive_frame catalog env m s =
    if not (accepts m.sender s.session) then s else receive_bytes catalog env m.frame s

-- What the framework and the bus do to the addon.
pub data Event : Type 0 where
  key_pressed : Environment → KeyInput → Event
  context_changed : Environment → CancelReason → Target → Event
  owner_moved : Environment → Bytes → Bytes → Event
  replied : Environment → Message → Event
  frame_came : Environment → Message → Event
  configured : Bool → Event

unfoldable pub step : EmojiCatalog → Event → Addon → Addon
unfolding handle_key context_event owner_changed reply_came receive_frame
step catalog (key_pressed env k) s = (handle_key env k s).1
step catalog (context_changed env reason context) s = context_event env reason context s
step catalog (owner_moved env old_owner new_owner) s = owner_changed env old_owner new_owner s
step catalog (replied env m) s = reply_came env m s
step catalog (frame_came env m) s = receive_frame catalog env m s
step catalog (configured close) s = record s { close_setting = close }

unfoldable pub run : EmojiCatalog → List Event → Addon → Addon
run catalog [] s = s
run catalog (e ∷ es) s = run catalog es (step catalog e s)
