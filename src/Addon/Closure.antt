-- ===== src/Addon/Closure.antt =====
-- src/addon/emoji_palette_addon.cpp: what holds of an addon through its handlers, from what holds through
-- the changes that they are made of.
use fcitx5_emoji_palette.Prelude.{
  ℕ, Bool, true, false, not, ◌&&◌, ◌||◌, Option, none, some, List, [], Bytes, inl, inr, Bool-cases,
  if◌then◌else◌,
}
use fcitx5_emoji_palette.Codes.{is_empty}
use fcitx5_emoji_palette.Protocol.{
  TransactionId, CommandKind, CancelReason, Payload, Welcome, Ending,
}
use fcitx5_emoji_palette.Router.{KeyRoute, Action, ignore_key, run_command, update_search}
use fcitx5_emoji_palette.Session.{PeerSession, is_ready, accepts, begin, accept_welcome, differs}
use fcitx5_emoji_palette.Selection.{Target, active}
use fcitx5_emoji_palette.Addon.{
  Environment, PendingCall, Addon, addon_capabilities, drop_transaction, send_frame, send_envelope,
  send_hide, cancel, send_show, send_command_for, send_command, start_call, negotiate_version,
  begin_transaction, open_palette, show_palette,
}
use fcitx5_emoji_palette.Addon.Events.{
  is_origin, follow_action, KeyInput, handle_active_key, handle_key, context_event, owner_changed,
  Message, show_if_focused, take_welcome, take_reply, read_reply, handle_reply, reply_for,
  reply_came, receive_cancelled,
}

-- The addon just after `show` has begun a transaction.
abbrev pub opened : Environment → Target → Addon → Addon
opened env context s = record (begin_transaction env context s) {
  origin = some context;
  close_after_selection = s.close_setting;
  search = [];
}

-- The changes that keep `P`.
pub record IsClosed (P : Addon → Type 0) : Type 0 where
  pub dropped : (r : CancelReason) (s : Addon) → P s → P (drop_transaction r s)
  pub sent : (fs : List Bytes) (s : Addon) → P s → P (record s { sent = fs })
  pub numbered : (n : ℕ) (s : Addon) → P s → P (record s { command_sequence = n })
  pub waiting : (c : Option PendingCall) (s : Addon) → P s → P (record s { pending_call = c })
  pub searching : (b : Bytes) (s : Addon) → P s → P (record s { search = b })
  pub connected : (x : PeerSession) (s : Addon) → P s → P (record s { session = x })
  pub begun : (env : Environment) (g : Target) (s : Addon) → P s → P (opened env g s)

pub either_kept : (P : Addon → Type 0) (b : Bool) (x y : Addon) → P x → P y → P (if b then x else y)
either_kept P true x y p q = p
either_kept P false x y p q = q

module _ {P : Addon → Type 0} (c : IsClosed P) (env : Environment) where
  pub send_frame-IsClosed : (f : Option Bytes) (s : Addon) → P s → P (send_frame env f s)
  unfolding send_frame
  send_frame-IsClosed none s p = c.dropped _ s p
  send_frame-IsClosed (some f) s p = elim (Bool-cases (env.sends f)) [
    | inl e ↦ rw (e, send_frame) (c.sent _ s p)
    | inr e ↦ rw (e, send_frame) (c.dropped _ s p)
  ]

  pub send_envelope-IsClosed : (m : Payload) (s : Addon) → P s → P (send_envelope env m s)
  unfolding send_envelope
  send_envelope-IsClosed m s p = send_frame-IsClosed _ s p

  pub send_hide-IsClosed :
      (b : Bool) (t : Option TransactionId) (r : CancelReason) (s : Addon)
      → P s
      → P (send_hide env b t r s)
  unfolding send_hide
  send_hide-IsClosed true (some t) r s p = send_envelope-IsClosed _ s p
  send_hide-IsClosed true none r s p = p
  send_hide-IsClosed false t r s p = p

  -- A cancellation keeps what its message does, once the transaction is dropped.
  pub cancel-dropped :
      (r : CancelReason) (b : Bool) (s : Addon) → P (drop_transaction r s) → P (cancel env r b s)
  unfolding cancel
  cancel-dropped r b s p =
      send_hide-IsClosed (b && is_ready s.session.state) s.controller.transaction r
        (drop_transaction r s) p

  pub cancel-IsClosed : (r : CancelReason) (b : Bool) (s : Addon) → P s → P (cancel env r b s)
  cancel-IsClosed r b s p = cancel-dropped r b s (c.dropped r s p)

  pub send_show-IsClosed :
      (g : Target) (t : TransactionId) (s : Addon) → P s → P (send_show env g t s)
  unfolding send_show
  send_show-IsClosed g t s p = send_envelope-IsClosed _ s p

  send_command_for-IsClosed :
      (t : Option TransactionId) (k : CommandKind) (b : Bytes) (s : Addon)
      → P s
      → P (send_command_for env t k b s)
  unfolding send_command_for
  send_command_for-IsClosed none k b s p = p
  send_command_for-IsClosed (some t) k b s p = send_envelope-IsClosed _ _ (c.numbered _ s p)

  send_command-IsClosed :
      (k : CommandKind) (b : Bytes) (s : Addon) → P s → P (send_command env k b s)
  unfolding send_command
  send_command-IsClosed k b s p = send_command_for-IsClosed _ k b s p

  start_call-IsClosed :
      (f : Option Bytes) (w : PendingCall) (s : Addon) → P s → P (start_call f w s)
  unfolding start_call
  start_call-IsClosed none w s p = c.dropped _ s p
  start_call-IsClosed (some f) w s p = c.waiting _ _ (c.sent _ s p)

  open_palette-IsClosed : (g : Target) (s : Addon) → P s → P (open_palette env g s)
  unfolding open_palette negotiate_version
  open_palette-IsClosed g s p = elim (Bool-cases (is_ready (opened env g s).session.state)) [
    | inl e ↦ rw (e, open_palette) (send_show-IsClosed g _ _ (c.begun env g s p))
    | inr e ↦ rw (e, open_palette) (start_call-IsClosed _ _ _ (c.begun env g s p))
  ]

  show_palette-IsClosed : (g : Target) (s : Addon) → P s → P (show_palette env g s)
  unfolding show_palette
  show_palette-IsClosed g s p = open_palette-IsClosed g _ (cancel-IsClosed _ true s p)

  follow_action-IsClosed :
      (a : Action) (r : KeyRoute) (s : Addon) → P s → P (follow_action env a r s)
  unfolding follow_action
  follow_action-IsClosed ignore_key r s p = p
  follow_action-IsClosed run_command r s p = send_command-IsClosed r.command [] s p
  follow_action-IsClosed update_search r s p = send_command-IsClosed _ _ _ (c.searching _ s p)

  handle_active_key-IsClosed : (k : KeyInput) (s : Addon) → P s → P (handle_active_key env k s).1
  unfolding handle_active_key
  handle_active_key-IsClosed k s p =
      elim (Bool-cases (not (active s.controller) || not (is_origin env s.origin k.context))) [
        | inl e ↦ rw (e, handle_active_key) p
        | inr e ↦ rw (e, handle_active_key) (follow_action-IsClosed _ _ s p)
      ]

  either : (b : Bool) (x y : Bool × Addon) → P x.1 → P y.1 → P (if b then x else y).1
  either true x y p q = p
  either false x y p q = q

  pub handle_key-IsClosed : (k : KeyInput) (s : Addon) → P s → P (handle_key env k s).1
  unfolding handle_key
  handle_key-IsClosed k s p = either _ _ _ (handle_active_key-IsClosed k s p) (
      either _ (true, show_palette env k.context s) (false, s) (show_palette-IsClosed k.context s p)
        p)

  pub context_event-IsClosed :
      (r : CancelReason) (g : Target) (s : Addon) → P s → P (context_event env r g s)
  unfolding context_event
  context_event-IsClosed r g s p = elim (Bool-cases (is_origin env s.origin g)) [
    | inl e ↦ rw (e, context_event) (cancel-IsClosed r true s p)
    | inr e ↦ rw (e, context_event) p
  ]

  pub owner_changed-IsClosed : (old new : Bytes) (s : Addon) → P s → P (owner_changed env old new s)
  unfolding owner_changed
  owner_changed-IsClosed old new s p =
      let forget_call : (t : Addon)
          → P t
          → P (if is_empty new then record t { pending_call = none } else t) =
        λ t q.
          either_kept P (is_empty new) (record t { pending_call = none }) t (c.waiting none t q)
            q in
      elim (Bool-cases (not (is_empty old) && accepts old s.session)) [
        | inl e ↦ rw e (
            forget_call _
              (cancel-IsClosed CancelReason.helper_disconnected false _ (c.connected _ s p)))
        | inr e ↦ rw e (forget_call s p)
      ]

  show_if_focused-IsClosed :
      (w : PendingCall) (b : Bool) (s : Addon) → P s → P (show_if_focused env w b s)
  unfolding show_if_focused
  show_if_focused-IsClosed w false s p = cancel-IsClosed _ true s p
  show_if_focused-IsClosed w true s p =
      elim (Bool-cases (env.contexts.available w.context && env.contexts.focused w.context)) [
        | inl e ↦ rw (e, show_if_focused) (send_show-IsClosed _ _ s p)
        | inr e ↦ rw (e, show_if_focused) (cancel-IsClosed _ true s p)
      ]

  take_reply-IsClosed :
      (w : PendingCall) (sender : Bytes) (o : Option Welcome) (s : Addon)
      → P s
      → P (take_reply env w sender o s)
  unfolding take_reply take_welcome
  take_reply-IsClosed w sender none s p = cancel-IsClosed _ true s p
  take_reply-IsClosed w sender (some m) s p =
      show_if_focused-IsClosed w
        (accept_welcome sender m (begin sender w.nonce addon_capabilities s.session).1).0 _
        (c.connected _ s p)

  read_reply-IsClosed :
      (w : PendingCall) (sender : Bytes) (f : Option Bytes) (s : Addon)
      → P s
      → P (read_reply env w sender f s)
  unfolding read_reply
  read_reply-IsClosed w sender none s p = cancel-IsClosed _ true s p
  read_reply-IsClosed w sender (some f) s p = take_reply-IsClosed w sender _ s p

  handle_reply-IsClosed :
      (w : PendingCall) (m : Message) (s : Addon) → P s → P (handle_reply env w m s)
  unfolding handle_reply
  handle_reply-IsClosed w m s p =
      elim (Bool-cases
        (not (active s.controller) || differs s.controller.transaction w.transaction)) [
          | inl e ↦ rw (e, handle_reply) p
          | inr e ↦ elim (Bool-cases m.is_error) [
            | inl f ↦ rw (e, f, handle_reply) (cancel-IsClosed _ false s p)
            | inr f ↦ rw (e, f, handle_reply) (read_reply-IsClosed w m.sender m.frame s p)
          ]
        ]

  reply_for-IsClosed :
      (w : Option PendingCall) (m : Message) (s : Addon) → P s → P (reply_for env w m s)
  unfolding reply_for
  reply_for-IsClosed none m s p = p
  reply_for-IsClosed (some w) m s p = handle_reply-IsClosed w m _ (c.waiting none s p)

  pub reply_came-IsClosed : (m : Message) (s : Addon) → P s → P (reply_came env m s)
  unfolding reply_came
  reply_came-IsClosed m s p = reply_for-IsClosed s.pending_call m s p

  pub receive_cancelled-IsClosed : (m : Ending) (s : Addon) → P s → P (receive_cancelled env m s)
  unfolding receive_cancelled
  receive_cancelled-IsClosed m s p =
      elim (Bool-cases (differs s.controller.transaction m.transaction)) [
        | inl e ↦ rw (e, receive_cancelled) p
        | inr e ↦ rw (e, receive_cancelled) (cancel-IsClosed m.reason false s p)
      ]
