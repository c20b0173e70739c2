-- ===== src/Helper/Trace.antt =====
-- src/ui/palette_session.cpp: the effects of a palette session against an automaton with two states.
use fcitx5_emoji_palette.Prelude.{
  ℕ, ◌<◌, Bool, true, false, not, ◌||◌, Option, none, some, List, [], ◌∷◌, Bytes, equal, equal_iff,
  ◌≡◌, refl, sym, ap, subst, arith, inl, inr, Bool-cases, Option-cases,
}
use fcitx5_emoji_palette.Codes.{is_empty}
use fcitx5_emoji_palette.Protocol.{
  TransactionId, CancelReason, Welcome, Show, Command, Payload, hello, welcome, show, command, hide,
  selected, cancelled, ping, pong, Envelope,
}
use fcitx5_emoji_palette.Frame.{serialize, parse}
use fcitx5_emoji_palette.Session.{begin_sequence, accept, reset_sequence, differs}
use fcitx5_emoji_palette.Session.Order.{accept_cases}
use fcitx5_emoji_palette.Helper.{
  Effect, outgoing_frame, peer_changed, show_palette, handle_command, hide_palette, PaletteSession,
  new_palette, Reaction, chooses, cancels, Reactions, react, react_all, envelope_of, perform,
  emit_frame, notify_peer, reset, select_for, selection_requested, cancellation_requested,
  change_peer, answer_hello, answer_command, answer, answer_peer, exchange_payload,
  exchange_envelope, exchange, peer_disconnected,
}

-- What the palette promises: it is closed, or it serves one transaction and has run its commands up to
-- a number. A command runs only for the open transaction and above that number; one selection closes it;
-- it is cancelled only by hiding the window.
pub data Promise : Type 0 where
  closed : Promise
  open_for : TransactionId → ℕ → Promise

-- The effects, the latest first, that lead to a state of the automaton.
pub data Trace : List Effect → Promise → Type 0 where
  start : Trace [] closed
  shown :
      {es : List Effect} {a : Promise} (m : Show)
      → Trace es a
      → Trace (show_palette m ∷ es) (open_for m.transaction 0)
  ran :
      {es : List Effect} {t : TransactionId} {n : ℕ} (m : Command)
      → m.transaction ≡ t
      → n < m.sequence
      → Trace es (open_for t n)
      → Trace (handle_command m ∷ es) (open_for t m.sequence)
  hidden : {es : List Effect} {a : Promise} → Trace es a → Trace (hide_palette ∷ es) closed
  told :
      {es : List Effect} {t : TransactionId} {n : ℕ} (r : CancelReason) (f : Bytes)
      → serialize (envelope_of (cancelled (record { transaction = t; reason = r }))) ≡ some f
      → Trace es (open_for t n)
      → Trace (outgoing_frame f ∷ hide_palette ∷ es) closed
  chosen :
      {es : List Effect} {t : TransactionId} {n : ℕ} (sequence f : Bytes)
      → serialize (envelope_of (selected (record { transaction = t; sequence = sequence })))
        ≡ some f
      → Trace es (open_for t n)
      → Trace (outgoing_frame f ∷ es) closed
  unsent :
      {es : List Effect} {t : TransactionId} {n : ℕ} (sequence : Bytes)
      → serialize (envelope_of (selected (record { transaction = t; sequence = sequence }))) ≡ none
      → Trace es (open_for t n)
      → Trace es closed
  renamed :
      {es : List Effect} {a : Promise} (owner : Bytes)
      → Trace es a
      → Trace (peer_changed owner ∷ es) a

-- The state of the automaton that a session is in.
abbrev pub promise : Option TransactionId → ℕ → Promise
promise none n = closed
promise (some t) n = open_for t n

pub record Keeps (p : PaletteSession) : Type 0 where
  pub same : p.validator.transaction ≡ p.transaction
  pub traced : Trace p.effects (promise p.transaction p.validator.last_sequence)

reset-Keeps :
    (reason : CancelReason) (notify : Bool) (p : PaletteSession)
    → Keeps p
    → Keeps (reset reason notify p)
unfolding reset perform notify_peer emit_frame reset_sequence
reset-Keeps reason false p k = record { same = refl; traced = hidden k.traced }
reset-Keeps reason true p k = go p.transaction k.traced
  where
    go :
        (o : Option TransactionId)
        → Trace p.effects (promise o p.validator.last_sequence)
        → Keeps (
            notify_peer true o reason (
              perform hide_palette
                (record p { transaction = none; validator = reset_sequence p.validator })))
    go none t = record { same = refl; traced = hidden t }
    go (some u) t =
        elim (Option-cases
          (serialize (envelope_of (cancelled (record { transaction = u; reason = reason }))))) [
            | inl e ↦ rw (e, emit_frame) (record { same = refl; traced = hidden t })
            | inr (f, e) ↦ rw (e, emit_frame) (record { same = refl; traced = told reason f e t })
          ]

select_for-Keeps :
    (o : Option TransactionId) (sequence : Bytes) (p : PaletteSession)
    → p.transaction ≡ o
    → Keeps p
    → Keeps (select_for o sequence p)
unfolding select_for emit_frame perform reset_sequence
select_for-Keeps none sequence p e k = k
select_for-Keeps (some u) sequence p e k =
    let t : Trace p.effects (open_for u p.validator.last_sequence) =
      subst (λ o. Trace p.effects (promise o p.validator.last_sequence)) e k.traced in
    elim (Option-cases
      (serialize (envelope_of (selected (record { transaction = u; sequence = sequence }))))) [
        | inl n ↦
            rw (n, select_for, emit_frame) (record { same = refl; traced = unsent sequence n t })
        | inr (f, s) ↦
            rw (s, select_for, emit_frame) (record { same = refl; traced = chosen sequence f s t })
      ]

change_peer-Keeps : (sender : Bytes) (p : PaletteSession) → Keeps p → Keeps (change_peer sender p)
unfolding change_peer perform
change_peer-Keeps sender p k = elim (Bool-cases (equal p.peer_owner sender)) [
  | inl e ↦ rw (e, change_peer) k
  | inr e ↦
      let r = reset-Keeps CancelReason.helper_disconnected false p k in
      rw (e, change_peer) (record { same = r.same; traced = renamed sender r.traced })
]

answer_hello-Keeps :
    (o : Option Welcome) (sender : Bytes) (p : PaletteSession)
    → Keeps p
    → Keeps (answer_hello o sender p).1
unfolding answer_hello
answer_hello-Keeps none sender p k = k
answer_hello-Keeps (some w) sender p k =
    let r = change_peer-Keeps sender p k in record { same = r.same; traced = r.traced }

react-Keeps : (r : Reaction) (p : PaletteSession) → Keeps p → Keeps (react r p)
unfolding react selection_requested cancellation_requested
react-Keeps (chooses sequence) p k = select_for-Keeps p.transaction sequence p refl k
react-Keeps (cancels reason) p k = reset-Keeps reason true p k

react_all-Keeps : (rs : List Reaction) (p : PaletteSession) → Keeps p → Keeps (react_all rs p)
unfolding react_all
react_all-Keeps [] p k = k
react_all-Keeps (r ∷ rs) p k = react_all-Keeps rs (react r p) (react-Keeps r p k)

answer_command-Keeps :
    (m : Command) (p : PaletteSession)
    → p.transaction ≡ some m.transaction
    → Keeps p
    → Keeps (answer_command m (accept m.transaction m.sequence p.validator) p).1
unfolding answer_command perform
answer_command-Keeps m p e k = elim (accept_cases m.transaction m.sequence p.validator) [
  | inl r ↦ rw (r, answer_command) k
  | inr (lt, r) ↦
      let t : Trace p.effects (open_for m.transaction p.validator.last_sequence) =
        subst (λ o. Trace p.effects (promise o p.validator.last_sequence)) e k.traced in
      rw (r, answer_command)
        (react_all-Keeps (p.window m) _ (record {
          same = k.same;
          traced =
              subst (λ o. Trace (handle_command m ∷ p.effects) (promise o m.sequence)) (sym e)
                (ran m refl lt t);
        }))
]

pub differs-false :
    (o : Option TransactionId) (t : TransactionId) → differs o t ≡ false → o ≡ some t
differs-false none t d = absurd (cc d)
differs-false (some u) t d = ap some ((equal_iff u t).0 (ground (arith, d)))

answer-Keeps : (m : Payload) (p : PaletteSession) → Keeps p → Keeps (answer m p).1
unfolding answer perform begin_sequence
answer-Keeps (show m) p k = record { same = refl; traced = shown m k.traced }
answer-Keeps (command m) p k = elim (Bool-cases (differs p.transaction m.transaction)) [
  | inl d ↦ rw (d, answer) k
  | inr d ↦
      rw (d, answer) (answer_command-Keeps m p (differs-false p.transaction m.transaction d) k)
]
answer-Keeps (hide m) p k = elim (Bool-cases (differs p.transaction m.transaction)) [
  | inl d ↦ rw (d, answer) k
  | inr d ↦ rw (d, answer) (reset-Keeps m.reason false p k)
]
answer-Keeps (ping n) p k = k
answer-Keeps (pong n) p k = k
answer-Keeps (hello m) p k = k
answer-Keeps (welcome m) p k = k
answer-Keeps (selected m) p k = k
answer-Keeps (cancelled m) p k = k

answer_peer-Keeps :
    (m : Payload) (sender : Bytes) (p : PaletteSession) → Keeps p → Keeps (answer_peer m sender p).1
unfolding answer_peer
answer_peer-Keeps m sender p k =
    elim (Bool-cases (not p.negotiated || not (equal sender p.peer_owner))) [
      | inl e ↦ rw (e, answer_peer) k
      | inr e ↦ rw (e, answer_peer) (answer-Keeps m p k)
    ]

exchange_payload-Keeps :
    (m : Payload) (sender : Bytes) (p : PaletteSession)
    → Keeps p
    → Keeps (exchange_payload m sender p).1
unfolding exchange_payload
exchange_payload-Keeps (hello m) sender p k = answer_hello-Keeps _ sender p k
exchange_payload-Keeps (welcome m) sender p k = answer_peer-Keeps (welcome m) sender p k
exchange_payload-Keeps (show m) sender p k = answer_peer-Keeps (show m) sender p k
exchange_payload-Keeps (command m) sender p k = answer_peer-Keeps (command m) sender p k
exchange_payload-Keeps (hide m) sender p k = answer_peer-Keeps (hide m) sender p k
exchange_payload-Keeps (selected m) sender p k = answer_peer-Keeps (selected m) sender p k
exchange_payload-Keeps (cancelled m) sender p k = answer_peer-Keeps (cancelled m) sender p k
exchange_payload-Keeps (ping n) sender p k = answer_peer-Keeps (ping n) sender p k
exchange_payload-Keeps (pong n) sender p k = answer_peer-Keeps (pong n) sender p k

exchange-Keeps :
    (frame sender : Bytes) (p : PaletteSession) → Keeps p → Keeps (exchange frame sender p).1
unfolding exchange
exchange-Keeps frame sender p k = elim (Bool-cases (is_empty sender)) [
  | inl e ↦ rw (e, exchange) k
  | inr e ↦ rw (e, exchange) (go (parse frame).envelope)
]
  where
    go : (o : Option Envelope) → Keeps (exchange_envelope o sender p).1
    go none = k
    go (some v) = exchange_payload-Keeps v.payload sender p k

peer_disconnected-Keeps :
    (owner : Bytes) (p : PaletteSession) → Keeps p → Keeps (peer_disconnected owner p)
unfolding peer_disconnected perform
peer_disconnected-Keeps owner p k = elim (Bool-cases (equal owner p.peer_owner)) [
  | inl e ↦
      let r = reset-Keeps CancelReason.helper_disconnected false p k in
      rw (e, peer_disconnected) (record { same = r.same; traced = renamed [] r.traced })
  | inr e ↦ rw (e, peer_disconnected) k
]

-- What happens to a session.
pub data Event : Type 0 where
  frame_came : Bytes → Bytes → Event
  peer_went : Bytes → Event
  sequence_chosen : Bytes → Event
  cancelled_by_user : CancelReason → Event

abbrev pub step : Event → PaletteSession → PaletteSession
step (frame_came frame sender) p = (exchange frame sender p).1
step (peer_went owner) p = peer_disconnected owner p
step (sequence_chosen sequence) p = selection_requested sequence p
step (cancelled_by_user reason) p = cancellation_requested reason p

-- The session after a history, the latest event first.
abbrev pub run : Reactions → List Event → PaletteSession
run window [] = new_palette window
run window (e ∷ es) = step e (run window es)

step-Keeps : (e : Event) (p : PaletteSession) → Keeps p → Keeps (step e p)
unfolding selection_requested cancellation_requested
step-Keeps (frame_came frame sender) p k = exchange-Keeps frame sender p k
step-Keeps (peer_went owner) p k = peer_disconnected-Keeps owner p k
step-Keeps (sequence_chosen sequence) p k = select_for-Keeps p.transaction sequence p refl k
step-Keeps (cancelled_by_user reason) p k = reset-Keeps reason true p k

run-Keeps : (window : Reactions) (es : List Event) → Keeps (run window es)
run-Keeps window [] = record { same = refl; traced = start }
run-Keeps window (e ∷ es) = step-Keeps e (run window es) (run-Keeps window es)

-- Over every history of frames, departures, choices and cancellations, and whatever the window chooses
-- or cancels while it handles a command, the effects of a session are a
-- trace of the automaton, which ends in the state that the session stands for: the open transaction
-- and the number of the last command, or closed where there is none.
pub run-Trace :
    (window : Reactions) (es : List Event)
    → Trace
        (run window es).effects
        (promise (run window es).transaction (run window es).validator.last_sequence)
run-Trace window es = (run-Keeps window es).traced
