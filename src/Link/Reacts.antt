-- ===== src/Link/Reacts.antt =====
-- src/ui/palette_session.cpp: what the reactions of the window to a command leave of the session.
use fcitx5_emoji_palette.Prelude.{
  ℕ, ◌<◌, Bool, true, false, Option, none, some, List, [], ◌∷◌, Bytes, equal, equal_iff, ◌≡◌, refl,
  sym, ap, ◌∙◌, subst, arith,
}
use fcitx5_emoji_palette.Codes.{is_empty}
use fcitx5_emoji_palette.Protocol.{TransactionId, CancelReason, Command, command}
use fcitx5_emoji_palette.Frame.{parse}
use fcitx5_emoji_palette.Frame.RoundTrip.{parsed}
use fcitx5_emoji_palette.Session.{differs}
use fcitx5_emoji_palette.Helper.{
  handle_command, Reaction, chooses, cancels, Reactions, PaletteSession, perform, emit_frame,
  notify_peer, reset, select_for, selection_requested, cancellation_requested, react, react_all,
  exchange, exchange_envelope, exchange_payload, answer_peer, answer, answer_command,
}
use fcitx5_emoji_palette.Addon.{envelope_of}
use fcitx5_emoji_palette.Link.InStep.{
  is_quiet, tell, commands_of, Serves, differs_same, accept_next,
}

-- The peer, the window and the commands run are those of another session.
abbrev pub IsLike : PaletteSession → PaletteSession → Type 0
IsLike p q =
    (q.peer_owner ≡ p.peer_owner)
    × (q.negotiated ≡ p.negotiated)
    × (q.window ≡ p.window)
    × (commands_of q.effects ≡ commands_of p.effects)

-- A session with no transaction, like another one.
abbrev IsClosedLike : PaletteSession → PaletteSession → Type 0
IsClosedLike p q = (q.transaction ≡ none) × IsLike p q

emit_frame-IsClosedLike :
    (o : Option Bytes) (p q : PaletteSession) → IsClosedLike p q → IsClosedLike p (emit_frame o q)
unfolding emit_frame perform
emit_frame-IsClosedLike none p q h = h
emit_frame-IsClosedLike (some f) p q h = h

notify_peer-IsClosedLike :
    (o : Option TransactionId) (reason : CancelReason) (p q : PaletteSession)
    → IsClosedLike p q
    → IsClosedLike p (notify_peer true o reason q)
unfolding notify_peer
notify_peer-IsClosedLike none reason p q h = h
notify_peer-IsClosedLike (some t) reason p q h = emit_frame-IsClosedLike _ p q h

select_for-IsClosedLike :
    (o : Option TransactionId) (sequence : Bytes) (p : PaletteSession)
    → p.transaction ≡ o
    → IsClosedLike p (select_for o sequence p)
unfolding select_for
select_for-IsClosedLike none sequence p e = (e, (refl, refl, refl, refl))
select_for-IsClosedLike (some t) sequence p e =
    emit_frame-IsClosedLike _ p _ (refl, (refl, refl, refl, refl))

-- Whatever the window emits, the session has no transaction behind it.
react-IsClosedLike : (r : Reaction) (p : PaletteSession) → IsClosedLike p (react r p)
unfolding react selection_requested cancellation_requested reset perform
react-IsClosedLike (chooses sequence) p = select_for-IsClosedLike p.transaction sequence p refl
react-IsClosedLike (cancels reason) p =
    notify_peer-IsClosedLike p.transaction reason p _ (refl, (refl, refl, refl, refl))

react_all-IsClosedLike :
    (rs : List Reaction) (p q : PaletteSession) → IsClosedLike p q → IsClosedLike p (react_all rs q)
unfolding react_all
react_all-IsClosedLike [] p q h = h
react_all-IsClosedLike (r ∷ rs) p q (_, (a, b, c, d)) =
    let (n, (a', b', c', d')) = react-IsClosedLike r q in
    react_all-IsClosedLike rs p (react r q) (n, (a' ∙ a, b' ∙ b, c' ∙ c, d' ∙ d))

-- The reactions close the session, where there are any.
pub react_all-Serves :
    (rs : List Reaction) (t : TransactionId) (n : ℕ) (p : PaletteSession)
    → Serves true t n p
    → Serves (is_quiet rs) t n (react_all rs p) × IsLike p (react_all rs p)
unfolding react_all
react_all-Serves [] t n p h = (h, (refl, refl, refl, refl))
react_all-Serves (r ∷ rs) t n p h = react_all-IsClosedLike rs p (react r p) (react-IsClosedLike r p)

module _ (t : TransactionId) (sender : Bytes) (named : is_empty sender ≡ false) where
  exchange-command :
      (m : Command) (f : Bytes) (p : PaletteSession)
      → parse f ≡ parsed (envelope_of (command m))
      → m.transaction ≡ t
      → p.peer_owner ≡ sender
      → p.negotiated ≡ true
      → p.transaction ≡ some t
      → p.validator.transaction ≡ some t
      → p.validator.last_sequence < m.sequence
      → (exchange f sender p).1
        ≡ react_all (p.window m) (
            perform
              (handle_command m)
              (record p { validator = record p.validator { last_sequence = m.sequence } }))
  unfolding exchange exchange_envelope exchange_payload answer_peer answer answer_command
  exchange-command m f p ef em ep en es ev l =
      let same : equal sender p.peer_owner ≡ true = (equal_iff sender p.peer_owner).1 (sym ep) in
      let d : differs p.transaction m.transaction ≡ false =
        differs_same p.transaction m.transaction (es ∙ ap some (sym em)) in
      let a = accept_next m.transaction m.sequence p.validator (ev ∙ ap some (sym em)) l in
      simp (named, ef, en, same, d, a) refl

  differs-none : (o : Option TransactionId) (u : TransactionId) → o ≡ none → differs o u ≡ true
  unfolding differs
  differs-none none u e = refl
  differs-none (some v) u e = absurd (cc e)

  exchange-refused :
      (m : Command) (f : Bytes) (p : PaletteSession)
      → parse f ≡ parsed (envelope_of (command m))
      → p.peer_owner ≡ sender
      → p.negotiated ≡ true
      → p.transaction ≡ none
      → (exchange f sender p).1 ≡ p
  unfolding exchange exchange_envelope exchange_payload answer_peer answer
  exchange-refused m f p ef ep en es =
      let same : equal sender p.peer_owner ≡ true = (equal_iff sender p.peer_owner).1 (sym ep) in
      let d : differs p.transaction m.transaction ≡ true =
        differs-none p.transaction m.transaction es in
      simp (named, ef, en, same, d) refl

  -- The session serves the transaction or not, and the window has been told these commands.
  abbrev pub Answers : Reactions → ℕ → Bool × List Command → PaletteSession → Type 0
  Answers w n v q =
      Serves v.0 t n q
      × (q.peer_owner ≡ sender)
      × (q.negotiated ≡ true)
      × (q.window ≡ w)
      × (commands_of q.effects ≡ v.1)

  -- What a command leaves of the session.
  pub exchange-Answers :
      (b : Bool) (w : Reactions) (m : Command) (n : ℕ) (f : Bytes) (p : PaletteSession)
      → parse f ≡ parsed (envelope_of (command m))
      → m.transaction ≡ t
      → p.peer_owner ≡ sender
      → p.negotiated ≡ true
      → p.window ≡ w
      → Serves b t n p
      → n < m.sequence
      → Answers w m.sequence (tell b m (w m) (commands_of p.effects)) (exchange f sender p).1
  unfolding perform
  exchange-Answers false w m n f p ef em ep en ew h l =
      subst (Answers w m.sequence (false, commands_of p.effects))
        (sym (exchange-refused m f p ef ep en h)) (h, ep, en, ew, refl)
  exchange-Answers true w m n f p ef em ep en ew (es, ev, el) l =
      let q : PaletteSession =
        perform (handle_command m)
          (record p { validator = record p.validator { last_sequence = m.sequence } }) in
      let (s, (a, b, c, d)) = react_all-Serves (w m) t m.sequence q (es, ev, refl) in
      subst (Answers w m.sequence (is_quiet (w m), m ∷ commands_of p.effects))
        (sym (
          exchange-command m f p ef em ep en es ev (omega (arith, el, l))
          ∙ ap (λ (x : Reactions). react_all (x m) q) ew))
        (s, a ∙ ep, b ∙ en, c ∙ ew, d)
