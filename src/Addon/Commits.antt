-- ===== src/Addon/Commits.antt =====
-- src/addon/emoji_palette_addon.cpp: which events commit text to an input context.
use fcitx5_emoji_palette.Prelude.{
  Bool, true, ◌&&◌, Option, none, some, List, [], ◌∷◌, ◌++◌, Bytes, inl, inr, ◌⊎◌, Bool-cases, ◌≡◌,
  refl,
}
use fcitx5_emoji_palette.Protocol.{
  CancelReason, Payload, hello, welcome, show, command, hide, selected, cancelled, ping, pong,
  Selected, Envelope,
}
use fcitx5_emoji_palette.Frame.{parse}
use fcitx5_emoji_palette.Catalog.{EmojiCatalog}
use fcitx5_emoji_palette.Session.{accepts}
use fcitx5_emoji_palette.Selection.{
  Context, Target, SelectionResult, committed, inactive, transaction_mismatch, target_unavailable,
  focus_was_lost, invalid_selection, SelectionController, cancel_selection, begin_selection, select,
}
use fcitx5_emoji_palette.Selection.Safety.{IsAllowed, Outcome, select-Outcome}
use fcitx5_emoji_palette.Addon.{Environment, Addon, drop_transaction, cancel, begin_transaction}
use fcitx5_emoji_palette.Addon.Events.{
  Message, reopen, after_select, receive_selected, receive_payload, receive_envelope, receive_bytes,
  receive_frame, Event, key_pressed, context_changed, owner_moved, replied, frame_came, configured,
  step,
}
use fcitx5_emoji_palette.Addon.Closure.{
  IsClosed, either_kept, cancel-IsClosed, send_show-IsClosed, handle_key-IsClosed,
  context_event-IsClosed, owner_changed-IsClosed, reply_came-IsClosed, receive_cancelled-IsClosed,
}

-- The commits made so far are these.
abbrev pub Made : List (Target × Bytes) → Addon → Type 0
Made cs s = s.controller.commits ≡ cs

Made-IsClosed : (cs : List (Target × Bytes)) → IsClosed (Made cs)
unfolding drop_transaction cancel_selection begin_transaction begin_selection
Made-IsClosed cs = record {
  dropped = λ r s p. p;
  sent = λ fs s p. p;
  numbered = λ n s p. p;
  waiting = λ c s p. p;
  searching = λ b s p. p;
  connected = λ x s p. p;
  begun = λ env g s p. p;
}

-- A frame whose selection the addon may commit: it comes from the owner that the session accepts, it
-- parses, and the selection is allowed.
pub record IsDelivered (catalog : EmojiCatalog) (env : Environment) (m : Message) (s : Addon)
    (x : Selected) (g : Target) : Type 0 where
  pub accepted : accepts m.sender s.session ≡ true
  pub frame : Bytes
  pub read : m.frame ≡ some frame
  pub envelope : Envelope
  pub parsed : (parse frame).envelope ≡ some envelope
  pub holds : envelope.payload ≡ selected x
  pub allowed : IsAllowed catalog env.contexts x s.controller g

-- What an event may do to the commits.
abbrev pub MayCommit : EmojiCatalog → Event → Addon → Addon → Type 0
MayCommit catalog (frame_came env m) s t =
    (t.controller.commits ≡ s.controller.commits)
    ⊎ (x : Selected) × (g : Target) × IsDelivered catalog env m s x g
      × (t.controller.commits ≡ s.controller.commits ++ (g, x.sequence) ∷ [])
MayCommit catalog _ s t = t.controller.commits ≡ s.controller.commits

module _ (cs : List (Target × Bytes)) (env : Environment) where
  cancel-Made : (r : CancelReason) (b : Bool) (s : Addon) → Made cs s → Made cs (cancel env r b s)
  cancel-Made r b s p = cancel-IsClosed (Made-IsClosed cs) env r b s p

  reopen-Made : (o : Option Target) (s : Addon) → Made cs s → Made cs (reopen env o s)
  unfolding reopen begin_transaction begin_selection
  reopen-Made none s p = cancel-Made _ true s p
  reopen-Made (some g) s p =
      either_kept (Made cs) (env.contexts.available g && env.contexts.focused g) _ _
        (send_show-IsClosed (Made-IsClosed cs) env g _ (begin_transaction env g s) p)
        (cancel-Made _ true s p)

  pub after_select-Made :
      (r : SelectionResult) (s : Addon) → Made cs s → Made cs (after_select env r s)
  unfolding after_select
  after_select-Made committed s p =
      either_kept (Made cs) s.close_after_selection _ _ p (reopen-Made s.origin s p)
  after_select-Made transaction_mismatch s p = p
  after_select-Made inactive s p = p
  after_select-Made target_unavailable s p = cancel-Made _ true s p
  after_select-Made focus_was_lost s p = cancel-Made _ true s p
  after_select-Made invalid_selection s p = cancel-Made _ true s p

-- The two outcomes of a selection.
abbrev Selects :
    EmojiCatalog → Context → Selected → SelectionController → List (Target × Bytes) → Type 0
Selects catalog context m s cs =
    (cs ≡ s.commits)
    ⊎ (g : Target) × IsAllowed catalog context m s g × (cs ≡ s.commits ++ (g, m.sequence) ∷ [])

module _ (catalog : EmojiCatalog) (env : Environment) where
  Outcome-made :
      (m : Selected) (s x : SelectionController) (r : SelectionResult)
      → Outcome catalog env.contexts m s (r, x)
      → Selects catalog env.contexts m s x.commits
  Outcome-made m s x committed (g, a, e, _) = inr (g, a, e)
  Outcome-made m s x transaction_mismatch e = inl e
  Outcome-made m s x inactive e = inl e
  Outcome-made m s x target_unavailable e = inl e
  Outcome-made m s x focus_was_lost e = inl e
  Outcome-made m s x invalid_selection e = inl e

  receive_selected-Selects :
      (m : Selected) (s : Addon)
      → Selects catalog env.contexts m s.controller
          (receive_selected catalog env m s).controller.commits
  unfolding receive_selected
  receive_selected-Selects m s =
      let (r, x) = select catalog env.contexts m s.controller in
      rw (after_select-Made x.commits env r (record s { controller = x }) refl)
        (Outcome-made m s.controller x r (select-Outcome catalog env.contexts m s.controller))

  module _ (m : Message) (s : Addon) (a : accepts m.sender s.session ≡ true) (f : Bytes)
      (ef : m.frame ≡ some f) where
    payload_made :
        (e : Envelope) (p : Payload)
        → (parse f).envelope ≡ some e
        → e.payload ≡ p
        → MayCommit catalog (frame_came env m) s (receive_payload catalog env p s)
    unfolding receive_payload
    payload_made e (hello x) h k = inl refl
    payload_made e (welcome x) h k = inl refl
    payload_made e (show x) h k = inl refl
    payload_made e (command x) h k = inl refl
    payload_made e (hide x) h k = inl refl
    payload_made e (selected x) h k = elim (receive_selected-Selects x s) [
      | inl c ↦ inl c
      | inr (g, w, c) ↦ inr (
        x,
        g,
        record {
          accepted = a;
          frame = f;
          read = ef;
          envelope = e;
          parsed = h;
          holds = k;
          allowed = w;
        },
        c,
      )
    ]
    payload_made e (cancelled x) h k =
        inl (receive_cancelled-IsClosed (Made-IsClosed s.controller.commits) env x s refl)
    payload_made e (ping x) h k = inl refl
    payload_made e (pong x) h k = inl refl

    envelope_made :
        (o : Option Envelope)
        → (parse f).envelope ≡ o
        → MayCommit catalog (frame_came env m) s (receive_envelope catalog env o s)
    unfolding receive_envelope
    envelope_made none h = inl (cancel-Made _ env _ true s refl)
    envelope_made (some e) h = payload_made e e.payload h refl

  bytes_made :
      (m : Message) (s : Addon) (o : Option Bytes)
      → accepts m.sender s.session ≡ true
      → m.frame ≡ o
      → MayCommit catalog (frame_came env m) s (receive_bytes catalog env o s)
  unfolding receive_bytes
  bytes_made m s none a e = inl (cancel-Made _ env _ true s refl)
  bytes_made m s (some f) a e = envelope_made m s a f e _ refl

  frame_made :
      (m : Message) (s : Addon)
      → MayCommit catalog (frame_came env m) s (receive_frame catalog env m s)
  unfolding receive_frame
  frame_made m s = elim (Bool-cases (accepts m.sender s.session)) [
    | inl e ↦ rw (e, receive_frame) (bytes_made m s m.frame e refl)
    | inr e ↦ rw (e, receive_frame) (inl refl)
  ]

-- An event adds at most one commit, and only a frame does: it comes from the owner that the session
-- accepts and parses as a selection of the addon's transaction, the commit goes to the target of that
-- transaction, which is alive and has the focus, and its text is the sequence of the message, a
-- non-empty valid UTF-8 string of at most the maximum size that the catalog holds. Every other event,
-- and every other frame, leaves the commits as they are.
pub step-MayCommit :
    (catalog : EmojiCatalog) (e : Event) (s : Addon) → MayCommit catalog e s (step catalog e s)
unfolding step
step-MayCommit catalog (key_pressed env k) s = handle_key-IsClosed (Made-IsClosed _) env k s refl
step-MayCommit catalog (context_changed env r g) s =
    context_event-IsClosed (Made-IsClosed _) env r g s refl
step-MayCommit catalog (owner_moved env a b) s =
    owner_changed-IsClosed (Made-IsClosed _) env a b s refl
step-MayCommit catalog (replied env m) s = reply_came-IsClosed (Made-IsClosed _) env m s refl
step-MayCommit catalog (frame_came env m) s = frame_made catalog env m s
step-MayCommit catalog (configured b) s = refl
