-- ===== src/Addon/Origin.antt =====
-- src/addon/emoji_palette_addon.cpp: the addon's reference to the context of its transaction, and the
-- commit target of its controller.
use fcitx5_emoji_palette.Prelude.{
  Bool, true, not, ◌&&◌, Option, none, some, List, [], ◌∷◌, Bytes, equal, inl, inr, Bool-cases, ◌≡◌,
  refl, sym,
}
use fcitx5_emoji_palette.Protocol.{
  TransactionId, CancelReason, Payload, hello, welcome, show, command, hide, selected, cancelled,
  ping, pong, Selected, Envelope,
}
use fcitx5_emoji_palette.Catalog.{EmojiCatalog}
use fcitx5_emoji_palette.Session.{accepts}
use fcitx5_emoji_palette.Selection.{
  Context, Target, SelectionResult, committed, inactive, transaction_mismatch, target_unavailable,
  focus_was_lost, invalid_selection, SelectionController, is_some, cancel_selection,
  begin_selection, valid_selection, select_active, select_with, select,
}
use fcitx5_emoji_palette.Addon.{
  Environment, Addon, new_addon, drop_transaction, cancel, begin_transaction,
}
use fcitx5_emoji_palette.Addon.Events.{
  Message, reopen, after_select, receive_selected, receive_payload, receive_envelope, receive_bytes,
  receive_frame, Event, key_pressed, context_changed, owner_moved, replied, frame_came, configured,
  step, run,
}
use fcitx5_emoji_palette.Addon.Closure.{
  IsClosed, either_kept, cancel-dropped, send_show-IsClosed, handle_key-IsClosed,
  context_event-IsClosed, owner_changed-IsClosed, reply_came-IsClosed, receive_cancelled-IsClosed,
}

-- The reference is to the commit target, and both are there exactly when a transaction is.
pub record IsAligned (s : Addon) : Type 0 where
  pub same : s.origin ≡ s.controller.target
  pub both : is_some s.controller.transaction ≡ is_some s.controller.target

IsAligned-IsClosed : IsClosed IsAligned
unfolding drop_transaction cancel_selection begin_transaction begin_selection
IsAligned-IsClosed = record {
  dropped = λ r s p. record { same = refl; both = refl };
  sent = λ fs s p. record { same = p.same; both = p.both };
  numbered = λ n s p. record { same = p.same; both = p.both };
  waiting = λ c s p. record { same = p.same; both = p.both };
  searching = λ b s p. record { same = p.same; both = p.both };
  connected = λ x s p. record { same = p.same; both = p.both };
  begun = λ env g s p. record { same = refl; both = refl };
}

-- What `select` makes of a controller, as far as the addon relies on it.
abbrev pub Follows : SelectionController → SelectionResult × SelectionController → Type 0
Follows s (committed, x) = (x.transaction ≡ none) × (x.target ≡ none)
Follows s (transaction_mismatch, x) = x ≡ s
Follows s (inactive, x) = x ≡ s
Follows s (target_unavailable, x) = (x.transaction ≡ none) × (x.commits ≡ s.commits)
Follows s (focus_was_lost, x) = (x.transaction ≡ none) × (x.commits ≡ s.commits)
Follows s (invalid_selection, x) = (x.transaction ≡ none) × (x.commits ≡ s.commits)

module _ (catalog : EmojiCatalog) (context : Context) (m : Selected) where
  select_active-Follows :
      (t : TransactionId) (g : Target) (s : SelectionController)
      → Follows s (select_active catalog context m t g s)
  unfolding select_active cancel_selection
  select_active-Follows t g s = elim (Bool-cases (equal m.transaction t)) [
    | inr a ↦ rw (a, select_active) refl
    | inl a ↦ elim (Bool-cases (context.available g)) [
      | inr b ↦ rw (a, b, select_active) (refl, refl)
      | inl b ↦ elim (Bool-cases (context.focused g)) [
        | inr c ↦ rw (a, b, c, select_active) (refl, refl)
        | inl c ↦ elim (Bool-cases (valid_selection catalog m.sequence)) [
          | inr d ↦ rw (a, b, c, d, select_active) (refl, refl)
          | inl d ↦ rw (a, b, c, d, select_active) (refl, refl)
        ]
      ]
    ]
  ]

  select_with-Follows :
      (t : Option TransactionId) (g : Option Target) (s : SelectionController)
      → Follows s (select_with catalog context m t g s)
  unfolding select_with
  select_with-Follows (some t) (some g) s = select_active-Follows t g s
  select_with-Follows (some t) none s = refl
  select_with-Follows none g s = refl

  pub select-Follows : (s : SelectionController) → Follows s (select catalog context m s)
  unfolding select
  select-Follows s = select_with-Follows s.transaction s.target s

IsAligned-by :
    (x : SelectionController) (s : Addon)
    → x ≡ s.controller
    → IsAligned s
    → IsAligned (record s { controller = x })
IsAligned-by x s e p = record { same = simp e (p.same); both = simp e (p.both) }

module _ (env : Environment) where
  -- After a cancellation the two agree whatever they were.
  cancel-IsAligned : (r : CancelReason) (b : Bool) (s : Addon) → IsAligned (cancel env r b s)
  unfolding cancel drop_transaction cancel_selection
  cancel-IsAligned r b s =
      cancel-dropped IsAligned-IsClosed env r b s (record { same = refl; both = refl })

  reopen-IsAligned : (o : Option Target) (s : Addon) → s.origin ≡ o → IsAligned (reopen env o s)
  unfolding reopen begin_transaction begin_selection
  reopen-IsAligned none s e = cancel-IsAligned _ true s
  reopen-IsAligned (some g) s e =
      elim (Bool-cases (env.contexts.available g && env.contexts.focused g)) [
        | inl f ↦
            rw (f, reopen)
              (send_show-IsClosed IsAligned-IsClosed env g _ (begin_transaction env g s)
                (record { same = e; both = refl }))
        | inr f ↦ rw (f, reopen) (cancel-IsAligned _ true s)
      ]

  committed-IsAligned :
      (s : Addon)
      → s.controller.transaction ≡ none
      → s.controller.target ≡ none
      → IsAligned (after_select env committed s)
  unfolding after_select
  committed-IsAligned s e f =
      either_kept IsAligned s.close_after_selection _ _
        (record { same = sym f; both = simp (e, f) refl }) (reopen-IsAligned s.origin s refl)

  after_select-IsAligned :
      (r : SelectionResult) (x : SelectionController) (s : Addon)
      → Follows s.controller (r, x)
      → IsAligned s
      → IsAligned (after_select env r (record s { controller = x }))
  unfolding after_select
  after_select-IsAligned committed x s (e, f) p =
      committed-IsAligned (record s { controller = x }) e f
  after_select-IsAligned transaction_mismatch x s e p = IsAligned-by x s e p
  after_select-IsAligned inactive x s e p = IsAligned-by x s e p
  after_select-IsAligned target_unavailable x s e p =
      cancel-IsAligned _ true (record s { controller = x })
  after_select-IsAligned focus_was_lost x s e p =
      cancel-IsAligned _ true (record s { controller = x })
  after_select-IsAligned invalid_selection x s e p =
      cancel-IsAligned _ true (record s { controller = x })

  receive_payload-IsAligned :
      (catalog : EmojiCatalog) (m : Payload) (s : Addon)
      → IsAligned s
      → IsAligned (receive_payload catalog env m s)
  unfolding receive_payload receive_selected
  receive_payload-IsAligned catalog (hello m) s p = p
  receive_payload-IsAligned catalog (welcome m) s p = p
  receive_payload-IsAligned catalog (show m) s p = p
  receive_payload-IsAligned catalog (command m) s p = p
  receive_payload-IsAligned catalog (hide m) s p = p
  receive_payload-IsAligned catalog (selected m) s p =
      let r = select catalog env.contexts m s.controller in
      after_select-IsAligned r.0 r.1 s (select-Follows catalog env.contexts m s.controller) p
  receive_payload-IsAligned catalog (cancelled m) s p =
      receive_cancelled-IsClosed IsAligned-IsClosed env m s p
  receive_payload-IsAligned catalog (ping m) s p = p
  receive_payload-IsAligned catalog (pong m) s p = p

  receive_envelope-IsAligned :
      (catalog : EmojiCatalog) (o : Option Envelope) (s : Addon)
      → IsAligned s
      → IsAligned (receive_envelope catalog env o s)
  unfolding receive_envelope
  receive_envelope-IsAligned catalog none s p = cancel-IsAligned _ true s
  receive_envelope-IsAligned catalog (some e) s p = receive_payload-IsAligned catalog e.payload s p

  receive_bytes-IsAligned :
      (catalog : EmojiCatalog) (o : Option Bytes) (s : Addon)
      → IsAligned s
      → IsAligned (receive_bytes catalog env o s)
  unfolding receive_bytes
  receive_bytes-IsAligned catalog none s p = cancel-IsAligned _ true s
  receive_bytes-IsAligned catalog (some f) s p = receive_envelope-IsAligned catalog _ s p

  receive_frame-IsAligned :
      (catalog : EmojiCatalog) (m : Message) (s : Addon)
      → IsAligned s
      → IsAligned (receive_frame catalog env m s)
  unfolding receive_frame
  receive_frame-IsAligned catalog m s p =
      either_kept IsAligned (not (accepts m.sender s.session)) _ _ p
        (receive_bytes-IsAligned catalog m.frame s p)

step-IsAligned :
    (catalog : EmojiCatalog) (e : Event) (s : Addon) → IsAligned s → IsAligned (step catalog e s)
unfolding step
step-IsAligned catalog (key_pressed env k) s p = handle_key-IsClosed IsAligned-IsClosed env k s p
step-IsAligned catalog (context_changed env r g) s p =
    context_event-IsClosed IsAligned-IsClosed env r g s p
step-IsAligned catalog (owner_moved env a b) s p =
    owner_changed-IsClosed IsAligned-IsClosed env a b s p
step-IsAligned catalog (replied env m) s p = reply_came-IsClosed IsAligned-IsClosed env m s p
step-IsAligned catalog (frame_came env m) s p = receive_frame-IsAligned env catalog m s p
step-IsAligned catalog (configured b) s p = record { same = p.same; both = p.both }

run_from :
    (catalog : EmojiCatalog) (es : List Event) (s : Addon)
    → IsAligned s
    → IsAligned (run catalog es s)
unfolding run
run_from catalog [] s p = p
run_from catalog (e ∷ es) s p = run_from catalog es _ (step-IsAligned catalog e s p)

-- After any events a new addon refers to a context exactly when its controller has a commit target,
-- the two are the same context, and they are there exactly when a transaction is active.
pub run-IsAligned :
    (catalog : EmojiCatalog) (es : List Event) → IsAligned (run catalog es new_addon)
run-IsAligned catalog es = run_from catalog es new_addon (record { same = refl; both = refl })
