-- ===== src/Addon/Silent.antt =====
-- src/addon/emoji_palette_addon.cpp: what the helper hears of a selection that fails.
use fcitx5_emoji_palette.Prelude.{
  Bool, true, false, ◌&&◌, Option, none, some, List, Bytes, inl, inr, Bool-cases, ◌≡◌, refl, ap,
  ◌∙◌, if◌then◌else◌,
}
use fcitx5_emoji_palette.Protocol.{TransactionId, CancelReason, Selected}
use fcitx5_emoji_palette.Frame.{serialize}
use fcitx5_emoji_palette.Catalog.{EmojiCatalog}
use fcitx5_emoji_palette.Session.{is_ready}
use fcitx5_emoji_palette.Selection.{
  Target, SelectionResult, committed, inactive, transaction_mismatch, target_unavailable,
  focus_was_lost, invalid_selection, SelectionController, begin_selection, select,
}
use fcitx5_emoji_palette.Addon.{
  Environment, Addon, drop_transaction, send_frame, send_envelope, send_hide, send_show, cancel,
  begin_transaction, envelope_of, show_message,
}
use fcitx5_emoji_palette.Addon.Events.{reopen, after_select, receive_selected}
use fcitx5_emoji_palette.Addon.Origin.{Follows, select-Follows}

-- Nothing was sent, unless a transaction is open.
abbrev pub IsSilent : List Bytes → Addon → Type 0
IsSilent sent s = s.controller.transaction ≡ none → s.sent ≡ sent

module _ (env : Environment) where
  send_hide-none : (b : Bool) (r : CancelReason) (s : Addon) → send_hide env b none r s ≡ s
  unfolding send_hide
  send_hide-none true r s = refl
  send_hide-none false r s = refl

  -- A cancellation sends nothing where no transaction is open.
  cancel-sent :
      (r : CancelReason) (b : Bool) (s : Addon)
      → s.controller.transaction ≡ none
      → (cancel env r b s).sent ≡ s.sent
  unfolding cancel drop_transaction
  cancel-sent r b s e =
      let c = b && is_ready s.session.state in
      ap (λ (o : Option TransactionId). (send_hide env c o r (drop_transaction r s)).sent) e
      ∙ ap (λ (x : Addon). x.sent) (send_hide-none c r (drop_transaction r s))

  send_frame-IsSilent :
      (f : Option Bytes) (t : TransactionId) (s : Addon)
      → s.controller.transaction ≡ some t
      → IsSilent s.sent (send_frame env f s)
  unfolding send_frame drop_transaction
  send_frame-IsSilent none t s e = λ n. refl
  send_frame-IsSilent (some f) t s e = elim (Bool-cases (env.sends f)) [
    | inl h ↦ rw (h, send_frame) (λ n. absurd (cc (e, n)))
    | inr h ↦ rw (h, send_frame) (λ n. refl)
  ]

  reopen-IsSilent :
      (o : Option Target) (s : Addon)
      → s.controller.transaction ≡ none
      → IsSilent s.sent (reopen env o s)
  unfolding reopen send_show send_envelope begin_transaction begin_selection
  reopen-IsSilent none s e = λ n. cancel-sent _ true s e
  reopen-IsSilent (some g) s e =
      elim (Bool-cases (env.contexts.available g && env.contexts.focused g)) [
        | inl h ↦
            rw (h, reopen)
              (send_frame-IsSilent
                (serialize
                  (envelope_of (show_message env g env.new_transaction s.close_after_selection)))
                env.new_transaction (begin_transaction env g s) refl)
        | inr h ↦ rw (h, reopen) (λ n. cancel-sent _ true s e)
      ]

  committed-IsSilent :
      (s : Addon) → s.controller.transaction ≡ none → IsSilent s.sent (after_select env committed s)
  unfolding after_select
  committed-IsSilent s e = choose s.close_after_selection
    where
      choose :
          (b : Bool)
          → IsSilent s.sent (if b then record s { origin = none } else reopen env s.origin s)
      choose true = λ n. refl
      choose false = reopen-IsSilent s.origin s e

  after_select-IsSilent :
      (r : SelectionResult) (x : SelectionController) (s : Addon)
      → Follows s.controller (r, x)
      → IsSilent s.sent (after_select env r (record s { controller = x }))
  unfolding after_select
  after_select-IsSilent committed x s (e, _) = committed-IsSilent (record s { controller = x }) e
  after_select-IsSilent transaction_mismatch x s e = λ n. refl
  after_select-IsSilent inactive x s e = λ n. refl
  after_select-IsSilent target_unavailable x s (e, _) =
      λ n. cancel-sent _ true (record s { controller = x }) e
  after_select-IsSilent focus_was_lost x s (e, _) =
      λ n. cancel-sent _ true (record s { controller = x }) e
  after_select-IsSilent invalid_selection x s (e, _) =
      λ n. cancel-sent _ true (record s { controller = x }) e

-- A selection that leaves the addon without a transaction sends the helper nothing, neither a Hide nor
-- anything else: not after a commit, and not where the target is gone, the focus is lost or the
-- sequence is refused, though the code asks to notify the helper then.
pub receive_selected-IsSilent :
    (catalog : EmojiCatalog) (env : Environment) (m : Selected) (s : Addon)
    → IsSilent s.sent (receive_selected catalog env m s)
unfolding receive_selected
receive_selected-IsSilent catalog env m s =
    let (r, x) = select catalog env.contexts m s.controller in
    after_select-IsSilent env r x s (select-Follows catalog env.contexts m s.controller)
