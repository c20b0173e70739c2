-- ===== src/Link/Pick.antt =====
-- src/ui/palette_session.cpp and src/addon/emoji_palette_addon.cpp: a selection on its way from the
-- helper to the input context.
use fcitx5_emoji_palette.Prelude.{
  ◌-◌, ◌≤◌, true, false, none, some, [], ◌∷◌, ◌++◌, Bytes, IsByte, All, equal, equal_iff, length,
  length-append, ◌≡◌, refl, ap, ◌∙◌, arith,
}
use fcitx5_emoji_palette.Codes.{valid_transaction, is_empty}
use fcitx5_emoji_palette.Utf8.{is_valid_utf8}
use fcitx5_emoji_palette.Writer.{integer, write_text, write_payload, header_size}
use fcitx5_emoji_palette.Reader.Integers.{length-integer}
use fcitx5_emoji_palette.Protocol.{
  TransactionId, Selected, selected, maximum_frame_size, maximum_selection_size, IsTransactionId,
}
use fcitx5_emoji_palette.Frame.{serialize, parse}
use fcitx5_emoji_palette.Frame.RoundTrip.{serialize_intro, parse-serialize, parsed}
use fcitx5_emoji_palette.Catalog.{EmojiCatalog, contains}
use fcitx5_emoji_palette.Session.{accepts}
use fcitx5_emoji_palette.Session
use fcitx5_emoji_palette.Selection.{
  Context, Target, SelectionResult, committed, SelectionController, valid_selection, select_active,
  select_with, select,
}
use fcitx5_emoji_palette.Helper.{
  outgoing_frame, PaletteSession, perform, emit_frame, select_for, selection_requested,
}
use fcitx5_emoji_palette.Addon.{Environment, Addon, envelope_of}
use fcitx5_emoji_palette.Addon.Events.{
  receive_selected, receive_payload, receive_envelope, receive_bytes, receive_frame,
}
use fcitx5_emoji_palette.Addon.Commits.{after_select-Made}

-- A sequence that may be selected.
pub record IsChoice (catalog : EmojiCatalog) (q : Bytes) : Type 0 where
  pub octets : All IsByte q
  pub filled : is_empty q ≡ false
  pub short : length q ≤ maximum_selection_size
  pub valid : is_valid_utf8 q ≡ true
  pub held : contains catalog q ≡ true

abbrev pub choice_of : TransactionId → Bytes → Selected
choice_of t q = record { transaction = t; sequence = q }

write_payload-selected :
    (catalog : EmojiCatalog) (t : TransactionId) (q : Bytes)
    → valid_transaction t ≡ true
    → IsChoice catalog q
    → write_payload (selected (choice_of t q)) ≡ some (t ++ (integer 2 (length q) ++ q))
unfolding write_payload
write_payload-selected catalog t q v c =
    let w : write_text q maximum_selection_size ≡ some (integer 2 (length q) ++ q) =
      unfold write_text in ground (arith, c.short, c.valid) in
    rw (v, c.filled, w) refl

serialize-selected :
    (catalog : EmojiCatalog) (t : TransactionId) (q : Bytes)
    → IsTransactionId t
    → valid_transaction t ≡ true
    → IsChoice catalog q
    → (f : Bytes) × (serialize (envelope_of (selected (choice_of t q))) ≡ some f)
      × (parse f ≡ parsed (envelope_of (selected (choice_of t q))))
serialize-selected catalog t q id v c =
    let w = t ++ (integer 2 (length q) ++ q) in
    let l : length w ≤ maximum_frame_size - header_size = omega (
      arith,
      id.0,
      c.short,
      length-append t (integer 2 (length q) ++ q),
      length-append (integer 2 (length q)) q,
      length-integer 2 (length q),
    ) in
    let e =
      serialize_intro (envelope_of (selected (choice_of t q))) w refl
        (write_payload-selected catalog t q v c) l in
    (_, e, parse-serialize (envelope_of (selected (choice_of t q))) (id, c.octets) tt e)

select-committed :
    (catalog : EmojiCatalog) (context : Context) (t : TransactionId) (g : Target) (q : Bytes)
    (s : SelectionController)
    → IsChoice catalog q
    → s.transaction ≡ some t
    → s.target ≡ some g
    → context.available g ≡ true
    → context.focused g ≡ true
    → select catalog context (choice_of t q) s ≡ (
      committed,
      record {
        transaction = none;
        target = none;
        last_cancel_reason = none;
        commits = s.commits ++ (g, q) ∷ [];
      },
    )
unfolding select select_with select_active
select-committed catalog context t g q s c et eg a f =
    let v : valid_selection catalog q ≡ true =
      unfold valid_selection in ground (arith, c.filled, c.short, c.valid, c.held) in
    let same : equal t t ≡ true = (equal_iff t t).1 refl in
    ap (λ o. select_with catalog context (choice_of t q) o s.target s) et
    ∙ ap (λ o. select_with catalog context (choice_of t q) (some t) o s) eg
    ∙ rw (same, a, f, v, select_active) refl

receive_frame-selected :
    (catalog : EmojiCatalog) (env : Environment) (m : Selected) (sender f : Bytes) (s : Addon)
    → accepts sender s.session ≡ true
    → parse f ≡ parsed (envelope_of (selected m))
    → receive_frame catalog env (record { sender = sender; is_error = false; frame = some f }) s
      ≡ receive_selected catalog env m s
unfolding receive_frame receive_bytes receive_envelope receive_payload
receive_frame-selected catalog env m sender f s k read = rw (k, read) refl

receive_selected-commits :
    (catalog : EmojiCatalog) (env : Environment) (m : Selected) (s : Addon)
    → (receive_selected catalog env m s).controller.commits
      ≡ (select catalog env.contexts m s.controller).1.commits
unfolding receive_selected
receive_selected-commits catalog env m s =
    let (r, x) = select catalog env.contexts m s.controller in
    after_select-Made x.commits env r (record s { controller = x }) refl

-- A sequence that the user picks while both sides have the same transaction reaches the input context:
-- the helper sends one frame and closes its transaction, and when the addon receives that frame from
-- the peer it accepts, it commits that sequence, once, to the target of the transaction. The
-- identifier is a valid one, the target is alive and has the focus, and the sequence is a non-empty
-- valid string of at most the maximum size that the catalog holds.
pub receive_frame-selection_requested :
    (catalog : EmojiCatalog) (env : Environment) (t : TransactionId) (g : Target) (q sender : Bytes)
    (p : PaletteSession) (s : Addon)
    → IsTransactionId t
    → valid_transaction t ≡ true
    → IsChoice catalog q
    → p.transaction ≡ some t
    → s.controller.transaction ≡ some t
    → s.controller.target ≡ some g
    → env.contexts.available g ≡ true
    → env.contexts.focused g ≡ true
    → accepts sender s.session ≡ true
    → (f : Bytes) × ((selection_requested q p).effects ≡ outgoing_frame f ∷ p.effects)
      × ((selection_requested q p).transaction ≡ none)
      × ((receive_frame catalog env
            (record { sender = sender; is_error = false; frame = some f })
            s).controller.commits
          ≡ s.controller.commits ++ (g, q) ∷ [])
receive_frame-selection_requested catalog env t g q sender p s id v c ep et eg a f k =
    let (frame, written, read) = serialize-selected catalog t q id v c in
    let out : selection_requested q p
        ≡ perform (outgoing_frame frame)
            (record p { transaction = none; validator = Session.reset_sequence p.validator }) =
      unfold selection_requested select_for emit_frame in
      (ap (λ o. select_for o q p) ep ∙ rw (written, emit_frame) refl) in
    let chosen = select-committed catalog env.contexts t g q s.controller c et eg a f in
    (
      frame,
      unfold perform in ap (λ (x : PaletteSession). x.effects) out,
      unfold perform in ap (λ (x : PaletteSession). x.transaction) out,
      ap (λ (x : Addon). x.controller.commits)
            (receive_frame-selected catalog env (choice_of t q) sender frame s k read)
          ∙ receive_selected-commits catalog env (choice_of t q) s
          ∙ ap (λ (x : SelectionResult × SelectionController). x.1.commits) chosen,
    )
