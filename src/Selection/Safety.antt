-- ===== src/Selection/Safety.antt =====
-- src/runtime/selection_controller.cpp: the outcomes of `select`.
use fcitx5_emoji_palette.Prelude.{
  ◌≤◌, true, false, Option, none, some, [], ◌∷◌, ◌++◌, equal, equal_iff, length, ◌≡◌, refl, sym, ap,
  ◌∙◌, arith, inl, inr, Bool-cases,
}
use fcitx5_emoji_palette.Codes.{is_empty}
use fcitx5_emoji_palette.Utf8.{is_valid_utf8}
use fcitx5_emoji_palette.Catalog.{EmojiCatalog, contains}
use fcitx5_emoji_palette.Protocol.{TransactionId, Selected, maximum_selection_size}
use fcitx5_emoji_palette.Selection.{
  Target, Context, SelectionResult, committed, SelectionController, valid_selection, select_active,
  select_with, select,
}

-- A commit that was allowed: the message is for the controller's transaction, its target is alive and
-- has the focus, and the sequence is a short, valid string of the catalog.
pub record IsAllowed (catalog : EmojiCatalog) (context : Context) (m : Selected)
    (s : SelectionController) (target : Target) : Type 0 where
  pub same_transaction : s.transaction ≡ some m.transaction
  pub same_target : s.target ≡ some target
  pub alive : context.available target ≡ true
  pub has_focus : context.focused target ≡ true
  pub not_empty : is_empty m.sequence ≡ false
  pub short : length m.sequence ≤ maximum_selection_size
  pub valid : is_valid_utf8 m.sequence ≡ true
  pub in_catalog : contains catalog m.sequence ≡ true

-- What a call of `select` leaves behind.
abbrev pub Outcome :
    EmojiCatalog
    → Context
    → Selected
    → SelectionController
    → SelectionResult × SelectionController
    → Type 0
Outcome catalog context m s (committed, s') =
    (target : Target) × IsAllowed catalog context m s target
    × (s'.commits ≡ s.commits ++ (target, m.sequence) ∷ [])
    × (s'.transaction ≡ none)
Outcome catalog context m s (_, s') = s'.commits ≡ s.commits

module _ (catalog : EmojiCatalog) (context : Context) (m : Selected) where
  valid_parts :
      valid_selection catalog m.sequence ≡ true
      → (is_empty m.sequence ≡ false)
        × (length m.sequence ≤ maximum_selection_size)
        × (is_valid_utf8 m.sequence ≡ true)
        × (contains catalog m.sequence ≡ true)
  unfolding valid_selection
  valid_parts h = ground (arith, h)

  select_active-Outcome :
      (t : TransactionId) (g : Target) (s : SelectionController)
      → s.transaction ≡ some t
      → s.target ≡ some g
      → Outcome catalog context m s (select_active catalog context m t g s)
  unfolding select_active
  select_active-Outcome t g s et eg = elim (Bool-cases (equal m.transaction t)) [
    | inr a ↦ rw (a, select_active) refl
    | inl a ↦ elim (Bool-cases (context.available g)) [
      | inr b ↦ rw (a, b, select_active) refl
      | inl b ↦ elim (Bool-cases (context.focused g)) [
        | inr c ↦ rw (a, b, c, select_active) refl
        | inl c ↦ elim (Bool-cases (valid_selection catalog m.sequence)) [
          | inr d ↦ rw (a, b, c, d, select_active) refl
          | inl d ↦
              let (v1, v2, v3, v4) = valid_parts d in
              rw (a, b, c, d, select_active)
                (
                  g,
                  record {
                    same_transaction = et ∙ ap some (sym ((equal_iff m.transaction t).0 a));
                    same_target = eg;
                    alive = b;
                    has_focus = c;
                    not_empty = v1;
                    short = v2;
                    valid = v3;
                    in_catalog = v4;
                  },
                  refl,
                  refl,
                )
        ]
      ]
    ]
  ]

  select_with-Outcome :
      (t : Option TransactionId) (g : Option Target) (s : SelectionController)
      → s.transaction ≡ t
      → s.target ≡ g
      → Outcome catalog context m s (select_with catalog context m t g s)
  unfolding select_with
  select_with-Outcome (some t) (some g) s et eg = select_active-Outcome t g s et eg
  select_with-Outcome (some t) none s et eg = refl
  select_with-Outcome none _ s et eg = refl

  -- A call of `select` that reports a commit was allowed: the message names the transaction of the
  -- controller, its target is set, alive and has the focus, and the sequence is a non-empty valid
  -- UTF-8 string of at most the maximum size that the catalog holds; it commits that sequence to that
  -- target once and ends the transaction. A call that reports anything else commits nothing.
  pub select-Outcome :
      (s : SelectionController) → Outcome catalog context m s (select catalog context m s)
  unfolding select
  select-Outcome s = select_with-Outcome s.transaction s.target s refl refl
