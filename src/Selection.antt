-- ===== src/Selection.antt =====
-- src/runtime/selection_controller.cpp: which selection may be committed, and to which input context.
-- A commit target is a handle; what `available()` and `focused()` answer at a call is the parameter
-- `Context`, and `commits` is the list of the calls of `commit` so far, the latest last.
pub mod Safety
pub mod Once
use fcitx5_emoji_palette.Prelude.{
  ℕ, Bool, true, false, not, ◌||◌, Option, none, some, List, [], ◌∷◌, ◌++◌, Bytes, equal, length,
  ltb, if◌then◌else◌,
}
use fcitx5_emoji_palette.Codes.{is_empty}
use fcitx5_emoji_palette.Utf8.{is_valid_utf8}
use fcitx5_emoji_palette.Catalog.{EmojiCatalog, contains}
use fcitx5_emoji_palette.Protocol.{TransactionId, CancelReason, Selected, maximum_selection_size}

abbrev pub Target : Type 0
Target = ℕ

-- What the input contexts behind the targets answer.
pub record Context : Type 0 where
  pub available : Target → Bool
  pub focused : Target → Bool

pub data SelectionResult : Type 0 where
  committed inactive transaction_mismatch target_unavailable focus_was_lost : SelectionResult
  invalid_selection : SelectionResult

pub record SelectionController : Type 0 where
  pub transaction : Option TransactionId
  pub target : Option Target
  pub last_cancel_reason : Option CancelReason
  pub commits : List (Target × Bytes)

unfoldable pub begin_selection : TransactionId → Target → SelectionController → SelectionController
begin_selection transaction target s = record s {
  transaction = some transaction;
  target = some target;
  last_cancel_reason = none;
}

unfoldable pub cancel_selection : CancelReason → SelectionController → SelectionController
cancel_selection reason s = record s {
  transaction = none;
  target = none;
  last_cancel_reason = some reason;
}

abbrev pub is_some {ℓ} : {A : Type ℓ} → Option A → Bool
is_some none = false
is_some (some _) = true

unfoldable pub active : SelectionController → Bool
active s = is_some s.transaction

-- The validity of the sequence itself.
unfoldable pub valid_selection : EmojiCatalog → Bytes → Bool
valid_selection catalog sequence = not (
    is_empty sequence
    || ltb maximum_selection_size (length sequence)
    || not (is_valid_utf8 sequence)
    || not (contains catalog sequence))

-- `select` behind its first test, for the transaction and the target that are set.
unfoldable pub select_active :
    EmojiCatalog
    → Context
    → Selected
    → TransactionId
    → Target
    → SelectionController
    → SelectionResult × SelectionController
unfolding cancel_selection
select_active catalog context m transaction target s =
    if not (equal m.transaction transaction)
    then (transaction_mismatch, s)
    else if not (context.available target)
    then (target_unavailable, cancel_selection CancelReason.context_destroyed s)
    else if not (context.focused target)
    then (focus_was_lost, cancel_selection CancelReason.focus_lost s)
    else if not (valid_selection catalog m.sequence)
    then (invalid_selection, cancel_selection CancelReason.protocol_error s)
    else (
      committed,
      record {
        transaction = none;
        target = none;
        last_cancel_reason = none;
        commits = s.commits ++ (target, m.sequence) ∷ [];
      },
    )

-- The first test of `select`: both the transaction and the target are set.
unfoldable pub select_with :
    EmojiCatalog
    → Context
    → Selected
    → Option TransactionId
    → Option Target
    → SelectionController
    → SelectionResult × SelectionController
unfolding select_active
select_with catalog context m (some transaction) (some target) s =
    select_active catalog context m transaction target s
select_with _ _ _ (some _) none s = (inactive, s)
select_with _ _ _ none _ s = (inactive, s)

unfoldable pub select :
    EmojiCatalog → Context → Selected → SelectionController → SelectionResult × SelectionController
unfolding select_with
select catalog context m s = select_with catalog context m s.transaction s.target s
