-- ===== src/Selection/Once.antt =====
-- src/runtime/selection_controller.cpp: sequences of calls of a controller.
use fcitx5_emoji_palette.Prelude.{
  ℕ, ◌+◌, ◌≤◌, Option, none, some, List, [], ◌∷◌, ◌++◌, equal, length, ◌≡◌, refl, ap, arith, inl,
  inr, Bool-cases, length-append,
}
use fcitx5_emoji_palette.Catalog.{EmojiCatalog}
use fcitx5_emoji_palette.Protocol.{TransactionId, CancelReason, Selected}
use fcitx5_emoji_palette.Selection.{
  Target, Context, SelectionController, begin_selection, cancel_selection, valid_selection,
  select_active, select_with, select,
}

-- The calls of a client.
pub data Call : Type 0 where
  begin_with : TransactionId → Target → Call
  cancel_with : CancelReason → Call
  select_message : EmojiCatalog → Context → Selected → Call

abbrev pub run_call : Call → SelectionController → SelectionController
run_call (begin_with t g) s = begin_selection t g s
run_call (cancel_with r) s = cancel_selection r s
run_call (select_message catalog context m) s = (select catalog context m s).1

abbrev pub run_calls : List Call → SelectionController → SelectionController
run_calls [] s = s
run_calls (c ∷ cs) s = run_calls cs (run_call c s)

abbrev pub begins_of : Call → ℕ
begins_of (begin_with _ _) = 1
begins_of (cancel_with _) = 0
begins_of (select_message _ _ _) = 0

abbrev pub begins : List Call → ℕ
begins [] = 0
begins (c ∷ cs) = begins_of c + begins cs

-- One when a transaction is open.
abbrev open_count : Option TransactionId → ℕ
open_count none = 0
open_count (some _) = 1

-- The commits made and the one that the open transaction may still make.
abbrev potential : SelectionController → ℕ
potential s = length s.commits + open_count s.transaction

module _ (catalog : EmojiCatalog) (context : Context) (m : Selected) where
  potential-select_active :
      (t : TransactionId) (g : Target) (s : SelectionController)
      → s.transaction ≡ some t
      → potential (select_active catalog context m t g s).1 ≤ potential s
  unfolding select_active cancel_selection
  potential-select_active t g s et =
      let e : open_count s.transaction ≡ 1 = ap open_count et in
      let l : length (s.commits ++ (g, m.sequence) ∷ []) ≡ length s.commits + 1 =
        length-append s.commits _ in
      elim (Bool-cases (equal m.transaction t)) [
        | inr a ↦ rw (a, select_active) (omega arith)
        | inl a ↦ elim (Bool-cases (context.available g)) [
          | inr b ↦ rw (a, b, select_active) (omega arith)
          | inl b ↦ elim (Bool-cases (context.focused g)) [
            | inr c ↦ rw (a, b, c, select_active) (omega arith)
            | inl c ↦ elim (Bool-cases (valid_selection catalog m.sequence)) [
              | inr d ↦ rw (a, b, c, d, select_active) (omega arith)
              | inl d ↦ rw (a, b, c, d, select_active) (omega arith)
            ]
          ]
        ]
      ]

  potential-select_with :
      (t : Option TransactionId) (g : Option Target) (s : SelectionController)
      → s.transaction ≡ t
      → potential (select_with catalog context m t g s).1 ≤ potential s
  unfolding select_with
  potential-select_with (some t) (some g) s et = potential-select_active t g s et
  potential-select_with (some t) none s et = omega arith
  potential-select_with none _ s et = omega arith

potential-run_call :
    (c : Call) (s : SelectionController) → potential (run_call c s) ≤ begins_of c + potential s
unfolding begin_selection cancel_selection select
potential-run_call (begin_with t g) s = omega arith
potential-run_call (cancel_with r) s = omega arith
potential-run_call (select_message catalog context m) s =
    let h = potential-select_with catalog context m s.transaction s.target s refl in omega arith

potential-run_calls :
    (cs : List Call) (s : SelectionController)
    → potential (run_calls cs s) ≤ begins cs + potential s
potential-run_calls [] s = omega arith
potential-run_calls (c ∷ cs) s =
    let h = potential-run_calls cs (run_call c s) in let k = potential-run_call c s in omega arith

-- Whatever calls a controller that has no open transaction receives, and whatever the contexts answer
-- in between, it makes at most one commit for each call of `begin_selection`.
pub commits-run_calls :
    (cs : List Call) (s : SelectionController)
    → s.transaction ≡ none
    → length (run_calls cs s).commits ≤ length s.commits + begins cs
commits-run_calls cs s h =
    let e : open_count s.transaction ≡ 0 = ap open_count h in
    let k = potential-run_calls cs s in omega arith
