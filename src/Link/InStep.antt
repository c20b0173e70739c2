-- ===== src/Link/InStep.antt =====
-- src/addon/emoji_palette_addon.cpp and src/ui/palette_session.cpp: what the user sees of the two
-- sides, and when they have the same transaction.
use fcitx5_emoji_palette.Prelude.{
  ℕ, ◌+◌, ◌≤◌, ◌<◌, Bool, true, false, ◌||◌, ◌==◌, Option, none, some, List, [], ◌∷◌, Bytes, IsByte,
  All, equal_iff, leb, ◌≡◌, refl, arith, inl, inr, Bool-cases,
}
use fcitx5_emoji_palette.Codes.{is_search_text, is_empty}
use fcitx5_emoji_palette.Utf8.{is_valid_utf8}
use fcitx5_emoji_palette.Protocol.{TransactionId, CommandKind, Command}
use fcitx5_emoji_palette.Router.{KeyRoute, Action, ignore_key, run_command, update_search, route}
use fcitx5_emoji_palette.Router.SearchText.{IsCarried}
use fcitx5_emoji_palette.Session.{SequenceValidator, accept, differs}
use fcitx5_emoji_palette.Selection.{Target}
use fcitx5_emoji_palette.Helper.{
  Effect, outgoing_frame, peer_changed, show_palette, handle_command, hide_palette, Reaction,
  Reactions, PaletteSession,
}
use fcitx5_emoji_palette.Addon.{Addon}
use fcitx5_emoji_palette.Addon.Events.{KeyInput}

-- What the user sees of the two: the search text, the number of the last command, whether the window
-- still serves the transaction, and the commands that it has been told, the latest first.
pub record View : Type 0 where
  pub search : Bytes
  pub number : ℕ
  pub is_open : Bool
  pub commands : List Command

abbrev pub is_quiet : List Reaction → Bool
is_quiet [] = true
is_quiet (_ ∷ _) = false

-- An open window is told a command, and is open behind it where it neither chooses nor cancels.
abbrev pub tell : Bool → Command → List Reaction → List Command → Bool × List Command
tell false m rs ms = (false, ms)
tell true m rs ms = (is_quiet rs, m ∷ ms)

-- The view behind one more command.
abbrev pub told : TransactionId → Reactions → CommandKind → Bytes → Bytes → View → View
told t w kind text search v =
    let m : Command = record {
      transaction = t;
      sequence = v.number + 1;
      kind = kind;
      text = text;
    } in
    record {
      search = search;
      number = v.number + 1;
      is_open = (tell v.is_open m (w m) v.commands).0;
      commands = (tell v.is_open m (w m) v.commands).1;
    }

-- The view behind one key, as its route says: its command has the next number.
abbrev pub follow : TransactionId → Reactions → Action → KeyRoute → View → View
follow t w ignore_key r v = v
follow t w run_command r v = told t w r.command [] v.search v
follow t w update_search r v = told t w CommandKind.search_text r.search_text r.search_text v

abbrev pub press : TransactionId → Reactions → KeyInput → View → View
press t w k v = let r = route k.key k.is_release v.search in follow t w r.action r v

abbrev pub typed : TransactionId → Reactions → List KeyInput → View → View
typed t w [] v = v
typed t w (k ∷ ks) v = typed t w ks (press t w k v)

abbrev pub commands_of : List Effect → List Command
commands_of [] = []
commands_of (handle_command m ∷ es) = m ∷ commands_of es
commands_of (outgoing_frame f ∷ es) = commands_of es
commands_of (peer_changed o ∷ es) = commands_of es
commands_of (show_palette m ∷ es) = commands_of es
commands_of (hide_palette ∷ es) = commands_of es

-- The view of the two, for a window that is open or not.
abbrev pub view_of : Bool → Addon × PaletteSession → View
view_of is_open (s, p) = record {
  search = s.search;
  number = s.command_sequence;
  is_open = is_open;
  commands = commands_of p.effects;
}

-- The helper serves the transaction, and has run its commands up to a number; or it serves none.
abbrev pub Serves : Bool → TransactionId → ℕ → PaletteSession → Type 0
Serves true t n p =
    (p.transaction ≡ some t) × (p.validator.transaction ≡ some t) × (p.validator.last_sequence ≡ n)
Serves false t n p = p.transaction ≡ none

-- The addon has the transaction `t` for the context `g`, the helper's peer is the addon, and the helper
-- serves `t`, with the last command run the last one sent, or serves none where it is not open.
pub record InStep (is_open : Bool) (t : TransactionId) (w : Reactions) (g : Target) (sender : Bytes)
    (s : Addon) (p : PaletteSession) : Type 0 where
  pub current : s.controller.transaction ≡ some t
  pub source : s.origin ≡ some g
  pub octets : All IsByte s.search
  pub carried : IsCarried s.search
  pub peer : p.peer_owner ≡ sender
  pub greeted : p.negotiated ≡ true
  pub reacts : p.window ≡ w
  pub serves : Serves is_open t s.command_sequence p

-- A key on the source context whose text, if it has any, is valid UTF-8.
pub record IsTyped (g : Target) (k : KeyInput) : Type 0 where
  pub context : k.context ≡ g
  pub octets : All IsByte k.key.utf8
  pub valid : is_valid_utf8 k.key.utf8 ≡ true

pub textless : (kind : CommandKind) → (is_search_text kind || is_empty []) ≡ true
unfolding is_empty
textless kind = elim (Bool-cases (is_search_text kind)) [ inl e ↦ rw e refl | inr e ↦ rw e refl ]

pub differs_same : (o : Option TransactionId) (t : TransactionId) → o ≡ some t → differs o t ≡ false
differs_same o t e = ground (arith, e, (equal_iff t t).1 refl)

pub accept_next :
    (t : TransactionId) (n : ℕ) (v : SequenceValidator)
    → v.transaction ≡ some t
    → v.last_sequence < n
    → accept t n v ≡ (true, record v { last_sequence = n })
unfolding accept
accept_next t n v e l =
    let d = differs_same v.transaction t e in
    let h : (differs v.transaction t || n == 0 || leb n v.last_sequence) ≡ false =
      ground (arith, d, l) in
    rw (h, accept)

number-follow :
    (t : TransactionId) (w : Reactions) (a : Action) (r : KeyRoute) (v : View)
    → (follow t w a r v).number ≤ v.number + 1
number-follow t w ignore_key r v = omega arith
number-follow t w run_command r v = omega arith
number-follow t w update_search r v = omega arith

pub number-press :
    (t : TransactionId) (w : Reactions) (k : KeyInput) (v : View)
    → (press t w k v).number ≤ v.number + 1
number-press t w k v = let r = route k.key k.is_release v.search in number-follow t w r.action r v

module _ {b : Bool} {t : TransactionId} {w : Reactions} {g : Target} {sender : Bytes} where
  pub changed :
      (q : Bytes) (s : Addon) (p : PaletteSession)
      → InStep b t w g sender s p
      → All IsByte q
      → IsCarried q
      → InStep b t w g sender (record s { search = q }) p
  changed q s p i o c = record {
    current = i.current;
    source = i.source;
    octets = o;
    carried = c;
    peer = i.peer;
    greeted = i.greeted;
    reacts = i.reacts;
    serves = i.serves;
  }

  pub silent :
      (s : Addon) (p : PaletteSession)
      → InStep b t w g sender s p
      → InStep b t w g sender (record s { sent = [] }) p
  silent s p i = record {
    current = i.current;
    source = i.source;
    octets = i.octets;
    carried = i.carried;
    peer = i.peer;
    greeted = i.greeted;
    reacts = i.reacts;
    serves = i.serves;
  }
