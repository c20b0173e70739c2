-- ===== src/Tests/Parties.antt =====
-- The theorems on the addon, on the helper and on both together at concrete events.
use fcitx5_emoji_palette.Prelude.{
  Bool, length, true, false, none, some, List, [], ◌∷◌, Bytes, ◌≡◌, refl, arith,
}
use fcitx5_emoji_palette.Prelude.Int.{pos}
use fcitx5_emoji_palette.Codes.{valid_transaction, is_empty}
use fcitx5_emoji_palette.Utf8.{is_valid_utf8, decode_utf8, decode_loop}
use fcitx5_emoji_palette.Protocol.{CommandKind, CancelReason, IsTransactionId}
use fcitx5_emoji_palette.Catalog.{
  GeneratedEmoji, EmojiCatalog, smileys_emotion, build, build_record, contains, find, find_in,
}
use fcitx5_emoji_palette.Router.{
  route, navigation_command, edit_route, type_key, is_printable, Symbol, escape_key,
}
use fcitx5_emoji_palette.Router.SearchText.{IsCarried}
use fcitx5_emoji_palette.Session.{PeerSession, ready, accepts}
use fcitx5_emoji_palette.Helper.{
  Reaction, cancels, Reactions, PaletteSession, outgoing_frame, selection_requested,
}
use fcitx5_emoji_palette.Addon.{Environment, Addon, new_addon}
use fcitx5_emoji_palette.Addon.Events.{
  KeyInput, Message, Event, key_pressed, frame_came, receive_frame, receive_selected, step, run,
}
use fcitx5_emoji_palette.Addon.Origin.{IsAligned, run-IsAligned}
use fcitx5_emoji_palette.Addon.Commits.{MayCommit, step-MayCommit}
use fcitx5_emoji_palette.Addon.Silent.{IsSilent, receive_selected-IsSilent}
use fcitx5_emoji_palette.Link.{link_keys}
use fcitx5_emoji_palette.Link.InStep.{InStep, IsTyped, view_of, typed}
use fcitx5_emoji_palette.Link.Keys.{link_keys_lem}
use fcitx5_emoji_palette.Link.Pick.{IsChoice, receive_frame-selection_requested}
use fcitx5_emoji_palette.Tests.{bytes_of, euro, id}
use fcitx5_emoji_palette.Tests.Strings.{euro_valid}

abbrev row : GeneratedEmoji
row = record {
  sequence = euro;
  category = smileys_emotion;
  subgroup = [];
  name = λ _. [];
  keywords = λ _. [];
  base_sequence = [];
}

abbrev catalog : EmojiCatalog
catalog = build (row ∷ [])

abbrev world : Environment
world = record {
  contexts = record { available = λ _. true; focused = λ _. true };
  sends = λ _. true;
  new_transaction = id;
  new_nonce = 7;
  cursor = λ _. record { x = pos 1; y = pos 2; width = pos 3; height = pos 4 };
  scale = λ _. pos 100;
  lc_all = none;
  lc_messages = none;
  lang = none;
}

-- The names on the bus.
abbrev helper_name : Bytes
helper_name = b':' ∷ b'1' ∷ []

abbrev addon_name : Bytes
addon_name = b':' ∷ b'2' ∷ []

abbrev linked : PeerSession
linked = record { state = ready; owner = helper_name; nonce = 7; generation = 1; version = some 1 }

abbrev busy : Addon
busy = record new_addon {
  controller = record {
    transaction = some id;
    target = some 4;
    last_cancel_reason = none;
    commits = [];
  };
  session = linked;
  origin = some 4;
}

-- A window with no settings panel: a cancel command makes it cancel, and no other does anything.
abbrev reactions_to : CommandKind → List Reaction
reactions_to CommandKind.cancel = cancels CancelReason.user ∷ []
reactions_to _ = []

abbrev window : Reactions
window m = reactions_to m.kind

abbrev open_palette : PaletteSession
open_palette = record {
  window = window;
  peer_owner = addon_name;
  negotiated = true;
  transaction = some id;
  validator = record { transaction = some id; last_sequence = 0 };
  effects = [];
}

-- The key of the euro sign, in the context 4.
abbrev euro_key : KeyInput
euro_key = record {
  context = 4;
  key = record {
    check = λ _. false;
    check_shift_tab = false;
    has_states = false;
    unicode = 0x20AC;
    utf8 = euro;
    favorite_chord = false;
    variants_chord = false;
  };
  is_release = false;
  is_trigger = false;
}

abbrev is_escape : Symbol → Bool
is_escape escape_key = true
is_escape _ = false

abbrev leave_key : KeyInput
leave_key = record euro_key { key = record euro_key.key { check = is_escape } }

nothing-IsCarried : IsCarried []
unfolding is_valid_utf8 decode_utf8 decode_loop
nothing-IsCarried = (refl, omega arith)

busy-InStep : InStep true id window 4 addon_name busy open_palette
busy-InStep = record {
  current = refl;
  source = refl;
  octets = tt;
  carried = nothing-IsCarried;
  peer = refl;
  greeted = refl;
  reacts = refl;
  serves = (refl, refl, refl);
}

euro_key-IsTyped : IsTyped 4 euro_key
euro_key-IsTyped = record { context = refl; octets = bytes_of euro refl; valid = euro_valid }

leave_key-IsTyped : IsTyped 4 leave_key
leave_key-IsTyped = record { context = refl; octets = bytes_of euro refl; valid = euro_valid }

id-IsTransactionId : IsTransactionId id
id-IsTransactionId = (refl, bytes_of id refl)

id_not_zero : valid_transaction id ≡ true
unfolding valid_transaction
id_not_zero = refl

addon_is_named : is_empty addon_name ≡ false
unfolding is_empty
addon_is_named = refl

-- The key behind Escape makes the addon send a command that the window is not told.
abbrev keys : List KeyInput
keys = euro_key ∷ leave_key ∷ euro_key ∷ []

closed_by_escape : (typed id window keys (view_of true (busy, open_palette))).is_open ≡ false
unfolding route navigation_command edit_route type_key is_printable is_empty
closed_by_escape = refl

told_before_escape : length (typed id window keys (view_of true (busy, open_palette))).commands ≡ 2
unfolding route navigation_command edit_route type_key is_printable is_empty
told_before_escape = refl

link_keys_lem_example :
    let (s', p') = link_keys world addon_name keys (busy, open_palette) in
    let v = typed id window keys (view_of true (busy, open_palette)) in
    InStep v.is_open id window 4 addon_name s' p' × (view_of v.is_open (s', p') ≡ v)
link_keys_lem_example =
    link_keys_lem true id window world 4 addon_name keys busy open_palette id-IsTransactionId
      id_not_zero (λ f. refl) refl addon_is_named
      (euro_key-IsTyped, (leave_key-IsTyped, (euro_key-IsTyped, tt))) busy-InStep (omega arith)

euro-IsChoice : IsChoice catalog euro
unfolding is_empty contains find find_in build build_record
euro-IsChoice = record {
  octets = bytes_of euro refl;
  filled = refl;
  short = omega arith;
  valid = euro_valid;
  held = refl;
}

helper_is_accepted : accepts helper_name linked ≡ true
unfolding accepts
helper_is_accepted = refl

receive_frame-selection_requested_example :
    (f : Bytes) × ((selection_requested euro open_palette).effects ≡ outgoing_frame f ∷ [])
    × ((selection_requested euro open_palette).transaction ≡ none)
    × ((receive_frame catalog world
          (record { sender = helper_name; is_error = false; frame = some f })
          busy).controller.commits
        ≡ (4, euro) ∷ [])
receive_frame-selection_requested_example =
    receive_frame-selection_requested catalog world id 4 euro helper_name open_palette busy
      id-IsTransactionId id_not_zero euro-IsChoice refl refl refl refl refl helper_is_accepted

-- A frame that is too short.
abbrev short_frame : Message
short_frame = record { sender = helper_name; is_error = false; frame = some (1 ∷ 2 ∷ []) }

step-MayCommit_example :
    MayCommit catalog
      (frame_came world short_frame)
      busy
      (step catalog (frame_came world short_frame) busy)
step-MayCommit_example = step-MayCommit catalog (frame_came world short_frame) busy

abbrev trigger : KeyInput
trigger = record euro_key { is_trigger = true }

abbrev session_events : List Event
session_events =
    key_pressed world trigger ∷ key_pressed world euro_key ∷ frame_came world short_frame ∷ []

run-IsAligned_example : IsAligned (run catalog session_events new_addon)
run-IsAligned_example = run-IsAligned catalog session_events

receive_selected-IsSilent_example :
    IsSilent [] (receive_selected catalog world (record { transaction = id; sequence = euro }) busy)
receive_selected-IsSilent_example =
    receive_selected-IsSilent catalog world (record { transaction = id; sequence = euro }) busy
