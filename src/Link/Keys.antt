-- ===== src/Link/Keys.antt =====
-- src/addon/emoji_palette_addon.cpp and src/ui/palette_session.cpp: the keys of the user on the one
-- side, the commands of the window on the other.
use fcitx5_emoji_palette.Prelude.{
  ◌+◌, ◌≤◌, ◌<◌, ◌^◌, true, false, ◌||◌, Option, some, List, [], ◌∷◌, Bytes, IsByte, All, length,
  ◌++◌, ◌≡◌, refl, ap, ◌∙◌, subst, Bool, arith,
}
use fcitx5_emoji_palette.Codes.{valid_transaction, is_search_text, is_empty}
use fcitx5_emoji_palette.Utf8.{decode_utf8}
use fcitx5_emoji_palette.Protocol.{TransactionId, CommandKind, Command, command, IsTransactionId}
use fcitx5_emoji_palette.Frame.{serialize}
use fcitx5_emoji_palette.Router.{KeyRoute, route, erase_last}
use fcitx5_emoji_palette.Router.SearchText.{IsCarried, route-IsCarried}
use fcitx5_emoji_palette.Session.{next_u32}
use fcitx5_emoji_palette.Selection.{Target, active, is_some}
use fcitx5_emoji_palette.Helper.{Reactions, PaletteSession, perform}
use fcitx5_emoji_palette.Addon.{
  Environment, Addon, envelope_of, send_command, send_command_for, send_envelope, send_frame,
}
use fcitx5_emoji_palette.Addon.Events.{
  KeyInput, is_origin, follow_action, handle_active_key, handle_key,
}
use fcitx5_emoji_palette.Link.{deliver, link_key, link_keys}
use fcitx5_emoji_palette.Link.Frames.{IsMade, serialize-IsMade}
use fcitx5_emoji_palette.Link.Routes.{
  Shape, nothing, commands, erases, appends, route-Shape, Shape-IsByte,
}
use fcitx5_emoji_palette.Link.Reacts.{exchange-Answers}
use fcitx5_emoji_palette.Link.InStep.{
  View, told, follow, press, typed, view_of, InStep, IsTyped, textless, number-press, changed,
  silent, tell, commands_of,
}

module _ (t : TransactionId) (id : IsTransactionId t) (not_zero : valid_transaction t ≡ true)
    (env : Environment) (sends : (f : Bytes) → env.sends f ≡ true) (g : Target)
    (alive : env.contexts.available g ≡ true) (sender : Bytes) (named : is_empty sender ≡ false)
    (w : Reactions) where
  send_command_lem :
      (kind : CommandKind) (text f : Bytes) (s : Addon)
      → s.controller.transaction ≡ some t
      → serialize (
          envelope_of (
            command (record {
              transaction = t;
              sequence = next_u32 s.command_sequence;
              kind = kind;
              text = text;
            })))
        ≡ some f
      → send_command env kind text s
        ≡ record s { command_sequence = next_u32 s.command_sequence; sent = f ∷ s.sent }
  unfolding send_command send_command_for send_envelope send_frame
  send_command_lem kind text f s et ef =
      ap (λ o. send_command_for env o kind text s) et ∙ rw (ef, send_frame, sends f) refl

  -- In step, with this view.
  abbrev Reaches : View → Addon × PaletteSession → Type 0
  Reaches v c = InStep v.is_open t w g sender c.0 c.1 × (view_of v.is_open c ≡ v)

  command-Reaches :
      (b : Bool) (kind : CommandKind) (text : Bytes) (s : Addon) (p : PaletteSession)
      → InStep b t w g sender s p
      → s.sent ≡ []
      → s.command_sequence + 1 < 2 ^ 32
      → All IsByte text
      → IsCarried text
      → (is_search_text kind || is_empty text) ≡ true
      → let x = send_command env kind text s in
        Reaches (told t w kind text s.search (view_of b (s, p))) (x, deliver sender x.sent p)
  unfolding deliver perform
  command-Reaches b kind text s p i es below bytes carried only =
      let n = s.command_sequence + 1 in
      let m : Command = record { transaction = t; sequence = n; kind = kind; text = text } in
      let made : IsMade m = record {
        id = id;
        not_zero = not_zero;
        word = below;
        octets = bytes;
        carried = carried;
        searching = only;
      } in
      let (f, written, read) = serialize-IsMade m made in
      let next : next_u32 s.command_sequence ≡ n = omega (arith, below) in
      let out : send_command env kind text s ≡ record s { command_sequence = n; sent = f ∷ [] } =
        send_command_lem kind text f s i.current (rw next written) ∙ rw (next, es) refl in
      let (serves, peer, greeted, reacts, ran) =
        exchange-Answers t sender named b w m s.command_sequence f p read refl i.peer i.greeted
          i.reacts i.serves (omega arith) in
      let v = tell b m (w m) (commands_of p.effects) in
      rw out (
        record {
          current = i.current;
          source = i.source;
          octets = i.octets;
          carried = i.carried;
          peer = peer;
          greeted = greeted;
          reacts = reacts;
          serves = serves;
        },
        ap (λ ms. record { search = s.search; number = n; is_open = v.0; commands = ms }) ran,
      )

  origin_here : (o : Option Target) (c : Target) → o ≡ some g → c ≡ g → is_origin env o c ≡ true
  unfolding is_origin
  origin_here o c e h = ground (arith, e, h, alive)

  follow-Reaches :
      (b : Bool) (k : KeyInput) (s : Addon) (p : PaletteSession) (r : KeyRoute)
      → InStep b t w g sender s p
      → s.sent ≡ []
      → s.command_sequence + 1 < 2 ^ 32
      → Shape s.search k.key r
      → All IsByte r.search_text
      → IsCarried r.search_text
      → let x = follow_action env r.action r s in
        Reaches (follow t w r.action r (view_of b (s, p))) (x, deliver sender x.sent p)
  unfolding follow_action deliver is_search_text
  follow-Reaches b k s p _ i es below nothing o c = rw es (silent s p i, refl)
  follow-Reaches b k s p _ i es below (commands kind) o c =
      command-Reaches b kind [] s p i es below tt c (textless kind)
  follow-Reaches b k s p _ i es below erases o c =
      let q = erase_last (decode_utf8 s.search) s.search in
      command-Reaches b CommandKind.search_text q (record s { search = q }) p (changed q s p i o c)
        es below o c refl
  follow-Reaches b k s p _ i es below appends o c =
      let q = s.search ++ k.key.utf8 in
      command-Reaches b CommandKind.search_text q (record s { search = q }) p (changed q s p i o c)
        es below o c refl

  link_key-Reaches :
      (b : Bool) (k : KeyInput) (s : Addon) (p : PaletteSession)
      → IsTyped g k
      → InStep b t w g sender s p
      → s.command_sequence + 1 < 2 ^ 32
      → Reaches (press t w k (view_of b (s, p))) (link_key env sender k (s, p))
  unfolding link_key handle_key handle_active_key active
  link_key-Reaches b k s p h i below =
      let s0 = record s { sent = [] } in
      let r = route k.key k.is_release s.search in
      let on : is_some s.controller.transaction ≡ true = rw (i.current) refl in
      let here : is_origin env s.origin k.context ≡ true =
        origin_here s.origin k.context i.source h.context in
      let shape = route-Shape s.search k.key k.is_release in
      let out : handle_key env k s0 ≡ (true, follow_action env r.action r s0) =
        simp (on, here) refl in
      rw out (
        follow-Reaches b k s0 p r (silent s p i) refl below shape
          (Shape-IsByte s.search k.key i.octets h.octets shape)
          (route-IsCarried k.key s.search i.octets h.octets h.valid i.carried k.is_release))

  link_keys-Reaches :
      (b : Bool) (ks : List KeyInput) (s : Addon) (p : PaletteSession)
      → All (IsTyped g) ks
      → InStep b t w g sender s p
      → s.command_sequence + length ks < 2 ^ 32
      → Reaches (typed t w ks (view_of b (s, p))) (link_keys env sender ks (s, p))
  unfolding link_keys
  link_keys-Reaches b [] s p h i below = (i, refl)
  link_keys-Reaches b (k ∷ ks) s p h i below =
      let v = press t w k (view_of b (s, p)) in
      let (i', e) = link_key-Reaches b k s p h.0 i (omega (arith, below)) in
      let (s', p') = link_key env sender k (s, p) in
      let n : s'.command_sequence ≤ s.command_sequence + 1 =
        omega (arith, ap (λ (v : View). v.number) e, number-press t w k (view_of b (s, p))) in
      subst (λ v. Reaches (typed t w ks v) (link_keys env sender ks (s', p'))) e
        (link_keys-Reaches v.is_open ks s' p' h.1 i' (omega (arith, below, n)))

-- Whatever keys the user presses on the source context of a transaction that both sides have, the
-- window is told exactly the commands that the keys stand for: each once, in the order of the keys,
-- numbered without a gap and with the search text that the keys have typed so far, up to and with the
-- first one that the window answers by a choice or a cancellation, and none from there on. Both sides
-- stay in step: until then the helper serves the transaction, with the last command run the last one
-- sent, and from then on it serves none, while the addon keeps the transaction. That is so until a
-- frame of the helper reaches the addon. Every frame of the addon is delivered, the identifier is a
-- valid one, the context is alive, the text of each key is valid UTF-8, and fewer than 2 ^ 32 commands
-- have been sent in the transaction.
pub link_keys_lem :
    (b : Bool) (t : TransactionId) (w : Reactions) (env : Environment) (g : Target) (sender : Bytes)
    (ks : List KeyInput) (s : Addon) (p : PaletteSession)
    → IsTransactionId t
    → valid_transaction t ≡ true
    → ((f : Bytes) → env.sends f ≡ true)
    → env.contexts.available g ≡ true
    → is_empty sender ≡ false
    → All (IsTyped g) ks
    → InStep b t w g sender s p
    → s.command_sequence + length ks < 2 ^ 32
    → let (s', p') = link_keys env sender ks (s, p) in
      let v = typed t w ks (view_of b (s, p)) in
      InStep v.is_open t w g sender s' p' × (view_of v.is_open (s', p') ≡ v)
link_keys_lem b t w env g sender ks s p id valid sends alive named h i below =
    link_keys-Reaches t id valid env sends g alive sender named w b ks s p h i below
