-- ===== src/Reader/Sound.antt =====
-- `readPayload` on any bytes: a payload that it returns was written there.
use fcitx5_emoji_palette.Prelude.{
  ℕ, Bool, true, false, Option, none, some, IsByte, All, ◌==◌, if◌then◌else◌, refl, sym, ==_iff,
  ◌>>=◌, Bool-cases, inl, inr, subst,
}
use fcitx5_emoji_palette.Codes.{message_type}
use fcitx5_emoji_palette.Writer.{integer, write_payload}
use fcitx5_emoji_palette.Reader.{
  Reader, read_integer, read_transaction, read_text, read_rectangle, read_hello, read_welcome,
  read_show, read_command, read_ending, read_selected, read_nonce, read_payload,
}
use fcitx5_emoji_palette.Reader.Integers.{ReadInteger, read_integer_lem}
use fcitx5_emoji_palette.Reader.Fields.{
  read_transaction_lem, read_text_lem, read_rectangle_lem, integer_rest, transaction_rest,
  rectangle_rest,
}
use fcitx5_emoji_palette.Reader.Forward.{one, two, four, eight}
use fcitx5_emoji_palette.Reader.Backward.{ReadPayload, hello_of, welcome_of, selected_of, ending_of}
use fcitx5_emoji_palette.Reader.Commands.{command_of_parts, show_of_parts}
use fcitx5_emoji_palette.Protocol.{Payload, ping, pong, maximum_search_size, maximum_selection_size}

module _ (r : Reader) (h : All IsByte r.bytes) where
  read_hello_lem : ReadPayload 1 r (read_hello r)
  unfolding read_hello
  read_hello_lem =
      let a = read_integer 2 r in
      let fa = read_integer_lem 2 r two h in
      let ha = integer_rest 2 r a h fa in
      let b = read_integer 2 a.1 in
      let fb = read_integer_lem 2 a.1 two ha in
      let hb = integer_rest 2 a.1 b ha fb in
      let c = read_integer 8 b.1 in
      let fc = read_integer_lem 8 b.1 eight hb in
      let hc = integer_rest 8 b.1 c hb fc in
      let d = read_integer 4 c.1 in
      hello_of a.0 b.0 c.0 d.0 r a.1 b.1 c.1 d.1 fa fb fc (read_integer_lem 4 c.1 four hc)

  read_welcome_lem : ReadPayload 2 r (read_welcome r)
  unfolding read_welcome
  read_welcome_lem =
      let a = read_integer 2 r in
      let fa = read_integer_lem 2 r two h in
      let ha = integer_rest 2 r a h fa in
      let c = read_integer 8 a.1 in
      let fc = read_integer_lem 8 a.1 eight ha in
      let hc = integer_rest 8 a.1 c ha fc in
      let d = read_integer 4 c.1 in
      welcome_of a.0 c.0 d.0 r a.1 c.1 d.1 fa fc (read_integer_lem 4 c.1 four hc)

  read_command_lem : ReadPayload 4 r (read_command r)
  unfolding read_command
  read_command_lem =
      let a = read_transaction r in
      let fa = read_transaction_lem r h in
      let ha = transaction_rest r a h fa in
      let b = read_integer 4 a.1 in
      let fb = read_integer_lem 4 a.1 four ha in
      let hb = integer_rest 4 a.1 b ha fb in
      let c = read_integer 1 b.1 in
      let fc = read_integer_lem 1 b.1 one hb in
      let hc = integer_rest 1 b.1 c hb fc in
      let d = read_text maximum_search_size c.1 in
      command_of_parts a.0 b.0 c.0 d.0 r a.1 b.1 c.1 d.1 fa fb fc
        (read_text_lem maximum_search_size c.1 hc)

  read_show_lem : ReadPayload 3 r (read_show r)
  unfolding read_show
  read_show_lem =
      let a = read_transaction r in
      let fa = read_transaction_lem r h in
      let ha = transaction_rest r a h fa in
      let b = read_rectangle a.1 in
      let fb = read_rectangle_lem a.1 ha in
      let hb = rectangle_rest a.1 b fb in
      let c = read_rectangle b.1 in
      let fc = read_rectangle_lem b.1 hb in
      let hc = rectangle_rest b.1 c fc in
      let d = read_integer 1 c.1 in
      let fd = read_integer_lem 1 c.1 one hc in
      let hd = integer_rest 1 c.1 d hc fd in
      let e = read_integer 2 d.1 in
      let fe = read_integer_lem 2 d.1 two hd in
      let he = integer_rest 2 d.1 e hd fe in
      let f = read_integer 1 e.1 in
      show_of_parts a.0 b.0 c.0 d.0 e.0 f.0 r a.1 b.1 c.1 d.1 e.1 f.1 fa fb fc fd fe
        (read_integer_lem 1 e.1 one he)

  read_selected_lem : ReadPayload 6 r (read_selected r)
  unfolding read_selected
  read_selected_lem =
      let a = read_transaction r in
      let fa = read_transaction_lem r h in
      let ha = transaction_rest r a h fa in
      let b = read_text maximum_selection_size a.1 in
      selected_of a.0 b.0 r a.1 b.1 fa (read_text_lem maximum_selection_size a.1 ha)

  read_ending_lem :
      (is_hide : Bool) → ReadPayload (if is_hide then 5 else 7) r (read_ending is_hide r)
  unfolding read_ending
  read_ending_lem is_hide =
      let a = read_transaction r in
      let fa = read_transaction_lem r h in
      let ha = transaction_rest r a h fa in
      let b = read_integer 1 a.1 in
      ending_of is_hide a.0 b.0 r a.1 b.1 fa (read_integer_lem 1 a.1 one ha)

nonce_of :
    (is_ping : Bool) (a : Option ℕ) (r r1 : Reader)
    → ReadInteger 8 r (a, r1)
    → ReadPayload
        (if is_ping then 8 else 9)
        r
        (do nonce ← a; some (if is_ping then ping nonce else pong nonce), r1)
unfolding write_payload message_type
nonce_of true none r r1 f = tt
nonce_of false none r r1 f = tt
nonce_of true (some n) r r1 (t, b) = record {
  bytes = integer 8 n;
  written = refl;
  took = t;
  typed = b;
  sendable = tt;
  type_is = refl;
}
nonce_of false (some n) r r1 (t, b) = record {
  bytes = integer 8 n;
  written = refl;
  took = t;
  typed = b;
  sendable = tt;
  type_is = refl;
}

read_nonce_lem :
    (is_ping : Bool) (r : Reader)
    → All IsByte r.bytes
    → ReadPayload (if is_ping then 8 else 9) r (read_nonce is_ping r)
unfolding read_nonce
read_nonce_lem is_ping r h =
    nonce_of is_ping (read_integer 8 r).0 r (read_integer 8 r).1 (read_integer_lem 8 r eight h)

-- A branch of the switch over the message type.
case_of :
    (k type : ℕ) (r : Reader) (a b : Option Payload × Reader)
    → ReadPayload k r a
    → ReadPayload type r b
    → ReadPayload type r (if type == k then a else b)
case_of k type r a b ha hb = elim (Bool-cases (type == k)) [
  | inl e ↦ rw e (subst (λ t. ReadPayload t r a) (sym ((==_iff type k).0 e)) ha)
  | inr e ↦ rw e hb
]

-- On any bytes and any message type, a payload that is returned was written in the bytes that the
-- reader has taken.
pub read_payload_lem :
    (type : ℕ) (r : Reader) → All IsByte r.bytes → ReadPayload type r (read_payload type r)
unfolding read_payload
read_payload_lem type r h = case_of 1 type r _ _ (read_hello_lem r h) (
    case_of 2 type r _ _ (read_welcome_lem r h) (
      case_of 3 type r _ _ (read_show_lem r h) (
        case_of 4 type r _ _ (read_command_lem r h) (
          case_of 5 type r _ _ (read_ending_lem r h true) (
            case_of 6 type r _ _ (read_selected_lem r h) (
              case_of 7 type r _ _ (read_ending_lem r h false) (
                case_of 8 type r _ _ (read_nonce_lem true r h)
                  (case_of 9 type r _ _ (read_nonce_lem false r h) tt))))))))
