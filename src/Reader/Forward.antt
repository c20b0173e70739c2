-- ===== src/Reader/Forward.antt =====
-- Every payload that the writer accepts is read back, with nothing of what follows it.
use fcitx5_emoji_palette.Prelude.{
  ℕ, ◌^◌, ◌≤◌, ◌<◌, Bool, true, false, not, ◌&&◌, some, ◌++◌, Bytes, length, if◌then◌else◌, ◌≡◌,
  refl, arith, inl, inr, append_assoc, Option-cases,
}
use fcitx5_emoji_palette.Codes.{
  valid_rectangle, valid_transaction, is_search_text, is_empty, message_type, command_value,
  reason_value, locale_value, bool_value,
}
use fcitx5_emoji_palette.Codes.Values.{
  command_value_lem, reason_value_lem, locale_value_lem, bool_value_lem,
}
use fcitx5_emoji_palette.Writer.{integer, write_rectangle, write_text, write_ending, write_payload}
use fcitx5_emoji_palette.Reader.{
  read_hello, read_welcome, read_show, read_command, read_ending, read_selected, read_nonce,
  read_payload,
}
use fcitx5_emoji_palette.Reader.Integers.{reader, read_integer-integer, IsWidth}
use fcitx5_emoji_palette.Reader.Fields.{
  read_transaction-append, read_text-write_text, read_rectangle-write_rectangle,
}
use fcitx5_emoji_palette.Protocol.{
  ProtocolError, Hello, Welcome, Show, Command, Ending, Selected, Payload, hello, welcome, show,
  command, hide, selected, cancelled, ping, pong, IsTyped, maximum_search_size,
  maximum_selection_size,
}

-- `readPayload` refuses a version range that is empty or starts at 0, and a selected version 0, which
-- `writePayload` lets through.
abbrev pub IsSendable : Payload → Type 0
IsSendable (hello m) = (1 ≤ m.minimum_version) × (m.minimum_version ≤ m.maximum_version)
IsSendable (welcome m) = 1 ≤ m.selected_version
IsSendable _ = Unit {0}

abbrev pub one : IsWidth 1
one = inl refl

abbrev pub two : IsWidth 2
two = inr (inl refl)

abbrev pub four : IsWidth 4
four = inr (inr (inl refl))

abbrev pub eight : IsWidth 8
eight = inr (inr (inr refl))

-- The payload `p` is written as `w`, and reading `w` gives `p` back.
abbrev Reads : ℕ → Payload → Bytes → Type 0
Reads type p w =
    (rest : Bytes) (error : ProtocolError)
    → read_payload type (reader (w ++ rest) error) ≡ (some p, reader rest error)

module _ (rest : Bytes) (error : ProtocolError) where
  hello_back :
      (m : Hello) {w : Bytes}
      → IsTyped (hello m)
      → IsSendable (hello m)
      → write_payload (hello m) ≡ some w
      → read_hello (reader (w ++ rest) error) ≡ (some (hello m), reader rest error)
  unfolding read_hello write_payload
  hello_back m {w} (ha, hb, hc, hd) (lo, hi) e =
      let ew : integer 2 m.minimum_version
            ++ (integer 2 m.maximum_version ++ (integer 8 m.nonce ++ integer 4 m.capabilities))
          ≡ w =
        ground (arith, e) in
      rw
        (
          ← ew,
          append_assoc,
          append_assoc,
          append_assoc,
          read_integer-integer 2 _ _ error two ha,
          read_integer-integer 2 _ _ error two hb,
          read_integer-integer 8 _ _ error eight hc,
          read_integer-integer 4 _ _ error four hd,
        )
        (ground arith)

  welcome_back :
      (m : Welcome) {w : Bytes}
      → IsTyped (welcome m)
      → IsSendable (welcome m)
      → write_payload (welcome m) ≡ some w
      → read_welcome (reader (w ++ rest) error) ≡ (some (welcome m), reader rest error)
  unfolding read_welcome write_payload
  welcome_back m {w} (ha, hb, hc) lo e =
      let ew : integer 2 m.selected_version ++ (integer 8 m.nonce ++ integer 4 m.capabilities) ≡ w =
        ground (arith, e) in
      rw
        (
          ← ew,
          append_assoc,
          append_assoc,
          read_integer-integer 2 _ _ error two ha,
          read_integer-integer 8 _ _ error eight hb,
          read_integer-integer 4 _ _ error four hc,
        )
        (ground arith)

  show_back :
      (m : Show) {w : Bytes}
      → IsTyped (show m)
      → write_payload (show m) ≡ some w
      → read_show (reader (w ++ rest) error) ≡ (some (show m), reader rest error)
  unfolding read_show write_payload
  show_back m {w} (ht, hc, hs, hp) e =
      let (l1, l2, l3) = locale_value_lem m.locale in
      let (b1, b2) = bool_value_lem m.close_after_selection in
      let vt : valid_transaction m.transaction ≡ true = ground (arith, e) in
      let vc : valid_rectangle m.caret ≡ true = ground (arith, e) in
      let vs : valid_rectangle m.screen ≡ true = ground (arith, e) in
      let lo : 50 ≤ m.scale_percent = ground (arith, e) in
      let hi : m.scale_percent ≤ 400 = ground (arith, e) in
      let ew : m.transaction
            ++ (write_rectangle m.caret
                ++ (write_rectangle m.screen
                    ++ (integer 1 (locale_value m.locale)
                        ++ (integer 2 m.scale_percent
                            ++ integer 1 (bool_value m.close_after_selection)))))
          ≡ w =
        ground (arith, e) in
      rw
        (
          ← ew,
          append_assoc,
          append_assoc,
          append_assoc,
          append_assoc,
          append_assoc,
          read_transaction-append m.transaction _ error ht.0,
          read_rectangle-write_rectangle m.caret _ error hc,
          read_rectangle-write_rectangle m.screen _ error hs,
          read_integer-integer 1 _ _ error one l3,
          read_integer-integer 2 _ _ error two hp,
          read_integer-integer 1 (bool_value m.close_after_selection) rest error one (omega arith),
        )
        (ground (arith, l1, l2, b1, b2, vt, vc, vs, lo, hi))

  command_back :
      (m : Command) {w : Bytes}
      → IsTyped (command m)
      → write_payload (command m) ≡ some w
      → read_command (reader (w ++ rest) error) ≡ (some (command m), reader rest error)
  unfolding read_command write_payload
  command_back m {w} (ht, hs, hb) e = elim (Option-cases (write_text m.text maximum_search_size)) [
    | inl n ↦ absurd (ground (arith, e, n))
    | inr (text, et) ↦
        let (k1, k2, k3) = command_value_lem m.kind in
        let vt : valid_transaction m.transaction ≡ true = ground (arith, e) in
        let vk : (not (is_search_text m.kind) && not (is_empty m.text)) ≡ false =
          ground (arith, e) in
        let ew : m.transaction
              ++ (integer 4 m.sequence ++ (integer 1 (command_value m.kind) ++ text))
            ≡ w =
          ground (arith, e, et) in
        rw
          (
            ← ew,
            append_assoc,
            append_assoc,
            append_assoc,
            read_transaction-append m.transaction _ error ht.0,
            read_integer-integer 4 _ _ error four hs,
            read_integer-integer 1 _ _ error one k3,
            read_text-write_text m.text maximum_search_size rest error et,
            vt,
            k2,
            k1,
            vk,
          )
          refl
  ]

  selected_back :
      (m : Selected) {w : Bytes}
      → IsTyped (selected m)
      → write_payload (selected m) ≡ some w
      → read_selected (reader (w ++ rest) error) ≡ (some (selected m), reader rest error)
  unfolding read_selected write_payload
  selected_back m {w} (ht, hb) e =
      elim (Option-cases (write_text m.sequence maximum_selection_size)) [
        | inl n ↦ absurd (ground (arith, e, n))
        | inr (text, et) ↦
            let vt : valid_transaction m.transaction ≡ true = ground (arith, e) in
            let vs : is_empty m.sequence ≡ false = ground (arith, e) in
            let ew : m.transaction ++ text ≡ w = ground (arith, e, et) in
            rw
              (
                ← ew,
                append_assoc,
                read_transaction-append m.transaction _ error ht.0,
                read_text-write_text m.sequence maximum_selection_size rest error et,
                vt,
                vs,
              )
              refl
      ]

  ending_back :
      (is_hide : Bool) (m : Ending) {w : Bytes}
      → length m.transaction ≡ 16
      → write_ending m ≡ some w
      → read_ending is_hide (reader (w ++ rest) error)
        ≡ (some (if is_hide then hide m else cancelled m), reader rest error)
  unfolding read_ending write_ending
  ending_back is_hide m {w} ht e =
      let (k1, k2, k3) = reason_value_lem m.reason in
      let vt : valid_transaction m.transaction ≡ true = ground (arith, e) in
      let ew : m.transaction ++ integer 1 (reason_value m.reason) ≡ w = ground (arith, e) in
      rw
        (
          ← ew,
          append_assoc,
          read_transaction-append m.transaction _ error ht,
          read_integer-integer 1 _ _ error one k3,
          vt,
          k2,
          k1,
        )
        refl

  nonce_back :
      (is_ping : Bool) (nonce : ℕ)
      → nonce < 2 ^ 64
      → read_nonce is_ping (reader (integer 8 nonce ++ rest) error)
        ≡ (some (if is_ping then ping nonce else pong nonce), reader rest error)
  unfolding read_nonce
  nonce_back is_ping nonce h = rw (read_integer-integer 8 _ _ error eight h) refl

-- Reading behind a message's type gives back the payload that was written, for every payload that
-- `writePayload` accepts, and leaves what follows it.
pub read_payload-write_payload :
    (p : Payload) (rest : Bytes) (error : ProtocolError) {w : Bytes}
    → IsTyped p
    → IsSendable p
    → write_payload p ≡ some w
    → read_payload (message_type p) (reader (w ++ rest) error) ≡ (some p, reader rest error)
unfolding read_payload message_type write_payload
read_payload-write_payload (hello m) rest error t s e = hello_back rest error m t s e
read_payload-write_payload (welcome m) rest error t s e = welcome_back rest error m t s e
read_payload-write_payload (show m) rest error t s e = show_back rest error m t e
read_payload-write_payload (command m) rest error t s e = command_back rest error m t e
read_payload-write_payload (hide m) rest error t s e = ending_back rest error true m t.0 e
read_payload-write_payload (selected m) rest error t s e = selected_back rest error m t e
read_payload-write_payload (cancelled m) rest error t s e = ending_back rest error false m t.0 e
read_payload-write_payload (ping n) rest error {w} t s e =
    let ew : integer 8 n ≡ w = ground (arith, e) in rw (← ew) (nonce_back rest error true n t)
read_payload-write_payload (pong n) rest error {w} t s e =
    let ew : integer 8 n ≡ w = ground (arith, e) in rw (← ew) (nonce_back rest error false n t)
