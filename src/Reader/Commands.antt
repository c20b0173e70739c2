-- ===== src/Reader/Commands.antt =====
-- `Show` and `Command`: what a successful read has taken is what the writer writes.
use fcitx5_emoji_palette.Prelude.{
  ℕ, ◌≤◌, Bool, true, false, not, ◌&&◌, Option, none, some, ◌++◌, Bytes, ltb, ◌==◌, ◌≡◌, refl,
  arith, inl, inr, ◌>>=◌, ◌>>◌, guard, Bool-cases,
}
use fcitx5_emoji_palette.Codes.{
  valid_rectangle, valid_transaction, is_search_text, is_empty, message_type, command_value,
  locale_value, bool_value, command_of, locale_of, valid_command_kind, valid_locale,
}
use fcitx5_emoji_palette.Codes.Values.{command_of_lem, locale_of_lem, bool_of_lem}
use fcitx5_emoji_palette.Writer.{integer, write_rectangle, write_payload}
use fcitx5_emoji_palette.Reader.{Reader, show_error}
use fcitx5_emoji_palette.Reader.Integers.{Took, ReadInteger}
use fcitx5_emoji_palette.Reader.Fields.{Took-trans, ReadTransaction, ReadText, ReadRectangle}
use fcitx5_emoji_palette.Reader.Backward.{ReadPayload}
use fcitx5_emoji_palette.Protocol.{
  TransactionId, Rect, Show, Payload, show, command, maximum_search_size,
}

abbrev pub command_result :
    Option TransactionId → Option ℕ → Option ℕ → Option Bytes → Option Payload
command_result transaction sequence kind text = do
  transaction ← transaction
  guard (valid_transaction transaction)
  sequence ← sequence
  kind ← kind
  text ← text
  guard (valid_command_kind kind)
  guard (not (not (is_search_text (command_of kind)) && not (is_empty text)))
  some (
      command (record {
        transaction = transaction;
        sequence = sequence;
        kind = command_of kind;
        text = text;
      }))

pub command_of_parts :
    (a : Option TransactionId) (b c : Option ℕ) (d : Option Bytes) (r r1 r2 r3 r4 : Reader)
    → ReadTransaction r (a, r1)
    → ReadInteger 4 r1 (b, r2)
    → ReadInteger 1 r2 (c, r3)
    → ReadText maximum_search_size r3 (d, r4)
    → ReadPayload 4 r (command_result a b c d, r4)
unfolding write_payload message_type
command_of_parts (some t) (some s) (some k) (some x) r r1 r2 r3 r4 (t1, it) (t2, is) (t3, ik)
      (w, ew, t4, ix) =
    elim (Bool-cases (valid_transaction t)) [
      | inr v ↦ rw v tt
      | inl v ↦ elim (Bool-cases (valid_command_kind k)) [
        | inr n ↦ rw (v, n) tt
        | inl n ↦ elim (Bool-cases (not (is_search_text (command_of k)) && not (is_empty x))) [
          | inl m ↦ rw (v, n, m) tt
          | inr m ↦
              rw (v, n, m)
                (record {
                  bytes = t ++ (integer 4 s ++ (integer 1 (command_value (command_of k)) ++ w));
                  written = rw (v, m, ew, write_payload) refl;
                  took =
                      Took-trans _ _ t1
                        (Took-trans _ _ t2 (Took-trans _ _ (rw (command_of_lem k n) t3) t4));
                  typed = (it, is, ix);
                  sendable = tt;
                  type_is = refl;
                })
        ]
      ]
    ]
command_of_parts none _ _ _ r r1 r2 r3 r4 _ _ _ _ = tt
command_of_parts (some t) none _ _ r r1 r2 r3 r4 _ _ _ _ = elim (Bool-cases (valid_transaction t)) [
  | inl v ↦ rw v tt
  | inr v ↦ rw v tt
]
command_of_parts (some t) (some s) none _ r r1 r2 r3 r4 _ _ _ _ =
    elim (Bool-cases (valid_transaction t)) [ inl v ↦ rw v tt | inr v ↦ rw v tt ]
command_of_parts (some t) (some s) (some k) none r r1 r2 r3 r4 _ _ _ _ =
    elim (Bool-cases (valid_transaction t)) [ inl v ↦ rw v tt | inr v ↦ rw v tt ]

-- The last test of `Show`.
abbrev pub show_test : Rect → Rect → ℕ → ℕ → ℕ → Bool
show_test caret screen locale scale close =
    valid_rectangle caret
    && valid_rectangle screen
    && valid_locale locale
    && not (ltb scale 50)
    && not (ltb 400 scale)
    && not (ltb 1 close)

abbrev pub show_value : TransactionId → Rect → Rect → ℕ → ℕ → ℕ → Show
show_value transaction caret screen locale scale close = record {
  transaction = transaction;
  caret = caret;
  screen = screen;
  locale = locale_of locale;
  scale_percent = scale;
  close_after_selection = close == 1;
}

abbrev pub show_result :
    Option TransactionId
    → Option Rect
    → Option Rect
    → Option ℕ
    → Option ℕ
    → Option ℕ
    → Option Payload
show_result transaction caret screen locale scale close = do
  transaction ← transaction
  guard (valid_transaction transaction)
  caret ← caret
  screen ← screen
  locale ← locale
  scale ← scale
  close ← close
  guard (show_test caret screen locale scale close)
  some (show (show_value transaction caret screen locale scale close))

-- The parts of a passed test.
show_test_parts :
    (caret screen : Rect) (locale scale close : ℕ)
    → show_test caret screen locale scale close ≡ true
    → (valid_rectangle caret ≡ true)
      × (valid_rectangle screen ≡ true)
      × (valid_locale locale ≡ true)
      × (50 ≤ scale)
      × (scale ≤ 400)
      × (close ≤ 1)
show_test_parts caret screen locale scale close h = ground arith

module _ (t : TransactionId) (c s : Rect) (l p k : ℕ) where
  abbrev show_bytes : Bytes
  show_bytes =
      t
      ++ (write_rectangle c
          ++ (write_rectangle s
              ++ (integer 1 (locale_value (locale_of l))
                  ++ (integer 2 p ++ integer 1 (bool_value (k == 1))))))

  show_written :
      valid_transaction t ≡ true
      → show_test c s l p k ≡ true
      → write_payload (show (show_value t c s l p k)) ≡ some show_bytes
  unfolding write_payload
  show_written v h =
      let (hc, hs, hl, lo, hi, hk) = show_test_parts c s l p k h in
      ground (arith, v, hc, hs, lo, hi)

  show-Took :
      (r r1 r2 r3 r4 r5 r6 : Reader)
      → show_test c s l p k ≡ true
      → Took r r1 t
      → Took r1 r2 (write_rectangle c)
      → Took r2 r3 (write_rectangle s)
      → Took r3 r4 (integer 1 l)
      → Took r4 r5 (integer 2 p)
      → Took r5 r6 (integer 1 k)
      → Took r r6 show_bytes
  show-Took r r1 r2 r3 r4 r5 r6 h a b d e f g =
      let (hc, hs, hl, lo, hi, hk) = show_test_parts c s l p k h in
      rw (locale_of_lem l hl, bool_of_lem k hk)
        (Took-trans _ _ a
          (Took-trans _ _ b (Took-trans _ _ d (Took-trans _ _ e (Took-trans _ _ f g)))))

guard-none :
    (b : Bool) (type : ℕ) (r r' : Reader) (f : Option Payload → Reader)
    → ReadPayload type r (guard b >> none, f (guard b >> none))
guard-none true type r r' f = tt
guard-none false type r r' f = tt

pub show_of_parts :
    (a : Option TransactionId) (b c : Option Rect) (d e f : Option ℕ) (r r1 r2 r3 r4 r5 r6 : Reader)
    → ReadTransaction r (a, r1)
    → ReadRectangle r1 (b, r2)
    → ReadRectangle r2 (c, r3)
    → ReadInteger 1 r3 (d, r4)
    → ReadInteger 2 r4 (e, r5)
    → ReadInteger 1 r5 (f, r6)
    → ReadPayload 3 r (show_result a b c d e f, show_error (show_result a b c d e f) r6)
unfolding message_type show_error
show_of_parts (some t) (some c) (some s) (some l) (some p) (some k) r r1 r2 r3 r4 r5 r6 (ta, it)
      (tc, ic) (ts, is) (tl, il) (tp, ip) (tk, ik) =
    elim (Bool-cases (valid_transaction t)) [
      | inr v ↦ rw v tt
      | inl v ↦ elim (Bool-cases (show_test c s l p k)) [
        | inr n ↦ rw (v, n) tt
        | inl n ↦
            rw (v, n)
              (record {
                bytes = show_bytes t c s l p k;
                written = show_written t c s l p k v n;
                took = show-Took t c s l p k r r1 r2 r3 r4 r5 r6 n ta tc ts tl tp tk;
                typed = (it, ic, is, ip);
                sendable = tt;
                type_is = refl;
              })
      ]
    ]
show_of_parts none _ _ _ _ _ r r1 r2 r3 r4 r5 r6 _ _ _ _ _ _ = tt
show_of_parts (some t) none _ _ _ _ r r1 r2 r3 r4 r5 r6 _ _ _ _ _ _ =
    guard-none (valid_transaction t) 3 r r6 (λ o. show_error o r6)
show_of_parts (some t) (some c) none _ _ _ r r1 r2 r3 r4 r5 r6 _ _ _ _ _ _ =
    guard-none (valid_transaction t) 3 r r6 (λ o. show_error o r6)
show_of_parts (some t) (some c) (some s) none _ _ r r1 r2 r3 r4 r5 r6 _ _ _ _ _ _ =
    guard-none (valid_transaction t) 3 r r6 (λ o. show_error o r6)
show_of_parts (some t) (some c) (some s) (some l) none _ r r1 r2 r3 r4 r5 r6 _ _ _ _ _ _ =
    guard-none (valid_transaction t) 3 r r6 (λ o. show_error o r6)
show_of_parts (some t) (some c) (some s) (some l) (some p) none r r1 r2 r3 r4 r5 r6 _ _ _ _ _ _ =
    guard-none (valid_transaction t) 3 r r6 (λ o. show_error o r6)
