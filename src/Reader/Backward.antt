-- ===== src/Reader/Backward.antt =====
-- What a successful read of a payload has taken is exactly what the writer writes for the payload.
use fcitx5_emoji_palette.Prelude.{
  ℕ, Bool, not, ◌||◌, Option, none, some, ◌++◌, Bytes, ltb, ◌==◌, if◌then◌else◌, ◌≡◌, refl, arith,
  inl, inr, ◌>>=◌, ◌>>◌, guard, Bool-cases, ltb,
}
use fcitx5_emoji_palette.Codes.{
  valid_transaction, is_empty, message_type, reason_value, reason_of, valid_cancel_reason,
}
use fcitx5_emoji_palette.Codes.Values.{reason_of_lem}
use fcitx5_emoji_palette.Writer.{integer, write_ending, write_payload}
use fcitx5_emoji_palette.Reader.{Reader}
use fcitx5_emoji_palette.Reader.Integers.{Took, ReadInteger}
use fcitx5_emoji_palette.Reader.Fields.{Took-trans, ReadTransaction, ReadText}
use fcitx5_emoji_palette.Reader.Forward.{IsSendable}
use fcitx5_emoji_palette.Protocol.{
  TransactionId, Ending, Payload, hello, welcome, hide, selected, cancelled, IsTyped,
  maximum_selection_size,
}

-- The reader `r'` has read from `r` the encoding of the payload.
pub record TookPayload (type : ℕ) (r r' : Reader) (p : Payload) : Type 0 where
  pub bytes : Bytes
  pub written : write_payload p ≡ some bytes
  pub took : Took r r' bytes
  pub typed : IsTyped p
  pub sendable : IsSendable p
  pub type_is : message_type p ≡ type

abbrev pub ReadPayload : ℕ → Reader → Option Payload × Reader → Type 0
ReadPayload type r (none, r') = Unit
ReadPayload type r (some p, r') = TookPayload type r r' p

pub hello_of :
    (a b c d : Option ℕ) (r r1 r2 r3 r4 : Reader)
    → ReadInteger 2 r (a, r1)
    → ReadInteger 2 r1 (b, r2)
    → ReadInteger 8 r2 (c, r3)
    → ReadInteger 4 r3 (d, r4)
    → ReadPayload 1 r (
      do
        minimum ← a
        maximum ← b
        nonce ← c
        capabilities ← d
        guard (not (minimum == 0 || ltb maximum minimum))
        some (
            hello (record {
              minimum_version = minimum;
              maximum_version = maximum;
              nonce = nonce;
              capabilities = capabilities;
            })),
      r4,
    )
unfolding write_payload message_type
hello_of (some a) (some b) (some c) (some d) r r1 r2 r3 r4 (ta, ba) (tb, bb) (tc, bc) (td, bd) =
    elim (Bool-cases (a == 0 || ltb b a)) [
      | inl bad ↦ rw bad tt
      | inr good ↦ rw good (record {
        bytes = integer 2 a ++ (integer 2 b ++ (integer 8 c ++ integer 4 d));
        written = refl;
        took = Took-trans _ _ ta (Took-trans _ _ tb (Took-trans _ _ tc td));
        typed = (ba, bb, bc, bd);
        sendable = (ground (arith, good), ground (arith, good));
        type_is = refl;
      })
    ]
hello_of none _ _ _ r r1 r2 r3 r4 _ _ _ _ = tt
hello_of (some x) none _ _ r r1 r2 r3 r4 _ _ _ _ = tt
hello_of (some x) (some y) none _ r r1 r2 r3 r4 _ _ _ _ = tt
hello_of (some x) (some y) (some z) none r r1 r2 r3 r4 _ _ _ _ = tt

pub welcome_of :
    (a c d : Option ℕ) (r r1 r3 r4 : Reader)
    → ReadInteger 2 r (a, r1)
    → ReadInteger 8 r1 (c, r3)
    → ReadInteger 4 r3 (d, r4)
    → ReadPayload 2 r (
      do
        chosen ← a
        nonce ← c
        capabilities ← d
        guard (not (chosen == 0))
        some (
            welcome
              (record { selected_version = chosen; nonce = nonce; capabilities = capabilities })),
      r4,
    )
unfolding write_payload message_type
welcome_of (some a) (some c) (some d) r r1 r3 r4 (ta, ba) (tc, bc) (td, bd) =
    elim (Bool-cases (a == 0)) [
      | inl bad ↦ rw bad tt
      | inr good ↦ rw good (record {
        bytes = integer 2 a ++ (integer 8 c ++ integer 4 d);
        written = refl;
        took = Took-trans _ _ ta (Took-trans _ _ tc td);
        typed = (ba, bc, bd);
        sendable = ground (arith, good);
        type_is = refl;
      })
    ]
welcome_of none _ _ r r1 r3 r4 _ _ _ = tt
welcome_of (some x) none _ r r1 r3 r4 _ _ _ = tt
welcome_of (some x) (some y) none r r1 r3 r4 _ _ _ = tt

pub selected_of :
    (a : Option TransactionId) (b : Option Bytes) (r r1 r2 : Reader)
    → ReadTransaction r (a, r1)
    → ReadText maximum_selection_size r1 (b, r2)
    → ReadPayload 6 r (
      do
        transaction ← a
        guard (valid_transaction transaction)
        sequence ← b
        guard (not (is_empty sequence))
        some (selected (record { transaction = transaction; sequence = sequence })),
      r2,
    )
unfolding write_payload message_type
selected_of none _ r r1 r2 _ _ = tt
selected_of (some t) none r r1 r2 _ _ = elim (Bool-cases (valid_transaction t)) [
  | inl v ↦ rw v tt
  | inr v ↦ rw v tt
]
selected_of (some t) (some s) r r1 r2 (tt1, it) (w, ew, tw, iw) =
    elim (Bool-cases (valid_transaction t)) [
      | inr v ↦ rw v tt
      | inl v ↦ elim (Bool-cases (is_empty s)) [
        | inl n ↦ rw (v, n) tt
        | inr n ↦
            rw (v, n)
              (record {
                bytes = t ++ w;
                written = ground (arith, v, n, ew);
                took = Took-trans _ _ tt1 tw;
                typed = (it, iw);
                sendable = tt;
                type_is = refl;
              })
      ]
    ]

pub ending_of :
    (is_hide : Bool) (a : Option TransactionId) (b : Option ℕ) (r r1 r2 : Reader)
    → ReadTransaction r (a, r1)
    → ReadInteger 1 r1 (b, r2)
    → ReadPayload (if is_hide then 5 else 7) r (
      do
        transaction ← a
        guard (valid_transaction transaction)
        reason ← b
        guard (valid_cancel_reason reason)
        let ending : Ending = record { transaction = transaction; reason = reason_of reason }
        some (if is_hide then hide ending else cancelled ending),
      r2,
    )
unfolding write_payload write_ending message_type
ending_of is_hide none _ r r1 r2 _ _ = tt
ending_of is_hide (some t) none r r1 r2 _ _ = elim (Bool-cases (valid_transaction t)) [
  | inl v ↦ rw v tt
  | inr v ↦ rw v tt
]
ending_of is_hide (some t) (some k) r r1 r2 (tt1, it) (tk, bk) =
    elim (Bool-cases (valid_transaction t)) [
      | inr v ↦ rw v tt
      | inl v ↦ elim (Bool-cases (valid_cancel_reason k)) [
        | inr n ↦ rw (v, n) tt
        | inl n ↦ elim (Bool-cases is_hide) [
          | inl h ↦
              rw (v, n, h)
                (record {
                  bytes = t ++ integer 1 (reason_value (reason_of k));
                  written = ground (arith, v);
                  took = Took-trans _ _ tt1 (rw (reason_of_lem k n) tk);
                  typed = it;
                  sendable = tt;
                  type_is = refl;
                })
          | inr h ↦
              rw (v, n, h)
                (record {
                  bytes = t ++ integer 1 (reason_value (reason_of k));
                  written = ground (arith, v);
                  took = Took-trans _ _ tt1 (rw (reason_of_lem k n) tk);
                  typed = it;
                  sendable = tt;
                  type_is = refl;
                })
        ]
      ]
    ]
