-- ===== src/Transaction/RoundTrip.antt =====
-- src/ipc/protocol.cpp: `transactionIdFromString` and `transactionIdToString` together.
use fcitx5_emoji_palette.Prelude.{
  ℕ, ◌+◌, ◌*◌, ◌/◌, ◌%◌, ◌^◌, ◌<◌, bit_and, bit_or, Bool, true, false, ◌&&◌, Option, none, some, [],
  ◌∷◌, Bytes, IsByte, All, length, get_or, ltb, ◌==◌, ==_iff, ◌≡◌, refl, ap, ◌∙◌, arith, inl, inr,
  Bool-cases,
}
use fcitx5_emoji_palette.Prelude.Bits.{
  holds_below, holds_below_sound, bit_and-0x0F, bit_or-disjoint_4,
}
use fcitx5_emoji_palette.Protocol.{TransactionId, IsTransactionId}
use fcitx5_emoji_palette.Text.{digits}
use fcitx5_emoji_palette.Transaction.{
  decode_digit, join_digits, decode_digits, transaction_id_from_string, transaction_id_to_string,
}

abbrev gives : Option ℕ → (ℕ → Bool) → Bool
gives none p = true
gives (some n) p = p n

abbrev reads_back : ℕ → Bool
reads_back n = elim (decode_digit (get_or digits n 0)) [ none ↦ false | some v ↦ v == n ]

abbrev writes_back : ℕ → Bool
writes_back c = gives (decode_digit c) (λ n. get_or digits n 0 == c && ltb n 16)

decode_digit-digits : (n : ℕ) → n < 16 → decode_digit (get_or digits n 0) ≡ some n
decode_digit-digits n h =
    let t : reads_back n ≡ true =
      holds_below_sound reads_back 16 n (unfold holds_below decode_digit in refl) h in
    ground (arith, t)

digits-decode_digit : (c : ℕ) {n : ℕ} → decode_digit c ≡ some n → (get_or digits n 0 ≡ c) × (n < 16)
digits-decode_digit c {n} e =
    let l : c < 128 = unfold decode_digit in ground (arith, e) in
    let t : writes_back c ≡ true =
      holds_below_sound writes_back 128 c (unfold holds_below decode_digit in refl) l in
    ground (arith, t, e)

join : (h l : ℕ) → h < 16 → l < 16 → bit_or (h * 2 ^ 4) l % 256 ≡ h * 16 + l
join h l a b = omega (arith, bit_or-disjoint_4 h l b)

decode_digits-to_string :
    (t : Bytes) → All IsByte t → decode_digits (transaction_id_to_string t) ≡ some t
unfolding decode_digits join_digits transaction_id_to_string
decode_digits-to_string [] h = refl
decode_digits-to_string (b ∷ bs) h =
    let m = bit_and-0x0F b in
    let lo : bit_and b 0x0F < 16 = omega arith in
    let hi : b / 2 ^ 4 < 16 = omega (arith, h.0) in
    let j : bit_or (b / 2 ^ 4 * 2 ^ 4) (bit_and b 0x0F) % 256 ≡ b =
      join (b / 2 ^ 4) (bit_and b 0x0F) hi lo ∙ omega arith in
    rw (decode_digit-digits _ hi, decode_digit-digits _ lo, decode_digits-to_string bs h.1, j) refl

length-to_string : (t : Bytes) → length (transaction_id_to_string t) ≡ 2 * length t
unfolding transaction_id_to_string
length-to_string [] = refl
length-to_string (b ∷ bs) = omega (arith, length-to_string bs)

-- The text of a transaction identifier of 16 bytes reads back as the identifier.
pub from_string-to_string :
    (t : TransactionId)
    → IsTransactionId t
    → transaction_id_from_string (transaction_id_to_string t) ≡ some t
unfolding transaction_id_from_string
from_string-to_string t (l, h) =
    let n : length (transaction_id_to_string t) ≡ 32 = omega (arith, length-to_string t, l) in
    rw (n, decode_digits-to_string t h, transaction_id_from_string) refl

join_parts :
    (a b : Option ℕ) (c : Option Bytes) {t : Bytes}
    → join_digits a b c ≡ some t
    → (h : ℕ) × (l : ℕ) × (r : Bytes) × (a ≡ some h)
      × (b ≡ some l)
      × (c ≡ some r)
      × (t ≡ bit_or (h * 2 ^ 4) l % 256 ∷ r)
unfolding join_digits
join_parts (some h) (some l) (some r) e = (h, l, r, refl, refl, refl, ground (arith, e))
join_parts none b c e = absurd (ground (arith, e))
join_parts (some h) none c e = absurd (ground (arith, e))
join_parts (some h) (some l) none e = absurd (ground (arith, e))

decode_digits_sound :
    (v : Bytes) {t : Bytes}
    → decode_digits v ≡ some t
    → (transaction_id_to_string t ≡ v) × All IsByte t
unfolding decode_digits transaction_id_to_string
decode_digits_sound [] {t} e =
    let q : [] ≡ t = ground (arith, e) in rw (← q, transaction_id_to_string) (refl, tt)
decode_digits_sound (_ ∷ []) e = absurd (ground (arith, e))
decode_digits_sound (x ∷ y ∷ v) {t} e =
    let (h, l, r, eh, el, er, et) =
      join_parts (decode_digit x) (decode_digit y) (decode_digits v) e in
    let (dh, lh) = digits-decode_digit x eh in
    let (dl, ll) = digits-decode_digit y el in
    let (sr, br) = decode_digits_sound v er in
    let b = h * 16 + l in
    let q : t ≡ b ∷ r = et ∙ ap (λ z. z ∷ r) (join h l lh ll) in
    let hi : b / 2 ^ 4 ≡ h = omega arith in
    let lo : bit_and b 0x0F ≡ l = bit_and-0x0F b ∙ omega arith in
    rw (q, transaction_id_to_string, hi, lo, dh, dl, sr) (refl, (omega arith, br))

-- Whatever text reads as a transaction identifier is the text of that identifier, and the identifier
-- has 16 bytes: no other spelling is accepted.
pub to_string-from_string :
    (v : Bytes) {t : TransactionId}
    → transaction_id_from_string v ≡ some t
    → (transaction_id_to_string t ≡ v) × IsTransactionId t
unfolding transaction_id_from_string
to_string-from_string v {t} e = elim (Bool-cases (length v == 32)) [
  | inl a ↦
      let d : decode_digits v ≡ some t = simp (a, transaction_id_from_string) at e in
      let n : length v ≡ 32 = (==_iff (length v) 32).0 a in
      let (s, b) = decode_digits_sound v d in
      (s, (omega (arith, length-to_string t, ap length s, n), b))
  | inr a ↦
      let d : none ≡ some t = simp (a, transaction_id_from_string) at e in
      absurd (ground (arith, d))
]
