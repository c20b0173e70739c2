-- ===== src/Session/Order.antt =====
-- src/ipc/session.cpp: `SequenceValidator` and `ReconnectBackoff`.
use fcitx5_emoji_palette.Prelude.{
  ℕ, ◌*◌, ◌%◌, ◌^◌, ◌≤◌, ◌<◌, min, Bool, true, false, ◌||◌, Option, none, some, List, [], ◌∷◌,
  equal_iff, leb, ltb, ◌==◌, if◌then◌else◌, ◌≡◌, refl, sym, ap, ◌↔◌, arith, inl, inr, Bool-cases,
  ◌⊎◌, subst, zero, suc,
}
use fcitx5_emoji_palette.Protocol.{TransactionId}
use fcitx5_emoji_palette.Session.{SequenceValidator, accept, differs, next_delay_milliseconds}

-- A command is accepted exactly for the current transaction, with a number above the last one.
pub accept_iff :
    (t : TransactionId) (n : ℕ) (v : SequenceValidator)
    → ((accept t n v).0 ≡ true) ↔ ((v.transaction ≡ some t) × (v.last_sequence < n))
unfolding accept
accept_iff t n v = (
  λ h. elim (Bool-cases (differs v.transaction t)) [
    | inl d ↦ absurd (ground (arith, h, d))
    | inr d ↦ (same v.transaction t d, ground (arith, h, d))
  ],
  λ p. ground (arith, p.1, same_back v.transaction t p.0),
)
  where
    same : (o : Option TransactionId) (t : TransactionId) → differs o t ≡ false → o ≡ some t
    same none t d = absurd (cc d)
    same (some u) t d = ap some ((equal_iff u t).0 (ground (arith, d)))

    same_back : (o : Option TransactionId) (t : TransactionId) → o ≡ some t → differs o t ≡ false
    same_back o t e = ground (arith, e, (equal_iff t t).1 refl)

abbrev collect : ℕ → (SequenceValidator → List ℕ) → Bool × SequenceValidator → List ℕ
collect n f (true, v) = n ∷ f v
collect n f (false, v) = f v

-- The numbers that are accepted out of a list of commands, in order.
abbrev pub accepted : List (TransactionId × ℕ) → SequenceValidator → List ℕ
accepted [] v = []
accepted ((t, n) ∷ r) v = collect n (accepted r) (accept t n v)

-- Strictly increasing, and above `m`.
abbrev pub IsIncreasing : ℕ → List ℕ → Type 0
IsIncreasing m [] = Unit {0}
IsIncreasing m (n ∷ r) = (m < n) × IsIncreasing n r

pub accept_cases :
    (t : TransactionId) (n : ℕ) (v : SequenceValidator)
    → (accept t n v ≡ (false, v))
      ⊎ ((v.last_sequence < n) × (accept t n v ≡ (true, record v { last_sequence = n })))
unfolding accept
accept_cases t n v =
    elim (Bool-cases (differs v.transaction t || n == 0 || leb n v.last_sequence)) [
      | inl b ↦ inl (rw (b, accept))
      | inr b ↦ inr (ground (arith, b), rw (b, accept))
    ]

-- Whatever commands arrive, in whatever order and however often repeated, the accepted numbers are
-- strictly increasing and above the last accepted one: none is accepted twice.
pub accepted-IsIncreasing :
    (r : List (TransactionId × ℕ)) (v : SequenceValidator)
    → IsIncreasing v.last_sequence (accepted r v)
accepted-IsIncreasing [] v = tt
accepted-IsIncreasing ((t, n) ∷ r) v = elim (accept_cases t n v) [
  | inl e ↦
      subst (IsIncreasing v.last_sequence) (sym (ap (collect n (accepted r)) e))
        (accepted-IsIncreasing r v)
  | inr (lt, e) ↦
      let v' = record v { last_sequence = n } in
      subst (IsIncreasing v.last_sequence) (sym (ap (collect n (accepted r)) e))
        (lt, accepted-IsIncreasing r v')
]

delay_small : (a : ℕ) → a ≤ 6 → (100 * 2 ^ min a 6 % 2 ^ 32 ≡ 100 * 2 ^ a)
delay_small a h = let e : min a 6 ≡ a = omega arith in rw e (small a h)
  where
    small : (a : ℕ) → a ≤ 6 → 100 * 2 ^ a % 2 ^ 32 ≡ 100 * 2 ^ a
    small zero h = refl
    small (suc zero) h = refl
    small (suc (suc zero)) h = refl
    small (suc (suc (suc zero))) h = refl
    small (suc (suc (suc (suc zero)))) h = refl
    small (suc (suc (suc (suc (suc zero))))) h = refl
    small (suc (suc (suc (suc (suc (suc zero)))))) h = refl
    small (suc (suc (suc (suc (suc (suc (suc n))))))) h = absurd (omega arith)

delay_large : (a : ℕ) → 6 ≤ a → (next_delay_milliseconds a).0 ≡ 5000
unfolding next_delay_milliseconds
delay_large a h = let e : min a 6 ≡ 6 = omega arith in rw e refl

-- The delay of attempt `a` is 100 * 2 ^ a milliseconds below attempt 6 and 5000 from there on; the
-- wrap-around of the 32-bit product never shows.
pub next_delay_milliseconds_lem :
    (a : ℕ) → (next_delay_milliseconds a).0 ≡ (if ltb a 6 then 100 * 2 ^ a else 5000)
unfolding next_delay_milliseconds
next_delay_milliseconds_lem a = elim (Bool-cases (ltb a 6)) [
  | inl h ↦ rw (h, delay_small a (ground (arith, h))) (below a (ground (arith, h)))
  | inr h ↦ rw h (delay_large a (ground (arith, h)))
]
  where
    below : (a : ℕ) → a < 6 → min (100 * 2 ^ a) 5000 ≡ 100 * 2 ^ a
    below zero h = refl
    below (suc zero) h = refl
    below (suc (suc zero)) h = refl
    below (suc (suc (suc zero))) h = refl
    below (suc (suc (suc (suc zero)))) h = refl
    below (suc (suc (suc (suc (suc zero))))) h = refl
    below (suc (suc (suc (suc (suc (suc n)))))) h = absurd (omega arith)
