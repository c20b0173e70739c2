-- ===== src/Session/Handshake.antt =====
-- src/ipc/session.cpp: histories of calls of `PeerSession`.
use fcitx5_emoji_palette.Prelude.{
  ℕ, true, none, some, List, [], ◌∷◌, Bytes, equal, equal_iff, ◌==◌, ◌≡◌, ◌≢◌, refl, sym, ap, ◌∙◌,
  arith, inl, inr, Bool-cases, subst,
}
use fcitx5_emoji_palette.Protocol.{Welcome}
use fcitx5_emoji_palette.Session.{
  SessionState, negotiating, ready, PeerSession, initial_session, begin, accept_welcome, accepts,
  owner_lost, negotiation_expired, is_negotiating,
}

-- The calls on a session.
pub data Event : Type 0 where
  begun : Bytes → ℕ → ℕ → Event
  welcomed : Bytes → Welcome → Event
  lost : Bytes → Event
  expired : Event

unfoldable pub step : Event → PeerSession → PeerSession
unfolding begin accept_welcome owner_lost negotiation_expired
step (begun owner nonce capabilities) s = (begin owner nonce capabilities s).1
step (welcomed sender w) s = (accept_welcome sender w s).1
step (lost owner) s = owner_lost owner s
step expired s = negotiation_expired s

-- The session after a history of calls, the latest first.
unfoldable pub run : List Event → PeerSession
run [] = initial_session
run (e ∷ es) = step e (run es)

-- Calls that do not end the handshake with this owner.
abbrev pub Keeps : Bytes → Event → Type 0
Keeps owner (begun _ _ _) = ⊥
Keeps owner (welcomed _ _) = Unit {0}
Keeps owner (lost other) = other ≢ owner
Keeps owner expired = Unit {0}

-- A handshake with `owner` and `nonce` was begun, and has not been ended since.
pub data Began (owner : Bytes) (nonce : ℕ) : List Event → Type 0 where
  now :
      (capabilities : ℕ) (es : List Event) → Began owner nonce (begun owner nonce capabilities ∷ es)
  later :
      (e : Event) {es : List Event}
      → Keeps owner e
      → Began owner nonce es
      → Began owner nonce (e ∷ es)

-- It was answered by the same owner, with the same nonce and this protocol version.
pub data Established (owner : Bytes) : List Event → Type 0 where
  answered :
      (w : Welcome) (nonce : ℕ) (es : List Event)
      → Began owner nonce es
      → w.nonce ≡ nonce
      → w.selected_version ≡ 1
      → Established owner (welcomed owner w ∷ es)
  kept :
      (e : Event) {es : List Event}
      → Keeps owner e
      → Established owner es
      → Established owner (e ∷ es)

-- What the state of a session says of its history.
pub record Explains (es : List Event) (s : PeerSession) : Type 0 where
  pub began : s.state ≡ negotiating → Began s.owner s.nonce es
  pub established : s.state ≡ ready → Established s.owner es
  pub ready_version : s.state ≡ ready → s.version ≡ some 1
  pub other_version : s.state ≢ ready → s.version ≡ none

-- A call that changes nothing and keeps the handshake.
still :
    (e : Event) (es : List Event) (s : PeerSession)
    → Explains es s
    → Keeps s.owner e
    → Explains (e ∷ es) s
still e es s h k = record {
  began = λ q. later e k (h.began q);
  established = λ q. kept e k (h.established q);
  ready_version = h.ready_version;
  other_version = h.other_version;
}

-- A session that is neither negotiating nor ready.
off :
    (es : List Event) (s : PeerSession)
    → s.state ≢ negotiating
    → s.state ≢ ready
    → s.version ≡ none
    → Explains es s
off es s a b v = record {
  began = λ q. absurd (a q);
  established = λ q. absurd (b q);
  ready_version = λ q. absurd (b q);
  other_version = λ _. v;
}

not_negotiating : (m : SessionState) → is_negotiating m ≡ true → m ≡ negotiating
not_negotiating m h = ground (arith, h)

module _ (es : List Event) (s : PeerSession) (h : Explains es s) where
  begun-Explains : (o : Bytes) (n c : ℕ) → Explains (begun o n c ∷ es) (begin o n c s).1
  unfolding begin
  begun-Explains o n c = record {
    began = λ _. now c es;
    established = λ q. absurd (cc q);
    ready_version = λ q. absurd (cc q);
    other_version = λ _. refl;
  }

  lost-Explains : (o : Bytes) → Explains (lost o ∷ es) (owner_lost o s)
  unfolding owner_lost
  lost-Explains o = elim (Bool-cases (equal o s.owner)) [
    | inl same ↦ rw (same, owner_lost) (off _ _ (λ q. cc q) (λ q. cc q) refl)
    | inr other ↦
        rw (other, owner_lost) (still (lost o) es s h (λ q. cc (other, (equal_iff o s.owner).1 q)))
  ]

  expired-Explains : Explains (expired ∷ es) (negotiation_expired s)
  unfolding negotiation_expired
  expired-Explains = elim (Bool-cases (is_negotiating s.state)) [
    | inl n ↦ rw (n, negotiation_expired) (off _ _ (λ q. cc q) (λ q. cc q) refl)
    | inr n ↦ rw (n, negotiation_expired) (still expired es s h tt)
  ]

  welcomed-Explains :
      (o : Bytes) (w : Welcome) → Explains (welcomed o w ∷ es) (accept_welcome o w s).1
  unfolding accept_welcome
  welcomed-Explains o w = elim (Bool-cases (is_negotiating s.state)) [
    | inr n ↦ rw (n, accept_welcome) (still (welcomed o w) es s h tt)
    | inl n ↦ elim (Bool-cases (equal o s.owner)) [
      | inr m ↦ rw (n, m, accept_welcome) (still (welcomed o w) es s h tt)
      | inl m ↦ elim (Bool-cases (w.nonce == s.nonce)) [
        | inr k ↦ rw (n, m, k, accept_welcome) (still (welcomed o w) es s h tt)
        | inl k ↦ elim (Bool-cases (w.selected_version == 1)) [
          | inr v ↦ rw (n, m, k, v, accept_welcome) (off _ _ (λ q. cc q) (λ q. cc q) refl)
          | inl v ↦
              rw (n, m, k, v, accept_welcome)
                (record {
                  began = λ q. absurd (cc q);
                  established = λ _.
                      subst (λ u. Established u (welcomed o w ∷ es)) ((equal_iff o s.owner).0 m)
                        (answered w s.nonce es
                          (subst (λ u. Began u s.nonce es) (sym ((equal_iff o s.owner).0 m))
                            (h.began (not_negotiating s.state n)))
                          (ground (arith, k)) (ground (arith, v)));
                  ready_version = λ _. ap some (ground (arith, v));
                  other_version = λ q. absurd (q refl);
                })
        ]
      ]
    ]
  ]

run-Explains : (es : List Event) → Explains es (run es)
unfolding run step
run-Explains [] = off [] initial_session (λ q. cc q) (λ q. cc q) refl
run-Explains (begun o n c ∷ es) = begun-Explains es (run es) (run-Explains es) o n c
run-Explains (welcomed o w ∷ es) = welcomed-Explains es (run es) (run-Explains es) o w
run-Explains (lost o ∷ es) = lost-Explains es (run es) (run-Explains es) o
run-Explains (expired ∷ es) = expired-Explains es (run es) (run-Explains es)

ready_parts :
    (sender : Bytes) (s : PeerSession)
    → accepts sender s ≡ true
    → (s.state ≡ ready) × (sender ≡ s.owner)
unfolding accepts
ready_parts sender s h = elim (Bool-cases (equal sender s.owner)) [
  | inl e ↦ (ground (arith, h, e), (equal_iff sender s.owner).0 e)
  | inr e ↦ absurd (ground (arith, h, e))
]

-- Over every history of calls, frames of a sender are accepted only if a handshake with that sender
-- was begun, it was answered by that sender with the same nonce and this protocol version, and since
-- then no other handshake was begun and that owner was not lost; the negotiated version is then 1.
pub accepts-Established :
    (es : List Event) (sender : Bytes)
    → accepts sender (run es) ≡ true
    → Established sender es × ((run es).version ≡ some 1)
accepts-Established es sender h =
    let (e, o) = ready_parts sender (run es) h in
    let x = run-Explains es in
    (subst (λ u. Established u es) (sym o) (x.established e), x.ready_version e)

-- At most one sender is accepted at any time.
pub accepts_unique :
    (es : List Event) (a b : Bytes) → accepts a (run es) ≡ true → accepts b (run es) ≡ true → a ≡ b
accepts_unique es a b ha hb = (ready_parts a (run es) ha).1 ∙ sym (ready_parts b (run es) hb).1
