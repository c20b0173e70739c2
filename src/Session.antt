-- ===== src/Session.antt =====
-- src/ipc/session.cpp: the addon's side of the handshake, the reconnection delays, and the check of
-- command sequence numbers.
pub mod Handshake
pub mod Order
pub mod Opening
use fcitx5_emoji_palette.Prelude.{
  ℕ, ◌+◌, ◌*◌, ◌%◌, ◌^◌, min, Bool, true, false, not, ◌&&◌, ◌||◌, Option, none, some, List, [], ◌∷◌,
  Bytes, equal, ltb, leb, ◌==◌, if◌then◌else◌,
}
use fcitx5_emoji_palette.Protocol.{protocol_version, TransactionId, Hello, Welcome, hello, Envelope}

pub data SessionState : Type 0 where
  disconnected negotiating ready incompatible : SessionState

pub record PeerSession : Type 0 where
  pub state : SessionState
  pub owner : Bytes
  pub nonce : ℕ
  pub generation : ℕ
  pub version : Option ℕ

abbrev pub initial_session : PeerSession
initial_session = record {
  state = disconnected;
  owner = [];
  nonce = 0;
  generation = 0;
  version = none;
}

abbrev pub next_u64 : ℕ → ℕ
next_u64 n = (n + 1) % 2 ^ 64

abbrev pub next_u32 : ℕ → ℕ
next_u32 n = (n + 1) % 2 ^ 32

unfoldable pub begin : Bytes → ℕ → ℕ → PeerSession → Envelope × PeerSession
begin owner nonce capabilities s = (
  record {
    version = protocol_version;
    payload = hello (record {
      minimum_version = protocol_version;
      maximum_version = protocol_version;
      nonce = nonce;
      capabilities = capabilities;
    });
  },
  record {
    state = negotiating;
    owner = owner;
    nonce = nonce;
    generation = next_u64 s.generation;
    version = none;
  },
)

abbrev pub is_negotiating : SessionState → Bool
is_negotiating negotiating = true
is_negotiating _ = false

abbrev pub is_ready : SessionState → Bool
is_ready ready = true
is_ready _ = false

unfoldable pub accept_welcome : Bytes → Welcome → PeerSession → Bool × PeerSession
accept_welcome sender w s =
    if not (is_negotiating s.state) || not (equal sender s.owner) || not (w.nonce == s.nonce)
    then (false, s)
    else if not (w.selected_version == protocol_version)
    then (false, record s { state = incompatible; version = none })
    else (true, record s { state = ready; version = some w.selected_version })

unfoldable pub accepts : Bytes → PeerSession → Bool
accepts sender s = is_ready s.state && equal sender s.owner

-- The common end of `ownerLost` and `negotiationExpired`.
abbrev pub disconnect : PeerSession → PeerSession
disconnect s = record {
  state = disconnected;
  owner = [];
  nonce = 0;
  generation = next_u64 s.generation;
  version = none;
}

unfoldable pub owner_lost : Bytes → PeerSession → PeerSession
owner_lost owner s = if not (equal owner s.owner) then s else disconnect s

unfoldable pub negotiation_expired : PeerSession → PeerSession
negotiation_expired s = if not (is_negotiating s.state) then s else disconnect s

-- `ReconnectBackoff`: the attempts so far; the delay and the state behind it.
unfoldable pub next_delay_milliseconds : ℕ → ℕ × ℕ
next_delay_milliseconds attempt = (min (100 * 2 ^ min attempt 6 % 2 ^ 32) 5000, next_u32 attempt)

-- `ReconnectBackoff::reset`.
unfoldable pub reset_attempt : ℕ → ℕ
reset_attempt attempt = 0

pub record SequenceValidator : Type 0 where
  pub transaction : Option TransactionId
  pub last_sequence : ℕ

abbrev pub no_sequence : SequenceValidator
no_sequence = record { transaction = none; last_sequence = 0 }

unfoldable pub begin_sequence : TransactionId → SequenceValidator → SequenceValidator
begin_sequence t v = record { transaction = some t; last_sequence = 0 }

abbrev pub differs : Option TransactionId → TransactionId → Bool
differs none t = true
differs (some u) t = not (equal u t)

unfoldable pub accept : TransactionId → ℕ → SequenceValidator → Bool × SequenceValidator
accept t sequence v =
    if differs v.transaction t || sequence == 0 || leb sequence v.last_sequence
    then (false, v)
    else (true, record v { last_sequence = sequence })

unfoldable pub reset_sequence : SequenceValidator → SequenceValidator
reset_sequence v = no_sequence
