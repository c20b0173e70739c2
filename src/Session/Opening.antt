-- ===== src/Session/Opening.antt =====
-- src/ipc/session.cpp and `negotiate` of src/ipc/protocol.cpp: the two sides of the handshake.
use fcitx5_emoji_palette.Prelude.{
  ℕ, true, some, Bytes, bit_and, equal, equal_iff, ◌==◌, ◌≡◌, refl, arith,
}
use fcitx5_emoji_palette.Protocol.{Hello, Welcome, hello}
use fcitx5_emoji_palette.Frame.{negotiate}
use fcitx5_emoji_palette.Session.{PeerSession, begin, accept_welcome, accepts}

-- The handshake that `begin` opens succeeds, whatever the earlier session: its message is a `Hello` for
-- which the other side's `negotiate` selects a version, with the capabilities of both; that `Welcome`
-- from the owner is accepted, and the owner's frames are accepted from then on.
pub negotiate-accept_welcome :
    (owner : Bytes) (nonce capabilities supported : ℕ) (s : PeerSession)
    → (h : Hello) × (w : Welcome) × ((begin owner nonce capabilities s).0.payload ≡ hello h)
      × (negotiate h supported ≡ some w)
      × (w.capabilities ≡ bit_and capabilities supported)
      × ((accept_welcome owner w (begin owner nonce capabilities s).1).0 ≡ true)
      × (accepts owner (accept_welcome owner w (begin owner nonce capabilities s).1).1 ≡ true)
unfolding begin negotiate accept_welcome accepts
negotiate-accept_welcome owner nonce capabilities supported s =
    let e : equal owner owner ≡ true = (equal_iff owner owner).1 refl in
    let n : nonce == nonce ≡ true = ground arith in
    (
      _,
      _,
      refl,
      refl,
      refl,
      rw (e, n, accept_welcome) refl,
      rw (e, n, accept_welcome, accepts) (rw e refl),
    )
