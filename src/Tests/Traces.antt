-- ===== src/Tests/Traces.antt =====
-- The theorem on the effects of the helper's session at a concrete history.
use fcitx5_emoji_palette.Prelude.{List, [], ◌∷◌, Bytes}
use fcitx5_emoji_palette.Protocol.{CancelReason}
use fcitx5_emoji_palette.Helper.{Reactions, cancels}
use fcitx5_emoji_palette.Helper.Trace.{
  Event, frame_came, peer_went, sequence_chosen, cancelled_by_user, run, Trace, promise, run-Trace,
}
use fcitx5_emoji_palette.Tests.{euro}

-- A bus name.
abbrev addon : Bytes
addon = b':' ∷ b'2' ∷ []

-- The frame of a Hello for version 1, with the nonce 7.
abbrev greeting : Bytes
greeting =
    b'E' ∷ b'P' ∷ b'A' ∷ b'L' ∷ 0 ∷ 1 ∷ 1 ∷ 0 ∷ 0 ∷ 0 ∷ 0 ∷ 16 ∷ 0 ∷ 1 ∷ 0 ∷ 1 ∷ 0 ∷ 0 ∷ 0 ∷ 0 ∷ 0
    ∷ 0 ∷ 0 ∷ 7 ∷ 0 ∷ 0 ∷ 0 ∷ 5 ∷ []

-- The latest first.
abbrev history : List Event
history =
    peer_went addon
    ∷ cancelled_by_user CancelReason.user
    ∷ sequence_chosen euro
    ∷ frame_came greeting addon
    ∷ []

-- A window that every command closes.
abbrev window : Reactions
window m = cancels CancelReason.user ∷ []

run-Trace_example :
    Trace
      (run window history).effects
      (promise (run window history).transaction (run window history).validator.last_sequence)
run-Trace_example = run-Trace window history
