-- ===== src/Codes/Values.antt =====
-- src/ipc/protocol.cpp: the enumerators on the wire.
use fcitx5_emoji_palette.Prelude.{ℕ, ◌≤◌, ◌<◌, Bool, true, false, ◌≡◌, refl, arith, ◌==◌}
use fcitx5_emoji_palette.Prelude.Bits.{holds_below, holds_below_sound}
use fcitx5_emoji_palette.Protocol.{Locale, english, CommandKind, CancelReason}
use fcitx5_emoji_palette.Codes.{
  command_value, command_of, reason_value, reason_of, locale_value, locale_of, valid_command_kind,
  valid_cancel_reason, valid_locale, bool_value,
}

pub command_value_lem :
    (k : CommandKind)
    → (command_of (command_value k) ≡ k)
      × (valid_command_kind (command_value k) ≡ true)
      × (command_value k < 256)
unfolding command_of command_value valid_command_kind
command_value_lem CommandKind.left = (refl, refl, omega arith)
command_value_lem _ = (refl, refl, omega arith)

pub reason_value_lem :
    (k : CancelReason)
    → (reason_of (reason_value k) ≡ k)
      × (valid_cancel_reason (reason_value k) ≡ true)
      × (reason_value k < 256)
unfolding reason_of reason_value valid_cancel_reason
reason_value_lem CancelReason.user = (refl, refl, omega arith)
reason_value_lem _ = (refl, refl, omega arith)

pub locale_value_lem :
    (k : Locale)
    → (locale_of (locale_value k) ≡ k)
      × (valid_locale (locale_value k) ≡ true)
      × (locale_value k < 256)
unfolding locale_of locale_value valid_locale
locale_value_lem english = (refl, refl, omega arith)
locale_value_lem _ = (refl, refl, omega arith)

pub bool_value_lem : (b : Bool) → ((bool_value b == 1) ≡ b) × (bool_value b ≤ 1)
unfolding bool_value
bool_value_lem true = (refl, omega arith)
bool_value_lem false = (refl, omega arith)

same_command : ℕ → Bool
same_command v = command_value (command_of v) == v

same_reason : ℕ → Bool
same_reason v = reason_value (reason_of v) == v

-- A value that passes the test is that of the enumerator it is cast to.
pub command_of_lem : (v : ℕ) → valid_command_kind v ≡ true → command_value (command_of v) ≡ v
unfolding valid_command_kind same_command command_value command_of holds_below
command_of_lem v h =
    let t : same_command v ≡ true = holds_below_sound same_command 15 v refl (ground arith) in
    ground (arith, t)

pub reason_of_lem : (v : ℕ) → valid_cancel_reason v ≡ true → reason_value (reason_of v) ≡ v
unfolding valid_cancel_reason same_reason reason_value reason_of holds_below
reason_of_lem v h =
    let t : same_reason v ≡ true = holds_below_sound same_reason 8 v refl (ground arith) in
    ground (arith, t)

pub locale_of_lem : (v : ℕ) → valid_locale v ≡ true → locale_value (locale_of v) ≡ v
unfolding valid_locale locale_value locale_of
locale_of_lem v h = ground arith

pub bool_of_lem : (v : ℕ) → v ≤ 1 → bool_value (v == 1) ≡ v
unfolding bool_value
bool_of_lem v h = ground arith
