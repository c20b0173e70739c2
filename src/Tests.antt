-- ===== src/Tests.antt =====
-- Runs of the definitions and of the theorems at concrete inputs; shared test data.
pub mod Strings
pub mod Wire
pub mod Runtime
pub mod View
pub mod Keys
pub mod Memory
pub mod Store
pub mod Parties
pub mod Picker
pub mod Traces
pub mod Shortcuts
use fcitx5_emoji_palette.Prelude.{
  ℕ, ◌<◌, Bool, true, false, ◌&&◌, List, [], ◌∷◌, Bytes, IsByte, All, ltb, ◌≡◌, refl, arith,
}
use fcitx5_emoji_palette.Utf8.{is_scalar}

abbrev are_bytes : Bytes → Bool
are_bytes [] = true
are_bytes (b ∷ bs) = ltb b 256 && are_bytes bs

pub bytes_of : (bs : Bytes) → are_bytes bs ≡ true → All IsByte bs
bytes_of [] h = tt
bytes_of (b ∷ bs) h = (ground (arith, h), bytes_of bs (ground (arith, h)))

-- The sign of the euro, and a smiling face.
abbrev pub euro : Bytes
euro = 0xE2 ∷ 0x82 ∷ 0xAC ∷ []

abbrev pub smile : Bytes
smile = 0xF0 ∷ 0x9F ∷ 0x98 ∷ 0x80 ∷ []

-- "EURO" with spaces around it.
abbrev pub loud : Bytes
loud = 0x20 ∷ 0x45 ∷ 0x55 ∷ 0x52 ∷ 0x4F ∷ 0x20 ∷ []

abbrev pub id : Bytes
id = 1 ∷ 2 ∷ 3 ∷ 4 ∷ 5 ∷ 6 ∷ 7 ∷ 8 ∷ 9 ∷ 10 ∷ 11 ∷ 12 ∷ 13 ∷ 14 ∷ 15 ∷ 16 ∷ []
