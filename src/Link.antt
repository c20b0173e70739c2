-- ===== src/Link.antt =====
-- src/addon/emoji_palette_addon.cpp and src/ui/palette_session.cpp: the addon and the helper together.
-- The bus takes the frames of the addon to the helper in the order in which they are sent.
pub mod Frames
pub mod Routes
pub mod InStep
pub mod Reacts
pub mod Keys
pub mod Pick
use fcitx5_emoji_palette.Prelude.{List, [], ◌∷◌, Bytes}
use fcitx5_emoji_palette.Helper.{PaletteSession, exchange}
use fcitx5_emoji_palette.Addon.{Environment, Addon}
use fcitx5_emoji_palette.Addon.Events.{KeyInput, handle_key}

-- The helper behind frames of one sender, the latest first.
unfoldable pub deliver : Bytes → List Bytes → PaletteSession → PaletteSession
deliver sender [] p = p
deliver sender (frame ∷ frames) p = (exchange frame sender (deliver sender frames p)).1

-- The addon and the helper behind one key, once the frames that it makes the addon send have arrived.
unfoldable pub link_key :
    Environment → Bytes → KeyInput → Addon × PaletteSession → Addon × PaletteSession
unfolding handle_key deliver
link_key env sender k (s, p) =
    let t = (handle_key env k (record s { sent = [] })).1 in (t, deliver sender t.sent p)

unfoldable pub link_keys :
    Environment → Bytes → List KeyInput → Addon × PaletteSession → Addon × PaletteSession
unfolding link_key
link_keys env sender [] c = c
link_keys env sender (k ∷ ks) c = link_keys env sender ks (link_key env sender k c)
