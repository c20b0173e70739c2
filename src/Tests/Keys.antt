-- ===== src/Tests/Keys.antt =====
-- The theorem on the key router at a concrete key.
use fcitx5_emoji_palette.Prelude.{false, ◌∷◌, ◌≡◌, refl, arith}
use fcitx5_emoji_palette.Router.{
  KeyEvent, route, is_printable, navigation_command, edit_route, type_key,
}
use fcitx5_emoji_palette.Router.SearchText.{IsCarried, route-IsCarried}
use fcitx5_emoji_palette.Codes.{is_empty}
use fcitx5_emoji_palette.Tests.{bytes_of, euro}
use fcitx5_emoji_palette.Tests.Strings.{euro_valid}

-- The key of the euro sign.
abbrev euro_key : KeyEvent
euro_key = record {
  check = λ _. false;
  check_shift_tab = false;
  has_states = false;
  unicode = 0x20AC;
  utf8 = euro;
  favorite_chord = false;
  variants_chord = false;
}

euro_is_typed : (route euro_key false euro).search_text ≡ 0xE2 ∷ 0x82 ∷ 0xAC ∷ euro
unfolding route navigation_command edit_route type_key is_printable is_empty
euro_is_typed = refl

route-IsCarried_example : IsCarried (route euro_key false euro).search_text
route-IsCarried_example =
    route-IsCarried euro_key euro (bytes_of euro refl) (bytes_of euro refl) euro_valid
      (euro_valid, omega arith) false
