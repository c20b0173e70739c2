-- ===== src/Router/SearchText.antt =====
-- src/addon/key_router.cpp: the search text of a route.
use fcitx5_emoji_palette.Prelude.{
  ℕ, ◌+◌, ◌≤◌, Bool, true, false, ◌||◌, Option, none, some, List, [], ◌∷◌, ◌++◌, Bytes, IsByte, All,
  length, length-append, leb, if◌then◌else◌, ◌≡◌, refl, sym, ap, ◌∙◌, arith, inl, inr, Bool-cases,
}
use fcitx5_emoji_palette.Codes.{is_empty}
use fcitx5_emoji_palette.Utf8.{decode_utf8, decode_loop, is_valid_utf8, encode_one}
use fcitx5_emoji_palette.Utf8.RoundTrip.{
  IsScalar, encodings, encode-encodings, decode-encode, encode-decode, IsScalarValues-IsScalar,
  decode-append, valid_elim, valid_intro,
}
use fcitx5_emoji_palette.Protocol.{CommandKind}
use fcitx5_emoji_palette.Router.{
  escape_key, return_key, kp_enter_key, space_key, backspace_key, KeyEvent, command_route,
  is_printable, navigation_command, drop_last, erase_last, type_key, edit_route, route,
}

-- What `Writer::text` accepts as a search text.
abbrev pub IsCarried : Bytes → Type 0
IsCarried text = (is_valid_utf8 text ≡ true) × (length text ≤ 256)

pub drop_last-IsScalar : (cs : List ℕ) → All IsScalar cs → All IsScalar (drop_last cs)
unfolding drop_last
drop_last-IsScalar [] h = tt
drop_last-IsScalar (c ∷ []) h = tt
drop_last-IsScalar (c ∷ d ∷ cs) h = (h.0, drop_last-IsScalar (d ∷ cs) h.1)

length-drop_last : (cs : List ℕ) → length (encodings (drop_last cs)) ≤ length (encodings cs)
unfolding drop_last
length-drop_last [] = omega arith
length-drop_last (c ∷ []) = omega arith
length-drop_last (c ∷ d ∷ cs) = omega (
  arith,
  length-drop_last (d ∷ cs),
  length-append (encode_one c) (encodings (drop_last (d ∷ cs))),
  length-append (encode_one c) (encodings (d ∷ cs)),
)

erase_last-IsCarried :
    (search : Bytes)
    → All IsByte search
    → IsCarried search
    → IsCarried (erase_last (decode_utf8 search) search)
unfolding erase_last
erase_last-IsCarried search b (v, l) = go (decode_utf8 search) refl
  where
    go : (o : Option (List ℕ)) → decode_utf8 search ≡ o → IsCarried (erase_last o search)
    go none e = (v, l)
    go (some []) e = (v, l)
    go (some (c ∷ cs)) e =
        let (back, values) = encode-decode search b e in
        let scalars = IsScalarValues-IsScalar (c ∷ cs) values in
        let s = drop_last-IsScalar (c ∷ cs) scalars in
        let whole : length (encodings (c ∷ cs)) ≡ length search =
          ap length (sym (encode-encodings (c ∷ cs) scalars) ∙ back) in
        let part = ap length (encode-encodings (drop_last (c ∷ cs)) s) in
        (
          valid_intro _ (decode-encode (drop_last (c ∷ cs)) s),
          omega (arith, length-drop_last (c ∷ cs), whole, part, l),
        )

nothing-IsCarried : IsCarried []
unfolding is_valid_utf8 decode_utf8 decode_loop
nothing-IsCarried = (refl, omega arith)

append-IsCarried :
    (a b : Bytes)
    → All IsByte a
    → All IsByte b
    → is_valid_utf8 a ≡ true
    → is_valid_utf8 b ≡ true
    → length a + length b ≤ 256
    → IsCarried (a ++ b)
append-IsCarried a b ha hb va vb l =
    let (xs, da) = valid_elim a va in
    let (ys, db) = valid_elim b vb in
    (valid_intro (a ++ b) (decode-append a b ha hb da db), omega (arith, length-append a b, l))

module _ (key : KeyEvent) (search : Bytes) (bs : All IsByte search) (bk : All IsByte key.utf8)
    (vk : is_valid_utf8 key.utf8 ≡ true) (c : IsCarried search) where
  type_key-IsCarried : IsCarried (type_key key search).search_text
  unfolding type_key
  type_key-IsCarried = elim (Bool-cases (is_printable key)) [
    | inr p ↦ rw (p, type_key) nothing-IsCarried
    | inl p ↦ elim (Bool-cases (is_empty key.utf8)) [
      | inl e ↦ rw (p, e, type_key) nothing-IsCarried
      | inr e ↦ elim (Bool-cases (leb (length search + length key.utf8) 256)) [
        | inr l ↦ rw (p, e, l, type_key) nothing-IsCarried
        | inl l ↦
            rw (p, e, l, type_key)
              (append-IsCarried search key.utf8 bs bk c.0 vk (ground (arith, l)))
      ]
    ]
  ]

  edit_route-IsCarried : (o : Option CommandKind) → IsCarried (edit_route o key search).search_text
  unfolding edit_route
  edit_route-IsCarried (some k) = nothing-IsCarried
  edit_route-IsCarried none = elim (Bool-cases (key.check backspace_key)) [
    | inl e ↦ rw (e, edit_route) (erase_last-IsCarried search bs c)
    | inr e ↦ rw (e, edit_route) type_key-IsCarried
  ]

  chord-IsCarried :
      (x y : Bool)
      → IsCarried
          (if x
            then command_route CommandKind.toggle_favorite
            else if y
            then command_route CommandKind.show_variants
            else edit_route (navigation_command key) key search).search_text
  chord-IsCarried true y = nothing-IsCarried
  chord-IsCarried false true = nothing-IsCarried
  chord-IsCarried false false = edit_route-IsCarried (navigation_command key)

  -- From a search text of at most 256 bytes of valid UTF-8, whatever the key, the search text of the
  -- route is one too, provided that the text of the key's symbol is valid UTF-8;
  -- both texts are bytes.
  pub route-IsCarried : (is_release : Bool) → IsCarried (route key is_release search).search_text
  unfolding route
  route-IsCarried true = nothing-IsCarried
  route-IsCarried false = elim (Bool-cases (key.check escape_key)) [
    | inl a ↦ rw (a, route) nothing-IsCarried
    | inr a ↦
        elim (Bool-cases (key.check return_key || key.check kp_enter_key || key.check space_key)) [
          | inl b ↦ rw (a, b, route) nothing-IsCarried
          | inr b ↦ rw (a, b, route) (chord-IsCarried key.favorite_chord key.variants_chord)
        ]
  ]
