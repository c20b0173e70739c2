-- ===== src/Link/Routes.antt =====
-- src/addon/key_router.cpp: what the routes of keys have in common.
use fcitx5_emoji_palette.Prelude.{
  ℕ, ◌+◌, Bool, true, false, not, ◌&&◌, Option, none, some, List, [], ◌∷◌, ◌++◌, Bytes, IsByte, All,
  All-append, length, leb, if◌then◌else◌, ◌≡◌, refl, sym, inl, inr, Bool-cases, subst,
}
use fcitx5_emoji_palette.Codes.{is_empty}
use fcitx5_emoji_palette.Utf8.{decode_utf8}
use fcitx5_emoji_palette.Utf8.RoundTrip.{
  encodings-IsByte, encode-encodings, encode-decode, IsScalarValues-IsScalar,
}
use fcitx5_emoji_palette.Protocol.{CommandKind}
use fcitx5_emoji_palette.Router.{
  KeyEvent, KeyRoute, no_route, command_route, search_update, backspace_key, drop_last, erase_last,
  is_printable, navigation_command, type_key, edit_route, route,
}
use fcitx5_emoji_palette.Router.SearchText.{drop_last-IsScalar}

-- A route that is no search has no text, and a search is marked as one.
pub data Shape (search : Bytes) (key : KeyEvent) : KeyRoute → Type 0 where
  nothing : Shape search key no_route
  commands : (kind : CommandKind) → Shape search key (command_route kind)
  erases : Shape search key (search_update (erase_last (decode_utf8 search) search))
  appends : Shape search key (search_update (search ++ key.utf8))

module _ (search : Bytes) (key : KeyEvent) where
  type_key-Shape : Shape search key (type_key key search)
  unfolding type_key
  type_key-Shape = elim (Bool-cases (is_printable key)) [
    | inr p ↦ rw (p, type_key) nothing
    | inl p ↦
        elim (Bool-cases (not (is_empty key.utf8) && leb (length search + length key.utf8) 256)) [
          | inr l ↦ rw (p, l, type_key) nothing
          | inl l ↦ rw (p, l, type_key) appends
        ]
  ]

  edit_route-Shape : (o : Option CommandKind) → Shape search key (edit_route o key search)
  unfolding edit_route
  edit_route-Shape (some k) = commands k
  edit_route-Shape none = elim (Bool-cases (key.check backspace_key)) [
    | inl e ↦ rw (e, edit_route) erases
    | inr e ↦ rw (e, edit_route) type_key-Shape
  ]

  either_shape :
      (b : Bool) (x y : KeyRoute)
      → Shape search key x
      → Shape search key y
      → Shape search key (if b then x else y)
  either_shape true x y p q = p
  either_shape false x y p q = q

  pub route-Shape : (is_release : Bool) → Shape search key (route key is_release search)
  unfolding route
  route-Shape true = nothing
  route-Shape false = either_shape _ _ _ (commands CommandKind.cancel) (
      either_shape _ _ _ (commands CommandKind.select) (
        either_shape _ _ _ (commands CommandKind.toggle_favorite) (
          either_shape _ _ _ (commands CommandKind.show_variants)
            (edit_route-Shape (navigation_command key)))))

  erase_last-IsByte :
      All IsByte search
      → (o : Option (List ℕ)) → decode_utf8 search ≡ o
      → All IsByte (erase_last o search)
  unfolding erase_last
  erase_last-IsByte b none e = b
  erase_last-IsByte b (some []) e = b
  erase_last-IsByte b (some (c ∷ cs)) e =
      let s =
        drop_last-IsScalar (c ∷ cs)
          (IsScalarValues-IsScalar (c ∷ cs) (encode-decode search b e).1) in
      subst (All IsByte) (sym (encode-encodings (drop_last (c ∷ cs)) s))
        (encodings-IsByte (drop_last (c ∷ cs)) s)

  pub Shape-IsByte :
      All IsByte search
      → All IsByte key.utf8
      → {r : KeyRoute} → Shape search key r
      → All IsByte r.search_text
  Shape-IsByte b k nothing = tt
  Shape-IsByte b k (commands _) = tt
  Shape-IsByte b k erases = erase_last-IsByte b (decode_utf8 search) refl
  Shape-IsByte b k appends = All-append IsByte search key.utf8 b k
