-- ===== src/State/File/Fields.antt =====
-- src/core/state.cpp: the lines of a state file, written and read again.
use fcitx5_emoji_palette.Prelude.{
  ℕ, ◌+◌, ◌^◌, ◌≤◌, ◌<◌, true, false, ◌==◌, some, [], ◌∷◌, ◌++◌, Bytes, IsByte, All, All-append,
  length, ltb, ◌≡◌, refl, ap, ◌∙◌, arith,
}
use fcitx5_emoji_palette.Prelude.Int.{ℤ}
use fcitx5_emoji_palette.Codes.{is_empty}
use fcitx5_emoji_palette.Utf8.{is_valid_utf8}
use fcitx5_emoji_palette.Text.{hex_encode}
use fcitx5_emoji_palette.Text.Hex.{hex_decode-hex_encode}
use fcitx5_emoji_palette.State.{RecentEntry, PersistentState, is_favorite}
use fcitx5_emoji_palette.State.Decimal.{print_count, print_time}
use fcitx5_emoji_palette.State.Decimal.RoundTrip.{
  IsInt64, parse_count-print_count, parse_time-print_time,
}
use fcitx5_emoji_palette.State.File.{
  tab, newline, favorite_word, recent_word, maximum_favorites, maximum_recents, fields,
  valid_sequence, is_recent, add_favorite, add_recent, parse_fields, parse_line, favorite_line,
  recent_line,
}
use fcitx5_emoji_palette.State.File.Lines.{
  Apart, plain-Apart, parts_of-append, parts_of-Apart, print_count-IsPlain, print_time-IsPlain,
  hex_encode-IsPlain,
}

-- The values of the C++ types.
abbrev pub IsEntry : RecentEntry → Type 0
IsEntry e = All IsByte e.sequence × (e.use_count < 2 ^ 64) × IsInt64 e.last_used

pub record IsTyped (s : PersistentState) : Type 0 where
  pub favorites : All (All IsByte) s.favorites
  pub recents : All IsEntry s.recents

valid_parts : (q : Bytes) → valid_sequence q ≡ true → (is_valid_utf8 q ≡ true)
unfolding valid_sequence
valid_parts q h = ground (arith, h)

module _ (separator : ℕ) (l : separator < 32) where
  word-Apart : All (Apart separator) favorite_word
  word-Apart = plain-Apart separator favorite_word l (omega arith)

  recent_word-Apart : All (Apart separator) recent_word
  recent_word-Apart = plain-Apart separator recent_word l (omega arith)

  hex_encode-Apart : (q : Bytes) → All IsByte q → All (Apart separator) (hex_encode q)
  hex_encode-Apart q b = plain-Apart separator (hex_encode q) l (hex_encode-IsPlain q b)

  print_count-Apart : (n : ℕ) → n < 2 ^ 64 → All (Apart separator) (print_count n)
  print_count-Apart n h = plain-Apart separator (print_count n) l (print_count-IsPlain n h)

  print_time-Apart : (t : ℤ) → IsInt64 t → All (Apart separator) (print_time t)
  print_time-Apart t h = plain-Apart separator (print_time t) l (print_time-IsPlain t h)

fields-favorite_line :
    (q : Bytes) → All IsByte q → fields (favorite_line q) ≡ favorite_word ∷ hex_encode q ∷ []
unfolding fields
fields-favorite_line q b =
    parts_of-append tab favorite_word (hex_encode q) (word-Apart tab (omega arith))
    ∙ ap (λ r. favorite_word ∷ r)
        (parts_of-Apart tab (hex_encode q) (hex_encode-Apart tab (omega arith) q b))

fields-recent_line :
    (e : RecentEntry)
    → IsEntry e
    → fields (recent_line e)
      ≡ recent_word ∷ print_count e.use_count ∷ print_time e.last_used ∷ hex_encode e.sequence ∷ []
unfolding fields
fields-recent_line e (b, c, t) =
    let last = print_time e.last_used ++ tab ∷ hex_encode e.sequence in
    let t1 =
      parts_of-append tab recent_word (print_count e.use_count ++ tab ∷ last)
        (recent_word-Apart tab (omega arith)) in
    let t2 =
      parts_of-append tab (print_count e.use_count) last
        (print_count-Apart tab (omega arith) e.use_count c) in
    let t3 =
      parts_of-append tab (print_time e.last_used) (hex_encode e.sequence)
        (print_time-Apart tab (omega arith) e.last_used t) in
    let t4 =
      parts_of-Apart tab (hex_encode e.sequence)
        (hex_encode-Apart tab (omega arith) e.sequence b) in
    rw (t1, t2, t3, t4) refl

join-Apart :
    (a b : Bytes)
    → All (Apart newline) a
    → All (Apart newline) b
    → All (Apart newline) (a ++ tab ∷ b)
join-Apart a b h k = All-append (Apart newline) a (tab ∷ b) h (refl, k)

pub favorite_line-Apart : (q : Bytes) → All IsByte q → All (Apart newline) (favorite_line q)
favorite_line-Apart q b =
    join-Apart favorite_word (hex_encode q) (word-Apart newline (omega arith))
      (hex_encode-Apart newline (omega arith) q b)

pub recent_line-Apart : (e : RecentEntry) → IsEntry e → All (Apart newline) (recent_line e)
recent_line-Apart e (b, c, t) = join-Apart recent_word _ (recent_word-Apart newline (omega arith)) (
    join-Apart (print_count e.use_count) _ (print_count-Apart newline (omega arith) e.use_count c) (
      join-Apart (print_time e.last_used) (hex_encode e.sequence)
        (print_time-Apart newline (omega arith) e.last_used t)
        (hex_encode-Apart newline (omega arith) e.sequence b)))

pub parse_line-favorite :
    (q : Bytes) (s : PersistentState)
    → All IsByte q
    → valid_sequence q ≡ true
    → is_favorite s.favorites q ≡ false
    → length s.favorites + 1 ≤ maximum_favorites
    → parse_line (favorite_line q) s ≡ some (record s { favorites = s.favorites ++ q ∷ [] })
unfolding parse_line is_empty parse_fields add_favorite
parse_line-favorite q s b v n l =
    let m : ltb maximum_favorites (length s.favorites + 1) ≡ false = ground (arith, l) in
    simp (fields-favorite_line q b, hex_decode-hex_encode q b (valid_parts q v), v, n, m) refl

pub parse_line-recent :
    (e : RecentEntry) (s : PersistentState)
    → IsEntry e
    → (e.use_count == 0) ≡ false
    → valid_sequence e.sequence ≡ true
    → is_recent s.recents e.sequence ≡ false
    → length s.recents + 1 ≤ maximum_recents
    → parse_line (recent_line e) s ≡ some (record s { recents = s.recents ++ e ∷ [] })
unfolding parse_line is_empty parse_fields add_recent
parse_line-recent e s (b, c, t) z v n l =
    let m : ltb maximum_recents (length s.recents + 1) ≡ false = ground (arith, l) in
    simp
      (
        fields-recent_line e (b, c, t),
        hex_decode-hex_encode e.sequence b (valid_parts e.sequence v),
        parse_count-print_count e.use_count c,
        parse_time-print_time e.last_used t,
        z,
        v,
        n,
        m,
      )
      refl
