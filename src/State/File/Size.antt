-- ===== src/State/File/Size.antt =====
-- src/core/state.cpp: which states can be written.
use fcitx5_emoji_palette.Prelude.{
  ℕ, suc, ◌*◌, ◌^◌, ◌≤◌, ◌<◌, true, false, ◌||◌, Option, none, some, List, [], ◌∷◌, ◌++◌, Bytes,
  IsByte, All, length, length-append, ltb, ◌≡◌, refl, ap, arith,
}
use fcitx5_emoji_palette.Prelude.Int.{ℤ, pos, negsuc}
use fcitx5_emoji_palette.Text.{hex_encode}
use fcitx5_emoji_palette.Text.Hex.{length-pairs, hex_encode-pairs}
use fcitx5_emoji_palette.State.{
  RecentEntry, PersistentState, is_favorite, toggle_favorite, record_use,
}
use fcitx5_emoji_palette.State.Decimal.{print_count, print_time}
use fcitx5_emoji_palette.State.Decimal.RoundTrip.{IsInt64, decimal-IsDecimal}
use fcitx5_emoji_palette.State.File.{
  tab, newline, favorite_word, recent_word, first_line, maximum_favorites, maximum_recents,
  maximum_state_size, valid_sequence, favorite_line, recent_line, put_line, write_favorites,
  write_recents, join_lines, serialize_state, parse_state,
}
use fcitx5_emoji_palette.State.File.Fields.{IsEntry}
use fcitx5_emoji_palette.State.File.RoundTrip.{parse_state-serialize_state}
use fcitx5_emoji_palette.State.File.Stored.{Fresh, FreshEntries, IsStored, parse_state-IsStored}

length-hex_encode : (q : Bytes) → valid_sequence q ≡ true → length (hex_encode q) ≤ 256
unfolding valid_sequence
length-hex_encode q v =
    let l : length q ≤ 128 = ground (arith, v) in
    omega (arith, ap length (hex_encode-pairs q), length-pairs q, l)

length-print_count : (n : ℕ) → n < 2 ^ 64 → length (print_count n) ≤ 20
unfolding print_count
length-print_count n h = (decimal-IsDecimal 19 n (omega (arith, h))).short

length-print_time : (t : ℤ) → IsInt64 t → length (print_time t) ≤ 21
unfolding print_time
length-print_time (pos n) h = omega (arith, (decimal-IsDecimal 19 n (omega (arith, h))).short)
length-print_time (negsuc n) h =
    omega (arith, (decimal-IsDecimal 19 (suc n) (omega (arith, h))).short)

length-favorite_line : (q : Bytes) → valid_sequence q ≡ true → length (favorite_line q) ≤ 265
length-favorite_line q v =
    omega (arith, length-append favorite_word (tab ∷ hex_encode q), length-hex_encode q v)

length-recent_line :
    (e : RecentEntry) → valid_sequence e.sequence ≡ true → IsEntry e → length (recent_line e) ≤ 306
length-recent_line e v (b, c, t) =
    let last = print_time e.last_used ++ tab ∷ hex_encode e.sequence in
    omega (
      arith,
      length-append recent_word (tab ∷ (print_count e.use_count ++ tab ∷ last)),
      length-append (print_count e.use_count) (tab ∷ last),
      length-append (print_time e.last_used) (tab ∷ hex_encode e.sequence),
      length-print_count e.use_count c,
      length-print_time e.last_used t,
      length-hex_encode e.sequence v,
    )

-- Written, in at most this many bytes.
abbrev Fits : ℕ → Option Bytes → Type 0
Fits bound o = (out : Bytes) × (o ≡ some out) × (length out ≤ bound)

write_favorites-Fits :
    (seen qs : List Bytes) → Fresh seen qs → Fits (266 * length qs) (write_favorites seen qs)
unfolding write_favorites put_line
write_favorites-Fits seen [] f = ([], refl, omega arith)
write_favorites-Fits seen (q ∷ qs) (v, n, b, f) =
    let (out, e, l) = write_favorites-Fits (seen ++ q ∷ []) qs f in
    (
      favorite_line q ++ newline ∷ out,
      rw (v, n, e) refl,
      omega (arith, length-append (favorite_line q) (newline ∷ out), length-favorite_line q v, l),
    )

write_recents-Fits :
    (seen es : List RecentEntry)
    → FreshEntries seen es
    → Fits (307 * length es) (write_recents seen es)
unfolding write_recents put_line
write_recents-Fits seen [] f = ([], refl, omega arith)
write_recents-Fits seen (r ∷ es) (v, z, n, b, f) =
    let (out, e, l) = write_recents-Fits (seen ++ r ∷ []) es f in
    (
      recent_line r ++ newline ∷ out,
      rw (v, z, n, e) refl,
      omega (arith, length-append (recent_line r) (newline ∷ out), length-recent_line r v b, l),
    )

serialize_state-IsStored :
    (s : PersistentState) → IsStored s → (out : Bytes) × (serialize_state s ≡ some out)
unfolding serialize_state join_lines
serialize_state-IsStored s i =
    let (f, ef, lf) = write_favorites-Fits [] s.favorites i.favorites in
    let (r, er, lr) = write_recents-Fits [] s.recents i.recents in
    let value = first_line ++ newline ∷ (f ++ r) in
    let few : (ltb maximum_favorites (length s.favorites) || ltb maximum_recents (length s.recents))
        ≡ false =
      ground (arith, i.few_favorites, i.few_recents) in
    let small : length value ≤ maximum_state_size = omega (
      arith,
      length-append first_line (newline ∷ (f ++ r)),
      length-append f r,
      lf,
      lr,
      i.few_favorites,
      i.few_recents,
    ) in
    let fits : ltb maximum_state_size (length value) ≡ false = ground (arith, small) in
    (value, simp (few, ef, er, fits) refl)

Fresh-bytes : (seen qs : List Bytes) → Fresh seen qs → All (All IsByte) qs
Fresh-bytes seen [] f = tt
Fresh-bytes seen (q ∷ qs) (v, n, b, f) = (b, Fresh-bytes (seen ++ q ∷ []) qs f)

FreshEntries-entries : (seen es : List RecentEntry) → FreshEntries seen es → All IsEntry es
FreshEntries-entries seen [] f = tt
FreshEntries-entries seen (e ∷ es) (v, z, n, b, f) = (b, FreshEntries-entries (seen ++ e ∷ []) es f)

-- Whatever file parses, the state that is read from it can be written again, and what is written
-- parses as the same state: no test of `serialize_state` and not its limit on the size refuses it.
pub serialize_state-parse_state :
    (content : Bytes) {s : PersistentState}
    → parse_state content ≡ some s
    → (out : Bytes) × (serialize_state s ≡ some out) × (parse_state out ≡ some s)
serialize_state-parse_state content {s} e =
    let i = parse_state-IsStored content e in
    let (out, w) = serialize_state-IsStored s i in
    (
      out,
      w,
      parse_state-serialize_state s {out = out}
          (record {
            favorites = Fresh-bytes [] s.favorites i.favorites;
            recents = FreshEntries-entries [] s.recents i.recents;
          })
          w,
    )

-- The uses of sequences, each at its time.
abbrev pub record_uses : ℕ → List (Bytes × ℤ) → PersistentState → PersistentState
record_uses n [] s = s
record_uses n ((v, t) ∷ uses) s = record_uses n uses (record_use v t n s)

serialize_state-record_uses :
    (n : ℕ) (uses : List (Bytes × ℤ)) (s : PersistentState)
    → maximum_favorites < length s.favorites
    → serialize_state (record_uses n uses s) ≡ none
unfolding serialize_state record_use
serialize_state-record_uses n [] s l =
    let big : ltb maximum_favorites (length s.favorites) ≡ true = ground (arith, l) in simp big refl
serialize_state-record_uses n ((v, t) ∷ uses) s l =
    serialize_state-record_uses n uses (record_use v t n s) l

-- Where 500 favourites are stored and a sequence that is none of them is made one, the state cannot be
-- written, neither then nor after any uses of sequences that follow.
pub serialize_state-toggle_favorite :
    (q : Bytes) (s : PersistentState) (n : ℕ) (uses : List (Bytes × ℤ))
    → length s.favorites ≡ maximum_favorites
    → is_favorite s.favorites q ≡ false
    → serialize_state (record_uses n uses (toggle_favorite q s)) ≡ none
unfolding toggle_favorite
serialize_state-toggle_favorite q s n uses l e =
    let more : maximum_favorites < length (s.favorites ++ q ∷ []) =
      omega (arith, l, length-append s.favorites (q ∷ [])) in
    serialize_state-record_uses n uses (toggle_favorite q s) (rw (e, toggle_favorite) more)
