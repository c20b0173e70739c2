-- ===== src/State/File/RoundTrip.antt =====
-- src/core/state.cpp: a state file that was written and is read again.
use fcitx5_emoji_palette.Prelude.{
  ◌+◌, ◌≤◌, Bool, true, false, ◌==◌, some, List, [], ◌∷◌, ◌++◌, Bytes, IsByte, All, length,
  length-append, append_assoc, append-nil, ◌≡◌, refl, sym, ap, ◌∙◌, arith, inl, inr, Option-cases,
}
use fcitx5_emoji_palette.Codes.{is_empty}
use fcitx5_emoji_palette.State.{RecentEntry, PersistentState, is_favorite}
use fcitx5_emoji_palette.State.File.{
  newline, first_line, maximum_favorites, maximum_recents, parts_of, lines_of, valid_sequence,
  is_recent, parse_line, parse_lines, parse_content, parse_state, favorite_line, recent_line,
  put_line, write_favorites, write_recents, join_lines, serialize_state, load, loaded,
}
use fcitx5_emoji_palette.State.File.Lines.{Apart, parts_of-append}
use fcitx5_emoji_palette.State.File.Fields.{
  IsEntry, IsTyped, favorite_line-Apart, recent_line-Apart, parse_line-favorite, parse_line-recent,
}

lines_of-line :
    (line more rest : Bytes)
    → All (Apart newline) line
    → lines_of ((line ++ newline ∷ more) ++ rest) ≡ line ∷ lines_of (more ++ rest)
unfolding lines_of
lines_of-line line more rest h =
    ap lines_of (append_assoc line (newline ∷ more) rest)
    ∙ parts_of-append newline line (more ++ rest) h

-- What a written list of favourites begins with.
pub write_favorites-cons :
    (seen : List Bytes) (q : Bytes) (qs : List Bytes) {out : Bytes}
    → write_favorites seen (q ∷ qs) ≡ some out
    → (valid_sequence q ≡ true)
      × (is_favorite seen q ≡ false)
      × (rest : Bytes) × (write_favorites (seen ++ q ∷ []) qs ≡ some rest)
      × (out ≡ favorite_line q ++ newline ∷ rest)
unfolding write_favorites put_line
write_favorites-cons seen q qs e = elim (Option-cases (write_favorites (seen ++ q ∷ []) qs)) [
  | inl n ↦ absurd (ground (arith, e, n))
  | inr (rest, w) ↦ (ground (arith, e, w), ground (arith, e, w), rest, w, ground (arith, e, w))
]

pub write_recents-cons :
    (seen : List RecentEntry) (r : RecentEntry) (rs : List RecentEntry) {out : Bytes}
    → write_recents seen (r ∷ rs) ≡ some out
    → (valid_sequence r.sequence ≡ true)
      × ((r.use_count == 0) ≡ false)
      × (is_recent seen r.sequence ≡ false)
      × (rest : Bytes) × (write_recents (seen ++ r ∷ []) rs ≡ some rest)
      × (out ≡ recent_line r ++ newline ∷ rest)
unfolding write_recents put_line
write_recents-cons seen r rs e = elim (Option-cases (write_recents (seen ++ r ∷ []) rs)) [
  | inl n ↦ absurd (ground (arith, e, n))
  | inr (rest, w) ↦ (
    ground (arith, e, w),
    ground (arith, e, w),
    ground (arith, e, w),
    rest,
    w,
    ground (arith, e, w),
  )
]

module _ (seen_recents : List RecentEntry) where
  -- The lines of written favourites add them to the state.
  parse_lines-write_favorites :
      (seen qs : List Bytes) (rest : Bytes) {out : Bytes}
      → All (All IsByte) qs
      → length seen + length qs ≤ maximum_favorites
      → write_favorites seen qs ≡ some out
      → parse_lines (lines_of (out ++ rest)) (record { favorites = seen; recents = seen_recents })
        ≡ parse_lines (lines_of rest) (record { favorites = seen ++ qs; recents = seen_recents })
  unfolding parse_lines write_favorites
  parse_lines-write_favorites seen [] rest {out} b l e =
      let o : out ≡ [] = cc e in rw (o, append-nil) refl
  parse_lines-write_favorites seen (q ∷ qs) rest {out} b l e =
      let (v, n, more, w, o) = write_favorites-cons seen q qs {out = out} e in
      let s : PersistentState = record { favorites = seen; recents = seen_recents } in
      let split : lines_of (out ++ rest) ≡ favorite_line q ∷ lines_of (more ++ rest) =
        ap (λ (x : Bytes). lines_of (x ++ rest)) o
        ∙ lines_of-line (favorite_line q) more rest (favorite_line-Apart q b.0) in
      let head = parse_line-favorite q s b.0 v n (omega (arith, l)) in
      let tail =
        parse_lines-write_favorites (seen ++ q ∷ []) qs rest {out = more} b.1
          (omega (arith, l, length-append seen (q ∷ []))) w in
      rw (split, parse_lines, head) (tail ∙ rw append_assoc refl)

module _ (favorites : List Bytes) where
  parse_lines-write_recents :
      (seen rs : List RecentEntry) (rest : Bytes) {out : Bytes}
      → All IsEntry rs
      → length seen + length rs ≤ maximum_recents
      → write_recents seen rs ≡ some out
      → parse_lines (lines_of (out ++ rest)) (record { favorites = favorites; recents = seen })
        ≡ parse_lines (lines_of rest) (record { favorites = favorites; recents = seen ++ rs })
  unfolding parse_lines write_recents
  parse_lines-write_recents seen [] rest {out} b l e =
      let o : out ≡ [] = cc e in rw (o, append-nil) refl
  parse_lines-write_recents seen (r ∷ rs) rest {out} b l e =
      let (v, z, n, more, w, o) = write_recents-cons seen r rs {out = out} e in
      let s : PersistentState = record { favorites = favorites; recents = seen } in
      let split : lines_of (out ++ rest) ≡ recent_line r ∷ lines_of (more ++ rest) =
        ap (λ (x : Bytes). lines_of (x ++ rest)) o
        ∙ lines_of-line (recent_line r) more rest (recent_line-Apart r b.0) in
      let head = parse_line-recent r s b.0 z v n (omega (arith, l)) in
      let tail =
        parse_lines-write_recents (seen ++ r ∷ []) rs rest {out = more} b.1
          (omega (arith, l, length-append seen (r ∷ []))) w in
      rw (split, parse_lines, head) (tail ∙ rw append_assoc refl)

-- What `serialize_state` has tested, and what it returns.
pub serialize_state_parts :
    (s : PersistentState) {out : Bytes}
    → serialize_state s ≡ some out
    → (length s.favorites ≤ maximum_favorites)
      × (length s.recents ≤ maximum_recents)
      × (f : Bytes) × (write_favorites [] s.favorites ≡ some f)
      × (r : Bytes) × (write_recents [] s.recents ≡ some r)
      × (out ≡ first_line ++ newline ∷ (f ++ r))
unfolding serialize_state join_lines
serialize_state_parts s e = elim (Option-cases (write_favorites [] s.favorites)) [
  | inl n ↦ absurd (ground (arith, e, n))
  | inr (f, w) ↦ elim (Option-cases (write_recents [] s.recents)) [
    | inl n ↦ absurd (ground (arith, e, w, n))
    | inr (r, x) ↦ (ground (arith, e), ground (arith, e), f, w, r, x, ground (arith, e, w, x))
  ]
]

first_line-Apart : All (Apart newline) first_line
first_line-Apart = ground arith

pub parse_state-serialize_state :
    (s : PersistentState) {out : Bytes}
    → IsTyped s
    → serialize_state s ≡ some out
    → parse_state out ≡ some s
unfolding parse_state parse_content
parse_state-serialize_state s {out} t e =
    let (lf, lr, f, wf, r, wr, o) = serialize_state_parts s {out = out} e in
    let split : lines_of out ≡ first_line ∷ lines_of (f ++ r) =
      ap lines_of o
      ∙ unfold lines_of in parts_of-append newline first_line (f ++ r) first_line-Apart in
    let fs =
      parse_lines-write_favorites [] [] s.favorites r {out = f} t.favorites (omega (arith, lf))
        wf in
    let rs =
      parse_lines-write_recents s.favorites [] s.recents [] {out = r} t.recents (omega (arith, lr))
        wr in
    let end : parse_lines (lines_of []) s ≡ some s =
      unfold lines_of parts_of parse_lines parse_line is_empty in refl in
    rw split (
      fs
      ∙ ap
          (λ (x : Bytes).
            parse_lines (lines_of x) (record { favorites = s.favorites; recents = [] }))
          (sym (append-nil r))
      ∙ rs
      ∙ end)

-- A state that is written to a file is read back as it was, its favourites and its recent entries in
-- the same order with the same counts and times, and nothing is reported as corrupt, provided that its
-- fields are values of their C++ types.
pub load-serialize_state :
    (s : PersistentState) {out : Bytes} (exists : Bool)
    → IsTyped s
    → serialize_state s ≡ some out
    → load (some out) exists ≡ record { state = s; recovered_from_corruption = false }
unfolding load loaded
load-serialize_state s {out} exists t e = ap loaded (parse_state-serialize_state s {out = out} t e)
