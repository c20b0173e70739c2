-- ===== src/State/File/Stored.antt =====
-- src/core/state.cpp: what holds of every state that is read from a file.
use fcitx5_emoji_palette.Prelude.{
  ℕ, ◌+◌, ◌^◌, ◌≤◌, ◌<◌, Bool, true, false, not, ◌||◌, ◌==◌, Option, none, some, List, [], ◌∷◌,
  ◌++◌, Bytes, IsByte, All, equal, length, length-append, append_assoc, append-nil, ltb,
  if◌then◌else◌, ◌≡◌, refl, arith, inl, inr, Bool-cases, Option-cases, subst,
}
use fcitx5_emoji_palette.Prelude.Int.{ℤ}
use fcitx5_emoji_palette.Codes.{is_empty}
use fcitx5_emoji_palette.Text.{hex_decode}
use fcitx5_emoji_palette.Text.Hex.{hex_decode_shape}
use fcitx5_emoji_palette.State.{RecentEntry, PersistentState, is_favorite}
use fcitx5_emoji_palette.State.Decimal.{parse_count, parse_time}
use fcitx5_emoji_palette.State.Decimal.RoundTrip.{IsInt64, parse_count-IsU64, parse_time-IsInt64}
use fcitx5_emoji_palette.State.File.{
  favorite_word, recent_word, first_line, maximum_favorites, maximum_recents, fields, lines_of,
  valid_sequence, is_recent, empty_state, add_favorite, add_recent, parse_fields, parse_line,
  parse_lines, parse_content, parse_state,
}
use fcitx5_emoji_palette.State.File.Fields.{IsEntry}

-- Valid sequences, each different from those before it.
abbrev pub Fresh : List Bytes → List Bytes → Type 0
Fresh seen [] = Unit {0}
Fresh seen (q ∷ qs) =
    (valid_sequence q ≡ true)
    × (is_favorite seen q ≡ false)
    × All IsByte q
    × Fresh (seen ++ q ∷ []) qs

-- The same for recent entries, which were used at least once.
abbrev pub FreshEntries : List RecentEntry → List RecentEntry → Type 0
FreshEntries seen [] = Unit {0}
FreshEntries seen (e ∷ es) =
    (valid_sequence e.sequence ≡ true)
    × ((e.use_count == 0) ≡ false)
    × (is_recent seen e.sequence ≡ false)
    × IsEntry e
    × FreshEntries (seen ++ e ∷ []) es

pub record IsStored (s : PersistentState) : Type 0 where
  pub favorites : Fresh [] s.favorites
  pub recents : FreshEntries [] s.recents
  pub few_favorites : length s.favorites ≤ maximum_favorites
  pub few_recents : length s.recents ≤ maximum_recents

append-Fresh :
    (seen qs : List Bytes) (q : Bytes)
    → Fresh seen qs
    → valid_sequence q ≡ true
    → is_favorite (seen ++ qs) q ≡ false
    → All IsByte q
    → Fresh seen (qs ++ q ∷ [])
append-Fresh seen [] q f v n b = (v, rw (append-nil seen) at n, b, tt)
append-Fresh seen (p ∷ qs) q (v1, n1, b1, f) v n b =
    (v1, n1, b1, append-Fresh (seen ++ p ∷ []) qs q f v (rw (append_assoc seen (p ∷ []) qs) n) b)

append-FreshEntries :
    (seen es : List RecentEntry) (e : RecentEntry)
    → FreshEntries seen es
    → valid_sequence e.sequence ≡ true
    → (e.use_count == 0) ≡ false
    → is_recent (seen ++ es) e.sequence ≡ false
    → IsEntry e
    → FreshEntries seen (es ++ e ∷ [])
append-FreshEntries seen [] e f v z n b = (v, z, rw (append-nil seen) at n, b, tt)
append-FreshEntries seen (p ∷ es) e (v1, z1, n1, b1, f) v z n b = (
  v1,
  z1,
  n1,
  b1,
  append-FreshEntries (seen ++ p ∷ []) es e f v z (rw (append_assoc seen (p ∷ []) es) n) b,
)

-- A state reached from `s`, where it is reached.
abbrev Stores : Option PersistentState → Type 0
Stores none = Unit {0}
Stores (some s) = IsStored s

add_favorite-Stores :
    (q : Bytes) (s : PersistentState) → All IsByte q → IsStored s → Stores (add_favorite (some q) s)
unfolding add_favorite
add_favorite-Stores q s b i =
    let bad =
      not (valid_sequence q)
      || is_favorite s.favorites q
      || ltb maximum_favorites (length s.favorites + 1) in
    elim (Bool-cases bad) [
      | inl e ↦ rw (e, add_favorite) tt
      | inr e ↦
          rw (e, add_favorite)
            (record {
              favorites =
                  append-Fresh [] s.favorites q i.favorites (ground (arith, e)) (ground (arith, e))
                    b;
              recents = i.recents;
              few_favorites = ground (arith, e, length-append s.favorites (q ∷ []));
              few_recents = i.few_recents;
            })
    ]

add_recent-Stores :
    (n : ℕ) (t : ℤ) (q : Bytes) (s : PersistentState)
    → All IsByte q
    → n < 2 ^ 64
    → IsInt64 t
    → IsStored s
    → Stores (add_recent (some n) (some t) (some q) s)
unfolding add_recent
add_recent-Stores n t q s b c d i =
    let entry : RecentEntry = record { sequence = q; use_count = n; last_used = t } in
    let bad =
      n == 0
      || not (valid_sequence q)
      || is_recent s.recents q
      || ltb maximum_recents (length s.recents + 1) in
    elim (Bool-cases bad) [
      | inl e ↦ rw (e, add_recent) tt
      | inr e ↦
          rw (e, add_recent)
            (record {
              favorites = i.favorites;
              recents =
                  append-FreshEntries [] s.recents entry i.recents (ground (arith, e))
                    (ground (arith, e)) (ground (arith, e)) (b, c, d);
              few_favorites = i.few_favorites;
              few_recents = ground (arith, e, length-append s.recents (entry ∷ []));
            })
    ]

favorite_field :
    (o : Option Bytes) (text : Bytes) (s : PersistentState)
    → hex_decode text ≡ o
    → IsStored s
    → Stores (add_favorite o s)
unfolding add_favorite
favorite_field none text s e i = tt
favorite_field (some q) text s e i = add_favorite-Stores q s (hex_decode_shape text e).0 i

recent_fields :
    (n : Option ℕ) (t : Option ℤ) (o : Option Bytes) (count timestamp text : Bytes)
    (s : PersistentState)
    → parse_count count ≡ n
    → parse_time timestamp ≡ t
    → hex_decode text ≡ o
    → IsStored s
    → Stores (add_recent n t o s)
unfolding add_recent
recent_fields none t o count timestamp text s en et e i = tt
recent_fields (some n) none o count timestamp text s en et e i = tt
recent_fields (some n) (some t) none count timestamp text s en et e i = tt
recent_fields (some n) (some t) (some q) count timestamp text s en et e i =
    add_recent-Stores n t q s (hex_decode_shape text e).0 (parse_count-IsU64 count en)
      (parse_time-IsInt64 timestamp et) i

when_stored : (b : Bool) (o : Option PersistentState) → Stores o → Stores (if b then o else none)
when_stored true o h = h
when_stored false o h = tt

parse_fields-Stores :
    (fs : List Bytes) (s : PersistentState) → IsStored s → Stores (parse_fields fs s)
unfolding parse_fields
parse_fields-Stores [] s i = tt
parse_fields-Stores (a ∷ []) s i = tt
parse_fields-Stores (a ∷ q ∷ []) s i =
    when_stored (equal a favorite_word) _ (favorite_field _ q s refl i)
parse_fields-Stores (a ∷ n ∷ t ∷ []) s i = tt
parse_fields-Stores (a ∷ n ∷ t ∷ q ∷ []) s i =
    when_stored (equal a recent_word) _ (recent_fields _ _ _ n t q s refl refl refl i)
parse_fields-Stores (a ∷ n ∷ t ∷ q ∷ r ∷ rest) s i = tt

parse_line-Stores : (l : Bytes) (s : PersistentState) → IsStored s → Stores (parse_line l s)
unfolding parse_line
parse_line-Stores l s i = elim (Bool-cases (is_empty l)) [
  | inl e ↦ rw (e, parse_line) i
  | inr e ↦ rw (e, parse_line) (parse_fields-Stores (fields l) s i)
]

parse_lines-Stores :
    (ls : List Bytes) (s : PersistentState) → IsStored s → Stores (parse_lines ls s)
unfolding parse_lines
parse_lines-Stores [] s i = i
parse_lines-Stores (l ∷ ls) s i = elim (Option-cases (parse_line l s)) [
  | inl n ↦ rw (n, parse_lines) tt
  | inr (s', e) ↦
      rw (e, parse_lines) (parse_lines-Stores ls s' (subst Stores e (parse_line-Stores l s i)))
]

parse_content-Stores : (ls : List Bytes) → Stores (parse_content ls)
unfolding parse_content
parse_content-Stores [] = tt
parse_content-Stores (l ∷ ls) = elim (Bool-cases (equal l first_line)) [
  | inr e ↦ rw (e, parse_content) tt
  | inl e ↦
      rw (e, parse_content)
        (parse_lines-Stores ls empty_state (record {
          favorites = tt;
          recents = tt;
          few_favorites = omega arith;
          few_recents = omega arith;
        }))
]

pub parse_state-IsStored :
    (content : Bytes) {s : PersistentState} → parse_state content ≡ some s → IsStored s
unfolding parse_state
parse_state-IsStored content e = subst Stores e (parse_content-Stores (lines_of content))
