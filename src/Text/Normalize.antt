-- ===== src/Text/Normalize.antt =====
-- src/core/utf8.cpp: `normalizeForSearch`.
use fcitx5_emoji_palette.Prelude.{
  ℕ, Bool, true, false, not, none, some, List, [], ◌∷◌, ◌++◌, Bytes, IsByte, All, ◌≡◌, refl, sym,
  ap, map, any, ◌==◌, ◌∙◌, ◌⊎◌, inl, inr, arith, Bool-cases, Option-cases, append_assoc, append-nil,
  if◌then◌else◌,
}
use fcitx5_emoji_palette.Utf8.{is_scalar, decode_utf8, decode_loop, encode_utf8, encode_loop}
use fcitx5_emoji_palette.Utf8.RoundTrip.{IsScalar, decode-encode, decode_sound}
use fcitx5_emoji_palette.Text.{
  fold_codepoint, is_space, normalize_loop, trim_last, normalize_for_search,
}

-- Folding a code point twice is folding it once.
pub fold_codepoint-fold_codepoint : (c : ℕ) → fold_codepoint (fold_codepoint c) ≡ fold_codepoint c
unfolding fold_codepoint
fold_codepoint-fold_codepoint c = ground arith

fold_codepoint-IsScalar : (c : ℕ) → IsScalar c → IsScalar (fold_codepoint c)
unfolding fold_codepoint is_scalar
fold_codepoint-IsScalar c h = ground arith

-- The loop with no accumulator.
unfoldable spaced : Bool → List ℕ → List ℕ
spaced p [] = []
spaced p (c ∷ r) = elim (is_space (fold_codepoint c)) [
  | true ↦ if not p then b' ' ∷ spaced true r else spaced true r
  | false ↦ fold_codepoint c ∷ spaced false r
]

normalize_loop-spaced :
    (cps out : List ℕ) (p : Bool) → normalize_loop out p cps ≡ out ++ spaced p cps
unfolding normalize_loop spaced
normalize_loop-spaced [] out p = sym (append-nil out)
normalize_loop-spaced (c ∷ r) out p = elim (Bool-cases (is_space (fold_codepoint c))) [
  | inl s ↦ elim (Bool-cases p) [
    | inl t ↦ ground (arith, s, t, normalize_loop-spaced r out true)
    | inr f ↦ ground (
      arith,
      s,
      f,
      normalize_loop-spaced r (out ++ b' ' ∷ []) true,
      append_assoc out (b' ' ∷ []) (spaced true r),
    )
  ]
  | inr n ↦ ground (
    arith,
    n,
    normalize_loop-spaced r (out ++ fold_codepoint c ∷ []) false,
    append_assoc out (fold_codepoint c ∷ []) (spaced false r),
  )
]

-- Folded code points, no white space but single spaces, and none of those where `p` says that a
-- space, or the start of the text, stands before.
abbrev pub IsNormal : Bool → List ℕ → Type 0
IsNormal p [] = Unit
IsNormal p (c ∷ r) =
    (fold_codepoint c ≡ c)
    × (((c ≡ b' ') × (p ≡ false) × IsNormal true r) ⊎ ((is_space c ≡ false) × IsNormal false r))

space_is_space : (is_space b' ' ≡ true) × (fold_codepoint b' ' ≡ b' ')
unfolding is_space fold_codepoint
space_is_space = (refl, refl)

spaced-IsNormal : (cps : List ℕ) (p : Bool) → IsNormal p (spaced p cps)
unfolding spaced
spaced-IsNormal [] p = tt
spaced-IsNormal (c ∷ r) p = ground (
  arith,
  spaced-IsNormal r true,
  spaced-IsNormal r false,
  fold_codepoint-fold_codepoint c,
  space_is_space.1,
)

spaced_of_IsNormal : (xs : List ℕ) (p : Bool) → IsNormal p xs → spaced p xs ≡ xs
unfolding spaced
spaced_of_IsNormal [] p h = refl
spaced_of_IsNormal (c ∷ r) p h =
    ground (arith, h, spaced_of_IsNormal r true, spaced_of_IsNormal r false, space_is_space.0)

spaced-IsScalar : (cps : List ℕ) (p : Bool) → All IsScalar cps → All IsScalar (spaced p cps)
unfolding spaced is_scalar
spaced-IsScalar [] p h = tt
spaced-IsScalar (c ∷ r) p h = ground (
  arith,
  h,
  fold_codepoint-IsScalar c h.0,
  spaced-IsScalar r true h.1,
  spaced-IsScalar r false h.1,
)

trim_last-IsNormal : (xs : List ℕ) (p : Bool) → IsNormal p xs → IsNormal p (trim_last xs)
unfolding trim_last
trim_last-IsNormal [] p h = tt
trim_last-IsNormal (c ∷ []) p h = ground (arith, h)
trim_last-IsNormal (c ∷ d ∷ r) p h =
    ground (arith, h, trim_last-IsNormal (d ∷ r) true, trim_last-IsNormal (d ∷ r) false)

trim_last-IsScalar : (xs : List ℕ) → All IsScalar xs → All IsScalar (trim_last xs)
unfolding trim_last
trim_last-IsScalar [] h = tt
trim_last-IsScalar (c ∷ []) h = ground (arith, h)
trim_last-IsScalar (c ∷ d ∷ r) h = (h.0, trim_last-IsScalar (d ∷ r) h.1)

trim_last-trim_last :
    (xs : List ℕ) (p : Bool) → IsNormal p xs → trim_last (trim_last xs) ≡ trim_last xs
unfolding trim_last
trim_last-trim_last [] p h = refl
trim_last-trim_last (c ∷ []) p h = ground arith
trim_last-trim_last (c ∷ d ∷ []) p h = ground (arith, h, space_is_space.0)
trim_last-trim_last (c ∷ d ∷ e ∷ r) p (_, inl (_, _, h)) =
    ap (◌∷◌ c) (trim_last-trim_last (d ∷ e ∷ r) true h)
trim_last-trim_last (c ∷ d ∷ e ∷ r) p (_, inr (_, h)) =
    ap (◌∷◌ c) (trim_last-trim_last (d ∷ e ∷ r) false h)

-- The code points of a normalised text.
unfoldable normal : List ℕ → List ℕ
normal cps = trim_last (spaced true cps)

normal-normal : (cps : List ℕ) → normal (normal cps) ≡ normal cps
unfolding normal
normal-normal cps =
    let n = spaced-IsNormal cps true in
    rw (spaced_of_IsNormal (trim_last (spaced true cps)) true (trim_last-IsNormal _ true n))
      (trim_last-trim_last (spaced true cps) true n)

normal-IsScalar : (cps : List ℕ) → All IsScalar cps → All IsScalar (normal cps)
unfolding normal
normal-IsScalar cps h = trim_last-IsScalar _ (spaced-IsScalar cps true h)

normalize_some :
    (value : Bytes) {cps : List ℕ}
    → decode_utf8 value ≡ some cps
    → normalize_for_search value ≡ encode_utf8 (normal cps)
unfolding normalize_for_search normal
normalize_some value {cps} d =
    rw (d, normalize_for_search)
      (ap (λ t. encode_utf8 (trim_last t)) (normalize_loop-spaced cps [] true))

normalize_none : (value : Bytes) → decode_utf8 value ≡ none → normalize_for_search value ≡ []
unfolding normalize_for_search
normalize_none value d = rw (d, normalize_for_search)

normalize_nil : normalize_for_search [] ≡ []
unfolding normalize_for_search decode_utf8 decode_loop encode_utf8 encode_loop normalize_loop
    trim_last
normalize_nil = refl

-- Normalising a byte string twice is normalising it once, on valid and on malformed strings.
pub normalize_for_search-normalize_for_search :
    (value : Bytes)
    → All IsByte value
    → normalize_for_search (normalize_for_search value) ≡ normalize_for_search value
normalize_for_search-normalize_for_search value h = elim (Option-cases (decode_utf8 value)) [
  | inl n ↦ rw (normalize_none value n) normalize_nil
  | inr (cps, d) ↦
      let s = normal-IsScalar cps (decode_sound value h d).1 in
      rw
        (normalize_some value d, normalize_some _ (decode-encode (normal cps) s), normal-normal cps)
        refl
]

-- White space: a space, a tab, or the end of a line.
abbrev pub white : ℕ → Bool
white c = any (λ w. c == w) (32 ∷ 9 ∷ 10 ∷ 13 ∷ [])

white_lem : (c : ℕ) → is_space c ≡ white c
unfolding is_space
white_lem c = ground arith

abbrev pub add_first : ℕ → List (List ℕ) → List (List ℕ)
add_first c [] = (c ∷ []) ∷ []
add_first c (w ∷ ws) = (c ∷ w) ∷ ws

-- What stands between the white space, and the words: what of it is not empty.
abbrev pub pieces : List ℕ → List (List ℕ)
pieces [] = []
pieces (c ∷ cs) = if white c then [] ∷ pieces cs else add_first c (pieces cs)

abbrev pub not_empty : List (List ℕ) → List (List ℕ)
not_empty [] = []
not_empty ([] ∷ ws) = not_empty ws
not_empty ((c ∷ w) ∷ ws) = (c ∷ w) ∷ not_empty ws

abbrev pub words : List ℕ → List (List ℕ)
words cs = not_empty (pieces cs)

-- Each word behind a space, and the words with a space between any two of them.
abbrev pub behind_spaces : List (List ℕ) → List ℕ
behind_spaces [] = []
behind_spaces (w ∷ ws) = b' ' ∷ (w ++ behind_spaces ws)

abbrev pub with_spaces : List (List ℕ) → List ℕ
with_spaces [] = []
with_spaces (w ∷ ws) = w ++ behind_spaces ws

abbrev first_piece : List (List ℕ) → List ℕ
first_piece [] = []
first_piece (w ∷ ws) = w

abbrev later_pieces : List (List ℕ) → List (List ℕ)
later_pieces [] = []
later_pieces (w ∷ ws) = ws

add_first-words :
    (c : ℕ) (ps : List (List ℕ))
    → with_spaces (not_empty (add_first c ps))
      ≡ c ∷ (first_piece ps ++ behind_spaces (not_empty (later_pieces ps)))
add_first-words c [] = refl
add_first-words c (w ∷ ws) = refl

add_first-pieces :
    (c : ℕ) (ps : List (List ℕ))
    → first_piece (add_first c ps) ++ behind_spaces (not_empty (later_pieces (add_first c ps)))
      ≡ c ∷ (first_piece ps ++ behind_spaces (not_empty (later_pieces ps)))
add_first-pieces c [] = refl
add_first-pieces c (w ∷ ws) = refl

-- A space before a text that is not empty.
abbrev space_before : List ℕ → List ℕ
space_before [] = []
space_before (c ∷ cs) = b' ' ∷ c ∷ cs

space_before-words :
    (ps : List (List ℕ)) → space_before (with_spaces (not_empty ps)) ≡ behind_spaces (not_empty ps)
space_before-words [] = refl
space_before-words ([] ∷ ps) = space_before-words ps
space_before-words ((c ∷ w) ∷ ps) = refl

trim_last-cons : (c : ℕ) (xs : List ℕ) → is_space c ≡ false → trim_last (c ∷ xs) ≡ c ∷ trim_last xs
unfolding trim_last is_space
trim_last-cons c [] h = ground (arith, h)
trim_last-cons c (d ∷ xs) h = refl

trim_last-space :
    (xs : List ℕ) → IsNormal true xs → trim_last (b' ' ∷ xs) ≡ space_before (trim_last xs)
unfolding trim_last
trim_last-space [] h = refl
trim_last-space (c ∷ xs) (_, inl (_, h, _)) = absurd (ground (arith, h))
trim_last-space (c ∷ xs) (_, inr (h, _)) =
    let e = trim_last-cons c xs h in ap (λ l. b' ' ∷ l) e ∙ sym (ap space_before e)

spaced_space :
    (c : ℕ) (r : List ℕ)
    → is_space (fold_codepoint c) ≡ true
    → (spaced true (c ∷ r) ≡ spaced true r) × (spaced false (c ∷ r) ≡ b' ' ∷ spaced true r)
unfolding spaced
spaced_space c r h = (rw (h, spaced) refl, rw (h, spaced) refl)

spaced_other :
    (p : Bool) (c : ℕ) (r : List ℕ)
    → is_space (fold_codepoint c) ≡ false
    → spaced p (c ∷ r) ≡ fold_codepoint c ∷ spaced false r
unfolding spaced
spaced_other p c r h = rw (h, spaced) refl

pieces_space : (c : ℕ) (cs : List ℕ) → is_space c ≡ true → pieces (c ∷ cs) ≡ [] ∷ pieces cs
pieces_space c cs h =
    ap (λ b. if b then [] ∷ pieces cs else add_first c (pieces cs)) (sym (white_lem c) ∙ h)

pieces_other :
    (c : ℕ) (cs : List ℕ) → is_space c ≡ false → pieces (c ∷ cs) ≡ add_first c (pieces cs)
pieces_other c cs h =
    ap (λ b. if b then [] ∷ pieces cs else add_first c (pieces cs)) (sym (white_lem c) ∙ h)

-- The rest of a word, and the words behind it.
abbrev inside_words : List (List ℕ) → List ℕ
inside_words ps = first_piece ps ++ behind_spaces (not_empty (later_pieces ps))

spaced-words :
    (cps : List ℕ)
    → (trim_last (spaced true cps) ≡ with_spaces (words (map fold_codepoint cps)))
      × (trim_last (spaced false cps) ≡ inside_words (pieces (map fold_codepoint cps)))
unfolding spaced trim_last
spaced-words [] = (refl, refl)
spaced-words (c ∷ cps) =
    let (start, inside) = spaced-words cps in
    let f = fold_codepoint c in
    let fs = map fold_codepoint cps in
    elim (Bool-cases (is_space f)) [
      | inl h ↦
          let p = pieces_space f fs h in
          let (e, k) = spaced_space c cps h in
          (
            ap trim_last e ∙ start ∙ ap (λ l. with_spaces (not_empty l)) (sym p),
            ap trim_last k
                ∙ trim_last-space (spaced true cps) (spaced-IsNormal cps true)
                ∙ ap space_before start
                ∙ space_before-words (pieces fs)
                ∙ ap inside_words (sym p),
          )
      | inr h ↦
          let p = pieces_other f fs h in
          let out : (b : Bool) → trim_last (spaced b (c ∷ cps)) ≡ f ∷ inside_words (pieces fs) =
            λ b.
              ap trim_last (spaced_other b c cps h)
              ∙ trim_last-cons f (spaced false cps) h
              ∙ ap (λ l. f ∷ l) inside in
          (
            out true
                ∙ sym (add_first-words f (pieces fs))
                ∙ ap (λ l. with_spaces (not_empty l)) (sym p),
            out false ∙ sym (add_first-pieces f (pieces fs)) ∙ ap inside_words (sym p),
          )
    ]

normal-words : (cps : List ℕ) → normal cps ≡ with_spaces (words (map fold_codepoint cps))
unfolding normal
normal-words cps = (spaced-words cps).0

normal_shape : (cps : List ℕ) → IsNormal true (normal cps) × (trim_last (normal cps) ≡ normal cps)
unfolding normal
normal_shape cps =
    let n = spaced-IsNormal cps true in (trim_last-IsNormal _ true n, trim_last-trim_last _ true n)

-- The code points of a normalised valid string are the words of the folded code points of the string,
-- each one not empty and with no white space inside, with a single space between any two and none at
-- the start or the end; they are folded.
pub normalize_for_search-IsNormal :
    (value : Bytes) {cps : List ℕ}
    → All IsByte value
    → decode_utf8 value ≡ some cps
    → (out : List ℕ) × (decode_utf8 (normalize_for_search value) ≡ some out)
      × IsNormal true out
      × (out ≡ with_spaces (words (map fold_codepoint cps)))
normalize_for_search-IsNormal value {cps} h d =
    let s = normal-IsScalar cps (decode_sound value h d).1 in
    (
      normal cps,
      rw (normalize_some value d) (decode-encode (normal cps) s),
      (normal_shape cps).0,
      normal-words cps,
    )
