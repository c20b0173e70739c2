-- ===== src/Catalog/Hits.antt =====
-- src/model/catalog.cpp: the results of `search`, against the rows of the table.
use fcitx5_emoji_palette.Prelude.{
  ℕ, false, Option, some, List, [], ◌∷◌, map, Bytes, All, equal, equal_iff, ◌≡◌, refl, sym, ap, ◌∙◌,
  arith, inl, inr, Bool-cases, Option-cases,
}
use fcitx5_emoji_palette.Prelude.Int.{ℤ, pos, ltb_ℤ, ◌+ℤ◌}
use fcitx5_emoji_palette.Protocol.{Locale}
use fcitx5_emoji_palette.Sort.{stable_sort-All}
use fcitx5_emoji_palette.Text.{normalize_for_search}
use fcitx5_emoji_palette.Catalog.{
  EmojiRecord, GeneratedEmoji, SearchResult, query_tokens, build_record, build_document, build,
  SearchDocument, document_score, find_in, find, total_score, candidates, scores_higher, ranked,
  search,
}
use fcitx5_emoji_palette.Catalog.Ranking.{cut-All, search_cases}
use mathlib.Core.List.{Memᴰ}
use mathlib.Core.Option.{some-injective}

-- The score of a row of the table for the tokens of a query.
abbrev pub score_of : List Bytes → Locale → GeneratedEmoji → Option ℤ
score_of tokens locale g = total_score tokens (build_document (build_record g)) locale (pos 0)

abbrev pub hit : GeneratedEmoji → ℤ → SearchResult
hit g t = record { emoji = build_record g; score = t }

abbrev pub tokens_of : Bytes → List Bytes
tokens_of query = query_tokens (normalize_for_search query)

-- Every token matches the document, with a score of 0 or more each, and `t` is the sum of the scores
-- and of `total`.
abbrev pub IsTotal : List Bytes → SearchDocument → Locale → ℤ → ℤ → Type 0
IsTotal [] d locale total t = total ≡ t
IsTotal (token ∷ rest) d locale total t =
    (ltb_ℤ (document_score token d locale) (pos 0) ≡ false)
    × IsTotal rest d locale (total +ℤ document_score token d locale) t

abbrev pub Scores : List Bytes → Locale → GeneratedEmoji → ℤ → Type 0
Scores tokens locale g t = IsTotal tokens (build_document (build_record g)) locale (pos 0) t

total_score-IsTotal :
    (tokens : List Bytes) (d : SearchDocument) (locale : Locale) (total t : ℤ)
    → total_score tokens d locale total ≡ some t
    → IsTotal tokens d locale total t
unfolding total_score
total_score-IsTotal [] d locale total t e = some-injective _ _ e
total_score-IsTotal (token ∷ rest) d locale total t e =
    elim (Bool-cases (ltb_ℤ (document_score token d locale) (pos 0))) [
      | inl h ↦ cc (rw (h, total_score) at e)
      | inr h ↦ (h, total_score-IsTotal rest d locale _ t (rw (h, total_score) at e))
    ]

pub IsTotal-total_score :
    (tokens : List Bytes) (d : SearchDocument) (locale : Locale) (total t : ℤ)
    → IsTotal tokens d locale total t
    → total_score tokens d locale total ≡ some t
unfolding total_score
IsTotal-total_score [] d locale total t e = ap some e
IsTotal-total_score (token ∷ rest) d locale total t (h, e) =
    rw (h, total_score) (IsTotal-total_score rest d locale _ t e)

-- A result stands for a row of the table: the one whose sequence is the query, or one that all tokens match.
pub data IsHit (table : List GeneratedEmoji) (query : Bytes) (locale : Locale) (r : SearchResult)
    : Type 0 where
  exact_hit :
      (g : GeneratedEmoji)
      → Memᴰ g table
      → g.sequence ≡ query
      → r ≡ hit g (pos 10000)
      → IsHit table query locale r
  token_hit :
      (g : GeneratedEmoji) (t : ℤ)
      → Memᴰ g table
      → Scores (tokens_of query) locale g t
      → r ≡ hit g t
      → IsHit table query locale r

abbrev pub candidates_of : List Bytes → Locale → List GeneratedEmoji → List SearchResult
candidates_of tokens locale table =
    candidates tokens locale (map build_record table)
      (map (λ g. build_document (build_record g)) table)

candidates-All {κ} :
    (P : SearchResult → Type κ) (tokens : List Bytes) (locale : Locale)
    (table : List GeneratedEmoji)
    → ((g : GeneratedEmoji) (t : ℤ)
        → Memᴰ g table
        → score_of tokens locale g ≡ some t
        → P (hit g t))
    → All P (candidates_of tokens locale table)
unfolding candidates
candidates-All P tokens locale [] h = tt
candidates-All P tokens locale (g ∷ table) h =
    let rest = candidates-All P tokens locale table (λ k t m e. h k t (Memᴰ.tail m) e) in
    elim (Option-cases (score_of tokens locale g)) [
      | inl e ↦ rw (e, candidates) rest
      | inr (t, e) ↦ rw (e, candidates) (h g t (Memᴰ.head refl) e, rest)
    ]

pub candidates-Memᴰ :
    (tokens : List Bytes) (locale : Locale) (table : List GeneratedEmoji) (g : GeneratedEmoji)
    (t : ℤ)
    → Memᴰ g table
    → score_of tokens locale g ≡ some t
    → Memᴰ (hit g t) (candidates_of tokens locale table)
unfolding candidates
candidates-Memᴰ tokens locale [] g t m h = elim m [ ]
candidates-Memᴰ tokens locale (k ∷ table) g t (Memᴰ.head e) h =
    rw (ap (score_of tokens locale) (sym e) ∙ h, candidates) (Memᴰ.head (ap (λ x. hit x t) e))
candidates-Memᴰ tokens locale (k ∷ table) g t (Memᴰ.tail m) h =
    let rest = candidates-Memᴰ tokens locale table g t m h in
    elim (Option-cases (score_of tokens locale k)) [
      | inl e ↦ rw (e, candidates) rest
      | inr (u, e) ↦ rw (e, candidates) (Memᴰ.tail rest)
    ]

find_in-build :
    (table : List GeneratedEmoji) (query : Bytes) (e : EmojiRecord)
    → find_in (map build_record table) query ≡ some e
    → (g : GeneratedEmoji) × Memᴰ g table × (g.sequence ≡ query) × (e ≡ build_record g)
unfolding find_in build_record
find_in-build [] query e h = ground (arith, h)
find_in-build (g ∷ table) query e h = elim (Bool-cases (equal g.sequence query)) [
  | inl a ↦
      let k : some (build_record g) ≡ some e = simp (a, find_in, build_record) at h in
      (g, Memᴰ.head refl, (equal_iff g.sequence query).0 a, sym (some-injective _ e k))
  | inr a ↦
      let k : find_in (map build_record table) query ≡ some e =
        simp (a, find_in, build_record) at h in
      let (i, m, s, q) = find_in-build table query e k in (i, Memᴰ.tail m, s, q)
]

ranked-All {κ} :
    (P : SearchResult → Type κ) (tokens : List Bytes) (locale : Locale) (limit : ℕ)
    (table : List GeneratedEmoji)
    → ((g : GeneratedEmoji) (t : ℤ)
        → Memᴰ g table
        → score_of tokens locale g ≡ some t
        → P (hit g t))
    → All P (ranked (build table) tokens locale limit)
unfolding ranked build
ranked-All P [] locale limit table h = tt
ranked-All P (token ∷ tokens) locale limit table h =
    cut-All P limit _
      (stable_sort-All scores_higher P _ (candidates-All P (token ∷ tokens) locale table h))

find-build :
    (table : List GeneratedEmoji) (query : Bytes) (e : EmojiRecord)
    → find (build table) query ≡ some e
    → (g : GeneratedEmoji) × Memᴰ g table × (g.sequence ≡ query) × (e ≡ build_record g)
unfolding find build
find-build = find_in-build

-- Every result of a search in the catalog built from a table stands for a row of the table: either the
-- row whose sequence is the query, with score 10000, or a row that every token of the query matches,
-- each with a score of 0 or more, with the sum of these scores.
pub search-IsHit :
    (table : List GeneratedEmoji) (query : Bytes) (locale : Locale) (limit : ℕ)
    → All (IsHit table query locale) (search (build table) query locale limit)
search-IsHit table query locale limit =
    let P = IsHit table query locale in
    search_cases (All P) (build table) query locale limit tt
      (λ e h f.
        let (g, m, s, q) = find-build table query e f in
        (exact_hit g m s (ap (λ x. record { emoji = x; score = pos 10000 }) q), tt))
      (ranked-All P (tokens_of query) locale limit table
        (λ g t m e. token_hit g t m (total_score-IsTotal _ _ _ _ t e) refl))
