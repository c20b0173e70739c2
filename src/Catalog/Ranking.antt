-- ===== src/Catalog/Ranking.antt =====
-- src/model/catalog.cpp: the order and the number of the results of `search`.
use fcitx5_emoji_palette.Prelude.{
  ℕ, ◌≤◌, true, false, some, List, [], ◌∷◌, Bytes, All, length, length-take, ltb, ◌==◌, ◌≡◌, arith,
  inl, inr, Bool-cases, Option-cases,
}
use fcitx5_emoji_palette.Prelude.Int.{pos, ltb_ℤ}
use fcitx5_emoji_palette.Protocol.{Locale}
use fcitx5_emoji_palette.Sort.{IsSorted, stable_sort-IsSorted}
use fcitx5_emoji_palette.Sort.Members.{take-All, take-IsSorted, IsOrdered, IsSorted-IsOrdered}
use fcitx5_emoji_palette.Text.{normalize_for_search}
use fcitx5_emoji_palette.Catalog.{
  EmojiRecord, EmojiCatalog, SearchResult, query_tokens, find, is_empty_text, candidates,
  scores_higher, cut, ranked, search,
}

pub higher_asym : (x y : SearchResult) → scores_higher x y ≡ true → scores_higher y x ≡ false
higher_asym x y h = ground (arith, h)

pub higher_trans :
    (x y z : SearchResult)
    → scores_higher y x ≡ false
    → scores_higher z y ≡ false
    → scores_higher z x ≡ false
higher_trans x y z h k = ground (arith, h, k)

cut-IsSorted :
    (n : ℕ) (rs : List SearchResult) → IsSorted scores_higher rs → IsSorted scores_higher (cut n rs)
unfolding cut
cut-IsSorted n rs h = elim (Bool-cases (ltb n (length rs))) [
  | inl e ↦ rw (e, cut) (take-IsSorted scores_higher n rs h)
  | inr e ↦ rw (e, cut) h
]

pub cut-All {κ} :
    (P : SearchResult → Type κ) (n : ℕ) (rs : List SearchResult) → All P rs → All P (cut n rs)
unfolding cut
cut-All P n rs h = elim (Bool-cases (ltb n (length rs))) [
  | inl e ↦ rw (e, cut) (take-All P n rs h)
  | inr e ↦ rw (e, cut) h
]

length-cut : (n : ℕ) (rs : List SearchResult) → length (cut n rs) ≤ n
unfolding cut
length-cut n rs = ground (arith, length-take n rs)

-- A property of the result of a search, case by case.
pub search_cases {κ} :
    (P : List SearchResult → Type κ) (c : EmojiCatalog) (query : Bytes) (locale : Locale)
    (limit : ℕ)
    → P []
    → ((e : EmojiRecord)
        → 1 ≤ limit
        → find c query ≡ some e
        → P (record { emoji = e; score = pos 10000 } ∷ []))
    → P (ranked c (query_tokens (normalize_for_search query)) locale limit)
    → P (search c query locale limit)
unfolding search
search_cases P c query locale limit p0 p1 p2 =
    elim (Bool-cases (is_empty_text (normalize_for_search query))) [
      | inl a ↦ rw (a, search) p0
      | inr a ↦ elim (Bool-cases (limit == 0)) [
        | inl b ↦ rw (a, b, search) p0
        | inr b ↦ elim (Option-cases (find c query)) [
          | inr (e, f) ↦ rw (a, b, f, search) (p1 e (ground (arith, b)) f)
          | inl f ↦ rw (a, b, f, search) p2
        ]
      ]
    ]

ranked-IsSorted :
    (c : EmojiCatalog) (tokens : List Bytes) (locale : Locale) (limit : ℕ)
    → IsSorted scores_higher (ranked c tokens locale limit)
unfolding ranked
ranked-IsSorted c [] locale limit = tt
ranked-IsSorted c (token ∷ tokens) locale limit = cut-IsSorted limit _ (
    stable_sort-IsSorted scores_higher higher_asym higher_trans
      (candidates (token ∷ tokens) locale c.records c.documents))

length-ranked :
    (c : EmojiCatalog) (tokens : List Bytes) (locale : Locale) (limit : ℕ)
    → length (ranked c tokens locale limit) ≤ limit
unfolding ranked
length-ranked c [] locale limit = omega arith
length-ranked c (token ∷ tokens) locale limit = length-cut limit _

-- A search returns at most `limit` results.
length-search :
    (c : EmojiCatalog) (query : Bytes) (locale : Locale) (limit : ℕ)
    → length (search c query locale limit) ≤ limit
length-search c query locale limit =
    search_cases (λ rs. length rs ≤ limit) c query locale limit (omega arith) (λ e h f. h)
      (length-ranked c (query_tokens (normalize_for_search query)) locale limit)

-- The score of the second is not above that of the first.
abbrev pub IsFalling : SearchResult → SearchResult → Type 0
IsFalling first second = ltb_ℤ first.score second.score ≡ false

falling : (x y : SearchResult) → scores_higher y x ≡ false → IsFalling x y
falling x y h = h

-- No result of a search has a higher score than one before it, and there are at most `limit` of them.
pub search-IsSorted :
    (c : EmojiCatalog) (query : Bytes) (locale : Locale) (limit : ℕ)
    → IsOrdered IsFalling (search c query locale limit)
      × (length (search c query locale limit) ≤ limit)
search-IsSorted c query locale limit = (
  search_cases (IsOrdered IsFalling) c query locale limit tt (λ e h f. (tt, tt))
      (IsSorted-IsOrdered scores_higher IsFalling falling _
        (ranked-IsSorted c (query_tokens (normalize_for_search query)) locale limit)),
  length-search c query locale limit,
)
