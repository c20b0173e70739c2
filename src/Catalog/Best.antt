-- ===== src/Catalog/Best.antt =====
-- src/model/catalog.cpp: the rows of the table that match, against the results of `search`.
use fcitx5_emoji_palette.Prelude.{
  ℕ, zero, suc, true, false, none, some, List, [], ◌∷◌, Bytes, All, length, take, ltb, ◌==◌, ◌≡◌,
  refl, sym, ap, ◌∙◌, subst, arith, ◌⊎◌, inl, inr, Bool-cases,
}
use fcitx5_emoji_palette.Prelude.Int.{ℤ, ltb_ℤ}
use fcitx5_emoji_palette.Protocol.{Locale}
use fcitx5_emoji_palette.Sort.{IsSorted, stable_sort-IsSorted}
use fcitx5_emoji_palette.Utf8.{decode_utf8, decode_loop, encode_utf8, encode_loop}
use fcitx5_emoji_palette.Sort.Members.{stable_sort-Memᴰ, All-lookup}
use fcitx5_emoji_palette.Text.{normalize_for_search, normalize_loop, trim_last}
use fcitx5_emoji_palette.Catalog.{
  GeneratedEmoji, SearchResult, query_tokens, split, split_from, build, find, is_empty_text,
  scores_higher, cut, ranked, search,
}
use fcitx5_emoji_palette.Catalog.Ranking.{higher_asym, higher_trans}
use mathlib.Core.List.{Memᴰ}
use fcitx5_emoji_palette.Catalog.Hits.{
  score_of, Scores, IsTotal-total_score, hit, tokens_of, candidates-Memᴰ,
}

-- Either `r` is in the list, or the list is full, of results that score no less than `r`.
abbrev pub IsCovered : SearchResult → ℕ → List SearchResult → Type 0
IsCovered r limit rs =
    Memᴰ r rs ⊎ ((length rs ≡ limit) × All (λ x. ltb_ℤ x.score r.score ≡ false) rs)

IsCovered-cons :
    {r : SearchResult} (x : SearchResult) (n : ℕ) (rs : List SearchResult)
    → ltb_ℤ x.score r.score ≡ false
    → IsCovered r n rs
    → IsCovered r (suc n) (x ∷ rs)
IsCovered-cons x n rs e (inl m) = inl (Memᴰ.tail m)
IsCovered-cons x n rs e (inr (l, a)) = inr (ap suc l, (e, a))

take-IsCovered :
    {r : SearchResult} (n : ℕ) (xs : List SearchResult)
    → IsSorted scores_higher xs
    → Memᴰ r xs
    → IsCovered r n (take n xs)
take-IsCovered zero xs s m = inr (refl, tt)
take-IsCovered (suc n) [] s m = elim m [ ]
take-IsCovered (suc n) (x ∷ xs) s (Memᴰ.head q) = inl (Memᴰ.head q)
take-IsCovered {r} (suc n) (x ∷ xs) s (Memᴰ.tail m) =
    IsCovered-cons x n (take n xs) (All-lookup (λ y. scores_higher y x ≡ false) xs s.0 m)
      (take-IsCovered n xs s.1 m)

cut-IsCovered :
    {r : SearchResult} (n : ℕ) (xs : List SearchResult)
    → IsSorted scores_higher xs
    → Memᴰ r xs
    → IsCovered r n (cut n xs)
unfolding cut
cut-IsCovered n xs s m = elim (Bool-cases (ltb n (length xs))) [
  | inl e ↦ rw (e, cut) (take-IsCovered n xs s m)
  | inr e ↦ rw (e, cut) (inl m)
]

ranked-IsCovered :
    (table : List GeneratedEmoji) (token : Bytes) (tokens : List Bytes) (locale : Locale)
    (limit : ℕ) (g : GeneratedEmoji) (t : ℤ)
    → Memᴰ g table
    → score_of (token ∷ tokens) locale g ≡ some t
    → IsCovered (hit g t) limit (ranked (build table) (token ∷ tokens) locale limit)
unfolding ranked build
ranked-IsCovered table token tokens locale limit g t m h =
    cut-IsCovered limit _ (stable_sort-IsSorted scores_higher higher_asym higher_trans _)
      (stable_sort-Memᴰ scores_higher _ (candidates-Memᴰ (token ∷ tokens) locale table g t m h))

no_tokens : (n : Bytes) → is_empty_text n ≡ true → query_tokens n ≡ []
unfolding query_tokens split split_from normalize_for_search normalize_loop trim_last decode_utf8
    decode_loop encode_utf8 encode_loop
no_tokens [] h = refl
no_tokens (c ∷ cs) h = ground (arith, h)

-- A search misses no better match: where the query has a token and is not itself a sequence of the
-- table, each row that every token matches, with a score of 0 or more each and the sum t, is among the
-- results, or the results are as many as `limit` allows and each of them scores at least t.
pub search-IsCovered :
    (table : List GeneratedEmoji) (query : Bytes) (locale : Locale) (limit : ℕ) (token : Bytes)
    (tokens : List Bytes) (g : GeneratedEmoji) (t : ℤ)
    → tokens_of query ≡ token ∷ tokens
    → find (build table) query ≡ none
    → Memᴰ g table
    → Scores (tokens_of query) locale g t
    → IsCovered (hit g t) limit (search (build table) query locale limit)
unfolding search
search-IsCovered table query locale limit token tokens g t e f m h =
    elim (Bool-cases (is_empty_text (normalize_for_search query))) [
      | inl a ↦ ground (arith, sym e ∙ no_tokens (normalize_for_search query) a)
      | inr a ↦ elim (Bool-cases (limit == 0)) [
        | inl b ↦ rw (a, b, search) (inr (ground (arith, b), tt))
        | inr b ↦
            rw (a, b, f, e, search)
              (ranked-IsCovered table token tokens locale limit g t m
                (subst (λ ts. score_of ts locale g ≡ some t) e (IsTotal-total_score _ _ _ _ t h)))
      ]
    ]
