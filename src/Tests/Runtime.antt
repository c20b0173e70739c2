-- ===== src/Tests/Runtime.antt =====
-- The theorems on the selection controller and on the catalog at concrete inputs.
use fcitx5_emoji_palette.Prelude.{
  ◌+◌, ◌≤◌, true, false, none, some, List, [], ◌∷◌, Bytes, All, length, ◌≡◌, refl, arith,
}
use fcitx5_emoji_palette.Prelude.Int.{pos, ◌+ℤ◌, ltb_ℤ}
use fcitx5_emoji_palette.Utf8.{
  decode_utf8, decode_loop, decode_one, continuations, lead, is_scalar, encode_utf8, encode_loop,
  encode_one,
}
use fcitx5_emoji_palette.Protocol.{english, Selected}
use fcitx5_emoji_palette.Text.{
  fold_codepoint, is_space, normalize_for_search, normalize_loop, trim_last,
}
use fcitx5_emoji_palette.Catalog.{
  GeneratedEmoji, smileys_emotion, build, find, find_in, build_record, build_document, search,
  total_score, document_score, best_keyword, max_ℤ, has_part, is_subsequence, starts_with,
  text_score, query_tokens, split, split_from,
}
use fcitx5_emoji_palette.Catalog.Hits.{IsHit, hit, Scores, tokens_of, search-IsHit}
use fcitx5_emoji_palette.Sort.Members.{IsOrdered}
use fcitx5_emoji_palette.Catalog.Best.{IsCovered, search-IsCovered}
use fcitx5_emoji_palette.Catalog.Ranking.{IsFalling, search-IsSorted}
use fcitx5_emoji_palette.Catalog.Score.{text_score_lem}
use fcitx5_emoji_palette.Selection.{Context, SelectionController, select}
use fcitx5_emoji_palette.Selection.Safety.{Outcome, select-Outcome}
use fcitx5_emoji_palette.Selection.Once.{
  Call, begin_with, select_message, run_calls, begins, commits-run_calls,
}
use fcitx5_emoji_palette.Tests.{smile, id}
use mathlib.Core.List.{Memᴰ}

-- "grin", and its keyword "face".
abbrev grin : Bytes
grin = b'g' ∷ b'r' ∷ b'i' ∷ b'n' ∷ []

abbrev face : Bytes
face = b'f' ∷ b'a' ∷ b'c' ∷ b'e' ∷ []

abbrev row : GeneratedEmoji
row = record {
  sequence = smile;
  category = smileys_emotion;
  subgroup = face;
  name = λ _. grin;
  keywords = λ _. face;
  base_sequence = smile;
}

abbrev table : List GeneratedEmoji
table = row ∷ []

-- Every target is alive and has the focus.
abbrev focused_context : Context
focused_context = record { available = λ _. true; focused = λ _. true }

abbrev idle : SelectionController
idle = record { transaction = none; target = none; last_cancel_reason = none; commits = [] }

abbrev waiting : SelectionController
waiting = record { transaction = some id; target = some 4; last_cancel_reason = none; commits = [] }

abbrev choice : Selected
choice = record { transaction = id; sequence = smile }

select-Outcome_example :
    Outcome
      (build table)
      focused_context
      choice
      waiting
      (select (build table) focused_context choice waiting)
select-Outcome_example = select-Outcome (build table) focused_context choice waiting

abbrev calls : List Call
calls =
    begin_with id 4
    ∷ select_message (build table) focused_context choice
    ∷ select_message (build table) focused_context choice
    ∷ []

commits-run_calls_example : length (run_calls calls idle).commits ≤ 0 + begins calls
commits-run_calls_example = commits-run_calls calls idle refl

search-IsSorted_example :
    IsOrdered IsFalling (search (build table) face english 10)
    × (length (search (build table) face english 10) ≤ 10)
search-IsSorted_example = search-IsSorted (build table) face english 10

search-IsHit_example : All (IsHit table face english) (search (build table) face english 10)
search-IsHit_example = search-IsHit table face english 10

face_tokens : tokens_of face ≡ face ∷ []
unfolding query_tokens split split_from normalize_for_search normalize_loop trim_last fold_codepoint
    is_space decode_utf8 decode_loop decode_one continuations lead is_scalar encode_utf8 encode_loop
    encode_one
face_tokens = refl

face_not_found : find (build table) face ≡ none
unfolding find find_in build build_record
face_not_found = refl

face-Scores : Scores (tokens_of face) english row (pos 700)
unfolding ◌+ℤ◌ total_score document_score best_keyword max_ℤ text_score has_part is_subsequence
    starts_with build_document build_record query_tokens split split_from normalize_for_search
    normalize_loop trim_last fold_codepoint is_space decode_utf8 decode_loop decode_one
    continuations lead is_scalar encode_utf8 encode_loop encode_one
face-Scores = (refl, refl)

search-IsCovered_example : IsCovered (hit row (pos 700)) 10 (search (build table) face english 10)
search-IsCovered_example =
    search-IsCovered table face english 10 face [] row (pos 700) face_tokens face_not_found
      (Memᴰ.head refl) face-Scores

no_part : has_part face (b'f' ∷ b'c' ∷ b'e' ∷ []) ≡ false
unfolding has_part starts_with
no_part = refl

-- "fce" is a subsequence of "face", and as a keyword it does not match.
text_score_lem_example : ltb_ℤ (text_score (b'f' ∷ b'c' ∷ b'e' ∷ []) face 700) (pos 0) ≡ true
text_score_lem_example = text_score_lem (b'f' ∷ b'c' ∷ b'e' ∷ []) face 700 (omega arith) no_part
