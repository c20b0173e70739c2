-- ===== src/Catalog.antt =====
-- src/model/catalog.cpp: the emoji catalog, its look-ups and its search. The generated table is a
-- parameter: `build` is the constructor's loop over it.
pub mod Ranking
pub mod Score
pub mod Hits
pub mod Best
use fcitx5_emoji_palette.Prelude.{
  ℕ, zero, suc, ◌+◌, ◌≤◌, Bool, true, false, not, ◌&&◌, Option, none, some, List, [], ◌∷◌, ◌++◌,
  map, Bytes, equal, length, take, ltb, leb, ◌==◌, if◌then◌else◌,
}
use fcitx5_emoji_palette.Prelude.Int.{ℤ, pos, negsuc, ◌+ℤ◌, ltb_ℤ, sub_ℕ}
use fcitx5_emoji_palette.Protocol.{Locale, english, german, russian}
use fcitx5_emoji_palette.Sort.{stable_sort, insert}
use fcitx5_emoji_palette.Text.{normalize_for_search}

pub data Category : Type 0 where
  recently_used favorites smileys_emotion people_body animals_nature food_drink : Category
  travel_places activities objects symbols flags kaomoji : Category

pub record LocalizedAnnotation : Type 0 where
  pub name : Bytes
  pub keywords : List Bytes

-- The three annotations, by locale.
pub record EmojiRecord : Type 0 where
  pub sequence : Bytes
  pub category : Category
  pub subgroup : Bytes
  pub annotations : Locale → LocalizedAnnotation
  pub base_sequence : Bytes

-- One row of the generated table; names and joined keywords by locale.
pub record GeneratedEmoji : Type 0 where
  pub sequence : Bytes
  pub category : Category
  pub subgroup : Bytes
  pub name : Locale → Bytes
  pub keywords : Locale → Bytes
  pub base_sequence : Bytes

pub record SearchDocument : Type 0 where
  pub names : Locale → Bytes
  pub keywords : Locale → List Bytes

pub record EmojiCatalog : Type 0 where
  pub records : List EmojiRecord
  pub documents : List SearchDocument

pub record SearchResult : Type 0 where
  pub emoji : EmojiRecord
  pub score : ℤ

abbrev push_part : Bytes → List Bytes → List Bytes
push_part [] parts = parts
push_part (c ∷ cs) parts = (c ∷ cs) ∷ parts

-- `split`: the part that is being read, and the parts behind it. Empty parts are dropped.
unfoldable pub split_from : ℕ → Bytes → Bytes → List Bytes
split_from delimiter part [] = push_part part []
split_from delimiter part (c ∷ rest) = elim (c == delimiter) [
  | true ↦ push_part part (split_from delimiter [] rest)
  | false ↦ split_from delimiter (part ++ c ∷ []) rest
]

unfoldable pub split : Bytes → ℕ → List Bytes
unfolding split_from
split value delimiter = split_from delimiter [] value

unfoldable pub query_tokens : Bytes → List Bytes
query_tokens query = split (normalize_for_search query) b' '

-- The bytes of the needle that are still to be matched stand for the position.
unfoldable pub is_subsequence : Bytes → Bytes → Bool
is_subsequence [] haystack = true
is_subsequence (n ∷ needle) [] = false
is_subsequence (n ∷ needle) (value ∷ haystack) =
    is_subsequence (if value == n then needle else n ∷ needle) haystack

unfoldable pub starts_with : Bytes → Bytes → Bool
starts_with text [] = true
starts_with [] (p ∷ prefix) = false
starts_with (c ∷ text) (p ∷ prefix) = c == p && starts_with text prefix

-- `text.find(part) != npos`.
unfoldable pub has_part : Bytes → Bytes → Bool
unfolding starts_with
has_part [] part = starts_with [] part
has_part (c ∷ text) part = if starts_with (c ∷ text) part then true else has_part text part

abbrev pub is_empty_text : Bytes → Bool
is_empty_text [] = true
is_empty_text (_ ∷ _) = false

-- `exact - n` on an `int`.
abbrev pub less_by : ℕ → ℕ → ℤ
less_by exact n = sub_ℕ exact n

unfoldable pub text_score : Bytes → Bytes → ℕ → ℤ
unfolding has_part starts_with is_subsequence
text_score token text exact =
    if is_empty_text text
    then negsuc 0
    else if equal text token
    then pos exact
    else if starts_with text token
    then less_by exact 150
    else if has_part text (b' ' ∷ token)
    then less_by exact 250
    else if has_part text token
    then less_by exact 400
    else if leb 3 (length token) && is_subsequence token text
    then less_by exact 750
    else negsuc 0

-- `std::max` on `int`.
unfoldable pub max_ℤ : ℤ → ℤ → ℤ
max_ℤ a b = if ltb_ℤ a b then b else a

unfoldable pub best_keyword : Bytes → List Bytes → ℕ → ℤ → ℤ
unfolding max_ℤ
best_keyword token [] exact best = best
best_keyword token (k ∷ rest) exact best =
    best_keyword token rest exact (max_ℤ best (text_score token k exact))

abbrev pub is_english : Locale → Bool
is_english english = true
is_english _ = false

unfoldable pub document_score : Bytes → SearchDocument → Locale → ℤ
unfolding best_keyword
document_score token document locale =
    let best =
      best_keyword token (document.keywords locale) 700
        (text_score token (document.names locale) 1000) in
    if is_english locale
    then best
    else max_ℤ best (
        best_keyword token (document.keywords english) 600
          (text_score token (document.names english) 900))

unfoldable pub build_record : GeneratedEmoji → EmojiRecord
unfolding split
build_record g = record {
  sequence = g.sequence;
  category = g.category;
  subgroup = g.subgroup;
  annotations = λ l. record { name = g.name l; keywords = split (g.keywords l) b'|' };
  base_sequence = g.base_sequence;
}

unfoldable pub build_document : EmojiRecord → SearchDocument
build_document r = record {
  names = λ l. normalize_for_search (r.annotations l).name;
  keywords = λ l. map normalize_for_search (r.annotations l).keywords;
}

unfoldable pub build : List GeneratedEmoji → EmojiCatalog
unfolding build_record build_document
build table = record {
  records = map build_record table;
  documents = map (λ g. build_document (build_record g)) table;
}

-- `std::find_if` by sequence.
unfoldable pub find_in : List EmojiRecord → Bytes → Option EmojiRecord
find_in [] sequence = none
find_in (r ∷ rest) sequence = if equal r.sequence sequence then some r else find_in rest sequence

unfoldable pub find : EmojiCatalog → Bytes → Option EmojiRecord
unfolding find_in
find c sequence = find_in c.records sequence

unfoldable pub contains : EmojiCatalog → Bytes → Bool
unfolding find
contains c sequence = elim (find c sequence) [ none ↦ false | some _ ↦ true ]

-- The records with this base sequence.
unfoldable pub based_on : List EmojiRecord → Bytes → List EmojiRecord
based_on [] base = []
based_on (r ∷ rest) base =
    if equal r.base_sequence base then r ∷ based_on rest base else based_on rest base

unfoldable pub variants_for : EmojiCatalog → Bytes → List EmojiRecord
unfolding based_on
variants_for c base = elim (find c base) [
  | none ↦ based_on c.records base
  | some r ↦ r ∷ based_on c.records base
]

-- The loop over the tokens: `none` where a token does not match.
unfoldable pub total_score : List Bytes → SearchDocument → Locale → ℤ → Option ℤ
total_score [] document locale total = some total
total_score (token ∷ rest) document locale total =
    let score = document_score token document locale in
    elim (ltb_ℤ score (pos 0)) [
      | true ↦ none
      | false ↦ total_score rest document locale (total +ℤ score)
    ]

-- The loop over the records and their documents, which go side by side.
unfoldable pub candidates :
    List Bytes → Locale → List EmojiRecord → List SearchDocument → List SearchResult
unfolding total_score
candidates tokens locale (r ∷ records) (d ∷ documents) =
    elim (total_score tokens d locale (pos 0)) [
      | none ↦ candidates tokens locale records documents
      | some total ↦
          record { emoji = r; score = total } ∷ candidates tokens locale records documents
    ]
candidates tokens locale _ _ = []

abbrev pub scores_higher : SearchResult → SearchResult → Bool
scores_higher left right = ltb_ℤ right.score left.score

-- `resize` to `limit` where there are more.
unfoldable pub cut : ℕ → List SearchResult → List SearchResult
cut limit results = if ltb limit (length results) then take limit results else results

-- From the test for no tokens to the end.
unfoldable pub ranked : EmojiCatalog → List Bytes → Locale → ℕ → List SearchResult
unfolding candidates cut
ranked c [] locale limit = []
ranked c (token ∷ tokens) locale limit =
    cut limit (stable_sort scores_higher (candidates (token ∷ tokens) locale c.records c.documents))

unfoldable pub search : EmojiCatalog → Bytes → Locale → ℕ → List SearchResult
unfolding ranked
search c query locale limit =
    let normalized = normalize_for_search query in
    if is_empty_text normalized then [] else if limit == 0 then [] else elim (find c query) [
      | some exact ↦ record { emoji = exact; score = pos 10000 } ∷ []
      | none ↦ ranked c (query_tokens normalized) locale limit
    ]
