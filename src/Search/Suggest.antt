-- ===== src/Search/Suggest.antt =====
-- internal/search/suggest.go: the prefix and completion suggesters and the edit distance. The edit
-- distance takes the lists of runes of its two texts; the row of the table is a list.
pub mod Edits
pub mod Rows
pub mod Distance
pub mod Terms
pub mod Near
mod Tests
use go_es.Prelude.{
  ℕ, zero, suc, ◌+◌, ◌-◌, Bool, true, false, ◌&&◌, Option, none, some, List, [], ◌∷◌, if◌then◌else◌,
  ltb, leb, nat_eq, ◌==◌, Text, text_Comparable, length, take,
}
use go_es.Prelude.Int.{ℤ, pos, negsuc}
use go_es.Prelude.Maps.{Map, lookup, sub}
use go_es.Prelude.Sets.{contains, add}
use go_es.Prelude.Strings.{has_prefix}
use go_es.Prelude.Sorting.{sort_texts}
use go_es.Search.Value.{lower}
use go_es.Search.Engine.{Engine, keys}

-- `min3`
abbrev pub min3 : (a b c : ℕ) → ℕ
min3 a b c = let m = if ltb b a then b else a in if ltb c m then c else m

abbrev pub cost : (x y : ℕ) → ℕ
cost x y = if nat_eq x y then 0 else 1

-- The inner loop of `levenshtein`: the cells of the row `curr` after `left`, from the row `prev`.
unfoldable pub next_cells : ℕ → List ℕ → List ℕ → ℕ → List ℕ
next_cells left (x ∷ xs) (diagonal ∷ up ∷ prev) y =
    let cell = min3 (left + 1) (up + 1) (diagonal + cost x y) in
    cell ∷ next_cells cell xs (up ∷ prev) y
next_cells left _ _ y = []

unfoldable pub row_min : ℕ → List ℕ → ℕ
row_min low [] = low
row_min low (c ∷ cs) = row_min (if ltb c low then c else low) cs

-- The last cell.
unfoldable pub last : List ℕ → ℕ
last [] = 0
last (d ∷ []) = d
last (d ∷ e ∷ ds) = last (e ∷ ds)

-- `prev[i] = i`, from `i` on.
unfoldable pub first_row : ℕ → List ℕ → List ℕ
first_row i [] = i ∷ []
first_row i (x ∷ xs) = i ∷ first_row (i + 1) xs

-- The outer loop, from the row `j` on.
unfoldable pub rows : ℕ → List ℕ → List ℕ → List ℕ → ℕ → Option ℕ
unfolding next_cells row_min last
rows j xs [] prev max_distance = if ltb max_distance (last prev) then none else some (last prev)
rows j xs (y ∷ ys) prev max_distance =
    let cells = next_cells j xs prev y in
    let rest = rows (j + 1) xs ys (j ∷ cells) max_distance in
    if ltb max_distance (row_min j cells) then none else rest

-- `levenshtein`; none is the answer -1.
unfoldable pub levenshtein : List ℕ → List ℕ → ℕ → Option ℕ
unfolding rows first_row
levenshtein a b max_distance =
    if ltb max_distance ((length a - length b) + (length b - length a))
    then none
    else if nat_eq (length a) 0
    then some (length b)
    else if nat_eq (length b) 0
    then some (length a)
    else if ltb (length b) (length a)
    then rows 1 b a (first_row 0 b) max_distance
    else rows 1 a b (first_row 0 a) max_distance

-- `suggestTokensWithPrefix`
unfoldable pub tokens_with_prefix : List Text → Text → List Text
unfolding has_prefix
tokens_with_prefix [] prefix = []
tokens_with_prefix (tok ∷ toks) prefix =
    let rest = tokens_with_prefix toks prefix in if has_prefix tok prefix then tok ∷ rest else rest

unfoldable pub suggest_tokens_with_prefix : Engine → (index field prefix : Text) → List Text
unfolding tokens_with_prefix keys
suggest_tokens_with_prefix e index field prefix =
    tokens_with_prefix (keys (sub field (sub index e.inverted))) prefix

-- `tokenDF`
unfoldable pub token_df : Engine → (index field token : Text) → ℕ
token_df e index field token = elim (lookup token (sub field (sub index e.inverted))) [
  | none ↦ 0
  | some ids ↦ length ids
]

-- The default of a size that is not positive.
abbrev pub size_or : ℕ → ℤ → ℕ
size_or default (pos zero) = default
size_or default (pos (suc n)) = suc n
size_or default (negsuc n) = default

-- `SuggestOption`; the score of these suggesters is 1.
pub record SuggestOption : Type 0 where
  pub text : Text
  pub source : Text

-- `PrefixSuggest`
unfoldable pub prefix_options : List Text → List SuggestOption
prefix_options [] = []
prefix_options (t ∷ ts) = record { text = t; source = [] } ∷ prefix_options ts

unfoldable pub prefix_suggest : Engine → (index field prefix : Text) → ℤ → List SuggestOption
unfolding suggest_tokens_with_prefix sort_texts prefix_options lower
prefix_suggest e index field [] size = []
prefix_suggest e index field (c ∷ cs) size = prefix_options (
    take (size_or 10 size) (sort_texts (suggest_tokens_with_prefix e index field (lower (c ∷ cs)))))

-- The first document of a token.
abbrev pub first_doc : Engine → (index field token : Text) → Text
first_doc e index field token = elim (lookup token (sub field (sub index e.inverted))) [
  | none ↦ []
  | some ids ↦ elim ids [ [] ↦ [] | id ∷ more ↦ id ]
]

-- The loop of `CompletionSuggest`, with room for so many options.
unfoldable pub complete_each :
    Engine → (index field : Text) → Bool → List Text → ℕ → List Text → List SuggestOption
complete_each e index field skip seen room [] = []
complete_each e index field skip seen zero (t ∷ ts) = []
complete_each e index field skip seen (suc room) (t ∷ ts) =
    let skipped = complete_each e index field skip seen (suc room) ts in
    let rest = complete_each e index field skip (add t seen) room ts in
    if skip && contains t seen
    then skipped
    else record { text = t; source = first_doc e index field t } ∷ rest

-- `CompletionSuggest`
unfoldable pub completion_suggest :
    Engine → (index field prefix : Text) → ℤ → Bool → List SuggestOption
unfolding suggest_tokens_with_prefix sort_texts complete_each lower
completion_suggest e index field [] size skip = []
completion_suggest e index field (c ∷ cs) size skip =
    complete_each e index field skip [] (size_or 10 size)
      (sort_texts (suggest_tokens_with_prefix e index field (lower (c ∷ cs))))
