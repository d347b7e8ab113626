-- ===== src/Search/Suggest/Terms.antt =====
-- internal/search/suggest.go: `TermSuggest`. Scores are fractions, of the document frequency and the
-- distance plus one; `runes` decodes a text into its runes. The order of equal frequencies, which
-- `sort.Slice` leaves open, is that of the candidates.
use go_es.Prelude.{
  ℕ, ◌+◌, ◌*◌, max, Bool, true, false, Option, none, some, List, [], ◌∷◌, if◌then◌else◌, ltb,
  nat_eq, ◌==◌, Text, text_Comparable, text, length, take,
}
use go_es.Prelude.Int.{ℤ, pos, negsuc}
use go_es.Prelude.Maps.{Map, lookup, insert}
use go_es.Prelude.Order.{text_lt}
use go_es.Search.Value.{tokenize}
use go_es.Search.Engine.{Engine}
use go_es.Search.Suggest.{levenshtein, suggest_tokens_with_prefix, token_df, size_or}

pub record Score : Type 0 where
  pub part : ℕ
  pub whole : ℕ

abbrev pub score_lt : Score → Score → Bool
score_lt a b = ltb (a.part * b.whole) (b.part * a.whole)

-- `cand`, without its token, which is its key.
pub record Candidate : Type 0 where
  pub freq : ℕ
  pub score : Score

abbrev pub merged : Option Candidate → ℕ → Score → Candidate
merged none df score = record { freq = df; score = score }
merged (some c) df score = record {
  freq = c.freq + df;
  score = if score_lt c.score score then score else c.score;
}

-- A token of the index that is close to the word `tok` becomes a candidate.
unfoldable pub consider :
    Engine
    → (Text → List ℕ)
    → (index field : Text) → ℕ
    → (tok t : Text) → Map Text Candidate
    → Map Text Candidate
unfolding levenshtein token_df
consider e runes index field max_edits tok t seen =
    elim (levenshtein (runes tok) (runes t) (max_edits + 1)) [
      | none ↦ seen
      | some dist ↦
          let df = token_df e index field t in
          if ltb max_edits dist
          then seen
          else if nat_eq df 0
          then seen
          else insert t (merged (lookup t seen) df (record { part = df; whole = dist + 1 })) seen
    ]

unfoldable pub consider_all :
    Engine
    → (Text → List ℕ)
    → (index field : Text) → ℕ
    → Text
    → List Text
    → Map Text Candidate
    → Map Text Candidate
unfolding consider
consider_all e runes index field max_edits tok [] seen = seen
consider_all e runes index field max_edits tok (t ∷ ts) seen =
    consider_all e runes index field max_edits tok ts
      (consider e runes index field max_edits tok t seen)

-- The loop over the words of the text.
unfoldable pub gather :
    Engine
    → (Text → List ℕ)
    → (index field : Text) → (max_edits prefix_len min_word_len : ℕ) → List Text
    → Map Text Candidate
    → Map Text Candidate
unfolding consider_all suggest_tokens_with_prefix
gather e runes index field max_edits prefix_len min_word_len [] seen = seen
gather e runes index field max_edits prefix_len min_word_len (tok ∷ toks) seen =
    let found =
      consider_all e runes index field max_edits tok
        (suggest_tokens_with_prefix e index field (take prefix_len tok)) seen in
    gather e runes index field max_edits prefix_len min_word_len toks
      (if ltb (length tok) min_word_len then seen else found)

-- The order of the options.
abbrev pub comes_before : Bool → (Text × Candidate) → (Text × Candidate) → Bool
comes_before by_frequency a b =
    if by_frequency
    then ltb b.1.freq a.1.freq
    else if score_lt b.1.score a.1.score
    then true
    else if score_lt a.1.score b.1.score
    then false
    else text_lt a.0 b.0

unfoldable pub place : Bool → (Text × Candidate) → List (Text × Candidate) → List (Text × Candidate)
place by_frequency c [] = c ∷ []
place by_frequency c (d ∷ ds) =
    let later = d ∷ place by_frequency c ds in
    if comes_before by_frequency d c then later else c ∷ d ∷ ds

unfoldable pub sorted_candidates : Bool → Map Text Candidate → List (Text × Candidate)
unfolding place
sorted_candidates by_frequency [] = []
sorted_candidates by_frequency (c ∷ cs) = place by_frequency c (sorted_candidates by_frequency cs)

-- A number that is less than `low` counts as `low`.
abbrev pub at_least : ℕ → ℤ → ℕ
at_least low (pos n) = max low n
at_least low (negsuc n) = low

-- `TermSuggest`
unfoldable pub term_suggest :
    Engine
    → (Text → List ℕ)
    → (index field words sort : Text) → (max_edits prefix_len min_word_len size : ℤ)
    → List (Text × Candidate)
unfolding gather sorted_candidates tokenize
term_suggest e runes index field words sort max_edits prefix_len min_word_len size =
    take (size_or 5 size) (
      sorted_candidates (sort == text "frequency") (
        gather e runes index field (size_or 2 max_edits) (at_least 1 prefix_len)
          (at_least 3 min_word_len) (tokenize words) []))
