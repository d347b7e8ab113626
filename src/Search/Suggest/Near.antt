-- ===== src/Search/Suggest/Near.antt =====
-- internal/search/suggest.go: what `TermSuggest` suggests.
use go_es.Prelude.{
  All, ℕ, zero, suc, ◌+◌, ◌≤◌, Bool, some, List, [], ◌∷◌, ltb, nat_eq, ◌==◌, Text, text_Comparable,
  text, length, length-take, take, arith, Bool-cases, Option-cases, inl, inr, subst,
}
use go_es.Prelude.Int.{ℤ}
use go_es.Prelude.Maps.{Map, insert}
use go_es.Search.Value.{tokenize}
use go_es.Search.Engine.{Engine}
use go_es.Search.Suggest.{levenshtein, suggest_tokens_with_prefix, token_df, size_or}
use go_es.Search.Suggest.Edits.{Edits}
use go_es.Search.Suggest.Distance.{Promise, levenshtein_lem}
use go_es.Search.Suggest.Terms.{
  Candidate, consider, consider_all, gather, comes_before, place, sorted_candidates, at_least,
  term_suggest,
}

-- A text is near a list of words: at most `limit` edits lie between it and one of the words that have
-- `min_len` bytes.
pub data IsNear (runes : Text → List ℕ) (limit min_len : ℕ) : List Text → Text → Type 0 where
  here :
      {tok : Text} {toks : List Text} {t : Text} (n : ℕ)
      → min_len ≤ length tok
      → Edits (runes tok) (runes t) n
      → n ≤ limit
      → IsNear runes limit min_len (tok ∷ toks) t
  there :
      {tok : Text} {toks : List Text} {t : Text}
      → IsNear runes limit min_len toks t
      → IsNear runes limit min_len (tok ∷ toks) t

abbrev Keys : (Text → Type 0) → Map Text Candidate → Type 0
Keys P = All (λ c. P c.0)

insert-Keys :
    (P : Text → Type 0) (t : Text) (c : Candidate) (m : Map Text Candidate)
    → P t
    → Keys P m
    → Keys P (insert t c m)
unfolding insert
insert-Keys P t c [] p ps = (p, tt)
insert-Keys P t c ((k, old) ∷ m) p ps = elim (Bool-cases (k == t)) [
  | inl e ↦ rw e (p, ps.1)
  | inr e ↦ rw e (ps.0, insert-Keys P t c m p ps.1)
]

module _ (P : Text → Type 0) (e : Engine) (runes : Text → List ℕ) (index field : Text)
    (limit : ℕ) where
  consider-Keys :
      (tok t : Text) (seen : Map Text Candidate)
      → ((n : ℕ) → Edits (runes tok) (runes t) n → n ≤ limit → P t)
      → Keys P seen
      → Keys P (consider e runes index field limit tok t seen)
  unfolding consider
  consider-Keys tok t seen near ps =
      elim (Option-cases (levenshtein (runes tok) (runes t) (limit + 1))) [
        | inl u ↦ rw (u, consider) ps
        | inr (d, u) ↦
            let promise : Promise (runes tok) (runes t) (limit + 1) (some d) =
              subst (Promise (runes tok) (runes t) (limit + 1)) u
                (levenshtein_lem (runes tok) (runes t) (limit + 1)) in
            rw (u, consider)
              (elim (Bool-cases (ltb limit d)) [
                | inl v ↦ rw v ps
                | inr v ↦ rw v (elim (Bool-cases (nat_eq (token_df e index field t) 0)) [
                  | inl w ↦ rw w ps
                  | inr w ↦ rw w (insert-Keys P t _ seen (near d promise.0 (ground (arith, v))) ps)
                ])
              ])
      ]

  consider_all-Keys :
      (tok : Text) (ts : List Text) (seen : Map Text Candidate)
      → ((t : Text) (n : ℕ) → Edits (runes tok) (runes t) n → n ≤ limit → P t)
      → Keys P seen
      → Keys P (consider_all e runes index field limit tok ts seen)
  unfolding consider_all
  consider_all-Keys tok [] seen near ps = ps
  consider_all-Keys tok (t ∷ ts) seen near ps =
      consider_all-Keys tok ts (consider e runes index field limit tok t seen) near
        (consider-Keys tok t seen (near t) ps)

  gather-Keys :
      (prefix_len min_len : ℕ) (toks : List Text) (seen : Map Text Candidate)
      → ((t : Text) → IsNear runes limit min_len toks t → P t)
      → Keys P seen
      → Keys P (gather e runes index field limit prefix_len min_len toks seen)
  unfolding gather
  gather-Keys prefix_len min_len [] seen near ps = ps
  gather-Keys prefix_len min_len (tok ∷ toks) seen near ps =
      gather-Keys prefix_len min_len toks _ (λ t x. near t (there x))
        (elim (Bool-cases (ltb (length tok) min_len)) [
          | inl u ↦ rw u ps
          | inr u ↦ rw u (
              consider_all-Keys tok (suggest_tokens_with_prefix e index field (take prefix_len tok))
                seen (λ t n w h. near t (here n (ground (arith, u)) w h)) ps)
        ])

  place-Keys :
      (by : Bool) (c : Text × Candidate) (cs : List (Text × Candidate))
      → P c.0
      → Keys P cs
      → Keys P (place by c cs)
  unfolding place
  place-Keys by c [] p ps = (p, tt)
  place-Keys by c (d ∷ ds) p ps = elim (Bool-cases (comes_before by d c)) [
    | inl u ↦ rw u (ps.0, place-Keys by c ds p ps.1)
    | inr u ↦ rw u (p, ps)
  ]

  sorted_candidates-Keys :
      (by : Bool) (cs : List (Text × Candidate)) → Keys P cs → Keys P (sorted_candidates by cs)
  unfolding sorted_candidates
  sorted_candidates-Keys by [] ps = tt
  sorted_candidates-Keys by (c ∷ cs) ps =
      place-Keys by c (sorted_candidates by cs) ps.0 (sorted_candidates-Keys by cs ps.1)

  take-Keys : (n : ℕ) (cs : List (Text × Candidate)) → Keys P cs → Keys P (take n cs)
  take-Keys zero cs ps = tt
  take-Keys (suc n) [] ps = tt
  take-Keys (suc n) (c ∷ cs) ps = (ps.0, take-Keys n cs ps.1)

-- `TermSuggest` gives no more options than it is asked for, five where the size is not positive, and each
-- is at most `max_edits` edits (two where the number is not positive) away from a word of the text that
-- is long enough, whatever decodes a text into its runes.
pub term_suggest-IsNear :
    (e : Engine) (runes : Text → List ℕ) (index field words sort : Text)
    (max_edits prefix_len min_word_len size : ℤ)
    → let options =
        term_suggest e runes index field words sort max_edits prefix_len min_word_len size in
      (length options ≤ size_or 5 size)
      × All
          (λ c. IsNear runes (size_or 2 max_edits) (at_least 3 min_word_len) (tokenize words) c.0)
          options
unfolding term_suggest
term_suggest-IsNear e runes index field words sort max_edits prefix_len min_word_len size =
    let P = IsNear runes (size_or 2 max_edits) (at_least 3 min_word_len) (tokenize words) in
    let found =
      gather e runes index field (size_or 2 max_edits) (at_least 1 prefix_len)
        (at_least 3 min_word_len) (tokenize words) [] in
    let by = sort == text "frequency" in
    (
      omega (arith, length-take (size_or 5 size) (sorted_candidates by found)),
      take-Keys P e runes index field (size_or 2 max_edits) (size_or 5 size)
          (sorted_candidates by found)
          (sorted_candidates-Keys P e runes index field (size_or 2 max_edits) by found (
            gather-Keys P e runes index field (size_or 2 max_edits) (at_least 1 prefix_len)
              (at_least 3 min_word_len) (tokenize words) [] (λ t x. x) tt)),
    )
