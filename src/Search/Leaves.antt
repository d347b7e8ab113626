-- ===== src/Search/Leaves.antt =====
-- internal/search/query.go and `match_phrase` of suggest.go: the queries that hold no other queries.
pub mod Terms
pub mod Phrase
use go_es.Prelude.{
  ℕ, Bool, true, false, not, ◌&&◌, ◌||◌, Option, none, some, List, [], ◌∷◌, ◌++◌, if◌then◌else◌,
  ◌==◌, Text, text_Comparable, text,
}
use go_es.Prelude.Int.{ltb_ℤ}
use go_es.Prelude.Maps.{Map, lookup, sub}
use go_es.Prelude.Order.{text_lt}
use go_es.Prelude.Sets.{contains}
use go_es.Search.Value.{Value, string, number, boolean, other, tokenize, stringify, as_string_key}
use go_es.Search.Json.{
  Json, Items, Fields, null, scalar, array, object, nil, cons, end, field, sprint, sprint_value,
  as_value, get, as_fields, as_items, present,
}
use go_es.Search.SortedIndex.{Range, range_query}
use go_es.Search.Engine.{Engine, Doc, match_docs_tokens, term_value, union, all_ids}

-- A set of document ids, or an error.
pub data Result : Type 0 where
  hits : List Text → Result
  fails : Text → Result

abbrev pub query_at : Text → Fields → Option Text
query_at k fields = elim (get k fields) [ some (scalar (string s)) ↦ some s | _ ↦ none ]

-- `extractQueryValue`
unfoldable pub extract_query_value : Json → Text
unfolding get sprint
extract_query_value (scalar (string s)) = s
extract_query_value (object fields) = elim (query_at (text "value") fields) [
  | some s ↦ s
  | none ↦ elim (query_at (text "query") fields) [ some s ↦ s | none ↦ sprint (object fields) ]
]
extract_query_value raw = sprint raw

unfoldable pub eval_match : Engine → Text → Fields → Result
unfolding extract_query_value
eval_match e index end = fails (text "match requires at least one field")
eval_match e index (field f raw fields) =
    hits (match_docs_tokens e index f (extract_query_value raw))

unfoldable pub eval_term : Engine → Text → Fields → Result
eval_term e index end = fails (text "term requires at least one field")
eval_term e index (field f raw fields) = hits (term_value e index f (as_value raw))

unfoldable pub term_values : Engine → Text → Text → Items → List Text → List Text
term_values e index f nil out = out
term_values e index f (cons v items) out =
    term_values e index f items (union (term_value e index f (as_value v)) out)

-- Fields whose value is no list are passed over.
unfoldable pub term_lists : Engine → Text → Fields → List Text
unfolding term_values
term_lists e index end = []
term_lists e index (field f (array items) fields) = term_values e index f items []
term_lists e index (field f _ fields) = term_lists e index fields

unfoldable pub eval_terms : Engine → Text → Fields → Result
unfolding term_lists
eval_terms e index end = fails (text "terms requires at least one field")
eval_terms e index fields = hits (term_lists e index fields)

-- `cmpAny`: numbers by value, other values by their `%v` form; less and greater.
abbrev pub cmp_lt : Value → Value → Bool
cmp_lt (number a) (number b) = ltb_ℤ a b
cmp_lt a b = text_lt (sprint_value a) (sprint_value b)

abbrev pub bound_holds : (Value → Bool) → Option Json → Bool
bound_holds test none = true
bound_holds test (some null) = true
bound_holds test (some j) = test (as_value j)

unfoldable pub compare_range : Value → Fields → Bool
unfolding get as_value sprint_value
compare_range v rng =
    bound_holds (λ b. not (cmp_lt v b)) (get (text "gte") rng)
    && bound_holds (λ b. not (cmp_lt b v)) (get (text "lte") rng)
    && bound_holds (λ b. cmp_lt b v) (get (text "gt") rng)
    && bound_holds (λ b. cmp_lt v b) (get (text "lt") rng)

abbrev pub bound : Option Json → Option Text
bound none = none
bound (some null) = none
bound (some j) = some (as_string_key (as_value j))

unfoldable pub range_of : Fields → Range
unfolding get as_value as_string_key
range_of rng = record {
  gte = bound (get (text "gte") rng);
  lte = bound (get (text "lte") rng);
  gt = bound (get (text "gt") rng);
  lt = bound (get (text "lt") rng);
}

abbrev pub is_unbounded : Range → Bool
is_unbounded r = elim r.gte [
  | some _ ↦ false
  | none ↦ elim r.lte [
    | some _ ↦ false
    | none ↦ elim r.gt [ some _ ↦ false | none ↦ elim r.lt [ some _ ↦ false | none ↦ true ] ]
  ]
]

-- The scan of all documents.
unfoldable pub scan_range : Text → Fields → Map Text Doc → List Text
unfolding compare_range
scan_range f rng [] = []
scan_range f rng ((id, doc) ∷ docs) =
    let rest : List Text = scan_range f rng docs in
    elim (lookup f doc) [ none ↦ rest | some v ↦ if compare_range v rng then id ∷ rest else rest ]

-- Where the sorted index finds nothing, the documents are scanned.
unfoldable pub eval_range : Engine → Text → Fields → Result
unfolding range_of scan_range
eval_range e index end = fails (text "range requires at least one field")
eval_range e index (field f raw fields) =
    let rng : Fields = as_fields raw in
    let r : Range = range_of rng in
    elim (range_query e.sorted_cache index f r) [
      | [] ↦ if is_unbounded r then hits [] else hits (scan_range f rng (sub index e.docs))
      | id ∷ ids ↦ elim (lookup index e.docs) [ none ↦ hits [] | some _ ↦ hits (id ∷ ids) ]
    ]

abbrev pub extract_phrase_query : Json → Option Text
extract_phrase_query (scalar (string s)) = some s
extract_phrase_query (object fields) = query_at (text "query") fields
extract_phrase_query _ = none

-- The inner loop of `containsPhrase`: the phrase stands at the front.
unfoldable pub starts_with : List Text → List Text → Bool
starts_with toks [] = true
starts_with [] (p ∷ phrase) = false
starts_with (t ∷ toks) (p ∷ phrase) = t == p && starts_with toks phrase

-- The outer loop, over the starting positions.
unfoldable pub phrase_from : List Text → List Text → Bool
unfolding starts_with
phrase_from phrase [] = false
phrase_from phrase (t ∷ toks) = starts_with (t ∷ toks) phrase || phrase_from phrase toks

unfoldable pub contains_phrase : List Text → List Text → Bool
unfolding phrase_from
contains_phrase toks [] = false
contains_phrase toks (p ∷ phrase) = phrase_from (p ∷ phrase) toks

unfoldable pub phrase_in : Text → List Text → Map Text Doc → List Text
unfolding contains_phrase
phrase_in f phrase [] = []
phrase_in f phrase ((id, doc) ∷ docs) =
    let rest : List Text = phrase_in f phrase docs in
    elim (lookup f doc) [
      | some (string s) ↦ if contains_phrase (tokenize s) phrase then id ∷ rest else rest
      | _ ↦ rest
    ]

-- The loop over the fields of `evalMatchPhrase`. A phrase without tokens finds nothing.
unfoldable pub match_phrases : Engine → Text → Fields → List Text → Result
unfolding phrase_in
match_phrases e index end out = hits out
match_phrases e index (field f raw fields) out = elim (extract_phrase_query raw) [
  | none ↦ fails (text "match_phrase." ++ f ++ text ": unsupported match_phrase value type")
  | some phrase ↦ elim (tokenize phrase) [
    | [] ↦ match_phrases e index fields out
    | p ∷ ps ↦ match_phrases e index fields (union (phrase_in f (p ∷ ps) (sub index e.docs)) out)
  ]
]

unfoldable pub eval_match_phrase : Engine → Text → Fields → Result
unfolding match_phrases
eval_match_phrase e index end = fails (text "match_phrase requires at least one field")
eval_match_phrase e index (field f raw fields) = match_phrases e index (field f raw fields) []
