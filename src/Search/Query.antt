-- ===== src/Search/Query.antt =====
-- internal/search/query.go: the query DSL, its bool queries and the entry points.
-- `multi_match`, `query_string` and `simple_query_string` (multimatch.go) are not modelled: the evaluator
-- takes them as an argument.
pub mod Meaning
use go_es.Prelude.{
  ℕ, Bool, true, false, not, ◌&&◌, ◌||◌, Option, none, some, List, [], ◌∷◌, ◌++◌, if◌then◌else◌,
  ◌==◌, Text, text_Comparable, text,
}
use go_es.Prelude.Int.{ltb_ℤ}
use go_es.Prelude.Maps.{Map, lookup, sub}
use go_es.Prelude.Order.{text_lt}
use go_es.Prelude.Sets.{contains}
use go_es.Search.Value.{Value, string, number, boolean, other, tokenize, stringify, as_string_key}
use go_es.Search.Json.{
  Json, Items, Fields, null, scalar, array, object, nil, cons, end, field, sprint, sprint_value,
  as_value, get, as_fields, as_items, present,
}
use go_es.Search.SortedIndex.{Range, range_query}
use go_es.Search.Engine.{Engine, Doc, match_docs_tokens, term_value, union, all_ids}
use go_es.Search.Leaves.{
  Result, hits, fails, eval_match, eval_match_phrase, eval_term, eval_terms, eval_range,
}

-- The queries of multimatch.go.
pub record TextQueries : Type 0 where
  pub multi_match : Engine → Text → Fields → Result
  pub query_string : Engine → Text → Fields → Result
  pub simple_query_string : Engine → Text → Fields → Result

abbrev pub or_else {ℓ} : {A : Type ℓ} → Option A → Option A → Option A
or_else (some a) b = some a
or_else none b = b

abbrev pub on : Text → (Fields → Result) → Fields → Option Result
on k eval m = elim (present k m) [ none ↦ none | some raw ↦ some (eval (as_fields raw)) ]

-- The first of the keys before `bool` that the map has.
unfoldable pub leaf_query : TextQueries → Engine → Text → Fields → Option Result
unfolding present
leaf_query q e index m = or_else (on (text "match") (eval_match e index) m) (
    or_else (on (text "match_phrase") (eval_match_phrase e index) m) (
      or_else (on (text "multi_match") (q.multi_match e index) m) (
        or_else (on (text "query_string") (q.query_string e index) m) (
          or_else (on (text "simple_query_string") (q.simple_query_string e index) m) (
            or_else (on (text "term") (eval_term e index) m) (
              or_else (on (text "terms") (eval_terms e index) m)
                (on (text "range") (eval_range e index) m)))))))

unfoldable pub intersect : List Text → List Text → List Text
intersect [] b = []
intersect (k ∷ a) b = if contains k b then k ∷ intersect a b else intersect a b

unfoldable pub diff : List Text → List Text → List Text
diff [] b = []
diff (k ∷ a) b = if contains k b then diff a b else k ∷ diff a b

-- A section of a bool query, by the set operation that applies it; an absent section changes nothing.
abbrev pub apply_section : (List Text → List Text → List Text) → Option Result → Result → Result
apply_section op section (fails reason) = fails reason
apply_section op none (hits out) = hits out
apply_section op (some (fails reason)) (hits out) = fails reason
apply_section op (some (hits set)) (hits out) = hits (op out set)

-- What remains of `evalQueryMap` after the leaf queries: a bool query, then `match_all`, then nothing.
abbrev pub finish : Option Result → Option Result → Option Json → List Text → Result
finish (some r) bool all ids = r
finish none (some r) all ids = r
finish none none (some _) ids = hits ids
finish none none none ids = hits []

abbrev pub unite : Result → Result → Result
unite (fails reason) rest = fails reason
unite (hits set) (fails reason) = fails reason
unite (hits set) (hits out) = hits (union set out)

-- The sections of a bool query in the code's order, from all documents.
unfoldable pub sections : (Text → Option Result) → List Text → Result
sections at ids = apply_section intersect (at (text "should")) (
    apply_section diff (at (text "must_not")) (
      apply_section intersect (at (text "filter"))
        (apply_section intersect (at (text "must")) (hits ids))))

-- `evalQueryMap`, from what `bool` evaluates to.
unfoldable pub query_map : TextQueries → Engine → Text → Fields → Option Result → Result
unfolding leaf_query all_ids present
query_map q e index m bool =
    finish (leaf_query q e index m) bool (present (text "match_all") m) (all_ids e index)

-- The recursion over the query's tree. `bool_at` and `clauses_at` find a key and evaluate its value.
unfoldable mutual
  unfolding query_map sections

  pub bool_at : TextQueries → Engine → Text → Fields → Option Result
  bool_at q e index end = none
  bool_at q e index (field k v fields) =
      let rest : Option Result = bool_at q e index fields in
      let here : Option Result = bool_value q e index v in if k == text "bool" then here else rest

  pub bool_value : TextQueries → Engine → Text → Json → Option Result
  bool_value q e index (object end) = none
  bool_value q e index (object (field k v fields)) =
      some (sections (λ key. clauses_at q e index key (field k v fields)) (all_ids e index))
  bool_value q e index _ = none

  pub clauses_at : TextQueries → Engine → Text → Text → Fields → Option Result
  clauses_at q e index key end = none
  clauses_at q e index key (field k v fields) =
      let rest : Option Result = clauses_at q e index key fields in
      let here : Result = union_clauses q e index v in if k == key then some here else rest

  pub union_clauses : TextQueries → Engine → Text → Json → Result
  union_clauses q e index (array items) = union_items q e index items
  union_clauses q e index _ = hits []

  pub union_items : TextQueries → Engine → Text → Items → Result
  union_items q e index nil = hits []
  union_items q e index (cons j items) = unite (clause q e index j) (union_items q e index items)

  pub clause : TextQueries → Engine → Text → Json → Result
  clause q e index (object m) = query_map q e index m (bool_at q e index m)
  clause q e index _ = hits []

unfoldable pub eval_query_map : TextQueries → Engine → Text → Fields → Result
unfolding query_map bool_at
eval_query_map q e index m = query_map q e index m (bool_at q e index m)

unfoldable pub eval_bool : TextQueries → Engine → Text → Fields → Result
unfolding sections clauses_at
eval_bool q e index b = sections (λ key. clauses_at q e index key b) (all_ids e index)

-- The typed form of a bool query. `minimum_should_match` is never read.
pub record BoolQuery : Type 0 where
  pub must : List Fields
  pub filter : List Fields
  pub should : List Fields
  pub must_not : List Fields
  pub minimum_should_match : ℕ

abbrev pub objects : List Fields → Items
objects [] = nil
objects (m ∷ ms) = cons (object m) (objects ms)

abbrev pub with_clauses : Text → List Fields → Fields → Fields
with_clauses key [] m = m
with_clauses key (c ∷ cs) m = field key (array (objects (c ∷ cs))) m

unfoldable pub eval_bool_query : TextQueries → Engine → Text → BoolQuery → Result
unfolding eval_bool
eval_bool_query q e index b = eval_bool q e index (
    with_clauses (text "must") b.must (
      with_clauses (text "filter") b.filter
        (with_clauses (text "should") b.should (with_clauses (text "must_not") b.must_not end))))

-- `none` is a nil map or pointer.
pub record Query : Type 0 where
  pub match : Option Fields
  pub match_phrase : Option Fields
  pub multi_match : Option Fields
  pub query_string : Option Fields
  pub simple_query_string : Option Fields
  pub term : Option Fields
  pub terms : Option Fields
  pub range : Option Fields
  pub bool : Option BoolQuery
  pub match_all : Option Fields

abbrev pub is_nil : Option Fields → Bool
is_nil none = true
is_nil (some _) = false

abbrev pub as_map : Option Fields → Json
as_map none = object end
as_map (some m) = object m

unfoldable pub no_leaf : Query → Bool
no_leaf q =
    is_nil q.match
    && is_nil q.match_phrase
    && is_nil q.multi_match
    && is_nil q.query_string
    && is_nil q.simple_query_string
    && is_nil q.term
    && is_nil q.terms
    && is_nil q.range

-- `Match`
unfoldable pub match_query : TextQueries → Engine → Text → Option Query → Result
unfolding eval_bool_query no_leaf eval_query_map
match_query t e index none = hits (all_ids e index)
match_query t e index (some q) = elim q.bool [
  | some b ↦ eval_bool_query t e index b
  | none ↦
      if not (is_nil q.match_all) || no_leaf q
      then hits (all_ids e index)
      else eval_query_map t e index (
          field (text "match") (as_map q.match) (
            field (text "match_phrase") (as_map q.match_phrase) (
              field (text "multi_match") (as_map q.multi_match) (
                field (text "query_string") (as_map q.query_string) (
                  field (text "simple_query_string") (as_map q.simple_query_string) (
                    field (text "term") (as_map q.term) (
                      field (text "terms") (as_map q.terms)
                        (field (text "range") (as_map q.range) end))))))))
]
