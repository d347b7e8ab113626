-- ===== src/Search/Leaves/Terms.antt =====
-- internal/search/query.go: what `match`, `term` and `terms` find, by the stored documents.
use go_es.Prelude.{◌≡◌, refl, Bool, false, ◌||◌, List, [], arith, Text, ◌∙◌, text_Comparable, ◌∙◌}
use go_es.Prelude.Sets.{contains}
use go_es.Search.Value.{stringify}
use go_es.Search.Json.{Json, Items, Fields, array, nil, cons, field, as_value}
use go_es.Search.Engine.{Engine, term_value, union}
use go_es.Search.Engine.Exact.{IsExact, Reaches, Reaches-IsExact, stored_under}
use go_es.Search.Engine.Matches.{contains-union, contains-match_docs}
use go_es.Search.Leaves.{hits, eval_term, eval_terms, term_values}

contains-term_value :
    (e : Engine) (index f : Text) (v : Json) (d : Text)
    → Reaches e
    → contains d (term_value e index f (as_value v))
      ≡ stored_under e index f (stringify (as_value v)) d
unfolding term_value IsExact
contains-term_value e index f v d r =
    contains-match_docs e index f (stringify (as_value v)) d
    ∙ Reaches-IsExact r index f (stringify (as_value v)) d

-- Whether one of the listed values is a term of the stored document in the field.
unfoldable pub any_term : Engine → Text → Text → Items → Text → Bool
any_term e index f nil d = false
any_term e index f (cons v items) d =
    stored_under e index f (stringify (as_value v)) d || any_term e index f items d

contains-term_values :
    (e : Engine) (index f : Text) (items : Items) (out : List Text) (d : Text)
    → Reaches e
    → contains d (term_values e index f items out) ≡ (any_term e index f items d || contains d out)
unfolding term_values any_term
contains-term_values e index f nil out d r = refl
contains-term_values e index f (cons v items) out d r =
    let rest =
      contains-term_values e index f items (union (term_value e index f (as_value v)) out) d r in
    let both = contains-union (term_value e index f (as_value v)) out d in
    let first = contains-term_value e index f v d r in ground arith

-- A `terms` query finds exactly the stored documents that have one of the listed values, each as one
-- term, in the field; a `term` query is the same with one value. The engine is one that was reached
-- without indexing a stored id again.
pub eval_terms_lem :
    (e : Engine) (index f : Text) (v : Json) (items : Items) (fields : Fields) (d : Text)
    → Reaches e
    → ((ids : List Text) × (eval_terms e index (field f (array items) fields) ≡ hits ids)
        × (contains d ids ≡ any_term e index f items d))
      × ((ids : List Text) × (eval_term e index (field f v fields) ≡ hits ids)
          × (contains d ids ≡ stored_under e index f (stringify (as_value v)) d))
unfolding eval_terms eval_term contains
eval_terms_lem e index f v items fields d r = (
  (term_values e index f items [], refl, values),
  (term_value e index f (as_value v), refl, contains-term_value e index f v d r),
)
  where
    values : contains d (term_values e index f items []) ≡ any_term e index f items d
    values = let found = contains-term_values e index f items [] d r in ground arith
