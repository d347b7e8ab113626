-- ===== src/Sql/Meaning.antt =====
-- pkg/sqldsl/sqldsl.go with internal/search/query.go: what a translated condition finds.
use go_es.Prelude.{◌≡◌, refl, none, some, List, [], Text, text_eq, text_Comparable}
use go_es.Search.Json.{object, nil, cons, Fields, present, get}
use go_es.Search.Leaves.{hits}
use go_es.Search.Engine.{Engine, all_ids, union}
use go_es.Search.Query.{
  TextQueries, eval_query_map, leaf_query, intersect, diff, apply_section, sections, clauses_at,
  unite,
}
use go_es.Sql.Syntax.{Expr, Junction, junction_and, junction_or, bin_op, test, like_test}
use go_es.Sql.Translate.{expr_to_query, joined}

-- The documents that either clause finds.
joined_lem :
    (q : TextQueries) (e : Engine) (index : Text) (op : Junction) (m n : Fields) (xs ys : List Text)
    → eval_query_map q e index m ≡ hits xs
    → eval_query_map q e index n ≡ hits ys
    → eval_query_map q e index (joined op (cons (object m) (cons (object n) nil)))
      ≡ hits (intersect (all_ids e index) (union xs (union ys [])))
unfolding eval_query_map sections clauses_at text_eq leaf_query present get
joined_lem q e index junction_and m n xs ys p r = λ i. apply_section intersect none (
    apply_section diff none (
      apply_section intersect (some (unite (p i) (unite (r i) (hits []))))
        (apply_section intersect none (hits (all_ids e index)))))
joined_lem q e index junction_or m n xs ys p r = λ i.
    apply_section intersect (some (unite (p i) (unite (r i) (hits [])))) (
      apply_section diff none
        (apply_section intersect none (apply_section intersect none (hits (all_ids e index)))))

-- `AND` finds what `OR` finds: where the server evaluates both sides of a condition without an error,
-- it evaluates the translations of their conjunction and of their disjunction to the same documents,
-- those that either side finds.
pub and_is_or :
    (q : TextQueries) (e : Engine) (index : Text) (l r : Expr) (xs ys : List Text)
    → eval_query_map q e index (expr_to_query l) ≡ hits xs
    → eval_query_map q e index (expr_to_query r) ≡ hits ys
    → (op : Junction)
    → eval_query_map q e index (expr_to_query (bin_op op l r))
      ≡ hits (intersect (all_ids e index) (union xs (union ys [])))
unfolding expr_to_query
and_is_or q e index l r xs ys p s op =
    joined_lem q e index op (expr_to_query l) (expr_to_query r) xs ys p s

-- `LIKE` finds nothing: the server has no `match_phrase_prefix`.
pub like_finds_nothing :
    (q : TextQueries) (e : Engine) (index name prefix : Text)
    → eval_query_map q e index (expr_to_query (test (like_test name prefix))) ≡ hits []
unfolding expr_to_query eval_query_map leaf_query present get text_eq
like_finds_nothing q e index name prefix = refl
