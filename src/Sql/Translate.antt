-- ===== src/Sql/Translate.antt =====
-- pkg/sqldsl/sqldsl.go: the body of a search for a statement. A number with a point stands as its
-- text. The keys of a JSON object are in the order in which they are written here.
use go_es.Prelude.{
  ℕ, Bool, true, false, not, ◌&&◌, Option, none, some, List, [], ◌∷◌, if◌then◌else◌, ltb, ◌==◌,
  Text, text_Comparable, text,
}
use go_es.Prelude.Int.{pos}
use go_es.Search.Value.{Value, string, number, other}
use go_es.Search.Json.{Json, scalar, array, object, Items, nil, cons, Fields, end, field}
use go_es.Sql.Syntax.{
  Literal, string_value, int_value, float_value, Junction, junction_and, junction_or, Test,
  compare_test, in_test, like_test, Expr, test, bin_op, FieldRef, OrderTerm, SelectStmt,
}

abbrev pub value_of : Literal → Value
value_of (string_value s) = string s
value_of (int_value n) = number (pos n)
value_of (float_value s) = other s

abbrev pub single : Text → Json → Fields
single key j = field key j end

abbrev values : List Literal → Items
values [] = nil
values (l ∷ ls) = cons (scalar (value_of l)) (values ls)

abbrev range_of : Text → Json → Fields
range_of op v =
    if op == text ">"
    then single (text "gt") v
    else if op == text ">="
    then single (text "gte") v
    else if op == text "<"
    then single (text "lt") v
    else if op == text "<="
    then single (text "lte") v
    else end

-- `compareToQuery`
unfoldable pub compare_to_query : Text → Text → Literal → Fields
compare_to_query name op val =
    let v = scalar (value_of val) in
    if op == text "="
    then single (text "term") (object (single name v))
    else if op == text "!="
    then single (text "bool") (
        object (
          single (text "must_not")
            (array (cons (object (single (text "term") (object (single name v)))) nil))))
    else single (text "range") (object (single name (object (range_of op v))))

-- `exprToQuery` on an expression without parts.
unfoldable pub test_to_query : Test → Fields
unfolding compare_to_query
test_to_query (compare_test name op val) = compare_to_query name op val
test_to_query (in_test name vals) =
    single (text "terms") (object (single name (array (values vals))))
test_to_query (like_test name prefix) =
    single (text "match_phrase_prefix") (object (single name (scalar (string prefix))))

abbrev pub joined : Junction → Items → Fields
joined junction_and clauses = single (text "bool") (object (single (text "filter") (array clauses)))
joined junction_or clauses = single (text "bool") (
    object (
      field (text "should") (array clauses)
        (single (text "minimum_should_match") (scalar (number (pos 1))))))

-- `exprToQuery`
unfoldable pub expr_to_query : Expr → Fields
unfolding test_to_query
expr_to_query (test t) = test_to_query t
expr_to_query (bin_op op l r) =
    joined op (cons (object (expr_to_query l)) (cons (object (expr_to_query r)) nil))

-- The body of a search; a key that is not set is none.
pub record Body : Type 0 where
  pub query : Fields
  pub from : Option ℕ
  pub size : Option ℕ
  pub aggs : Option Fields
  pub source : Option (List Text)
  pub sort : Option (List (Text × Text))

abbrev when_positive : ℕ → Option ℕ
when_positive n = if ltb 0 n then some n else none

unfoldable pub has_count : List FieldRef → Bool
has_count [] = false
has_count (f ∷ fs) = if f.is_count then true else has_count fs

unfoldable pub source_fields : List FieldRef → List Text
source_fields [] = []
source_fields (f ∷ fs) = if f.is_count then source_fields fs else f.expr ∷ source_fields fs

unfoldable pub sort_terms : List OrderTerm → List (Text × Text)
sort_terms [] = []
sort_terms (o ∷ os) = (o.field, if o.desc then text "desc" else text "asc") ∷ sort_terms os

abbrev when_some {ℓ} : {A : Type ℓ} → List A → Option (List A)
when_some [] = none
when_some (x ∷ xs) = some (x ∷ xs)

abbrev count_aggs : Fields
count_aggs =
    single (text "count")
      (object (single (text "value_count") (object (single (text "_count") (scalar (string []))))))

-- `stmtToDSL`
unfoldable pub stmt_to_dsl : SelectStmt → Body
unfolding expr_to_query has_count source_fields sort_terms
stmt_to_dsl s =
    let counted : Bool = not s.all && has_count s.fields in
    record {
      query = elim s.cond [
        | none ↦ single (text "match_all") (object end)
        | some e ↦ expr_to_query e
      ];
      from = when_positive s.offset;
      size = if counted then some 0 else when_positive s.limit;
      aggs = if counted then some count_aggs else none;
      source = if s.all then none else when_some (source_fields s.fields);
      sort = when_some (sort_terms s.order_by);
    }
