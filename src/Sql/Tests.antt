-- ===== src/Sql/Tests.antt =====
-- pkg/sqldsl: runs of concrete statements.
use go_es.Prelude.{◌≤◌, ◌≡◌, ◌≢◌, refl, List, [], ◌∷◌, ◌++◌, length, Text, text, text_eq, arith}
use go_es.Search.Engine.{new_engine, all_ids, union}
use go_es.Search.Leaves.{hits}
use go_es.Search.Query.{TextQueries, eval_query_map, intersect}
use go_es.Sql.Token.{tk_operator, tk_string, Token, eof, tk_keyword, tk_number}
use go_es.Sql.Syntax.{
  Expr, compare_test, string_value, test, bin_op, junction_and, junction_or, like_test, SelectStmt,
  in_test, int_value,
}
use go_es.Sql.Parser.{parse_expr, parsed, fuel_for, parse_test, literal_of, peek, junction_of}
use go_es.Sql.Precedence.{ident, junction_token, punct}
use go_es.Sql.Grammar.{
  Phrase, primary, disjunction, condition, compares, is_in, quoted, whole, next_digit, digit, value,
  last_value, ors, ands, alone, one, keyword, parse_expr-Phrase,
}
use go_es.Sql.Select.{parse_select}
use go_es.Sql.Statement.{parse_select-ends}
use go_es.Sql.Translate.{expr_to_query}
use go_es.Sql.Printing.{query_to_where}
use go_es.Sql.Losses.{or_inside_and}
use go_es.Sql.Meaning.{and_is_or, like_finds_nothing}

abbrev is_x : Text → Expr
is_x name = test (compare_test name (text "=") (string_value (text "x")))

abbrev body : List Token
body =
    record { typ = tk_operator; value = text "=" }
    ∷ record { typ = tk_string; value = text "x" }
    ∷ []

abbrev written : Text → List Token
written name = ident name ∷ body

is_x-Phrase : (name : Text) → Phrase primary (is_x name) (written name)
is_x-Phrase name = condition (compares name (text "=") (quoted (text "x")))

-- `a = 'x' OR b = 'x' AND c = 'x'`
abbrev mixed : Expr
mixed =
    bin_op junction_or (is_x (text "a")) (bin_op junction_and (is_x (text "b")) (is_x (text "c")))

abbrev mixed_tokens : List Token
mixed_tokens =
    written (text "a")
    ++ (junction_token junction_or
        ∷ (written (text "b") ++ (junction_token junction_and ∷ written (text "c"))))

mixed-Phrase : Phrase disjunction mixed mixed_tokens
mixed-Phrase =
    ors (alone (one (is_x-Phrase (text "a"))))
      (ands (one (is_x-Phrase (text "b"))) (is_x-Phrase (text "c")))

parse_expr-Phrase_example :
    parse_expr (fuel_for (mixed_tokens ++ (eof ∷ []))) 0 (mixed_tokens ++ (eof ∷ []))
    ≡ parsed mixed (eof ∷ [])
parse_expr-Phrase_example =
    parse_expr-Phrase mixed mixed_tokens (eof ∷ []) mixed-Phrase (λ e. cc) (λ e. cc)

-- The digits of 42, and `a IN (42, 'x')`.
listed-Phrase :
    Phrase disjunction (test (in_test (text "a") (int_value 42 ∷ string_value (text "x") ∷ []))) (
      ident (text "a")
      ∷ keyword (text "in")
      ∷ punct (text "(")
      ∷ record { typ = tk_number; value = text "42" }
      ∷ punct (text ",")
      ∷ record { typ = tk_string; value = text "x" }
      ∷ punct (text ")")
      ∷ [])
listed-Phrase = alone (
    one (
      condition (
        is_in (text "a") (
          value
            (whole (text "42") 42 (next_digit 2 (omega arith) (digit 4 (omega arith)))
              (omega arith))
            (last_value (quoted (text "x")))))))

-- `SELECT title FROM books WHERE a = 'x' OR b = 'x' AND c = 'x' LIMIT 5`
abbrev statement : List Token
statement =
    record { typ = tk_keyword; value = text "select" }
    ∷ ident (text "title")
    ∷ record { typ = tk_keyword; value = text "from" }
    ∷ ident (text "books")
    ∷ record { typ = tk_keyword; value = text "where" }
    ∷ (mixed_tokens
        ++ (record { typ = tk_keyword; value = text "limit" }
            ∷ record { typ = tk_number; value = text "5" }
            ∷ eof
            ∷ []))

parse_select-ends_example :
    (parse_select statement ≢ go_es.Sql.Parser.unfinished)
    × ((s : SelectStmt) (rest : List Token)
        → parse_select statement ≡ parsed s rest
        → length rest ≤ length statement)
parse_select-ends_example = parse_select-ends statement

abbrev none_found : TextQueries
none_found = record {
  multi_match = λ _ _ _. hits [];
  query_string = λ _ _ _. hits [];
  simple_query_string = λ _ _ _. hits [];
}

and_is_or_example :
    eval_query_map none_found new_engine (text "books") (
      expr_to_query (
        bin_op junction_and
          (test (like_test (text "a") (text "x")))
          (test (like_test (text "b") (text "y")))))
    ≡ hits (intersect (all_ids new_engine (text "books")) (union [] (union [] [])))
and_is_or_example =
    and_is_or none_found new_engine (text "books") (test (like_test (text "a") (text "x")))
      (test (like_test (text "b") (text "y"))) [] []
      (like_finds_nothing none_found new_engine (text "books") (text "a") (text "x"))
      (like_finds_nothing none_found new_engine (text "books") (text "b") (text "y")) junction_and

is_a-text : query_to_where (expr_to_query (is_x (text "a"))) ≡ text "a = 'x'"
unfolding query_to_where expr_to_query text_eq
is_a-text = refl

or_inside_and_example :
    query_to_where (
      expr_to_query (
        bin_op junction_and
          (bin_op junction_or (is_x (text "a")) (is_x (text "a")))
          (is_x (text "a"))))
    ≡ text "(a = 'x') OR (a = 'x') AND a = 'x'"
or_inside_and_example =
    or_inside_and (is_x (text "a")) (is_x (text "a")) (is_x (text "a")) 97 97 97 (text " = 'x'")
      (text " = 'x'") (text " = 'x'") is_a-text is_a-text is_a-text
