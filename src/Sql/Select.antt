-- ===== src/Sql/Select.antt =====
-- pkg/sqldsl/sqldsl.go: the parser of a whole statement, and its translation.
use go_es.Prelude.{
  ℕ, zero, suc, Bool, true, false, not, ◌||◌, Option, none, some, List, [], ◌∷◌, if◌then◌else◌,
  Text, text_Comparable, text, length,
}
use go_es.Sql.Token.{
  Token, tk_eof, tk_ident, tk_number, tk_keyword, tk_operator, tk_punct, lexed, tokenize,
}
use go_es.Sql.Syntax.{Expr, FieldRef, OrderTerm, SelectStmt}
use go_es.Sql.Parser.{
  Parsed, parsed, rejected, unfinished, and_then, on_value, expect, peek, advance, sees, same_type,
  atoi, parse_expr, fuel_for,
}
use go_es.Sql.Translate.{Body, stmt_to_dsl}

abbrev pub keyword : Text → List Token → Parsed Unit
keyword kw ts = expect tk_keyword kw tt ts

abbrev plain_field : Text → FieldRef
plain_field name = record { expr = name; alias = []; is_count = false }

abbrev count_field : Text → FieldRef
count_field alias = record { expr = text "COUNT(*)"; alias = alias; is_count = true }

-- The alias after `COUNT(*)`, if there is one.
unfoldable pub parse_alias : List Token → Parsed Text
parse_alias ts =
    if not (sees tk_keyword (text "as") ts)
    then parsed [] ts
    else if same_type (peek (advance ts)).typ tk_ident
    then parsed (peek (advance ts)).value (advance (advance ts))
    else rejected

-- One field of the list.
unfoldable pub parse_field : List Token → Parsed FieldRef
unfolding parse_alias and_then expect
parse_field ts =
    if sees tk_keyword (text "count") ts
    then and_then (expect tk_punct (text "(") tt (advance ts)) (λ _ after.
      and_then (expect tk_operator (text "*") tt after) (λ _ after2.
        and_then (expect tk_punct (text ")") tt after2) (λ _ after3.
          and_then (parse_alias after3) (λ alias rest. parsed (count_field alias) rest))))
    else if same_type (peek ts).typ tk_ident
    then parsed (plain_field (peek ts).value) (advance ts)
    else rejected

-- The loop of `parseFieldList`; each field takes a token.
unfoldable pub parse_fields : ℕ → List Token → Parsed (List FieldRef)
unfolding parse_field and_then
parse_fields zero ts = unfinished
parse_fields (suc fuel) ts = and_then (parse_field ts) (λ f rest.
    let more = and_then (parse_fields fuel (advance rest)) (λ fs after. parsed (f ∷ fs) after) in
    if sees tk_punct (text ",") rest then more else parsed (f ∷ []) rest)

-- `parseFieldList`: the fields, and whether all are asked for.
unfoldable pub parse_field_list : List Token → Parsed (List FieldRef × Bool)
unfolding parse_fields and_then
parse_field_list ts =
    if sees tk_operator (text "*") ts
    then parsed ([], true) (advance ts)
    else and_then (parse_fields (suc (length ts)) ts) (λ fs rest. parsed (fs, false) rest)

unfoldable pub parse_where : List Token → Parsed (Option Expr)
unfolding parse_expr and_then
parse_where ts =
    if sees tk_keyword (text "where") ts
    then and_then (parse_expr (fuel_for (advance ts)) 0 (advance ts))
        (λ e rest. parsed (some e) rest)
    else parsed none ts

abbrev pub is_direction : List Token → Bool
is_direction ts = sees tk_keyword (text "asc") ts || sees tk_keyword (text "desc") ts

-- One term of `ORDER BY`, after its name.
abbrev pub order_term : Text → List Token → OrderTerm × List Token
order_term name ts =
    if is_direction ts
    then (record { field = name; desc = sees tk_keyword (text "desc") ts }, advance ts)
    else (record { field = name; desc = false }, ts)

unfoldable pub parse_order : ℕ → List Token → Parsed (List OrderTerm)
unfolding and_then
parse_order zero ts = unfinished
parse_order (suc fuel) ts =
    let first = order_term (peek ts).value (advance ts) in
    let more =
      and_then (parse_order fuel (advance first.1)) (λ os after. parsed (first.0 ∷ os) after) in
    if not (same_type (peek ts).typ tk_ident)
    then rejected
    else if sees tk_punct (text ",") first.1
    then more
    else parsed (first.0 ∷ []) first.1

unfoldable pub parse_order_by : List Token → Parsed (List OrderTerm)
unfolding parse_order and_then expect
parse_order_by ts =
    if sees tk_keyword (text "order") ts
    then and_then (keyword (text "by") (advance ts))
        (λ _ rest. parse_order (suc (length rest)) rest)
    else parsed [] ts

-- `LIMIT` or `OFFSET` with its number, or 0.
unfoldable pub parse_number : Text → List Token → Parsed ℕ
unfolding atoi
parse_number kw ts =
    if not (sees tk_keyword kw ts)
    then parsed 0 ts
    else if not (same_type (peek (advance ts)).typ tk_number)
    then rejected
    else on_value (atoi (peek (advance ts)).value) rejected (λ n. parsed n (advance (advance ts)))

-- `parseSelect`
unfoldable pub parse_select : List Token → Parsed SelectStmt
unfolding parse_field_list parse_where parse_order_by parse_number and_then expect
parse_select ts = and_then (keyword (text "select") ts) (λ _ t1.
    and_then (parse_field_list t1) (λ fields t2. and_then (keyword (text "from") t2) (λ _ t3.
      if not (same_type (peek t3).typ tk_ident)
      then rejected
      else and_then (parse_where (advance t3)) (λ cond t4. and_then (parse_order_by t4) (λ order t5.
        and_then (parse_number (text "limit") t5) (λ limit t6.
          and_then (parse_number (text "offset") t6) (λ offset t7.
            if same_type (peek t7).typ tk_eof || sees tk_punct (text ";") t7
            then parsed
                (record {
                  fields = fields.0;
                  all = fields.1;
                  from_index = (peek t3).value;
                  cond = cond;
                  limit = limit;
                  offset = offset;
                  order_by = order;
                })
                t7
            else rejected)))))))

-- `SQLToDSL`: the body, or none for an error.
unfoldable pub sql_to_dsl : Text → Option Body
unfolding tokenize parse_select stmt_to_dsl
sql_to_dsl sql = elim (tokenize (length sql) sql) [
  | lexed ts ↦ elim (parse_select ts) [ parsed s _ ↦ some (stmt_to_dsl s) | _ ↦ none ]
  | _ ↦ none
]
