-- ===== src/Sql/Losses.antt =====
-- pkg/sqldsl/sqldsl.go: what the way from SQL to the query DSL and back does not keep.
use mathlib.Core.List.{append_assoc, append-nil}
use go_es.Prelude.{
  ◌≡◌, ap, ◌∙◌, List, [], ◌∷◌, ◌++◌, Text, text, text_eq, arith, Option-cases, inl, inr, ℕ,
}
use go_es.Search.Json.{object, Items, nil, cons, Fields, get}
use go_es.Sql.Token.{Token, tk_ident, tk_number, tk_keyword, tk_operator, eof}
use go_es.Sql.Syntax.{Expr, junction_and, junction_or, bin_op}
use go_es.Sql.Parser.{rejected, atoi}
use go_es.Sql.Select.{parse_select}
use go_es.Sql.Translate.{expr_to_query, joined}
use go_es.Sql.Printing.{
  kept, query_to_where, bool_where, bool_to_sql, leaf_where, join, wrapped, match_clause,
  term_clause, item_parts,
}

abbrev keyword : Text → Token
keyword k = record { typ = tk_keyword; value = k }

-- `SELECT * FROM index OFFSET n LIMIT m`, in the order in which the printer writes it.
abbrev pub offset_first : (index n m : Text) → List Token
offset_first index n m =
    keyword (text "select")
    ∷ record { typ = tk_operator; value = text "*" }
    ∷ keyword (text "from")
    ∷ record { typ = tk_ident; value = index }
    ∷ keyword (text "offset")
    ∷ record { typ = tk_number; value = n }
    ∷ keyword (text "limit")
    ∷ record { typ = tk_number; value = m }
    ∷ eof
    ∷ []

-- The parser rejects `OFFSET` before `LIMIT`, for every index and all numbers.
pub offset_first-rejected : (index n m : Text) → parse_select (offset_first index n m) ≡ rejected
unfolding parse_select text_eq
offset_first-rejected index n m = elim (Option-cases (atoi n)) [
  | inl e ↦ ground (arith, e)
  | inr (k, e) ↦ ground (arith, e)
]

both_parts :
    (m n : Fields) (x y : ℕ) (xs ys : Text)
    → query_to_where m ≡ x ∷ xs
    → query_to_where n ≡ y ∷ ys
    → item_parts (cons (object m) (cons (object n) nil)) ≡ (x ∷ xs) ∷ (y ∷ ys) ∷ []
unfolding query_to_where item_parts
both_parts m n x y xs ys hm hn =
    ap (λ s. kept s (kept (query_to_where n) [])) hm ∙ ap (λ s. (x ∷ xs) ∷ kept s []) hn

conjunction_text :
    (items : Items)
    → query_to_where (joined junction_and items) ≡ join (text " AND ") (item_parts items)
unfolding query_to_where leaf_where bool_where bool_to_sql wrapped get match_clause term_clause
    text_eq
conjunction_text items = ap (join (text " AND ")) (append-nil (item_parts items))

disjunction_text :
    (items : Items)
    → query_to_where (joined junction_or items)
      ≡ join (text " AND ") (kept (join (text " OR ") (wrapped [] (item_parts items))) [])
unfolding query_to_where leaf_where bool_where bool_to_sql wrapped get match_clause term_clause
    text_eq
disjunction_text items =
    ap (join (text " AND "))
      (append-nil (kept (join (text " OR ") (wrapped [] (item_parts items))) []))

abbrev either : Text → Text → Text
either s t = (s ++ text ")") ++ (text " OR (" ++ (t ++ text ")"))

disjunction_of :
    (m n : Fields) (x y : ℕ) (xs ys : Text)
    → query_to_where m ≡ x ∷ xs
    → query_to_where n ≡ y ∷ ys
    → query_to_where (joined junction_or (cons (object m) (cons (object n) nil)))
      ≡ text "(" ++ either (x ∷ xs) (y ∷ ys)
unfolding join wrapped
disjunction_of m n x y xs ys hm hn =
    disjunction_text (cons (object m) (cons (object n) nil))
    ∙ ap (λ parts. join (text " AND ") (kept (join (text " OR ") (wrapped [] parts)) []))
        (both_parts m n x y xs ys hm hn)

regrouped :
    (s t u : Text)
    → either s t ++ (text " AND " ++ u) ≡ s ++ (text ") OR (" ++ (t ++ (text ") AND " ++ u)))
regrouped s t u = simp append_assoc

-- A disjunction inside a conjunction is printed without parentheses around it: `(a OR b) AND c` comes
-- out as `(a) OR (b) AND c`, with the texts of `a`, `b` and `c`, where these are not empty.
pub or_inside_and :
    (a b c : Expr) (x y z : ℕ) (xs ys zs : Text)
    → query_to_where (expr_to_query a) ≡ x ∷ xs
    → query_to_where (expr_to_query b) ≡ y ∷ ys
    → query_to_where (expr_to_query c) ≡ z ∷ zs
    → query_to_where (expr_to_query (bin_op junction_and (bin_op junction_or a b) c))
      ≡ text "(" ++ ((x ∷ xs) ++ (text ") OR (" ++ ((y ∷ ys) ++ (text ") AND " ++ (z ∷ zs)))))
unfolding expr_to_query join wrapped
or_inside_and a b c x y z xs ys zs ha hb hc =
    conjunction_text _
    ∙ ap (join (text " AND ")) (
        both_parts _ (expr_to_query c) 40 z (either (x ∷ xs) (y ∷ ys)) zs
          (disjunction_of (expr_to_query a) (expr_to_query b) x y xs ys ha hb) hc)
    ∙ ap (λ s. 40 ∷ s) (regrouped (x ∷ xs) (y ∷ ys) (z ∷ zs))
