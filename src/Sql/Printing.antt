-- ===== src/Sql/Printing.antt =====
-- pkg/sqldsl/sqldsl.go: from the body of a search back to SQL. Where Go takes the first pair of a map,
-- the first field in the order of the object is taken.
use go_es.Prelude.{
  ◌||◌, Option, none, some, List, [], ◌∷◌, ◌++◌, if◌then◌else◌, nat_eq, ◌==◌, Text, text_Comparable,
  text,
}
use go_es.Prelude.Strings.{contains_text}
use go_es.Search.Value.{string}
use go_es.Search.Json.{
  Json, null, scalar, array, object, Items, nil, cons, Fields, end, field, get, sprint,
}

unfoldable pub join : Text → List Text → Text
join sep [] = []
join sep (s ∷ []) = s
join sep (s ∷ t ∷ ts) = s ++ (sep ++ join sep (t ∷ ts))

-- `quoteIdent`
unfoldable pub quote_ident : Text → Text
unfolding contains_text
quote_ident s =
    if contains_text s (text " ") || (contains_text s (text "-") || contains_text s (text "@"))
    then text "\"" ++ (s ++ text "\"")
    else s

unfoldable pub double_quotes : Text → Text
double_quotes [] = []
double_quotes (c ∷ cs) =
    let rest = double_quotes cs in if nat_eq c 39 then 39 ∷ 39 ∷ rest else c ∷ rest

-- `quoteLiteral`
unfoldable pub quote_literal : Json → Text
unfolding double_quotes sprint
quote_literal (scalar (string s)) = text "'" ++ (double_quotes s ++ text "'")
quote_literal j = sprint j

abbrev literals : Items → List Text
literals nil = []
literals (cons j items) = quote_literal j ∷ literals items

-- `extractMatchValue`
unfoldable pub extract_match_value : Json → Json
unfolding get
extract_match_value (object m) = elim (get (text "query") m) [ some q ↦ q | none ↦ object m ]
extract_match_value j = j

abbrev sql_op : Text → Option Text
sql_op op =
    if op == text "gt"
    then some (text ">")
    else if op == text "gte"
    then some (text ">=")
    else if op == text "lt"
    then some (text "<")
    else if op == text "lte"
    then some (text "<=")
    else none

unfoldable pub range_parts : Text → Fields → List Text
unfolding quote_ident quote_literal
range_parts name end = []
range_parts name (field op v rest) =
    let parts = range_parts name rest in
    elim (sql_op op) [
      | none ↦ parts
      | some shown ↦
          (quote_ident name ++ (text " " ++ (shown ++ (text " " ++ quote_literal v)))) ∷ parts
    ]

-- `rangeToSQL`
unfoldable pub range_to_sql : Text → Fields → Text
unfolding join range_parts
range_to_sql name rng = join (text " AND ") (range_parts name rng)

abbrev pub equation : Text → Json → Text
equation name v = quote_ident name ++ (text " = " ++ quote_literal v)

-- The clauses of `queryToWhere` before `bool`, each by what its key holds.
unfoldable pub match_clause : Option Json → Option Text
unfolding extract_match_value quote_ident quote_literal
match_clause (some (object (field name v rest))) = some (equation name (extract_match_value v))
match_clause _ = none

unfoldable pub term_clause : Option Json → Option Text
unfolding quote_ident quote_literal
term_clause (some (object (field name v rest))) = some (equation name v)
term_clause _ = none

-- The first field of `terms` that holds a list, and of `range` that holds an object.
unfoldable pub terms_text : Fields → Option Text
unfolding quote_ident quote_literal join
terms_text end = none
terms_text (field name (array items) rest) =
    some (quote_ident name ++ (text " IN (" ++ (join (text ", ") (literals items) ++ text ")")))
terms_text (field name null rest) = terms_text rest
terms_text (field name (scalar v) rest) = terms_text rest
terms_text (field name (object m) rest) = terms_text rest

unfoldable pub range_text : Fields → Option Text
unfolding range_to_sql
range_text end = none
range_text (field name (object rng) rest) = some (range_to_sql name rng)
range_text (field name null rest) = range_text rest
range_text (field name (scalar v) rest) = range_text rest
range_text (field name (array items) rest) = range_text rest

abbrev terms_clause : Option Json → Option Text
terms_clause (some (object m)) = terms_text m
terms_clause _ = none

abbrev range_clause : Option Json → Option Text
range_clause (some (object m)) = range_text m
range_clause _ = none

abbrev first_of : Option Text → Option Text → Option Text
first_of (some s) alt = some s
first_of none alt = alt

abbrev all_clause : Option Json → Option Text
all_clause none = none
all_clause (some _) = some []

unfoldable pub leaf_where : Fields → Option Text
unfolding get match_clause term_clause terms_text range_text
leaf_where q = first_of (all_clause (get (text "match_all") q)) (
    first_of (match_clause (get (text "match") q)) (
      first_of (term_clause (get (text "term") q))
        (first_of (terms_clause (get (text "terms") q)) (range_clause (get (text "range") q)))))

abbrev pub kept : Text → List Text → List Text
kept [] rest = rest
kept (c ∷ cs) rest = (c ∷ cs) ∷ rest

unfoldable pub wrapped : Text → List Text → List Text
wrapped front [] = []
wrapped front (s ∷ ss) = (front ++ (text "(" ++ (s ++ text ")"))) ∷ wrapped front ss

abbrev pub or_default : Option Text → Text → Text
or_default (some s) alt = s
or_default none alt = alt

-- `boolToSQL`, from the texts of the clauses under each key.
unfoldable pub bool_to_sql : (Text → List Text) → Text
unfolding join wrapped
bool_to_sql at = join (text " AND ") (
    at (text "filter")
    ++ (at (text "must")
        ++ (kept (join (text " OR ") (wrapped [] (at (text "should")))) []
            ++ wrapped (text "NOT ") (at (text "must_not")))))

-- The recursion over the query's tree. `bool_where` and `parts_at` find a key and print its value.
unfoldable mutual
  unfolding leaf_where bool_to_sql

  pub bool_where : Fields → Text
  bool_where end = []
  bool_where (field k v rest) =
      let here = bool_text v in
      let there = bool_where rest in if k == text "bool" then here else there

  pub bool_text : Json → Text
  bool_text (object b) = bool_to_sql (λ key. parts_at key b)
  bool_text _ = []

  pub parts_at : Text → Fields → List Text
  parts_at key end = []
  parts_at key (field k v rest) =
      let here = json_parts v in let there = parts_at key rest in if k == key then here else there

  pub json_parts : Json → List Text
  json_parts (array items) = item_parts items
  json_parts _ = []

  pub item_parts : Items → List Text
  item_parts nil = []
  item_parts (cons (object m) items) =
      kept (or_default (leaf_where m) (bool_where m)) (item_parts items)
  item_parts (cons null items) = item_parts items
  item_parts (cons (scalar v) items) = item_parts items
  item_parts (cons (array more) items) = item_parts items

-- `queryToWhere`
unfoldable pub query_to_where : Fields → Text
unfolding leaf_where bool_where
query_to_where q = or_default (leaf_where q) (bool_where q)

abbrev direction : Json → Text
direction (scalar (string s)) = if s == text "desc" then text " DESC" else text " ASC"
direction _ = text " ASC"

abbrev sort_text : Json → Text
sort_text (object (field f d rest)) = quote_ident f ++ direction d
sort_text _ = []

abbrev sort_texts : Items → List Text
sort_texts nil = []
sort_texts (cons j items) = sort_text j ∷ sort_texts items

abbrev where_text : Option Json → Text
where_text (some (object q)) = elim (query_to_where q) [
  | [] ↦ []
  | c ∷ cs ↦ text " WHERE " ++ (c ∷ cs)
]
where_text _ = []

abbrev order_text : Option Json → Text
order_text (some (array (cons j items))) =
    text " ORDER BY " ++ join (text ", ") (sort_texts (cons j items))
order_text _ = []

abbrev numbered : Text → Option Json → Text
numbered before none = []
numbered before (some j) = before ++ sprint j

-- `DSLToSQL`
unfoldable pub dsl_to_sql : Fields → Text → Text
unfolding query_to_where get quote_ident join sprint
dsl_to_sql body index =
    text "SELECT * FROM "
    ++ (quote_ident index
        ++ (where_text (get (text "query") body)
            ++ (order_text (get (text "sort") body)
                ++ (numbered (text " OFFSET ") (get (text "from") body)
                    ++ numbered (text " LIMIT ") (get (text "size") body)))))
