-- ===== src/Search/Json.antt =====
-- internal/search: the JSON trees of queries. The fields of an object stand in one order of the many in
-- which Go may range over the map.
use go_es.Prelude.{
  Option, none, some, List, [], ◌∷◌, ◌++◌, if◌then◌else◌, ◌==◌, Text, text_Comparable, text,
}
use go_es.Prelude.Order.{text_lt}
use go_es.Search.Value.{Value, string, number, boolean, other, format_int, format_bool}

mutual
  pub data Json : Type 0 where
    null : Json
    scalar : Value → Json
    array : Items → Json
    object : Fields → Json

  pub data Items : Type 0 where
    nil : Items
    cons : Json → Items → Items

  pub data Fields : Type 0 where
    end : Fields
    field : Text → Json → Fields → Fields

-- The form `%v` of a field's value.
unfoldable pub sprint_value : Value → Text
sprint_value (string s) = s
sprint_value (number n) = format_int n
sprint_value (boolean b) = format_bool b
sprint_value (other t) = t

-- `fmt` prints maps in the order of their keys.
abbrev pub insert_sorted : Text → Text → List (Text × Text) → List (Text × Text)
insert_sorted k shown [] = (k, shown) ∷ []
insert_sorted k shown ((j, s) ∷ rest) =
    if text_lt k j then (k, shown) ∷ (j, s) ∷ rest else (j, s) ∷ insert_sorted k shown rest

abbrev pub join_pairs : List (Text × Text) → Text
join_pairs [] = []
join_pairs ((k, s) ∷ []) = k ++ text ":" ++ s
join_pairs ((k, s) ∷ p ∷ rest) = k ++ text ":" ++ s ++ text " " ++ join_pairs (p ∷ rest)

abbrev pub join_items : List Text → Text
join_items [] = []
join_items (s ∷ []) = s
join_items (s ∷ t ∷ rest) = s ++ text " " ++ join_items (t ∷ rest)

unfoldable mutual
  unfolding sprint_value

  pub sprint : Json → Text
  sprint null = text "<nil>"
  sprint (scalar v) = sprint_value v
  sprint (array items) = text "[" ++ join_items (sprint_items items) ++ text "]"
  sprint (object fields) = text "map[" ++ join_pairs (sprint_fields fields) ++ text "]"

  pub sprint_items : Items → List Text
  sprint_items nil = []
  sprint_items (cons j items) = sprint j ∷ sprint_items items

  pub sprint_fields : Fields → List (Text × Text)
  sprint_fields end = []
  sprint_fields (field k j fields) = insert_sorted k (sprint j) (sprint_fields fields)

-- A query's value as the index sees it.
unfoldable pub as_value : Json → Value
unfolding sprint
as_value (scalar v) = v
as_value j = other (sprint j)

unfoldable pub get : Text → Fields → Option Json
get k end = none
get k (field j v fields) = if j == k then some v else get k fields

-- The type assertions that ignore their second result.
abbrev pub as_fields : Json → Fields
as_fields (object fields) = fields
as_fields _ = end

abbrev pub as_items : Json → Items
as_items (array items) = items
as_items _ = nil

-- The value at a key, unless it is absent, null or an empty map.
unfoldable pub present : Text → Fields → Option Json
unfolding get
present k m = elim (get k m) [
  | none ↦ none
  | some null ↦ none
  | some (object end) ↦ none
  | some j ↦ some j
]
