-- ===== src/Search/SortedIndex.antt =====
-- internal/search/sorted_index.go: the sorted (value, document) pairs of a field, and range queries
-- on them. The RW mutex serialises writers; a read sees one state.
pub mod Order
pub mod Ranges
pub mod Contents
use go_es.Prelude.{
  ℕ, zero, suc, ◌+◌, ◌-◌, Bool, true, false, not, ◌&&◌, ◌||◌, Option, none, some, List, [], ◌∷◌,
  ◌++◌, if◌then◌else◌, ◌==◌, Text, text_Comparable, length, get_elem?, take, drop,
}
use go_es.Prelude.Maps.{Map, lookup, insert, delete}
use go_es.Prelude.Sets.{add}
use go_es.Prelude.Order.{text_lt}
use go_es.Prelude.SortSearch.{sort_search}

pub record SortedEntry : Type 0 where
  pub value : Text
  pub doc_id : Text

-- The argument of `sort.Search`: a test of the entry at an index.
unfoldable pub test_at : (SortedEntry → Bool) → List SortedEntry → ℕ → Bool
test_at test entries i = elim (get_elem? entries i) [ none ↦ true | some e ↦ test e ]

-- The order of the entries, by value and then by document.
unfoldable pub entry_lt : SortedEntry → SortedEntry → Bool
entry_lt a b =
    if text_lt a.value b.value
    then true
    else if text_lt b.value a.value
    then false
    else text_lt a.doc_id b.doc_id

abbrev pub same_entry : SortedEntry → SortedEntry → Bool
same_entry a b = a.value == b.value && a.doc_id == b.doc_id

-- The position of an entry, or where it has to go.
unfoldable pub position : SortedEntry → List SortedEntry → ℕ
position e entries = sort_search (length entries) (test_at (λ x. not (entry_lt x e)) entries)

abbrev pub stands_at : SortedEntry → List SortedEntry → ℕ → Bool
stands_at e entries i = elim (get_elem? entries i) [ none ↦ false | some x ↦ same_entry x e ]

-- `sortedIndex.upsert`
unfoldable pub upsert : SortedEntry → List SortedEntry → List SortedEntry
upsert e entries =
    let i : ℕ = position e entries in
    if stands_at e entries i then entries else take i entries ++ e ∷ drop i entries

-- `sortedIndex.removeDoc`
unfoldable pub remove_doc : Text → List SortedEntry → List SortedEntry
remove_doc doc_id [] = []
remove_doc doc_id (e ∷ entries) =
    if e.doc_id == doc_id then remove_doc doc_id entries else e ∷ remove_doc doc_id entries

-- The bounds of a range; each may be missing.
pub record Range : Type 0 where
  pub gte : Option Text
  pub lte : Option Text
  pub gt : Option Text
  pub lt : Option Text

-- `gt` overrides `gte`, and `lt` overrides `lte`.
unfoldable pub lower_bound : Range → List SortedEntry → ℕ
lower_bound r entries = elim r.gt [
  | some b ↦ sort_search (length entries) (test_at (λ e. text_lt b e.value) entries)
  | none ↦ elim r.gte [
    | some b ↦ sort_search (length entries) (test_at (λ e. not (text_lt e.value b)) entries)
    | none ↦ 0
  ]
]

unfoldable pub upper_bound : Range → List SortedEntry → ℕ
upper_bound r entries = elim r.lt [
  | some b ↦ sort_search (length entries) (test_at (λ e. not (text_lt e.value b)) entries)
  | none ↦ elim r.lte [
    | some b ↦ sort_search (length entries) (test_at (λ e. text_lt b e.value) entries)
    | none ↦ length entries
  ]
]

-- The loop from `lo`, by the rounds left.
unfoldable pub collect : List SortedEntry → ℕ → ℕ → List Text
collect entries zero i = []
collect entries (suc rounds) i = elim (get_elem? entries i) [
  | none ↦ collect entries rounds (i + 1)
  | some e ↦ add e.doc_id (collect entries rounds (i + 1))
]

unfoldable pub range_entries : Range → List SortedEntry → List Text
range_entries r entries =
    let lo : ℕ = lower_bound r entries in collect entries (upper_bound r entries - lo) lo

-- `sortedIndexCache`: index, then field.
abbrev pub SortedCache : Type 0
SortedCache = Map Text (Map Text (List SortedEntry))

unfoldable pub fields_of : SortedCache → Text → Map Text (List SortedEntry)
fields_of c index = elim (lookup index c) [ none ↦ [] | some fields ↦ fields ]

-- An index or field that is missing is created empty.
unfoldable pub entries_of : SortedCache → Text → Text → List SortedEntry
unfolding fields_of
entries_of c index field = elim (lookup field (fields_of c index)) [
  | none ↦ []
  | some entries ↦ entries
]

unfoldable pub upsert_value : SortedCache → Text → Text → Text → Text → SortedCache
unfolding entries_of
upsert_value c index field value doc_id =
    insert index
      (insert field (upsert (record { value = value; doc_id = doc_id }) (entries_of c index field))
        (fields_of c index))
      c

unfoldable pub remove_index : SortedCache → Text → SortedCache
remove_index c index = delete index c

unfoldable pub remove_doc_fields : Text → Map Text (List SortedEntry) → Map Text (List SortedEntry)
remove_doc_fields doc_id [] = []
remove_doc_fields doc_id ((field, entries) ∷ fields) =
    (field, remove_doc doc_id entries) ∷ remove_doc_fields doc_id fields

unfoldable pub remove_doc_value : SortedCache → Text → Text → SortedCache
unfolding remove_doc_fields
remove_doc_value c index doc_id = elim (lookup index c) [
  | none ↦ c
  | some fields ↦ insert index (remove_doc_fields doc_id fields) c
]

unfoldable pub range_query : SortedCache → Text → Text → Range → List Text
unfolding fields_of
range_query c index field r = elim (lookup field (fields_of c index)) [
  | none ↦ []
  | some entries ↦ range_entries r entries
]
