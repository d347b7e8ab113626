-- ===== src/Search/Tests.antt =====
-- internal/search: runs of the engine and of queries, and the theorems at concrete inputs.
use go_es.Prelude.{
  ℕ, ◌≡◌, ◌↔◌, refl, true, false, none, some, List, [], ◌∷◌, ◌++◌, Text, text, text_eq,
  text_Comparable, get_elem?,
}
use go_es.Prelude.Maps.{lookup, sub}
use go_es.Prelude.Sets.{add, contains}
use go_es.Prelude.Order.{text_lt}
use go_es.Search.Value.{string, tokenize, stringify}
use go_es.Search.SortedIndex.{
  SortedEntry, Range, SortedCache, entries_of, range_entries, same_entry,
}
use go_es.Search.SortedIndex.Contents.{Call, upserts, removes}
use go_es.Search.SortedIndex.Order.{holds}
use go_es.Search.SortedIndex.Ranges.{range_entries_iff, above, below}
use go_es.Search.Engine.{
  keys, union, Engine, Doc, new_engine, index_doc, get_source, match_docs_tokens, all_ids,
  term_value, match_docs,
}
use go_es.Search.Engine.Exact.{
  Reaches, IsExact, start, indexes, Reaches-IsExact, get_source-index_doc,
}
use go_es.Search.Engine.Matches.{shares, match_docs_tokens_lem}
use go_es.Search.Engine.Ranked.{stored_value}
use go_es.Search.Engine.Ranges.{range_query_iff}
use go_es.Search.Scorer.{new_scorer}
use go_es.Search.Scorer.Frequencies.{IsCounted, posts, unposts, run-new_scorer-IsCounted}
use go_es.Search.SortedIndex.{range_query}
use go_es.Search.Json.{
  Items, Fields, scalar, array, object, nil, cons, end, field, as_value, present, get,
}
use go_es.Search.Leaves.{hits, fails, eval_term, contains_phrase}
use go_es.Search.Leaves.Phrase.{contains_phrase_iff}
use go_es.Search.Query.{intersect, TextQueries, eval_query_map, eval_bool}
use go_es.Search.Query.Meaning.{meets, section_holds, eval_bool_lem}

abbrev books : Text
books = text "books"

abbrev title : Text
title = text "title"

abbrev one : Text
one = text "1"

abbrev first_doc : Doc
first_doc = (title, string (text "The Go Book")) ∷ []

abbrev second_doc : Doc
second_doc = (title, string (text "Rust")) ∷ []

abbrev indexed_once : Engine
indexed_once = index_doc books one first_doc new_engine

indexed_once-Reaches : Reaches indexed_once
unfolding get_source lookup sub
indexed_once-Reaches = indexes start books one first_doc refl

Reaches-IsExact_example : IsExact indexed_once
Reaches-IsExact_example = Reaches-IsExact indexed_once-Reaches

match_docs_tokens_lem_example :
    contains one (match_docs_tokens indexed_once books title (text "go rust"))
    ≡ elim (get_source indexed_once books one) [
      | none ↦ false
      | some doc ↦ shares title (tokenize (text "go rust")) doc
    ]
match_docs_tokens_lem_example =
    match_docs_tokens_lem indexed_once books title (text "go rust") one indexed_once-Reaches

indexed_once-source : get_source indexed_once books one ≡ some first_doc
unfolding text_eq
indexed_once-source = get_source-index_doc books one first_doc new_engine books one

abbrev sorted_calls : List Call
sorted_calls =
    upserts books title (text "b") one
    ∷ upserts books title (text "a") (text "2")
    ∷ removes books one
    ∷ []

abbrev low : SortedEntry
low = record { value = text "a"; doc_id = one }

abbrev high : SortedEntry
high = record { value = text "c"; doc_id = text "2" }

abbrev sorted_cache : SortedCache
sorted_cache = (books, (title, low ∷ high ∷ []) ∷ []) ∷ []

abbrev range : Range
range = record { gte = some (text "b"); lte = none; gt = none; lt = none }

entries-IsSorted : go_es.Search.SortedIndex.Order.IsSorted (low ∷ high ∷ [])
unfolding go_es.Search.SortedIndex.entry_lt text_lt
entries-IsSorted = ((refl, tt), (tt, tt))

range_entries_iff_example : (contains (text "2") (range_entries range (low ∷ high ∷ [])) ≡ true) ↔ (
    (j : ℕ) × (e : SortedEntry) × (get_elem? (low ∷ high ∷ []) j ≡ some e)
    × (e.doc_id ≡ text "2")
    × (above range e.value ≡ true)
    × (below range e.value ≡ true))
range_entries_iff_example = range_entries_iff range (low ∷ high ∷ []) (text "2") entries-IsSorted

abbrev terms : Items
terms = cons (scalar (string (text "go"))) (cons (scalar (string (text "rust"))) nil)

abbrev sentence : List Text
sentence = text "the" ∷ text "go" ∷ text "book" ∷ []

abbrev phrase : List Text
phrase = text "go" ∷ text "book" ∷ []

contains_phrase_iff_example : (contains_phrase sentence phrase ≡ true) ↔ (
    (before : List Text) × (after : List Text) × (p : Text) × (rest : List Text) × (phrase
      ≡ p ∷ rest)
    × (sentence ≡ before ++ phrase ++ after))
contains_phrase_iff_example = contains_phrase_iff sentence phrase

abbrev no_text_queries : TextQueries
no_text_queries = record {
  multi_match = λ e i m. hits [];
  query_string = λ e i m. hits [];
  simple_query_string = λ e i m. fails [];
}

-- Two documents, each with a word of its own.
abbrev two_words : Engine
two_words = record new_engine {
  docs = (books, (one, []) ∷ (text "2", []) ∷ []) ∷ [];
  inverted = (books, (title, (text "go", one ∷ []) ∷ (text "rust", text "2" ∷ []) ∷ []) ∷ []) ∷ [];
}

abbrev by_word : Text → Fields
by_word word = field (text "term") (object (field title (scalar (string word)) end)) end

abbrev must_both : Fields
must_both =
    field (text "must")
      (array (cons (object (by_word (text "go"))) (cons (object (by_word (text "rust"))) nil))) end

go_found : eval_query_map no_text_queries two_words books (by_word (text "go")) ≡ hits (one ∷ [])
unfolding eval_query_map eval_term term_value match_docs as_value stringify lookup sub text_eq
    present get
go_found = refl

rust_found :
    eval_query_map no_text_queries two_words books (by_word (text "rust")) ≡ hits (text "2" ∷ [])
unfolding eval_query_map eval_term term_value match_docs as_value stringify lookup sub text_eq
    present get
rust_found = refl

-- Both documents meet a `must` that neither meets in full.
both_found : eval_bool no_text_queries two_words books must_both ≡ hits (one ∷ text "2" ∷ [])
unfolding eval_bool eval_term term_value match_docs as_value stringify lookup sub text_eq present
    get contains intersect keys union add
both_found = refl

-- A clause `{"match_all": {}}` is passed over as an empty map, and matches nothing.
match_all_found :
    eval_bool no_text_queries two_words books (
      field
        (text "must")
        (array (cons (object (field (text "match_all") (object end) end)) nil))
        end)
    ≡ hits []
unfolding eval_bool eval_term lookup sub text_eq present get contains intersect keys union
match_all_found = refl

eval_bool_lem_example :
    contains one (one ∷ text "2" ∷ [])
    ≡ meets
        (λ key. section_holds no_text_queries two_words books key must_both one)
        (contains one (all_ids two_words books))
eval_bool_lem_example =
    eval_bool_lem no_text_queries two_words books must_both (one ∷ text "2" ∷ []) one both_found

range_query_iff_example :
    (contains one (range_query indexed_once.sorted_cache books title range) ≡ true) ↔ (
      (v : Text) × (stored_value indexed_once books title (record { value = v; doc_id = one })
        ≡ true)
      × (above range v ≡ true)
      × (below range v ≡ true))
range_query_iff_example = range_query_iff indexed_once books title range one indexed_once-Reaches

abbrev scored : List go_es.Search.Scorer.Frequencies.Call
scored =
    posts books title one (text "go" ∷ text "go" ∷ [])
    ∷ posts books title (text "2") (text "go" ∷ [])
    ∷ unposts books title one (text "go" ∷ text "go" ∷ [])
    ∷ []

run-new_scorer-IsCounted_example : IsCounted (go_es.Search.Scorer.Frequencies.run new_scorer scored)
run-new_scorer-IsCounted_example = run-new_scorer-IsCounted scored
