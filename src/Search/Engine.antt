-- ===== src/Search/Engine.antt =====
-- internal/search/engine.go: the in-memory engine: documents, the inverted index, the sorted index and
-- the scorer. Token persistence (persistence.go) is left out: `index_doc` and `delete_doc` are the
-- in-memory parts of `IndexDoc` and `DeleteDoc`. The order in which Go ranges over a map is the order
-- of the list.
pub mod Postings
pub mod Exact
pub mod Ranked
pub mod Matches
pub mod Ranges
use go_es.Prelude.{
  ℕ, Bool, true, false, Option, none, some, List, [], ◌∷◌, ◌++◌, if◌then◌else◌, ◌==◌, Text,
  text_Comparable, map, length,
}
use go_es.Prelude.Maps.{Map, lookup, insert, delete, sub}
use go_es.Prelude.Sets.{contains, add, remove}
use go_es.Search.Value.{Value, string, value_of, stringify, tokenize}
use go_es.Search.SortedIndex.{SortedCache, upsert_value, remove_index, remove_doc_value}
use go_es.Search.Scorer.{Scorer, new_scorer, on_index_doc, on_delete_doc, on_delete_index}

-- A document's source: field to value.
abbrev pub Doc : Type 0
Doc = Map Text Value

-- The posting sets of a field, by term.
abbrev pub Terms : Type 0
Terms = Map Text (List Text)

abbrev pub Inverted : Type 0
Inverted = Map Text (Map Text Terms)

pub record Engine : Type 0 where
  pub docs : Map Text (Map Text Doc)
  pub inverted : Inverted
  pub sorted_cache : SortedCache
  pub scorer : Scorer

abbrev pub new_engine : Engine
new_engine = record { docs = []; inverted = []; sorted_cache = []; scorer = new_scorer }

-- The terms under which a value is filed: the tokens of a string, or the one term of another value.
unfoldable pub terms_of : Value → List Text
terms_of v = elim v [ string s ↦ tokenize s | other' ↦ stringify other' ∷ [] ]

-- The document enters the set of each term.
unfoldable pub file_terms : Text → List Text → Terms → Terms
file_terms id [] terms = terms
file_terms id (tok ∷ toks) terms =
    file_terms id toks
      (insert tok (add id (elim (lookup tok terms) [ none ↦ [] | some ids ↦ ids ])) terms)

abbrev pub inform : Scorer → Text → Text → Text → Value → Scorer
inform scorer index field id v = elim v [
  | string s ↦ on_index_doc scorer index field id (tokenize s)
  | other' ↦ scorer
]

unfoldable pub index_field : Text → Text → Text → Value → Engine → Engine
unfolding file_terms
index_field index id field raw e = record e {
  inverted =
      insert index
        (insert field (file_terms id (terms_of raw) (sub field (sub index e.inverted)))
          (sub index e.inverted))
        e.inverted;
  scorer = inform e.scorer index field id raw;
}

unfoldable pub sort_field : Text → Text → Text → Value → Engine → Engine
sort_field index id field raw e = elim (value_of raw) [
  | none ↦ e
  | some v ↦ record e { sorted_cache = upsert_value e.sorted_cache index field v id }
]

-- The loop over the fields of the document.
unfoldable pub index_fields : Text → Text → Doc → Engine → Engine
index_fields index id [] e = e
index_fields index id ((field, raw) ∷ fields) e =
    index_fields index id fields (sort_field index id field raw (index_field index id field raw e))

-- An index without postings gets an empty map.
abbrev pub with_index : Text → Inverted → Inverted
with_index index inverted = insert index (sub index inverted) inverted

-- `indexDocInMemory`
unfoldable pub index_doc : Text → Text → Doc → Engine → Engine
index_doc index id doc e = index_fields index id doc (record e {
  docs = insert index (insert id doc (sub index e.docs)) e.docs;
  inverted = with_index index e.inverted;
})

-- The document leaves the set of each term; an empty set goes.
unfoldable pub unfile_term : Text → Text → Terms → Terms
unfile_term id tok terms = elim (lookup tok terms) [
  | none ↦ terms
  | some ids ↦ elim (remove id ids) [
    | [] ↦ delete tok terms
    | x ∷ rest ↦ insert tok (x ∷ rest) terms
  ]
]

unfoldable pub unfile_terms : Text → List Text → Terms → Terms
unfile_terms id [] terms = terms
unfile_terms id (tok ∷ toks) terms = unfile_terms id toks (unfile_term id tok terms)

abbrev pub retract : Scorer → Text → Text → Text → Value → Scorer
retract scorer index field id v = elim v [
  | string s ↦ on_delete_doc scorer index field id (tokenize s)
  | other' ↦ scorer
]

-- Nothing happens, for the scorer either, if the field has no postings.
unfoldable pub unindex_field : Text → Text → Text → Value → Engine → Engine
unfolding unfile_terms
unindex_field index id field raw e = elim (lookup field (sub index e.inverted)) [
  | none ↦ e
  | some terms ↦ record e {
    inverted =
        insert index (insert field (unfile_terms id (terms_of raw) terms) (sub index e.inverted))
          e.inverted;
    scorer = retract e.scorer index field id raw;
  }
]

unfoldable pub unindex_fields : Text → Text → Doc → Engine → Engine
unindex_fields index id [] e = e
unindex_fields index id ((field, raw) ∷ fields) e =
    unindex_fields index id fields (unindex_field index id field raw e)

unfoldable pub get_source : Engine → Text → Text → Option Doc
get_source e index id = lookup id (sub index e.docs)

forget : Text → Text → Engine → Engine
forget index id e = record e {
  docs = insert index (delete id (sub index e.docs)) e.docs;
  sorted_cache = remove_doc_value e.sorted_cache index id;
}

-- `deleteDocInMemory`
unfoldable pub delete_doc : Text → Text → Engine → Engine
unfolding forget
delete_doc index id e = elim (get_source e index id) [
  | none ↦ e
  | some doc ↦ forget index id (unindex_fields index id doc e)
]

unfoldable pub match_docs : Engine → Text → Text → Text → List Text
match_docs e index field value = elim (lookup value (sub field (sub index e.inverted))) [
  | none ↦ []
  | some ids ↦ ids
]

unfoldable pub union : List Text → List Text → List Text
union [] out = out
union (id ∷ ids) out = union ids (add id out)

unfoldable pub match_each : Engine → Text → Text → List Text → List Text → List Text
match_each e index field [] out = out
match_each e index field (tok ∷ toks) out =
    match_each e index field toks (union (match_docs e index field tok) out)

unfoldable pub match_docs_tokens : Engine → Text → Text → Text → List Text
match_docs_tokens e index field value = match_each e index field (tokenize value) []

unfoldable pub term_value : Engine → Text → Text → Value → List Text
term_value e index field value = match_docs e index field (stringify value)

unfoldable pub keys {ℓ} : {V : Type ℓ} → Map Text V → List Text
keys [] = []
keys ((k, v) ∷ m) = k ∷ keys m

unfoldable pub all_ids : Engine → Text → List Text
all_ids e index = keys (sub index e.docs)

unfoldable pub create_index : Text → Engine → Engine
create_index index e = record e {
  docs = insert index (sub index e.docs) e.docs;
  inverted = with_index index e.inverted;
}

unfoldable pub delete_index : Text → Engine → Engine
delete_index index e = record {
  docs = delete index e.docs;
  inverted = delete index e.inverted;
  sorted_cache = remove_index e.sorted_cache index;
  scorer = on_delete_index e.scorer index;
}

-- The copy that a segment flush takes.
unfoldable pub snapshot_index : Engine → Text → Map Text Terms
snapshot_index e index = sub index e.inverted

unfoldable pub add_all : List Text → List Text → List Text
add_all [] ids = ids
add_all (id ∷ more) ids = add_all more (add id ids)

-- The postings of a segment join the field's.
unfoldable pub load_terms : Terms → Terms → Terms
unfolding add_all
load_terms [] terms = terms
load_terms ((term, ids) ∷ postings) terms =
    load_terms postings
      (insert term (add_all ids (elim (lookup term terms) [ none ↦ [] | some old ↦ old ])) terms)

-- The engine, and the number of terms that were loaded.
unfoldable pub load_segment_postings : Text → Text → Terms → Engine → Engine × ℕ
unfolding load_terms
load_segment_postings index field postings e = (
  record e {
    inverted =
        insert index
          (insert field (load_terms postings (sub field (sub index e.inverted)))
            (sub index e.inverted))
          e.inverted;
  },
  length postings,
)
