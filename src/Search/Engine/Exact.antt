-- ===== src/Search/Engine/Exact.antt =====
-- internal/search/engine.go: the posting sets and the stored documents say the same.
use go_es.Prelude.{
  ◌≡◌, refl, inl, inr, Bool, false, none, some, [], ◌∷◌, arith, ◌==◌, ◌&&◌, ◌||◌, Text,
  text_Comparable, text_eq_iff, Option-cases, if◌then◌else◌,
}
use go_es.Prelude.Maps.{
  insert, delete, sub, lookup, lookup-insert, lookup-delete, sub-insert, sub-delete,
}
use go_es.Search.Value.{Value}
use go_es.Search.Engine.{
  Engine, Doc, new_engine, index_doc, index_fields, index_field, sort_field, unindex_fields,
  unindex_field, get_source, delete_doc, forget, create_index, delete_index, with_index,
}
use go_es.Search.Engine.Postings.{
  posted, in_fields, posted-index_doc, posted-delete_doc, posted-with_index,
}

-- Whether the stored document has the term in the field.
abbrev pub stored_under : Engine → Text → Text → Text → Text → Bool
stored_under e i f tok d = elim (get_source e i d) [ none ↦ false | some doc ↦ in_fields f tok doc ]

-- A document is in a posting set exactly when its stored source has the term.
unfoldable pub IsExact : Engine → Type 0
IsExact e = (i f tok d : Text) → posted e.inverted i f tok d ≡ stored_under e i f tok d

-- The engines that a history reaches in which no stored id is indexed again.
pub data Reaches : Engine → Type 0 where
  start : Reaches new_engine
  indexes :
      {e : Engine}
      → Reaches e
      → (index id : Text) (doc : Doc) → get_source e index id ≡ none
      → Reaches (index_doc index id doc e)
  deletes : {e : Engine} → Reaches e → (index id : Text) → Reaches (delete_doc index id e)
  creates : {e : Engine} → Reaches e → (index : Text) → Reaches (create_index index e)
  drops : {e : Engine} → Reaches e → (index : Text) → Reaches (delete_index index e)

docs-sort_field :
    (index id field : Text) (raw : Value) (e : Engine)
    → (sort_field index id field raw e).docs ≡ e.docs
unfolding sort_field
docs-sort_field index id field raw e = ground arith

docs-index_field :
    (index id field : Text) (raw : Value) (e : Engine)
    → (index_field index id field raw e).docs ≡ e.docs
unfolding index_field
docs-index_field index id field raw e = refl

docs-index_fields :
    (index id : Text) (doc : Doc) (e : Engine) → (index_fields index id doc e).docs ≡ e.docs
unfolding index_fields
docs-index_fields index id [] e = refl
docs-index_fields index id ((field, raw) ∷ fields) e =
    let rest =
      docs-index_fields index id fields
        (sort_field index id field raw (index_field index id field raw e)) in
    let sorted = docs-sort_field index id field raw (index_field index id field raw e) in
    let filed = docs-index_field index id field raw e in cc

docs-unindex_field :
    (index id field : Text) (raw : Value) (e : Engine)
    → (unindex_field index id field raw e).docs ≡ e.docs
unfolding unindex_field
docs-unindex_field index id field raw e = ground arith

docs-unindex_fields :
    (index id : Text) (doc : Doc) (e : Engine) → (unindex_fields index id doc e).docs ≡ e.docs
unfolding unindex_fields
docs-unindex_fields index id [] e = refl
docs-unindex_fields index id ((field, raw) ∷ fields) e =
    let rest = docs-unindex_fields index id fields (unindex_field index id field raw e) in
    let first = docs-unindex_field index id field raw e in cc

-- Reading after a write or a deletion.
pub get_source-index_doc :
    (index id : Text) (doc : Doc) (e : Engine) (i d : Text)
    → get_source (index_doc index id doc e) i d
      ≡ (if index == i && id == d then some doc else get_source e i d)
unfolding get_source index_doc
get_source-index_doc index id doc e i d =
    let kept = docs-index_fields index id doc (record e {
      docs = insert index (insert id doc (sub index e.docs)) e.docs;
      inverted = with_index index e.inverted;
    }) in
    ground (
      arith,
      text_eq_iff index i,
      text_eq_iff id d,
      sub-insert index i (insert id doc (sub index e.docs)) e.docs,
      lookup-insert id d doc (sub index e.docs),
    )

pub get_source-delete_doc :
    (index id : Text) (e : Engine) (i d : Text)
    → get_source (delete_doc index id e) i d
      ≡ (if index == i && id == d then none else get_source e i d)
unfolding get_source delete_doc forget
get_source-delete_doc index id e i d = elim (Option-cases (lookup id (sub index e.docs))) [
  | inl h ↦ ground (arith, text_eq_iff index i, text_eq_iff id d)
  | inr (doc, h) ↦
      let kept = docs-unindex_fields index id doc e in
      ground (
        arith,
        text_eq_iff index i,
        text_eq_iff id d,
        sub-insert index i (delete id (sub index e.docs)) e.docs,
        lookup-delete id d (sub index e.docs),
      )
]

pub get_source-create_index :
    (index : Text) (e : Engine) (i d : Text)
    → get_source (create_index index e) i d ≡ get_source e i d
unfolding get_source create_index
get_source-create_index index e i d =
    ground (arith, text_eq_iff index i, sub-insert index i (sub index e.docs) e.docs)

pub get_source-delete_index :
    (index : Text) (e : Engine) (i d : Text)
    → get_source (delete_index index e) i d ≡ (if index == i then none else get_source e i d)
unfolding get_source delete_index lookup
get_source-delete_index index e i d = ground (arith, text_eq_iff index i, sub-delete index i e.docs)

posted-delete_index :
    (index : Text) (e : Engine) (i f tok d : Text)
    → posted (delete_index index e).inverted i f tok d
      ≡ (if index == i then false else posted e.inverted i f tok d)
unfolding posted delete_index sub lookup
posted-delete_index index e i f tok d =
    ground (arith, text_eq_iff index i, lookup-delete index i e.inverted)

posted-create_index :
    (index : Text) (e : Engine) (i f tok d : Text)
    → posted (create_index index e).inverted i f tok d ≡ posted e.inverted i f tok d
unfolding create_index
posted-create_index index e i f tok d = posted-with_index index e.inverted i f tok d

start-IsExact : IsExact new_engine
unfolding IsExact posted get_source sub lookup
start-IsExact i f tok d = refl

index_doc-IsExact :
    (index id : Text) (doc : Doc) (e : Engine)
    → get_source e index id ≡ none
    → IsExact e
    → IsExact (index_doc index id doc e)
unfolding IsExact
index_doc-IsExact index id doc e fresh exact i f tok d = ground (
  arith,
  text_eq_iff index i,
  text_eq_iff id d,
  posted-index_doc index id doc e i f tok d,
  get_source-index_doc index id doc e i d,
  exact i f tok d,
)

delete_doc-IsExact : (index id : Text) (e : Engine) → IsExact e → IsExact (delete_doc index id e)
unfolding IsExact delete_doc
delete_doc-IsExact index id e exact i f tok d = elim (Option-cases (get_source e index id)) [
  | inl h ↦ let same : delete_doc index id e ≡ e = ground arith in rw (same) (exact i f tok d)
  | inr (doc, h) ↦ ground (
    arith,
    text_eq_iff index i,
    text_eq_iff id d,
    posted-delete_doc index id doc e i f tok d h,
    get_source-delete_doc index id e i d,
    exact i f tok d,
  )
]

create_index-IsExact : (index : Text) (e : Engine) → IsExact e → IsExact (create_index index e)
unfolding IsExact
create_index-IsExact index e exact i f tok d = ground (
  arith,
  posted-create_index index e i f tok d,
  get_source-create_index index e i d,
  exact i f tok d,
)

delete_index-IsExact : (index : Text) (e : Engine) → IsExact e → IsExact (delete_index index e)
unfolding IsExact
delete_index-IsExact index e exact i f tok d = ground (
  arith,
  posted-delete_index index e i f tok d,
  get_source-delete_index index e i d,
  exact i f tok d,
)

-- After any history of index creations, document writes, deletions and index deletions that never
-- indexes a stored id again, a document is in the posting set of a term of a field exactly when its
-- stored source has the field with a value filed under the term.
pub Reaches-IsExact : {e : Engine} → Reaches e → IsExact e
Reaches-IsExact start = start-IsExact
Reaches-IsExact (indexes {e} r index id doc fresh) =
    index_doc-IsExact index id doc e fresh (Reaches-IsExact r)
Reaches-IsExact (deletes {e} r index id) = delete_doc-IsExact index id e (Reaches-IsExact r)
Reaches-IsExact (creates {e} r index) = create_index-IsExact index e (Reaches-IsExact r)
Reaches-IsExact (drops {e} r index) = delete_index-IsExact index e (Reaches-IsExact r)

-- Indexing a stored id again, without deleting it first, leaves the document in the posting sets of
-- both versions of its source, though only the new source is stored.
pub reindex_keeps_stale :
    (e : Engine) (index id : Text) (old doc : Doc) (f tok : Text)
    → Reaches e
    → get_source e index id ≡ some old
    → (get_source (index_doc index id doc e) index id ≡ some doc)
      × (posted (index_doc index id doc e).inverted index f tok id
          ≡ (in_fields f tok old || in_fields f tok doc))
unfolding IsExact
reindex_keeps_stale e index id old doc f tok r h = (
  ground (
    arith,
    text_eq_iff index index,
    text_eq_iff id id,
    get_source-index_doc index id doc e index id,
  ),
  ground (
    arith,
    text_eq_iff index index,
    text_eq_iff id id,
    posted-index_doc index id doc e index f tok id,
    Reaches-IsExact r index f tok id,
  ),
)
