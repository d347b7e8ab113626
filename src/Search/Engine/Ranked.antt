-- ===== src/Search/Engine/Ranked.antt =====
-- internal/search/engine.go: the sorted index and the stored documents say the same, so that a range
-- query on the sorted index finds documents by their stored values.
use go_es.Prelude.{
  ◌≡◌, refl, sym, ap, subst, ◌∙◌, inl, inr, Bool, false, not, ◌&&◌, ◌||◌, none, some, [], ◌∷◌,
  arith, ◌==◌, Text, text_Comparable, text_eq_iff, Option-cases,
}
use go_es.Prelude.Maps.{insert, sub, lookup}
use go_es.Search.Value.{Value, value_of}
use go_es.Search.SortedIndex.{
  SortedEntry, SortedCache, entries_of, fields_of, upsert_value, remove_doc_value,
}
use go_es.Search.SortedIndex.Order.{holds}
use go_es.Search.SortedIndex.Contents.{
  upserts, removes, drops, step, AllSorted, step-AllSorted, empty-AllSorted, holds-step,
}
use go_es.Search.Engine.{
  Engine, Doc, new_engine, index_doc, index_fields, index_field, sort_field, unindex_fields,
  unindex_field, get_source, delete_doc, forget, create_index, delete_index, with_index,
}
use go_es.Search.Engine.Exact.{
  Reaches, start, indexes, deletes, creates, drops as drops_index, get_source-index_doc,
  get_source-delete_doc, get_source-create_index, get_source-delete_index,
}

-- Whether the document has the field with a value of the given key.
unfoldable pub valued : Text → Text → Doc → Bool
valued f v [] = false
valued f v ((field, raw) ∷ fields) =
    (field == f && elim (value_of raw) [ none ↦ false | some w ↦ w == v ]) || valued f v fields

abbrev pub stored_value : Engine → Text → Text → SortedEntry → Bool
stored_value e i f x = elim (get_source e i x.doc_id) [
  | none ↦ false
  | some doc ↦ valued f x.value doc
]

-- The sorted index of a field has exactly the pairs of stored documents and their values, in order.
pub record IsRanked (e : Engine) : Type 0 where
  pub exact :
      (i f : Text) (x : SortedEntry)
      → holds x (entries_of e.sorted_cache i f) ≡ stored_value e i f x
  pub sorted : AllSorted e.sorted_cache

held : Engine → Text → Text → SortedEntry → Bool
held e i f x = holds x (entries_of e.sorted_cache i f)

held-sort_field :
    (index id field : Text) (raw : Value) (e : Engine) (i f : Text) (x : SortedEntry)
    → held (sort_field index id field raw e) i f x ≡ (
        held e i f x
        || ((index == i && id == x.doc_id)
            && (field == f && elim (value_of raw) [ none ↦ false | some w ↦ w == x.value ])))
unfolding sort_field held step
held-sort_field index id field raw e i f x = elim (Option-cases (value_of raw)) [
  | inl h ↦ ground arith
  | inr (v, h) ↦
      let held_after = (holds-step e.sorted_cache i f x).0 index field v id in ground arith
]

held-index_field :
    (index id field : Text) (raw : Value) (e : Engine) (i f : Text) (x : SortedEntry)
    → held (index_field index id field raw e) i f x ≡ held e i f x
unfolding index_field held
held-index_field index id field raw e i f x = refl

held-index_fields :
    (index id : Text) (doc : Doc) (e : Engine) (i f : Text) (x : SortedEntry)
    → held (index_fields index id doc e) i f x
      ≡ (held e i f x || ((index == i && id == x.doc_id) && valued f x.value doc))
unfolding index_fields valued
held-index_fields index id [] e i f x = ground arith
held-index_fields index id ((field, raw) ∷ fields) e i f x =
    let filed = index_field index id field raw e in
    let first = held-sort_field index id field raw filed i f x in
    let same = held-index_field index id field raw e i f x in
    let rest = held-index_fields index id fields (sort_field index id field raw filed) i f x in
    ground arith

sort_field-AllSorted :
    (index id field : Text) (raw : Value) (e : Engine)
    → AllSorted e.sorted_cache
    → AllSorted (sort_field index id field raw e).sorted_cache
unfolding sort_field step
sort_field-AllSorted index id field raw e s = elim (Option-cases (value_of raw)) [
  | inl h ↦
      let same : (sort_field index id field raw e).sorted_cache ≡ e.sorted_cache = ground arith in
      subst AllSorted (sym same) s
  | inr (v, h) ↦
      let same : (sort_field index id field raw e).sorted_cache
          ≡ upsert_value e.sorted_cache index field v id =
        ground arith in
      subst AllSorted (sym same) (step-AllSorted e.sorted_cache (upserts index field v id) s)
]

index_fields-AllSorted :
    (index id : Text) (doc : Doc) (e : Engine)
    → AllSorted e.sorted_cache
    → AllSorted (index_fields index id doc e).sorted_cache
unfolding index_fields index_field
index_fields-AllSorted index id [] e s = s
index_fields-AllSorted index id ((field, raw) ∷ fields) e s =
    index_fields-AllSorted index id fields
      (sort_field index id field raw (index_field index id field raw e))
      (sort_field-AllSorted index id field raw (index_field index id field raw e) s)

sorted_cache-unindex_field :
    (index id field : Text) (raw : Value) (e : Engine)
    → (unindex_field index id field raw e).sorted_cache ≡ e.sorted_cache
unfolding unindex_field
sorted_cache-unindex_field index id field raw e = ground arith

sorted_cache-unindex_fields :
    (index id : Text) (doc : Doc) (e : Engine)
    → (unindex_fields index id doc e).sorted_cache ≡ e.sorted_cache
unfolding unindex_fields
sorted_cache-unindex_fields index id [] e = refl
sorted_cache-unindex_fields index id ((field, raw) ∷ fields) e =
    sorted_cache-unindex_fields index id fields (unindex_field index id field raw e)
    ∙ sorted_cache-unindex_field index id field raw e

sorted_cache-delete_doc :
    (index id : Text) (doc : Doc) (e : Engine)
    → get_source e index id ≡ some doc
    → (delete_doc index id e).sorted_cache ≡ remove_doc_value e.sorted_cache index id
unfolding delete_doc forget
sorted_cache-delete_doc index id doc e h =
    let kept = sorted_cache-unindex_fields index id doc e in ground arith

new_engine-IsRanked : IsRanked new_engine
unfolding holds get_source entries_of fields_of sub lookup
new_engine-IsRanked = record { exact = λ i f x. refl; sorted = empty-AllSorted }

index_doc-IsRanked :
    (index id : Text) (doc : Doc) (e : Engine)
    → get_source e index id ≡ none
    → IsRanked e
    → IsRanked (index_doc index id doc e)
unfolding index_doc held
index_doc-IsRanked index id doc e fresh r = record {
  exact = λ i f x. ground (
    arith,
    text_eq_iff index i,
    text_eq_iff id x.doc_id,
    held-index_fields index id doc opened i f x,
    get_source-index_doc index id doc e i x.doc_id,
    r.exact i f x,
  );
  sorted = index_fields-AllSorted index id doc opened r.sorted;
}
  where
    opened : Engine
    opened = record e {
      docs = insert index (insert id doc (sub index e.docs)) e.docs;
      inverted = with_index index e.inverted;
    }

delete_doc_missing :
    (index id : Text) (e : Engine) → get_source e index id ≡ none → delete_doc index id e ≡ e
unfolding delete_doc
delete_doc_missing index id e h = ground arith

holds-removed :
    (c : SortedCache) (index id i f : Text) (x : SortedEntry)
    → holds x (entries_of (remove_doc_value c index id) i f)
      ≡ (not (index == i && x.doc_id == id) && holds x (entries_of c i f))
unfolding step
holds-removed c index id i f x = (holds-step c i f x).1 index id

removed-AllSorted :
    (c : SortedCache) (index id : Text) → AllSorted c → AllSorted (remove_doc_value c index id)
unfolding step
removed-AllSorted c index id s = step-AllSorted c (removes index id) s

delete_doc-IsRanked : (index id : Text) (e : Engine) → IsRanked e → IsRanked (delete_doc index id e)
delete_doc-IsRanked index id e r = elim (Option-cases (get_source e index id)) [
  | inl h ↦ subst IsRanked (sym (delete_doc_missing index id e h)) r
  | inr (doc, h) ↦
      let cache = sorted_cache-delete_doc index id doc e h in
      record {
        exact = λ i f x.
            ap (λ c. holds x (entries_of c i f)) cache
            ∙ ground (
              arith,
              text_eq_iff index i,
              text_eq_iff x.doc_id id,
              text_eq_iff id x.doc_id,
              holds-removed e.sorted_cache index id i f x,
              get_source-delete_doc index id e i x.doc_id,
              r.exact i f x,
            );
        sorted = subst AllSorted (sym cache) (removed-AllSorted e.sorted_cache index id r.sorted);
      }
]

create_index-IsRanked : (index : Text) (e : Engine) → IsRanked e → IsRanked (create_index index e)
unfolding create_index
create_index-IsRanked index e r = record {
  exact = λ i f x. ground (arith, get_source-create_index index e i x.doc_id, r.exact i f x);
  sorted = r.sorted;
}

delete_index-IsRanked : (index : Text) (e : Engine) → IsRanked e → IsRanked (delete_index index e)
unfolding delete_index step
delete_index-IsRanked index e r = record {
  exact = λ i f x.
      let dropped = (holds-step e.sorted_cache i f x).2 index in
      ground
        (arith, text_eq_iff index i, get_source-delete_index index e i x.doc_id, r.exact i f x);
  sorted = step-AllSorted e.sorted_cache (drops index) r.sorted;
}

pub Reaches-IsRanked : {e : Engine} → Reaches e → IsRanked e
Reaches-IsRanked start = new_engine-IsRanked
Reaches-IsRanked (indexes {e} r index id doc fresh) =
    index_doc-IsRanked index id doc e fresh (Reaches-IsRanked r)
Reaches-IsRanked (deletes {e} r index id) = delete_doc-IsRanked index id e (Reaches-IsRanked r)
Reaches-IsRanked (creates {e} r index) = create_index-IsRanked index e (Reaches-IsRanked r)
Reaches-IsRanked (drops_index {e} r index) = delete_index-IsRanked index e (Reaches-IsRanked r)
