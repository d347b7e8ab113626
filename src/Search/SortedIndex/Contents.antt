-- ===== src/Search/SortedIndex/Contents.antt =====
-- internal/search/sorted_index.go: what the cache holds after its operations.
use go_es.Prelude.{
  ℕ, zero, suc, ◌≡◌, refl, inl, inr, true, not, ◌&&◌, ◌||◌, none, some, List, [], ◌∷◌, ◌++◌,
  if◌then◌else◌, ◌==◌, Text, text_Comparable, text_eq_iff, All, take, drop, arith, Bool-cases,
  Option-cases, take-append-drop, subst,
}
use go_es.Prelude.Maps.{Map, lookup, insert, lookup-insert, lookup-delete}
use go_es.Search.SortedIndex.{
  SortedEntry, SortedCache, same_entry, position, stands_at, upsert, remove_doc, fields_of,
  entries_of, upsert_value, remove_index, remove_doc_fields, remove_doc_value,
}
use go_es.Search.SortedIndex.Order.{IsSorted, holds, same_entry_eq, upsert-IsSorted}

holds-append :
    (x : SortedEntry) (xs ys : List SortedEntry) → holds x (xs ++ ys) ≡ (holds x xs || holds x ys)
unfolding holds
holds-append x [] ys = refl
holds-append x (y ∷ xs) ys = ground (arith, holds-append x xs ys)

holds_of_stands_at :
    (e : SortedEntry) (k : ℕ) (es : List SortedEntry) → stands_at e es k ≡ true → holds e es ≡ true
unfolding holds
holds_of_stands_at e k [] h = cc
holds_of_stands_at e zero (x ∷ es) h = ground (arith, h)
holds_of_stands_at e (suc k) (x ∷ es) h = ground (arith, holds_of_stands_at e k es h)

-- `upsert` adds the pair, once, and keeps all others.
holds-upsert :
    (e x : SortedEntry) (es : List SortedEntry)
    → holds x (upsert e es) ≡ (same_entry e x || holds x es)
unfolding upsert holds
holds-upsert e x es = elim (Bool-cases (stands_at e es (position e es))) [
  | inl there ↦ rw there (elim (Bool-cases (same_entry e x)) [
    | inl same ↦
        let h : holds x es ≡ true =
          subst (λ y. holds y es ≡ true) (same_entry_eq e x same)
            (holds_of_stands_at e (position e es) es there) in
        ground (arith, same, h)
    | inr other ↦ ground (arith, other)
  ])
  | inr new ↦ rw new (
      ground (
        arith,
        holds-append x (take (position e es) es) (e ∷ drop (position e es) es),
        holds-append x (take (position e es) es) (drop (position e es) es),
        take-append-drop (position e es) es,
      ))
]

holds-remove_doc :
    (doc_id : Text) (x : SortedEntry) (es : List SortedEntry)
    → holds x (remove_doc doc_id es) ≡ (not (x.doc_id == doc_id) && holds x es)
unfolding remove_doc holds
holds-remove_doc doc_id x [] = ground arith
holds-remove_doc doc_id x (e ∷ es) = ground (
  arith,
  text_eq_iff e.doc_id doc_id,
  text_eq_iff x.doc_id doc_id,
  text_eq_iff e.doc_id x.doc_id,
  holds-remove_doc doc_id x es,
)

remove_doc-All :
    (P : SortedEntry → Type 0) (doc_id : Text) (es : List SortedEntry)
    → All P es
    → All P (remove_doc doc_id es)
unfolding remove_doc
remove_doc-All P doc_id [] h = tt
remove_doc-All P doc_id (e ∷ es) h = elim (Bool-cases (e.doc_id == doc_id)) [
  | inl q ↦ rw q (remove_doc-All P doc_id es h.1)
  | inr q ↦ rw q (h.0, remove_doc-All P doc_id es h.1)
]

remove_doc-IsSorted :
    (doc_id : Text) (es : List SortedEntry) → IsSorted es → IsSorted (remove_doc doc_id es)
unfolding remove_doc
remove_doc-IsSorted doc_id [] s = tt
remove_doc-IsSorted doc_id (e ∷ es) s = elim (Bool-cases (e.doc_id == doc_id)) [
  | inl q ↦ rw q (remove_doc-IsSorted doc_id es s.1)
  | inr q ↦ rw q (remove_doc-All _ doc_id es s.0, remove_doc-IsSorted doc_id es s.1)
]

lookup-remove_doc_fields :
    (doc_id field : Text) (fields : Map Text (List SortedEntry))
    → lookup field (remove_doc_fields doc_id fields)
      ≡ elim (lookup field fields) [ none ↦ none | some es ↦ some (remove_doc doc_id es) ]
unfolding remove_doc_fields lookup
lookup-remove_doc_fields doc_id field [] = refl
lookup-remove_doc_fields doc_id field ((f, es) ∷ fields) =
    ground (arith, lookup-remove_doc_fields doc_id field fields)

-- The entries of a field after each operation of the cache.
entries_of-upsert_value :
    (c : SortedCache) (index field value doc_id i f : Text)
    → entries_of (upsert_value c index field value doc_id) i f ≡ (
        if index == i && field == f
        then upsert (record { value = value; doc_id = doc_id }) (entries_of c index field)
        else entries_of c i f)
unfolding upsert_value
entries_of-upsert_value c index field value doc_id i f = ground (
  arith,
  text_eq_iff index i,
  text_eq_iff field f,
  lookup-insert index i (insert field new (fields_of c index)) c,
  lookup-insert field f new (fields_of c index),
)
  where
    new : List SortedEntry
    new = upsert (record { value = value; doc_id = doc_id }) (entries_of c index field)

entries_of-remove_doc_value :
    (c : SortedCache) (index doc_id i f : Text)
    → entries_of (remove_doc_value c index doc_id) i f
      ≡ (if index == i then remove_doc doc_id (entries_of c i f) else entries_of c i f)
unfolding remove_doc_value entries_of remove_doc lookup
entries_of-remove_doc_value c index doc_id i f = elim (Option-cases (lookup index c)) [
  | inl e ↦ ground (arith, text_eq_iff index i)
  | inr (fields, e) ↦ ground (
    arith,
    text_eq_iff index i,
    lookup-insert index i (remove_doc_fields doc_id fields) c,
    lookup-remove_doc_fields doc_id f fields,
  )
]

entries_of-remove_index :
    (c : SortedCache) (index i f : Text)
    → entries_of (remove_index c index) i f ≡ (if index == i then [] else entries_of c i f)
unfolding remove_index entries_of lookup
entries_of-remove_index c index i f = ground (arith, lookup-delete index i c)

-- A call on the cache.
pub data Call : Type 0 where
  upserts : Text → Text → Text → Text → Call
  removes : Text → Text → Call
  drops : Text → Call

unfoldable pub step : SortedCache → Call → SortedCache
step c (upserts index field value doc_id) = upsert_value c index field value doc_id
step c (removes index doc_id) = remove_doc_value c index doc_id
step c (drops index) = remove_index c index

pub run : SortedCache → List Call → SortedCache
run c [] = c
run c (call ∷ calls) = run (step c call) calls

unfoldable pub AllSorted : SortedCache → Type 0
AllSorted c = (i f : Text) → IsSorted (entries_of c i f)

pub step-AllSorted : (c : SortedCache) (call : Call) → AllSorted c → AllSorted (step c call)
unfolding step AllSorted
step-AllSorted c (upserts index field value doc_id) s i f =
    rw (entries_of-upsert_value c index field value doc_id i f)
      (elim (Bool-cases (index == i && field == f)) [
        | inl q ↦ rw q (upsert-IsSorted _ _ (s index field))
        | inr q ↦ rw q (s i f)
      ])
step-AllSorted c (removes index doc_id) s i f =
    rw (entries_of-remove_doc_value c index doc_id i f) (elim (Bool-cases (index == i)) [
      | inl q ↦ rw q (remove_doc-IsSorted doc_id (entries_of c i f) (s i f))
      | inr q ↦ rw q (s i f)
    ])
step-AllSorted c (drops index) s i f =
    rw (entries_of-remove_index c index i f)
      (elim (Bool-cases (index == i)) [ inl q ↦ rw q tt | inr q ↦ rw q (s i f) ])

run-AllSorted : (c : SortedCache) (calls : List Call) → AllSorted c → AllSorted (run c calls)
unfolding run
run-AllSorted c [] s = s
run-AllSorted c (call ∷ calls) s = run-AllSorted (step c call) calls (step-AllSorted c call s)

pub empty-AllSorted : AllSorted []
unfolding AllSorted entries_of lookup
empty-AllSorted i f = tt

-- After any calls on an empty cache every field's entries are strictly sorted by value and then by
-- document, so no pair is held twice.
pub run_empty-AllSorted :
    (calls : List Call) (i f : Text) → IsSorted (entries_of (run [] calls) i f)
unfolding AllSorted
run_empty-AllSorted calls i f = run-AllSorted [] calls empty-AllSorted i f

-- What a field holds after each operation: `upsert` adds the one pair to the one field, `removeDoc`
-- drops the document's pairs from every field of the index, `removeIndex` drops every pair of the
-- index; all other pairs stay.
pub holds-step :
    (c : SortedCache) (i f : Text) (x : SortedEntry)
    → ((index field value doc_id : Text)
        → holds x (entries_of (step c (upserts index field value doc_id)) i f) ≡ (
            ((index == i && field == f) && same_entry (record { value = value; doc_id = doc_id }) x)
            || holds x (entries_of c i f)))
      × ((index doc_id : Text)
          → holds x (entries_of (step c (removes index doc_id)) i f)
            ≡ (not (index == i && x.doc_id == doc_id) && holds x (entries_of c i f)))
      × ((index : Text)
          → holds x (entries_of (step c (drops index)) i f)
            ≡ (not (index == i) && holds x (entries_of c i f)))
unfolding step holds
holds-step c i f x = (
  λ index field value doc_id. ground (
    arith,
    text_eq_iff index i,
    text_eq_iff field f,
    entries_of-upsert_value c index field value doc_id i f,
    holds-upsert (record { value = value; doc_id = doc_id }) x (entries_of c index field),
  ),
  λ index doc_id. ground (
    arith,
    entries_of-remove_doc_value c index doc_id i f,
    holds-remove_doc doc_id x (entries_of c i f),
  ),
  λ index. ground (arith, entries_of-remove_index c index i f),
)
