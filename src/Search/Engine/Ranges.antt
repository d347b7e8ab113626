-- ===== src/Search/Engine/Ranges.antt =====
-- internal/search/engine.go: what a range query finds, by the stored documents.
use go_es.Prelude.{
  ◌+◌, ◌-◌, ℕ, zero, suc, ◌≡◌, ◌↔◌, refl, sym, ap, subst, ◌∙◌, inl, inr, true, some, List, [], ◌∷◌,
  arith, Text, text_Comparable, Option-cases, get_elem?, Bool-cases,
}
use go_es.Prelude.Maps.{lookup}
use go_es.Prelude.Sets.{contains}
use go_es.Search.SortedIndex.{
  collect, lower_bound, upper_bound, SortedEntry, SortedCache, Range, entries_of, fields_of,
  same_entry, range_entries, range_query,
}
use go_es.Search.SortedIndex.Order.{holds, same_entry_eq, same_entry_refl, IsSorted}
use go_es.Search.SortedIndex.Contents.{AllSorted}
use go_es.Search.SortedIndex.Ranges.{above, below, range_entries_iff}
use go_es.Search.Engine.{Engine}
use go_es.Search.Engine.Exact.{Reaches}
use go_es.Search.Engine.Ranked.{IsRanked, stored_value, Reaches-IsRanked}

holds_at :
    (es : List SortedEntry) (j : ℕ) (x : SortedEntry) → get_elem? es j ≡ some x → holds x es ≡ true
unfolding holds
holds_at [] j x h = cc
holds_at (e ∷ es) zero x h = ground (arith, same_entry_refl x)
holds_at (e ∷ es) (suc j) x h = ground (arith, holds_at es j x h)

position_of :
    (es : List SortedEntry) (x : SortedEntry)
    → holds x es ≡ true
    → (j : ℕ) × (get_elem? es j ≡ some x)
unfolding holds
position_of [] x h = absurd (ground arith)
position_of (e ∷ es) x h = elim (Bool-cases (same_entry e x)) [
  | inl q ↦ (0, ap (λ y. some y) (same_entry_eq e x q))
  | inr q ↦ let (j, g) = position_of es x (ground arith) in (suc j, g)
]

IsSorted-at : {e : Engine} → IsRanked e → (i f : Text) → IsSorted (entries_of e.sorted_cache i f)
unfolding AllSorted
IsSorted-at r i f = r.sorted i f

collect_empty : (n k : ℕ) → collect [] n k ≡ []
unfolding collect
collect_empty zero k = refl
collect_empty (suc n) k = collect_empty n (k + 1)

range_entries_empty : (r : Range) → range_entries r [] ≡ []
unfolding range_entries
range_entries_empty r = collect_empty (upper_bound r [] - lower_bound r []) (lower_bound r [])

range_query-entries :
    (c : SortedCache) (i f : Text) (r : Range)
    → range_query c i f r ≡ range_entries r (entries_of c i f)
unfolding range_query entries_of
range_query-entries c i f r = elim (Option-cases (lookup f (fields_of c i))) [
  | inl h ↦ ground (arith, range_entries_empty r)
  | inr (entries, h) ↦ ground arith
]

-- In an engine reached without indexing a stored id again, a range query on the sorted index finds
-- exactly the documents that are stored with a value of the field whose key lies within the bounds as
-- applied, where `gt` takes the place of `gte` and `lt` that of `lte`.
pub range_query_iff :
    (e : Engine) (i f : Text) (r : Range) (d : Text)
    → Reaches e
    → (contains d (range_query e.sorted_cache i f r) ≡ true) ↔ (
        (v : Text) × (stored_value e i f (record { value = v; doc_id = d }) ≡ true)
        × (above r v ≡ true)
        × (below r v ≡ true))
range_query_iff e i f r d reached = (found, finds)
  where
    es : List SortedEntry
    es = entries_of e.sorted_cache i f

    ranked : IsRanked e
    ranked = Reaches-IsRanked reached

    within : (contains d (range_entries r es) ≡ true) ↔ (
        (j : ℕ) × (x : SortedEntry) × (get_elem? es j ≡ some x)
        × (x.doc_id ≡ d)
        × (above r x.value ≡ true)
        × (below r x.value ≡ true))
    within = range_entries_iff r es d (IsSorted-at ranked i f)

    found :
        contains d (range_query e.sorted_cache i f r) ≡ true
        → (v : Text) × (stored_value e i f (record { value = v; doc_id = d }) ≡ true)
          × (above r v ≡ true)
          × (below r v ≡ true)
    found h =
        let (j, x, g, q, a, b) =
          within.0
            (subst (λ ids. contains d ids ≡ true) (range_query-entries e.sorted_cache i f r) h) in
        let stored : stored_value e i f x ≡ true = sym (ranked.exact i f x) ∙ holds_at es j x g in
        (
          x.value,
          subst (λ k. stored_value e i f (record { value = x.value; doc_id = k }) ≡ true) q stored,
          a,
          b,
        )

    finds :
        (v : Text) × (stored_value e i f (record { value = v; doc_id = d }) ≡ true)
          × (above r v ≡ true)
          × (below r v ≡ true)
        → contains d (range_query e.sorted_cache i f r) ≡ true
    finds (v, s, a, b) =
        let (j, g) =
          position_of es (record { value = v; doc_id = d })
            (ranked.exact i f (record { value = v; doc_id = d }) ∙ s) in
        subst (λ ids. contains d ids ≡ true) (sym (range_query-entries e.sorted_cache i f r))
          (within.1 (j, record { value = v; doc_id = d }, g, refl, a, b))
