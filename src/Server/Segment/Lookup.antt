-- ===== src/Server/Segment/Lookup.antt =====
-- internal/server/segment.go: what `SearchTerm` finds in the segments that flushes made.
use go_es.Prelude.{
  ℕ, ◌+◌, ◌*◌, ◌/◌, ◌%◌, ◌≡◌, refl, inl, inr, Bool, true, false, ◌&&◌, ◌||◌, some, List, [], ◌∷◌,
  arith, Text, text_Comparable, ◌==◌, length, ap, ◌∙◌, Option-cases, sym, if◌then◌else◌,
}
use go_es.Prelude.Maps.{lookup}
use go_es.Prelude.Sets.{contains}
use go_es.Search.Engine.{Terms, union}
use go_es.Search.Engine.Matches.{contains-union}
use go_es.Search.Engine.Postings.{filed}
use go_es.Server.Segment.{
  SegmentData, bit_count, new_bloom_filter, may_contain, reload, field_segment, search_segment,
  search_term, posted_ids,
}
use go_es.Server.Segment.Filter.{
  new_bloom_filter-IsSound, add_terms-sizes, may_contain-add_terms, length-zeros,
}

-- The filter's bits fill its words.
unfoldable pub FillsWords : Terms → Type 0
FillsWords terms = bit_count (length terms) % 64 ≡ 0

-- The segments of flushed fields.
unfoldable pub segments_of : List (Text × Terms) → List SegmentData
segments_of [] = []
segments_of ((field, terms) ∷ flushed) = field_segment field terms ∷ segments_of flushed

-- Whether one of the flushed fields has the document under the term.
unfoldable pub flushed_under : Text → Text → Text → List (Text × Terms) → Bool
flushed_under field term d [] = false
flushed_under field term d ((f, terms) ∷ flushed) =
    (f == field && filed term d terms) || flushed_under field term d flushed

unfoldable pub AllFillWords : List (Text × Terms) → Type 0
AllFillWords [] = Unit {0}
AllFillWords ((f, terms) ∷ flushed) = FillsWords terms × AllFillWords flushed

length-bits : (n : ℕ) → bit_count n % 64 ≡ 0 → length (new_bloom_filter n).bits ≡ bit_count n
unfolding new_bloom_filter
length-bits n h =
    let size = length-zeros ((bit_count n + 63) / 64 * 64) in
    let whole : (bit_count n + 63) / 64 * 64 ≡ bit_count n = omega arith in size ∙ whole

reload-field_segment :
    (field : Text) (terms : Terms)
    → FillsWords terms
    → reload (field_segment field terms).bloom ≡ (field_segment field terms).bloom
unfolding reload field_segment FillsWords new_bloom_filter
reload-field_segment field terms h =
    let (m, n) = add_terms-sizes terms (new_bloom_filter (length terms)) in
    let filled : length (field_segment field terms).bloom.bits
        ≡ (field_segment field terms).bloom.m =
      n ∙ length-bits (length terms) h ∙ sym m in
    λ i. record (field_segment field terms).bloom { m = filled i }

kept :
    (field term : Text) (terms : Terms) (ids : List Text)
    → FillsWords terms
    → lookup term terms ≡ some ids
    → may_contain (reload (field_segment field terms).bloom) term ≡ true
unfolding field_segment
kept field term terms ids h e =
    ap (λ b. may_contain b term) (reload-field_segment field terms h)
    ∙ may_contain-add_terms term terms (new_bloom_filter (length terms)) ids
        (new_bloom_filter-IsSound (length terms)) e

search_segment-field_segment :
    (field term f : Text) (terms : Terms) (out : List Text)
    → search_segment field term (field_segment f terms) out ≡ (
        if f == field && may_contain (reload (field_segment f terms).bloom) term
        then union (posted_ids term terms) out
        else out)
unfolding search_segment field_segment
search_segment-field_segment field term f terms out = refl

contains-search_segment :
    (field term d f : Text) (terms : Terms) (out : List Text)
    → FillsWords terms
    → contains d (search_segment field term (field_segment f terms) out)
      ≡ ((f == field && filed term d terms) || contains d out)
unfolding contains
contains-search_segment field term d f terms out h =
    let searched = search_segment-field_segment field term f terms out in
    elim (Option-cases (lookup term terms)) [
      | inl e ↦ ground (arith, contains-union [] out d)
      | inr (ids, e) ↦ ground (arith, kept f term terms ids h e, contains-union ids out d)
    ]

-- If the number of bits of the filter of every flushed field is a multiple of 64, the search of a
-- term in the stored segments finds exactly the documents that one of the segments of the field
-- has under the term, besides those found before.
pub search_term_lem :
    (flushed : List (Text × Terms)) (field term d : Text) (out : List Text)
    → AllFillWords flushed
    → contains d (search_term field term (segments_of flushed) out)
      ≡ (flushed_under field term d flushed || contains d out)
unfolding search_term segments_of flushed_under AllFillWords
search_term_lem [] field term d out h = refl
search_term_lem ((f, terms) ∷ flushed) field term d out (h, hs) =
    let rest =
      search_term_lem flushed field term d (search_segment field term (field_segment f terms) out)
        hs in
    let first = contains-search_segment field term d f terms out h in ground arith

-- The filter of a flushed field hashes modulo the number of bits chosen for its terms; once
-- stored and read back it hashes modulo that number rounded up to whole words.
pub reload_rounds_up :
    (field : Text) (terms : Terms)
    → ((field_segment field terms).bloom.m ≡ bit_count (length terms))
      × ((reload (field_segment field terms).bloom).m ≡ (bit_count (length terms) + 63) / 64 * 64)
unfolding reload field_segment new_bloom_filter
reload_rounds_up field terms =
    let (m, n) = add_terms-sizes terms (new_bloom_filter (length terms)) in
    (m, n ∙ length-zeros ((bit_count (length terms) + 63) / 64 * 64))
