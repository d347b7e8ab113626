-- ===== src/Server/Segment.antt =====
-- internal/server/segment.go: the Bloom filter of a segment, the segment of a field, and the search of a
-- term. The filter's array of 64-bit words is its list of bits, word after word, low bit first; the
-- base64 form keeps every word. Keys, counters and statistics are not modelled.
pub mod Filter
pub mod Lookup
use go_es.Prelude.{
  ℕ, zero, suc, ◌+◌, ◌*◌, ◌/◌, ◌%◌, ◌^◌, Bool, true, false, ◌&&◌, Option, none, some, List, [], ◌∷◌,
  ltb, nat_eq, if◌then◌else◌, ◌==◌, Text, text_Comparable, length, get_elem?,
}
use go_es.Prelude.Maps.{Map, lookup}
use go_es.Search.Engine.{Terms, union}

-- Bitwise exclusive or of two numbers of so many bits.
unfoldable pub xor : ℕ → ℕ → ℕ → ℕ
xor zero a b = 0
xor (suc width) a b = (a + b) % 2 + 2 * xor width (a / 2) (b / 2)

abbrev pub fnv_prime : ℕ
fnv_prime = 1099511628211

unfoldable pub fnv_loop : Text → ℕ → ℕ
fnv_loop [] h = h
fnv_loop (c ∷ cs) h = fnv_loop cs (xor 64 h c * fnv_prime % 2 ^ 64)

-- `fnv1a`, on uint64.
unfoldable pub fnv1a : Text → ℕ → ℕ
unfolding fnv_loop
fnv1a s seed = fnv_loop s (xor 64 14695981039346656037 (seed * fnv_prime % 2 ^ 64))

pub record BloomFilter : Type 0 where
  pub bits : List Bool
  pub m : ℕ

unfoldable pub zeros : ℕ → List Bool
zeros zero = []
zeros (suc n) = false ∷ zeros n

abbrev pub bit_count : ℕ → ℕ
bit_count n = if ltb (n * 10) 1024 then 1024 else n * 10

unfoldable pub new_bloom_filter : ℕ → BloomFilter
unfolding zeros
new_bloom_filter n = record { bits = zeros ((bit_count n + 63) / 64 * 64); m = bit_count n }

-- Double hashing, on uint64; the second hash is never 0.
unfoldable pub hash : ℕ → Text → ℕ → ℕ
unfolding fnv1a
hash m term k =
    let h : ℕ = fnv1a term 1 in
    (fnv1a term 0 + k * (if nat_eq h 0 then 2654435769 else h) % 2 ^ 64) % 2 ^ 64 % m

unfoldable pub set_bit : ℕ → List Bool → List Bool
set_bit pos [] = []
set_bit zero (b ∷ bits) = true ∷ bits
set_bit (suc pos) (b ∷ bits) = b ∷ set_bit pos bits

unfoldable pub get_bit : ℕ → List Bool → Bool
get_bit pos [] = false
get_bit zero (b ∷ bits) = b
get_bit (suc pos) (b ∷ bits) = get_bit pos bits

-- The loop of `Add` over the first hashes.
unfoldable pub add_hashes : ℕ → ℕ → Text → List Bool → List Bool
add_hashes zero m term bits = bits
add_hashes (suc k) m term bits = set_bit (hash m term k) (add_hashes k m term bits)

unfoldable pub add_term : Text → BloomFilter → BloomFilter
unfolding add_hashes
add_term term b = record b { bits = add_hashes 4 b.m term b.bits }

unfoldable pub has_hashes : ℕ → ℕ → Text → List Bool → Bool
has_hashes zero m term bits = true
has_hashes (suc k) m term bits = get_bit (hash m term k) bits && has_hashes k m term bits

unfoldable pub may_contain : BloomFilter → Text → Bool
unfolding has_hashes
may_contain b term = has_hashes 4 b.m term b.bits

-- What is read back from a stored filter: its words, and as many bits as these have.
unfoldable pub reload : BloomFilter → BloomFilter
reload b = record b { m = length b.bits }

pub record SegmentData : Type 0 where
  pub field : Text
  pub postings : Terms
  pub doc_ids : List Text
  pub bloom : BloomFilter

unfoldable pub add_terms : Terms → BloomFilter → BloomFilter
unfolding add_term
add_terms [] b = b
add_terms ((term, ids) ∷ terms) b = add_terms terms (add_term term b)

-- The documents of all postings; the order is not kept.
unfoldable pub doc_ids_of : Terms → List Text
doc_ids_of [] = []
doc_ids_of ((term, ids) ∷ terms) = union ids (doc_ids_of terms)

-- The segment that a flush makes of a field. The order in which the ids of a term are sorted is not kept.
unfoldable pub field_segment : Text → Terms → SegmentData
unfolding add_terms new_bloom_filter doc_ids_of
field_segment field terms = record {
  field = field;
  postings = terms;
  doc_ids = doc_ids_of terms;
  bloom = add_terms terms (new_bloom_filter (length terms));
}

abbrev pub posted_ids : Text → Terms → List Text
posted_ids term postings = elim (lookup term postings) [ none ↦ [] | some ids ↦ ids ]

-- One round of `SearchTerm`.
unfoldable pub search_segment : Text → Text → SegmentData → List Text → List Text
unfolding may_contain reload
search_segment field term segment out =
    if segment.field == field && may_contain (reload segment.bloom) term
    then union (posted_ids term segment.postings) out
    else out

-- The loop of `SearchTerm` over the active segments: a set.
unfoldable pub search_term : Text → Text → List SegmentData → List Text → List Text
unfolding search_segment
search_term field term [] out = out
search_term field term (segment ∷ rest) out =
    search_term field term rest (search_segment field term segment out)
