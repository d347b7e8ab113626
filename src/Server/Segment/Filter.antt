-- ===== src/Server/Segment/Filter.antt =====
-- internal/server/segment.go: what the Bloom filter promises, and when it survives being stored.
use go_es.Prelude.{
  ℕ, zero, suc, ◌+◌, ◌*◌, ◌/◌, ◌<◌, ◌≤◌, ◌≡◌, refl, inl, inr, Bool, true, some, List, [], ◌∷◌,
  arith, Text, length, ◌∙◌, Bool-cases, text_eq_iff, subst, sym,
}
use go_es.Prelude.{◌==◌, text_Comparable}
use go_es.Prelude.Maps.{lookup}
use go_es.Search.Engine.{Terms}
use go_es.Server.Segment.{
  BloomFilter, zeros, bit_count, new_bloom_filter, hash, set_bit, get_bit, add_hashes, add_term,
  has_hashes, may_contain, add_terms, lookup,
}

pub length-zeros : (n : ℕ) → length (zeros n) ≡ n
unfolding zeros
length-zeros zero = refl
length-zeros (suc n) = omega (arith, length-zeros n)

length-set_bit : (pos : ℕ) (bits : List Bool) → length (set_bit pos bits) ≡ length bits
unfolding set_bit
length-set_bit zero [] = refl
length-set_bit (suc pos) [] = refl
length-set_bit zero (b ∷ bits) = refl
length-set_bit (suc pos) (b ∷ bits) = omega (arith, length-set_bit pos bits)

get_bit-set_bit :
    (pos : ℕ) (bits : List Bool) → pos < length bits → get_bit pos (set_bit pos bits) ≡ true
unfolding set_bit get_bit
get_bit-set_bit pos [] h = absurd (omega arith)
get_bit-set_bit zero (b ∷ bits) h = refl
get_bit-set_bit (suc pos) (b ∷ bits) h = get_bit-set_bit pos bits (omega arith)

get_bit-set_bit-keeps :
    (i pos : ℕ) (bits : List Bool) → get_bit i bits ≡ true → get_bit i (set_bit pos bits) ≡ true
unfolding set_bit get_bit
get_bit-set_bit-keeps zero pos [] h = absurd (ground arith)
get_bit-set_bit-keeps (suc i) pos [] h = absurd (ground arith)
get_bit-set_bit-keeps zero zero (b ∷ bits) h = refl
get_bit-set_bit-keeps (suc i) zero (b ∷ bits) h = h
get_bit-set_bit-keeps zero (suc pos) (b ∷ bits) h = h
get_bit-set_bit-keeps (suc i) (suc pos) (b ∷ bits) h = get_bit-set_bit-keeps i pos bits h

-- Every hash is a position of the array.
pub IsSound : BloomFilter → Type 0
IsSound b = (0 < b.m) × (b.m ≤ length b.bits)

hash-lt : (m : ℕ) (term : Text) (k : ℕ) → 0 < m → hash m term k < m
unfolding hash
hash-lt m term k h = omega arith

length-add_hashes :
    (k m : ℕ) (term : Text) (bits : List Bool) → length (add_hashes k m term bits) ≡ length bits
unfolding add_hashes
length-add_hashes zero m term bits = refl
length-add_hashes (suc k) m term bits = omega (
  arith,
  length-add_hashes k m term bits,
  length-set_bit (hash m term k) (add_hashes k m term bits),
)

add_hashes-keeps :
    (k m : ℕ) (term : Text) (bits : List Bool) (i : ℕ)
    → get_bit i bits ≡ true
    → get_bit i (add_hashes k m term bits) ≡ true
unfolding add_hashes
add_hashes-keeps zero m term bits i h = h
add_hashes-keeps (suc k) m term bits i h =
    get_bit-set_bit-keeps i (hash m term k) (add_hashes k m term bits)
      (add_hashes-keeps k m term bits i h)

has_hashes-set_bit :
    (k m : ℕ) (term : Text) (bits : List Bool) (pos : ℕ)
    → has_hashes k m term bits ≡ true
    → has_hashes k m term (set_bit pos bits) ≡ true
unfolding has_hashes
has_hashes-set_bit zero m term bits pos h = refl
has_hashes-set_bit (suc k) m term bits pos h =
    ground
      (arith, get_bit-set_bit-keeps (hash m term k) pos bits, has_hashes-set_bit k m term bits pos)

has_hashes-add_hashes :
    (k m : ℕ) (term : Text) (bits : List Bool)
    → 0 < m
    → m ≤ length bits
    → has_hashes k m term (add_hashes k m term bits) ≡ true
unfolding has_hashes add_hashes
has_hashes-add_hashes zero m term bits p q = refl
has_hashes-add_hashes (suc k) m term bits p q =
    let inside : hash m term k < length (add_hashes k m term bits) =
      omega (arith, hash-lt m term k p, length-add_hashes k m term bits) in
    ground (
      arith,
      get_bit-set_bit (hash m term k) (add_hashes k m term bits) inside,
      has_hashes-set_bit k m term (add_hashes k m term bits) (hash m term k)
          (has_hashes-add_hashes k m term bits p q),
    )

has_hashes-keeps :
    (n k m : ℕ) (term other : Text) (bits : List Bool)
    → has_hashes k m term bits ≡ true
    → has_hashes k m term (add_hashes n m other bits) ≡ true
unfolding add_hashes
has_hashes-keeps zero k m term other bits h = h
has_hashes-keeps (suc n) k m term other bits h =
    has_hashes-set_bit k m term (add_hashes n m other bits) (hash m other n)
      (has_hashes-keeps n k m term other bits h)

add_term-IsSound : (term : Text) (b : BloomFilter) → IsSound b → IsSound (add_term term b)
unfolding IsSound add_term
add_term-IsSound term b (p, q) = (p, omega (arith, length-add_hashes 4 b.m term b.bits))

may_contain-add_term :
    (term : Text) (b : BloomFilter) → IsSound b → may_contain (add_term term b) term ≡ true
unfolding IsSound add_term may_contain
may_contain-add_term term b (p, q) = has_hashes-add_hashes 4 b.m term b.bits p q

may_contain-keeps :
    (term other : Text) (b : BloomFilter)
    → may_contain b term ≡ true
    → may_contain (add_term other b) term ≡ true
unfolding add_term may_contain
may_contain-keeps term other b h = has_hashes-keeps 4 4 b.m term other b.bits h

pub new_bloom_filter-IsSound : (n : ℕ) → IsSound (new_bloom_filter n)
unfolding IsSound new_bloom_filter
new_bloom_filter-IsSound n =
    (ground arith, omega (arith, length-zeros ((bit_count n + 63) / 64 * 64)))

-- Adding terms changes neither the modulus nor the length of the array.
pub add_terms-sizes :
    (terms : Terms) (b : BloomFilter)
    → ((add_terms terms b).m ≡ b.m) × (length (add_terms terms b).bits ≡ length b.bits)
unfolding add_terms add_term
add_terms-sizes [] b = (refl, refl)
add_terms-sizes ((term, ids) ∷ terms) b =
    let (m, n) = add_terms-sizes terms (add_term term b) in
    (m, n ∙ length-add_hashes 4 b.m term b.bits)

add_terms-keeps :
    (term : Text) (terms : Terms) (b : BloomFilter)
    → may_contain b term ≡ true
    → may_contain (add_terms terms b) term ≡ true
unfolding add_terms
add_terms-keeps term [] b h = h
add_terms-keeps term ((other, ids) ∷ terms) b h =
    add_terms-keeps term terms (add_term other b) (may_contain-keeps term other b h)

-- The filter that a flush fills has no false negatives: it may contain every term of the postings.
pub may_contain-add_terms :
    (term : Text) (terms : Terms) (b : BloomFilter) (ids : List Text)
    → IsSound b
    → lookup term terms ≡ some ids
    → may_contain (add_terms terms b) term ≡ true
unfolding add_terms lookup
may_contain-add_terms term [] b ids s h = absurd (ground arith)
may_contain-add_terms term ((other, posting) ∷ terms) b ids s h =
    elim (Bool-cases (other == term)) [
      | inl same ↦
          let e : other ≡ term = (text_eq_iff other term).0 same in
          add_terms-keeps term terms (add_term other b) (
            subst (λ t. may_contain (add_term t b) term ≡ true) (sym e)
              (may_contain-add_term term b s))
      | inr differs ↦
          may_contain-add_terms term terms (add_term other b) ids (add_term-IsSound other b s)
            (ground arith)
    ]
