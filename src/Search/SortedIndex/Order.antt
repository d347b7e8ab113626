-- ===== src/Search/SortedIndex/Order.antt =====
-- internal/search/sorted_index.go: an index stays sorted, and holds what was put into it.
use go_es.Prelude.{
  ℕ, zero, suc, ◌≤◌, ◌<◌, ◌≡◌, refl, inl, inr, Bool, true, false, not, ◌||◌, List, [], ◌∷◌, ◌++◌,
  text_Comparable, text_eq_iff, All, length, take, drop, arith, Bool-cases,
}
use go_es.Prelude.Order.{text_lt_trans, text_lt_irrefl, text_lt_asymm, text_lt_total}
use go_es.Prelude.SortSearch.{sort_search-Splits, Splits, IsMonotone}
use go_es.Search.SortedIndex.{
  SortedEntry, test_at, entry_lt, same_entry, position, stands_at, upsert,
}

-- Each entry comes before all later ones.
abbrev pub IsSorted : List SortedEntry → Type 0
IsSorted [] = Unit
IsSorted (e ∷ es) = All (λ x. entry_lt e x ≡ true) es × IsSorted es

entry_lt_irrefl : (a : SortedEntry) → entry_lt a a ≡ false
unfolding entry_lt
entry_lt_irrefl a = ground (arith, text_lt_irrefl a.value, text_lt_irrefl a.doc_id)

pub entry_lt_trans :
    (a b c : SortedEntry) → entry_lt a b ≡ true → entry_lt b c ≡ true → entry_lt a c ≡ true
unfolding entry_lt
entry_lt_trans a b c p q = ground (
  arith,
  text_lt_trans a.value b.value c.value,
  text_lt_trans b.value c.value a.value,
  text_lt_trans c.value a.value b.value,
  text_lt_trans a.doc_id b.doc_id c.doc_id,
  text_lt_total a.value b.value,
  text_lt_total b.value c.value,
  text_lt_irrefl a.value,
)

pub entry_lt_total :
    (a b : SortedEntry) → entry_lt a b ≡ false → entry_lt b a ≡ false → same_entry a b ≡ true
unfolding entry_lt
entry_lt_total a b p q = ground (
  arith,
  text_lt_total a.value b.value,
  text_lt_total a.doc_id b.doc_id,
  text_lt_asymm a.value b.value,
  text_lt_asymm b.value a.value,
  text_eq_iff a.value b.value,
  text_eq_iff a.doc_id b.doc_id,
)

-- Whether the entry is in the list.
unfoldable pub holds : SortedEntry → List SortedEntry → Bool
holds e [] = false
holds e (x ∷ xs) = same_entry x e || holds e xs

pub same_entry_eq : (a b : SortedEntry) → same_entry a b ≡ true → a ≡ b
same_entry_eq a b h = ground (arith, text_eq_iff a.value b.value, text_eq_iff a.doc_id b.doc_id)

pub same_entry_refl : (a : SortedEntry) → same_entry a a ≡ true
same_entry_refl a = ground (arith, text_eq_iff a.value a.value, text_eq_iff a.doc_id a.doc_id)

pub All-map :
    {P Q : SortedEntry → Type 0} (f : (x : SortedEntry) → P x → Q x) (xs : List SortedEntry)
    → All P xs
    → All Q xs
All-map f [] h = tt
All-map f (x ∷ xs) h = (f x h.0, All-map f xs h.1)

-- A test that holds of every entry behind one of which it holds.
abbrev pub IsUpward : (SortedEntry → Bool) → Type 0
IsUpward test = (x y : SortedEntry) → entry_lt x y ≡ true → test x ≡ true → test y ≡ true

test_at_of_All :
    (test : SortedEntry → Bool) (es : List SortedEntry) (b : ℕ)
    → All (λ x. test x ≡ true) es
    → test_at test es b ≡ true
unfolding test_at
test_at_of_All test [] b h = refl
test_at_of_All test (e ∷ es) zero h = h.0
test_at_of_All test (e ∷ es) (suc b) h = test_at_of_All test es b h.1

-- On a sorted list such a test is monotone in the index.
pub test_at-IsMonotone :
    (test : SortedEntry → Bool) (es : List SortedEntry)
    → IsUpward test
    → IsSorted es
    → IsMonotone (length es) (test_at test es)
unfolding test_at
test_at-IsMonotone test [] up s a b ab bn t = refl
test_at-IsMonotone test (e ∷ es) up s zero zero ab bn t = t
test_at-IsMonotone test (e ∷ es) up s zero (suc b) ab bn t =
    test_at_of_All test es b (All-map (λ x l. up e x l t) es s.0)
test_at-IsMonotone test (e ∷ es) up s (suc a) zero ab bn t = absurd (omega arith)
test_at-IsMonotone test (e ∷ es) up s (suc a) (suc b) ab bn t =
    test_at-IsMonotone test es up s.1 a b (omega arith) (omega arith) t

take-All :
    (test : SortedEntry → Bool) (k : ℕ) (es : List SortedEntry)
    → k ≤ length es
    → ((m : ℕ) → m < k → test_at test es m ≡ false)
    → All (λ x. test x ≡ false) (take k es)
unfolding test_at
take-All test zero es h f = tt
take-All test (suc k) [] h f = absurd (omega arith)
take-All test (suc k) (e ∷ es) h f =
    (f 0 (omega arith), take-All test k es (omega arith) (λ m l. f (suc m) (omega arith)))

All-insert :
    (P : SortedEntry → Type 0) (e : SortedEntry) (k : ℕ) (es : List SortedEntry)
    → All P es
    → P e
    → All P (take k es ++ e ∷ drop k es)
All-insert P e zero es h p = (p, h)
All-insert P e (suc k) [] h p = (p, tt)
All-insert P e (suc k) (x ∷ es) h p = (h.0, All-insert P e k es h.1 p)

-- The entry goes between those before it and those behind it.
IsSorted-insert :
    (e : SortedEntry) (k : ℕ) (es : List SortedEntry)
    → IsSorted es
    → All (λ x. entry_lt x e ≡ true) (take k es)
    → All (λ x. entry_lt e x ≡ true) (drop k es)
    → IsSorted (take k es ++ e ∷ drop k es)
IsSorted-insert e zero es s lo hi = (hi, s)
IsSorted-insert e (suc k) [] s lo hi = (tt, tt)
IsSorted-insert e (suc k) (x ∷ es) s lo hi =
    (All-insert (λ y. entry_lt x y ≡ true) e k es s.0 lo.0, IsSorted-insert e k es s.1 lo.1 hi)

-- Behind the place of an entry that is not there, all entries are greater.
drop-greater :
    (e : SortedEntry) (k : ℕ) (es : List SortedEntry)
    → IsSorted es
    → stands_at e es k ≡ false
    → (k < length es → test_at (λ x. not (entry_lt x e)) es k ≡ true)
    → All (λ x. entry_lt e x ≡ true) (drop k es)
unfolding test_at
drop-greater e zero [] s n t = tt
drop-greater e zero (x ∷ es) s n t = (first, All-map (λ y l. entry_lt_trans e x y first l) es s.0)
  where
    first : entry_lt e x ≡ true
    first = ground (arith, n, t (omega arith), entry_lt_total x e)
drop-greater e (suc k) [] s n t = tt
drop-greater e (suc k) (x ∷ es) s n t = drop-greater e k es s.1 n (λ l. t (omega arith))

IsUpward-not-lt : (e : SortedEntry) → IsUpward (λ x. not (entry_lt x e))
IsUpward-not-lt e x y l t = ground (arith, entry_lt_trans x y e)

position-Splits :
    (e : SortedEntry) (es : List SortedEntry)
    → IsSorted es
    → Splits (length es) (test_at (λ x. not (entry_lt x e)) es) (position e es)
unfolding position
position-Splits e es s =
    sort_search-Splits (length es) (test_at (λ x. not (entry_lt x e)) es)
      (test_at-IsMonotone (λ x. not (entry_lt x e)) es (IsUpward-not-lt e) s)

pub upsert-IsSorted :
    (e : SortedEntry) (es : List SortedEntry) → IsSorted es → IsSorted (upsert e es)
unfolding upsert
upsert-IsSorted e es s = elim (Bool-cases (stands_at e es (position e es))) [
  | inl there ↦ rw there s
  | inr new ↦
      let p = position-Splits e es s in
      rw new (
        IsSorted-insert e (position e es) es s
          (All-map (λ x h. ground arith) (take (position e es) es)
            (take-All _ (position e es) es p.within p.below))
          (drop-greater e (position e es) es s new (λ l. p.above (position e es) (omega arith) l)))
]
