-- ===== src/Cache/Key/Sorting.antt =====
-- pkg/cache/lru.go: the exchange sort sorts, so the cache key forgets the order of the indices.
use mathlib.Core.Path.{ap₂}
use go_es.Prelude.{
  ℕ, zero, suc, ◌+◌, ◌≤◌, ◌<◌, ◌≡◌, refl, ap, sym, ◌∙◌, subst, true, false, List, [], ◌∷◌, ◌++◌,
  if◌then◌else◌, Text, length, All, arith, Bool-cases, inl, inr, text, ◌==◌, text_Comparable,
  text_eq, text_eq_iff,
}
use go_es.Prelude.Order.{
  text_lt, text_lt_trans, text_lt_total, text_lt_irrefl, text_lt_asymm, not_lt_trans,
}
use go_es.Prelude.Sorting.{IsSorted}
use go_es.Cache.Key.{inner_pass, sort_rounds, sort_strings, join_names, make_key}

-- How often a name occurs.
abbrev pub count : Text → List Text → ℕ
count a [] = 0
count a (x ∷ xs) = (if x == a then 1 else 0) + count a xs

count-inner_pass :
    (a x : Text) (xs : List Text)
    → (if (inner_pass x xs).0 == a then 1 else 0) + count a (inner_pass x xs).1
      ≡ (if x == a then 1 else 0) + count a xs
unfolding inner_pass
count-inner_pass a x [] = refl
count-inner_pass a x (y ∷ ys) = elim (Bool-cases (text_lt y x)) [
  | inl t ↦ rw (t, inner_pass) (omega (arith, count-inner_pass a y ys))
  | inr f ↦ rw (f, inner_pass) (omega (arith, count-inner_pass a x ys))
]

length-inner_pass : (x : Text) (xs : List Text) → length (inner_pass x xs).1 ≡ length xs
unfolding inner_pass
length-inner_pass x [] = refl
length-inner_pass x (y ∷ ys) = ap suc (length-inner_pass (if text_lt y x then y else x) ys)

inner_pass-All :
    (P : Text → Type 0) (x : Text) (xs : List Text)
    → P x
    → All P xs
    → P (inner_pass x xs).0 × All P (inner_pass x xs).1
unfolding inner_pass
inner_pass-All P x [] p ps = (p, tt)
inner_pass-All P x (y ∷ ys) p ps = elim (Bool-cases (text_lt y x)) [
  | inl t ↦ rw (t, inner_pass) (let (q, qs) = inner_pass-All P y ys ps.0 ps.1 in (q, (p, qs)))
  | inr f ↦ rw (f, inner_pass) (let (q, qs) = inner_pass-All P x ys p ps.1 in (q, (ps.0, qs)))
]

-- One turn of the loop: the smaller element stays in front.
inner_pass-swap :
    (x y : Text) (ys : List Text)
    → text_lt y x ≡ true
    → inner_pass x (y ∷ ys) ≡ ((inner_pass y ys).0, x ∷ (inner_pass y ys).1)
unfolding inner_pass
inner_pass-swap x y ys t = rw (t, inner_pass)

inner_pass-keep :
    (x y : Text) (ys : List Text)
    → text_lt y x ≡ false
    → inner_pass x (y ∷ ys) ≡ ((inner_pass x ys).0, y ∷ (inner_pass x ys).1)
unfolding inner_pass
inner_pass-keep x y ys t = rw (t, inner_pass)

-- `m` is at most every element of the list.
abbrev IsBelow : Text → List Text → Type 0
IsBelow m xs = All (λ y. text_lt y m ≡ false) xs

-- The head that a pass brings to the front is at most every element.
inner_pass-le :
    (x : Text) (xs : List Text)
    → (text_lt x (inner_pass x xs).0 ≡ false) × IsBelow (inner_pass x xs).0 (inner_pass x xs).1
inner_pass-le x [] = unfold inner_pass in (text_lt_irrefl x, tt)
inner_pass-le x (y ∷ ys) = elim (Bool-cases (text_lt y x)) [
  | inl t ↦
      let (q, qs) = inner_pass-le y ys in
      let le : text_lt x (inner_pass y ys).0 ≡ false = ground (
        arith,
        q,
        text_lt_trans (inner_pass y ys).0 y x,
        text_lt_asymm y x,
        not_lt_trans x y (inner_pass y ys).0,
      ) in
      rw (inner_pass-swap x y ys t) (le, (le, qs))
  | inr f ↦
      let (q, qs) = inner_pass-le x ys in
      rw (inner_pass-keep x y ys f) (q, (not_lt_trans y x (inner_pass x ys).0 f q, qs))
]

count-sort_rounds : (a : Text) (n : ℕ) (xs : List Text) → count a (sort_rounds n xs) ≡ count a xs
unfolding sort_rounds
count-sort_rounds a zero xs = refl
count-sort_rounds a (suc n) [] = refl
count-sort_rounds a (suc n) (x ∷ xs) =
    omega (arith, count-sort_rounds a n (inner_pass x xs).1, count-inner_pass a x xs)

sort_rounds-All : (P : Text → Type 0) (n : ℕ) (xs : List Text) → All P xs → All P (sort_rounds n xs)
unfolding sort_rounds
sort_rounds-All P zero xs ps = ps
sort_rounds-All P (suc n) [] ps = tt
sort_rounds-All P (suc n) (x ∷ xs) ps =
    let (q, qs) = inner_pass-All P x xs ps.0 ps.1 in (q, sort_rounds-All P n (inner_pass x xs).1 qs)

sort_rounds-IsSorted : (n : ℕ) (xs : List Text) → length xs ≤ n → IsSorted (sort_rounds n xs)
unfolding sort_rounds
sort_rounds-IsSorted zero [] h = tt
sort_rounds-IsSorted zero (x ∷ xs) h = absurd (omega arith)
sort_rounds-IsSorted (suc n) [] h = tt
sort_rounds-IsSorted (suc n) (x ∷ xs) h = (
  sort_rounds-All _ n (inner_pass x xs).1 (inner_pass-le x xs).1,
  sort_rounds-IsSorted n (inner_pass x xs).1 (omega (arith, length-inner_pass x xs)),
)

-- `sortStrings` sorts: its result is in order and holds each name as often as the input.
pub sort_strings-IsSorted :
    (s : List Text)
    → IsSorted (sort_strings s) × ((a : Text) → count a (sort_strings s) ≡ count a s)
unfolding sort_strings
sort_strings-IsSorted s =
    (sort_rounds-IsSorted (length s) s (omega arith), λ a. count-sort_rounds a (length s) s)

All-count : (P : Text → Type 0) (a : Text) (xs : List Text) → All P xs → 0 < count a xs → P a
All-count P a [] ps h = absurd (omega arith)
All-count P a (x ∷ xs) ps h = elim (Bool-cases (text_eq x a)) [
  | inl e ↦ subst P ((text_eq_iff x a).0 e) ps.0
  | inr n ↦ All-count P a xs ps.1 (ground (arith, n))
]

-- A sorted list is determined by how often each name occurs.
sorted_unique :
    (xs ys : List Text)
    → IsSorted xs
    → IsSorted ys
    → ((a : Text) → count a xs ≡ count a ys)
    → xs ≡ ys
sorted_unique [] [] s t h = refl
sorted_unique [] (y ∷ ys) s t h = absurd (ground (arith, h y, text_eq_iff y y))
sorted_unique (x ∷ xs) [] s t h = absurd (ground (arith, h x, text_eq_iff x x))
sorted_unique (x ∷ xs) (y ∷ ys) s t h = ap₂ ◌∷◌ heads (sorted_unique xs ys s.1 t.1 rest)
  where
    heads : x ≡ y
    heads = elim (Bool-cases (text_eq x y)) [
      | inl e ↦ (text_eq_iff x y).0 e
      | inr n ↦
          text_lt_total x y
            (All-count (λ z. text_lt z y ≡ false) x ys t.0
              (ground (arith, n, h x, text_eq_iff x x, text_eq_iff x y, text_eq_iff y x)))
            (All-count (λ z. text_lt z x ≡ false) y xs s.0
              (ground (arith, n, h y, text_eq_iff y y, text_eq_iff x y, text_eq_iff y x)))
    ]

    rest : (a : Text) → count a xs ≡ count a ys
    rest a = ground (arith, heads, h a)

-- The key of a query does not depend on the order in which its indices are listed.
pub make_key_order :
    (sha1_hex : Text → Text) (xs ys : List Text) (query_body : Text)
    → ((a : Text) → count a xs ≡ count a ys)
    → make_key sha1_hex xs query_body ≡ make_key sha1_hex ys query_body
unfolding make_key
make_key_order sha1_hex xs ys query_body h =
    let (s, p) = sort_strings-IsSorted xs in
    let (t, q) = sort_strings-IsSorted ys in
    ap (λ (l : List Text). sha1_hex (join_names l ++ (text "#" ++ query_body)))
      (sorted_unique (sort_strings xs) (sort_strings ys) s t (λ a. p a ∙ h a ∙ sym (q a)))
