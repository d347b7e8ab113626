-- ===== src/Search/Suggest/Edits.antt =====
-- internal/search/suggest.go: the edits that turn one list of runes into another, and the least number
-- of them by recursion.
use go_es.Prelude.{
  ℕ, suc, ◌+◌, ◌-◌, ◌≤◌, ◌≡◌, refl, sym, subst, List, [], ◌∷◌, ◌++◌, length, nat_eq, arith,
  Bool-cases, inl, inr, ◌⊎◌, ◌∙◌,
}
use mathlib.Core.List.{append-nil}
use go_es.Search.Suggest.{min3, cost}

-- A way from one list to the other, with the number of insertions, deletions and replacements.
pub data Edits : List ℕ → List ℕ → ℕ → Type 0 where
  done : Edits [] [] 0
  keep : {xs ys : List ℕ} {n : ℕ} (x : ℕ) → Edits xs ys n → Edits (x ∷ xs) (x ∷ ys) n
  replace : {xs ys : List ℕ} {n : ℕ} (x y : ℕ) → Edits xs ys n → Edits (x ∷ xs) (y ∷ ys) (suc n)
  delete : {xs ys : List ℕ} {n : ℕ} (x : ℕ) → Edits xs ys n → Edits (x ∷ xs) ys (suc n)
  insert : {xs ys : List ℕ} {n : ℕ} (y : ℕ) → Edits xs ys n → Edits xs (y ∷ ys) (suc n)

-- The edit distance by recursion on both lists.
unfoldable pub distance : List ℕ → List ℕ → ℕ
distance [] ys = length ys
distance (x ∷ xs) [] = length (x ∷ xs)
distance (x ∷ xs) (y ∷ ys) =
    min3 (distance xs (y ∷ ys) + 1) (distance (x ∷ xs) ys + 1) (distance xs ys + cost x y)

pub min3_lower : (m a b c : ℕ) → m ≤ a → m ≤ b → m ≤ c → m ≤ min3 a b c
min3_lower m a b c h g k = ground arith

min3_upper : (a b c : ℕ) → (min3 a b c ≤ a) × ((min3 a b c ≤ b) × (min3 a b c ≤ c))
min3_upper a b c = (ground arith, (ground arith, ground arith))

min3_cases : (a b c : ℕ) → (min3 a b c ≡ a) ⊎ ((min3 a b c ≡ b) ⊎ (min3 a b c ≡ c))
min3_cases a b c = ground arith

pub distance-nil : (xs : List ℕ) → distance xs [] ≡ length xs
unfolding distance
distance-nil [] = refl
distance-nil (x ∷ xs) = refl

distance_deleted : (x : ℕ) (xs ys : List ℕ) → distance (x ∷ xs) ys ≤ distance xs ys + 1
unfolding distance
distance_deleted x xs [] = rw (distance-nil xs) (omega arith)
distance_deleted x xs (y ∷ ys) =
    (min3_upper (distance xs (y ∷ ys) + 1) (distance (x ∷ xs) ys + 1) (distance xs ys + cost x y)).0

distance_inserted : (y : ℕ) (xs ys : List ℕ) → distance xs (y ∷ ys) ≤ distance xs ys + 1
unfolding distance
distance_inserted y [] ys = omega arith
distance_inserted y (x ∷ xs) ys =
    (min3_upper (distance xs (y ∷ ys) + 1) (distance (x ∷ xs) ys + 1)
      (distance xs ys + cost x y)).1.0

distance_replaced :
    (x y : ℕ) (xs ys : List ℕ) → distance (x ∷ xs) (y ∷ ys) ≤ distance xs ys + cost x y
unfolding distance
distance_replaced x y xs ys =
    (min3_upper (distance xs (y ∷ ys) + 1) (distance (x ∷ xs) ys + 1)
      (distance xs ys + cost x y)).1.1

cost_bounds : (x y : ℕ) → (cost x x ≡ 0) × (cost x y ≤ 1)
cost_bounds x y = (ground arith, ground arith)

pub distance_least : {xs ys : List ℕ} {n : ℕ} → Edits xs ys n → distance xs ys ≤ n
unfolding distance
distance_least done = omega arith
distance_least (keep {xs} {ys} {n} x e) =
    omega (arith, distance_least e, distance_replaced x x xs ys, (cost_bounds x x).0)
distance_least (replace {xs} {ys} {n} x y e) =
    omega (arith, distance_least e, distance_replaced x y xs ys, (cost_bounds x y).1)
distance_least (delete {xs} {ys} {n} x e) =
    omega (arith, distance_least e, distance_deleted x xs ys)
distance_least (insert {xs} {ys} {n} y e) =
    omega (arith, distance_least e, distance_inserted y xs ys)

same_or_replaced :
    (x y : ℕ) {xs ys : List ℕ} (n : ℕ) → Edits xs ys n → Edits (x ∷ xs) (y ∷ ys) (n + cost x y)
same_or_replaced x y {xs} {ys} n e = elim (Bool-cases (nat_eq x y)) [
  | inl t ↦
      let same : x ≡ y = ground arith in
      let free : n ≡ n + cost x y = ground arith in
      subst (λ z. Edits (x ∷ xs) (z ∷ ys) (n + cost x y)) same
        (subst (Edits (x ∷ xs) (x ∷ ys)) free (keep x e))
  | inr t ↦
      let paid : suc n ≡ n + cost x y = ground arith in
      subst (Edits (x ∷ xs) (y ∷ ys)) paid (replace x y e)
]

all_inserted : (ys : List ℕ) → Edits [] ys (length ys)
all_inserted [] = done
all_inserted (y ∷ ys) = insert y (all_inserted ys)

all_deleted : (xs : List ℕ) → Edits xs [] (length xs)
all_deleted [] = done
all_deleted (x ∷ xs) = delete x (all_deleted xs)

pub distance_reached : (xs ys : List ℕ) → Edits xs ys (distance xs ys)
unfolding distance
distance_reached [] ys = all_inserted ys
distance_reached (x ∷ xs) [] = all_deleted (x ∷ xs)
distance_reached (x ∷ xs) (y ∷ ys) =
    let a = distance xs (y ∷ ys) + 1 in
    let b = distance (x ∷ xs) ys + 1 in
    let c = distance xs ys + cost x y in
    let after_delete : Edits (x ∷ xs) (y ∷ ys) a =
      subst (Edits (x ∷ xs) (y ∷ ys)) (omega arith) (delete x (distance_reached xs (y ∷ ys))) in
    let after_insert : Edits (x ∷ xs) (y ∷ ys) b =
      subst (Edits (x ∷ xs) (y ∷ ys)) (omega arith) (insert y (distance_reached (x ∷ xs) ys)) in
    let after_both = same_or_replaced x y (distance xs ys) (distance_reached xs ys) in
    elim (min3_cases a b c) [
      | inl e ↦ subst (Edits (x ∷ xs) (y ∷ ys)) (sym e) after_delete
      | inr (inl e) ↦ subst (Edits (x ∷ xs) (y ∷ ys)) (sym e) after_insert
      | inr (inr e) ↦ subst (Edits (x ∷ xs) (y ∷ ys)) (sym e) after_both
    ]

pub flip : {xs ys : List ℕ} {n : ℕ} → Edits xs ys n → Edits ys xs n
flip done = done
flip (keep x e) = keep x (flip e)
flip (replace x y e) = replace y x (flip e)
flip (delete x e) = insert x (flip e)
flip (insert y e) = delete y (flip e)

pub length-difference :
    {xs ys : List ℕ} {n : ℕ} → Edits xs ys n → (length xs - length ys) + (length ys - length xs) ≤ n
length-difference done = omega arith
length-difference (keep x e) = omega (arith, length-difference e)
length-difference (replace x y e) = omega (arith, length-difference e)
length-difference (delete x e) = omega (arith, length-difference e)
length-difference (insert y e) = omega (arith, length-difference e)

-- The second list in reverse before the first.
unfoldable pub rev_onto : List ℕ → List ℕ → List ℕ
rev_onto front [] = front
rev_onto front (x ∷ xs) = rev_onto (x ∷ front) xs

rev_onto-rev_onto : (c d xs : List ℕ) → rev_onto c (rev_onto d xs) ≡ rev_onto (xs ++ c) d
unfolding rev_onto
rev_onto-rev_onto c d [] = refl
rev_onto-rev_onto c d (x ∷ xs) = rev_onto-rev_onto c (x ∷ d) xs

reversed_onto :
    {xs ys us vs : List ℕ} {n m : ℕ}
    → Edits xs ys n
    → Edits us vs m
    → Edits (rev_onto us xs) (rev_onto vs ys) (n + m)
unfolding rev_onto
reversed_onto done f = subst (Edits _ _) (omega arith) f
reversed_onto (keep x e) f = reversed_onto e (keep x f)
reversed_onto (replace {xs} {ys} {n} x y e) f =
    subst (Edits _ _) (omega arith) (reversed_onto e (replace x y f))
reversed_onto (delete {xs} {ys} {n} x e) f =
    subst (Edits _ _) (omega arith) (reversed_onto e (delete x f))
reversed_onto (insert {xs} {ys} {n} y e) f =
    subst (Edits _ _) (omega arith) (reversed_onto e (insert y f))

pub reversed : {xs ys : List ℕ} {n : ℕ} → Edits xs ys n → Edits (rev_onto [] xs) (rev_onto [] ys) n
reversed {xs} {ys} {n} e = subst (Edits _ _) (omega arith) (reversed_onto e done)

pub twice : (xs : List ℕ) → rev_onto [] (rev_onto [] xs) ≡ xs
unfolding rev_onto
twice xs = rev_onto-rev_onto [] [] xs ∙ append-nil xs
