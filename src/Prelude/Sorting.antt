-- ===== src/Prelude/Sorting.antt =====
-- `sort.Strings`, as an insertion sort.
use mathlib.Core.Path.{◌≡◌, refl}
use mathlib.Core.Logic.{inl, inr}
use mathlib.Core.Bool.{false, ◌||◌}
use mathlib.Core.List.{List, [], ◌∷◌}
use native.Mathlib.Omega.{arith}
use go_es.Prelude.Tests.{if◌then◌else◌, Bool-cases}
use go_es.Prelude.Equality.{Text, text_Comparable, ◌==◌}
use go_es.Prelude.Lists.{All}
use go_es.Prelude.Order.{text_lt, text_lt_asymm, not_lt_trans}
use go_es.Prelude.Sets.{contains}

-- No later element is less than an earlier one.
abbrev pub IsSorted : List Text → Type 0
IsSorted [] = Unit
IsSorted (x ∷ xs) = All (λ y. text_lt y x ≡ false) xs × IsSorted xs

insert_text : Text → List Text → List Text
insert_text a [] = a ∷ []
insert_text a (x ∷ xs) = if text_lt x a then x ∷ insert_text a xs else a ∷ x ∷ xs

unfoldable pub sort_texts : List Text → List Text
unfolding insert_text
sort_texts [] = []
sort_texts (x ∷ xs) = insert_text x (sort_texts xs)

insert_text-All :
    (P : Text → Type 0) (a : Text) (xs : List Text) → P a → All P xs → All P (insert_text a xs)
unfolding insert_text
insert_text-All P a [] p ps = (p, tt)
insert_text-All P a (x ∷ xs) p ps = elim (Bool-cases (text_lt x a)) [
  | inl t ↦ rw (t, insert_text) (ps.0, insert_text-All P a xs p ps.1)
  | inr t ↦ rw (t, insert_text) (p, ps)
]

above_all :
    (a x : Text) (xs : List Text)
    → text_lt x a ≡ false
    → All (λ y. text_lt y x ≡ false) xs
    → All (λ y. text_lt y a ≡ false) xs
above_all a x [] h g = tt
above_all a x (y ∷ ys) h g = (not_lt_trans y x a g.0 h, above_all a x ys h g.1)

insert_text-IsSorted : (a : Text) (xs : List Text) → IsSorted xs → IsSorted (insert_text a xs)
unfolding insert_text
insert_text-IsSorted a [] h = (tt, tt)
insert_text-IsSorted a (x ∷ xs) h = elim (Bool-cases (text_lt x a)) [
  | inl t ↦
      rw (t, insert_text)
        (
          insert_text-All (λ y. text_lt y x ≡ false) a xs (text_lt_asymm x a t) h.0,
          insert_text-IsSorted a xs h.1,
        )
  | inr t ↦ rw (t, insert_text) ((t, above_all a x xs t h.0), h)
]

pub sort_texts-IsSorted : (xs : List Text) → IsSorted (sort_texts xs)
unfolding sort_texts
sort_texts-IsSorted [] = tt
sort_texts-IsSorted (x ∷ xs) = insert_text-IsSorted x (sort_texts xs) (sort_texts-IsSorted xs)

contains-insert_text :
    (b a : Text) (xs : List Text) → contains b (insert_text a xs) ≡ (a == b || contains b xs)
unfolding insert_text contains
contains-insert_text b a [] = ground arith
contains-insert_text b a (x ∷ xs) = ground (arith, contains-insert_text b a xs)

pub contains-sort_texts : (b : Text) (xs : List Text) → contains b (sort_texts xs) ≡ contains b xs
unfolding sort_texts contains
contains-sort_texts b [] = refl
contains-sort_texts b (x ∷ xs) =
    ground (arith, contains-insert_text b x (sort_texts xs), contains-sort_texts b xs)
