-- ===== src/Prelude/Order.antt =====
-- The byte order of Go strings: `<` compares bytewise, a proper prefix first.
use go_es.Prelude.Equality.{Text}
use mathlib.Core.Path.{◌≡◌, refl}
use mathlib.Core.Bool.{Bool, true, false}
use mathlib.Core.List.{[], ◌∷◌}
use Prim.Native.Nat.{compare, Ordering}
use native.Mathlib.Omega.{arith}

unfoldable pub text_lt : Text → Text → Bool
text_lt [] [] = false
text_lt [] (y ∷ ys) = true
text_lt (x ∷ xs) [] = false
text_lt (x ∷ xs) (y ∷ ys) = elim (compare x y) [
  | Ordering.lt ↦ true
  | Ordering.eq ↦ text_lt xs ys
  | Ordering.gt ↦ false
]

pub text_lt_irrefl : (a : Text) → text_lt a a ≡ false
unfolding text_lt
text_lt_irrefl [] = refl
text_lt_irrefl (x ∷ xs) = ground (arith, text_lt_irrefl xs)

pub text_lt_trans : (a b c : Text) → text_lt a b ≡ true → text_lt b c ≡ true → text_lt a c ≡ true
unfolding text_lt
text_lt_trans [] [] c p q = cc
text_lt_trans [] (y ∷ ys) [] p q = cc
text_lt_trans [] (y ∷ ys) (z ∷ zs) p q = refl
text_lt_trans (x ∷ xs) [] c p q = cc
text_lt_trans (x ∷ xs) (y ∷ ys) [] p q = cc
text_lt_trans (x ∷ xs) (y ∷ ys) (z ∷ zs) p q = ground (arith, text_lt_trans xs ys zs)

pub text_lt_asymm : (a b : Text) → text_lt a b ≡ true → text_lt b a ≡ false
unfolding text_lt
text_lt_asymm [] [] p = cc
text_lt_asymm [] (y ∷ ys) p = refl
text_lt_asymm (x ∷ xs) [] p = cc
text_lt_asymm (x ∷ xs) (y ∷ ys) p = ground (arith, text_lt_asymm xs ys)

-- Of two strings neither of which is less, both are the same.
pub text_lt_total : (a b : Text) → text_lt a b ≡ false → text_lt b a ≡ false → a ≡ b
unfolding text_lt
text_lt_total [] [] p q = refl
text_lt_total [] (y ∷ ys) p q = cc
text_lt_total (x ∷ xs) [] p q = cc
text_lt_total (x ∷ xs) (y ∷ ys) p q = ground (arith, text_lt_total xs ys)

-- `≤` is transitive: `b ≤ a` and `c ≤ b` give `c ≤ a`, each as "not less".
pub not_lt_trans : (a b c : Text) → text_lt a b ≡ false → text_lt b c ≡ false → text_lt a c ≡ false
unfolding text_lt
not_lt_trans [] [] c p q = q
not_lt_trans [] (y ∷ ys) c p q = cc
not_lt_trans (x ∷ xs) b [] p q = refl
not_lt_trans (x ∷ xs) [] (z ∷ zs) p q = cc
not_lt_trans (x ∷ xs) (y ∷ ys) (z ∷ zs) p q = ground (arith, not_lt_trans xs ys zs)
