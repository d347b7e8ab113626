-- ===== src/Pool/Deduction.antt =====
-- pkg/pool/pool.go: the subtraction of the total weight from the node that the weighted selection
-- takes.
use go_es.Prelude.{
  ℕ, zero, suc, ◌+◌, ◌^◌, ◌<◌, ◌≡◌, refl, true, List, [], ◌∷◌, All, length, if◌then◌else◌, nat_eq,
  arith,
}
use go_es.Prelude.Int.{ℤ, pos, ◌-ℤ◌, wrap64, pos_part, neg_part}
use go_es.Pool.{PoolNode, subtract_at}
use go_es.Pool.Balance.{
  usable_at, current_at, weight_at, total, sum_pos, sum_neg, IsAbove, wrap64-small, sub_parts,
  pos_or_neg,
}

-- The chosen node after the subtraction.
abbrev lowered : ℤ → ℕ → ℤ
lowered m w = wrap64 (m -ℤ pos w)

lowered_lem :
    (m : ℤ) (w : ℕ)
    → 0 < pos_part m
    → pos_part m < 2 ^ 63
    → 0 < w
    → w < 2 ^ 63
    → (pos_part (lowered m w) + w ≡ neg_part (lowered m w) + pos_part m)
      × (neg_part (lowered m w) < w)
lowered_lem m w p h z g =
    let (e, a, b) = sub_parts m (pos w) in
    let c = pos_or_neg m in
    let d = pos_or_neg (m -ℤ pos w) in
    rw (wrap64-small (m -ℤ pos w) (omega arith) (omega arith)) (omega arith, omega arith)

-- The position of a usable node of positive weight.
abbrev pub IsPlace : ℕ → List PoolNode → Type 0
IsPlace j ns =
    (usable_at j ns ≡ true)
    × (0 < pos_part (current_at j ns))
    × (pos_part (current_at j ns) < 2 ^ 63)

module _ (w : ℕ) where
  pub usable_at-subtract_at :
      (j i : ℕ) (ns : List PoolNode) → usable_at i (subtract_at j (pos w) ns) ≡ usable_at i ns
  unfolding subtract_at
  usable_at-subtract_at j i [] = refl
  usable_at-subtract_at zero zero (n ∷ ns) = refl
  usable_at-subtract_at zero (suc i) (n ∷ ns) = refl
  usable_at-subtract_at (suc j) zero (n ∷ ns) = refl
  usable_at-subtract_at (suc j) (suc i) (n ∷ ns) = usable_at-subtract_at j i ns

  pub weight_at-subtract_at :
      (j i : ℕ) (ns : List PoolNode) → weight_at i (subtract_at j (pos w) ns) ≡ weight_at i ns
  unfolding subtract_at
  weight_at-subtract_at j i [] = refl
  weight_at-subtract_at zero zero (n ∷ ns) = refl
  weight_at-subtract_at zero (suc i) (n ∷ ns) = refl
  weight_at-subtract_at (suc j) zero (n ∷ ns) = refl
  weight_at-subtract_at (suc j) (suc i) (n ∷ ns) = weight_at-subtract_at j i ns

  pub total-subtract_at :
      (j : ℕ) (ns : List PoolNode)
      → (total (subtract_at j (pos w) ns) ≡ total ns)
        × (length (subtract_at j (pos w) ns) ≡ length ns)
  unfolding subtract_at
  total-subtract_at j [] = (refl, refl)
  total-subtract_at zero (n ∷ ns) = (refl, refl)
  total-subtract_at (suc j) (n ∷ ns) =
      let (e, l) = total-subtract_at j ns in (omega (arith, e), omega (arith, l))

-- A subtraction of the total `w` at the position `j`.
module _ (w : ℕ) (z : 0 < w) (g : w < 2 ^ 63) where
  pub current_at-subtract_at :
      (j i : ℕ) (ns : List PoolNode)
      → IsPlace j ns
      → pos_part (current_at i (subtract_at j (pos w) ns))
          + neg_part (current_at i ns)
          + (if nat_eq i j then w else 0)
        ≡ neg_part (current_at i (subtract_at j (pos w) ns)) + pos_part (current_at i ns)
  unfolding subtract_at
  current_at-subtract_at j i [] h = cc
  current_at-subtract_at zero zero (n ∷ ns) h =
      omega (arith, lowered_lem n.current_weight w h.1 h.2 z g, pos_or_neg n.current_weight)
  current_at-subtract_at zero (suc i) (n ∷ ns) h = ground arith
  current_at-subtract_at (suc j) zero (n ∷ ns) h = ground arith
  current_at-subtract_at (suc j) (suc i) (n ∷ ns) h =
      ground (arith, current_at-subtract_at j i ns h)

  pub subtract_at-IsAbove :
      (j : ℕ) (ns : List PoolNode)
      → IsPlace j ns
      → All (IsAbove w) ns
      → All (IsAbove w) (subtract_at j (pos w) ns)
  unfolding subtract_at
  subtract_at-IsAbove j [] h a = tt
  subtract_at-IsAbove zero (n ∷ ns) h a = (λ u. (lowered_lem n.current_weight w h.1 h.2 z g).1, a.1)
  subtract_at-IsAbove (suc j) (n ∷ ns) h a = (a.0, subtract_at-IsAbove j ns h a.1)

  pub sums-subtract_at :
      (j : ℕ) (ns : List PoolNode)
      → IsPlace j ns
      → sum_pos (subtract_at j (pos w) ns) + sum_neg ns + w
        ≡ sum_neg (subtract_at j (pos w) ns) + sum_pos ns
  unfolding subtract_at
  sums-subtract_at j [] h = cc
  sums-subtract_at zero (n ∷ ns) h =
      ground (arith, h.0, lowered_lem n.current_weight w h.1 h.2 z g, pos_or_neg n.current_weight)
  sums-subtract_at (suc j) (n ∷ ns) h = omega (arith, sums-subtract_at j ns h)
