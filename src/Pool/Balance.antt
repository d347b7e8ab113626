-- ===== src/Pool/Balance.antt =====
-- pkg/pool/pool.go: the weighted selection. While the same nodes are healthy, each is served in the
-- share of its weight.
use go_es.Prelude.{
  ℕ, zero, suc, ◌+◌, ◌*◌, ◌^◌, ◌≤◌, ◌<◌, ◌≡◌, refl, ap, ◌∙◌, Bool, true, false, List, [], ◌∷◌, All,
  length, if◌then◌else◌, inl, inr, ◌⊎◌, Bool-cases, arith,
}
use mathlib.Core.Path.{ap₂}
use go_es.Prelude.Int.{ℤ, pos, negsuc, ◌+ℤ◌, ◌-ℤ◌, wrap64, pos_part, neg_part}
use go_es.Pool.{PoolNode, Scan, is_usable, raised, visit, scan_nodes}

-- Integers compare by `pos_part a + neg_part b`; an int64 in range wraps to itself.
pub wrap64-small : (x : ℤ) → pos_part x < 2 ^ 63 → neg_part x ≤ 2 ^ 63 → wrap64 x ≡ x
unfolding wrap64
wrap64-small (pos n) h g = ground arith
wrap64-small (negsuc n) h g = ground arith

add_parts :
    (a b : ℤ)
    → (pos_part (a +ℤ b) + (neg_part a + neg_part b)
        ≡ neg_part (a +ℤ b) + (pos_part a + pos_part b))
      × (pos_part (a +ℤ b) ≤ pos_part a + pos_part b)
      × (neg_part (a +ℤ b) ≤ neg_part a + neg_part b)
unfolding ◌+ℤ◌
add_parts a b = ground arith

pub sub_parts :
    (a b : ℤ)
    → (pos_part (a -ℤ b) + (neg_part a + pos_part b)
        ≡ neg_part (a -ℤ b) + (pos_part a + neg_part b))
      × (pos_part (a -ℤ b) ≤ pos_part a + neg_part b)
      × (neg_part (a -ℤ b) ≤ neg_part a + pos_part b)
unfolding ◌-ℤ◌
sub_parts a b = ground arith

pub pos_or_neg : (a : ℤ) → (pos_part a ≡ 0) ⊎ (neg_part a ≡ 0)
pos_or_neg (pos n) = inr refl
pos_or_neg (negsuc n) = inl refl

-- The sums over the usable nodes.
abbrev pub total : List PoolNode → ℕ
total [] = 0
total (n ∷ ns) = (if is_usable n then n.weight else 0) + total ns

abbrev pub sum_pos : List PoolNode → ℕ
sum_pos [] = 0
sum_pos (n ∷ ns) = (if is_usable n then pos_part n.current_weight else 0) + sum_pos ns

abbrev pub sum_neg : List PoolNode → ℕ
sum_neg [] = 0
sum_neg (n ∷ ns) = (if is_usable n then neg_part n.current_weight else 0) + sum_neg ns

-- A node of the list by its position.
abbrev pub usable_at : ℕ → List PoolNode → Bool
usable_at i [] = false
usable_at zero (n ∷ ns) = is_usable n
usable_at (suc i) (n ∷ ns) = usable_at i ns

abbrev pub current_at : ℕ → List PoolNode → ℤ
current_at i [] = pos 0
current_at zero (n ∷ ns) = n.current_weight
current_at (suc i) (n ∷ ns) = current_at i ns

abbrev pub weight_at : ℕ → List PoolNode → ℕ
weight_at i [] = 0
weight_at zero (n ∷ ns) = n.weight
weight_at (suc i) (n ∷ ns) = weight_at i ns

-- The usable nodes are above `- w`, and below `b`.
abbrev pub IsWithin : ℕ → ℕ → PoolNode → Type 0
IsWithin w b n =
    is_usable n ≡ true → (neg_part n.current_weight < w) × (pos_part n.current_weight ≤ b)

sum_neg_le :
    (w : ℕ) (ns : List PoolNode)
    → All (λ n. is_usable n ≡ true → neg_part n.current_weight < w) ns
    → sum_neg ns ≤ length ns * w
sum_neg_le w [] h = omega arith
sum_neg_le w (n ∷ ns) h = elim (Bool-cases (is_usable n)) [
  | inl u ↦ rw u (omega (arith, sum_neg_le w ns h.1, h.0 u))
  | inr u ↦ rw u (omega (arith, sum_neg_le w ns h.1))
]

-- Between the selections: the current weights sum up to the total weight `w`, each is above `- w`,
-- and the numbers of a round stay within an int64.
pub record IsBalanced (w : ℕ) (ns : List PoolNode) : Type 0 where
  pub some_weight : 0 < w
  pub total_is : total ns ≡ w
  pub sums : sum_pos ns ≡ sum_neg ns + w
  pub above : All (λ n. is_usable n ≡ true → neg_part n.current_weight < w) ns
  pub room : (length ns + 2) * w < 2 ^ 63

-- A node after its turn in the loop.
abbrev pub bump : PoolNode → PoolNode
bump n = if is_usable n then record n { current_weight = raised n } else n

abbrev pub bumped : List PoolNode → List PoolNode
bumped [] = []
bumped (n ∷ ns) = bump n ∷ bumped ns

visit_node : (k : ℕ) (n : PoolNode) (s : Scan) → (visit k n s).0 ≡ bump n
unfolding visit
visit_node k n s = ground arith

pub scan_nodes-bumped : (k : ℕ) (ns : List PoolNode) (s : Scan) → (scan_nodes k ns s).0 ≡ bumped ns
unfolding scan_nodes
scan_nodes-bumped k [] s = refl
scan_nodes-bumped k (n ∷ ns) s =
    ap₂ ◌∷◌ (visit_node k n s) (scan_nodes-bumped (suc k) ns (visit k n s).1)

add_pos : (t w : ℕ) → pos t +ℤ pos w ≡ pos (t + w)
unfolding ◌+ℤ◌
add_pos t w = ground arith

visit-total :
    (k : ℕ) (n : PoolNode) (s : Scan) (t : ℕ)
    → s.total_weight ≡ pos t
    → t + total (n ∷ []) < 2 ^ 63
    → (visit k n s).1.total_weight ≡ pos (t + total (n ∷ []))
unfolding visit
visit-total k n s t e h = elim (Bool-cases (is_usable n)) [
  | inl u ↦ ground (arith, u, e, add_pos t n.weight, wrap64-small (pos (t + n.weight)))
  | inr u ↦ ground (arith, u, e)
]

pub scan_nodes-total :
    (k : ℕ) (ns : List PoolNode) (s : Scan) (t : ℕ)
    → s.total_weight ≡ pos t
    → t + total ns < 2 ^ 63
    → (scan_nodes k ns s).1.total_weight ≡ pos (t + total ns)
unfolding scan_nodes
scan_nodes-total k [] s t e h = ground (arith, e)
scan_nodes-total k (n ∷ ns) s t e h =
    scan_nodes-total (suc k) ns (visit k n s).1 (t + total (n ∷ []))
      (visit-total k n s t e (omega arith)) (omega arith)
    ∙ ap pos (omega arith)

-- A raised weight, where it does not wrap.
raised_lem :
    (n : PoolNode)
    → pos_part n.current_weight + n.weight < 2 ^ 63
    → neg_part n.current_weight ≤ 2 ^ 63
    → (raised n ≡ n.current_weight +ℤ pos n.weight)
      × (pos_part (raised n) + neg_part n.current_weight
          ≡ neg_part (raised n) + (pos_part n.current_weight + n.weight))
      × (neg_part (raised n) ≤ neg_part n.current_weight)
unfolding raised
raised_lem n h g =
    let (e, p, q) = add_parts n.current_weight (pos n.weight) in
    let r : raised n ≡ n.current_weight +ℤ pos n.weight =
      wrap64-small (n.current_weight +ℤ pos n.weight) (omega arith) (omega arith) in
    (r, rw r (omega arith), rw r (omega arith))

pub is_usable-bump : (n : PoolNode) → is_usable (bump n) ≡ is_usable n
is_usable-bump n = ground arith

bump_sums :
    (b : ℕ) (n : PoolNode)
    → b + total (n ∷ []) < 2 ^ 63
    → IsWithin (2 ^ 63) b n
    → sum_pos (bump n ∷ []) + sum_neg (n ∷ [])
      ≡ sum_neg (bump n ∷ []) + (sum_pos (n ∷ []) + total (n ∷ []))
bump_sums b n h g = elim (Bool-cases (is_usable n)) [
  | inl u ↦ ground (arith, u, raised_lem n)
  | inr u ↦ ground (arith, u)
]

pub sums-bumped :
    (b : ℕ) (ns : List PoolNode)
    → b + total ns < 2 ^ 63
    → All (IsWithin (2 ^ 63) b) ns
    → sum_pos (bumped ns) + sum_neg ns ≡ sum_neg (bumped ns) + (sum_pos ns + total ns)
sums-bumped b [] h g = refl
sums-bumped b (n ∷ ns) h g =
    omega (arith, bump_sums b n (omega arith) g.0, sums-bumped b ns (omega arith) g.1)

-- A turn raises a usable node by its weight and leaves the others.
bump_current :
    (b : ℕ) (n : PoolNode)
    → b + total (n ∷ []) < 2 ^ 63
    → IsWithin (2 ^ 63) b n
    → is_usable n ≡ true
    → (pos_part (bump n).current_weight + neg_part n.current_weight
        ≡ neg_part (bump n).current_weight + (pos_part n.current_weight + n.weight))
      × (neg_part (bump n).current_weight ≤ neg_part n.current_weight)
bump_current b n h g u = ground (arith, u, raised_lem n)

pub current_at-bumped :
    (b : ℕ) (ns : List PoolNode) (i : ℕ)
    → b + total ns < 2 ^ 63
    → All (IsWithin (2 ^ 63) b) ns
    → usable_at i ns ≡ true
    → pos_part (current_at i (bumped ns)) + neg_part (current_at i ns)
      ≡ neg_part (current_at i (bumped ns)) + (pos_part (current_at i ns) + weight_at i ns)
current_at-bumped b [] i h g u = cc
current_at-bumped b (n ∷ ns) zero h g u = (bump_current b n (omega arith) g.0 u).0
current_at-bumped b (n ∷ ns) (suc i) h g u = current_at-bumped b ns i (omega arith) g.1 u

pub usable_at-bumped : (ns : List PoolNode) (i : ℕ) → usable_at i (bumped ns) ≡ usable_at i ns
usable_at-bumped [] i = refl
usable_at-bumped (n ∷ ns) zero = is_usable-bump n
usable_at-bumped (n ∷ ns) (suc i) = usable_at-bumped ns i

bump_weight : (n : PoolNode) → (bump n).weight ≡ n.weight
bump_weight n = ground arith

pub weight_at-bumped : (ns : List PoolNode) (i : ℕ) → weight_at i (bumped ns) ≡ weight_at i ns
weight_at-bumped [] i = refl
weight_at-bumped (n ∷ ns) zero = bump_weight n
weight_at-bumped (n ∷ ns) (suc i) = weight_at-bumped ns i

pub total-bumped : (ns : List PoolNode) → total (bumped ns) ≡ total ns
total-bumped [] = refl
total-bumped (n ∷ ns) = ground (arith, is_usable-bump n, bump_weight n, total-bumped ns)

pub length-bumped : (ns : List PoolNode) → length (bumped ns) ≡ length ns
length-bumped [] = refl
length-bumped (n ∷ ns) = ap suc (length-bumped ns)

-- The usable nodes stay above `- w`.
abbrev pub IsAbove : ℕ → PoolNode → Type 0
IsAbove w n = is_usable n ≡ true → neg_part n.current_weight < w

bump-IsAbove :
    (w b : ℕ) (n : PoolNode)
    → b + total (n ∷ []) < 2 ^ 63
    → IsWithin (2 ^ 63) b n
    → IsAbove w n
    → IsAbove w (bump n)
bump-IsAbove w b n h g a = elim (Bool-cases (is_usable n)) [
  | inl u ↦ λ _. omega (arith, (bump_current b n h g u).1, a u)
  | inr u ↦ λ v. ground (arith, u, is_usable-bump n, v)
]

pub bumped-IsAbove :
    (w b : ℕ) (ns : List PoolNode)
    → b + total ns < 2 ^ 63
    → All (IsWithin (2 ^ 63) b) ns
    → All (IsAbove w) ns
    → All (IsAbove w) (bumped ns)
bumped-IsAbove w b [] h g a = tt
bumped-IsAbove w b (n ∷ ns) h g a =
    (bump-IsAbove w b n (omega arith) g.0 a.0, bumped-IsAbove w b ns (omega arith) g.1 a.1)

-- A balanced list is small.
sum_pos_small :
    (b : ℕ) (ns : List PoolNode) (w : ℕ)
    → All (IsAbove w) ns
    → w ≤ 2 ^ 63
    → sum_pos ns ≤ b
    → All (IsWithin (2 ^ 63) b) ns
sum_pos_small b [] w a l h = tt
sum_pos_small b (n ∷ ns) w a l h =
    (λ u. (omega (arith, a.0 u), ground (arith, u)), sum_pos_small b ns w a.1 l (omega arith))

pub IsBalanced-sum :
    (w : ℕ) (ns : List PoolNode) → IsBalanced w ns → sum_pos ns ≤ (length ns + 1) * w
IsBalanced-sum w ns h = omega (arith, h.sums, sum_neg_le w ns h.above)

pub IsBalanced-small :
    (w : ℕ) (ns : List PoolNode)
    → IsBalanced w ns
    → All (IsWithin (2 ^ 63) ((length ns + 1) * w)) ns
IsBalanced-small w ns h =
    sum_pos_small ((length ns + 1) * w) ns w h.above (omega (arith, h.room)) (IsBalanced-sum w ns h)
