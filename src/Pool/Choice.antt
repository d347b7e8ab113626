-- ===== src/Pool/Choice.antt =====
-- pkg/pool/pool.go: the loop of the weighted selection ends with a usable node of the largest raised
-- weight, and subtracts the total from it.
use go_es.Prelude.{
  ℕ, suc, ◌+◌, ◌*◌, ◌≤◌, ◌<◌, ◌≡◌, refl, ap, ◌∙◌, true, ◌&&◌, Option, none, some, List, [], ◌∷◌,
  All, length, if◌then◌else◌, inl, inr, ◌⊎◌, Bool-cases, arith,
}
use go_es.Prelude.Int.{ℤ, pos_part, neg_part}
use go_es.Pool.{PoolNode, Scan, is_usable, is_heavier, visit, scan_nodes}
use go_es.Pool.Balance.{
  bump, bumped, usable_at, current_at, total, sum_pos, sum_neg, IsBalanced, IsBalanced-small,
  total-bumped, sums-bumped, pos_or_neg,
}

-- `a ≤ b` of integers.
abbrev pub IsLe : ℤ → ℤ → Type 0
IsLe a b = pos_part a + neg_part b ≤ pos_part b + neg_part a

-- The largest so far, with one more node.
abbrev pub better : ℕ → PoolNode → Option (ℕ × ℤ) → Option (ℕ × ℤ)
better k n b =
    if is_usable n && is_heavier n.current_weight b then some (k, n.current_weight) else b

abbrev pub best : ℕ → List PoolNode → Option (ℕ × ℤ) → Option (ℕ × ℤ)
best k [] b = b
best k (n ∷ ns) b = best (suc k) ns (better k n b)

visit_best :
    (k : ℕ) (n : PoolNode) (s : Scan) → (visit k n s).1.max_node ≡ better k (bump n) s.max_node
unfolding visit
visit_best k n s = elim (Bool-cases (is_usable n)) [
  | inl u ↦ ground (arith, u)
  | inr u ↦ ground (arith, u)
]

pub scan_nodes-best :
    (k : ℕ) (ns : List PoolNode) (s : Scan)
    → (scan_nodes k ns s).1.max_node ≡ best k (bumped ns) s.max_node
unfolding scan_nodes
scan_nodes-best k [] s = refl
scan_nodes-best k (n ∷ ns) s =
    scan_nodes-best (suc k) ns (visit k n s).1 ∙ ap (best (suc k) (bumped ns)) (visit_best k n s)

-- What was found so far is at most `m`.
abbrev IsBound : Option (ℕ × ℤ) → ℤ → Type 0
IsBound none m = Unit
IsBound (some (_, found)) m = IsLe found m

better-IsBound :
    (k : ℕ) (n : PoolNode) (b : Option (ℕ × ℤ)) (m : ℤ)
    → IsBound (better k n b) m
    → IsBound b m × (is_usable n ≡ true → IsLe n.current_weight m)
better-IsBound k n none m h = ground arith
better-IsBound k n (some (j, found)) m h = elim (Bool-cases (is_usable n)) [
  | inl u ↦ ground (arith, u)
  | inr u ↦ ground (arith, u)
]

best-IsBound :
    (k : ℕ) (ns : List PoolNode) (b : Option (ℕ × ℤ)) (m : ℤ) (j : ℕ)
    → best k ns b ≡ some (j, m)
    → IsBound b m × All (λ n. is_usable n ≡ true → IsLe n.current_weight m) ns
best-IsBound k [] none m j e = cc
best-IsBound k [] (some (i, found)) m j e = (ground (arith, e), tt)
best-IsBound k (n ∷ ns) b m j e =
    let (h, hs) = best-IsBound (suc k) ns (better k n b) m j e in
    let (g, u) = better-IsBound k n b m h in (g, (u, hs))

-- The position found is the one so far, or that of a usable node.
best_place :
    (k : ℕ) (ns : List PoolNode) (b : Option (ℕ × ℤ)) (m : ℤ) (j : ℕ)
    → best k ns b ≡ some (j, m)
    → (b ≡ some (j, m)) ⊎ ((i : ℕ) × (j ≡ k + i) × (usable_at i ns ≡ true) × (current_at i ns ≡ m))
best_place k [] b m j e = inl e
best_place k (n ∷ ns) b m j e = elim (best_place (suc k) ns (better k n b) m j e) [
  | inr (i, p, u, c) ↦ inr (suc i, (omega arith), u, c)
  | inl q ↦ elim (Bool-cases (is_usable n && is_heavier n.current_weight b)) [
    | inl t ↦
        let s : ◌≡◌ {A = Option (ℕ × ℤ)} (some (k, n.current_weight)) (some (j, m)) =
          ground (arith, t, q) in
        inr (0, ground (arith, s), ground (arith, t), ground (arith, s))
    | inr f ↦ inl (ground (arith, f, q))
  ]
]

better_stays :
    (k : ℕ) (n : PoolNode) (j : ℕ) (m : ℤ)
    → (i : ℕ) × (v : ℤ) × (better k n (some (j, m)) ≡ some (i, v))
better_stays k n j m =
    elim (Bool-cases (is_usable n && is_heavier n.current_weight (some (j, m)))) [
      | inl t ↦ (k, n.current_weight, ground (arith, t))
      | inr f ↦ (j, m, ground (arith, f))
    ]

best_stays :
    (k : ℕ) (ns : List PoolNode) (j : ℕ) (m : ℤ)
    → (i : ℕ) × (v : ℤ) × (best k ns (some (j, m)) ≡ some (i, v))
best_stays k [] j m = (j, m, refl)
best_stays k (n ∷ ns) j m =
    let (i, v, e) = better_stays k n j m in
    let (i', v', e') = best_stays (suc k) ns i v in (i', v', ap (best (suc k) ns) e ∙ e')

-- With weight in the list, the search finds a node.
best_found :
    (k : ℕ) (ns : List PoolNode) → 0 < total ns → (i : ℕ) × (v : ℤ) × (best k ns none ≡ some (i, v))
best_found k [] h = absurd (omega arith)
best_found k (n ∷ ns) h = elim (Bool-cases (is_usable n)) [
  | inl u ↦
      let (i, v, e) = best_stays (suc k) ns k n.current_weight in
      (i, v, ap (best (suc k) ns) (ground (arith, u)) ∙ e)
  | inr u ↦
      let (i, v, e) = best_found (suc k) ns (ground (arith, u)) in
      (i, v, ap (best (suc k) ns) (ground (arith, u)) ∙ e)
]

-- If the largest weight is not positive, no weight is.
pos_or_neg_zero : (m : ℤ) → (pos_part m ≡ 0) ⊎ (0 < pos_part m)
pos_or_neg_zero m = ground arith

none_positive :
    (ns : List PoolNode) (m : ℤ)
    → pos_part m ≡ 0
    → All (λ n. is_usable n ≡ true → IsLe n.current_weight m) ns
    → sum_pos ns ≡ 0
none_positive [] m z h = refl
none_positive (n ∷ ns) m z h = elim (Bool-cases (is_usable n)) [
  | inl u ↦ rw u (omega (arith, none_positive ns m z h.1, h.0 u, pos_or_neg n.current_weight))
  | inr u ↦ rw u (omega (arith, none_positive ns m z h.1))
]

-- The node that a list with positive weights chooses.
pub record IsChosen (ns : List PoolNode) (j : ℕ) (m : ℤ) : Type 0 where
  pub found : best 0 ns none ≡ some (j, m)
  pub usable : usable_at j ns ≡ true
  pub current : current_at j ns ≡ m
  pub positive : 0 < pos_part m

pub IsBalanced-IsChosen :
    (w : ℕ) (ns : List PoolNode) → IsBalanced w ns → (j : ℕ) × (m : ℤ) × IsChosen (bumped ns) j m
IsBalanced-IsChosen w ns h =
    let (j, m, e) =
      best_found 0 (bumped ns) (omega (arith, total-bumped ns, h.total_is, h.some_weight)) in
    let (_, bounds) = best-IsBound 0 (bumped ns) none m j e in
    let sums : sum_pos (bumped ns) + sum_neg ns ≡ sum_neg (bumped ns) + (sum_pos ns + total ns) =
      sums-bumped ((length ns + 1) * w) ns (omega (arith, h.total_is, h.room))
        (IsBalanced-small w ns h) in
    elim (best_place 0 (bumped ns) none m j e) [
      | inl q ↦ cc
      | inr (i, p, u, c) ↦ (
        j,
        m,
        record {
          found = e;
          usable = ap (λ (x : ℕ). usable_at x (bumped ns)) (omega (arith, p)) ∙ u;
          current = ap (λ (x : ℕ). current_at x (bumped ns)) (omega (arith, p)) ∙ c;
          positive = elim (pos_or_neg_zero m) [
            | inl z ↦ absurd (
                omega
                  (arith, none_positive (bumped ns) m z bounds, h.total_is, h.sums, h.some_weight))
            | inr z ↦ z
          ];
        },
      )
    ]
