-- ===== src/Pool/Fairness.antt =====
-- pkg/pool/pool.go: the weighted selection serves each node in the share of its weight.
use go_es.Prelude.{
  ℕ, zero, suc, ◌+◌, ◌*◌, ◌^◌, ◌≤◌, ◌<◌, ◌≡◌, refl, sym, ap, ◌∙◌, subst, true, Option, none, some,
  List, [], ◌∷◌, All, length, if◌then◌else◌, nat_eq, inl, inr, Bool-cases, arith,
}
use go_es.Prelude.Int.{ℤ, pos, pos_part, neg_part}
use go_es.Pool.{PoolNode, start_scan, subtract_at, chosen, rebalance}
use go_es.Pool.Balance.{
  IsWithin, scan_nodes-bumped, scan_nodes-total, current_at-bumped, usable_at-bumped,
  weight_at-bumped, length-bumped, bumped-IsAbove, bumped, usable_at, current_at, weight_at, total,
  sum_pos, sum_neg, IsAbove, IsBalanced, IsBalanced-small, total-bumped, sums-bumped, pos_or_neg,
  scan_nodes-bumped, scan_nodes-total,
}
use go_es.Pool.Choice.{IsChosen, IsBalanced-IsChosen, scan_nodes-best}
use go_es.Pool.Deduction.{
  IsPlace, usable_at-subtract_at, weight_at-subtract_at, total-subtract_at, current_at-subtract_at,
  subtract_at-IsAbove, sums-subtract_at,
}

-- What the loop leaves, in the terms of the raised list.
chosen_lem : (ns : List PoolNode) (j : ℕ) (m : ℤ) → IsChosen (bumped ns) j m → chosen ns ≡ some j
unfolding chosen
chosen_lem ns j m c = ground (arith, scan_nodes-best 0 ns start_scan, c.found)

rebalance_lem :
    (w : ℕ) (ns : List PoolNode) (j : ℕ) (m : ℤ)
    → IsBalanced w ns
    → IsChosen (bumped ns) j m
    → rebalance ns ≡ subtract_at j (pos w) (bumped ns)
unfolding rebalance
rebalance_lem w ns j m h c =
    rw
      (
        scan_nodes-bumped 0 ns start_scan,
        scan_nodes-total 0 ns start_scan 0 refl (omega (arith, h.total_is, h.room)),
        scan_nodes-best 0 ns start_scan,
        c.found,
      )
      (ap (λ (t : ℕ). subtract_at j (pos t) (bumped ns)) (omega (arith, h.total_is)))

within_at :
    (b : ℕ) (ns : List PoolNode) (i : ℕ)
    → All (IsWithin (2 ^ 63) b) ns
    → usable_at i ns ≡ true
    → pos_part (current_at i ns) ≤ b
within_at b [] i h u = cc
within_at b (n ∷ ns) zero h u = (h.0 u).1
within_at b (n ∷ ns) (suc i) h u = within_at b ns i h.1 u

weight_le : (ns : List PoolNode) (i : ℕ) → usable_at i ns ≡ true → weight_at i ns ≤ total ns
weight_le [] i u = cc
weight_le (n ∷ ns) zero u = ground (arith, u)
weight_le (n ∷ ns) (suc i) u = omega (arith, weight_le ns i u)

module _ (w : ℕ) (ns : List PoolNode) (h : IsBalanced w ns) (j : ℕ) (m : ℤ)
    (c : IsChosen (bumped ns) j m) where
  small : All (IsWithin (2 ^ 63) ((length ns + 1) * w)) ns
  small = IsBalanced-small w ns h

  fits : (length ns + 1) * w + total ns < 2 ^ 63
  fits = omega (arith, h.total_is, h.room)

  room : w < 2 ^ 63
  room = omega (arith, h.room)

  chosen-IsPlace : IsPlace j (bumped ns)
  chosen-IsPlace =
      let u : usable_at j ns ≡ true = sym (usable_at-bumped ns j) ∙ c.usable in
      let e : pos_part (current_at j (bumped ns)) ≡ pos_part m = ap pos_part c.current in
      (
        c.usable,
        omega (arith, e, c.positive),
        omega (
          arith,
          current_at-bumped ((length ns + 1) * w) ns j fits small u,
          within_at ((length ns + 1) * w) ns j small u,
          weight_le ns j u,
          h.total_is,
          h.room,
          pos_or_neg (current_at j (bumped ns)),
        ),
      )

  kept : IsBalanced w (subtract_at j (pos w) (bumped ns))
  kept =
      let (t, l) = total-subtract_at w j (bumped ns) in
      record {
        some_weight = h.some_weight;
        total_is = t ∙ total-bumped ns ∙ h.total_is;
        sums = omega (
          arith,
          sums-subtract_at w h.some_weight room j (bumped ns) chosen-IsPlace,
          sums-bumped ((length ns + 1) * w) ns fits small,
          h.sums,
          h.total_is,
        );
        above =
            subtract_at-IsAbove w h.some_weight room j (bumped ns) chosen-IsPlace
              (bumped-IsAbove w ((length ns + 1) * w) ns fits small h.above);
        room = omega (arith, ap (λ (k : ℕ). (k + 2) * w) (l ∙ length-bumped ns), h.room);
      }

  gained :
      (i : ℕ)
      → usable_at i ns ≡ true
      → pos_part (current_at i (subtract_at j (pos w) (bumped ns)))
          + neg_part (current_at i ns)
          + (if nat_eq i j then w else 0)
        ≡ neg_part (current_at i (subtract_at j (pos w) (bumped ns)))
          + (pos_part (current_at i ns) + weight_at i ns)
  gained i u = omega (
    arith,
    current_at-subtract_at w h.some_weight room j i (bumped ns) chosen-IsPlace,
    current_at-bumped ((length ns + 1) * w) ns i fits small u,
  )

-- Whether the selection takes the node of position `i`: 1 or 0.
abbrev pub takes : ℕ → Option ℕ → ℕ
takes i none = 0
takes i (some j) = if nat_eq i j then 1 else 0

unfoldable pub after_rounds : ℕ → List PoolNode → List PoolNode
after_rounds zero ns = ns
after_rounds (suc t) ns = after_rounds t (rebalance ns)

-- How often the node of position `i` is taken in `t` selections.
unfoldable pub served : ℕ → ℕ → List PoolNode → ℕ
served zero i ns = 0
served (suc t) i ns = takes i (chosen ns) + served t i (rebalance ns)

-- One selection from balanced nodes: `next` stands after it, `pick` was taken.
record IsRound (w : ℕ) (ns next : List PoolNode) (pick : Option ℕ) : Type 0 where
  balanced : IsBalanced w next
  same_size : length next ≡ length ns
  usable_same : (i : ℕ) → usable_at i next ≡ usable_at i ns
  weight_same : (i : ℕ) → weight_at i next ≡ weight_at i ns
  gain :
      (i : ℕ)
      → usable_at i ns ≡ true
      → pos_part (current_at i next) + neg_part (current_at i ns) + w * takes i pick
        ≡ neg_part (current_at i next) + (pos_part (current_at i ns) + weight_at i ns)

times_takes : (w i j : ℕ) → w * takes i (some j) ≡ (if nat_eq i j then w else 0)
times_takes w i j = elim (Bool-cases (nat_eq i j)) [
  | inl e ↦ rw e (omega arith)
  | inr e ↦ rw e (omega arith)
]

rebalance-IsRound :
    (w : ℕ) (ns : List PoolNode) → IsBalanced w ns → IsRound w ns (rebalance ns) (chosen ns)
rebalance-IsRound w ns h =
    let (j, m, c) = IsBalanced-IsChosen w ns h in
    let round : IsRound w ns (subtract_at j (pos w) (bumped ns)) (some j) = record {
      balanced = kept w ns h j m c;
      same_size = (total-subtract_at w j (bumped ns)).1 ∙ length-bumped ns;
      usable_same = λ i. usable_at-subtract_at w j i (bumped ns) ∙ usable_at-bumped ns i;
      weight_same = λ i. weight_at-subtract_at w j i (bumped ns) ∙ weight_at-bumped ns i;
      gain = λ i u. omega (arith, gained w ns h j m c i u, times_takes w i j);
    } in
    subst (λ next. IsRound w ns next (chosen ns)) (sym (rebalance_lem w ns j m h c))
      (subst (λ pick. IsRound w ns (subtract_at j (pos w) (bumped ns)) pick)
        (sym (chosen_lem ns j m c)) round)

-- Some selections from balanced nodes, for the node of one position.
record IsAccounted (w t i : ℕ) (ns : List PoolNode) : Type 0 where
  balanced : IsBalanced w (after_rounds t ns)
  same_size : length (after_rounds t ns) ≡ length ns
  usable : usable_at i (after_rounds t ns) ≡ true
  account :
      pos_part (current_at i (after_rounds t ns)) + neg_part (current_at i ns) + w * served t i ns
      ≡ neg_part (current_at i (after_rounds t ns))
        + (pos_part (current_at i ns) + t * weight_at i ns)

accounts :
    (w t i : ℕ) (ns : List PoolNode)
    → IsBalanced w ns
    → usable_at i ns ≡ true
    → IsAccounted w t i ns
unfolding after_rounds served
accounts w zero i ns h u = record {
  balanced = h;
  same_size = refl;
  usable = u;
  account = omega arith;
}
accounts w (suc t) i ns h u =
    let r = rebalance-IsRound w ns h in
    let a = accounts w t i (rebalance ns) r.balanced (r.usable_same i ∙ u) in
    record {
      balanced = a.balanced;
      same_size = a.same_size ∙ r.same_size;
      usable = a.usable;
      account = omega (arith, a.account, r.gain i u, ap (λ (x : ℕ). t * x) (r.weight_same i));
    }

above_at :
    (w : ℕ) (ns : List PoolNode) (i : ℕ)
    → All (IsAbove w) ns
    → usable_at i ns ≡ true
    → neg_part (current_at i ns) < w
above_at w [] i h u = cc
above_at w (n ∷ ns) zero h u = h.0 u
above_at w (n ∷ ns) (suc i) h u = above_at w ns i h.1 u

-- Nodes as `NewPool` makes them: the current weight of each is its weight.
abbrev pub IsFresh : List PoolNode → Type 0
IsFresh ns = All (λ n. n.current_weight ≡ pos n.weight) ns

fresh_sums : (ns : List PoolNode) → IsFresh ns → (sum_pos ns ≡ total ns) × (sum_neg ns ≡ 0)
fresh_sums [] h = (refl, refl)
fresh_sums (n ∷ ns) h =
    let (p, q) = fresh_sums ns h.1 in (ground (arith, p, h.0), ground (arith, q, h.0))

fresh-IsAbove : (w : ℕ) (ns : List PoolNode) → 0 < w → IsFresh ns → All (IsAbove w) ns
fresh-IsAbove w [] z h = tt
fresh-IsAbove w (n ∷ ns) z h = (λ u. omega (arith, z, ap neg_part h.0), fresh-IsAbove w ns z h.1)

fresh-IsBalanced :
    (ns : List PoolNode)
    → IsFresh ns
    → 0 < total ns
    → (length ns + 2) * total ns < 2 ^ 63
    → IsBalanced (total ns) ns
fresh-IsBalanced ns h z r =
    let (p, q) = fresh_sums ns h in
    record {
      some_weight = z;
      total_is = refl;
      sums = omega (arith, p, q);
      above = fresh-IsAbove (total ns) ns z h;
      room = r;
    }

fresh_at :
    (ns : List PoolNode) (i : ℕ)
    → IsFresh ns
    → usable_at i ns ≡ true
    → current_at i ns ≡ pos (weight_at i ns)
fresh_at [] i h u = cc
fresh_at (n ∷ ns) zero h u = h.0
fresh_at (n ∷ ns) (suc i) h u = fresh_at ns i h.1 u

-- The weighted selection is fair. Let the current weight of each node be its weight, as `NewPool`
-- sets it, let the usable nodes have the total weight `W`, with `(length + 2) * W` within an int64,
-- and let no node change its health. In any number `t` of selections, a usable node of weight `w`
-- is taken less than `(t + 1) * w / W + 1` times, and at least `(t + 1) * w / W - (length + 1)`
-- times, so it is never left out for good.
pub served_bounds :
    (ns : List PoolNode) (i t : ℕ)
    → IsFresh ns
    → usable_at i ns ≡ true
    → 0 < weight_at i ns
    → (length ns + 2) * total ns < 2 ^ 63
    → (total ns * served t i ns < (t + 1) * weight_at i ns + total ns)
      × ((t + 1) * weight_at i ns ≤ total ns * served t i ns + (length ns + 1) * total ns)
served_bounds ns i t f u z r =
    let w : ℕ = total ns in
    let h = fresh-IsBalanced ns f (omega (arith, weight_le ns i u)) r in
    let a = accounts w t i ns h u in
    let above = above_at w (after_rounds t ns) i a.balanced.above a.usable in
    let below =
      within_at ((length (after_rounds t ns) + 1) * w) (after_rounds t ns) i
        (IsBalanced-small w (after_rounds t ns) a.balanced) a.usable in
    let e = fresh_at ns i f u in
    let size = ap (λ (k : ℕ). (k + 1) * w) a.same_size in
    let p = ap pos_part e in
    let q = ap neg_part e in
    (omega (arith, a.account, above, p, q), omega (arith, a.account, below, size, p, q))
