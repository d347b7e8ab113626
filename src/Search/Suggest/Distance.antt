-- ===== src/Search/Suggest/Distance.antt =====
-- internal/search/suggest.go: `levenshtein` against the least number of edits.
use go_es.Prelude.{
  ℕ, suc, ◌+◌, ◌-◌, ◌≤◌, ◌<◌, ◌≡◌, refl, sym, ap, ◌∙◌, subst, Option, none, some, List, [], ◌∷◌,
  length, if◌then◌else◌, ltb, nat_eq, arith, Bool-cases, inl, inr,
}
use go_es.Search.Suggest.{next_cells, row_min, last, first_row, rows, levenshtein}
use go_es.Search.Suggest.Edits.{
  Edits, distance, distance_least, distance_reached, flip, length-difference, rev_onto, reversed,
  twice,
}
use go_es.Search.Suggest.Rows.{
  cells_of, row_of, next_cells-cells_of, first_row-row_of, last-row_of, row_min-IsAtLeast,
  rest-IsAtLeast, last-IsAtLeast,
}

-- The answer for a distance: itself up to the limit, and none above it.
abbrev pub IsAnswer : ℕ → ℕ → Option ℕ → Type 0
IsAnswer limit d none = limit < d
IsAnswer limit d (some k) = (k ≡ d) × (d ≤ limit)

-- Pruning is sound: a row above the limit has only rows above the limit after it.
pruned :
    (limit : ℕ) (xs ys bs : List ℕ)
    → limit < row_min (distance [] bs) (cells_of [] xs bs)
    → limit < distance (rev_onto [] xs) (rev_onto bs ys)
pruned limit xs ys bs h =
    let m = row_min (distance [] bs) (cells_of [] xs bs) in
    let end =
      last-IsAtLeast m (distance [] (rev_onto bs ys)) (cells_of [] xs (rev_onto bs ys))
        (rest-IsAtLeast m xs ys bs (row_min-IsAtLeast (distance [] bs) (cells_of [] xs bs))) in
    omega (arith, end, last-row_of [] xs (rev_onto bs ys))

rows-IsAnswer :
    (j : ℕ) (xs ys bs prev : List ℕ) (limit : ℕ)
    → j ≡ suc (length bs)
    → prev ≡ row_of [] xs bs
    → IsAnswer limit (distance (rev_onto [] xs) (rev_onto bs ys)) (rows j xs ys prev limit)
unfolding rows rev_onto distance
rows-IsAnswer j xs [] bs prev limit i e = elim (Bool-cases (ltb limit (last prev))) [
  | inl t ↦
      let same : last prev ≡ distance (rev_onto [] xs) bs = ap last e ∙ last-row_of [] xs bs in
      rw t (ground (arith, same))
  | inr t ↦
      let same : last prev ≡ distance (rev_onto [] xs) bs = ap last e ∙ last-row_of [] xs bs in
      rw t (same, ground (arith, same))
]
rows-IsAnswer j xs (y ∷ ys) bs prev limit i e =
    let cells : next_cells j xs prev y ≡ cells_of [] xs (y ∷ bs) =
      ap (λ p. next_cells j xs p y) e ∙ next_cells-cells_of [] xs bs y j i in
    elim (Bool-cases (ltb limit (row_min j (next_cells j xs prev y)))) [
      | inl t ↦
          let low : row_min j (next_cells j xs prev y)
              ≡ row_min (suc (length bs)) (cells_of [] xs (y ∷ bs)) =
            ap (λ k. row_min k (next_cells j xs prev y)) i ∙ ap (row_min (suc (length bs))) cells in
          rw t (pruned limit xs ys (y ∷ bs) (ground (arith, low, t)))
      | inr t ↦ rw t (
          rows-IsAnswer (j + 1) xs ys (y ∷ bs) (j ∷ next_cells j xs prev y) limit (omega arith)
            (ap (λ k. k ∷ next_cells j xs prev y) i ∙ ap (λ cs. suc (length bs) ∷ cs) cells))
    ]

-- The least number of edits of two lists is that of their reverses.
distance_reversed : (a b : List ℕ) → distance (rev_onto [] a) (rev_onto [] b) ≡ distance a b
distance_reversed a b =
    let up = distance_least (reversed (distance_reached a b)) in
    let back : Edits a b (distance (rev_onto [] a) (rev_onto [] b)) =
      let m = distance (rev_onto [] a) (rev_onto [] b) in
      subst (λ xs. Edits xs b m) (twice a)
        (subst (λ ys. Edits (rev_onto [] (rev_onto [] a)) ys m) (twice b)
          (reversed (distance_reached (rev_onto [] a) (rev_onto [] b)))) in
    omega (arith, up, distance_least back)

distance_flipped : (a b : List ℕ) → distance b a ≡ distance a b
distance_flipped a b = omega (
  arith,
  distance_least (flip (distance_reached a b)),
  distance_least (flip (distance_reached b a)),
)

table-IsAnswer :
    (a b : List ℕ) (limit : ℕ) → IsAnswer limit (distance a b) (rows 1 a b (first_row 0 a) limit)
table-IsAnswer a b limit =
    subst (λ d. IsAnswer limit d (rows 1 a b (first_row 0 a) limit)) (distance_reversed a b)
      (rows-IsAnswer 1 a b [] (first_row 0 a) limit refl (first_row-row_of [] a 0 refl))

distance_empty : (a b : List ℕ) → length a ≡ 0 → distance a b ≡ length b
unfolding distance
distance_empty [] b e = refl
distance_empty (x ∷ xs) b e = absurd (omega arith)

-- The longer list as the rows, the shorter one as the columns.
oriented :
    (a b : List ℕ) (limit : ℕ)
    → IsAnswer limit (distance a b) (
        if ltb (length b) (length a)
        then rows 1 b a (first_row 0 b) limit
        else rows 1 a b (first_row 0 a) limit)
oriented a b limit = elim (Bool-cases (ltb (length b) (length a))) [
  | inl t ↦ rw t (
      subst (λ d. IsAnswer limit d (rows 1 b a (first_row 0 b) limit)) (distance_flipped a b)
        (table-IsAnswer b a limit))
  | inr t ↦ rw t (table-IsAnswer a b limit)
]

-- Neither early return changes the answer.
levenshtein-IsAnswer :
    (a b : List ℕ) (limit : ℕ) → IsAnswer limit (distance a b) (levenshtein a b limit)
unfolding levenshtein
levenshtein-IsAnswer a b limit =
    let apart = length-difference (distance_reached a b) in
    elim (Bool-cases (ltb limit ((length a - length b) + (length b - length a)))) [
      | inl t ↦ rw t (ground (arith, t, apart))
      | inr t ↦ rw t (elim (Bool-cases (nat_eq (length a) 0)) [
        | inl u ↦
            let d = distance_empty a b (ground (arith, u)) in rw u (sym d, ground (arith, t, u, d))
        | inr u ↦ rw u (elim (Bool-cases (nat_eq (length b) 0)) [
          | inl v ↦
              let d = distance_flipped b a ∙ distance_empty b a (ground (arith, v)) in
              rw v (sym d, ground (arith, t, v, d))
          | inr v ↦ rw v (oriented a b limit)
        ])
      ])
    ]

-- What `levenshtein` promises of two lists of runes: an answer is the least number of insertions,
-- deletions and replacements that turn one into the other, and at most the limit; without an answer
-- every way takes more than the limit.
abbrev pub Promise : List ℕ → List ℕ → ℕ → Option ℕ → Type 0
Promise a b limit none = (n : ℕ) → Edits a b n → limit < n
Promise a b limit (some k) = Edits a b k × ((k ≤ limit) × ((n : ℕ) → Edits a b n → k ≤ n))

Promise-IsAnswer :
    (a b : List ℕ) (limit : ℕ) (r : Option ℕ)
    → IsAnswer limit (distance a b) r
    → Promise a b limit r
Promise-IsAnswer a b limit none h = λ n e. omega (arith, h, distance_least e)
Promise-IsAnswer a b limit (some k) (e, h) = (
  subst (Edits a b) (sym e) (distance_reached a b),
  (omega arith, λ n w. omega (arith, e, distance_least w)),
)

-- `levenshtein` gives the least number of insertions, deletions and replacements that turn one list of
-- runes into the other where it is at most the limit, and no answer exactly where every way between
-- the lists takes more edits than the limit, whatever rows it leaves out.
pub levenshtein_lem : (a b : List ℕ) (limit : ℕ) → Promise a b limit (levenshtein a b limit)
levenshtein_lem a b limit =
    Promise-IsAnswer a b limit (levenshtein a b limit) (levenshtein-IsAnswer a b limit)
