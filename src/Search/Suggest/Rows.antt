-- ===== src/Search/Suggest/Rows.antt =====
-- internal/search/suggest.go: the rows of `levenshtein` hold the distances of the prefixes.
use go_es.Prelude.{
  All, ℕ, ◌+◌, ◌≤◌, ◌≡◌, refl, sym, ap, ◌∙◌, List, [], ◌∷◌, length, if◌then◌else◌, ltb, arith,
}
use go_es.Search.Suggest.{min3, cost, next_cells, row_min, last, first_row}
use go_es.Search.Suggest.Edits.{distance, distance-nil, rev_onto, min3_lower}

-- The distances of a reversed prefix and the longer ones to a reversed prefix of the other list.
unfoldable pub cells_of : List ℕ → List ℕ → List ℕ → List ℕ
unfolding distance
cells_of front [] bs = []
cells_of front (x ∷ xs) bs = distance (x ∷ front) bs ∷ cells_of (x ∷ front) xs bs

abbrev pub row_of : List ℕ → List ℕ → List ℕ → List ℕ
row_of front xs bs = distance front bs ∷ cells_of front xs bs

pub next_cells-cells_of :
    (front xs bs : List ℕ) (y left : ℕ)
    → left ≡ distance front (y ∷ bs)
    → next_cells left xs (row_of front xs bs) y ≡ cells_of front xs (y ∷ bs)
unfolding next_cells cells_of distance
next_cells-cells_of front [] bs y left e = refl
next_cells-cells_of front (x ∷ xs) bs y left e =
    ap
      (λ l.
        let cell = min3 (l + 1) (distance (x ∷ front) bs + 1) (distance front bs + cost x y) in
        cell ∷ next_cells cell xs (row_of (x ∷ front) xs bs) y)
      e
    ∙ ap (λ cells. distance (x ∷ front) (y ∷ bs) ∷ cells)
        (next_cells-cells_of (x ∷ front) xs bs y (distance (x ∷ front) (y ∷ bs)) refl)

pub first_row-row_of :
    (front xs : List ℕ) (i : ℕ) → i ≡ length front → first_row i xs ≡ row_of front xs []
unfolding first_row cells_of
first_row-row_of front [] i e = ap (λ d. d ∷ []) (e ∙ sym (distance-nil front))
first_row-row_of front (x ∷ xs) i e =
    ap (λ d. d ∷ first_row (i + 1) xs) (e ∙ sym (distance-nil front))
    ∙ ap (λ cells. distance front [] ∷ cells)
        (first_row-row_of (x ∷ front) xs (i + 1) (omega arith))

pub last-row_of :
    (front xs bs : List ℕ) → last (row_of front xs bs) ≡ distance (rev_onto front xs) bs
unfolding last cells_of rev_onto
last-row_of front [] bs = refl
last-row_of front (x ∷ xs) bs = last-row_of (x ∷ front) xs bs

abbrev pub IsAtLeast : ℕ → List ℕ → Type 0
IsAtLeast m = All (λ c. m ≤ c)

-- The least cell of a row is at most each of its cells.
pub row_min-IsAtLeast :
    (low : ℕ) (cells : List ℕ) → (row_min low cells ≤ low) × IsAtLeast (row_min low cells) cells
unfolding row_min
row_min-IsAtLeast low [] = (omega arith, tt)
row_min-IsAtLeast low (c ∷ cs) =
    let lower = if ltb c low then c else low in
    let rest = row_min-IsAtLeast lower cs in
    let both : (lower ≤ low) × (lower ≤ c) = (ground arith, ground arith) in
    (omega (arith, rest.0, both.0), (omega (arith, rest.0, both.1), rest.1))

-- No cell of a row is less than all of the row before it.
next_cells-IsAtLeast :
    (m : ℕ) (front xs bs : List ℕ) (y : ℕ)
    → m ≤ distance front (y ∷ bs)
    → IsAtLeast m (row_of front xs bs)
    → IsAtLeast m (row_of front xs (y ∷ bs))
unfolding cells_of distance
next_cells-IsAtLeast m front [] bs y h above = (h, tt)
next_cells-IsAtLeast m front (x ∷ xs) bs y h above = (
  h,
  next_cells-IsAtLeast m (x ∷ front) xs bs y
      (min3_lower m (distance front (y ∷ bs) + 1) (distance (x ∷ front) bs + 1)
        (distance front bs + cost x y) (omega arith) (omega (arith, above.1.0))
        (omega (arith, above.0)))
      above.1,
)

pub rest-IsAtLeast :
    (m : ℕ) (xs ys bs : List ℕ)
    → IsAtLeast m (row_of [] xs bs)
    → IsAtLeast m (row_of [] xs (rev_onto bs ys))
unfolding rev_onto distance
rest-IsAtLeast m xs [] bs above = above
rest-IsAtLeast m xs (y ∷ ys) bs above =
    rest-IsAtLeast m xs ys (y ∷ bs)
      (next_cells-IsAtLeast m [] xs bs y (omega (arith, above.0)) above)

pub last-IsAtLeast : (m d : ℕ) (cells : List ℕ) → IsAtLeast m (d ∷ cells) → m ≤ last (d ∷ cells)
unfolding last
last-IsAtLeast m d [] above = above.0
last-IsAtLeast m d (c ∷ cs) above = last-IsAtLeast m c cs above.1
