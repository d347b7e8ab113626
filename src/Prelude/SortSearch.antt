-- ===== src/Prelude/SortSearch.antt =====
-- Go's `sort.Search`: binary search for the smallest index at which a monotone test holds.
use Prim.Native.Nat.{ℕ, zero, suc, ◌+◌, ◌-◌, ◌/◌, ◌≤◌, ◌<◌}
use mathlib.Core.Path.{◌≡◌, sym, ◌∙◌}
use mathlib.Core.Logic.{inl, inr}
use mathlib.Core.Bool.{Bool, true, false, false≢true}
use native.Mathlib.Omega.{arith}
use go_es.Prelude.Tests.{ltb, if◌then◌else◌, Bool-cases}

-- The loop over `[i, j)`; each round at least halves the interval, so `j - i` rounds are enough.
unfoldable pub search_loop : ℕ → (ℕ → Bool) → ℕ → ℕ → ℕ
search_loop zero f i j = i
search_loop (suc fuel) f i j =
    let h : ℕ = (i + j) / 2 in
    let up : ℕ = search_loop fuel f (h + 1) j in
    let down : ℕ = search_loop fuel f i h in if ltb i j then (if f h then down else up) else i

unfoldable pub sort_search : ℕ → (ℕ → Bool) → ℕ
unfolding search_loop
sort_search n f = search_loop n f 0 n

-- `k` splits the indices below `n`: the test fails below `k` and holds from `k` on.
pub record Splits (n : ℕ) (f : ℕ → Bool) (k : ℕ) : Type 0 where
  pub within : k ≤ n
  pub below : (m : ℕ) → m < k → f m ≡ false
  pub above : (m : ℕ) → k ≤ m → m < n → f m ≡ true

abbrev pub IsMonotone : ℕ → (ℕ → Bool) → Type 0
IsMonotone n f = (a b : ℕ) → a ≤ b → b < n → f a ≡ true → f b ≡ true

search_loop-Splits :
    (fuel n : ℕ) (f : ℕ → Bool) (i j : ℕ)
    → IsMonotone n f
    → j - i ≤ fuel
    → i ≤ j
    → j ≤ n
    → ((m : ℕ) → m < i → f m ≡ false)
    → ((m : ℕ) → j ≤ m → m < n → f m ≡ true)
    → Splits n f (search_loop fuel f i j)
unfolding search_loop
search_loop-Splits zero n f i j mono enough ij jn lo hi = record {
  within = omega arith;
  below = lo;
  above = λ m a b. hi m (omega arith) b;
}
search_loop-Splits (suc fuel) n f i j mono enough ij jn lo hi = elim (Bool-cases (ltb i j)) [
  | inr empty ↦
      rw empty (record { within = omega arith; below = lo; above = λ m a b. hi m (ground arith) b })
  | inl more ↦ elim (Bool-cases (f ((i + j) / 2))) [
    | inl yes' ↦
        rw (more, yes')
          (search_loop-Splits fuel n f i ((i + j) / 2) mono (ground arith) (ground arith)
            (ground arith) lo (λ m a b. mono ((i + j) / 2) m a b yes'))
    | inr no' ↦
        rw (more, no')
          (search_loop-Splits fuel n f ((i + j) / 2 + 1) j mono (ground arith) (ground arith) jn
            (λ m a. elim (Bool-cases (f m)) [
              | inl t ↦
                  absurd
                    (false≢true (sym no' ∙ mono m ((i + j) / 2) (omega arith) (ground arith) t))
              | inr t ↦ t
            ])
            hi)
  ]
]

pub sort_search-Splits : (n : ℕ) (f : ℕ → Bool) → IsMonotone n f → Splits n f (sort_search n f)
unfolding sort_search
sort_search-Splits n f mono =
    search_loop-Splits n n f 0 n mono (omega arith) (omega arith) (omega arith)
      (λ m a. absurd (omega arith)) (λ m a b. absurd (omega arith))
