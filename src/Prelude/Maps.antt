-- ===== src/Prelude/Maps.antt =====
-- Go maps as association lists in which a write replaces the entry of its key.
use go_es.Prelude.Equality.{Comparable, ◌==◌}
use go_es.Prelude.Tests.{if◌then◌else◌}
use go_es.Prelude.Lists.{length}
use Prim.Native.Nat.{◌+◌, ◌≤◌}
use mathlib.Core.Path.{◌≡◌, refl}
use mathlib.Core.List.{List, [], ◌∷◌}
use mathlib.Core.Option.{Option, none, some}
use native.Mathlib.Omega.{arith}

abbrev pub Map {ℓ κ} : Type ℓ → Type κ → Type (ℓ ⊔ κ)
Map K V = List (K × V)

module _ {ℓ κ} {K : Type ℓ} {V : Type κ} ⦃e : Comparable K⦄ where
  unfoldable pub lookup : K → Map K V → Option V
  lookup key [] = none
  lookup key ((k, value) ∷ rest) = if k == key then some value else lookup key rest

  unfoldable pub insert : K → V → Map K V → Map K V
  insert key value [] = (key, value) ∷ []
  insert key value ((k, old) ∷ rest) =
      if k == key then (key, value) ∷ rest else (k, old) ∷ insert key value rest

  unfoldable pub delete : K → Map K V → Map K V
  delete key [] = []
  delete key ((k, value) ∷ rest) =
      if k == key then delete key rest else (k, value) ∷ delete key rest

  -- Reading after a write.
  pub lookup-insert :
      (key other : K) (value : V) (m : Map K V)
      → lookup other (insert key value m) ≡ (if key == other then some value else lookup other m)
  unfolding lookup insert
  lookup-insert key other value [] = refl
  lookup-insert key other value ((k, old) ∷ rest) = ground (
    arith,
    lookup-insert key other value rest,
    e.equals_iff key other,
    e.equals_iff k key,
    e.equals_iff k other,
  )

  pub lookup-delete :
      (k j : K) (m : Map K V) → lookup j (delete k m) ≡ (if k == j then none else lookup j m)
  unfolding lookup delete
  lookup-delete k j [] = ground arith
  lookup-delete k j ((i, w) ∷ m) =
      ground (arith, e.equals_iff k j, e.equals_iff i k, e.equals_iff i j, lookup-delete k j m)

  pub length-delete-le : (k : K) (m : Map K V) → length (delete k m) ≤ length m
  unfolding delete
  length-delete-le k [] = omega arith
  length-delete-le k ((j, w) ∷ m) = ground (arith, length-delete-le k m)

  -- A write adds an entry exactly when its key is new.
  pub length-insert :
      (k : K) (v : V) (m : Map K V)
      → length (insert k v m) ≡ elim (lookup k m) [ none ↦ length m + 1 | some _ ↦ length m ]
  unfolding lookup insert
  length-insert k v [] = omega arith
  length-insert k v ((j, w) ∷ m) = ground (arith, length-insert k v m)

  pub length-delete-lt :
      (k : K) (v : V) (m : Map K V) → lookup k m ≡ some v → length (delete k m) + 1 ≤ length m
  unfolding lookup delete
  length-delete-lt k v [] h = cc
  length-delete-lt k v ((j, w) ∷ m) h = ground (arith, length-delete-le k m, length-delete-lt k v m)

-- The inner map of a map of maps; a missing one reads as empty.
module _ {ℓ κ μ} {K : Type ℓ} {L : Type κ} {V : Type μ} ⦃e : Comparable K⦄ where
  unfoldable pub sub : K → Map K (Map L V) → Map L V
  sub k m = elim (lookup k m) [ none ↦ [] | some inner ↦ inner ]

  pub sub-insert :
      (k j : K) (inner : Map L V) (m : Map K (Map L V))
      → sub j (insert k inner m) ≡ (if k == j then inner else sub j m)
  unfolding sub
  sub-insert k j inner m = ground (arith, lookup-insert k j inner m)

  pub sub-delete :
      (k j : K) (m : Map K (Map L V)) → sub j (delete k m) ≡ (if k == j then [] else sub j m)
  unfolding sub
  sub-delete k j m = ground (arith, lookup-delete k j m)
