-- ===== src/Cache/Tracking.antt =====
-- pkg/cache/lru.go: how the order list and the index sets change, and the invariant of the cache.
use go_es.Prelude.{
  ◌≤◌, ◌<◌, ◌≡◌, refl, inl, inr, Bool, true, false, not, ◌&&◌, ◌||◌, none, some, List, [], ◌∷◌,
  ◌++◌, arith, ◌==◌, Text, text_Comparable, text_eq_iff, length, Option-cases,
}
use go_es.Prelude.Maps.{Map, lookup, lookup-insert, lookup-delete}
use go_es.Prelude.Sets.{contains, add, remove, contains-add, contains-remove, contains-append}
use go_es.Cache.{
  Cache, Entry, remove_from_order, unregister_one, unregister, register_one, register,
}

abbrev pub known {ℓ} : {V : Type ℓ} → Text → Map Text V → Bool
known k m = elim (lookup k m) [ none ↦ false | some _ ↦ true ]

-- Whether the key stands in the set of the index.
abbrev pub indexed : Text → Text → Map Text (List Text) → Bool
indexed idx k m = elim (lookup idx m) [ none ↦ false | some keys ↦ contains k keys ]

-- Whether an entry stands under the key and names the index.
abbrev pub mentions : Text → Text → Map Text Entry → Bool
mentions k idx m = elim (lookup k m) [ none ↦ false | some e ↦ contains idx e.indexes ]

abbrev pub IsDistinct : List Text → Type 0
IsDistinct [] = Unit
IsDistinct (x ∷ xs) = (contains x xs ≡ false) × IsDistinct xs

pub record IsValid (c : Cache) : Type 0 where
  pub positive : 0 < c.capacity
  pub bounded : length c.entries ≤ c.capacity
  pub distinct : IsDistinct c.order
  pub listed : (k : Text) → contains k c.order ≡ known k c.entries
  pub covered : (k idx : Text) → mentions k idx c.entries ≡ true → indexed idx k c.index_keys ≡ true

pub contains-remove_from_order :
    (k j : Text) (xs : List Text)
    → IsDistinct xs
    → contains j (remove_from_order k xs) ≡ (not (k == j) && contains j xs)
unfolding remove_from_order contains
contains-remove_from_order k j [] d = ground arith
contains-remove_from_order k j (x ∷ xs) d = ground (
  arith,
  text_eq_iff x k,
  text_eq_iff x j,
  text_eq_iff k j,
  contains-remove_from_order k j xs d.1,
)

pub IsDistinct-remove_from_order :
    (k : Text) (xs : List Text) → IsDistinct xs → IsDistinct (remove_from_order k xs)
unfolding remove_from_order
IsDistinct-remove_from_order k [] d = tt
IsDistinct-remove_from_order k (x ∷ xs) d =
    ground (arith, IsDistinct-remove_from_order k xs d.1, contains-remove_from_order k x xs d.1)

IsDistinct-snoc :
    (k : Text) (xs : List Text) → IsDistinct xs → contains k xs ≡ false → IsDistinct (xs ++ k ∷ [])
unfolding contains
IsDistinct-snoc k [] d h = (refl, tt)
IsDistinct-snoc k (x ∷ xs) d h = ground (
  arith,
  text_eq_iff k x,
  text_eq_iff x k,
  contains-append x xs (k ∷ []),
  IsDistinct-snoc k xs d.1,
)

-- A key that moves to the end.
pub move_to_end-IsDistinct :
    (k : Text) (xs : List Text) → IsDistinct xs → IsDistinct (remove_from_order k xs ++ k ∷ [])
move_to_end-IsDistinct k xs d =
    IsDistinct-snoc k (remove_from_order k xs) (IsDistinct-remove_from_order k xs d)
      (ground (arith, contains-remove_from_order k k xs d, text_eq_iff k k))

pub contains-move_to_end :
    (k j : Text) (xs : List Text)
    → IsDistinct xs
    → contains j (remove_from_order k xs ++ k ∷ []) ≡ (k == j || contains j xs)
unfolding contains
contains-move_to_end k j xs d = ground (
  arith,
  contains-append j (remove_from_order k xs) (k ∷ []),
  contains-remove_from_order k j xs d,
)

indexed-register_one :
    (key idx j k : Text) (m : Map Text (List Text))
    → indexed j k (register_one key idx m) ≡ (indexed j k m || (idx == j && key == k))
unfolding register_one contains
indexed-register_one key idx j k m = elim (Option-cases (lookup idx m)) [
  | inl e ↦ ground (arith, text_eq_iff idx j, lookup-insert idx j (key ∷ []) m)
  | inr (keys, e) ↦
      ground
        (arith, text_eq_iff idx j, lookup-insert idx j (add key keys) m, contains-add key k keys)
]

pub indexed-register :
    (key : Text) (indexes : List Text) (j k : Text) (m : Map Text (List Text))
    → indexed j k (register key indexes m) ≡ (indexed j k m || (key == k && contains j indexes))
unfolding register contains
indexed-register key [] j k m = ground arith
indexed-register key (idx ∷ indexes) j k m = ground (
  arith,
  indexed-register key indexes j k (register_one key idx m),
  indexed-register_one key idx j k m,
)

indexed-unregister_one :
    (key idx j k : Text) (m : Map Text (List Text))
    → indexed j k (unregister_one key idx m) ≡ (indexed j k m && not (idx == j && key == k))
unfolding unregister_one contains
indexed-unregister_one key idx j k m = elim (Option-cases (lookup idx m)) [
  | inl e ↦ ground (arith, text_eq_iff idx j)
  | inr (keys, e) ↦ go keys (remove key keys) e refl
]
  where
    go :
        (keys rest : List Text)
        → lookup idx m ≡ some keys
        → remove key keys ≡ rest
        → indexed j k (unregister_one key idx m) ≡ (indexed j k m && not (idx == j && key == k))
    go keys [] e r =
        ground (arith, text_eq_iff idx j, lookup-delete idx j m, contains-remove key k keys)
    go keys (x ∷ rest) e r =
        ground
          (arith, text_eq_iff idx j, lookup-insert idx j (x ∷ rest) m, contains-remove key k keys)

pub indexed-unregister :
    (key : Text) (indexes : List Text) (j k : Text) (m : Map Text (List Text))
    → indexed j k (unregister key indexes m)
      ≡ (indexed j k m && not (key == k && contains j indexes))
unfolding unregister contains
indexed-unregister key [] j k m = ground arith
indexed-unregister key (idx ∷ indexes) j k m = ground (
  arith,
  indexed-unregister key indexes j k (unregister_one key idx m),
  indexed-unregister_one key idx j k m,
)
