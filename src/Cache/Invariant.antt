-- ===== src/Cache/Invariant.antt =====
-- pkg/cache/lru.go: every method keeps the invariant of the cache.
use go_es.Prelude.{
  ℕ, ◌<◌, ◌≡◌, refl, ◌⊎◌, inl, inr, true, ◌&&◌, none, some, List, [], ◌∷◌, arith, leb,
  if◌then◌else◌, Text, text_Comparable, text_eq_iff, length, Bool-cases, Option-cases, subst,
}
use go_es.Prelude.Int.{ℤ, pos, negsuc}
use go_es.Prelude.Maps.{
  Map, lookup, delete, lookup-insert, lookup-delete, length-insert, length-delete-le,
  length-delete-lt,
}
use go_es.Prelude.Sets.{contains}
use go_es.Cache.{
  Cache, Entry, default_capacity, new, get, unregister, evict, evict_key, is_new, make_room, store,
  set, drop_key, drop_keys, drop_index, invalidate_index, Call, gets, sets, invalidates, clears,
  step, run, invalidate_all,
}
use go_es.Cache.Tracking.{
  known, IsDistinct, IsValid, contains-remove_from_order, IsDistinct-remove_from_order,
  move_to_end-IsDistinct, contains-move_to_end, indexed-register, indexed-unregister,
}

new-IsValid : (capacity : ℤ) → IsValid (new capacity)
unfolding new default_capacity lookup contains
new-IsValid (pos n) = record {
  positive = ground arith;
  bounded = ground arith;
  distinct = tt;
  listed = λ k. refl;
  covered = λ k idx h. cc;
}
new-IsValid (negsuc n) = record {
  positive = omega arith;
  bounded = omega arith;
  distinct = tt;
  listed = λ k. refl;
  covered = λ k idx h. cc;
}

get-IsValid : (c : Cache) (key : Text) → IsValid c → IsValid (get c key).0
unfolding get
get-IsValid c key v = elim (Option-cases (lookup key c.entries)) [
  | inl e ↦
      rw (e, get)
        (record {
          positive = v.positive;
          bounded = v.bounded;
          distinct = v.distinct;
          listed = v.listed;
          covered = v.covered;
        })
  | inr (x, e) ↦
      rw (e, get)
        (record {
          positive = v.positive;
          bounded = v.bounded;
          distinct = move_to_end-IsDistinct key c.order v.distinct;
          listed = λ k.
              ground (
                arith,
                text_eq_iff key k,
                v.listed k,
                contains-move_to_end key k c.order v.distinct,
              );
          covered = v.covered;
        })
]

-- The write of an entry where there is room for it.
store-IsValid :
    (c : Cache) (e : Entry)
    → IsValid c
    → (known e.key c.entries ≡ true) ⊎ (length c.entries < c.capacity)
    → IsValid (store c e)
unfolding store
store-IsValid c e v room = record {
  positive = v.positive;
  bounded = ground (arith, length-insert e.key e c.entries, v.bounded);
  distinct = move_to_end-IsDistinct e.key c.order v.distinct;
  listed = λ k. ground (
    arith,
    v.listed k,
    lookup-insert e.key k e c.entries,
    contains-move_to_end e.key k c.order v.distinct,
  );
  covered = λ k idx h. ground (
    arith,
    text_eq_iff e.key k,
    lookup-insert e.key k e c.entries,
    v.covered k idx,
    indexed-register e.key e.indexes idx k c.index_keys,
  );
}

known_head : (m : Map Text Entry) → 0 < length m → (k : Text) × (known k m ≡ true)
unfolding lookup
known_head [] h = absurd (omega arith)
known_head ((k, x) ∷ m) h = (k, ground (arith, text_eq_iff k k))

-- The oldest key of a valid cache that holds something, with its entry.
pub oldest_entry :
    (c : Cache)
    → IsValid c
    → 0 < length c.entries
    → (o : Text) × (rest : List Text) × (x : Entry) × (c.order ≡ o ∷ rest)
      × (lookup o c.entries ≡ some x)
unfolding contains
oldest_entry c v h = go c.order refl
  where
    go :
        (order : List Text)
        → c.order ≡ order
        → (o : Text) × (rest : List Text) × (x : Entry) × (c.order ≡ o ∷ rest)
          × (lookup o c.entries ≡ some x)
    go [] e = let (k, q) = known_head c.entries h in absurd (ground (arith, v.listed k))
    go (o ∷ rest) e = elim (Option-cases (lookup o c.entries)) [
      | inl n ↦ absurd (ground (arith, v.listed o, text_eq_iff o o))
      | inr (x, q) ↦ (o, rest, x, e, q)
    ]

-- What `evict` does to a valid cache that holds something.
pub evict_lem :
    (c : Cache) (o : Text) (rest : List Text) (x : Entry)
    → c.order ≡ o ∷ rest
    → lookup o c.entries ≡ some x
    → evict c ≡ record c {
      order = rest;
      index_keys = unregister o x.indexes c.index_keys;
      entries = delete o c.entries;
    }
unfolding evict
evict_lem c o rest x e q = rw (e, evict) (rw (q, evict_key))

evict-some-IsValid :
    (c : Cache) (o : Text) (rest : List Text) (x : Entry)
    → IsValid c
    → c.order ≡ o ∷ rest
    → lookup o c.entries ≡ some x
    → IsValid (evict c)
unfolding contains
evict-some-IsValid c o rest x v e q = rw (evict_lem c o rest x e q) (record {
  positive = v.positive;
  bounded = omega (arith, v.bounded, length-delete-le o c.entries);
  distinct = (subst IsDistinct e v.distinct).1;
  listed = λ k. ground (
    arith,
    (subst IsDistinct e v.distinct).0,
    v.listed k,
    text_eq_iff o k,
    lookup-delete o k c.entries,
  );
  covered = λ k idx h. ground (
    arith,
    text_eq_iff o k,
    v.covered k idx,
    lookup-delete o k c.entries,
    indexed-unregister o x.indexes idx k c.index_keys,
  );
})

evict_shrinks :
    (c : Cache)
    → IsValid c
    → 0 < length c.entries
    → IsValid (evict c) × (length (evict c).entries < length c.entries)
evict_shrinks c v h =
    let (o, rest, x, e, q) = oldest_entry c v h in
    (
      evict-some-IsValid c o rest x v e q,
      rw (evict_lem c o rest x e q) (omega (arith, length-delete-lt o x c.entries q)),
    )

evict_capacity : (c : Cache) → (evict c).capacity ≡ c.capacity
unfolding evict
evict_capacity c = ground arith

make_room-IsValid :
    (c : Cache) (key : Text)
    → IsValid c
    → IsValid (make_room c key)
      × ((known key (make_room c key).entries ≡ true)
          ⊎ (length (make_room c key).entries < (make_room c key).capacity))
unfolding make_room
make_room-IsValid c key v = elim (Bool-cases (leb c.capacity (length c.entries) && is_new key c)) [
  | inl full ↦
      let (w, less) = evict_shrinks c v (ground (arith, v.positive)) in
      rw (full, make_room) (w, inr (omega (arith, evict_capacity c, v.bounded)))
  | inr roomy ↦
      rw (roomy, make_room)
        (
          v,
          elim (Option-cases (lookup key c.entries)) [
            | inl n ↦ inr (ground (arith, roomy))
            | inr (x, q) ↦ inl (ground (arith, q))
          ],
        )
]

set-IsValid :
    (c : Cache) (key value : Text) (indexes : List Text) (now : ℕ)
    → IsValid c
    → IsValid (set c key value indexes now)
unfolding set
set-IsValid c key value indexes now v =
    let (w, room) = make_room-IsValid c key v in store-IsValid (make_room c key) _ w room

drop_keys-IsValid : (keys : List Text) (c : Cache) → IsValid c → IsValid (drop_keys keys c)
unfolding drop_keys
drop_keys-IsValid [] c v = v
drop_keys-IsValid (key ∷ keys) c v = drop_keys-IsValid keys (drop_key key c) (record {
  positive = v.positive;
  bounded = omega (arith, v.bounded, length-delete-le key c.entries);
  distinct = IsDistinct-remove_from_order key c.order v.distinct;
  listed = λ k. ground (
    arith,
    v.listed k,
    lookup-delete key k c.entries,
    contains-remove_from_order key k c.order v.distinct,
  );
  covered = λ k idx h. ground (arith, v.covered k idx, lookup-delete key k c.entries);
})

drop_keys-index_keys : (keys : List Text) (c : Cache) → (drop_keys keys c).index_keys ≡ c.index_keys
unfolding drop_keys
drop_keys-index_keys [] c = refl
drop_keys-index_keys (key ∷ keys) c = drop_keys-index_keys keys (drop_key key c)

-- What is left of the entries when the keys are dropped.
pub lookup-drop_keys :
    (keys : List Text) (c : Cache) (k : Text)
    → lookup k (drop_keys keys c).entries ≡ (if contains k keys then none else lookup k c.entries)
unfolding drop_keys contains
lookup-drop_keys [] c k = refl
lookup-drop_keys (key ∷ keys) c k =
    ground (arith, lookup-drop_keys keys (drop_key key c) k, lookup-delete key k c.entries)

drop_index-IsValid :
    (c : Cache) (index : Text) (keys : List Text)
    → lookup index c.index_keys ≡ some keys
    → IsValid c
    → IsValid (drop_index c index keys)
unfolding drop_index
drop_index-IsValid c index keys e v = record {
  positive = w.positive;
  bounded = w.bounded;
  distinct = w.distinct;
  listed = w.listed;
  covered = λ k idx h. ground (
    arith,
    text_eq_iff index idx,
    w.covered k idx,
    v.covered k idx,
    lookup-drop_keys keys c k,
    drop_keys-index_keys keys c,
    lookup-delete index idx (drop_keys keys c).index_keys,
  );
}
  where
    w : IsValid (drop_keys keys c)
    w = drop_keys-IsValid keys c v

invalidate_index-IsValid :
    (c : Cache) (index : Text) → IsValid c → IsValid (invalidate_index c index)
unfolding invalidate_index
invalidate_index-IsValid c index v = elim (Option-cases (lookup index c.index_keys)) [
  | inl e ↦ rw (e, invalidate_index) v
  | inr (keys, e) ↦ rw (e, invalidate_index) (drop_index-IsValid c index keys e v)
]

invalidate_all-IsValid : (c : Cache) → IsValid c → IsValid (invalidate_all c)
unfolding invalidate_all lookup contains
invalidate_all-IsValid c v = record {
  positive = v.positive;
  bounded = omega arith;
  distinct = tt;
  listed = λ k. refl;
  covered = λ k idx h. cc;
}

step-IsValid : (c : Cache) (call : Call) → IsValid c → IsValid (step c call)
unfolding step
step-IsValid c (gets key) v = get-IsValid c key v
step-IsValid c (sets key value indexes now) v = set-IsValid c key value indexes now v
step-IsValid c (invalidates index) v = invalidate_index-IsValid c index v
step-IsValid c clears v = invalidate_all-IsValid c v

run-IsValid : (c : Cache) (calls : List Call) → IsValid c → IsValid (run c calls)
unfolding run
run-IsValid c [] v = v
run-IsValid c (call ∷ calls) v = run-IsValid (step c call) calls (step-IsValid c call v)

-- Whatever the requested capacity, a cache is valid after any sequence of calls: it never holds
-- more entries than its capacity, the order list holds each stored key once and no other, and a
-- stored entry is registered under each of its indexes.
pub run-new-IsValid : (capacity : ℤ) (calls : List Call) → IsValid (run (new capacity) calls)
run-new-IsValid capacity calls = run-IsValid (new capacity) calls (new-IsValid capacity)
