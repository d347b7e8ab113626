-- ===== src/Cache/Invalidation.antt =====
-- pkg/cache/lru.go: what an invalidation by index removes.
use go_es.Prelude.{
  ℕ, ◌≡◌, inl, inr, true, false, ◌&&◌, ◌||◌, none, List, arith, if◌then◌else◌, ◌==◌, Text,
  text_Comparable, text_eq_iff, Option-cases,
}
use go_es.Prelude.Maps.{lookup}
use go_es.Prelude.Sets.{contains}
use go_es.Cache.{Cache, Entry, set, store, make_room, drop_index, invalidate_index}
use go_es.Cache.Tracking.{indexed, mentions, known, IsValid, indexed-register}
use go_es.Cache.Invariant.{lookup-drop_keys}
use go_es.Cache.Lookups.{lookup-store}

-- `InvalidateIndex` drops exactly the entries whose keys are in the set of the index; every other
-- entry is as it was.
pub lookup-invalidate_index :
    (c : Cache) (index k : Text)
    → lookup k (invalidate_index c index).entries
      ≡ (if indexed index k c.index_keys then none else lookup k c.entries)
unfolding invalidate_index drop_index
lookup-invalidate_index c index k = elim (Option-cases (lookup index c.index_keys)) [
  | inl e ↦ ground arith
  | inr (keys, e) ↦ ground (arith, lookup-drop_keys keys c k)
]

-- After `InvalidateIndex` on a valid cache no entry that names the index is left.
pub mentions-invalidate_index :
    (c : Cache) (index k : Text)
    → IsValid c
    → mentions k index (invalidate_index c index).entries ≡ false
mentions-invalidate_index c index k v =
    ground (arith, lookup-invalidate_index c index k, v.covered k index)

indexed-store :
    (c : Cache) (e : Entry) (j k : Text)
    → indexed j k (store c e).index_keys
      ≡ (indexed j k c.index_keys || (e.key == k && contains j e.indexes))
unfolding store
indexed-store c e j k = indexed-register e.key e.indexes j k c.index_keys

make_room-known : (c : Cache) (key : Text) → known key c.entries ≡ true → make_room c key ≡ c
unfolding make_room
make_room-known c key h = ground arith

-- Registrations outlive the entry that made them: when a key is set for an index and then set again
-- for indexes without it, invalidating the first index still drops the key.
pub stale_registration :
    (c : Cache) (key value value' index : Text) (xs ys : List Text) (now now' : ℕ)
    → contains index xs ≡ true
    → contains index ys ≡ false
    → (mentions key index (set (set c key value xs now) key value' ys now').entries ≡ false)
      × (lookup key
            (invalidate_index (set (set c key value xs now) key value' ys now') index).entries
          ≡ none)
unfolding set
stale_registration c key value value' index xs ys now now' old new = (
  ground (arith, lookup-store (make_room d key) e' key, text_eq_iff key key),
  ground (
    arith,
    lookup-invalidate_index (store (make_room d key) e') index key,
    make_room-known d key
        (ground (arith, lookup-store (make_room c key) e key, text_eq_iff key key)),
    indexed-store d e' index key,
    indexed-store (make_room c key) e index key,
    text_eq_iff key key,
  ),
)
  where
    e : Entry
    e = record { key = key; value = value; created_at = now; indexes = xs }

    e' : Entry
    e' = record { key = key; value = value'; created_at = now'; indexes = ys }

    d : Cache
    d = store (make_room c key) e
