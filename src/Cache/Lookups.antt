-- ===== src/Cache/Lookups.antt =====
-- pkg/cache/lru.go: what can be read after a call.
use go_es.Prelude.{
  ℕ, ◌≡◌, inl, inr, ◌&&◌, Option, none, some, List, [], ◌∷◌, arith, leb, if◌then◌else◌, ◌==◌, Text,
  text_Comparable, text_eq_iff, length, Bool-cases,
}
use go_es.Prelude.Maps.{lookup, lookup-insert, lookup-delete}
use go_es.Cache.{Cache, Entry, get, is_new, make_room, store, set}
use go_es.Cache.Tracking.{IsValid}
use go_es.Cache.Invariant.{oldest_entry, evict_lem}

-- A `Get` right after a `Set` of the key hits and returns the value that was set, whatever the
-- cache held before.
pub get-set :
    (c : Cache) (key value : Text) (indexes : List Text) (now : ℕ)
    → (get (set c key value indexes now) key).1 ≡ some value
unfolding get set store
get-set c key value indexes now = ground (
  arith,
  text_eq_iff key key,
  lookup-insert key key (record { key = key; value = value; created_at = now; indexes = indexes })
      (make_room c key).entries,
)

-- The key that `Set` has to drop: the head of the order list, if the key is new and the cache full.
abbrev pub victim : Cache → Text → Option Text
victim c key =
    if leb c.capacity (length c.entries) && is_new key c
    then elim c.order [ [] ↦ none | o ∷ rest ↦ some o ]
    else none

pub lookup-store :
    (c : Cache) (e : Entry) (j : Text)
    → lookup j (store c e).entries ≡ (if e.key == j then some e else lookup j c.entries)
unfolding store
lookup-store c e j = lookup-insert e.key j e c.entries

abbrev pub without : Option Text → Cache → Text → Option Entry
without none c j = lookup j c.entries
without (some o) c j = if o == j then none else lookup j c.entries

lookup-make_room :
    (c : Cache) (key j : Text)
    → IsValid c
    → lookup j (make_room c key).entries ≡ without (victim c key) c j
unfolding make_room
lookup-make_room c key j v = elim (Bool-cases (leb c.capacity (length c.entries) && is_new key c)) [
  | inl full ↦
      let (o, rest, x, e, q) = oldest_entry c v (ground (arith, v.positive)) in
      ground (arith, full, e, evict_lem c o rest x e q, lookup-delete o j c.entries)
  | inr roomy ↦ ground (arith, roomy)
]

-- After `Set` on a valid cache the key has the new entry; the oldest key is gone if the key was new
-- and the cache full; every other entry is as it was.
pub lookup-set :
    (c : Cache) (key value : Text) (indexes : List Text) (now : ℕ) (j : Text)
    → IsValid c
    → lookup j (set c key value indexes now).entries ≡ (
        if key == j
        then some (record { key = key; value = value; created_at = now; indexes = indexes })
        else without (victim c key) c j)
unfolding set
lookup-set c key value indexes now j v = ground (
  arith,
  lookup-store (make_room c key)
      (record { key = key; value = value; created_at = now; indexes = indexes }) j,
  lookup-make_room c key j v,
)
