-- ===== src/Cache.antt =====
-- pkg/cache/lru.go: the LRU cache of search responses, with invalidation by index.
-- The mutex serialises the methods, so each is a function from the cache to the next one.
pub mod Key
pub mod Tracking
pub mod Invariant
pub mod Lookups
pub mod Invalidation
mod Tests
use go_es.Prelude.{
  ℕ, ◌+◌, ◌%◌, ◌^◌, Bool, true, false, ◌&&◌, Option, none, some, List, [], ◌∷◌, ◌++◌, leb, nat_eq,
  if◌then◌else◌, ◌==◌, Text, text_Comparable, length,
}
use go_es.Prelude.Int.{ℤ, pos, negsuc}
use go_es.Prelude.Maps.{Map, lookup, insert, delete}
use go_es.Prelude.Sets.{contains, add, remove}

-- `value` is the serialised response body; times are numbers.
pub record Entry : Type 0 where
  pub key : Text
  pub value : Text
  pub created_at : ℕ
  pub indexes : List Text

-- `entries` is the field `data`. The head of `order` is the oldest key.
pub record Cache : Type 0 where
  pub capacity : ℕ
  pub entries : Map Text Entry
  pub order : List Text
  pub index_keys : Map Text (List Text)
  pub hits : ℕ
  pub misses : ℕ

abbrev pub u64 : ℕ
u64 = 2 ^ 64

-- The clamp of the constructor's argument.
pub default_capacity : ℤ → ℕ
default_capacity (pos n) = if nat_eq n 0 then 1000 else n
default_capacity (negsuc n) = 1000

pub new : ℤ → Cache
unfolding default_capacity
new capacity = record {
  capacity = default_capacity capacity;
  entries = [];
  order = [];
  index_keys = [];
  hits = 0;
  misses = 0;
}

-- Drops the first occurrence of the key.
pub remove_from_order : Text → List Text → List Text
remove_from_order key [] = []
remove_from_order key (k ∷ ks) = if k == key then ks else k ∷ remove_from_order key ks

pub get : Cache → Text → Cache × Option Text
get c key = elim (lookup key c.entries) [
  | none ↦ (record c { misses = (c.misses + 1) % u64 }, none)
  | some e ↦ (
    record c { hits = (c.hits + 1) % u64; order = remove_from_order key c.order ++ key ∷ [] },
    some e.value,
  )
]

-- One turn of the loop of `evict` over the entry's indexes: the key leaves the set, and an empty
-- set goes.
pub unregister_one : Text → Text → Map Text (List Text) → Map Text (List Text)
unregister_one key idx index_keys = elim (lookup idx index_keys) [
  | none ↦ index_keys
  | some keys ↦ elim (remove key keys) [
    | [] ↦ delete idx index_keys
    | k ∷ ks ↦ insert idx (k ∷ ks) index_keys
  ]
]

pub unregister : Text → List Text → Map Text (List Text) → Map Text (List Text)
unregister key [] index_keys = index_keys
unregister key (idx ∷ indexes) index_keys =
    unregister key indexes (unregister_one key idx index_keys)

pub evict_key : Cache → Text → List Text → Cache
evict_key c oldest rest = elim (lookup oldest c.entries) [
  | none ↦ record c { order = rest }
  | some e ↦ record c {
    order = rest;
    index_keys = unregister oldest e.indexes c.index_keys;
    entries = delete oldest c.entries;
  }
]

pub evict : Cache → Cache
unfolding evict_key
evict c = elim c.order [ [] ↦ c | oldest ∷ rest ↦ evict_key c oldest rest ]

-- One turn of the loop of `Set` over the indexes.
pub register_one : Text → Text → Map Text (List Text) → Map Text (List Text)
register_one key idx index_keys = elim (lookup idx index_keys) [
  | none ↦ insert idx (key ∷ []) index_keys
  | some keys ↦ insert idx (add key keys) index_keys
]

pub register : Text → List Text → Map Text (List Text) → Map Text (List Text)
register key [] index_keys = index_keys
register key (idx ∷ indexes) index_keys = register key indexes (register_one key idx index_keys)

abbrev pub is_new : Text → Cache → Bool
is_new key c = elim (lookup key c.entries) [ none ↦ true | some _ ↦ false ]

pub make_room : Cache → Text → Cache
make_room c key = if leb c.capacity (length c.entries) && is_new key c then evict c else c

-- The write of `Set` after room is made.
pub store : Cache → Entry → Cache
store c e = record c {
  entries = insert e.key e c.entries;
  order = remove_from_order e.key c.order ++ e.key ∷ [];
  index_keys = register e.key e.indexes c.index_keys;
}

pub set : Cache → Text → Text → List Text → ℕ → Cache
set c key value indexes now =
    store (make_room c key)
      (record { key = key; value = value; created_at = now; indexes = indexes })

pub drop_key : Text → Cache → Cache
drop_key k c = record c { entries = delete k c.entries; order = remove_from_order k c.order }

-- The loop of `InvalidateIndex` over the keys of the index.
pub drop_keys : List Text → Cache → Cache
unfolding drop_key
drop_keys [] c = c
drop_keys (k ∷ ks) c = drop_keys ks (drop_key k c)

-- The branch of `InvalidateIndex` for an index that has keys.
pub drop_index : Cache → Text → List Text → Cache
drop_index c index keys = record dropped { index_keys = delete index dropped.index_keys }
  where
    dropped : Cache
    dropped = drop_keys keys c

pub invalidate_index : Cache → Text → Cache
unfolding drop_index
invalidate_index c index = elim (lookup index c.index_keys) [
  | none ↦ c
  | some keys ↦ drop_index c index keys
]

pub invalidate_all : Cache → Cache
invalidate_all c = record c { entries = []; order = []; index_keys = [] }

pub record Stats : Type 0 where
  pub hits : ℕ
  pub misses : ℕ
  pub size : ℕ
  pub capacity : ℕ

pub stats : Cache → Stats
stats c = record {
  hits = c.hits;
  misses = c.misses;
  size = length c.entries;
  capacity = c.capacity;
}

-- A call of the cache by the server. The clock is an argument of `Set`.
pub data Call : Type 0 where
  gets : Text → Call
  sets : Text → Text → List Text → ℕ → Call
  invalidates : Text → Call
  clears : Call

pub step : Cache → Call → Cache
step c (gets key) = (get c key).0
step c (sets key value indexes now) = set c key value indexes now
step c (invalidates index) = invalidate_index c index
step c clears = invalidate_all c

pub run : Cache → List Call → Cache
run c [] = c
run c (call ∷ calls) = run (step c call) calls
