-- ===== src/Icn/ContentStore.antt =====
-- crates/icn/src/cs.rs: the cache of data packets. The least-recently-used cache of the lru package is
-- the parameter `Lru`, with its documented behaviour in `IsLru`; the clock is an argument. The
-- counters of hits and misses are statistics and count without bound.
pub mod Lookup
pub mod Keeps
pub mod Toy
use rsticulum.Prelude.{
  ℕ, ◌+◌, ◌≡◌, max, Bool, true, Option, none, some, List, [], ◌∷◌, length, take, ltb, ◌&&◌,
  if◌then◌else◌, get, remove,
}
use rsticulum.Icn.Name.{Name, len, is_prefix_of}
use rsticulum.Icn.Pit.{name_keys}
use rsticulum.Icn.Data.{Data}

pub record CachedData : Type 0 where
  pub packet : Data
  pub inserted_at : ℕ

-- `LruCache<Name, CachedData>`.
pub record Lru : Type 1 where
  pub Cache : Type 0
  -- `LruCache::new` of a positive number of entries
  pub empty : ℕ → Cache
  -- `iter`, the most recently used entry first
  pub iter : Cache → List (Name × CachedData)
  -- `get`, which moves the entry to the front
  pub look : Name → Cache → Option CachedData × Cache
  pub peek : Name → Cache → Option CachedData
  -- `put`, which returns the old value of the key
  pub put : Name → CachedData → Cache → Option CachedData × Cache
  pub capacity : Cache → ℕ

-- The entry of a name moved to the front.
abbrev pub moved : Name → Option CachedData → List (Name × CachedData) → List (Name × CachedData)
moved name none entries = entries
moved name (some c) entries = (name, c) ∷ remove name entries

pub record IsLru (lru : Lru) : Type 0 where
  pub iter_empty : (n : ℕ) → lru.iter (lru.empty n) ≡ []
  pub capacity_empty : (n : ℕ) → lru.capacity (lru.empty n) ≡ n
  pub look_value : (k : Name) (c : lru.Cache) → (lru.look k c).0 ≡ get k (lru.iter c)
  pub iter_look :
      (k : Name) (c : lru.Cache)
      → lru.iter (lru.look k c).1 ≡ moved k (get k (lru.iter c)) (lru.iter c)
  pub capacity_look : (k : Name) (c : lru.Cache) → lru.capacity (lru.look k c).1 ≡ lru.capacity c
  pub peek_value : (k : Name) (c : lru.Cache) → lru.peek k c ≡ get k (lru.iter c)
  pub put_value :
      (k : Name) (v : CachedData) (c : lru.Cache) → (lru.put k v c).0 ≡ get k (lru.iter c)
  pub iter_put :
      (k : Name) (v : CachedData) (c : lru.Cache)
      → lru.iter (lru.put k v c).1 ≡ take (lru.capacity c) ((k, v) ∷ remove k (lru.iter c))
  pub capacity_put :
      (k : Name) (v : CachedData) (c : lru.Cache) → lru.capacity (lru.put k v c).1 ≡ lru.capacity c

pub record ContentStore (lru : Lru) : Type 0 where
  pub entries : lru.Cache
  pub hits : ℕ
  pub misses : ℕ

-- Whether a key is longer than that of the best entry so far.
abbrev pub longer : Option (Name × CachedData) → Name → Bool
longer none key = true
longer (some (existing, c)) key = ltb (len existing) (len key)

-- The loop of `get_prefix`.
unfoldable pub best_prefix :
    Name → Option (Name × CachedData) → List (Name × CachedData) → Option (Name × CachedData)
best_prefix name best [] = best
best_prefix name best ((key, c) ∷ rest) =
    best_prefix name (if is_prefix_of key name && longer best key then some (key, c) else best) rest

abbrev pub packet_of : Option CachedData → Option Data
packet_of none = none
packet_of (some c) = some c.packet

module _ {lru : Lru} where
  unfoldable pub new : ℕ → ContentStore lru
  new max_entries = record { entries = lru.empty (max max_entries 1); hits = 0; misses = 0 }

  unfoldable pub count : Option CachedData → ContentStore lru → ContentStore lru
  count none cs = record cs { misses = cs.misses + 1 }
  count (some c) cs = record cs { hits = cs.hits + 1 }

  unfoldable pub get_exact : ContentStore lru → Name → Option Data × ContentStore lru
  unfolding count
  get_exact cs name =
      let (found, entries) = lru.look name cs.entries in
      (packet_of found, count found (record cs { entries = entries }))

  unfoldable pub get_best :
      Option (Name × CachedData) → ContentStore lru → Option Data × ContentStore lru
  get_best none cs = (none, record cs { misses = cs.misses + 1 })
  get_best (some (key, c)) cs =
      (packet_of (lru.peek key cs.entries), record cs { hits = cs.hits + 1 })

  unfoldable pub get_prefix : ContentStore lru → Name → Option Data × ContentStore lru
  unfolding best_prefix get_best
  get_prefix cs name = get_best (best_prefix name none (lru.iter cs.entries)) cs

  unfoldable pub insert_data :
      ContentStore lru → Name → Data → ℕ → Option CachedData × ContentStore lru
  insert_data cs name d now =
      let (old, entries) = lru.put name (record { packet = d; inserted_at = now }) cs.entries in
      (old, record cs { entries = entries })

  abbrev pub stored : ContentStore lru → List (Name × CachedData)
  stored cs = lru.iter cs.entries

  abbrev pub size : ContentStore lru → ℕ
  size cs = length (stored cs)
