-- ===== src/LruCache.antt =====
-- gzochi-server/src/lrucache.c: the cache that evicts the least recently used value. A hash table is
-- the function that looks a key up and the number of its keys. Keys stand for their contents, by
-- which the table's equality function compares them. The cached structures are known by their
-- addresses, which the hash table holds, and lie in the index.
pub mod Index
pub mod Keys
pub mod Keep
pub mod Refine
pub mod Sequence
use gnu_gzochi.Base.{
  ℕ, suc, ◌+◌, ◌-◌, ◌%◌, ◌^◌, Bool, true, false, Option, none, some, List, [], ◌∷◌, ◌>>=◌, ◌==◌,
  ltb, if◌then◌else◌,
}

pub record HashTable (K A : Type 0) : Type 0 where
  pub lookup : K → Option A
  pub size : ℕ

pub record CacheValue (K V : Type 0) : Type 0 where
  pub address : ℕ
  pub key : K
  pub value : V
  pub access_counter : ℕ

pub record LruCache (K V : Type 0) : Type 0 where
  pub cache : HashTable K ℕ
  pub lru_index : List (CacheValue K V)
  pub max_size : ℕ
  pub next_access_counter : ℕ
  pub next_address : ℕ

module _ {K A : Type 0} (key_equal : K → K → Bool) where
  -- `g_hash_table_insert`.
  abbrev pub insert : K → A → HashTable K A → HashTable K A
  insert key a table = record {
    lookup = λ k. if key_equal key k then some a else table.lookup k;
    size = elim (table.lookup key) [ none ↦ suc table.size | some old ↦ table.size ];
  }

  -- `g_hash_table_remove`.
  abbrev pub remove : K → HashTable K A → HashTable K A
  remove key table = record {
    lookup = λ k. if key_equal key k then none else table.lookup k;
    size = elim (table.lookup key) [ none ↦ table.size | some old ↦ table.size - 1 ];
  }

module _ {K V : Type 0} where
  -- The structure at an address.
  unfoldable pub deref : ℕ → List (CacheValue K V) → Option (CacheValue K V)
  deref address [] = none
  deref address (e ∷ es) = if e.address == address then some e else deref address es

  -- `g_sequence_insert_sorted` by access counter.
  unfoldable pub insert_value : CacheValue K V → List (CacheValue K V) → List (CacheValue K V)
  insert_value new [] = new ∷ []
  insert_value new (e ∷ es) =
      if ltb new.access_counter e.access_counter then new ∷ e ∷ es else e ∷ insert_value new es

  -- The index without the position that `g_sequence_lookup` finds for an access counter.
  unfoldable pub delete_value : ℕ → List (CacheValue K V) → List (CacheValue K V)
  delete_value counter [] = []
  delete_value counter (e ∷ es) =
      if e.access_counter == counter then es else e ∷ delete_value counter es

module _ {K V W : Type 0} (key_equal : K → K → Bool) (new_func : K → W → W × V × Option K)
    (value_evict_func : Option (V → W → W)) where
  unfoldable pub lru_cache_new_full : ℕ → LruCache K V
  lru_cache_new_full max_size = record {
    cache = record { lookup = λ k. none; size = 0 };
    lru_index = [];
    max_size = max_size;
    next_access_counter = 0;
    next_address = 0;
  }

  -- The value is in the cache: its access counter is bumped.
  unfoldable pub bump : CacheValue K V → LruCache K V → LruCache K V
  bump e c = record c {
    lru_index =
        insert_value (record e { access_counter = c.next_access_counter })
          (delete_value e.access_counter c.lru_index);
    next_access_counter = (c.next_access_counter + 1) % 2 ^ 64;
  }

  -- The new value goes into the index and the table.
  unfoldable pub add : K → V → Option K → LruCache K V → LruCache K V
  add key value key_copy c =
      let stored : K = elim key_copy [ none ↦ key | some copy ↦ copy ] in
      record c {
        cache = insert key_equal stored c.next_address c.cache;
        lru_index =
            insert_value
              (record {
                address = c.next_address;
                key = stored;
                value = value;
                access_counter = c.next_access_counter;
              })
              c.lru_index;
        next_access_counter = (c.next_access_counter + 1) % 2 ^ 64;
        next_address = suc c.next_address;
      }

  -- The oldest value is evicted if there are too many; `none` reads the end of an empty index.
  unfoldable pub evict : LruCache K V → W → Option (LruCache K V × W)
  evict c w =
      if ltb c.max_size c.cache.size
      then elim c.lru_index [
        | [] ↦ none
        | old ∷ rest ↦ some (
          record c { cache = remove key_equal old.key c.cache; lru_index = rest },
          elim value_evict_func [ none ↦ w | some func ↦ func old.value w ],
        )
      ]
      else some (c, w)

  -- `none` follows a pointer to no structure.
  unfoldable pub lru_cache_lookup : LruCache K V → K → W → Option (LruCache K V × W × V)
  lru_cache_lookup c key w = elim (c.cache.lookup key) [
    | some address ↦ deref address c.lru_index >>= λ e. some (bump e c, w, e.value)
    | none ↦
        let (w₁, value, key_copy) = new_func key w in
        evict (add key value key_copy c) w₁ >>= λ r. some (r.0, r.1, value)
  ]

  unfoldable pub evict_all : List (CacheValue K V) → W → W
  evict_all [] w = w
  evict_all (e ∷ es) w =
      evict_all es (elim value_evict_func [ none ↦ w | some func ↦ func e.value w ])
