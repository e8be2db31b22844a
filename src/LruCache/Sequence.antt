-- ===== src/LruCache/Sequence.antt =====
-- gzochi-server/src/lrucache.c: sequences of lookups in a new cache.
use gnu_gzochi.Base.{
  ℕ, ◌+◌, ◌^◌, ◌<◌, ◌≤◌, ◌≡◌, ◌↔◌, ◌⊎◌, refl, ap, ◌∙◌, Bool, true, Option, none, some, List, [],
  ◌∷◌, length, ◌>>=◌, arith,
}
use gnu_gzochi.LruCache.{LruCache, lru_cache_new_full, lru_cache_lookup}
use gnu_gzochi.LruCache.Index.{find_value}
use gnu_gzochi.LruCache.Keys.{pairs}
use gnu_gzochi.LruCache.Keep.{IsValid}
use gnu_gzochi.LruCache.Refine.{use_pair, lookup-Looks}

module _ {K V W : Type 0} (key_equal : K → K → Bool) (new_func : K → W → W × V × Option K)
    (value_evict_func : Option (V → W → W)) where
  unfoldable pub lookups : List K → LruCache K V → W → Option (LruCache K V × W × List V)
  lookups [] c w = some (c, w, [])
  lookups (key ∷ keys) c w = do
    (c₁, w₁, v) ← lru_cache_lookup key_equal new_func value_evict_func c key w
    (c₂, w₂, vs) ← lookups keys c₁ w₁
    some (c₂, w₂, v ∷ vs)

  -- The same lookups in a list of pairs.
  unfoldable pub uses : ℕ → List (K × V) → List K → W → List (K × V) × W × List V
  uses max_size kvs [] w = (kvs, w, [])
  uses max_size kvs (key ∷ keys) w =
      let used = use_pair key_equal new_func value_evict_func max_size kvs key w in
      let rest = uses max_size used.0 keys used.1 in (rest.0, rest.1, used.2 ∷ rest.2)

  module _ (equal : (a b : K) → (key_equal a b ≡ true) ↔ (a ≡ b))
      (copies : (k : K) (w : W) → ((new_func k w).2 ≡ none) ⊎ ((new_func k w).2 ≡ some k)) where
    lookups_from :
        (keys : List K) (c : LruCache K V) (w : W)
        → IsValid key_equal new_func value_evict_func c
        → length c.lru_index ≤ c.max_size
        → c.next_access_counter + length keys < 2 ^ 64
        → (c' : LruCache K V) × (w' : W) × (vs : List V) × (lookups keys c w ≡ some (c', w', vs))
          × ((pairs c'.lru_index, w', vs) ≡ uses c.max_size (pairs c.lru_index) keys w)
          × (length c'.lru_index ≤ c.max_size)
    unfolding lookups uses
    lookups_from [] c w valid bound room = (c, w, [], refl, refl, bound)
    lookups_from (key ∷ keys) c w valid bound room =
        let (c₁, w₁, v, ran, valid₁, used, bound₁, same_max, next) =
          lookup-Looks key_equal new_func value_evict_func equal copies c key w valid bound
            (omega (arith, room)) in
        let (c₂, w₂, vs, ran₂, used₂, bound₂) =
          lookups_from keys c₁ w₁ valid₁ bound₁ (omega (arith, room, next)) in
        (
          c₂,
          w₂,
          v ∷ vs,
          rw (lookups, ran, ran₂) refl,
          ap (λ r. (r.0, r.1, v ∷ r.2))
                (used₂ ∙ ap (λ m. uses m (pairs c₁.lru_index) keys w₁) same_max)
              ∙ ap (λ u. let rest = uses c.max_size u.0 keys u.1 in (rest.0, rest.1, u.2 ∷ rest.2))
                  used,
          ground (arith, bound₂, same_max),
        )

    new-IsValid :
        (max_size : ℕ)
        → IsValid key_equal new_func value_evict_func
            (lru_cache_new_full key_equal new_func value_evict_func max_size)
    unfolding lru_cache_new_full find_value
    new-IsValid max_size = record { ordered = tt; fresh = tt; agree = λ k. refl; sizes = refl }

    -- The cache is a list of pairs in the order of their last use. For a decidable equality of keys
    -- and a value generator that stores a copy of the key or none, any fewer than 2^64 lookups in a
    -- new cache follow no dangling pointer and give the values, the calls of the two functions and
    -- the contents that the list gives, which moves the pair that is used to the end and drops the
    -- first one when there are too many; and the cache never holds more than its maximum.
    pub lookups-uses :
        (max_size : ℕ) (keys : List K) (w : W)
        → length keys < 2 ^ 64
        → (c : LruCache K V) × (w' : W) × (vs : List V) × (lookups keys
              (lru_cache_new_full key_equal new_func value_evict_func max_size)
              w
            ≡ some (c, w', vs))
          × ((pairs c.lru_index, w', vs) ≡ uses max_size [] keys w)
          × (length c.lru_index ≤ max_size)
    unfolding lru_cache_new_full
    lookups-uses max_size keys w room =
        lookups_from keys (lru_cache_new_full key_equal new_func value_evict_func max_size) w
          (new-IsValid max_size) (omega arith) (omega (arith, room))
