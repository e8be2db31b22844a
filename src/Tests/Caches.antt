-- ===== src/Tests/Caches.antt =====
-- gzochi-server/src/lrucache.c at concrete inputs: keys are numbers, the value of a key is its
-- square, and the world counts the values made and lists the values evicted.
use gnu_gzochi.Base.{
  ℕ, suc, ◌*◌, ◌≤◌, ◌≡◌, refl, ==_iff, ◌==◌, Option, none, some, List, [], ◌∷◌, length, arith, inl,
}
use gnu_gzochi.LruCache.{LruCache, lru_cache_new_full}
use gnu_gzochi.LruCache.Keys.{pairs, find_pair, delete_pair}
use gnu_gzochi.LruCache.Refine.{use_pair}
use gnu_gzochi.LruCache.Sequence.{lookups, uses, lookups-uses}

abbrev World : Type 0
World = ℕ × List ℕ

abbrev square : ℕ → World → World × ℕ × Option ℕ
square key w = ((suc w.0, w.1), key * key, none)

abbrev evicted : Option (ℕ → World → World)
evicted = some (λ v w. (w.0, v ∷ w.1))

-- The second use of 1 keeps it in the cache, so 3 drives 2 out.
uses-runs :
    uses ◌==◌ square evicted 2 [] (1 ∷ 2 ∷ 1 ∷ 3 ∷ []) (0, [])
    ≡ ((1, 1) ∷ (3, 9) ∷ [], (3, 4 ∷ []), 1 ∷ 4 ∷ 1 ∷ 9 ∷ [])
unfolding uses use_pair find_pair delete_pair
uses-runs = refl

lookups-uses_example :
    (c : LruCache ℕ ℕ) × (w' : World) × (vs : List ℕ) × (lookups ◌==◌ square evicted
        (1 ∷ 2 ∷ 1 ∷ 3 ∷ [])
        (lru_cache_new_full ◌==◌ square evicted 2)
        (0, [])
      ≡ some (c, w', vs))
    × ((pairs c.lru_index, w', vs) ≡ uses ◌==◌ square evicted 2 [] (1 ∷ 2 ∷ 1 ∷ 3 ∷ []) (0, []))
    × (length c.lru_index ≤ 2)
lookups-uses_example =
    lookups-uses ◌==◌ square evicted ==_iff (λ k w. inl refl) 2 (1 ∷ 2 ∷ 1 ∷ 3 ∷ []) (0, [])
      (omega arith)
