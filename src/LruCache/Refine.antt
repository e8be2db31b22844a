-- ===== src/LruCache/Refine.antt =====
-- gzochi-server/src/lrucache.c: the cache against a list of pairs in the order of their last use.
use gnu_gzochi.Base.{
  length-append, ℕ, suc, ◌+◌, ◌^◌, ◌<◌, ◌≤◌, ◌≡◌, ◌≢◌, ◌↔◌, ◌⊎◌, refl, sym, ap, ◌∙◌, Bool, true,
  false, Option, none, some, List, [], ◌∷◌, ◌++◌, length, All, ◌>>=◌, if◌then◌else◌, ltb, arith,
  Bool-cases, Option-cases, List-cases, inl, inr, subst,
}
use gnu_gzochi.LruCache.{CacheValue, LruCache, remove, bump, add, evict, lru_cache_lookup}
use gnu_gzochi.LruCache.Index.{InOrder, IsBefore, find_value, without, deref-find}
use gnu_gzochi.LruCache.Keys.{
  pairs, pairs-snoc, length-pairs, find_pair, delete_pair, find_pair-some, find_pair-none,
  delete_pair-pairs, length-without, find-key, apart-find,
}
use gnu_gzochi.LruCache.Keep.{IsValid, bump-index, bump-IsValid, add-IsValid}

module _ {K V W : Type 0} (key_equal : K → K → Bool) (new_func : K → W → W × V × Option K)
    (value_evict_func : Option (V → W → W)) where
  -- The contents with the least recently used pair evicted if there are too many.
  abbrev pub trim : ℕ → List (K × V) → W → List (K × V) × W
  trim max_size [] w = ([], w)
  trim max_size (p ∷ rest) w =
      if ltb max_size (length (p ∷ rest))
      then (rest, elim value_evict_func [ none ↦ w | some func ↦ func p.1 w ])
      else (p ∷ rest, w)

  -- A lookup on the contents: a pair that is used goes to the end.
  unfoldable pub use_pair : ℕ → List (K × V) → K → W → List (K × V) × W × V
  use_pair max_size kvs key w = elim (find_pair key_equal key kvs) [
    | some v ↦ (delete_pair key_equal key kvs ++ (key, v) ∷ [], w, v)
    | none ↦
        let (w₁, v, key_copy) = new_func key w in
        let trimmed = trim max_size (kvs ++ (key, v) ∷ []) w₁ in (trimmed.0, trimmed.1, v)
  ]

  module _ (equal : (a b : K) → (key_equal a b ≡ true) ↔ (a ≡ b)) where
    All-differ :
        (old : CacheValue K V) (rest : List (CacheValue K V)) (k : K)
        → old.key ≡ k
        → All (IsBefore key_equal old) rest
        → All (λ x. x.key ≢ k) rest
    All-differ old [] k here before = tt
    All-differ old (x ∷ rest) k here before =
        ((λ q. before.0.2 (here ∙ sym q)), All-differ old rest k here before.1)

    remove_oldest-IsValid :
        (c : LruCache K V) (old : CacheValue K V) (rest : List (CacheValue K V))
        → IsValid key_equal new_func value_evict_func c
        → c.lru_index ≡ old ∷ rest
        → IsValid key_equal new_func value_evict_func
            (record c { cache = remove key_equal old.key c.cache; lru_index = rest })
    unfolding find_value
    remove_oldest-IsValid c old rest valid split =
        let ordered = subst (InOrder key_equal) split valid.ordered in
        let fresh = subst (All _) split valid.fresh in
        let agree : (k : K)
            → c.cache.lookup k ≡ (find_value key_equal k (old ∷ rest) >>= λ x. some x.address) =
          λ k. valid.agree k ∙ ap (λ es. find_value key_equal k es >>= λ x. some x.address) split in
        let known : c.cache.lookup old.key ≡ some old.address =
          agree old.key ∙ rw ((equal old.key old.key).1 refl) refl in
        record {
          ordered = ordered.1;
          fresh = fresh.1;
          agree = λ k. elim (Bool-cases (key_equal old.key k)) [
            | inl hit ↦
                let here : old.key ≡ k = (equal old.key k).0 hit in
                let gone : find_value key_equal k rest ≡ none =
                  apart-find key_equal equal k rest (All-differ old rest k here ordered.0) in
                rw (hit, gone) refl
            | inr other ↦ rw other (agree k ∙ rw other refl)
          ];
          sizes = rw known (ground (arith, valid.sizes, ap length split));
        }

    -- Evicting is trimming, and brings the size back below the bound.
    evict_lem :
        (c : LruCache K V) (w : W)
        → IsValid key_equal new_func value_evict_func c
        → length c.lru_index ≤ suc c.max_size
        → (c' : LruCache K V) × (w' : W) × (evict key_equal new_func value_evict_func c w
            ≡ some (c', w'))
          × IsValid key_equal new_func value_evict_func c'
          × ((pairs c'.lru_index, w') ≡ trim c.max_size (pairs c.lru_index) w)
          × (length c'.lru_index ≤ c.max_size)
          × (c'.max_size ≡ c.max_size)
          × (c'.next_access_counter ≡ c.next_access_counter)
    unfolding evict
    evict_lem c w valid bound = elim (List-cases c.lru_index) [
      | inl empty ↦
          let few : ltb c.max_size c.cache.size ≡ false =
            ground (arith, valid.sizes, ap length empty) in
          (
            c,
            w,
            rw (evict, few) refl,
            valid,
            rw empty refl,
            ground (arith, ap length empty),
            refl,
            refl,
          )
      | inr (old, rest, split) ↦
          let size : c.cache.size ≡ length (pairs (old ∷ rest)) =
            valid.sizes ∙ ap length split ∙ sym (length-pairs (old ∷ rest)) in
          let longer : length c.lru_index ≡ suc (length rest) = ap length split in
          elim (Bool-cases (ltb c.max_size c.cache.size)) [
            | inl many ↦
                let over : ltb c.max_size (length (pairs (old ∷ rest))) ≡ true =
                  ap (ltb c.max_size) (sym size) ∙ many in
                (
                  record c { cache = remove key_equal old.key c.cache; lru_index = rest },
                  elim value_evict_func [ none ↦ w | some func ↦ func old.value w ],
                  rw (evict, many, split) refl,
                  remove_oldest-IsValid c old rest valid split,
                  rw (split, over) refl,
                  omega (arith, longer, bound),
                  refl,
                  refl,
                )
            | inr few ↦
                let under : ltb c.max_size (length (pairs (old ∷ rest))) ≡ false =
                  ap (ltb c.max_size) (sym size) ∙ few in
                (
                  c,
                  w,
                  rw (evict, few) refl,
                  valid,
                  rw (split, under) refl,
                  ground (arith, valid.sizes),
                  refl,
                  refl,
                )
          ]
    ]

    -- What a lookup has to give.
    abbrev pub Looks : LruCache K V → K → W → Type 0
    Looks c key w =
        (c' : LruCache K V) × (w' : W) × (v : V) × (lru_cache_lookup key_equal new_func
            value_evict_func c key w
          ≡ some (c', w', v))
        × IsValid key_equal new_func value_evict_func c'
        × ((pairs c'.lru_index, w', v) ≡ use_pair c.max_size (pairs c.lru_index) key w)
        × (length c'.lru_index ≤ c'.max_size)
        × (c'.max_size ≡ c.max_size)
        × (c'.next_access_counter ≡ c.next_access_counter + 1)

    lookup_hit :
        (c : LruCache K V) (key : K) (w : W) (e : CacheValue K V)
        → IsValid key_equal new_func value_evict_func c
        → length c.lru_index ≤ c.max_size
        → c.next_access_counter + 1 < 2 ^ 64
        → find_value key_equal key c.lru_index ≡ some e
        → Looks c key w
    unfolding lru_cache_lookup use_pair bump
    lookup_hit c key w e valid bound room found =
        let known : c.cache.lookup key ≡ some e.address =
          valid.agree key ∙ ap (λ o. o >>= λ x. some x.address) found in
        let there = deref-find key_equal key c.lru_index e valid.ordered found in
        let others = without key_equal key c.lru_index in
        let new : CacheValue K V = record e { access_counter = c.next_access_counter } in
        let index = bump-index key_equal new_func value_evict_func equal c key e valid found in
        let contents =
          ap pairs index
          ∙ pairs-snoc others new
          ∙ ap (λ k. pairs others ++ (k, e.value) ∷ [])
              (find-key key_equal equal key c.lru_index e found) in
        let sizes = ap length index ∙ length-append others (new ∷ []) in
        let shorter = length-without key_equal key c.lru_index e found in
        (
          bump key_equal new_func value_evict_func e c,
          w,
          e.value,
          rw (lru_cache_lookup, known, there) refl,
          bump-IsValid key_equal new_func value_evict_func equal c key e valid room found,
          rw
              (
                use_pair,
                find_pair-some key_equal key c.lru_index e found,
                delete_pair-pairs key_equal key c.lru_index,
              )
              (ap (λ p. (p, w, e.value)) contents),
          ground (arith, sizes, shorter),
          refl,
          omega (arith, room),
        )

    lookup_miss :
        (copies : (k : K) (w : W) → ((new_func k w).2 ≡ none) ⊎ ((new_func k w).2 ≡ some k))
        (c : LruCache K V) (key : K) (w : W)
        → IsValid key_equal new_func value_evict_func c
        → length c.lru_index ≤ c.max_size
        → c.next_access_counter + 1 < 2 ^ 64
        → find_value key_equal key c.lru_index ≡ none
        → Looks c key w
    unfolding lru_cache_lookup use_pair add
    lookup_miss copies c key w valid bound room absent =
        let unknown : c.cache.lookup key ≡ none =
          valid.agree key ∙ ap (λ o. o >>= λ x. some x.address) absent in
        let made = new_func key w in
        let added = add key_equal new_func value_evict_func key made.1 none c in
        let plain : add key_equal new_func value_evict_func key made.1 made.2 c ≡ added =
          elim (copies key w) [
            | inl e ↦ ap (λ o. add key_equal new_func value_evict_func key made.1 o c) e
            | inr e ↦ ap (λ o. add key_equal new_func value_evict_func key made.1 o c) e
          ] in
        let (kept, contents) =
          add-IsValid key_equal new_func value_evict_func equal c key made.1 valid room absent in
        let longer : length added.lru_index ≡ length c.lru_index + 1 =
          sym (length-pairs added.lru_index)
          ∙ ap length contents
          ∙ length-append (pairs c.lru_index) ((key, made.1) ∷ [])
          ∙ ap (λ n. n + 1) (length-pairs c.lru_index) in
        let (c', w', ran, valid', trimmed, fits, same_max, same_next) =
          evict_lem added made.0 kept (omega (arith, longer, bound)) in
        (
          c',
          w',
          made.1,
          rw (lru_cache_lookup, unknown, plain, ran) refl,
          valid',
          rw (use_pair, find_pair-none key_equal key c.lru_index absent)
              (ap (λ p. (p.0, p.1, made.1))
                (trimmed ∙ ap (λ l. trim c.max_size l made.0) contents)),
          ground (arith, fits, same_max),
          same_max,
          same_next ∙ omega (arith, room),
        )

    pub lookup-Looks :
        (copies : (k : K) (w : W) → ((new_func k w).2 ≡ none) ⊎ ((new_func k w).2 ≡ some k))
        (c : LruCache K V) (key : K) (w : W)
        → IsValid key_equal new_func value_evict_func c
        → length c.lru_index ≤ c.max_size
        → c.next_access_counter + 1 < 2 ^ 64
        → Looks c key w
    lookup-Looks copies c key w valid bound room =
        elim (Option-cases (find_value key_equal key c.lru_index)) [
          | inl absent ↦ lookup_miss copies c key w valid bound room absent
          | inr (e, found) ↦ lookup_hit c key w e valid bound room found
        ]
