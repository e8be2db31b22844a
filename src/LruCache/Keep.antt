-- ===== src/LruCache/Keep.antt =====
-- gzochi-server/src/lrucache.c: a lookup keeps the table and the index in step.
use gnu_gzochi.Base.{
  length-append, ◌+◌, ◌^◌, ◌<◌, ◌≡◌, ◌≢◌, ◌↔◌, refl, sym, ap, ◌∙◌, Bool, true, false, Option, none,
  some, List, [], ◌∷◌, ◌++◌, length, All, ◌>>=◌, if◌then◌else◌, arith, Bool-cases, inl, inr, subst,
}
use gnu_gzochi.LruCache.{CacheValue, LruCache, insert_value, bump, add}
use gnu_gzochi.LruCache.Index.{
  InOrder, find_value, without, All-without, All-find, InOrder-without, All-snoc, InOrder-snoc,
  insert_value-last, delete-find, without-apart,
}
use gnu_gzochi.LruCache.Keys.{
  pairs, pairs-snoc, find-snoc_other, find-snoc, length-without, key_equal-ne, find-key, apart-find,
  find-apart, find-without_other,
}

module _ {K V W : Type 0} (key_equal : K → K → Bool) (new_func : K → W → W × V × Option K)
    (value_evict_func : Option (V → W → W)) where
  pub record IsValid (c : LruCache K V) : Type 0 where
    pub ordered : InOrder key_equal c.lru_index
    pub fresh :
        All
          (λ x. (x.access_counter < c.next_access_counter) × (x.address < c.next_address))
          c.lru_index
    pub agree :
        (k : K) → c.cache.lookup k ≡ (find_value key_equal k c.lru_index >>= λ e. some e.address)
    pub sizes : c.cache.size ≡ length c.lru_index

  module _ (equal : (a b : K) → (key_equal a b ≡ true) ↔ (a ≡ b)) where
    All-map :
        {P Q : CacheValue K V → Type 0}
        → ((x : CacheValue K V) → P x → Q x)
        → (es : List (CacheValue K V)) → All P es
        → All Q es
    All-map f [] all = tt
    All-map f (e ∷ es) all = (f e all.0, All-map f es all.1)

    All-zip :
        (P Q : CacheValue K V → Type 0) (es : List (CacheValue K V))
        → All P es
        → All Q es
        → All (λ x. P x × Q x) es
    All-zip P Q [] all all' = tt
    All-zip P Q (e ∷ es) all all' = ((all.0, all'.0), All-zip P Q es all.1 all'.1)

    pub bump-index :
        (c : LruCache K V) (key : K) (e : CacheValue K V)
        → IsValid c
        → find_value key_equal key c.lru_index ≡ some e
        → (bump key_equal new_func value_evict_func e c).lru_index
          ≡ without key_equal key c.lru_index
            ++ record e { access_counter = c.next_access_counter } ∷ []
    unfolding bump
    bump-index c key e valid found =
        let others = without key_equal key c.lru_index in
        let new = record e { access_counter = c.next_access_counter } in
        let earlier =
          All-map (λ x f. f.0) others (All-without key_equal _ key c.lru_index valid.fresh) in
        ap (insert_value new) (delete-find key_equal key c.lru_index e valid.ordered found)
        ∙ insert_value-last key_equal new others earlier

    -- The table still finds the same addresses.
    bump-agree :
        (es : List (CacheValue K V)) (key : K) (e new : CacheValue K V) (k : K)
        → InOrder key_equal es
        → find_value key_equal key es ≡ some e
        → new.address ≡ e.address
        → new.key ≡ e.key
        → (find_value key_equal k es >>= λ x. some x.address)
          ≡ (find_value key_equal k (without key_equal key es ++ new ∷ []) >>= λ x. some x.address)
    bump-agree es key e new k ordered found same_address same_key =
        let others = without key_equal key es in
        let named : e.key ≡ key = find-key key_equal equal key es e found in
        elim (Bool-cases (key_equal k key)) [
          | inr other ↦
              let apart : k ≢ key = λ q. cc (other, (equal k key).1 q) in
              let unlike =
                key_equal-ne key_equal equal new.key k (λ q. apart (sym q ∙ same_key ∙ named)) in
              ap (λ o. o >>= λ x. some x.address)
                (sym (
                  find-snoc_other key_equal k others new unlike
                  ∙ find-without_other key_equal equal k key es apart))
          | inl hit ↦
              let here : k ≡ key = (equal k key).0 hit in
              let gone : find_value key_equal k others ≡ none =
                apart-find key_equal equal k others (
                  All-map (λ x p q. p.1 (q ∙ here ∙ sym named)) others
                    (without-apart key_equal key es e ordered found)) in
              let last =
                find-snoc key_equal k others new gone
                  ((equal new.key k).1 (same_key ∙ named ∙ sym here)) in
              let first : find_value key_equal k es ≡ some e =
                ap (λ x. find_value key_equal x es) here ∙ found in
              rw (first, last) (ap some (sym same_address))
        ]

    pub bump-IsValid :
        (c : LruCache K V) (key : K) (e : CacheValue K V)
        → IsValid c
        → c.next_access_counter + 1 < 2 ^ 64
        → find_value key_equal key c.lru_index ≡ some e
        → IsValid (bump key_equal new_func value_evict_func e c)
    unfolding bump
    bump-IsValid c key e valid room found =
        let others = without key_equal key c.lru_index in
        let new = record e { access_counter = c.next_access_counter } in
        let index = bump-index c key e valid found in
        let fresh' = All-without key_equal _ key c.lru_index valid.fresh in
        let apart = without-apart key_equal key c.lru_index e valid.ordered found in
        let bound = All-find key_equal _ key c.lru_index e valid.fresh found in
        record {
          ordered = subst (InOrder key_equal) (sym index) (
              InOrder-snoc key_equal others new
                (InOrder-without key_equal key c.lru_index valid.ordered)
                (All-map (λ x p. (p.0.0, p.1.0, p.1.1)) others (All-zip _ _ others fresh' apart)));
          fresh = subst (All _) (sym index) (
              All-snoc key_equal _ others new
                (All-map (λ x f. (omega (arith, f.0, room), f.1)) others fresh')
                (omega (arith, room), bound.1));
          agree = λ k.
              valid.agree k
              ∙ bump-agree c.lru_index key e new k valid.ordered found refl refl
              ∙ ap (λ es. find_value key_equal k es >>= λ x. some x.address) (sym index);
          sizes = ground (
            arith,
            valid.sizes,
            ap length index,
            length-append others (new ∷ []),
            length-without key_equal key c.lru_index e found,
          );
        }

    add-agree :
        (c : LruCache K V) (key : K) (new : CacheValue K V) (k : K)
        → IsValid c
        → find_value key_equal key c.lru_index ≡ none
        → new.key ≡ key
        → (if key_equal key k then some new.address else c.cache.lookup k)
          ≡ (find_value key_equal k (c.lru_index ++ new ∷ []) >>= λ x. some x.address)
    add-agree c key new k valid absent named = elim (Bool-cases (key_equal key k)) [
      | inl hit ↦
          let here : key ≡ k = (equal key k).0 hit in
          let none_before : find_value key_equal k c.lru_index ≡ none =
            ap (λ x. find_value key_equal x c.lru_index) (sym here) ∙ absent in
          let last =
            find-snoc key_equal k c.lru_index new none_before
              ((equal new.key k).1 (named ∙ here)) in
          rw (hit, last) refl
      | inr other ↦
          let unlike : key_equal new.key k ≡ false = ap (λ x. key_equal x k) named ∙ other in
          rw (other, find-snoc_other key_equal k c.lru_index new unlike) (valid.agree k)
    ]

    pub add-IsValid :
        (c : LruCache K V) (key : K) (value : V)
        → IsValid c
        → c.next_access_counter + 1 < 2 ^ 64
        → find_value key_equal key c.lru_index ≡ none
        → IsValid (add key_equal new_func value_evict_func key value none c)
          × (pairs (add key_equal new_func value_evict_func key value none c).lru_index
              ≡ pairs c.lru_index ++ (key, value) ∷ [])
    unfolding add
    add-IsValid c key value valid room absent =
        let new : CacheValue K V = record {
          address = c.next_address;
          key = key;
          value = value;
          access_counter = c.next_access_counter;
        } in
        let earlier = All-map (λ x f. f.0) c.lru_index valid.fresh in
        let index = insert_value-last key_equal new c.lru_index earlier in
        let apart = find-apart key_equal equal key c.lru_index absent in
        let unknown : c.cache.lookup key ≡ none =
          valid.agree key ∙ ap (λ o. o >>= λ x. some x.address) absent in
        (
          record {
            ordered = subst (InOrder key_equal) (sym index) (
                InOrder-snoc key_equal c.lru_index new valid.ordered (
                  All-map (λ x p. (p.0.0, (λ q. omega (arith, q, p.0.1)), p.1)) c.lru_index
                    (All-zip _ _ c.lru_index valid.fresh apart)));
            fresh = subst (All _) (sym index) (
                All-snoc key_equal _ c.lru_index new
                  (All-map (λ x f. (omega (arith, f.0, room), omega (arith, f.1))) c.lru_index
                    valid.fresh)
                  (omega (arith, room), omega arith));
            agree = λ k.
                add-agree c key new k valid absent refl
                ∙ ap (λ es. find_value key_equal k es >>= λ x. some x.address) (sym index);
            sizes = rw unknown (
                ground (arith, valid.sizes, ap length index, length-append c.lru_index (new ∷ [])));
          },
          ap pairs index ∙ pairs-snoc c.lru_index new,
        )
