-- ===== src/LruCache/Index.antt =====
-- gzochi-server/src/lrucache.c: the index, whose structures differ in key, address and time of use.
use mathlib.Core.Option.{some-injective}
use gnu_gzochi.Base.{
  ◌<◌, ◌≡◌, ◌≢◌, refl, sym, ap, Bool, true, false, Option, none, some, List, [], ◌∷◌, ◌++◌, ◌==◌,
  ==_refl, ltb, All, if◌then◌else◌, arith, Bool-cases, if-cases, inl, inr, subst,
}
use gnu_gzochi.LruCache.{CacheValue, deref, insert_value, delete_value}

module _ {K V : Type 0} (key_equal : K → K → Bool) where
  -- `x` was used before `y`, and they are different structures with different keys.
  abbrev pub IsBefore : CacheValue K V → CacheValue K V → Type 0
  IsBefore x y = (x.access_counter < y.access_counter) × (x.address ≢ y.address) × (x.key ≢ y.key)

  abbrev pub InOrder : List (CacheValue K V) → Type 0
  InOrder [] = Unit
  InOrder (e ∷ es) = All (IsBefore e) es × InOrder es

  unfoldable pub find_value : K → List (CacheValue K V) → Option (CacheValue K V)
  find_value key [] = none
  find_value key (e ∷ es) = if key_equal e.key key then some e else find_value key es

  -- The index without the structure of a key.
  unfoldable pub without : K → List (CacheValue K V) → List (CacheValue K V)
  without key [] = []
  without key (e ∷ es) = if key_equal e.key key then es else e ∷ without key es

  pub All-find :
      (P : CacheValue K V → Type 0) (key : K) (es : List (CacheValue K V)) (e : CacheValue K V)
      → All P es
      → find_value key es ≡ some e
      → P e
  unfolding find_value
  All-find P key [] e all found = cc
  All-find P key (x ∷ es) e all found = elim (if-cases (key_equal x.key key) found) [
    | inl (hit, here) ↦ subst P (some-injective x e here) all.0
    | inr (miss, there) ↦ All-find P key es e all.1 there
  ]

  pub All-without :
      (P : CacheValue K V → Type 0) (key : K) (es : List (CacheValue K V))
      → All P es
      → All P (without key es)
  unfolding without
  All-without P key [] all = tt
  All-without P key (x ∷ es) all = elim (Bool-cases (key_equal x.key key)) [
    | inl hit ↦ rw hit all.1
    | inr miss ↦ rw miss (all.0, All-without P key es all.1)
  ]

  pub InOrder-without :
      (key : K) (es : List (CacheValue K V)) → InOrder es → InOrder (without key es)
  unfolding without
  InOrder-without key [] ordered = tt
  InOrder-without key (x ∷ es) ordered = elim (Bool-cases (key_equal x.key key)) [
    | inl hit ↦ rw hit ordered.1
    | inr miss ↦
        rw miss (All-without (IsBefore x) key es ordered.0, InOrder-without key es ordered.1)
  ]

  pub All-snoc :
      (P : CacheValue K V → Type 0) (es : List (CacheValue K V)) (new : CacheValue K V)
      → All P es
      → P new
      → All P (es ++ new ∷ [])
  All-snoc P [] new all last = (last, tt)
  All-snoc P (e ∷ es) new all last = (all.0, All-snoc P es new all.1 last)

  pub InOrder-snoc :
      (es : List (CacheValue K V)) (new : CacheValue K V)
      → InOrder es
      → All (λ x. IsBefore x new) es
      → InOrder (es ++ new ∷ [])
  InOrder-snoc [] new ordered last = (tt, tt)
  InOrder-snoc (e ∷ es) new ordered last =
      (All-snoc (IsBefore e) es new ordered.0 last.0, InOrder-snoc es new ordered.1 last.1)

  -- The latest structure goes to the end.
  pub insert_value-last :
      (new : CacheValue K V) (es : List (CacheValue K V))
      → All (λ x. x.access_counter < new.access_counter) es
      → insert_value new es ≡ es ++ new ∷ []
  unfolding insert_value
  insert_value-last new [] earlier = refl
  insert_value-last new (e ∷ es) earlier =
      let later : ltb new.access_counter e.access_counter ≡ false = ground (arith, earlier.0) in
      rw later (ap (◌∷◌ e) (insert_value-last new es earlier.1))

  -- A structure's address leads to it.
  pub deref-find :
      (key : K) (es : List (CacheValue K V)) (e : CacheValue K V)
      → InOrder es
      → find_value key es ≡ some e
      → deref e.address es ≡ some e
  unfolding find_value deref
  deref-find key [] e ordered found = cc
  deref-find key (x ∷ es) e ordered found = elim (if-cases (key_equal x.key key) found) [
    | inl (hit, here) ↦
        subst (λ y. deref y.address (x ∷ es) ≡ some y) (some-injective x e here)
          (rw (==_refl x.address) refl)
    | inr (miss, there) ↦
        let apart = (All-find (IsBefore x) key es e ordered.0 there).1 in
        let other : (x.address == e.address) ≡ false = ground arith in
        rw other (deref-find key es e ordered.1 there)
  ]

  -- The time of use finds the structure of the key.
  pub delete-find :
      (key : K) (es : List (CacheValue K V)) (e : CacheValue K V)
      → InOrder es
      → find_value key es ≡ some e
      → delete_value e.access_counter es ≡ without key es
  unfolding find_value delete_value without
  delete-find key [] e ordered found = cc
  delete-find key (x ∷ es) e ordered found = elim (if-cases (key_equal x.key key) found) [
    | inl (hit, here) ↦
        let own : (x.access_counter == e.access_counter) ≡ true =
          subst (λ y. (x.access_counter == y.access_counter) ≡ true) (some-injective x e here)
            (==_refl x.access_counter) in
        rw (own, hit) refl
    | inr (miss, there) ↦
        let before = (All-find (IsBefore x) key es e ordered.0 there).0 in
        let other : (x.access_counter == e.access_counter) ≡ false = ground arith in
        rw (other, miss) (ap (◌∷◌ x) (delete-find key es e ordered.1 there))
  ]

  All-flip :
      (x : CacheValue K V) (es : List (CacheValue K V))
      → All (IsBefore x) es
      → All (λ z. (z.address ≢ x.address) × (z.key ≢ x.key)) es
  All-flip x [] all = tt
  All-flip x (e ∷ es) all = ((λ q. all.0.1 (sym q), λ q. all.0.2 (sym q)), All-flip x es all.1)

  -- The others differ from the structure of the key.
  pub without-apart :
      (key : K) (es : List (CacheValue K V)) (e : CacheValue K V)
      → InOrder es
      → find_value key es ≡ some e
      → All (λ x. (x.address ≢ e.address) × (x.key ≢ e.key)) (without key es)
  unfolding find_value without
  without-apart key [] e ordered found = cc
  without-apart key (x ∷ es) e ordered found = elim (if-cases (key_equal x.key key) found) [
    | inl (hit, here) ↦ rw hit (
        subst (λ y. All (λ z. (z.address ≢ y.address) × (z.key ≢ y.key)) es)
          (some-injective x e here) (All-flip x es ordered.0))
    | inr (miss, there) ↦
        let apart = All-find (IsBefore x) key es e ordered.0 there in
        rw miss ((apart.1, apart.2), without-apart key es e ordered.1 there)
  ]
