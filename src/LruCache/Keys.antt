-- ===== src/LruCache/Keys.antt =====
-- gzochi-server/src/lrucache.c: the index searched by key, and the list of pairs that it stands for.
use mathlib.Core.Option.{some-injective}
use gnu_gzochi.Base.{
  suc, ◌≡◌, ◌≢◌, ◌↔◌, refl, sym, ap, ◌∙◌, Bool, true, false, Option, none, some, List, [], ◌∷◌,
  ◌++◌, length, All, if◌then◌else◌, Bool-cases, if-cases, inl, inr,
}
use gnu_gzochi.LruCache.{CacheValue}
use gnu_gzochi.LruCache.Index.{find_value, without}

-- The contents of the cache, the least recently used first.
module _ {K V : Type 0} where
  abbrev pub pairs : List (CacheValue K V) → List (K × V)
  pairs [] = []
  pairs (e ∷ es) = (e.key, e.value) ∷ pairs es

  pub pairs-snoc :
      (es : List (CacheValue K V)) (e : CacheValue K V)
      → pairs (es ++ e ∷ []) ≡ pairs es ++ (e.key, e.value) ∷ []
  pairs-snoc [] e = refl
  pairs-snoc (x ∷ es) e = ap (◌∷◌ (x.key, x.value)) (pairs-snoc es e)

  pub length-pairs : (es : List (CacheValue K V)) → length (pairs es) ≡ length es
  length-pairs [] = refl
  length-pairs (e ∷ es) = ap suc (length-pairs es)

module _ {K : Type 0} (key_equal : K → K → Bool)
    (equal : (a b : K) → (key_equal a b ≡ true) ↔ (a ≡ b)) where
  pub key_equal-ne : (a b : K) → a ≢ b → key_equal a b ≡ false
  key_equal-ne a b apart = elim (Bool-cases (key_equal a b)) [
    | inl hit ↦ absurd (apart ((equal a b).0 hit))
    | inr miss ↦ miss
  ]

module _ {K V : Type 0} (key_equal : K → K → Bool) where
  unfoldable pub find_pair : K → List (K × V) → Option V
  find_pair key [] = none
  find_pair key ((k, v) ∷ rest) = if key_equal k key then some v else find_pair key rest

  unfoldable pub delete_pair : K → List (K × V) → List (K × V)
  delete_pair key [] = []
  delete_pair key ((k, v) ∷ rest) = if key_equal k key then rest else (k, v) ∷ delete_pair key rest

  pub find_pair-some :
      (key : K) (es : List (CacheValue K V)) (e : CacheValue K V)
      → find_value key_equal key es ≡ some e
      → find_pair key (pairs es) ≡ some e.value
  unfolding find_pair find_value
  find_pair-some key [] e found = cc
  find_pair-some key (x ∷ es) e found = elim (if-cases (key_equal x.key key) found) [
    | inl (hit, here) ↦ rw hit (ap (λ y. some y.value) (some-injective x e here))
    | inr (miss, there) ↦ rw miss (find_pair-some key es e there)
  ]

  pub find_pair-none :
      (key : K) (es : List (CacheValue K V))
      → find_value key_equal key es ≡ none
      → find_pair key (pairs es) ≡ none
  unfolding find_pair find_value
  find_pair-none key [] absent = refl
  find_pair-none key (x ∷ es) absent = elim (if-cases (key_equal x.key key) absent) [
    | inl (hit, here) ↦ cc
    | inr (miss, there) ↦ rw miss (find_pair-none key es there)
  ]

  pub delete_pair-pairs :
      (key : K) (es : List (CacheValue K V))
      → delete_pair key (pairs es) ≡ pairs (without key_equal key es)
  unfolding delete_pair without
  delete_pair-pairs key [] = refl
  delete_pair-pairs key (x ∷ es) = elim (Bool-cases (key_equal x.key key)) [
    | inl hit ↦ rw hit refl
    | inr miss ↦ rw miss (ap (◌∷◌ (x.key, x.value)) (delete_pair-pairs key es))
  ]

  pub find-snoc_other :
      (key : K) (es : List (CacheValue K V)) (e : CacheValue K V)
      → key_equal e.key key ≡ false
      → find_value key_equal key (es ++ e ∷ []) ≡ find_value key_equal key es
  unfolding find_value
  find-snoc_other key [] e other = rw other refl
  find-snoc_other key (x ∷ es) e other = elim (Bool-cases (key_equal x.key key)) [
    | inl hit ↦ rw hit refl
    | inr miss ↦ rw miss (find-snoc_other key es e other)
  ]

  pub find-snoc :
      (key : K) (es : List (CacheValue K V)) (e : CacheValue K V)
      → find_value key_equal key es ≡ none
      → key_equal e.key key ≡ true
      → find_value key_equal key (es ++ e ∷ []) ≡ some e
  unfolding find_value
  find-snoc key [] e absent own = rw own refl
  find-snoc key (x ∷ es) e absent own = elim (if-cases (key_equal x.key key) absent) [
    | inl (hit, here) ↦ cc
    | inr (miss, there) ↦ rw miss (find-snoc key es e there own)
  ]

  pub length-without :
      (key : K) (es : List (CacheValue K V)) (e : CacheValue K V)
      → find_value key_equal key es ≡ some e
      → suc (length (without key_equal key es)) ≡ length es
  unfolding find_value without
  length-without key [] e found = cc
  length-without key (x ∷ es) e found = elim (if-cases (key_equal x.key key) found) [
    | inl (hit, here) ↦ rw hit refl
    | inr (miss, there) ↦ rw miss (ap suc (length-without key es e there))
  ]

  module _ (equal : (a b : K) → (key_equal a b ≡ true) ↔ (a ≡ b)) where
    pub find-key :
        (key : K) (es : List (CacheValue K V)) (e : CacheValue K V)
        → find_value key_equal key es ≡ some e
        → e.key ≡ key
    unfolding find_value
    find-key key [] e found = cc
    find-key key (x ∷ es) e found = elim (if-cases (key_equal x.key key) found) [
      | inl (hit, here) ↦ ap (λ y. y.key) (sym (some-injective x e here)) ∙ (equal x.key key).0 hit
      | inr (miss, there) ↦ find-key key es e there
    ]

    pub apart-find :
        (key : K) (es : List (CacheValue K V))
        → All (λ x. x.key ≢ key) es
        → find_value key_equal key es ≡ none
    unfolding find_value
    apart-find key [] apart = refl
    apart-find key (x ∷ es) apart =
        rw (key_equal-ne key_equal equal x.key key apart.0) (apart-find key es apart.1)

    pub find-apart :
        (key : K) (es : List (CacheValue K V))
        → find_value key_equal key es ≡ none
        → All (λ x. x.key ≢ key) es
    unfolding find_value
    find-apart key [] absent = tt
    find-apart key (x ∷ es) absent = elim (if-cases (key_equal x.key key) absent) [
      | inl (hit, here) ↦ cc
      | inr (miss, there) ↦ (λ q. cc (miss, (equal x.key key).1 q), find-apart key es there)
    ]

    pub find-without_other :
        (k key : K) (es : List (CacheValue K V))
        → k ≢ key
        → find_value key_equal k (without key_equal key es) ≡ find_value key_equal k es
    unfolding find_value without
    find-without_other k key [] apart = refl
    find-without_other k key (x ∷ es) apart = elim (Bool-cases (key_equal x.key key)) [
      | inl hit ↦
          let other =
            key_equal-ne key_equal equal x.key k (λ q. apart (sym q ∙ (equal x.key key).0 hit)) in
          rw (hit, other) refl
      | inr miss ↦ rw (miss, find-without_other k key es apart) refl
    ]
