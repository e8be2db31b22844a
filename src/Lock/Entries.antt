-- ===== src/Lock/Entries.antt =====
-- gzochi-server/src/lock-mem.c: the sequence of the keys' entries, sorted by key.
use Prim.Native.Nat.{Ordering}
use mathlib.Core.Option.{some-injective}
use gnu_gzochi.Base.{
  ◌≡◌, ◌≢◌, refl, sym, ◌∙◌, true, false, none, some, List, [], ◌∷◌, inl, inr, All, arith,
  Bool-cases, if-cases, subst,
}
use gnu_gzochi.Util.Compare.{IsOrder}
use gnu_gzochi.Lock.{
  Locks, same, before, find_locks_by_key, replace_locks, remove_locks, insert_locks,
}
use gnu_gzochi.Lock.Sound.{IsShared}

module _ {K : Type 0} where
  abbrev pub IsSound : List (Locks K) → Type 0
  IsSound = All (λ e. IsShared e.locks)

module _ {K : Type 0} (cmp : K → K → Ordering) where
  abbrev pub Above : K → List (Locks K) → Type 0
  Above key = All (λ e. cmp key e.key ≡ Ordering.lt)

  abbrev pub IsSorted : List (Locks K) → Type 0
  IsSorted [] = Unit
  IsSorted (e ∷ es) = Above e.key es × IsSorted es

  pub find-IsShared :
      (key : K) (es : List (Locks K)) (e : Locks K)
      → IsSound es
      → find_locks_by_key cmp key es ≡ some e
      → IsShared e.locks × (same cmp key e.key ≡ true)
  unfolding find_locks_by_key
  find-IsShared key [] e s found = cc
  find-IsShared key (x ∷ es) e s found = elim (if-cases (same cmp key x.key) found) [
    | inl (hit, here) ↦ (
      subst (λ y. IsShared y.locks) (some-injective x e here) s.0,
      subst (λ y. same cmp key y.key ≡ true) (some-injective x e here) hit,
    )
    | inr (miss, there) ↦ find-IsShared key es e s.1 there
  ]

  pub replace-IsSound :
      (key : K) (new : Locks K) (es : List (Locks K))
      → IsShared new.locks
      → IsSound es
      → IsSound (replace_locks cmp key new es)
  unfolding replace_locks
  replace-IsSound key new [] n s = tt
  replace-IsSound key new (e ∷ es) n s = elim (Bool-cases (same cmp key e.key)) [
    | inl hit ↦ rw hit (n, s.1)
    | inr miss ↦ rw miss (s.0, replace-IsSound key new es n s.1)
  ]

  pub remove-IsSound :
      (key : K) (es : List (Locks K)) → IsSound es → IsSound (remove_locks cmp key es)
  unfolding remove_locks
  remove-IsSound key [] s = tt
  remove-IsSound key (e ∷ es) s = elim (Bool-cases (same cmp key e.key)) [
    | inl hit ↦ rw hit s.1
    | inr miss ↦ rw miss (s.0, remove-IsSound key es s.1)
  ]

  pub insert-IsSound :
      (new : Locks K) (es : List (Locks K))
      → IsShared new.locks
      → IsSound es
      → IsSound (insert_locks cmp new es)
  unfolding insert_locks
  insert-IsSound new [] n s = (n, tt)
  insert-IsSound new (e ∷ es) n s = elim (Bool-cases (before cmp new.key e.key)) [
    | inl lower ↦ rw lower (n, s)
    | inr higher ↦ rw higher (s.0, insert-IsSound new es n s.1)
  ]

  pub find-replace :
      (key : K) (new e : Locks K) (es : List (Locks K))
      → same cmp key new.key ≡ true
      → find_locks_by_key cmp key es ≡ some e
      → find_locks_by_key cmp key (replace_locks cmp key new es) ≡ some new
  unfolding find_locks_by_key replace_locks
  find-replace key new e [] own found = cc
  find-replace key new e (x ∷ es) own found = elim (if-cases (same cmp key x.key) found) [
    | inl (hit, here) ↦ rw (hit, own) refl
    | inr (miss, there) ↦ rw (miss, miss) (find-replace key new e es own there)
  ]

  pub find-insert :
      (new : Locks K) (es : List (Locks K))
      → same cmp new.key new.key ≡ true
      → find_locks_by_key cmp new.key es ≡ none
      → find_locks_by_key cmp new.key (insert_locks cmp new es) ≡ some new
  unfolding find_locks_by_key insert_locks
  find-insert new [] own absent = rw own refl
  find-insert new (e ∷ es) own absent = elim (Bool-cases (before cmp new.key e.key)) [
    | inl lower ↦ rw (lower, own) refl
    | inr higher ↦ elim (if-cases (same cmp new.key e.key) absent) [
      | inl (hit, here) ↦ cc
      | inr (miss, there) ↦ rw (higher, miss) (find-insert new es own there)
    ]
  ]

  module _ (order : IsOrder cmp) where
    pub same→eq : (a b : K) → same cmp a b ≡ true → a ≡ b
    same→eq a b h = (order.cmp_eq a b).0 (ground arith)

    pub same_refl : (a : K) → same cmp a a ≡ true
    same_refl a = rw (same, (order.cmp_eq a a).1 refl) refl

    pub same_ne : (a b : K) → a ≢ b → same cmp a b ≡ false
    same_ne a b apart = elim (Bool-cases (same cmp a b)) [
      | inl hit ↦ absurd (apart (same→eq a b hit))
      | inr miss ↦ miss
    ]

    -- Another key's entry is not touched.
    pub find_other-replace :
        (k key : K) (new : Locks K) (es : List (Locks K))
        → k ≢ key
        → new.key ≡ key
        → find_locks_by_key cmp k (replace_locks cmp key new es) ≡ find_locks_by_key cmp k es
    unfolding find_locks_by_key replace_locks
    find_other-replace k key new [] apart own = refl
    find_other-replace k key new (e ∷ es) apart own = elim (Bool-cases (same cmp key e.key)) [
      | inl hit ↦
          let old = same_ne k e.key (λ q. apart (q ∙ sym (same→eq key e.key hit))) in
          rw (hit, same_ne k new.key (λ q. apart (q ∙ own)), old) refl
      | inr miss ↦ rw (miss, find_other-replace k key new es apart own) refl
    ]

    pub find_other-remove :
        (k key : K) (es : List (Locks K))
        → k ≢ key
        → find_locks_by_key cmp k (remove_locks cmp key es) ≡ find_locks_by_key cmp k es
    unfolding find_locks_by_key remove_locks
    find_other-remove k key [] apart = refl
    find_other-remove k key (e ∷ es) apart = elim (Bool-cases (same cmp key e.key)) [
      | inl hit ↦
          let old = same_ne k e.key (λ q. apart (q ∙ sym (same→eq key e.key hit))) in
          rw (hit, old) refl
      | inr miss ↦ rw (miss, find_other-remove k key es apart) refl
    ]

    pub find_other-insert :
        (k : K) (new : Locks K) (es : List (Locks K))
        → k ≢ new.key
        → find_locks_by_key cmp k (insert_locks cmp new es) ≡ find_locks_by_key cmp k es
    unfolding find_locks_by_key insert_locks
    find_other-insert k new [] apart = rw (same_ne k new.key apart) refl
    find_other-insert k new (e ∷ es) apart = elim (Bool-cases (before cmp new.key e.key)) [
      | inl lower ↦ rw (lower, same_ne k new.key apart) refl
      | inr higher ↦ rw (higher, find_other-insert k new es apart) refl
    ]
