-- ===== src/Lock/Built.antt =====
-- gzochi-server/src/lock-mem.c: the sequences of entries that the operations build, and their order.
use Prim.Native.Nat.{Ordering}
use gnu_gzochi.Base.{
  ◌≡◌, refl, sym, ◌∙◌, true, false, none, some, List, [], ◌∷◌, inl, inr, Bool-cases, if-cases,
  subst, arith,
}
use gnu_gzochi.Util.Compare.{IsOrder}
use gnu_gzochi.Lock.{
  Locks, same, before, find_locks_by_key, replace_locks, remove_locks, insert_locks,
}
use gnu_gzochi.Lock.Sound.{IsShared}
use gnu_gzochi.Lock.Entries.{
  IsSound, Above, IsSorted, find-IsShared, replace-IsSound, remove-IsSound, insert-IsSound, same→eq,
}

-- What the operations do to the sequence, from an empty one.
pub data Built {K : Type 0} (cmp : K → K → Ordering) : List (Locks K) → Type 0 where
  none_yet : Built cmp []
  replaced :
      {es : List (Locks K)} (key : K) (locks new : Locks K)
      → Built cmp es
      → find_locks_by_key cmp key es ≡ some locks
      → new.key ≡ locks.key
      → IsShared new.locks
      → Built cmp (replace_locks cmp key new es)
  inserted :
      {es : List (Locks K)} (new : Locks K)
      → Built cmp es
      → find_locks_by_key cmp new.key es ≡ none
      → IsShared new.locks
      → Built cmp (insert_locks cmp new es)
  removed : {es : List (Locks K)} (key : K) → Built cmp es → Built cmp (remove_locks cmp key es)

module _ {K : Type 0} {cmp : K → K → Ordering} where
  pub Built-IsSound : {es : List (Locks K)} → Built cmp es → IsSound es
  Built-IsSound none_yet = tt
  Built-IsSound (replaced key locks new b found kept shared) =
      replace-IsSound cmp key new _ shared (Built-IsSound b)
  Built-IsSound (inserted new b absent shared) = insert-IsSound cmp new _ shared (Built-IsSound b)
  Built-IsSound (removed key b) = remove-IsSound cmp key _ (Built-IsSound b)

module _ {K : Type 0} (cmp : K → K → Ordering) (order : IsOrder cmp) where
  Above-trans :
      (a b : K) (es : List (Locks K)) → cmp a b ≡ Ordering.lt → Above cmp b es → Above cmp a es
  Above-trans a b [] lower above = tt
  Above-trans a b (e ∷ es) lower above =
      (order.cmp_trans a b e.key lower above.0, Above-trans a b es lower above.1)

  Above-replace :
      (k key : K) (new : Locks K) (es : List (Locks K))
      → new.key ≡ key
      → Above cmp k es
      → Above cmp k (replace_locks cmp key new es)
  unfolding replace_locks
  Above-replace k key new [] named above = tt
  Above-replace k key new (e ∷ es) named above = elim (Bool-cases (same cmp key e.key)) [
    | inl hit ↦
        let moved = sym (same→eq cmp order key e.key hit) ∙ sym named in
        rw hit (subst (λ x. cmp k x ≡ Ordering.lt) moved above.0, above.1)
    | inr miss ↦ rw miss (above.0, Above-replace k key new es named above.1)
  ]

  IsSorted-replace :
      (key : K) (new : Locks K) (es : List (Locks K))
      → new.key ≡ key
      → IsSorted cmp es
      → IsSorted cmp (replace_locks cmp key new es)
  unfolding replace_locks
  IsSorted-replace key new [] named sorted = tt
  IsSorted-replace key new (e ∷ es) named sorted = elim (Bool-cases (same cmp key e.key)) [
    | inl hit ↦
        let moved = sym (same→eq cmp order key e.key hit) ∙ sym named in
        rw hit (subst (λ x. Above cmp x es) moved sorted.0, sorted.1)
    | inr miss ↦
        rw miss (
          Above-replace e.key key new es named sorted.0,
          IsSorted-replace key new es named sorted.1,
        )
  ]

  Above-remove :
      (k key : K) (es : List (Locks K)) → Above cmp k es → Above cmp k (remove_locks cmp key es)
  unfolding remove_locks
  Above-remove k key [] above = tt
  Above-remove k key (e ∷ es) above = elim (Bool-cases (same cmp key e.key)) [
    | inl hit ↦ rw hit above.1
    | inr miss ↦ rw miss (above.0, Above-remove k key es above.1)
  ]

  IsSorted-remove :
      (key : K) (es : List (Locks K)) → IsSorted cmp es → IsSorted cmp (remove_locks cmp key es)
  unfolding remove_locks
  IsSorted-remove key [] sorted = tt
  IsSorted-remove key (e ∷ es) sorted = elim (Bool-cases (same cmp key e.key)) [
    | inl hit ↦ rw hit sorted.1
    | inr miss ↦ rw miss (Above-remove e.key key es sorted.0, IsSorted-remove key es sorted.1)
  ]

  Above-insert :
      (k : K) (new : Locks K) (es : List (Locks K))
      → cmp k new.key ≡ Ordering.lt
      → Above cmp k es
      → Above cmp k (insert_locks cmp new es)
  unfolding insert_locks
  Above-insert k new [] lower above = (lower, tt)
  Above-insert k new (e ∷ es) lower above = elim (Bool-cases (before cmp new.key e.key)) [
    | inl here ↦ rw here (lower, above)
    | inr later ↦ rw later (above.0, Above-insert k new es lower above.1)
  ]

  before→lt : (a b : K) → before cmp a b ≡ true → cmp a b ≡ Ordering.lt
  before→lt a b h = ground arith

  after→lt : (a b : K) → before cmp a b ≡ false → same cmp a b ≡ false → cmp b a ≡ Ordering.lt
  after→lt a b h k = order.cmp_flip a b ∙ ground arith

  IsSorted-insert :
      (new : Locks K) (es : List (Locks K))
      → find_locks_by_key cmp new.key es ≡ none
      → IsSorted cmp es
      → IsSorted cmp (insert_locks cmp new es)
  unfolding insert_locks find_locks_by_key
  IsSorted-insert new [] absent sorted = (tt, tt)
  IsSorted-insert new (e ∷ es) absent sorted = elim (if-cases (same cmp new.key e.key) absent) [
    | inl (hit, here) ↦ cc
    | inr (miss, there) ↦ elim (Bool-cases (before cmp new.key e.key)) [
      | inl first ↦
          let lower = before→lt new.key e.key first in
          rw first ((lower, Above-trans new.key e.key es lower sorted.0), sorted)
      | inr later ↦ rw later (
        Above-insert e.key new es (after→lt new.key e.key later miss) sorted.0,
        IsSorted-insert new es there sorted.1,
      )
    ]
  ]

  pub Built-IsSorted : {es : List (Locks K)} → Built cmp es → IsSorted cmp es
  Built-IsSorted none_yet = tt
  Built-IsSorted (replaced {es} key locks new b found kept shared) =
      let (own, on_key) = find-IsShared cmp key es locks (Built-IsSound b) found in
      IsSorted-replace key new es (kept ∙ sym (same→eq cmp order key locks.key on_key))
        (Built-IsSorted b)
  Built-IsSorted (inserted new b absent shared) = IsSorted-insert new _ absent (Built-IsSorted b)
  Built-IsSorted (removed key b) = IsSorted-remove key _ (Built-IsSorted b)

  find-Above :
      (key : K) (es : List (Locks K)) → Above cmp key es → find_locks_by_key cmp key es ≡ none
  unfolding find_locks_by_key
  find-Above key [] above = refl
  find-Above key (e ∷ es) above = rw (same, above.0) (find-Above key es above.1)

  pub find-remove :
      (key : K) (es : List (Locks K))
      → IsSorted cmp es
      → find_locks_by_key cmp key (remove_locks cmp key es) ≡ none
  unfolding find_locks_by_key remove_locks
  find-remove key [] sorted = refl
  find-remove key (e ∷ es) sorted = elim (Bool-cases (same cmp key e.key)) [
    | inl hit ↦
        let moved = sym (same→eq cmp order key e.key hit) in
        rw hit (find-Above key es (subst (λ x. Above cmp x es) moved sorted.0))
    | inr miss ↦ rw (miss, miss) (find-remove key es sorted.1)
  ]
