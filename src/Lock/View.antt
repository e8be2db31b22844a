-- ===== src/Lock/View.antt =====
-- gzochi-server/src/lock-mem.c: the lock table as `gzochid_lock_check` sees it.
use Prim.Native.Nat.{Ordering}
use gnu_gzochi.Base.{
  ℕ, ◌≡◌, ◌≢◌, refl, sym, ap, Bool, true, false, not, ◌||◌, none, some, List, [], ◌∷◌, ◌⊎◌, inl,
  inr, ◌==◌, arith, Bool-cases, if-cases, subst,
}
use gnu_gzochi.Timeval.{Timeval}
use gnu_gzochi.Util.Compare.{IsOrder}
use gnu_gzochi.Lock.{
  PointLock, Locks, LockTable, IntervalTree, find_lock_with_node_id, upgrade, same,
  find_locks_by_key,
}
use gnu_gzochi.Lock.Ops.{lock_check}
use gnu_gzochi.Lock.Sound.{Without}
use gnu_gzochi.Lock.Entries.{same→eq, same_refl}

-- Whether the node holds a lock of this strength among the locks on a key.
abbrev pub holds : ℕ → Bool → List PointLock → Bool
holds m v ls = elim (find_lock_with_node_id m ls) [ none ↦ false | some l ↦ l.for_write || not v ]

pub holds-upgrade_other :
    (node m : ℕ) (now : Timeval) (v : Bool) (ls : List PointLock)
    → m ≢ node
    → holds m v (upgrade node now ls) ≡ holds m v ls
unfolding find_lock_with_node_id upgrade
holds-upgrade_other node m now v [] apart = refl
holds-upgrade_other node m now v (l ∷ ls) apart = elim (Bool-cases (l.node_id == node)) [
  | inl hit ↦ let other : (l.node_id == m) ≡ false = ground arith in rw (hit, holds, other) refl
  | inr miss ↦ elim (Bool-cases (l.node_id == m)) [
    | inl hit' ↦ rw (miss, holds, hit') refl
    | inr miss' ↦ rw (miss, holds, miss') (holds-upgrade_other node m now v ls apart)
  ]
]

pub holds-upgrade :
    (node : ℕ) (now : Timeval) (v : Bool) (ls : List PointLock) (l : PointLock)
    → find_lock_with_node_id node ls ≡ some l
    → holds node v (upgrade node now ls) ≡ true
unfolding find_lock_with_node_id upgrade
holds-upgrade node now v [] l found = cc
holds-upgrade node now v (x ∷ ls) l found = elim (if-cases (x.node_id == node) found) [
  | inl (hit, here) ↦ rw (hit, holds, hit) refl
  | inr (miss, there) ↦ rw (miss, holds, miss) (holds-upgrade node now v ls l there)
]

pub holds-cons_other :
    (m : ℕ) (v : Bool) (l : PointLock) (ls : List PointLock)
    → m ≢ l.node_id
    → holds m v (l ∷ ls) ≡ holds m v ls
unfolding find_lock_with_node_id
holds-cons_other m v l ls apart =
    let other : (l.node_id == m) ≡ false = ground arith in rw (holds, other) refl

pub Without-holds :
    (node : ℕ) (v : Bool) (ls : List PointLock) → Without node ls → holds node v ls ≡ false
unfolding find_lock_with_node_id
Without-holds node v [] w = refl
Without-holds node v (l ∷ ls) w = rw (holds, w.0) (Without-holds node v ls w.1)

module _ {K T : Type 0} (cmp : K → K → Ordering) (tree : IntervalTree K T) where
  pub lock_check-some :
      (t : LockTable K T) (m : ℕ) (k : K) (v : Bool) (e : Locks K)
      → find_locks_by_key cmp k t.locks ≡ some e
      → lock_check cmp tree t m k v ≡ holds m v e.locks
  unfolding lock_check
  lock_check-some t m k v e found = rw (lock_check, found) refl

  pub lock_check_same :
      (t t' : LockTable K T) (m : ℕ) (k : K) (v : Bool)
      → find_locks_by_key cmp k t'.locks ≡ find_locks_by_key cmp k t.locks
      → lock_check cmp tree t' m k v ≡ lock_check cmp tree t m k v
  unfolding lock_check
  lock_check_same t t' m k v e = rw (lock_check, e) refl

  -- Only the locks of the node on the key differ.
  abbrev pub Untouched : ℕ → K → LockTable K T → LockTable K T → Type 0
  Untouched node key t t' =
      (m : ℕ) (k : K) (v : Bool)
      → (m ≢ node) ⊎ (k ≢ key)
      → lock_check cmp tree t' m k v ≡ lock_check cmp tree t m k v

  pub lock_check-none :
      (s : LockTable K T) (m : ℕ) (key : K) (v : Bool)
      → find_locks_by_key cmp key s.locks ≡ none
      → lock_check cmp tree s m key v ≡ false
  unfolding lock_check
  lock_check-none s m key v absent = rw (lock_check, absent) refl

  module _ (order : IsOrder cmp) (t t' : LockTable K T) (node : ℕ) (key : K) where
    pub untouched :
        ((m : ℕ) (v : Bool)
          → m ≢ node
          → lock_check cmp tree t' m key v ≡ lock_check cmp tree t m key v)
        → ((k : K) → k ≢ key → find_locks_by_key cmp k t'.locks ≡ find_locks_by_key cmp k t.locks)
        → Untouched node key t t'
    untouched here there m k v (inr apart) = lock_check_same t t' m k v (there k apart)
    untouched here there m k v (inl apart) = elim (Bool-cases (same cmp k key)) [
      | inl hit ↦
          subst (λ k'. lock_check cmp tree t' m k' v ≡ lock_check cmp tree t m k' v)
            (sym (same→eq cmp order k key hit)) (here m v apart)
      | inr miss ↦
          lock_check_same t t' m k v
            (there k (λ e. cc (miss, same_refl cmp order key, ap (λ k'. same cmp k' key) e)))
    ]
