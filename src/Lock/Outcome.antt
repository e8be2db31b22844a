-- ===== src/Lock/Outcome.antt =====
-- gzochi-server/src/lock-mem.c: the branches of `gzochid_lock_check_and_set`, on a sound table.
use Prim.Native.Nat.{Ordering}
use gnu_gzochi.Base.{
  ℕ, ◌≡◌, ◌≢◌, refl, Bool, true, false, not, ◌||◌, none, some, List, [], ◌∷◌, ◌⊎◌, inl, inr,
  ==_refl, subst, ltb, length, arith, Bool-cases, Option-cases, List-cases,
}
use gnu_gzochi.Timeval.{Timeval}
use gnu_gzochi.Lock.{
  PointLock, record_lock, Locks, RangeLock, LockTable, IntervalTree, Result, granted, refused,
  find_lock_with_node_id, upgrade, find_locks_by_key, replace_locks, insert_locks,
}
use gnu_gzochi.Lock.Ops.{
  lock_check, lock_again, lock_shared, lock_fresh, lock_check_and_set,
  most_recent_covering_range_lock,
}
use gnu_gzochi.Lock.Sound.{IsShared, Without, find-none-Without, find_other-some, find_other-holds}
use gnu_gzochi.Lock.Entries.{IsSound, find-IsShared}

module _ {K T : Type 0} (cmp : K → K → Ordering) (tree : IntervalTree K T) where
  -- Another node's point lock on the key that does not go with the request.
  pub record PointConflict (t : LockTable K T) (node : ℕ) (key : K) (for_write : Bool)
      (stamp : Timeval) : Type 0 where
    pub locks : Locks K
    pub lock : PointLock
    pub on_key : find_locks_by_key cmp key t.locks ≡ some locks
    pub held : find_lock_with_node_id lock.node_id locks.locks ≡ some lock
    pub another : lock.node_id ≢ node
    pub strong : (for_write || lock.for_write) ≡ true
    pub stamped : lock.timestamp ≡ stamp

  pub data Outcome (t : LockTable K T) (node : ℕ) (key : K) (for_write : Bool) (now : Timeval)
      : LockTable K T × Result → Type 0 where
    held :
        lock_check cmp tree t node key for_write ≡ true
        → Outcome t node key for_write now (t, granted)
    point_conflict :
        {stamp : Timeval}
        → PointConflict t node key for_write stamp
        → Outcome t node key for_write now (t, refused stamp)
    range_conflict :
        (r : RangeLock K)
        → for_write ≡ true
        → most_recent_covering_range_lock cmp tree t key node ≡ some r
        → Outcome t node key for_write now (t, refused r.timestamp)
    upgraded :
        (locks : Locks K) (lock : PointLock)
        → find_locks_by_key cmp key t.locks ≡ some locks
        → find_lock_with_node_id node locks.locks ≡ some lock
        → ltb 1 (length locks.locks) ≡ false
        → most_recent_covering_range_lock cmp tree t key node ≡ none
        → Outcome t node key for_write now (
          record t {
            locks =
                replace_locks cmp key
                  (record locks {
                    locks = upgrade node now locks.locks;
                    most_recent_timestamp = now;
                  })
                  t.locks;
          },
          granted,
        )
    joined :
        (locks : Locks K) (first : PointLock) (rest : List PointLock)
        → find_locks_by_key cmp key t.locks ≡ some locks
        → locks.locks ≡ first ∷ rest
        → Without node (first ∷ rest)
        → for_write ≡ false
        → first.for_write ≡ false
        → Outcome t node key for_write now (
          record t {
            locks =
                replace_locks cmp key
                  (record locks {
                    locks =
                        record { node_id = node; for_write = for_write; timestamp = now }
                        ∷ first
                        ∷ rest;
                    most_recent_timestamp = now;
                  })
                  t.locks;
            nodes_to_locks = record_lock node key t.nodes_to_locks;
          },
          granted,
        )
    fresh :
        find_locks_by_key cmp key t.locks ≡ none
        → (for_write ≡ false) ⊎ (most_recent_covering_range_lock cmp tree t key node ≡ none)
        → Outcome t node key for_write now (
          record t {
            locks =
                insert_locks cmp
                  (record {
                    key = key;
                    locks = record { node_id = node; for_write = for_write; timestamp = now } ∷ [];
                    most_recent_timestamp = now;
                  })
                  t.locks;
            nodes_to_locks = record_lock node key t.nodes_to_locks;
          },
          granted,
        )

  module _ (t : LockTable K T) (node : ℕ) (key : K) (now : Timeval) where
    fresh-Outcome :
        (for_write : Bool)
        → find_locks_by_key cmp key t.locks ≡ none
        → Outcome t node key for_write now (lock_fresh cmp tree t node key for_write now)
    unfolding lock_fresh
    fresh-Outcome false absent = fresh absent (inl refl)
    fresh-Outcome true absent =
        elim (Option-cases (most_recent_covering_range_lock cmp tree t key node)) [
          | inl free ↦ rw (lock_fresh, free) (fresh absent (inr free))
          | inr (r, covered) ↦ rw (lock_fresh, covered) (range_conflict r refl covered)
        ]

    shared-Outcome :
        (for_write : Bool) (locks : Locks K)
        → find_locks_by_key cmp key t.locks ≡ some locks
        → find_lock_with_node_id node locks.locks ≡ none
        → IsShared locks.locks
        → Outcome t node key for_write now (lock_shared cmp tree t node key for_write now locks)
    unfolding lock_shared find_lock_with_node_id
    shared-Outcome for_write locks found other sound = elim (List-cases locks.locks) [
      | inl empty ↦ absurd (subst IsShared empty sound)
      | inr (first, rest, split) ↦
          let without = subst (Without node) split (find-none-Without node locks.locks other) in
          elim (Bool-cases (for_write || first.for_write)) [
            | inl clash ↦
                rw (lock_shared, split, clash)
                  (point_conflict (record {
                    locks = locks;
                    lock = first;
                    on_key = found;
                    held = rw (split, ==_refl first.node_id) refl;
                    another = λ q. ground arith;
                    strong = clash;
                    stamped = refl;
                  }))
            | inr free ↦
                rw (lock_shared, split, free)
                  (joined locks first rest found split without (ground arith) (ground arith))
          ]
    ]

    again-Outcome :
        (for_write : Bool) (locks : Locks K) (lock : PointLock)
        → find_locks_by_key cmp key t.locks ≡ some locks
        → find_lock_with_node_id node locks.locks ≡ some lock
        → IsShared locks.locks
        → Outcome t node key for_write now (lock_again cmp tree t node key for_write now locks lock)
    unfolding lock_again lock_check
    again-Outcome for_write locks lock found own sound =
        elim (Bool-cases (lock.for_write || not for_write)) [
          | inl enough ↦ rw (lock_again, enough) (held (rw (lock_check, found, own) enough))
          | inr weak ↦ elim (Bool-cases (ltb 1 (length locks.locks))) [
            | inl many ↦
                let (other, there) = find_other-some node locks.locks sound many in
                let (apart, holds) = find_other-holds node locks.locks other there in
                rw (lock_again, weak, many, there)
                  (point_conflict (record {
                    locks = locks;
                    lock = other;
                    on_key = found;
                    held = holds;
                    another = apart;
                    strong = ground arith;
                    stamped = refl;
                  }))
            | inr few ↦ elim (Option-cases (most_recent_covering_range_lock cmp tree t key node)) [
              | inl free ↦ rw (lock_again, weak, few, free) (upgraded locks lock found own few free)
              | inr (r, covered) ↦
                  rw (lock_again, weak, few, covered) (range_conflict r (ground arith) covered)
            ]
          ]
        ]

    -- The branches of the code, without the failed assertions.
    pub lock_check_and_set-Outcome :
        (for_write : Bool)
        → IsSound t.locks
        → Outcome t node key for_write now (lock_check_and_set cmp tree t node key for_write now)
    unfolding lock_check_and_set
    lock_check_and_set-Outcome for_write sound =
        elim (Option-cases (find_locks_by_key cmp key t.locks)) [
          | inl absent ↦ rw (lock_check_and_set, absent) (fresh-Outcome for_write absent)
          | inr (locks, found) ↦
              let shared = (find-IsShared cmp key t.locks locks sound found).0 in
              elim (Option-cases (find_lock_with_node_id node locks.locks)) [
                | inl other ↦
                    rw (lock_check_and_set, found, other)
                      (shared-Outcome for_write locks found other shared)
                | inr (lock, own) ↦
                    rw (lock_check_and_set, found, own)
                      (again-Outcome for_write locks lock found own shared)
              ]
        ]
