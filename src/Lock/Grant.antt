-- ===== src/Lock/Grant.antt =====
-- gzochi-server/src/lock-mem.c: what `gzochid_lock_check_and_set` grants and refuses.
use Prim.Native.Nat.{Ordering}
use gnu_gzochi.Base.{
  ℕ, ◌≡◌, ◌≢◌, refl, sym, ap, ◌∙◌, Bool, true, false, not, ◌||◌, none, some, List, [], ◌∷◌, ==_refl,
  subst,
}
use gnu_gzochi.Timeval.{Timeval}
use gnu_gzochi.Util.Compare.{IsOrder}
use gnu_gzochi.Lock.{
  PointLock, Locks, LockTable, IntervalTree, Result, granted, refused, find_lock_with_node_id,
  upgrade, same, find_locks_by_key, replace_locks, insert_locks,
}
use gnu_gzochi.Lock.Ops.{lock_check, lock_check_and_set}
use gnu_gzochi.Lock.Outcome.{
  Outcome, held, point_conflict, range_conflict, upgraded, joined, fresh,
  lock_check_and_set-Outcome,
}
use gnu_gzochi.Lock.Entries.{
  IsSound, find-IsShared, find-replace, find-insert, same→eq, same_refl, find_other-replace,
  find_other-insert,
}
use gnu_gzochi.Lock.View.{
  holds, holds-upgrade_other, holds-upgrade, holds-cons_other, Without-holds, lock_check-some,
  Untouched, lock_check-none, untouched,
}

module _ {K T : Type 0} (cmp : K → K → Ordering) (tree : IntervalTree K T) where
  -- A granted request that leaves the locks of others alone.
  abbrev pub Grants : ℕ → K → Bool → LockTable K T → LockTable K T → Type 0
  Grants node key for_write t t' =
      (lock_check cmp tree t' node key for_write ≡ true)
      × ((v : Bool)
          → lock_check cmp tree t node key v ≡ true
          → lock_check cmp tree t' node key v ≡ true)
      × Untouched cmp tree node key t t'

  module _ (order : IsOrder cmp) (t t' : LockTable K T) (node : ℕ) (key : K)
      (for_write : Bool) where
    replaced :
        (locks new : Locks K)
        → find_locks_by_key cmp key t.locks ≡ some locks
        → same cmp key locks.key ≡ true
        → new.key ≡ locks.key
        → t'.locks ≡ replace_locks cmp key new t.locks
        → holds node for_write new.locks ≡ true
        → ((v : Bool) → holds node v locks.locks ≡ true → holds node v new.locks ≡ true)
        → ((m : ℕ) (v : Bool) → m ≢ node → holds m v new.locks ≡ holds m v locks.locks)
        → Grants node key for_write t t'
    replaced locks new found own kept changed strong keeps others =
        let own' : same cmp key new.key ≡ true =
          subst (λ k. same cmp key k ≡ true) (sym kept) own in
        let found' : find_locks_by_key cmp key t'.locks ≡ some new =
          ap (find_locks_by_key cmp key) changed
          ∙ find-replace cmp key new locks t.locks own' found in
        let named : new.key ≡ key = sym (same→eq cmp order key new.key own') in
        (
          lock_check-some cmp tree t' node key for_write new found' ∙ strong,
          λ v h.
              lock_check-some cmp tree t' node key v new found'
              ∙ keeps v (sym (lock_check-some cmp tree t node key v locks found) ∙ h),
          untouched cmp tree order t t' node key
              (λ m v apart.
                lock_check-some cmp tree t' m key v new found'
                ∙ others m v apart
                ∙ sym (lock_check-some cmp tree t m key v locks found))
              (λ k apart.
                ap (find_locks_by_key cmp k) changed
                ∙ find_other-replace cmp order k key new t.locks apart named),
        )

    or-not : (b : Bool) → (b || not b) ≡ true
    or-not true = refl
    or-not false = refl

    holds_own :
        (now : Timeval) (ls : List PointLock)
        → holds node for_write
            (record { node_id = node; for_write = for_write; timestamp = now } ∷ ls)
          ≡ true
    unfolding find_lock_with_node_id
    holds_own now ls = rw (holds, ==_refl node) (or-not for_write)

    -- The entry of a key that no node has locked.
    inserted :
        (now : Timeval)
        → find_locks_by_key cmp key t.locks ≡ none
        → let mine : PointLock = record {
          node_id = node;
          for_write = for_write;
          timestamp = now;
        } in
          t'.locks
            ≡ insert_locks cmp
                (record { key = key; locks = mine ∷ []; most_recent_timestamp = now })
                t.locks
          → Grants node key for_write t t'
    unfolding find_lock_with_node_id
    inserted now absent changed =
        let mine : PointLock = record { node_id = node; for_write = for_write; timestamp = now } in
        let new : Locks K = record { key = key; locks = mine ∷ []; most_recent_timestamp = now } in
        let found : find_locks_by_key cmp key t'.locks ≡ some new =
          ap (find_locks_by_key cmp key) changed
          ∙ find-insert cmp new t.locks (same_refl cmp order key) absent in
        (
          lock_check-some cmp tree t' node key for_write new found ∙ holds_own now [],
          λ v h. cc (h, lock_check-none cmp tree t node key v absent),
          untouched cmp tree order t t' node key
              (λ m v apart.
                lock_check-some cmp tree t' m key v new found
                ∙ holds-cons_other m v mine [] apart
                ∙ sym (lock_check-none cmp tree t m key v absent))
              (λ k apart.
                ap (find_locks_by_key cmp k) changed
                ∙ find_other-insert cmp order k new t.locks apart),
        )

    pub Outcome-Grants :
        (now : Timeval) (p : LockTable K T × Result)
        → IsSound t.locks
        → Outcome cmp tree t node key for_write now p
        → p ≡ (t', granted)
        → Grants node key for_write t t'
    Outcome-Grants now p sound (held strong) e =
        subst (Grants node key for_write t) (ap (λ q. q.0) e)
          (strong, λ v h. h, λ m k v apart. refl)
    Outcome-Grants now p sound (point_conflict conflict) e =
        let clash : refused _ ≡ granted = ap (λ q. q.1) e in cc
    Outcome-Grants now p sound (range_conflict r writes covered) e =
        let clash : refused r.timestamp ≡ granted = ap (λ q. q.1) e in cc
    Outcome-Grants now p sound (upgraded locks lock found own few free) e =
        replaced locks
          (record locks { locks = upgrade node now locks.locks; most_recent_timestamp = now }) found
          (find-IsShared cmp key t.locks locks sound found).1 refl (sym (ap (λ q. q.0.locks) e))
          (holds-upgrade node now for_write locks.locks lock own)
          (λ v h. holds-upgrade node now v locks.locks lock own)
          (λ m v apart. holds-upgrade_other node m now v locks.locks apart)
    Outcome-Grants now p sound (joined locks first rest found split without reads reads') e =
        let mine : PointLock = record { node_id = node; for_write = for_write; timestamp = now } in
        replaced locks (record locks { locks = mine ∷ first ∷ rest; most_recent_timestamp = now })
          found (find-IsShared cmp key t.locks locks sound found).1 refl
          (sym (ap (λ q. q.0.locks) e)) (holds_own now (first ∷ rest))
          (λ v h. cc (h, ap (holds node v) split, Without-holds node v (first ∷ rest) without))
          (λ m v apart. holds-cons_other m v mine (first ∷ rest) apart ∙ ap (holds m v) (sym split))
    Outcome-Grants now p sound (fresh absent free) e =
        inserted now absent (sym (ap (λ q. q.0.locks) e))

    -- What a granted request means, on a sound table: the node now holds the lock it asked for, it
    -- keeps what it held on the key, and every other lock, of another node or on another key, is
    -- held as before.
    pub lock_check_and_set-Grants :
        (now : Timeval)
        → IsSound t.locks
        → lock_check_and_set cmp tree t node key for_write now ≡ (t', granted)
        → Grants node key for_write t t'
    lock_check_and_set-Grants now sound e =
        Outcome-Grants now (lock_check_and_set cmp tree t node key for_write now) sound
          (lock_check_and_set-Outcome cmp tree t node key now for_write sound) e
