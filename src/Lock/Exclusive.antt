-- ===== src/Lock/Exclusive.antt =====
-- gzochi-server/src/lock-mem.c: mutual exclusion.
use Prim.Native.Nat.{Ordering}
use gnu_gzochi.Base.{
  ℕ, ◌≡◌, ◌≢◌, false, Bool-cases, sym, Bool, true, some, List, inl, inr, arith, Option-cases, subst,
}
use gnu_gzochi.Lock.{fault, LockTable, IntervalTree, find_lock_with_node_id, find_locks_by_key}
use gnu_gzochi.Timeval.{Timeval}
use gnu_gzochi.Lock.Ops.{lock_check_and_set, lock_table_new, lock_check}
use gnu_gzochi.Lock.Sound.{writer_alone}
use gnu_gzochi.Lock.Entries.{find-IsShared}
use gnu_gzochi.Lock.Built.{Built, none_yet, Built-IsSound}
use gnu_gzochi.Lock.Keep.{
  lock_check_and_set-Built, range-locks, remove_lock-Built, remove_range_lock-locks,
}
use gnu_gzochi.Lock.Run.{Op, run, run-P}

module _ {K T : Type 0} (cmp : K → K → Ordering) (tree : IntervalTree K T) where
  run-Built :
      (ops : List (Op K)) (t t' : LockTable K T)
      → Built cmp t.locks
      → run cmp tree ops t ≡ some t'
      → Built cmp t'.locks
  run-Built =
      run-P cmp tree (λ t. Built cmp t.locks)
        (λ t node key for_write now built.
          (lock_check_and_set-Built cmp tree t node key for_write now built).0)
        (λ t node from to now built.
          subst (Built cmp) (sym (range-locks cmp tree t node from to now)) built)
        (remove_lock-Built cmp tree)
        (λ t t' r built e.
          subst (Built cmp) (sym (remove_range_lock-locks cmp tree t t' r e)) built)

  same_writer :
      (empty : T) (ops : List (Op K)) (t : LockTable K T) (n m : ℕ) (key : K) (v : Bool)
      → run cmp tree ops (lock_table_new cmp tree empty) ≡ some t
      → lock_check cmp tree t n key true ≡ true
      → lock_check cmp tree t m key v ≡ true
      → n ≡ m
  unfolding lock_table_new lock_check
  same_writer empty ops t n m key v e writes holds' =
      let sound = run-Built ops (lock_table_new cmp tree empty) t none_yet e in
      elim (Option-cases (find_locks_by_key cmp key t.locks)) [
        | inl absent ↦ absurd (let h = rw (lock_check, absent) at writes in cc)
        | inr (locks, found) ↦ elim (Option-cases (find_lock_with_node_id n locks.locks)) [
          | inl none_n ↦ absurd (let h = rw (lock_check, found, none_n) at writes in cc)
          | inr (l, own) ↦ elim (Option-cases (find_lock_with_node_id m locks.locks)) [
            | inl none_m ↦ absurd (let h = rw (lock_check, found, none_m) at holds' in cc)
            | inr (k, other) ↦
                writer_alone n m locks.locks l k
                  (find-IsShared cmp key t.locks locks (Built-IsSound sound) found).0 own other
                  (let h = rw (lock_check, found, own) at writes in ground arith)
          ]
        ]
      ]

  -- Mutual exclusion: whatever operations have been made on a new lock table, for any interval tree,
  -- if one node holds a key for writing then no other node holds a lock on that key.
  pub run_exclusive :
      (empty : T) (ops : List (Op K)) (t : LockTable K T) (n m : ℕ) (key : K) (v : Bool)
      → run cmp tree ops (lock_table_new cmp tree empty) ≡ some t
      → n ≢ m
      → lock_check cmp tree t n key true ≡ true
      → lock_check cmp tree t m key v ≡ false
  run_exclusive empty ops t n m key v e apart writes =
      elim (Bool-cases (lock_check cmp tree t m key v)) [
        | inl both ↦ absurd (apart (same_writer empty ops t n m key v e writes both))
        | inr free ↦ free
      ]

  -- After any operations on a new lock table, a request for a point lock is granted or refused: no
  -- assertion of the code fails.
  pub lock_check_and_set-ne-fault :
      (empty : T) (ops : List (Op K)) (t : LockTable K T) (node : ℕ) (key : K) (for_write : Bool)
      (now : Timeval)
      → run cmp tree ops (lock_table_new cmp tree empty) ≡ some t
      → (lock_check_and_set cmp tree t node key for_write now).1 ≢ fault
  unfolding lock_table_new
  lock_check_and_set-ne-fault empty ops t node key for_write now e =
      let built = run-Built ops (lock_table_new cmp tree empty) t none_yet e in
      (lock_check_and_set-Built cmp tree t node key for_write now built).1
