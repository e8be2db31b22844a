-- ===== src/Lock/Total.antt =====
-- gzochi-server/src/lock-mem.c: releasing a lock follows no null pointer.
use Prim.Native.Nat.{Ordering}
use mathlib.Core.Option.{some-injective}
use gnu_gzochi.Base.{
  ℕ, ◌≡◌, ◌≢◌, refl, sym, ap, ◌∙◌, Bool, true, false, Option, some, List, ◌⊎◌, inl, inr,
  >>=-eq-some, Option-cases, subst,
}
use gnu_gzochi.Timeval.{Timeval}
use gnu_gzochi.Util.Compare.{IsOrder}
use gnu_gzochi.Lock.{
  RangeLock, NodeLocks, LockTable, IntervalTree, find_lock_with_node_id, find_locks_by_key,
  find_node, find_overlapping, settle_node, delete_key,
}
use gnu_gzochi.Lock.Ops.{
  lock_table_new, lock_check, lock_check_and_set, lock_range_check_and_set, remove_lock,
  remove_range_lock, lock_release, find_conflict,
}
use gnu_gzochi.Lock.Built.{Built, none_yet, Built-IsSound}
use gnu_gzochi.Lock.View.{lock_check_same, Untouched}
use gnu_gzochi.Lock.Outcome.{lock_check_and_set-Outcome}
use gnu_gzochi.Lock.Register.{IsRegistered, apart-cases, Outcome-IsRegistered, or-not-false}
use gnu_gzochi.Lock.Keep.{lock_check_and_set-Built, remove_lock-Built}
use gnu_gzochi.Lock.Release.{remove_lock-Released, lock_release-Released}
use gnu_gzochi.Lock.Nodes.{
  has_key, Registers, Keeps, Registers-set, Registers-settle_keep, ensure-known, has_key-delete,
}
use gnu_gzochi.Lock.Run.{Op, run, run-P}

module _ {K T : Type 0} (cmp : K → K → Ordering) (tree : IntervalTree K T)
    (order : IsOrder cmp) where
  pub record IsValid (t : LockTable K T) : Type 0 where
    pub built : Built cmp t.locks
    pub registered : IsRegistered cmp tree order t

  set-IsValid :
      (t : LockTable K T) (node : ℕ) (key : K) (for_write : Bool) (now : Timeval)
      → IsValid t
      → IsValid (lock_check_and_set cmp tree t node key for_write now).0
  set-IsValid t node key for_write now valid = record {
    built = (lock_check_and_set-Built cmp tree t node key for_write now valid.built).0;
    registered =
        Outcome-IsRegistered cmp tree order t node key for_write now _ valid.built valid.registered
          (lock_check_and_set-Outcome cmp tree t node key now for_write
            (Built-IsSound valid.built));
  }

  -- Where the point locks are the same, the nodes' lists of them may only grow.
  same_locks-IsValid :
      (t t' : LockTable K T)
      → IsValid t
      → t'.locks ≡ t.locks
      → ((m : ℕ) (k : K) → Registers cmp t.nodes_to_locks m k → Registers cmp t'.nodes_to_locks m k)
      → IsValid t'
  same_locks-IsValid t t' valid kept lists = record {
    built = subst (Built cmp) (sym kept) valid.built;
    registered = λ m k holds. lists m k (
        valid.registered m k (
          sym (lock_check_same cmp tree t t' m k false (ap (find_locks_by_key cmp k) kept))
          ∙ holds));
  }

  range_set-IsValid :
      (t : LockTable K T) (node : ℕ) (from to : Option K) (now : Timeval)
      → IsValid t
      → IsValid (lock_range_check_and_set cmp tree t node from to now).0
  unfolding lock_range_check_and_set
  range_set-IsValid t node from to now valid =
      elim (Option-cases (find_overlapping node (tree.search_interval from to t.range_locks))) [
        | inr (r, overlap) ↦ rw (lock_range_check_and_set, overlap) valid
        | inl clear ↦ elim (Option-cases (find_conflict cmp tree t node from)) [
          | inr (c, clash) ↦ rw (lock_range_check_and_set, clear, clash) valid
          | inl free ↦
              rw (lock_range_check_and_set, clear, free)
                (same_locks-IsValid t _ valid refl (λ m k r.
                  Registers-set cmp node m k _ t.nodes_to_locks
                    (λ ls here known listed.
                      rw (ensure-known cmp node ls t.nodes_to_locks known) listed)
                    r))
        ]
      ]

  remove_lock-nodes :
      (t t' : LockTable K T) (node : ℕ) (key : K)
      → remove_lock cmp tree t node key ≡ some t'
      → (t' ≡ t)
        ⊎ ((ls : NodeLocks K) × (find_node node t.nodes_to_locks ≡ some ls)
            × (t'.nodes_to_locks
                ≡ settle_node node
                    (record ls { locks = delete_key cmp key ls.locks })
                    t.nodes_to_locks))
  unfolding remove_lock
  remove_lock-nodes t t' node key e = elim (Option-cases (find_locks_by_key cmp key t.locks)) [
    | inl absent ↦ inl (sym (some-injective t t' (rw (remove_lock, absent) at e)))
    | inr (locks, found) ↦
        let chain = rw (remove_lock, found) at e in
        let (ls, known, end) = >>=-eq-some (find_node node t.nodes_to_locks) _ chain in
        inr (ls, known, sym (ap (λ u. u.nodes_to_locks) (some-injective _ t' end)))
  ]

  -- The point lock is gone, so its key may leave the list.
  settled :
      (t t' : LockTable K T) (node m : ℕ) (key k : K) (ls : NodeLocks K)
      → find_node node t.nodes_to_locks ≡ some ls
      → (m ≢ node) ⊎ (k ≢ key)
      → Keeps cmp node m k (record ls { locks = delete_key cmp key ls.locks }) t.nodes_to_locks
  settled t t' node m key k ls known (inl apart) = λ ls' here known' listed. absurd (apart here)
  settled t t' node m key k ls known (inr apart) = λ ls' here known' listed.
      has_key-delete cmp order key k ls.locks apart (
        subst (λ x. has_key cmp k x.locks ≡ true) (some-injective ls' ls (sym known' ∙ known))
          listed)

  remove-IsValid :
      (t t' : LockTable K T) (node : ℕ) (key : K)
      → IsValid t
      → remove_lock cmp tree t node key ≡ some t'
      → IsValid t'
  remove-IsValid t t' node key valid e = elim (remove_lock-nodes t t' node key e) [
    | inl kept ↦ subst IsValid (sym kept) valid
    | inr (ls, known, nodes) ↦
        let (gone, others) = remove_lock-Released cmp tree order t t' node key valid.built e in
        record {
          built = remove_lock-Built cmp tree t t' node key valid.built e;
          registered = λ m k holds.
              subst (λ ns. Registers cmp ns m k) (sym nodes)
                (elim (apart-cases cmp tree order m node k key) [
                  | inl apart ↦
                      Registers-settle_keep cmp node m k _ t.nodes_to_locks
                        (settled t t' node m key k ls known apart)
                        (valid.registered m k (sym (others m k false apart) ∙ holds))
                  | inr (here, here') ↦ absurd (
                      cc (
                        holds,
                        gone false,
                        ap (λ n. lock_check cmp tree t' n k false) here,
                        ap (λ x. lock_check cmp tree t' node x false) here',
                      ))
                ]);
        }
  ]

  remove_range-IsValid :
      (t t' : LockTable K T) (r : RangeLock K)
      → IsValid t
      → remove_range_lock cmp tree t r ≡ some t'
      → IsValid t'
  unfolding remove_range_lock
  remove_range-IsValid t t' r valid e =
      let (ls, known, end) = >>=-eq-some (find_node r.node_id t.nodes_to_locks) _ e in
      subst IsValid (some-injective _ t' end) (
        same_locks-IsValid t _ valid refl (λ m k reg.
          Registers-settle_keep cmp r.node_id m k _ t.nodes_to_locks
            (λ ls' here known' listed.
              subst (λ x. has_key cmp k x.locks ≡ true) (some-injective ls' ls (sym known' ∙ known))
                listed)
            reg))

  run-IsValid :
      (ops : List (Op K)) (t t' : LockTable K T)
      → IsValid t
      → run cmp tree ops t ≡ some t'
      → IsValid t'
  run-IsValid =
      run-P cmp tree IsValid set-IsValid range_set-IsValid remove-IsValid remove_range-IsValid

  new-IsValid : (empty : T) → IsValid (lock_table_new cmp tree empty)
  unfolding lock_table_new lock_check find_locks_by_key
  new-IsValid empty = record { built = none_yet; registered = λ m k holds. cc }

  release_total :
      (t : LockTable K T) (node : ℕ) (key : K)
      → IsValid t
      → (t' : LockTable K T) × (lock_release cmp tree t node key ≡ some t')
  unfolding lock_release remove_lock lock_check
  release_total t node key valid = elim (Option-cases (find_locks_by_key cmp key t.locks)) [
    | inl absent ↦ (t, rw (lock_release, absent) refl)
    | inr (locks, found) ↦ elim (Option-cases (find_lock_with_node_id node locks.locks)) [
      | inl other ↦ (t, rw (lock_release, found, other) refl)
      | inr (lock, own) ↦
          let mine : lock_check cmp tree t node key false ≡ true =
            rw (lock_check, found, own) (or-not-false lock.for_write) in
          let listed = valid.registered node key mine in
          rw (lock_release, found, own) (rw (remove_lock, found, listed.known) (_, refl))
    ]
  ]

  -- After any operations on a new lock table, with a total order on keys, releasing a point lock
  -- follows no null pointer, the node holds no lock on the key afterwards, and every lock of another
  -- node or on another key is held as before.
  pub lock_release_lem :
      (empty : T) (ops : List (Op K)) (t : LockTable K T) (node : ℕ) (key : K)
      → run cmp tree ops (lock_table_new cmp tree empty) ≡ some t
      → (t' : LockTable K T) × (lock_release cmp tree t node key ≡ some t')
        × ((v : Bool) → lock_check cmp tree t' node key v ≡ false)
        × Untouched cmp tree node key t t'
  lock_release_lem empty ops t node key e =
      let valid = run-IsValid ops (lock_table_new cmp tree empty) t (new-IsValid empty) e in
      let (t', released) = release_total t node key valid in
      let (gone, others) =
        lock_release-Released cmp tree order t t' node key valid.built released in
      (t', released, gone, others)
