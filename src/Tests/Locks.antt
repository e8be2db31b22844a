-- ===== src/Tests/Locks.antt =====
-- gzochi-server/src/lock-mem.c at concrete inputs: keys are numbers, and the interval tree is a list
-- of range locks that every search visits whole.
use gnu_gzochi.Base.{
  ℕ, ◌≡◌, ◌≢◌, refl, Bool, true, false, none, some, List, [], ◌∷◌, ◌==◌, All, arith,
}
use gnu_gzochi.Timeval.{Timeval}
use gnu_gzochi.Util.Compare.{guint64_data_compare, guint64-IsOrder}
use gnu_gzochi.Lock.{
  fault, find_node, delete_lock, remove_locks, settle_node, remove_node, delete_key, PointLock,
  Locks, RangeLock, LockTable, IntervalTree, granted, refused, find_lock_with_node_id, upgrade,
  find_node, set_node, ensure_node_registration, most_recent, find_overlapping, find_locks_by_key,
  replace_locks, insert_locks, record_lock, find_writer, locks_from,
}
use gnu_gzochi.Lock.Ops.{
  lock_release, remove_lock, drop_lock, lock_table_new, lock_check, lock_check_and_set, lock_again,
  lock_shared, lock_fresh, lock_range_check_and_set, most_recent_covering_range_lock, find_conflict,
}
use gnu_gzochi.Lock.Run.{Op, check_and_set, run}
use gnu_gzochi.Lock.Exclusive.{run_exclusive, lock_check_and_set-ne-fault}
use gnu_gzochi.Lock.View.{holds, Untouched}
use gnu_gzochi.Lock.Total.{lock_release_lem}
use gnu_gzochi.Lock.Grant.{lock_check_and_set-Grants}
use gnu_gzochi.Lock.Refuse.{Reason, lock_check_and_set-Reason}
use gnu_gzochi.Lock.Range.{range_granted, range_overlooks_writers}

abbrev list_tree : IntervalTree ℕ (List (RangeLock ℕ))
list_tree = record {
  insert = λ from to r rs. r ∷ rs;
  remove = λ from to rs. rs;
  search = λ key rs. rs;
  search_interval = λ from to rs. rs;
  found_by_null = λ locks. locks;
}

abbrev at_time : ℕ → Timeval
at_time s = record { tv_sec = s; tv_usec = 0 }

-- Node 2 reads key 5, and node 1 holds key 7 for writing.
abbrev requests : List (Op ℕ)
requests =
    check_and_set 1 7 false (at_time 1)
    ∷ check_and_set 1 7 true (at_time 2)
    ∷ check_and_set 2 5 false (at_time 3)
    ∷ check_and_set 2 7 false (at_time 4)
    ∷ []

abbrev lock_of : ℕ → Bool → ℕ → PointLock
lock_of node for_write s = record { node_id = node; for_write = for_write; timestamp = at_time s }

abbrev entry : ℕ → PointLock → Locks ℕ
entry key lock = record { key = key; locks = lock ∷ []; most_recent_timestamp = lock.timestamp }

abbrev table : LockTable ℕ (List (RangeLock ℕ))
table = record {
  locks = entry 5 (lock_of 2 false 3) ∷ entry 7 (lock_of 1 true 2) ∷ [];
  range_locks = [];
  nodes_to_locks =
      (1, record { locks = 7 ∷ []; range_locks = [] })
      ∷ (2, record { locks = 5 ∷ []; range_locks = [] })
      ∷ [];
  next_address = 0;
}

requests-run :
    run guint64_data_compare list_tree requests (lock_table_new guint64_data_compare list_tree [])
    ≡ some table
unfolding lock_table_new lock_check_and_set lock_again lock_shared lock_fresh find_locks_by_key
    find_lock_with_node_id most_recent_covering_range_lock most_recent upgrade replace_locks
    insert_locks record_lock set_node ensure_node_registration find_node guint64_data_compare
requests-run = refl

table_writer : lock_check guint64_data_compare list_tree table 1 7 true ≡ true
unfolding lock_check find_locks_by_key find_lock_with_node_id guint64_data_compare
table_writer = refl

run_exclusive_example : lock_check guint64_data_compare list_tree table 2 7 false ≡ false
run_exclusive_example =
    run_exclusive guint64_data_compare list_tree [] requests table 1 2 7 false requests-run
      (λ e. omega arith) table_writer

-- Node 3 joins the readers of key 5.
abbrev joined_table : LockTable ℕ (List (RangeLock ℕ))
joined_table = (lock_check_and_set guint64_data_compare list_tree table 3 5 false (at_time 6)).0

join_granted :
    lock_check_and_set guint64_data_compare list_tree table 3 5 false (at_time 6)
    ≡ (joined_table, granted)
unfolding lock_check_and_set lock_shared find_locks_by_key find_lock_with_node_id
    guint64_data_compare
join_granted = refl

lock_check_and_set-Grants_example :
    (lock_check guint64_data_compare list_tree joined_table 3 5 false ≡ true)
    × ((v : Bool)
        → lock_check guint64_data_compare list_tree table 3 5 v ≡ true
        → lock_check guint64_data_compare list_tree joined_table 3 5 v ≡ true)
    × Untouched guint64_data_compare list_tree 3 5 table joined_table
lock_check_and_set-Grants_example =
    lock_check_and_set-Grants guint64_data_compare list_tree guint64-IsOrder table joined_table 3 5
      false (at_time 6) (tt, (tt, tt)) join_granted

-- Node 3 cannot write key 7.
write_refused :
    lock_check_and_set guint64_data_compare list_tree table 3 7 true (at_time 6)
    ≡ (table, refused (at_time 2))
unfolding lock_check_and_set lock_shared find_locks_by_key find_lock_with_node_id
    guint64_data_compare
write_refused = refl

lock_check_and_set-Reason_example :
    (table ≡ table) × Reason guint64_data_compare list_tree table 3 7 true (at_time 2)
lock_check_and_set-Reason_example =
    lock_check_and_set-Reason guint64_data_compare list_tree table table 3 7 true (at_time 6)
      (at_time 2) (tt, (tt, tt)) write_refused

-- Node 2 asks for the keys from 6 to 9, of which node 1 writes 7.
range_overlooks_writers_example :
    let granting =
      lock_range_check_and_set guint64_data_compare list_tree table 2
        (some 6)
        (some 9)
        (at_time 6) in
    (granting.1 ≡ granted)
    × ((m key : ℕ)
        → lock_check guint64_data_compare list_tree granting.0 m key true
          ≡ lock_check guint64_data_compare list_tree table m key true)
unfolding find_overlapping find_locks_by_key guint64_data_compare
range_overlooks_writers_example =
    range_overlooks_writers guint64_data_compare list_tree table 2 6 (some 9) (at_time 6) refl refl

-- Node 1 asks for the keys from 5 on, which node 2 only reads.
abbrev ranged_table : LockTable ℕ (List (RangeLock ℕ))
ranged_table =
    (lock_range_check_and_set guint64_data_compare list_tree table 1 (some 5) none (at_time 6)).0

range_grants :
    lock_range_check_and_set guint64_data_compare list_tree table 1 (some 5) none (at_time 6)
    ≡ (ranged_table, granted)
unfolding lock_range_check_and_set find_overlapping find_conflict find_writer locks_from
    guint64_data_compare
range_grants = refl

range_granted_example :
    All (λ r. (r.node_id == 1) ≡ true) (list_tree.search_interval (some 5) none table.range_locks)
    × ((m : ℕ)
        → m ≢ 1
        → All (λ e. holds m true e.locks ≡ false) (locks_from guint64_data_compare 5 table.locks))
    × (ranged_table.locks ≡ table.locks)
    × ((r : RangeLock ℕ) × (r.node_id ≡ 1)
        × (ranged_table.range_locks ≡ list_tree.insert (some 5) none r table.range_locks))
range_granted_example =
    range_granted guint64_data_compare list_tree table ranged_table 1 5 none (at_time 6)
      (tt, (tt, tt)) range_grants

-- Node 2 gives up key 5.
lock_release_lem_example :
    (t' : LockTable ℕ (List (RangeLock ℕ))) × (lock_release guint64_data_compare list_tree table 2 5
      ≡ some t')
    × ((v : Bool) → lock_check guint64_data_compare list_tree t' 2 5 v ≡ false)
    × Untouched guint64_data_compare list_tree 2 5 table t'
lock_release_lem_example =
    lock_release_lem guint64_data_compare list_tree guint64-IsOrder [] requests table 2 5
      requests-run

released-runs :
    lock_release guint64_data_compare list_tree table 2 5
    ≡ some (record table {
      locks = entry 7 (lock_of 1 true 2) ∷ [];
      nodes_to_locks = (1, record { locks = 7 ∷ []; range_locks = [] }) ∷ [];
    })
unfolding lock_release remove_lock drop_lock find_locks_by_key find_lock_with_node_id find_node
    delete_lock remove_locks settle_node remove_node delete_key guint64_data_compare
released-runs = refl

lock_check_and_set-ne-fault_example :
    (lock_check_and_set guint64_data_compare list_tree table 3 7 true (at_time 6)).1 ≢ fault
lock_check_and_set-ne-fault_example =
    lock_check_and_set-ne-fault guint64_data_compare list_tree [] requests table 3 7 true
      (at_time 6) requests-run
