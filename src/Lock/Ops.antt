-- ===== src/Lock/Ops.antt =====
-- gzochi-server/src/lock-mem.c: the operations. `now` is what `gettimeofday` gives. An operation
-- that returns nothing gives `none` where the code follows a null pointer.
use Prim.Native.Nat.{Ordering}
use gnu_gzochi.Base.{
  ℕ, ◌+◌, Bool, false, not, ◌&&◌, ◌||◌, Option, none, some, List, [], ◌∷◌, ◌>>=◌, ◌==◌, ltb, length,
  if◌then◌else◌,
}
use gnu_gzochi.Timeval.{Timeval}
use gnu_gzochi.Util.Compare.{bytes_compare_null_first, bytes_compare_null_last}
use gnu_gzochi.Lock.{
  PointLock, Locks, RangeLock, record_lock, find_writer, LockTable, IntervalTree, Result, granted,
  refused, fault, find_lock_with_node_id, find_other, upgrade, delete_lock, find_node, set_node,
  ensure_node_registration, settle_node, most_recent, find_overlapping, delete_range, same,
  locks_from, find_locks_by_key, replace_locks, remove_locks, insert_locks, delete_key,
}

module _ {K T : Type 0} (cmp : K → K → Ordering) (tree : IntervalTree K T) where
  unfoldable pub lock_table_new : T → LockTable K T
  lock_table_new tree_new = record {
    locks = [];
    range_locks = tree_new;
    nodes_to_locks = [];
    next_address = 0;
  }

  unfoldable pub most_recent_covering_range_lock : LockTable K T → K → ℕ → Option (RangeLock K)
  most_recent_covering_range_lock t key excluded =
      most_recent excluded none (tree.search (some key) t.range_locks)

  unfoldable pub lock_check : LockTable K T → ℕ → K → Bool → Bool
  lock_check t node key for_write = elim (find_locks_by_key cmp key t.locks) [
    | none ↦ false
    | some locks ↦ elim (find_lock_with_node_id node locks.locks) [
      | none ↦ false
      | some lock ↦ lock.for_write || not for_write
    ]
  ]

  -- The node holds a lock on the key already.
  unfoldable pub lock_again :
      LockTable K T → ℕ → K → Bool → Timeval → Locks K → PointLock → LockTable K T × Result
  lock_again t node key for_write now locks lock =
      if lock.for_write || not for_write
      then (t, granted)
      else if ltb 1 (length locks.locks)
      then elim (find_other node locks.locks) [
        | none ↦ (t, fault)
        | some other ↦ (t, refused other.timestamp)
      ]
      else elim (most_recent_covering_range_lock t key node) [
        | some range_lock ↦ (t, refused range_lock.timestamp)
        | none ↦ (
          record t {
            locks =
                replace_locks cmp key
                  (record locks {
                    locks = upgrade node now locks.locks;
                    most_recent_timestamp = now;
                  })
                  t.locks;
          },
          granted,
        )
      ]

  -- Only other nodes hold locks on the key.
  unfoldable pub lock_shared :
      LockTable K T → ℕ → K → Bool → Timeval → Locks K → LockTable K T × Result
  lock_shared t node key for_write now locks = elim locks.locks [
    | [] ↦ (t, fault)
    | first ∷ rest ↦ if for_write || first.for_write then (t, refused first.timestamp) else (
      record t {
        locks =
            replace_locks cmp key
              (record locks {
                locks =
                    record { node_id = node; for_write = for_write; timestamp = now }
                    ∷ first
                    ∷ rest;
                most_recent_timestamp = now;
              })
              t.locks;
        nodes_to_locks = record_lock node key t.nodes_to_locks;
      },
      granted,
    )
  ]

  -- No node holds a lock on the key.
  unfoldable pub lock_fresh : LockTable K T → ℕ → K → Bool → Timeval → LockTable K T × Result
  lock_fresh t node key for_write now =
      elim (if for_write then most_recent_covering_range_lock t key node else none) [
        | some range_lock ↦ (t, refused range_lock.timestamp)
        | none ↦ (
          record t {
            locks =
                insert_locks cmp
                  (record {
                    key = key;
                    locks = record { node_id = node; for_write = for_write; timestamp = now } ∷ [];
                    most_recent_timestamp = now;
                  })
                  t.locks;
            nodes_to_locks = record_lock node key t.nodes_to_locks;
          },
          granted,
        )
      ]

  unfoldable pub lock_check_and_set :
      LockTable K T → ℕ → K → Bool → Timeval → LockTable K T × Result
  lock_check_and_set t node key for_write now = elim (find_locks_by_key cmp key t.locks) [
    | none ↦ lock_fresh t node key for_write now
    | some locks ↦ elim (find_lock_with_node_id node locks.locks) [
      | some lock ↦ lock_again t node key for_write now locks lock
      | none ↦ lock_shared t node key for_write now locks
    ]
  ]

  -- The loop over the point locks from the lower bound's entry on, or, where the lower bound is null,
  -- from the one that GLib finds for it.
  unfoldable pub find_conflict : LockTable K T → ℕ → Option K → Option Result
  find_conflict t node none = elim t.locks [
    | [] ↦ none
    | e ∷ es ↦ find_writer node (tree.found_by_null (e ∷ es))
  ]
  find_conflict t node (some from) = find_writer node (locks_from cmp from t.locks)

  unfoldable pub lock_range_check_and_set :
      LockTable K T → ℕ → Option K → Option K → Timeval → LockTable K T × Result
  lock_range_check_and_set t node from to now =
      elim (find_overlapping node (tree.search_interval from to t.range_locks)) [
        | some range_lock ↦ (t, refused range_lock.timestamp)
        | none ↦ elim (find_conflict t node from) [
          | some conflict ↦ (t, conflict)
          | none ↦
              let node_locks = ensure_node_registration node t.nodes_to_locks in
              let range_lock : RangeLock K = record {
                address = t.next_address;
                node_id = node;
                from = from;
                to = to;
                timestamp = now;
              } in
              (
                record t {
                  range_locks = tree.insert from to range_lock t.range_locks;
                  nodes_to_locks =
                      set_node node
                        (record node_locks { range_locks = range_lock ∷ node_locks.range_locks })
                        t.nodes_to_locks;
                  next_address = t.next_address + 1;
                },
                granted,
              )
        ]
      ]

  -- The locks on a key without the node's, and without the entry when that was the last one.
  unfoldable pub drop_lock : ℕ → K → Locks K → List (Locks K) → List (Locks K)
  drop_lock node key locks all_locks = elim (delete_lock node locks.locks) [
    | [] ↦ remove_locks cmp key all_locks
    | first ∷ rest ↦ replace_locks cmp key (record locks { locks = first ∷ rest }) all_locks
  ]

  unfoldable pub remove_lock : LockTable K T → ℕ → K → Option (LockTable K T)
  remove_lock t node key = elim (find_locks_by_key cmp key t.locks) [
    | none ↦ some t
    | some locks ↦ find_node node t.nodes_to_locks >>= λ node_locks. some (record t {
      locks = drop_lock node key locks t.locks;
      nodes_to_locks =
          settle_node node (record node_locks { locks = delete_key cmp key node_locks.locks })
            t.nodes_to_locks;
    })
  ]

  unfoldable pub lock_release : LockTable K T → ℕ → K → Option (LockTable K T)
  lock_release t node key = elim (find_locks_by_key cmp key t.locks) [
    | none ↦ some t
    | some locks ↦ elim (find_lock_with_node_id node locks.locks) [
      | none ↦ some t
      | some lock ↦ remove_lock t node key
    ]
  ]

  unfoldable pub remove_range_lock : LockTable K T → RangeLock K → Option (LockTable K T)
  remove_range_lock t r = find_node r.node_id t.nodes_to_locks >>= λ node_locks. some (record t {
    range_locks = tree.remove r.from r.to t.range_locks;
    nodes_to_locks =
        settle_node r.node_id
          (record node_locks { range_locks = delete_range r.address node_locks.range_locks })
          t.nodes_to_locks;
  })

  -- `find_range_lock_with_owner` over the matches of a search.
  unfoldable pub find_range_lock_with_owner :
      ℕ → Option K → Option K → List (RangeLock K) → Option (RangeLock K)
  find_range_lock_with_owner node from to [] = none
  find_range_lock_with_owner node from to (r ∷ rs) =
      if same (bytes_compare_null_first cmp) from r.from
        && same (bytes_compare_null_last cmp) to r.to
        && (r.node_id == node)
      then some r
      else find_range_lock_with_owner node from to rs

  unfoldable pub lock_release_range :
      LockTable K T → ℕ → Option K → Option K → Option (LockTable K T)
  lock_release_range t node from to =
      elim (find_range_lock_with_owner node from to (tree.search from t.range_locks)) [
        | none ↦ some t
        | some range_lock ↦ remove_range_lock t range_lock
      ]

  unfoldable pub release_locks : ℕ → List K → LockTable K T → Option (LockTable K T)
  release_locks node [] t = some t
  release_locks node (key ∷ keys) t = remove_lock t node key >>= release_locks node keys

  unfoldable pub release_range_locks : List (RangeLock K) → LockTable K T → Option (LockTable K T)
  release_range_locks [] t = some t
  release_range_locks (r ∷ rs) t = remove_range_lock t r >>= release_range_locks rs

  -- `g_list_foreach` reads the next link before it calls the function.
  unfoldable pub lock_release_all : LockTable K T → ℕ → Option (LockTable K T)
  lock_release_all t node = elim (find_node node t.nodes_to_locks) [
    | none ↦ some t
    | some node_locks ↦ release_locks node node_locks.locks t >>= λ t'.
        elim (find_node node t'.nodes_to_locks) [
          | none ↦ some t'
          | some still ↦ release_range_locks node_locks.range_locks t'
        ]
  ]
