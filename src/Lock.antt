-- ===== src/Lock.antt =====
-- gzochi-server/src/lock-mem.c: the data server's lock table. Keys are compared by `cmp`, GLib's
-- `g_bytes_compare`. The interval tree of range locks is reached through its interface. A point lock
-- is known by its node and its key, so a node's list of point locks holds keys; a range lock is known
-- by its address. The two sequences ordered by timestamp are written and never read: left out.
pub mod Ops
pub mod Sound
pub mod Entries
pub mod Keep
pub mod Run
pub mod Exclusive
pub mod Built
pub mod View
pub mod Outcome
pub mod Grant
pub mod Release
pub mod Nodes
pub mod Register
pub mod Total
pub mod Refuse
pub mod Range
use Prim.Native.Nat.{Ordering}
use gnu_gzochi.Base.{
  ℕ, suc, ◌+◌, Bool, true, false, not, ◌&&◌, ◌||◌, Option, none, some, List, [], ◌∷◌, ◌>>=◌, ◌==◌,
  ltb, length, if◌then◌else◌,
}
use gnu_gzochi.Timeval.{Timeval, timer_lt}

pub record PointLock : Type 0 where
  pub node_id : ℕ
  pub for_write : Bool
  pub timestamp : Timeval

-- The locks on one key, most recent first.
pub record Locks (K : Type 0) : Type 0 where
  pub key : K
  pub locks : List PointLock
  pub most_recent_timestamp : Timeval

-- A bound that is null is `none`.
pub record RangeLock (K : Type 0) : Type 0 where
  pub address : ℕ
  pub node_id : ℕ
  pub from : Option K
  pub to : Option K
  pub timestamp : Timeval

pub record NodeLocks (K : Type 0) : Type 0 where
  pub locks : List K
  pub range_locks : List (RangeLock K)

-- `next_address` is where the next range lock will be allocated.
pub record LockTable (K T : Type 0) : Type 0 where
  pub locks : List (Locks K)
  pub range_locks : T
  pub nodes_to_locks : List (ℕ × NodeLocks K)
  pub next_address : ℕ

-- The interface of the interval tree (itree.h). A search visits the matching entries in some order
-- until the search function returns TRUE. `found_by_null` is not the tree's but GLib's: a search of
-- the sequence of locks for a null key, which `g_bytes_compare` reports and takes to be equal to every
-- key, finds the entry that it happens to look at first; these are the entries from there on.
pub record IntervalTree (K T : Type 0) : Type 0 where
  pub insert : Option K → Option K → RangeLock K → T → T
  pub remove : Option K → Option K → T → T
  pub search : Option K → T → List (RangeLock K)
  pub search_interval : Option K → Option K → T → List (RangeLock K)
  pub found_by_null : List (Locks K) → List (Locks K)

-- The `gboolean` result with the timestamp of a refusal, or a failed assertion.
pub data Result : Type 0 where
  granted : Result
  refused : Timeval → Result
  fault : Result

-- `g_list_find_custom (locks, &node_id, find_lock_with_node_id)`.
unfoldable pub find_lock_with_node_id : ℕ → List PointLock → Option PointLock
find_lock_with_node_id node [] = none
find_lock_with_node_id node (l ∷ ls) =
    if l.node_id == node then some l else find_lock_with_node_id node ls

-- The first lock of another node.
unfoldable pub find_other : ℕ → List PointLock → Option PointLock
find_other node [] = none
find_other node (l ∷ ls) = if not (l.node_id == node) then some l else find_other node ls

-- The upgrade of the node's lock, which is written through a pointer.
unfoldable pub upgrade : ℕ → Timeval → List PointLock → List PointLock
upgrade node now [] = []
upgrade node now (l ∷ ls) =
    if l.node_id == node
    then record l { for_write = true; timestamp = now } ∷ ls
    else l ∷ upgrade node now ls

unfoldable pub delete_lock : ℕ → List PointLock → List PointLock
delete_lock node [] = []
delete_lock node (l ∷ ls) = if l.node_id == node then ls else l ∷ delete_lock node ls

module _ {K : Type 0} where
  unfoldable pub find_node : ℕ → List (ℕ × NodeLocks K) → Option (NodeLocks K)
  find_node node [] = none
  find_node node ((n, ls) ∷ nodes) = if n == node then some ls else find_node node nodes

  unfoldable pub set_node : ℕ → NodeLocks K → List (ℕ × NodeLocks K) → List (ℕ × NodeLocks K)
  set_node node new [] = (node, new) ∷ []
  set_node node new ((n, ls) ∷ nodes) =
      if n == node then (n, new) ∷ nodes else (n, ls) ∷ set_node node new nodes

  unfoldable pub remove_node : ℕ → List (ℕ × NodeLocks K) → List (ℕ × NodeLocks K)
  remove_node node [] = []
  remove_node node ((n, ls) ∷ nodes) = if n == node then nodes else (n, ls) ∷ remove_node node nodes

  unfoldable pub ensure_node_registration : ℕ → List (ℕ × NodeLocks K) → NodeLocks K
  ensure_node_registration node nodes = elim (find_node node nodes) [
    | none ↦ record { locks = []; range_locks = [] }
    | some ls ↦ ls
  ]

  -- The node's own list with one more point lock.
  unfoldable pub record_lock : ℕ → K → List (ℕ × NodeLocks K) → List (ℕ × NodeLocks K)
  record_lock node key nodes =
      let node_locks = ensure_node_registration node nodes in
      set_node node (record node_locks { locks = key ∷ node_locks.locks }) nodes

  abbrev pub is_idle : NodeLocks K → Bool
  is_idle node_locks = elim node_locks.locks [
    | [] ↦ elim node_locks.range_locks [ [] ↦ true | r ∷ rs ↦ false ]
    | k ∷ ks ↦ false
  ]

  -- The node's entry after a lock of it is gone: dropped when it holds no lock any more.
  unfoldable pub settle_node : ℕ → NodeLocks K → List (ℕ × NodeLocks K) → List (ℕ × NodeLocks K)
  settle_node node node_locks nodes =
      if is_idle node_locks then remove_node node nodes else set_node node node_locks nodes

  -- `find_most_recent_covering_range_lock` over the matches of a search.
  unfoldable pub most_recent : ℕ → Option (RangeLock K) → List (RangeLock K) → Option (RangeLock K)
  most_recent excluded found [] = found
  most_recent excluded found (r ∷ rs) =
      let later : Bool = elim found [ none ↦ true | some f ↦ timer_lt f.timestamp r.timestamp ] in
      most_recent excluded (if not (r.node_id == excluded) && later then some r else found) rs

  -- `find_overlapping_range_lock` over the matches of a search.
  unfoldable pub find_overlapping : ℕ → List (RangeLock K) → Option (RangeLock K)
  find_overlapping excluded [] = none
  find_overlapping excluded (r ∷ rs) =
      if not (r.node_id == excluded) then some r else find_overlapping excluded rs

  unfoldable pub delete_range : ℕ → List (RangeLock K) → List (RangeLock K)
  delete_range address [] = []
  delete_range address (r ∷ rs) = if r.address == address then rs else r ∷ delete_range address rs

  -- The loop over the point locks: `none` when it ends without a conflict.
  unfoldable pub find_writer : ℕ → List (Locks K) → Option Result
  find_writer node [] = none
  find_writer node (e ∷ es) = elim e.locks [
    | [] ↦ some fault
    | first ∷ rest ↦
        if first.for_write && not (first.node_id == node)
        then some (refused first.timestamp)
        else find_writer node es
  ]

module _ {K : Type 0} (cmp : K → K → Ordering) where
  abbrev pub same : K → K → Bool
  same a b = elim (cmp a b) [ Ordering.eq ↦ true | _ ↦ false ]

  abbrev pub before : K → K → Bool
  before a b = elim (cmp a b) [ Ordering.lt ↦ true | _ ↦ false ]

  -- The point locks from the given key on, as `g_sequence_lookup` and the iterator give them.
  unfoldable pub locks_from : K → List (Locks K) → List (Locks K)
  locks_from key [] = []
  locks_from key (e ∷ es) = if same key e.key then e ∷ es else locks_from key es

  unfoldable pub find_locks_by_key : K → List (Locks K) → Option (Locks K)
  find_locks_by_key key [] = none
  find_locks_by_key key (e ∷ es) = if same key e.key then some e else find_locks_by_key key es

  unfoldable pub replace_locks : K → Locks K → List (Locks K) → List (Locks K)
  replace_locks key new [] = []
  replace_locks key new (e ∷ es) = if same key e.key then new ∷ es else e ∷ replace_locks key new es

  unfoldable pub remove_locks : K → List (Locks K) → List (Locks K)
  remove_locks key [] = []
  remove_locks key (e ∷ es) = if same key e.key then es else e ∷ remove_locks key es

  -- `g_sequence_insert_sorted`.
  unfoldable pub insert_locks : Locks K → List (Locks K) → List (Locks K)
  insert_locks new [] = new ∷ []
  insert_locks new (e ∷ es) = if before new.key e.key then new ∷ e ∷ es else e ∷ insert_locks new es

  unfoldable pub delete_key : K → List K → List K
  delete_key key [] = []
  delete_key key (k ∷ ks) = if same key k then ks else k ∷ delete_key key ks
