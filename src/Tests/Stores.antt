-- ===== src/Tests/Stores.antt =====
-- gzochi-server/src/dataserver.c at concrete inputs: the storage engine is a function from stores and
-- keys to values, and the interval tree is a list that every search visits whole.
use Prim.Native.Nat.{Ordering}
use gnu_gzochi.Base.{
  ℕ, ◌≡◌, refl, true, false, none, some, List, [], ◌∷◌, All, arith, map, str_equal,
}
use gnu_gzochi.Timeval.{Timeval}
use gnu_gzochi.Util.Compare.{guint64_data_compare}
use gnu_gzochi.DataProtocol.{Changeset}
use gnu_gzochi.DataProtocol.Read.{changeset_read}
use gnu_gzochi.DataProtocol.Changes.{Update, change_of, message}
use gnu_gzochi.Lock.{
  RangeLock, IntervalTree, find_lock_with_node_id, find_locks_by_key, find_node, set_node,
  ensure_node_registration, insert_locks, record_lock, most_recent,
}
use gnu_gzochi.Lock.Ops.{
  lock_table_new, lock_check, lock_check_and_set, lock_fresh, most_recent_covering_range_lock,
}
use gnu_gzochi.Storage.{deleted, StorageEngine, View, update, IsTransactional}
use gnu_gzochi.DataStores.{
  Server, oids_store, find_store, set_store, get_lockable_store, ensure_open_application_store,
  write_change, apply_changes, finish_changes,
}
use gnu_gzochi.DataStores.Server.{
  dataserver_request_value, dataserver_process_changeset, read_value,
}
use gnu_gzochi.DataStores.Changesets.{IsPermitted, stored}
use gnu_gzochi.DataStores.Writes.{write_all}
use gnu_gzochi.DataStores.Accepted.{process_changeset_stores}
use gnu_gzochi.DataStores.Truncated.{process_changeset_crashes}
use gnu_gzochi.DataStores.Reach.{Request, wants_value, serve_all}
use gnu_gzochi.DataStores.Exclusive.{IsAlone, process_changeset_exclusive}

abbrev pub bytes_compare : List ℕ → List ℕ → Ordering
bytes_compare [] [] = Ordering.eq
bytes_compare [] (b ∷ bs) = Ordering.lt
bytes_compare (a ∷ tail) [] = Ordering.gt
bytes_compare (a ∷ tail) (b ∷ bs) =
    let rest = bytes_compare tail bs in
    elim (guint64_data_compare a b) [
      | Ordering.lt ↦ Ordering.lt
      | Ordering.eq ↦ rest
      | Ordering.gt ↦ Ordering.gt
    ]

abbrev pub byte_ranges : IntervalTree (List ℕ) (List (RangeLock (List ℕ)))
byte_ranges = record {
  insert = λ from to r rs. r ∷ rs;
  remove = λ from to rs. rs;
  search = λ key rs. rs;
  search_interval = λ from to rs. rs;
  found_by_null = λ locks. locks;
}

-- A context is what is stored; a transaction is what was stored when it began and what it sees.
abbrev pub engine : StorageEngine View (View × View)
engine = record {
  initialize = λ app store key. none;
  reserve_block = λ c. (c, some (record { block_start = 0; block_size = 100 }));
  transaction_begin = λ c. (c, c);
  transaction_get = λ x store key. (x, x.1 store key);
  transaction_begin_timed = λ c timeout. (c, c);
  transaction_get_for_update = λ x store key. (x, x.1 store key);
  transaction_first_key = λ x store. (x, none);
  transaction_next_key = λ x store key. (x, none);
  transaction_put = λ x store key value. (x.0, update store key (some value) x.1);
  transaction_delete = λ x store key. ((x.0, update store key none x.1), deleted);
  transaction_prepare = λ x. x;
  transaction_commit = λ x. x.1;
  transaction_rollback = λ x. x.0;
  rolls_back = λ x. false;
  should_retry = λ x. false;
}

abbrev pub laws : IsTransactional engine
laws = record {
  view = λ c. c;
  current = λ x. x.1;
  base = λ x. x.0;
  begin-current = λ c. refl;
  begin-base = λ c. refl;
  get-value = λ x store key e. refl;
  put-current = λ x store key value e. refl;
  put-base = λ x store key value. refl;
  delete-current = λ x store key e. refl;
  delete-base = λ x store key. refl;
  prepare-current = λ x e. refl;
  prepare-base = λ x. refl;
  commit-view = λ x e. refl;
  rollback-view = λ x. refl;
}

abbrev pub app_name : List ℕ
app_name = 97 ∷ []

abbrev pub oids : List ℕ
oids = 111 ∷ 105 ∷ 100 ∷ 115 ∷ []

abbrev pub at : Timeval
at = record { tv_sec = 9; tv_usec = 0 }

-- Node 1 asks for key 7 of "oids", to write it.
abbrev asked : List Request
asked = wants_value 1 app_name oids (7 ∷ []) true at 0 ∷ []

abbrev served : Server View (List (RangeLock (List ℕ)))
served =
    (
      app_name,
      record {
        storage_context = λ store key. none;
        oids = record {
          locks =
              record {
                key = 7 ∷ [];
                locks = record { node_id = 1; for_write = true; timestamp = at } ∷ [];
                most_recent_timestamp = at;
              }
              ∷ [];
          range_locks = [];
          nodes_to_locks = (1, record { locks = (7 ∷ []) ∷ []; range_locks = [] }) ∷ [];
          next_address = 0;
        };
        names = lock_table_new bytes_compare byte_ranges [];
      },
    )
    ∷ []

asked-served : serve_all bytes_compare byte_ranges engine [] asked [] ≡ some served
unfolding dataserver_request_value ensure_open_application_store find_store set_store
    get_lockable_store read_value lock_table_new lock_check_and_set lock_fresh find_locks_by_key
    find_lock_with_node_id most_recent_covering_range_lock most_recent insert_locks record_lock
    set_node ensure_node_registration find_node str_equal guint64_data_compare
asked-served = refl

abbrev updates : List Update
updates = record { store = oids; key = 7 ∷ []; value = some (1 ∷ 2 ∷ []) } ∷ []

updates-IsPermitted :
    All
      (IsPermitted bytes_compare byte_ranges engine [] laws
        (ensure_open_application_store bytes_compare byte_ranges engine [] served app_name)
        1)
      updates
unfolding ensure_open_application_store find_store get_lockable_store lock_check find_locks_by_key
    find_lock_with_node_id str_equal guint64_data_compare
updates-IsPermitted = ((oids_store, refl, refl), tt)

process_changeset_stores_example :
    (server' : Server View (List (RangeLock (List ℕ)))) × (dataserver_process_changeset
        bytes_compare byte_ranges engine [] served 1
        (record { app = app_name; changes = map change_of updates })
      ≡ some (server', true))
    × (stored bytes_compare byte_ranges engine [] laws server' app_name
        ≡ write_all updates (stored bytes_compare byte_ranges engine [] laws served app_name))
process_changeset_stores_example =
    process_changeset_stores bytes_compare byte_ranges engine [] laws served 1 app_name updates
      (λ y. refl) updates-IsPermitted

abbrev written : Server View (List (RangeLock (List ℕ)))
written =
    set_store app_name
      (record (ensure_open_application_store bytes_compare byte_ranges engine [] served app_name) {
        storage_context = update oids (7 ∷ []) (some (1 ∷ 2 ∷ [])) (λ store key. none);
      })
      served

updates-written :
    dataserver_process_changeset bytes_compare byte_ranges engine [] served 1
      (record { app = app_name; changes = map change_of updates })
    ≡ some (written, true)
unfolding dataserver_process_changeset ensure_open_application_store find_store set_store
    get_lockable_store lock_check find_locks_by_key find_lock_with_node_id apply_changes
    write_change finish_changes str_equal guint64_data_compare
updates-written = refl

process_changeset_exclusive_example :
    All (IsAlone bytes_compare byte_ranges engine [] served app_name 1) updates
process_changeset_exclusive_example =
    process_changeset_exclusive bytes_compare byte_ranges engine [] asked served written 1 app_name
      updates laws asked-served updates-written

-- The message says two changes and has one.
process_changeset_crashes_example :
    (changeset : Changeset) × (changeset_read (message app_name 2 updates) ≡ some changeset)
    × (dataserver_process_changeset bytes_compare byte_ranges engine [] served 1 changeset ≡ none)
process_changeset_crashes_example =
    process_changeset_crashes bytes_compare byte_ranges engine [] laws served 1 app_name
      (record { store = oids; key = 7 ∷ []; value = some (1 ∷ 2 ∷ []) }) [] 0 (omega arith, tt)
      (
        (
          ((omega arith, ((omega arith, ((omega arith, ((omega arith, tt))))))), omega arith),
          omega arith,
          omega arith,
          (omega arith, omega arith),
        ),
        tt,
      )
      (omega arith) (λ y. refl) updates-IsPermitted
