-- ===== src/DataStores.antt =====
-- gzochi-server/src/dataserver.c: the data server, which keeps for each application the contexts of
-- its storage and two lock tables, for the stores "oids" and "names". The storage engine is the
-- interface of Storage, with the contexts `C` and the transactions `X`. Keys are byte strings, compared
-- by `cmp`.
pub mod Server
pub mod Writes
pub mod Changesets
pub mod Accepted
pub mod Truncated
pub mod Reach
pub mod Serving
pub mod Releasing
pub mod Exclusive
pub mod Hosted
pub mod Connected
use Prim.Native.Nat.{Ordering}
use gnu_gzochi.Base.{
  str_equal, ℕ, ◌+◌, Bool, true, false, not, ◌&&◌, Option, none, some, List, [], ◌∷◌, ◌++◌,
  if◌then◌else◌, ◌>>=◌, ◌==◌,
}
use gnu_gzochi.Timeval.{Timeval}
use gnu_gzochi.DataProtocol.{OidsBlock, Change}
use gnu_gzochi.Storage.{StorageEngine}
use gnu_gzochi.Lock.{LockTable, IntervalTree}
use gnu_gzochi.Lock.Ops.{lock_table_new, lock_check}

-- An application's stores: the storage context and the lock tables of "oids" and "names".
pub record ApplicationStore (C T : Type 0) : Type 0 where
  pub storage_context : C
  pub oids : LockTable (List ℕ) T
  pub names : LockTable (List ℕ) T

-- The table `application_stores`, in the order of its iterator.
abbrev pub Server : Type 0 → Type 0 → Type 0
Server C T = List (List ℕ × ApplicationStore C T)

pub data StoreName : Type 0 where
  oids_store names_store : StoreName

abbrev oids_name : List ℕ
oids_name = 111 ∷ 105 ∷ 100 ∷ 115 ∷ []

abbrev names_name : List ℕ
names_name = 110 ∷ 97 ∷ 109 ∷ 101 ∷ 115 ∷ []

unfoldable pub get_lockable_store : List ℕ → Option StoreName
get_lockable_store name =
    if str_equal name oids_name
    then some oids_store
    else if str_equal name names_name
    then some names_store
    else none

abbrev pub store_name : StoreName → List ℕ
store_name oids_store = oids_name
store_name names_store = names_name

module _ {C T : Type 0} where
  abbrev pub locks_of : StoreName → ApplicationStore C T → LockTable (List ℕ) T
  locks_of oids_store app_store = app_store.oids
  locks_of names_store app_store = app_store.names

  abbrev pub set_locks :
      StoreName → LockTable (List ℕ) T → ApplicationStore C T → ApplicationStore C T
  set_locks oids_store locks app_store = record app_store { oids = locks }
  set_locks names_store locks app_store = record app_store { names = locks }

  unfoldable pub find_store : List ℕ → Server C T → Option (ApplicationStore C T)
  find_store app [] = none
  find_store app ((name, store) ∷ stores) =
      let later = find_store app stores in if str_equal app name then some store else later

  -- What is changed of a store, which the table holds by reference.
  unfoldable pub set_store : List ℕ → ApplicationStore C T → Server C T → Server C T
  set_store app new [] = (app, new) ∷ []
  set_store app new ((name, store) ∷ stores) =
      let later = set_store app new stores in
      if str_equal app name then (name, new) ∷ stores else (name, store) ∷ later

-- A null pointer that is passed to `strcmp` or as a `GBytes`, neither of which may be null, is
-- `crashed`. A change that is rejected leaves an error and the transaction to be rolled back.
pub data Applied (X : Type 0) : Type 0 where
  applied rejected : X → Applied X
  crashed : Applied X

module _ {C X : Type 0} (engine : StorageEngine C X) where
  -- The deletion or the new value of a key.
  unfoldable pub write_change : X → List ℕ → List ℕ → Change → Option X
  write_change transaction store key change =
      if change.is_delete
      then some (engine.transaction_delete transaction store key).0
      else (change.value >>= λ value. some (engine.transaction_put transaction store key value))

  -- The end of `process_changeset`: whether no error is set, and the context of the storage.
  unfoldable pub finish_changes : Applied X → Option (Bool × C)
  finish_changes crashed = none
  finish_changes (rejected transaction) = some (false, engine.transaction_rollback transaction)
  finish_changes (applied transaction) =
      let prepared = engine.transaction_prepare transaction in
      if engine.rolls_back prepared
      then some (false, engine.transaction_rollback prepared)
      else some (true, engine.transaction_commit prepared)

module _ {C X T : Type 0} (cmp : List ℕ → List ℕ → Ordering) (tree : IntervalTree (List ℕ) T)
    (engine : StorageEngine C X) (tree_new : T) where
  unfoldable pub ensure_open_application_store : Server C T → List ℕ → ApplicationStore C T
  ensure_open_application_store server app = elim (find_store app server) [
    | some store ↦ store
    | none ↦ record {
      storage_context = engine.initialize app;
      oids = lock_table_new cmp tree tree_new;
      names = lock_table_new cmp tree tree_new;
    }
  ]

  -- The loop of `process_changeset`.
  unfoldable pub apply_changes : ApplicationStore C T → ℕ → List Change → X → Applied X
  apply_changes app_store node_id [] transaction = applied transaction
  apply_changes app_store node_id (change ∷ changes) transaction = elim (change.store) [
    | none ↦ crashed
    | some name ↦ elim (get_lockable_store name) [
      | none ↦ rejected transaction
      | some store ↦ elim (change.key) [
        | none ↦ crashed
        | some key ↦ elim (lock_check cmp tree (locks_of store app_store) node_id key true) [
          | false ↦ rejected transaction
          | true ↦ elim (write_change engine transaction (store_name store) key change) [
            | none ↦ crashed
            | some transaction' ↦ elim (engine.rolls_back transaction') [
              | true ↦ rejected transaction'
              | false ↦ apply_changes app_store node_id changes transaction'
            ]
          ]
        ]
      ]
    ]
  ]
