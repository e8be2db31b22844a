-- ===== src/DataStores/Server.antt =====
-- gzochi-server/src/dataserver.c: the operations of the data server. An operation is given what
-- `gettimeofday` returns as `now` and, where a structure's field is left unset, its value as `unset`;
-- `none` is a failed assertion or a null pointer that is followed.
use Prim.Native.Nat.{Ordering}
use gnu_gzochi.Base.{ℕ, Bool, Option, none, some, List, [], ◌∷◌, if◌then◌else◌, ◌>>=◌}
use gnu_gzochi.Timeval.{Timeval}
use gnu_gzochi.DataProtocol.{ReserveOidsResponse, Response, success, failure, Outcome, Changeset}
use gnu_gzochi.Lock.{IntervalTree, granted, refused, fault}
use gnu_gzochi.Lock.Ops.{
  lock_check_and_set, lock_range_check_and_set, lock_release, lock_release_range, lock_release_all,
}
use gnu_gzochi.Storage.{StorageEngine}
use gnu_gzochi.DataStores.{
  Server, locks_of, set_locks, set_store, store_name, get_lockable_store,
  ensure_open_application_store, apply_changes, finish_changes,
}

-- `gzochid_data_response_new (app, store, FALSE, NULL)` sets the pointer `data`, which shares its
-- place with the seconds of `timeout`, and not the microseconds.
abbrev pub refusal : ℕ → Outcome
refusal unset = failure (record { tv_sec = 0; tv_usec = unset })

module _ {C X : Type 0} (engine : StorageEngine C X) where
  -- The value that is stored, read in a transaction of its own.
  unfoldable pub read_value : C → List ℕ → List ℕ → C × Option (List ℕ)
  read_value context store key =
      let (transaction, value) =
        engine.transaction_get (engine.transaction_begin context) store key in
      (engine.transaction_rollback transaction, value)

  -- The key after `key`, or the first, read in a transaction of its own; `none` is the assertion that
  -- the transaction is not to be rolled back.
  unfoldable pub read_next_key : C → List ℕ → Option (List ℕ) → Option (C × Option (List ℕ))
  read_next_key context store key =
      let begun = engine.transaction_begin context in
      let next : X × Option (List ℕ) = elim key [
        | none ↦ engine.transaction_first_key begun store
        | some from ↦ engine.transaction_next_key begun store from
      ] in
      if engine.rolls_back next.0 then none else some (engine.transaction_rollback next.0, next.1)

module _ {C X T : Type 0} (cmp : List ℕ → List ℕ → Ordering) (tree : IntervalTree (List ℕ) T)
    (engine : StorageEngine C X) (tree_new : T) where
  unfoldable pub dataserver_reserve_oids :
      Server C T → List ℕ → Option (Server C T × ReserveOidsResponse)
  dataserver_reserve_oids server app =
      let app_store = ensure_open_application_store cmp tree engine tree_new server app in
      let (context, reserved) = engine.reserve_block (app_store.storage_context) in
      reserved >>= λ block. some (
        set_store app (record app_store { storage_context = context }) server,
        record { app = app; block = block },
      )

  -- The `NULL` response, with an error, is `none` in the result; `none` is a failed assertion.
  unfoldable pub dataserver_request_value :
      Server C T
      → ℕ
      → List ℕ
      → List ℕ
      → List ℕ
      → Bool
      → Timeval
      → ℕ
      → Option (Server C T × Option Response)
  dataserver_request_value server node_id app name key for_write now unset =
      let app_store = ensure_open_application_store cmp tree engine tree_new server app in
      elim (get_lockable_store name) [
        | none ↦ some (set_store app app_store server, none)
        | some store ↦
            let (locks, result) =
              lock_check_and_set cmp tree (locks_of store app_store) node_id key for_write now in
            elim result [
              | fault ↦ none
              | refused timestamp ↦ some (
                set_store app (set_locks store locks app_store) server,
                some (record { app = app; store = name; outcome = refusal unset }),
              )
              | granted ↦
                  let (context, value) =
                    read_value engine (app_store.storage_context) (store_name store) key in
                  some (
                    set_store app
                        (set_locks store locks (record app_store { storage_context = context }))
                        server,
                    some (record { app = app; store = name; outcome = success value }),
                  )
            ]
      ]

  unfoldable pub dataserver_request_next_key :
      Server C T
      → ℕ
      → List ℕ
      → List ℕ
      → Option (List ℕ)
      → Timeval
      → ℕ
      → Option (Server C T × Option Response)
  dataserver_request_next_key server node_id app name key now unset =
      let app_store = ensure_open_application_store cmp tree engine tree_new server app in
      elim (get_lockable_store name) [
        | none ↦ some (set_store app app_store server, none)
        | some store ↦ do
          (context, to_key) ←
              read_next_key engine (app_store.storage_context) (store_name store) key
          let (locks, result) =
              lock_range_check_and_set cmp tree (locks_of store app_store) node_id key to_key now
          let server' =
              set_store app (set_locks store locks (record app_store { storage_context = context }))
                server
          elim result [
            | fault ↦ none
            | refused timestamp ↦
                some (server', some (record { app = app; store = name; outcome = refusal unset }))
            | granted ↦
                some (server', some (record { app = app; store = name; outcome = success to_key }))
          ]
      ]

  unfoldable pub dataserver_process_changeset :
      Server C T → ℕ → Changeset → Option (Server C T × Bool)
  dataserver_process_changeset server node_id changeset =
      let app = changeset.app in
      let app_store = ensure_open_application_store cmp tree engine tree_new server app in
      let begun = engine.transaction_begin (app_store.storage_context) in
      finish_changes engine
        (apply_changes cmp tree engine tree_new app_store node_id (changeset.changes) begun)
      >>= λ (processed, context).
          some (set_store app (record app_store { storage_context = context }) server, processed)

  unfoldable pub dataserver_release_key :
      Server C T → ℕ → List ℕ → List ℕ → List ℕ → Option (Server C T)
  dataserver_release_key server node_id app name key =
      let app_store = ensure_open_application_store cmp tree engine tree_new server app in
      elim (get_lockable_store name) [
        | none ↦ some (set_store app app_store server)
        | some store ↦ do
          locks ← lock_release cmp tree (locks_of store app_store) node_id key
          some (set_store app (set_locks store locks app_store) server)
      ]

  unfoldable pub dataserver_release_range :
      Server C T → ℕ → List ℕ → List ℕ → Option (List ℕ) → Option (List ℕ) → Option (Server C T)
  dataserver_release_range server node_id app name first_key last_key =
      let app_store = ensure_open_application_store cmp tree engine tree_new server app in
      elim (get_lockable_store name) [
        | none ↦ some (set_store app app_store server)
        | some store ↦ do
          locks ← lock_release_range cmp tree (locks_of store app_store) node_id first_key last_key
          some (set_store app (set_locks store locks app_store) server)
      ]

  unfoldable pub dataserver_release_all : Server C T → ℕ → Option (Server C T)
  dataserver_release_all [] node_id = some []
  dataserver_release_all ((app, app_store) ∷ stores) node_id = do
    oids ← lock_release_all cmp tree (app_store.oids) node_id
    names ← lock_release_all cmp tree (app_store.names) node_id
    stores ← dataserver_release_all stores node_id
    some ((app, record app_store { oids = oids; names = names }) ∷ stores)
