-- ===== src/DataStores/Exclusive.antt =====
-- gzochi-server/src/dataserver.c: the nodes exclude each other from the keys they write.
use Prim.Native.Nat.{Ordering}
use mathlib.Core.Option.{some-injective}
use gnu_gzochi.Base.{ℕ, ◌≡◌, ◌≢◌, sym, ◌∙◌, Bool, true, false, some, List, [], ◌∷◌, map, All, ap}
use gnu_gzochi.Lock.{IntervalTree}
use gnu_gzochi.Lock.Ops.{lock_check}
use gnu_gzochi.Lock.Exclusive.{run_exclusive}
use gnu_gzochi.DataProtocol.Changes.{Update, change_of}
use gnu_gzochi.Storage.{StorageEngine, IsTransactional}
use gnu_gzochi.DataStores.{
  Server, StoreName, locks_of, get_lockable_store, ensure_open_application_store,
}
use gnu_gzochi.DataStores.Server.{dataserver_process_changeset}
use gnu_gzochi.DataStores.Changesets.{IsPermitted, dataserver_process_changeset_lem}
use gnu_gzochi.DataStores.Reach.{Request, serve_all, ensure-AreReached, locks_of-IsReached}
use gnu_gzochi.DataStores.Serving.{ensured}
use gnu_gzochi.DataStores.Releasing.{serve_all-IsServing}

module _ {C X T : Type 0} (cmp : List ℕ → List ℕ → Ordering) (tree : IntervalTree (List ℕ) T)
    (engine : StorageEngine C X) (tree_new : T) where
  -- No other node holds a lock on the update's key.
  abbrev pub IsAlone : Server C T → List ℕ → ℕ → Update → Type 0
  IsAlone server app node_id u =
      (store : StoreName) × (get_lockable_store (u.store) ≡ some store)
      × ((other : ℕ) (for_write : Bool)
          → node_id ≢ other
          → lock_check cmp tree
              (locks_of store (ensure_open_application_store cmp tree engine tree_new server app))
              other (u.key) for_write
            ≡ false)

  pub serve_all_exclusive :
      (requests : List Request) (server : Server C T) (app : List ℕ) (store : StoreName) (n m : ℕ)
      (key : List ℕ) (v : Bool)
      → serve_all cmp tree engine tree_new requests [] ≡ some server
      → n ≢ m
      → lock_check cmp tree
          (locks_of store (ensured cmp tree engine tree_new server app))
          n
          key
          true
        ≡ true
      → lock_check cmp tree (locks_of store (ensured cmp tree engine tree_new server app)) m key v
        ≡ false
  serve_all_exclusive requests server app store n m key v e apart writes =
      let serving = serve_all-IsServing cmp tree engine tree_new requests [] server tt e in
      let (ops, ran) =
        locks_of-IsReached cmp tree engine tree_new store _
          (ensure-AreReached cmp tree engine tree_new server app serving) in
      run_exclusive cmp tree tree_new ops
        (locks_of store (ensured cmp tree engine tree_new server app)) n m key v ran apart writes

  all-IsAlone :
      (requests : List Request) (server : Server C T) (node_id : ℕ) (app : List ℕ)
      (laws : IsTransactional engine) (us : List Update)
      → serve_all cmp tree engine tree_new requests [] ≡ some server
      → All
          (IsPermitted cmp tree engine tree_new laws
            (ensured cmp tree engine tree_new server app)
            node_id)
          us
      → All (IsAlone server app node_id) us
  all-IsAlone requests server node_id app laws [] e permitted = tt
  all-IsAlone requests server node_id app laws (u ∷ us) e permitted =
      let (store, known, holds) = permitted.0 in
      (
        (
          store,
          known,
          λ other for_write apart.
              serve_all_exclusive requests server app store node_id other (u.key) for_write e apart
                holds,
        ),
        all-IsAlone requests server node_id app laws us e permitted.1,
      )

  -- Whatever requests the data server has served since it started, a changeset that it stores
  -- changes only keys on which no other node holds a lock, for any interval tree and any storage
  -- engine that keeps the promises of its interface.
  pub process_changeset_exclusive :
      (requests : List Request) (server server' : Server C T) (node_id : ℕ) (app : List ℕ)
      (us : List Update)
      → IsTransactional engine
      → serve_all cmp tree engine tree_new requests [] ≡ some server
      → dataserver_process_changeset cmp tree engine tree_new server node_id
          (record { app = app; changes = map change_of us })
        ≡ some (server', true)
      → All (IsAlone server app node_id) us
  process_changeset_exclusive requests server server' node_id app us laws e stored =
      let (server'', processed, ended, kept, _) =
        dataserver_process_changeset_lem cmp tree engine tree_new laws server node_id app us in
      let same = some-injective _ _ (sym ended ∙ stored) in
      all-IsAlone requests server node_id app laws us e (kept (ap (λ p. p.1) same)).0
