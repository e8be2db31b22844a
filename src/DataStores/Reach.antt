-- ===== src/DataStores/Reach.antt =====
-- gzochi-server/src/dataserver.c: sequences of operations of the data server on behalf of its nodes.
use Prim.Native.Nat.{Ordering}
use mathlib.Core.Option.{some-injective}
use gnu_gzochi.Base.{
  ℕ, ◌≡◌, inl, inr, refl, sym, Bool, Option, some, List, [], ◌∷◌, ◌++◌, All, ◌>>=◌, >>=-eq-some,
  Option-cases, Bool-cases, subst, str_equal,
}
use gnu_gzochi.Timeval.{Timeval}
use gnu_gzochi.DataProtocol.{Changeset}
use gnu_gzochi.Lock.{LockTable, IntervalTree}
use gnu_gzochi.Lock.Ops.{lock_table_new}
use gnu_gzochi.Lock.Run.{Op, step, run}
use gnu_gzochi.Storage.{StorageEngine}
use gnu_gzochi.DataStores.{
  ApplicationStore, Server, StoreName, oids_store, names_store, locks_of, set_locks, find_store,
  set_store, ensure_open_application_store,
}
use gnu_gzochi.DataStores.Server.{
  dataserver_reserve_oids, dataserver_request_value, dataserver_request_next_key,
  dataserver_process_changeset, dataserver_release_key, dataserver_release_range,
  dataserver_release_all,
}

-- What the connections of the data server ask it for.
pub data Request : Type 0 where
  reserves : List ℕ → Request
  wants_value : ℕ → List ℕ → List ℕ → List ℕ → Bool → Timeval → ℕ → Request
  wants_next_key : ℕ → List ℕ → List ℕ → Option (List ℕ) → Timeval → ℕ → Request
  submits : ℕ → Changeset → Request
  releases_key : ℕ → List ℕ → List ℕ → List ℕ → Request
  releases_range : ℕ → List ℕ → List ℕ → Option (List ℕ) → Option (List ℕ) → Request
  disconnects : ℕ → Request

module _ {C X T : Type 0} (cmp : List ℕ → List ℕ → Ordering) (tree : IntervalTree (List ℕ) T)
    (engine : StorageEngine C X) (tree_new : T) where
  abbrev pub serve : Request → Server C T → Option (Server C T)
  serve (reserves app) server = do
    (server', _) ← dataserver_reserve_oids cmp tree engine tree_new server app
    some server'
  serve (wants_value node_id app name key for_write now unset) server = do
    (server', _) ←
        dataserver_request_value cmp tree engine tree_new server node_id app name key for_write now
          unset
    some server'
  serve (wants_next_key node_id app name key now unset) server = do
    (server', _) ←
        dataserver_request_next_key cmp tree engine tree_new server node_id app name key now unset
    some server'
  serve (submits node_id changeset) server = do
    (server', _) ← dataserver_process_changeset cmp tree engine tree_new server node_id changeset
    some server'
  serve (releases_key node_id app name key) server =
      dataserver_release_key cmp tree engine tree_new server node_id app name key
  serve (releases_range node_id app name from to) server =
      dataserver_release_range cmp tree engine tree_new server node_id app name from to
  serve (disconnects node_id) server =
      dataserver_release_all cmp tree engine tree_new server node_id

  abbrev pub serve_all : List Request → Server C T → Option (Server C T)
  serve_all [] server = some server
  serve_all (r ∷ rs) server = serve r server >>= serve_all rs

  -- The lock table results from operations on a new one.
  abbrev pub IsReached : LockTable (List ℕ) T → Type 0
  IsReached t =
      (ops : List (Op (List ℕ))) × (run cmp tree ops (lock_table_new cmp tree tree_new) ≡ some t)

  run-append :
      (ops : List (Op (List ℕ))) (op : Op (List ℕ)) (t t₁ t₂ : LockTable (List ℕ) T)
      → run cmp tree ops t ≡ some t₁
      → step cmp tree op t₁ ≡ some t₂
      → run cmp tree (ops ++ op ∷ []) t ≡ some t₂
  run-append [] op t t₁ t₂ e last =
      let here = subst (λ s. step cmp tree op s ≡ some t₂) (sym (some-injective t t₁ e)) last in
      rw here refl
  run-append (o ∷ ops) op t t₁ t₂ e last =
      let (s, first, rest) = >>=-eq-some (step cmp tree o t) (run cmp tree ops) e in
      rw first (run-append ops op s t₁ t₂ rest last)

  pub extend :
      (op : Op (List ℕ)) (t t' : LockTable (List ℕ) T)
      → IsReached t
      → step cmp tree op t ≡ some t'
      → IsReached t'
  extend op t t' (ops, e) last = (ops ++ op ∷ [], run-append ops op _ t t' e last)

  abbrev pub AreReached : ApplicationStore C T → Type 0
  AreReached app_store = IsReached app_store.oids × IsReached app_store.names

  abbrev pub IsServing : Server C T → Type 0
  IsServing = All (λ entry. AreReached entry.1)

  find_store-AreReached :
      (app : List ℕ) (server : Server C T) (app_store : ApplicationStore C T)
      → IsServing server
      → find_store app server ≡ some app_store
      → AreReached app_store
  unfolding find_store
  find_store-AreReached app [] app_store serving e = absurd cc
  find_store-AreReached app ((name, store) ∷ server) app_store serving e =
      elim (Bool-cases (str_equal app name)) [
        | inl same ↦
            subst AreReached (some-injective store app_store (rw (find_store, same) at e)) serving.0
        | inr other ↦
            find_store-AreReached app server app_store serving.1 (rw (find_store, other) at e)
      ]

  pub ensure-AreReached :
      (server : Server C T) (app : List ℕ)
      → IsServing server
      → AreReached (ensure_open_application_store cmp tree engine tree_new server app)
  unfolding ensure_open_application_store
  ensure-AreReached server app serving = elim (Option-cases (find_store app server)) [
    | inl absent ↦ rw (ensure_open_application_store, absent) (([], refl), ([], refl))
    | inr (store, found) ↦
        rw (ensure_open_application_store, found)
          (find_store-AreReached app server store serving found)
  ]

  pub set_store-IsServing :
      (app : List ℕ) (new : ApplicationStore C T) (server : Server C T)
      → IsServing server
      → AreReached new
      → IsServing (set_store app new server)
  unfolding set_store
  set_store-IsServing app new [] serving reached = (reached, tt)
  set_store-IsServing app new ((name, store) ∷ server) serving reached =
      elim (Bool-cases (str_equal app name)) [
        | inl same ↦ rw (set_store, same) (reached, serving.1)
        | inr other ↦
            rw (set_store, other) (serving.0, set_store-IsServing app new server serving.1 reached)
      ]

  pub locks_of-IsReached :
      (store : StoreName) (app_store : ApplicationStore C T)
      → AreReached app_store
      → IsReached (locks_of store app_store)
  locks_of-IsReached oids_store app_store reached = reached.0
  locks_of-IsReached names_store app_store reached = reached.1

  -- An operation on one of the lock tables, and any other storage context.
  abbrev pub updated :
      StoreName → LockTable (List ℕ) T → C → ApplicationStore C T → ApplicationStore C T
  updated store locks context app_store =
      set_locks store locks (record app_store { storage_context = context })

  pub updated-IsServing :
      (op : Op (List ℕ)) (server : Server C T) (app : List ℕ) (store : StoreName)
      (locks : LockTable (List ℕ) T) (context : C)
      → let old = ensure_open_application_store cmp tree engine tree_new server app in
        IsServing server
        → step cmp tree op (locks_of store old) ≡ some locks
        → IsServing (set_store app (updated store locks context old) server)
  updated-IsServing op server app oids_store locks context serving e =
      let old = ensure-AreReached server app serving in
      set_store-IsServing app _ server serving (extend op _ locks old.0 e, old.1)
  updated-IsServing op server app names_store locks context serving e =
      let old = ensure-AreReached server app serving in
      set_store-IsServing app _ server serving (old.0, extend op _ locks old.1 e)
