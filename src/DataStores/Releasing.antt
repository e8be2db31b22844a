-- ===== src/DataStores/Releasing.antt =====
-- gzochi-server/src/dataserver.c: releasing locks makes operations on the lock tables only, and so does
-- every sequence of requests.
use Prim.Native.Nat.{Ordering}
use mathlib.Core.Option.{some-injective}
use gnu_gzochi.Base.{
  ℕ, ◌≡◌, inl, inr, Option, some, List, [], ◌∷◌, >>=-eq-some, Option-cases, subst,
}
use gnu_gzochi.Lock.{IntervalTree}
use gnu_gzochi.Lock.Ops.{lock_release, lock_release_range, lock_release_all}
use gnu_gzochi.Lock.Run.{release, release_range, release_all}
use gnu_gzochi.Storage.{StorageEngine}
use gnu_gzochi.DataStores.{Server, locks_of, get_lockable_store}
use gnu_gzochi.DataStores.Server.{
  dataserver_reserve_oids, dataserver_request_value, dataserver_request_next_key,
  dataserver_process_changeset, dataserver_release_key, dataserver_release_range,
  dataserver_release_all,
}
use gnu_gzochi.DataStores.Reach.{
  Request, reserves, wants_value, wants_next_key, submits, releases_key, releases_range,
  disconnects, serve, serve_all, updated-IsServing, extend,
}
use gnu_gzochi.DataStores.Serving.{
  ensured, Serving, kept, value-IsServing, next_key-IsServing, reserve_oids-IsServing,
  changeset-IsServing,
}

module _ {C X T : Type 0} (cmp : List ℕ → List ℕ → Ordering) (tree : IntervalTree (List ℕ) T)
    (engine : StorageEngine C X) (tree_new : T) where
  release_key-IsServing :
      (server server' : Server C T) (node_id : ℕ) (app name key : List ℕ)
      → Serving cmp tree engine tree_new server
      → dataserver_release_key cmp tree engine tree_new server node_id app name key ≡ some server'
      → Serving cmp tree engine tree_new server'
  unfolding dataserver_release_key
  release_key-IsServing server server' node_id app name key serving e =
      let old = ensured cmp tree engine tree_new server app in
      elim (Option-cases (get_lockable_store name)) [
        | inl unknown ↦
            kept cmp tree engine tree_new server server' app (old.storage_context) serving
              (some-injective _ _ (rw (dataserver_release_key, unknown) at e))
        | inr (store, known) ↦
            let (locks, released, rest) =
              >>=-eq-some (lock_release cmp tree (locks_of store old) node_id key) _
                (rw (dataserver_release_key, known) at e) in
            subst (Serving cmp tree engine tree_new) (some-injective _ _ rest) (
              updated-IsServing cmp tree engine tree_new (release node_id key) server app store
                locks (old.storage_context) serving released)
      ]

  release_range-IsServing :
      (server server' : Server C T) (node_id : ℕ) (app name : List ℕ) (from to : Option (List ℕ))
      → Serving cmp tree engine tree_new server
      → dataserver_release_range cmp tree engine tree_new server node_id app name from to
        ≡ some server'
      → Serving cmp tree engine tree_new server'
  unfolding dataserver_release_range
  release_range-IsServing server server' node_id app name from to serving e =
      let old = ensured cmp tree engine tree_new server app in
      elim (Option-cases (get_lockable_store name)) [
        | inl unknown ↦
            kept cmp tree engine tree_new server server' app (old.storage_context) serving
              (some-injective _ _ (rw (dataserver_release_range, unknown) at e))
        | inr (store, known) ↦
            let (locks, released, rest) =
              >>=-eq-some (lock_release_range cmp tree (locks_of store old) node_id from to) _
                (rw (dataserver_release_range, known) at e) in
            subst (Serving cmp tree engine tree_new) (some-injective _ _ rest) (
              updated-IsServing cmp tree engine tree_new (release_range node_id from to) server app
                store locks (old.storage_context) serving released)
      ]

  release_all-IsServing :
      (server server' : Server C T) (node_id : ℕ)
      → Serving cmp tree engine tree_new server
      → dataserver_release_all cmp tree engine tree_new server node_id ≡ some server'
      → Serving cmp tree engine tree_new server'
  unfolding dataserver_release_all
  release_all-IsServing [] server' node_id serving e =
      subst (Serving cmp tree engine tree_new) (some-injective _ _ e) tt
  release_all-IsServing ((app, old) ∷ server) server' node_id serving e =
      let (oids, released_oids, e₁) =
        >>=-eq-some (lock_release_all cmp tree old.oids node_id) _ e in
      let (names, released_names, e₂) =
        >>=-eq-some (lock_release_all cmp tree old.names node_id) _ e₁ in
      let (stores, released, e₃) =
        >>=-eq-some (dataserver_release_all cmp tree engine tree_new server node_id) _ e₂ in
      subst (Serving cmp tree engine tree_new) (some-injective _ _ e₃) (
        (
          extend cmp tree engine tree_new (release_all node_id) old.oids oids serving.0.0
              released_oids,
          extend cmp tree engine tree_new (release_all node_id) old.names names serving.0.1
              released_names,
        ),
        release_all-IsServing server stores node_id serving.1 released,
      )

  serve-IsServing :
      (request : Request) (server server' : Server C T)
      → Serving cmp tree engine tree_new server
      → serve cmp tree engine tree_new request server ≡ some server'
      → Serving cmp tree engine tree_new server'
  serve-IsServing (reserves app) server server' serving e =
      let (ended, served, rest) =
        >>=-eq-some (dataserver_reserve_oids cmp tree engine tree_new server app) _ e in
      subst (Serving cmp tree engine tree_new) (some-injective _ _ rest)
        (reserve_oids-IsServing cmp tree engine tree_new server ended.0 app ended.1 serving served)
  serve-IsServing (wants_value node_id app name key for_write now unset) server server' serving e =
      let (ended, served, rest) =
        >>=-eq-some
          (dataserver_request_value cmp tree engine tree_new server node_id app name key for_write
            now unset)
          _ e in
      subst (Serving cmp tree engine tree_new) (some-injective _ _ rest) (
        value-IsServing cmp tree engine tree_new server ended.0 node_id app name key for_write now
          unset ended.1 serving served)
  serve-IsServing (wants_next_key node_id app name key now unset) server server' serving e =
      let (ended, served, rest) =
        >>=-eq-some
          (dataserver_request_next_key cmp tree engine tree_new server node_id app name key now
            unset)
          _ e in
      subst (Serving cmp tree engine tree_new) (some-injective _ _ rest) (
        next_key-IsServing cmp tree engine tree_new server ended.0 node_id app name key now unset
          ended.1 serving served)
  serve-IsServing (submits node_id changeset) server server' serving e =
      let (ended, served, rest) =
        >>=-eq-some (dataserver_process_changeset cmp tree engine tree_new server node_id changeset)
          _ e in
      subst (Serving cmp tree engine tree_new) (some-injective _ _ rest) (
        changeset-IsServing cmp tree engine tree_new server ended.0 node_id changeset ended.1
          serving served)
  serve-IsServing (releases_key node_id app name key) server server' serving e =
      release_key-IsServing server server' node_id app name key serving e
  serve-IsServing (releases_range node_id app name from to) server server' serving e =
      release_range-IsServing server server' node_id app name from to serving e
  serve-IsServing (disconnects node_id) server server' serving e =
      release_all-IsServing server server' node_id serving e

  pub serve_all-IsServing :
      (requests : List Request) (server server' : Server C T)
      → Serving cmp tree engine tree_new server
      → serve_all cmp tree engine tree_new requests server ≡ some server'
      → Serving cmp tree engine tree_new server'
  serve_all-IsServing [] server server' serving e =
      subst (Serving cmp tree engine tree_new) (some-injective _ _ e) serving
  serve_all-IsServing (r ∷ requests) server server' serving e =
      let (next, first, rest) =
        >>=-eq-some (serve cmp tree engine tree_new r server)
          (serve_all cmp tree engine tree_new requests) e in
      serve_all-IsServing requests next server' (serve-IsServing r server next serving first) rest
