-- ===== src/DataStores/Serving.antt =====
-- gzochi-server/src/dataserver.c: every operation of the data server makes operations on its lock
-- tables only.
use Prim.Native.Nat.{Ordering}
use mathlib.Core.Option.{some-injective}
use gnu_gzochi.Base.{
  ℕ, ◌≡◌, ◌⊎◌, inl, inr, refl, Bool, Option, some, List, >>=-eq-some, Option-cases, subst, ap,
}
use gnu_gzochi.Timeval.{Timeval}
use gnu_gzochi.DataProtocol.{Changeset, ReserveOidsResponse, Response}
use gnu_gzochi.Lock.{IntervalTree, Result, granted, refused, fault}
use gnu_gzochi.Lock.Ops.{lock_check_and_set, lock_range_check_and_set}
use gnu_gzochi.Lock.Run.{check_and_set, range_check_and_set}
use gnu_gzochi.Storage.{StorageEngine}
use gnu_gzochi.DataStores.{
  ApplicationStore, Server, store_name, locks_of, set_store, get_lockable_store,
  ensure_open_application_store, finish_changes, apply_changes,
}
use gnu_gzochi.DataStores.Server.{
  dataserver_reserve_oids, dataserver_request_value, dataserver_request_next_key,
  dataserver_process_changeset, read_value, read_next_key,
}
use gnu_gzochi.DataStores.Reach.{
  IsServing, ensure-AreReached, set_store-IsServing, updated-IsServing,
}

Result-cases :
    (r : Result) → (r ≡ granted) ⊎ (r ≡ fault) ⊎ ((stamp : Timeval) × (r ≡ refused stamp))
Result-cases granted = inl refl
Result-cases fault = inr (inl refl)
Result-cases (refused stamp) = inr (inr (stamp, refl))

module _ {C X T : Type 0} (cmp : List ℕ → List ℕ → Ordering) (tree : IntervalTree (List ℕ) T)
    (engine : StorageEngine C X) (tree_new : T) where
  abbrev pub ensured : Server C T → List ℕ → ApplicationStore C T
  ensured = ensure_open_application_store cmp tree engine tree_new

  abbrev pub Serving : Server C T → Type 0
  Serving = IsServing cmp tree engine tree_new

  pub kept :
      (server server' : Server C T) (app : List ℕ) (context : C)
      → Serving server
      → set_store app (record (ensured server app) { storage_context = context }) server ≡ server'
      → Serving server'
  kept server server' app context serving e = subst Serving e (
      set_store-IsServing cmp tree engine tree_new app _ server serving
        (ensure-AreReached cmp tree engine tree_new server app serving))

  pub value-IsServing :
      (server server' : Server C T) (node_id : ℕ) (app name key : List ℕ) (for_write : Bool)
      (now : Timeval) (unset : ℕ) (response : Option Response)
      → Serving server
      → dataserver_request_value cmp tree engine tree_new server node_id app name key for_write now
          unset
        ≡ some (server', response)
      → Serving server'
  unfolding dataserver_request_value
  value-IsServing server server' node_id app name key for_write now unset response serving e =
      let old = ensured server app in
      elim (Option-cases (get_lockable_store name)) [
        | inl unknown ↦
            kept server server' app (old.storage_context) serving
              (ap (λ p. p.0) (some-injective _ _ (rw (dataserver_request_value, unknown) at e)))
        | inr (store, known) ↦
            let op = check_and_set node_id key for_write now in
            let attempt =
              lock_check_and_set cmp tree (locks_of store old) node_id key for_write now in
            let serves = λ (context : C).
              updated-IsServing cmp tree engine tree_new op server app store attempt.0 context
                serving refl in
            elim (Result-cases attempt.1) [
              | inl is_granted ↦
                  subst Serving
                    (ap (λ p. p.0)
                      (some-injective _ _ (rw (dataserver_request_value, known, is_granted) at e)))
                    (serves (read_value engine (old.storage_context) (store_name store) key).0)
              | inr (inl is_fault) ↦
                  absurd (let h = rw (dataserver_request_value, known, is_fault) at e in cc)
              | inr (inr (stamp, is_refused)) ↦
                  subst Serving
                    (ap (λ p. p.0)
                      (some-injective _ _ (rw (dataserver_request_value, known, is_refused) at e)))
                    (serves (old.storage_context))
            ]
      ]

  pub next_key-IsServing :
      (server server' : Server C T) (node_id : ℕ) (app name : List ℕ) (key : Option (List ℕ))
      (now : Timeval) (unset : ℕ) (response : Option Response)
      → Serving server
      → dataserver_request_next_key cmp tree engine tree_new server node_id app name key now unset
        ≡ some (server', response)
      → Serving server'
  unfolding dataserver_request_next_key
  next_key-IsServing server server' node_id app name key now unset response serving e =
      let old = ensured server app in
      elim (Option-cases (get_lockable_store name)) [
        | inl unknown ↦
            kept server server' app (old.storage_context) serving
              (ap (λ p. p.0) (some-injective _ _ (rw (dataserver_request_next_key, unknown) at e)))
        | inr (store, known) ↦
            let h = rw (dataserver_request_next_key, known) at e in
            let (read, reads, rest) =
              >>=-eq-some (read_next_key engine (old.storage_context) (store_name store) key) _ h in
            let op = range_check_and_set node_id key read.1 now in
            let attempt =
              lock_range_check_and_set cmp tree (locks_of store old) node_id key read.1 now in
            let serves =
              updated-IsServing cmp tree engine tree_new op server app store attempt.0 read.0
                serving refl in
            elim (Result-cases attempt.1) [
              | inl is_granted ↦
                  subst Serving (ap (λ p. p.0) (some-injective _ _ (rw is_granted at rest))) serves
              | inr (inl is_fault) ↦ absurd (let g = rw is_fault at rest in cc)
              | inr (inr (stamp, is_refused)) ↦
                  subst Serving (ap (λ p. p.0) (some-injective _ _ (rw is_refused at rest))) serves
            ]
      ]

  pub reserve_oids-IsServing :
      (server server' : Server C T) (app : List ℕ) (response : ReserveOidsResponse)
      → Serving server
      → dataserver_reserve_oids cmp tree engine tree_new server app ≡ some (server', response)
      → Serving server'
  unfolding dataserver_reserve_oids
  reserve_oids-IsServing server server' app response serving e =
      let reserved = engine.reserve_block ((ensured server app).storage_context) in
      let (block, taken, rest) = >>=-eq-some reserved.1 _ e in
      kept server server' app reserved.0 serving (ap (λ p. p.0) (some-injective _ _ rest))

  pub changeset-IsServing :
      (server server' : Server C T) (node_id : ℕ) (changeset : Changeset) (processed : Bool)
      → Serving server
      → dataserver_process_changeset cmp tree engine tree_new server node_id changeset
        ≡ some (server', processed)
      → Serving server'
  unfolding dataserver_process_changeset
  changeset-IsServing server server' node_id changeset processed serving e =
      let old = ensured server (changeset.app) in
      let begun = engine.transaction_begin (old.storage_context) in
      let done = apply_changes cmp tree engine tree_new old node_id (changeset.changes) begun in
      let (ended, finished, rest) = >>=-eq-some (finish_changes engine done) _ e in
      kept server server' (changeset.app) ended.1 serving (ap (λ p. p.0) (some-injective _ _ rest))
