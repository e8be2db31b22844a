-- ===== src/DataStores/Accepted.antt =====
-- gzochi-server/src/dataserver.c: a changeset that the node may make is stored.
use Prim.Native.Nat.{Ordering}
use mathlib.Core.Option.{some-injective}
use mathlib.Core.List.{append-nil}
use gnu_gzochi.Base.{ℕ, ◌≡◌, refl, sym, ap, ◌∙◌, true, false, some, List, [], ◌∷◌, ◌++◌, map, All}
use gnu_gzochi.DataProtocol.{Change}
use gnu_gzochi.DataProtocol.Changes.{Update, change_of}
use gnu_gzochi.Lock.{IntervalTree}
use gnu_gzochi.Storage.{StorageEngine, IsTransactional}
use gnu_gzochi.DataStores.{
  ApplicationStore, Server, store_name, set_store, ensure_open_application_store, applied,
  apply_changes, finish_changes,
}
use gnu_gzochi.DataStores.Server.{dataserver_process_changeset}
use gnu_gzochi.DataStores.Changesets.{IsPermitted, stored, dataserver_process_changeset_lem}
use gnu_gzochi.DataStores.Writes.{write_all, change_fields, write_change_lem}

module _ {C X T : Type 0} (cmp : List ℕ → List ℕ → Ordering) (tree : IntervalTree (List ℕ) T)
    (engine : StorageEngine C X) (tree_new : T) (laws : IsTransactional engine) where
  pub apply_changes-append :
      (app_store : ApplicationStore C T) (node_id : ℕ) (us : List Update) (rest : List Change)
      (x : X)
      → ((y : X) → engine.rolls_back y ≡ false)
      → All (IsPermitted cmp tree engine tree_new laws app_store node_id) us
      → (x' : X) × (apply_changes cmp tree engine tree_new app_store node_id
            (map change_of us ++ rest)
            x
          ≡ apply_changes cmp tree engine tree_new app_store node_id rest x')
  unfolding apply_changes
  apply_changes-append app_store node_id [] rest x reliable permitted = (x, refl)
  apply_changes-append app_store node_id (u ∷ us) rest x reliable permitted =
      let (has_store, has_key) = change_fields (u.store) (u.key) (u.value) in
      let (store, known, holds) = permitted.0 in
      let (x₁, written, _, _) =
        write_change_lem engine laws x (store_name store) (u.store) (u.key) (u.value) in
      let (x₂, later) = apply_changes-append app_store node_id us rest x₁ reliable permitted.1 in
      (x₂, rw (apply_changes, has_store, known, has_key, holds, written, reliable x₁) later)

  apply_changes-applied :
      (app_store : ApplicationStore C T) (node_id : ℕ) (us : List Update) (x : X)
      → ((y : X) → engine.rolls_back y ≡ false)
      → All (IsPermitted cmp tree engine tree_new laws app_store node_id) us
      → (x' : X) × (apply_changes cmp tree engine tree_new app_store node_id (map change_of us) x
          ≡ applied x')
  unfolding apply_changes
  apply_changes-applied app_store node_id us x reliable permitted =
      let (x', done) = apply_changes-append app_store node_id us [] x reliable permitted in
      (
        x',
        ap (λ changes. apply_changes cmp tree engine tree_new app_store node_id changes x)
              (sym (append-nil (map change_of us)))
            ∙ done,
      )

  -- A changeset is stored, whole and in order, if each of its changes is to a store that exists and
  -- the node holds the write lock of its key, and the storage engine, which keeps the promises of
  -- its interface, does not roll its transactions back.
  pub process_changeset_stores :
      (server : Server C T) (node_id : ℕ) (app : List ℕ) (us : List Update)
      → ((y : X) → engine.rolls_back y ≡ false)
      → All
          (IsPermitted cmp tree engine tree_new laws
            (ensure_open_application_store cmp tree engine tree_new server app)
            node_id)
          us
      → (server' : Server C T) × (dataserver_process_changeset cmp tree engine tree_new server
            node_id
            (record { app = app; changes = map change_of us })
          ≡ some (server', true))
        × (stored cmp tree engine tree_new laws server' app
            ≡ write_all us (stored cmp tree engine tree_new laws server app))
  unfolding dataserver_process_changeset finish_changes
  process_changeset_stores server node_id app us reliable permitted =
      let old = ensure_open_application_store cmp tree engine tree_new server app in
      let (x, done) =
        apply_changes-applied old node_id us (engine.transaction_begin (old.storage_context))
          reliable permitted in
      let (server', processed, ended, kept, lost) =
        dataserver_process_changeset_lem cmp tree engine tree_new laws server node_id app us in
      let new = record old {
        storage_context = engine.transaction_commit (engine.transaction_prepare x);
      } in
      let runs : dataserver_process_changeset cmp tree engine tree_new server node_id
            (record { app = app; changes = map change_of us })
          ≡ some (set_store app new server, true) =
        rw (dataserver_process_changeset, done, finish_changes)
          (rw (reliable (engine.transaction_prepare x)) refl) in
      let is_processed : processed ≡ true = ap (λ p. p.1) (some-injective _ _ (sym ended ∙ runs)) in
      (server', ended ∙ ap (λ b. some (server', b)) is_processed, (kept is_processed).1)
