-- ===== src/DataStores/Changesets.antt =====
-- gzochi-server/src/dataserver.c: a changeset is stored whole or not at all, and only over write
-- locks.
use Prim.Native.Nat.{Ordering}
use gnu_gzochi.Base.{
  ℕ, ◌≡◌, ◌⊎◌, inl, inr, refl, ap, ◌∙◌, Bool, true, false, some, List, [], ◌∷◌, map, All,
  Bool-cases, Option-cases,
}
use gnu_gzochi.DataProtocol.Changes.{Update, change_of}
use gnu_gzochi.Storage.{StorageEngine, View, update, IsTransactional}
use gnu_gzochi.Lock.{IntervalTree}
use gnu_gzochi.Lock.Ops.{lock_check}
use gnu_gzochi.DataStores.{
  ApplicationStore, Server, StoreName, locks_of, set_store, store_name, get_lockable_store,
  ensure_open_application_store, applied, rejected, apply_changes, finish_changes,
}
use gnu_gzochi.DataStores.Server.{dataserver_process_changeset}
use gnu_gzochi.DataStores.Writes.{
  write_all, change_fields, get_lockable_store-name, find_store-set_store, write_change_lem,
}

module _ {C X T : Type 0} (cmp : List ℕ → List ℕ → Ordering) (tree : IntervalTree (List ℕ) T)
    (engine : StorageEngine C X) (tree_new : T) (laws : IsTransactional engine) where
  -- The node holds the write lock of the update's key in a store that exists.
  abbrev pub IsPermitted : ApplicationStore C T → ℕ → Update → Type 0
  IsPermitted app_store node_id u =
      (store : StoreName) × (get_lockable_store (u.store) ≡ some store)
      × (lock_check cmp tree (locks_of store app_store) node_id (u.key) true ≡ true)

  apply_changes_lem :
      (app_store : ApplicationStore C T) (node_id : ℕ) (us : List Update) (x : X)
      → ((x' : X) × (apply_changes cmp tree engine tree_new app_store node_id (map change_of us) x
            ≡ applied x')
          × All (IsPermitted app_store node_id) us
          × (laws.current x' ≡ write_all us (laws.current x))
          × (laws.base x' ≡ laws.base x))
        ⊎ ((x' : X) × (apply_changes cmp tree engine tree_new app_store node_id (map change_of us) x
              ≡ rejected x')
            × (laws.base x' ≡ laws.base x))
  unfolding apply_changes
  apply_changes_lem app_store node_id [] x = inl (x, refl, tt, refl, refl)
  apply_changes_lem app_store node_id (u ∷ us) x =
      let (has_store, has_key) = change_fields (u.store) (u.key) (u.value) in
      elim (Option-cases (get_lockable_store (u.store))) [
        | inl unknown ↦ inr (x, rw (apply_changes, has_store, unknown) refl, refl)
        | inr (store, known) ↦
            elim (Bool-cases
              (lock_check cmp tree (locks_of store app_store) node_id (u.key) true)) [
                | inr denied ↦
                    inr (x, rw (apply_changes, has_store, known, has_key, denied) refl, refl)
                | inl holds ↦
                    let (x₁, written, base₁, current₁) =
                      write_change_lem engine laws x (store_name store) (u.store) (u.key)
                        (u.value) in
                    elim (Bool-cases (engine.rolls_back x₁)) [
                      | inl failed ↦ inr (
                        x₁,
                        rw (apply_changes, has_store, known, has_key, holds, written, failed) refl,
                        base₁,
                      )
                      | inr fine ↦ elim (apply_changes_lem app_store node_id us x₁) [
                        | inl (x₂, done, permitted, current₂, base₂) ↦ inl (
                          x₂,
                          rw (apply_changes, has_store, known, has_key, holds, written, fine) done,
                          ((store, known, holds), permitted),
                          current₂
                              ∙ ap (write_all us) (
                                  current₁ fine
                                  ∙ ap (λ n. update n (u.key) (u.value) (laws.current x))
                                      (get_lockable_store-name (u.store) store known)),
                          base₂ ∙ base₁,
                        )
                        | inr (x₂, refused, base₂) ↦ inr (
                          x₂,
                          rw (apply_changes, has_store, known, has_key, holds, written, fine)
                              refused,
                          base₂ ∙ base₁,
                        )
                      ]
                    ]
              ]
      ]

  finish_changes_lem :
      (x : X)
      → ((c : C) × (finish_changes engine (applied x) ≡ some (true, c))
          × (laws.view c ≡ laws.current x))
        ⊎ ((c : C) × (finish_changes engine (applied x) ≡ some (false, c))
            × (laws.view c ≡ laws.base x))
  unfolding finish_changes
  finish_changes_lem x =
      let prepared = engine.transaction_prepare x in
      elim (Bool-cases (engine.rolls_back prepared)) [
        | inl failed ↦ inr (
          engine.transaction_rollback prepared,
          rw (finish_changes, failed) refl,
          laws.rollback-view prepared ∙ laws.prepare-base x,
        )
        | inr fine ↦ inl (
          engine.transaction_commit prepared,
          rw (finish_changes, fine) refl,
          laws.commit-view prepared fine ∙ laws.prepare-current x fine,
        )
      ]

  abbrev pub stored : Server C T → List ℕ → View
  stored server app =
      laws.view
        ((ensure_open_application_store cmp tree engine tree_new server app).storage_context)

  stored-set_store :
      (server : Server C T) (app : List ℕ) (old : ApplicationStore C T) (c : C)
      → stored (set_store app (record old { storage_context = c }) server) app ≡ laws.view c
  unfolding ensure_open_application_store
  stored-set_store server app old c =
      rw
        (
          stored,
          ensure_open_application_store,
          find_store-set_store app (record old { storage_context = c }) server,
        )
        refl

  pub dataserver_process_changeset_lem :
      (server : Server C T) (node_id : ℕ) (app : List ℕ) (us : List Update)
      → let app_store = ensure_open_application_store cmp tree engine tree_new server app in
        (server' : Server C T) × (processed : Bool) × (dataserver_process_changeset cmp tree engine
            tree_new server node_id
            (record { app = app; changes = map change_of us })
          ≡ some (server', processed))
        × (processed ≡ true
            → All (IsPermitted app_store node_id) us
              × (stored server' app ≡ write_all us (stored server app)))
        × (processed ≡ false → stored server' app ≡ stored server app)
  unfolding dataserver_process_changeset finish_changes
  dataserver_process_changeset_lem server node_id app us =
      let old = ensure_open_application_store cmp tree engine tree_new server app in
      let begun = engine.transaction_begin (old.storage_context) in
      elim (apply_changes_lem old node_id us begun) [
        | inl (x, done, permitted, current, base) ↦ elim (finish_changes_lem x) [
          | inl (c, finished, now) ↦ (
            set_store app (record old { storage_context = c }) server,
            true,
            rw (dataserver_process_changeset, done, finished) refl,
            λ kept. (
              permitted,
              stored-set_store server app old c
                  ∙ now
                  ∙ current
                  ∙ ap (write_all us) (laws.begin-current (old.storage_context)),
            ),
            λ failed. cc,
          )
          | inr (c, finished, now) ↦ (
            set_store app (record old { storage_context = c }) server,
            false,
            rw (dataserver_process_changeset, done, finished) refl,
            λ kept. cc,
            λ no.
                stored-set_store server app old c
                ∙ now
                ∙ base
                ∙ laws.begin-base (old.storage_context),
          )
        ]
        | inr (x, refused, base) ↦ (
          set_store app (record old { storage_context = engine.transaction_rollback x }) server,
          false,
          rw (dataserver_process_changeset, refused) refl,
          λ kept. cc,
          λ no.
              stored-set_store server app old (engine.transaction_rollback x)
              ∙ laws.rollback-view x
              ∙ base
              ∙ laws.begin-base (old.storage_context),
        )
      ]
