-- ===== src/DataStores/Truncated.antt =====
-- gzochi-server/src/data-protocol.c and dataserver.c: what the data server does with a changeset
-- whose message ends early.
use Prim.Native.Nat.{Ordering}
use gnu_gzochi.Base.{
  ℕ, suc, ◌+◌, ◌^◌, ◌<◌, ◌≡◌, refl, false, none, some, List, ◌∷◌, ◌++◌, map, All, replicate, length,
}
use gnu_gzochi.Util.RoundTrip.{HasNoNul}
use gnu_gzochi.DataProtocol.{Change, Changeset}
use gnu_gzochi.DataProtocol.Read.{zeroed, changeset_read}
use gnu_gzochi.DataProtocol.Changes.{Update, IsValid, change_of, message}
use gnu_gzochi.DataProtocol.Changes.RoundTrip.{changeset_read_short}
use gnu_gzochi.Lock.{IntervalTree}
use gnu_gzochi.Storage.{StorageEngine, IsTransactional}
use gnu_gzochi.DataStores.{
  ApplicationStore, Server, ensure_open_application_store, crashed, apply_changes, finish_changes,
}
use gnu_gzochi.DataStores.Server.{dataserver_process_changeset}
use gnu_gzochi.DataStores.Changesets.{IsPermitted}
use gnu_gzochi.DataStores.Accepted.{apply_changes-append}

module _ {C X T : Type 0} (cmp : List ℕ → List ℕ → Ordering) (tree : IntervalTree (List ℕ) T)
    (engine : StorageEngine C X) (tree_new : T) (laws : IsTransactional engine) where
  apply_zeroed :
      (app_store : ApplicationStore C T) (node_id : ℕ) (rest : List Change) (x : X)
      → apply_changes cmp tree engine tree_new app_store node_id (zeroed ∷ rest) x ≡ crashed
  unfolding apply_changes
  apply_zeroed app_store node_id rest x = refl

  -- A message of a changeset whose count promises more changes than it holds makes the data server
  -- follow a null pointer: the message is taken as well formed, and if the node may make the changes
  -- that are there and the storage engine does not fail, the first record that is not there is
  -- dereferenced.
  pub process_changeset_crashes :
      (server : Server C T) (node_id : ℕ) (app : List ℕ) (u : Update) (us : List Update) (more : ℕ)
      → HasNoNul app
      → All IsValid (u ∷ us)
      → length (u ∷ us) + suc more < 2 ^ 15
      → ((y : X) → engine.rolls_back y ≡ false)
      → All
          (IsPermitted cmp tree engine tree_new laws
            (ensure_open_application_store cmp tree engine tree_new server app)
            node_id)
          (u ∷ us)
      → (changeset : Changeset) × (changeset_read
            (message app (length (u ∷ us) + suc more) (u ∷ us))
          ≡ some changeset)
        × (dataserver_process_changeset cmp tree engine tree_new server node_id changeset ≡ none)
  unfolding dataserver_process_changeset finish_changes
  process_changeset_crashes server node_id app u us more named valid fits reliable permitted =
      let app_store = ensure_open_application_store cmp tree engine tree_new server app in
      let (x, applied_all) =
        apply_changes-append cmp tree engine tree_new laws app_store node_id (u ∷ us)
          (replicate (suc more) zeroed) (engine.transaction_begin (app_store.storage_context))
          reliable permitted in
      (
        record { app = app; changes = map change_of (u ∷ us) ++ replicate (suc more) zeroed },
        changeset_read_short app u us (suc more) named valid fits,
        rw
            (
              dataserver_process_changeset,
              applied_all,
              apply_zeroed app_store node_id (replicate more zeroed) x,
            )
            refl,
      )
