-- ===== src/Data/Objects.antt =====
-- gzochi-server/src/data.c: fetching, marking and removing the object of a reference.
use gnu_gzochi.Base.{ℕ, Bool, true, false, ◌&&◌, Option, none, some, List, if◌then◌else◌}
use gnu_gzochi.Storage.{StorageEngine, deleted, enotfound, etxfailure}
use gnu_gzochi.Data.{
  ReferenceState, state_new, state_empty, state_not_modified, state_maybe_modified, state_modified,
  state_flushed, state_removed_empty, state_removed_fetched, Serialization, Context, Manager,
  error_not_found, error_transaction, error_deserializer, Answer, answer, failed, crashed,
  oids_store, encode_oid, set_reference, mark_for_rollback,
}
use gnu_gzochi.Data.Bindings.{checked}
use gnu_gzochi.Data.References.{register, get_reference_by_ptr}

abbrev pub is_written : ReferenceState → Bool
is_written state_new = true
is_written state_modified = true
is_written state_empty = false
is_written state_not_modified = false
is_written state_maybe_modified = false
is_written state_flushed = false
is_written state_removed_empty = false
is_written state_removed_fetched = false

abbrev pub is_not_modified : ReferenceState → Bool
is_not_modified state_not_modified = true
is_not_modified state_new = false
is_not_modified state_modified = false
is_not_modified state_empty = false
is_not_modified state_maybe_modified = false
is_not_modified state_flushed = false
is_not_modified state_removed_empty = false
is_not_modified state_removed_fetched = false

module _ {C X W : Type 0} (engine : StorageEngine C X) where
  abbrev pub set_state : Manager C X W → ℕ → ReferenceState → Manager C X W
  set_state m address state = record m {
    references =
        set_reference address (record (m.references address) { state = state }) (m.references);
  }

  -- What `gzochid_data_mark` does with the reference of the object.
  abbrev pub mark_found :
      Manager C X W × Context X × Answer ℕ → Manager C X W × Context X × Answer Unit
  mark_found (m, context, failed e) = (m, context, failed e)
  mark_found (m, context, crashed) = (m, context, crashed)
  mark_found (m, context, answer address) =
      if is_written ((m.references address).state)
      then (m, context, answer tt)
      else checked engine (set_state m address state_modified) context
          (engine.transaction_get_for_update (context.transaction) oids_store
            (encode_oid ((m.references address).oid))).0
          (answer tt)

  -- `gzochid_data_mark` in a transaction that has been joined.
  unfoldable pub mark_object :
      Bool
      → Manager C X W
      → Context X
      → Serialization W
      → Option ℕ
      → Manager C X W × Context X × Answer Unit
  mark_object is_transaction_error m context serialization ptr =
      mark_found (get_reference_by_ptr engine is_transaction_error m context ptr serialization)

  -- What `dereference` does when there is no object yet.
  unfoldable pub fetch :
      Manager C X W → Context X → ℕ → Bool → Manager C X W × Context X × Answer Unit
  fetch m context address for_update =
      let reference = m.references address in
      let key = encode_oid (reference.oid) in
      let (transaction, stored) =
        if for_update
        then engine.transaction_get_for_update (context.transaction) oids_store key
        else engine.transaction_get (context.transaction) oids_store key in
      let fetched = record context { transaction = transaction } in
      if engine.rolls_back transaction
      then checked engine m context transaction (answer tt)
      else elim stored [
        | none ↦ (m, fetched, failed error_not_found)
        | some bytes ↦
            let (world, obj, is_error) = reference.serialization.deserializer bytes (m.world) in
            let state =
              if is_error
              then reference.state
              else if for_update
              then state_modified
              else state_not_modified in
            (
              record m {
                world = world;
                references =
                    set_reference address (record reference { obj = obj; state = state })
                      (m.references);
              },
              register fetched (reference.oid) obj address,
              if is_error then failed error_deserializer else answer tt,
            )
      ]

  unfoldable pub dereference :
      Bool → Manager C X W → Context X → ℕ → Bool → Manager C X W × Context X × Answer Unit
  dereference is_transaction_error m context address for_update =
      let reference = m.references address in
      let present =
        if for_update && is_not_modified (reference.state)
        then mark_object is_transaction_error m context (reference.serialization) (reference.obj)
        else (m, context, answer tt) in
      let absent = fetch m context address for_update in
      elim (reference.obj) [
        | some obj ↦ present
        | none ↦ elim (reference.state) [
          | state_removed_empty ↦ present
          | state_new ↦ absent
          | state_modified ↦ absent
          | state_empty ↦ absent
          | state_not_modified ↦ absent
          | state_maybe_modified ↦ absent
          | state_flushed ↦ absent
          | state_removed_fetched ↦ absent
        ]
      ]

  -- The result of `transaction_delete` for the key of a store.
  unfoldable pub delete_key :
      Manager C X W → Context X → List ℕ → List ℕ → Manager C X W × Context X × Answer Unit
  delete_key m context store key =
      let (transaction, status) = engine.transaction_delete (context.transaction) store key in
      let context = record context { transaction = transaction } in
      elim status [
        | deleted ↦ (m, context, answer tt)
        | enotfound ↦ (m, context, failed error_not_found)
        | etxfailure ↦ (
          mark_for_rollback engine m (engine.should_retry transaction),
          context,
          failed error_transaction,
        )
      ]

  unfoldable pub remove_reference :
      Manager C X W → Context X → ℕ → Manager C X W × Context X × Answer Unit
  remove_reference m context address =
      let reference = m.references address in
      let remove : ReferenceState → Manager C X W × Context X × Answer Unit = λ state.
        let (m, context, removed) = delete_key m context oids_store (encode_oid (reference.oid)) in
        (set_state m address state, context, removed) in
      elim (reference.state) [
        | state_empty ↦ remove state_removed_empty
        | state_not_modified ↦ remove state_removed_fetched
        | state_modified ↦ remove state_removed_fetched
        | state_new ↦ (set_state m address state_removed_fetched, context, answer tt)
        | state_maybe_modified ↦ (m, context, answer tt)
        | state_flushed ↦ (m, context, answer tt)
        | state_removed_empty ↦ (m, context, answer tt)
        | state_removed_fetched ↦ (m, context, answer tt)
      ]
