-- ===== src/Data/References.antt =====
-- gzochi-server/src/data.c: the references of a transaction, by oid and by object.
use gnu_gzochi.Base.{ℕ, ◌+◌, Bool, Option, none, some, if◌then◌else◌, ◌==◌}
use gnu_gzochi.Storage.{StorageEngine}
use gnu_gzochi.Data.{
  state_new, state_empty, Serialization, Reference, Context, Manager, error_transaction, Answer,
  answer, failed, crashed, oids_store, encode_oid, ptr_equal, table_lookup, table_insert,
  set_reference, next_object_id,
}
use gnu_gzochi.Data.Bindings.{checked}

-- A reference under the keys of both tables.
abbrev pub register : {X : Type 0} → Context X → ℕ → Option ℕ → ℕ → Context X
register context oid ptr address = record context {
  oids_to_references = table_insert (λ a b. a == b) oid address (context.oids_to_references);
  ptrs_to_references = table_insert ptr_equal ptr address (context.ptrs_to_references);
}

module _ {C X W : Type 0} (engine : StorageEngine C X) where
  -- A reference at a new address.
  abbrev pub allocate : Manager C X W → Reference W → Manager C X W
  allocate m reference = record m {
    references = set_reference (m.next_address) reference (m.references);
    next_address = m.next_address + 1;
  }

  abbrev pub empty_reference : ℕ → Serialization W → Reference W
  empty_reference oid serialization = record {
    state = state_empty;
    serialization = serialization;
    oid = oid;
    obj = none;
  }

  unfoldable pub create_new_reference :
      Bool
      → Manager C X W
      → Context X
      → Option ℕ
      → Serialization W
      → Manager C X W × Context X × Answer ℕ
  create_new_reference is_transaction_error m context ptr serialization =
      let (m, context, drawn) = next_object_id engine is_transaction_error m context in
      elim drawn [
        | failed e ↦ (m, context, failed e)
        | crashed ↦ (m, context, crashed)
        | answer oid ↦
            let reference : Reference W = record {
              state = state_new;
              serialization = serialization;
              oid = oid;
              obj = ptr;
            } in
            let locked =
              (engine.transaction_get_for_update (context.transaction) oids_store
                (encode_oid oid)).0 in
            let address = m.next_address in
            if engine.rolls_back (context.transaction)
            then (m, context, failed error_transaction)
            else if engine.rolls_back locked
            then checked engine m context locked (answer address)
            else checked engine (allocate m reference) context locked (answer address)
      ]

  unfoldable pub get_reference_by_oid :
      Manager C X W → Context X → ℕ → Serialization W → Manager C X W × Context X × ℕ
  get_reference_by_oid m context oid serialization =
      elim (table_lookup (λ a b. a == b) oid (context.oids_to_references)) [
        | some address ↦ (m, context, address)
        | none ↦ (
          allocate m (empty_reference oid serialization),
          record context {
            oids_to_references =
                table_insert (λ a b. a == b) oid (m.next_address) (context.oids_to_references);
          },
          m.next_address,
        )
      ]

  unfoldable pub get_reference_by_ptr :
      Bool
      → Manager C X W
      → Context X
      → Option ℕ
      → Serialization W
      → Manager C X W × Context X × Answer ℕ
  get_reference_by_ptr is_transaction_error m context ptr serialization =
      elim (table_lookup ptr_equal ptr (context.ptrs_to_references)) [
        | some address ↦ (m, context, answer address)
        | none ↦
            let (m, context, created) =
              create_new_reference is_transaction_error m context ptr serialization in
            elim created [
              | failed e ↦ (m, context, failed e)
              | crashed ↦ (m, context, crashed)
              | answer address ↦
                  (m, register context ((m.references address).oid) ptr address, answer address)
            ]
      ]
