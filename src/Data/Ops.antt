-- ===== src/Data/Ops.antt =====
-- gzochi-server/src/data.c: the operations, each of which joins the transaction first.
use gnu_gzochi.Base.{ℕ, Bool, true, false, Option, none, some, List, if◌then◌else◌}
use gnu_gzochi.Util.{c_string}
use gnu_gzochi.Timeval.{Timeval}
use gnu_gzochi.Storage.{StorageEngine}
use gnu_gzochi.Data.{
  Serialization, Context, Manager, error_not_found, error_transaction, error_failed,
  error_deserializer, Answer, answer, failed, crashed, names_store, mark_for_rollback,
}
use gnu_gzochi.Data.Bindings.{join_transaction, binding_key, get_binding, set_binding}
use gnu_gzochi.Data.References.{
  allocate, empty_reference, get_reference_by_oid, get_reference_by_ptr,
}
use gnu_gzochi.Data.Objects.{mark_object, dereference, delete_key, remove_reference}

-- `remaining` is what `gzochid_transaction_time_remaining` returns, if the transaction is timed;
-- `is_transaction_error` says of a failure to reserve oids whether it may be retried.
module _ {C X W : Type 0} (engine : StorageEngine C X) (is_transaction_error : Bool)
    (remaining : Option Timeval) where
  -- An operation on the context that joining the transaction gives.
  abbrev pub run_joined :
      {A : Type 0}
      → (Manager C X W → Context X → Manager C X W × Context X × Answer A)
      → Manager C X W × Option (Context X)
      → Manager C X W × Answer A
  run_joined operation (m, none) = (m, failed error_transaction)
  run_joined operation (m, some context) =
      let (m, context, result) = operation m context in
      (record m { tx_context = some context }, result)

  abbrev pub joining :
      {A : Type 0}
      → Manager C X W
      → (Manager C X W → Context X → Manager C X W × Context X × Answer A)
      → Manager C X W × Answer A
  joining m operation = run_joined operation (join_transaction engine remaining m)

  -- The object of the reference, once an operation on it has succeeded.
  abbrev pub object_of :
      ℕ → Manager C X W × Context X × Answer Unit → Manager C X W × Context X × Answer (Option ℕ)
  object_of address (m, context, failed e) = (m, context, failed e)
  object_of address (m, context, crashed) = (m, context, crashed)
  object_of address (m, context, answer u) = (m, context, answer ((m.references address).obj))

  -- The object of the oid that a name is bound to.
  abbrev pub fetch_oid :
      Serialization W
      → Manager C X W × Context X × Answer ℕ
      → Manager C X W × Context X × Answer (Option ℕ)
  fetch_oid serialization (m, context, failed e) = (m, context, failed e)
  fetch_oid serialization (m, context, crashed) = (m, context, crashed)
  fetch_oid serialization (m, context, answer oid) =
      let (m, context, address) = get_reference_by_oid engine m context oid serialization in
      object_of address (dereference engine is_transaction_error m context address false)

  unfoldable pub data_get_binding :
      Manager C X W → List ℕ → Serialization W → Manager C X W × Answer (Option ℕ)
  data_get_binding m name serialization =
      joining m (λ m context. fetch_oid serialization (get_binding engine m context name))

  unfoldable pub data_set_binding_to_oid : Manager C X W → List ℕ → ℕ → Manager C X W × Answer Unit
  data_set_binding_to_oid m name oid =
      joining m (λ m context. set_binding engine m context name oid)

  -- The next name, with its terminator, and its oid.
  unfoldable pub data_next_binding_oid :
      Manager C X W → List ℕ → Manager C X W × Answer (Option (List ℕ × ℕ))
  data_next_binding_oid m key = joining m (λ m context.
      let (transaction, next_key) =
        engine.transaction_next_key (context.transaction) names_store (binding_key key) in
      let context = record context { transaction = transaction } in
      let m =
        if engine.rolls_back transaction
        then mark_for_rollback engine m (engine.should_retry transaction)
        else m in
      elim next_key [
        | none ↦ (m, context, answer none)
        | some next ↦
            let (m, context, bound) = get_binding engine m context (c_string next) in
            elim bound [
              | failed e ↦ (m, context, failed e)
              | crashed ↦ (m, context, crashed)
              | answer oid ↦ (m, context, answer (some (next, oid)))
            ]
      ])

  unfoldable pub bind_object :
      List ℕ
      → Serialization W
      → Option ℕ
      → Manager C X W
      → Context X
      → Manager C X W × Context X × Answer Unit
  bind_object name serialization ptr m context =
      let (m, context, found) =
        get_reference_by_ptr engine is_transaction_error m context ptr serialization in
      elim found [
        | failed e ↦ (m, context, failed e)
        | crashed ↦ (m, context, crashed)
        | answer address ↦ set_binding engine m context name ((m.references address).oid)
      ]

  unfoldable pub data_set_binding :
      Manager C X W → List ℕ → Serialization W → Option ℕ → Manager C X W × Answer Unit
  data_set_binding m name serialization ptr = joining m (bind_object name serialization ptr)

  unfoldable pub data_remove_binding : Manager C X W → List ℕ → Manager C X W × Answer Unit
  data_remove_binding m name =
      joining m (λ m context. delete_key engine m context names_store (binding_key name))

  -- Whether the name is bound; that it is not is no error.
  abbrev exists : Manager C X W × Context X × Answer ℕ → Manager C X W × Context X × Answer Bool
  exists (m, context, answer oid) = (m, context, answer true)
  exists (m, context, crashed) = (m, context, crashed)
  exists (m, context, failed e) = elim e [
    | error_not_found ↦ (m, context, answer false)
    | error_transaction ↦ (m, context, failed error_transaction)
    | error_failed ↦ (m, context, failed error_failed)
    | error_deserializer ↦ (m, context, failed error_deserializer)
  ]

  unfoldable pub data_binding_exists : Manager C X W → List ℕ → Manager C X W × Answer Bool
  data_binding_exists m name = joining m (λ m context. exists (get_binding engine m context name))

  unfoldable pub data_create_reference :
      Manager C X W → Serialization W → Option ℕ → Manager C X W × Answer ℕ
  data_create_reference m serialization ptr =
      joining m
        (λ m context. get_reference_by_ptr engine is_transaction_error m context ptr serialization)

  -- An error of joining is dropped, and the reference is in no table then.
  unfoldable pub data_create_reference_to_oid :
      Manager C X W → Serialization W → ℕ → Manager C X W × ℕ
  data_create_reference_to_oid m serialization oid =
      let (m, joined) = join_transaction engine remaining m in
      elim joined [
        | none ↦ (allocate engine m (empty_reference engine oid serialization), m.next_address)
        | some context ↦
            let (m, context, address) = get_reference_by_oid engine m context oid serialization in
            (record m { tx_context = some context }, address)
      ]

  unfoldable pub data_dereference : Manager C X W → ℕ → Manager C X W × Answer (Option ℕ)
  data_dereference m address = joining m (λ m context.
      object_of address (dereference engine is_transaction_error m context address false))

  unfoldable pub data_dereference_for_update : Manager C X W → ℕ → Manager C X W × Answer (Option ℕ)
  data_dereference_for_update m address = joining m (λ m context.
      object_of address (dereference engine is_transaction_error m context address true))

  unfoldable pub data_remove_object : Manager C X W → ℕ → Manager C X W × Answer Unit
  data_remove_object m address = joining m (λ m context. remove_reference engine m context address)

  unfoldable pub data_mark :
      Manager C X W → Serialization W → Option ℕ → Manager C X W × Answer Unit
  data_mark m serialization ptr =
      joining m (λ m context. mark_object engine is_transaction_error m context serialization ptr)
