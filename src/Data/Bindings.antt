-- ===== src/Data/Bindings.antt =====
-- gzochi-server/src/data.c: joining the transaction, and the bindings of names to oids.
use gnu_gzochi.Base.{
  ℕ, Bool, true, ◌||◌, Option, none, some, List, [], ◌∷◌, ◌++◌, if◌then◌else◌, ltb, ◌==◌, length,
}
use gnu_gzochi.Io.{read_long}
use gnu_gzochi.Timeval.{Timeval}
use gnu_gzochi.Storage.{StorageEngine}
use gnu_gzochi.Data.{
  Context, Manager, error_not_found, error_transaction, Answer, answer, failed, crashed,
  names_store, encode_oid, mark_for_rollback,
}

-- The name with its terminator.
abbrev pub binding_key : List ℕ → List ℕ
binding_key name = name ++ 0 ∷ []

unfoldable pub decode_binding : Option (List ℕ) → Answer ℕ
decode_binding none = failed error_not_found
decode_binding (some bytes) = elim (read_long bytes 0) [ none ↦ crashed | some oid ↦ answer oid ]

abbrev pub is_oid : Option (List ℕ) → Bool
is_oid none = true
is_oid (some bytes) = length bytes == 8

module _ {C X W : Type 0} (engine : StorageEngine C X) where
  -- The transaction that an operation of the engine leaves, which must be rolled back if it failed.
  abbrev pub checked :
      {A : Type 0} → Manager C X W → Context X → X → Answer A → Manager C X W × Context X × Answer A
  checked m context transaction result =
      let context = record context { transaction = transaction } in
      if engine.rolls_back transaction
      then (
        mark_for_rollback engine m (engine.should_retry transaction),
        context,
        failed error_transaction,
      )
      else (m, context, result)

  unfoldable pub create_transaction_context : Manager C X W → Option Timeval → Context X
  create_transaction_context m timeout = record {
    free_oids = none;
    used_oid_blocks = [];
    transaction = elim timeout [
      | none ↦ engine.transaction_begin (m.storage_context)
      | some time ↦ engine.transaction_begin_timed (m.storage_context) time
    ];
    oids_to_references = [];
    ptrs_to_references = [];
  }

  -- `remaining` is what `gzochid_transaction_time_remaining` returns, if the transaction is timed.
  unfoldable pub join_transaction :
      Option Timeval → Manager C X W → Manager C X W × Option (Context X)
  join_transaction remaining m = elim (m.tx_context) [
    | some context ↦ (m, some context)
    | none ↦
        let created = create_transaction_context m remaining in
        let joined : Manager C X W × Option (Context X) =
          (record m { tx_context = some created }, some created) in
        elim remaining [
          | none ↦ joined
          | some time ↦
              if ltb 0 (time.tv_sec) || ltb 0 (time.tv_usec)
              then joined
              else (mark_for_rollback engine m true, none)
        ]
  ]

  unfoldable pub get_binding :
      Manager C X W → Context X → List ℕ → Manager C X W × Context X × Answer ℕ
  get_binding m context name =
      let (transaction, bytes) =
        engine.transaction_get (context.transaction) names_store (binding_key name) in
      if is_oid bytes
      then checked m context transaction (decode_binding bytes)
      else (m, record context { transaction = transaction }, crashed)

  unfoldable pub set_binding :
      Manager C X W → Context X → List ℕ → ℕ → Manager C X W × Context X × Answer Unit
  set_binding m context name oid =
      checked m context
        (engine.transaction_put (context.transaction) names_store (binding_key name)
          (encode_oid oid))
        (answer tt)
