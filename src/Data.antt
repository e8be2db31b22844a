-- ===== src/Data.antt =====
-- gzochi-server/src/data.c: the objects of a transaction, which are read from the stores "oids" and
-- "names" when they are first needed and written back when it is prepared. The structures, the tables
-- of references, the allocation of oids, and the participant "data" of the transaction.
pub mod Bindings
pub mod References
pub mod Objects
pub mod Ops
pub mod Oids
pub mod Flush
pub mod Prepare
pub mod Lookups
pub mod Bound
pub mod Removed
pub mod Participant
pub mod Callbacks
pub mod Members
pub mod Commitment
pub mod Ready
pub mod Stored
use gnu_gzochi.Base.{
  ℕ, ◌+◌, ◌-◌, Bool, true, false, not, ◌&&◌, ◌||◌, Option, none, some, List, [], ◌∷◌, ◌++◌,
  if◌then◌else◌, ltb, ◌==◌, replicate, ◌>>=◌,
}
use gnu_gzochi.Io.{write_long}
use gnu_gzochi.DataProtocol.{OidsBlock}
use gnu_gzochi.Storage.{StorageEngine}

pub data ReferenceState : Type 0 where
  state_new state_empty state_not_modified state_maybe_modified : ReferenceState
  state_modified state_flushed state_removed_empty state_removed_fetched : ReferenceState

-- `gzochid_io_serialization`: what an application does with its objects, which are addresses in a
-- world `W`. No bytes are an error of the serializer; the deserializer returns an object, which may be
-- NULL, and whether an error is set.
pub record Serialization (W : Type 0) : Type 0 where
  pub serializer : ℕ → W → W × Option (List ℕ)
  pub deserializer : List ℕ → W → W × Option ℕ × Bool
  pub finalizer : ℕ → W → W

pub record Reference (W : Type 0) : Type 0 where
  pub state : ReferenceState
  pub serialization : Serialization W
  pub oid : ℕ
  pub obj : Option ℕ

pub record OidBlockState : Type 0 where
  pub first : ℕ
  pub next : ℕ
  pub last : ℕ

-- The transaction context. The tables have the addresses of the references.
pub record Context (X : Type 0) : Type 0 where
  pub free_oids : Option OidBlockState
  pub used_oid_blocks : List OidBlockState
  pub transaction : X
  pub oids_to_references : List (ℕ × ℕ)
  pub ptrs_to_references : List (Option ℕ × ℕ)

-- What the functions of data.c read and write: fields of the application context, the context of the
-- participant "data" in the current transaction, the memory of the references, the world of the
-- objects, and the calls of `gzochid_transaction_mark_for_rollback`, newest first.
pub record Manager (C X W : Type 0) : Type 0 where
  pub storage_context : C
  pub free_oid_blocks : List OidBlockState
  pub tx_context : Option (Context X)
  pub references : ℕ → Reference W
  pub next_address : ℕ
  pub world : W
  pub marks : List Bool

-- `GzochidDataError`, and whatever error a deserializer sets.
pub data DataError : Type 0 where
  error_not_found error_transaction error_failed error_deserializer : DataError

-- A result, an error that is set, or a failed assertion.
pub data Answer (A : Type 0) : Type 0 where
  answer : A → Answer A
  failed : DataError → Answer A
  crashed : Answer A

abbrev pub oids_store : List ℕ
oids_store = 111 ∷ 105 ∷ 100 ∷ 115 ∷ []

abbrev pub names_store : List ℕ
names_store = 110 ∷ 97 ∷ 109 ∷ 101 ∷ 115 ∷ []

-- `gzochid_util_encode_oid`, as bytes.
abbrev pub encode_oid : ℕ → List ℕ
encode_oid oid = write_long oid (replicate 8 0) 0

abbrev pub ptr_equal : Option ℕ → Option ℕ → Bool
ptr_equal none none = true
ptr_equal none (some b) = false
ptr_equal (some a) none = false
ptr_equal (some a) (some b) = a == b

-- GLib's tables, in the order of their iterator.
module _ {K : Type 0} (equal : K → K → Bool) where
  unfoldable pub table_lookup : K → List (K × ℕ) → Option ℕ
  table_lookup key [] = none
  table_lookup key ((k, v) ∷ table) =
      let later = table_lookup key table in if equal k key then some v else later

  unfoldable pub table_insert : K → ℕ → List (K × ℕ) → List (K × ℕ)
  table_insert key value [] = (key, value) ∷ []
  table_insert key value ((k, v) ∷ table) =
      let later = table_insert key value table in
      if equal k key then (k, value) ∷ table else (k, v) ∷ later

-- An assignment to the fields of the reference at an address.
unfoldable pub set_reference : {W : Type 0} → ℕ → Reference W → (ℕ → Reference W) → ℕ → Reference W
set_reference address reference references = λ a. if a == address then reference else references a

abbrev pub create_oid_block_state : OidsBlock → OidBlockState
create_oid_block_state block = record {
  first = block.block_start;
  next = block.block_start;
  last = block.block_start + block.block_size - 1;
}

module _ {C X W : Type 0} (engine : StorageEngine C X) where
  abbrev pub mark_for_rollback : Manager C X W → Bool → Manager C X W
  mark_for_rollback m retry = record m { marks = retry ∷ m.marks }

  -- `is_transaction_error` says of a failure to reserve a block whether it may be retried.
  unfoldable pub reserve_oids : Bool → Manager C X W → Manager C X W × Option OidBlockState
  reserve_oids is_transaction_error m = elim (m.free_oid_blocks) [
    | block ∷ blocks ↦ (record m { free_oid_blocks = blocks }, some block)
    | [] ↦
        let (context, reserved) = engine.reserve_block (m.storage_context) in
        let m = record m { storage_context = context } in
        elim reserved [
          | some block ↦ (m, some (create_oid_block_state block))
          | none ↦ (mark_for_rollback m is_transaction_error, none)
        ]
  ]

  -- An oid of the block is used, and the next block is reserved when it was the last.
  unfoldable pub take_oid :
      Bool → Manager C X W → Context X → OidBlockState → Manager C X W × Context X × Answer ℕ
  take_oid is_transaction_error m context block =
      let taken = record block { next = block.next + 1 } in
      if ltb (block.last) (block.next + 1)
      then (let (m, free_oids) = reserve_oids is_transaction_error m in
          let context = record context {
            used_oid_blocks = context.used_oid_blocks ++ taken ∷ [];
            free_oids = free_oids;
          } in
          elim free_oids [
            | none ↦ (m, context, failed error_transaction)
            | some b ↦ (m, context, answer (block.next))
          ])
      else (m, record context { free_oids = some taken }, answer (block.next))

  unfoldable pub next_object_id :
      Bool → Manager C X W → Context X → Manager C X W × Context X × Answer ℕ
  next_object_id is_transaction_error m context = elim (context.free_oids) [
    | some block ↦ take_oid is_transaction_error m context block
    | none ↦
        let (m, free_oids) = reserve_oids is_transaction_error m in
        let context = record context { free_oids = free_oids } in
        elim free_oids [
          | none ↦ (m, context, failed error_transaction)
          | some block ↦ take_oid is_transaction_error m context block
        ]
  ]

  -- The bytes of a new or modified reference, put into the store.
  unfoldable pub write_reference : Bool → Reference W → ℕ → W → X → W × X × Bool
  write_reference is_rollback_only reference obj world transaction =
      let (world, out) = reference.serialization.serializer obj world in
      elim out [
        | none ↦ (world, transaction, false)
        | some bytes ↦
            if is_rollback_only
            then (world, transaction, false)
            else let transaction =
                engine.transaction_put transaction oids_store (encode_oid (reference.oid)) bytes in
              (world, transaction, not (engine.rolls_back transaction))
      ]

  -- `none` is a failed assertion.
  unfoldable pub flush_reference : Bool → Reference W → W → X → Option (W × X × Bool)
  flush_reference is_rollback_only reference world transaction =
      let write : Option (W × X × Bool) = elim (reference.obj) [
        | none ↦ none
        | some obj ↦ some (write_reference is_rollback_only reference obj world transaction)
      ] in
      elim (reference.state) [
        | state_empty ↦ some (world, transaction, true)
        | state_removed_empty ↦ some (world, transaction, true)
        | state_new ↦ write
        | state_modified ↦ write
        | state_removed_fetched ↦ some (world, transaction, true)
        | state_not_modified ↦ some (world, transaction, true)
        | state_maybe_modified ↦ none
        | state_flushed ↦ none
      ]

  unfoldable pub flush_references :
      Bool → (ℕ → Reference W) → List (ℕ × ℕ) → W → X → Option (W × X × Bool)
  flush_references is_rollback_only references [] world transaction =
      some (world, transaction, true)
  flush_references is_rollback_only references ((oid, address) ∷ table) world transaction = do
    (world, transaction, flushed) ←
        flush_reference is_rollback_only (references address) world transaction
    let rest = flush_references is_rollback_only references table world transaction
    if flushed then rest else some (world, transaction, false)

  -- `is_rollback_only` is what `gzochid_transaction_rollback_only` returns.
  unfoldable pub data_prepare :
      Bool → Manager C X W → Context X → Option (Manager C X W × Context X × Bool)
  data_prepare is_rollback_only m context = do
    (world, transaction, flushed) ←
        flush_references is_rollback_only (m.references) (context.oids_to_references) (m.world)
          (context.transaction)
    let m = record m { world = world }
    let prepared = engine.transaction_prepare transaction
    some (
        if flushed
        then (m, record context { transaction = prepared }, not (engine.rolls_back prepared))
        else (m, record context { transaction = transaction }, false))

  unfoldable pub finalize_references : (ℕ → Reference W) → List (ℕ × ℕ) → W → W
  finalize_references references [] world = world
  finalize_references references ((oid, address) ∷ table) world =
      finalize_references references table (elim ((references address).obj) [
        | none ↦ world
        | some obj ↦ (references address).serialization.finalizer obj world
      ])

  unfoldable pub data_commit : Manager C X W → Context X → Manager C X W
  data_commit m context = record m {
    storage_context = engine.transaction_commit (context.transaction);
    world = finalize_references (m.references) (context.oids_to_references) (m.world);
    tx_context = none;
  }

  unfoldable pub data_rollback : Manager C X W → Option (Context X) → Manager C X W
  data_rollback m none = m
  data_rollback m (some context) = record m {
    storage_context = engine.transaction_rollback (context.transaction);
    world = finalize_references (m.references) (context.oids_to_references) (m.world);
    tx_context = none;
  }
