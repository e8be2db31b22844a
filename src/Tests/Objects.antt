-- ===== src/Tests/Objects.antt =====
-- gzochi-server/src/data.c at concrete inputs: an object is serialized as its address.
use mathlib.Core.Option.{some-injective}
use gnu_gzochi.Base.{
  ℕ, subst, ◌<◌, ◌≤◌, ◌+◌, ◌≡◌, inl, inr, refl, true, false, Option, none, some, [], ◌∷◌, arith,
  Bool-cases, ◌==◌,
}
use gnu_gzochi.Storage.{StorageEngine, View, update, deleted}
use gnu_gzochi.DataStores.Writes.{write_all}
use gnu_gzochi.Data.{
  state_empty, state_not_modified, state_modified, Serialization, Reference, Context, Manager,
  answer, oids_store, encode_oid, table_lookup, table_insert, set_reference, reserve_oids, take_oid,
  next_object_id, write_reference, flush_reference, flush_references, data_prepare, data_commit,
  data_rollback,
}
use gnu_gzochi.Data.Bindings.{set_binding, join_transaction}
use gnu_gzochi.Data.References.{create_new_reference, get_reference_by_ptr}
use gnu_gzochi.Data.Objects.{delete_key, mark_object, remove_reference}
use gnu_gzochi.Data.Removed.{mark_object-remove_reference}
use gnu_gzochi.Data.Ops.{bind_object, data_set_binding, data_get_binding}
use gnu_gzochi.Data.Oids.{IsAllocator, IsIncreasing, draw, draw-IsIncreasing}
use gnu_gzochi.Data.Flush.{updates_of}
use gnu_gzochi.Data.Prepare.{data_prepare_lem}
use gnu_gzochi.Data.Bound.{data_get_binding-data_set_binding}
use gnu_gzochi.Tests.Stores.{engine, laws}

abbrev as_address : Serialization Unit
as_address = record {
  serializer = λ obj world. (world, some (obj ∷ []));
  deserializer = λ bytes world. (world, some 1, false);
  finalizer = λ obj world. world;
}

abbrev unused : Reference Unit
unused = record { state = state_empty; serialization = as_address; oid = 0; obj = none }

-- An engine that only allocates oids: a context is the next one, and a block has two.
abbrev counter : StorageEngine ℕ Unit
counter = record {
  initialize = λ app. 0;
  reserve_block = λ c. (c + 2, some (record { block_start = c; block_size = 2 }));
  transaction_begin = λ c. tt;
  transaction_begin_timed = λ c timeout. tt;
  transaction_get = λ x store key. (x, none);
  transaction_get_for_update = λ x store key. (x, none);
  transaction_first_key = λ x store. (x, none);
  transaction_next_key = λ x store key. (x, none);
  transaction_put = λ x store key value. x;
  transaction_delete = λ x store key. (x, deleted);
  transaction_prepare = λ x. x;
  transaction_commit = λ x. 0;
  transaction_rollback = λ x. 0;
  rolls_back = λ x. false;
  should_retry = λ x. false;
}

counter-IsAllocator : IsAllocator counter
counter-IsAllocator = record {
  limit = λ c. c;
  reserved = λ c block e.
      subst (λ b. (0 < b.block_size) × (c ≤ b.block_start) × (b.block_start + b.block_size ≤ c + 2))
        (some-injective _ _ e) (omega arith, omega arith, omega arith);
}

abbrev manager : {C X : Type 0} → C → Option (Context X) → Manager C X Unit
manager c joined = record {
  storage_context = c;
  free_oid_blocks = [];
  tx_context = joined;
  references = λ a. unused;
  next_address = 0;
  world = tt;
  marks = [];
}

abbrev begun : {X : Type 0} → X → Context X
begun x = record {
  free_oids = none;
  used_oid_blocks = [];
  transaction = x;
  oids_to_references = [];
  ptrs_to_references = [];
}

three_drawn : draw counter 3 (manager 5 none) (begun tt) ≡ some (5 ∷ 6 ∷ 7 ∷ [])
unfolding next_object_id take_oid reserve_oids
three_drawn = refl

draw-IsIncreasing_example : IsIncreasing (counter-IsAllocator.limit 5) (5 ∷ 6 ∷ 7 ∷ [])
draw-IsIncreasing_example =
    draw-IsIncreasing counter counter-IsAllocator 3 (manager 5 none) (begun tt) (5 ∷ 6 ∷ 7 ∷ [])
      refl refl three_drawn

abbrev pub nothing : View
nothing = λ store key. none

-- The object at 42 has been modified.
abbrev pub holding : Manager View (View × View) Unit
holding = record (manager nothing none) {
  references =
      λ a. record { state = state_modified; serialization = as_address; oid = 3; obj = some 42 };
}

abbrev pub context : Context (View × View)
context = record (begun (nothing, nothing)) { oids_to_references = (3, 0) ∷ [] }

abbrev prepared : Context (View × View)
prepared = record context {
  transaction = (nothing, update oids_store (encode_oid 3) (some (42 ∷ [])) nothing);
}

holding-prepared : data_prepare engine false holding context ≡ some (holding, prepared, true)
unfolding data_prepare flush_references flush_reference write_reference
holding-prepared = refl

data_prepare_lem_example :
    (laws.view ((data_commit engine holding prepared).storage_context)
      ≡ write_all
          (updates_of (holding.references) (context.oids_to_references) tt)
          (laws.current (context.transaction)))
    × (laws.view ((data_rollback engine holding (some prepared)).storage_context)
        ≡ laws.base (context.transaction))
data_prepare_lem_example =
    data_prepare_lem engine laws false holding holding context prepared holding-prepared

abbrev starting : Manager View (View × View) Unit
starting = manager nothing (some (begun (nothing, nothing)))

name_bound :
    (data_set_binding engine false none starting (97 ∷ []) as_address (some 42)).1 ≡ answer tt
unfolding data_set_binding bind_object join_transaction get_reference_by_ptr create_new_reference
    next_object_id take_oid reserve_oids table_lookup table_insert set_binding
name_bound = refl

data_get_binding-data_set_binding_example :
    (data_get_binding engine false none
      (data_set_binding engine false none starting (97 ∷ []) as_address (some 42)).0
      (97 ∷ [])
      as_address).1
    ≡ answer (some 42)
unfolding data_set_binding bind_object join_transaction get_reference_by_ptr create_new_reference
    next_object_id take_oid reserve_oids table_lookup table_insert set_binding set_reference
data_get_binding-data_set_binding_example =
    data_get_binding-data_set_binding engine laws false none starting (begun (nothing, nothing))
      (97 ∷ []) as_address as_address 42 refl (λ a q. absurd cc) name_bound
      (λ a. elim (Bool-cases (a == 0)) [
        | inl same ↦ rw same (omega arith)
        | inr other ↦ rw other (omega arith)
      ])
      (λ after q. refl)

-- The object at 42 has been read.
abbrev reading : Manager View (View × View) Unit
reading = record (manager nothing none) {
  references = λ a. record {
    state = state_not_modified;
    serialization = as_address;
    oid = 3;
    obj = some 42;
  };
}

abbrev read_context : Context (View × View)
read_context = record context { ptrs_to_references = (some 42, 0) ∷ [] }

mark_object-remove_reference_example :
    flush_reference engine false
      ((mark_object engine false
          (remove_reference engine reading read_context 0).0
          (remove_reference engine reading read_context 0).1
          as_address
          (some 42)).0.references
        0)
      tt
      (nothing, nothing)
    ≡ some (
        write_reference engine false
          (record (reading.references 0) { state = state_modified })
          42
          tt
          (nothing, nothing))
unfolding remove_reference delete_key mark_object get_reference_by_ptr table_lookup set_reference
mark_object-remove_reference_example =
    mark_object-remove_reference engine false reading read_context as_address 42 0 tt
      (nothing, nothing) refl refl refl refl refl
