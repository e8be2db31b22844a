-- ===== src/Data/Bound.antt =====
-- gzochi-server/src/data.c: the object that is bound to a name.
use mathlib.Core.List.{append-nil}
use gnu_gzochi.Base.{
  ℕ, ◌^◌, ◌<◌, ◌≡◌, refl, sym, ap, ◌∙◌, Bool, true, false, Option, some, List, [], ◌==◌, length,
  subst, str_equal_refl,
}
use gnu_gzochi.Io.{read_long}
use gnu_gzochi.Io.RoundTrip.{long_bytes, write_long_lem, read_long_lem}
use gnu_gzochi.Timeval.{Timeval}
use gnu_gzochi.Storage.{StorageEngine, IsTransactional}
use gnu_gzochi.Data.{
  Serialization, Context, Manager, Answer, answer, failed, crashed, encode_oid, names_store,
  table_lookup,
}
use gnu_gzochi.Data.Bindings.{
  binding_key, decode_binding, get_binding, set_binding, join_transaction, is_oid,
}
use gnu_gzochi.Data.References.{get_reference_by_ptr}
use gnu_gzochi.Data.Objects.{dereference}
use gnu_gzochi.Data.Ops.{
  run_joined, joining, object_of, bind_object, fetch_oid, data_set_binding, data_get_binding,
}
use gnu_gzochi.Data.Lookups.{
  IsManaged, checked_lem, get_reference_by_ptr_lem, get_reference_by_oid_lem, dereference_lem,
}

encode_oid_bytes : (oid : ℕ) → encode_oid oid ≡ long_bytes oid
encode_oid_bytes oid = write_long_lem oid [] 0 0 0 0 0 0 0 0 [] ∙ append-nil (long_bytes oid)

decode_binding_lem : (oid : ℕ) → oid < 2 ^ 64 → decode_binding (some (encode_oid oid)) ≡ answer oid
unfolding decode_binding
decode_binding_lem oid fits =
    let read : read_long (encode_oid oid) 0 ≡ some oid =
      ap (λ b. read_long b 0) (encode_oid_bytes oid ∙ sym (append-nil (long_bytes oid)))
      ∙ read_long_lem oid [] [] fits in
    rw (decode_binding, read) refl

module _ {C X : Type 0} (engine : StorageEngine C X) (laws : IsTransactional engine) where
  set_binding-current :
      (x : X) (name : List ℕ) (oid : ℕ)
      → let put = engine.transaction_put x names_store (binding_key name) (encode_oid oid) in
        engine.rolls_back put ≡ false
        → laws.current put names_store (binding_key name) ≡ some (encode_oid oid)
  set_binding-current x name oid fine =
      ap (λ v. v names_store (binding_key name))
        (laws.put-current x names_store (binding_key name) (encode_oid oid) fine)
      ∙ rw (str_equal_refl names_store, str_equal_refl (binding_key name)) refl

module _ {C X W : Type 0} (engine : StorageEngine C X) (laws : IsTransactional engine) where
  -- What a transaction has for the name after a binding.
  get_binding_lem :
      (m : Manager C X W) (context : Context X) (name : List ℕ) (oid : ℕ)
      → oid < 2 ^ 64
      → laws.current (context.transaction) names_store (binding_key name) ≡ some (encode_oid oid)
      → engine.rolls_back
          (engine.transaction_get (context.transaction) names_store (binding_key name)).0
        ≡ false
      → get_binding engine m context name ≡ (
        m,
        record context {
          transaction =
              (engine.transaction_get (context.transaction) names_store (binding_key name)).0;
        },
        answer oid,
      )
  unfolding get_binding
  get_binding_lem m context name oid fits stored fine =
      let found =
        laws.get-value (context.transaction) names_store (binding_key name) fine ∙ stored in
      let eight : is_oid (some (encode_oid oid)) ≡ true =
        ap (λ b. length b == 8) (encode_oid_bytes oid) in
      rw (get_binding, found, eight, fine, decode_binding_lem oid fits) refl

  join_transaction_lem :
      (remaining : Option Timeval) (m : Manager C X W) (context : Context X)
      → m.tx_context ≡ some context
      → join_transaction engine remaining m ≡ (m, some context)
  unfolding join_transaction
  join_transaction_lem remaining m context joined = simp (join_transaction, joined) refl

  joining_lem :
      {A : Type 0} (is_transaction_error : Bool) (remaining : Option Timeval) (m : Manager C X W)
      (context : Context X)
      (operation : Manager C X W → Context X → Manager C X W × Context X × Answer A)
      → m.tx_context ≡ some context
      → joining engine is_transaction_error remaining m operation ≡ (
        record (operation m context).0 { tx_context = some (operation m context).1 },
        (operation m context).2,
      )
  joining_lem is_transaction_error remaining m context operation joined =
      ap (run_joined engine is_transaction_error remaining operation)
        (join_transaction_lem remaining m context joined)

  -- A binding that succeeds has found the object's reference and put its oid.
  bind_object_lem :
      (is_transaction_error : Bool) (remaining : Option Timeval) (m : Manager C X W)
      (context : Context X) (name : List ℕ) (s : Serialization W) (obj : ℕ)
      → let binding =
          bind_object engine is_transaction_error remaining name s (some obj) m context in
        let getting = get_reference_by_ptr engine is_transaction_error m context (some obj) s in
        binding.2 ≡ answer tt
        → (a : ℕ) × (getting.2 ≡ answer a)
          × (let put =
                engine.transaction_put
                  (getting.1.transaction)
                  names_store
                  (binding_key name)
                  (encode_oid ((getting.0.references a).oid)) in
              (engine.rolls_back put ≡ false)
              × (binding.0 ≡ getting.0)
              × (binding.1 ≡ record getting.1 { transaction = put }))
  unfolding bind_object set_binding
  bind_object_lem is_transaction_error remaining m context name s obj set =
      let getting = get_reference_by_ptr engine is_transaction_error m context (some obj) s in
      let binding = bind_object engine is_transaction_error remaining name s (some obj) m context in
      elim getting.2
          as (λ r.
            getting.2 ≡ r
            → (a : ℕ) × (getting.2 ≡ answer a)
              × (let put =
                    engine.transaction_put (getting.1.transaction) names_store (binding_key name)
                      (encode_oid ((getting.0.references a).oid)) in
                  (engine.rolls_back put ≡ false)
                  × (binding.0 ≡ getting.0)
                  × (binding.1 ≡ record getting.1 { transaction = put }))) [
                    | failed error ↦ λ q. let h = rw (bind_object, q) at set in cc
                    | crashed ↦ λ q. let h = rw (bind_object, q) at set in cc
                    | answer a ↦ λ q.
                        let h = rw (bind_object, q) at set in
                        let (fine, _) = checked_lem engine getting.0 getting.1 _ (answer tt) tt h in
                        (
                          a,
                          q,
                          (fine, rw (bind_object, q, fine) refl, rw (bind_object, q, fine) refl),
                        )
                  ]
        refl

  fetch_oid_lem :
      (is_transaction_error : Bool) (remaining : Option Timeval) (m : Manager C X W)
      (context : Context X) (name : List ℕ) (s : Serialization W) (obj a : ℕ)
      → (m.references a).oid < 2 ^ 64
      → (m.references a).obj ≡ some obj
      → table_lookup (λ a b. a == b) ((m.references a).oid) (context.oids_to_references) ≡ some a
      → laws.current (context.transaction) names_store (binding_key name)
        ≡ some (encode_oid ((m.references a).oid))
      → engine.rolls_back
          (engine.transaction_get (context.transaction) names_store (binding_key name)).0
        ≡ false
      → (fetch_oid engine is_transaction_error remaining s (get_binding engine m context name)).2
        ≡ answer (some obj)
  fetch_oid_lem is_transaction_error remaining m context name s obj a fits has by_oid stored fine =
      let after = record context {
        transaction =
            (engine.transaction_get (context.transaction) names_store (binding_key name)).0;
      } in
      ap (λ p. (fetch_oid engine is_transaction_error remaining s p).2)
        (get_binding_lem m context name ((m.references a).oid) fits stored fine)
      ∙ ap
          (λ p.
            (object_of engine is_transaction_error remaining p.2
              (dereference engine is_transaction_error p.0 p.1 p.2 false)).2)
          (get_reference_by_oid_lem engine m after ((m.references a).oid) a s by_oid)
      ∙ ap (λ p. (object_of engine is_transaction_error remaining a p).2)
          (dereference_lem engine is_transaction_error m after a obj has)
      ∙ ap answer has

  -- An object that has been bound to a name is what a lookup of the name finds in the same
  -- transaction: the object itself, not another that is read from the storage, whatever
  -- serialization the lookup names. This needs that the lookup does not fail, that the object's
  -- reference, if it has one, is in both tables, and that oids are below 2 ^ 64.
  pub data_get_binding-data_set_binding :
      (is_transaction_error : Bool) (remaining : Option Timeval) (m : Manager C X W)
      (context : Context X) (name : List ℕ) (s s' : Serialization W) (obj : ℕ)
      → let setting = data_set_binding engine is_transaction_error remaining m name s (some obj) in
        m.tx_context ≡ some context
        → IsManaged engine m context obj
        → setting.1 ≡ answer tt
        → ((a : ℕ) → (setting.0.references a).oid < 2 ^ 64)
        → ((after : Context X)
            → setting.0.tx_context ≡ some after
            → engine.rolls_back
                (engine.transaction_get (after.transaction) names_store (binding_key name)).0
              ≡ false)
        → (data_get_binding engine is_transaction_error remaining setting.0 name s').1
          ≡ answer (some obj)
  unfolding data_set_binding data_get_binding
  data_get_binding-data_set_binding is_transaction_error remaining m context name s s' obj joined
        managed set fits reads =
      let getting = get_reference_by_ptr engine is_transaction_error m context (some obj) s in
      let binding = bind_object engine is_transaction_error remaining name s (some obj) m context in
      let binds =
        joining_lem is_transaction_error remaining m context
          (bind_object engine is_transaction_error remaining name s (some obj)) joined in
      let (a, found, (fine, same_m, same_context)) =
        bind_object_lem is_transaction_error remaining m context name s obj
          (sym (ap (λ p. p.1) binds) ∙ set) in
      let (by_oid, has) =
        get_reference_by_ptr_lem engine is_transaction_error m context obj s a managed found in
      let oid = (getting.0.references a).oid in
      let after : Context X = record getting.1 {
        transaction =
            engine.transaction_put (getting.1.transaction) names_store (binding_key name)
              (encode_oid oid);
      } in
      let bound : Manager C X W = record getting.0 { tx_context = some after } in
      let same =
        ap (λ p. p.0) binds
        ∙ ap {B = Manager C X W} (λ b. record b { tx_context = some binding.1 }) same_m
        ∙ ap {B = Manager C X W} (λ c. record getting.0 { tx_context = some c }) same_context in
      let fetches =
        joining_lem is_transaction_error remaining bound after
          (λ m context.
            fetch_oid engine is_transaction_error remaining s' (get_binding engine m context name))
          refl in
      ap (λ n. (data_get_binding engine is_transaction_error remaining n name s').1) same
      ∙ ap (λ p. p.1) fetches
      ∙ fetch_oid_lem is_transaction_error remaining bound after name s' obj a
          (subst (λ n. (n.references a).oid < 2 ^ 64) same (fits a)) has by_oid
          (set_binding-current engine laws (getting.1.transaction) name oid fine)
          (reads after (ap (λ n. n.tx_context) same))
