-- ===== src/Data/Lookups.antt =====
-- gzochi-server/src/data.c: looking up references in the tables of a transaction.
use gnu_gzochi.Base.{
  ℕ, ◌≡◌, inl, inr, refl, ap, ◌∙◌, Bool, false, Option, some, List, [], ◌∷◌, ◌==◌, ==_refl,
  Option-cases, Bool-cases, subst,
}
use gnu_gzochi.Storage.{StorageEngine}
use gnu_gzochi.Data.{
  Serialization, Context, Manager, Answer, answer, failed, crashed, encode_oid, oids_store,
  ptr_equal, table_lookup, table_insert, set_reference, next_object_id,
}
use gnu_gzochi.Data.Bindings.{checked}
use gnu_gzochi.Data.References.{create_new_reference, get_reference_by_oid, get_reference_by_ptr}
use gnu_gzochi.Data.Objects.{dereference}

table_lookup-table_insert :
    (oid address : ℕ) (table : List (ℕ × ℕ))
    → table_lookup (λ a b. a == b) oid (table_insert (λ a b. a == b) oid address table)
      ≡ some address
unfolding table_lookup table_insert
table_lookup-table_insert oid address [] = rw (==_refl oid) refl
table_lookup-table_insert oid address ((k, v) ∷ table) = elim (Bool-cases (k == oid)) [
  | inl same ↦ rw (table_insert, same, table_lookup, same) refl
  | inr other ↦
      rw (table_insert, other, table_lookup, other) (table_lookup-table_insert oid address table)
]

module _ {C X W : Type 0} (engine : StorageEngine C X) where
  -- The reference of an object, if it has one, is under its oid too.
  abbrev pub IsManaged : Manager C X W → Context X → ℕ → Type 0
  IsManaged m context obj =
      (a : ℕ)
      → table_lookup ptr_equal (some obj) (context.ptrs_to_references) ≡ some a
      → (table_lookup (λ a b. a == b) ((m.references a).oid) (context.oids_to_references) ≡ some a)
        × ((m.references a).obj ≡ some obj)

  pub checked_lem :
      {A : Type 0} (m : Manager C X W) (context : Context X) (x : X) (result : Answer A) (a : A)
      → (checked engine m context x result).2 ≡ answer a
      → (engine.rolls_back x ≡ false) × (result ≡ answer a)
  checked_lem m context x result a e = elim (Bool-cases (engine.rolls_back x)) [
    | inl rolled ↦ let h = rw rolled at e in cc
    | inr fine ↦ (fine, rw fine at e)
  ]

  create_new_reference-obj :
      (is_transaction_error : Bool) (m : Manager C X W) (context : Context X) (ptr : Option ℕ)
      (s : Serialization W) (a : ℕ)
      → let creating = create_new_reference engine is_transaction_error m context ptr s in
        creating.2 ≡ answer a → (creating.0.references a).obj ≡ ptr
  unfolding create_new_reference set_reference
  create_new_reference-obj is_transaction_error m context ptr s a e =
      let drawing = next_object_id engine is_transaction_error m context in
      elim drawing.2
          as (λ r.
            drawing.2 ≡ r
            → ((create_new_reference engine is_transaction_error m context ptr s).0.references
                a).obj
              ≡ ptr) [
                | failed error ↦ λ drawn. let h = rw (create_new_reference, drawn) at e in cc
                | crashed ↦ λ drawn. let h = rw (create_new_reference, drawn) at e in cc
                | answer oid ↦ λ drawn.
                    let locked =
                      (engine.transaction_get_for_update (drawing.1.transaction) oids_store
                        (encode_oid oid)).0 in
                    elim (Bool-cases (engine.rolls_back (drawing.1.transaction))) [
                      | inl rolled ↦ let h = rw (create_new_reference, drawn, rolled) at e in cc
                      | inr begun ↦ elim (Bool-cases (engine.rolls_back locked)) [
                        | inl refused ↦
                            let h = rw (create_new_reference, drawn, begun, refused) at e in cc
                        | inr fine ↦
                            let h = rw (create_new_reference, drawn, begun, fine) at e in
                            let here : drawing.0.next_address ≡ a = cc in
                            rw
                              (
                                create_new_reference,
                                drawn,
                                begun,
                                fine,
                                ← here,
                                ==_refl (drawing.0.next_address),
                              )
                              refl
                      ]
                    ]
              ]
        refl

  pub get_reference_by_ptr_lem :
      (is_transaction_error : Bool) (m : Manager C X W) (context : Context X) (obj : ℕ)
      (s : Serialization W) (a : ℕ)
      → IsManaged m context obj
      → let getting = get_reference_by_ptr engine is_transaction_error m context (some obj) s in
        getting.2 ≡ answer a
        → (table_lookup
              (λ a b. a == b)
              ((getting.0.references a).oid)
              (getting.1.oids_to_references)
            ≡ some a)
          × ((getting.0.references a).obj ≡ some obj)
  unfolding get_reference_by_ptr
  get_reference_by_ptr_lem is_transaction_error m context obj s a managed e =
      elim (Option-cases (table_lookup ptr_equal (some obj) (context.ptrs_to_references))) [
        | inr (address, known) ↦
            let h = rw (get_reference_by_ptr, known) at e in
            let same : address ≡ a = cc in
            rw (get_reference_by_ptr, known)
              (subst
                (λ b.
                  (table_lookup (λ a b. a == b) ((m.references b).oid) (context.oids_to_references)
                    ≡ some b)
                  × ((m.references b).obj ≡ some obj))
                same (managed address known))
        | inl unknown ↦
            let creating =
              create_new_reference engine is_transaction_error m context (some obj) s in
            elim creating.2
                as (λ r.
                  creating.2 ≡ r
                  → let getting =
                      get_reference_by_ptr engine is_transaction_error m context (some obj) s in
                    (table_lookup (λ a b. a == b) ((getting.0.references a).oid)
                        (getting.1.oids_to_references)
                      ≡ some a)
                    × ((getting.0.references a).obj ≡ some obj)) [
                      | failed error ↦ λ q. let h = rw (get_reference_by_ptr, unknown, q) at e in cc
                      | crashed ↦ λ q. let h = rw (get_reference_by_ptr, unknown, q) at e in cc
                      | answer address ↦ λ q.
                          let h = rw (get_reference_by_ptr, unknown, q) at e in
                          let same : address ≡ a = cc in
                          rw (get_reference_by_ptr, unknown, q, same)
                            (
                              table_lookup-table_insert _ a _,
                              create_new_reference-obj is_transaction_error m context (some obj) s a
                                  (q ∙ ap answer same),
                            )
                    ]
              refl
      ]

  pub get_reference_by_oid_lem :
      (m : Manager C X W) (context : Context X) (oid a : ℕ) (s : Serialization W)
      → table_lookup (λ a b. a == b) oid (context.oids_to_references) ≡ some a
      → get_reference_by_oid engine m context oid s ≡ (m, context, a)
  unfolding get_reference_by_oid
  get_reference_by_oid_lem m context oid a s by_oid = rw (get_reference_by_oid, by_oid) refl

  pub dereference_lem :
      (is_transaction_error : Bool) (m : Manager C X W) (context : Context X) (a obj : ℕ)
      → (m.references a).obj ≡ some obj
      → dereference engine is_transaction_error m context a false ≡ (m, context, answer tt)
  unfolding dereference
  dereference_lem is_transaction_error m context a obj has = simp (dereference, has) refl
