-- ===== src/Data/Flush.antt =====
-- gzochi-server/src/data.c: what a transaction writes back for one reference.
use gnu_gzochi.Base.{
  ℕ, ◌≡◌, ◌⊎◌, inl, inr, refl, Bool, true, false, none, some, List, [], ◌∷◌, if◌then◌else◌,
  Option-cases, Bool-cases,
}
use gnu_gzochi.DataProtocol.Changes.{Update}
use gnu_gzochi.Storage.{StorageEngine, update, IsTransactional}
use gnu_gzochi.Data.{
  state_new, state_empty, state_not_modified, state_maybe_modified, state_modified, state_flushed,
  state_removed_empty, state_removed_fetched, Reference, oids_store, encode_oid, write_reference,
  flush_reference,
}
use gnu_gzochi.Data.Objects.{is_written}

-- What is to be stored for the references of a table, in its order: each that is new or modified, as
-- the bytes that its serializer gives in the world that the serializers before it leave.
module _ {W : Type 0} (references : ℕ → Reference W) where
  abbrev pub updates_of : List (ℕ × ℕ) → W → List Update
  updates_of [] world = []
  updates_of ((oid, address) ∷ table) world =
      let reference = references address in
      let skipped = updates_of table world in
      if is_written (reference.state)
      then elim (reference.obj) [
        | none ↦ []
        | some obj ↦
            let (world', out) = reference.serialization.serializer obj world in
            let later = updates_of table world' in
            elim out [
              | none ↦ []
              | some bytes ↦
                  record {
                    store = oids_store;
                    key = encode_oid (reference.oid);
                    value = some bytes;
                  }
                  ∷ later
            ]
      ]
      else skipped

module _ {C X W : Type 0} (engine : StorageEngine C X) (laws : IsTransactional engine)
    (is_rollback_only : Bool) where
  pub write_reference_lem :
      (r : Reference W) (obj : ℕ) (world : W) (x : X)
      → let writing = write_reference engine is_rollback_only r obj world x in
        writing.2 ≡ true
        → (bytes : List ℕ) × ((r.serialization.serializer obj world).1 ≡ some bytes)
          × (writing.0 ≡ (r.serialization.serializer obj world).0)
          × (laws.current writing.1
              ≡ update oids_store (encode_oid (r.oid)) (some bytes) (laws.current x))
  unfolding write_reference
  write_reference_lem r obj world x e =
      elim (Option-cases (r.serialization.serializer obj world).1) [
        | inl failed ↦ let h = rw (write_reference, failed) at e in cc
        | inr (bytes, out) ↦ elim (Bool-cases is_rollback_only) [
          | inl marked ↦ let h = rw (write_reference, out, marked) at e in cc
          | inr live ↦
              let put = engine.transaction_put x oids_store (encode_oid (r.oid)) bytes in
              elim (Bool-cases (engine.rolls_back put)) [
                | inl failed ↦ let h = rw (write_reference, out, live, failed) at e in cc
                | inr fine ↦ (
                  bytes,
                  out,
                  rw (write_reference, out, live) refl,
                  rw (write_reference, out, live)
                      (laws.put-current x oids_store (encode_oid (r.oid)) bytes fine),
                )
              ]
        ]
      ]

  pub write_reference-base :
      (r : Reference W) (obj : ℕ) (world : W) (x : X)
      → laws.base (write_reference engine is_rollback_only r obj world x).1 ≡ laws.base x
  unfolding write_reference
  write_reference-base r obj world x =
      elim (Option-cases (r.serialization.serializer obj world).1) [
        | inl failed ↦ rw (write_reference, failed) refl
        | inr (bytes, out) ↦ elim (Bool-cases is_rollback_only) [
          | inl marked ↦ rw (write_reference, out, marked) refl
          | inr live ↦
              rw (write_reference, out, live)
                (laws.put-base x oids_store (encode_oid (r.oid)) bytes)
        ]
      ]

  -- A reference is written, passed over, or fails an assertion.
  pub flush_reference-cases :
      (r : Reference W) (world : W) (x : X)
      → ((obj : ℕ) × (is_written (r.state) ≡ true)
          × (r.obj ≡ some obj)
          × (flush_reference engine is_rollback_only r world x
              ≡ some (write_reference engine is_rollback_only r obj world x)))
        ⊎ ((is_written (r.state) ≡ false)
            × (flush_reference engine is_rollback_only r world x ≡ some (world, x, true)))
        ⊎ (flush_reference engine is_rollback_only r world x ≡ none)
  unfolding flush_reference write_reference
  flush_reference-cases r world x =
      elim (r.state)
          as (λ s.
            r.state ≡ s
            → ((obj : ℕ) × (is_written (r.state) ≡ true)
                × (r.obj ≡ some obj)
                × (flush_reference engine is_rollback_only r world x
                    ≡ some (write_reference engine is_rollback_only r obj world x)))
              ⊎ ((is_written (r.state) ≡ false)
                  × (flush_reference engine is_rollback_only r world x ≡ some (world, x, true)))
              ⊎ (flush_reference engine is_rollback_only r world x ≡ none)) [
                | state_new ↦ λ q. elim (Option-cases (r.obj)) [
                  | inl absent ↦ inr (inr (rw (flush_reference, q, absent) refl))
                  | inr (obj, has) ↦ inl (obj, rw q refl, has, rw (flush_reference, q, has) refl)
                ]
                | state_modified ↦ λ q. elim (Option-cases (r.obj)) [
                  | inl absent ↦ inr (inr (rw (flush_reference, q, absent) refl))
                  | inr (obj, has) ↦ inl (obj, rw q refl, has, rw (flush_reference, q, has) refl)
                ]
                | state_empty ↦ λ q. inr (inl (rw q refl, rw (flush_reference, q) refl))
                | state_not_modified ↦ λ q. inr (inl (rw q refl, rw (flush_reference, q) refl))
                | state_removed_empty ↦ λ q. inr (inl (rw q refl, rw (flush_reference, q) refl))
                | state_removed_fetched ↦ λ q. inr (inl (rw q refl, rw (flush_reference, q) refl))
                | state_maybe_modified ↦ λ q. inr (inr (rw (flush_reference, q) refl))
                | state_flushed ↦ λ q. inr (inr (rw (flush_reference, q) refl))
              ]
        refl
