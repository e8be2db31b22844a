-- ===== src/Data/Removed.antt =====
-- gzochi-server/src/data.c: an object that is marked after it has been removed.
use gnu_gzochi.Base.{ℕ, ◌≡◌, refl, sym, ap, ◌∙◌, Bool, false, Option, some, List, ==_refl}
use gnu_gzochi.Storage.{StorageEngine, deleted, enotfound, etxfailure}
use gnu_gzochi.Data.{
  state_not_modified, state_modified, state_removed_fetched, Serialization, Reference, Context,
  Manager, answer, oids_store, encode_oid, ptr_equal, table_lookup, set_reference, write_reference,
  flush_reference,
}
use gnu_gzochi.Data.References.{get_reference_by_ptr}
use gnu_gzochi.Data.Objects.{
  is_written, set_state, mark_found, mark_object, delete_key, remove_reference,
}
use gnu_gzochi.Data.Lookups.{checked_lem}

module _ {C X W : Type 0} (engine : StorageEngine C X) where
  delete_key_lem :
      (m : Manager C X W) (context : Context X) (store key : List ℕ)
      → (delete_key engine m context store key).2 ≡ answer tt
      → delete_key engine m context store key ≡ (
        m,
        record context {
          transaction = (engine.transaction_delete (context.transaction) store key).0;
        },
        answer tt,
      )
  unfolding delete_key
  delete_key_lem m context store key e =
      let deletion = engine.transaction_delete (context.transaction) store key in
      elim deletion.1
          as (λ d.
            deletion.1 ≡ d
            → delete_key engine m context store key
              ≡ (m, record context { transaction = deletion.0 }, answer tt)) [
                | deleted ↦ λ q. rw (delete_key, q) refl
                | enotfound ↦ λ q. let h = rw (delete_key, q) at e in cc
                | etxfailure ↦ λ q. let h = rw (delete_key, q) at e in cc
              ]
        refl

  get_reference_by_ptr-known :
      (is_transaction_error : Bool) (m : Manager C X W) (context : Context X) (s : Serialization W)
      (ptr : Option ℕ) (a : ℕ)
      → table_lookup ptr_equal ptr (context.ptrs_to_references) ≡ some a
      → get_reference_by_ptr engine is_transaction_error m context ptr s ≡ (m, context, answer a)
  unfolding get_reference_by_ptr
  get_reference_by_ptr-known is_transaction_error m context s ptr a known =
      rw (get_reference_by_ptr, known) refl

  mark_found_lem :
      (m : Manager C X W) (context : Context X) (a : ℕ)
      → is_written ((m.references a).state) ≡ false
      → (mark_found engine (m, context, answer a)).2 ≡ answer tt
      → (mark_found engine (m, context, answer a)).0.references a
        ≡ record (m.references a) { state = state_modified }
  unfolding set_reference
  mark_found_lem m context a unwritten e =
      let (fine, _) =
        checked_lem engine (set_state engine m a state_modified) context _ (answer tt) tt
          (rw unwritten at e) in
      rw (unwritten, fine, ==_refl a) refl

  remove_reference_lem :
      (m : Manager C X W) (context : Context X) (a : ℕ)
      → (m.references a).state ≡ state_not_modified
      → (remove_reference engine m context a).2 ≡ answer tt
      → remove_reference engine m context a ≡ (
        set_state engine m a state_removed_fetched,
        record context {
          transaction =
              (engine.transaction_delete
                (context.transaction)
                oids_store
                (encode_oid ((m.references a).oid))).0;
        },
        answer tt,
      )
  unfolding remove_reference
  remove_reference_lem m context a clean removed =
      let deleting = delete_key engine m context oids_store (encode_oid ((m.references a).oid)) in
      let path : remove_reference engine m context a
          ≡ (set_state engine deleting.0 a state_removed_fetched, deleting.1, deleting.2) =
        simp (remove_reference, clean) refl in
      path
      ∙ ap (λ d. (set_state engine d.0 a state_removed_fetched, d.1, d.2))
          (delete_key_lem m context oids_store (encode_oid ((m.references a).oid))
            (sym (ap (λ p. p.2) path) ∙ removed))

  flush_modified :
      (r : Reference W) (obj : ℕ) (world : W) (x : X)
      → r.obj ≡ some obj
      → flush_reference engine false (record r { state = state_modified }) world x
        ≡ some (write_reference engine false (record r { state = state_modified }) obj world x)
  unfolding flush_reference
  flush_modified r obj world x has = simp (flush_reference, has) refl

  -- An object that has been read and is then removed and marked in the same transaction, both with
  -- success, is written back: the flush of its reference, unless the transaction is marked for
  -- rollback, writes it as it writes a modified object that has not been removed.
  pub mark_object-remove_reference :
      (is_transaction_error : Bool) (m : Manager C X W) (context : Context X) (s : Serialization W)
      (obj a : ℕ) (world : W) (x : X)
      → table_lookup ptr_equal (some obj) (context.ptrs_to_references) ≡ some a
      → (m.references a).state ≡ state_not_modified
      → (m.references a).obj ≡ some obj
      → let removing = remove_reference engine m context a in
        let marking = mark_object engine is_transaction_error removing.0 removing.1 s (some obj) in
        removing.2 ≡ answer tt
        → marking.2 ≡ answer tt
        → flush_reference engine false (marking.0.references a) world x
          ≡ some (
              write_reference engine false
                (record (m.references a) { state = state_modified })
                obj
                world
                x)
  unfolding mark_object set_reference
  mark_object-remove_reference is_transaction_error m context s obj a world x known clean has
        removed marked =
      let gone = set_state engine m a state_removed_fetched in
      let after = record context {
        transaction =
            (engine.transaction_delete (context.transaction) oids_store
              (encode_oid ((m.references a).oid))).0;
      } in
      let marks =
        ap (λ p. mark_object engine is_transaction_error p.0 p.1 s (some obj))
          (remove_reference_lem m context a clean removed)
        ∙ ap (mark_found engine)
            (get_reference_by_ptr-known is_transaction_error gone after s (some obj) a known) in
      let same =
        ap (λ p. p.0.references a) marks
        ∙ mark_found_lem gone after a (rw (==_refl a) refl) (sym (ap (λ p. p.2) marks) ∙ marked)
        ∙ rw (==_refl a) refl in
      ap (λ r. flush_reference engine false r world x) same
      ∙ flush_modified (m.references a) obj world x has
