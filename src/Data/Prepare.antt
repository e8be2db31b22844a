-- ===== src/Data/Prepare.antt =====
-- gzochi-server/src/data.c: what a transaction writes back, and what is stored of it.
use mathlib.Core.Option.{some-injective}
use gnu_gzochi.Base.{
  ℕ, ◌≡◌, inl, inr, sym, ap, ◌∙◌, Bool, true, false, some, List, [], ◌∷◌, if◌then◌else◌,
  >>=-eq-some, Bool-cases, subst,
}
use gnu_gzochi.Storage.{StorageEngine, IsTransactional}
use gnu_gzochi.DataStores.Writes.{write_all}
use gnu_gzochi.Data.{
  Reference, Context, Manager, write_reference, flush_reference, flush_references, data_prepare,
  data_commit, data_rollback,
}
use gnu_gzochi.Data.Flush.{
  updates_of, write_reference_lem, write_reference-base, flush_reference-cases,
}

module _ {C X W : Type 0} (engine : StorageEngine C X) (laws : IsTransactional engine)
    (is_rollback_only : Bool) where
  flush_references_lem :
      (references : ℕ → Reference W) (table : List (ℕ × ℕ)) (world : W) (x : X)
      (done : W × X × Bool)
      → flush_references engine is_rollback_only references table world x ≡ some done
      → (laws.base done.1 ≡ laws.base x)
        × (done.2 ≡ true
            → laws.current done.1 ≡ write_all (updates_of references table world) (laws.current x))
  unfolding flush_references
  flush_references_lem references [] world x done e =
      let same = some-injective _ _ e in
      (ap (λ d. laws.base d.1) (sym same), λ ok. ap (λ d. laws.current d.1) (sym same))
  flush_references_lem references ((oid, address) ∷ table) world x done e =
      let r = references address in
      let (first, flushed, rest) =
        >>=-eq-some (flush_reference engine is_rollback_only r world x) _ e in
      elim (flush_reference-cases engine laws is_rollback_only r world x) [
        | inr (inr crashes) ↦ absurd (cc)
        | inr (inl (passed, skips)) ↦
            let same : (world, x, true) ≡ first = some-injective _ _ (sym skips ∙ flushed) in
            let later = flush_references_lem references table world x done (
              subst
                (λ f.
                  (if f.2
                    then flush_references engine is_rollback_only references table f.0 f.1
                    else some (f.0, f.1, false))
                  ≡ some done)
                (sym same) rest) in
            (later.0, λ ok. rw passed (later.1 ok))
        | inl (obj, marked, has, writes) ↦
            let same = some-injective _ _ (sym writes ∙ flushed) in
            let writing = write_reference engine is_rollback_only r obj world x in
            let left =
              subst
                (λ f.
                  (if f.2
                    then flush_references engine is_rollback_only references table f.0 f.1
                    else some (f.0, f.1, false))
                  ≡ some done)
                (sym same) rest in
            let kept = write_reference-base engine laws is_rollback_only r obj world x in
            elim (Bool-cases writing.2) [
              | inr failed ↦
                  let ended = some-injective _ _ (rw failed at left) in
                  (
                    ap (λ d. laws.base d.1) (sym ended) ∙ kept,
                    λ ok. let h = ap (λ d. d.2) ended in cc,
                  )
              | inl fine ↦
                  let later =
                    flush_references_lem references table writing.0 writing.1 done
                      (rw fine at left) in
                  let (bytes, out, left_world, put) =
                    write_reference_lem engine laws is_rollback_only r obj world x fine in
                  (
                    later.0 ∙ kept,
                    λ ok.
                        simp (marked, has, out)
                          (later.1 ok
                            ∙ ap
                                (λ w.
                                  write_all (updates_of references table w)
                                    (laws.current writing.1))
                                left_world
                            ∙ ap
                                (write_all (
                                  updates_of references table
                                    (r.serialization.serializer obj world).0))
                                put),
                  )
            ]
      ]

  pub data_prepare-base :
      (m : Manager C X W) (context : Context X) (done : Manager C X W × Context X × Bool)
      → data_prepare engine is_rollback_only m context ≡ some done
      → laws.base (done.1.transaction) ≡ laws.base (context.transaction)
  unfolding data_prepare
  data_prepare-base m context done e =
      let (flush, flushed, rest) =
        >>=-eq-some
          (flush_references engine is_rollback_only (m.references) (context.oids_to_references)
            (m.world) (context.transaction))
          _ e in
      let kept =
        (flush_references_lem (m.references) (context.oids_to_references) (m.world)
          (context.transaction) flush flushed).0 in
      elim (Bool-cases flush.2) [
        | inr failed ↦
            ap (λ d. laws.base (d.1.transaction)) (sym (some-injective _ _ (rw failed at rest)))
            ∙ kept
        | inl fine ↦
            ap (λ d. laws.base (d.1.transaction)) (sym (some-injective _ _ (rw fine at rest)))
            ∙ laws.prepare-base flush.1
            ∙ kept
      ]

  -- If the participant "data" votes to commit, then a commit stores the bytes that the serializers
  -- give for the references that are new or modified, in order, over what the transaction had
  -- written before, and nothing else; a rollback after the vote leaves what was stored when the
  -- transaction began. This holds for any engine that keeps the promises of its interface.
  pub data_prepare_lem :
      (m m' : Manager C X W) (context context' : Context X)
      → data_prepare engine is_rollback_only m context ≡ some (m', context', true)
      → (laws.view ((data_commit engine m' context').storage_context)
          ≡ write_all
              (updates_of (m.references) (context.oids_to_references) (m.world))
              (laws.current (context.transaction)))
        × (laws.view ((data_rollback engine m' (some context')).storage_context)
            ≡ laws.base (context.transaction))
  unfolding data_prepare data_commit data_rollback
  data_prepare_lem m m' context context' e =
      let (done, flushed, rest) =
        >>=-eq-some
          (flush_references engine is_rollback_only (m.references) (context.oids_to_references)
            (m.world) (context.transaction))
          _ e in
      let (base, current) =
        flush_references_lem (m.references) (context.oids_to_references) (m.world)
          (context.transaction) done flushed in
      elim (Bool-cases done.2) [
        | inr failed ↦ let h = some-injective _ _ (rw failed at rest) in cc
        | inl fine ↦
            let prepared = engine.transaction_prepare done.1 in
            let ended = some-injective _ _ (rw fine at rest) in
            elim (Bool-cases (engine.rolls_back prepared)) [
              | inl failed ↦ let h = ap (λ d. d.2) (rw failed at ended) in cc
              | inr live ↦
                  let same = ap (λ d. d.1.transaction) ended in
                  (
                    subst
                        (λ t.
                          laws.view (engine.transaction_commit t)
                          ≡ write_all
                              (updates_of (m.references) (context.oids_to_references) (m.world))
                              (laws.current (context.transaction)))
                        same
                        (laws.commit-view prepared live
                          ∙ laws.prepare-current done.1 live
                          ∙ current fine),
                    subst
                        (λ t.
                          laws.view (engine.transaction_rollback t)
                          ≡ laws.base (context.transaction))
                        same (laws.rollback-view prepared ∙ laws.prepare-base done.1 ∙ base),
                  )
            ]
      ]
