-- ===== src/Data/Ready.antt =====
-- gzochi-server/src/data.c and tx.c together: when the data manager votes to commit.
use gnu_gzochi.Base.{ℕ, ◌≡◌, refl, ap, ◌∙◌, true, false, some, List, [], ◌∷◌, All}
use gnu_gzochi.Storage.{StorageEngine}
use gnu_gzochi.Data.{
  ReferenceState, state_new, state_empty, state_not_modified, state_maybe_modified, state_modified,
  state_flushed, state_removed_empty, state_removed_fetched, Reference, Context, Manager,
  write_reference, flush_reference, flush_references, data_prepare,
}

module _ {W : Type 0} where
  -- A reference to an object that its serializer can write, in any world.
  abbrev pub IsWritable : Reference W → Type 0
  IsWritable r =
      (obj : ℕ) × (r.obj ≡ some obj)
      × ((world : W) → (bytes : List ℕ) × ((r.serialization.serializer obj world).1 ≡ some bytes))

  -- What a flush can pass over or write; data.c gives no reference one of the two states on which
  -- `flush_reference` fails.
  abbrev pub IsFlushable : ReferenceState → Reference W → Type 0
  IsFlushable state_new r = IsWritable r
  IsFlushable state_modified r = IsWritable r
  IsFlushable state_empty r = Unit
  IsFlushable state_not_modified r = Unit
  IsFlushable state_maybe_modified r = ⊥
  IsFlushable state_flushed r = ⊥
  IsFlushable state_removed_empty r = Unit
  IsFlushable state_removed_fetched r = Unit

  abbrev pub IsReady : Reference W → Type 0
  IsReady r = IsFlushable (r.state) r

module _ {C X W : Type 0} (engine : StorageEngine C X)
    (steady : (x : X) → engine.rolls_back x ≡ false) where
  write_reference-IsReady :
      (r : Reference W) (obj : ℕ) (world : W) (x : X) (bytes : List ℕ)
      → (r.serialization.serializer obj world).1 ≡ some bytes
      → (write_reference engine false r obj world x).2 ≡ true
  unfolding write_reference
  write_reference-IsReady r obj world x bytes writes =
      rw (write_reference, writes) (rw (steady _) refl)

  flush_written :
      (r : Reference W) (world : W) (x : X) (obj : ℕ) (bytes : List ℕ)
      → (r.serialization.serializer obj world).1 ≡ some bytes
      → flush_reference engine false r world x ≡ some (write_reference engine false r obj world x)
      → (world' : W) × (x' : X) × (flush_reference engine false r world x ≡ some (world', x', true))
  flush_written r world x obj bytes out e =
      let done = write_reference engine false r obj world x in
      let written = write_reference-IsReady r obj world x bytes out in
      (done.0, done.1, e ∙ ap (λ b. some (done.0, done.1, b)) written)

  flush_reference-IsReady :
      (r : Reference W) (world : W) (x : X)
      → IsReady r
      → (world' : W) × (x' : X) × (flush_reference engine false r world x ≡ some (world', x', true))
  unfolding flush_reference write_reference
  flush_reference-IsReady r world x ready =
      elim (r.state)
          as (λ s.
            r.state ≡ s
            → IsFlushable s r
            → (world' : W) × (x' : X) × (flush_reference engine false r world x
                ≡ some (world', x', true))) [
                  | state_new ↦ λ q (obj, has, writes).
                      let (bytes, out) = writes world in
                      flush_written r world x obj bytes out (rw (flush_reference, q, has) refl)
                  | state_modified ↦ λ q (obj, has, writes).
                      let (bytes, out) = writes world in
                      flush_written r world x obj bytes out (rw (flush_reference, q, has) refl)
                  | state_empty ↦ λ q passed. (world, x, rw (flush_reference, q) refl)
                  | state_not_modified ↦ λ q passed. (world, x, rw (flush_reference, q) refl)
                  | state_removed_empty ↦ λ q passed. (world, x, rw (flush_reference, q) refl)
                  | state_removed_fetched ↦ λ q passed. (world, x, rw (flush_reference, q) refl)
                  | state_maybe_modified ↦ λ q never. absurd never
                  | state_flushed ↦ λ q never. absurd never
                ]
        refl ready

  flush_references-IsReady :
      (references : ℕ → Reference W) (table : List (ℕ × ℕ)) (world : W) (x : X)
      → All (λ p. IsReady (references p.1)) table
      → (world' : W) × (x' : X) × (flush_references engine false references table world x
          ≡ some (world', x', true))
  unfolding flush_references
  flush_references-IsReady references [] world x ready = (world, x, refl)
  flush_references-IsReady references ((oid, address) ∷ table) world x ready =
      let (world', x', flushed) = flush_reference-IsReady (references address) world x ready.0 in
      let (world'', x'', rest) = flush_references-IsReady references table world' x' ready.1 in
      (world'', x'', rw (flush_references, flushed) rest)

  pub data_prepare-IsReady :
      (m : Manager C X W) (context : Context X)
      → All (λ p. IsReady (m.references p.1)) (context.oids_to_references)
      → (m' : Manager C X W) × (context' : Context X) × (data_prepare engine false m context
          ≡ some (m', context', true))
  unfolding data_prepare
  data_prepare-IsReady m context ready =
      let (world, x, flushed) =
        flush_references-IsReady (m.references) (context.oids_to_references) (m.world)
          (context.transaction) ready in
      (
        record m { world = world },
        record context { transaction = engine.transaction_prepare x },
        rw (data_prepare, flushed) (rw (steady _) refl),
      )
