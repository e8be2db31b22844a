-- ===== src/Data/Oids.antt =====
-- gzochi-server/src/data.c: the oids of new objects.
use mathlib.Core.Option.{some-injective}
use gnu_gzochi.Base.{
  ℕ, suc, ◌+◌, ◌≤◌, ◌<◌, ◌≡◌, inl, inr, refl, sym, Bool, false, Option, none, some, List, [], ◌∷◌,
  zero, ◌>>=◌, >>=-eq-some, ltb, arith, Option-cases, Bool-cases, subst,
}
use gnu_gzochi.DataProtocol.{OidsBlock}
use gnu_gzochi.Storage.{StorageEngine}
use gnu_gzochi.Data.{
  OidBlockState, Context, Manager, answer, failed, crashed, reserve_oids, take_oid, next_object_id,
}

-- What oids.h promises of the allocation: a block is not empty, and lies between what was reserved
-- before, of which all is below `limit`, and what is reserved later.
pub record IsAllocator {C X : Type 0} (engine : StorageEngine C X) : Type 0 where
  pub limit : C → ℕ
  pub reserved :
      (c : C) (block : OidsBlock)
      → (engine.reserve_block c).1 ≡ some block
      → (0 < block.block_size)
        × (limit c ≤ block.block_start)
        × (block.block_start + block.block_size ≤ limit (engine.reserve_block c).0)

-- Each number of the list is larger than the one before, and at least `n`.
abbrev pub IsIncreasing : ℕ → List ℕ → Type 0
IsIncreasing n [] = Unit
IsIncreasing n (a ∷ as_later) = (n ≤ a) × IsIncreasing (suc a) as_later

-- `n` calls of `next_object_id`, if all succeed.
abbrev pub draw :
    {C X W : Type 0} → StorageEngine C X → ℕ → Manager C X W → Context X → Option (List ℕ)
draw engine zero m context = some []
draw engine (suc n) m context =
    let (m, context, drawn) = next_object_id engine false m context in
    let later = draw engine n m context in
    elim drawn [
      | failed e ↦ none
      | crashed ↦ none
      | answer oid ↦ (later >>= λ oids. some (oid ∷ oids))
    ]

module _ {C X : Type 0} (engine : StorageEngine C X) (allocator : IsAllocator engine) where
  abbrev IsFree : ℕ → C → OidBlockState → Type 0
  IsFree n c block = (n ≤ block.next) × (block.next ≤ block.last) × (block.last < allocator.limit c)

  -- All that is left to hand out is at least `n`.
  abbrev pub IsAbove : {W : Type 0} → ℕ → Manager C X W → Option OidBlockState → Type 0
  IsAbove n m none = (m.free_oid_blocks ≡ []) × (n ≤ allocator.limit (m.storage_context))
  IsAbove n m (some block) = (m.free_oid_blocks ≡ []) × IsFree n (m.storage_context) block

  module _ {W : Type 0} (is_transaction_error : Bool) where
    reserve_oids_lem :
        (n : ℕ) (m : Manager C X W) (block : OidBlockState)
        → IsAbove n m none
        → (reserve_oids engine is_transaction_error m).1 ≡ some block
        → IsAbove n (reserve_oids engine is_transaction_error m).0 (some block)
    unfolding reserve_oids
    reserve_oids_lem n m block (unused, below) e =
        elim (Option-cases (engine.reserve_block (m.storage_context)).1) [
          | inl exhausted ↦ let h = rw (reserve_oids, unused, exhausted) at e in cc
          | inr (reserved, got) ↦
              let (sized, above, within) = allocator.reserved (m.storage_context) reserved got in
              let same = some-injective _ _ (rw (reserve_oids, unused, got) at e) in
              subst (λ b. IsAbove n (reserve_oids engine is_transaction_error m).0 (some b)) same
                (rw (reserve_oids, unused, got) (unused, (omega arith, omega arith, omega arith)))
        ]

    take_oid_lem :
        (n : ℕ) (m : Manager C X W) (context : Context X) (block : OidBlockState) (oid : ℕ)
        → IsAbove n m (some block)
        → let taking = take_oid engine is_transaction_error m context block in
          taking.2 ≡ answer oid → (n ≤ oid) × IsAbove (suc oid) taking.0 (taking.1.free_oids)
    unfolding take_oid
    take_oid_lem n m context block oid (unused, (above, within, below)) e =
        elim (Bool-cases (ltb (block.last) (block.next + 1))) [
          | inr more ↦
              let same : block.next ≡ oid = (let h = rw (take_oid, more) at e in cc) in
              let left : block.next + 1 ≤ block.last = ground arith in
              rw (take_oid, more) (omega arith, (unused, (omega arith, omega arith, omega arith)))
          | inl last ↦ elim (Option-cases (reserve_oids engine is_transaction_error m).1) [
            | inl exhausted ↦ let h = rw (take_oid, last, exhausted) at e in cc
            | inr (next, got) ↦
                let same : block.next ≡ oid = (let h = rw (take_oid, last, got) at e in cc) in
                rw (take_oid, last, got)
                  (
                    omega arith,
                    subst (IsAbove (suc oid) (reserve_oids engine is_transaction_error m).0)
                        (sym got) (reserve_oids_lem (suc oid) m next (unused, omega arith) got),
                  )
          ]
        ]

    next_object_id_lem :
        (n : ℕ) (m : Manager C X W) (context : Context X) (oid : ℕ)
        → IsAbove n m (context.free_oids)
        → let drawing = next_object_id engine is_transaction_error m context in
          drawing.2 ≡ answer oid → (n ≤ oid) × IsAbove (suc oid) drawing.0 (drawing.1.free_oids)
    unfolding next_object_id
    next_object_id_lem n m context oid above e = elim (Option-cases (context.free_oids)) [
      | inr (block, has) ↦
          rw (next_object_id, has)
            (take_oid_lem n m context block oid (rw has at above) (rw (next_object_id, has) at e))
      | inl nothing ↦ elim (Option-cases (reserve_oids engine is_transaction_error m).1) [
        | inl exhausted ↦ let h = rw (next_object_id, nothing, exhausted) at e in cc
        | inr (block, got) ↦
            rw (next_object_id, nothing, got)
              (take_oid_lem n (reserve_oids engine is_transaction_error m).0
                (record context { free_oids = (reserve_oids engine is_transaction_error m).1 })
                block oid (reserve_oids_lem n m block (rw nothing at above) got)
                (rw (next_object_id, nothing, got) at e))
      ]
    ]

  draw_lem :
      {W : Type 0} (k n : ℕ) (m : Manager C X W) (context : Context X) (oids : List ℕ)
      → IsAbove n m (context.free_oids)
      → draw engine k m context ≡ some oids
      → IsIncreasing n oids
  draw_lem zero n m context oids above e = subst (IsIncreasing n) (some-injective _ _ e) tt
  draw_lem (suc k) n m context oids above e =
      elim (next_object_id engine false m context).2
          as (λ r. (next_object_id engine false m context).2 ≡ r → IsIncreasing n oids) [
            | failed error ↦ λ q. let h = rw (draw, q) at e in cc
            | crashed ↦ λ q. let h = rw (draw, q) at e in cc
            | answer oid ↦ λ q.
                let drawing = next_object_id engine false m context in
                let (least, rest_above) = next_object_id_lem false n m context oid above q in
                let (later, drawn, same) =
                  >>=-eq-some (draw engine k drawing.0 drawing.1) _ (rw (draw, q) at e) in
                subst (IsIncreasing n) (some-injective _ _ same)
                  (least, draw_lem k (suc oid) drawing.0 drawing.1 later rest_above drawn)
          ]
        refl

-- The oids that a transaction gives to new objects increase, so no two objects have the same, and
-- are all at least the limit below which oids had been reserved before, if the allocator keeps its
-- promises and no oid reaches 2 ^ 64. This holds for any number of objects and any sizes of blocks.
pub draw-IsIncreasing :
    {C X W : Type 0} (engine : StorageEngine C X) (allocator : IsAllocator engine) (k : ℕ)
    (m : Manager C X W) (context : Context X) (oids : List ℕ)
    → m.free_oid_blocks ≡ []
    → context.free_oids ≡ none
    → draw engine k m context ≡ some oids
    → IsIncreasing (allocator.limit (m.storage_context)) oids
draw-IsIncreasing engine allocator k m context oids unused fresh e =
    draw_lem engine allocator k (allocator.limit (m.storage_context)) m context oids
      (rw fresh (unused, omega arith)) e
