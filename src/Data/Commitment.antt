-- ===== src/Data/Commitment.antt =====
-- gzochi-server/src/data.c and tx.c together: what is stored once a transaction has ended.
use mathlib.Core.Option.{some-injective}
use gnu_gzochi.Base.{
  arith, ℕ, ◌≡◌, ◌≢◌, inl, inr, refl, sym, ap, ◌∙◌, Bool, true, false, Option, some, List,
  >>=-eq-some, Bool-cases, subst,
}
use gnu_gzochi.Timeval.{Timeval}
use gnu_gzochi.Tx.{
  State, Transaction, Ending, Timing, abort, Registration, commit_all, prepare_all, rollback_all,
  rollback_only, finish, settle, is_timed_out, Thread, TransactionResult, end, result,
}
use gnu_gzochi.Storage.{StorageEngine, IsTransactional}
use gnu_gzochi.DataStores.Writes.{write_all}
use gnu_gzochi.Data.{Context, Manager}
use gnu_gzochi.Data.Flush.{updates_of}
use gnu_gzochi.Data.Participant.{prepare_manager, commit_manager}
use gnu_gzochi.Data.Members.{
  HasManager, commit_all-HasManager, rollback_all-HasManager, prepare_all-HasManager,
}
use gnu_gzochi.Data.Callbacks.{IsLeft, rollback-IsLeft, commit_manager_lem}

result-success :
    {D W : Type 0} (e : Ending D W) → e.success ≡ true → result e ≡ TransactionResult.success
result-success e won = rw won refl

result-ne-success :
    {D W : Type 0} (e : Ending D W) → e.success ≡ false → result e ≢ TransactionResult.success
result-ne-success e lost = rw lost (ground arith)

module _ {C X W : Type 0} (engine : StorageEngine C X) (laws : IsTransactional engine)
    (m : Manager C X W) (context : Context X) where
  -- What is stored once the transaction has ended.
  abbrev pub IsSettled : Bool → Option (Manager C X W) → Type 0
  IsSettled true o =
      (m' : Manager C X W) × (o ≡ some m')
      × (laws.view (m'.storage_context)
          ≡ write_all (updates_of (m.references) (context.oids_to_references) (m.world))
              (laws.current (context.transaction)))
  IsSettled false o =
      (m' : Manager C X W)
      → o ≡ some m'
      → laws.view (m'.storage_context) ≡ laws.base (context.transaction)

module _ {C X W V D : Type 0} (engine : StorageEngine C X) (laws : IsTransactional engine)
    (name : ℕ) (m : Manager C X W) (context : Context X)
    (joined : m.tx_context ≡ some context) where
  abort-IsSettled :
      (t : Transaction D (Option (Manager C X W) × V)) (w : Option (Manager C X W) × V)
      (retry : Bool) (e : Ending D (Option (Manager C X W) × V))
      → HasManager engine name t.participants
      → IsLeft engine m w.0
      → abort t w retry ≡ some e
      → IsSettled engine laws m context (e.success) (e.world.0)
  abort-IsSettled t w retry e has left aborts =
      let (world, undone, rest) = >>=-eq-some (rollback_all t.participants w) _ aborts in
      let ended = some-injective _ _ rest in
      subst (λ n. IsSettled engine laws m context (n.success) (n.world.0)) ended
        (λ m' is_some.
          rollback-IsLeft engine laws m context joined w.0 m' left
            (sym (rollback_all-HasManager engine name t.participants w world has undone) ∙ is_some))

  commit-IsSettled :
      (flag : Bool) (rs : List (Registration D (Option (Manager C X W) × V)))
      (w w' : Option (Manager C X W) × V)
      → HasManager engine name rs
      → w.0 ≡ some m
      → w'.0 ≡ (prepare_manager engine flag w.0).0
      → (prepare_manager engine flag w.0).1 ≡ true
      → IsSettled engine laws m context true (commit_all rs w').0
  commit-IsSettled flag rs w w' has begun asked agreed =
      let (m', commits, stores) =
        commit_manager_lem engine laws flag m context joined
          (ap (λ o. (prepare_manager engine flag o).1) (sym begun) ∙ agreed) in
      (
        m',
        commit_all-HasManager engine name rs w' has
            ∙ ap (commit_manager engine) (asked ∙ ap (λ o. (prepare_manager engine flag o).0) begun)
            ∙ commits,
        stores,
      )

  finish-IsSettled :
      (t : Transaction D (Option (Manager C X W) × V)) (timing : Timing) (now : Timeval)
      (w : Option (Manager C X W) × V) (e : Ending D (Option (Manager C X W) × V))
      → HasManager engine name t.participants
      → w.0 ≡ some m
      → finish t (some timing) now w ≡ some e
      → IsSettled engine laws m context (e.success) (e.world.0)
  unfolding finish settle
  finish-IsSettled t timing now w e has begun ends =
      elim (Bool-cases (rollback_only t.participants)) [
        | inl marked ↦ abort-IsSettled t w false e has (inl begun) (rw (finish, marked) at ends)
        | inr unmarked ↦
            let (rs, w', agreed) = prepare_all false t.participants w in
            let t' = record t { participants = rs; state = State.preparing } in
            let (has', votes) = prepare_all-HasManager engine name false t.participants w has in
            let left : IsLeft engine m w'.0 = elim votes [
              | inl (kept, against) ↦ inl (kept ∙ begun)
              | inr (flag, asked, all) ↦
                  inr (flag, asked ∙ ap (λ o. (prepare_manager engine flag o).0) begun)
            ] in
            elim (Bool-cases agreed) [
              | inr against ↦
                  abort-IsSettled t' w' false e has' left (rw (finish, unmarked, against) at ends)
              | inl all_agreed ↦ elim (Bool-cases (is_timed_out timing now)) [
                | inl late ↦
                    abort-IsSettled t' w' true e has' left
                      (rw (finish, unmarked, all_agreed, settle, late) at ends)
                | inr early ↦ elim votes [
                  | inl (kept, against) ↦ let h = sym all_agreed ∙ against in cc
                  | inr (flag, asked, all) ↦
                      let ended =
                        some-injective _ _
                          (rw (finish, unmarked, all_agreed, settle, early) at ends) in
                      subst (λ n. IsSettled engine laws m context (n.success) (n.world.0)) ended
                        (commit-IsSettled flag rs w w' has' begun asked (all all_agreed))
                ]
              ]
            ]
      ]

  -- Whatever participants have joined the transaction with the data manager, in any order, as long
  -- as they leave it alone: if `gzochid_transaction_end` reports success, the storage has what the
  -- transaction had written before and the objects that are new or modified; if it reports anything
  -- else, because of a mark, a refusal or the timeout, the storage has what it had when the
  -- transaction began. This holds for any storage engine that keeps the promises of its interface.
  pub end-IsSettled :
      (thread thread' : Thread D (Option (Manager C X W) × V))
      (t : Transaction D (Option (Manager C X W) × V)) (timing : Timing) (now : Timeval)
      (w w' : Option (Manager C X W) × V) (ended : TransactionResult)
      → thread.transaction ≡ some t
      → thread.timing ≡ some timing
      → HasManager engine name t.participants
      → w.0 ≡ some m
      → end now thread w ≡ some (thread', w', ended)
      → (ended ≡ TransactionResult.success → IsSettled engine laws m context true w'.0)
        × (ended ≢ TransactionResult.success → IsSettled engine laws m context false w'.0)
  unfolding end
  end-IsSettled thread thread' t timing now w w' ended is_open timed has begun ends =
      let (e, finishes, rest) =
        >>=-eq-some (finish t (some timing) now w) _ (rw (end, is_open, timed) at ends) in
      let settled = finish-IsSettled t timing now w e has begun finishes in
      let same = some-injective _ _ rest in
      let world = ap (λ p. p.1.0) same in
      let reports = ap (λ p. p.2) same in
      elim (Bool-cases (e.success)) [
        | inl won ↦ (
          λ is_success.
              subst (IsSettled engine laws m context true) world
                (subst (λ b. IsSettled engine laws m context b (e.world.0)) won settled),
          λ other. absurd (other (sym reports ∙ result-success e won)),
        )
        | inr lost ↦ (
          λ is_success. absurd (result-ne-success e lost (reports ∙ is_success)),
          λ other.
              subst (IsSettled engine laws m context false) world
                (subst (λ b. IsSettled engine laws m context b (e.world.0)) lost settled),
        )
      ]
