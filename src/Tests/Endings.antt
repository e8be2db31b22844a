-- ===== src/Tests/Endings.antt =====
-- gzochi-server/src/data.c and tx.c together, at concrete inputs.
use mathlib.Core.Option.{none-ne-some}
use gnu_gzochi.Base.{◌≡◌, ◌≢◌, inl, inr, refl, true, false, Option, none, some, [], ◌∷◌}
use gnu_gzochi.Storage.{View, update}
use gnu_gzochi.DataStores.Writes.{write_all}
use gnu_gzochi.Data.{
  Manager, oids_store, encode_oid, write_reference, flush_reference, flush_references, data_prepare,
  data_commit,
}
use gnu_gzochi.Data.Flush.{updates_of}
use gnu_gzochi.Timeval.{timer_zero}
use gnu_gzochi.Tx.{
  State, Registration, Transaction, Thread, TransactionResult, end, finish, settle, rollback_only,
  prepare_all, commit_all, is_timed_out,
}
use gnu_gzochi.Data.{finalize_references}
use gnu_gzochi.Data.Participant.{data_participant}
use gnu_gzochi.Data.Commitment.{IsSettled, end-IsSettled}
use gnu_gzochi.Data.Stored.{end-IsStored}
use gnu_gzochi.Tests.Stores.{engine, laws}
use gnu_gzochi.Tests.Objects.{holding, context, nothing}

-- The data manager is the only participant of the transaction.
abbrev joined_manager : Manager View (View × View) Unit
joined_manager = record holding { tx_context = some context }

abbrev thread : Thread Unit (Option (Manager View (View × View) Unit) × Unit)
thread = record {
  transaction = some (record {
    id = 1;
    participants =
        record {
          participant = data_participant engine 1;
          context = tt;
          marked = false;
          retryable = false;
        }
        ∷ [];
    state = State.active;
    timing = none;
  });
  timing = some (record { start_time = timer_zero; timeout = none });
  transaction_counter = 2;
}

abbrev committed_manager : Manager View (View × View) Unit
committed_manager = record holding {
  storage_context = update oids_store (encode_oid 3) (some (42 ∷ [])) nothing;
  tx_context = none;
}

thread_ends :
    end timer_zero thread (some joined_manager, tt)
    ≡ some (
      record thread { transaction = none; timing = none },
      (some committed_manager, tt),
      TransactionResult.success,
    )
unfolding end finish settle rollback_only prepare_all commit_all is_timed_out data_prepare
    data_commit flush_references flush_reference write_reference finalize_references
thread_ends = refl

end-IsSettled_example :
    (TransactionResult.success ≡ TransactionResult.success
      → IsSettled engine laws joined_manager context true (some committed_manager))
    × (TransactionResult.success ≢ TransactionResult.success
        → IsSettled engine laws joined_manager context false (some committed_manager))
end-IsSettled_example =
    end-IsSettled engine laws 1 joined_manager context refl thread
      (record thread { transaction = none; timing = none })
      (record {
        id = 1;
        participants =
            record {
              participant = data_participant engine 1;
              context = tt;
              marked = false;
              retryable = false;
            }
            ∷ [];
        state = State.active;
        timing = none;
      })
      (record { start_time = timer_zero; timeout = none }) timer_zero (some joined_manager, tt)
      (some committed_manager, tt) TransactionResult.success refl refl (inl (refl, tt)) refl
      thread_ends

-- A participant that keeps nothing and always agrees has joined before the data manager.
abbrev onlooker : Registration Unit (Option (Manager View (View × View) Unit) × Unit)
onlooker = record {
  participant = record {
    name = 2;
    prepare = λ flag seen w. (w, record { prepared = true; mark = none });
    commit = λ seen w. w;
    rollback = none;
  };
  context = tt;
  marked = false;
  retryable = false;
}

abbrev observed : Transaction Unit (Option (Manager View (View × View) Unit) × Unit)
observed = record {
  id = 1;
  participants = onlooker ∷ record onlooker { participant = data_participant engine 1 } ∷ [];
  state = State.active;
  timing = none;
}

end-IsStored_example :
    (w' : Option (Manager View (View × View) Unit) × Unit) × (m' : Manager View (View × View) Unit)
    × (end timer_zero (record thread { transaction = some observed }) (some joined_manager, tt)
        ≡ some (record thread { transaction = none; timing = none }, w', TransactionResult.success))
    × (w'.0 ≡ some m')
    × (laws.view (m'.storage_context)
        ≡ write_all
            (updates_of (joined_manager.references) (context.oids_to_references) tt)
            (laws.current (context.transaction)))
unfolding rollback_only is_timed_out
end-IsStored_example =
    end-IsStored engine 1 laws (λ x. refl) joined_manager context
      (record thread { transaction = some observed }) observed
      (record { start_time = timer_zero; timeout = none }) timer_zero (some joined_manager, tt) refl
      refl refl refl
      (inr (
        (
          (λ w. (λ flag. refl, refl, λ roll e. absurd (none-ne-some _ e)), λ w. (refl, refl)),
          inl (refl, tt),
        )))
      refl refl ((42, refl, λ world. (42 ∷ [], refl)), tt)
