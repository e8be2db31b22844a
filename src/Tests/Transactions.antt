-- ===== src/Tests/Transactions.antt =====
-- gzochi-server/src/tx.c at concrete inputs.
use mathlib.Core.Option
use gnu_gzochi.Base.{
  ℕ, ◌≡◌, ◌≢◌, refl, true, false, none, some, List, [], ◌∷◌, arith, if◌then◌else◌, ◌&&◌,
}
use gnu_gzochi.Timeval.{timer_zero}
use gnu_gzochi.Tx.{
  State, TransactionResult, Vote, Participant, Registration, Transaction, Thread, Timing, Ending,
  finish, end, join, mark_for_rollback, mark_registration, participant_new, rollback_all,
  rollback_only, prepare_all, is_timed_out, is_retryable,
}
use gnu_gzochi.Tx.Log.{
  Call, prepares, rolls_back, Voter, participant_of, registrations, expected, finish-expected,
}
use gnu_gzochi.Tx.Finish.{end_total, mark_for_rollback-end, participant_new_crashes, others}
use gnu_gzochi.Tx.Registry.{join_lem, Joined}

abbrev untimed : Timing
untimed = record { start_time = timer_zero; timeout = none }

abbrev agree : Vote
agree = record { prepared = true; mark = none }

abbrev refuse : Vote
refuse = record { prepared = false; mark = some true }

abbrev voter : ℕ → Vote → Voter
voter name vote = record { name = name; vote = vote; marked = false; retryable = false }

abbrev transaction_of : List Voter → Transaction (Unit {0}) (List Call)
transaction_of vs = record {
  id = 0;
  participants = registrations vs;
  state = State.active;
  timing = some untimed;
}

abbrev thread_of : List Voter → Thread (Unit {0}) (List Call)
thread_of vs = record {
  transaction = some (transaction_of vs);
  timing = some untimed;
  transaction_counter = 1;
}

abbrev agreeing : List Voter
agreeing = voter 1 agree ∷ voter 2 agree ∷ []

finish_refused :
    Option.map
      (λ (e : Ending (Unit {0}) (List Call)). e.world)
      (finish
        (transaction_of (voter 1 agree ∷ voter 2 refuse ∷ voter 3 agree ∷ []))
        (some untimed)
        timer_zero
        [])
    ≡ some (prepares 1 ∷ prepares 2 ∷ rolls_back 1 ∷ rolls_back 2 ∷ rolls_back 3 ∷ [])
unfolding finish prepare_all rollback_all rollback_only
finish_refused = refl

finish-expected_example :
    Option.map
      (λ (e : Ending (Unit {0}) (List Call)). (e.world, e.success, e.transaction.state))
      (finish (transaction_of agreeing) (some untimed) timer_zero [])
    ≡ some (expected agreeing (is_timed_out untimed timer_zero))
finish-expected_example = finish-expected agreeing (transaction_of agreeing) untimed timer_zero refl

end_total_example :
    (w' : List Call) × (result : TransactionResult) × (end timer_zero (thread_of agreeing) []
      ≡ some (record (thread_of agreeing) { transaction = none; timing = none }, w', result))
    × (result ≢ TransactionResult.pending)
end_total_example =
    end_total timer_zero (thread_of agreeing) (transaction_of agreeing) untimed [] refl refl
      (refl, (refl, tt))

abbrev marked_thread : Thread (Unit {0}) (List Call)
marked_thread = thread_of (record (voter 1 agree) { marked = true } ∷ voter 2 agree ∷ [])

mark_for_rollback-end_example :
    (w' : List Call) × (rollback_all (registrations agreeing) [] ≡ some w')
    × (end timer_zero marked_thread []
        ≡ some (
          record (thread_of agreeing) { transaction = none; timing = none },
          w',
          if false && is_retryable (others 1 (registrations agreeing))
              then TransactionResult.should_retry
              else TransactionResult.failure,
        ))
unfolding mark_for_rollback mark_registration
mark_for_rollback-end_example =
    mark_for_rollback-end timer_zero (thread_of agreeing) marked_thread (transaction_of agreeing)
      untimed [] (participant_of (voter 1 agree)) false refl refl (refl, (refl, tt)) refl

abbrev lost : Participant (Unit {0}) (List Call)
lost = participant_new 5 (λ _ _ w. (w, agree)) (λ _ w. w) (λ _ w. w)

abbrev lost_registration : Registration (Unit {0}) (List Call)
lost_registration = record { participant = lost; context = tt; marked = true; retryable = false }

abbrev doomed : Transaction (Unit {0}) (List Call)
doomed = record (transaction_of []) { participants = lost_registration ∷ [] }

participant_new_crashes_example :
    end timer_zero (record (thread_of []) { transaction = some doomed }) [] ≡ none
unfolding rollback_only
participant_new_crashes_example =
    participant_new_crashes timer_zero (record (thread_of []) { transaction = some doomed }) doomed
      [] 5 (λ _ _ w. (w, agree)) (λ _ w. w) (λ _ w. w) lost_registration [] [] refl refl refl refl

join_lem_example :
    (thread' : Thread (Unit {0}) (List Call)) × (join
        (participant_of (voter 3 agree))
        tt
        (thread_of agreeing)
      ≡ some thread')
    × Joined
        (participant_of (voter 3 agree))
        (participant_of (voter 1 agree))
        tt
        (thread_of agreeing)
        thread'
join_lem_example =
    join_lem (participant_of (voter 3 agree)) (participant_of (voter 1 agree)) tt
      (thread_of agreeing) (refl, (((λ e. omega arith), tt), (tt, tt)))
