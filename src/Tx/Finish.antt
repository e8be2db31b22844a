-- ===== src/Tx/Finish.antt =====
-- gzochi-server/src/tx.c: how a transaction ends, for participants with any callbacks.
use gnu_gzochi.Base.{
  ℕ, ◌≡◌, ◌≢◌, refl, ◌∙◌, ap, Bool, true, false, Option, none, some, List, [], ◌∷◌, ◌++◌, All,
  arith, if◌then◌else◌, ◌==◌, ◌&&◌, ◌||◌, Bool-cases, Option-cases, inl, inr,
}
use gnu_gzochi.Timeval.{Timeval}
use gnu_gzochi.Tx.{
  State, TransactionResult, Ending, result, Vote, Participant, Registration, Transaction, Thread,
  Timing, is_marking, mark, abort, prepare_all, rollback_all, rollback_only, is_retryable,
  mark_registration, mark_for_rollback, finish, settle, end, participant_new, is_timed_out,
}

module _ {D W : Type 0} where
  abbrev has_rollback : Registration D W → Bool
  has_rollback r = elim r.participant.rollback [ none ↦ false | some roll ↦ true ]

  -- No participant's rollback callback is null.
  abbrev pub HaveRollback : List (Registration D W) → Type 0
  HaveRollback = All (λ r. has_rollback r ≡ true)

  rollback_all_total :
      (rs : List (Registration D W)) (w : W)
      → HaveRollback rs
      → (w' : W) × (rollback_all rs w ≡ some w')
  unfolding rollback_all
  rollback_all_total [] w have = (w, refl)
  rollback_all_total (r ∷ rs) w have = elim (Option-cases r.participant.rollback) [
    | inl e ↦ absurd (ground arith)
    | inr (roll, e) ↦ rw e (rollback_all_total rs (roll r.context w) have.1)
  ]

  has_rollback-mark :
      (m : Option Bool) (r : Registration D W) → has_rollback (mark m r) ≡ has_rollback r
  has_rollback-mark none r = refl
  has_rollback-mark (some b) r = refl

  prepare_all-HaveRollback :
      (marked : Bool) (rs : List (Registration D W)) (w : W)
      → HaveRollback rs
      → HaveRollback (prepare_all marked rs w).0
  unfolding prepare_all
  prepare_all-HaveRollback marked [] w have = tt
  prepare_all-HaveRollback marked (r ∷ rs) w have =
      let answer = r.participant.prepare marked r.context w in
      let own = has_rollback-mark answer.1.mark r in
      elim (Bool-cases answer.1.prepared) [
        | inl e ↦ rw e (
          own ∙ have.0,
          prepare_all-HaveRollback (marked || is_marking answer.1.mark) rs answer.0 have.1,
        )
        | inr e ↦ rw e (own ∙ have.0, have.1)
      ]

  abort_total :
      (t : Transaction D W) (w : W) (retry : Bool)
      → HaveRollback t.participants
      → (e : Ending D W) × (abort t w retry ≡ some e)
  abort_total t w retry have =
      let (w', undone) = rollback_all_total t.participants w have in
      (
        record {
          transaction = record t { state = State.rolled_back };
          world = w';
          success = false;
          should_retry = retry;
        },
        rw undone,
      )

  settle_total :
      (t : Transaction D W) (timing : Timing) (now : Timeval) (w : W)
      → HaveRollback t.participants
      → (e : Ending D W) × (settle t (some timing) now w ≡ some e)
  unfolding settle
  settle_total t timing now w have = elim (Bool-cases (is_timed_out timing now)) [
    | inl late ↦ rw late (abort_total t w true have)
    | inr early ↦ rw early (_, refl)
  ]

  finish_total :
      (t : Transaction D W) (timing : Timing) (now : Timeval) (w : W)
      → HaveRollback t.participants
      → (e : Ending D W) × (finish t (some timing) now w ≡ some e)
  unfolding finish
  finish_total t timing now w have =
      let voted = prepare_all false t.participants w in
      let have' = prepare_all-HaveRollback false t.participants w have in
      let t' = record t { participants = voted.0; state = State.preparing } in
      elim (Bool-cases (rollback_only t.participants)) [
        | inl bad ↦ rw bad (abort_total t w false have)
        | inr good ↦ elim (Bool-cases voted.2) [
          | inl agreed ↦ rw (good, agreed) (settle_total t' timing now voted.1 have')
          | inr refused ↦ rw (good, refused) (abort_total t' voted.1 false have')
        ]
      ]

  result-ne-pending : (e : Ending D W) → result e ≢ TransactionResult.pending
  result-ne-pending e = ground arith

  -- A transaction whose participants all have a rollback callback can be ended: whatever they vote,
  -- `gzochid_transaction_end` returns, the thread is left without transaction and timing, and the
  -- result is not `pending`.
  pub end_total :
      (now : Timeval) (thread : Thread D W) (t : Transaction D W) (timing : Timing) (w : W)
      → thread.transaction ≡ some t
      → thread.timing ≡ some timing
      → HaveRollback t.participants
      → (w' : W) × (result : TransactionResult) × (end now thread w
          ≡ some (record thread { transaction = none; timing = none }, w', result))
        × (result ≢ TransactionResult.pending)
  unfolding end
  end_total now thread t timing w e e' have =
      let (ending, finished) = finish_total t timing now w have in
      (ending.world, result ending, rw (e, end) (rw (e', finished)), result-ne-pending ending)

  -- The participants without the first that has the name.
  abbrev pub others : ℕ → List (Registration D W) → List (Registration D W)
  others name [] = []
  others name (r ∷ rs) = if r.participant.name == name then rs else r ∷ others name rs

  mark_registration_lem :
      (name : ℕ) (retryable : Bool) (rs rs' : List (Registration D W)) (w : W)
      → mark_registration name retryable rs ≡ some rs'
      → (rollback_only rs' ≡ true)
        × (rollback_all rs' w ≡ rollback_all rs w)
        × (is_retryable rs' ≡ (retryable && is_retryable (others name rs)))
  unfolding mark_registration rollback_only rollback_all is_retryable
  mark_registration_lem name retryable [] rs' w e = cc
  mark_registration_lem name retryable (r ∷ rs) rs' w e =
      elim (Bool-cases (r.participant.name == name)) [
        | inl hit ↦ ground arith
        | inr miss ↦ elim (Option-cases (mark_registration name retryable rs)) [
          | inl absent ↦ absurd (ground arith)
          | inr (marked_rest, found) ↦ elim (Option-cases r.participant.rollback) [
            | inl null ↦ ground (arith, mark_registration_lem name retryable rs marked_rest w found)
            | inr (roll, e') ↦ ground (
              arith,
              mark_registration_lem name retryable rs marked_rest (roll r.context w) found,
            )
          ]
        ]
      ]

  -- A transaction that a participant has marked never commits, whichever participants were marked
  -- before: if every participant has a rollback callback, ending it runs exactly those callbacks,
  -- clears the thread, and reports a failure, which may be retried exactly if this mark allows it
  -- and so does the mark of every other participant that is marked.
  pub mark_for_rollback-end :
      (now : Timeval) (thread thread' : Thread D W) (t : Transaction D W) (timing : Timing) (w : W)
      (p : Participant D W) (retryable : Bool)
      → thread.transaction ≡ some t
      → thread.timing ≡ some timing
      → HaveRollback t.participants
      → mark_for_rollback p retryable thread ≡ some thread'
      → (w' : W) × (rollback_all t.participants w ≡ some w')
        × (end now thread' w
            ≡ some (
              record thread { transaction = none; timing = none },
              w',
              if retryable && is_retryable (others p.name t.participants)
                  then TransactionResult.should_retry
                  else TransactionResult.failure,
            ))
  unfolding end finish mark_for_rollback
  mark_for_rollback-end now thread thread' t timing w p retryable e e' have marks =
      elim (Option-cases (mark_registration p.name retryable t.participants)) [
        | inl absent ↦ absurd (ground arith)
        | inr (participants, found) ↦
            let (w', undone) = rollback_all_total t.participants w have in
            let facts =
              mark_registration_lem p.name retryable t.participants participants w found in
            (w', undone, ground (arith, facts))
      ]

  rollback_all_null :
      (before after : List (Registration D W)) (r : Registration D W) (w : W)
      → r.participant.rollback ≡ none
      → rollback_all (before ++ r ∷ after) w ≡ none
  unfolding rollback_all
  rollback_all_null [] after r w null = ground arith
  rollback_all_null (x ∷ before) after r w null = elim (Option-cases x.participant.rollback) [
    | inl e ↦ ground arith
    | inr (roll, e) ↦ rw e (rollback_all_null before after r (roll x.context w) null)
  ]

  -- A participant built by `gzochid_transaction_participant_new` has lost its rollback callback:
  -- once it is registered and any participant is marked, ending the transaction calls a null
  -- pointer.
  pub participant_new_crashes :
      (now : Timeval) (thread : Thread D W) (t : Transaction D W) (w : W) (name : ℕ)
      (prepare : Bool → D → W → W × Vote) (commit roll : D → W → W) (r : Registration D W)
      (before after : List (Registration D W))
      → thread.transaction ≡ some t
      → t.participants ≡ before ++ r ∷ after
      → r.participant ≡ participant_new name prepare commit roll
      → rollback_only t.participants ≡ true
      → end now thread w ≡ none
  unfolding end finish participant_new
  participant_new_crashes now thread t w name prepare commit roll r before after e registered made
        bad =
      let null : r.participant.rollback ≡ none = ap (λ p. p.rollback) made in
      let crash = rollback_all_null before after r w null in ground arith
