-- ===== src/Tx.antt =====
-- gzochi-server/src/tx.c and tx.h: the per-thread transaction coordinator. What the participants'
-- callbacks work on is a type `W` of worlds, their `gpointer` data a type `D`. A participant's name
-- matters only for `g_str_equal`, and is a number. The hash table of participants is the list of its
-- registrations in the order in which GLib visits them. `none` is a failed assertion or a call or
-- read through a null pointer.
pub mod Timeout
pub mod Finish
pub mod Registry
pub mod Log
use gnu_gzochi.Base.{
  ℕ, ◌+◌, ◌%◌, ◌^◌, Bool, true, false, not, ◌&&◌, ◌||◌, Option, none, some, List, [], ◌∷◌, ◌>>=◌,
  ◌==◌, leb, if◌then◌else◌,
}
use gnu_gzochi.Timeval.{Timeval, timer_gt, timer_sub, timer_zero}

pub data State : Type 0 where
  active preparing committing rolling_back committed rolled_back : State

pub data TransactionResult : Type 0 where
  pending success failure should_retry : TransactionResult

pub record Timing : Type 0 where
  pub start_time : Timeval
  pub timeout : Option Timeval

-- A prepare callback's answer, and what it passed to `gzochid_transaction_mark_for_rollback`.
pub record Vote : Type 0 where
  pub prepared : Bool
  pub mark : Option Bool

-- A prepare callback is called with what `gzochid_transaction_rollback_only` returns to it.
pub record Participant (D W : Type 0) : Type 0 where
  pub name : ℕ
  pub prepare : Bool → D → W → W × Vote
  pub commit : D → W → W
  pub rollback : Option (D → W → W)

pub record Registration (D W : Type 0) : Type 0 where
  pub participant : Participant D W
  pub context : D
  pub marked : Bool
  pub retryable : Bool

pub record Transaction (D W : Type 0) : Type 0 where
  pub id : ℕ
  pub participants : List (Registration D W)
  pub state : State
  pub timing : Option Timing

-- The two thread-local keys, and the global counter.
pub record Thread (D W : Type 0) : Type 0 where
  pub transaction : Option (Transaction D W)
  pub timing : Option Timing
  pub transaction_counter : ℕ

-- How a transaction ended, before it is freed.
pub record Ending (D W : Type 0) : Type 0 where
  pub transaction : Transaction D W
  pub world : W
  pub success : Bool
  pub should_retry : Bool

-- Time left of a transaction's timeout at the time `now`; zero where there is no timeout.
unfoldable pub time_remaining : Timing → Timeval → Timeval
time_remaining timing now = elim timing.timeout [
  | none ↦ timer_zero
  | some timeout ↦
      let elapsed = timer_sub now timing.start_time in
      if timer_gt elapsed timeout then timer_zero else timer_sub timeout elapsed
]

-- `tv_sec <= 0 && tv_usec <= 0`.
abbrev pub is_spent : Timeval → Bool
is_spent t = leb t.tv_sec 0 && leb t.tv_usec 0

abbrev pub has_timeout : Timing → Bool
has_timeout timing = elim timing.timeout [ none ↦ false | some t ↦ true ]

unfoldable pub is_timed_out : Timing → Timeval → Bool
is_timed_out timing now = has_timeout timing && is_spent (time_remaining timing now)

abbrev pub is_active : State → Bool
is_active State.active = true
is_active _ = false

abbrev pub is_marking : Option Bool → Bool
is_marking none = false
is_marking (some retryable) = true

module _ {D W : Type 0} where
  -- `calloc` leaves the callback that is not stored, `rollback`, null.
  unfoldable pub participant_new :
      ℕ → (Bool → D → W → W × Vote) → (D → W → W) → (D → W → W) → Participant D W
  participant_new name prepare commit rollback = record {
    name = name;
    prepare = prepare;
    commit = commit;
    rollback = none;
  }

  unfoldable pub transaction_new : Option Timing → ℕ → Transaction D W
  transaction_new timing counter = record {
    id = counter;
    participants = [];
    state = State.active;
    timing = timing;
  }

  unfoldable pub find_registration : ℕ → List (Registration D W) → Option (Registration D W)
  find_registration name [] = none
  find_registration name (r ∷ rs) =
      if r.participant.name == name then some r else find_registration name rs

  unfoldable pub register : Participant D W → D → List (Registration D W) → List (Registration D W)
  register p data' rs = elim (find_registration p.name rs) [
    | some r ↦ rs
    | none ↦ record { participant = p; context = data'; marked = false; retryable = false } ∷ rs
  ]

  unfoldable pub join : Participant D W → D → Thread D W → Option (Thread D W)
  unfolding transaction_new register
  join p data' thread = elim thread.transaction [
    | none ↦
        let t = transaction_new thread.timing thread.transaction_counter in
        some (record thread {
          transaction = some (record t { participants = register p data' t.participants });
          transaction_counter = (thread.transaction_counter + 1) % 2 ^ 64;
        })
    | some t ↦
        if is_active t.state
        then some (record thread {
          transaction = some (record t { participants = register p data' t.participants });
        })
        else none
  ]

  unfoldable pub context : Participant D W → Thread D W → Option (Option D)
  context p thread = do
    t ← thread.transaction
    some (elim (find_registration p.name t.participants) [ none ↦ none | some r ↦ some r.context ])

  abbrev pub mark : Option Bool → Registration D W → Registration D W
  mark none r = r
  mark (some retryable) r = record r { marked = true; retryable = retryable }

  -- The loop of `prepare`: it stops at the first participant that does not prepare. Before it no
  -- participant is marked; `marked` is whether one has been marked since.
  unfoldable pub prepare_all :
      Bool → List (Registration D W) → W → List (Registration D W) × W × Bool
  prepare_all marked [] w = ([], w, true)
  prepare_all marked (r ∷ rs) w =
      let (w', vote) = r.participant.prepare marked r.context w in
      let r' = mark vote.mark r in
      let rest = prepare_all (marked || is_marking vote.mark) rs w' in
      if vote.prepared then (r' ∷ rest.0, rest.1, rest.2) else (r' ∷ rs, w', false)

  unfoldable pub commit_all : List (Registration D W) → W → W
  commit_all [] w = w
  commit_all (r ∷ rs) w = commit_all rs (r.participant.commit r.context w)

  unfoldable pub rollback_all : List (Registration D W) → W → Option W
  rollback_all [] w = some w
  rollback_all (r ∷ rs) w = do roll ← r.participant.rollback; rollback_all rs (roll r.context w)

  unfoldable pub rollback_only : List (Registration D W) → Bool
  rollback_only [] = false
  rollback_only (r ∷ rs) = r.marked || rollback_only rs

  unfoldable pub is_retryable : List (Registration D W) → Bool
  is_retryable [] = true
  is_retryable (r ∷ rs) = not (r.marked && not r.retryable) && is_retryable rs

  unfoldable pub mark_registration :
      ℕ → Bool → List (Registration D W) → Option (List (Registration D W))
  mark_registration name retryable [] = none
  mark_registration name retryable (r ∷ rs) =
      if r.participant.name == name
      then some (mark (some retryable) r ∷ rs)
      else (mark_registration name retryable rs >>= λ rs'. some (r ∷ rs'))

  unfoldable pub mark_for_rollback : Participant D W → Bool → Thread D W → Option (Thread D W)
  mark_for_rollback p retryable thread = do
    t ← thread.transaction
    participants ← mark_registration p.name retryable t.participants
    some (record thread { transaction = some (record t { participants = participants }) })

  unfoldable pub begin : Timing → Timeval → Thread D W → Thread D W
  begin timing now thread = record thread { timing = some (record timing { start_time = now }) }

  -- `rollback (transaction); success = FALSE;`, with the value of `should_retry`.
  abbrev pub abort : Transaction D W → W → Bool → Option (Ending D W)
  abort t w retry = do
    w' ← rollback_all t.participants w
    some (record {
      transaction = record t { state = State.rolled_back };
      world = w';
      success = false;
      should_retry = retry;
    })

  -- The branches of `gzochid_transaction_end`, after `prepare` has succeeded and before.
  unfoldable pub settle : Transaction D W → Option Timing → Timeval → W → Option (Ending D W)
  settle t timing now w = do
    timing ← timing
    if is_timed_out timing now
        then abort t w true
        else some (record {
          transaction = record t { state = State.committed };
          world = commit_all t.participants w;
          success = true;
          should_retry = false;
        })

  unfoldable pub finish : Transaction D W → Option Timing → Timeval → W → Option (Ending D W)
  unfolding settle
  finish t timing now w =
      if rollback_only t.participants
      then abort t w false
      else let (participants, w', prepared) = prepare_all false t.participants w in
        let t' = record t { participants = participants; state = State.preparing } in
        if prepared then settle t' timing now w' else abort t' w' false

  abbrev pub result : Ending D W → TransactionResult
  result e =
      if e.success
      then TransactionResult.success
      else if e.should_retry || is_retryable e.transaction.participants
      then TransactionResult.should_retry
      else TransactionResult.failure

  -- `gzochid_transaction_end`, with the time read by its `time_remaining`.
  unfoldable pub end : Timeval → Thread D W → W → Option (Thread D W × W × TransactionResult)
  unfolding finish
  end now thread w = elim thread.transaction [
    | none ↦ some (record thread { timing = none }, w, TransactionResult.success)
    | some t ↦ do
      e ← finish t thread.timing now w
      some (record thread { transaction = none; timing = none }, e.world, result e)
  ]

  -- `gzochid_transaction_execute` and `gzochid_transaction_execute_timed`: `func` may join
  -- participants and mark them, and changes the world.
  unfoldable pub execute :
      (Thread D W → W → Option (Thread D W × W))
      → Option Timeval
      → Timeval
      → Timeval
      → Thread D W
      → W
      → Option (Thread D W × W × TransactionResult)
  unfolding begin end
  execute func timeout began ended thread w = do
    (thread, w) ←
        func (begin (record { start_time = timer_zero; timeout = timeout }) began thread) w
    end ended thread w

  unfoldable pub is_transaction_active : Thread D W → Bool
  is_transaction_active thread = elim thread.transaction [
    | none ↦ false
    | some t ↦ is_active t.state
  ]

  unfoldable pub is_rollback_only : Thread D W → Option Bool
  is_rollback_only thread = do t ← thread.transaction; some (rollback_only t.participants)

  -- The timeout is the transaction's, the time that is left the thread's.
  unfoldable pub timed_out : Thread D W → Timeval → Option Bool
  timed_out thread now = do
    t ← thread.transaction
    timing ← t.timing
    if has_timeout timing
        then (thread.timing >>= λ timing. some (is_spent (time_remaining timing now)))
        else some false

  unfoldable pub timed : Thread D W → Option Bool
  timed thread = do timing ← thread.timing; some (has_timeout timing)
