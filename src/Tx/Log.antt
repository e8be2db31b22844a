-- ===== src/Tx/Log.antt =====
-- gzochi-server/src/tx.c: atomic commitment, read off the calls that the participants receive. The
-- world is the list of the calls made so far; a voter records each call and answers as it likes.
use mathlib.Core.List.{append_assoc, append-nil}
use gnu_gzochi.Base.{
  ℕ, Bool, true, false, not, ◌&&◌, ◌||◌, ◌≡◌, refl, ap, ◌∙◌, Option, none, some, List, [], ◌∷◌,
  ◌++◌, map, all, arith, if◌then◌else◌,
}
use mathlib.Core.Option
use gnu_gzochi.Timeval.{Timeval}
use gnu_gzochi.Tx.{
  State, Vote, Participant, Registration, Transaction, Ending, Timing, is_marking, prepare_all,
  commit_all, rollback_all, rollback_only, finish, is_timed_out,
}

pub data Call : Type 0 where
  prepares commits rolls_back : ℕ → Call

pub record Voter : Type 0 where
  pub name : ℕ
  pub vote : Vote
  pub marked : Bool
  pub retryable : Bool

abbrev pub participant_of : Voter → Participant (Unit {0}) (List Call)
participant_of v = record {
  name = v.name;
  prepare = λ _ _ calls. (calls ++ prepares v.name ∷ [], v.vote);
  commit = λ _ calls. calls ++ commits v.name ∷ [];
  rollback = some (λ _ calls. calls ++ rolls_back v.name ∷ []);
}

abbrev pub registration_of : Voter → Registration (Unit {0}) (List Call)
registration_of v = record {
  participant = participant_of v;
  context = tt;
  marked = v.marked;
  retryable = v.retryable;
}

abbrev pub registrations : List Voter → List (Registration (Unit {0}) (List Call))
registrations = map registration_of

-- The prepare calls that a round of votes sees: up to the first refusal, which is included.
abbrev pub asked : List Voter → List Call
asked [] = []
asked (v ∷ vs) = prepares v.name ∷ (if v.vote.prepared then asked vs else [])

abbrev pub committed_calls : List Voter → List Call
committed_calls = map (λ v. commits v.name)

abbrev pub rolled_back_calls : List Voter → List Call
rolled_back_calls = map (λ v. rolls_back v.name)

abbrev pub any_marked : List Voter → Bool
any_marked [] = false
any_marked (v ∷ vs) = v.marked || any_marked vs

abbrev pub all_prepared : List Voter → Bool
all_prepared = all (λ v. v.vote.prepared)

-- The voters after the round: the marks that their prepare callbacks made are on them.
abbrev apply_mark : Option Bool → Voter → Voter
apply_mark none v = v
apply_mark (some r) v = record v { marked = true; retryable = r }

abbrev after : List Voter → List Voter
after [] = []
after (v ∷ vs) = apply_mark v.vote.mark v ∷ (if v.vote.prepared then after vs else vs)

commit_all_lem :
    (vs : List Voter) (w : List Call) → commit_all (registrations vs) w ≡ w ++ committed_calls vs
unfolding commit_all
commit_all_lem [] w = simp append-nil
commit_all_lem (v ∷ vs) w =
    commit_all_lem vs (w ++ commits v.name ∷ []) ∙ append_assoc w (commits v.name ∷ []) _

rollback_all_lem :
    (vs : List Voter) (w : List Call)
    → rollback_all (registrations vs) w ≡ some (w ++ rolled_back_calls vs)
unfolding rollback_all
rollback_all_lem [] w = simp append-nil
rollback_all_lem (v ∷ vs) w =
    rollback_all_lem vs (w ++ rolls_back v.name ∷ [])
    ∙ ap some (append_assoc w (rolls_back v.name ∷ []) _)

abbrev Asked : Bool → List Voter → List Call → Type 0
Asked flag vs w =
    prepare_all flag (registrations vs) w
    ≡ (registrations (after vs), w ++ asked vs, all_prepared vs)

prepare_all-cons :
    (flag : Bool) (name : ℕ) (prepared : Bool) (m : Option Bool) (marked retryable : Bool)
    (vs : List Voter) (w : List Call)
    → Asked (flag || is_marking m) vs (w ++ prepares name ∷ [])
    → Asked flag
        (record {
          name = name;
          vote = record { prepared = prepared; mark = m };
          marked = marked;
          retryable = retryable;
        }
          ∷ vs)
        w
unfolding prepare_all
prepare_all-cons flag name false none marked retryable vs w rest = refl
prepare_all-cons flag name false (some r) marked retryable vs w rest = refl
prepare_all-cons flag name true none marked retryable vs w rest = rw rest (simp append_assoc)
prepare_all-cons flag name true (some r) marked retryable vs w rest = rw rest (simp append_assoc)

prepare_all_lem : (flag : Bool) (vs : List Voter) (w : List Call) → Asked flag vs w
unfolding prepare_all
prepare_all_lem flag [] w = simp append-nil
prepare_all_lem flag (v ∷ vs) w =
    prepare_all-cons flag v.name v.vote.prepared v.vote.mark v.marked v.retryable vs w
      (prepare_all_lem (flag || is_marking v.vote.mark) vs (w ++ prepares v.name ∷ []))

rolled_back_calls-after : (vs : List Voter) → rolled_back_calls (after vs) ≡ rolled_back_calls vs
rolled_back_calls-after [] = refl
rolled_back_calls-after (v ∷ vs) = ground (arith, rolled_back_calls-after vs)

committed_calls-after : (vs : List Voter) → committed_calls (after vs) ≡ committed_calls vs
committed_calls-after [] = refl
committed_calls-after (v ∷ vs) = ground (arith, committed_calls-after vs)

rollback_only_lem : (vs : List Voter) → rollback_only (registrations vs) ≡ any_marked vs
unfolding rollback_only
rollback_only_lem [] = refl
rollback_only_lem (v ∷ vs) = rw (rollback_only_lem vs)

-- The calls of a whole transaction, whether it succeeds, and the state that it ends in.
abbrev pub expected : List Voter → Bool → List Call × Bool × State
expected vs late =
    if any_marked vs
    then (rolled_back_calls vs, false, State.rolled_back)
    else if all_prepared vs && not late
    then (asked vs ++ committed_calls vs, true, State.committed)
    else (asked vs ++ rolled_back_calls vs, false, State.rolled_back)

-- Atomic commitment, for every list of participants and every vote: a transaction with a marked
-- participant is rolled back by all without being prepared; otherwise the participants are asked in
-- order up to the first refusal, and then either every one of them is told to commit, each once and
-- none to roll back, which happens exactly if all have prepared and the timeout has not elapsed, or
-- every one of them is told to roll back, each once and none to commit.
pub finish-expected :
    (vs : List Voter) (t : Transaction (Unit {0}) (List Call)) (timing : Timing) (now : Timeval)
    → t.participants ≡ registrations vs
    → Option.map
        (λ (e : Ending (Unit {0}) (List Call)). (e.world, e.success, e.transaction.state))
        (finish t (some timing) now [])
      ≡ some (expected vs (is_timed_out timing now))
unfolding finish
finish-expected vs t timing now participants =
    rw (participants, rollback_only_lem vs, prepare_all_lem false vs [])
      (rw
        (
          rollback_all_lem vs [],
          rollback_all_lem (after vs) (asked vs),
          commit_all_lem (after vs) (asked vs),
          rolled_back_calls-after vs,
          committed_calls-after vs,
        )
        (ground arith))
