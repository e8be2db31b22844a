-- ===== src/Tests/Machines.antt =====
-- gzochi-server/src/fsm.c at concrete inputs: states 0, 1 and 2, with transitions 0 to 1 to 2, and
-- a function on entering 1 that requests 2.
use gnu_gzochi.Base.{ℕ, zero, suc, ◌+◌, ◌≤◌, ◌≡◌, refl, true, List, [], ◌∷◌, arith, length}
use gnu_gzochi.Fsm.{
  FsmState, Fsm, Action, done, request, to_state, drain, serve, change_state, call_functions,
  find_state, permits, act, act_all, remove_first,
}
use gnu_gzochi.Fsm.Build.{IsValid}
use gnu_gzochi.Fsm.Run.{requests}
use gnu_gzochi.Fsm.Drain.{Drained}
use gnu_gzochi.Fsm.Ends.{WorkedOff, to_state-Drained, to_state_ends}
use gnu_gzochi.Fsm.Quiet.{to_state_quiet}

-- A function is the list of states that it requests; the world counts the requests still allowed.
abbrev follow : List ℕ → ℕ → ℕ → ℕ → ℕ × List (Action (List ℕ))
follow [] from to w = (w, [])
follow (s ∷ _) from to zero = (0, [])
follow (s ∷ _) from to (suc w) = (w, request s ∷ [])

abbrev state_of : ℕ → List (List ℕ) → FsmState (List ℕ)
state_of s enters = record { state = s; enter_functions = enters; exit_functions = [] }

abbrev machine : ℕ → Fsm (List ℕ)
machine current = record {
  states = state_of 0 [] ∷ state_of 1 ((2 ∷ []) ∷ []) ∷ state_of 2 [] ∷ [];
  transitions = (0, 1) ∷ (1, 2) ∷ [];
  pending_states = [];
  current_state = current;
  started = true;
}

machine-IsValid : IsValid (machine 0)
unfolding find_state
machine-IsValid = record {
  current_known = refl;
  transitions_known = ((refl, refl), ((refl, refl), tt));
}

to_state_runs : to_state follow 5 1 (machine 0) 3 ≡ done (machine 2, 2)
unfolding to_state drain serve change_state call_functions act_all act find_state permits
    remove_first
to_state_runs = refl

to_state-Drained_example :
    Drained follow (machine 0) (machine 2) × IsValid (machine 2) × ((machine 2).started ≡ true)
to_state-Drained_example =
    to_state-Drained follow 5 1 (machine 0) (machine 2) 3 2 refl machine-IsValid to_state_runs

follow_frugal :
    (h : List ℕ) (from to w : ℕ)
    → length (requests (follow h from to w).1) + (follow h from to w).0 ≤ w
follow_frugal [] from to w = omega arith
follow_frugal (s ∷ _) from to zero = omega arith
follow_frugal (s ∷ _) from to (suc w) = omega arith

to_state_ends_example :
    WorkedOff follow
      (record (machine 0) { pending_states = 1 ∷ [] })
      3
      (to_state follow 5 1 (machine 0) 3)
to_state_ends_example =
    to_state_ends follow (λ w. w) follow_frugal 5 1 (machine 0) 3 refl refl (omega arith)

-- A function that only counts its calls.
abbrev count : List ℕ → ℕ → ℕ → ℕ → ℕ × List (Action (List ℕ))
count h from to w = (w + 1, [])

to_state_quiet_example : to_state count 2 1 (machine 0) 7 ≡ done (machine 1, 8)
unfolding find_state permits
to_state_quiet_example =
    to_state_quiet count (λ h from to w. refl) 0 1 (machine 0) 7 (state_of 0 [])
      (state_of 1 ((2 ∷ []) ∷ [])) refl refl (λ e. omega arith) refl refl refl
