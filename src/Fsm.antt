-- ===== src/Fsm.antt =====
-- gzochi-server/src/fsm.c: the finite state machine. `H` is the type of registered functions with
-- their data, and `behave` says what a call of one does to the rest of the program, a world, and to
-- the machine itself, through its interface. One thread is in the machine at a time: its recursive
-- mutex is held throughout, and the condition variable only wakes `gzochid_fsm_until`. Descriptions
-- are for the log. `none` is a failed assertion.
pub mod Build
pub mod Run
pub mod Reach
pub mod Drain
pub mod Ends
pub mod Quiet
use gnu_gzochi.Base.{
  ℕ, zero, suc, Bool, true, false, not, ◌&&◌, Option, none, some, List, [], ◌∷◌, ◌++◌, ◌>>=◌, ◌==◌,
  if◌then◌else◌,
}

pub record FsmState {ℓ} (H : Type ℓ) : Type ℓ where
  pub state : ℕ
  pub enter_functions : List H
  pub exit_functions : List H

-- `states` and `transitions` are hash tables; a transition's target is the state's number where the
-- source has a pointer to its one structure.
pub record Fsm {ℓ} (H : Type ℓ) : Type ℓ where
  pub states : List (FsmState H)
  pub transitions : List (ℕ × ℕ)
  pub pending_states : List ℕ
  pub current_state : ℕ
  pub started : Bool

-- What a registered function may do to the machine that calls it.
pub data Action {ℓ} (H : Type ℓ) : Type ℓ where
  request : ℕ → Action H
  register_enter : ℕ → H → Action H
  register_exit : ℕ → H → Action H

-- The end of a loop whose length the registered functions decide.
pub data Outcome {ℓ} (A : Type ℓ) : Type ℓ where
  done : A → Outcome A
  failed : Outcome A
  out_of_fuel : Outcome A

-- `g_list_find (transitions, new_state) != NULL`.
unfoldable pub permits : List (ℕ × ℕ) → ℕ → ℕ → Bool
permits [] from to = false
permits ((a, b) ∷ transitions) from to =
    if (a == from) && (b == to) then true else permits transitions from to

module _ {ℓ} {H : Type ℓ} where
  unfoldable pub find_state : ℕ → List (FsmState H) → Option (FsmState H)
  find_state s [] = none
  find_state s (e ∷ states) = if e.state == s then some e else find_state s states

  abbrev pub has_state : ℕ → List (FsmState H) → Bool
  has_state s states = elim (find_state s states) [ none ↦ false | some e ↦ true ]

  unfoldable pub new : ℕ → Fsm H
  new s = record {
    states = record { state = s; enter_functions = []; exit_functions = [] } ∷ [];
    transitions = [];
    pending_states = [];
    current_state = s;
    started = false;
  }

  -- Adding a state again frees the structure that the table's key lies in: undefined, `none`.
  unfoldable pub add_state : ℕ → Fsm H → Option (Fsm H)
  add_state s fsm =
      if not fsm.started && not (has_state s fsm.states)
      then some (record fsm {
        states = record { state = s; enter_functions = []; exit_functions = [] } ∷ fsm.states;
      })
      else none

  unfoldable pub add_transition : ℕ → ℕ → Fsm H → Option (Fsm H)
  add_transition from to fsm =
      if not fsm.started && (has_state from fsm.states && has_state to fsm.states)
      then some (record fsm { transitions = fsm.transitions ++ (from, to) ∷ [] })
      else none

  unfoldable pub append_enter : ℕ → H → List (FsmState H) → List (FsmState H)
  append_enter s h [] = []
  append_enter s h (e ∷ states) =
      if e.state == s
      then record e { enter_functions = e.enter_functions ++ h ∷ [] } ∷ states
      else e ∷ append_enter s h states

  unfoldable pub append_exit : ℕ → H → List (FsmState H) → List (FsmState H)
  append_exit s h [] = []
  append_exit s h (e ∷ states) =
      if e.state == s
      then record e { exit_functions = e.exit_functions ++ h ∷ [] } ∷ states
      else e ∷ append_exit s h states

  unfoldable pub on_enter : ℕ → H → Fsm H → Option (Fsm H)
  on_enter s h fsm =
      if has_state s fsm.states
      then some (record fsm { states = append_enter s h fsm.states })
      else none

  unfoldable pub on_exit : ℕ → H → Fsm H → Option (Fsm H)
  on_exit s h fsm =
      if has_state s fsm.states
      then some (record fsm { states = append_exit s h fsm.states })
      else none

  -- A call of `gzochid_fsm_to_state` while a state change is under way: the request is queued. The
  -- queue is not empty then; where it were, the call would begin a loop of its own (`none`).
  unfoldable pub enqueue : ℕ → Fsm H → Option (Fsm H)
  enqueue s fsm = elim fsm.pending_states [
    | [] ↦ none
    | p ∷ ps ↦
        if fsm.started then some (record fsm { pending_states = p ∷ (ps ++ s ∷ []) }) else none
  ]

  unfoldable pub act : Action H → Fsm H → Option (Fsm H)
  unfolding enqueue on_enter on_exit
  act (request s) fsm = enqueue s fsm
  act (register_enter s h) fsm = on_enter s h fsm
  act (register_exit s h) fsm = on_exit s h fsm

  unfoldable pub act_all : List (Action H) → Fsm H → Option (Fsm H)
  act_all [] fsm = some fsm
  act_all (a ∷ actions) fsm = do fsm ← act a fsm; act_all actions fsm

  -- `g_array_remove_index (pending_states, 0)`.
  unfoldable pub remove_first : Fsm H → Fsm H
  remove_first fsm = elim fsm.pending_states [
    | [] ↦ fsm
    | p ∷ ps ↦ record fsm { pending_states = ps }
  ]

module _ {ℓ κ} {H : Type ℓ} {W : Type κ} (behave : H → ℕ → ℕ → W → W × List (Action H)) where
  -- `g_list_foreach` over a copy of the registered functions.
  unfoldable pub call_functions : List H → ℕ → ℕ → Fsm H → W → Option (Fsm H × W)
  call_functions [] from to fsm w = some (fsm, w)
  call_functions (h ∷ hs) from to fsm w = do
    let (w', actions) = behave h from to w
    fsm' ← act_all actions fsm
    call_functions hs from to fsm' w'

  -- The static `to_state`. The new state's functions are copied after the old state's have run.
  unfoldable pub change_state : ℕ → Fsm H → W → Option (Fsm H × W)
  change_state s fsm w =
      if not (fsm.current_state == s) && permits fsm.transitions fsm.current_state s
      then (do
        old_state ← find_state fsm.current_state fsm.states
        new_state ← find_state s fsm.states
        (fsm₁, w₁) ← call_functions old_state.exit_functions fsm.current_state s fsm w
        new_state₁ ← find_state s fsm₁.states
        (fsm₂, w₂) ← call_functions new_state₁.enter_functions fsm.current_state s fsm₁ w₁
        some (record fsm₂ { current_state = s }, w₂))
      else none

  -- One round of the loop, for the request `s` at the head of the queue.
  unfoldable pub serve : ℕ → Fsm H → W → Option (Fsm H × W)
  serve s fsm w = do
    (fsm', w') ← (if s == fsm.current_state then some (fsm, w) else change_state s fsm w)
    some (remove_first fsm', w')

  -- `while (fsm->pending_states->len > 0)`.
  unfoldable pub drain : ℕ → Fsm H → W → Outcome (Fsm H × W)
  drain zero fsm w = out_of_fuel
  drain (suc fuel) fsm w = elim fsm.pending_states [
    | [] ↦ done (fsm, w)
    | s ∷ ps ↦ elim (serve s fsm w) [ none ↦ failed | some (fsm', w') ↦ drain fuel fsm' w' ]
  ]

  unfoldable pub to_state : ℕ → ℕ → Fsm H → W → Outcome (Fsm H × W)
  to_state fuel s fsm w =
      let queued = record fsm { pending_states = fsm.pending_states ++ s ∷ [] } in
      if fsm.started
      then elim fsm.pending_states [ [] ↦ drain fuel queued w | p ∷ ps ↦ done (queued, w) ]
      else failed

  enter_initial : Fsm H → W → Option (Fsm H × W)
  enter_initial fsm w = do
    state ← find_state fsm.current_state fsm.states
    (fsm', w') ← call_functions state.enter_functions fsm.current_state fsm.current_state fsm w
    some (remove_first fsm', w')

  -- What is appended to the queue, a pointer cut to an `int`, only makes the queue non-empty.
  unfoldable pub start : ℕ → ℕ → Fsm H → W → Outcome (Fsm H × W)
  unfolding enter_initial
  start fuel placeholder fsm w =
      let begun = record fsm {
        started = true;
        pending_states = fsm.pending_states ++ placeholder ∷ [];
      } in
      if fsm.started
      then failed
      else elim (enter_initial begun w) [ none ↦ failed | some (fsm', w') ↦ drain fuel fsm' w' ]
