-- ===== src/Fsm/Quiet.antt =====
-- gzochi-server/src/fsm.c: the exact effect of a request where the callbacks make none themselves.
use gnu_gzochi.Base.{
  ℕ, suc, true, false, ◌≡◌, ◌≢◌, refl, sym, ap, ◌∙◌, some, List, [], ◌∷◌, ◌==◌, ◌&&◌, not, arith,
  if◌then◌else◌,
}
use gnu_gzochi.Fsm.{
  FsmState, Fsm, Action, done, failed, find_state, permits, call_functions, change_state, serve,
  remove_first, drain, to_state, act_all,
}
use gnu_gzochi.Fsm.Run.{world_after}
use gnu_gzochi.Fsm.Drain.{drain_nil, drain_step}
use gnu_gzochi.Fsm.Ends.{to_state_rest}

module _ {ℓ κ} {H : Type ℓ} {W : Type κ} (behave : H → ℕ → ℕ → W → W × List (Action H))
    (quiet : (h : H) (from to : ℕ) (w : W) → (behave h from to w).1 ≡ []) where
  call_functions_quiet :
      (hs : List H) (from to : ℕ) (fsm : Fsm H) (w : W)
      → call_functions behave hs from to fsm w ≡ some (fsm, world_after behave hs from to w)
  unfolding call_functions act_all
  call_functions_quiet [] from to fsm w = refl
  call_functions_quiet (h ∷ hs) from to fsm w =
      rw (quiet h from to w) (call_functions_quiet hs from to fsm (behave h from to w).0)

  change_state_quiet :
      (s : ℕ) (fsm : Fsm H) (w : W) (old_state new_state : FsmState H)
      → s ≢ fsm.current_state
      → permits fsm.transitions fsm.current_state s ≡ true
      → find_state fsm.current_state fsm.states ≡ some old_state
      → find_state s fsm.states ≡ some new_state
      → let w₁ = world_after behave old_state.exit_functions fsm.current_state s w in
        change_state behave s fsm w
        ≡ some (
          record fsm { current_state = s },
          world_after behave new_state.enter_functions fsm.current_state s w₁,
        )
  unfolding change_state
  change_state_quiet s fsm w old_state new_state moves permitted found found' =
      let from = fsm.current_state in
      let guard : (not (from == s) && permits fsm.transitions from s) ≡ true = ground arith in
      let w₁ = world_after behave old_state.exit_functions from s w in
      rw (
        guard,
        found,
        found',
        call_functions_quiet old_state.exit_functions from s fsm w,
        found',
        call_functions_quiet new_state.enter_functions from s fsm w₁,
      )

  -- With callbacks that make no requests, a request for a permitted state other than the current
  -- one, to a started machine at rest that knows both, does exactly this: it calls the functions
  -- registered for leaving the old state, then those for entering the new one, each once and in
  -- the order of their registration, and moves the machine.
  pub to_state_quiet :
      (fuel s : ℕ) (fsm : Fsm H) (w : W) (old_state new_state : FsmState H)
      → fsm.started ≡ true
      → fsm.pending_states ≡ []
      → s ≢ fsm.current_state
      → permits fsm.transitions fsm.current_state s ≡ true
      → find_state fsm.current_state fsm.states ≡ some old_state
      → find_state s fsm.states ≡ some new_state
      → let w₁ = world_after behave old_state.exit_functions fsm.current_state s w in
        to_state behave (suc (suc fuel)) s fsm w
        ≡ done (
          record fsm { current_state = s },
          world_after behave new_state.enter_functions fsm.current_state s w₁,
        )
  unfolding serve remove_first
  to_state_quiet fuel s fsm w old_state new_state on rest moves permitted found found' =
      let queued = record fsm { pending_states = s ∷ [] } in
      let other : (s == fsm.current_state) ≡ false = ground arith in
      let w₁ = world_after behave old_state.exit_functions fsm.current_state s w in
      let end = world_after behave new_state.enter_functions fsm.current_state s w₁ in
      let moved = change_state_quiet s queued w old_state new_state moves permitted found found' in
      let round : serve behave s queued w
          ≡ some (record queued { pending_states = []; current_state = s }, end) =
        rw other (rw moved) in
      let after = record queued { pending_states = []; current_state = s } in
      to_state_rest behave (suc (suc fuel)) s fsm w rest
      ∙ ap (λ b. if b then drain behave (suc (suc fuel)) queued w else failed) on
      ∙ drain_step behave (suc fuel) queued after w end s [] refl round
      ∙ drain_nil behave fuel after end refl
      ∙ ap (λ ps. done (record fsm { pending_states = ps; current_state = s }, end)) (sym rest)
