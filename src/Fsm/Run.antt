-- ===== src/Fsm/Run.antt =====
-- gzochi-server/src/fsm.c: what a round of callbacks leaves alone, and what it adds to the queue.
use mathlib.Core.List.{append_assoc, append-nil}
use mathlib.Core.Option.{some-injective}
use gnu_gzochi.Base.{
  ℕ, ◌≡◌, refl, sym, ap, ◌∙◌, some, List, [], ◌∷◌, ◌++◌, arith, if-eq-some, >>=-eq-some, subst,
}
use gnu_gzochi.Fsm.{
  Fsm, Action, request, register_enter, register_exit, has_state, on_enter, on_exit, enqueue, act,
  act_all, call_functions,
}
use gnu_gzochi.Fsm.Build.{has_state-append_enter, has_state-append_exit}

module _ {ℓ} {H : Type ℓ} where
  -- The requests among some actions, in order.
  abbrev pub requests : List (Action H) → List ℕ
  requests [] = []
  requests (request s ∷ actions) = s ∷ requests actions
  requests (register_enter s h ∷ actions) = requests actions
  requests (register_exit s h ∷ actions) = requests actions

  -- `fsm'` is `fsm` after callbacks that requested the states `added`.
  pub record Kept (added : List ℕ) (fsm fsm' : Fsm H) : Type 0 where
    pub same_transitions : fsm'.transitions ≡ fsm.transitions
    pub same_current : fsm'.current_state ≡ fsm.current_state
    pub same_started : fsm'.started ≡ fsm.started
    pub same_states : (s : ℕ) → has_state s fsm'.states ≡ has_state s fsm.states
    pub queued : fsm'.pending_states ≡ fsm.pending_states ++ added

  pub Kept-refl : (fsm : Fsm H) → Kept [] fsm fsm
  Kept-refl fsm = record {
    same_transitions = refl;
    same_current = refl;
    same_started = refl;
    same_states = λ s. refl;
    queued = simp append-nil;
  }

  pub Kept-trans :
      (xs ys : List ℕ) (a b c : Fsm H) → Kept xs a b → Kept ys b c → Kept (xs ++ ys) a c
  Kept-trans xs ys a b c h k = record {
    same_transitions = k.same_transitions ∙ h.same_transitions;
    same_current = k.same_current ∙ h.same_current;
    same_started = k.same_started ∙ h.same_started;
    same_states = λ s. k.same_states s ∙ h.same_states s;
    queued = k.queued ∙ (rw h.queued (append_assoc a.pending_states xs ys));
  }

  enqueue-Kept : (s : ℕ) (fsm fsm' : Fsm H) → enqueue s fsm ≡ some fsm' → Kept (s ∷ []) fsm fsm'
  unfolding enqueue
  enqueue-Kept s fsm fsm' e = record {
    same_transitions = ground arith;
    same_current = ground arith;
    same_started = ground arith;
    same_states = λ t. ground arith;
    queued = ground arith;
  }

  on_enter-Kept :
      (s : ℕ) (h : H) (fsm fsm' : Fsm H) → on_enter s h fsm ≡ some fsm' → Kept [] fsm fsm'
  unfolding on_enter
  on_enter-Kept s h fsm fsm' e =
      let (_, made) = if-eq-some _ _ fsm' e in
      subst (Kept [] fsm) made (record {
        same_transitions = refl;
        same_current = refl;
        same_started = refl;
        same_states = λ t. has_state-append_enter s t h fsm.states;
        queued = simp append-nil;
      })

  on_exit-Kept : (s : ℕ) (h : H) (fsm fsm' : Fsm H) → on_exit s h fsm ≡ some fsm' → Kept [] fsm fsm'
  unfolding on_exit
  on_exit-Kept s h fsm fsm' e =
      let (_, made) = if-eq-some _ _ fsm' e in
      subst (Kept [] fsm) made (record {
        same_transitions = refl;
        same_current = refl;
        same_started = refl;
        same_states = λ t. has_state-append_exit s t h fsm.states;
        queued = simp append-nil;
      })

  act_all-Kept :
      (actions : List (Action H)) (fsm fsm' : Fsm H)
      → act_all actions fsm ≡ some fsm'
      → Kept (requests actions) fsm fsm'
  unfolding act_all act
  act_all-Kept [] fsm fsm' e = subst (Kept [] fsm) (some-injective _ _ e) (Kept-refl fsm)
  act_all-Kept (request s ∷ actions) fsm fsm' e =
      let (mid, first, rest) = >>=-eq-some (enqueue s fsm) _ e in
      Kept-trans (s ∷ []) _ fsm mid fsm' (enqueue-Kept s fsm mid first)
        (act_all-Kept actions mid fsm' rest)
  act_all-Kept (register_enter s h ∷ actions) fsm fsm' e =
      let (mid, first, rest) = >>=-eq-some (on_enter s h fsm) _ e in
      Kept-trans [] _ fsm mid fsm' (on_enter-Kept s h fsm mid first)
        (act_all-Kept actions mid fsm' rest)
  act_all-Kept (register_exit s h ∷ actions) fsm fsm' e =
      let (mid, first, rest) = >>=-eq-some (on_exit s h fsm) _ e in
      Kept-trans [] _ fsm mid fsm' (on_exit-Kept s h fsm mid first)
        (act_all-Kept actions mid fsm' rest)

module _ {ℓ κ} {H : Type ℓ} {W : Type κ} (behave : H → ℕ → ℕ → W → W × List (Action H)) where
  -- The world after some functions, and what they request.
  abbrev pub world_after : List H → ℕ → ℕ → W → W
  world_after [] from to w = w
  world_after (h ∷ hs) from to w = world_after hs from to (behave h from to w).0

  abbrev pub requested : List H → ℕ → ℕ → W → List ℕ
  requested [] from to w = []
  requested (h ∷ hs) from to w =
      requests (behave h from to w).1 ++ requested hs from to (behave h from to w).0

  pub call_functions-Kept :
      (hs : List H) (from to : ℕ) (fsm fsm' : Fsm H) (w w' : W)
      → call_functions behave hs from to fsm w ≡ some (fsm', w')
      → Kept (requested hs from to w) fsm fsm' × (w' ≡ world_after hs from to w)
  unfolding call_functions
  call_functions-Kept [] from to fsm fsm' w w' e =
      let same = some-injective _ _ e in
      (subst (Kept [] fsm) (ap (λ p. p.0) same) (Kept-refl fsm), sym (ap (λ p. p.1) same))
  call_functions-Kept (h ∷ hs) from to fsm fsm' w w' e =
      let (mid, first, rest) = >>=-eq-some (act_all (behave h from to w).1 fsm) _ e in
      let (kept, world) = call_functions-Kept hs from to mid fsm' (behave h from to w).0 w' rest in
      (Kept-trans _ _ fsm mid fsm' (act_all-Kept _ fsm mid first) kept, world)
