-- ===== src/Fsm/Build.antt =====
-- gzochi-server/src/fsm.c: every operation keeps the machine's tables consistent.
use gnu_gzochi.Base.{
  ℕ, true, ◌≡◌, refl, subst, if-eq-some, some, List, [], ◌∷◌, All, All-append, arith,
}
use gnu_gzochi.Fsm.{
  FsmState, Fsm, find_state, has_state, new, add_state, add_transition, append_enter, append_exit,
}

module _ {ℓ} {H : Type ℓ} where
  abbrev IsDeclared : List (FsmState H) → ℕ × ℕ → Type 0
  IsDeclared states (from, to) = (has_state from states ≡ true) × (has_state to states ≡ true)

  -- The current state and both ends of every transition are states of the machine.
  pub record IsValid (fsm : Fsm H) : Type 0 where
    pub current_known : has_state fsm.current_state fsm.states ≡ true
    pub transitions_known : All (IsDeclared fsm.states) fsm.transitions

  pub new-IsValid : (s : ℕ) → IsValid (new s)
  unfolding new find_state
  new-IsValid s = ground arith

  has_state-cons :
      (s : ℕ) (e : FsmState H) (states : List (FsmState H))
      → has_state s states ≡ true
      → has_state s (e ∷ states) ≡ true
  unfolding find_state
  has_state-cons s e states h = ground arith

  IsDeclared-cons :
      (e : FsmState H) (states : List (FsmState H)) (ts : List (ℕ × ℕ))
      → All (IsDeclared states) ts
      → All (IsDeclared (e ∷ states)) ts
  IsDeclared-cons e states [] h = tt
  IsDeclared-cons e states ((a, b) ∷ ts) h = (
    (has_state-cons a e states h.0.0, has_state-cons b e states h.0.1),
    IsDeclared-cons e states ts h.1,
  )

  pub add_state-IsValid :
      (s : ℕ) (fsm fsm' : Fsm H) → add_state s fsm ≡ some fsm' → IsValid fsm → IsValid fsm'
  unfolding add_state
  add_state-IsValid s fsm fsm' e v =
      let new_state : FsmState H = record {
        state = s;
        enter_functions = [];
        exit_functions = [];
      } in
      let known = has_state-cons fsm.current_state new_state fsm.states v.current_known in
      let declared = IsDeclared-cons new_state fsm.states fsm.transitions v.transitions_known in
      let (_, made) = if-eq-some _ _ fsm' e in
      subst IsValid made (record { current_known = known; transitions_known = declared })

  pub add_transition-IsValid :
      (from to : ℕ) (fsm fsm' : Fsm H)
      → add_transition from to fsm ≡ some fsm'
      → IsValid fsm
      → IsValid fsm'
  unfolding add_transition
  add_transition-IsValid from to fsm fsm' e v =
      let (guarded, made) = if-eq-some _ _ fsm' e in
      let ends : IsDeclared fsm.states (from, to) = (ground arith, ground arith) in
      subst IsValid made (record {
        current_known = v.current_known;
        transitions_known =
            All-append (IsDeclared fsm.states) fsm.transitions ((from, to) ∷ []) v.transitions_known
              (ends, tt);
      })

  pub has_state-append_enter :
      (s t : ℕ) (h : H) (states : List (FsmState H))
      → has_state t (append_enter s h states) ≡ has_state t states
  unfolding find_state append_enter
  has_state-append_enter s t h [] = refl
  has_state-append_enter s t h (e ∷ states) = ground (arith, has_state-append_enter s t h states)

  pub has_state-append_exit :
      (s t : ℕ) (h : H) (states : List (FsmState H))
      → has_state t (append_exit s h states) ≡ has_state t states
  unfolding find_state append_exit
  has_state-append_exit s t h [] = refl
  has_state-append_exit s t h (e ∷ states) = ground (arith, has_state-append_exit s t h states)
