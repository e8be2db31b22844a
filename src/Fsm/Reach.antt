-- ===== src/Fsm/Reach.antt =====
-- gzochi-server/src/fsm.c: the machine moves only along its transitions, one request at a time.
use mathlib.Core.Option.{some-injective}
use gnu_gzochi.Base.{
  ℕ, Bool, true, false, ◌&&◌, ◌≡◌, refl, sym, ap, ◌∙◌, some, List, ◌∷◌, ◌++◌, ◌==◌, arith,
  if◌then◌else◌, >>=-eq-some, if_none-eq-some, subst,
}
use gnu_gzochi.Fsm.{
  Fsm, Action, find_state, has_state, permits, call_functions, change_state, serve, remove_first,
}
use gnu_gzochi.Fsm.Run.{Kept-trans, requested, world_after, call_functions-Kept}

and-right : (a b : Bool) → (a && b) ≡ true → b ≡ true
and-right a b h = ground arith

-- The states that a sequence of permitted transitions leads to.
pub data Reach (transitions : List (ℕ × ℕ)) (from : ℕ) : ℕ → Type 0 where
  here : Reach transitions from from
  next :
      {a b : ℕ}
      → Reach transitions from a
      → permits transitions a b ≡ true
      → Reach transitions from b

pub Reach-trans :
    {transitions : List (ℕ × ℕ)} {a b c : ℕ}
    → Reach transitions a b
    → Reach transitions b c
    → Reach transitions a c
Reach-trans h here = h
Reach-trans h (next k permitted) = next (Reach-trans h k) permitted

module _ {ℓ κ} {H : Type ℓ} {W : Type κ} (behave : H → ℕ → ℕ → W → W × List (Action H)) where
  -- A state change to `s`, seen from outside: the functions called and what they have requested.
  pub record Changed (s : ℕ) (fsm fsm' : Fsm H) (w w' : W) : Type (ℓ ⊔ κ) where
    pub exits : List H
    pub enters : List H
    pub permitted : permits fsm.transitions fsm.current_state s ≡ true
    pub moved : fsm'.current_state ≡ s
    pub world :
        w'
        ≡ world_after behave enters fsm.current_state s
            (world_after behave exits fsm.current_state s w)
    pub same_transitions : fsm'.transitions ≡ fsm.transitions
    pub same_started : fsm'.started ≡ fsm.started
    pub same_states : (t : ℕ) → has_state t fsm'.states ≡ has_state t fsm.states
    pub added : List ℕ
    pub asked_for :
        added
        ≡ requested behave exits fsm.current_state s w
          ++ requested behave enters fsm.current_state s
              (world_after behave exits fsm.current_state s w)
    pub queued : fsm'.pending_states ≡ fsm.pending_states ++ added

  -- The facts about the two rounds of callbacks, put together.
  changed :
      (s : ℕ) (exits enters : List H) (fsm fsm₁ fsm₂ fsm' : Fsm H) (w w₁ w₂ w' : W)
      → permits fsm.transitions fsm.current_state s ≡ true
      → call_functions behave exits fsm.current_state s fsm w ≡ some (fsm₁, w₁)
      → call_functions behave enters fsm.current_state s fsm₁ w₁ ≡ some (fsm₂, w₂)
      → record fsm₂ { current_state = s } ≡ fsm'
      → w₂ ≡ w'
      → Changed s fsm fsm' w w'
  changed s exits enters fsm fsm₁ fsm₂ fsm' w w₁ w₂ w' permitted exited entered made made_w =
      let (kept₁, world₁) = call_functions-Kept behave exits _ s fsm fsm₁ w w₁ exited in
      let (kept₂, world₂) = call_functions-Kept behave enters _ s fsm₁ fsm₂ w₁ w₂ entered in
      let kept = Kept-trans _ _ fsm fsm₁ fsm₂ kept₁ kept₂ in
      record {
        exits = exits;
        enters = enters;
        permitted = permitted;
        moved = sym (ap (λ f. f.current_state) made);
        world = sym made_w ∙ world₂ ∙ ap (world_after behave enters fsm.current_state s) world₁;
        same_transitions = sym (ap (λ f. f.transitions) made) ∙ kept.same_transitions;
        same_started = sym (ap (λ f. f.started) made) ∙ kept.same_started;
        same_states = λ t. sym (ap (λ f. has_state t f.states) made) ∙ kept.same_states t;
        added = _;
        asked_for =
            ap
              (λ v.
                requested behave exits fsm.current_state s w
                ++ requested behave enters fsm.current_state s v)
              world₁;
        queued = sym (ap (λ f. f.pending_states) made) ∙ kept.queued;
      }

  change_state-Changed :
      (s : ℕ) (fsm fsm' : Fsm H) (w w' : W)
      → change_state behave s fsm w ≡ some (fsm', w')
      → Changed s fsm fsm' w w'
  unfolding change_state
  change_state-Changed s fsm fsm' w w' e =
      let (guarded, body) = if_none-eq-some _ _ e in
      let (old_state, found, e₁) = >>=-eq-some (find_state fsm.current_state fsm.states) _ body in
      let (new_state, found', e₂) = >>=-eq-some (find_state s fsm.states) _ e₁ in
      let (mid, exited, e₃) =
        >>=-eq-some (call_functions behave old_state.exit_functions fsm.current_state s fsm w) _
          e₂ in
      let (new_state₁, found₁, e₄) = >>=-eq-some (find_state s mid.0.states) _ e₃ in
      let (end, entered, e₅) =
        >>=-eq-some
          (call_functions behave new_state₁.enter_functions fsm.current_state s mid.0 mid.1) _ e₄ in
      let same = some-injective _ _ e₅ in
      changed s old_state.exit_functions new_state₁.enter_functions fsm mid.0 end.0 fsm' w mid.1
        end.1 w' (and-right _ _ guarded) exited entered (ap (λ p. p.0) same) (ap (λ p. p.1) same)

  -- A round of the loop for the request `s`: no more than taking it off, or a state change.
  pub data Served (s : ℕ) (ps : List ℕ) (fsm fsm' : Fsm H) (w w' : W) : Type (ℓ ⊔ κ) where
    ignored :
        s ≡ fsm.current_state
        → fsm' ≡ record fsm { pending_states = ps }
        → w' ≡ w
        → Served s ps fsm fsm' w w'
    served :
        (mid : Fsm H) → Changed s fsm mid w w' → fsm' ≡ remove_first mid → Served s ps fsm fsm' w w'

  pub remove_first_lem :
      (s : ℕ) (ps : List ℕ) (fsm : Fsm H)
      → fsm.pending_states ≡ s ∷ ps
      → remove_first fsm ≡ record fsm { pending_states = ps }
  unfolding remove_first
  remove_first_lem s ps fsm queue = ground arith

  round-Served :
      (s : ℕ) (ps : List ℕ) (fsm fsm' : Fsm H) (w w' : W) (r : Fsm H × W) (same : Bool)
      → fsm.pending_states ≡ s ∷ ps
      → (s == fsm.current_state) ≡ same
      → (if same then some (fsm, w) else change_state behave s fsm w) ≡ some r
      → (remove_first r.0 ≡ fsm') × (r.1 ≡ w')
      → Served s ps fsm fsm' w w'
  round-Served s ps fsm fsm' w w' r true queue test e (made, made_w) =
      let same = some-injective _ _ e in
      ignored (ground arith)
        (sym made ∙ ap (λ p. remove_first p.0) (sym same) ∙ remove_first_lem s ps fsm queue)
        (sym made_w ∙ sym (ap (λ p. p.1) same))
  round-Served s ps fsm fsm' w w' r false queue test e (made, made_w) =
      served r.0 (subst (Changed s fsm r.0 w) made_w (change_state-Changed s fsm r.0 w r.1 e))
        (sym made)

  pub serve-Served :
      (s : ℕ) (ps : List ℕ) (fsm fsm' : Fsm H) (w w' : W)
      → fsm.pending_states ≡ s ∷ ps
      → serve behave s fsm w ≡ some (fsm', w')
      → Served s ps fsm fsm' w w'
  unfolding serve
  serve-Served s ps fsm fsm' w w' queue e =
      let test = s == fsm.current_state in
      let (r, changes, made) =
        >>=-eq-some (if test then some (fsm, w) else change_state behave s fsm w) _ e in
      let same = some-injective _ _ made in
      round-Served s ps fsm fsm' w w' r test queue refl changes
        (ap (λ p. p.0) same, ap (λ p. p.1) same)

  -- What the rest of the loop relies on after a round.
  pub record ServedFacts (s : ℕ) (fsm fsm' : Fsm H) : Type 0 where
    pub moved : Reach fsm.transitions fsm.current_state fsm'.current_state
    pub arrived : fsm'.current_state ≡ s
    pub same_transitions : fsm'.transitions ≡ fsm.transitions
    pub same_started : fsm'.started ≡ fsm.started
    pub same_states : (t : ℕ) → has_state t fsm'.states ≡ has_state t fsm.states

  pub Served-ServedFacts :
      (s : ℕ) (ps : List ℕ) (fsm fsm' : Fsm H) (w w' : W)
      → fsm.pending_states ≡ s ∷ ps
      → Served s ps fsm fsm' w w'
      → ServedFacts s fsm fsm'
  Served-ServedFacts s ps fsm fsm' w w' queue (ignored same e e') = record {
    moved = rw e here;
    arrived = rw e (sym same);
    same_transitions = ap (λ f. f.transitions) e;
    same_started = ap (λ f. f.started) e;
    same_states = λ t. ap (λ f. has_state t f.states) e;
  }
  Served-ServedFacts s ps fsm fsm' w w' queue (served mid changed e) =
      let e' =
        e
        ∙ remove_first_lem s (ps ++ changed.added) mid
            (changed.queued ∙ ap (λ q. q ++ changed.added) queue) in
      record {
        moved = rw (e', changed.moved) (next here changed.permitted);
        arrived = ap (λ f. f.current_state) e' ∙ changed.moved;
        same_transitions = ap (λ f. f.transitions) e' ∙ changed.same_transitions;
        same_started = ap (λ f. f.started) e' ∙ changed.same_started;
        same_states = λ t. ap (λ f. has_state t f.states) e' ∙ changed.same_states t;
      }
