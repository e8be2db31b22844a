-- ===== src/Fsm/Drain.antt =====
-- gzochi-server/src/fsm.c: the loop of to_state works its requests off one after the other.
use gnu_gzochi.Base.{
  ℕ, zero, suc, ◌≡◌, refl, sym, ap, ◌∙◌, none, some, List, [], ◌∷◌, arith, Option-cases, List-cases,
  inl, inr, subst,
}
use gnu_gzochi.Fsm.{Fsm, Action, Outcome, done, failed, out_of_fuel, has_state, serve, drain}
use gnu_gzochi.Fsm.Reach.{Reach, here, Reach-trans, ServedFacts, Served-ServedFacts, serve-Served}

module _ {ℓ κ} {H : Type ℓ} {W : Type κ} (behave : H → ℕ → ℕ → W → W × List (Action H)) where
  pub drain_nil :
      (fuel : ℕ) (fsm : Fsm H) (w : W)
      → fsm.pending_states ≡ []
      → drain behave (suc fuel) fsm w ≡ done (fsm, w)
  unfolding drain
  drain_nil fuel fsm w queue = ground arith

  pub drain_cons :
      (fuel : ℕ) (fsm : Fsm H) (w : W) (s : ℕ) (ps : List ℕ)
      → fsm.pending_states ≡ s ∷ ps
      → drain behave (suc fuel) fsm w ≡ elim (serve behave s fsm w) [
        | none ↦ failed
        | some (fsm', w') ↦ drain behave fuel fsm' w'
      ]
  unfolding drain
  drain_cons fuel fsm w s ps queue = ground arith

  pub drain_step :
      (fuel : ℕ) (fsm mid : Fsm H) (w w₁ : W) (s : ℕ) (ps : List ℕ)
      → fsm.pending_states ≡ s ∷ ps
      → serve behave s fsm w ≡ some (mid, w₁)
      → drain behave (suc fuel) fsm w ≡ drain behave fuel mid w₁
  drain_step fuel fsm mid w w₁ s ps queue e = drain_cons fuel fsm w s ps queue ∙ (rw e)

  pub drain_failed :
      (fuel : ℕ) (fsm : Fsm H) (w : W) (s : ℕ) (ps : List ℕ)
      → fsm.pending_states ≡ s ∷ ps
      → serve behave s fsm w ≡ none
      → drain behave (suc fuel) fsm w ≡ failed
  drain_failed fuel fsm w s ps queue e = drain_cons fuel fsm w s ps queue ∙ (rw e)

  done-injective : {a b : Fsm H × W} → ◌≡◌ {A = Outcome (Fsm H × W)} (done a) (done b) → a ≡ b
  done-injective {a} {b} e = ap (λ o. elim o [ done x ↦ x | failed ↦ a | out_of_fuel ↦ a ]) e

  -- The queue is empty, the tables are as they were, and the machine has moved from its state along
  -- permitted transitions only.
  pub record Drained (fsm fsm' : Fsm H) : Type 0 where
    pub moved : Reach fsm.transitions fsm.current_state fsm'.current_state
    pub empty : fsm'.pending_states ≡ []
    pub same_transitions : fsm'.transitions ≡ fsm.transitions
    pub same_started : fsm'.started ≡ fsm.started
    pub same_states : (t : ℕ) → has_state t fsm'.states ≡ has_state t fsm.states

  Drained-next :
      (s : ℕ) (fsm mid fsm' : Fsm H)
      → ServedFacts behave s fsm mid
      → Drained mid fsm'
      → Drained fsm fsm'
  Drained-next s fsm mid fsm' first rest = record {
    moved = Reach-trans first.moved (
        subst (λ ts. Reach ts mid.current_state fsm'.current_state) first.same_transitions
          rest.moved);
    empty = rest.empty;
    same_transitions = rest.same_transitions ∙ first.same_transitions;
    same_started = rest.same_started ∙ first.same_started;
    same_states = λ t. rest.same_states t ∙ first.same_states t;
  }

  pub drain-Drained :
      (fuel : ℕ) (fsm fsm' : Fsm H) (w w' : W)
      → drain behave fuel fsm w ≡ done (fsm', w')
      → Drained fsm fsm'
  unfolding drain
  drain-Drained zero fsm fsm' w w' e = cc
  drain-Drained (suc fuel) fsm fsm' w w' e = elim (List-cases fsm.pending_states) [
    | inl empty ↦
        let same = done-injective (sym (drain_nil fuel fsm w empty) ∙ e) in
        subst (Drained fsm) (ap (λ p. p.0) same) (record {
          moved = here;
          empty = empty;
          same_transitions = refl;
          same_started = refl;
          same_states = λ t. refl;
        })
    | inr (s, ps, queue) ↦ elim (Option-cases (serve behave s fsm w)) [
      | inl fails ↦ let never = sym (drain_failed fuel fsm w s ps queue fails) ∙ e in cc
      | inr ((mid, w₁), e₁) ↦
          let first =
            Served-ServedFacts behave s ps fsm mid w w₁ queue
              (serve-Served behave s ps fsm mid w w₁ queue e₁) in
          let e₂ = sym (drain_step fuel fsm mid w w₁ s ps queue e₁) ∙ e in
          Drained-next s fsm mid fsm' first (drain-Drained fuel mid fsm' w₁ w' e₂)
    ]
  ]
