-- ===== src/Fsm/Ends.antt =====
-- gzochi-server/src/fsm.c: that the loop of `gzochid_fsm_to_state` ends, and what it has then done.
use gnu_gzochi.Base.{
  ℕ, zero, suc, ◌+◌, ◌≤◌, ◌<◌, true, ◌≡◌, sym, ap, ◌∙◌, subst, none, some, List, [], ◌∷◌, ◌++◌,
  ◌==◌, ◌&&◌, length, length-append, All, arith, if◌then◌else◌, Bool-cases, if-cases, Option-cases,
  List-cases, ◌⊎◌, inl, inr, refl,
}
use gnu_gzochi.Fsm.{Fsm, Action, Outcome, done, failed, has_state, permits, serve, drain, to_state}
use gnu_gzochi.Fsm.Build.{IsValid}
use gnu_gzochi.Fsm.Run.{requests, requested, world_after}
use gnu_gzochi.Fsm.Reach.{
  Reach, here, next, Served, ignored, served, serve-Served, remove_first_lem,
}
use gnu_gzochi.Fsm.Drain.{Drained, drain-Drained, drain_nil, drain_step, drain_failed}

module _ {ℓ κ} {H : Type ℓ} {W : Type κ} (behave : H → ℕ → ℕ → W → W × List (Action H)) where
  permits-has_state :
      (fsm : Fsm H) (ts : List (ℕ × ℕ)) (a b : ℕ)
      → All
          (λ (t : ℕ × ℕ). (has_state t.0 fsm.states ≡ true) × (has_state t.1 fsm.states ≡ true))
          ts
      → permits ts a b ≡ true
      → has_state b fsm.states ≡ true
  unfolding permits
  permits-has_state fsm [] a b known p = cc
  permits-has_state fsm ((x, y) ∷ ts) a b known p = elim (Bool-cases ((x == a) && (y == b))) [
    | inl hit ↦
        let same : y ≡ b = ground arith in subst (λ t. has_state t fsm.states ≡ true) same known.0.1
    | inr miss ↦ permits-has_state fsm ts a b known.1 (ground arith)
  ]

  Reach-has_state :
      (fsm : Fsm H) (b : ℕ)
      → IsValid fsm
      → Reach fsm.transitions fsm.current_state b
      → has_state b fsm.states ≡ true
  Reach-has_state fsm b v here = v.current_known
  Reach-has_state fsm b v (next {a} r permitted) =
      permits-has_state fsm fsm.transitions a b v.transitions_known permitted

  All-map :
      (fsm fsm' : Fsm H) (ts : List (ℕ × ℕ))
      → ((t : ℕ) → has_state t fsm'.states ≡ has_state t fsm.states)
      → All
          (λ (t : ℕ × ℕ). (has_state t.0 fsm.states ≡ true) × (has_state t.1 fsm.states ≡ true))
          ts
      → All
          (λ (t : ℕ × ℕ). (has_state t.0 fsm'.states ≡ true) × (has_state t.1 fsm'.states ≡ true))
          ts
  All-map fsm fsm' [] same h = tt
  All-map fsm fsm' ((a, b) ∷ ts) same h =
      ((same a ∙ h.0.0, same b ∙ h.0.1), All-map fsm fsm' ts same h.1)

  Drained-IsValid : (fsm fsm' : Fsm H) → Drained behave fsm fsm' → IsValid fsm → IsValid fsm'
  Drained-IsValid fsm fsm' d v = record {
    current_known =
        d.same_states fsm'.current_state ∙ Reach-has_state fsm fsm'.current_state v d.moved;
    transitions_known =
        subst (All _) (sym d.same_transitions)
          (All-map fsm fsm' fsm.transitions d.same_states v.transitions_known);
  }

  pub to_state_rest :
      (fuel s : ℕ) (fsm : Fsm H) (w : W)
      → fsm.pending_states ≡ []
      → to_state behave fuel s fsm w ≡ (
          if fsm.started
          then drain behave fuel (record fsm { pending_states = s ∷ [] }) w
          else failed)
  unfolding to_state
  to_state_rest fuel s fsm w rest = ground arith

  -- Rounds of the loop, each for the request at the head of the queue.
  pub data Rounds (from : Fsm H) (w₀ : W) : Fsm H → W → Type (ℓ ⊔ κ) where
    start : Rounds from w₀ from w₀
    round :
        {mid fsm : Fsm H} {w₁ w : W} {s : ℕ} {ps : List ℕ}
        → Rounds from w₀ mid w₁
        → mid.pending_states ≡ s ∷ ps
        → serve behave s mid w₁ ≡ some (fsm, w)
        → Rounds from w₀ fsm w

  -- The rounds have emptied the queue, or a round has failed.
  abbrev pub WorkedOff : Fsm H → W → Outcome (Fsm H × W) → Type (ℓ ⊔ κ)
  WorkedOff from w₀ outcome =
      ((fsm : Fsm H) × (w : W) × (outcome ≡ done (fsm, w))
        × Rounds from w₀ fsm w
        × (fsm.pending_states ≡ []))
      ⊎ ((fsm : Fsm H) × (w : W) × (s : ℕ) × (ps : List ℕ) × (outcome ≡ failed)
          × Rounds from w₀ fsm w
          × (fsm.pending_states ≡ s ∷ ps)
          × (serve behave s fsm w ≡ none))

  module _ (budget : W → ℕ)
      (frugal : (h : H) (from to : ℕ) (w : W)
        → length (requests (behave h from to w).1) + budget (behave h from to w).0 ≤ budget w) where
    requested_frugal :
        (hs : List H) (from to : ℕ) (w : W)
        → length (requested behave hs from to w) + budget (world_after behave hs from to w)
          ≤ budget w
    requested_frugal [] from to w = omega arith
    requested_frugal (h ∷ hs) from to w = omega (
      arith,
      frugal h from to w,
      requested_frugal hs from to (behave h from to w).0,
      length-append (requests (behave h from to w).1)
          (requested behave hs from to (behave h from to w).0),
    )

    Served-frugal :
        (s : ℕ) (ps : List ℕ) (fsm fsm' : Fsm H) (w w' : W)
        → fsm.pending_states ≡ s ∷ ps
        → Served behave s ps fsm fsm' w w'
        → length fsm'.pending_states + budget w' < length fsm.pending_states + budget w
    Served-frugal s ps fsm fsm' w w' queue (ignored same e e') =
        omega (arith, ap (λ f. length f.pending_states) e, ap length queue, ap budget e')
    Served-frugal s ps fsm fsm' w w' queue (served mid changed e) =
        let from = fsm.current_state in
        let w₁ = world_after behave changed.exits from s w in
        let queue' = changed.queued ∙ ap (λ q. q ++ changed.added) queue in
        let e' = e ∙ remove_first_lem behave s (ps ++ changed.added) mid queue' in
        omega (
          arith,
          ap (λ f. length f.pending_states) e',
          ap length queue,
          length-append ps changed.added,
          ap length changed.asked_for,
          length-append (requested behave changed.exits from s w)
              (requested behave changed.enters from s w₁),
          requested_frugal changed.exits from s w,
          requested_frugal changed.enters from s w₁,
          ap budget changed.world,
        )

    -- If the callbacks can pay for their requests out of a budget, as many rounds as there are
    -- requests waiting and left in the budget are enough, and one more that finds the queue empty.
    drain_ends :
        (fuel : ℕ) (from fsm : Fsm H) (w₀ w : W)
        → Rounds from w₀ fsm w
        → length fsm.pending_states + budget w < fuel
        → WorkedOff from w₀ (drain behave fuel fsm w)
    drain_ends zero from fsm w₀ w rounds enough = absurd (omega arith)
    drain_ends (suc fuel) from fsm w₀ w rounds enough = elim (List-cases fsm.pending_states) [
      | inl empty ↦ inl (fsm, w, drain_nil behave fuel fsm w empty, rounds, empty)
      | inr (s, ps, queue) ↦ elim (Option-cases (serve behave s fsm w)) [
        | inl fails ↦
            inr
              (fsm, w, s, ps, drain_failed behave fuel fsm w s ps queue fails, rounds, queue, fails)
        | inr ((mid, w₁), e) ↦
            let less =
              Served-frugal s ps fsm mid w w₁ queue
                (serve-Served behave s ps fsm mid w w₁ queue e) in
            rw (drain_step behave fuel fsm mid w w₁ s ps queue e)
              (drain_ends fuel from mid w₀ w₁ (round rounds queue e) (omega arith))
      ]
    ]

    -- A request to a started machine at rest is worked off, with all the requests that follow from
    -- it, if the callbacks pay for theirs out of a budget and there are rounds for the budget and two
    -- more: the requests are served one after the other, each from the head of the queue, until the
    -- queue is empty or an assertion fails on the request at its head.
    pub to_state_ends :
        (fuel s : ℕ) (fsm : Fsm H) (w : W)
        → fsm.pending_states ≡ []
        → fsm.started ≡ true
        → budget w + 1 < fuel
        → WorkedOff (record fsm { pending_states = s ∷ [] }) w (to_state behave fuel s fsm w)
    to_state_ends fuel s fsm w rest on enough =
        let queued = record fsm { pending_states = s ∷ [] } in
        let ends = drain_ends fuel queued queued w w start (omega arith) in
        subst (WorkedOff queued w) (sym (to_state_rest fuel s fsm w rest ∙ (rw on refl))) ends

  -- A request that returns leaves a machine that was at rest at rest again, in a state that
  -- permitted transitions lead to from where it was, started and with consistent tables, whatever
  -- the callbacks did or requested.
  pub to_state-Drained :
      (fuel s : ℕ) (fsm fsm' : Fsm H) (w w' : W)
      → fsm.pending_states ≡ []
      → IsValid fsm
      → to_state behave fuel s fsm w ≡ done (fsm', w')
      → Drained behave fsm fsm' × IsValid fsm' × (fsm'.started ≡ true)
  to_state-Drained fuel s fsm fsm' w w' rest v e =
      let e' = sym (to_state_rest fuel s fsm w rest) ∙ e in
      elim (if-cases fsm.started e') [
        | inl (on, e₁) ↦
            let d =
              drain-Drained behave fuel (record fsm { pending_states = s ∷ [] }) fsm' w w' e₁ in
            let d' : Drained behave fsm fsm' = record {
              moved = d.moved;
              empty = d.empty;
              same_transitions = d.same_transitions;
              same_started = d.same_started;
              same_states = d.same_states;
            } in
            (d', Drained-IsValid fsm fsm' d' v, d.same_started ∙ on)
        | inr (off, e₁) ↦ cc
      ]
