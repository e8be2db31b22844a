-- ===== src/Data/Members.antt =====
-- gzochi-server/src/data.c and tx.c together: the loops over participants of which the data manager
-- is one.
use mathlib.Core.Option.{some-injective}
use gnu_gzochi.Base.{
  ℕ, ◌≡◌, ◌⊎◌, inl, inr, refl, sym, ap, ◌∙◌, Bool, true, false, ◌||◌, Option, none, some, List, [],
  ◌∷◌, All, >>=-eq-some, Bool-cases,
}
use gnu_gzochi.Tx.{Registration, is_marking, mark, prepare_all, commit_all, rollback_all}
use gnu_gzochi.Storage.{StorageEngine}
use gnu_gzochi.Data.{Manager}
use gnu_gzochi.Data.Participant.{
  prepare_manager, commit_manager, rollback_manager, data_participant, IsForeign, mark-IsForeign,
  prepare_all-IsForeign, commit_all-IsForeign, rollback_all-IsForeign,
}

mark-participant :
    {D W : Type 0} (vote : Option Bool) (r : Registration D W)
    → (mark vote r).participant ≡ r.participant
mark-participant none r = refl
mark-participant (some retryable) r = refl

module _ {C X W V D : Type 0} (engine : StorageEngine C X) (name : ℕ) where
  -- The data manager is one of the participants, and the others leave it alone.
  abbrev pub HasManager : List (Registration D (Option (Manager C X W) × V)) → Type 0
  HasManager [] = ⊥
  HasManager (r ∷ rs) =
      ((r.participant ≡ data_participant engine name) × All IsForeign rs)
      ⊎ (IsForeign r × HasManager rs)

  pub commit_all-HasManager :
      (rs : List (Registration D (Option (Manager C X W) × V))) (w : Option (Manager C X W) × V)
      → HasManager rs
      → (commit_all rs w).0 ≡ commit_manager engine w.0
  unfolding commit_all
  commit_all-HasManager [] w has = absurd has
  commit_all-HasManager (r ∷ rs) w (inl (own, foreign)) =
      commit_all-IsForeign rs (r.participant.commit r.context w) foreign
      ∙ ap (λ p. (p.commit r.context w).0) own
  commit_all-HasManager (r ∷ rs) w (inr (foreign, has)) =
      commit_all-HasManager rs (r.participant.commit r.context w) has
      ∙ ap (commit_manager engine) (foreign w).1

  pub rollback_all-HasManager :
      (rs : List (Registration D (Option (Manager C X W) × V))) (w w' : Option (Manager C X W) × V)
      → HasManager rs
      → rollback_all rs w ≡ some w'
      → w'.0 ≡ rollback_manager engine w.0
  unfolding rollback_all
  rollback_all-HasManager [] w w' has e = absurd has
  rollback_all-HasManager (r ∷ rs) w w' (inl (own, foreign)) e =
      let (roll, is_roll, rest) = >>=-eq-some (r.participant.rollback) _ e in
      rollback_all-IsForeign rs (roll r.context w) w' foreign rest
      ∙ ap (λ f. (f r.context w).0) (some-injective _ _ (sym is_roll ∙ ap (λ p. p.rollback) own))
  rollback_all-HasManager (r ∷ rs) w w' (inr (foreign, has)) e =
      let (roll, is_roll, rest) = >>=-eq-some (r.participant.rollback) _ e in
      rollback_all-HasManager rs (roll r.context w) w' has rest
      ∙ ap (rollback_manager engine) ((foreign w).2 roll is_roll)

  -- The round of votes asks the data manager, or stops before it.
  pub prepare_all-HasManager :
      (marked : Bool) (rs : List (Registration D (Option (Manager C X W) × V)))
      (w : Option (Manager C X W) × V)
      → HasManager rs
      → let (rs', w', agreed) = prepare_all marked rs w in
        HasManager rs'
        × (((w'.0 ≡ w.0) × (agreed ≡ false))
            ⊎ ((flag : Bool) × (w'.0 ≡ (prepare_manager engine flag w.0).0)
                × (agreed ≡ true → (prepare_manager engine flag w.0).1 ≡ true)))
  unfolding prepare_all
  prepare_all-HasManager marked [] w has = absurd has
  prepare_all-HasManager marked (r ∷ rs) w (inl (own, foreign)) =
      let (w', vote) = r.participant.prepare marked r.context w in
      let first : w'.0 ≡ (prepare_manager engine marked w.0).0 =
        ap (λ p. (p.prepare marked r.context w).0.0) own in
      let voted : vote.prepared ≡ (prepare_manager engine marked w.0).1 =
        ap (λ p. (p.prepare marked r.context w).1.prepared) own in
      let still = mark-participant vote.mark r ∙ own in
      elim (Bool-cases vote.prepared) [
        | inl agreed ↦
            let later = prepare_all-IsForeign (marked || is_marking vote.mark) rs w' foreign in
            rw agreed
              (inl (still, later.0), inr (marked, later.1 ∙ first, λ all. sym voted ∙ agreed))
        | inr against ↦ rw against (inl (still, foreign), inr (marked, first, λ all. cc))
      ]
  prepare_all-HasManager marked (r ∷ rs) w (inr (foreign, has)) =
      let (w', vote) = r.participant.prepare marked r.context w in
      let same = (foreign w).0 marked in
      let still = mark-IsForeign vote.mark r foreign in
      elim (Bool-cases vote.prepared) [
        | inl agreed ↦
            let (left, votes) = prepare_all-HasManager (marked || is_marking vote.mark) rs w' has in
            elim votes [
              | inl (kept, against) ↦ rw agreed (inr (still, left), inl (kept ∙ same, against))
              | inr (flag, asked, all) ↦ rw agreed (
                inr (still, left),
                inr (
                  flag,
                  asked ∙ ap (λ m. (prepare_manager engine flag m).0) same,
                  λ e. ap (λ m. (prepare_manager engine flag m).1) (sym same) ∙ all e,
                ),
              )
            ]
        | inr against ↦ rw against (inr (still, has), inl (same, refl))
      ]
