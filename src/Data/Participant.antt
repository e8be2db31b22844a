-- ===== src/Data/Participant.antt =====
-- gzochi-server/src/data.c and tx.c together: the data manager as a participant of a transaction.
use mathlib.Core.Option.{some-injective}
use gnu_gzochi.Base.{
  ℕ, ◌≡◌, inl, inr, refl, sym, ap, ◌∙◌, Bool, false, ◌||◌, Option, none, some, List, [], ◌∷◌, All,
  ◌>>=◌, >>=-eq-some, Bool-cases,
}
use gnu_gzochi.Tx.{
  is_marking, Participant, Registration, mark, prepare_all, commit_all, rollback_all,
}
use gnu_gzochi.Storage.{StorageEngine}
use gnu_gzochi.Data.{Context, Manager, data_prepare, data_commit, data_rollback}

abbrev pub left_by :
    {C X W : Type 0} → Option (Manager C X W × Context X × Bool) → Option (Manager C X W) × Bool
left_by none = (none, false)
left_by (some (m, context, prepared)) = (some (record m { tx_context = some context }), prepared)

-- The callbacks on the data manager, or on none once an assertion of it has failed. `data_commit`
-- follows the pointer to the context, `data_rollback` looks whether there is one.
module _ {C X W : Type 0} (engine : StorageEngine C X) (is_rollback_only : Bool) where
  abbrev pub prepare_manager : Option (Manager C X W) → Option (Manager C X W) × Bool
  prepare_manager none = (none, false)
  prepare_manager (some m) = left_by (m.tx_context >>= data_prepare engine is_rollback_only m)

module _ {C X W : Type 0} (engine : StorageEngine C X) where
  abbrev pub commit_manager : Option (Manager C X W) → Option (Manager C X W)
  commit_manager none = none
  commit_manager (some m) = m.tx_context >>= λ context. some (data_commit engine m context)

  abbrev pub rollback_manager : Option (Manager C X W) → Option (Manager C X W)
  rollback_manager none = none
  rollback_manager (some m) = some (data_rollback engine m (m.tx_context))

-- `data_participant`, in a world with what the other participants work on.
abbrev pub data_participant :
    {C X W V D : Type 0} → StorageEngine C X → ℕ → Participant D (Option (Manager C X W) × V)
data_participant engine name = record {
  name = name;
  prepare = λ is_rollback_only context w.
      let (m, prepared) = prepare_manager engine is_rollback_only w.0 in
      ((m, w.1), record { prepared = prepared; mark = none });
  commit = λ context w. (commit_manager engine w.0, w.1);
  rollback = some (λ context w. (rollback_manager engine w.0, w.1));
}

-- Participants that leave the first part of the world alone.
module _ {M V D : Type 0} where
  abbrev pub IsForeign : Registration D (M × V) → Type 0
  IsForeign r =
      (w : M × V)
      → ((marked : Bool) → (r.participant.prepare marked r.context w).0.0 ≡ w.0)
        × ((r.participant.commit r.context w).0 ≡ w.0)
        × ((roll : D → M × V → M × V)
            → r.participant.rollback ≡ some roll
            → (roll r.context w).0 ≡ w.0)

  pub mark-IsForeign :
      (vote : Option Bool) (r : Registration D (M × V)) → IsForeign r → IsForeign (mark vote r)
  mark-IsForeign none r foreign = foreign
  mark-IsForeign (some retryable) r foreign = foreign

  pub prepare_all-IsForeign :
      (marked : Bool) (rs : List (Registration D (M × V))) (w : M × V)
      → All IsForeign rs
      → All IsForeign (prepare_all marked rs w).0 × ((prepare_all marked rs w).1.0 ≡ w.0)
  unfolding prepare_all
  prepare_all-IsForeign marked [] w foreign = (tt, refl)
  prepare_all-IsForeign marked (r ∷ rs) w foreign =
      let (w', vote) = r.participant.prepare marked r.context w in
      let own = mark-IsForeign vote.mark r foreign.0 in
      elim (Bool-cases vote.prepared) [
        | inl agreed ↦
            let later = prepare_all-IsForeign (marked || is_marking vote.mark) rs w' foreign.1 in
            rw agreed ((own, later.0), later.1 ∙ (foreign.0 w).0 marked)
        | inr against ↦ rw against ((own, foreign.1), (foreign.0 w).0 marked)
      ]

  pub commit_all-IsForeign :
      (rs : List (Registration D (M × V))) (w : M × V)
      → All IsForeign rs
      → (commit_all rs w).0 ≡ w.0
  unfolding commit_all
  commit_all-IsForeign [] w foreign = refl
  commit_all-IsForeign (r ∷ rs) w foreign =
      commit_all-IsForeign rs (r.participant.commit r.context w) foreign.1 ∙ (foreign.0 w).1

  pub rollback_all-IsForeign :
      (rs : List (Registration D (M × V))) (w w' : M × V)
      → All IsForeign rs
      → rollback_all rs w ≡ some w'
      → w'.0 ≡ w.0
  unfolding rollback_all
  rollback_all-IsForeign [] w w' foreign e = ap (λ v. v.0) (sym (some-injective _ _ e))
  rollback_all-IsForeign (r ∷ rs) w w' foreign e =
      let (roll, has, rest) = >>=-eq-some (r.participant.rollback) _ e in
      rollback_all-IsForeign rs (roll r.context w) w' foreign.1 rest ∙ (foreign.0 w).2 roll has
