-- ===== src/Data/Callbacks.antt =====
-- gzochi-server/src/data.c: what the callbacks of the participant "data" leave in the storage.
use mathlib.Core.Option.{some-injective}
use gnu_gzochi.Base.{
  ◌≡◌, ◌⊎◌, inl, inr, sym, ap, ◌∙◌, Bool, true, false, Option, none, some, ◌>>=◌, Option-cases,
}
use gnu_gzochi.Storage.{StorageEngine, IsTransactional}
use gnu_gzochi.DataStores.Writes.{write_all}
use gnu_gzochi.Data.{Context, Manager, data_prepare, data_commit, data_rollback}
use gnu_gzochi.Data.Flush.{updates_of}
use gnu_gzochi.Data.Prepare.{data_prepare_lem, data_prepare-base}
use gnu_gzochi.Data.Participant.{left_by, prepare_manager, commit_manager, rollback_manager}

module _ {C X W : Type 0} (engine : StorageEngine C X) (laws : IsTransactional engine)
    (is_rollback_only : Bool) (m : Manager C X W) (context : Context X)
    (joined : m.tx_context ≡ some context) where
  prepare_manager_lem :
      prepare_manager engine is_rollback_only (some m)
      ≡ left_by (data_prepare engine is_rollback_only m context)
  prepare_manager_lem = ap (λ o. left_by (o >>= data_prepare engine is_rollback_only m)) joined

  -- A rollback leaves what was stored when the transaction began, before the vote and after it.
  rollback_manager_lem :
      (o : Option (Manager C X W)) (m' : Manager C X W)
      → (o ≡ some m) ⊎ (o ≡ (prepare_manager engine is_rollback_only (some m)).0)
      → rollback_manager engine o ≡ some m'
      → laws.view (m'.storage_context) ≡ laws.base (context.transaction)
  unfolding data_rollback
  rollback_manager_lem o m' (inl same) e =
      let rolled =
        ap (data_rollback engine m) (sym joined)
        ∙ some-injective _ _ (sym (ap (rollback_manager engine) same) ∙ e) in
      ap (λ n. laws.view (n.storage_context)) (sym rolled)
      ∙ laws.rollback-view (context.transaction)
  rollback_manager_lem o m' (inr same) e =
      elim (Option-cases (data_prepare engine is_rollback_only m context)) [
        | inl crash ↦
            let left = same ∙ ap (λ r. r.0) (prepare_manager_lem ∙ ap left_by crash) in
            let h : none ≡ some m' = sym (ap (rollback_manager engine) left) ∙ e in cc
        | inr (done, prepares) ↦
            let left = same ∙ ap (λ r. r.0) (prepare_manager_lem ∙ ap left_by prepares) in
            let rolled = some-injective _ _ (sym (ap (rollback_manager engine) left) ∙ e) in
            ap (λ n. laws.view (n.storage_context)) (sym rolled)
            ∙ laws.rollback-view (done.1.transaction)
            ∙ data_prepare-base engine laws is_rollback_only m context done prepares
      ]

  pub commit_manager_lem :
      (prepare_manager engine is_rollback_only (some m)).1 ≡ true
      → (m' : Manager C X W) × (commit_manager engine
            (prepare_manager engine is_rollback_only (some m)).0
          ≡ some m')
        × (laws.view (m'.storage_context)
            ≡ write_all
                (updates_of (m.references) (context.oids_to_references) (m.world))
                (laws.current (context.transaction)))
  unfolding data_commit
  commit_manager_lem e = elim (Option-cases (data_prepare engine is_rollback_only m context)) [
    | inl crash ↦
        let h : false ≡ true = sym (ap (λ r. r.1) (prepare_manager_lem ∙ ap left_by crash)) ∙ e in
        cc
    | inr (done, prepares) ↦
        let left = prepare_manager_lem ∙ ap left_by prepares in
        let fine = sym (ap (λ r. r.1) left) ∙ e in
        (
          data_commit engine (record done.0 { tx_context = some done.1 }) done.1,
          ap (λ r. commit_manager engine r.0) left,
          (data_prepare_lem engine laws is_rollback_only m done.0 context done.1
              (prepares ∙ ap (λ b. some (done.0, done.1, b)) fine)).0,
        )
  ]

module _ {C X W : Type 0} (engine : StorageEngine C X) (m : Manager C X W) where
  -- The data manager as it was, or as a vote has left it.
  abbrev pub IsLeft : Option (Manager C X W) → Type 0
  IsLeft o = (o ≡ some m) ⊎ ((flag : Bool) × (o ≡ (prepare_manager engine flag (some m)).0))

module _ {C X W : Type 0} (engine : StorageEngine C X) (laws : IsTransactional engine)
    (m : Manager C X W) (context : Context X) (joined : m.tx_context ≡ some context) where
  pub rollback-IsLeft :
      (o : Option (Manager C X W)) (m' : Manager C X W)
      → IsLeft engine m o
      → rollback_manager engine o ≡ some m'
      → laws.view (m'.storage_context) ≡ laws.base (context.transaction)
  rollback-IsLeft o m' (inl kept) e =
      rollback_manager_lem engine laws false m context joined o m' (inl kept) e
  rollback-IsLeft o m' (inr (flag, voted)) e =
      rollback_manager_lem engine laws flag m context joined o m' (inr voted) e
