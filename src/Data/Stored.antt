-- ===== src/Data/Stored.antt =====
-- gzochi-server/src/data.c and tx.c together: a transaction that everybody agrees to is stored.
use gnu_gzochi.Base.{
  ℕ, ◌≡◌, ◌⊎◌, inl, inr, refl, ap, ◌∙◌, true, false, Option, none, some, List, [], ◌∷◌, All, ◌>>=◌,
}
use gnu_gzochi.Timeval.{Timeval}
use gnu_gzochi.Storage.{StorageEngine, IsTransactional}
use gnu_gzochi.Tx.{
  Registration, Transaction, Timing, Thread, TransactionResult, prepare_all, commit_all,
  rollback_only, is_timed_out, settle, finish, end,
}
use gnu_gzochi.DataStores.Writes.{write_all}
use gnu_gzochi.Data.{Context, Manager, data_prepare}
use gnu_gzochi.Data.Flush.{updates_of}
use gnu_gzochi.Data.Participant.{left_by, prepare_manager, data_participant, IsForeign}
use gnu_gzochi.Data.Members.{HasManager}
use gnu_gzochi.Data.Ready.{IsReady, data_prepare-IsReady}
use gnu_gzochi.Data.Commitment.{end-IsSettled}

-- A participant that votes to commit and marks nothing, whatever it finds.
abbrev pub IsWilling : {D W : Type 0} → Registration D W → Type 0
IsWilling {D} {W} r =
    (w : W)
    → ((r.participant.prepare false r.context w).1.prepared ≡ true)
      × ((r.participant.prepare false r.context w).1.mark ≡ none)

module _ {C X W V D : Type 0} (engine : StorageEngine C X) (name : ℕ) where
  -- The data manager is one of the participants, and the others leave it alone and are willing.
  abbrev pub IsAgreed : List (Registration D (Option (Manager C X W) × V)) → Type 0
  IsAgreed [] = ⊥
  IsAgreed (r ∷ rs) =
      ((r.participant ≡ data_participant engine name) × All (λ r. IsForeign r × IsWilling r) rs)
      ⊎ ((IsForeign r × IsWilling r) × IsAgreed rs)

  All-IsForeign :
      (rs : List (Registration D (Option (Manager C X W) × V)))
      → All (λ r. IsForeign r × IsWilling r) rs
      → All IsForeign rs
  All-IsForeign [] others = tt
  All-IsForeign (r ∷ rs) others = (others.0.0, All-IsForeign rs others.1)

  pub IsAgreed-HasManager :
      (rs : List (Registration D (Option (Manager C X W) × V)))
      → IsAgreed rs
      → HasManager engine name rs
  IsAgreed-HasManager [] agreed = agreed
  IsAgreed-HasManager (r ∷ rs) (inl (own, others)) = inl (own, All-IsForeign rs others)
  IsAgreed-HasManager (r ∷ rs) (inr (other, agreed)) = inr (other.0, IsAgreed-HasManager rs agreed)

  prepare_all-IsWilling :
      (rs : List (Registration D (Option (Manager C X W) × V))) (w : Option (Manager C X W) × V)
      → All (λ r. IsForeign r × IsWilling r) rs
      → (prepare_all false rs w).2 ≡ true
  unfolding prepare_all
  prepare_all-IsWilling [] w others = refl
  prepare_all-IsWilling (r ∷ rs) w others =
      rw ((others.0.1 w).0, (others.0.1 w).1)
        (prepare_all-IsWilling rs (r.participant.prepare false r.context w).0 others.1)

  prepare_all-IsAgreed :
      (rs : List (Registration D (Option (Manager C X W) × V))) (w : Option (Manager C X W) × V)
      → IsAgreed rs
      → (prepare_manager engine false w.0).1 ≡ true
      → (prepare_all false rs w).2 ≡ true
  unfolding prepare_all
  prepare_all-IsAgreed [] w agreed ready = absurd agreed
  prepare_all-IsAgreed (r ∷ rs) w (inl (own, others)) ready =
      let voted : (r.participant.prepare false r.context w).1.prepared ≡ true =
        ap (λ p. (p.prepare false r.context w).1.prepared) own ∙ ready in
      let quiet : (r.participant.prepare false r.context w).1.mark ≡ none =
        ap (λ p. (p.prepare false r.context w).1.mark) own in
      rw (voted, quiet)
        (prepare_all-IsWilling rs (r.participant.prepare false r.context w).0 others)
  prepare_all-IsAgreed (r ∷ rs) w (inr (other, agreed)) ready =
      let kept = (other.0 w).0 false in
      rw ((other.1 w).0, (other.1 w).1)
        (prepare_all-IsAgreed rs (r.participant.prepare false r.context w).0 agreed
          (ap (λ o. (prepare_manager engine false o).1) kept ∙ ready))

  -- A transaction is committed and what it wrote is stored, if no participant is marked when it
  -- ends, the timeout has not elapsed, the storage engine rolls no transaction back, every new or
  -- modified reference has an object that its serializer can write, no reference is in one of the
  -- two states that a flush does not expect, and the participants beside the data manager vote to
  -- commit, mark nothing, and leave it alone.
  pub end-IsStored :
      (laws : IsTransactional engine) (steady : (x : X) → engine.rolls_back x ≡ false)
      (m : Manager C X W) (context : Context X) (thread : Thread D (Option (Manager C X W) × V))
      (t : Transaction D (Option (Manager C X W) × V)) (timing : Timing) (now : Timeval)
      (w : Option (Manager C X W) × V)
      → m.tx_context ≡ some context
      → w.0 ≡ some m
      → thread.transaction ≡ some t
      → thread.timing ≡ some timing
      → IsAgreed t.participants
      → rollback_only t.participants ≡ false
      → is_timed_out timing now ≡ false
      → All (λ p. IsReady (m.references p.1)) (context.oids_to_references)
      → (w' : Option (Manager C X W) × V) × (m' : Manager C X W) × (end now thread w
          ≡ some
              (record thread { transaction = none; timing = none }, w', TransactionResult.success))
        × (w'.0 ≡ some m')
        × (laws.view (m'.storage_context)
            ≡ write_all
                (updates_of (m.references) (context.oids_to_references) (m.world))
                (laws.current (context.transaction)))
  unfolding end finish settle
  end-IsStored laws steady m context thread t timing now w joined begun is_open timed agreed
        unmarked early ready =
      let (m1, context1, prepares) = data_prepare-IsReady engine steady m context ready in
      let votes : (prepare_manager engine false w.0).1 ≡ true =
        ap (λ o. (prepare_manager engine false o).1) begun
        ∙ ap (λ o. (left_by (o >>= data_prepare engine false m)).1) joined
        ∙ ap (λ d. (left_by d).1) prepares in
      let all = prepare_all-IsAgreed t.participants w agreed votes in
      let (rs, w1, agreement) = prepare_all false t.participants w in
      let ends : end now thread w
          ≡ some (
            record thread { transaction = none; timing = none },
            commit_all rs w1,
            TransactionResult.success,
          ) =
        rw (end, is_open, timed, finish, unmarked, all, settle, early) refl in
      let (m', is_some, stores) =
        (end-IsSettled engine laws name m context joined thread _ t timing now w (commit_all rs w1)
            TransactionResult.success is_open timed (IsAgreed-HasManager t.participants agreed)
            begun ends).0
          refl in
      (commit_all rs w1, m', ends, is_some, stores)
