-- ===== src/Lock/Register.antt =====
-- gzochi-server/src/lock-mem.c: a node that holds a lock is registered, with the key in its list.
use Prim.Native.Nat.{Ordering}
use gnu_gzochi.Base.{
  ℕ, ◌≡◌, ◌≢◌, refl, sym, ap, ◌∙◌, Bool, true, false, not, ◌||◌, ◌⊎◌, inl, inr, ◌==◌, ==_iff, arith,
  Bool-cases, subst,
}
use gnu_gzochi.Timeval.{Timeval}
use gnu_gzochi.Util.Compare.{IsOrder}
use gnu_gzochi.Lock.{LockTable, IntervalTree, Result, same, record_lock}
use gnu_gzochi.Lock.Ops.{lock_check}
use gnu_gzochi.Lock.Entries.{same→eq, same_refl}
use gnu_gzochi.Lock.Built.{Built, Built-IsSound}
use gnu_gzochi.Lock.View.{Untouched}
use gnu_gzochi.Lock.Outcome.{Outcome, held, point_conflict, range_conflict, upgraded, joined, fresh}
use gnu_gzochi.Lock.Grant.{Outcome-Grants}
use gnu_gzochi.Lock.Nodes.{Registers, Registers-record_lock, Registers-record_lock_other}

pub or-not-false : (b : Bool) → (b || not false) ≡ true
or-not-false true = refl
or-not-false false = refl

module _ {K T : Type 0} (cmp : K → K → Ordering) (tree : IntervalTree K T)
    (order : IsOrder cmp) where
  abbrev pub IsRegistered : LockTable K T → Type 0
  IsRegistered t =
      (m : ℕ) (k : K) → lock_check cmp tree t m k false ≡ true → Registers cmp t.nodes_to_locks m k

  pub apart-cases : (m node : ℕ) (k key : K) → ((m ≢ node) ⊎ (k ≢ key)) ⊎ ((m ≡ node) × (k ≡ key))
  apart-cases m node k key = elim (Bool-cases (m == node)) [
    | inr other ↦ inl (inl (λ e. ground arith))
    | inl own ↦ elim (Bool-cases (same cmp k key)) [
      | inl hit ↦ inr ((==_iff m node).0 own, same→eq cmp order k key hit)
      | inr miss ↦ inl (inr (λ e. cc (miss, same_refl cmp order key, ap (λ x. same cmp x key) e)))
    ]
  ]

  IsRegistered-record :
      (t t' : LockTable K T) (node : ℕ) (key : K)
      → IsRegistered t
      → Untouched cmp tree node key t t'
      → t'.nodes_to_locks ≡ record_lock node key t.nodes_to_locks
      → IsRegistered t'
  IsRegistered-record t t' node key reg others nodes m k holds =
      subst (λ ns. Registers cmp ns m k) (sym nodes)
        (elim (apart-cases m node k key) [
          | inl apart ↦
              Registers-record_lock_other cmp node m key k t.nodes_to_locks
                (reg m k (sym (others m k false apart) ∙ holds))
          | inr (here, here') ↦
              subst (λ n. Registers cmp (record_lock node key t.nodes_to_locks) n k) (sym here)
                (subst (λ x. Registers cmp (record_lock node key t.nodes_to_locks) node x)
                  (sym here') (Registers-record_lock cmp order node key t.nodes_to_locks))
        ])

  pub Outcome-IsRegistered :
      (t : LockTable K T) (node : ℕ) (key : K) (for_write : Bool) (now : Timeval)
      (p : LockTable K T × Result)
      → Built cmp t.locks
      → IsRegistered t
      → Outcome cmp tree t node key for_write now p
      → IsRegistered p.0
  unfolding lock_check
  Outcome-IsRegistered t node key for_write now p built reg (held strong) = reg
  Outcome-IsRegistered t node key for_write now p built reg (point_conflict conflict) = reg
  Outcome-IsRegistered t node key for_write now p built reg (range_conflict r writes covered) = reg
  Outcome-IsRegistered t node key for_write now p built reg
        (upgraded locks lock found own few free) =
      let others =
        (Outcome-Grants cmp tree order t p.0 node key for_write now p (Built-IsSound built)
          (upgraded locks lock found own few free) refl).2 in
      λ m k holds. elim (apart-cases m node k key) [
        | inl apart ↦ reg m k (sym (others m k false apart) ∙ holds)
        | inr (here, here') ↦
            let mine : lock_check cmp tree t node key false ≡ true =
              rw (lock_check, found, own) (or-not-false lock.for_write) in
            reg m k (
              ap (λ n. lock_check cmp tree t n k false) here
              ∙ ap (λ x. lock_check cmp tree t node x false) here'
              ∙ mine)
      ]
  Outcome-IsRegistered t node key for_write now p built reg
        (joined locks first rest found split without reads reads') =
      IsRegistered-record t p.0 node key reg
        (Outcome-Grants cmp tree order t p.0 node key for_write now p (Built-IsSound built)
          (joined locks first rest found split without reads reads') refl).2
        refl
  Outcome-IsRegistered t node key for_write now p built reg (fresh absent free) =
      IsRegistered-record t p.0 node key reg
        (Outcome-Grants cmp tree order t p.0 node key for_write now p (Built-IsSound built)
          (fresh absent free) refl).2
        refl
