-- ===== src/Lock/Refuse.antt =====
-- gzochi-server/src/lock-mem.c: why a request for a point lock is refused.
use Prim.Native.Nat.{Ordering}
use mathlib.Core.Option.{some-injective}
use mathlib.Core.Logic.Or
use mathlib.Core.List.{Mem, Mem-prop, mem-cons, mem-cons_self, mem-cons_of_mem}
use gnu_gzochi.Base.{
  ℕ, ◌≡◌, sym, ap, Bool, true, false, not, ◌&&◌, none, some, List, [], ◌∷◌, inl, inr, ◌==◌, All,
  arith, Bool-cases, subst,
}
use gnu_gzochi.Timeval.{Timeval, timer_lt, timer_lt_irrefl, timer_lt_later, timer_lt_weak}
use gnu_gzochi.Lock.{RangeLock, LockTable, IntervalTree, Result, granted, refused, most_recent}
use gnu_gzochi.Lock.Ops.{lock_check_and_set, most_recent_covering_range_lock}
use gnu_gzochi.Lock.Entries.{IsSound}
use gnu_gzochi.Lock.Outcome.{
  Outcome, PointConflict, held, point_conflict, range_conflict, upgraded, joined, fresh,
  lock_check_and_set-Outcome,
}

refused-injective : (a b : Timeval) → refused a ≡ refused b → a ≡ b
refused-injective a b e = cc

module _ {K : Type 0} where
  -- `r` is one of the list, another node's, and none of the others' range locks there is later.
  pub record IsLatest (node : ℕ) (r : RangeLock K) (rs : List (RangeLock K)) : Type 0 where
    pub among : Mem r rs
    pub of_other : (r.node_id == node) ≡ false
    pub latest :
        All (λ s. (s.node_id == node) ≡ false → timer_lt r.timestamp s.timestamp ≡ false) rs

  IsLatest-own :
      (node : ℕ) (r s : RangeLock K) (rs : List (RangeLock K))
      → (s.node_id == node) ≡ true
      → IsLatest node r rs
      → IsLatest node r (s ∷ rs)
  IsLatest-own node r s rs own found = record {
    among = mem-cons_of_mem s found.among;
    of_other = found.of_other;
    latest = (λ o. absurd (cc), found.latest);
  }

  -- A range lock that is not later than one of the others that follow it.
  IsLatest-earlier :
      (node : ℕ) (f r s : RangeLock K) (rs : List (RangeLock K))
      → timer_lt f.timestamp s.timestamp ≡ true
      → (s.node_id == node) ≡ false
      → IsLatest node r (s ∷ rs)
      → IsLatest node r (f ∷ s ∷ rs)
  IsLatest-earlier node f r s rs before other found = record {
    among = mem-cons_of_mem f found.among;
    of_other = found.of_other;
    latest = (
      λ o. timer_lt_later r.timestamp f.timestamp s.timestamp before (found.latest.0 other),
      found.latest,
    );
  }

  -- A range lock of the node itself, or one that is not later than the first, is passed over.
  IsLatest-worse :
      (node : ℕ) (f r s : RangeLock K) (rs : List (RangeLock K))
      → (f.node_id == node) ≡ false
      → (not (s.node_id == node) && timer_lt f.timestamp s.timestamp) ≡ false
      → IsLatest node r (f ∷ rs)
      → IsLatest node r (f ∷ s ∷ rs)
  IsLatest-worse node f r s rs other worse found =
      let later = found.latest.0 other in
      record {
        among =
            Or.elim Mem-prop (mem-cons.0 found.among) (λ e. rw e mem-cons_self)
              (λ m. mem-cons_of_mem f (mem-cons_of_mem s m));
        of_other = found.of_other;
        latest = (
          found.latest.0,
          (
            (λ o. timer_lt_weak r.timestamp f.timestamp s.timestamp (ground arith) later),
            found.latest.1,
          ),
        );
      }

  -- From a range lock that has been found on, the search keeps the latest.
  most_recent-later :
      (node : ℕ) (f r : RangeLock K) (rs : List (RangeLock K))
      → (f.node_id == node) ≡ false
      → most_recent node (some f) rs ≡ some r
      → IsLatest node r (f ∷ rs)
  unfolding most_recent
  most_recent-later node f r [] other e =
      let here = some-injective f r e in
      subst (λ x. IsLatest node x (f ∷ [])) here
        (record {
          among = mem-cons_self;
          of_other = other;
          latest = (λ o. timer_lt_irrefl f.timestamp, tt);
        })
  most_recent-later node f r (s ∷ rs) other e =
      elim (Bool-cases (not (s.node_id == node) && timer_lt f.timestamp s.timestamp)) [
        | inl better ↦
            let other' : (s.node_id == node) ≡ false = ground arith in
            IsLatest-earlier node f r s rs (ground arith) other'
              (most_recent-later node s r rs other' (rw better at e))
        | inr worse ↦
            IsLatest-worse node f r s rs other worse
              (most_recent-later node f r rs other (rw worse at e))
      ]

  most_recent-IsLatest :
      (node : ℕ) (r : RangeLock K) (rs : List (RangeLock K))
      → most_recent node none rs ≡ some r
      → IsLatest node r rs
  unfolding most_recent
  most_recent-IsLatest node r [] e = cc
  most_recent-IsLatest node r (s ∷ rs) e = elim (Bool-cases (s.node_id == node)) [
    | inl own ↦ IsLatest-own node r s rs own (most_recent-IsLatest node r rs (rw own at e))
    | inr other ↦ most_recent-later node s r rs other (rw other at e)
  ]

module _ {K T : Type 0} (cmp : K → K → Ordering) (tree : IntervalTree K T) where
  -- A refusal, explained: another node's point lock on the key, or, for a write, the latest of the
  -- other nodes' range locks that the tree finds for the key.
  pub data Reason (t : LockTable K T) (node : ℕ) (key : K) (for_write : Bool) (stamp : Timeval)
      : Type 0 where
    by_point : PointConflict cmp tree t node key for_write stamp → Reason t node key for_write stamp
    by_range :
        (r : RangeLock K)
        → for_write ≡ true
        → IsLatest node r (tree.search (some key) t.range_locks)
        → r.timestamp ≡ stamp
        → Reason t node key for_write stamp

  Outcome-Reason :
      (t t' : LockTable K T) (node : ℕ) (key : K) (for_write : Bool) (now stamp : Timeval)
      (p : LockTable K T × Result)
      → Outcome cmp tree t node key for_write now p
      → p ≡ (t', refused stamp)
      → (t' ≡ t) × Reason t node key for_write stamp
  unfolding most_recent_covering_range_lock
  Outcome-Reason t t' node key for_write now stamp p (held strong) e =
      let clash : granted ≡ refused stamp = ap (λ q. q.1) e in cc
  Outcome-Reason t t' node key for_write now stamp p (point_conflict {stamp = s} conflict) e = (
    sym (ap (λ q. q.0) e),
    by_point (
        subst (PointConflict cmp tree t node key for_write)
          (refused-injective s stamp (ap (λ q. q.1) e)) conflict),
  )
  Outcome-Reason t t' node key for_write now stamp p (range_conflict r writes covered) e = (
    sym (ap (λ q. q.0) e),
    by_range r writes (most_recent-IsLatest node r _ covered)
        (refused-injective r.timestamp stamp (ap (λ q. q.1) e)),
  )
  Outcome-Reason t t' node key for_write now stamp p (upgraded locks lock found own few free) e =
      let clash : granted ≡ refused stamp = ap (λ q. q.1) e in cc
  Outcome-Reason t t' node key for_write now stamp p
        (joined locks first rest found split without reads reads') e =
      let clash : granted ≡ refused stamp = ap (λ q. q.1) e in cc
  Outcome-Reason t t' node key for_write now stamp p (fresh absent free) e =
      let clash : granted ≡ refused stamp = ap (λ q. q.1) e in cc

  -- On a sound table a refused request changes nothing, and the timestamp is that of a conflicting
  -- lock: one of another node on the key, of which one of the two is for writing, or, for a write,
  -- the latest of the other nodes' range locks that the tree finds for the key.
  pub lock_check_and_set-Reason :
      (t t' : LockTable K T) (node : ℕ) (key : K) (for_write : Bool) (now stamp : Timeval)
      → IsSound t.locks
      → lock_check_and_set cmp tree t node key for_write now ≡ (t', refused stamp)
      → (t' ≡ t) × Reason t node key for_write stamp
  lock_check_and_set-Reason t t' node key for_write now stamp sound e =
      Outcome-Reason t t' node key for_write now stamp _
        (lock_check_and_set-Outcome cmp tree t node key now for_write sound) e
