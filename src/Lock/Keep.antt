-- ===== src/Lock/Keep.antt =====
-- gzochi-server/src/lock-mem.c: every operation edits the entries in the ways of Lock.Built.
use Prim.Native.Nat.{Ordering}
use mathlib.Core.Option.{some-injective}
use gnu_gzochi.Base.{
  ℕ, ◌≡◌, ◌≢◌, refl, sym, ap, Bool, Option, none, some, List, [], ◌∷◌, ◌⊎◌, inl, inr, >>=-eq-some,
  Option-cases, List-cases, subst,
}
use gnu_gzochi.Timeval.{Timeval}
use gnu_gzochi.Lock.{
  upgrade, Locks, RangeLock, LockTable, IntervalTree, Result, fault, delete_lock, find_locks_by_key,
  find_node, find_overlapping,
}
use gnu_gzochi.Lock.Ops.{
  lock_check_and_set, lock_range_check_and_set, drop_lock, remove_lock, remove_range_lock,
  find_conflict,
}
use gnu_gzochi.Lock.Sound.{IsShared, IsShared-delete, IsShared-cons, IsShared-upgrade}
use gnu_gzochi.Lock.Entries.{find-IsShared}
use gnu_gzochi.Lock.Built.{Built, replaced, inserted, removed, Built-IsSound}
use gnu_gzochi.Lock.Outcome.{
  Outcome, held, point_conflict, range_conflict, upgraded, joined, fresh,
  lock_check_and_set-Outcome,
}

module _ {K T : Type 0} (cmp : K → K → Ordering) (tree : IntervalTree K T) where
  Outcome-Built :
      (t : LockTable K T) (node : ℕ) (key : K) (for_write : Bool) (now : Timeval)
      (p : LockTable K T × Result)
      → Built cmp t.locks
      → Outcome cmp tree t node key for_write now p
      → Built cmp p.0.locks × (p.1 ≢ fault)
  Outcome-Built t node key for_write now p sound (held strong) = (sound, λ e. cc)
  Outcome-Built t node key for_write now p sound (point_conflict conflict) = (sound, λ e. cc)
  Outcome-Built t node key for_write now p sound (range_conflict r writes covered) =
      (sound, λ e. cc)
  Outcome-Built t node key for_write now p sound (upgraded locks lock found own few free) =
      let shared = (find-IsShared cmp key t.locks locks (Built-IsSound sound) found).0 in
      (
        replaced key locks
            (record locks { locks = upgrade node now locks.locks; most_recent_timestamp = now })
            sound found refl (IsShared-upgrade node now locks.locks shared few),
        λ e. cc,
      )
  Outcome-Built t node key for_write now p sound
        (joined locks first rest found split without reads reads') =
      let shared = (find-IsShared cmp key t.locks locks (Built-IsSound sound) found).0 in
      (
        replaced key locks
            (record locks {
              locks =
                  record { node_id = node; for_write = for_write; timestamp = now } ∷ first ∷ rest;
              most_recent_timestamp = now;
            })
            sound found refl
            (IsShared-cons (record { node_id = node; for_write = for_write; timestamp = now }) first
              rest reads reads' without (subst IsShared split shared)),
        λ e. cc,
      )
  Outcome-Built t node key for_write now p sound (fresh absent free) = (
    inserted
        (record {
          key = key;
          locks = record { node_id = node; for_write = for_write; timestamp = now } ∷ [];
          most_recent_timestamp = now;
        })
        sound absent tt,
    λ e. cc,
  )

  -- On a sound table a request for a point lock keeps the table sound and ends without a failed
  -- assertion.
  pub lock_check_and_set-Built :
      (t : LockTable K T) (node : ℕ) (key : K) (for_write : Bool) (now : Timeval)
      → Built cmp t.locks
      → Built cmp (lock_check_and_set cmp tree t node key for_write now).0.locks
        × ((lock_check_and_set cmp tree t node key for_write now).1 ≢ fault)
  lock_check_and_set-Built t node key for_write now sound =
      Outcome-Built t node key for_write now _ sound
        (lock_check_and_set-Outcome cmp tree t node key now for_write (Built-IsSound sound))

  pub range-locks :
      (t : LockTable K T) (node : ℕ) (from to : Option K) (now : Timeval)
      → (lock_range_check_and_set cmp tree t node from to now).0.locks ≡ t.locks
  unfolding lock_range_check_and_set
  range-locks t node from to now =
      elim (Option-cases (find_overlapping node (tree.search_interval from to t.range_locks))) [
        | inl clear ↦ elim (Option-cases (find_conflict cmp tree t node from)) [
          | inl free ↦ rw (lock_range_check_and_set, clear, free) refl
          | inr (c, clash) ↦ rw (lock_range_check_and_set, clear, clash) refl
        ]
        | inr (r, overlap) ↦ rw (lock_range_check_and_set, overlap) refl
      ]

  drop_lock-Built :
      (node : ℕ) (key : K) (locks : Locks K) (es : List (Locks K))
      → find_locks_by_key cmp key es ≡ some locks
      → Built cmp es
      → Built cmp (drop_lock cmp tree node key locks es)
  unfolding drop_lock
  drop_lock-Built node key locks es found sound =
      let shared = (find-IsShared cmp key es locks (Built-IsSound sound) found).0 in
      elim (List-cases (delete_lock node locks.locks)) [
        | inl empty ↦ rw (drop_lock, empty) (removed key sound)
        | inr (first, rest, split) ↦ elim (IsShared-delete node locks.locks shared) [
          | inl empty ↦ absurd (cc)
          | inr still ↦
              rw (drop_lock, split)
                (replaced key locks (record locks { locks = first ∷ rest }) sound found refl
                  (subst IsShared split still))
        ]
      ]

  -- What removing a point lock does to the entries.
  abbrev pub Removed : ℕ → K → LockTable K T → LockTable K T → Type 0
  Removed node key t t' =
      ((find_locks_by_key cmp key t.locks ≡ none) × (t'.locks ≡ t.locks))
      ⊎ ((locks : Locks K) × (find_locks_by_key cmp key t.locks ≡ some locks)
          × (t'.locks ≡ drop_lock cmp tree node key locks t.locks))

  pub remove_lock-Removed :
      (t t' : LockTable K T) (node : ℕ) (key : K)
      → remove_lock cmp tree t node key ≡ some t'
      → Removed node key t t'
  unfolding remove_lock
  remove_lock-Removed t t' node key e = elim (Option-cases (find_locks_by_key cmp key t.locks)) [
    | inl absent ↦
        inl (absent, sym (ap (λ u. u.locks) (some-injective t t' (rw (remove_lock, absent) at e))))
    | inr (locks, found) ↦
        let chain = rw (remove_lock, found) at e in
        let (ns, known, end) = >>=-eq-some (find_node node t.nodes_to_locks) _ chain in
        inr (locks, found, sym (ap (λ u. u.locks) (some-injective _ t' end)))
  ]

  pub remove_lock-Built :
      (t t' : LockTable K T) (node : ℕ) (key : K)
      → Built cmp t.locks
      → remove_lock cmp tree t node key ≡ some t'
      → Built cmp t'.locks
  remove_lock-Built t t' node key sound e = elim (remove_lock-Removed t t' node key e) [
    | inl (absent, kept) ↦ subst (Built cmp) (sym kept) sound
    | inr (locks, found, dropped) ↦
        subst (Built cmp) (sym dropped) (drop_lock-Built node key locks t.locks found sound)
  ]

  pub remove_range_lock-locks :
      (t t' : LockTable K T) (r : RangeLock K)
      → remove_range_lock cmp tree t r ≡ some t'
      → t'.locks ≡ t.locks
  unfolding remove_range_lock
  remove_range_lock-locks t t' r e =
      let (ns, known, e') = >>=-eq-some (find_node r.node_id t.nodes_to_locks) _ e in
      sym (ap (λ u. u.locks) (some-injective _ t' e'))
