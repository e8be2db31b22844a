-- ===== src/Lock/Range.antt =====
-- gzochi-server/src/lock-mem.c: what a request for a range lock looks at.
use Prim.Native.Nat.{Ordering}
use gnu_gzochi.Base.{
  ℕ, ◌≡◌, ◌≢◌, refl, sym, ap, ◌∙◌, true, false, not, ◌&&◌, Option, none, some, List, [], ◌∷◌, inl,
  inr, ◌==◌, All, arith, Bool-cases, if-cases, Option-cases, List-cases, subst,
}
use gnu_gzochi.Timeval.{Timeval}
use gnu_gzochi.Lock.{
  PointLock, Locks, RangeLock, LockTable, IntervalTree, granted, refused, find_locks_by_key,
  locks_from, find_overlapping, find_writer, same, find_lock_with_node_id,
}
use gnu_gzochi.Lock.Ops.{lock_check, lock_range_check_and_set, find_conflict}
use gnu_gzochi.Lock.Sound.{IsShared, AllRead}
use gnu_gzochi.Lock.View.{holds}
use gnu_gzochi.Lock.Entries.{IsSound}

readers_only : (m : ℕ) (ls : List PointLock) → AllRead ls → holds m true ls ≡ false
unfolding find_lock_with_node_id
readers_only m [] r = refl
readers_only m (l ∷ ls) r = elim (Bool-cases (l.node_id == m)) [
  | inl hit ↦ rw (holds, hit, r.0) refl
  | inr miss ↦ rw (holds, miss) (readers_only m ls r.1)
]

-- An entry whose first lock is not another node's write lock has no other writer.
no_writer :
    (node m : ℕ) (first : PointLock) (rest : List PointLock)
    → IsShared (first ∷ rest)
    → (first.for_write && not (first.node_id == node)) ≡ false
    → m ≢ node
    → holds m true (first ∷ rest) ≡ false
unfolding find_lock_with_node_id
no_writer node m l [] sound mild apart = elim (Bool-cases (l.node_id == m)) [
  | inl hit ↦ let reads : l.for_write ≡ false = ground arith in rw (holds, hit, reads) refl
  | inr miss ↦ rw (holds, miss) refl
]
no_writer node m l (k ∷ ks) sound mild apart = readers_only m (l ∷ k ∷ ks) sound.0

module _ {K : Type 0} where
  find_overlapping-none :
      (node : ℕ) (rs : List (RangeLock K))
      → find_overlapping node rs ≡ none
      → All (λ r. (r.node_id == node) ≡ true) rs
  unfolding find_overlapping
  find_overlapping-none node [] e = tt
  find_overlapping-none node (r ∷ rs) e = elim (Bool-cases (r.node_id == node)) [
    | inl own ↦ (own, find_overlapping-none node rs (rw own at e))
    | inr other ↦ absurd (let clash = rw other at e in cc)
  ]

  find_writer-ne-granted : (node : ℕ) (es : List (Locks K)) → find_writer node es ≢ some granted
  unfolding find_writer
  find_writer-ne-granted node [] = λ e. cc
  find_writer-ne-granted node (x ∷ es) = λ e. elim (List-cases x.locks) [
    | inl empty ↦ let h = rw empty at e in cc
    | inr (first, rest, split) ↦
        let looked = rw split at e in
        elim (Bool-cases (first.for_write && not (first.node_id == node))) [
          | inl clash ↦ let bad = rw clash at looked in cc
          | inr mild ↦ find_writer-ne-granted node es (rw mild at looked)
        ]
  ]

  find_writer-none :
      (node m : ℕ) (es : List (Locks K))
      → IsSound es
      → find_writer node es ≡ none
      → m ≢ node
      → All (λ e. holds m true e.locks ≡ false) es
  unfolding find_writer
  find_writer-none node m [] sound e apart = tt
  find_writer-none node m (x ∷ es) sound e apart = elim (List-cases x.locks) [
    | inl empty ↦ absurd (subst IsShared empty sound.0)
    | inr (first, rest, split) ↦
        let looked = rw split at e in
        elim (Bool-cases (first.for_write && not (first.node_id == node))) [
          | inl clash ↦ absurd (let bad = rw clash at looked in cc)
          | inr mild ↦ (
            ap (holds m true) split
                ∙ no_writer node m first rest (subst IsShared split sound.0) mild apart,
            find_writer-none node m es sound.1 (rw mild at looked) apart,
          )
        ]
  ]

module _ {K T : Type 0} (cmp : K → K → Ordering) (tree : IntervalTree K T) where
  locks_from-absent :
      (key : K) (es : List (Locks K))
      → find_locks_by_key cmp key es ≡ none
      → locks_from cmp key es ≡ []
  unfolding locks_from find_locks_by_key
  locks_from-absent key [] absent = refl
  locks_from-absent key (e ∷ es) absent = elim (if-cases (same cmp key e.key) absent) [
    | inl (hit, here) ↦ cc
    | inr (miss, there) ↦ rw miss (locks_from-absent key es there)
  ]

  locks_from-IsSound :
      (key : K) (es : List (Locks K)) → IsSound es → IsSound (locks_from cmp key es)
  unfolding locks_from
  locks_from-IsSound key [] sound = tt
  locks_from-IsSound key (e ∷ es) sound = elim (Bool-cases (same cmp key e.key)) [
    | inl hit ↦ rw hit sound
    | inr miss ↦ rw miss (locks_from-IsSound key es sound.1)
  ]

  -- What a granted range lock from a bound that is not null means, on a sound table: the ranges that
  -- overlap it are the node's own, no other node holds for writing any key from the lower bound's
  -- entry on, the point locks are as before, and the tree has a new range lock of the node.
  pub range_granted :
      (t t' : LockTable K T) (node : ℕ) (from : K) (to : Option K) (now : Timeval)
      → IsSound t.locks
      → lock_range_check_and_set cmp tree t node (some from) to now ≡ (t', granted)
      → All (λ r. (r.node_id == node) ≡ true) (tree.search_interval (some from) to t.range_locks)
        × ((m : ℕ)
            → m ≢ node
            → All (λ e. holds m true e.locks ≡ false) (locks_from cmp from t.locks))
        × (t'.locks ≡ t.locks)
        × ((r : RangeLock K) × (r.node_id ≡ node)
            × (t'.range_locks ≡ tree.insert (some from) to r t.range_locks))
  unfolding lock_range_check_and_set find_conflict
  range_granted t t' node from to now sound e =
      elim (Option-cases
        (find_overlapping node (tree.search_interval (some from) to t.range_locks))) [
          | inr (r, overlap) ↦
              let clash : refused r.timestamp ≡ granted =
                ap (λ q. q.1) (rw (lock_range_check_and_set, overlap) at e) in
              cc
          | inl clear ↦ elim (Option-cases (find_writer node (locks_from cmp from t.locks))) [
            | inr (c, conflict) ↦
                let kept = rw (lock_range_check_and_set, clear, find_conflict, conflict) at e in
                absurd (
                  find_writer-ne-granted node (locks_from cmp from t.locks)
                    (conflict ∙ ap (λ q. some q.1) kept))
            | inl free ↦
                let done = rw (lock_range_check_and_set, clear, find_conflict, free) at e in
                (
                  find_overlapping-none node _ clear,
                  λ m apart.
                      find_writer-none node m (locks_from cmp from t.locks)
                        (locks_from-IsSound from t.locks sound) free apart,
                  sym (ap (λ q. q.0.locks) done),
                  (_, refl, sym (ap (λ q. q.0.range_locks) done)),
                )
          ]
        ]

  -- The other nodes' locks inside the interval are not looked at unless its lower bound itself is
  -- locked: if no other node's range lock overlaps the interval and no point lock stands on the
  -- lower bound, the range lock is granted, and every node that held a key for writing, inside the
  -- interval or not, holds it as before.
  pub range_overlooks_writers :
      (t : LockTable K T) (node : ℕ) (from : K) (to : Option K) (now : Timeval)
      → find_overlapping node (tree.search_interval (some from) to t.range_locks) ≡ none
      → find_locks_by_key cmp from t.locks ≡ none
      → let granting = lock_range_check_and_set cmp tree t node (some from) to now in
        (granting.1 ≡ granted)
        × ((m : ℕ) (key : K)
            → lock_check cmp tree granting.0 m key true ≡ lock_check cmp tree t m key true)
  unfolding lock_range_check_and_set lock_check find_conflict find_writer
  range_overlooks_writers t node from to now clear absent =
      let free : find_conflict cmp tree t node (some from) ≡ none =
        rw (find_conflict, locks_from-absent from t.locks absent) refl in
      (
        rw (lock_range_check_and_set, clear, free) refl,
        λ m key. rw (lock_range_check_and_set, clear, free) refl,
      )
