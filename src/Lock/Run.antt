-- ===== src/Lock/Run.antt =====
-- gzochi-server/src/lock-mem.c: sequences of operations on one lock table.
use Prim.Native.Nat.{Ordering}
use mathlib.Core.Option.{some-injective}
use gnu_gzochi.Base.{
  ℕ, ◌≡◌, Bool, Option, some, List, [], ◌∷◌, inl, inr, ◌>>=◌, >>=-eq-some, Option-cases, subst,
}
use gnu_gzochi.Timeval.{Timeval}
use gnu_gzochi.Lock.{
  RangeLock, LockTable, IntervalTree, find_lock_with_node_id, find_locks_by_key, find_node,
}
use gnu_gzochi.Lock.Ops.{
  lock_check_and_set, lock_range_check_and_set, lock_release, lock_release_range, lock_release_all,
  remove_lock, remove_range_lock, release_locks, release_range_locks, find_range_lock_with_owner,
}

pub data Op (K : Type 0) : Type 0 where
  check_and_set : ℕ → K → Bool → Timeval → Op K
  range_check_and_set : ℕ → Option K → Option K → Timeval → Op K
  release : ℕ → K → Op K
  release_range : ℕ → Option K → Option K → Op K
  release_all : ℕ → Op K

module _ {K T : Type 0} (cmp : K → K → Ordering) (tree : IntervalTree K T) where
  abbrev pub step : Op K → LockTable K T → Option (LockTable K T)
  step (check_and_set node key for_write now) t =
      some (lock_check_and_set cmp tree t node key for_write now).0
  step (range_check_and_set node from to now) t =
      some (lock_range_check_and_set cmp tree t node from to now).0
  step (release node key) t = lock_release cmp tree t node key
  step (release_range node from to) t = lock_release_range cmp tree t node from to
  step (release_all node) t = lock_release_all cmp tree t node

  abbrev pub run : List (Op K) → LockTable K T → Option (LockTable K T)
  run [] t = some t
  run (op ∷ ops) t = step op t >>= run ops

-- What the four basic operations preserve, every sequence of operations preserves.
module _ {K T : Type 0} (cmp : K → K → Ordering) (tree : IntervalTree K T)
    (P : LockTable K T → Type 0)
    (sets : (t : LockTable K T) (node : ℕ) (key : K) (for_write : Bool) (now : Timeval)
      → P t
      → P (lock_check_and_set cmp tree t node key for_write now).0)
    (range_sets : (t : LockTable K T) (node : ℕ) (from to : Option K) (now : Timeval)
      → P t
      → P (lock_range_check_and_set cmp tree t node from to now).0)
    (points : (t t' : LockTable K T) (node : ℕ) (key : K)
      → P t
      → remove_lock cmp tree t node key ≡ some t'
      → P t')
    (ranges : (t t' : LockTable K T) (r : RangeLock K)
      → P t
      → remove_range_lock cmp tree t r ≡ some t'
      → P t') where
  release_one-P :
      (t t' : LockTable K T) (node : ℕ) (key : K)
      → P t
      → lock_release cmp tree t node key ≡ some t'
      → P t'
  unfolding lock_release
  release_one-P t t' node key sound e = elim (Option-cases (find_locks_by_key cmp key t.locks)) [
    | inl absent ↦ subst P (some-injective t t' (rw (lock_release, absent) at e)) sound
    | inr (locks, found) ↦ elim (Option-cases (find_lock_with_node_id node locks.locks)) [
      | inl other ↦ subst P (some-injective t t' (rw (lock_release, found, other) at e)) sound
      | inr (lock, own) ↦ points t t' node key sound (rw (lock_release, found, own) at e)
    ]
  ]

  release_locks-P :
      (node : ℕ) (keys : List K) (t t' : LockTable K T)
      → P t
      → release_locks cmp tree node keys t ≡ some t'
      → P t'
  unfolding release_locks
  release_locks-P node [] t t' sound e = subst P (some-injective t t' e) sound
  release_locks-P node (key ∷ keys) t t' sound e =
      let (t₁, removed, rest) = >>=-eq-some (remove_lock cmp tree t node key) _ e in
      release_locks-P node keys t₁ t' (points t t₁ node key sound removed) rest

  release_range_locks-P :
      (rs : List (RangeLock K)) (t t' : LockTable K T)
      → P t
      → release_range_locks cmp tree rs t ≡ some t'
      → P t'
  unfolding release_range_locks
  release_range_locks-P [] t t' sound e = subst P (some-injective t t' e) sound
  release_range_locks-P (r ∷ rs) t t' sound e =
      let (t₁, removed, rest) = >>=-eq-some (remove_range_lock cmp tree t r) _ e in
      release_range_locks-P rs t₁ t' (ranges t t₁ r sound removed) rest

  release_all-P :
      (t t' : LockTable K T) (node : ℕ) → P t → lock_release_all cmp tree t node ≡ some t' → P t'
  unfolding lock_release_all
  release_all-P t t' node sound e = elim (Option-cases (find_node node t.nodes_to_locks)) [
    | inl unknown ↦ subst P (some-injective t t' (rw (lock_release_all, unknown) at e)) sound
    | inr (ns, known) ↦
        let chain = rw (lock_release_all, known) at e in
        let (t₁, gone_points, rest) =
          >>=-eq-some (release_locks cmp tree node ns.locks t) _ chain in
        let sound₁ = release_locks-P node ns.locks t t₁ sound gone_points in
        elim (Option-cases (find_node node t₁.nodes_to_locks)) [
          | inl gone ↦ subst P (some-injective t₁ t' (rw gone at rest)) sound₁
          | inr (ns', still) ↦ release_range_locks-P ns.range_locks t₁ t' sound₁ (rw still at rest)
        ]
  ]

  step-P : (op : Op K) (t t' : LockTable K T) → P t → step cmp tree op t ≡ some t' → P t'
  unfolding lock_release_range
  step-P (check_and_set node key for_write now) t t' sound e =
      subst P (some-injective _ t' e) (sets t node key for_write now sound)
  step-P (range_check_and_set node from to now) t t' sound e =
      subst P (some-injective _ t' e) (range_sets t node from to now sound)
  step-P (release node key) t t' sound e = release_one-P t t' node key sound e
  step-P (release_range node from to) t t' sound e =
      elim (Option-cases
        (find_range_lock_with_owner cmp tree node from to (tree.search from t.range_locks))) [
          | inl absent ↦ subst P (some-injective t t' (rw (lock_release_range, absent) at e)) sound
          | inr (r, found) ↦ ranges t t' r sound (rw (lock_release_range, found) at e)
        ]
  step-P (release_all node) t t' sound e = release_all-P t t' node sound e

  pub run-P : (ops : List (Op K)) (t t' : LockTable K T) → P t → run cmp tree ops t ≡ some t' → P t'
  run-P [] t t' sound e = subst P (some-injective t t' e) sound
  run-P (op ∷ ops) t t' sound e =
      let (t₁, first, rest) = >>=-eq-some (step cmp tree op t) (run cmp tree ops) e in
      run-P ops t₁ t' (step-P op t t₁ sound first) rest
