-- ===== src/Lock/Release.antt =====
-- gzochi-server/src/lock-mem.c: what `gzochid_lock_release` does.
use Prim.Native.Nat.{Ordering}
use mathlib.Core.Option.{some-injective}
use gnu_gzochi.Base.{
  ℕ, ◌≡◌, ◌≢◌, refl, sym, ap, ◌∙◌, Bool, false, none, some, List, [], ◌∷◌, inl, inr, ◌==◌, ==_iff,
  arith, Bool-cases, Option-cases, List-cases, subst,
}
use gnu_gzochi.Util.Compare.{IsOrder}
use gnu_gzochi.Lock.{
  PointLock, Locks, LockTable, IntervalTree, find_lock_with_node_id, delete_lock, find_locks_by_key,
}
use gnu_gzochi.Lock.Ops.{lock_check, remove_lock, lock_release, drop_lock}
use gnu_gzochi.Lock.Sound.{IsShared, Without, Distinct, find-none-Without}
use gnu_gzochi.Lock.Entries.{
  find-IsShared, find-replace, find_other-replace, find_other-remove, same→eq,
}
use gnu_gzochi.Lock.Built.{Built, Built-IsSound, Built-IsSorted, find-remove}
use gnu_gzochi.Lock.View.{
  holds, Without-holds, lock_check-some, lock_check-none, lock_check_same, Untouched, untouched,
}
use gnu_gzochi.Lock.Keep.{remove_lock-Removed}

Distinct-delete_lem :
    (node : ℕ) (ls : List PointLock) → Distinct ls → Without node (delete_lock node ls)
unfolding delete_lock
Distinct-delete_lem node [] d = tt
Distinct-delete_lem node (l ∷ ls) d = elim (Bool-cases (l.node_id == node)) [
  | inl hit ↦ rw hit (subst (λ n. Without n ls) ((==_iff l.node_id node).0 hit) d.0)
  | inr miss ↦ rw miss (miss, Distinct-delete_lem node ls d.1)
]

IsShared-Distinct : (ls : List PointLock) → IsShared ls → Distinct ls
IsShared-Distinct [] s = tt
IsShared-Distinct (l ∷ []) s = (tt, tt)
IsShared-Distinct (l ∷ m ∷ ms) s = s.1

holds-delete_other :
    (node m : ℕ) (v : Bool) (ls : List PointLock)
    → m ≢ node
    → holds m v (delete_lock node ls) ≡ holds m v ls
unfolding delete_lock find_lock_with_node_id
holds-delete_other node m v [] apart = refl
holds-delete_other node m v (l ∷ ls) apart = elim (Bool-cases (l.node_id == node)) [
  | inl hit ↦ let other : (l.node_id == m) ≡ false = ground arith in rw (hit, holds, other) refl
  | inr miss ↦ elim (Bool-cases (l.node_id == m)) [
    | inl hit' ↦ rw (miss, holds, hit') refl
    | inr miss' ↦ rw (miss, holds, miss') (holds-delete_other node m v ls apart)
  ]
]

module _ {K T : Type 0} (cmp : K → K → Ordering) (tree : IntervalTree K T) (order : IsOrder cmp)
    (t t' : LockTable K T) (node : ℕ) (key : K) (built : Built cmp t.locks) where
  -- The node has no lock on the key, and no other lock is touched.
  abbrev pub Released : Type 0
  Released =
      ((v : Bool) → lock_check cmp tree t' node key v ≡ false) × Untouched cmp tree node key t t'

  dropped-Released :
      (locks : Locks K)
      → find_locks_by_key cmp key t.locks ≡ some locks
      → t'.locks ≡ drop_lock cmp tree node key locks t.locks
      → Released
  unfolding drop_lock lock_check find_lock_with_node_id
  dropped-Released locks found changed =
      let (shared, own) = find-IsShared cmp key t.locks locks (Built-IsSound built) found in
      let gone = Distinct-delete_lem node locks.locks (IsShared-Distinct locks.locks shared) in
      let named = sym (same→eq cmp order key locks.key own) in
      elim (List-cases (delete_lock node locks.locks)) [
        | inl empty ↦
            let changed' = rw (drop_lock, empty) at changed in
            let absent : find_locks_by_key cmp key t'.locks ≡ none =
              ap (find_locks_by_key cmp key) changed'
              ∙ find-remove cmp order key t.locks (Built-IsSorted cmp order built) in
            (
              λ v. lock_check-none cmp tree t' node key v absent,
              untouched cmp tree order t t' node key
                  (λ m v apart.
                    lock_check-none cmp tree t' m key v absent
                    ∙ sym (
                        lock_check-some cmp tree t m key v locks found
                        ∙ sym (holds-delete_other node m v locks.locks apart)
                        ∙ ap (holds m v) empty))
                  (λ k apart.
                    ap (find_locks_by_key cmp k) changed'
                    ∙ find_other-remove cmp order k key t.locks apart),
            )
        | inr (first, rest, split) ↦
            let new : Locks K = record locks { locks = first ∷ rest } in
            let changed' = rw (drop_lock, split) at changed in
            let found' : find_locks_by_key cmp key t'.locks ≡ some new =
              ap (find_locks_by_key cmp key) changed'
              ∙ find-replace cmp key new locks t.locks own found in
            (
              λ v.
                  lock_check-some cmp tree t' node key v new found'
                  ∙ Without-holds node v (first ∷ rest) (subst (Without node) split gone),
              untouched cmp tree order t t' node key
                  (λ m v apart.
                    lock_check-some cmp tree t' m key v new found'
                    ∙ ap (holds m v) (sym split)
                    ∙ holds-delete_other node m v locks.locks apart
                    ∙ sym (lock_check-some cmp tree t m key v locks found))
                  (λ k apart.
                    ap (find_locks_by_key cmp k) changed'
                    ∙ find_other-replace cmp order k key new t.locks apart named),
            )
      ]

  unlocked-Released :
      ((v : Bool) → lock_check cmp tree t node key v ≡ false) → t'.locks ≡ t.locks → Released
  unlocked-Released free kept =
      let seen : (m : ℕ) (k : K) (v : Bool)
          → lock_check cmp tree t' m k v ≡ lock_check cmp tree t m k v =
        λ m k v. lock_check_same cmp tree t t' m k v (ap (find_locks_by_key cmp k) kept) in
      (λ v. seen node key v ∙ free v, λ m k v apart. seen m k v)

  pub remove_lock-Released : remove_lock cmp tree t node key ≡ some t' → Released
  remove_lock-Released e = elim (remove_lock-Removed cmp tree t t' node key e) [
    | inl (absent, kept) ↦
        unlocked-Released (λ v. lock_check-none cmp tree t node key v absent) kept
    | inr (locks, found, dropped) ↦ dropped-Released locks found dropped
  ]

  pub lock_release-Released : lock_release cmp tree t node key ≡ some t' → Released
  unfolding lock_release
  lock_release-Released e = elim (Option-cases (find_locks_by_key cmp key t.locks)) [
    | inl absent ↦
        unlocked-Released (λ v. lock_check-none cmp tree t node key v absent)
          (sym (ap (λ u. u.locks) (some-injective t t' (rw (lock_release, absent) at e))))
    | inr (locks, found) ↦ elim (Option-cases (find_lock_with_node_id node locks.locks)) [
      | inl other ↦
          unlocked-Released
            (λ v.
              lock_check-some cmp tree t node key v locks found
              ∙ Without-holds node v locks.locks (find-none-Without node locks.locks other))
            (sym (ap (λ u. u.locks) (some-injective t t' (rw (lock_release, found, other) at e))))
      | inr (lock, own) ↦ remove_lock-Released (rw (lock_release, found, own) at e)
    ]
  ]
