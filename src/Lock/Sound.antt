-- ===== src/Lock/Sound.antt =====
-- gzochi-server/src/lock-mem.c: the locks on one key, and the key's entry in the table.
use mathlib.Core.Option.{some-injective}
use gnu_gzochi.Base.{
  subst, ==_refl, ℕ, ◌≡◌, ◌≢◌, refl, true, false, none, some, List, [], ◌∷◌, ◌==◌, ◌⊎◌, inl, inr,
  ltb, length, All, arith, Bool-cases,
}
use gnu_gzochi.Timeval.{Timeval}
use gnu_gzochi.Lock.{PointLock, find_lock_with_node_id, find_other, upgrade, delete_lock}

-- No lock of the node.
abbrev pub Without : ℕ → List PointLock → Type 0
Without node = All (λ l. (l.node_id == node) ≡ false)

abbrev pub Distinct : List PointLock → Type 0
Distinct [] = Unit
Distinct (l ∷ ls) = Without l.node_id ls × Distinct ls

abbrev pub AllRead : List PointLock → Type 0
AllRead = All (λ l. l.for_write ≡ false)

-- What a key's list of locks is: one lock, or several read locks of distinct nodes.
abbrev pub IsShared : List PointLock → Type 0
IsShared [] = ⊥
IsShared (l ∷ []) = Unit
IsShared (l ∷ m ∷ ms) = AllRead (l ∷ m ∷ ms) × Distinct (l ∷ m ∷ ms)

pub find-none-Without :
    (node : ℕ) (ls : List PointLock) → find_lock_with_node_id node ls ≡ none → Without node ls
unfolding find_lock_with_node_id
find-none-Without node [] e = tt
find-none-Without node (l ∷ ls) e = elim (Bool-cases (l.node_id == node)) [
  | inl hit ↦ absurd (ground arith)
  | inr miss ↦ (miss, find-none-Without node ls (ground arith))
]

pub find-some :
    (node : ℕ) (ls : List PointLock) (l : PointLock)
    → find_lock_with_node_id node ls ≡ some l
    → l.node_id ≡ node
unfolding find_lock_with_node_id
find-some node [] l e = cc
find-some node (x ∷ ls) l e = elim (Bool-cases (x.node_id == node)) [
  | inl hit ↦ ground arith
  | inr miss ↦ find-some node ls l (ground arith)
]

Without-delete :
    (node other : ℕ) (ls : List PointLock) → Without node ls → Without node (delete_lock other ls)
unfolding delete_lock
Without-delete node other [] w = tt
Without-delete node other (l ∷ ls) w = elim (Bool-cases (l.node_id == other)) [
  | inl hit ↦ rw hit w.1
  | inr miss ↦ rw miss (w.0, Without-delete node other ls w.1)
]

Distinct-delete : (node : ℕ) (ls : List PointLock) → Distinct ls → Distinct (delete_lock node ls)
unfolding delete_lock
Distinct-delete node [] d = tt
Distinct-delete node (l ∷ ls) d = elim (Bool-cases (l.node_id == node)) [
  | inl hit ↦ rw hit d.1
  | inr miss ↦ rw miss (Without-delete l.node_id node ls d.0, Distinct-delete node ls d.1)
]

AllRead-delete : (node : ℕ) (ls : List PointLock) → AllRead ls → AllRead (delete_lock node ls)
unfolding delete_lock
AllRead-delete node [] r = tt
AllRead-delete node (l ∷ ls) r = elim (Bool-cases (l.node_id == node)) [
  | inl hit ↦ rw hit r.1
  | inr miss ↦ rw miss (r.0, AllRead-delete node ls r.1)
]

IsShared-readers : (ls : List PointLock) → AllRead ls → Distinct ls → (ls ≡ []) ⊎ IsShared ls
IsShared-readers [] r d = inl refl
IsShared-readers (l ∷ []) r d = inr tt
IsShared-readers (l ∷ m ∷ ms) r d = inr (r, d)

pub IsShared-delete :
    (node : ℕ) (ls : List PointLock)
    → IsShared ls
    → (delete_lock node ls ≡ []) ⊎ IsShared (delete_lock node ls)
unfolding delete_lock
IsShared-delete node [] s = absurd s
IsShared-delete node (l ∷ []) s = elim (Bool-cases (l.node_id == node)) [
  | inl hit ↦ inl (rw hit refl)
  | inr miss ↦ inr (rw miss tt)
]
IsShared-delete node (l ∷ m ∷ ms) s =
    let rest = l ∷ m ∷ ms in
    IsShared-readers (delete_lock node rest) (AllRead-delete node rest s.0)
      (Distinct-delete node rest s.1)

-- A new reader joins a list of readers.
pub IsShared-cons :
    (new l : PointLock) (ls : List PointLock)
    → new.for_write ≡ false
    → l.for_write ≡ false
    → Without new.node_id (l ∷ ls)
    → IsShared (l ∷ ls)
    → IsShared (new ∷ l ∷ ls)
IsShared-cons new l [] r r' w s = ((r, (r', tt)), (w, (tt, tt)))
IsShared-cons new l (m ∷ ms) r r' w s = ((r, s.0), (w, s.1))

pub IsShared-upgrade :
    (node : ℕ) (now : Timeval) (ls : List PointLock)
    → IsShared ls
    → ltb 1 (length ls) ≡ false
    → IsShared (upgrade node now ls)
unfolding upgrade
IsShared-upgrade node now [] s few = s
IsShared-upgrade node now (l ∷ []) s few = elim (Bool-cases (l.node_id == node)) [
  | inl hit ↦ rw hit tt
  | inr miss ↦ rw miss tt
]
IsShared-upgrade node now (l ∷ m ∷ ms) s few = absurd (ground arith)

find-AllRead :
    (node : ℕ) (ls : List PointLock) (l : PointLock)
    → AllRead ls
    → find_lock_with_node_id node ls ≡ some l
    → l.for_write ≡ false
unfolding find_lock_with_node_id
find-AllRead node [] l r e = cc
find-AllRead node (x ∷ ls) l r e = elim (Bool-cases (x.node_id == node)) [
  | inl hit ↦ ground arith
  | inr miss ↦ find-AllRead node ls l r.1 (ground arith)
]

-- A writer is alone.
pub writer_alone :
    (n m : ℕ) (ls : List PointLock) (l k : PointLock)
    → IsShared ls
    → find_lock_with_node_id n ls ≡ some l
    → find_lock_with_node_id m ls ≡ some k
    → l.for_write ≡ true
    → n ≡ m
unfolding find_lock_with_node_id
writer_alone n m [] l k s e e' writes = absurd s
writer_alone n m (x ∷ []) l k s e e' writes = elim (Bool-cases (x.node_id == n)) [
  | inl hit ↦ elim (Bool-cases (x.node_id == m)) [
    | inl hit' ↦ ground arith
    | inr miss' ↦ absurd (ground arith)
  ]
  | inr miss ↦ absurd (ground arith)
]
writer_alone n m (x ∷ y ∷ ys) l k s e e' writes =
    let reads = find-AllRead n (x ∷ y ∷ ys) l s.0 e in absurd (ground arith)

-- Several locks on a key include one of another node.
pub find_other-some :
    (node : ℕ) (ls : List PointLock)
    → IsShared ls
    → ltb 1 (length ls) ≡ true
    → (l : PointLock) × (find_other node ls ≡ some l)
unfolding find_other
find_other-some node [] s many = absurd s
find_other-some node (l ∷ []) s many = absurd (ground arith)
find_other-some node (l ∷ m ∷ ms) s many = elim (Bool-cases (l.node_id == node)) [
  | inl hit ↦
      let apart : (m.node_id == node) ≡ false = ground (arith, s.1.0.0) in rw (hit, apart) (m, refl)
  | inr miss ↦ rw miss (l, refl)
]

pub find_other-holds :
    (node : ℕ) (ls : List PointLock) (l : PointLock)
    → find_other node ls ≡ some l
    → (l.node_id ≢ node) × (find_lock_with_node_id l.node_id ls ≡ some l)
unfolding find_other find_lock_with_node_id
find_other-holds node [] l e = cc
find_other-holds node (x ∷ ls) l e = elim (Bool-cases (x.node_id == node)) [
  | inl hit ↦
      let (apart, found) = find_other-holds node ls l (ground arith) in
      let other : (x.node_id == l.node_id) ≡ false = ground arith in (apart, rw other found)
  | inr miss ↦
      let here : x ≡ l = some-injective x l (ground arith) in
      (
        subst (λ y. y.node_id ≢ node) here (λ q. ground arith),
        subst (λ y. find_lock_with_node_id y.node_id (x ∷ ls) ≡ some y) here
            (rw (==_refl x.node_id) refl),
      )
]
