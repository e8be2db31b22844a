-- ===== src/Tx/Registry.antt =====
-- gzochi-server/src/tx.c: joining a transaction, and what the participants find there.
use gnu_gzochi.Base.{
  ℕ, ◌+◌, ◌%◌, ◌^◌, ◌≡◌, ◌≢◌, refl, false, Option, none, some, List, [], ◌∷◌, ◌==◌, arith,
  Option-cases, Bool-cases, ◌⊎◌, inl, inr,
}
use gnu_gzochi.Tx.{
  State, Timing, transaction_new, Participant, Registration, Transaction, Thread, register,
  find_registration, join, context,
}

module _ {D W : Type 0} where
  abbrev pub Absent : ℕ → List (Registration D W) → Type 0
  Absent name [] = Unit
  Absent name (r ∷ rs) = (r.participant.name ≢ name) × Absent name rs

  -- No two registrations have one name.
  abbrev pub HasDistinctNames : List (Registration D W) → Type 0
  HasDistinctNames [] = Unit
  HasDistinctNames (r ∷ rs) = Absent r.participant.name rs × HasDistinctNames rs

  -- An active transaction with distinct participants, or none.
  abbrev pub IsOpen : Thread D W → Type 0
  IsOpen thread = elim thread.transaction [
    | none ↦ Unit
    | some t ↦ (t.state ≡ State.active) × HasDistinctNames t.participants
  ]

  find_none-Absent :
      (name : ℕ) (rs : List (Registration D W)) → find_registration name rs ≡ none → Absent name rs
  unfolding find_registration
  find_none-Absent name [] e = tt
  find_none-Absent name (r ∷ rs) e = (ground arith, find_none-Absent name rs (ground arith))

  register-HasDistinctNames :
      (p : Participant D W) (d : D) (rs : List (Registration D W))
      → HasDistinctNames rs
      → HasDistinctNames (register p d rs)
  unfolding register
  register-HasDistinctNames p d rs h = elim (Option-cases (find_registration p.name rs)) [
    | inl e ↦ rw (e, register) (find_none-Absent p.name rs e, h)
    | inr (r, e) ↦ rw (e, register) h
  ]

  -- The participant's registration: a new one with the data, or the one that there was.
  find-register_self :
      (p : Participant D W) (d : D) (rs : List (Registration D W))
      → (r : Registration D W) × (find_registration p.name (register p d rs) ≡ some r)
        × (find_registration p.name rs ≡ none → r.context ≡ d)
  unfolding register find_registration
  find-register_self p d rs = elim (Option-cases (find_registration p.name rs)) [
    | inl e ↦ (
      record { participant = p; context = d; marked = false; retryable = false },
      rw (e, register) (ground arith),
      λ absent. refl,
    )
    | inr (r, e) ↦ (r, rw (e, register) e, λ absent. absurd (cc))
  ]

  find-register_keeps :
      (p : Participant D W) (d : D) (name : ℕ) (rs : List (Registration D W))
      → find_registration name rs ≢ none
      → find_registration name (register p d rs) ≡ find_registration name rs
  unfolding register find_registration
  find-register_keeps p d name rs found = elim (Option-cases (find_registration p.name rs)) [
    | inl e ↦
        rw (e, register)
          (elim (Bool-cases (p.name == name)) [
            | inl same ↦ let same' : p.name ≡ name = ground arith in absurd (found (rw same' at e))
            | inr other ↦ rw other
          ])
    | inr (r, e) ↦ rw (e, register)
  ]

  -- What `join` with the data `d` promises of the thread that it leaves.
  abbrev pub Joined : Participant D W → Participant D W → D → Thread D W → Thread D W → Type 0
  Joined p q d thread thread' =
      IsOpen thread'
      × ((c : D) × (context p thread' ≡ some (some c))
          × ((context p thread ≡ some (some c)) ⊎ (c ≡ d)))
      × ((c : D) → context q thread ≡ some (some c) → context q thread' ≡ some (some c))

  joined_self :
      (p : Participant D W) (d : D) (t : Transaction D W) (thread : Thread D W)
      → (c : D) × (context p (record thread {
        transaction = some (record t { participants = register p d t.participants });
      })
          ≡ some (some c))
        × ((context p (record thread { transaction = some t }) ≡ some (some c)) ⊎ (c ≡ d))
  unfolding context register
  joined_self p d t thread = elim (Option-cases (find_registration p.name t.participants)) [
    | inl e ↦
        let (r, found, new) = find-register_self p d t.participants in
        (r.context, rw found refl, inr (new e))
    | inr (r, e) ↦ (r.context, rw (register, e) (rw e refl), inl (rw e refl))
  ]

  join_open :
      (p q : Participant D W) (d : D) (t : Transaction D W) (thread : Thread D W)
      → t.state ≡ State.active
      → HasDistinctNames t.participants
      → Joined p q d
          (record thread { transaction = some t })
          (record thread {
            transaction = some (record t { participants = register p d t.participants });
          })
  unfolding context
  join_open p q d t thread active distinct = (
    (active, register-HasDistinctNames p d t.participants distinct),
    joined_self p d t thread,
    (λ c found. ground (arith, find-register_keeps p d q.name t.participants)),
  )

  abbrev JoinedBy : Participant D W → Participant D W → D → Thread D W → Type 0
  JoinedBy p q d thread =
      (thread' : Thread D W) × (join p d thread ≡ some thread') × Joined p q d thread thread'

  join_at :
      (p q : Participant D W) (d : D) (o : Option (Transaction D W)) (timing : Option Timing)
      (counter : ℕ)
      → let thread : Thread D W = record {
        transaction = o;
        timing = timing;
        transaction_counter = counter;
      } in
        IsOpen thread → JoinedBy p q d thread
  unfolding join context transaction_new find_registration
  join_at p q d none timing counter h =
      let t = transaction_new timing counter in
      let thread : Thread D W = record {
        transaction = none;
        timing = timing;
        transaction_counter = (counter + 1) % 2 ^ 64;
      } in
      let (open', registered, kept) = join_open p q d t thread refl tt in
      let (r, found, new) = find-register_self p d [] in
      (_, refl, (open', (r.context, rw found refl, inr (new refl)), λ c found. cc))
  join_at p q d (some t) timing counter h =
      let thread : Thread D W = record {
        transaction = some t;
        timing = timing;
        transaction_counter = counter;
      } in
      let joined : Transaction D W = record t { participants = register p d t.participants } in
      (
        record thread { transaction = some joined },
        rw (h.0, join),
        join_open p q d t thread h.0 h.1,
      )

  -- Joining never fails on an open thread; it leaves the thread open, in a transaction where the
  -- participant finds its data: the data that it joined with, or, if it was registered already, the
  -- data of its first join. What any participant found that was registered before, it still finds.
  pub join_lem :
      (p q : Participant D W) (d : D) (thread : Thread D W)
      → IsOpen thread
      → (thread' : Thread D W) × (join p d thread ≡ some thread') × Joined p q d thread thread'
  unfolding join
  join_lem p q d thread h =
      join_at p q d thread.transaction thread.timing thread.transaction_counter h
