-- ===== src/Lock/Nodes.antt =====
-- gzochi-server/src/lock-mem.c: the table from nodes to the locks that they hold.
use Prim.Native.Nat.{Ordering}
use gnu_gzochi.Base.{
  ℕ, ◌≡◌, ◌≢◌, refl, sym, ap, ◌∙◌, Bool, true, false, ◌||◌, some, List, [], ◌∷◌, ◌==◌, ==_refl,
  ==_iff, inl, inr, arith, Bool-cases, List-cases, subst,
}
use gnu_gzochi.Util.Compare.{IsOrder}
use gnu_gzochi.Lock.{
  is_idle, NodeLocks, find_node, set_node, remove_node, ensure_node_registration, record_lock,
  settle_node, delete_key, same,
}
use gnu_gzochi.Lock.Entries.{same→eq, same_refl}

module _ {K : Type 0} where
  pub find_node-set :
      (node : ℕ) (new : NodeLocks K) (nodes : List (ℕ × NodeLocks K))
      → find_node node (set_node node new nodes) ≡ some new
  unfolding find_node set_node
  find_node-set node new [] = rw (==_refl node) refl
  find_node-set node new ((n, ls) ∷ nodes) = elim (Bool-cases (n == node)) [
    | inl hit ↦ rw (hit, hit) refl
    | inr miss ↦ rw (miss, miss) (find_node-set node new nodes)
  ]

  pub find_node-set_other :
      (node m : ℕ) (new : NodeLocks K) (nodes : List (ℕ × NodeLocks K))
      → m ≢ node
      → find_node m (set_node node new nodes) ≡ find_node m nodes
  unfolding find_node set_node
  find_node-set_other node m new [] apart =
      let other : (node == m) ≡ false = ground arith in rw other refl
  find_node-set_other node m new ((n, ls) ∷ nodes) apart = elim (Bool-cases (n == node)) [
    | inl hit ↦ let other : (n == m) ≡ false = ground arith in rw (hit, other) refl
    | inr miss ↦ rw (miss, find_node-set_other node m new nodes apart) refl
  ]

  pub find_node-remove_other :
      (node m : ℕ) (nodes : List (ℕ × NodeLocks K))
      → m ≢ node
      → find_node m (remove_node node nodes) ≡ find_node m nodes
  unfolding find_node remove_node
  find_node-remove_other node m [] apart = refl
  find_node-remove_other node m ((n, ls) ∷ nodes) apart = elim (Bool-cases (n == node)) [
    | inl hit ↦ let other : (n == m) ≡ false = ground arith in rw (hit, other) refl
    | inr miss ↦ rw (miss, find_node-remove_other node m nodes apart) refl
  ]

  pub find_node-settle_other :
      (node m : ℕ) (new : NodeLocks K) (nodes : List (ℕ × NodeLocks K))
      → m ≢ node
      → find_node m (settle_node node new nodes) ≡ find_node m nodes
  unfolding settle_node
  find_node-settle_other node m new nodes apart = elim (Bool-cases (is_idle new)) [
    | inl idle ↦ rw (settle_node, idle) (find_node-remove_other node m nodes apart)
    | inr busy ↦ rw (settle_node, busy) (find_node-set_other node m new nodes apart)
  ]

module _ {K : Type 0} (cmp : K → K → Ordering) where
  abbrev pub has_key : K → List K → Bool
  has_key key [] = false
  has_key key (k ∷ ks) = same cmp key k || has_key key ks

  -- The node is registered, and its list has the key.
  pub record Registers (nodes : List (ℕ × NodeLocks K)) (m : ℕ) (key : K) : Type 0 where
    pub node_locks : NodeLocks K
    pub known : find_node m nodes ≡ some node_locks
    pub listed : has_key key node_locks.locks ≡ true

  pub has_key-delete :
      (order : IsOrder cmp) (key k : K) (ks : List K)
      → k ≢ key
      → has_key k ks ≡ true
      → has_key k (delete_key cmp key ks) ≡ true
  unfolding delete_key
  has_key-delete order key k [] apart h = cc
  has_key-delete order key k (x ∷ xs) apart h = elim (Bool-cases (same cmp key x)) [
    | inl hit ↦ elim (Bool-cases (same cmp k x)) [
      | inl clash ↦ absurd (apart (same→eq cmp order k x clash ∙ sym (same→eq cmp order key x hit)))
      | inr miss ↦ rw hit (rw miss at h)
    ]
    | inr other ↦ elim (Bool-cases (same cmp k x)) [
      | inl found ↦ rw (other, has_key, found) refl
      | inr miss ↦
          rw (other, has_key, miss) (has_key-delete order key k xs apart (rw (has_key, miss) at h))
    ]
  ]

  -- A node with a key in its list is not dropped.
  pub Registers-settle :
      (node : ℕ) (key : K) (new : NodeLocks K) (nodes : List (ℕ × NodeLocks K))
      → has_key key new.locks ≡ true
      → Registers (settle_node node new nodes) node key
  unfolding settle_node
  Registers-settle node key new nodes listed = elim (List-cases new.locks) [
    | inl empty ↦ absurd (let h = rw empty at listed in cc)
    | inr (k, ks, split) ↦
        let busy : is_idle new ≡ false = rw (is_idle, split) refl in
        record {
          node_locks = new;
          known = rw (settle_node, busy) (find_node-set node new nodes);
          listed = listed;
        }
  ]

  pub Registers-record_lock :
      (order : IsOrder cmp) (node : ℕ) (key : K) (nodes : List (ℕ × NodeLocks K))
      → Registers (record_lock node key nodes) node key
  unfolding record_lock
  Registers-record_lock order node key nodes = record {
    node_locks = _;
    known = find_node-set node _ nodes;
    listed = rw (same_refl cmp order key) refl;
  }

  -- The key stays in the node's list.
  abbrev pub Keeps : ℕ → ℕ → K → NodeLocks K → List (ℕ × NodeLocks K) → Type 0
  Keeps node m k new nodes =
      (ls : NodeLocks K)
      → m ≡ node
      → find_node node nodes ≡ some ls
      → has_key k ls.locks ≡ true
      → has_key k new.locks ≡ true

  pub Registers-set :
      (node m : ℕ) (k : K) (new : NodeLocks K) (nodes : List (ℕ × NodeLocks K))
      → Keeps node m k new nodes
      → Registers nodes m k
      → Registers (set_node node new nodes) m k
  Registers-set node m k new nodes keeps r = elim (Bool-cases (m == node)) [
    | inl own ↦
        let here = (==_iff m node).0 own in
        let known' = subst (λ n. find_node n nodes ≡ some r.node_locks) here r.known in
        record {
          node_locks = new;
          known =
              ap (λ n. find_node n (set_node node new nodes)) here ∙ find_node-set node new nodes;
          listed = keeps r.node_locks here known' r.listed;
        }
    | inr other ↦ record {
      node_locks = r.node_locks;
      known = find_node-set_other node m new nodes (λ e. ground arith) ∙ r.known;
      listed = r.listed;
    }
  ]

  pub Registers-settle_keep :
      (node m : ℕ) (k : K) (new : NodeLocks K) (nodes : List (ℕ × NodeLocks K))
      → Keeps node m k new nodes
      → Registers nodes m k
      → Registers (settle_node node new nodes) m k
  Registers-settle_keep node m k new nodes keeps r = elim (Bool-cases (m == node)) [
    | inl own ↦
        let here = (==_iff m node).0 own in
        let known' = subst (λ n. find_node n nodes ≡ some r.node_locks) here r.known in
        subst (λ n. Registers (settle_node node new nodes) n k) (sym here)
          (Registers-settle node k new nodes (keeps r.node_locks here known' r.listed))
    | inr other ↦ record {
      node_locks = r.node_locks;
      known = find_node-settle_other node m new nodes (λ e. ground arith) ∙ r.known;
      listed = r.listed;
    }
  ]

  pub ensure-known :
      (node : ℕ) (ls : NodeLocks K) (nodes : List (ℕ × NodeLocks K))
      → find_node node nodes ≡ some ls
      → ensure_node_registration node nodes ≡ ls
  unfolding ensure_node_registration
  ensure-known node ls nodes known = rw (ensure_node_registration, known) refl

  or_true : (b : Bool) → (b || true) ≡ true
  or_true true = refl
  or_true false = refl

  pub Registers-record_lock_other :
      (node m : ℕ) (key k : K) (nodes : List (ℕ × NodeLocks K))
      → Registers nodes m k
      → Registers (record_lock node key nodes) m k
  unfolding record_lock
  Registers-record_lock_other node m key k nodes r =
      Registers-set node m k _ nodes
        (λ ls here known listed.
          rw (has_key, ensure-known node ls nodes known, listed) (or_true (same cmp k key)))
        r
