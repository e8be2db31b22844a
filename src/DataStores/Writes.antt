-- ===== src/DataStores/Writes.antt =====
-- gzochi-server/src/dataserver.c: the effect of a single change of a changeset.
use mathlib.Core.Option.{some-injective}
use gnu_gzochi.Base.{
  ℕ, ◌≡◌, inl, inr, refl, sym, false, Option, none, some, List, [], ◌∷◌, str_equal, str_equal_refl,
  str_equal→eq, subst, Bool-cases,
}
use gnu_gzochi.DataProtocol.Changes.{Update, change_of}
use gnu_gzochi.Storage.{StorageEngine, View, update, IsTransactional}
use gnu_gzochi.DataStores.{
  ApplicationStore, Server, StoreName, oids_store, names_store, set_store, find_store, store_name,
  get_lockable_store, write_change,
}

abbrev pub write_all : List Update → View → View
write_all [] view = view
write_all (u ∷ us) view = write_all us (update (u.store) (u.key) (u.value) view)

pub change_fields :
    (store key : List ℕ) (value : Option (List ℕ))
    → let u : Update = record { store = store; key = key; value = value } in
      ((change_of u).store ≡ some store) × ((change_of u).key ≡ some key)
change_fields store key none = (refl, refl)
change_fields store key (some v) = (refl, refl)

pub get_lockable_store-name :
    (name : List ℕ) (store : StoreName)
    → get_lockable_store name ≡ some store
    → store_name store ≡ name
unfolding get_lockable_store
get_lockable_store-name name store e = elim (Bool-cases (str_equal name (store_name oids_store))) [
  | inl same ↦
      let found = rw (get_lockable_store, same) at e in
      subst (λ s. store_name s ≡ name) (some-injective _ _ found)
        (sym (str_equal→eq name (store_name oids_store) same))
  | inr other ↦ elim (Bool-cases (str_equal name (store_name names_store))) [
    | inl same ↦
        let found = rw (get_lockable_store, other, same) at e in
        subst (λ s. store_name s ≡ name) (some-injective _ _ found)
          (sym (str_equal→eq name (store_name names_store) same))
    | inr neither ↦ let found = rw (get_lockable_store, other, neither) at e in cc
  ]
]

module _ {C T : Type 0} where
  pub find_store-set_store :
      (app : List ℕ) (new : ApplicationStore C T) (server : Server C T)
      → find_store app (set_store app new server) ≡ some new
  unfolding find_store set_store
  find_store-set_store app new [] = rw (find_store, str_equal_refl app) refl
  find_store-set_store app new ((name, store) ∷ server) = elim (Bool-cases (str_equal app name)) [
    | inl same ↦ rw (set_store, same, find_store, same) refl
    | inr other ↦ rw (set_store, other, find_store, other) (find_store-set_store app new server)
  ]

module _ {C X : Type 0} (engine : StorageEngine C X) (laws : IsTransactional engine) where
  pub write_change_lem :
      (x : X) (name store key : List ℕ) (value : Option (List ℕ))
      → let u : Update = record { store = store; key = key; value = value } in
        (x' : X) × (write_change engine x name key (change_of u) ≡ some x')
        × (laws.base x' ≡ laws.base x)
        × (engine.rolls_back x' ≡ false → laws.current x' ≡ update name key value (laws.current x))
  unfolding write_change
  write_change_lem x name store key none = (
    (engine.transaction_delete x name key).0,
    refl,
    laws.delete-base x name key,
    laws.delete-current x name key,
  )
  write_change_lem x name store key (some v) = (
    engine.transaction_put x name key v,
    refl,
    laws.put-base x name key v,
    laws.put-current x name key v,
  )
