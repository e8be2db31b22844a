-- ===== src/Util/Tables.antt =====
-- gzochi-server/src/util.c: hash tables, which are GLib's: a table has its entries in the order in
-- which the iterator visits them, and that order is GLib's affair.
use mathlib.Core.List.{append_assoc, append-nil, Permᴰ}
use mathlib.Core.List.Permᴰ
use gnu_gzochi.Base.{
  ℕ, zero, suc, ◌%◌, ◌^◌, ◌<◌, ◌≡◌, refl, sym, ap, ◌∙◌, subst, Bool, false, some, List, [], ◌∷◌,
  ◌++◌, arith, length, replicate, All, lt→ltb, ◌>>=◌,
}
use gnu_gzochi.Io.{read_int, write_int}
use gnu_gzochi.Io.RoundTrip.{int_bytes, read_int_lem}
use gnu_gzochi.Util.{Serializer, Deserializer, remove_range, rounds}
use gnu_gzochi.Util.RoundTrip.{RoundTrips, write_int_buffer, remove_range-append}

-- `GHashTable`: `g_hash_table_new`, `g_hash_table_insert`, and what a `GHashTableIter` visits, of
-- which `g_hash_table_size` is the number.
pub record GHashTable {ℓ} (K V T : Type ℓ) : Type ℓ where
  pub empty : T
  pub insert : K → V → T → T
  pub entries : T → List (K × V)

module _ {ℓ} {K V : Type ℓ} where
  -- No entry has a key that the table takes for `k`.
  abbrev pub IsFresh : (K → K → Bool) → K → List (K × V) → Type 0
  IsFresh key_equal k = All (λ e. key_equal e.0 k ≡ false)

  -- The keys are pairwise different, each from those before it (`before` to begin with).
  abbrev pub HasDistinctKeys : (K → K → Bool) → List (K × V) → List (K × V) → Type 0
  HasDistinctKeys key_equal before [] = Unit
  HasDistinctKeys key_equal before (e ∷ table) =
      IsFresh key_equal e.0 before × HasDistinctKeys key_equal (e ∷ before) table

  IsFresh-perm :
      (key_equal : K → K → Bool) (k : K) {xs ys : List (K × V)}
      → Permᴰ xs ys
      → IsFresh key_equal k ys
      → IsFresh key_equal k xs
  IsFresh-perm key_equal k Permᴰ.nil fresh = tt
  IsFresh-perm key_equal k (Permᴰ.cons e p) fresh =
      (subst (λ x. key_equal x.0 k ≡ false) (sym e) fresh.0, IsFresh-perm key_equal k p fresh.1)
  IsFresh-perm key_equal k (Permᴰ.swap e e') fresh = (
    subst (λ x. key_equal x.0 k ≡ false) (sym e) fresh.1.0,
    (subst (λ x. key_equal x.0 k ≡ false) (sym e') fresh.0, fresh.1.1),
  )
  IsFresh-perm key_equal k (Permᴰ.trans p q) fresh =
      IsFresh-perm key_equal k p (IsFresh-perm key_equal k q fresh)

  middle_perm : (xs ys : List (K × V)) (a : K × V) → Permᴰ (xs ++ a ∷ ys) (a ∷ (xs ++ ys))
  middle_perm [] ys a = Permᴰ.refl (a ∷ ys)
  middle_perm (x ∷ xs) ys a =
      Permᴰ.trans (Permᴰ.cons refl (middle_perm xs ys a)) (Permᴰ.swap refl refl)

  -- What GLib promises, for a table with the equality function `key_equal` of its keys.
  pub record IsGHashTable {T : Type ℓ} (key_equal : K → K → Bool) (h : GHashTable K V T)
      : Type ℓ where
    pub entries-empty : h.entries h.empty ≡ []
    pub entries-insert :
        (k : K) (v : V) (t : T)
        → IsFresh key_equal k (h.entries t)
        → Permᴰ (h.entries (h.insert k v t)) ((k, v) ∷ h.entries t)

module _ {ℓ} {K V T : Type ℓ} (h : GHashTable K V T) where
  unfoldable pub serialize_entries : Serializer K → Serializer V → Serializer (List (K × V))
  serialize_entries key_serializer value_serializer [] out = out
  serialize_entries key_serializer value_serializer ((k, v) ∷ table) out =
      serialize_entries key_serializer value_serializer table
        (value_serializer v (key_serializer k out))

  unfoldable pub serialize_hash_table : Serializer K → Serializer V → Serializer T
  serialize_hash_table key_serializer value_serializer table out =
      serialize_entries key_serializer value_serializer (h.entries table)
        (out ++ write_int (length (h.entries table) % 2 ^ 32) (replicate 4 0) 0)

  unfoldable pub deserialize_entries : Deserializer K → Deserializer V → ℕ → T → Deserializer T
  deserialize_entries kd vd zero ret bytes = some (ret, bytes)
  deserialize_entries kd vd (suc len) ret bytes = do
    (key, bytes) ← kd bytes
    (value, bytes) ← vd bytes
    deserialize_entries kd vd len (h.insert key value ret) bytes

  unfoldable pub deserialize_hash_table : Deserializer K → Deserializer V → Deserializer T
  deserialize_hash_table kd vd bytes = do
    len ← read_int bytes 0
    bytes ← remove_range 4 bytes
    deserialize_entries kd vd (rounds len) h.empty bytes

module _ {ℓ κ} {K V T : Type ℓ} {ValidK : K → Type κ} {ValidV : V → Type κ} {ks : Serializer K}
    {vs : Serializer V} {kd : Deserializer K} {vd : Deserializer V} (h : GHashTable K V T)
    (key_equal : K → K → Bool) (laws : IsGHashTable key_equal h)
    (key_codec : RoundTrips ValidK ks kd) (value_codec : RoundTrips ValidV vs vd) where
  serialize_entries-appends :
      (table : List (K × V)) (out : List ℕ)
      → serialize_entries h ks vs table out ≡ out ++ serialize_entries h ks vs table []
  unfolding serialize_entries
  serialize_entries-appends [] out = simp append-nil
  serialize_entries-appends ((k, v) ∷ table) out =
      serialize_entries-appends table (vs v (ks k out))
      ∙ (rw (
        value_codec.appends v (ks k out),
        key_codec.appends k out,
        serialize_entries-appends table (vs v (ks k [])),
        value_codec.appends v (ks k []),
        append_assoc (out ++ ks k []) (vs v []) (serialize_entries h ks vs table []),
        append_assoc out (ks k []) (vs v [] ++ serialize_entries h ks vs table []),
        append_assoc (ks k []) (vs v []) (serialize_entries h ks vs table []),
      ))

  deserialize_entries_lem :
      (table before : List (K × V)) (ret : T) (rest : List ℕ)
      → Permᴰ (h.entries ret) before
      → All (λ (e : K × V). ValidK e.0 × ValidV e.1) table
      → HasDistinctKeys key_equal before table
      → (ret' : T) × (deserialize_entries h kd vd
            (length table)
            ret
            (serialize_entries h ks vs table [] ++ rest)
          ≡ some (ret', rest))
        × Permᴰ (h.entries ret') (table ++ before)
  unfolding serialize_entries deserialize_entries
  deserialize_entries_lem [] before ret rest same valid distinct = (ret, refl, same)
  deserialize_entries_lem ((k, v) ∷ table) before ret rest same valid distinct =
      let new = laws.entries-insert k v ret (IsFresh-perm key_equal k same distinct.0) in
      let (ret', reads, perm) =
        deserialize_entries_lem table ((k, v) ∷ before) (h.insert k v ret) rest
          (Permᴰ.trans new (Permᴰ.cons refl same)) valid.1 distinct.1 in
      (
        ret',
        rw
            (
              serialize_entries-appends table (vs v (ks k [])),
              value_codec.appends v (ks k []),
              append_assoc (ks k [] ++ vs v []) (serialize_entries h ks vs table []) rest,
              append_assoc (ks k []) (vs v []) (serialize_entries h ks vs table [] ++ rest),
              key_codec.inverse k (vs v [] ++ (serialize_entries h ks vs table [] ++ rest))
                  valid.0.0,
              value_codec.inverse v (serialize_entries h ks vs table [] ++ rest) valid.0.1,
            )
            reads,
        Permᴰ.trans perm (middle_perm table before (k, v)),
      )

  -- A hash table whose keys are pairwise different for its equality function, of fewer than 2^31
  -- entries that the two codecs take back, is read back as a table with the same entries, in
  -- whatever order GLib keeps them in the one table and the other; and writing it appends to the
  -- array only.
  pub deserialize-serialize_hash_table :
      (table : T) (out rest : List ℕ)
      → All (λ (e : K × V). ValidK e.0 × ValidV e.1) (h.entries table)
      → HasDistinctKeys key_equal [] (h.entries table)
      → length (h.entries table) < 2 ^ 31
      → (serialize_hash_table h ks vs table out ≡ out ++ serialize_hash_table h ks vs table [])
        × ((table' : T) × (deserialize_hash_table h kd vd
                (serialize_hash_table h ks vs table [] ++ rest)
              ≡ some (table', rest))
            × Permᴰ (h.entries table') (h.entries table))
  unfolding serialize_hash_table deserialize_hash_table
  deserialize-serialize_hash_table table out rest valid distinct fits =
      let listed = h.entries table in
      let small : length listed % 2 ^ 32 ≡ length listed = omega arith in
      let none_yet = subst (λ es. Permᴰ es []) (sym laws.entries-empty) Permᴰ.nil in
      let (table', reads, perm) =
        deserialize_entries_lem listed [] h.empty rest none_yet valid distinct in
      (
        serialize_entries-appends listed _
            ∙ append_assoc out _ _
            ∙ ap (◌++◌ out) (sym (serialize_entries-appends listed _)),
        (
          table',
          rw
              (
                small,
                write_int_buffer (length listed),
                serialize_entries-appends listed (int_bytes (length listed)),
                append_assoc (int_bytes (length listed)) (serialize_entries h ks vs listed []) rest,
                read_int_lem (length listed) [] (serialize_entries h ks vs listed [] ++ rest)
                    (omega arith),
                remove_range-append (int_bytes (length listed))
                    (serialize_entries h ks vs listed [] ++ rest) 4 refl,
                lt→ltb (length listed) (2 ^ 31) fits,
              )
              reads,
          subst (Permᴰ (h.entries table')) (append-nil listed) perm,
        ),
      )
