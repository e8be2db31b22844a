-- ===== src/Util/Lists.antt =====
-- gzochi-server/src/util.c: lists of serialised items, for every item type with a round trip.
use mathlib.Core.List.{append_assoc, append-nil}
use gnu_gzochi.Base.{
  ℕ, ◌%◌, ◌^◌, ◌<◌, ◌≡◌, refl, sym, ap, ◌∙◌, some, List, [], ◌∷◌, ◌++◌, arith, length, All, lt→ltb,
}
use gnu_gzochi.Io.RoundTrip.{int_bytes, read_int_lem}
use gnu_gzochi.Util.{
  Serializer, Deserializer, serialize_items, serialize_list, deserialize_items, deserialize_list,
}
use gnu_gzochi.Util.RoundTrip.{RoundTrips, write_int_buffer, remove_range-append}

module _ {ℓ κ} {A : Type ℓ} {Valid : A → Type κ} {ser : Serializer A} {de : Deserializer A}
    (codec : RoundTrips Valid ser de) where
  serialize_items-appends :
      (xs : List A) (out : List ℕ) → serialize_items ser xs out ≡ out ++ serialize_items ser xs []
  unfolding serialize_items
  serialize_items-appends [] out = simp append-nil
  serialize_items-appends (x ∷ xs) out =
      serialize_items-appends xs (ser x out)
      ∙ (rw (codec.appends x out, serialize_items-appends xs (ser x []), append_assoc))

  deserialize_items_lem :
      (xs ret : List A) (rest : List ℕ)
      → All Valid xs
      → deserialize_items de (length xs) ret (serialize_items ser xs [] ++ rest)
        ≡ some (ret ++ xs, rest)
  unfolding serialize_items deserialize_items
  deserialize_items_lem [] ret rest valid = simp append-nil
  deserialize_items_lem (x ∷ xs) ret rest valid = rw (
    serialize_items-appends xs (ser x []),
    append_assoc (ser x []) (serialize_items ser xs []) rest,
    codec.inverse x (serialize_items ser xs [] ++ rest) valid.0,
    deserialize_items_lem xs (ret ++ x ∷ []) rest valid.1,
    append_assoc ret (x ∷ []) xs,
  )

  -- A list of fewer than 2^31 items that the codec takes back is read back as it was, whatever
  -- follows it in the array, and writing it appends to the array only.
  pub list-RoundTrips :
      RoundTrips
        (λ xs. All Valid xs × (length xs < 2 ^ 31))
        (serialize_list ser)
        (deserialize_list de)
  unfolding serialize_list deserialize_list
  list-RoundTrips = record {
    appends = λ xs out.
        serialize_items-appends xs _
        ∙ append_assoc out _ _
        ∙ ap (◌++◌ out) (sym (serialize_items-appends xs _));
    inverse = λ xs rest valid.
        let small : length xs % 2 ^ 32 ≡ length xs = omega arith in
        rw (
          small,
          write_int_buffer (length xs),
          serialize_items-appends xs (int_bytes (length xs)),
          append_assoc (int_bytes (length xs)) (serialize_items ser xs []) rest,
          read_int_lem (length xs) [] (serialize_items ser xs [] ++ rest) (omega arith),
          remove_range-append (int_bytes (length xs)) (serialize_items ser xs [] ++ rest) 4 refl,
          lt→ltb (length xs) (2 ^ 31) valid.1,
          deserialize_items_lem xs [] rest valid.0,
        );
  }
