-- ===== src/Tests/Codecs.antt =====
-- gzochi-common/src/io.c and gzochi-server/src/util.c at concrete inputs.
use mathlib.Core.List.{Permᴰ}
use mathlib.Core.List.Permᴰ
use gnu_gzochi.Base.{ℕ, List, ◌≤◌, ◌≡◌, refl, some, [], ◌∷◌, ◌++◌, ◌==◌, length, arith}
use gnu_gzochi.Io.{read_int, write_int}
use gnu_gzochi.Io.RoundTrip.{read-write}
use gnu_gzochi.Util.{serialize_int, deserialize_int, serialize_string, deserialize_string}
use gnu_gzochi.Util.RoundTrip.{int-RoundTrips, string-RoundTrips}
use gnu_gzochi.Util.Tables.{
  GHashTable, IsGHashTable, serialize_hash_table, deserialize_hash_table,
  deserialize-serialize_hash_table,
}
use gnu_gzochi.Util.Format.{format_bytes, format_byte, length-format_bytes-le}

write_int_runs : write_int 0x01020304 (9 ∷ 9 ∷ 9 ∷ 9 ∷ 9 ∷ []) 1 ≡ 9 ∷ 1 ∷ 2 ∷ 3 ∷ 4 ∷ []
unfolding write_int
write_int_runs = refl

read-write_example :
    read_int (write_int 0x01020304 (7 ∷ 0 ∷ 0 ∷ 0 ∷ 0 ∷ 7 ∷ []) 1) 1 ≡ some 0x01020304
read-write_example = (read-write 0x01020304 (7 ∷ []) 0 0 0 0 0 0 0 0 (7 ∷ [])).1 (omega arith)

-- A hash table as a list in which a new entry comes first.
abbrev table : GHashTable ℕ ℕ (List (ℕ × ℕ))
table = record { empty = []; insert = λ k v t. (k, v) ∷ t; entries = λ t. t }

table-IsGHashTable : IsGHashTable ◌==◌ table
table-IsGHashTable = record {
  entries-empty = refl;
  entries-insert = λ k v t fresh. Permᴰ.refl ((k, v) ∷ t);
}

deserialize-serialize_hash_table_example :
    (serialize_hash_table table serialize_int serialize_int ((1, 10) ∷ (2, 20) ∷ []) (7 ∷ [])
      ≡ 7 ∷ serialize_hash_table table serialize_int serialize_int ((1, 10) ∷ (2, 20) ∷ []) [])
    × ((table' : List (ℕ × ℕ)) × (deserialize_hash_table table deserialize_int deserialize_int (
            serialize_hash_table table serialize_int serialize_int ((1, 10) ∷ (2, 20) ∷ []) []
            ++ [])
          ≡ some (table', []))
        × Permᴰ table' ((1, 10) ∷ (2, 20) ∷ []))
deserialize-serialize_hash_table_example =
    deserialize-serialize_hash_table table ◌==◌ table-IsGHashTable int-RoundTrips int-RoundTrips
      ((1, 10) ∷ (2, 20) ∷ []) (7 ∷ []) [] (omega arith, (omega arith, tt)) (tt, ((refl, tt), tt))
      (omega arith)

string-RoundTrips_runs :
    deserialize_string (serialize_string (104 ∷ 105 ∷ []) [] ++ 1 ∷ [])
    ≡ some (104 ∷ 105 ∷ [], 1 ∷ [])
string-RoundTrips_runs =
    string-RoundTrips.inverse (104 ∷ 105 ∷ []) (1 ∷ []) (omega arith, omega arith)

length-format_bytes-le_example : length (format_bytes (65 ∷ 0 ∷ 66 ∷ []) 4) ≤ 4
length-format_bytes-le_example = length-format_bytes-le (65 ∷ 0 ∷ 66 ∷ []) 4 (omega arith)

format_bytes_runs : format_bytes (65 ∷ 0 ∷ 66 ∷ []) 4 ≡ 65 ∷ 95 ∷ 0 ∷ []
unfolding format_bytes format_byte
format_bytes_runs = refl
