-- ===== src/Util.antt =====
-- gzochi-server/src/util.c: serialisation into growing byte arrays, and comparison helpers. A
-- `GByteArray` is a list of bytes; a serialiser appends to it and a deserialiser consumes a prefix
-- (`none`: it reads past the end of the array).
pub mod RoundTrip
pub mod Lists
pub mod Tables
pub mod Compare
pub mod Format
use gnu_gzochi.Base.{
  ℕ, zero, suc, ◌+◌, ◌-◌, ◌%◌, ◌^◌, Bool, true, false, Option, none, some, List, [], ◌∷◌, ◌++◌,
  length, replicate, take, drop, get_elem?, ◌>>=◌, ltb, leb, ◌==◌, if◌then◌else◌,
}
use gnu_gzochi.Timeval.{Timeval}
use gnu_gzochi.Io.{read_int, read_long, write_int, write_long}

abbrev pub Serializer {ℓ} : Type ℓ → Type ℓ
Serializer A = A → List ℕ → List ℕ

abbrev pub Deserializer {ℓ} : Type ℓ → Type ℓ
Deserializer A = List ℕ → Option (A × List ℕ)

-- `g_byte_array_remove_range (in, 0, n)`, which wants the array to hold `n` bytes.
unfoldable pub remove_range : ℕ → List ℕ → Option (List ℕ)
remove_range n bytes = if leb n (length bytes) then some (drop n bytes) else none

-- The local buffers `n_str` and `len_str` are overwritten whole, so what they hold at first, here
-- 0, does not matter.
unfoldable pub serialize_boolean : Serializer Bool
serialize_boolean b out = out ++ (if b then 1 else 0) ∷ []

unfoldable pub serialize_int : Serializer ℕ
serialize_int n out = out ++ write_int n (replicate 4 0) 0

-- The string and its length come apart in the source.
unfoldable pub serialize_bytes : List ℕ → ℕ → List ℕ → List ℕ
serialize_bytes str len out = serialize_int len out ++ take len str

-- A C string is given without its terminator, which is appended here.
unfoldable pub serialize_string : Serializer (List ℕ)
serialize_string str out = serialize_bytes (str ++ 0 ∷ []) (length str + 1) out

unfoldable pub serialize_uint64 : Serializer ℕ
serialize_uint64 n out = out ++ write_long n (replicate 8 0) 0

unfoldable pub serialize_oid : Serializer ℕ
serialize_oid oid out = serialize_uint64 oid out

-- `write_int` cuts both fields, `long` in the source, to 32 bits.
unfoldable pub serialize_timeval : Serializer Timeval
serialize_timeval tv out =
    let out = out ++ write_int (tv.tv_sec % 2 ^ 32) (replicate 4 0) 0 in
    out ++ write_int (tv.tv_usec % 2 ^ 32) (replicate 4 0) 0

unfoldable pub deserialize_boolean : Deserializer Bool
deserialize_boolean bytes = do
  b ← get_elem? bytes 0
  rest ← remove_range 1 bytes
  some (if b == 1 then true else false, rest)

unfoldable pub deserialize_int : Deserializer ℕ
deserialize_int bytes = do ret ← read_int bytes 0; rest ← remove_range 4 bytes; some (ret, rest)

-- A negative length, which no buffer can hold, fails too.
unfoldable pub deserialize_bytes : Deserializer (List ℕ)
deserialize_bytes bytes = do
  str_len ← read_int bytes 0
  rest ← remove_range (4 + str_len) bytes
  if ltb str_len (2 ^ 31) then some (take str_len (drop 4 bytes), rest) else none

-- The buffer up to its first NUL, as its users see it.
unfoldable pub c_string : List ℕ → List ℕ
c_string [] = []
c_string (b ∷ bs) = if b == 0 then [] else b ∷ c_string bs

unfoldable pub deserialize_string : Deserializer (List ℕ)
unfolding c_string
deserialize_string bytes = do (str, rest) ← deserialize_bytes bytes; some (c_string str, rest)

unfoldable pub deserialize_uint64 : Deserializer ℕ
deserialize_uint64 bytes = do ret ← read_long bytes 0; rest ← remove_range 8 bytes; some (ret, rest)

unfoldable pub deserialize_oid : Deserializer ℕ
deserialize_oid bytes = deserialize_uint64 bytes

-- An `int` as a 64-bit `long`.
abbrev pub sign_extend : ℕ → ℕ
sign_extend n = if ltb n (2 ^ 31) then n else n + (2 ^ 64 - 2 ^ 32)

unfoldable pub deserialize_timeval : Deserializer Timeval
deserialize_timeval bytes = do
  tv_sec ← read_int bytes 0
  bytes ← remove_range 4 bytes
  tv_usec ← read_int bytes 0
  bytes ← remove_range 4 bytes
  some (record { tv_sec = sign_extend tv_sec; tv_usec = sign_extend tv_usec }, bytes)

-- The number of rounds of `while (len > 0)`, where a pattern from 2^31 is negative.
abbrev pub rounds : ℕ → ℕ
rounds len = if ltb len (2 ^ 31) then len else 0

-- The loop of `gzochid_util_serialize_list`; a sequence is a list too.
module _ {ℓ} {A : Type ℓ} where
  unfoldable pub serialize_items : Serializer A → Serializer (List A)
  serialize_items serializer [] out = out
  serialize_items serializer (x ∷ xs) out = serialize_items serializer xs (serializer x out)

  unfoldable pub serialize_list : Serializer A → Serializer (List A)
  serialize_list serializer list out =
      serialize_items serializer list (out ++ write_int (length list % 2 ^ 32) (replicate 4 0) 0)

  -- The loop of `gzochid_util_deserialize_list`, which appends each item to the result.
  unfoldable pub deserialize_items : Deserializer A → ℕ → List A → Deserializer (List A)
  deserialize_items deserializer zero ret bytes = some (ret, bytes)
  deserialize_items deserializer (suc len) ret bytes = do
    (x, bytes) ← deserializer bytes
    deserialize_items deserializer len (ret ++ x ∷ []) bytes

  unfoldable pub deserialize_list : Deserializer A → Deserializer (List A)
  deserialize_list deserializer bytes = do
    len ← read_int bytes 0
    bytes ← remove_range 4 bytes
    deserialize_items deserializer (rounds len) [] bytes
