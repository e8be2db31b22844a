-- ===== src/Protocol.antt =====
-- gzochi-server/src/protocol-common.c: C strings and byte strings with a length prefix, read from
-- the memory that starts at a pointer, here the list of the bytes from there on. `none` is `NULL`.
pub mod RoundTrip
use gnu_gzochi.Base.{
  ℕ, zero, suc, ◌+◌, ◌-◌, ◌^◌, Option, none, some, List, [], ◌∷◌, ◌++◌, ltb, ◌==◌, if◌then◌else◌,
  length, take, drop, ◌>>=◌,
}
use gnu_gzochi.Io.{read_short}

-- `memchr`: the position of the first byte that is `c`.
unfoldable pub memchr : List ℕ → ℕ → Option ℕ
memchr [] c = none
memchr (b ∷ bytes) c =
    let later = memchr bytes c in if b == c then some 0 else (later >>= λ i. some (suc i))

-- The C string at `bytes`, and the bytes it takes with its NUL.
unfoldable pub read_str : List ℕ → Option (List ℕ × ℕ)
read_str bytes = do end ← memchr bytes 0; some (take end bytes, end + 1)

-- A `short` where a `size_t` is expected: a negative one is a huge number.
abbrev pub to_size : ℕ → ℕ
to_size prefix = if ltb prefix (2 ^ 15) then prefix else prefix + (2 ^ 64 - 2 ^ 16)

unfoldable pub read_bytes : List ℕ → Option (List ℕ)
read_bytes bytes = if ltb (length bytes) 2 then none else do
  prefix ← read_short bytes 0
  if ltb (length bytes - 2) (to_size prefix)
      then none
      else some (take (to_size prefix) (drop 2 bytes))
