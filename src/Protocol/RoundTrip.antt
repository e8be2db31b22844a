-- ===== src/Protocol/RoundTrip.antt =====
-- gzochi-server/src/protocol-common.c: what its readers take back, whatever follows in memory.
use gnu_gzochi.Base.{
  ℕ, ◌+◌, ◌^◌, ◌≤◌, ◌<◌, ◌≡◌, refl, none, some, List, [], ◌∷◌, ◌++◌, arith, length, length-append,
  take-append, lt→ltb,
}
use gnu_gzochi.Io.RoundTrip.{short_bytes, read_short_lem}
use gnu_gzochi.Util.RoundTrip.{HasNoNul}
use gnu_gzochi.Protocol.{memchr, read_str, read_bytes}

memchr_lem : (s rest : List ℕ) → HasNoNul s → memchr (s ++ 0 ∷ rest) 0 ≡ some (length s)
unfolding memchr
memchr_lem [] rest valid = refl
memchr_lem (b ∷ s) rest valid = ground (arith, memchr_lem s rest valid.1)

-- A C string that holds no NUL is read back with the length that counts its terminator.
pub read_str_lem :
    (s rest : List ℕ) → HasNoNul s → read_str (s ++ 0 ∷ rest) ≡ some (s, length s + 1)
unfolding read_str
read_str_lem s rest valid = rw (memchr_lem s rest valid, take-append s (0 ∷ rest)) refl

memchr-none : (s : List ℕ) → HasNoNul s → memchr s 0 ≡ none
unfolding memchr
memchr-none [] valid = refl
memchr-none (b ∷ s) valid = ground (arith, memchr-none s valid.1)

-- Memory with no NUL holds no string.
pub read_str-none : (s : List ℕ) → HasNoNul s → read_str s ≡ none
unfolding read_str
read_str-none s valid = rw (memchr-none s valid) refl

pub read_bytes_lem :
    (str rest : List ℕ)
    → length str < 2 ^ 15
    → read_bytes (short_bytes (length str) ++ str ++ rest) ≡ some str
unfolding read_bytes
read_bytes_lem str rest fits =
    let n = length-append str rest in
    rw
      (
        read_short_lem (length str) [] (str ++ rest) (omega arith),
        lt→ltb (length str) (2 ^ 15) fits,
        take-append str rest,
      )
      (ground (arith, n))

-- A prefix from 2^15 on is negative, and no byte string of the length it stands for is read.
pub read_bytes-none :
    (n : ℕ) (rest : List ℕ)
    → 2 ^ 15 ≤ n
    → n < 2 ^ 16
    → length rest < 2 ^ 63
    → read_bytes (short_bytes n ++ rest) ≡ none
unfolding read_bytes
read_bytes-none n rest negative fits memory = rw (read_short_lem n [] rest fits) (ground arith)
