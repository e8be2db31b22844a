-- ===== src/Io.antt =====
-- gzochi-common/src/io.c: big-endian integers in byte arrays. An array is a list of numbers below
-- 256, an integer of w bits the number of its bit pattern, so a cast to a narrower type is a `%`.
-- A read past the end of the array, undefined in C, is `none`; such a write changes nothing.
pub mod RoundTrip
use gnu_gzochi.Base.{ℕ, ◌+◌, ◌*◌, ◌/◌, ◌%◌, ◌^◌, Option, some, List, get_elem?, set, ◌>>=◌}

-- Bits 8k to 8k+7, that is `val >> 8 * k & 0xff`.
abbrev pub byte : ℕ → ℕ → ℕ
byte val k = val / 256 ^ k % 256

unfoldable pub read_long : List ℕ → ℕ → Option ℕ
read_long bytes offset = do
  b0 ← get_elem? bytes offset
  b1 ← get_elem? bytes (offset + 1)
  b2 ← get_elem? bytes (offset + 2)
  b3 ← get_elem? bytes (offset + 3)
  b4 ← get_elem? bytes (offset + 4)
  b5 ← get_elem? bytes (offset + 5)
  b6 ← get_elem? bytes (offset + 6)
  b7 ← get_elem? bytes (offset + 7)
  some (
      (b0 * 256 ^ 7
        + b1 * 256 ^ 6
        + b2 * 256 ^ 5
        + b3 * 256 ^ 4
        + b4 * 256 ^ 3
        + b5 * 256 ^ 2
        + b6 * 256
        + b7)
      % 2 ^ 64)

unfoldable pub read_int : List ℕ → ℕ → Option ℕ
read_int bytes offset = do
  b0 ← get_elem? bytes offset
  b1 ← get_elem? bytes (offset + 1)
  b2 ← get_elem? bytes (offset + 2)
  b3 ← get_elem? bytes (offset + 3)
  some ((b0 * 256 ^ 3 + b1 * 256 ^ 2 + b2 * 256 + b3) % 2 ^ 32)

unfoldable pub read_short : List ℕ → ℕ → Option ℕ
read_short bytes offset = do
  b0 ← get_elem? bytes offset
  b1 ← get_elem? bytes (offset + 1)
  some ((b0 * 256 + b1) % 2 ^ 16)

unfoldable pub write_long : ℕ → List ℕ → ℕ → List ℕ
write_long val bytes offset =
    let bytes = set bytes offset (byte val 7) in
    let bytes = set bytes (offset + 1) (byte val 6) in
    let bytes = set bytes (offset + 2) (byte val 5) in
    let bytes = set bytes (offset + 3) (byte val 4) in
    let bytes = set bytes (offset + 4) (byte val 3) in
    let bytes = set bytes (offset + 5) (byte val 2) in
    let bytes = set bytes (offset + 6) (byte val 1) in set bytes (offset + 7) (byte val 0)

unfoldable pub write_int : ℕ → List ℕ → ℕ → List ℕ
write_int val bytes offset =
    let bytes = set bytes offset (byte val 3) in
    let bytes = set bytes (offset + 1) (byte val 2) in
    let bytes = set bytes (offset + 2) (byte val 1) in set bytes (offset + 3) (byte val 0)

unfoldable pub write_short : ℕ → List ℕ → ℕ → List ℕ
write_short val bytes offset =
    let bytes = set bytes offset (byte val 1) in set bytes (offset + 1) (byte val 0)
