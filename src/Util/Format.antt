-- ===== src/Util/Format.antt =====
-- gzochi-server/src/util.c: `gzochid_util_format_bytes`, which renders a key for the log in a buffer
-- of a given length. The text written so far stands for the buffer and for `buf_offset`.
use mathlib.Core.List.{append_assoc, append-nil}
use gnu_gzochi.Base.{
  ℕ, ◌+◌, ◌-◌, ◌/◌, ◌%◌, ◌≤◌, ◌<◌, ◌≡◌, ◌∙◌, Bool, true, false, ◌&&◌, ◌||◌, List, [], ◌∷◌, ◌++◌,
  arith, length, length-append, ap, lt→ltb, ltb, leb, if◌then◌else◌,
}

unfoldable pub nibble_to_hex_char : ℕ → ℕ
nibble_to_hex_char n = if ltb n 10 then n + 48 else n + 87

-- `isgraph` in the C locale.
abbrev pub is_graph : ℕ → Bool
is_graph b = leb 33 b && leb b 126

-- `\xhh`.
unfoldable pub escape : ℕ → List ℕ
unfolding nibble_to_hex_char
escape b = b'\\' ∷ b'x' ∷ nibble_to_hex_char (b / 16) ∷ nibble_to_hex_char (b % 16) ∷ []

abbrev is_empty : List ℕ → Bool
is_empty [] = true
is_empty (b ∷ bs) = false

-- The body of the loop: what is appended for `b`, and whether the loop goes on.
unfoldable pub format_byte : ℕ → ℕ → Bool → ℕ → List ℕ × Bool
format_byte max_offset buf_offset is_last b =
    if is_graph b
    then (if is_last || ltb buf_offset (max_offset - 1) then b ∷ [] else b'_' ∷ [], true)
    else if leb 4 (max_offset - buf_offset)
    then (escape b, true)
    else (b'_' ∷ [], false)

unfoldable pub format_loop : ℕ → List ℕ → List ℕ → List ℕ
format_loop max_offset [] buf = buf
format_loop max_offset (b ∷ bytes) buf =
    let (text, goes_on) = format_byte max_offset (length buf) (is_empty bytes) b in
    elim (ltb (length buf) max_offset) [
      | false ↦ buf
      | true ↦ elim goes_on [
        | true ↦ format_loop max_offset bytes (buf ++ text)
        | false ↦ buf ++ text
      ]
    ]

-- The terminating NUL included. Without room for it (`buf_len` 0) the source writes it past the end.
unfoldable pub format_bytes : List ℕ → ℕ → List ℕ
unfolding format_loop
format_bytes bytes buf_len = format_loop (buf_len - 1) bytes [] ++ 0 ∷ []

-- What one byte adds fits into the rest of the buffer.
format_byte_fits :
    (max_offset buf_offset : ℕ) (is_last : Bool) (b : ℕ)
    → buf_offset < max_offset
    → buf_offset + length (format_byte max_offset buf_offset is_last b).0 ≤ max_offset
unfolding format_byte escape
format_byte_fits max_offset buf_offset is_last b h = ground arith

format_loop_fits :
    (max_offset : ℕ) (bytes buf : List ℕ)
    → length buf ≤ max_offset
    → length (format_loop max_offset bytes buf) ≤ max_offset
unfolding format_loop
format_loop_fits max_offset [] buf h = h
format_loop_fits max_offset (b ∷ bytes) buf h =
    let text = (format_byte max_offset (length buf) (is_empty bytes) b).0 in
    ground (
      arith,
      format_byte_fits max_offset (length buf) (is_empty bytes) b,
      length-append buf text,
      format_loop_fits max_offset bytes (buf ++ text),
    )

-- The text lies inside the buffer, its terminating NUL included, whatever the bytes are, if the
-- buffer has a byte at least.
pub length-format_bytes-le :
    (bytes : List ℕ) (buf_len : ℕ) → 0 < buf_len → length (format_bytes bytes buf_len) ≤ buf_len
unfolding format_bytes
length-format_bytes-le bytes buf_len h = omega (
  arith,
  length-append (format_loop (buf_len - 1) bytes []) (0 ∷ []),
  format_loop_fits (buf_len - 1) bytes [] (omega arith),
)

-- The text of a byte when there is room for it.
abbrev pub rendering : ℕ → List ℕ
rendering b = if is_graph b then b ∷ [] else escape b

abbrev pub renderings : List ℕ → List ℕ
renderings [] = []
renderings (b ∷ bytes) = rendering b ++ renderings bytes

rendering_pos : (b : ℕ) → 0 < length (rendering b)
unfolding escape
rendering_pos b = ground arith

format_byte_lem :
    (max_offset buf_offset : ℕ) (bytes : List ℕ) (b : ℕ)
    → buf_offset + length (rendering b) + length (renderings bytes) ≤ max_offset
    → format_byte max_offset buf_offset (is_empty bytes) b ≡ (rendering b, true)
unfolding format_byte escape
format_byte_lem max_offset buf_offset [] b h = ground arith
format_byte_lem max_offset buf_offset (c ∷ bytes) b h =
    ground (arith, rendering_pos c, length-append (rendering c) (renderings bytes))

format_loop_lem :
    (max_offset : ℕ) (bytes buf : List ℕ)
    → length buf + length (renderings bytes) ≤ max_offset
    → format_loop max_offset bytes buf ≡ buf ++ renderings bytes
unfolding format_loop
format_loop_lem max_offset [] buf h = simp append-nil
format_loop_lem max_offset (b ∷ bytes) buf h =
    let n = length-append (rendering b) (renderings bytes) in
    let m = length-append buf (rendering b) in
    let fits = format_byte_lem max_offset (length buf) bytes b (omega arith) in
    let room = lt→ltb (length buf) max_offset (omega (arith, rendering_pos b)) in
    rw (room, format_loop)
      (rw (ap (λ p. p.1) fits) (
        rw (ap (λ p. p.0) fits) (
          format_loop_lem max_offset bytes (buf ++ rendering b) (omega arith)
          ∙ append_assoc buf (rendering b) (renderings bytes))))

-- Where the whole text fits, every byte is rendered, in order: a graphic character as itself, any
-- other byte as `\xhh`.
pub format_bytes_lem :
    (bytes : List ℕ) (buf_len : ℕ)
    → length (renderings bytes) < buf_len
    → format_bytes bytes buf_len ≡ renderings bytes ++ 0 ∷ []
unfolding format_bytes
format_bytes_lem bytes buf_len h =
    ap (λ text. text ++ 0 ∷ []) (format_loop_lem (buf_len - 1) bytes [] (omega arith))
