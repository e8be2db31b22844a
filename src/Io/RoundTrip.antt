-- ===== src/Io/RoundTrip.antt =====
-- gzochi-common/src/io.c: what is written at an offset is read back there, and no other byte moves.
use native.Mathlib.Numerals.{towards_suc}
use gnu_gzochi.Base.{
  ℕ, suc, ◌^◌, ◌<◌, ◌≡◌, refl, sym, ap, ◌∙◌, some, List, [], ◌∷◌, ◌++◌, arith, length,
}
use gnu_gzochi.Io.{byte, read_long, read_int, read_short, write_long, write_int, write_short}

-- The big-endian encodings, most significant byte first.
abbrev pub int_bytes : ℕ → List ℕ
int_bytes v = byte v 3 ∷ byte v 2 ∷ byte v 1 ∷ byte v 0 ∷ []

abbrev pub long_bytes : ℕ → List ℕ
long_bytes v =
    byte v 7 ∷ byte v 6 ∷ byte v 5 ∷ byte v 4 ∷ byte v 3 ∷ byte v 2 ∷ byte v 1 ∷ byte v 0 ∷ []

abbrev pub short_bytes : ℕ → List ℕ
short_bytes v = byte v 1 ∷ byte v 0 ∷ []

write_int-cons :
    (v x : ℕ) (bytes : List ℕ) (i : ℕ) → write_int v (x ∷ bytes) (suc i) ≡ x ∷ write_int v bytes i
unfolding write_int
write_int-cons v x bytes i = simp towards_suc

read_int-cons : (x : ℕ) (bytes : List ℕ) (i : ℕ) → read_int (x ∷ bytes) (suc i) ≡ read_int bytes i
unfolding read_int
read_int-cons x bytes i = simp towards_suc

write_long-cons :
    (v x : ℕ) (bytes : List ℕ) (i : ℕ) → write_long v (x ∷ bytes) (suc i) ≡ x ∷ write_long v bytes i
unfolding write_long
write_long-cons v x bytes i = simp towards_suc

read_long-cons :
    (x : ℕ) (bytes : List ℕ) (i : ℕ) → read_long (x ∷ bytes) (suc i) ≡ read_long bytes i
unfolding read_long
read_long-cons x bytes i = simp towards_suc

write_short-cons :
    (v x : ℕ) (bytes : List ℕ) (i : ℕ)
    → write_short v (x ∷ bytes) (suc i) ≡ x ∷ write_short v bytes i
unfolding write_short
write_short-cons v x bytes i = simp towards_suc

read_short-cons :
    (x : ℕ) (bytes : List ℕ) (i : ℕ) → read_short (x ∷ bytes) (suc i) ≡ read_short bytes i
unfolding read_short
read_short-cons x bytes i = simp towards_suc

pub write_int_lem :
    (v : ℕ) (pre : List ℕ) (a b c d : ℕ) (post : List ℕ)
    → write_int v (pre ++ a ∷ b ∷ c ∷ d ∷ post) (length pre) ≡ pre ++ int_bytes v ++ post
unfolding write_int
write_int_lem v [] a b c d post = refl
write_int_lem v (x ∷ pre) a b c d post =
    write_int-cons v x _ (length pre) ∙ ap (◌∷◌ x) (write_int_lem v pre a b c d post)

pub read_int_lem :
    (v : ℕ) (pre post : List ℕ)
    → v < 2 ^ 32
    → read_int (pre ++ int_bytes v ++ post) (length pre) ≡ some v
unfolding read_int
read_int_lem v [] post fits = ground arith
read_int_lem v (x ∷ pre) post fits = read_int-cons x _ (length pre) ∙ read_int_lem v pre post fits

pub write_short_lem :
    (v : ℕ) (pre : List ℕ) (a b : ℕ) (post : List ℕ)
    → write_short v (pre ++ a ∷ b ∷ post) (length pre) ≡ pre ++ short_bytes v ++ post
unfolding write_short
write_short_lem v [] a b post = refl
write_short_lem v (x ∷ pre) a b post =
    write_short-cons v x _ (length pre) ∙ ap (◌∷◌ x) (write_short_lem v pre a b post)

pub read_short_lem :
    (v : ℕ) (pre post : List ℕ)
    → v < 2 ^ 16
    → read_short (pre ++ short_bytes v ++ post) (length pre) ≡ some v
unfolding read_short
read_short_lem v [] post fits = ground arith
read_short_lem v (x ∷ pre) post fits =
    read_short-cons x _ (length pre) ∙ read_short_lem v pre post fits

pub write_long_lem :
    (v : ℕ) (pre : List ℕ) (a b c d e f g h : ℕ) (post : List ℕ)
    → write_long v (pre ++ a ∷ b ∷ c ∷ d ∷ e ∷ f ∷ g ∷ h ∷ post) (length pre)
      ≡ pre ++ long_bytes v ++ post
unfolding write_long
write_long_lem v [] a b c d e f g h post = refl
write_long_lem v (x ∷ pre) a b c d e f g h post =
    write_long-cons v x _ (length pre) ∙ ap (◌∷◌ x) (write_long_lem v pre a b c d e f g h post)

pub read_long_lem :
    (v : ℕ) (pre post : List ℕ)
    → v < 2 ^ 64
    → read_long (pre ++ long_bytes v ++ post) (length pre) ≡ some v
unfolding read_long
read_long_lem v [] post fits = ground arith
read_long_lem v (x ∷ pre) post fits =
    read_long-cons x _ (length pre) ∙ read_long_lem v pre post fits

-- An integer of 16, 32 or 64 bits, written into an array that has room for it at the offset, is
-- read back from that offset unchanged.
pub read-write :
    (v : ℕ) (pre : List ℕ) (a b c d e f g h : ℕ) (post : List ℕ)
    → (v < 2 ^ 16
        → read_short (write_short v (pre ++ a ∷ b ∷ post) (length pre)) (length pre) ≡ some v)
      × (v < 2 ^ 32
          → read_int (write_int v (pre ++ a ∷ b ∷ c ∷ d ∷ post) (length pre)) (length pre) ≡ some v)
      × (v < 2 ^ 64
          → read_long
              (write_long v (pre ++ a ∷ b ∷ c ∷ d ∷ e ∷ f ∷ g ∷ h ∷ post) (length pre))
              (length pre)
            ≡ some v)
read-write v pre a b c d e f g h post = (
  λ fits. rw (write_short_lem v pre a b post) (read_short_lem v pre post fits),
  λ fits. rw (write_int_lem v pre a b c d post) (read_int_lem v pre post fits),
  λ fits. rw (write_long_lem v pre a b c d e f g h post) (read_long_lem v pre post fits),
)

write_read_base :
    (v a b c d : ℕ) (post : List ℕ)
    → (a < 256) × (b < 256) × (c < 256) × (d < 256)
    → read_int (a ∷ b ∷ c ∷ d ∷ post) 0 ≡ some v
    → write_int v (a ∷ b ∷ c ∷ d ∷ post) 0 ≡ a ∷ b ∷ c ∷ d ∷ post
unfolding read_int write_int
write_read_base v a b c d post small e = ground arith

-- Whatever 32-bit integer is read from an array of bytes, writing it back at the offset where it
-- was read leaves the whole array as it was.
pub write_int-read_int :
    (v : ℕ) (pre : List ℕ) (a b c d : ℕ) (post : List ℕ)
    → (a < 256) × (b < 256) × (c < 256) × (d < 256)
    → read_int (pre ++ a ∷ b ∷ c ∷ d ∷ post) (length pre) ≡ some v
    → write_int v (pre ++ a ∷ b ∷ c ∷ d ∷ post) (length pre) ≡ pre ++ a ∷ b ∷ c ∷ d ∷ post
write_int-read_int v [] a b c d post small e = write_read_base v a b c d post small e
write_int-read_int v (x ∷ pre) a b c d post small e =
    write_int-cons v x _ (length pre)
    ∙ ap (◌∷◌ x)
        (write_int-read_int v pre a b c d post small (sym (read_int-cons x _ (length pre)) ∙ e))
