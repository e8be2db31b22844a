-- ===== src/Util/RoundTrip.antt =====
-- gzochi-server/src/util.c: a serialiser only appends, and its deserialiser takes back what it wrote.
use mathlib.Core.List.{append_assoc}
use gnu_gzochi.Base.{
  ℕ, ◌+◌, ◌%◌, ◌^◌, ◌≤◌, ◌<◌, ◌≢◌, ◌≡◌, refl, ap, ◌∙◌, some, List, [], ◌∷◌, ◌++◌, arith, length,
  length-append, take-append, lt→ltb, inl, inr, drop-append, take, replicate, All, Bool-cases,
}
use gnu_gzochi.Io.{write_int, write_long}
use gnu_gzochi.Io.RoundTrip.{
  int_bytes, long_bytes, write_int_lem, read_int_lem, write_long_lem, read_long_lem,
}
use gnu_gzochi.Timeval.{Timeval}
use gnu_gzochi.Util.{
  Serializer, Deserializer, remove_range, serialize_boolean, serialize_int, serialize_bytes,
  serialize_string, serialize_uint64, serialize_oid, serialize_timeval, deserialize_boolean,
  deserialize_int, deserialize_bytes, deserialize_string, deserialize_uint64, deserialize_oid,
  deserialize_timeval, c_string, sign_extend,
}

-- What a pair of a serialiser and a deserialiser owes to its users, on the valid values.
pub record RoundTrips {ℓ κ} {A : Type ℓ} (Valid : A → Type κ) (ser : Serializer A)
    (de : Deserializer A) : Type (ℓ ⊔ κ) where
  pub appends : (a : A) (out : List ℕ) → ser a out ≡ out ++ ser a []
  pub inverse : (a : A) (rest : List ℕ) → Valid a → de (ser a [] ++ rest) ≡ some (a, rest)

pub write_int_buffer : (v : ℕ) → write_int v (replicate 4 0) 0 ≡ int_bytes v
write_int_buffer v = write_int_lem v [] 0 0 0 0 []

pub remove_range-append :
    (xs rest : List ℕ) (n : ℕ) → n ≡ length xs → remove_range n (xs ++ rest) ≡ some rest
unfolding remove_range
remove_range-append xs rest n e =
    rw (e, drop-append xs rest) (ground (arith, length-append xs rest))

pub deserialize_int_lem :
    (v : ℕ) (rest : List ℕ) → v < 2 ^ 32 → deserialize_int (int_bytes v ++ rest) ≡ some (v, rest)
unfolding deserialize_int
deserialize_int_lem v rest fits =
    rw (read_int_lem v [] rest fits, remove_range-append (int_bytes v) rest 4 refl)

pub boolean-RoundTrips : RoundTrips (λ _. Unit {0}) serialize_boolean deserialize_boolean
unfolding serialize_boolean deserialize_boolean remove_range
boolean-RoundTrips = record {
  appends = λ b out. refl;
  inverse =
      λ b rest _. elim (Bool-cases b) [ inl e ↦ rw e (ground arith) | inr e ↦ rw e (ground arith) ];
}

pub int-RoundTrips : RoundTrips (λ n. n < 2 ^ 32) serialize_int deserialize_int
unfolding serialize_int
int-RoundTrips = record {
  appends = λ n out. refl;
  inverse = λ n rest fits. rw (write_int_buffer n) (deserialize_int_lem n rest fits);
}

write_long_buffer : (v : ℕ) → write_long v (replicate 8 0) 0 ≡ long_bytes v
write_long_buffer v = write_long_lem v [] 0 0 0 0 0 0 0 0 []

pub uint64-RoundTrips : RoundTrips (λ n. n < 2 ^ 64) serialize_uint64 deserialize_uint64
unfolding serialize_uint64 deserialize_uint64
uint64-RoundTrips = record {
  appends = λ n out. refl;
  inverse = λ n rest fits. rw (
    write_long_buffer n,
    read_long_lem n [] rest fits,
    remove_range-append (long_bytes n) rest 8 refl,
  );
}

pub oid-RoundTrips : RoundTrips (λ n. n < 2 ^ 64) serialize_oid deserialize_oid
unfolding serialize_oid deserialize_oid
oid-RoundTrips = uint64-RoundTrips

take_all : (xs : List ℕ) → take (length xs) xs ≡ xs
take_all [] = refl
take_all (x ∷ xs) = ap (◌∷◌ x) (take_all xs)

serialize_bytes-appends :
    (str : List ℕ) (len : ℕ) (out : List ℕ)
    → serialize_bytes str len out ≡ out ++ serialize_bytes str len []
unfolding serialize_bytes serialize_int
serialize_bytes-appends str len out = append_assoc out _ _

-- A byte string whose length fits a positive `int` is taken back whole.
pub deserialize_bytes_lem :
    (str rest : List ℕ)
    → length str < 2 ^ 31
    → deserialize_bytes (serialize_bytes str (length str) [] ++ rest) ≡ some (str, rest)
unfolding deserialize_bytes serialize_bytes serialize_int
deserialize_bytes_lem str rest fits = rw (
  write_int_buffer (length str),
  take_all str,
  read_int_lem (length str) [] (str ++ rest) (omega arith),
  lt→ltb (length str) (2 ^ 31) fits,
  remove_range-append (int_bytes (length str) ++ str) rest (4 + length str) (omega arith),
  take-append str rest,
)

-- A C string holds no NUL.
abbrev pub HasNoNul : List ℕ → Type 0
HasNoNul = All (λ b. 0 < b)

c_string-append : (str : List ℕ) → HasNoNul str → c_string (str ++ 0 ∷ []) ≡ str
unfolding c_string
c_string-append [] h = refl
c_string-append (b ∷ str) h = ground (arith, c_string-append str h.1)

-- A C string whose length with its terminator fits a positive `int` is read back as it was, whatever
-- follows it in the array, and writing it appends to the array only.
pub string-RoundTrips :
    RoundTrips (λ str. HasNoNul str × (length str + 1 < 2 ^ 31)) serialize_string deserialize_string
unfolding serialize_string deserialize_string
string-RoundTrips = record {
  appends = λ str out. serialize_bytes-appends (str ++ 0 ∷ []) (length str + 1) out;
  inverse = λ str rest valid.
      let n : length str + 1 ≡ length (str ++ 0 ∷ []) = omega (arith, length-append str (0 ∷ [])) in
      rw (
        n,
        deserialize_bytes_lem (str ++ 0 ∷ []) rest (omega (arith, length-append str (0 ∷ []))),
        c_string-append str valid.0,
      );
}

-- A time is stored as two 32-bit fields, and comes back only as far as they hold it.
pub deserialize-serialize_timeval :
    (tv : Timeval) (rest : List ℕ)
    → deserialize_timeval (serialize_timeval tv [] ++ rest)
      ≡ some (
        record {
          tv_sec = sign_extend (tv.tv_sec % 2 ^ 32);
          tv_usec = sign_extend (tv.tv_usec % 2 ^ 32);
        },
        rest,
      )
unfolding serialize_timeval deserialize_timeval
deserialize-serialize_timeval tv rest = rw (
  write_int_buffer (tv.tv_sec % 2 ^ 32),
  write_int_buffer (tv.tv_usec % 2 ^ 32),
  read_int_lem (tv.tv_sec % 2 ^ 32) [] (int_bytes (tv.tv_usec % 2 ^ 32) ++ rest) (omega arith),
  remove_range-append (int_bytes (tv.tv_sec % 2 ^ 32)) (int_bytes (tv.tv_usec % 2 ^ 32) ++ rest) 4
      refl,
  read_int_lem (tv.tv_usec % 2 ^ 32) [] rest (omega arith),
  remove_range-append (int_bytes (tv.tv_usec % 2 ^ 32)) rest 4 refl,
)

pub timeval-RoundTrips :
    RoundTrips
      (λ tv. (tv.tv_sec < 2 ^ 31) × (tv.tv_usec < 2 ^ 31))
      serialize_timeval
      deserialize_timeval
unfolding serialize_timeval
timeval-RoundTrips = record {
  appends = λ tv out. append_assoc out _ _;
  inverse = λ tv rest fits. deserialize-serialize_timeval tv rest ∙ ground arith;
}

-- A time from the year 2038 on does not survive: no `tv_sec` from 2^31 up to the end of the `long`
-- range that the program uses comes back as it was.
pub timeval_truncates :
    (tv : Timeval) (rest : List ℕ) (tv' : Timeval) (rest' : List ℕ)
    → 2 ^ 31 ≤ tv.tv_sec
    → tv.tv_sec < 2 ^ 63
    → deserialize_timeval (serialize_timeval tv [] ++ rest) ≡ some (tv', rest')
    → tv'.tv_sec ≢ tv.tv_sec
timeval_truncates tv rest tv' rest' late fits e =
    ground (arith, deserialize-serialize_timeval tv rest)
