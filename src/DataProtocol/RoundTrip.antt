-- ===== src/DataProtocol/RoundTrip.antt =====
-- gzochi-server/src/data-protocol.c: the writers only append, and what a response is written as is
-- read back.
use mathlib.Core.List.{append_assoc, append-nil}
use native.Mathlib.Numerals.{unary_clauses}
use gnu_gzochi.Base.{
  ℕ, ◌+◌, ◌%◌, ◌^◌, ◌<◌, ◌≡◌, refl, ◌∙◌, none, some, List, [], ◌∷◌, ◌++◌, length, length-append,
  arith, drop,
}
use gnu_gzochi.Io.{write_int}
use gnu_gzochi.Io.RoundTrip.{int_bytes, short_bytes, write_int_lem, read_int_lem, write_short_lem}
use gnu_gzochi.Timeval.{Timeval}
use gnu_gzochi.Util.RoundTrip.{HasNoNul}
use gnu_gzochi.Protocol.{read_bytes}
use gnu_gzochi.Protocol.RoundTrip.{read_str_lem, read_bytes_lem}
use gnu_gzochi.DataProtocol.{
  Response, Outcome, success, failure, append_str, write_bytes, write_timeval, response_write,
}
use gnu_gzochi.DataProtocol.Read.{read_timeval, outcome_read, response_read}

-- A byte string with its prefix.
abbrev pub prefixed : List ℕ → List ℕ
prefixed bytes = short_bytes (length bytes % 2 ^ 16) ++ bytes

pub write_bytes_lem : (bytes arr : List ℕ) → write_bytes bytes arr ≡ arr ++ prefixed bytes
unfolding write_bytes
write_bytes_lem bytes arr =
    rw (write_short_lem (length bytes % 2 ^ 16) arr 0 0 []) (simp append_assoc)

abbrev pub timeval_bytes : Timeval → List ℕ
timeval_bytes tv = int_bytes (tv.tv_sec % 2 ^ 32) ++ int_bytes (tv.tv_usec % 2 ^ 32)

write_int_second :
    (v : ℕ) (arr first : List ℕ)
    → length first ≡ 4
    → write_int v ((arr ++ first) ++ 0 ∷ 0 ∷ 0 ∷ 0 ∷ []) (length arr + 4)
      ≡ arr ++ (first ++ int_bytes v)
write_int_second v arr first four =
    let at : length (arr ++ first) ≡ length arr + 4 = omega (arith, length-append arr first) in
    rw (← at, write_int_lem v (arr ++ first) 0 0 0 0 []) (simp (append_assoc, append-nil))

pub write_timeval_lem :
    (tv : Timeval) (arr : List ℕ) → write_timeval tv arr ≡ arr ++ timeval_bytes tv
unfolding write_timeval
write_timeval_lem tv arr =
    let sec = tv.tv_sec % 2 ^ 32 in
    rw (write_int_lem sec arr 0 0 0 0 (0 ∷ 0 ∷ 0 ∷ 0 ∷ []))
      (write_int_second (tv.tv_usec % 2 ^ 32) arr (int_bytes sec) refl)

pub read_timeval_lem :
    (tv : Timeval) (rest : List ℕ)
    → tv.tv_sec < 2 ^ 31
    → tv.tv_usec < 2 ^ 31
    → read_timeval (timeval_bytes tv ++ rest) ≡ some tv
unfolding read_timeval
read_timeval_lem tv rest sec usec =
    let whole =
      read_int_lem (tv.tv_sec % 2 ^ 32) [] (int_bytes (tv.tv_usec % 2 ^ 32) ++ rest)
        (omega arith) in
    let second =
      read_int_lem (tv.tv_usec % 2 ^ 32) (int_bytes (tv.tv_sec % 2 ^ 32)) rest (omega arith) in
    rw (whole, second) (ground arith)

-- The bytes of a response after the two names.
abbrev pub outcome_bytes : Outcome → List ℕ
outcome_bytes (success (some bytes)) = 1 ∷ prefixed bytes
outcome_bytes (success none) = 1 ∷ 0 ∷ 0 ∷ []
outcome_bytes (failure timeout) = 0 ∷ timeval_bytes timeout

-- Both names in front of what follows.
abbrev pub names : List ℕ → List ℕ → List ℕ → List ℕ
names app store rest = app ++ 0 ∷ (store ++ 0 ∷ rest)

append_strs :
    (app store arr rest : List ℕ)
    → append_str store (append_str app arr) ++ rest ≡ arr ++ names app store rest
append_strs app store arr rest = simp append_assoc

outcome_write_lem :
    (app store : List ℕ) (outcome : Outcome) (arr : List ℕ)
    → response_write (record { app = app; store = store; outcome = outcome }) arr
      ≡ append_str store (append_str app arr) ++ outcome_bytes outcome
unfolding response_write
outcome_write_lem app store (success (some bytes)) arr =
    rw (write_bytes_lem bytes (append_str store (append_str app arr) ++ 1 ∷ []))
      (append_assoc _ (1 ∷ []) (prefixed bytes))
outcome_write_lem app store (success none) arr = append_assoc _ (1 ∷ []) (0 ∷ 0 ∷ [])
outcome_write_lem app store (failure timeout) arr =
    rw (write_timeval_lem timeout (append_str store (append_str app arr) ++ 0 ∷ []))
      (append_assoc _ (0 ∷ []) (timeval_bytes timeout))

pub response_write_lem :
    (response : Response) (arr : List ℕ)
    → response_write response arr
      ≡ arr ++ names (response.app) (response.store) (outcome_bytes (response.outcome))
response_write_lem response arr =
    outcome_write_lem _ _ (response.outcome) arr
    ∙ append_strs _ _ arr (outcome_bytes (response.outcome))

-- What a reader of the messages relies on: a value has at least one byte and a length that fits a
-- `short`, a time fits 32-bit integers.
abbrev pub IsValidOutcome : Outcome → Type 0
IsValidOutcome (success (some bytes)) = (0 < length bytes) × (length bytes < 2 ^ 15)
IsValidOutcome (success none) = Unit
IsValidOutcome (failure timeout) = (timeout.tv_sec < 2 ^ 31) × (timeout.tv_usec < 2 ^ 31)

pub read_prefixed :
    (bytes rest : List ℕ) → length bytes < 2 ^ 15 → read_bytes (prefixed bytes ++ rest) ≡ some bytes
read_prefixed bytes rest fits =
    let small : length bytes % 2 ^ 16 ≡ length bytes = omega arith in
    rw (small) (read_bytes_lem bytes rest fits)

outcome_read_lem :
    (outcome : Outcome) (rest : List ℕ)
    → IsValidOutcome outcome
    → outcome_read (outcome_bytes outcome ++ rest) ≡ some outcome
unfolding outcome_read
outcome_read_lem (success (some bytes)) rest valid =
    rw (read_prefixed bytes rest valid.1) (ground arith)
outcome_read_lem (success none) rest valid = rw (read_bytes_lem [] rest (omega arith)) refl
outcome_read_lem (failure timeout) rest valid =
    rw (read_timeval_lem timeout rest valid.0 valid.1) refl

pub drop_str : (s rest : List ℕ) → drop (length s + 1) (s ++ 0 ∷ rest) ≡ rest
drop_str [] rest = refl
drop_str (b ∷ s) rest =
    let rest_eq = drop_str s rest in simp unary_clauses (simp unary_clauses at rest_eq)

pub names_append :
    (app store rest more : List ℕ) → names app store rest ++ more ≡ names app store (rest ++ more)
names_append app store rest more = simp append_assoc

response_read_lem :
    (response : Response) (rest : List ℕ)
    → HasNoNul (response.app)
    → HasNoNul (response.store)
    → IsValidOutcome (response.outcome)
    → response_read
        (names (response.app) (response.store) (outcome_bytes (response.outcome) ++ rest))
      ≡ some response
unfolding response_read
response_read_lem response rest app store outcome =
    rw
      (
        read_str_lem (response.app) _ app,
        drop_str (response.app) _,
        read_str_lem (response.store) _ store,
        drop_str (response.store) _,
        outcome_read_lem (response.outcome) rest outcome,
      )
      refl

-- A response is read back as it was written, whatever follows it, if its names hold no NUL, its
-- value, if there is one, has from 1 to 2^15 - 1 bytes, and its time, if it has one, fits 32-bit
-- integers; and writing it appends to the array only.
pub response_read-response_write :
    (response : Response) (arr rest : List ℕ)
    → HasNoNul (response.app)
    → HasNoNul (response.store)
    → IsValidOutcome (response.outcome)
    → (response_write response arr ≡ arr ++ response_write response [])
      × (response_read (response_write response [] ++ rest) ≡ some response)
response_read-response_write response arr rest app store outcome = (
  rw (response_write_lem response arr, response_write_lem response []) refl,
  rw
      (
        response_write_lem response [],
        names_append (response.app) (response.store) (outcome_bytes (response.outcome)) rest,
      )
      (response_read_lem response rest app store outcome),
)
