-- ===== src/DataProtocol/Read.antt =====
-- gzochi-server/src/data-protocol.c, the readers. Where one has a pointer and the length of what is
-- left, the model has the list of the bytes that are left.
use gnu_gzochi.Base.{
  ℕ, zero, suc, ◌+◌, ◌-◌, ◌%◌, ◌^◌, true, false, not, ◌&&◌, Option, none, some, List, [], ◌∷◌,
  length, replicate, if◌then◌else◌, ◌>>=◌, ltb, leb, ◌==◌, drop,
}
use gnu_gzochi.Io.{read_short, read_int, read_long}
use gnu_gzochi.Timeval.{Timeval}
use gnu_gzochi.Util.{sign_extend}
use gnu_gzochi.Protocol.{read_str, read_bytes}
use gnu_gzochi.DataProtocol.{
  ReserveOidsResponse, Response, Outcome, success, failure, Change, Changeset,
}

unfoldable pub read_timeval : List ℕ → Option Timeval
read_timeval bytes = if ltb (length bytes) 8 then none else do
  tv_sec ← read_int bytes 0
  tv_usec ← read_int bytes 4
  some (record { tv_sec = sign_extend tv_sec; tv_usec = sign_extend tv_usec })

-- The oid and the length of its encoding, both 0 where `len` is too small; `none` is a read past the
-- end of the memory.
unfoldable pub read_oid : List ℕ → ℕ → Option (ℕ × ℕ)
read_oid bytes len = if ltb len 8 then some (0, 0) else do oid ← read_long bytes 0; some (oid, 8)

-- A subtraction of `size_t`.
abbrev pub size_sub : ℕ → ℕ → ℕ
size_sub a b = (a + 2 ^ 64 - b) % 2 ^ 64

unfoldable pub block_read : List ℕ → List ℕ → ℕ → Option (Option ReserveOidsResponse)
block_read app bytes oid = do
  block_size ← read_short bytes 0
  some (some (record { app = app; block = record { block_start = oid; block_size = block_size } }))

-- The outer `none` is a read past the end of the message, `some none` the result `NULL`. The second
-- subtraction from `len` takes `str_len` once more, where `oid_len` was meant.
unfoldable pub reserve_oids_response_read : List ℕ → Option (Option ReserveOidsResponse)
reserve_oids_response_read bytes = elim (read_str bytes) [
  | none ↦ some none
  | some (app, str_len) ↦ do
    let len = size_sub (length bytes) str_len
    (oid, oid_len) ← read_oid (drop str_len bytes) len
    let left = size_sub len str_len
    if oid_len == 0
        then some none
        else if ltb 1 str_len && leb 2 left
        then block_read app (drop (str_len + oid_len) bytes) oid
        else some none
]

-- The end of a response, from the byte that holds its flag.
unfoldable pub outcome_read : List ℕ → Option Outcome
outcome_read [] = none
outcome_read (flag ∷ bytes) =
    if not (flag == 0)
    then (read_bytes bytes >>= λ obj_bytes.
        some (success (if length obj_bytes == 0 then none else some obj_bytes)))
    else (read_timeval bytes >>= λ timeout. some (failure timeout))

unfoldable pub response_read : List ℕ → Option Response
response_read bytes = do
  (app, str_len) ← read_str bytes
  let bytes = drop str_len bytes
  (store, str_len) ← read_str bytes
  outcome ← outcome_read (drop str_len bytes)
  some (record { app = app; store = store; outcome = outcome })

-- A record of the array that `g_array_sized_new` has filled with zeros.
abbrev pub zeroed : Change
zeroed = record { store = none; is_delete = false; key = none; value = none }

-- The change, and the number of bytes that it takes.
unfoldable pub change_read : List ℕ → Change → Option (Change × ℕ)
change_read bytes change = do
  (store, str_len) ← read_str bytes
  if leb str_len 1 then none else do
    key ← read_bytes (drop str_len bytes)
    let size = str_len + (length key + 2)
    if length key == 0 then none else do
      value ← read_bytes (drop size bytes)
      let change = record change { store = some store; key = some key }
      some (
        if length value == 0
            then record change { is_delete = true }
            else record change { value = some value },
        size + 2 + length value,
      )

-- The loop over the `num_changes` records of the array: those that the bytes do not reach stay as
-- they were allocated.
unfoldable pub changes_read : ℕ → List ℕ → Option (List Change)
changes_read zero bytes = some []
changes_read (suc num_changes) bytes = elim (leb (length bytes) 0) [
  | true ↦ some (replicate (suc num_changes) zeroed)
  | false ↦ do
    (change, size) ← change_read bytes zeroed
    changes ← changes_read num_changes (drop size bytes)
    some (change ∷ changes)
]

-- The rounds of a loop up to a `short`: none where it is negative.
abbrev pub short_rounds : ℕ → ℕ
short_rounds n = if ltb n (2 ^ 15) then n else 0

unfoldable pub changeset_read : List ℕ → Option Changeset
changeset_read bytes = do
  (app, offset) ← read_str bytes
  if leb (length bytes - offset) 2 then none else do
    num_changes ← read_short bytes offset
    changes ← changes_read (short_rounds num_changes) (drop (offset + 2) bytes)
    some (record { app = app; changes = changes })
