-- ===== src/DataProtocol.antt =====
-- gzochi-server/src/data-protocol.c and the structures of data-protocol.h: the messages that the data
-- client and the data server exchange. A `GByteArray` and a `GBytes` are the lists of their bytes, a
-- C string is the list of the bytes before its NUL, and `none` is a `NULL` pointer.
pub mod Read
pub mod RoundTrip
pub mod Oids
pub mod Changes
use gnu_gzochi.Base.{
  ℕ, ◌+◌, ◌%◌, ◌^◌, Bool, true, false, Option, none, some, List, [], ◌∷◌, ◌++◌, length, replicate,
  if◌then◌else◌, ◌>>=◌,
}
use gnu_gzochi.Io.{write_short, write_int, write_long}
use gnu_gzochi.Timeval.{Timeval}

-- `gzochid_data_oids_block`, of oids.h.
pub record OidsBlock : Type 0 where
  pub block_start : ℕ
  pub block_size : ℕ

pub record ReserveOidsResponse : Type 0 where
  pub app : List ℕ
  pub block : OidsBlock

-- The flag `success` and the union that it tags.
pub data Outcome : Type 0 where
  success : Option (List ℕ) → Outcome
  failure : Timeval → Outcome

pub record Response : Type 0 where
  pub app : List ℕ
  pub store : List ℕ
  pub outcome : Outcome

pub record Change : Type 0 where
  pub store : Option (List ℕ)
  pub is_delete : Bool
  pub key : Option (List ℕ)
  pub value : Option (List ℕ)

pub record Changeset : Type 0 where
  pub app : List ℕ
  pub changes : List Change

-- `g_byte_array_append (arr, s, strlen (s) + 1)`.
abbrev pub append_str : List ℕ → List ℕ → List ℕ
append_str s arr = arr ++ (s ++ 0 ∷ [])

unfoldable pub write_bytes : List ℕ → List ℕ → List ℕ
write_bytes bytes arr =
    let grown = arr ++ replicate 2 0 in
    write_short (length bytes % 2 ^ 16) grown (length arr) ++ bytes

unfoldable pub write_timeval : Timeval → List ℕ → List ℕ
write_timeval tv arr =
    let grown = arr ++ replicate 8 0 in
    let grown = write_int (tv.tv_sec % 2 ^ 32) grown (length arr) in
    write_int (tv.tv_usec % 2 ^ 32) grown (length arr + 4)

unfoldable pub reserve_oids_response_write : ReserveOidsResponse → List ℕ → List ℕ
reserve_oids_response_write response arr =
    let arr = append_str (response.app) arr in
    let arr = write_long (response.block.block_start) (arr ++ replicate 8 0) (length arr) in
    write_short (response.block.block_size) (arr ++ replicate 2 0) (length arr)

-- The flag's byte is the first of the four of a `gboolean`: 1 for `TRUE` where integers are stored
-- with the low byte first, as here.
unfoldable pub response_write : Response → List ℕ → List ℕ
response_write response arr =
    let arr = append_str (response.store) (append_str (response.app) arr) in
    elim (response.outcome) [
      | success (some bytes) ↦ write_bytes bytes (arr ++ 1 ∷ [])
      | success none ↦ (arr ++ 1 ∷ []) ++ 0 ∷ 0 ∷ []
      | failure timeout ↦ write_timeval timeout (arr ++ 0 ∷ [])
    ]

-- `none` where the code reads through a pointer that is `NULL`.
unfoldable pub change_write : Change → List ℕ → Option (List ℕ)
change_write change arr = do
  store ← change.store
  key ← change.key
  let arr = write_bytes key (append_str store arr)
  if change.is_delete
      then some (arr ++ 0 ∷ 0 ∷ [])
      else (change.value >>= λ value. some (write_bytes value arr))

unfoldable pub changes_write : List Change → List ℕ → Option (List ℕ)
changes_write [] arr = some arr
changes_write (change ∷ changes) arr = do arr ← change_write change arr; changes_write changes arr

unfoldable pub changeset_write : Changeset → List ℕ → Option (List ℕ)
changeset_write changeset arr =
    let arr = append_str (changeset.app) arr in
    let count = length (changeset.changes) % 2 ^ 16 in
    changes_write (changeset.changes) (write_short count (arr ++ replicate 2 0) (length arr))
