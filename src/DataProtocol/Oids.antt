-- ===== src/DataProtocol/Oids.antt =====
-- gzochi-server/src/data-protocol.c: which responses to a request for oids are read back.
use mathlib.Core.List.{append_assoc, append-nil}
use gnu_gzochi.Base.{
  ℕ, ◌+◌, ◌^◌, ◌≤◌, ◌<◌, ◌≡◌, refl, ◌∙◌, Bool, not, ◌&&◌, ◌||◌, none, some, List, [], ◌∷◌, ◌++◌,
  length, length-append, arith, drop, drop-append, if◌then◌else◌, leb, ltb, ◌==◌,
}
use gnu_gzochi.Io.{read_short}
use gnu_gzochi.Io.RoundTrip.{
  long_bytes, short_bytes, write_long_lem, write_short_lem, read_long_lem, read_short_lem,
}
use gnu_gzochi.Util.RoundTrip.{HasNoNul}
use gnu_gzochi.Protocol.RoundTrip.{read_str_lem}
use gnu_gzochi.DataProtocol.{ReserveOidsResponse, append_str, reserve_oids_response_write}
use gnu_gzochi.DataProtocol.Read.{block_read, read_oid, reserve_oids_response_read, size_sub}
use gnu_gzochi.DataProtocol.RoundTrip.{drop_str}

-- The message up to the size of the block.
abbrev oid_message : List ℕ → ℕ → List ℕ → List ℕ
oid_message app oid rest = app ++ 0 ∷ (long_bytes oid ++ rest)

pub reserve_oids_response_write_lem :
    (response : ReserveOidsResponse) (arr : List ℕ)
    → reserve_oids_response_write response arr
      ≡ arr
        ++ oid_message
            (response.app)
            (response.block.block_start)
            (short_bytes (response.block.block_size))
unfolding reserve_oids_response_write
reserve_oids_response_write_lem response arr =
    rw
      (
        write_long_lem (response.block.block_start) (append_str (response.app) arr) 0 0 0 0 0 0 0 0
            [],
        append-nil (append_str (response.app) arr ++ long_bytes (response.block.block_start)),
        write_short_lem (response.block.block_size)
            (append_str (response.app) arr ++ long_bytes (response.block.block_start)) 0 0 [],
      )
      (simp append_assoc)

-- What is left of the length after both subtractions.
abbrev left_after : ℕ → ℕ → ℕ
left_after n rest = size_sub (8 + rest) (n + 1)

length-message :
    (app : List ℕ) (oid : ℕ) (rest : List ℕ)
    → length (oid_message app oid rest) ≡ length app + 9 + length rest
length-message app oid rest = omega (arith, length-append app (0 ∷ (long_bytes oid ++ rest)))

read_oid_lem :
    (oid len : ℕ) (rest : List ℕ)
    → 8 ≤ len
    → oid < 2 ^ 64
    → read_oid (long_bytes oid ++ rest) len ≡ some (oid, 8)
unfolding read_oid
read_oid_lem oid len rest long fits = rw (read_long_lem oid [] rest fits) (ground arith)

drop_oid :
    (app : List ℕ) (oid : ℕ) (rest : List ℕ)
    → drop (length app + 1 + 8) (oid_message app oid rest) ≡ rest
drop_oid app oid rest =
    let read = app ++ 0 ∷ long_bytes oid in
    let at : length app + 1 + 8 ≡ length read =
      omega (arith, length-append app (0 ∷ long_bytes oid)) in
    rw (at, ← append_assoc app (0 ∷ long_bytes oid) rest) (drop-append read rest)

-- On a message that holds a name and an oid, the test of the length left decides.
message_read :
    (app : List ℕ) (oid : ℕ) (rest : List ℕ)
    → HasNoNul app
    → oid < 2 ^ 64
    → length app + length rest < 2 ^ 63
    → reserve_oids_response_read (oid_message app oid rest) ≡ (
        if ltb 1 (length app + 1) && leb 2 (left_after (length app) (length rest))
        then block_read app rest oid
        else some none)
unfolding reserve_oids_response_read
message_read app oid rest valid fits memory =
    let len : size_sub (length (oid_message app oid rest)) (length app + 1) ≡ 8 + length rest =
      omega (arith, length-message app oid rest) in
    rw
      (
        reserve_oids_response_read,
        read_str_lem app (long_bytes oid ++ rest) valid,
        len,
        drop_str app (long_bytes oid ++ rest),
        read_oid_lem oid (8 + length rest) rest (omega arith) fits,
        drop_oid app oid rest,
      )
      refl

-- The lengths of a name with which the test lets a whole message through.
unfoldable pub is_readable : ℕ → Bool
is_readable n = not (n == 0) && not (n == 8) && not (n == 9)

block_read_lem :
    (response : ReserveOidsResponse)
    → response.block.block_size < 2 ^ 16
    → block_read
        (response.app)
        (short_bytes (response.block.block_size))
        (response.block.block_start)
      ≡ some (some response)
unfolding block_read
block_read_lem response fits = rw (read_short_lem (response.block.block_size) [] [] fits) refl

-- A response to a request for oids, its name without NUL and its block within the fields' widths, is
-- read back if the length of the name is not 0, 8 or 9; with one of those three the reader rejects
-- the message that was written.
pub reserve_oids_response_read-write :
    (response : ReserveOidsResponse)
    → HasNoNul (response.app)
    → length (response.app) < 2 ^ 62
    → response.block.block_start < 2 ^ 64
    → response.block.block_size < 2 ^ 16
    → reserve_oids_response_read (reserve_oids_response_write response [])
      ≡ some (if is_readable (length (response.app)) then some response else none)
unfolding is_readable
reserve_oids_response_read-write response valid memory start size =
    rw
      (
        reserve_oids_response_write_lem response [],
        message_read (response.app) (response.block.block_start)
            (short_bytes (response.block.block_size)) valid start (omega arith),
        block_read_lem response size,
      )
      (ground arith)

block_read_cut : (app : List ℕ) (oid : ℕ) → block_read app [] oid ≡ none
unfolding block_read read_short
block_read_cut app oid = refl

-- The same message cut off after the oid, so without the size of the block, is rejected only if the
-- length of the name is 0, 6 or 7; otherwise the reader takes the size from beyond its end.
pub reserve_oids_response_read_cut :
    (app : List ℕ) (oid : ℕ)
    → HasNoNul app
    → length app < 2 ^ 62
    → oid < 2 ^ 64
    → reserve_oids_response_read (app ++ 0 ∷ long_bytes oid)
      ≡ (if length app == 0 || length app == 6 || length app == 7 then some none else none)
reserve_oids_response_read_cut app oid valid memory fits =
    message_read app oid [] valid fits (omega arith) ∙ ground (arith, block_read_cut app oid)
