-- ===== src/DataProtocol/Changes/RoundTrip.antt =====
-- gzochi-server/src/data-protocol.c: which changesets are read back, and what is read of a message
-- that ends early.
use mathlib.Core.List.{append_assoc, append-nil}
use gnu_gzochi.Base.{
  ℕ, zero, suc, ◌+◌, ◌-◌, ◌%◌, ◌^◌, ◌<◌, ◌≡◌, refl, ap, ◌∙◌, true, false, Option, none, some, List,
  [], ◌∷◌, ◌++◌, length, length-append, arith, drop, drop-append, if◌then◌else◌, replicate, ◌>>=◌,
  map, All, leb, ◌==◌,
}
use gnu_gzochi.Io.{read_short}
use gnu_gzochi.Io.RoundTrip.{short_bytes, read_short_lem}
use gnu_gzochi.Util.RoundTrip.{HasNoNul}
use gnu_gzochi.Protocol.RoundTrip.{read_str_lem}
use gnu_gzochi.DataProtocol.{Change, changeset_write}
use gnu_gzochi.DataProtocol.Read.{change_read, changes_read, changeset_read, zeroed, short_rounds}
use gnu_gzochi.DataProtocol.RoundTrip.{prefixed, read_prefixed, drop_str}
use gnu_gzochi.DataProtocol.Changes.{
  Update, IsValidValue, IsValid, change_of, value_bytes, update_bytes, updates_bytes, message,
  changeset_write_lem,
}

length_update :
    (u : Update)
    → length (update_bytes u)
      ≡ length (u.store) + 1 + (length (u.key) + 2) + 2 + length (value_bytes (u.value))
length_update u = omega (
  arith,
  length-append (u.store) (0 ∷ (prefixed (u.key) ++ prefixed (value_bytes (u.value)))),
  length-append (u.key) (prefixed (value_bytes (u.value))),
)

drop_key :
    (store key rest : List ℕ)
    → drop (length store + 1 + (length key + 2)) (store ++ 0 ∷ (prefixed key ++ rest)) ≡ rest
drop_key store key rest =
    let read = store ++ 0 ∷ prefixed key in
    let at : length store + 1 + (length key + 2) ≡ length read =
      omega (arith, length-append store (0 ∷ prefixed key)) in
    rw (at, ← append_assoc store (0 ∷ prefixed key) rest) (drop-append read rest)

-- The record that is read of a value's bytes.
abbrev read_change : List ℕ → List ℕ → List ℕ → Change
read_change store key v =
    if length v == 0
    then record { store = some store; is_delete = true; key = some key; value = none }
    else record { store = some store; is_delete = false; key = some key; value = some v }

change_read_parts :
    (store key v rest : List ℕ)
    → HasNoNul store
    → 0 < length store
    → 0 < length key
    → length key < 2 ^ 15
    → length v < 2 ^ 15
    → change_read (store ++ 0 ∷ (prefixed key ++ (prefixed v ++ rest))) zeroed
      ≡ some (read_change store key v, length store + 1 + (length key + 2) + 2 + length v)
unfolding change_read
change_read_parts store key v rest valid named keyed short_key short_value =
    let has_name : leb (length store + 1) 1 ≡ false = ground arith in
    let has_key : (length key == 0) ≡ false = ground arith in
    rw
      (
        read_str_lem store (prefixed key ++ (prefixed v ++ rest)) valid,
        drop_str store (prefixed key ++ (prefixed v ++ rest)),
        has_name,
        read_prefixed key (prefixed v ++ rest) short_key,
        has_key,
        drop_key store key (prefixed v ++ rest),
        read_prefixed v rest short_value,
      )
      refl

change_of_read :
    (store key : List ℕ) (value : Option (List ℕ))
    → IsValidValue value
    → (read_change store key (value_bytes value)
        ≡ change_of (record { store = store; key = key; value = value }))
      × (length (value_bytes value) < 2 ^ 15)
change_of_read store key none valid = (refl, omega arith)
change_of_read store key (some v) valid =
    let has_value : (length v == 0) ≡ false = ground arith in (rw has_value refl, valid.1)

change_read_lem :
    (u : Update) (rest : List ℕ)
    → IsValid u
    → change_read (update_bytes u ++ rest) zeroed ≡ some (change_of u, length (update_bytes u))
change_read_lem u rest valid =
    let (named, keyed, short_key, short_value) = valid in
    let (read, fits) = change_of_read (u.store) (u.key) (u.value) short_value in
    let whole =
      change_read_parts (u.store) (u.key) (value_bytes (u.value)) rest (named.0) (named.1) keyed
        short_key fits in
    rw
      (
        append_assoc (u.store) (0 ∷ (prefixed (u.key) ++ prefixed (value_bytes (u.value)))) rest,
        append_assoc (prefixed (u.key)) (prefixed (value_bytes (u.value))) rest,
        whole,
        read,
        length_update u,
      )
      refl

changes_read_rest : (n : ℕ) → changes_read n [] ≡ some (replicate n zeroed)
unfolding changes_read
changes_read_rest zero = refl
changes_read_rest (suc n) = refl

changes_read_lem :
    (us : List Update) (more n : ℕ)
    → n ≡ length us + more
    → All IsValid us
    → changes_read n (updates_bytes us) ≡ some (map change_of us ++ replicate more zeroed)
unfolding changes_read
changes_read_lem [] more n e valid =
    let same : n ≡ more = omega arith in rw same (changes_read_rest more)
changes_read_lem (u ∷ us) more zero e valid = absurd (omega arith)
changes_read_lem (u ∷ us) more (suc n) e valid =
    let bytes_left : leb (length (update_bytes u ++ updates_bytes us)) 0 ≡ false =
      ground (arith, length-append (update_bytes u) (updates_bytes us), length_update u) in
    rw
      (
        changes_read,
        bytes_left,
        change_read_lem u (updates_bytes us) valid.0,
        drop-append (update_bytes u) (updates_bytes us),
        changes_read_lem us more n (omega arith) valid.1,
      )
      refl

length-message :
    (app : List ℕ) (n : ℕ) (us : List Update)
    → length (message app n us) ≡ length app + 3 + length (updates_bytes us)
length-message app n us = omega (arith, length-append app (0 ∷ (short_bytes n ++ updates_bytes us)))

read_count :
    (app : List ℕ) (n : ℕ) (us : List Update)
    → n < 2 ^ 16
    → read_short (message app n us) (length app + 1) ≡ some n
read_count app n us fits =
    let at : length app + 1 ≡ length (app ++ 0 ∷ []) = omega (arith, length-append app (0 ∷ [])) in
    rw
      (
        at,
        ← append_assoc app (0 ∷ []) (short_bytes n ++ updates_bytes us),
        ← append_assoc (app ++ 0 ∷ []) (short_bytes n) (updates_bytes us),
      )
      (read_short_lem n (app ++ 0 ∷ []) (updates_bytes us) fits)

drop_count :
    (app : List ℕ) (n : ℕ) (us : List Update)
    → drop (length app + 1 + 2) (message app n us) ≡ updates_bytes us
drop_count app n us =
    let read = app ++ 0 ∷ short_bytes n in
    let at : length app + 1 + 2 ≡ length read =
      omega (arith, length-append app (0 ∷ short_bytes n)) in
    rw (at, ← append_assoc app (0 ∷ short_bytes n) (updates_bytes us))
      (drop-append read (updates_bytes us))

-- A message whose count says that `more` changes follow the ones that it holds is taken as a
-- changeset with `more` records that have neither a store nor a key, if it holds one change at least,
-- all of them valid, and the count is below 2^15.
pub changeset_read_short :
    (app : List ℕ) (u : Update) (us : List Update) (more : ℕ)
    → HasNoNul app
    → All IsValid (u ∷ us)
    → length (u ∷ us) + more < 2 ^ 15
    → changeset_read (message app (length (u ∷ us) + more) (u ∷ us))
      ≡ some (record { app = app; changes = map change_of (u ∷ us) ++ replicate more zeroed })
unfolding changeset_read
changeset_read_short app u us more valid all_valid fits =
    let n = length (u ∷ us) + more in
    let bytes_left : leb (length (message app n (u ∷ us)) - (length app + 1)) 2 ≡ false = ground (
      arith,
      length-message app n (u ∷ us),
      length-append (update_bytes u) (updates_bytes us),
      length_update u,
    ) in
    let positive : short_rounds n ≡ n = ground arith in
    rw
      (
        read_str_lem app (short_bytes n ++ updates_bytes (u ∷ us)) valid,
        bytes_left,
        read_count app n (u ∷ us) (omega arith),
        positive,
        drop_count app n (u ∷ us),
        changes_read_lem (u ∷ us) more n refl all_valid,
      )
      refl

pub changeset_read_lem :
    (app : List ℕ) (u : Update) (us : List Update)
    → HasNoNul app
    → All IsValid (u ∷ us)
    → length (u ∷ us) < 2 ^ 15
    → changeset_read (message app (length (u ∷ us)) (u ∷ us))
      ≡ some (record { app = app; changes = map change_of (u ∷ us) })
changeset_read_lem app u us valid all_valid fits =
    let count : length (u ∷ us) ≡ length (u ∷ us) + 0 = omega arith in
    ap (λ n. changeset_read (message app n (u ∷ us))) count
    ∙ changeset_read_short app u us 0 valid all_valid (omega arith)
    ∙ ap (λ changes. some (record { app = app; changes = changes })) (append-nil _)

-- A changeset of 1 to 2^15 - 1 valid changes, for an application whose name holds no NUL, is read
-- back as it was written.
pub changeset_read-changeset_write :
    (app : List ℕ) (u : Update) (us : List Update)
    → HasNoNul app
    → All IsValid (u ∷ us)
    → length (u ∷ us) < 2 ^ 15
    → (changeset_write (record { app = app; changes = map change_of (u ∷ us) }) []
        >>= changeset_read)
      ≡ some (record { app = app; changes = map change_of (u ∷ us) })
changeset_read-changeset_write app u us valid all_valid fits =
    let count : length (u ∷ us) % 2 ^ 16 ≡ length (u ∷ us) = omega arith in
    rw (changeset_write_lem app (u ∷ us) [], count)
      (changeset_read_lem app u us valid all_valid fits)

-- The message of a changeset with no changes is rejected.
pub changeset_read_empty :
    (app : List ℕ)
    → HasNoNul app
    → (changeset_write (record { app = app; changes = [] }) [] >>= changeset_read) ≡ none
unfolding changeset_read
changeset_read_empty app valid =
    let bytes_left : leb (length (message app 0 []) - (length app + 1)) 2 ≡ true =
      ground (arith, length-message app 0 []) in
    rw
      (
        changeset_write_lem app [] [],
        changeset_read,
        read_str_lem app (short_bytes 0) valid,
        bytes_left,
      )
      refl
