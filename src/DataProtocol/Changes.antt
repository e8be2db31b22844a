-- ===== src/DataProtocol/Changes.antt =====
-- gzochi-server/src/data-protocol.c: changesets as lists of updates, and the bytes that are written for
-- them.
pub mod RoundTrip
use mathlib.Core.List.{append_assoc, append-nil}
use gnu_gzochi.Base.{
  ℕ, zero, suc, ◌+◌, ◌-◌, ◌%◌, ◌^◌, ◌<◌, ◌≡◌, refl, ap, ◌∙◌, true, false, Option, none, some, List,
  [], ◌∷◌, ◌++◌, length, length-append, arith, drop, drop-append, if◌then◌else◌, replicate, ◌>>=◌,
  map, All, leb, ◌==◌,
}
use gnu_gzochi.Io.{read_short}
use gnu_gzochi.Io.RoundTrip.{short_bytes, write_short_lem, read_short_lem}
use gnu_gzochi.Util.RoundTrip.{HasNoNul}
use gnu_gzochi.Protocol.RoundTrip.{read_str_lem}
use gnu_gzochi.DataProtocol.{Change, append_str, change_write, changes_write, changeset_write}
use gnu_gzochi.DataProtocol.Read.{change_read, changes_read, changeset_read, zeroed, short_rounds}
use gnu_gzochi.DataProtocol.RoundTrip.{prefixed, write_bytes_lem, read_prefixed, drop_str}

-- What a change means: a key of a store is bound to a value, or unbound.
pub record Update : Type 0 where
  pub store : List ℕ
  pub key : List ℕ
  pub value : Option (List ℕ)

abbrev pub IsValidValue : Option (List ℕ) → Type 0
IsValidValue none = Unit
IsValidValue (some v) = (0 < length v) × (length v < 2 ^ 15)

-- A named store, and a key and a value of at least one byte, each with a length that fits a `short`.
abbrev pub IsValid : Update → Type 0
IsValid u =
    (HasNoNul (u.store) × (0 < length (u.store)))
    × (0 < length (u.key))
    × (length (u.key) < 2 ^ 15)
    × IsValidValue (u.value)

abbrev pub change_of : Update → Change
change_of u = elim (u.value) [
  | none ↦ record { store = some (u.store); is_delete = true; key = some (u.key); value = none }
  | some v ↦ record {
    store = some (u.store);
    is_delete = false;
    key = some (u.key);
    value = some v;
  }
]

abbrev pub value_bytes : Option (List ℕ) → List ℕ
value_bytes none = []
value_bytes (some v) = v

abbrev pub update_bytes : Update → List ℕ
update_bytes u = u.store ++ 0 ∷ (prefixed (u.key) ++ prefixed (value_bytes (u.value)))

abbrev pub updates_bytes : List Update → List ℕ
updates_bytes [] = []
updates_bytes (u ∷ us) = update_bytes u ++ updates_bytes us

change_write_lem :
    (store key : List ℕ) (value : Option (List ℕ)) (arr : List ℕ)
    → let u : Update = record { store = store; key = key; value = value } in
      change_write (change_of u) arr ≡ some (arr ++ update_bytes u)
unfolding change_write
change_write_lem store key none arr =
    rw (write_bytes_lem key (append_str store arr)) (simp append_assoc)
change_write_lem store key (some v) arr =
    rw
      (
        write_bytes_lem key (append_str store arr),
        write_bytes_lem v (append_str store arr ++ prefixed key),
      )
      (simp append_assoc)

changes_write_lem :
    (us : List Update) (arr : List ℕ)
    → changes_write (map change_of us) arr ≡ some (arr ++ updates_bytes us)
unfolding changes_write
changes_write_lem [] arr = simp append-nil
changes_write_lem (u ∷ us) arr =
    rw
      (
        change_write_lem (u.store) (u.key) (u.value) arr,
        changes_write_lem us (arr ++ update_bytes u),
        append_assoc arr (update_bytes u) (updates_bytes us),
      )
      refl

length-map : (us : List Update) → length (map change_of us) ≡ length us
length-map [] = refl
length-map (u ∷ us) = ap suc (length-map us)

-- A changeset's message with a count of its own.
abbrev pub message : List ℕ → ℕ → List Update → List ℕ
message app count us = app ++ 0 ∷ (short_bytes count ++ updates_bytes us)

pub changeset_write_lem :
    (app : List ℕ) (us : List Update) (arr : List ℕ)
    → changeset_write (record { app = app; changes = map change_of us }) arr
      ≡ some (arr ++ message app (length us % 2 ^ 16) us)
unfolding changeset_write
changeset_write_lem app us arr =
    rw
      (
        length-map us,
        write_short_lem (length us % 2 ^ 16) (append_str app arr) 0 0 [],
        changes_write_lem us _,
      )
      (simp (append_assoc, append-nil))
