-- ===== src/DataServer/Requests.antt =====
-- gzochi-server/src/dataserver-protocol.c: what the handlers make of well-formed payloads.
use mathlib.Core.List.{append-nil}
use gnu_gzochi.Base.{
  ℕ, ◌+◌, ◌^◌, ◌<◌, ◌≡◌, refl, sym, ap, ◌∙◌, false, some, List, [], ◌∷◌, ◌++◌, length, arith,
  drop-append, leb, ◌==◌,
}
use gnu_gzochi.Util.RoundTrip.{HasNoNul}
use gnu_gzochi.Protocol.{read_bytes}
use gnu_gzochi.Protocol.RoundTrip.{read_str_lem}
use gnu_gzochi.DataProtocol.RoundTrip.{prefixed, names, read_prefixed, drop_str}
use gnu_gzochi.DataServer.{read_names, read_flagged, read_range}

-- A name that the handlers accept.
abbrev pub IsName : List ℕ → Type 0
IsName s = HasNoNul s × (0 < length s)

abbrev pub IsKey : List ℕ → Type 0
IsKey key = length key < 2 ^ 15

pub named_length : (s : List ℕ) → IsName s → leb (length s + 1) 1 ≡ false
named_length s named = ground arith

pub read_names_lem :
    (app store rest : List ℕ)
    → IsName app
    → IsName store
    → read_names (names app store rest) ≡ some (app, store, rest)
unfolding read_names
read_names_lem app store rest app_named store_named =
    rw
      (
        read_str_lem app (store ++ 0 ∷ rest) app_named.0,
        named_length app app_named,
        drop_str app (store ++ 0 ∷ rest),
        read_str_lem store rest store_named.0,
        named_length store store_named,
        drop_str store rest,
      )
      refl

pub read_key : (key : List ℕ) → IsKey key → read_bytes (prefixed key) ≡ some key
read_key key short = ap read_bytes (sym (append-nil (prefixed key))) ∙ read_prefixed key [] short

pub read_flagged_lem :
    (flag : ℕ) (key : List ℕ)
    → IsKey key
    → read_flagged (flag ∷ prefixed key) ≡ some (flag == 1, key)
unfolding read_flagged
read_flagged_lem flag key short = rw (read_key key short) refl

pub read_range_lem :
    (from to : List ℕ)
    → IsKey from
    → IsKey to
    → read_range (prefixed from ++ prefixed to) ≡ some (from, to)
unfolding read_range
read_range_lem from to short_from short_to =
    let at : 2 + length from ≡ length (prefixed from) = omega arith in
    rw
      (
        read_prefixed from (prefixed to) short_from,
        at,
        drop-append (prefixed from) (prefixed to),
        ← append-nil (prefixed to),
        read_prefixed to [] short_to,
      )
      refl
