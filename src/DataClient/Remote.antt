-- ===== src/DataClient/Remote.antt =====
-- gzochi-server/src/dataclient.c and gzochi-server/src/dataserver-protocol.c, the two ends of a
-- connection: what the client asks for is what the data server is called with.
use mathlib.Core.List.{append_assoc}
use gnu_gzochi.Base.{
  ℕ, ◌%◌, ◌^◌, ◌<◌, ◌≡◌, refl, ◌∙◌, Bool, true, false, Option, none, some, List, [], ◌∷◌, ◌++◌,
  length, arith, All, map, if◌then◌else◌, ◌==◌,
}
use gnu_gzochi.Io.RoundTrip.{write_short_lem}
use gnu_gzochi.Protocol.RoundTrip.{read_str_lem}
use gnu_gzochi.DataProtocol.{append_str, reserve_oids_response_write}
use gnu_gzochi.DataProtocol.RoundTrip.{prefixed, names}
use gnu_gzochi.DataProtocol.Changes.{Update, IsValid, change_of, message}
use gnu_gzochi.DataProtocol.Changes.RoundTrip.{changeset_read_lem}
use gnu_gzochi.DataServer.{
  DataServer, DataserverClient, reply, nullable, respond, dispatch_request, op_request_oids,
  op_request_value, op_request_next_key, op_submit_changeset, op_release_key, op_release_key_range,
  op_oids_response, op_value_response, op_next_key_response, dispatch_request_oids,
  dispatch_request_value, dispatch_request_next_key, dispatch_submit_changeset,
  dispatch_release_key, dispatch_release_key_range,
}
use gnu_gzochi.DataServer.Requests.{
  IsName, IsKey, named_length, read_names_lem, read_key, read_flagged_lem, read_range_lem,
}
use gnu_gzochi.DataClient.{
  write_nullable_bytes, request_value_payload, request_next_key_payload, release_key_payload,
  release_key_range_payload,
}

-- What an application server can ask of the data server, and what the data server is called with.
pub data Request : Type 0 where
  reserve_oids : List ℕ → Request
  request_value : List ℕ → List ℕ → List ℕ → Bool → Request
  request_next_key : List ℕ → List ℕ → Option (List ℕ) → Request
  submit_changeset : List ℕ → Update → List Update → Request
  release_key : List ℕ → List ℕ → List ℕ → Request
  release_key_range : List ℕ → List ℕ → Option (List ℕ) → Option (List ℕ) → Request

-- A key, or an end of the key space; a key that is given has a byte at least.
abbrev pub IsBound : Option (List ℕ) → Type 0
IsBound none = Unit
IsBound (some key) = (0 < length key) × IsKey key

abbrev pub IsValidRequest : Request → Type 0
IsValidRequest (reserve_oids app) = IsName app
IsValidRequest (request_value app store key for_write) = IsName app × IsName store × IsKey key
IsValidRequest (request_next_key app store key) = IsName app × IsName store × IsBound key
IsValidRequest (submit_changeset app u us) =
    IsName app × All IsValid (u ∷ us) × (length (u ∷ us) < 2 ^ 15)
IsValidRequest (release_key app store key) = IsName app × IsName store × IsKey key
IsValidRequest (release_key_range app store from to) =
    IsName app × IsName store × IsBound from × IsBound to

abbrev pub opcode_of : Request → ℕ
opcode_of (reserve_oids app) = op_request_oids
opcode_of (request_value app store key for_write) = op_request_value
opcode_of (request_next_key app store key) = op_request_next_key
opcode_of (submit_changeset app u us) = op_submit_changeset
opcode_of (release_key app store key) = op_release_key
opcode_of (release_key_range app store from to) = op_release_key_range

-- The payload that the data client writes for a request.
abbrev pub payload_of : Request → List ℕ
payload_of (reserve_oids app) = append_str app []
payload_of (request_value app store key for_write) = request_value_payload app store key for_write
payload_of (request_next_key app store key) = request_next_key_payload app store key
payload_of (submit_changeset app u us) = message app (length (u ∷ us)) (u ∷ us)
payload_of (release_key app store key) = release_key_payload app store key
payload_of (release_key_range app store from to) = release_key_range_payload app store from to

abbrev key_bytes : Option (List ℕ) → List ℕ
key_bytes none = []
key_bytes (some key) = key

write_nullable_bytes_lem :
    (payload : List ℕ) (key : Option (List ℕ))
    → write_nullable_bytes payload key ≡ payload ++ prefixed (key_bytes key)
unfolding write_nullable_bytes
write_nullable_bytes_lem payload none = refl
write_nullable_bytes_lem payload (some key) =
    rw (write_short_lem (length key % 2 ^ 16) payload 0 0 []) (simp append_assoc)

names_payload :
    (app store rest : List ℕ) → append_str store (append_str app []) ++ rest ≡ names app store rest
names_payload app store rest = simp append_assoc

request_value_payload_lem :
    (app store key : List ℕ) (for_write : Bool)
    → request_value_payload app store key for_write
      ≡ names app store ((if for_write then 1 else 0) ∷ prefixed key)
unfolding request_value_payload
request_value_payload_lem app store key for_write =
    rw (write_short_lem (length key % 2 ^ 16) _ 0 0 []) (simp append_assoc)

request_next_key_payload_lem :
    (app store : List ℕ) (key : Option (List ℕ))
    → request_next_key_payload app store key ≡ names app store (prefixed (key_bytes key))
unfolding request_next_key_payload
request_next_key_payload_lem app store key =
    write_nullable_bytes_lem _ key ∙ names_payload app store (prefixed (key_bytes key))

release_key_payload_lem :
    (app store key : List ℕ) → release_key_payload app store key ≡ names app store (prefixed key)
unfolding release_key_payload
release_key_payload_lem app store key =
    rw (write_short_lem (length key % 2 ^ 16) _ 0 0 []) (simp append_assoc)

release_key_range_payload_lem :
    (app store : List ℕ) (from to : Option (List ℕ))
    → release_key_range_payload app store from to
      ≡ names app store (prefixed (key_bytes from) ++ prefixed (key_bytes to))
unfolding release_key_range_payload
release_key_range_payload_lem app store from to =
    rw (write_nullable_bytes_lem _ to, write_nullable_bytes_lem _ from) (simp append_assoc)

bound_lem :
    (key : Option (List ℕ)) → IsBound key → (nullable (key_bytes key) ≡ key) × IsKey (key_bytes key)
bound_lem none bound = (refl, omega arith)
bound_lem (some key) bound =
    let given : (length key == 0) ≡ false = ground arith in (rw given refl, bound.1)

flag_lem : (for_write : Bool) → ((if for_write then 1 else 0) == 1) ≡ for_write
flag_lem true = refl
flag_lem false = refl

module _ {ℓ} {D : Type ℓ} (server : DataServer D) where
  -- The call of the data server that a request stands for, and its reply.
  abbrev pub perform : DataserverClient D → Request → DataserverClient D
  perform client (reserve_oids app) =
      let (dataserver, response) = server.reserve_oids (client.dataserver) (client.node_id) app in
      record client {
        dataserver = dataserver;
        written =
            client.written ++ reply op_oids_response (reserve_oids_response_write response []);
      }
  perform client (request_value app store key for_write) =
      (respond server client op_value_response
        (server.request_value (client.dataserver) (client.node_id) app store key for_write)).1
  perform client (request_next_key app store key) =
      (respond server client op_next_key_response
        (server.request_next_key (client.dataserver) (client.node_id) app store key)).1
  perform client (submit_changeset app u us) = record client {
    dataserver =
        (server.process_changeset (client.dataserver) (client.node_id)
          (record { app = app; changes = map change_of (u ∷ us) })).0;
  }
  perform client (release_key app store key) = record client {
    dataserver = server.release_key (client.dataserver) (client.node_id) app store key;
  }
  perform client (release_key_range app store from to) = record client {
    dataserver = server.release_range (client.dataserver) (client.node_id) app store from to;
  }

  -- A valid request that the data client writes is decoded by the meta server's end as what it is:
  -- the data server is called with the same names, keys and changes, with `NULL` for an end of the
  -- key space, and its response, if it has one, is written back.
  pub dispatch_request-perform :
      (client : DataserverClient D) (r : Request)
      → IsValidRequest r
      → dispatch_request server client (opcode_of r) (payload_of r) ≡ perform client r
  unfolding dispatch_request dispatch_request_oids dispatch_request_value dispatch_request_next_key
      dispatch_submit_changeset dispatch_release_key dispatch_release_key_range
  dispatch_request-perform client (reserve_oids app) valid =
      rw
        (
          dispatch_request,
          dispatch_request_oids,
          read_str_lem app [] valid.0,
          named_length app valid,
        )
        refl
  dispatch_request-perform client (request_value app store key for_write) valid =
      rw
        (
          dispatch_request,
          dispatch_request_value,
          request_value_payload_lem app store key for_write,
          read_names_lem app store _ valid.0 valid.1,
          read_flagged_lem (if for_write then 1 else 0) key valid.2,
          flag_lem for_write,
        )
        refl
  dispatch_request-perform client (request_next_key app store key) valid =
      let (same, short) = bound_lem key valid.2 in
      rw
        (
          dispatch_request,
          dispatch_request_next_key,
          request_next_key_payload_lem app store key,
          read_names_lem app store _ valid.0 valid.1,
          read_key (key_bytes key) short,
          same,
        )
        refl
  dispatch_request-perform client (submit_changeset app u us) valid =
      rw
        (
          dispatch_request,
          dispatch_submit_changeset,
          changeset_read_lem app u us valid.0.0 valid.1 valid.2,
        )
        refl
  dispatch_request-perform client (release_key app store key) valid =
      rw
        (
          dispatch_request,
          dispatch_release_key,
          release_key_payload_lem app store key,
          read_names_lem app store _ valid.0 valid.1,
          read_key key valid.2,
        )
        refl
  dispatch_request-perform client (release_key_range app store from to) valid =
      let (same_from, short_from) = bound_lem from valid.2 in
      let (same_to, short_to) = bound_lem to valid.3 in
      rw
        (
          dispatch_request,
          dispatch_release_key_range,
          release_key_range_payload_lem app store from to,
          read_names_lem app store _ valid.0 valid.1,
          read_range_lem (key_bytes from) (key_bytes to) short_from short_to,
          same_from,
          same_to,
        )
        refl
