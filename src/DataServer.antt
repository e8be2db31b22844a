-- ===== src/DataServer.antt =====
-- gzochi-server/src/dataserver-protocol.c: the requests of an application server's data client, as
-- the meta server's end of the connection decodes them and calls the data server. The data server
-- (dataserver.c) is an interface here, with a state `D`, which DataStores.Hosted fills.
pub mod Requests
use gnu_gzochi.Base.{
  ℕ, zero, suc, ◌+◌, ◌-◌, ◌%◌, ◌^◌, Bool, true, false, Option, none, some, List, [], ◌∷◌, ◌++◌,
  length, if◌then◌else◌, ◌>>=◌, leb, ◌==◌, drop,
}
use gnu_gzochi.Io.{write_short}
use gnu_gzochi.Protocol.{read_str, read_bytes}
use gnu_gzochi.DataProtocol.{
  Response, ReserveOidsResponse, Changeset, response_write, reserve_oids_response_write,
}
use gnu_gzochi.DataProtocol.Read.{changeset_read}

-- Opcodes of meta-protocol.h.
abbrev pub op_request_oids : ℕ
op_request_oids = 0x20

abbrev pub op_request_value : ℕ
op_request_value = 0x21

abbrev pub op_request_next_key : ℕ
op_request_next_key = 0x22

abbrev pub op_submit_changeset : ℕ
op_submit_changeset = 0x30

abbrev pub op_release_key : ℕ
op_release_key = 0x40

abbrev pub op_release_key_range : ℕ
op_release_key_range = 0x42

abbrev pub op_oids_response : ℕ
op_oids_response = 0x50

abbrev pub op_value_response : ℕ
op_value_response = 0x51

abbrev pub op_next_key_response : ℕ
op_next_key_response = 0x52

-- The functions of dataserver.h that the protocol calls, with the node that asks. `none` is a `NULL`
-- response with an error set, `false` an error of `process_changeset`.
pub record DataServer {ℓ} (D : Type ℓ) : Type ℓ where
  pub reserve_oids : D → ℕ → List ℕ → D × ReserveOidsResponse
  pub request_value : D → ℕ → List ℕ → List ℕ → List ℕ → Bool → D × Option Response
  pub request_next_key : D → ℕ → List ℕ → List ℕ → Option (List ℕ) → D × Option Response
  pub process_changeset : D → ℕ → Changeset → D × Bool
  pub release_key : D → ℕ → List ℕ → List ℕ → List ℕ → D
  pub release_range : D → ℕ → List ℕ → List ℕ → Option (List ℕ) → Option (List ℕ) → D
  pub release_all : D → ℕ → D

-- `gzochi_metad_dataserver_client`, with the state of the data server and all the bytes that were
-- written to the socket.
pub record DataserverClient {ℓ} (D : Type ℓ) : Type ℓ where
  pub node_id : ℕ
  pub dataserver : D
  pub written : List ℕ

-- The bytes of a reply behind the room for the length, which is filled in last.
unfoldable pub reply : ℕ → List ℕ → List ℕ
reply opcode bytes =
    let message = 0 ∷ 0 ∷ opcode ∷ bytes in write_short ((length message - 3) % 2 ^ 16) message 0

-- The name of an application and that of a store, and what follows them; neither may be empty.
unfoldable pub read_names : List ℕ → Option (List ℕ × List ℕ × List ℕ)
read_names payload = do
  (app, str_len) ← read_str payload
  if leb str_len 1 then none else do
    let rest = drop str_len payload
    (store, store_len) ← read_str rest
    if leb store_len 1 then none else some (app, store, drop store_len rest)

-- The data server has `NULL` for the ends of the key space, where the protocol has an empty key.
abbrev pub nullable : List ℕ → Option (List ℕ)
nullable key = if length key == 0 then none else some key

-- A key with a flag in front, which is 1 for a request to write.
unfoldable pub read_flagged : List ℕ → Option (Bool × List ℕ)
read_flagged [] = none
read_flagged (flag ∷ rest) = do key ← read_bytes rest; some (flag == 1, key)

-- Two keys, one behind the other.
unfoldable pub read_range : List ℕ → Option (List ℕ × List ℕ)
read_range rest = do
  from_key ← read_bytes rest
  to_key ← read_bytes (drop (2 + length from_key) rest)
  some (from_key, to_key)

module _ {ℓ} {D : Type ℓ} (server : DataServer D) where
  -- The response, if there is one, is written to the socket.
  unfoldable pub respond : DataserverClient D → ℕ → D × Option Response → Bool × DataserverClient D
  respond client opcode (dataserver, none) = (false, record client { dataserver = dataserver })
  respond client opcode (dataserver, some response) = (
    true,
    record client {
      dataserver = dataserver;
      written = client.written ++ reply opcode (response_write response []);
    },
  )

  unfoldable pub dispatch_request_oids : DataserverClient D → List ℕ → Bool × DataserverClient D
  dispatch_request_oids client payload = elim (read_str payload) [
    | none ↦ (false, client)
    | some (app, str_len) ↦
        if leb str_len 1
        then (false, client)
        else let (dataserver, response) =
            server.reserve_oids (client.dataserver) (client.node_id) app in
          (
            true,
            record client {
              dataserver = dataserver;
              written =
                  client.written
                  ++ reply op_oids_response (reserve_oids_response_write response []);
            },
          )
  ]

  unfoldable pub dispatch_request_value : DataserverClient D → List ℕ → Bool × DataserverClient D
  dispatch_request_value client payload = elim (read_names payload) [
    | none ↦ (false, client)
    | some (app, store, rest) ↦ elim (read_flagged rest) [
      | none ↦ (false, client)
      | some (for_write, key) ↦
          respond client op_value_response
            (server.request_value (client.dataserver) (client.node_id) app store key for_write)
    ]
  ]

  unfoldable pub dispatch_request_next_key : DataserverClient D → List ℕ → Bool × DataserverClient D
  dispatch_request_next_key client payload = elim (read_names payload) [
    | none ↦ (false, client)
    | some (app, store, rest) ↦ elim (read_bytes rest) [
      | none ↦ (false, client)
      | some key ↦
          respond client op_next_key_response
            (server.request_next_key (client.dataserver) (client.node_id) app store (nullable key))
    ]
  ]

  unfoldable pub dispatch_submit_changeset : DataserverClient D → List ℕ → Bool × DataserverClient D
  dispatch_submit_changeset client payload = elim (changeset_read payload) [
    | none ↦ (false, client)
    | some changeset ↦
        let (dataserver, processed) =
          server.process_changeset (client.dataserver) (client.node_id) changeset in
        (processed, record client { dataserver = dataserver })
  ]

  unfoldable pub dispatch_release_key : DataserverClient D → List ℕ → Bool × DataserverClient D
  dispatch_release_key client payload = elim (read_names payload) [
    | none ↦ (false, client)
    | some (app, store, rest) ↦ elim (read_bytes rest) [
      | none ↦ (false, client)
      | some key ↦ (
        true,
        record client {
          dataserver = server.release_key (client.dataserver) (client.node_id) app store key;
        },
      )
    ]
  ]

  unfoldable pub dispatch_release_key_range :
      DataserverClient D → List ℕ → Bool × DataserverClient D
  dispatch_release_key_range client payload = elim (read_names payload) [
    | none ↦ (false, client)
    | some (app, store, rest) ↦ elim (read_range rest) [
      | none ↦ (false, client)
      | some (from_key, to_key) ↦ (
        true,
        record client {
          dataserver =
              server.release_range (client.dataserver) (client.node_id) app store
                (nullable from_key) (nullable to_key);
        },
      )
    ]
  ]

  -- The switch of `dispatch_message`, which drops the flags.
  unfoldable pub dispatch_request : DataserverClient D → ℕ → List ℕ → DataserverClient D
  dispatch_request client opcode payload =
      if opcode == op_request_oids
      then (dispatch_request_oids client payload).1
      else if opcode == op_request_value
      then (dispatch_request_value client payload).1
      else if opcode == op_request_next_key
      then (dispatch_request_next_key client payload).1
      else if opcode == op_submit_changeset
      then (dispatch_submit_changeset client payload).1
      else if opcode == op_release_key
      then (dispatch_release_key client payload).1
      else if opcode == op_release_key_range
      then (dispatch_release_key_range client payload).1
      else client

  unfoldable pub client_error : DataserverClient D → DataserverClient D
  client_error client = record client {
    dataserver = server.release_all (client.dataserver) (client.node_id);
  }
