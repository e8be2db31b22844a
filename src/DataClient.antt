-- ===== src/DataClient.antt =====
-- gzochi-server/src/dataclient.c: an application server's requests to the meta server's data server,
-- and the queues of callbacks that wait for the responses. A callback with its closure data is an element of a type
-- `K`; what the client calls is recorded, in order, as events.
pub mod Responses
pub mod Queues
pub mod Refusals
pub mod Remote
pub mod Connection
use gnu_gzochi.Base.{
  str_equal, ℕ, zero, suc, ◌+◌, ◌-◌, ◌%◌, ◌^◌, Bool, true, false, ◌&&◌, Option, none, some, List,
  [], ◌∷◌, ◌++◌, length, if◌then◌else◌, ◌>>=◌, leb, ◌==◌, drop, replicate,
}
use gnu_gzochi.Io.{write_short}
use gnu_gzochi.Timeval.{Timeval}
use gnu_gzochi.Frame.{format_message}
use gnu_gzochi.DataProtocol.{
  OidsBlock, Response, Outcome, success, failure, ReserveOidsResponse, Change, Changeset,
  append_str, changeset_write,
}
use gnu_gzochi.DataProtocol.Read.{response_read, reserve_oids_response_read}
use gnu_gzochi.DataServer.{
  op_request_oids, op_request_value, op_request_next_key, op_submit_changeset, op_release_key,
  op_release_key_range, op_oids_response, op_value_response, op_next_key_response,
}

-- `dataclient_callback_registration`; the three callbacks of a request are one `K`.
pub record Registration {ℓ} (K : Type ℓ) : Type ℓ where
  pub expected_opcode : ℕ
  pub callbacks : K

pub record CallbackQueue {ℓ} (K : Type ℓ) : Type ℓ where
  pub oids_callback : Option K
  pub callback_registrations : List (Registration K)

-- Calls of callbacks, and of `g_timeout_source_new` for the release callback after some milliseconds.
pub data Event {ℓ} (K : Type ℓ) : Type ℓ where
  oids_received : K → OidsBlock → Event K
  succeeded : K → Option (List ℕ) → Event K
  failed : K → Timeval → Event K
  release_scheduled : K → ℕ → Event K

-- The table of queues is a function that has `none` where the table has no entry.
pub record DataClient {ℓ} (K : Type ℓ) : Type ℓ where
  pub lock_release_ms : ℕ
  pub range_lock_release_ms : ℕ
  pub application_callback_queues : List ℕ → Option (CallbackQueue K)
  pub written : List ℕ
  pub events : List (Event K)

abbrev pub empty_queue {ℓ} : {K : Type ℓ} → CallbackQueue K
empty_queue = record { oids_callback = none; callback_registrations = [] }

unfoldable pub write_nullable_bytes : List ℕ → Option (List ℕ) → List ℕ
write_nullable_bytes payload none = payload ++ 0 ∷ 0 ∷ []
write_nullable_bytes payload (some key) =
    write_short (length key % 2 ^ 16) (payload ++ replicate 2 0) (length payload) ++ key

-- The payloads of the requests.
unfoldable pub request_value_payload : List ℕ → List ℕ → List ℕ → Bool → List ℕ
request_value_payload app store key for_write =
    let payload = append_str store (append_str app []) ++ (if for_write then 1 else 0) ∷ [] in
    write_short (length key % 2 ^ 16) (payload ++ replicate 2 0) (length payload) ++ key

unfoldable pub request_next_key_payload : List ℕ → List ℕ → Option (List ℕ) → List ℕ
request_next_key_payload app store key =
    write_nullable_bytes (append_str store (append_str app [])) key

unfoldable pub release_key_payload : List ℕ → List ℕ → List ℕ → List ℕ
release_key_payload app store key =
    let payload = append_str store (append_str app []) in
    write_short (length key % 2 ^ 16) (payload ++ replicate 2 0) (length payload) ++ key

unfoldable pub release_key_range_payload :
    List ℕ → List ℕ → Option (List ℕ) → Option (List ℕ) → List ℕ
release_key_range_payload app store from to =
    write_nullable_bytes (write_nullable_bytes (append_str store (append_str app [])) from) to

abbrev pub max_message_length : ℕ
max_message_length = 0xffff - 3

module _ {ℓ} {K : Type ℓ} where
  -- The queue of an application, made on the first use.
  unfoldable pub acquire_callback_queue : DataClient K → List ℕ → CallbackQueue K
  acquire_callback_queue client app = elim (client.application_callback_queues app) [
    | some queue ↦ queue
    | none ↦ empty_queue
  ]

  -- A queue is shared by reference, so the table holds what was changed of it.
  unfoldable pub release_callback_queue : DataClient K → List ℕ → CallbackQueue K → DataClient K
  release_callback_queue client app queue = record client {
    application_callback_queues =
        λ name. if str_equal app name then some queue else client.application_callback_queues name;
  }

  unfoldable pub write_message : DataClient K → ℕ → List ℕ → DataClient K
  write_message client opcode payload = record client {
    written = client.written ++ format_message opcode payload;
  }

  -- `none` where the assertion fails that no other request for oids is pending.
  unfoldable pub dataclient_reserve_oids : DataClient K → List ℕ → K → Option (DataClient K)
  dataclient_reserve_oids client app callback =
      let queue = acquire_callback_queue client app in
      let client' = write_message client op_request_oids (append_str app []) in
      elim (queue.oids_callback) [
        | some pending ↦ none
        | none ↦
            some
              (release_callback_queue client' app (record queue { oids_callback = some callback }))
      ]

  unfoldable pub register : DataClient K → List ℕ → ℕ → K → DataClient K
  register client app opcode callbacks =
      let queue = acquire_callback_queue client app in
      release_callback_queue client app (record queue {
        callback_registrations =
            queue.callback_registrations
            ++ record { expected_opcode = opcode; callbacks = callbacks } ∷ [];
      })

  unfoldable pub dataclient_request_value :
      DataClient K → List ℕ → List ℕ → List ℕ → Bool → K → DataClient K
  dataclient_request_value client app store key for_write callbacks =
      register
        (write_message client op_request_value (request_value_payload app store key for_write)) app
        op_value_response callbacks

  unfoldable pub dataclient_request_next_key :
      DataClient K → List ℕ → List ℕ → Option (List ℕ) → K → DataClient K
  dataclient_request_next_key client app store key callbacks =
      register (write_message client op_request_next_key (request_next_key_payload app store key))
        app op_next_key_response callbacks

  -- A changeset that is too long is dropped; `none` is a change without a store or a key.
  unfoldable pub dataclient_submit_changeset :
      DataClient K → List ℕ → List Change → Option (DataClient K)
  dataclient_submit_changeset client app changes = do
    payload ← changeset_write (record { app = app; changes = changes }) []
    some (
        if leb (length payload) max_message_length
        then write_message client op_submit_changeset payload
        else client)

  unfoldable pub dataclient_release_key : DataClient K → List ℕ → List ℕ → List ℕ → DataClient K
  dataclient_release_key client app store key =
      write_message client op_release_key (release_key_payload app store key)

  unfoldable pub dataclient_release_key_range :
      DataClient K → List ℕ → List ℕ → Option (List ℕ) → Option (List ℕ) → DataClient K
  dataclient_release_key_range client app store from to =
      write_message client op_release_key_range (release_key_range_payload app store from to)
