-- ===== src/DataClient/Connection.antt =====
-- gzochi-server/src/dataclient.c, socket.c and dataserver-protocol.c together: the requests that the
-- data client issues on a connection, in the order in which they reach the data server.
use mathlib.Core.List.{append_assoc, append-nil}
use mathlib.Core.Option.{some-injective}
use gnu_gzochi.Base.{
  ◌%◌, ◌^◌, ◌≤◌, ◌≡◌, refl, sym, ap, ◌∙◌, true, Option, some, List, [], ◌∷◌, ◌++◌, length, arith,
  All, map, leb, ◌>>=◌, >>=-eq-some, inl, inr, Option-cases,
}
use gnu_gzochi.DataProtocol.Changes.{change_of, message, changeset_write_lem}
use gnu_gzochi.DataServer.{DataServer, DataserverClient, dispatch_request, client_error}
use gnu_gzochi.Frame.{Run, done}
use gnu_gzochi.Frame.Stream.{Message, IsShort, frame, stream, handle_all, format_message_lem}
use gnu_gzochi.Socket.{ReadResult, ClientSocket}
use gnu_gzochi.Socket.Receive.{IsCalm, all_arrived, receive_all, framed, receive_all-stream}
use gnu_gzochi.DataClient.{
  DataClient, acquire_callback_queue, max_message_length, write_message, dataclient_reserve_oids,
  dataclient_request_value, dataclient_request_next_key, dataclient_submit_changeset,
  dataclient_release_key, dataclient_release_key_range, register, release_callback_queue,
}
use gnu_gzochi.DataClient.Remote.{
  Request, reserve_oids, request_value, request_next_key, submit_changeset, release_key,
  release_key_range, IsValidRequest, opcode_of, payload_of, perform, dispatch_request-perform,
}

abbrev pub message_of : Request → Message
message_of r = record { opcode = opcode_of r; payload = payload_of r }

-- What a request must satisfy to be sent: its payload is not too long.
abbrev pub IsSendable : Request → Type 0
IsSendable r = IsValidRequest r × (length (payload_of r) ≤ max_message_length)

module _ {ℓ} {K : Type ℓ} where
  -- The function of the data client for a request; the callbacks are used where it takes any.
  abbrev pub issue : DataClient K → Request → K → Option (DataClient K)
  issue client (reserve_oids app) callback = dataclient_reserve_oids client app callback
  issue client (request_value app store key for_write) callbacks =
      some (dataclient_request_value client app store key for_write callbacks)
  issue client (request_next_key app store key) callbacks =
      some (dataclient_request_next_key client app store key callbacks)
  issue client (submit_changeset app u us) callbacks =
      dataclient_submit_changeset client app (map change_of (u ∷ us))
  issue client (release_key app store key) callbacks =
      some (dataclient_release_key client app store key)
  issue client (release_key_range app store from to) callbacks =
      some (dataclient_release_key_range client app store from to)

  abbrev pub issue_all : DataClient K → List (Request × K) → Option (DataClient K)
  issue_all client [] = some client
  issue_all client ((r, k) ∷ requests) = do client ← issue client r k; issue_all client requests

  sent_lem :
      (client : DataClient K) (r : Request)
      → IsSendable r
      → (write_message client (opcode_of r) (payload_of r)).written
        ≡ client.written ++ frame (message_of r)
  unfolding write_message
  sent_lem client r sendable =
      ap (λ bytes. client.written ++ bytes) (format_message_lem (message_of r) (omega arith))

  issue-written :
      (client : DataClient K) (r : Request) (k : K) (client' : DataClient K)
      → IsSendable r
      → issue client r k ≡ some client'
      → client'.written ≡ client.written ++ frame (message_of r)
  unfolding dataclient_reserve_oids dataclient_request_value dataclient_request_next_key
      dataclient_submit_changeset dataclient_release_key dataclient_release_key_range register
      release_callback_queue
  issue-written client (reserve_oids app) k client' sendable e =
      elim (Option-cases ((acquire_callback_queue client app).oids_callback)) [
        | inl free ↦
            let issued = rw (dataclient_reserve_oids, free) at e in
            ap (λ c. c.written) (sym (some-injective _ _ issued))
            ∙ sent_lem client (reserve_oids app) sendable
        | inr (pending, busy) ↦ let refused = rw (dataclient_reserve_oids, busy) at e in cc
      ]
  issue-written client (request_value app store key for_write) k client' sendable e =
      ap (λ c. c.written) (sym (some-injective _ _ e))
      ∙ sent_lem client (request_value app store key for_write) sendable
  issue-written client (request_next_key app store key) k client' sendable e =
      ap (λ c. c.written) (sym (some-injective _ _ e))
      ∙ sent_lem client (request_next_key app store key) sendable
  issue-written client (submit_changeset app u us) k client' sendable e =
      let count : length (u ∷ us) % 2 ^ 16 ≡ length (u ∷ us) = omega (arith, sendable.0.2) in
      let fits : leb (length (message app (length (u ∷ us)) (u ∷ us))) max_message_length ≡ true =
        ground (arith, sendable.1) in
      let issued =
        rw (dataclient_submit_changeset, changeset_write_lem app (u ∷ us) [], count, fits) at e in
      ap (λ c. c.written) (sym (some-injective _ _ issued))
      ∙ sent_lem client (submit_changeset app u us) sendable
  issue-written client (release_key app store key) k client' sendable e =
      ap (λ c. c.written) (sym (some-injective _ _ e))
      ∙ sent_lem client (release_key app store key) sendable
  issue-written client (release_key_range app store from to) k client' sendable e =
      ap (λ c. c.written) (sym (some-injective _ _ e))
      ∙ sent_lem client (release_key_range app store from to) sendable

  abbrev pub requests_of : List (Request × K) → List Request
  requests_of [] = []
  requests_of ((r, k) ∷ requests) = r ∷ requests_of requests

  issue_all-written :
      (requests : List (Request × K)) (client client' : DataClient K)
      → All (λ p. IsSendable p.0) requests
      → issue_all client requests ≡ some client'
      → client'.written ≡ client.written ++ stream (map message_of (requests_of requests))
  issue_all-written [] client client' sendable e =
      ap (λ c. c.written) (sym (some-injective _ _ e)) ∙ sym (append-nil (client.written))
  issue_all-written ((r, k) ∷ requests) client client' sendable e =
      let (between, first, rest) = >>=-eq-some (issue client r k) _ e in
      issue_all-written requests between client' sendable.1 rest
      ∙ ap (λ bytes. bytes ++ stream (map message_of (requests_of requests)))
          (issue-written client r k between sendable.0 first)
      ∙ append_assoc (client.written) (frame (message_of r)) _

  all-IsShort :
      (requests : List (Request × K))
      → All (λ p. IsSendable p.0) requests
      → All IsShort (map message_of (requests_of requests))
  all-IsShort [] sendable = tt
  all-IsShort ((r, k) ∷ requests) sendable =
      (omega (arith, sendable.0.1), all-IsShort requests sendable.1)

module _ {ℓ κ} {D : Type ℓ} {K : Type κ} (server : DataServer D) where
  -- The requests, each as one call of the data server, in order.
  abbrev pub perform_all : DataserverClient D → List (Request × K) → DataserverClient D
  perform_all client [] = client
  perform_all client ((r, k) ∷ requests) = perform_all (perform server client r) requests

  handle_all-perform_all :
      (requests : List (Request × K)) (client : DataserverClient D)
      → All (λ p. IsSendable p.0) requests
      → handle_all (dispatch_request server) client (map message_of (requests_of requests))
        ≡ perform_all client requests
  handle_all-perform_all [] client sendable = refl
  handle_all-perform_all ((r, k) ∷ requests) client sendable =
      ap (λ c. handle_all (dispatch_request server) c (map message_of (requests_of requests)))
        (dispatch_request-perform server client r sendable.0.0)
      ∙ handle_all-perform_all requests (perform server client r) sendable.1

  -- The valid requests that a data client issues on a new connection, each with a payload of at most
  -- 65532 bytes, are carried out by the meta server's end as the same calls of the data server, in
  -- the same order, each once, however the bytes of the connection are cut into reads.
  pub connection-perform_all :
      (requests : List (Request × K)) (client client' : DataClient K)
      (calls : List (List ReadResult)) (sock : ClientSocket (DataserverClient D))
      → All (λ p. IsSendable p.0) requests
      → client.written ≡ []
      → issue_all client requests ≡ some client'
      → sock.recv_buffer ≡ []
      → All IsCalm calls
      → all_arrived calls ≡ client'.written
      → receive_all (framed (dispatch_request server) (client_error server)) calls sock
        ≡ done (record sock {
          recv_buffer = [];
          protocol_data = perform_all (sock.protocol_data) requests;
        })
  connection-perform_all requests client client' calls sock sendable fresh issued empty calm sent =
      let ms = map message_of (requests_of requests) in
      let received : sock.recv_buffer ++ all_arrived calls ≡ stream ms ++ [] =
        ap (λ buffer. buffer ++ all_arrived calls) empty
        ∙ sent
        ∙ issue_all-written requests client client' sendable issued
        ∙ ap (λ bytes. bytes ++ stream ms) fresh
        ∙ sym (append-nil (stream ms)) in
      let handled =
        receive_all-stream (dispatch_request server) (client_error server) calls ms [] sock calm
          (all-IsShort requests sendable) (inl (omega arith)) (rw empty (inl (omega arith)))
          received in
      handled
      ∙ ap {B = Run (ClientSocket (DataserverClient D))}
          (λ d. done (record sock { recv_buffer = []; protocol_data = d }))
          (handle_all-perform_all requests (sock.protocol_data) sendable)
