-- ===== src/DataClient/Responses.antt =====
-- gzochi-server/src/dataclient.c and gzochi-server/src/dataclient-protocol.c: the responses of the
-- data server, which are decoded and matched with the callbacks that wait in their application's
-- queue. `none` is a read past the end of a message or a pointer that points nowhere.
use gnu_gzochi.Base.{ℕ, Option, none, some, List, [], ◌∷◌, ◌++◌, if◌then◌else◌, ◌>>=◌, ◌==◌}
use gnu_gzochi.DataProtocol.{Response, Outcome, success, failure, ReserveOidsResponse}
use gnu_gzochi.DataProtocol.Read.{response_read, reserve_oids_response_read}
use gnu_gzochi.DataServer.{op_oids_response, op_value_response, op_next_key_response}
use gnu_gzochi.DataClient.{
  Registration, CallbackQueue, Event, oids_received, succeeded, failed, release_scheduled,
  DataClient, acquire_callback_queue, release_callback_queue,
}

-- `gzochid_data_response_free`, which releases the `data` of the union whether the response is a
-- success or not: where a refusal has its time, `tv_sec` lies in place of the pointer, and if it is
-- not 0, it is followed (`none`).
unfoldable pub response_free : Response → Option (Unit {0})
response_free response = elim (response.outcome) [
  | success bytes ↦ some tt
  | failure timeout ↦ if timeout.tv_sec == 0 then some tt else none
]

module _ {ℓ} {K : Type ℓ} where
  unfoldable pub received_oids : DataClient K → ReserveOidsResponse → DataClient K
  received_oids client response =
      let queue = acquire_callback_queue client (response.app) in
      elim (queue.oids_callback) [
        | none ↦ release_callback_queue client (response.app) queue
        | some callback ↦
            release_callback_queue
              (record client {
                events = client.events ++ oids_received callback (response.block) ∷ [];
              })
              (response.app) (record queue { oids_callback = none })
      ]

  -- What follows from the registration at the head of the queue.
  unfoldable pub callback_events : DataClient K → ℕ → Registration K → Outcome → List (Event K)
  callback_events client opcode registration outcome =
      if opcode == registration.expected_opcode
      then elim outcome [
        | success bytes ↦
            succeeded (registration.callbacks) bytes
            ∷ (if opcode == op_value_response
                then release_scheduled (registration.callbacks) (client.lock_release_ms) ∷ []
                else if opcode == op_next_key_response
                then release_scheduled (registration.callbacks) (client.range_lock_release_ms) ∷ []
                else [])
        | failure timeout ↦ failed (registration.callbacks) timeout ∷ []
      ]
      else []

  -- A queue that is empty, which the callers exclude, is left as it is.
  unfoldable pub process_queued_callback :
      DataClient K → CallbackQueue K → ℕ → Response → DataClient K × CallbackQueue K
  process_queued_callback client queue opcode response = elim (queue.callback_registrations) [
    | [] ↦ (client, queue)
    | registration ∷ others ↦ (
      record client {
        events = client.events ++ callback_events client opcode registration (response.outcome);
      },
      record queue { callback_registrations = others },
    )
  ]

  unfoldable pub received_value : DataClient K → Response → DataClient K
  received_value client response =
      let queue = acquire_callback_queue client (response.app) in
      elim (queue.callback_registrations) [
        | [] ↦ release_callback_queue client (response.app) queue
        | _ ∷ _ ↦
            let (client', queue') =
              process_queued_callback client queue op_value_response response in
            release_callback_queue client' (response.app) queue'
      ]

  unfoldable pub received_next_key : DataClient K → Response → DataClient K
  received_next_key client response =
      let queue = acquire_callback_queue client (response.app) in
      elim (queue.callback_registrations) [
        | [] ↦ release_callback_queue client (response.app) queue
        | _ ∷ _ ↦
            let (client', queue') =
              process_queued_callback client queue op_next_key_response response in
            release_callback_queue client' (response.app) queue'
      ]

  -- The flag that the code returns is dropped by its caller, here and below.
  unfoldable pub dispatch_oids_response : DataClient K → List ℕ → Option (DataClient K)
  dispatch_oids_response client payload = do
    result ← reserve_oids_response_read payload
    some (elim result [ none ↦ client | some response ↦ received_oids client response ])

  unfoldable pub dispatch_value_response : DataClient K → List ℕ → Option (DataClient K)
  unfolding response_free
  dispatch_value_response client payload = elim (response_read payload) [
    | none ↦ some client
    | some response ↦ response_free response >>= λ _. some (received_value client response)
  ]

  unfoldable pub dispatch_next_key_response : DataClient K → List ℕ → Option (DataClient K)
  unfolding response_free
  dispatch_next_key_response client payload = elim (response_read payload) [
    | none ↦ some client
    | some response ↦ response_free response >>= λ _. some (received_next_key client response)
  ]

  -- The switch of `dispatch_message`.
  unfoldable pub dispatch_reply : DataClient K → ℕ → List ℕ → Option (DataClient K)
  dispatch_reply client opcode payload =
      if opcode == op_oids_response
      then dispatch_oids_response client payload
      else if opcode == op_value_response
      then dispatch_value_response client payload
      else if opcode == op_next_key_response
      then dispatch_next_key_response client payload
      else some client
