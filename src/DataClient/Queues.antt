-- ===== src/DataClient/Queues.antt =====
-- gzochi-server/src/dataclient.c and dataclient-protocol.c: the responses that arrive for an
-- application are given to the callbacks that wait in its queue, in order.
use mathlib.Core.List.{append_assoc, append-nil}
use gnu_gzochi.Base.{
  str_equal, str_equal_refl, ℕ, ◌≡◌, refl, sym, ap, ◌∙◌, false, Option, some, List, [], ◌∷◌, ◌++◌,
  All, map, ◌>>=◌,
}
use gnu_gzochi.Util.RoundTrip.{HasNoNul}
use gnu_gzochi.DataProtocol.{Response, Outcome, success, failure, response_write}
use gnu_gzochi.DataProtocol.Read.{response_read}
use gnu_gzochi.DataProtocol.RoundTrip.{IsValidOutcome, response_read-response_write}
use gnu_gzochi.DataServer.{op_value_response, op_next_key_response}
use gnu_gzochi.DataClient.{
  Registration, CallbackQueue, Event, succeeded, failed, release_scheduled, DataClient,
  acquire_callback_queue, release_callback_queue,
}
use gnu_gzochi.DataClient.Responses.{
  response_free, callback_events, process_queued_callback, received_value, received_next_key,
  dispatch_reply, dispatch_value_response, dispatch_next_key_response,
}

pub data Kind : Type 0 where
  value next_key : Kind

abbrev pub response_opcode : Kind → ℕ
response_opcode value = op_value_response
response_opcode next_key = op_next_key_response

-- A request that waits, and the answer to it.
pub record Answer {ℓ} (K : Type ℓ) : Type ℓ where
  pub kind : Kind
  pub callbacks : K
  pub store : List ℕ
  pub outcome : Outcome

pub decode_lem :
    (app store : List ℕ) (outcome : Outcome)
    → HasNoNul app
    → HasNoNul store
    → IsValidOutcome outcome
    → let r : Response = record { app = app; store = store; outcome = outcome } in
      response_read (response_write r []) ≡ some r
decode_lem app store outcome named stored valid =
    let r : Response = record { app = app; store = store; outcome = outcome } in
    ap response_read (sym (append-nil (response_write r [])))
    ∙ (response_read-response_write r [] [] named stored valid).1

-- A refusal with no seconds, as the data server makes them.
abbrev pub IsReleasable : Outcome → Type 0
IsReleasable (success bytes) = Unit
IsReleasable (failure timeout) = timeout.tv_sec ≡ 0

response_free_lem :
    (app store : List ℕ) (outcome : Outcome)
    → IsReleasable outcome
    → response_free (record { app = app; store = store; outcome = outcome }) ≡ some tt
unfolding response_free
response_free_lem app store (success bytes) fits = refl
response_free_lem app store (failure timeout) fits = rw fits refl

module _ {ℓ} {K : Type ℓ} where
  abbrev pub registration_of : Answer K → Registration K
  registration_of a = record { expected_opcode = response_opcode (a.kind); callbacks = a.callbacks }

  abbrev pub response_of : List ℕ → Answer K → Response
  response_of app a = record { app = app; store = a.store; outcome = a.outcome }

  abbrev pub IsValidAnswer : Answer K → Type 0
  IsValidAnswer a = HasNoNul (a.store) × IsValidOutcome (a.outcome) × IsReleasable (a.outcome)

  -- What an answer makes the client call: the callback for a success, and the release after the time
  -- that is configured for the kind of lock; or the callback for a failure.
  abbrev pub events_of : ℕ → ℕ → Kind → K → Outcome → List (Event K)
  events_of lock_ms range_ms value callbacks (success bytes) =
      succeeded callbacks bytes ∷ release_scheduled callbacks lock_ms ∷ []
  events_of lock_ms range_ms next_key callbacks (success bytes) =
      succeeded callbacks bytes ∷ release_scheduled callbacks range_ms ∷ []
  events_of lock_ms range_ms kind callbacks (failure timeout) = failed callbacks timeout ∷ []

  abbrev pub all_events : ℕ → ℕ → List (Answer K) → List (Event K)
  all_events lock_ms range_ms [] = []
  all_events lock_ms range_ms (a ∷ answers) =
      events_of lock_ms range_ms (a.kind) (a.callbacks) (a.outcome)
      ++ all_events lock_ms range_ms answers

  -- The responses as they are decoded and dispatched, one after the other.
  abbrev pub dispatch_replies : DataClient K → List ℕ → List (Answer K) → Option (DataClient K)
  dispatch_replies client app [] = some client
  dispatch_replies client app (a ∷ answers) = do
    client ←
        dispatch_reply client (response_opcode (a.kind)) (response_write (response_of app a) [])
    dispatch_replies client app answers

  callback_events_lem :
      (client : DataClient K) (kind : Kind) (callbacks : K) (outcome : Outcome)
      → let r : Registration K = record {
        expected_opcode = response_opcode kind;
        callbacks = callbacks;
      } in
        callback_events client (response_opcode kind) r outcome
        ≡ events_of (client.lock_release_ms) (client.range_lock_release_ms) kind callbacks outcome
  unfolding callback_events
  callback_events_lem client value callbacks (success bytes) = refl
  callback_events_lem client value callbacks (failure timeout) = refl
  callback_events_lem client next_key callbacks (success bytes) = refl
  callback_events_lem client next_key callbacks (failure timeout) = refl

  -- The client when the first registration of the application's queue has had its answer.
  abbrev answered : DataClient K → List ℕ → Answer K → List (Registration K) → DataClient K
  answered client app a others =
      release_callback_queue
        (record client {
          events =
              client.events
              ++ events_of (client.lock_release_ms) (client.range_lock_release_ms) (a.kind)
                  (a.callbacks) (a.outcome);
        })
        app
        (record {
          oids_callback = (acquire_callback_queue client app).oids_callback;
          callback_registrations = others;
        })

  process_lem :
      (client : DataClient K) (queue : CallbackQueue K) (opcode : ℕ) (response : Response)
      (r : Registration K) (others : List (Registration K))
      → queue.callback_registrations ≡ r ∷ others
      → process_queued_callback client queue opcode response ≡ (
        record client {
          events = client.events ++ callback_events client opcode r (response.outcome);
        },
        record { oids_callback = queue.oids_callback; callback_registrations = others },
      )
  unfolding process_queued_callback
  process_lem client queue opcode response r others waiting =
      rw (process_queued_callback, waiting) refl

  dispatch_reply_lem :
      (client : DataClient K) (app : List ℕ) (kind : Kind) (callbacks : K) (store : List ℕ)
      (outcome : Outcome) (others : List (Registration K))
      → let a : Answer K = record {
        kind = kind;
        callbacks = callbacks;
        store = store;
        outcome = outcome;
      } in
        HasNoNul app
        → IsValidAnswer a
        → (acquire_callback_queue client app).callback_registrations ≡ registration_of a ∷ others
        → dispatch_reply client (response_opcode kind) (response_write (response_of app a) [])
          ≡ some (answered client app a others)
  unfolding dispatch_reply dispatch_value_response dispatch_next_key_response received_value
      received_next_key
  dispatch_reply_lem client app value callbacks store outcome others named valid waiting =
      let a : Answer K = record {
        kind = value;
        callbacks = callbacks;
        store = store;
        outcome = outcome;
      } in
      rw
        (
          dispatch_reply,
          dispatch_value_response,
          decode_lem app store outcome named valid.0 valid.1,
          response_free_lem app store outcome valid.2,
          received_value,
          waiting,
          process_lem client (acquire_callback_queue client app) op_value_response
              (response_of app a) (registration_of a) others waiting,
          callback_events_lem client value callbacks outcome,
        )
        refl
  dispatch_reply_lem client app next_key callbacks store outcome others named valid waiting =
      let a : Answer K = record {
        kind = next_key;
        callbacks = callbacks;
        store = store;
        outcome = outcome;
      } in
      rw
        (
          dispatch_reply,
          dispatch_next_key_response,
          decode_lem app store outcome named valid.0 valid.1,
          response_free_lem app store outcome valid.2,
          received_next_key,
          waiting,
          process_lem client (acquire_callback_queue client app) op_next_key_response
              (response_of app a) (registration_of a) others waiting,
          callback_events_lem client next_key callbacks outcome,
        )
        refl

  acquire_lem :
      (client : DataClient K) (app : List ℕ) (queue : CallbackQueue K)
      → acquire_callback_queue (release_callback_queue client app queue) app ≡ queue
  unfolding acquire_callback_queue release_callback_queue
  acquire_lem client app queue = rw (acquire_callback_queue, str_equal_refl app) refl

  acquire_other :
      (client : DataClient K) (events : List (Event K)) (app other : List ℕ)
      (queue : CallbackQueue K)
      → str_equal app other ≡ false
      → acquire_callback_queue
          (release_callback_queue (record client { events = events }) app queue)
          other
        ≡ acquire_callback_queue client other
  unfolding acquire_callback_queue release_callback_queue
  acquire_other client events app other queue differ = rw (acquire_callback_queue, differ) refl

  abbrev registrations_of : List (Answer K) → List (Registration K)
  registrations_of answers = map registration_of answers

  -- Responses for an application, to the requests at the front of its queue and in their order, are
  -- decoded and given to these requests' callbacks, each once and in order, and the queue keeps the
  -- requests behind them; the names hold no NUL, a value has from 1 to 2^15 - 1 bytes and a
  -- refusal has no seconds and less than 2^31 microseconds.
  pub dispatch_replies_lem :
      (answers : List (Answer K)) (client : DataClient K) (app : List ℕ)
      (others : List (Registration K))
      → HasNoNul app
      → All IsValidAnswer answers
      → (acquire_callback_queue client app).callback_registrations
        ≡ registrations_of answers ++ others
      → (client' : DataClient K) × (dispatch_replies client app answers ≡ some client')
        × (client'.events
            ≡ client.events
              ++ all_events (client.lock_release_ms) (client.range_lock_release_ms) answers)
        × ((acquire_callback_queue client' app).callback_registrations ≡ others)
        × ((other : List ℕ)
            → str_equal app other ≡ false
            → acquire_callback_queue client' other ≡ acquire_callback_queue client other)
  unfolding release_callback_queue
  dispatch_replies_lem [] client app others named valid waiting =
      (client, refl, sym (append-nil (client.events)), waiting, λ other differ. refl)
  dispatch_replies_lem (a ∷ answers) client app others named valid waiting =
      let lock_ms = client.lock_release_ms in
      let range_ms = client.range_lock_release_ms in
      let queue : CallbackQueue K = record {
        oids_callback = (acquire_callback_queue client app).oids_callback;
        callback_registrations = registrations_of answers ++ others;
      } in
      let between = answered client app a (registrations_of answers ++ others) in
      let first =
        dispatch_reply_lem client app (a.kind) (a.callbacks) (a.store) (a.outcome)
          (registrations_of answers ++ others) named valid.0 waiting in
      let left = ap (λ q. q.callback_registrations) (acquire_lem _ app queue) in
      let (client', rest, events, queued, untouched) =
        dispatch_replies_lem answers between app others named valid.1 left in
      (
        client',
        rw first rest,
        events
            ∙ append_assoc (client.events)
                (events_of lock_ms range_ms (a.kind) (a.callbacks) (a.outcome)) _,
        queued,
        λ other differ.
            untouched other differ
            ∙ acquire_other client
                (client.events ++ events_of lock_ms range_ms (a.kind) (a.callbacks) (a.outcome)) app
                other queue differ,
      )
