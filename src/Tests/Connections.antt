-- ===== src/Tests/Connections.antt =====
-- gzochi-server/src/socket.c, dataclient.c and dataserver-protocol.c at concrete inputs.
use gnu_gzochi.Base.{
  str_equal, ℕ, ◌≡◌, refl, true, false, none, some, List, [], ◌∷◌, ◌++◌, arith, inl, length,
}
use gnu_gzochi.Io.{write_short}
use gnu_gzochi.DataProtocol.{success, failure, response_write}
use gnu_gzochi.Frame.{done, format_message}
use gnu_gzochi.Socket.{
  ReadResult, normal, WriteResult, again, ClientSocket, no_source, attached, client_socket_new,
  client_socket_write, add_client,
}
use gnu_gzochi.Socket.Receive.{receive_all, framed, receive_all-stream}
use gnu_gzochi.Socket.Send.{
  Sending, Reach, here, next, connect, write, flush, fresh, connected, flushed,
  Reach-fresh-IsInOrder,
}
use gnu_gzochi.Socket.Drain.{IsProgress, pump, pump_sends}
use gnu_gzochi.DataServer.{DataServer, DataserverClient, dispatch_request, client_error}
use gnu_gzochi.DataClient.{
  DataClient, CallbackQueue, succeeded, release_scheduled, acquire_callback_queue,
  dataclient_release_key, write_message, release_key_payload,
}
use gnu_gzochi.DataClient.Remote.{Request, release_key}
use gnu_gzochi.DataClient.Connection.{issue_all, connection-perform_all}
use gnu_gzochi.DataClient.Queues.{
  Answer, value, dispatch_replies, dispatch_replies_lem, registration_of, response_opcode,
}
use gnu_gzochi.DataClient.Responses.{dispatch_reply}
use gnu_gzochi.DataClient.Refusals.{dispatch_reply_crashes}

abbrev pub got : List ℕ → ReadResult
got bytes = record { bytes = bytes; status = normal; has_error = false }

abbrev record_all : List ℕ → ℕ → List ℕ → List ℕ
record_all seen opcode payload = seen ++ opcode ∷ payload

abbrev quiet : ClientSocket (List ℕ)
quiet = record {
  send_buffer = [];
  recv_buffer = [];
  write_source = no_source;
  has_server = true;
  protocol_data = [];
}

-- Two messages, in three reads over two calls, with a byte of a third.
receive_all-stream_example :
    receive_all
      (framed record_all (λ s. s))
      ((got (0 ∷ []) ∷ []) ∷ (got (1 ∷ 32 ∷ []) ∷ got (97 ∷ 0 ∷ 0 ∷ 64 ∷ 0 ∷ []) ∷ []) ∷ [])
      quiet
    ≡ done (record quiet { recv_buffer = 0 ∷ []; protocol_data = 32 ∷ 97 ∷ 64 ∷ [] })
receive_all-stream_example =
    receive_all-stream record_all (λ s. s)
      ((got (0 ∷ []) ∷ []) ∷ (got (1 ∷ 32 ∷ []) ∷ got (97 ∷ 0 ∷ 0 ∷ 64 ∷ 0 ∷ []) ∷ []) ∷ [])
      (record { opcode = 32; payload = 97 ∷ [] } ∷ record { opcode = 64; payload = [] } ∷ [])
      (0 ∷ []) quiet ((((refl, refl), tt), ((((refl, refl), ((refl, refl), tt)), tt))))
      (omega arith) (inl (omega arith)) (inl (omega arith)) refl

abbrev takes : ℕ → WriteResult
takes n = record { written = n; status = again; has_error = false }

abbrev begun : Sending (List ℕ)
begun = record {
  sock = record {
    send_buffer = 1 ∷ 2 ∷ 3 ∷ [];
    recv_buffer = [];
    write_source = attached;
    has_server = true;
    protocol_data = [];
  };
  given = 1 ∷ 2 ∷ 3 ∷ [];
  sent = [];
}

begun_reached : Reach (fresh []) begun
unfolding client_socket_new client_socket_write add_client
begun_reached =
    next (next here (connect (fresh [])))
      (write (connected (fresh [])) (1 ∷ 2 ∷ 3 ∷ []) (begun.sock) refl)

Reach-fresh-IsInOrder_example :
    ((flushed (takes 2 ∷ []) begun).sent ++ (flushed (takes 2 ∷ []) begun).sock.send_buffer
      ≡ (flushed (takes 2 ∷ []) begun).given)
    × ((flushed (takes 2 ∷ []) begun).sock.write_source ≡ no_source
        → (flushed (takes 2 ∷ []) begun).sock.send_buffer ≡ [])
Reach-fresh-IsInOrder_example =
    Reach-fresh-IsInOrder [] (next begun_reached (flush begun (takes 2 ∷ []) refl))

one : IsProgress (takes 1 ∷ [])
one = (omega arith, ((refl, tt)))

pump_sends_example :
    ((pump ((takes 1 ∷ []) ∷ (takes 1 ∷ []) ∷ (takes 1 ∷ []) ∷ []) begun).sent ≡ begun.given)
    × ((pump ((takes 1 ∷ []) ∷ (takes 1 ∷ []) ∷ (takes 1 ∷ []) ∷ []) begun).sock.send_buffer ≡ [])
pump_sends_example =
    pump_sends ((takes 1 ∷ []) ∷ (takes 1 ∷ []) ∷ (takes 1 ∷ []) ∷ []) begun
      (Reach-fresh-IsInOrder [] begun_reached) (λ p. cc) (one, ((one, ((one, tt))))) (omega arith)

-- A data server whose state is the list of the keys that were released.
abbrev keys_server : DataServer (List (List ℕ))
keys_server = record {
  reserve_oids =
      λ d node app. (d, record { app = app; block = record { block_start = 0; block_size = 0 } });
  request_value = λ d node app store key for_write. (d, none);
  request_next_key = λ d node app store key. (d, none);
  process_changeset = λ d node changeset. (d, true);
  release_key = λ d node app store key. d ++ key ∷ [];
  release_range = λ d node app store from to. d;
  release_all = λ d node. d;
}

abbrev server_side : ClientSocket (DataserverClient (List (List ℕ)))
server_side = record {
  send_buffer = [];
  recv_buffer = [];
  write_source = no_source;
  has_server = true;
  protocol_data = record { node_id = 1; dataserver = []; written = [] };
}

-- A callback is a number.
abbrev pub new_client : DataClient ℕ
new_client = record {
  lock_release_ms = 50;
  range_lock_release_ms = 70;
  application_callback_queues = λ app. none;
  written = [];
  events = [];
}

abbrev releases : List (Request × ℕ)
releases = (release_key (97 ∷ []) (115 ∷ []) (7 ∷ []), 0) ∷ []

abbrev release_bytes : List ℕ
release_bytes = 0 ∷ 7 ∷ 64 ∷ 97 ∷ 0 ∷ 115 ∷ 0 ∷ 0 ∷ 1 ∷ 7 ∷ []

releases_issued :
    issue_all new_client releases ≡ some (record new_client { written = release_bytes })
unfolding dataclient_release_key write_message release_key_payload format_message write_short
releases_issued = refl

releases_short : length (release_key_payload (97 ∷ []) (115 ∷ []) (7 ∷ [])) ≡ 7
unfolding release_key_payload write_short
releases_short = refl

connection-perform_all_example :
    receive_all
      (framed (dispatch_request keys_server) (client_error keys_server))
      ((got (0 ∷ 7 ∷ 64 ∷ 97 ∷ []) ∷ []) ∷ (got (0 ∷ 115 ∷ 0 ∷ 0 ∷ 1 ∷ 7 ∷ []) ∷ []) ∷ [])
      server_side
    ≡ done (record server_side {
      protocol_data = record { node_id = 1; dataserver = (7 ∷ []) ∷ []; written = [] };
    })
connection-perform_all_example =
    connection-perform_all keys_server releases new_client
      (record new_client { written = release_bytes })
      ((got (0 ∷ 7 ∷ 64 ∷ 97 ∷ []) ∷ []) ∷ (got (0 ∷ 115 ∷ 0 ∷ 0 ∷ 1 ∷ 7 ∷ []) ∷ []) ∷ [])
      server_side ((omega arith, rw releases_short (omega arith)), tt) refl releases_issued refl
      ((((refl, refl), tt), ((((refl, refl), tt), tt)))) refl

abbrev waiting_queue : CallbackQueue ℕ
waiting_queue = record {
  oids_callback = none;
  callback_registrations =
      record { expected_opcode = 0x51; callbacks = 1 }
      ∷ record { expected_opcode = 0x52; callbacks = 2 }
      ∷ [];
}

abbrev waiting_client : DataClient ℕ
waiting_client = record new_client { application_callback_queues = λ app. some waiting_queue }

abbrev value_answer : Answer ℕ
value_answer = record {
  kind = value;
  callbacks = 1;
  store = 115 ∷ [];
  outcome = success (some (9 ∷ []));
}

waiting_lem :
    (acquire_callback_queue waiting_client (97 ∷ [])).callback_registrations
    ≡ registration_of value_answer ∷ record { expected_opcode = 0x52; callbacks = 2 } ∷ []
unfolding acquire_callback_queue
waiting_lem = refl

dispatch_replies_lem_example :
    (client' : DataClient ℕ) × (dispatch_replies waiting_client (97 ∷ []) (value_answer ∷ [])
      ≡ some client')
    × (client'.events ≡ succeeded 1 (some (9 ∷ [])) ∷ release_scheduled 1 50 ∷ [])
    × ((acquire_callback_queue client' (97 ∷ [])).callback_registrations
        ≡ record { expected_opcode = 0x52; callbacks = 2 } ∷ [])
    × ((other : List ℕ)
        → str_equal (97 ∷ []) other ≡ false
        → acquire_callback_queue client' other ≡ acquire_callback_queue waiting_client other)
dispatch_replies_lem_example =
    dispatch_replies_lem (value_answer ∷ []) waiting_client (97 ∷ [])
      (record { expected_opcode = 0x52; callbacks = 2 } ∷ []) (omega arith) (omega arith)
      waiting_lem

-- A refusal of an application "a" for a key of store "s", for one second.
dispatch_reply_crashes_example :
    dispatch_reply new_client (response_opcode value) (
      response_write
        (record {
          app = 97 ∷ [];
          store = 115 ∷ [];
          outcome = failure (record { tv_sec = 1; tv_usec = 0 });
        })
        [])
    ≡ none
dispatch_reply_crashes_example =
    dispatch_reply_crashes new_client value (97 ∷ []) (115 ∷ [])
      (record { tv_sec = 1; tv_usec = 0 }) (omega arith, tt) (omega arith, tt) (omega arith)
      (omega arith) (omega arith)
