-- ===== src/Tests/Hosted.antt =====
-- gzochi-server/src/dataclient.c, dataserver-protocol.c and dataserver.c together, at a concrete input:
-- node 1 asks for the key 7 of "oids", to write it, and releases it.
use gnu_gzochi.Base.{ℕ, ◌≡◌, refl, true, some, List, [], ◌∷◌, ◌++◌, length, arith, ◌>>=◌}
use gnu_gzochi.Io.{write_short}
use gnu_gzochi.Frame.{done, format_message}
use gnu_gzochi.Socket.{ClientSocket, no_source}
use gnu_gzochi.Socket.Receive.{receive_all, framed}
use gnu_gzochi.Lock.{RangeLock}
use gnu_gzochi.Storage.{View}
use gnu_gzochi.DataServer.{DataserverClient, dispatch_request, client_error}
use gnu_gzochi.DataClient.{
  DataClient, release_callback_queue, dataclient_request_value, dataclient_release_key,
  write_message, request_value_payload, release_key_payload, register,
}
use gnu_gzochi.DataClient.Remote.{Request, request_value, release_key}
use gnu_gzochi.DataClient.Connection.{requests_of}
use gnu_gzochi.DataStores.Reach.{serve_all}
use gnu_gzochi.DataStores.Hosted.{Host, data_server, served_all}
use gnu_gzochi.DataStores.Connected.{connection-serve_all}
use gnu_gzochi.Tests.Stores.{bytes_compare, byte_ranges, engine, app_name, oids, at}
use gnu_gzochi.Tests.Connections.{got, new_client}

abbrev requests : List (Request × ℕ)
requests =
    (request_value app_name oids (7 ∷ []) true, 3) ∷ (release_key app_name oids (7 ∷ []), 0) ∷ []

abbrev issued : DataClient ℕ
issued =
    dataclient_release_key (dataclient_request_value new_client app_name oids (7 ∷ []) true 3)
      app_name oids (7 ∷ [])

abbrev first_bytes : List ℕ
first_bytes = 0 ∷ 11 ∷ 33 ∷ 97 ∷ 0 ∷ 111 ∷ 105 ∷ []

abbrev later_bytes : List ℕ
later_bytes =
    100 ∷ 115 ∷ 0 ∷ 1 ∷ 0 ∷ 1 ∷ 7 ∷ 0 ∷ 10 ∷ 64 ∷ 97 ∷ 0 ∷ 111 ∷ 105 ∷ 100 ∷ 115 ∷ 0 ∷ 0 ∷ 1 ∷ 7
    ∷ []

issued_bytes : first_bytes ++ later_bytes ≡ issued.written
unfolding dataclient_request_value dataclient_release_key release_callback_queue register
    write_message request_value_payload release_key_payload format_message write_short
issued_bytes = refl

value_payload_short : length (request_value_payload app_name oids (7 ∷ []) true) ≡ 11
unfolding request_value_payload write_short
value_payload_short = refl

release_payload_short : length (release_key_payload app_name oids (7 ∷ [])) ≡ 10
unfolding release_key_payload write_short
release_payload_short = refl

abbrev new_host : Host View (List (RangeLock (List ℕ)))
new_host = record { running = some []; calls = 0 }

abbrev new_socket : ClientSocket (DataserverClient (Host View (List (RangeLock (List ℕ)))))
new_socket = record {
  send_buffer = [];
  recv_buffer = [];
  write_source = no_source;
  has_server = true;
  protocol_data = record { node_id = 1; dataserver = new_host; written = [] };
}

connection-serve_all_example :
    let server = data_server bytes_compare byte_ranges engine [] (λ n. at) (λ n. 0) in
    (after : DataserverClient (Host View (List (RangeLock (List ℕ))))) × (receive_all
        (framed (dispatch_request server) (client_error server))
        ((got first_bytes ∷ []) ∷ (got later_bytes ∷ []) ∷ [])
        new_socket
      ≡ done (record new_socket { recv_buffer = []; protocol_data = after }))
    × (after.dataserver.running ≡ (
        some []
        >>= serve_all bytes_compare byte_ranges engine [] (
            served_all bytes_compare byte_ranges engine []
              (λ n. at)
              (λ n. 0)
              1
              0
              (requests_of requests))))
connection-serve_all_example =
    connection-serve_all bytes_compare byte_ranges engine [] (λ n. at) (λ n. 0) requests new_client
      issued ((got first_bytes ∷ []) ∷ (got later_bytes ∷ []) ∷ []) new_socket
      (
        (omega arith, rw value_payload_short (omega arith)),
        ((omega arith, rw release_payload_short (omega arith)), tt),
      )
      refl refl refl ((((refl, refl), tt), ((((refl, refl), tt), tt)))) issued_bytes
