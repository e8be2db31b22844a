-- ===== src/DataStores/Connected.antt =====
-- gzochi-server/src/dataclient.c, socket.c, dataserver-protocol.c and dataserver.c together: from the
-- functions of the data client to the stores of the data server.
use Prim.Native.Nat.{Ordering}
use gnu_gzochi.Base.{ℕ, ◌+◌, ◌≡◌, refl, ap, ◌∙◌, Option, none, some, List, [], ◌∷◌, All, ◌>>=◌}
use gnu_gzochi.Timeval.{Timeval}
use gnu_gzochi.DataServer.{DataserverClient, dispatch_request, client_error}
use gnu_gzochi.Frame.{done}
use gnu_gzochi.Socket.{ReadResult, ClientSocket}
use gnu_gzochi.Socket.Receive.{IsCalm, all_arrived, receive_all, framed}
use gnu_gzochi.DataClient.{DataClient}
use gnu_gzochi.DataClient.Remote.{Request, perform}
use gnu_gzochi.DataClient.Connection.{
  IsSendable, issue_all, requests_of, perform_all, connection-perform_all,
}
use gnu_gzochi.Lock.{IntervalTree}
use gnu_gzochi.Storage.{StorageEngine}
use gnu_gzochi.DataStores.Reach.{serve, serve_all}
use gnu_gzochi.DataStores.Hosted.{Host, data_server, served, served_all, perform-serve}

>>=-some : {A : Type 0} (o : Option A) → o ≡ (o >>= some)
>>=-some none = refl
>>=-some (some a) = refl

>>=-assoc :
    {A B D : Type 0} (o : Option A) (f : A → Option B) (g : B → Option D)
    → ((o >>= f) >>= g) ≡ (o >>= λ a. f a >>= g)
>>=-assoc none f g = refl
>>=-assoc (some a) f g = refl

module _ {C X T K : Type 0} (cmp : List ℕ → List ℕ → Ordering) (tree : IntervalTree (List ℕ) T)
    (engine : StorageEngine C X) (tree_new : T) (now : ℕ → Timeval) (unset : ℕ → ℕ) where
  perform_all-serve_all :
      (requests : List (Request × K)) (client : DataserverClient (Host C T))
      → (perform_all
          (data_server cmp tree engine tree_new now unset)
          client
          requests).dataserver.running
        ≡ (client.dataserver.running
            >>= serve_all cmp tree engine tree_new (
                served_all cmp tree engine tree_new now unset
                  (client.node_id)
                  (client.dataserver.calls)
                  (requests_of requests)))
  perform_all-serve_all [] client = >>=-some (client.dataserver.running)
  perform_all-serve_all ((r, k) ∷ requests) client =
      let server = data_server cmp tree engine tree_new now unset in
      let (left, node) = perform-serve cmp tree engine tree_new now unset client r in
      let later = λ (node_id : ℕ) (host : Host C T).
        (host.running
          >>= serve_all cmp tree engine tree_new (
              served_all cmp tree engine tree_new now unset node_id (host.calls)
                (requests_of requests))) in
      perform_all-serve_all requests (perform server client r)
      ∙ ap (λ n. later n ((perform server client r).dataserver)) node
      ∙ ap (later (client.node_id)) left
      ∙ >>=-assoc (client.dataserver.running)
          (serve cmp tree engine tree_new (
            served cmp tree engine tree_new now unset (client.node_id) (client.dataserver.calls) r))
          (serve_all cmp tree engine tree_new (
            served_all cmp tree engine tree_new now unset (client.node_id)
              (client.dataserver.calls + 1) (requests_of requests)))

  -- The valid requests that a data client issues on a new connection, each with a payload of at most
  -- 65532 bytes, leave the data server with the locks and stores that serving them one after the
  -- other, as requests of the connection's node, leaves, however the bytes of the connection are cut
  -- into reads; and the data server crashes on the connection exactly if one of them crashes it.
  pub connection-serve_all :
      (requests : List (Request × K)) (client client' : DataClient K)
      (calls : List (List ReadResult)) (sock : ClientSocket (DataserverClient (Host C T)))
      → All (λ p. IsSendable p.0) requests
      → client.written ≡ []
      → issue_all client requests ≡ some client'
      → sock.recv_buffer ≡ []
      → All IsCalm calls
      → all_arrived calls ≡ client'.written
      → let server = data_server cmp tree engine tree_new now unset in
        let host = sock.protocol_data.dataserver in
        (after : DataserverClient (Host C T)) × (receive_all
            (framed (dispatch_request server) (client_error server))
            calls
            sock
          ≡ done (record sock { recv_buffer = []; protocol_data = after }))
        × (after.dataserver.running ≡ (
            host.running
            >>= serve_all cmp tree engine tree_new (
                served_all cmp tree engine tree_new now unset
                  (sock.protocol_data.node_id)
                  (host.calls)
                  (requests_of requests))))
  connection-serve_all requests client client' calls sock sendable fresh issued empty calm sent =
      let server = data_server cmp tree engine tree_new now unset in
      (
        perform_all server (sock.protocol_data) requests,
        connection-perform_all server requests client client' calls sock sendable fresh issued empty
            calm sent,
        perform_all-serve_all requests (sock.protocol_data),
      )
