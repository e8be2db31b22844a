-- ===== src/Socket.antt =====
-- gzochi-server/src/socket.c: the client sockets, which buffer what arrives until the protocol can
-- dispatch it, and what is to be sent until the channel takes it. What GLib's calls on the channel
-- return is given by lists of results, one for each call; a list that ends stands for a channel that
-- has nothing more to give or to take for the moment.
pub mod Receive
pub mod Send
pub mod Drain
use gnu_gzochi.Base.{
  ℕ, zero, suc, ◌+◌, Bool, true, false, ◌&&◌, Option, none, some, List, [], ◌∷◌, ◌++◌, length,
  if◌then◌else◌, ltb, drop, take,
}
use gnu_gzochi.Util.{remove_range}
use gnu_gzochi.Frame.{Run, done, undefined, stuck}

-- `GIOStatus`.
pub data Status : Type 0 where
  normal again eof io_error : Status

-- The result of `g_io_channel_read_chars`: the bytes, and whether `error` is set.
pub record ReadResult : Type 0 where
  pub bytes : List ℕ
  pub status : Status
  pub has_error : Bool

-- The result of `g_io_channel_write_chars`.
pub record WriteResult : Type 0 where
  pub written : ℕ
  pub status : Status
  pub has_error : Bool

-- The watch for a channel that can be written: none, one that the main loop has, or one that the
-- main loop has dropped since its callback returned `FALSE`.
pub data WriteSource : Type 0 where
  no_source attached detached : WriteSource

-- `GIOCondition`.
pub data Condition : Type 0 where
  io_in io_pri io_err io_hup io_other : Condition

-- `gzochid_client_protocol`; the data that the functions are called with is the state `S`.
pub record ClientProtocol {ℓ} (S : Type ℓ) : Type ℓ where
  pub can_dispatch : S → List ℕ → Bool
  pub dispatch : S → List ℕ → Run (S × ℕ)
  pub error : S → S

-- `has_server` is whether the `server` of the socket is set.
pub record ClientSocket {ℓ} (S : Type ℓ) : Type ℓ where
  pub send_buffer : List ℕ
  pub recv_buffer : List ℕ
  pub write_source : WriteSource
  pub has_server : Bool
  pub protocol_data : S

-- The loop that writes: whether it got to its end, what the channel took, and what is left.
unfoldable pub write_loop : List WriteResult → List ℕ → Bool × List ℕ × List ℕ
write_loop [] send_buffer = (true, [], send_buffer)
write_loop (r ∷ results) send_buffer =
    let sent = take (r.written) send_buffer in
    let left = drop (r.written) send_buffer in
    if r.has_error then (false, sent, left) else elim (r.status) [
      | normal ↦ elim (ltb 0 (length left)) [
        | true ↦ let (ended, more, rest) = write_loop results left in (ended, sent ++ more, rest)
        | false ↦ (true, sent, left)
      ]
      | _ ↦ (true, sent, left)
    ]

module _ {ℓ} {S : Type ℓ} where
  unfoldable pub client_socket_new : S → ClientSocket S
  client_socket_new protocol_data = record {
    send_buffer = [];
    recv_buffer = [];
    write_source = no_source;
    has_server = false;
    protocol_data = protocol_data;
  }

  -- The main loop of the server watches the channel for what arrives.
  unfoldable pub add_client : ClientSocket S → ClientSocket S
  add_client sock = record sock { has_server = true }

  unfoldable pub dispatch_client_error : ClientProtocol S → ClientSocket S → Bool × ClientSocket S
  dispatch_client_error protocol sock =
      (false, record sock { protocol_data = protocol.error (sock.protocol_data) })

  unfoldable pub fill_recv_buffer :
      ClientProtocol S → List ReadResult → ClientSocket S → Bool × ClientSocket S
  fill_recv_buffer protocol [] sock = (true, sock)
  fill_recv_buffer protocol (r ∷ results) sock =
      let sock' : ClientSocket S = record sock { recv_buffer = sock.recv_buffer ++ r.bytes } in
      if r.has_error then (false, sock') else elim (r.status) [
        | normal ↦ fill_recv_buffer protocol results sock'
        | eof ↦ dispatch_client_error protocol sock'
        | again ↦ (true, sock')
        | io_error ↦ (true, sock')
      ]

  -- The loop of `dispatch_client_read`, whose rounds each take a byte at least.
  unfoldable pub dispatch_buffered : ℕ → ClientProtocol S → ClientSocket S → Run (ClientSocket S)
  dispatch_buffered zero protocol sock = stuck
  dispatch_buffered (suc fuel) protocol sock =
      elim (ltb 0 (length (sock.recv_buffer))
        && protocol.can_dispatch (sock.protocol_data) (sock.recv_buffer)) [
          | false ↦ done sock
          | true ↦ elim (protocol.dispatch (sock.protocol_data) (sock.recv_buffer)) [
            | stuck ↦ stuck
            | undefined ↦ undefined
            | done (data', num) ↦ elim (ltb 0 num) [
              | false ↦ done (record sock { protocol_data = data' })
              | true ↦ elim (remove_range num (sock.recv_buffer)) [
                | none ↦ undefined
                | some rest ↦
                    dispatch_buffered fuel protocol
                      (record sock { protocol_data = data'; recv_buffer = rest })
              ]
            ]
          ]
        ]

  unfoldable pub dispatch_client_read :
      ClientProtocol S → List ReadResult → ClientSocket S → Run (Bool × ClientSocket S)
  dispatch_client_read protocol results sock =
      let (filled, sock') = fill_recv_buffer protocol results sock in
      if filled
      then elim (dispatch_buffered (suc (length (sock'.recv_buffer))) protocol sock') [
        | done sock'' ↦ done (true, sock'')
        | undefined ↦ undefined
        | stuck ↦ stuck
      ]
      else done (false, sock')

  -- `destroyed` is whether the source has been destroyed already.
  unfoldable pub dispatch_client :
      ClientProtocol S
      → Bool
      → Condition
      → List ReadResult
      → ClientSocket S
      → Run (Bool × ClientSocket S)
  dispatch_client protocol true condition results sock = done (false, sock)
  dispatch_client protocol false io_in results sock = dispatch_client_read protocol results sock
  dispatch_client protocol false io_pri results sock = dispatch_client_read protocol results sock
  dispatch_client protocol false io_err results sock = done (dispatch_client_error protocol sock)
  dispatch_client protocol false io_hup results sock = done (dispatch_client_error protocol sock)
  dispatch_client protocol false io_other results sock = done (false, sock)

  -- The flag that the callback returns, what the channel took, and the socket.
  unfoldable pub dispatch_client_write :
      Bool → List WriteResult → ClientSocket S → Bool × List ℕ × ClientSocket S
  dispatch_client_write true results sock = (false, [], sock)
  dispatch_client_write false results sock =
      let (ended, sent, left) = write_loop results (sock.send_buffer) in
      let sock' : ClientSocket S = record sock { send_buffer = left } in
      if ended
      then (
        true,
        sent,
        if ltb 0 (length left) then sock' else record sock' { write_source = no_source },
      )
      else (false, sent, record sock' { write_source = detached })

  -- `none` is a failed assertion.
  unfoldable pub client_socket_write : List ℕ → ClientSocket S → Option (ClientSocket S)
  client_socket_write bytes sock =
      let sock' : ClientSocket S = record sock { send_buffer = sock.send_buffer ++ bytes } in
      let watched : ClientSocket S = elim (sock.write_source) [
        | no_source ↦ record sock' { write_source = attached }
        | attached ↦ sock'
        | detached ↦ sock'
      ] in
      if sock.has_server then some watched else none
