-- ===== src/Socket/Receive.antt =====
-- gzochi-server/src/socket.c: a socket whose protocol frames its messages handles the same messages,
-- however the bytes of the stream are cut into reads.
use mathlib.Core.List.{append_assoc, append-nil}
use gnu_gzochi.Base.{
  ℕ, zero, suc, ◌<◌, ◌≡◌, refl, sym, ap, subst, All_split, ◌∙◌, true, false, ◌&&◌, List, [], ◌∷◌,
  ◌++◌, length, length-append, arith, All, ltb,
}
use gnu_gzochi.Util.RoundTrip.{remove_range-append}
use gnu_gzochi.Frame.{
  Run, done, undefined, stuck, can_dispatch, reading, dispatch_message, client_dispatch,
}
use gnu_gzochi.Frame.Stream.{
  Message, IsShort, IsIncomplete, frame, stream, handle_all, handle_all-append, can_dispatch-frame,
  can_dispatch-incomplete, client_dispatch-stream, reading-Handles,
}
use gnu_gzochi.Frame.Prefix.{stream_front}
use gnu_gzochi.Socket.{
  normal, ReadResult, ClientProtocol, ClientSocket, fill_recv_buffer, dispatch_buffered,
  dispatch_client_read, dispatch_client, io_in,
}

-- Reads that end since the channel has no more for the moment.
abbrev pub IsCalm : List ReadResult → Type 0
IsCalm = All (λ r. (r.has_error ≡ false) × (r.status ≡ normal))

abbrev pub arrived : List ReadResult → List ℕ
arrived [] = []
arrived (r ∷ results) = r.bytes ++ arrived results

abbrev pub all_arrived : List (List ReadResult) → List ℕ
all_arrived [] = []
all_arrived (results ∷ later) = arrived results ++ all_arrived later

nothing_complete :
    (ms : List Message) (tail t : List ℕ)
    → All IsShort ms
    → IsIncomplete t
    → t ≡ stream ms ++ tail
    → (ms ≡ []) × (t ≡ tail)
nothing_complete [] tail t short incomplete e = (refl, e)
nothing_complete (m ∷ ms) tail t short incomplete e =
    let waits = can_dispatch-incomplete t incomplete in
    let ready = can_dispatch-frame m (stream ms ++ tail) short.0 in
    absurd (cc (ap can_dispatch (e ∙ append_assoc (frame m) (stream ms) tail)))

module _ {ℓ} {S : Type ℓ} where
  -- The calls that the main loop makes when the channel can be read.
  abbrev pub receive_all :
      ClientProtocol S → List (List ReadResult) → ClientSocket S → Run (ClientSocket S)
  receive_all protocol [] sock = done sock
  receive_all protocol (results ∷ later) sock =
      elim (dispatch_client protocol false io_in results sock) [
        | done (kept, sock') ↦ receive_all protocol later sock'
        | undefined ↦ undefined
        | stuck ↦ stuck
      ]

  -- The protocol of a switch over the opcode of framed messages.
  abbrev pub framed : (S → ℕ → List ℕ → S) → (S → S) → ClientProtocol S
  framed switch error = record {
    can_dispatch = λ s buffer. can_dispatch buffer;
    dispatch = client_dispatch (dispatch_message (reading switch));
    error = error;
  }

  fill_recv_buffer_lem :
      (protocol : ClientProtocol S) (results : List ReadResult) (sock : ClientSocket S)
      → IsCalm results
      → fill_recv_buffer protocol results sock
        ≡ (true, record sock { recv_buffer = sock.recv_buffer ++ arrived results })
  unfolding fill_recv_buffer
  fill_recv_buffer_lem protocol [] sock calm = rw (append-nil (sock.recv_buffer)) refl
  fill_recv_buffer_lem protocol (r ∷ results) sock calm =
      let sock' : ClientSocket S = record sock { recv_buffer = sock.recv_buffer ++ r.bytes } in
      rw
        (
          calm.0.0,
          calm.0.1,
          fill_recv_buffer_lem protocol results sock' calm.1,
          append_assoc (sock.recv_buffer) (r.bytes) (arrived results),
        )
        refl

  module _ (switch : S → ℕ → List ℕ → S) (error : S → S) where
    dispatch_buffered-incomplete :
        (fuel : ℕ) (sock : ClientSocket S)
        → IsIncomplete (sock.recv_buffer)
        → dispatch_buffered (suc fuel) (framed switch error) sock ≡ done sock
    unfolding dispatch_buffered
    dispatch_buffered-incomplete fuel sock incomplete =
        let waits : (ltb 0 (length (sock.recv_buffer)) && can_dispatch (sock.recv_buffer)) ≡ false =
          ground (arith, can_dispatch-incomplete (sock.recv_buffer) incomplete) in
        rw (dispatch_buffered, waits) refl

    ready_lem :
        (m : Message) (rest : List ℕ)
        → IsShort m
        → (ltb 0 (length (frame m ++ rest)) && can_dispatch (frame m ++ rest)) ≡ true
    ready_lem m rest short = ground (arith, can_dispatch-frame m rest short)

    dispatch_buffered-stream :
        (fuel : ℕ) (ms : List Message) (tail : List ℕ) (sock : ClientSocket S)
        → length (stream ms) < suc fuel
        → All IsShort ms
        → IsIncomplete tail
        → dispatch_buffered
            (suc fuel)
            (framed switch error)
            (record sock { recv_buffer = stream ms ++ tail })
          ≡ done (record sock {
            recv_buffer = tail;
            protocol_data = handle_all switch (sock.protocol_data) ms;
          })
    unfolding dispatch_buffered
    dispatch_buffered-stream fuel [] tail sock enough short incomplete =
        dispatch_buffered-incomplete fuel (record sock { recv_buffer = tail }) incomplete
    dispatch_buffered-stream zero (m ∷ ms) tail sock enough short incomplete = absurd (omega arith)
    dispatch_buffered-stream (suc fuel) (m ∷ ms) tail sock enough short incomplete =
        let taken = stream (m ∷ ms) in
        let front : taken ++ tail ≡ frame m ++ (stream ms ++ tail) =
          append_assoc (frame m) (stream ms) tail in
        let ready : (ltb 0 (length (taken ++ tail)) && can_dispatch (taken ++ tail)) ≡ true =
          subst (λ buffer. (ltb 0 (length buffer) && can_dispatch buffer) ≡ true) (sym front)
            (ready_lem m (stream ms ++ tail) short.0) in
        let some_taken : ltb 0 (length taken) ≡ true = ground arith in
        let left : ClientSocket S = record sock {
          recv_buffer = tail;
          protocol_data = handle_all switch (sock.protocol_data) (m ∷ ms);
        } in
        rw
          (
            dispatch_buffered,
            ready,
            client_dispatch-stream (reading switch) switch (reading-Handles switch)
                (sock.protocol_data) (m ∷ ms) tail short incomplete,
            some_taken,
            remove_range-append taken tail (length taken) refl,
          )
          (dispatch_buffered-incomplete fuel left incomplete)

    receive_lem :
        (results : List ReadResult) (ms : List Message) (tail : List ℕ) (sock : ClientSocket S)
        → IsCalm results
        → All IsShort ms
        → IsIncomplete tail
        → sock.recv_buffer ++ arrived results ≡ stream ms ++ tail
        → dispatch_client (framed switch error) false io_in results sock
          ≡ done (
            true,
            record sock {
              recv_buffer = tail;
              protocol_data = handle_all switch (sock.protocol_data) ms;
            },
          )
    unfolding dispatch_client dispatch_client_read
    receive_lem results ms tail sock calm short incomplete e =
        let enough : length (stream ms) < suc (length (stream ms ++ tail)) =
          omega (arith, length-append (stream ms) tail) in
        rw
          (
            fill_recv_buffer_lem (framed switch error) results sock calm,
            e,
            dispatch_buffered-stream (length (stream ms ++ tail)) ms tail sock enough short
                incomplete,
          )
          refl

    -- However a stream of frames is cut into reads, and the reads into calls of the socket's
    -- callback, the messages whose frames are complete are handled in order, each once, and the
    -- bytes of the incomplete frame behind them are kept; the lengths of the messages with their
    -- opcodes fit an `unsigned short`, and the channel reports no error and no end.
    pub receive_all-stream :
        (calls : List (List ReadResult)) (ms : List Message) (tail : List ℕ) (sock : ClientSocket S)
        → All IsCalm calls
        → All IsShort ms
        → IsIncomplete tail
        → IsIncomplete (sock.recv_buffer)
        → sock.recv_buffer ++ all_arrived calls ≡ stream ms ++ tail
        → receive_all (framed switch error) calls sock
          ≡ done (record sock {
            recv_buffer = tail;
            protocol_data = handle_all switch (sock.protocol_data) ms;
          })
    receive_all-stream [] ms tail sock calm short incomplete begun e =
        let (none_complete, same) =
          nothing_complete ms tail (sock.recv_buffer) short begun
            (sym (append-nil (sock.recv_buffer)) ∙ e) in
        rw (none_complete, ← same) refl
    receive_all-stream (results ∷ later) ms tail sock calm short incomplete begun e =
        let sofar = sock.recv_buffer ++ arrived results in
        let (now, rest, t, e1, e2, inc, e3) =
          stream_front ms tail sofar (all_arrived later) short incomplete
            (append_assoc (sock.recv_buffer) (arrived results) (all_arrived later) ∙ e) in
        let (short_now, short_rest) = All_split IsShort now rest (rw (← e2) short) in
        let sock' : ClientSocket S = record sock {
          recv_buffer = t;
          protocol_data = handle_all switch (sock.protocol_data) now;
        } in
        rw
          (
            receive_all,
            receive_lem results now t sock calm.0 short_now inc e1,
            receive_all-stream later rest tail sock' calm.1 short_rest incomplete inc e3,
          )
          (ap {B = Run (ClientSocket S)}
            (λ protocol_data.
              done (record sock { recv_buffer = tail; protocol_data = protocol_data }))
            (sym (handle_all-append switch (sock.protocol_data) now rest)
              ∙ ap (handle_all switch (sock.protocol_data)) (sym e2)))
