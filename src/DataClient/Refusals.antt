-- ===== src/DataClient/Refusals.antt =====
-- gzochi-server/src/dataclient-protocol.c and data-protocol.c: a refusal with a time to wait.
use gnu_gzochi.Base.{ℕ, ◌^◌, ◌<◌, ◌≡◌, refl, false, none, List, [], arith, ◌==◌}
use gnu_gzochi.Timeval.{Timeval}
use gnu_gzochi.Util.RoundTrip.{HasNoNul}
use gnu_gzochi.DataProtocol.{failure, response_write}
use gnu_gzochi.DataClient.{DataClient}
use gnu_gzochi.DataClient.Responses.{
  response_free, dispatch_reply, dispatch_value_response, dispatch_next_key_response,
}
use gnu_gzochi.DataClient.Queues.{Kind, value, next_key, response_opcode, decode_lem}

-- A refusal of a value or a key that tells the client to wait for a second or more, with a time that
-- fits 32-bit integers and names without NUL, makes the client follow a pointer that points nowhere,
-- whatever the client waits for.
pub dispatch_reply_crashes {ℓ} :
    {K : Type ℓ} (client : DataClient K) (kind : Kind) (app store : List ℕ) (timeout : Timeval)
    → HasNoNul app
    → HasNoNul store
    → 0 < timeout.tv_sec
    → timeout.tv_sec < 2 ^ 31
    → timeout.tv_usec < 2 ^ 31
    → dispatch_reply client
        (response_opcode kind)
        (response_write (record { app = app; store = store; outcome = failure timeout }) [])
      ≡ none
unfolding dispatch_reply dispatch_value_response dispatch_next_key_response response_free
dispatch_reply_crashes client value app store timeout named stored late fits fits' =
    let waits : (timeout.tv_sec == 0) ≡ false = ground arith in
    rw
      (
        dispatch_reply,
        dispatch_value_response,
        decode_lem app store (failure timeout) named stored (fits, fits'),
        response_free,
        waits,
      )
      refl
dispatch_reply_crashes client next_key app store timeout named stored late fits fits' =
    let waits : (timeout.tv_sec == 0) ≡ false = ground arith in
    rw
      (
        dispatch_reply,
        dispatch_next_key_response,
        decode_lem app store (failure timeout) named stored (fits, fits'),
        response_free,
        waits,
      )
      refl
