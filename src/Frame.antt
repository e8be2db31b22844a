-- ===== src/Frame.antt =====
-- The framing of messages: `can_dispatch` and the loop of `client_dispatch`, which the protocols of
-- gzochi-server/src (dataclient-protocol.c, dataserver-protocol.c, metaclient-protocol.c,
-- metaserver-protocol.c and the session's and the channel's) all repeat word for word, and
-- `format_message`. A frame is a two-byte length of the payload, an opcode and the payload.
pub mod Stream
pub mod Prefix
pub mod Long
use gnu_gzochi.Base.{
  ℕ, zero, suc, ◌+◌, ◌-◌, ◌%◌, ◌^◌, Bool, true, false, Option, none, some, List, [], ◌∷◌, ◌++◌,
  length, replicate, if◌then◌else◌, ◌>>=◌, ltb, leb, drop, take, get_elem?, set,
}
use gnu_gzochi.Io.{read_short, write_short}

-- `undefined` is a read past the end of the buffer; `stuck` is no result of the code: the loop of
-- `client_dispatch` ran out of the rounds that it is given here.
pub data Run {ℓ} (A : Type ℓ) : Type ℓ where
  done : A → Run A
  undefined stuck : Run A

unfoldable pub can_dispatch : List ℕ → Bool
can_dispatch buffer =
    if leb 3 (length buffer)
    then elim (read_short buffer 0) [
      | none ↦ false
      | some payload_len ↦ leb (payload_len + 3) (length buffer)
    ]
    else false

module _ {ℓ} {S : Type ℓ} where
  -- A switch over the opcode changes the state of what the messages are for. It is called with a
  -- pointer to the payload, here the memory from there on, and with the length of the payload;
  -- `none` is a read past the end of the memory. The length of the message, an `unsigned short`,
  -- counts the opcode.
  unfoldable pub dispatch_message : (S → ℕ → List ℕ → ℕ → Option S) → S → List ℕ → ℕ → Option S
  dispatch_message switch s message len = do
    opcode ← get_elem? message 0
    switch s opcode (drop 1 message) ((len + 2 ^ 16 - 1) % 2 ^ 16)

  -- A switch whose handlers are known on payloads that are whole. Of a payload that the memory cuts
  -- short nothing is said of them but that they may read past its end.
  unfoldable pub reading : (S → ℕ → List ℕ → S) → S → ℕ → List ℕ → ℕ → Option S
  reading handle s opcode memory len =
      if leb len (length memory) then some (handle s opcode (take len memory)) else none

  -- The state, and the `total` of the bytes that have been taken.
  unfoldable pub dispatch_loop : ℕ → (S → List ℕ → ℕ → Option S) → S → List ℕ → ℕ → Run (S × ℕ)
  dispatch_loop zero dispatch s bytes total = stuck
  dispatch_loop (suc fuel) dispatch s bytes total = elim (ltb (length bytes) 3) [
    | true ↦ done (s, total)
    | false ↦ elim (read_short bytes 0) [
      | none ↦ undefined
      | some n ↦
          let len = (n + 1) % 2 ^ 16 in
          elim (ltb (length bytes - 2) len) [
            | true ↦ done (s, total)
            | false ↦ elim (dispatch s (drop 2 bytes) len) [
              | none ↦ undefined
              | some s' ↦ dispatch_loop fuel dispatch s' (drop (len + 2) bytes) (total + (len + 2))
            ]
          ]
    ]
  ]

  -- A round takes two bytes at least.
  unfoldable pub client_dispatch : (S → List ℕ → ℕ → Option S) → S → List ℕ → Run (S × ℕ)
  client_dispatch dispatch s buffer = dispatch_loop (suc (length buffer)) dispatch s buffer 0

unfoldable pub format_message : ℕ → List ℕ → List ℕ
format_message opcode payload =
    let buf = replicate (length payload + 3) 0 in
    let buf = write_short (length payload % 2 ^ 16) buf 0 in take 3 (set buf 2 opcode) ++ payload
