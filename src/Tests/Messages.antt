-- ===== src/Tests/Messages.antt =====
-- gzochi-server/src/data-protocol.c and the framing of messages at concrete inputs.
use gnu_gzochi.Base.{
  ℕ, ◌≡◌, ◌≤◌, refl, false, none, some, List, [], ◌∷◌, ◌++◌, arith, ◌>>=◌, map, replicate,
  if◌then◌else◌,
}
use gnu_gzochi.Io.{write_short}
use gnu_gzochi.DataProtocol.{
  write_bytes, Response, success, ReserveOidsResponse, response_write, reserve_oids_response_write,
  changeset_write,
}
use gnu_gzochi.DataProtocol.Read.{reserve_oids_response_read, changeset_read}
use gnu_gzochi.DataProtocol.Oids.{
  reserve_oids_response_read-write, reserve_oids_response_read_cut, is_readable,
}
use gnu_gzochi.DataProtocol.Changes.{Update, change_of}
use gnu_gzochi.DataProtocol.Changes.RoundTrip.{changeset_read-changeset_write}
use gnu_gzochi.Frame.{reading, can_dispatch, client_dispatch, dispatch_message}
use gnu_gzochi.Frame.Stream.{Message, stream, reading-Handles}
use gnu_gzochi.Frame.Long.{overrun, client_dispatch-overrun}

abbrev value_response : Response
value_response = record { app = 97 ∷ []; store = 98 ∷ []; outcome = success (some (7 ∷ 8 ∷ [])) }

response_write_runs : response_write value_response [] ≡ 97 ∷ 0 ∷ 98 ∷ 0 ∷ 1 ∷ 0 ∷ 2 ∷ 7 ∷ 8 ∷ []
unfolding response_write write_bytes write_short
response_write_runs = refl

-- The name has nine letters.
abbrev long_name : ReserveOidsResponse
long_name = record { app = replicate 9 97; block = record { block_start = 1000; block_size = 100 } }

reserve_oids_response_read-write_example :
    reserve_oids_response_read (reserve_oids_response_write long_name [])
    ≡ some (if is_readable 9 then some long_name else none)
reserve_oids_response_read-write_example =
    reserve_oids_response_read-write long_name (omega arith) (omega arith) (omega arith)
      (omega arith)

reserve_oids_rejects : is_readable 9 ≡ false
unfolding is_readable
reserve_oids_rejects = refl

reserve_oids_response_read_cut_example :
    reserve_oids_response_read (97 ∷ 0 ∷ 0 ∷ 0 ∷ 0 ∷ 0 ∷ 0 ∷ 0 ∷ 3 ∷ 232 ∷ []) ≡ none
reserve_oids_response_read_cut_example =
    reserve_oids_response_read_cut (97 ∷ []) 1000 (omega arith) (omega arith) (omega arith)

abbrev binding : Update
binding = record { store = 111 ∷ []; key = 1 ∷ 2 ∷ []; value = some (3 ∷ []) }

abbrev removal : Update
removal = record { store = 110 ∷ []; key = 9 ∷ []; value = none }

changeset_read-changeset_write_example :
    (changeset_write (record { app = 97 ∷ []; changes = map change_of (binding ∷ removal ∷ []) }) []
      >>= changeset_read)
    ≡ some (record { app = 97 ∷ []; changes = map change_of (binding ∷ removal ∷ []) })
changeset_read-changeset_write_example =
    changeset_read-changeset_write (97 ∷ []) binding (removal ∷ []) (omega arith) (omega arith)
      (omega arith)

-- The opcodes, and the bytes of the payloads, as they come in.
abbrev record_all : List ℕ → ℕ → List ℕ → List ℕ
record_all seen opcode payload = seen ++ opcode ∷ payload

abbrev first : Message
first = record { opcode = 32; payload = 97 ∷ 0 ∷ [] }

abbrev second : Message
second = record { opcode = 64; payload = [] }

client_dispatch-overrun_example :
    (can_dispatch (255 ∷ 255 ∷ 32 ∷ []) ≡ false)
    × ((left : ℕ) × (3 ≤ left)
        × (client_dispatch
              (dispatch_message (reading record_all))
              []
              (stream (first ∷ []) ++ 255 ∷ 255 ∷ 32 ∷ [])
            ≡ overrun
                (reading record_all)
                record_all
                (reading-Handles record_all)
                left
                (32 ∷ 97 ∷ 0 ∷ [])
                32
                []
                5))
client_dispatch-overrun_example =
    client_dispatch-overrun (reading record_all) record_all (reading-Handles record_all) []
      (first ∷ []) 32 [] (omega arith) (omega arith)
