-- ===== src/Daemon/IpcServer.antt =====
-- crates/familycomd/src/ipc_server.rs: the handler of one terminal client, as steps of a state. A
-- step is one turn of the `select!` loop: the branch that was ready, with what its write or its send
-- meets. The channel for the answers to this client, which goes along with each request, is left out.
pub mod Expected
pub mod Answers
pub mod Socket
use Prim.Native.String.{◌++◌ as ◌<>◌}
use family_com.Prelude.{
  ℕ, String, Bool, true, false, List, [], ◌∷◌, ◌++◌, Option, none, some, Result, ok, err,
  if◌then◌else◌, ◌==◌,
}
use family_com.Core.Ipc.{
  ClientRequest, ServerMessage, IpcError, IpcJson, show_ipc_error, decode_request, encode_response,
}

-- The branch that is ready. `read_line` has the text that was read, which is empty at the end of the
-- stream; the last three are what a `broadcast::Receiver` gives.
pub data Ready : Type 0 where
  read_line : String → Ready
  read_failed : String → Ready
  response : ServerMessage → Ready
  event : ServerMessage → Ready
  lagged : ℕ → Ready
  closed : Ready

-- The error of the write of this turn, if it fails, and whether the daemon's channel is closed.
pub record Turn : Type 0 where
  pub ready : Ready
  pub fault : Option String
  pub daemon_gone : Bool

-- `Box<dyn std::error::Error>`.
pub data ClientFailure : Type 0 where
  ipc : IpcError → ClientFailure
  io : String → ClientFailure

-- The variables of the loop, of which `subscribed` also says whether there is an `event_rx`, the
-- lines that went out whole, and the requests that were forwarded.
pub record IpcClient : Type 0 where
  pub line_buf : String
  pub subscribed : Bool
  pub written : List String
  pub forwarded : List ClientRequest

-- What the handler returns, if it does, and the state.
abbrev pub Outcome : Type 0
Outcome = Option (Result (Unit {0}) ClientFailure) × IpcClient

abbrev pub invalid_request : IpcError → ServerMessage
unfolding show_ipc_error
invalid_request e =
    ServerMessage.error "invalid_request" ("failed to parse request: " <> show_ipc_error e)

-- `write_all` of a line, if there is one.
unfoldable pub write_all : Option String → Result String IpcError → IpcClient → Outcome
write_all fault (err e) c = (some (err (ipc e)), c)
write_all (some e) (ok line) c = (some (err (io e)), c)
write_all none (ok line) c = (none, record c { written = c.written ++ line ∷ [] })

-- `encode_response` and `write_all`, each with `?`.
unfoldable pub write_response :
    IpcJson ServerMessage → Option String → ServerMessage → IpcClient → Outcome
unfolding write_all
write_response responses fault msg c = write_all fault (encode_response responses msg) c

-- `line_buf.clear()`, if the loop goes on.
unfoldable pub clear_line : Outcome → Outcome
clear_line (none, c) = (none, record c { line_buf = "" })
clear_line (some r, c) = (some r, c)

-- A request that was read.
unfoldable pub handle_request : IpcJson ServerMessage → Turn → ClientRequest → IpcClient → Outcome
unfolding write_response
handle_request responses turn ClientRequest.subscribe c =
    write_response responses turn.fault ServerMessage.done (record c { subscribed = true })
handle_request responses turn request c =
    if turn.daemon_gone
    then (some (ok tt), c)
    else (none, record c { forwarded = c.forwarded ++ request ∷ [] })

-- A line that was read into the buffer.
unfoldable pub handle_line :
    IpcJson ClientRequest → IpcJson ServerMessage → Turn → IpcClient → Outcome
unfolding handle_request write_response clear_line
handle_line requests responses turn c = clear_line (elim (decode_request requests c.line_buf) [
  | err e ↦ write_response responses turn.fault (invalid_request e) c
  | ok request ↦ handle_request responses turn request c
])

-- The branch of events never resolves for a client that is not subscribed.
unfoldable pub handle_turn :
    IpcJson ClientRequest → IpcJson ServerMessage → Turn → IpcClient → Outcome
unfolding handle_line write_response
handle_turn requests responses turn c = elim turn.ready [
  | read_line text ↦
      if text == ""
      then (some (ok tt), c)
      else handle_line requests responses turn (record c { line_buf = c.line_buf <> text })
  | read_failed e ↦ (some (err (io e)), c)
  | response msg ↦ write_response responses turn.fault msg c
  | event msg ↦ if c.subscribed then write_response responses turn.fault msg c else (none, c)
  | lagged n ↦ (none, c)
  | closed ↦ if c.subscribed then (some (ok tt), c) else (none, c)
]

abbrev pub connected_client : IpcClient
connected_client = record { line_buf = ""; subscribed = false; written = []; forwarded = [] }

-- The loop over turns, up to its return.
unfoldable pub handle_ipc_client :
    IpcJson ClientRequest → IpcJson ServerMessage → List Turn → IpcClient → Outcome
unfolding handle_turn
handle_ipc_client requests responses [] c = (none, c)
handle_ipc_client requests responses (turn ∷ turns) c =
    let (ended, c') = handle_turn requests responses turn c in
    elim ended [ some r ↦ (some r, c') | none ↦ handle_ipc_client requests responses turns c' ]
