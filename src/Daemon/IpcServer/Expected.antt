-- ===== src/Daemon/IpcServer/Expected.antt =====
-- What a client is told and what the daemon is asked, from the turns alone, without the loop.
use family_com.Prelude.{
  String, Bool, true, false, List, [], ◌∷◌, ◌++◌, Option, none, some, Result, ok, err,
  if◌then◌else◌, ◌==◌, ◌&&◌, ◌||◌, not, is_ok,
}
use family_com.Core.Ipc.{
  ClientRequest, ServerMessage, IpcError, IpcJson, decode_request, encode_response,
}
use family_com.Daemon.IpcServer.{
  read_line, read_failed, response, event, lagged, closed, Turn, IpcClient, invalid_request,
}

abbrev is_none : Option String → Bool
is_none none = true
is_none (some e) = false

-- Nothing ends the loop in this turn.
abbrev pub goes_on : Turn → Bool
goes_on turn = elim turn.ready [
  | read_line text ↦ not (text == "") && (not turn.daemon_gone && is_none turn.fault)
  | read_failed e ↦ false
  | response msg ↦ is_none turn.fault
  | event msg ↦ is_none turn.fault
  | lagged n ↦ true
  | closed ↦ false
]

abbrev pub is_subscribe : Result ClientRequest IpcError → Bool
is_subscribe (ok ClientRequest.subscribe) = true
is_subscribe _ = false

-- The answer to a line itself, and what is forwarded of it.
abbrev pub line_answer : Result ClientRequest IpcError → List ServerMessage
line_answer (err e) = invalid_request e ∷ []
line_answer (ok ClientRequest.subscribe) = ServerMessage.done ∷ []
line_answer (ok _) = []

abbrev pub line_request : Result ClientRequest IpcError → List ClientRequest
line_request (err e) = []
line_request (ok ClientRequest.subscribe) = []
line_request (ok request) = request ∷ []

-- What one turn adds, for a client that is subscribed or not.
abbrev pub subscribes : IpcJson ClientRequest → Turn → Bool → Bool
subscribes requests turn subscribed = elim turn.ready [
  | read_line text ↦ is_subscribe (decode_request requests text) || subscribed
  | _ ↦ subscribed
]

abbrev pub answers : IpcJson ClientRequest → Turn → Bool → List ServerMessage
answers requests turn subscribed = elim turn.ready [
  | read_line text ↦ line_answer (decode_request requests text)
  | response msg ↦ msg ∷ []
  | event msg ↦ if subscribed then msg ∷ [] else []
  | _ ↦ []
]

abbrev pub asks : IpcJson ClientRequest → Turn → List ClientRequest
asks requests turn = elim turn.ready [
  | read_line text ↦ line_request (decode_request requests text)
  | _ ↦ []
]

-- What a client was sent and asked by its turns, in order, and whether it is subscribed after them.
abbrev pub subscribed_after : IpcJson ClientRequest → List Turn → Bool → Bool
subscribed_after requests [] b = b
subscribed_after requests (turn ∷ turns) b =
    subscribed_after requests turns (subscribes requests turn b)

abbrev pub told : IpcJson ClientRequest → List Turn → Bool → List ServerMessage
told requests [] b = []
told requests (turn ∷ turns) b =
    answers requests turn b ++ told requests turns (subscribes requests turn b)

abbrev pub asked : IpcJson ClientRequest → List Turn → List ClientRequest
asked requests [] = []
asked requests (turn ∷ turns) = asks requests turn ++ asked requests turns

-- The line in which a message goes out, if it can be encoded.
abbrev pub is_encoded : IpcJson ServerMessage → ServerMessage → Bool
is_encoded responses msg = is_ok (encode_response responses msg)

abbrev pub line_of : IpcJson ServerMessage → ServerMessage → String
line_of responses msg = elim (encode_response responses msg) [ ok line ↦ line | err e ↦ "" ]

abbrev pub all : {A : Type 0} → (A → Bool) → List A → Bool
all p [] = true
all p (x ∷ xs) = p x && all p xs

-- Between two turns the buffer is empty.
abbrev pub between : Bool → List String → List ClientRequest → IpcClient
between b lines requests = record {
  line_buf = "";
  subscribed = b;
  written = lines;
  forwarded = requests;
}
