-- ===== src/Tui/IpcClient.antt =====
-- crates/familycom/src/ipc_client.rs: the client's end of the socket. What a read gives and whether a
-- write fails are arguments; of what is written the lines that went out whole are kept.
use Prim.Native.String.{◌++◌ as ◌<>◌}
use family_com.Prelude.{
  String, Bool, List, [], ◌∷◌, ◌++◌, Option, none, some, Result, ok, err, ◌>>=◌, map_err,
  if◌then◌else◌, ◌==◌,
}
use family_com.Core.Ipc.{
  ClientRequest, ServerMessage, IpcJson, show_ipc_error, encode_request, decode_response,
}

pub data IpcClientError : Type 0 where
  connect : String → String → IpcClientError
  daemon_not_running : String → IpcClientError
  io : String → IpcClientError
  json : String → IpcClientError
  disconnected : IpcClientError
  protocol : String → IpcClientError

-- Its `Display`.
unfoldable pub show_client_error : IpcClientError → String
show_client_error (connect path source) =
    "could not connect to daemon at " <> (path <> (": " <> source))
show_client_error (daemon_not_running path) =
    "daemon is not running (socket not found at " <> (path <> ")")
show_client_error (io e) = "I/O error: " <> e
show_client_error (json e) = "JSON error: " <> e
show_client_error disconnected = "connection to daemon closed"
show_client_error (protocol e) = "IPC protocol error: " <> e

-- Does the socket file exist, and how does the connection fail?
unfoldable pub connect_to : String → Bool → Option String → Result (List String) IpcClientError
connect_to path exists refused =
    if exists
    then elim refused [ some e ↦ err (connect path e) | none ↦ ok [] ]
    else err (daemon_not_running path)

-- `send`: the outcome, and the lines written.
unfoldable pub send :
    IpcJson ClientRequest
    → Option String
    → List String
    → ClientRequest
    → Result (Unit {0}) IpcClientError × List String
send requests fault written request = elim (encode_request requests request) [
  | err e ↦ (err (protocol (show_ipc_error e)), written)
  | ok line ↦ elim fault [ some e ↦ (err (io e), written) | none ↦ (ok tt, written ++ line ∷ []) ]
]

-- `recv`: a read gives an error or a text, which is empty at the end of the stream.
unfoldable pub recv :
    IpcJson ServerMessage → Result String String → Result ServerMessage IpcClientError
recv responses (err e) = err (io e)
recv responses (ok text) =
    if text == ""
    then err disconnected
    else map_err (λ e. protocol (show_ipc_error e)) (decode_response responses text)

-- What `subscribe` makes of the response.
unfoldable pub check_subscribed : ServerMessage → Result (Unit {0}) IpcClientError
check_subscribed ServerMessage.done = ok tt
check_subscribed (ServerMessage.error code message) = err (protocol (code <> (": " <> message)))
check_subscribed _ = err (protocol "unexpected response to Subscribe")

unfoldable pub subscribe :
    IpcJson ClientRequest
    → IpcJson ServerMessage
    → Option String
    → Result String String
    → List String
    → Result (Unit {0}) IpcClientError × List String
unfolding send recv check_subscribed
subscribe requests responses fault reply written =
    let (sent, written') = send requests fault written ClientRequest.subscribe in
    (do _ ← sent; response ← recv responses reply; check_subscribed response, written')
