-- ===== src/Tests/IpcServer.antt =====
-- A client that subscribes and lists the peers, with an event before and one after it subscribed.
use family_com.Prelude.{
  ◌≡◌, List, [], ◌∷◌, none, refl, true, false, trim, trim_start, trim_end, is_whitespace,
}
use family_com.Core.Ipc.{ClientRequest, ServerMessage, decode_request, encode_response}
use family_com.Daemon.IpcServer.{
  Ready, read_line, response, event, lagged, Turn, handle_ipc_client, connected_client,
}
use family_com.Daemon.IpcServer.Expected.{between}
use family_com.Daemon.IpcServer.Answers.{handle_ipc_client-told}
use family_com.Tests.Engines.{write_texts, read_texts}
use family_com.Tests.Lines.{
  requests, responses, request_line, request_texts, texts_request, write_response,
}

abbrev calm : Ready → Turn
calm ready = record { ready = ready; fault = none; daemon_gone = false }

abbrev turns : List Turn
turns =
    calm (event (ServerMessage.peer_list []))
    ∷ calm (read_line (request_line ClientRequest.subscribe))
    ∷ calm (read_line (request_line ClientRequest.list_peers))
    ∷ calm (response (ServerMessage.peer_list []))
    ∷ calm (lagged 3)
    ∷ calm (event ServerMessage.done)
    ∷ []

handle_ipc_client-told_example :
    handle_ipc_client requests responses turns connected_client
    ≡ (none, between true ("ok\n" ∷ "no_peers\n" ∷ "ok\n" ∷ []) (ClientRequest.list_peers ∷ []))
unfolding request_texts texts_request write_texts read_texts write_response decode_request
    encode_response trim trim_start trim_end is_whitespace
handle_ipc_client-told_example =
    handle_ipc_client-told requests responses turns false [] [] refl refl
