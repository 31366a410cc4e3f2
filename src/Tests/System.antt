-- ===== src/Tests/System.antt =====
-- Two daemons, and a daemon with its terminal client, at concrete messages.
use family_com.Prelude.{
  ◌≡◌, refl, ap, Result, true, Bool, String, List, map, [], ◌∷◌, ok, err, pos, arith, some, none,
  if◌then◌else◌, ◌==◌, keep, trim, trim_start, trim_end, cons_trimmed, is_whitespace, get, any,
  byte_length, len_utf8,
}
use family_com.Core.Types.{PeerInfo, new_message_content}
use family_com.Core.Db.{empty, upsert_peer, has_message, has_peer}
use family_com.Core.Protocol.{ack, closing, connection_closed}
use family_com.Core.Protocol.Frames.{write_messages}
use family_com.Core.Ipc.{ClientRequest, ServerMessage, encode_response}
use family_com.Daemon.IpcServer.{handle_ipc_client, connected_client}
use family_com.Daemon.IpcServer.Expected.{between}
use family_com.Tui.IpcClient.{recv}
use family_com.System.Terminal.{
  Step, sends, answers, tells, misses, turns_of, recv-handle_ipc_client,
}
use family_com.Tests.Lines.{requests, responses, request_line, request_line-encodes, write_response}
use mathlib.Core.Option
use family_com.Core.Protocol.{ProtocolError}
use family_com.Daemon.Client.{Session, Network, connected, refused}
use family_com.Daemon.Server.{Connection, handle_connection}
use family_com.Daemon.Server.Serving.{handle_connection_lem, flawless, replies, is_forwarded}
use family_com.Daemon.App.{
  DaemonApp, Outside, IsCalm, handle_send_message, run, chat_of, addresses_of,
}
use family_com.Daemon.App.Incoming.{received_message, received_row}
use family_com.Daemon.App.Sending.{with_sent}
use family_com.System.Delivery.{arrivals, handle_send_message-run}
use family_com.Tests.Engines.{sqlite, json}
use family_com.Tests.Codecs.{toml, msg_pack, pack}
use family_com.Tests.Samples.{
  alice, config, daemon, hello_chat, outside, outside-IsCalm, with_alice-IsWellFormed,
}

-- Alice's daemon, which has found Bob.
abbrev bob : PeerInfo
bob = record alice { id = "bob"; display_name = "Bob"; addresses = "10.0.0.3:7000" ∷ [] }

abbrev alice_daemon : DaemonApp
alice_daemon = record {
  db = (upsert_peer json none empty bob).1;
  config = record config { peer_id = "alice"; display_name = "Alice" };
  online_peers = ("bob", bob) ∷ [];
  broadcast = [];
  disk = [];
}

abbrev served : Connection
served = flawless (closing []) (write_messages msg_pack [] (ack "m1" ∷ [])) (hello_chat ∷ [])

handled :
    handle_connection msg_pack 2
      (flawless (closing (write_messages msg_pack [] (hello_chat ∷ []))) [] [])
    ≡ some (err connection_closed, served)
unfolding replies is_forwarded keep pack
handled =
    handle_connection_lem msg_pack (hello_chat ∷ []) 2
      ((129 ∷ 1 ∷ 2 ∷ 3 ∷ 4 ∷ 7 ∷ [], refl, omega arith), tt) (omega arith)

-- At Bob's address his daemon handles what is written.
abbrev at_bob : Session
at_bob = record {
  fault = none;
  reply = λ bytes.
      Option.map (λ (p : Result (Unit {0}) ProtocolError × Connection). closing p.1.written)
        (handle_connection msg_pack 2 (flawless (closing bytes) [] []));
}

abbrev network : Network
network = λ addr. if addr == "10.0.0.3:7000" then connected at_bob else refused "no route"

abbrev at_alice : Outside
at_alice = record outside { now = pos 7; network = network }

at_alice-IsCalm : IsCalm at_alice
at_alice-IsCalm = record {
  lock = refl;
  fetch_peers = refl;
  fetch_messages = refl;
  upsert = refl;
  store = refl;
  mark = refl;
}

handle_send_message-run_example :
    (handle_send_message sqlite json msg_pack toml at_alice alice_daemon "bob" "hello"
      ≡ (ServerMessage.message_sent "m1", with_sent at_alice alice_daemon "bob" "hello" true))
    × (b' : DaemonApp) × (run sqlite json msg_pack toml daemon
          (arrivals outside "10.0.0.2:50000" (hello_chat ∷ []))
        ≡ ([], b'))
    × (b'.db.messages ≡ (
        if has_message daemon.db.messages "m1"
        then daemon.db.messages
        else received_row "m1" "alice" "hello" (pos 7) ∷ daemon.db.messages))
    × (has_peer b'.db.peers "alice" ≡ true)
    × (b'.broadcast
        ≡ ServerMessage.new_message (received_message "m1" "alice" "hello" (pos 7)) ∷ [])
unfolding new_message_content trim trim_start trim_end cons_trimmed is_whitespace addresses_of get
    upsert_peer has_peer any has_message byte_length len_utf8 chat_of pack
handle_send_message-run_example =
    handle_send_message-run sqlite json msg_pack toml at_alice outside at_alice-IsCalm
      outside-IsCalm alice_daemon daemon "bob" "hello" "10.0.0.3:7000" "10.0.0.2:50000" [] [] 2
      (err connection_closed) served with_alice-IsWellFormed refl refl refl refl
      (129 ∷ 1 ∷ 2 ∷ 3 ∷ 4 ∷ 7 ∷ [], refl, omega arith) (130 ∷ 1 ∷ [], refl, omega arith)
      (omega arith) handled at_bob refl refl
      (ap (Option.map (λ (p : Result (Unit {0}) ProtocolError × Connection). closing p.1.written))
        handled)

-- An event before the client subscribes, a request with its answer, some missed events, and an event.
abbrev steps : List Step
steps =
    tells (ServerMessage.peer_list [])
    ∷ sends ClientRequest.subscribe
    ∷ sends (ClientRequest.get_messages "alice" 100 none)
    ∷ answers (ServerMessage.peer_list [])
    ∷ misses 3
    ∷ tells ServerMessage.done
    ∷ []

recv-handle_ipc_client_example :
    (b : Bool) × (lines : List String) × (handle_ipc_client requests responses
        (turns_of request_line steps)
        connected_client
      ≡ (none, between b lines (ClientRequest.get_messages "alice" 100 none ∷ [])))
    × (map (λ l. recv responses (ok l)) lines
        ≡ map
            (λ m. ok m)
            (ServerMessage.done ∷ ServerMessage.peer_list [] ∷ ServerMessage.done ∷ []))
unfolding encode_response write_response
recv-handle_ipc_client_example =
    recv-handle_ipc_client requests responses request_line request_line-encodes steps refl
