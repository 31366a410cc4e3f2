-- ===== src/Tests/Daemon.antt =====
-- The client, the connection handler and the main loop at concrete inputs.
use mathlib.Core.List.{Mem}
use family_com.Prelude.{
  pos, suc, ◌≡◌, refl, ◌↔◌, ◌⊎◌, String, true, false, List, [], ◌∷◌, ◌++◌, some, Result, ok, err,
  is_ok, arith, length, keep, get, any, All, if◌then◌else◌, ◌||◌, ltb, trim, is_blank, byte_length,
  contains_key, ◌==◌,
}
use family_com.Core.Types.{MessageId, PeerInfo, new_display_name}
use family_com.Core.Db.{has_message, has_peer}
use family_com.Core.Db.Invariant.{IsWellFormed}
use family_com.Core.Protocol.{
  ack, ping, ProtocolError, connection_closed, Reader, closing, write_message, read_message,
}
use family_com.Core.Protocol.Frames.{Fits, write_messages}
use family_com.Core.Ipc.{ClientRequest, ServerMessage}
use family_com.Daemon.Client.{
  Session, Network, connected, refused, no_address, send_message, send_to_any,
}
use family_com.Daemon.Client.Delivery.{send_to_any_lem, send_message_iff}
use family_com.Daemon.Server as Server
use family_com.Prelude.{Option}
use family_com.Daemon.Server.{handle_connection}
use family_com.Daemon.Server.Accepting.{accept_loop, accept_loop_total}
use family_com.Daemon.Server.Serving.{handle_connection_lem, flawless, replies, is_forwarded}
use family_com.Daemon.App.{
  DaemonApp, Outside, Event, discovery, incoming, request, shutdown, peer_found, peer_lost, run,
  handle_discovery_event, handle_list_peers, handle_incoming_message, handle_send_message,
  handle_set_display_name,
}
use family_com.Daemon.App.Handlers.{run-IsWellFormed}
use family_com.Daemon.App.Online.{run-online_peers, last_said, handle_list_peers-peer_found}
use family_com.Daemon.App.Incoming.{handle_incoming_message-chat, received_message, received_row}
use family_com.Daemon.App.Sending.{handle_send_message-or}
use family_com.Daemon.App.Naming.{handle_set_display_name_lem}
use family_com.Tests.Engines.{sqlite, json}
use family_com.Tests.Codecs.{toml, msg_pack, pack}
use family_com.Tests.Samples.{
  alice, hello_chat, with_alice-IsWellFormed, config, session, outside, outside-IsCalm, daemon,
}

abbrev network : Network
network = λ addr. if addr == "10.0.0.2:7000" then connected session else refused "no route"

send_to_any_lem_example :
    (is_ok (send_to_any msg_pack network ("10.0.0.1:7000" ∷ "10.0.0.2:7000" ∷ []) hello_chat)
      ≡ any
          (λ addr. is_ok (send_message msg_pack network addr hello_chat))
          ("10.0.0.1:7000" ∷ "10.0.0.2:7000" ∷ []))
    × (send_to_any msg_pack network [] hello_chat ≡ err no_address)
    × ((before : List String) (addr : String)
        → "10.0.0.1:7000" ∷ "10.0.0.2:7000" ∷ [] ≡ before ++ addr ∷ []
        → any (λ a. is_ok (send_message msg_pack network a hello_chat)) before ≡ false
        → send_to_any msg_pack network ("10.0.0.1:7000" ∷ "10.0.0.2:7000" ∷ []) hello_chat
          ≡ send_message msg_pack network addr hello_chat)
send_to_any_lem_example =
    send_to_any_lem msg_pack network hello_chat ("10.0.0.1:7000" ∷ "10.0.0.2:7000" ∷ [])

send_message_iff_example : (send_message msg_pack network "10.0.0.2:7000" hello_chat ≡ ok tt) ↔ (
    (s : Session) × (r : Reader) × (k : MessageId) × (network "10.0.0.2:7000" ≡ connected s)
    × ((write_message msg_pack s.fault [] hello_chat).0 ≡ ok tt)
    × (s.reply (write_message msg_pack s.fault [] hello_chat).1 ≡ some r)
    × ((read_message msg_pack r).0 ≡ ok (ack k)))
send_message_iff_example = send_message_iff msg_pack network "10.0.0.2:7000" hello_chat

-- A connection on which a frame arrives in part.
abbrev broken : Server.Connection
broken = flawless (closing (0 ∷ 0 ∷ 0 ∷ 9 ∷ 1 ∷ [])) [] []

accept_loop_total_example :
    (length (accept_loop msg_pack 6 (err "too many open files" ∷ ok broken ∷ []))
      ≡ length (broken ∷ []))
    × All
        (λ (r : Option (Result (Unit {0}) ProtocolError × Server.Connection)).
          (x : Result (Unit {0}) ProtocolError × Server.Connection) × (r ≡ some x))
        (accept_loop msg_pack 6 (err "too many open files" ∷ ok broken ∷ []))
accept_loop_total_example =
    accept_loop_total msg_pack 6 (err "too many open files" ∷ ok broken ∷ []) (omega arith, tt)

hello-Fits : Fits msg_pack hello_chat
unfolding pack
hello-Fits = (129 ∷ 1 ∷ 2 ∷ 3 ∷ 4 ∷ 7 ∷ [], refl, omega arith)

ping-Fits : Fits msg_pack ping
unfolding pack
ping-Fits = (131 ∷ [], refl, omega arith)

handle_connection_lem_example :
    handle_connection msg_pack 3
      (flawless (closing (write_messages msg_pack [] (hello_chat ∷ ping ∷ []))) [] [])
    ≡ some (
      err connection_closed,
      flawless
          (closing [])
          (write_messages msg_pack [] (replies (hello_chat ∷ ping ∷ [])))
          (keep is_forwarded (hello_chat ∷ ping ∷ [])),
    )
handle_connection_lem_example =
    handle_connection_lem msg_pack (hello_chat ∷ ping ∷ []) 3 (hello-Fits, (ping-Fits, tt))
      (omega arith)

-- Alice is found, says hello, is asked for, and is lost.
abbrev day : List (Outside × Event)
day =
    (outside, discovery (peer_found alice))
    ∷ (outside, incoming (record { message = hello_chat; from_addr = "10.0.0.2:4000" }))
    ∷ (outside, request ClientRequest.list_peers)
    ∷ (outside, discovery (peer_lost "alice"))
    ∷ (outside, shutdown)
    ∷ []

run-IsWellFormed_example : IsWellFormed json (run sqlite json msg_pack toml daemon day).1.db
run-IsWellFormed_example =
    run-IsWellFormed sqlite json msg_pack toml daemon day with_alice-IsWellFormed

run-online_peers_example :
    get (run sqlite json msg_pack toml daemon day).1.online_peers "alice"
    ≡ last_said "alice" (get daemon.online_peers "alice") day
run-online_peers_example = run-online_peers sqlite json msg_pack toml daemon day "alice"

handle_list_peers-peer_found_example :
    (app' : DaemonApp) × (ps : List PeerInfo) × (handle_discovery_event sqlite json msg_pack toml
        outside daemon
        (peer_found alice)
      ≡ app')
    × (handle_list_peers sqlite json msg_pack toml outside app' ≡ ServerMessage.peer_list ps)
    × Mem (record alice { online = true }) ps
    × All (λ (q : PeerInfo). q.online ≡ contains_key app'.online_peers q.id) ps
    × (length ps ≡ (
        if has_peer daemon.db.peers alice.id
        then length daemon.db.peers
        else suc (length daemon.db.peers)))
handle_list_peers-peer_found_example =
    handle_list_peers-peer_found sqlite json msg_pack toml outside daemon alice outside-IsCalm
      with_alice-IsWellFormed

handle_incoming_message-chat_example :
    (app' : DaemonApp) × (handle_incoming_message sqlite json msg_pack toml outside daemon
        (record { message = hello_chat; from_addr = "10.0.0.2:4000" })
      ≡ app')
    × (app'.db.messages ≡ (
        if has_message daemon.db.messages "m1"
        then daemon.db.messages
        else received_row "m1" "alice" "hello" (pos 7) ∷ daemon.db.messages))
    × (has_peer app'.db.peers "alice" ≡ true)
    × (app'.broadcast
        ≡ ServerMessage.new_message (received_message "m1" "alice" "hello" (pos 7))
          ∷ daemon.broadcast)
handle_incoming_message-chat_example =
    handle_incoming_message-chat sqlite json msg_pack toml outside outside-IsCalm daemon
      "10.0.0.2:4000" "m1" "alice" "Alice" "hello" (pos 7) with_alice-IsWellFormed

handle_send_message-or_example :
    ((handle_send_message sqlite json msg_pack toml outside daemon "carol" "hello").0
      ≡ ServerMessage.message_sent "m1")
    ⊎ ((code : String) × (text : String) × (handle_send_message sqlite json msg_pack toml outside
            daemon "carol" "hello"
          ≡ (ServerMessage.error code text, daemon))
        × ((code ≡ "invalid_content") ⊎ ((code ≡ "peer_not_found") ⊎ (code ≡ "db_error"))))
handle_send_message-or_example =
    handle_send_message-or sqlite json msg_pack toml outside daemon "carol" "hello"

handle_set_display_name_lem_example :
    if is_blank (trim " Bobby ") || ltb 50 (byte_length " Bobby ")
    then handle_set_display_name sqlite json msg_pack toml outside daemon " Bobby "
      ≡ (ServerMessage.error "invalid_name" "display name must be 1-50 characters", daemon)
    else ((handle_set_display_name sqlite json msg_pack toml outside daemon " Bobby ").1.config
        ≡ record config { display_name = trim " Bobby " })
      × (new_display_name " Bobby " ≡ ok (trim " Bobby "))
handle_set_display_name_lem_example =
    handle_set_display_name_lem sqlite json msg_pack toml outside daemon " Bobby "
