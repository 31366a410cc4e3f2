-- ===== src/Daemon/App/Handlers.antt =====
-- Every handler, and so every run of the daemon, keeps the database well-formed.
use family_com.Prelude.{String, List, [], ◌∷◌, arith}
use family_com.Core.Types.{PeerId, PeerInfo, Message}
use family_com.Core.Config.{Toml}
use family_com.Core.Db.Engine.{Sqlite, Json}
use family_com.Core.Db.{Database, save_message, upsert_peer}
use family_com.Core.Db.Invariant.{IsWellFormed}
use family_com.Core.Db.Integrity.{run_update-IsWellFormed, upserts, saves, marks}
use family_com.Core.Protocol.{PeerMessage, chat, ack, ping, pong, MsgPack}
use family_com.Core.Ipc.{ClientRequest}
use family_com.Daemon.App.{
  DaemonApp, Outside, DiscoveryEvent, peer_found, peer_lost, Event, discovery, incoming, request,
  shutdown, handle_discovery_event, store_incoming, handle_peer_message, handle_incoming_message,
  deliver, store_and_deliver, handle_send_message, addresses_of, handle_set_display_name,
  handle_ipc_request, run, send_event, sender_info, incoming_message, chat_of, outgoing_message,
}

module _ (sql : Sqlite) (json : Json) (mp : MsgPack) (toml : Toml) (o : Outside) where
  handle_discovery_event-IsWellFormed :
      (app : DaemonApp) (e : DiscoveryEvent)
      → IsWellFormed json app.db
      → IsWellFormed json (handle_discovery_event sql json mp toml o app e).db
  unfolding handle_discovery_event send_event
  handle_discovery_event-IsWellFormed app (peer_found p) w =
      ground (arith, run_update-IsWellFormed sql json o.upsert app.db (upserts p) w)
  handle_discovery_event-IsWellFormed app (peer_lost k) w = ground arith

  store_incoming-IsWellFormed :
      (db : Database) (sender : PeerInfo) (m : Message)
      → IsWellFormed json db
      → IsWellFormed json (store_incoming sql json mp toml o db sender m)
  unfolding store_incoming
  store_incoming-IsWellFormed db sender m w = ground (
    arith,
    run_update-IsWellFormed sql json o.store db (saves m) w,
    run_update-IsWellFormed sql json o.store (upsert_peer json o.upsert db sender).1 (saves m)
        (run_update-IsWellFormed sql json o.upsert db (upserts sender) w),
  )

  handle_peer_message-IsWellFormed :
      (app : DaemonApp) (from_addr : String) (m : PeerMessage)
      → IsWellFormed json app.db
      → IsWellFormed json (handle_peer_message sql json mp toml o app from_addr m).db
  unfolding handle_peer_message send_event
  handle_peer_message-IsWellFormed app from_addr (chat id k n t s) w = ground (
    arith,
    store_incoming-IsWellFormed app.db (sender_info sql json mp toml o k n from_addr)
        (incoming_message id k t s) w,
  )
  handle_peer_message-IsWellFormed app from_addr (ack k) w =
      ground (arith, run_update-IsWellFormed sql json o.mark app.db (marks k) w)
  handle_peer_message-IsWellFormed app from_addr ping w = w
  handle_peer_message-IsWellFormed app from_addr pong w = w

  deliver-IsWellFormed :
      (app : DaemonApp) (addresses : List String) (m : PeerMessage)
      → IsWellFormed json app.db
      → IsWellFormed json (deliver sql json mp toml o app addresses m).1.db
  unfolding deliver
  deliver-IsWellFormed app addresses m w =
      ground (arith, run_update-IsWellFormed sql json o.mark app.db (marks o.fresh_id) w)

  store_and_deliver-IsWellFormed :
      (app : DaemonApp) (k : PeerId) (content : String) (addresses : List String)
      → IsWellFormed json app.db
      → IsWellFormed json (store_and_deliver sql json mp toml o app k content addresses).1.db
  unfolding store_and_deliver
  store_and_deliver-IsWellFormed app k content addresses w =
      let m : Message = outgoing_message sql json mp toml o k content in
      let stored : IsWellFormed json (save_message sql o.store app.db m).1 =
        run_update-IsWellFormed sql json o.store app.db (saves m) w in
      let sends : PeerMessage = chat_of sql json mp toml o app content in
      ground (
        arith,
        stored,
        deliver-IsWellFormed app addresses sends w,
        deliver-IsWellFormed (record app { db = (save_message sql o.store app.db m).1 }) addresses
            sends stored,
      )

  handle_send_message-IsWellFormed :
      (app : DaemonApp) (k : PeerId) (content : String)
      → IsWellFormed json app.db
      → IsWellFormed json (handle_send_message sql json mp toml o app k content).1.db
  unfolding handle_send_message
  handle_send_message-IsWellFormed app k content w = ground (
    arith,
    store_and_deliver-IsWellFormed app k content (addresses_of sql json mp toml o app k) w,
  )

  handle_ipc_request-IsWellFormed :
      (app : DaemonApp) (r : ClientRequest)
      → IsWellFormed json app.db
      → IsWellFormed json (handle_ipc_request sql json mp toml o app r).1.db
  unfolding handle_ipc_request handle_set_display_name
  handle_ipc_request-IsWellFormed app ClientRequest.list_peers w = w
  handle_ipc_request-IsWellFormed app (ClientRequest.get_messages k limit before) w = w
  handle_ipc_request-IsWellFormed app (ClientRequest.send_message k content) w =
      handle_send_message-IsWellFormed app k content w
  handle_ipc_request-IsWellFormed app ClientRequest.get_config w = w
  handle_ipc_request-IsWellFormed app (ClientRequest.set_display_name name) w = ground arith
  handle_ipc_request-IsWellFormed app ClientRequest.subscribe w = w

-- A run of the daemon, over any events in any order and whatever fails on the way, leaves the database
-- well-formed if it was so before.
pub run-IsWellFormed :
    (sql : Sqlite) (json : Json) (mp : MsgPack) (toml : Toml) (app : DaemonApp)
    (events : List (Outside × Event))
    → IsWellFormed json app.db
    → IsWellFormed json (run sql json mp toml app events).1.db
unfolding run
run-IsWellFormed sql json mp toml app [] w = w
run-IsWellFormed sql json mp toml app ((o, discovery e) ∷ rest) w =
    run-IsWellFormed sql json mp toml (handle_discovery_event sql json mp toml o app e) rest
      (handle_discovery_event-IsWellFormed sql json mp toml o app e w)
run-IsWellFormed sql json mp toml app ((o, incoming m) ∷ rest) w =
    run-IsWellFormed sql json mp toml (handle_incoming_message sql json mp toml o app m) rest (
      unfold handle_incoming_message in
      handle_peer_message-IsWellFormed sql json mp toml o app m.from_addr m.message w)
run-IsWellFormed sql json mp toml app ((o, request r) ∷ rest) w =
    run-IsWellFormed sql json mp toml (handle_ipc_request sql json mp toml o app r).1 rest
      (handle_ipc_request-IsWellFormed sql json mp toml o app r w)
run-IsWellFormed sql json mp toml app ((o, shutdown) ∷ rest) w = w
