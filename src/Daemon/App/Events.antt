-- ===== src/Daemon/App/Events.antt =====
-- crates/familycomd/src/app.rs: the handlers of discovery events and of messages from peers.
use family_com.Prelude.{
  String, Bool, true, false, [], ◌∷◌, ok, err, insert, remove, contains_key, any, if◌then◌else◌,
  ◌==◌,
}
use family_com.Core.Types.{PeerId, MessageId, Timestamp, PeerInfo, Message, received}
use family_com.Core.Config.{Toml}
use family_com.Core.Db.Engine.{Sqlite, Json}
use family_com.Core.Db.{Database, get_peers, upsert_peer, save_message, mark_delivered}
use family_com.Core.Protocol.{PeerMessage, chat, ack, ping, pong, MsgPack}
use family_com.Core.Ipc.{ServerMessage}
use family_com.Daemon.App.State.{
  DiscoveryEvent, peer_found, peer_lost, IncomingMessage, DaemonApp, Outside, send_event,
}

-- The message that is stored for one that came in.
unfoldable pub incoming_message : MessageId → PeerId → String → Timestamp → Message
incoming_message id sender_id content timestamp = record {
  id = id;
  peer_id = sender_id;
  direction = received;
  content = content;
  timestamp = timestamp;
  delivered = true;
}

module _ (sql : Sqlite) (json : Json) (mp : MsgPack) (toml : Toml) (o : Outside) where
  unfoldable pub handle_discovery_event : DaemonApp → DiscoveryEvent → DaemonApp
  unfolding send_event
  handle_discovery_event app (peer_found peer) =
      send_event (ServerMessage.peer_online peer) (record app {
        online_peers = insert app.online_peers peer.id peer;
        db = if o.poisoned then app.db else (upsert_peer json o.upsert app.db peer).1;
      })
  handle_discovery_event app (peer_lost k) =
      if contains_key app.online_peers k
      then send_event (ServerMessage.peer_offline k)
          (record app { online_peers = remove app.online_peers k })
      else app

  -- The peer that is stored for a sender that the database does not know.
  unfoldable pub sender_info : PeerId → String → String → PeerInfo
  sender_info sender_id sender_name from_addr = record {
    id = sender_id;
    display_name = sender_name;
    addresses = from_addr ∷ [];
    last_seen_at = o.now;
    online = true;
  }

  -- `db.get_peers().ok().map(.. any ..).unwrap_or(false)`.
  unfoldable pub peer_exists : Database → PeerId → Bool
  peer_exists db k = elim (get_peers sql json o.fetch_peers db) [
    | ok peers ↦ any (λ p. p.id == k) peers
    | err _ ↦ false
  ]

  -- The block of `handle_incoming_message` that holds the database.
  unfoldable pub store_incoming : Database → PeerInfo → Message → Database
  unfolding peer_exists
  store_incoming db sender message =
      let db' =
        if peer_exists db message.peer_id then db else (upsert_peer json o.upsert db sender).1 in
      (save_message sql o.store db' message).1

  unfoldable pub handle_peer_message : DaemonApp → String → PeerMessage → DaemonApp
  unfolding store_incoming send_event sender_info incoming_message
  handle_peer_message app from_addr (chat id sender_id sender_name content timestamp) =
      let message = incoming_message id sender_id content timestamp in
      let sender = sender_info sender_id sender_name from_addr in
      send_event (ServerMessage.new_message message)
        (record app { db = if o.poisoned then app.db else store_incoming app.db sender message })
  handle_peer_message app from_addr (ack k) =
      send_event (ServerMessage.message_delivered k)
        (record app { db = if o.poisoned then app.db else (mark_delivered o.mark app.db k).1 })
  handle_peer_message app from_addr ping = app
  handle_peer_message app from_addr pong = app

  unfoldable pub handle_incoming_message : DaemonApp → IncomingMessage → DaemonApp
  unfolding handle_peer_message
  handle_incoming_message app incoming = handle_peer_message app incoming.from_addr incoming.message
